-- ===== src/Tests/Globals.antt =====
-- The constraint arrays of a path of three vertices, all of them different, that is matched from its
-- last vertex on, as in source/cuMatch/lgf_scheduler.cpp.
use cu_match.Prelude.{ℕ, ◌+◌, ◌-◌, ◌<◌, ◌≡◌, refl, List, [], ◌∷◌, length, get_or, arith}
use cu_match.QueryGraph.{ConstraintInfo, not_equal, regular_constraint}
use cu_match.Scheduler.Globals.{ConstraintArrays, layout_constraints, init_constraints}
use cu_match.Scheduler.Globals.Constraints.{partners, init_constraints-partners}

abbrev differ : ℕ → ℕ → ConstraintInfo
differ a b = record { v1_id = a; v2_id = b; c_type = not_equal }

abbrev all_different : List ConstraintInfo
all_different =
    differ 0 1
    ∷ differ 0 2
    ∷ record { v1_id = 0; v2_id = 1; c_type = regular_constraint }
    ∷ differ 1 2
    ∷ []

abbrev backwards : ℕ → ℕ
backwards v = 2 - v

abbrev arrays : ConstraintArrays
arrays = init_constraints backwards all_different 3

arrays-values :
    (arrays.constraint_ptr 0 ≡ 0)
    × (arrays.constraint_ptr 1 ≡ 2)
    × (arrays.constraint_ptr 2 ≡ 3)
    × (arrays.constraint_ptr 3 ≡ 3)
    × (arrays.constraints 0 ≡ 1)
    × (arrays.constraints 1 ≡ 0)
    × (arrays.constraints 2 ≡ 0)
unfolding layout_constraints
arrays-values = (refl, refl, refl, refl, refl, refl, refl)

init_constraints-partners_example :
    let g = init_constraints backwards all_different 3 in
    let ps = partners backwards 0 all_different in
    (g.constraint_ptr 0 ≡ 0)
    × (g.constraint_ptr (0 + 1) ≡ g.constraint_ptr 0 + length ps)
    × ((j : ℕ) → j < length ps → g.constraints (g.constraint_ptr 0 + j) ≡ get_or ps j 0)
init_constraints-partners_example =
    init_constraints-partners backwards all_different 3 0 (omega arith)
