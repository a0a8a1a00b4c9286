-- ===== src/Scheduler/Globals.antt =====
-- source/cuMatch/lgf_scheduler.cpp, `init_global_kernel_info`: the inequality constraints that the
-- kernels read, as one array with the start of the part of each query vertex.
pub mod Constraints
use cu_match.Prelude.{
  ℕ, zero, suc, ◌+◌, Bool, true, false, List, [], ◌∷◌, ◌++◌, length, ltb, if◌then◌else◌, update,
}
use cu_match.QueryGraph.{ConstraintInfo, ConstraintType, not_equal, regular_constraint}

abbrev pub is_not_equal : ConstraintType → Bool
is_not_equal not_equal = true
is_not_equal regular_constraint = false

-- The first loop, `const_adj`
abbrev pub add_constraint : (ℕ → ℕ) → ConstraintInfo → (ℕ → List ℕ) → ℕ → List ℕ
add_constraint rank c adj =
    if is_not_equal c.c_type
    then if ltb (rank c.v1_id) (rank c.v2_id)
      then update adj c.v2_id (adj c.v2_id ++ rank c.v1_id ∷ [])
      else update adj c.v1_id (adj c.v1_id ++ rank c.v2_id ∷ [])
    else adj

abbrev pub const_adj : (ℕ → ℕ) → List ConstraintInfo → (ℕ → List ℕ) → ℕ → List ℕ
const_adj rank [] adj = adj
const_adj rank (c ∷ cs) adj = const_adj rank cs (add_constraint rank c adj)

-- `gk_info->constraint_ptr`, `gk_info->constraints` and the two counters of the second loop
pub record ConstraintArrays : Type 0 where
  pub constraint_ptr : ℕ → ℕ
  pub constraints : ℕ → ℕ
  pub prefix_sum : ℕ
  pub const_idx : ℕ

abbrev pub no_arrays : ConstraintArrays
no_arrays = record { constraint_ptr = λ i. 0; constraints = λ i. 0; prefix_sum = 0; const_idx = 0 }

-- The inner loop, over the list of one vertex
abbrev pub store_constraints : List ℕ → ConstraintArrays → ConstraintArrays
store_constraints [] g = g
store_constraints (r ∷ rs) g =
    store_constraints rs
      (record g { constraints = update g.constraints g.const_idx r; const_idx = g.const_idx + 1 })

-- The second loop: `i` is the counter, the number after it the rounds left. The last entry of
-- `constraint_ptr` is written behind the loop.
unfoldable pub layout_constraints : (ℕ → List ℕ) → ℕ → ℕ → ConstraintArrays → ConstraintArrays
layout_constraints adj i zero g = record g {
  constraint_ptr = update g.constraint_ptr i g.prefix_sum;
}
layout_constraints adj i (suc n) g = layout_constraints adj (i + 1) n (
    store_constraints (adj i) (record g {
      constraint_ptr = update g.constraint_ptr i g.prefix_sum;
      prefix_sum = g.prefix_sum + length (adj i);
    }))

-- The block of `init_global_kernel_info`, for a number of query vertices
abbrev pub init_constraints : (ℕ → ℕ) → List ConstraintInfo → ℕ → ConstraintArrays
init_constraints rank cs n = layout_constraints (const_adj rank cs (λ v. [])) 0 n no_arrays
