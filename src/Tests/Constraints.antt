-- ===== src/Tests/Constraints.antt =====
-- A buffer that source/cuMatch/LFTJ_kernel_constraint.cu fills under one constraint.
use cu_match.Prelude.{ℕ, ◌<◌, ◌≡◌, ◌≢◌, ◌↔◌}
use mathlib.Core.List.{Memᴰ}
use cu_match.Flip24.{read_element}
use cu_match.Kernel.Intersect.{InLists}
use cu_match.Constraint.{ConstraintInfo, fill_free}
use cu_match.Constraint.Partners.{fill_free_iff}
use cu_match.Tests.Joins.{two_lists, loaded, second-IsList, in_order}

abbrev pub one_partner : ConstraintInfo
one_partner = record { constraint_ptr = λ v. v; constraints = λ i. 0 }

fill_free_iff_example :
    Memᴰ 3 ((fill_free two_lists one_partner 1 0 2 in_order (λ i. 2) 0 loaded).im_data 1) ↔ (
      ((i : ℕ) × Memᴰ i (in_order 0 2)
        × (read_element (loaded.flip24_arrs 0) i ≡ 3)
        × InLists two_lists 1 0 2 loaded 0 3 0 2)
      × ((k : ℕ) → k < 1 → ◌≢◌ {A = ℕ} 3 2))
fill_free_iff_example =
    fill_free_iff two_lists one_partner 1 0 2 (λ i. 2) in_order 0 3 loaded second-IsList
