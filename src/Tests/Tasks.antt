-- ===== src/Tests/Tasks.antt =====
-- The tree of a small kernel task, as source/cuMatch/sched_plan_tree.cpp regenerates it.
use cu_match.Prelude.{ℕ, ◌≡◌, refl, some, List, [], ◌∷◌}
use cu_match.SchedTree.Regenerate.{TreeInfo, Builder, Csr, Postfix, build, fill_rows, regenerate}
use cu_match.SchedTree.Regenerate.Arrays.{Links, regenerate-Links}

-- one postfix vertex below each node of depth 2
abbrev one_postfix : Postfix
one_postfix = record {
  max_regular_vid = 2;
  num_postfix = 1;
  max_optional_vid = 0;
  num_optional_postfix = 0;
}

abbrev group : ℕ → ℕ → TreeInfo
group l s = record { v_level = l; subtask_id = s }

abbrev groups : List TreeInfo
groups = group 1 0 ∷ group 2 0 ∷ group 2 1 ∷ group 1 2 ∷ group 2 2 ∷ group 1 3 ∷ []

made : (r : Builder × Csr) × (regenerate one_postfix 13 3 groups ≡ some r)
unfolding regenerate build fill_rows
made = (_, refl)

made_run :
    (made.0.0.tree_root_id ≡ 1 ∷ 6 ∷ [])
    × (made.0.1.sched_tree_nxt_id ≡ 1 ∷ 6 ∷ 2 ∷ 4 ∷ 3 ∷ 5 ∷ 7 ∷ 8 ∷ [])
unfolding made regenerate build fill_rows
made_run = (refl, refl)

regenerate-Links_example : Links made.0.0 made.0.1
regenerate-Links_example = regenerate-Links one_postfix 13 3 groups made.0.0 made.0.1 made.1
