-- ===== src/Scheduler/Complete.antt =====
-- The plan tree that source/cuMatch/lgf_scheduler.cpp builds holds exactly the combinations.
use cu_match.Prelude.{
  ℕ, zero, suc, ◌+◌, ◌-◌, ◌≡◌, ◌≢◌, refl, ◌∙◌, Bool, true, false, none, some, List, [],
}
use cu_match.SchedTree.{Node, node, nil, child, level, num_nodes, backtracking}
use cu_match.SchedTree.Groups.{GridGroupInfo, init}
use cu_match.SchedTree.Levels.{IsLeveled, AreBelow}
use cu_match.SchedTree.Chains.{shards}
use cu_match.SchedTree.Drain.{pop_all, shards_of, pop_all-eq-pre_order}
use cu_match.Scheduler.{Ranges, Input, edge_at, iterate_sub_task, make_sched_plan}
use cu_match.Scheduler.Windows.{Window, windows, combinations, paths}
use cu_match.Scheduler.Adds.{blocks-Finds}
use cu_match.Scheduler.Outcome.{Finds, nonempty-true}
use cu_match.Scheduler.Restore.{SameStacks-refl}

pub iterate_sub_task-Finds :
    (i : Input)
    → ((k : ℕ) → (edge_at i k).v1_id ≢ (edge_at i k).v2_id)
    → (n edge_idx l : ℕ) (g : Ranges)
    → Finds l n (combinations i n edge_idx (windows g)) g (iterate_sub_task i n edge_idx l g)
unfolding iterate_sub_task combinations paths AreBelow
iterate_sub_task-Finds i proper zero edge_idx l g = record {
  ranges = g;
  found = record { child = nil; valid = true };
  run = refl;
  same = SameStacks-refl g;
  all = refl;
  valid = refl;
  below = tt;
}
iterate_sub_task-Finds i proper (suc n) edge_idx l g =
    blocks-Finds i n edge_idx l (proper edge_idx) (iterate_sub_task i n (edge_idx + 1) (l + 1))
      (iterate_sub_task-Finds i proper n (edge_idx + 1) (l + 1)) g

-- The windows that the search starts with: no row, and all ids of a block.
abbrev pub open_windows : ℕ → ℕ → Window
open_windows grid_block_width _ = record {
  grid = none;
  range = record { lo = 0; hi = grid_block_width - 1 };
}

-- If each edge of the query joins two different vertices, and some combination of shards fits, the
-- plan is made: its paths from the root, as long as there are edges, hold exactly the combinations
-- of shards in which each query vertex keeps to one row of the grid and to ids that all shards so
-- far share, each once and in the order of the loops, and every node stands one level below its
-- parent, as the plan tree expects. If no combination fits, the assertion of `_make_sched_plan`
-- fails.
pub make_sched_plan-combinations :
    (i : Input) (num_edges grid_block_width : ℕ)
    → ((k : ℕ) → (edge_at i k).v1_id ≢ (edge_at i k).v2_id)
    → (combinations i num_edges 0 (open_windows grid_block_width) ≢ []
        → (root : Node) × (make_sched_plan i num_edges grid_block_width ≡ some root)
          × (level root ≡ 0)
          × IsLeveled root
          × (paths num_edges (child root)
              ≡ combinations i num_edges 0 (open_windows grid_block_width)))
      × (combinations i num_edges 0 (open_windows grid_block_width) ≡ []
          → make_sched_plan i num_edges grid_block_width ≡ none)
unfolding make_sched_plan IsLeveled
make_sched_plan-combinations i num_edges grid_block_width proper =
    let start : Ranges =
      λ _. record { grid_id = 0; top = record { lo = 0; hi = grid_block_width - 1 }; below = [] } in
    let d = iterate_sub_task-Finds i proper num_edges 0 0 start in
    (
      λ some_left.
          let valid : d.found.valid ≡ true = d.valid ∙ nonempty-true _ some_left in
          (node 0 0 0 none d.found.child, rw d.run (rw valid refl), refl, d.below, d.all),
      λ none_left.
          let valid : d.found.valid ≡ false = d.valid ∙ rw none_left refl in
          rw d.run (rw valid refl),
    )

-- What `pop_grid_group` hands out of the plan that `_make_sched_plan` makes: no assertion fails on
-- the way, and the groups hold each shard of the plan once, in pre-order.
pub make_sched_plan-pop_all :
    (i : Input) (num_edges grid_block_width : ℕ) (is_table_join : Bool)
    → ((k : ℕ) → (edge_at i k).v1_id ≢ (edge_at i k).v2_id)
    → combinations i num_edges 0 (open_windows grid_block_width) ≢ []
    → (root : Node) × (gs : List GridGroupInfo) × (make_sched_plan i num_edges grid_block_width
        ≡ some root)
      × (pop_all (num_nodes root + 1) (init root num_edges is_table_join) ≡ some gs)
      × (shards_of gs ≡ shards (backtracking root))
make_sched_plan-pop_all i num_edges grid_block_width is_table_join proper some_left =
    let (root, made, top, leveled, _) =
      (make_sched_plan-combinations i num_edges grid_block_width proper).0 some_left in
    let (gs, run, same, _) = pop_all-eq-pre_order root num_edges is_table_join top leveled in
    (root, gs, made, run, same)
