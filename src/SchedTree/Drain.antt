-- ===== src/SchedTree/Drain.antt =====
-- All calls of `pop_grid_group` (source/cuMatch/sched_plan_tree.cpp) from the first to the last.
use cu_match.Prelude.{
  ℕ, zero, suc, ◌+◌, ◌≤◌, ◌<◌, ◌≡◌, ◌≢◌, ◌⊎◌, inl, inr, refl, ap, ◌∙◌, sym, Bool, true, false,
  Option, none, some, List, [], ◌∷◌, ◌++◌, length, arith, All, Option-cases,
}
use cu_match.SchedTree.{Sleaf, Node, level, backtracking, this_node, num_nodes}
use cu_match.SchedTree.Traversal.{length-backtracking, pending-iterate_init}
use cu_match.SchedTree.Groups.{GridGroupInfo, Plan, init, pop_grid_group}
use cu_match.SchedTree.Levels.{IsLeveled}
use cu_match.SchedTree.Chains.{IsChain, IsValid, HandsOut, shards, left, rounds}
use cu_match.SchedTree.Partition.{group_loop-HandsOut}

-- The call hands out the next shards, or says that none are left.
pub pop_grid_group-HandsOut :
    (fuel : ℕ) (s : Plan)
    → IsValid s ⊎ (this_node s.tracking_stk ≡ none)
    → rounds s ≤ fuel
    → ((left s ≡ []) × (pop_grid_group fuel s ≡ some (record s { grid_group_ptr = none }, false)))
      ⊎ ((s' : Plan) × (g : GridGroupInfo) × (pop_grid_group fuel s ≡ some (s', true))
          × HandsOut s s' g)
unfolding pop_grid_group
pop_grid_group-HandsOut fuel s v f = elim (Option-cases (this_node s.tracking_stk)) [
  | inl over ↦ inl (rw (over, left), rw (over, pop_grid_group))
  | inr (m, e) ↦ elim v [
    | inr over ↦ absurd (cc)
    | inl valid ↦
        let (s', g, run, out) = group_loop-HandsOut fuel s m valid e (ground arith) in
        inr (s', g, rw (e, pop_grid_group) run, out)
  ]
]

-- Calls until one says that no group is left: the groups, in order.
unfoldable pub pop_all : ℕ → Plan → Option (List GridGroupInfo)
pop_all zero s = none
pop_all (suc fuel) s = elim (pop_grid_group (suc fuel) s) [
  | none ↦ none
  | some (s', more) ↦ elim more [
    | false ↦ some []
    | true ↦ elim s'.grid_group_ptr [
      | none ↦ none
      | some g ↦ elim (pop_all fuel s') [ none ↦ none | some gs ↦ some (g ∷ gs) ]
    ]
  ]
]

abbrev pub shards_of : List GridGroupInfo → List (Option Sleaf)
shards_of [] = []
shards_of (g ∷ gs) = g.grid_group ++ shards_of gs

pop_all-left :
    (fuel : ℕ) (s : Plan)
    → IsValid s ⊎ (this_node s.tracking_stk ≡ none)
    → rounds s < fuel
    → (gs : List GridGroupInfo) × (pop_all fuel s ≡ some gs)
      × (shards_of gs ≡ left s)
      × All (λ g. g.v_id ≢ 0 → IsChain s.max_level g) gs
unfolding pop_all
pop_all-left zero s v f = absurd (omega arith)
pop_all-left (suc fuel) s v f = elim (pop_grid_group-HandsOut (suc fuel) s v (omega arith)) [
  | inl (none_left, run) ↦ ([], ground arith, rw none_left, tt)
  | inr (s', g, run, out) ↦
      let v' : IsValid s' ⊎ (this_node s'.tracking_stk ≡ none) = elim out.valid [
        | inl over ↦ inr over
        | inr valid ↦ inl valid
      ] in
      let (gs, run', same, chains) = pop_all-left fuel s' v' (omega (arith, out.less)) in
      let group = out.group in
      (g ∷ gs, ground arith, rw same (sym out.order), (out.chain, rw (out.deepest) at chains))
]

-- Over a tree whose nodes stand one level below their parents, the calls end with `false`, no
-- assertion fails, and the groups, one behind the other, hold each shard of the tree once, in
-- pre-order. Each group that serves a vertex is a chain, with one shard for each of its levels,
-- it has a subtask if it ends at the deepest level, and none if it ends above it.
pub pop_all-eq-pre_order :
    (root : Node) (max_level : ℕ) (is_table_join : Bool)
    → level root ≡ 0
    → IsLeveled root
    → (gs : List GridGroupInfo) × (pop_all (num_nodes root + 1) (init root max_level is_table_join)
        ≡ some gs)
      × (shards_of gs ≡ shards (backtracking root))
      × All (λ g. g.v_id ≢ 0 → IsChain max_level g) gs
unfolding init
pop_all-eq-pre_order root max_level is_table_join z h =
    let valid : IsValid (init root max_level is_table_join) = record {
      path = (z, h, tt);
      fresh = λ _. refl;
      linked = λ u. absurd (u refl);
      chain = λ u. absurd (u refl);
    } in
    let (gs, run, same, chains) =
      pop_all-left (num_nodes root + 1) (init root max_level is_table_join) (inl valid)
        (omega (arith, length-backtracking root, ap length (pending-iterate_init root))) in
    (gs, run, same ∙ rw pending-iterate_init, chains)
