-- ===== src/SchedTree/Partition.antt =====
-- What `pop_grid_group` (source/cuMatch/sched_plan_tree.cpp) hands out, against the traversal.
use cu_match.Prelude.{
  ℕ, zero, suc, ◌≤◌, ◌<◌, ◌≡◌, inl, inr, refl, ap, ◌∙◌, sym, true, some, [], ◌∷◌, ◌++◌, length,
  ◌==◌, arith, Bool-cases,
}
use mathlib.Core.Path.{subst}
use mathlib.Core.List.{append_assoc}
use cu_match.SchedTree.{Node, this_node, leaf_ptr}
use cu_match.SchedTree.Traversal.{pending, next_node_cases}
use cu_match.SchedTree.Groups.{GridGroupInfo, Plan, clear_group, starts_group, group_loop}
use cu_match.SchedTree.Levels.{next_node-IsPath}
use cu_match.SchedTree.Chains.{
  IsChain, IsValid, HandsOut, pushed, push_node-pushed, shards, left, rounds, restart-IsValid,
  grow-IsValid, this_node-some,
}

HandsOut-trans :
    {s t s' : Plan} {g : GridGroupInfo}
    → left s ≡ left t
    → rounds t ≤ rounds s
    → t.max_level ≡ s.max_level
    → HandsOut t s' g
    → HandsOut s s' g
HandsOut-trans {s} {t} {s'} {g} e f m h = record {
  group = h.group;
  order = e ∙ h.order;
  chain = λ u. subst (λ d. IsChain d g) m (h.chain u);
  less = omega (arith, h.less);
  deepest = h.deepest ∙ m;
  valid = h.valid;
}

left_of :
    (s : Plan) (n : Node)
    → this_node s.tracking_stk ≡ some n
    → (left s ≡ s.tmp_group_info.grid_group ++ shards (pending s.tracking_stk))
      × (rounds s ≡ suc (length (pending s.tracking_stk)))
left_of s n e = (rw (e, left), rw (e, rounds))

-- The last call hands out the group that is collected.
HandsOut-last :
    (s : Plan) (m : Node)
    → IsValid s
    → this_node s.tracking_stk ≡ some m
    → pending s.tracking_stk ≡ []
    → HandsOut s
        (record s { tracking_stk = []; grid_group_ptr = some s.tmp_group_info })
        s.tmp_group_info
HandsOut-last s m v e over =
    let (left_s, rounds_s) = left_of s m e in
    record {
      group = refl;
      order = left_s ∙ rw over;
      chain = v.chain;
      less = omega arith;
      deepest = refl;
      valid = inl refl;
    }

-- A node that starts a new group hands out the one before.
HandsOut-full :
    (s s' : Plan) (n m m' : Node)
    → IsValid s
    → this_node s.tracking_stk ≡ some m
    → this_node s'.tracking_stk ≡ some m'
    → pending s.tracking_stk ≡ n ∷ pending s'.tracking_stk
    → s'.grid_group_ptr ≡ some s.tmp_group_info
    → s'.tmp_group_info.grid_group ≡ leaf_ptr n ∷ []
    → s'.max_level ≡ s.max_level
    → IsValid s'
    → HandsOut s s' s.tmp_group_info
HandsOut-full s s' n m m' v e e' first group new deepest v' =
    let (left_s, rounds_s) = left_of s m e in
    let (left_t, rounds_t) = left_of s' m' e' in
    record {
      group = group;
      order = left_s ∙ rw first (rw (left_t, new) refl);
      chain = v.chain;
      less = omega (arith, ap length first);
      deepest = deepest;
      valid = inr v';
    }

pub group_loop-HandsOut :
    (fuel : ℕ) (s : Plan) (m : Node)
    → IsValid s
    → this_node s.tracking_stk ≡ some m
    → length (pending s.tracking_stk) < fuel
    → (s' : Plan) × (g : GridGroupInfo) × (group_loop fuel s ≡ some (s', true)) × HandsOut s s' g
unfolding group_loop
group_loop-HandsOut zero s m v e f = absurd (omega arith)
group_loop-HandsOut (suc fuel) s m v e f =
    let tmp = s.tmp_group_info in
    let (left_s, rounds_s) = left_of s m e in
    elim (next_node_cases s.tracking_stk) [
      | inl (next, over) ↦ (
        record s { tracking_stk = []; grid_group_ptr = some tmp },
        tmp,
        ground arith,
        HandsOut-last s m v e over,
      )
      | inr (n, stk, next, first) ↦
          let (path, grows, top, serves) = next_node-IsPath s.tracking_stk stk n v.path next in
          let (m', e') = this_node-some stk (omega arith) in
          let fuel' : length (pending stk) < fuel = omega (arith, ap length first) in
          let restart = restart-IsValid s n stk v path grows top serves in
          let grow = grow-IsValid s n stk v path grows top serves in
          let push_new = push_node-pushed s.max_level stk n (clear_group n tmp) top in
          let push_old = push_node-pushed s.max_level stk n tmp top in
          elim (Bool-cases (starts_group s.is_table_join tmp n)) [
            | inl starts ↦ elim (Bool-cases (tmp.v_id == 0)) [
              | inl unused ↦
                  let none_yet = v.fresh (ground arith) in
                  let t = record s {
                    tracking_stk = stk;
                    tmp_group_info = pushed s.max_level stk n (clear_group n tmp);
                  } in
                  let (left_t, rounds_t) = left_of t m' e' in
                  let (s', g, run, out) = group_loop-HandsOut fuel t m' (restart _) e' fuel' in
                  (
                    s',
                    g,
                    ground arith,
                    HandsOut-trans {s = s} {t = t} (left_s ∙ rw (first, none_yet) (sym left_t))
                        (omega (arith, ap length first)) refl out,
                  )
              | inr used ↦
                  let s' = record s {
                    tracking_stk = stk;
                    tmp_group_info = pushed s.max_level stk n (clear_group n tmp);
                    grid_group_ptr = some tmp;
                  } in
                  (
                    s',
                    tmp,
                    ground arith,
                    HandsOut-full s s' n m m' v e e' first refl refl refl (restart _),
                  )
            ]
            | inr same ↦
                let t = record s {
                  tracking_stk = stk;
                  tmp_group_info = pushed s.max_level stk n tmp;
                } in
                let (left_t, rounds_t) = left_of t m' e' in
                let (s', g, run, out) = group_loop-HandsOut fuel t m' (grow same) e' fuel' in
                (
                  s',
                  g,
                  ground arith,
                  HandsOut-trans {s = s} {t = t}
                      (left_s ∙ rw first (sym (left_t ∙ append_assoc tmp.grid_group _ _)))
                      (omega (arith, ap length first)) refl out,
                )
          ]
    ]
