-- ===== src/SchedTree/Levels.antt =====
-- Trees whose nodes stand one level below their parents, and the tracking stack of
-- source/cuMatch/sched_plan_tree.cpp as a path in such a tree.
use cu_match.Prelude.{
  ℕ, zero, suc, ◌+◌, ◌≤◌, ◌≡◌, ◌≢◌, inl, inr, ap, ◌∙◌, sym, some, List, [], ◌∷◌, length, arith,
  List-cases, Option-cases,
}
use cu_match.SchedTree.{
  Node, Children, node, nil, cons, level, v_id, child, child_at, TrackingInfo, unwind, descend,
  next_node,
}

-- Each node stands one level below its parent and serves a vertex: `v_id` is the vertex plus 1.
unfoldable mutual
  pub IsLeveled : Node → Type 0
  IsLeveled (node l e v p c) = AreBelow l c

  pub AreBelow : ℕ → Children → Type 0
  AreBelow l nil = Unit {0}
  AreBelow l (cons p ps) = (level p ≡ l + 1) × (v_id p ≢ 0) × IsLeveled p × AreBelow l ps

-- The stack is the path to its top, whose level is the number of nodes below it.
abbrev pub IsPath : List TrackingInfo → Type 0
IsPath [] = Unit {0}
IsPath (t ∷ stk) = (level t.node ≡ length stk) × IsLeveled t.node × IsPath stk

AreBelow-child_at :
    (l i : ℕ) (c : Children) (p : Node)
    → AreBelow l c
    → child_at c i ≡ some p
    → (level p ≡ l + 1) × (v_id p ≢ 0) × IsLeveled p
unfolding AreBelow
AreBelow-child_at l i nil p h e = cc
AreBelow-child_at l zero (cons q ps) p h e = ground arith
AreBelow-child_at l (suc i) (cons q ps) p h e = AreBelow-child_at l i ps p h.3 e

IsLeveled-AreBelow : (n : Node) → IsLeveled n → AreBelow (level n) (child n)
unfolding IsLeveled
IsLeveled-AreBelow (node l e v p c) h = h

IsPath-unwind :
    (stk : List TrackingInfo)
    → IsPath stk
    → IsPath (unwind stk) × (length (unwind stk) ≤ length stk)
unfolding unwind
IsPath-unwind [] h = (tt, omega arith)
IsPath-unwind (t ∷ stk) h = ground (arith, IsPath-unwind stk h.2)

-- `_next_node` keeps the stack a path, which grows by one node at most; the node it gives is the
-- new top.
pub next_node-IsPath :
    (stk stk' : List TrackingInfo) (p : Node)
    → IsPath stk
    → next_node stk ≡ (stk', some p)
    → IsPath stk' × (length stk' ≤ length stk + 1) × (level p + 1 ≡ length stk') × (v_id p ≢ 0)
unfolding next_node descend
next_node-IsPath stk stk' p h e =
    let (path, shorter) = IsPath-unwind stk h in
    elim (List-cases (unwind stk)) [
      | inl empty ↦ absurd (ground arith)
      | inr (t, rest, u) ↦ elim (Option-cases (child_at (child t.node) t.child_idx)) [
        | inl past ↦ absurd (ground arith)
        | inr (q, at) ↦
            let path' : IsPath (t ∷ rest) = rw u at path in
            let below =
              AreBelow-child_at (level t.node) t.child_idx (child t.node) q
                (IsLeveled-AreBelow t.node path'.1) at in
            let step : next_node stk ≡ (
              record { node = q; child_idx = 0 } ∷ record t { child_idx = t.child_idx + 1 } ∷ rest,
              some q,
            ) =
              rw (u, descend) (rw at) in
            let same = sym e ∙ step in
            let top : p ≡ q = cc (ap (λ x. x.1) same) in
            rw (ap (λ x. x.0) same, top)
              (
                (omega arith, below.2, (path'.0, path'.1, path'.2)),
                omega (arith, shorter, ap length u),
                omega arith,
                below.1,
              )
      ]
    ]
