-- ===== src/SchedTree/Traversal.antt =====
-- The traversals of source/cuMatch/sched_plan_tree.cpp against each other.
use cu_match.Prelude.{
  ℕ, zero, suc, ◌+◌, ◌≤◌, ◌<◌, ◌≡◌, refl, ap, ◌∙◌, sym, none, some, List, [], ◌∷◌, ◌++◌, leb, arith,
  Bool-cases, inl, inr, ◌⊎◌, leb→le, length, length-append,
}
use native.Mathlib.Numerals.{add-one}
use mathlib.Core.List.{append-nil, append_assoc}
use cu_match.SchedTree.{
  Node, Children, node, nil, cons, child, num_child, child_at, backtracking, backtracking_each,
  push_children, fill_visit_stk, num_nodes, num_nodes_each, post_order_dfs, TrackingInfo, unwind,
  descend, next_node, iterate_init, iterate, pre_order_dfs,
}

-- The recursive post-order: the children from the first to the last, and then the node.
unfoldable mutual
  pub post : Node → List Node
  post (node l e v p c) = post_each c ++ node l e v p c ∷ []

  pub post_each : Children → List Node
  post_each nil = []
  post_each (cons p ps) = post p ++ post_each ps

pub post_stack : List Node → List Node
post_stack [] = []
post_stack (n ∷ stk) = post_stack stk ++ post n

post_stack-push_children :
    (c : Children) (stk : List Node)
    → post_stack (push_children c stk) ≡ post_stack stk ++ post_each c
unfolding post_stack post_each
post_stack-push_children nil stk = sym (append-nil _)
post_stack-push_children (cons p ps) stk =
    simp (post_stack-push_children ps (p ∷ stk), append_assoc)

stack_size : List Node → ℕ
stack_size [] = 0
stack_size (n ∷ stk) = num_nodes n + stack_size stk

stack_size-push_children :
    (c : Children) (stk : List Node)
    → stack_size (push_children c stk) ≡ num_nodes_each c + stack_size stk
unfolding stack_size num_nodes_each
stack_size-push_children nil stk = omega arith
stack_size-push_children (cons p ps) stk = omega (arith, stack_size-push_children ps (p ∷ stk))

fill_visit_stk_lem :
    (fuel : ℕ) (stk visit_stk : List Node)
    → stack_size stk ≤ fuel
    → fill_visit_stk fuel stk visit_stk ≡ some (post_stack stk ++ visit_stk)
unfolding fill_visit_stk post_stack stack_size num_nodes post
fill_visit_stk_lem fuel [] visit_stk h = refl
fill_visit_stk_lem zero (node l e v p c ∷ stk) visit_stk h = absurd (omega arith)
fill_visit_stk_lem (suc fuel) (node l e v p c ∷ stk) visit_stk h =
    fill_visit_stk_lem fuel (push_children c stk) (node l e v p c ∷ visit_stk)
      (omega (arith, stack_size-push_children c stk))
    ∙ simp (post_stack-push_children, append_assoc)

-- With one round for each node the two-stack loop visits every node once, in post-order.
pub post_order_dfs-eq-post : (root : Node) → post_order_dfs root ≡ some (post root)
unfolding post_order_dfs post_stack stack_size
post_order_dfs-eq-post root =
    fill_visit_stk_lem (num_nodes root) (root ∷ []) [] (omega arith) ∙ simp append-nil

-- The children from an index on.
abbrev pub drop_children : ℕ → Children → Children
drop_children zero c = c
drop_children (suc n) nil = nil
drop_children (suc n) (cons p ps) = drop_children n ps

-- What is left to visit below the nodes of a tracking stack.
pub pending : List TrackingInfo → List Node
pending [] = []
pending (t ∷ stk) = backtracking_each (drop_children t.child_idx (child t.node)) ++ pending stk

drop_children_past : (n : ℕ) (c : Children) → num_child c ≤ n → drop_children n c ≡ nil
drop_children_past zero nil h = refl
drop_children_past zero (cons p ps) h = absurd (omega arith)
drop_children_past (suc n) nil h = refl
drop_children_past (suc n) (cons p ps) h = drop_children_past n ps (omega arith)

drop_children_at :
    (n : ℕ) (c : Children)
    → n < num_child c
    → (p : Node) × (child_at c n ≡ some p) × (drop_children n c ≡ cons p (drop_children (suc n) c))
drop_children_at n nil h = absurd (omega arith)
drop_children_at zero (cons p ps) h = (p, refl, refl)
drop_children_at (suc n) (cons p ps) h =
    let (q, at, rest) = drop_children_at n ps (omega arith) in (q, at, rest)

backtracking-child : (p : Node) → backtracking p ≡ backtracking_each (child p)
unfolding backtracking
backtracking-child (node l e v p c) = refl

pending-unwind : (stk : List TrackingInfo) → pending (unwind stk) ≡ pending stk
unfolding pending unwind backtracking_each
pending-unwind [] = refl
pending-unwind (t ∷ stk) = elim (Bool-cases (leb (num_child (child t.node)) t.child_idx)) [
  | inl past ↦
      rw (past, drop_children_past t.child_idx (child t.node) (leb→le _ _ past))
        (pending-unwind stk)
  | inr more ↦ rw more
]

-- The stack that `unwind` leaves is empty, or its top has a child to go on with.
unwind_cases :
    (stk : List TrackingInfo)
    → (unwind stk ≡ [])
      ⊎ ((t : TrackingInfo) × (rest : List TrackingInfo) × (unwind stk ≡ t ∷ rest)
          × (t.child_idx < num_child (child t.node)))
unfolding unwind
unwind_cases [] = inl refl
unwind_cases (t ∷ stk) = elim (Bool-cases (leb (num_child (child t.node)) t.child_idx)) [
  | inl past ↦ rw past (unwind_cases stk)
  | inr more ↦ inr (t, stk, rw more, ground arith)
]

-- `_next_node` gives null where nothing is pending, and else the first pending node.
pub next_node_cases :
    (stk : List TrackingInfo)
    → ((next_node stk ≡ ([], none)) × (pending stk ≡ []))
      ⊎ ((p : Node) × (stk' : List TrackingInfo) × (next_node stk ≡ (stk', some p))
          × (pending stk ≡ p ∷ pending stk'))
unfolding next_node descend pending backtracking_each backtracking
next_node_cases stk = elim (unwind_cases stk) [
  | inl e ↦ inl (rw (e, descend), sym (pending-unwind stk) ∙ rw e)
  | inr (t, rest, e, lt) ↦
      let (p, at, dropped) = drop_children_at t.child_idx (child t.node) lt in
      inr (
        p,
        record { node = p; child_idx = 0 } ∷ record t { child_idx = t.child_idx + 1 } ∷ rest,
        rw (e, descend) (rw at),
        sym (pending-unwind stk)
            ∙ rw e (rw dropped (simp (add-one, append_assoc, backtracking-child))),
      )
]

iterate-eq-pending :
    (fuel : ℕ) (stk : List TrackingInfo)
    → length (pending stk) < fuel
    → iterate fuel stk ≡ some (pending stk)
unfolding iterate
iterate-eq-pending zero stk h = absurd (omega arith)
iterate-eq-pending (suc fuel) stk h = elim (next_node_cases stk) [
  | inl (e, none_left) ↦ ground arith
  | inr (p, stk', e, first) ↦
      let ih = iterate-eq-pending fuel stk' (omega (arith, ap length first)) in ground arith
]

mutual
  unfolding backtracking num_nodes

  pub length-backtracking : (n : Node) → length (backtracking n) + 1 ≡ num_nodes n
  length-backtracking (node l e v p c) = omega (arith, length-backtracking_each c)

  length-backtracking_each : (c : Children) → length (backtracking_each c) ≡ num_nodes_each c
  length-backtracking_each nil = refl
  length-backtracking_each (cons p ps) = omega (
    arith,
    length-append (backtracking p) (backtracking_each ps),
    length-backtracking p,
    length-backtracking_each ps,
  )

pub pending-iterate_init : (root : Node) → pending (iterate_init root) ≡ backtracking root
unfolding pending
pending-iterate_init root = simp (append-nil, backtracking-child)

-- From the initial stack the iterative scan gives the nodes below the root one by one in the
-- order of the recursive `pre_order_dfs`, and ends after as many rounds as the tree has nodes.
pub iterate-eq-pre_order_dfs :
    (root : Node)
    → (ps : List Node) × (iterate (num_nodes root) (iterate_init root) ≡ some ps)
      × (pre_order_dfs root ≡ root ∷ ps)
unfolding pre_order_dfs
iterate-eq-pre_order_dfs root =
    let e = pending-iterate_init root in
    (
      backtracking root,
      iterate-eq-pending (num_nodes root) (iterate_init root)
            (rw e (omega (arith, length-backtracking root)))
          ∙ rw e,
      refl,
    )
