-- ===== src/SchedTree/Regenerate/Parents.antt =====
-- Every node of a regenerated tree (source/cuMatch/sched_plan_tree.cpp) has one parent.
use cu_match.Prelude.{
  ℕ, zero, suc, ◌+◌, ◌-◌, ◌<◌, ◌≤◌, ◌≡◌, ◌≢◌, refl, some, List, [], ◌∷◌, ◌++◌, ◌⊎◌, ◌&&◌, map, ltb,
  leb, ◌==◌, if◌then◌else◌, update, count, arith, All, Bool-cases, inl, inr, >>=-elim, check-elim,
  some_inj, List-cases, ==_iff,
}
use mathlib.Core.Path.{subst}
use cu_match.SchedTree.Regenerate.{
  TreeInfo, TreeElement, StackElement, Builder, empty_builder, pop_deeper, add_node, add_nodes,
  note_root, Postfix, build,
}

abbrev pub ids : List TreeElement → List ℕ
ids = map (λ e. e.node_id)

-- `i` is the parent of `j`, and nothing else is.
pub record IsParent (tree : ℕ → List TreeElement) (i j : ℕ) : Type 0 where
  pub older : i < j
  pub child : count j (ids (tree i)) ≡ 1
  pub only : (k : ℕ) → k ≢ i → count j (ids (tree k)) ≡ 0

pub record IsTree (b : Builder) : Type 0 where
  pub known : All (λ x. x.v_id < b.tree_node_id) b.stk
  pub positive : 0 < b.tree_node_id
  pub parents : (j : ℕ) → 0 < j → j < b.tree_node_id → (i : ℕ) × IsParent b.tree i j
  pub fresh : (i j : ℕ) → (j ≡ 0) ⊎ (b.tree_node_id ≤ j) → count j (ids (b.tree i)) ≡ 0
  pub counted : b.child_num ≡ b.tree_node_id - 1

ids-append :
    (j n s : ℕ) (es : List TreeElement)
    → count j (ids (es ++ record { node_id = n; st_id = s } ∷ []))
      ≡ count j (ids es) + (if n == j then 1 else 0)
ids-append j n s [] = ground arith
ids-append j n s (e ∷ es) = omega (arith, ids-append j n s es)

ids-grow :
    (tree : ℕ → List TreeElement) (p n s j k : ℕ)
    → count j (ids (update tree p (tree p ++ record { node_id = n; st_id = s } ∷ []) k))
      ≡ count j (ids (tree k)) + (if k == p && n == j then 1 else 0)
ids-grow tree p n s j k = elim (Bool-cases (k == p)) [
  | inl here ↦ let e = (==_iff k p).0 here in rw (here, e) (ids-append j n s (tree p))
  | inr there ↦ rw there (omega arith)
]

known-suc :
    (n : ℕ) (stk : List StackElement) → All (λ x. x.v_id < n) stk → All (λ x. x.v_id < n + 1) stk
known-suc n [] h = tt
known-suc n (x ∷ stk) h = (omega (arith, h.0), known-suc n stk h.1)

known-pop_deeper :
    (n dep : ℕ) (stk : List StackElement)
    → All (λ x. x.v_id < n) stk
    → All (λ x. x.v_id < n) (pop_deeper dep stk)
known-pop_deeper n dep [] h = tt
known-pop_deeper n dep (x ∷ stk) h = elim (Bool-cases (leb dep x.dep)) [
  | inl deep ↦ rw deep (known-pop_deeper n dep stk h.1)
  | inr other ↦ rw other h
]

added :
    (size dep st_id : ℕ) (b : Builder) (top : StackElement) (rest : List StackElement)
    → IsTree b
    → b.stk ≡ top ∷ rest
    → IsTree (record b {
      tree =
          update b.tree top.v_id
            (b.tree top.v_id ++ record { node_id = b.tree_node_id; st_id = st_id } ∷ []);
      stk = record { v_id = b.tree_node_id; dep = dep } ∷ top ∷ rest;
      tree_node_id = b.tree_node_id + 1;
      child_num = b.child_num + 1;
    })
added size dep st_id b top rest v h =
    let n = b.tree_node_id in
    let known : All (λ x. x.v_id < n) (top ∷ rest) = rw h at v.known in
    let new = λ (j k : ℕ). ids-grow b.tree top.v_id n st_id j k in
    record {
      known = (omega arith, known-suc n (top ∷ rest) known);
      positive = omega arith;
      parents = λ j p lt. elim (Bool-cases (j == n)) [
        | inl last ↦ (
          top.v_id,
          record {
            older = ground (arith, known.0);
            child = ground (arith, new j top.v_id, v.fresh top.v_id j);
            only = λ k ne. ground (arith, new j k, v.fresh k j);
          },
        )
        | inr other ↦
            let (i, q) = v.parents j p (ground arith) in
            (
              i,
              record {
                older = q.older;
                child = ground (arith, new j i, q.child);
                only = λ k ne. ground (arith, new j k, q.only k);
              },
            )
      ];
      fresh = λ i j h. ground (arith, new j i, v.fresh i j);
      counted = omega (arith, v.counted, v.positive);
    }

add_node-IsTree :
    (size dep st_id : ℕ) (b b' : Builder)
    → IsTree b
    → add_node size dep st_id b ≡ some b'
    → IsTree b'
add_node-IsTree size dep st_id b b' v h = elim (List-cases b.stk) [
  | inl empty ↦ absurd (ground arith)
  | inr (top, rest, e) ↦
      let h' = rw (e, add_node) at h in
      check-elim (ltb top.v_id size) _ h'
        λ _ h1. subst IsTree (some_inj h1) (added size dep st_id b top rest v e)
]

add_nodes-IsTree :
    (size dep st_id n : ℕ) (b b' : Builder)
    → IsTree b
    → add_nodes size dep st_id n b ≡ some b'
    → IsTree b'
add_nodes-IsTree size dep st_id zero b b' v h = subst IsTree (some_inj h) v
add_nodes-IsTree size dep st_id (suc n) b b' v h =
    >>=-elim (add_node size dep st_id b) _ h λ b1 run h1.
      add_nodes-IsTree size dep st_id n b1 b' (add_node-IsTree size dep st_id b b1 v run) h1

start_node-IsTree :
    (dep : ℕ) (b : Builder)
    → IsTree b
    → IsTree (note_root dep (record b { stk = pop_deeper dep b.stk }))
start_node-IsTree dep b v = elim (Bool-cases (dep == 1)) [
  | inl root ↦ rw root (record {
    known = known-pop_deeper b.tree_node_id dep b.stk v.known;
    positive = v.positive;
    parents = v.parents;
    fresh = v.fresh;
    counted = v.counted;
  })
  | inr other ↦ rw other (record {
    known = known-pop_deeper b.tree_node_id dep b.stk v.known;
    positive = v.positive;
    parents = v.parents;
    fresh = v.fresh;
    counted = v.counted;
  })
]

pub empty_builder-IsTree : IsTree empty_builder
empty_builder-IsTree = record {
  known = (omega arith, tt);
  positive = omega arith;
  parents = λ j p lt. absurd (omega arith);
  fresh = λ i j h. refl;
  counted = refl;
}

pub build-IsTree :
    (c : Postfix) (size num_subtasks : ℕ) (xs : List TreeInfo) (b b' : Builder)
    → IsTree b
    → build c size num_subtasks xs b ≡ some b'
    → IsTree b'
unfolding build
build-IsTree c size num_subtasks [] b b' v h = subst IsTree (some_inj h) v
build-IsTree c size num_subtasks (x ∷ xs) b b' v h =
    elim (Bool-cases (leb num_subtasks x.subtask_id)) [
      | inl over ↦ subst IsTree (some_inj (rw (over, build) at h)) v
      | inr more ↦
          let dep = x.v_level in
          let st = x.subtask_id in
          let h0 = rw (more, build) at h in
          >>=-elim (add_node size dep st (note_root dep (record b { stk = pop_deeper dep b.stk })))
            _ h0
            λ b1 run1 h1.
              let v1 = add_node-IsTree size dep st _ b1 (start_node-IsTree dep b v) run1 in
              >>=-elim
                (add_nodes size dep st (if dep == c.max_regular_vid then c.num_postfix else 0) b1) _
                h1
                λ b2 run2 h2.
                  let v2 =
                    add_nodes-IsTree size dep st
                      (if dep == c.max_regular_vid then c.num_postfix else 0) b1 b2 v1 run2 in
                  >>=-elim
                    (add_nodes size dep st
                      (if dep == c.max_optional_vid then c.num_optional_postfix else 0) b2)
                    _ h2
                    λ b3 run3 h3.
                      build-IsTree c size num_subtasks xs b3 b'
                        (add_nodes-IsTree size dep st
                          (if dep == c.max_optional_vid then c.num_optional_postfix else 0) b2 b3 v2
                          run3)
                        h3
    ]
