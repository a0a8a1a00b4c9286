-- ===== src/SchedTree/Regenerate/Arrays.antt =====
-- The arrays that source/cuMatch/sched_plan_tree.cpp makes of a regenerated tree.
use cu_match.Prelude.{
  ℕ, zero, suc, ◌+◌, ◌-◌, ◌<◌, ◌≤◌, ◌≡◌, ◌≢◌, refl, ap, sym, ◌∙◌, some, List, [], ◌∷◌, ◌++◌, length,
  ltb, ◌==◌, update, count, length-append, arith, Bool-cases, inl, inr, >>=-elim, check-elim,
  some_inj, ==_iff,
}
use mathlib.Core.Path.{subst}
use native.Mathlib.Numerals.{unary_clauses}
use mathlib.Core.List.{append_assoc, append-nil}
use cu_match.SchedTree.Regenerate.{
  TreeInfo, TreeElement, Builder, empty_builder, Postfix, build, Csr, blank, fill_row, fill_rows,
  regenerate, max_num_tree_nodes,
}
use cu_match.SchedTree.Regenerate.Parents.{
  ids, IsParent, IsTree, empty_builder-IsTree, build-IsTree,
}

-- The children of the first `i` nodes, one node behind the other.
abbrev pub rows_before : (ℕ → List TreeElement) → ℕ → List ℕ
rows_before tree zero = []
rows_before tree (suc i) = rows_before tree i ++ ids (tree i)

fill_row_lem :
    (i : ℕ) (es : List TreeElement) (c : Csr)
    → count 0 (ids es) ≡ 0
    → ((fill_row i es c).sched_tree_nxt_id ≡ c.sched_tree_nxt_id ++ ids es)
      × ((fill_row i es c).sched_tree_ptr ≡ c.sched_tree_ptr)
      × ((fill_row i es c).sum ≡ c.sum)
      × ((j : ℕ)
          → (count (suc j) (ids es) ≢ 0 → (fill_row i es c).sched_tree_prv_id j ≡ i)
            × (count (suc j) (ids es) ≡ 0
                → (fill_row i es c).sched_tree_prv_id j ≡ c.sched_tree_prv_id j))
fill_row_lem i [] c z = (sym (append-nil _), refl, refl, λ j. (λ h. absurd (h refl), λ h. refl))
fill_row_lem i (e ∷ es) c z =
    let c' = record c {
      sched_tree_nxt_id = c.sched_tree_nxt_id ++ e.node_id ∷ [];
      sched_tree_prv_id = update c.sched_tree_prv_id (e.node_id - 1) i;
      sched_tree_st_id = c.sched_tree_st_id ++ e.st_id ∷ [];
    } in
    let (nxt, ptr, sum, prv) = fill_row_lem i es c' (omega (arith, z)) in
    (
      nxt ∙ append_assoc c.sched_tree_nxt_id (e.node_id ∷ []) (ids es),
      ptr,
      sum,
      λ j. let p = prv j in ground (arith, z),
    )

-- What the outer loop has made of the first `m` nodes.
record Filled (tree : ℕ → List TreeElement) (m : ℕ) (c : Csr) : Type 0 where
  rows : c.sched_tree_nxt_id ≡ rows_before tree m
  total : c.sum ≡ length (rows_before tree m)
  ptr : (i : ℕ) → i < m → c.sched_tree_ptr i ≡ length (rows_before tree i)
  prv : (i j : ℕ) → i < m → IsParent tree i (suc j) → c.sched_tree_prv_id j ≡ i

length-ids : (es : List TreeElement) → length (ids es) ≡ length es
length-ids [] = refl
length-ids (e ∷ es) = ap suc (length-ids es)

fill_row-Filled :
    (tree : ℕ → List TreeElement) (m : ℕ) (c : Csr)
    → ((i : ℕ) → count 0 (ids (tree i)) ≡ 0)
    → Filled tree m c
    → Filled tree (m + 1) (
        fill_row m (tree m) (record c {
          sched_tree_ptr = update c.sched_tree_ptr m c.sum;
          sum = c.sum + length (tree m);
        }))
fill_row-Filled tree m c z f =
    let c1 = record c {
      sched_tree_ptr = update c.sched_tree_ptr m c.sum;
      sum = c.sum + length (tree m);
    } in
    let (nxt, ptr, sum, prv) = fill_row_lem m (tree m) c1 (z m) in
    let next : rows_before tree (m + 1) ≡ rows_before tree m ++ ids (tree m) =
      simp unary_clauses refl in
    record {
      rows = nxt ∙ ap (λ l. l ++ ids (tree m)) f.rows ∙ sym next;
      total = omega (
        arith,
        sum,
        f.total,
        ap length next,
        length-append (rows_before tree m) (ids (tree m)),
        length-ids (tree m),
      );
      ptr = λ i lt.
          let p = ap (λ g. g i) ptr in
          elim (Bool-cases (i == m)) [
            | inl last ↦ let e = (==_iff i m).0 last in p ∙ rw (last, e) f.total
            | inr other ↦ p ∙ rw other (f.ptr i (ground arith))
          ];
      prv = λ i j lt h.
          let p = prv j in
          elim (Bool-cases (i == m)) [
            | inl last ↦
                let e = (==_iff i m).0 last in p.0 (rw (← e) (omega (arith, h.child))) ∙ sym e
            | inr other ↦ p.1 (h.only m (ground arith)) ∙ f.prv i j (ground arith) h
          ];
    }

-- The arrays for the first `m` nodes: the parent of a node, and the children of a node as the slice
-- between two entries of `sched_tree_ptr`.
record Complete (tree : ℕ → List TreeElement) (m : ℕ) (c : Csr) : Type 0 where
  rows : c.sched_tree_nxt_id ≡ rows_before tree m
  ptr : (i : ℕ) → i ≤ m → c.sched_tree_ptr i ≡ length (rows_before tree i)
  prv : (i j : ℕ) → i < m → IsParent tree i (suc j) → c.sched_tree_prv_id j ≡ i

fill_rows-Complete :
    (tree : ℕ → List TreeElement) (n i m : ℕ) (c : Csr)
    → i + n ≡ m
    → ((k : ℕ) → count 0 (ids (tree k)) ≡ 0)
    → Filled tree i c
    → Complete tree m (fill_rows tree i n c)
unfolding fill_rows
fill_rows-Complete tree zero i m c e z f =
    let same : i ≡ m = omega (arith, e) in
    subst (λ k. Complete tree k (record c { sched_tree_ptr = update c.sched_tree_ptr i c.sum }))
      same
      (record {
        rows = f.rows;
        ptr = λ k le. elim (Bool-cases (k == i)) [
          | inl last ↦ let e' = (==_iff k i).0 last in rw (last, e') f.total
          | inr other ↦ rw other (f.ptr k (ground arith))
        ];
        prv = f.prv;
      })
fill_rows-Complete tree (suc n) i m c e z f =
    fill_rows-Complete tree n (i + 1) m _ (omega (arith, e)) z (fill_row-Filled tree i c z f)

rows_before-slice :
    (tree : ℕ → List TreeElement) (m i : ℕ)
    → i < m
    → (after : List ℕ) × (rows_before tree m ≡ rows_before tree i ++ (ids (tree i) ++ after))
rows_before-slice tree zero i h = absurd (omega arith)
rows_before-slice tree (suc m) i h = elim (Bool-cases (i == m)) [
  | inl last ↦ ([], rw ((==_iff i m).0 last) (simp append-nil))
  | inr other ↦
      let (after, e) = rows_before-slice tree m i (ground arith) in
      (after ++ ids (tree m), rw e (simp append_assoc))
]

-- The parent of every node but the first, and the children of every node.
abbrev pub Links : Builder → Csr → Type 0
Links b a =
    ((j : ℕ)
      → j + 1 < b.tree_node_id
      → (i : ℕ) × IsParent b.tree i (suc j) × (a.sched_tree_prv_id j ≡ i))
    × ((i : ℕ)
        → i < b.tree_node_id
        → (before : List ℕ) × (after : List ℕ) × (a.sched_tree_nxt_id
            ≡ before ++ (ids (b.tree i) ++ after))
          × (length before ≡ a.sched_tree_ptr i)
          × (length before + length (b.tree i) ≡ a.sched_tree_ptr (i + 1)))

fill_rows-Links : (b : Builder) → IsTree b → Links b (fill_rows b.tree 0 b.tree_node_id blank)
fill_rows-Links b v =
    let a = fill_rows b.tree 0 b.tree_node_id blank in
    let f : Filled b.tree 0 blank = record {
      rows = refl;
      total = refl;
      ptr = λ i lt. absurd (omega arith);
      prv = λ i j lt h. absurd (omega arith);
    } in
    let d =
      fill_rows-Complete b.tree b.tree_node_id 0 b.tree_node_id blank (omega arith)
        (λ k. v.fresh k 0 (inl refl)) f in
    (
      λ j lt.
          let (i, p) = v.parents (suc j) (omega arith) (omega arith) in
          (i, p, d.prv i j (omega (arith, p.older)) p),
      λ i lt.
          let (after, e) = rows_before-slice b.tree b.tree_node_id i lt in
          let next : rows_before b.tree (i + 1) ≡ rows_before b.tree i ++ ids (b.tree i) =
            simp unary_clauses refl in
          (
            rows_before b.tree i,
            after,
            d.rows ∙ e,
            sym (d.ptr i (omega arith)),
            omega (
              arith,
              d.ptr (i + 1) (omega arith),
              ap length next,
              length-append (rows_before b.tree i) (ids (b.tree i)),
              length-ids (b.tree i),
            ),
          ),
    )

-- For a kernel task's tree that is made: every node but the first has exactly one parent, an older
-- node, which `sched_tree_prv_id` gives, and the children of a node, in order, are the slice of
-- `sched_tree_nxt_id` between its entry and the next one in `sched_tree_ptr`. So the two directions
-- that the kernels walk in agree.
pub regenerate-Links :
    (c : Postfix) (size num_subtasks : ℕ) (xs : List TreeInfo) (b : Builder) (a : Csr)
    → regenerate c size num_subtasks xs ≡ some (b, a)
    → Links b a
unfolding regenerate
regenerate-Links c size num_subtasks xs b a h =
    >>=-elim (build c size num_subtasks xs empty_builder) _ h λ b1 run h1.
      check-elim (b1.child_num == b1.tree_node_id - 1) _ h1 λ _ h2.
        check-elim (ltb b1.tree_node_id max_num_tree_nodes) _ h2 λ _ h3.
          subst (λ (r : Builder × Csr). Links r.0 r.1) (some_inj h3)
            (fill_rows-Links b1
              (build-IsTree c size num_subtasks xs empty_builder b1 empty_builder-IsTree run))
