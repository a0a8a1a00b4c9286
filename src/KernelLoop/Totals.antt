-- ===== src/KernelLoop/Totals.antt =====
-- The main loop of source/cuMatch/LFTJ_kernel_basic.cu ends, and its counter is what it is to
-- count.
use cu_match.Prelude.{
  ℕ, zero, suc, ◌+◌, ◌^◌, ◌≤◌, ◌<◌, ◌≡◌, refl, ap, sym, ◌∙◌, true, false, some, List, [], ◌∷◌,
  Bool-cases, ==_iff, inl, inr, ◌==◌, arith, ◌>>=◌,
}
use mathlib.Core.Path.{subst}
use cu_match.Kernel.{Block, sub32}
use cu_match.TableJoin.{initial}
use cu_match.KernelLoop.{
  Joins, TreeTask, Machine, step, run, run_roots, close, kernel, init_machine,
}
use cu_match.KernelLoop.Spec.{roots_total, AreRoots, Finds, IsJoin, IsTree, total, shards_at}
use cu_match.KernelLoop.Frames.{Steps, here, next, Ready, Walked, Walks, total-cong}
use cu_match.KernelLoop.Buffers.{again_finished}
use cu_match.KernelLoop.Counts.{walk_node, walk_last}

module _ (j : Joins) (t : TreeTask) where
  -- What all amounts of fuel from one on give
  abbrev Ends : Machine → Machine → Type 0
  Ends m m' = (fuel : ℕ) × ((n : ℕ) → fuel ≤ n → run j t n m ≡ some m')

  run_stop_lem :
      (m m' : Machine) → step j t m ≡ (m', true) → (n : ℕ) → 1 ≤ n → run j t n m ≡ some m'
  unfolding run
  run_stop_lem m m' e zero le = absurd (omega (arith, le))
  run_stop_lem m m' e (suc n) le = rw e refl

  run_step_lem :
      (m m1 m' : Machine) (fuel : ℕ)
      → step j t m ≡ (m1, false)
      → ((n : ℕ) → fuel ≤ n → run j t n m1 ≡ some m')
      → (n : ℕ) → suc fuel ≤ n
      → run j t n m ≡ some m'
  unfolding run
  run_step_lem m m1 m' fuel e r zero le = absurd (omega (arith, le))
  run_step_lem m m1 m' fuel e r (suc n) le = rw e (r n (omega (arith, le)))

module _ (j : Joins) (t : TreeTask) (f : Finds) (l : IsJoin j t f) where
  open l use {IsGood}

  abbrev up : Machine → Machine
  up m = record (again_finished j t f l m) {
    tree_node_id = t.sched_tree_prv_id (sub32 m.tree_node_id 1);
    dep = sub32 m.dep 1;
  }

  close-up :
      (m : Machine)
      → m.sched_tree_child m.dep ≡ 0
      → m.state m.dep ≡ initial
      → 0 < m.dep
      → close j t m ≡ (up m, false)
  unfolding close
  close-up m z s pos = let inner : (m.dep == 0) ≡ false = ground arith in rw (z, s, inner) refl

  close_at_root :
      (m : Machine)
      → m.sched_tree_child m.dep ≡ 0
      → m.state m.dep ≡ initial
      → m.dep ≡ 0
      → close j t m ≡ (again_finished j t f l m, true)
  unfolding close
  close_at_root m z s d = let root : (m.dep == 0) ≡ true = ground arith in rw (z, s, root) refl

  module _ (small : t.num_query_vertices < 2 ^ 32) where
    run-Steps : (m m1 m' : Machine) → Steps j t f l m m1 → Ends j t m1 m' → Ends j t m m'
    run-Steps m m1 m' here ends = ends
    run-Steps m m1 m' (next {m1 = m2} s e) (fuel, r) =
        run-Steps m m2 m' s (suc fuel, run_step_lem j t m2 m1 m' fuel e r)

    walk_inner :
        (k : ℕ) (m : Machine)
        → m.dep + suc (suc k) ≡ t.num_query_vertices
        → 0 < m.dep
        → Ready j t f l m.dep m
        → IsTree j t (suc k) m.tree_node_id
        → m.shard_idxs ≡ shards_at j t m.tree_node_id 0
        → Walks j t f l k (m.dep + 1)
        → (m' : Machine) × Steps j t f l m m'
          × Walked j t f l m.dep (total j t f (suc k) m.dep m.tree_node_id m.shard_idxs m.rslt) m m'
    walk_inner k m e pos r tree entered walks =
        let (last, (m1, run, done), h, counted) =
          walk_node j t f l small k m e r tree entered walks in
        let number = ap last.sched_tree_child h.dep ∙ h.number in
        let state = ap last.state h.dep ∙ h.state in
        let closed = close-up last number state (omega (arith, h.dep)) in
        (
          up last,
          next run (done ∙ closed),
          record {
            dep = omega (arith, h.dep);
            node = ap (λ x. t.sched_tree_prv_id (sub32 x 1)) h.node;
            counted = counted;
            shards = h.shards ∙ sym entered;
            ready = record {
              good = h.good;
              pivots = λ i lt. h.pivots i (omega arith);
              fresh = λ i le lt. elim (Bool-cases (i == last.dep)) [
                | inl at ↦
                    let same = (==_iff i last.dep).0 at in
                    (rw at refl, ap last.state same ∙ state, ap last.sched_tree_child same ∙ number)
                | inr other ↦ rw other (h.fresh i (ground (arith, h.dep)) lt)
              ];
            };
            kept = λ i lt.
                let ne : (i == last.dep) ≡ false = ground (arith, h.dep) in rw ne (h.kept i lt);
          },
        )

    -- The walk below any node but a root
    walk : (k d : ℕ) → d + suc k ≡ t.num_query_vertices → 0 < d → Walks j t f l k d
    walk zero d e pos m at r tree entered = walk_last j t f l small d m (omega (arith, e)) pos at r
    walk (suc k) d e pos m at r tree entered =
        subst
          (λ x.
            (m' : Machine) × Steps j t f l m m'
            × Walked j t f l x (total j t f (suc k) x m.tree_node_id m.shard_idxs m.rslt) m m')
          at
          (walk_inner k m (omega (arith, at, e)) (omega (arith, at))
            (subst (λ x. Ready j t f l x m) (sym at) r) tree entered
            (subst (λ x. Walks j t f l k (x + 1)) (sym at)
              (walk k (d + 1) (omega (arith, e)) (omega arith))))

    walk_root :
        (k : ℕ) (m : Machine)
        → suc (suc k) ≡ t.num_query_vertices
        → m.dep ≡ 0
        → Ready j t f l 0 m
        → IsTree j t (suc k) m.tree_node_id
        → m.shard_idxs ≡ shards_at j t m.tree_node_id 0
        → (m' : Machine) × Ends j t m m'
          × (m'.dep ≡ 0)
          × Ready j t f l 0 m'
          × (m'.counter ≡ m.counter + total j t f (suc k) 0 m.tree_node_id m.shard_idxs m.rslt)
    walk_root k m e at r tree entered =
        let (last, (m1, run, done), h, counted) =
          walk_node j t f l small k m (omega (arith, at, e))
            (subst (λ x. Ready j t f l x m) (sym at) r) tree entered
            (subst (λ x. Walks j t f l k (x + 1)) (sym at)
              (walk k 1 (omega (arith, e)) (omega arith))) in
        let number = ap last.sched_tree_child h.dep ∙ h.number in
        let state = ap last.state h.dep ∙ h.state in
        let stops : Ends j t m1 (again_finished j t f l last) = (
          1,
          run_stop_lem j t m1 (again_finished j t f l last)
              (done ∙ close_at_root last number state (h.dep ∙ at)),
        ) in
        (
          again_finished j t f l last,
          run-Steps m m1 (again_finished j t f l last) run stops,
          h.dep ∙ at,
          record {
            good = h.good;
            pivots = λ i lt. absurd (omega arith);
            fresh = λ i le lt. elim (Bool-cases (i == last.dep)) [
              | inl same' ↦
                  let same = (==_iff i last.dep).0 same' in
                  (
                    rw same' refl,
                    ap last.state same ∙ state,
                    ap last.sched_tree_child same ∙ number,
                  )
              | inr other ↦ rw other (h.fresh i (ground (arith, h.dep, at)) lt)
            ];
          },
          counted
              ∙ ap (λ x. m.counter + total j t f (suc k) x m.tree_node_id m.shard_idxs m.rslt) at,
        )

    walk_roots :
        (k st_idx : ℕ) (roots : List ℕ) (m : Machine)
        → suc (suc k) ≡ t.num_query_vertices
        → m.dep ≡ 0
        → Ready j t f l 0 m
        → AreRoots j t k st_idx roots
        → (fuel : ℕ) × ((n : ℕ)
            → fuel ≤ n
            → (run_roots j t n st_idx roots m >>= λ m'. some m'.counter)
              ≡ some (m.counter + roots_total j t f k st_idx roots))
    unfolding run_roots
    walk_roots k st_idx [] m e at r trees = (0, λ n le. ap some (omega arith))
    walk_roots k st_idx (root ∷ roots) m e at r (tree, entered, trees) =
        let subtask = t.sched_tree_st_id st_idx in
        let start : Machine = record m {
          subtask_id = subtask;
          tree_node_id = root;
          shard_idxs = t.shard_idx_list subtask;
        } in
        let (m1, (fuel1, run1), at1, r1, counted) =
          walk_root k start e at (record { good = r.good; pivots = r.pivots; fresh = r.fresh }) tree
            entered in
        let (fuel2, run2) = walk_roots k (st_idx + 1) roots m1 e at1 r1 trees in
        let same =
          total-cong j t f l (suc k) 0 root (t.shard_idx_list subtask) m.rslt (λ d. 0)
            (omega (arith, e)) (λ i lt. absurd (omega (arith, lt))) in
        (
          fuel1 + fuel2,
          λ n le.
              rw (run1 n (omega (arith, le)))
                (run2 n (omega (arith, le)) ∙ ap some (omega (arith, counted, same))),
        )

  -- From some amount of fuel on, the kernel ends, and adds to the counter the matches below each of
  -- its roots, as the recursion over the depths counts them: the vertices that the intersections put
  -- into one buffer after the other go with each child of the tree node. The query has two to 2 ^ 32
  -- vertices less one, each root is that of a tree, and its shards are those of its first child. The
  -- two intersection functions keep the laws of `IsJoin`: each fills the buffer of its depth with the
  -- next list of vertices, says whether more are to come, and leaves the other depths alone.
  pub kernel-roots_total :
      (k : ℕ) (b : Block)
      → suc (suc k) ≡ t.num_query_vertices
      → t.num_query_vertices < 2 ^ 32
      → IsGood b
      → AreRoots j t k 0 t.tree_root_ids
      → (fuel : ℕ) × ((n : ℕ)
          → fuel ≤ n
          → kernel j t n b ≡ some (roots_total j t f k 0 t.tree_root_ids))
  unfolding kernel
  kernel-roots_total k b e small good trees =
      let (fuel, ends) =
        walk_roots small k 0 t.tree_root_ids (init_machine j t b) e refl
          (record {
            good = good;
            pivots = λ i lt. absurd (omega (arith, lt));
            fresh = λ i le lt. (refl, refl, refl);
          })
          trees in
      (fuel, λ n le. ends n le ∙ ap some (omega arith))
