-- ===== src/Tests/Loops.antt =====
-- Runs of the main loop of source/cuMatch/LFTJ_kernel_basic.cu.
use cu_match.Prelude.{
  ℕ, ◌+◌, ◌≤◌, ◌≡◌, refl, ap, inl, true, false, some, [], ◌∷◌, ◌==◌, ltb, if◌then◌else◌, update,
  arith,
}
use cu_match.Kernel.{shared_membuf, update2}
use cu_match.KernelLoop.{Joins, TreeTask, kernel}
use cu_match.KernelLoop.Spec.{Finds, IsJoin, IsTree, total, is_nil}
use cu_match.KernelLoop.Totals.{kernel-roots_total}
use cu_match.Tests.Joins.{loaded}

-- A query of two vertices, and a tree of one root with two leaves.
abbrev two_leaves : TreeTask
two_leaves = record {
  num_query_vertices = 2;
  eids = λ i. i;
  sched_tree_ptr = λ n. if n == 0 then 0 else 2;
  sched_tree_nxt_id = λ i. i + 1;
  sched_tree_prv_id = λ i. 0;
  sched_tree_st_id = λ i. i;
  shard_idx_list = λ s i. if s == 0 then 10 else 20;
  tree_root_ids = 0 ∷ [];
}

-- Two vertices match the first query vertex; as many as the vertex and the shard say match the last.
abbrev two_vertices : Joins
two_vertices = record {
  start = λ d shards rslt b.
      if ltb (d + 1) 2
      then (
        record b {
          im_size = update b.im_size d 2;
          im_data = update b.im_data d (5 ∷ 7 ∷ []);
          is_type = update b.is_type d shared_membuf;
          min_iter_per_shard = update2 b.min_iter_per_shard d 0 1;
          max_iter_per_shard = update2 b.max_iter_per_shard d 0 0;
        },
        0,
      )
      else (record b { im_size = update b.im_size d (rslt 0 + shards 0) }, 0);
  proceed = λ d pivot b. b;
}

abbrev found : Finds
found = record {
  first = λ d shards rslt. 5 ∷ 7 ∷ [];
  later = λ d shards rslt. [];
  matches = λ shards rslt. rslt 0 + shards 0;
}

two_vertices-IsJoin : IsJoin two_vertices two_leaves found
two_vertices-IsJoin = record {
  IsGood = λ b. Unit;
  IsPivot = λ d pivot. pivot ≡ 0;
  pending = λ d pivot b. [];
  resized = λ b d v h. h;
  pending_resized = λ b d v e pivot. refl;
  start_first = λ d shards rslt b lt h.
      let first : ltb (d + 1) 2 ≡ true = ground (arith, lt) in
      let at : (d == d) ≡ true = ground arith in
      rw (first, at)
        (
          tt,
          refl,
          inl (refl, refl),
          refl,
          refl,
          refl,
          λ e. refl,
          λ e q ne p. let other : (e == d) ≡ false = ground arith in rw (other, p) refl,
        );
  proceed_next = λ d pivot b c cs lt h p kind e. let empty = ap is_nil e in absurd (ground arith);
  start_last = λ d shards rslt b e h.
      let last : ltb (d + 1) 2 ≡ false = ground (arith, e) in
      let at : (d == d) ≡ true = ground arith in
      rw (last, at)
        (tt, refl, λ e' q ne p. let other : (e' == d) ≡ false = ground arith in rw other refl);
  first_cong = λ d shards r r' lt h. refl;
  later_cong = λ d shards r r' lt h. refl;
  matches_cong = λ shards r r' h. ap (λ x. x + shards 0) (h 0 (omega arith));
}

-- Each leaf is a child of the root.
tree : IsTree two_vertices two_leaves 1 0
tree = (omega arith, λ i lt. (refl, tt, tt))

kernel-roots_total_example :
    (fuel : ℕ) × ((n : ℕ) → fuel ≤ n → kernel two_vertices two_leaves n loaded ≡ some 84)
unfolding two_vertices-IsJoin total
kernel-roots_total_example =
    kernel-roots_total two_vertices two_leaves found two_vertices-IsJoin 0 loaded refl (omega arith)
      tt (tree, refl, tt)
