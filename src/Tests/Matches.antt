-- ===== src/Tests/Matches.antt =====
-- One block of source/cuMatch/LFTJ_kernel_basic.cu on a graph of three edges.
use cu_match.Prelude.{
  ℕ, zero, suc, ◌+◌, ◌≤◌, ◌<◌, ◌≡◌, refl, leb, true, false, some, [], ◌∷◌, ◌==◌, if◌then◌else◌,
  arith,
}
use cu_match.Shard.{adj_list_vid, colptr, list_size}
use cu_match.KernelLoop.{TreeTask, kernel}
use cu_match.KernelLoop.Spec.{roots_total}
use cu_match.KernelLoop.Basic.{JoinInfo, basic, basic_finds, blank}
use cu_match.KernelLoop.Basic.Openings.{IsBasic}
use cu_match.KernelLoop.Basic.Kernels.{kernel-basic}
use cu_match.Tests.Shards.{three_edges}
use cu_match.Tests.Joins.{in_order}

-- A query of one edge, and a tree of a root with one leaf.
abbrev pub one_leaf : TreeTask
one_leaf = record {
  num_query_vertices = 2;
  eids = λ i. i;
  sched_tree_ptr = λ n. if n == 0 then 0 else 1;
  sched_tree_nxt_id = λ i. i + 1;
  sched_tree_prv_id = λ i. 0;
  sched_tree_st_id = λ i. i;
  shard_idx_list = λ s i. 0;
  tree_root_ids = 0 ∷ [];
}

abbrev pub one_edge : JoinInfo
one_edge = record {
  num_query_edges = 1;
  shard_ptrs = λ i. three_edges;
  lv0_dep = λ i. 0;
  prefix_sum_degree = λ v. v;
  global_order = λ d. d;
}

pub each_list :
    (v : ℕ)
    → (1 ≤ (adj_list_vid three_edges v).colptr + (adj_list_vid three_edges v).length)
      × ((adj_list_vid three_edges v).colptr + (adj_list_vid three_edges v).length < 2147483648)
unfolding adj_list_vid colptr list_size
each_list zero = (omega arith, omega arith)
each_list (suc zero) = (omega arith, omega arith)
each_list (suc (suc v)) =
    let out : leb (suc (suc v)) 1 ≡ false = ground arith in
    let low : leb 0 (suc (suc v)) ≡ true = ground arith in rw (low, out) (omega arith, omega arith)

one_edge-IsBasic : IsBasic one_leaf one_edge
one_edge-IsBasic = record {
  small = omega arith;
  some_vertex = omega arith;
  rows = λ x. (omega arith, omega arith);
  lists = λ x v. each_list v;
  distinct = λ i k e. e;
  some_list = λ d lt. omega (arith, lt);
  apart = λ d e k i ne ld le lk li same. absurd (ne (omega (arith, ld, le, lk, li, same)));
  earlier = λ d k lt lk back. omega (arith, lt, lk, back);
}

kernel-basic_example :
    (fuel : ℕ) × ((n : ℕ)
      → fuel ≤ n
      → kernel (basic one_leaf one_edge in_order 0) one_leaf n blank
        ≡ some (
            roots_total
              (basic one_leaf one_edge in_order 0)
              one_leaf
              (basic_finds one_leaf one_edge in_order 0)
              0
              0
              (0 ∷ [])))
kernel-basic_example =
    kernel-basic one_leaf one_edge in_order 0 0 blank one_edge-IsBasic refl (λ d q. omega arith)
      ((omega arith, λ i lt. (refl, tt, tt)), refl, tt)
