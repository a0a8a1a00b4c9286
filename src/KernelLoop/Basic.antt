-- ===== src/KernelLoop/Basic.antt =====
-- The two intersection functions of source/cuMatch/LFTJ_kernel_basic.cu in its main loop.
pub mod Agree
pub mod Chunks
pub mod Keep
pub mod Kernels
pub mod Laws
pub mod Openings
pub mod Rounds
pub mod Starts
use cu_match.Prelude.{
  ℕ, zero, suc, ◌+◌, ◌-◌, ◌≤◌, ◌<◌, ◌≡◌, ◌≢◌, ◌^◌, Bool, Option, some, none, List, [], ◌∷◌, length,
  ltb, if◌then◌else◌,
}
use cu_match.Flip24.{Memory, read_element}
use cu_match.Shard.{Flip24Shard, adj_list_vid}
use cu_match.Kernel.{
  Task, Block, last, add32, sub32, set_intersection_initial, set_intersection_resume,
}
use cu_match.KernelLoop.{Joins, TreeTask, is_shared, is_over}
use cu_match.KernelLoop.Spec.{Finds}

-- What the intersections read of the kernel buffer besides the loop
pub record JoinInfo : Type 0 where
  pub num_query_edges : ℕ
  pub shard_ptrs : ℕ → Flip24Shard
  pub lv0_dep : ℕ → ℕ
  pub prefix_sum_degree : ℕ → ℕ
  pub global_order : ℕ → ℕ

abbrev pub option_or : Option ℕ → ℕ → ℕ
option_or none x = x
option_or (some y) x = y

-- A block as good as any other: each intersection for the first time at a depth overwrites it.
abbrev pub blank : Block
blank = record {
  vid_gap = λ i. 0;
  vid_gap_idx = λ i. 0;
  min_iter_per_shard = λ d e. 0;
  max_iter_per_shard = λ d e. 0;
  im_size = λ d. 0;
  im_data = λ d. [];
  flip24_arrs = λ e p. 0;
  is_type = λ d. last;
}

-- The elements of a list from index `lo` on
abbrev pub reads : Memory → ℕ → ℕ → ℕ → List ℕ
reads mem lo i zero = []
reads mem lo i (suc n) = read_element mem (add32 lo i) ∷ reads mem lo (i + 1) n

-- `num_join_shards_arr[match_vid]`
abbrev pub num_join_shards : JoinInfo → ℕ → ℕ
num_join_shards info dep =
    let match_vid = info.global_order dep in
    sub32 (info.prefix_sum_degree (match_vid + 1)) (info.prefix_sum_degree match_vid)

module _ (t : TreeTask) (info : JoinInfo) (schedule : ℕ → ℕ → List ℕ) (block_idx : ℕ) where
  abbrev pub task : (ℕ → ℕ) → Task
  task shards = record {
    num_query_vertices = t.num_query_vertices;
    num_query_edges = info.num_query_edges;
    shard_idxs = shards;
    shard_ptrs = info.shard_ptrs;
    eids = t.eids;
    lv0_dep = info.lv0_dep;
    prefix_sum_degree = info.prefix_sum_degree;
  }

  unfoldable pub basic_start : ℕ → (ℕ → ℕ) → (ℕ → ℕ) → Block → Block × ℕ
  basic_start dep shards rslt b =
      let r =
        set_intersection_initial (task shards) dep (info.global_order dep)
          (num_join_shards info dep) schedule block_idx rslt b in
      (r.0, option_or r.1 0)

  -- The function reads no shard index.
  unfoldable pub proceed : ℕ → ℕ → Block → Block
  proceed dep pivot b =
      set_intersection_resume (task (λ i. 0)) dep (info.global_order dep) (num_join_shards info dep)
        schedule pivot b

  abbrev pub basic : Joins
  basic = record { start = basic_start; proceed = proceed }

  -- One buffer after the other, until the pivot list is used up: `n` bounds their number.
  unfoldable pub rounds : ℕ → ℕ → ℕ → Block → List (List ℕ)
  rounds zero dep pivot b = []
  rounds (suc n) dep pivot b =
      let b' = proceed dep pivot b in
      let rest = rounds n dep pivot b' in
      if is_over basic t dep pivot b then [] else b'.im_data dep ∷ rest

  abbrev pub left_over : ℕ → ℕ → Block → ℕ
  left_over dep pivot b =
      b.max_iter_per_shard dep (t.eids pivot) + 1 - b.min_iter_per_shard dep (t.eids pivot)

  abbrev pub buffers : ℕ → ℕ → Block → List (List ℕ)
  buffers dep pivot b =
      if is_shared (b.is_type dep) then rounds (left_over dep pivot b) dep pivot b else []

  abbrev pub buffer : ℕ → ℕ → Block → List ℕ
  buffer dep pivot b =
      if is_shared (b.is_type dep)
      then b.im_data dep
      else reads (b.flip24_arrs (t.eids pivot)) (b.min_iter_per_shard dep (t.eids pivot)) 0
          (b.im_size dep)

  -- What the intersections find, whatever the block holds
  abbrev pub basic_finds : Finds
  basic_finds = record {
    first = λ d shards rslt. let r = basic_start d shards rslt blank in buffer d r.1 r.0;
    later = λ d shards rslt. let r = basic_start d shards rslt blank in buffers d r.1 r.0;
    matches = λ shards rslt.
        let d = t.num_query_vertices - 1 in (basic_start d shards rslt blank).0.im_size d;
  }
