-- ===== src/Optional.antt =====
-- source/cuMatch/LFTJ_kernel_optional.cu: the attribute join of a query with optional edges. The
-- lists are loaded and intersected as in the basic kernel; the buffers are shorter, and the kernel
-- makes a match without a vertex where an optional query vertex finds none.
pub mod Buffers
pub mod Fills
pub mod Firsts
pub mod Loop
pub mod Slots
pub mod Kernels
pub mod Last
pub mod Opening
pub mod Outer
use cu_match.Prelude.{
  ℕ, ◌+◌, ◌-◌, Bool, true, not, ◌&&◌, ◌||◌, Option, some, none, List, [], leb, ◌==◌, if◌then◌else◌,
  min, update,
}
use cu_match.Kernel.{
  Task, Block, single, last, shared_membuf, add32, sub32, update2, load_lists, select_pivot,
  count_matches, store_matches, restrict_to_block,
}
use cu_match.KernelLoop.{Joins, TreeTask}
use cu_match.KernelLoop.Basic.{JoinInfo, task, num_join_shards, option_or}

-- `SMThresholdOpt`, which is `NumThreadsOpt`
abbrev pub sm_threshold_opt : ℕ
sm_threshold_opt = 32

-- What the kernel buffer says of the optional vertices and edges
pub record OptionalInfo : Type 0 where
  pub is_optional_vertex : ℕ → Bool
  pub num_optional_per_vertex : ℕ → ℕ

module _ (t : Task) (info : OptionalInfo) (dep match_vid num_join_shards : ℕ) where
  -- One buffer full of the pivot list
  unfoldable pub store_short_chunk : (ℕ → ℕ → List ℕ) → ℕ → Block → Block
  store_short_chunk schedule pivot b =
      let e_id = t.eids pivot in
      let lo = b.min_iter_per_shard dep e_id in
      let max_value = min (b.max_iter_per_shard dep e_id) (sub32 (add32 lo sm_threshold_opt) 1) in
      let b' =
        store_matches t dep match_vid num_join_shards pivot (schedule lo max_value)
          (record b { im_size = update b.im_size dep 0; im_data = update b.im_data dep [] }) in
      record b' {
        min_iter_per_shard = update2 b'.min_iter_per_shard dep e_id (add32 lo sm_threshold_opt);
      }

  -- Is the pivot list walked through in place, without a buffer?
  unfoldable pub is_direct : ℕ → Bool
  is_direct gap =
      gap == 0
      || (not (dep == 0)
          && num_join_shards == 1
          && not (
              not (dep == sub32 t.num_query_vertices 1)
              && not (info.is_optional_vertex (dep + 1))
              && leb sm_threshold_opt gap))

  -- `set_intersection_initial_optional`, with the offset that it returns. In the branch of the last
  -- vertex the source returns no value, and the caller reads none.
  unfoldable pub set_intersection_initial_optional :
      (ℕ → ℕ → List ℕ) → ℕ → (ℕ → ℕ) → Block → Block × Option ℕ
  set_intersection_initial_optional schedule block_idx rslt b =
      let b1 =
        select_pivot t dep match_vid num_join_shards 1 (num_join_shards - 1)
          (load_lists t dep match_vid num_join_shards rslt 0 num_join_shards b) in
      let pivot = b1.vid_gap_idx 0 in
      let e_id = t.eids pivot in
      if is_direct (b1.vid_gap 0)
      then (
        record b1 {
          im_size = update b1.im_size dep (b1.vid_gap 0);
          is_type = update b1.is_type dep single;
        },
        some pivot,
      )
      else if dep == sub32 t.num_query_vertices 1
      then (
        count_matches t dep match_vid num_join_shards pivot
            (schedule (b1.min_iter_per_shard dep e_id) (b1.max_iter_per_shard dep e_id))
            (record b1 { im_size = update b1.im_size dep 0; is_type = update b1.is_type dep last }),
        none,
      )
      else (
        store_short_chunk schedule pivot (
            if dep == 0
            then restrict_to_block t dep match_vid num_join_shards block_idx e_id
                (record b1 { is_type = update b1.is_type dep shared_membuf })
            else record b1 { is_type = update b1.is_type dep shared_membuf }),
        some pivot,
      )

  -- `set_intersection_resume_optional`
  unfoldable pub set_intersection_resume_optional : (ℕ → ℕ → List ℕ) → ℕ → Block → Block
  set_intersection_resume_optional schedule pivot b = store_short_chunk schedule pivot b

module _ (t : TreeTask) (info : JoinInfo) (opt : OptionalInfo) (schedule : ℕ → ℕ → List ℕ)
    (block_idx : ℕ) where
  -- `num_join_shards_arr[match_vid]`: the optional edges that leave the vertex are not joined here.
  abbrev pub joined_shards : ℕ → ℕ
  joined_shards dep =
      sub32 (num_join_shards info dep) (opt.num_optional_per_vertex (info.global_order dep))

  -- The two functions, as the main loop calls them
  unfoldable pub optional_start : ℕ → (ℕ → ℕ) → (ℕ → ℕ) → Block → Block × ℕ
  optional_start dep shards rslt b =
      let r =
        set_intersection_initial_optional (task t info schedule block_idx shards) opt dep
          (info.global_order dep) (joined_shards dep) schedule block_idx rslt b in
      (r.0, option_or r.1 0)

  abbrev pub optional_joins : Joins
  optional_joins = record {
    start = optional_start;
    proceed = λ dep pivot b.
        set_intersection_resume_optional (task t info schedule block_idx (λ i. 0)) opt dep
          (info.global_order dep) (joined_shards dep) schedule pivot b;
  }
