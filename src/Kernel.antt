-- ===== src/Kernel.antt =====
-- source/cuMatch/LFTJ_kernel_basic.cu: the leap-frog join of one thread block. The shared arrays
-- are functions of the index. The threads of a block stride through the indices of a loop; their
-- atomic additions take some order, which the model gets as the list `schedule` of the indices.
pub mod Intersect
pub mod Pivot
pub mod Shares
pub mod Tally
pub mod Rounds
pub mod Covers
use cu_match.Prelude.{
  ℕ, zero, suc, ◌+◌, ◌-◌, ◌*◌, ◌/◌, ◌%◌, ◌^◌, Bool, true, false, not, ◌&&◌, List, [], ◌∷◌, ◌++◌,
  ltb, leb, ◌==◌, if◌then◌else◌, min, Option, none, some, update,
}
use cu_match.Flip24.{Memory, read_element}
use cu_match.Search.{lower_bound_on_flip24_array}
use cu_match.Shard.{Flip24Shard, AdjList, seek, adj_list_vid, u32_mod}

-- source/cuMatch and include/cu_match/device_defines.cuh
abbrev pub max_blocks : ℕ
max_blocks = 3840

-- `NumThreads`
abbrev pub sm_threshold : ℕ
sm_threshold = 128

pub data IntersectionType : Type 0 where
  shared_membuf gpu_membuf single bitmap last : IntersectionType

abbrev pub add32 : ℕ → ℕ → ℕ
add32 a b = (a + b) % u32_mod

abbrev pub sub32 : ℕ → ℕ → ℕ
sub32 a b = (a + u32_mod - b) % u32_mod

abbrev pub update2 {ℓ} : {A : Type ℓ} → (ℕ → ℕ → A) → ℕ → ℕ → A → ℕ → ℕ → A
update2 f d i v d' j = if d' == d && j == i then v else f d' j

-- What the kernel buffer and the chosen subtask say: read only while an intersection is made.
pub record Task : Type 0 where
  pub num_query_vertices : ℕ
  pub num_query_edges : ℕ
  pub shard_idxs : ℕ → ℕ
  pub shard_ptrs : ℕ → Flip24Shard
  pub eids : ℕ → ℕ
  pub lv0_dep : ℕ → ℕ
  pub prefix_sum_degree : ℕ → ℕ

-- The shared arrays that an intersection changes.
pub record Block : Type 0 where
  pub vid_gap : ℕ → ℕ
  pub vid_gap_idx : ℕ → ℕ
  pub min_iter_per_shard : ℕ → ℕ → ℕ
  pub max_iter_per_shard : ℕ → ℕ → ℕ
  pub im_size : ℕ → ℕ
  pub im_data : ℕ → List ℕ
  pub flip24_arrs : ℕ → Memory
  pub is_type : ℕ → IntersectionType

module _ (t : Task) (dep match_vid num_join_shards : ℕ) where
  -- Lines 31 to 47 for one `i`: the list of the i-th edge of the query vertex.
  unfoldable pub load_list : (ℕ → ℕ) → ℕ → Block → Block
  load_list rslt i b =
      let shard_offset = t.prefix_sum_degree match_vid + i in
      let e_id = t.eids shard_offset in
      let shard = t.shard_ptrs (t.shard_idxs shard_offset) in
      let gap = shard.num_rows in
      let adj = adj_list_vid shard (rslt (t.lv0_dep (e_id - t.num_query_edges))) in
      if ltb e_id t.num_query_edges
      then record b {
        flip24_arrs = update b.flip24_arrs e_id (seek shard.bytes shard.rowv);
        vid_gap = update b.vid_gap i gap;
        min_iter_per_shard = update2 b.min_iter_per_shard dep e_id 0;
        max_iter_per_shard = update2 b.max_iter_per_shard dep e_id (sub32 gap 1);
        vid_gap_idx = update b.vid_gap_idx i shard_offset;
      }
      else record b {
        flip24_arrs = update b.flip24_arrs e_id (seek shard.bytes adj.colv);
        vid_gap = update b.vid_gap i adj.length;
        min_iter_per_shard = update2 b.min_iter_per_shard dep e_id adj.colptr;
        max_iter_per_shard =
            update2 b.max_iter_per_shard dep e_id (sub32 (add32 adj.colptr adj.length) 1);
        vid_gap_idx = update b.vid_gap_idx i shard_offset;
      }

  -- `i` is the counter, `n` the rounds left.
  unfoldable pub load_lists : (ℕ → ℕ) → ℕ → ℕ → Block → Block
  load_lists rslt i zero b = b
  load_lists rslt i (suc n) b = load_lists rslt (i + 1) n (load_list rslt i b)

  -- Lines 63 to 66 for one `i`.
  unfoldable pub keep_shorter : ℕ → Block → Block
  keep_shorter i b =
      if ltb (b.vid_gap i) (b.vid_gap 0)
      then record b {
        vid_gap = update b.vid_gap 0 (b.vid_gap i);
        vid_gap_idx = update b.vid_gap_idx 0 (b.vid_gap_idx i);
      }
      else b

  -- Lines 61 to 68: entry 0 becomes the shortest list and its offset.
  unfoldable pub select_pivot : ℕ → ℕ → Block → Block
  select_pivot i zero b = b
  select_pivot i (suc n) b = select_pivot (i + 1) n (keep_shorter i b)

  -- Lines 94 to 110: is the vertex in every list but the pivot?
  unfoldable pub intersects : Block → ℕ → ℕ → ℕ → ℕ → Bool
  intersects b pivot v_id j zero = true
  intersects b pivot v_id j (suc n) =
      let shard_offset = t.prefix_sum_degree match_vid + j in
      let e_id = t.eids shard_offset in
      let rest = intersects b pivot v_id (j + 1) n in
      let found =
        (lower_bound_on_flip24_array (b.flip24_arrs e_id) v_id (b.min_iter_per_shard dep e_id)
          (add32 (b.max_iter_per_shard dep e_id) 1)).0 in
      if shard_offset == pivot then rest else if found then rest else false

  -- Lines 91 to 115: only the number of matches is kept.
  unfoldable pub count_matches : ℕ → List ℕ → Block → Block
  count_matches pivot [] b = b
  count_matches pivot (i ∷ is) b =
      let v_id = read_element (b.flip24_arrs (t.eids pivot)) i in
      count_matches pivot is (
        if intersects b pivot v_id 0 num_join_shards
        then record b { im_size = update b.im_size dep (b.im_size dep + 1) }
        else b)

  -- Lines 134 to 158 and 193 to 217: each match goes to the slot that its addition got.
  unfoldable pub store_matches : ℕ → List ℕ → Block → Block
  store_matches pivot [] b = b
  store_matches pivot (i ∷ is) b =
      let v_id = read_element (b.flip24_arrs (t.eids pivot)) i in
      store_matches pivot is (
        if intersects b pivot v_id 0 num_join_shards
        then record b {
          im_size = update b.im_size dep (b.im_size dep + 1);
          im_data = update b.im_data dep (b.im_data dep ++ v_id ∷ []);
        }
        else b)

  -- Lines 123 to 127: the share of the pivot list that the block takes at depth 0.
  unfoldable pub restrict_to_block : ℕ → ℕ → Block → Block
  restrict_to_block block_idx pivot_e_id b =
      let gap = add32 (b.vid_gap 0) (max_blocks - 1) / max_blocks in
      let lo = b.min_iter_per_shard dep pivot_e_id in
      let hi = b.max_iter_per_shard dep pivot_e_id in
      record b {
        max_iter_per_shard =
            update2 b.max_iter_per_shard dep pivot_e_id
              (min (sub32 (add32 lo (gap * (block_idx + 1))) 1) hi);
        min_iter_per_shard =
            update2 b.min_iter_per_shard dep pivot_e_id (add32 lo (gap * block_idx));
      }

  -- Lines 131 to 161: one buffer full of the pivot list. `schedule lo hi` lists the indices from
  -- `lo` to `hi` in the order of the additions. The slots of `im_data` count from 0 again.
  unfoldable pub store_chunk : (ℕ → ℕ → List ℕ) → ℕ → Block → Block
  store_chunk schedule pivot b =
      let e_id = t.eids pivot in
      let lo = b.min_iter_per_shard dep e_id in
      let max_value = min (b.max_iter_per_shard dep e_id) (sub32 (add32 lo sm_threshold) 1) in
      let b' =
        store_matches pivot (schedule lo max_value)
          (record b { im_size = update b.im_size dep 0; im_data = update b.im_data dep [] }) in
      record b' {
        min_iter_per_shard = update2 b'.min_iter_per_shard dep e_id (add32 lo sm_threshold);
      }

  -- `set_intersection_initial_basic`, with the offset that it returns. In the branch of the last
  -- vertex the source returns no value, and the caller reads none.
  unfoldable pub set_intersection_initial :
      (ℕ → ℕ → List ℕ) → ℕ → (ℕ → ℕ) → Block → Block × Option ℕ
  set_intersection_initial schedule block_idx rslt b =
      let b1 = select_pivot 1 (num_join_shards - 1) (load_lists rslt 0 num_join_shards b) in
      let pivot = b1.vid_gap_idx 0 in
      let e_id = t.eids pivot in
      if not (dep == 0) && num_join_shards == 1
      then (
        record b1 {
          im_size = update b1.im_size dep (b1.vid_gap 0);
          is_type = update b1.is_type dep single;
        },
        some pivot,
      )
      else if dep == sub32 t.num_query_vertices 1
      then (
        count_matches pivot
            (schedule (b1.min_iter_per_shard dep e_id) (b1.max_iter_per_shard dep e_id))
            (record b1 { im_size = update b1.im_size dep 0; is_type = update b1.is_type dep last }),
        none,
      )
      else (
        store_chunk schedule pivot (
            if dep == 0
            then restrict_to_block block_idx e_id
                (record b1 { is_type = update b1.is_type dep shared_membuf })
            else record b1 { is_type = update b1.is_type dep shared_membuf }),
        some pivot,
      )

  -- `set_intersection_resume_basic`
  unfoldable pub set_intersection_resume : (ℕ → ℕ → List ℕ) → ℕ → Block → Block
  set_intersection_resume schedule pivot b = store_chunk schedule pivot b
