-- ===== src/Negative.antt =====
-- source/cuMatch/LFTJ_kernel_negative.cu: the attribute join of a query with negative edges. What a
-- vertex must have for a regular edge, it must not have for a negative one. The lists are loaded as
-- in the basic kernel, and the main loop is the same.
pub mod Lists
use cu_match.Prelude.{
  ℕ, zero, suc, ◌+◌, ◌-◌, ◌*◌, ◌^◌, Bool, true, false, not, ◌&&◌, Option, some, none, List, [], ◌∷◌,
  ◌++◌, ltb, ◌==◌, if◌then◌else◌, min, update,
}
use cu_match.Flip24.{read_element}
use cu_match.Search.{lower_bound_on_flip24_array}
use cu_match.Kernel.{
  Task, Block, single, last, shared_membuf, add32, sub32, update2, sm_threshold, load_lists,
  select_pivot, restrict_to_block,
}
use cu_match.KernelLoop.{Joins, TreeTask, kernel}
use cu_match.KernelLoop.Basic.{JoinInfo, task, num_join_shards, option_or}

pub data KernelEdgeType : Type 0 where
  regular optional negative : KernelEdgeType

abbrev pub is_negative : KernelEdgeType → Bool
is_negative regular = false
is_negative optional = false
is_negative negative = true

-- What the kernel buffer says of the negative edges
pub record NegativeInfo : Type 0 where
  pub is_negative_vertex_with_degree : ℕ → ℕ
  pub num_negative_per_vertex : ℕ → ℕ
  pub edge_type_list : ℕ → KernelEdgeType

module _ (t : Task) (info : NegativeInfo) (dep match_vid num_join_shards : ℕ) where
  -- One edge: the new value of `intersect`. Beside a 0 or 1, `&= ~` of a Boolean is that of its
  -- negation.
  unfoldable pub test_edge : Block → ℕ → ℕ → Bool → Bool
  test_edge b v_id shard_offset intersect =
      let e_id = t.eids shard_offset in
      let lo = b.min_iter_per_shard dep e_id in
      let hi = add32 (b.max_iter_per_shard dep e_id) 1 in
      let found = (lower_bound_on_flip24_array (b.flip24_arrs e_id) v_id lo hi).0 in
      if not (is_negative (info.edge_type_list shard_offset))
      then intersect && found
      else if lo == hi
      then true
      else intersect && not found

  -- The loop over the other lists, which stops at the first that does not fit
  unfoldable pub test_edges : Block → ℕ → ℕ → Bool → ℕ → ℕ → Bool
  test_edges b pivot v_id intersect j zero = intersect
  test_edges b pivot v_id intersect j (suc n) =
      let shard_offset = t.prefix_sum_degree match_vid + j in
      let intersect' = test_edge b v_id shard_offset intersect in
      let skip = test_edges b pivot v_id intersect (j + 1) n in
      let rest = test_edges b pivot v_id intersect' (j + 1) n in
      if shard_offset == pivot then skip else if intersect' then rest else intersect'

  -- The branch of the last vertex
  unfoldable pub count_passing : ℕ → List ℕ → Block → Block
  count_passing pivot [] b = b
  count_passing pivot (i ∷ is) b =
      let v_id = read_element (b.flip24_arrs (t.eids pivot)) i in
      count_passing pivot is (
        if test_edges b pivot v_id true 0 num_join_shards
        then record b { im_size = update b.im_size dep (b.im_size dep + 1) }
        else b)

  unfoldable pub store_passing : ℕ → List ℕ → Block → Block
  store_passing pivot [] b = b
  store_passing pivot (i ∷ is) b =
      let v_id = read_element (b.flip24_arrs (t.eids pivot)) i in
      store_passing pivot is (
        if test_edges b pivot v_id true 0 num_join_shards
        then record b {
          im_size = update b.im_size dep (b.im_size dep + 1);
          im_data = update b.im_data dep (b.im_data dep ++ v_id ∷ []);
        }
        else b)

  -- One buffer full, as in the basic kernel
  unfoldable pub fill_buffer : (ℕ → ℕ → List ℕ) → ℕ → Block → Block
  fill_buffer schedule pivot b =
      let e_id = t.eids pivot in
      let lo = b.min_iter_per_shard dep e_id in
      let max_value = min (b.max_iter_per_shard dep e_id) (sub32 (add32 lo sm_threshold) 1) in
      let b' =
        store_passing pivot (schedule lo max_value)
          (record b { im_size = update b.im_size dep 0; im_data = update b.im_data dep [] }) in
      record b' {
        min_iter_per_shard = update2 b'.min_iter_per_shard dep e_id (add32 lo sm_threshold);
      }

  -- `set_intersection_initial_negative`: the pivot is none of the lists of negative edges, which
  -- are the last.
  unfoldable pub set_intersection_initial_negative :
      (ℕ → ℕ → List ℕ) → ℕ → (ℕ → ℕ) → Block → Block × Option ℕ
  set_intersection_initial_negative schedule block_idx rslt b =
      let candidates = sub32 num_join_shards (info.is_negative_vertex_with_degree dep) in
      let b1 =
        select_pivot t dep match_vid num_join_shards 1 (candidates - 1)
          (load_lists t dep match_vid num_join_shards rslt 0 num_join_shards b) in
      let pivot = b1.vid_gap_idx 0 in
      let e_id = t.eids pivot in
      if not (dep == 0) && num_join_shards == 1
      then (
        record b1 {
          im_size = update b1.im_size dep (b1.vid_gap 0);
          is_type = update b1.is_type dep single;
        },
        some pivot,
      )
      else if dep == sub32 t.num_query_vertices 1
      then (
        count_passing pivot
            (schedule (b1.min_iter_per_shard dep e_id) (b1.max_iter_per_shard dep e_id))
            (record b1 { im_size = update b1.im_size dep 0; is_type = update b1.is_type dep last }),
        none,
      )
      else (
        fill_buffer schedule pivot (
            if dep == 0
            then restrict_to_block t dep match_vid num_join_shards block_idx e_id
                (record b1 { is_type = update b1.is_type dep shared_membuf })
            else record b1 { is_type = update b1.is_type dep shared_membuf }),
        some pivot,
      )

  -- `set_intersection_resume_negative`
  unfoldable pub set_intersection_resume_negative : (ℕ → ℕ → List ℕ) → ℕ → Block → Block
  set_intersection_resume_negative schedule pivot b = fill_buffer schedule pivot b

module _ (t : TreeTask) (info : JoinInfo) (neg : NegativeInfo) (schedule : ℕ → ℕ → List ℕ)
    (block_idx : ℕ) where
  -- `num_join_shards_arr[match_vid]`
  abbrev joined : ℕ → ℕ
  joined dep =
      sub32 (num_join_shards info dep) (neg.num_negative_per_vertex (info.global_order dep))

  -- The two functions, as the main loop calls them
  abbrev pub negative_joins : Joins
  negative_joins = record {
    start = λ dep shards rslt b.
        let r =
          set_intersection_initial_negative (task t info schedule block_idx shards) neg dep
            (info.global_order dep) (joined dep) schedule block_idx rslt b in
        (r.0, option_or r.1 0);
    proceed = λ dep pivot b.
        set_intersection_resume_negative (task t info schedule block_idx (λ i. 0)) neg dep
          (info.global_order dep) (joined dep) schedule pivot b;
  }

  -- `LFTJ_kernel_negative` for one block
  abbrev pub negative_kernel : ℕ → Block → Option ℕ
  negative_kernel fuel b = kernel negative_joins t fuel b
