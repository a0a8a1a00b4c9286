-- ===== src/NegativeConstraint.antt =====
-- source/cuMatch/LFTJ_kernel_negative_constraint.cu: the attribute join of a query with negative
-- edges under constraints. The first intersection at a depth makes the tests of the two kernels; the
-- function for another buffer full has a test of its own for the edges, which does not look whether
-- a list is empty.
use cu_match.Prelude.{
  ℕ, zero, suc, ◌+◌, ◌-◌, ◌≡◌, ◌≢◌, refl, ap, sym, Bool, true, false, not, ◌&&◌, Option, some, none,
  List, [], ◌∷◌, ◌++◌, ◌==◌, if◌then◌else◌, min, update, arith,
}
use cu_match.Flip24.{read_element}
use cu_match.Search.{lower_bound_on_flip24_array, lower_bound_empty}
use cu_match.Kernel.{
  Task, Block, last, shared_membuf, add32, sub32, update2, sm_threshold, load_lists, select_pivot,
  restrict_to_block,
}
use cu_match.Negative.{
  NegativeInfo, is_negative, test_edge, test_edges, set_intersection_initial_negative,
  set_intersection_resume_negative,
}
use cu_match.Constraint.{ConstraintInfo, is_free, num_constraints_per_block, compare_values}

module _ (t : Task) (neg : NegativeInfo) (info : ConstraintInfo)
    (dep match_vid num_join_shards : ℕ) where
  -- One edge in the function for another buffer full
  unfoldable pub test_again : Block → ℕ → ℕ → Bool → Bool
  test_again b v_id shard_offset intersect =
      let e_id = t.eids shard_offset in
      let lo = b.min_iter_per_shard dep e_id in
      let hi = add32 (b.max_iter_per_shard dep e_id) 1 in
      let found = (lower_bound_on_flip24_array (b.flip24_arrs e_id) v_id lo hi).0 in
      if not (is_negative (neg.edge_type_list shard_offset))
      then intersect && found
      else intersect && not found

  unfoldable pub test_edges_again : Block → ℕ → ℕ → Bool → ℕ → ℕ → Bool
  test_edges_again b pivot v_id intersect j zero = intersect
  test_edges_again b pivot v_id intersect j (suc n) =
      let shard_offset = t.prefix_sum_degree match_vid + j in
      let intersect' = test_again b v_id shard_offset intersect in
      let skip = test_edges_again b pivot v_id intersect (j + 1) n in
      let rest = test_edges_again b pivot v_id intersect' (j + 1) n in
      if shard_offset == pivot then skip else if intersect' then rest else intersect'

  -- The loop over a piece of the pivot list, with either test for the edges
  unfoldable pub store_both : (Block → ℕ → Bool) → (ℕ → ℕ) → ℕ → List ℕ → Block → Block
  store_both test values pivot [] b = b
  store_both test values pivot (i ∷ is) b =
      let v_id = read_element (b.flip24_arrs (t.eids pivot)) i in
      store_both test values pivot is (
        if is_free values v_id 0 (num_constraints_per_block t info dep match_vid num_join_shards)
        then if test b v_id
          then record b {
            im_size = update b.im_size dep (b.im_size dep + 1);
            im_data = update b.im_data dep (b.im_data dep ++ v_id ∷ []);
          }
          else b
        else b)

  unfoldable pub fill_both : (Block → ℕ → Bool) → (ℕ → ℕ → List ℕ) → (ℕ → ℕ) → ℕ → Block → Block
  fill_both test schedule values pivot b =
      let e_id = t.eids pivot in
      let lo = b.min_iter_per_shard dep e_id in
      let max_value = min (b.max_iter_per_shard dep e_id) (sub32 (add32 lo sm_threshold) 1) in
      let b' =
        store_both test values pivot (schedule lo max_value)
          (record b { im_size = update b.im_size dep 0; im_data = update b.im_data dep [] }) in
      record b' {
        min_iter_per_shard = update2 b'.min_iter_per_shard dep e_id (add32 lo sm_threshold);
      }

  unfoldable pub count_both : (ℕ → ℕ) → ℕ → List ℕ → Block → Block
  count_both values pivot [] b = b
  count_both values pivot (i ∷ is) b =
      let v_id = read_element (b.flip24_arrs (t.eids pivot)) i in
      count_both values pivot is (
        if is_free values v_id 0 (num_constraints_per_block t info dep match_vid num_join_shards)
        then if test_edges t neg dep match_vid num_join_shards b pivot v_id true 0 num_join_shards
          then record b { im_size = update b.im_size dep (b.im_size dep + 1) }
          else b
        else b)

  -- `set_intersection_initial_negative_constraint`
  unfoldable pub set_intersection_initial_negative_constraint :
      (ℕ → ℕ → List ℕ) → ℕ → (ℕ → ℕ) → Block → Block × Option ℕ
  set_intersection_initial_negative_constraint schedule block_idx rslt b =
      let candidates = sub32 num_join_shards (neg.is_negative_vertex_with_degree dep) in
      let b1 =
        select_pivot t dep match_vid num_join_shards 1 (candidates - 1)
          (load_lists t dep match_vid num_join_shards rslt 0 num_join_shards b) in
      let pivot = b1.vid_gap_idx 0 in
      let e_id = t.eids pivot in
      let values = compare_values t info dep match_vid num_join_shards rslt in
      let test = λ (c : Block) (v_id : ℕ).
        test_edges t neg dep match_vid num_join_shards c pivot v_id true 0 num_join_shards in
      if num_constraints_per_block t info dep match_vid num_join_shards == 0
      then set_intersection_initial_negative t neg dep match_vid num_join_shards schedule block_idx
          rslt b
      else if dep == sub32 t.num_query_vertices 1
      then (
        count_both values pivot
            (schedule (b1.min_iter_per_shard dep e_id) (b1.max_iter_per_shard dep e_id))
            (record b1 { im_size = update b1.im_size dep 0; is_type = update b1.is_type dep last }),
        none,
      )
      else (
        fill_both test schedule values pivot (
            if dep == 0
            then restrict_to_block t dep match_vid num_join_shards block_idx e_id
                (record b1 { is_type = update b1.is_type dep shared_membuf })
            else record b1 { is_type = update b1.is_type dep shared_membuf }),
        some pivot,
      )

  -- `set_intersection_resume_negative_constraint`
  unfoldable pub set_intersection_resume_negative_constraint :
      (ℕ → ℕ → List ℕ) → (ℕ → ℕ) → ℕ → Block → Block
  set_intersection_resume_negative_constraint schedule rslt pivot b =
      let test = λ (c : Block) (v_id : ℕ). test_edges_again c pivot v_id true 0 num_join_shards in
      if num_constraints_per_block t info dep match_vid num_join_shards == 0
      then set_intersection_resume_negative t neg dep match_vid num_join_shards schedule pivot b
      else fill_both test schedule (compare_values t info dep match_vid num_join_shards rslt) pivot
          b

  -- The test for another buffer full is that of the first intersection for a list that is not empty.
  -- For the empty list of a negative edge the first lets each vertex pass, and the other one drops
  -- the vertex that stands behind the list, at the place where it would start.
  pub test_again_cases :
      (b : Block) (v_id k : ℕ)
      → let e_id = t.eids k in
        let lo = b.min_iter_per_shard dep e_id in
        let hi = add32 (b.max_iter_per_shard dep e_id) 1 in
        (lo ≢ hi
          → test_again b v_id k true ≡ test_edge t neg dep match_vid num_join_shards b v_id k true)
        × (lo ≡ hi
            → is_negative (neg.edge_type_list k) ≡ true
            → (test_edge t neg dep match_vid num_join_shards b v_id k true ≡ true)
              × (test_again b v_id k true ≡ not (v_id == read_element (b.flip24_arrs e_id) lo)))
  unfolding test_again test_edge lower_bound_on_flip24_array
  test_again_cases b v_id k =
      let e_id = t.eids k in
      let lo = b.min_iter_per_shard dep e_id in
      let hi = add32 (b.max_iter_per_shard dep e_id) 1 in
      (
        λ ne. let other : (lo == hi) ≡ false = ground arith in rw other refl,
        λ e n.
            let same : (lo == hi) ≡ true = ground arith in
            (
              rw (n, same) refl,
              rw (n, sym e)
                  (ap not (lower_bound_empty (read_element (b.flip24_arrs e_id)) v_id lo)),
            ),
      )
