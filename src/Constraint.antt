-- ===== src/Constraint.antt =====
-- source/cuMatch/LFTJ_kernel_constraint.cu: the attribute join under constraints, which forbid that
-- two query vertices match the same vertex. A query vertex without constraints is treated as in the
-- basic kernel.
pub mod Partners
use cu_match.Prelude.{
  ℕ, zero, suc, ◌+◌, ◌-◌, ◌*◌, ◌^◌, Bool, true, false, Option, some, none, List, [], ◌∷◌, ◌++◌, ltb,
  ◌==◌, if◌then◌else◌, min, update,
}
use cu_match.Flip24.{read_element}
use cu_match.Kernel.{
  Task, Block, last, shared_membuf, add32, sub32, update2, sm_threshold, load_lists, select_pivot,
  intersects, restrict_to_block, set_intersection_initial, set_intersection_resume,
}

-- What the kernel buffer says of the constraints
pub record ConstraintInfo : Type 0 where
  pub constraint_ptr : ℕ → ℕ
  pub constraints : ℕ → ℕ

-- The loop over `compare_values`, from the `j`-th value on: does the vertex differ from all of them?
unfoldable pub is_free : (ℕ → ℕ) → ℕ → ℕ → ℕ → Bool
is_free compare_values v_id j zero = true
is_free compare_values v_id j (suc n) =
    let rest = is_free compare_values v_id (j + 1) n in
    if v_id == compare_values j then false else rest

module _ (t : Task) (info : ConstraintInfo) (dep match_vid num_join_shards : ℕ) where
  -- `num_constraints_per_block_arr[match_vid]`
  abbrev pub num_constraints_per_block : ℕ
  num_constraints_per_block =
      sub32 (info.constraint_ptr (match_vid + 1)) (info.constraint_ptr match_vid)

  abbrev pub compare_values : (ℕ → ℕ) → ℕ → ℕ
  compare_values rslt i = rslt (info.constraints (info.constraint_ptr match_vid + i))

  -- The branch of the last vertex; `values` are the `compare_values`.
  unfoldable pub count_free : (ℕ → ℕ) → ℕ → List ℕ → Block → Block
  count_free values pivot [] b = b
  count_free values pivot (i ∷ is) b =
      let v_id = read_element (b.flip24_arrs (t.eids pivot)) i in
      count_free values pivot is (
        if is_free values v_id 0 num_constraints_per_block
        then if intersects t dep match_vid num_join_shards b pivot v_id 0 num_join_shards
          then record b { im_size = update b.im_size dep (b.im_size dep + 1) }
          else b
        else b)

  unfoldable pub store_free : (ℕ → ℕ) → ℕ → List ℕ → Block → Block
  store_free values pivot [] b = b
  store_free values pivot (i ∷ is) b =
      let v_id = read_element (b.flip24_arrs (t.eids pivot)) i in
      store_free values pivot is (
        if is_free values v_id 0 num_constraints_per_block
        then if intersects t dep match_vid num_join_shards b pivot v_id 0 num_join_shards
          then record b {
            im_size = update b.im_size dep (b.im_size dep + 1);
            im_data = update b.im_data dep (b.im_data dep ++ v_id ∷ []);
          }
          else b
        else b)

  -- One buffer full
  unfoldable pub fill_free : (ℕ → ℕ → List ℕ) → (ℕ → ℕ) → ℕ → Block → Block
  fill_free schedule values pivot b =
      let e_id = t.eids pivot in
      let lo = b.min_iter_per_shard dep e_id in
      let max_value = min (b.max_iter_per_shard dep e_id) (sub32 (add32 lo sm_threshold) 1) in
      let b' =
        store_free values pivot (schedule lo max_value)
          (record b { im_size = update b.im_size dep 0; im_data = update b.im_data dep [] }) in
      record b' {
        min_iter_per_shard = update2 b'.min_iter_per_shard dep e_id (add32 lo sm_threshold);
      }

  -- `set_intersection_initial_constraint`: with constraints even a single list is copied.
  unfoldable pub set_intersection_initial_constraint :
      (ℕ → ℕ → List ℕ) → ℕ → (ℕ → ℕ) → Block → Block × Option ℕ
  set_intersection_initial_constraint schedule block_idx rslt b =
      let b1 =
        select_pivot t dep match_vid num_join_shards 1 (num_join_shards - 1)
          (load_lists t dep match_vid num_join_shards rslt 0 num_join_shards b) in
      let pivot = b1.vid_gap_idx 0 in
      let e_id = t.eids pivot in
      let values = compare_values rslt in
      if num_constraints_per_block == 0
      then set_intersection_initial t dep match_vid num_join_shards schedule block_idx rslt b
      else if dep == sub32 t.num_query_vertices 1
      then (
        count_free values pivot
            (schedule (b1.min_iter_per_shard dep e_id) (b1.max_iter_per_shard dep e_id))
            (record b1 { im_size = update b1.im_size dep 0; is_type = update b1.is_type dep last }),
        none,
      )
      else (
        fill_free schedule values pivot (
            if dep == 0
            then restrict_to_block t dep match_vid num_join_shards block_idx e_id
                (record b1 { is_type = update b1.is_type dep shared_membuf })
            else record b1 { is_type = update b1.is_type dep shared_membuf }),
        some pivot,
      )

  -- `set_intersection_resume_constraint`
  unfoldable pub set_intersection_resume_constraint : (ℕ → ℕ → List ℕ) → (ℕ → ℕ) → ℕ → Block → Block
  set_intersection_resume_constraint schedule rslt pivot b =
      if num_constraints_per_block == 0
      then set_intersection_resume t dep match_vid num_join_shards schedule pivot b
      else fill_free schedule (compare_values rslt) pivot b
