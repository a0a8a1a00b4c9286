-- ===== src/TableJoin.antt =====
-- source/cuMatch/table_join_kernel_basic.cu: the scans of the table join by one thread block, over
-- the sources of a shard and over the list of each. The shared arrays are functions of the index;
-- the threads take the indices of a list in the order that `schedule` gives.
pub mod Ranges
pub mod Sources
pub mod Split
use cu_match.Prelude.{
  ℕ, zero, suc, ◌+◌, ◌-◌, ◌*◌, ◌/◌, ◌^◌, Bool, true, false, not, ◌&&◌, ◌||◌, Option, none, some,
  List, [], ◌∷◌, ◌++◌, ltb, leb, ◌==◌, if◌then◌else◌, min, update,
}
use cu_match.Flip24.{Memory, read_element}
use cu_match.Shard.{Flip24Shard, seek, adj_list_vid, valid_source_vertex}
use cu_match.Kernel.{max_blocks, add32, sub32}

-- `SMThresholdOpt`
abbrev pub sm_threshold_opt : ℕ
sm_threshold_opt = 32

-- `NumThreadsOpt`
abbrev pub threads_per_block : ℕ
threads_per_block = 32

pub data StateType : Type 0 where
  initial resume : StateType

abbrev pub is_initial : StateType → Bool
is_initial initial = true
is_initial resume = false

-- What the kernel buffer says: read only during a scan.
pub record JoinTask : Type 0 where
  pub num_query_edges : ℕ
  pub shard_ptrs : ℕ → Flip24Shard
  pub edge_order_with_vid : ℕ → ℕ
  pub is_join_vertex : ℕ → Bool

-- The shared arrays that a scan changes.
pub record Scan : Type 0 where
  pub min_iter_source_vertex : ℕ → ℕ
  pub min_iter_dest_vertex : ℕ → ℕ
  pub max_iter_source_vertex : ℕ → ℕ
  pub max_iter_dest_vertex : ℕ → ℕ
  pub rslt : ℕ → ℕ
  pub state : ℕ → StateType
  pub im_size : ℕ → ℕ
  pub im_data : ℕ → List ℕ
  pub flip24_arrs : ℕ → Memory

module _ (t : JoinTask) (schedule : ℕ → ℕ → List ℕ) (dep : ℕ) (shard : Flip24Shard) where
  -- The first block of both functions: the sources of the shard, and a bound source that the shard
  -- does not have.
  unfoldable pub start_scan : Scan → Scan
  start_scan s =
      let missing =
        t.is_join_vertex (dep * 2)
        && not (valid_source_vertex shard (s.rslt (t.edge_order_with_vid (dep * 2)))) in
      record s {
        im_size = update s.im_size dep 0;
        state = update s.state dep (if missing then initial else resume);
        flip24_arrs = update s.flip24_arrs (dep * 2) (seek shard.bytes shard.rowv);
        min_iter_source_vertex = update s.min_iter_source_vertex dep 0;
        max_iter_source_vertex = update s.max_iter_source_vertex dep (sub32 shard.num_rows 1);
      }

  -- The list of a source
  unfoldable pub load_dests : ℕ → Scan → Scan
  load_dests v1_id s =
      let adj = adj_list_vid shard v1_id in
      record s {
        flip24_arrs = update s.flip24_arrs (dep * 2 + 1) (seek shard.bytes adj.colv);
        min_iter_dest_vertex = update s.min_iter_dest_vertex dep adj.colptr;
        max_iter_dest_vertex =
            update s.max_iter_dest_vertex dep (sub32 (add32 adj.colptr adj.length) 1);
      }

  -- The next source becomes the vertex of the edge.
  abbrev pub take_source : Scan → Scan
  take_source s =
      let v1_id = read_element (s.flip24_arrs (dep * 2)) (s.min_iter_source_vertex dep) in
      load_dests v1_id (record s { rslt = update s.rslt (t.edge_order_with_vid (dep * 2)) v1_id })

  abbrev pub first_source : Scan → Scan
  first_source s =
      if t.is_join_vertex (dep * 2)
      then load_dests (s.rslt (t.edge_order_with_vid (dep * 2))) s
      else take_source s

  -- The test of both loops over a list: a bound end must be the vertex that is read.
  unfoldable pub accepts : Scan → ℕ → Bool
  accepts s v2_id = not (
      t.is_join_vertex (dep * 2 + 1) && not (s.rslt (t.edge_order_with_vid (dep * 2 + 1)) == v2_id))

  unfoldable pub count_dests : List ℕ → Scan → Scan
  count_dests [] s = s
  count_dests (i ∷ is) s =
      let v2_id = read_element (s.flip24_arrs (dep * 2 + 1)) i in
      count_dests is (
        if accepts s v2_id
        then record s { im_size = update s.im_size dep (s.im_size dep + 1) }
        else s)

  unfoldable pub store_dests : List ℕ → Scan → Scan
  store_dests [] s = s
  store_dests (i ∷ is) s =
      let v2_id = read_element (s.flip24_arrs (dep * 2 + 1)) i in
      store_dests is (
        if accepts s v2_id
        then record s {
          im_size = update s.im_size dep (s.im_size dep + 1);
          im_data = update s.im_data dep (s.im_data dep ++ v2_id ∷ []);
        }
        else s)

  -- The index of a thread may pass 2 ^ 32 at the end of such a list: that of an empty list at the
  -- very start of its array, whose last index is 2 ^ 32 - 1, makes the test of the loop hold for ever.
  abbrev pub is_endless : Scan → Bool
  is_endless s = leb (2 ^ 32) (s.max_iter_dest_vertex dep + threads_per_block)

  -- The loop for the last edge; `none` when the fuel is used up, or the loop over a list may not end
  unfoldable pub count_sources : ℕ → Scan → Option Scan
  count_sources zero s = none
  count_sources (suc fuel) s =
      let s1 = count_dests (schedule (s.min_iter_dest_vertex dep) (s.max_iter_dest_vertex dep)) s in
      let s2 = record s1 {
        min_iter_source_vertex =
            update s1.min_iter_source_vertex dep (add32 (s1.min_iter_source_vertex dep) 1);
      } in
      let rest = count_sources fuel (take_source s2) in
      if is_endless s
      then none
      else if t.is_join_vertex (dep * 2)
          || ltb (s2.max_iter_source_vertex dep) (s2.min_iter_source_vertex dep)
      then some (record s2 { state = update s2.state dep initial })
      else rest

  -- The share of the sources that a block takes at the first edge
  unfoldable pub split_sources : ℕ → Scan → Scan
  split_sources block_idx s =
      let gap = add32 (s.max_iter_source_vertex dep) (max_blocks - 1) / max_blocks in
      let lo = s.min_iter_source_vertex dep in
      record s {
        max_iter_source_vertex =
            update s.max_iter_source_vertex dep
              (min (sub32 (add32 lo (gap * (block_idx + 1))) 1) (s.max_iter_source_vertex dep));
        min_iter_source_vertex = update s.min_iter_source_vertex dep (add32 lo (gap * block_idx));
      }

  -- One buffer full of a list
  unfoldable pub store_part : Scan → Scan
  store_part s =
      let lo = s.min_iter_dest_vertex dep in
      let max_value = min (s.max_iter_dest_vertex dep) (sub32 (add32 lo sm_threshold_opt) 1) in
      let s' =
        store_dests (schedule lo max_value) (record s { im_data = update s.im_data dep [] }) in
      record s' {
        min_iter_dest_vertex =
            update s'.min_iter_dest_vertex dep
              (add32 (s'.min_iter_dest_vertex dep) sm_threshold_opt);
      }

  -- A bound source whose list fits one buffer needs no second one.
  abbrev pub fill_first : Scan → Scan
  fill_first s =
      let s1 = first_source s in
      let v1_id = s1.rslt (t.edge_order_with_vid (dep * 2)) in
      let short =
        t.is_join_vertex (dep * 2) && leb (adj_list_vid shard v1_id).length sm_threshold_opt in
      store_part (if short then record s1 { state = update s1.state dep initial } else s1)

  -- `MJ_intial_basic`
  unfoldable pub join_initial : ℕ → ℕ → Scan → Option Scan
  join_initial fuel block_idx s =
      let s0 = start_scan s in
      let s1 = if dep == 0 then split_sources block_idx s0 else s0 in
      let last = count_sources fuel (first_source s0) in
      if is_initial (s0.state dep)
      then some s0
      else if dep == sub32 t.num_query_edges 1
      then last
      else if dep == 0 && ltb (s1.max_iter_source_vertex dep) (s1.min_iter_source_vertex dep)
      then some (record s1 { state = update s1.state dep initial })
      else some (fill_first s1)

  -- The first block of `MJ_resume_basic`: a list that is used up gives way to the next source's.
  unfoldable pub resume_scan : Scan → Scan
  resume_scan s =
      let s1 = record s { im_size = update s.im_size dep 0; state = update s.state dep resume } in
      let s2 = record s1 {
        min_iter_source_vertex =
            update s1.min_iter_source_vertex dep (add32 (s1.min_iter_source_vertex dep) 1);
      } in
      if ltb (s1.max_iter_dest_vertex dep) (s1.min_iter_dest_vertex dep)
      then if t.is_join_vertex (dep * 2)
        then record s1 { state = update s1.state dep initial }
        else if ltb (s2.max_iter_source_vertex dep) (s2.min_iter_source_vertex dep)
        then record s2 { state = update s2.state dep initial }
        else take_source s2
      else s1

  -- `MJ_resume_basic`
  unfoldable pub join_resume : Scan → Scan
  join_resume s = let s1 = resume_scan s in if is_initial (s1.state dep) then s1 else store_part s1
