-- ===== src/KernelLoop.antt =====
-- The main loop of the attribute join kernels, source/cuMatch/LFTJ_kernel_basic.cu from the kernel's
-- signature on: one thread block walks through the query vertices depth first. The kernels differ
-- in their two intersection functions, which are a parameter. The 64-bit counter does not wrap.
pub mod Basic
pub mod Buffers
pub mod Children
pub mod Counts
pub mod Frames
pub mod Spec
pub mod Totals
pub mod Vertices
use cu_match.Prelude.{
  ℕ, zero, suc, ◌+◌, ◌-◌, ◌*◌, ◌%◌, Bool, true, false, not, ◌||◌, Option, none, some, List, [], ◌∷◌,
  ltb, ◌==◌, if◌then◌else◌, update, get_or, ◌>>=◌,
}
use cu_match.Flip24.{read_element}
use cu_match.Kernel.{
  Block, IntersectionType, shared_membuf, gpu_membuf, single, bitmap, last, add32, sub32,
}
use cu_match.TableJoin.{StateType, initial, resume, is_initial}

-- The intersection functions of a kernel: for the first time at a depth, with the offset of the
-- pivot that it returns, and for another buffer full.
pub record Joins : Type 0 where
  pub start : ℕ → (ℕ → ℕ) → (ℕ → ℕ) → Block → Block × ℕ
  pub proceed : ℕ → ℕ → Block → Block

-- What the loop reads of the kernel buffer
pub record TreeTask : Type 0 where
  pub num_query_vertices : ℕ
  pub eids : ℕ → ℕ
  pub sched_tree_ptr : ℕ → ℕ
  pub sched_tree_nxt_id : ℕ → ℕ
  pub sched_tree_prv_id : ℕ → ℕ
  pub sched_tree_st_id : ℕ → ℕ
  pub shard_idx_list : ℕ → ℕ → ℕ
  pub tree_root_ids : List ℕ

-- The variables of the block
pub record Machine : Type 0 where
  pub dep : ℕ
  pub tree_node_id : ℕ
  pub subtask_id : ℕ
  pub sched_tree_child : ℕ → ℕ
  pub rslt : ℕ → ℕ
  pub is_finish : ℕ → Bool
  pub state : ℕ → StateType
  pub shard_offset_arr : ℕ → ℕ
  pub tmp_im_size : ℕ → ℕ
  pub shard_idxs : ℕ → ℕ
  pub block : Block
  pub counter : ℕ

abbrev pub is_shared : IntersectionType → Bool
is_shared shared_membuf = true
is_shared gpu_membuf = false
is_shared single = false
is_shared bitmap = false
is_shared last = false

module _ (j : Joins) (t : TreeTask) where
  -- The branch of the last query vertex
  abbrev pub count_last : Machine → Machine
  count_last m =
      let b = (j.start m.dep m.shard_idxs m.rslt m.block).0 in
      record m {
        block = b;
        counter = m.counter + b.im_size m.dep;
        tree_node_id = t.sched_tree_prv_id (sub32 m.tree_node_id 1);
        dep = sub32 m.dep 1;
      }

  -- Is the pivot list used up?
  abbrev pub is_over : ℕ → ℕ → Block → Bool
  is_over dep pivot b =
      ltb (b.max_iter_per_shard dep (t.eids pivot)) (b.min_iter_per_shard dep (t.eids pivot))

  -- "calculate new intersection"
  unfoldable pub begin : Machine → Machine
  begin m =
      let (b, pivot) = j.start m.dep m.shard_idxs m.rslt m.block in
      record m {
        block = b;
        shard_offset_arr = update m.shard_offset_arr m.dep pivot;
        is_finish = update m.is_finish m.dep false;
        state = update m.state m.dep (
            if not (is_shared (b.is_type m.dep)) || is_over m.dep pivot b then initial else resume);
        tmp_im_size = update m.tmp_im_size m.dep (b.im_size m.dep);
      }

  -- "resume intersection"
  unfoldable pub go_on : Machine → Machine
  go_on m =
      let pivot = m.shard_offset_arr m.dep in
      let b = j.proceed m.dep pivot m.block in
      record m {
        block = b;
        is_finish = update m.is_finish m.dep false;
        state = update m.state m.dep (if is_over m.dep pivot b then initial else m.state m.dep);
        tmp_im_size = update m.tmp_im_size m.dep (b.im_size m.dep);
      }

  unfoldable pub refill : Machine → Machine
  refill m =
      if m.is_finish m.dep then if is_initial (m.state m.dep) then begin m else go_on m else m

  abbrev pub child_num : ℕ → ℕ
  child_num node = sub32 (t.sched_tree_ptr (node + 1)) (t.sched_tree_ptr node)

  -- "for remove duplicate (iterate grid group)": the next child goes through the same buffer.
  unfoldable pub next_child : Machine → Machine
  next_child m =
      let child = (m.sched_tree_child m.dep + 1) % child_num m.tree_node_id in
      let subtask_id = t.sched_tree_st_id (t.sched_tree_ptr m.tree_node_id + child) in
      let b = m.block in
      if ltb 1 (child_num m.tree_node_id)
      then record m {
        sched_tree_child = update m.sched_tree_child m.dep child;
        subtask_id = subtask_id;
        block = record b { im_size = update b.im_size m.dep (m.tmp_im_size m.dep) };
        shard_idxs = t.shard_idx_list subtask_id;
      }
      else m

  -- "if iterate all grid group": is the walk over?
  unfoldable pub close : Machine → Machine × Bool
  close m =
      let m1 = record m { is_finish = update m.is_finish m.dep true } in
      if m.sched_tree_child m.dep == 0
      then if is_initial (m.state m.dep)
        then if m.dep == 0 then (m1, true) else (
          record m1 {
            tree_node_id = t.sched_tree_prv_id (sub32 m.tree_node_id 1);
            dep = sub32 m.dep 1;
          },
          false,
        )
        else (m1, false)
      else (m, false)

  -- A vertex of the buffer is matched, and the next depth is entered.
  abbrev pub enter : ℕ → ℕ → Machine → Machine
  enter v_id size m =
      let b = m.block in
      record m {
        rslt = update m.rslt m.dep v_id;
        block = record b { im_size = update b.im_size m.dep size };
        tree_node_id =
            t.sched_tree_nxt_id (t.sched_tree_ptr m.tree_node_id + m.sched_tree_child m.dep);
        dep = m.dep + 1;
      }

  unfoldable pub take_vertex : IntersectionType → Machine → Machine
  take_vertex shared_membuf m =
      let size = m.block.im_size m.dep - 1 in enter (get_or (m.block.im_data m.dep) size 0) size m
  take_vertex single m =
      let size = m.block.im_size m.dep - 1 in
      let e_id = t.eids (m.shard_offset_arr m.dep) in
      enter
        (read_element (m.block.flip24_arrs e_id)
          (add32 (m.block.min_iter_per_shard m.dep e_id) size))
        size m
  take_vertex gpu_membuf m = m
  take_vertex bitmap m = m
  take_vertex last m = m

  -- The part of the body behind the intersections
  unfoldable pub use_buffer : Machine → Machine × Bool
  use_buffer m =
      if m.block.im_size m.dep == 0
      then close (next_child m)
      else (take_vertex (m.block.is_type m.dep) m, false)

  -- The body of `while (true)`
  unfoldable pub step : Machine → Machine × Bool
  step m =
      if m.dep == sub32 t.num_query_vertices 1 then (count_last m, false) else use_buffer (refill m)

  -- The loop; `none` when the fuel is used up
  unfoldable pub run : ℕ → Machine → Option Machine
  run zero m = none
  run (suc fuel) m =
      let (m', stop) = step m in let rest = run fuel m' in if stop then some m' else rest

  -- The loop over the roots, from the root with the number `st_idx` on
  unfoldable pub run_roots : ℕ → ℕ → List ℕ → Machine → Option Machine
  run_roots fuel st_idx [] m = some m
  run_roots fuel st_idx (root ∷ roots) m =
      let subtask_id = t.sched_tree_st_id st_idx in
      run fuel (record m {
        subtask_id = subtask_id;
        tree_node_id = root;
        shard_idxs = t.shard_idx_list subtask_id;
      })
      >>= run_roots fuel (st_idx + 1) roots

  -- The variables at the start of the kernel; the arrays of the intersections are not initialised.
  abbrev pub init_machine : Block → Machine
  init_machine b = record {
    dep = 0;
    tree_node_id = 0;
    subtask_id = 0;
    sched_tree_child = λ d. 0;
    rslt = λ d. 0;
    is_finish = λ d. true;
    state = λ d. initial;
    shard_offset_arr = λ d. 0;
    tmp_im_size = λ d. 0;
    shard_idxs = λ i. 0;
    block = b;
    counter = 0;
  }

  -- The kernel for one block: what it adds to `kbuf->counter`
  unfoldable pub kernel : ℕ → Block → Option ℕ
  kernel fuel b = run_roots fuel 0 t.tree_root_ids (init_machine b) >>= λ m. some m.counter
