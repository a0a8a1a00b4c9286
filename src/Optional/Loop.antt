-- ===== src/Optional/Loop.antt =====
-- The main loop of source/cuMatch/LFTJ_kernel_optional.cu, from the kernel's signature on. Behind the
-- intersections it is that of the other kernels. `is_null_value[dep][i]` says that the i-th vertex
-- of the buffer above `dep` has found no vertex at `dep` so far. It has a row of 32 flags for each
-- depth. An access behind a row is a fault: from there on `faulted` is set, the loop stops, and what
-- the machine holds is no longer what the source leaves.
use cu_match.Prelude.{
  ℕ, zero, suc, ◌+◌, ◌^◌, Bool, true, false, not, ◌&&◌, ◌||◌, Option, none, some, List, [], ◌∷◌,
  ltb, leb, ◌==◌, if◌then◌else◌, update, ◌>>=◌,
}
use cu_match.Kernel.{Block, shared_membuf, sub32, update2}
use cu_match.TableJoin.{initial, resume, is_initial, sm_threshold_opt}
use cu_match.KernelLoop.{
  Joins, TreeTask, Machine, is_shared, is_over, child_num, use_buffer, init_machine,
}

-- `MaxNumVerticesPerGrid`, which is the id of no vertex
abbrev pub null_value : ℕ
null_value = 2 ^ 24

-- The variables of the block, the flags, and whether an access was behind their row
pub record OptionalMachine : Type 0 where
  pub machine : Machine
  pub is_null_value : ℕ → ℕ → Bool
  pub faulted : Bool

module _ (j : Joins) (t : TreeTask) (is_optional_vertex : ℕ → Bool) where
  -- `sched_tree_prv_size[tree_node_id]`: the number of the children of the parent
  abbrev pub prv_size : ℕ → ℕ
  prv_size node = child_num j t (t.sched_tree_prv_id (sub32 node 1))

  -- The vertex that is matched above has found a vertex here. Where its flag is behind the row, as
  -- `is_behind` says, those that call this are faulted.
  unfoldable pub mark_found : ℕ → Block → (ℕ → ℕ → Bool) → ℕ → ℕ → Bool
  mark_found dep b nulls =
      if not (b.im_size dep == 0) then update2 nulls dep (b.im_size (sub32 dep 1)) false else nulls

  -- Is the flag of the vertex above behind its row?
  abbrev pub is_behind : ℕ → Block → Bool
  is_behind dep b = leb sm_threshold_opt (b.im_size (sub32 dep 1))

  -- Has the vertex above found none here, and is this the last child to look at?
  unfoldable pub finds_none : Machine → Block → (ℕ → ℕ → Bool) → Bool
  finds_none m b nulls =
      (prv_size m.tree_node_id == m.sched_tree_child (sub32 m.dep 1) + 1)
      && nulls m.dep (b.im_size (sub32 m.dep 1))

  -- The branch of the last query vertex
  unfoldable pub count_last_optional : OptionalMachine → OptionalMachine
  count_last_optional o =
      let m = o.machine in
      let b = (j.start m.dep m.shard_idxs m.rslt m.block).0 in
      let nulls = mark_found m.dep b o.is_null_value in
      let b' =
        if finds_none m b nulls then record b { im_size = update b.im_size m.dep 1 } else b in
      record {
        machine = record m {
          block = b';
          counter = m.counter + b'.im_size m.dep;
          tree_node_id = t.sched_tree_prv_id (sub32 m.tree_node_id 1);
          dep = sub32 m.dep 1;
        };
        is_null_value = nulls;
        faulted =
            o.faulted
            || ((not (b.im_size m.dep == 0)
                  || (prv_size m.tree_node_id == m.sched_tree_child (sub32 m.dep 1) + 1))
                && is_behind m.dep b);
      }

  -- The buffer that stands for no vertex. Of `im_data`, only the slots below `im_size` are read.
  abbrev pub null_buffer : ℕ → Block → Block
  null_buffer dep b = record b {
    im_size = update b.im_size dep 1;
    im_data = update b.im_data dep (null_value ∷ []);
  }

  -- "for optional", behind the intersections: the flags of the depth below, for the new buffer. A
  -- buffer that has more vertices than the row has flags is a fault of the refill, by `spills`.
  unfoldable pub open_slots : Machine → (ℕ → ℕ → Bool) → ℕ → ℕ → Bool
  open_slots m nulls d i =
      if is_optional_vertex (m.dep + 1) && d == m.dep + 1 && ltb i (m.block.im_size m.dep)
      then true
      else nulls d i

  -- Does a flag of the new buffer stand behind the row?
  unfoldable pub spills : Machine → Bool
  spills m = is_optional_vertex (m.dep + 1) && ltb sm_threshold_opt (m.block.im_size m.dep)

  -- A refill reads or writes the flag of the vertex above where it has found a vertex, or its list
  -- ends.
  abbrev pub misses_flag : ℕ → Block → Bool → Bool
  misses_flag dep b ends =
      is_optional_vertex dep && (not (b.im_size dep == 0) || ends) && is_behind dep b

  -- "calculate new intersection"
  unfoldable pub begin_optional : OptionalMachine → OptionalMachine
  begin_optional o =
      let m = o.machine in
      let (b, pivot) = j.start m.dep m.shard_idxs m.rslt m.block in
      let nulls =
        if is_optional_vertex m.dep then mark_found m.dep b o.is_null_value else o.is_null_value in
      let ends = not (is_shared (b.is_type m.dep)) || is_over j t m.dep pivot b in
      let b0 = null_buffer m.dep b in
      let b' =
        if ends && is_optional_vertex m.dep && finds_none m b nulls
        then record b0 { is_type = update b0.is_type m.dep shared_membuf }
        else b in
      let m' = record m {
        block = b';
        shard_offset_arr = update m.shard_offset_arr m.dep pivot;
        is_finish = update m.is_finish m.dep false;
        state = update m.state m.dep (if ends then initial else resume);
        tmp_im_size = update m.tmp_im_size m.dep (b'.im_size m.dep);
      } in
      record {
        machine = m';
        is_null_value = open_slots m' nulls;
        faulted = o.faulted || misses_flag m.dep b ends || spills m';
      }

  -- "resume intersection"
  unfoldable pub go_on_optional : OptionalMachine → OptionalMachine
  go_on_optional o =
      let m = o.machine in
      let pivot = m.shard_offset_arr m.dep in
      let b = j.proceed m.dep pivot m.block in
      let nulls =
        if is_optional_vertex m.dep then mark_found m.dep b o.is_null_value else o.is_null_value in
      let ends = is_over j t m.dep pivot b in
      let b' =
        if ends && is_optional_vertex m.dep && finds_none m b nulls
        then null_buffer m.dep b
        else b in
      let m' = record m {
        block = b';
        is_finish = update m.is_finish m.dep false;
        state = update m.state m.dep (if ends then initial else m.state m.dep);
        tmp_im_size = update m.tmp_im_size m.dep (b'.im_size m.dep);
      } in
      record {
        machine = m';
        is_null_value = open_slots m' nulls;
        faulted = o.faulted || misses_flag m.dep b ends || spills m';
      }

  unfoldable pub refill_optional : OptionalMachine → OptionalMachine
  refill_optional o =
      let m = o.machine in
      if m.is_finish m.dep
      then if is_initial (m.state m.dep) then begin_optional o else go_on_optional o
      else o

  -- The body of `while (true)`
  unfoldable pub step_optional : OptionalMachine → OptionalMachine × Bool
  step_optional o =
      let o' = refill_optional o in
      let (m, stop) = use_buffer j t o'.machine in
      if o.machine.dep == sub32 t.num_query_vertices 1
      then (count_last_optional o, false)
      else (record o' { machine = m }, stop)

  -- The loop, up to a fault; `none` when the fuel is used up
  unfoldable pub run_optional : ℕ → OptionalMachine → Option OptionalMachine
  run_optional zero o = none
  run_optional (suc fuel) o =
      let (o', stop) = step_optional o in
      let rest = run_optional fuel o' in if stop || o'.faulted then some o' else rest

  -- The loop over the roots, from the root with the number `st_idx` on
  unfoldable pub run_optional_roots : ℕ → ℕ → List ℕ → OptionalMachine → Option OptionalMachine
  run_optional_roots fuel st_idx [] o = some o
  run_optional_roots fuel st_idx (root ∷ roots) o =
      let m = o.machine in
      let subtask_id = t.sched_tree_st_id st_idx in
      run_optional fuel (record o {
        machine = record m {
          subtask_id = subtask_id;
          tree_node_id = root;
          shard_idxs = t.shard_idx_list subtask_id;
        };
      })
      >>= run_optional_roots fuel (st_idx + 1) roots

  -- `LFTJ_kernel_optional` for one block: what it adds to `kbuf->counter`. The flags are not
  -- initialised. The outer `none` is the end of the fuel, the inner one a fault.
  unfoldable pub optional_kernel : ℕ → Block → (ℕ → ℕ → Bool) → Option (Option ℕ)
  optional_kernel fuel b nulls =
      run_optional_roots fuel 0 t.tree_root_ids
        (record { machine = init_machine j t b; is_null_value = nulls; faulted = false })
      >>= λ o. some (if o.faulted then none else some o.machine.counter)
