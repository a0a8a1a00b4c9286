-- ===== src/Optional/Fills.antt =====
-- The refills of a buffer in the main loop of source/cuMatch/LFTJ_kernel_optional.cu.
use cu_match.Prelude.{
  ℕ, ◌+◌, ◌<◌, ◌^◌, ◌≡◌, ap, refl, ◌∙◌, Bool, true, false, not, ◌&&◌, ◌||◌, ◌==◌, ltb, leb,
  if◌then◌else◌, update, arith, Bool-cases, inl, inr,
}
use cu_match.Kernel.{Block, shared_membuf, sub32}
use cu_match.TableJoin.{StateType, initial, resume, is_initial}
use cu_match.KernelLoop.{Joins, TreeTask, Machine, is_shared, is_over}
use cu_match.Optional.Loop.{
  OptionalMachine, prv_size, null_buffer, mark_found, finds_none, open_slots, spills,
  begin_optional, go_on_optional, refill_optional, step_optional,
}

module _ (j : Joins) (t : TreeTask) (is_optional_vertex : ℕ → Bool) where
  -- What the intersection that a refill makes leaves in the shared arrays
  abbrev pub refilled : OptionalMachine → Block
  refilled o =
      let m = o.machine in
      if is_initial (m.state m.dep)
      then (j.start m.dep m.shard_idxs m.rslt m.block).0
      else j.proceed m.dep (m.shard_offset_arr m.dep) m.block

  -- Is this the last child of the node above?
  abbrev pub is_last_child : OptionalMachine → Bool
  is_last_child o =
      let m = o.machine in
      prv_size j t is_optional_vertex m.tree_node_id == m.sched_tree_child (sub32 m.dep 1) + 1

  -- Has the intersection come to the end of its lists?
  abbrev pub list_ends : OptionalMachine → Bool
  list_ends o =
      let m = o.machine in
      let (b, pivot) = j.start m.dep m.shard_idxs m.rslt m.block in
      if is_initial (m.state m.dep)
      then not (is_shared (b.is_type m.dep)) || is_over j t m.dep pivot b
      else is_over j t m.dep (m.shard_offset_arr m.dep) (refilled o)

  -- Is the null vertex to be matched? Only at an optional depth, at the end of the lists, for the last
  -- child, where nothing has been found, neither now nor before.
  abbrev pub should_emit : OptionalMachine → Bool
  should_emit o =
      let dep = o.machine.dep in
      is_optional_vertex dep
      && list_ends o
      && is_last_child o
      && (refilled o).im_size dep == 0
      && o.is_null_value dep ((refilled o).im_size (sub32 dep 1))

  -- The buffer of the null vertex
  abbrev pub null_match : OptionalMachine → Block
  null_match o =
      let m = o.machine in
      let b = null_buffer j t is_optional_vertex m.dep (refilled o) in
      if is_initial (m.state m.dep)
      then record b { is_type = update b.is_type m.dep shared_membuf }
      else b

  -- The flags behind the intersection: that of the vertex above is taken back where one is found.
  abbrev pub flag_after_refill : OptionalMachine → ℕ → ℕ → Bool
  flag_after_refill o e x =
      let dep = o.machine.dep in
      if is_optional_vertex dep
        && not ((refilled o).im_size dep == 0)
        && e == dep
        && x == (refilled o).im_size (sub32 dep 1)
      then false
      else o.is_null_value e x

  pub record Refilled (o o' : OptionalMachine) : Type 0 where
    pub dep : o'.machine.dep ≡ o.machine.dep
    pub going : o'.machine.is_finish o.machine.dep ≡ false
    pub whole : o'.machine.tmp_im_size o.machine.dep ≡ o'.machine.block.im_size o.machine.dep
    pub ends : is_initial (o'.machine.state o.machine.dep) ≡ list_ends o
    pub block : o'.machine.block ≡ (if should_emit o then null_match o else refilled o)
    pub flags :
        (e x : ℕ)
        → o'.is_null_value e x ≡ (
            if is_optional_vertex (o.machine.dep + 1)
              && e == o.machine.dep + 1
              && ltb x (o'.machine.block.im_size o.machine.dep)
            then true
            else flag_after_refill o e x)
    pub fault : o'.faulted ≡ (
        o.faulted
        || (is_optional_vertex o.machine.dep
            && (not ((refilled o).im_size o.machine.dep == 0) || list_ends o)
            && leb 32 ((refilled o).im_size (sub32 o.machine.dep 1)))
        || (is_optional_vertex (o.machine.dep + 1)
            && ltb 32 (o'.machine.block.im_size o.machine.dep)))

  pub opens :
      (m : Machine) (nulls : ℕ → ℕ → Bool)
      → is_optional_vertex (m.dep + 1) ≡ true
      → (x : ℕ) → x < m.block.im_size m.dep
      → open_slots j t is_optional_vertex m nulls (m.dep + 1) x ≡ true
  unfolding open_slots
  opens m nulls e x lt = rw e (ground arith)

  same_at : (d : ℕ) → (d == d) ≡ true
  same_at d = ground arith

  ends_initial :
      (over : Bool) (kind : StateType)
      → is_initial kind ≡ false
      → is_initial (if over then initial else kind) ≡ over
  ends_initial true kind e = refl
  ends_initial false kind e = e

  -- The flags that the code reads, and those that it leaves
  marked :
      (opt : Bool) (dep : ℕ) (b : Block) (nulls : ℕ → ℕ → Bool) (e x : ℕ)
      → (if opt then mark_found j t is_optional_vertex dep b nulls else nulls) e x ≡ (
          if opt && not (b.im_size dep == 0) && e == dep && x == b.im_size (sub32 dep 1)
          then false
          else nulls e x)
  unfolding mark_found
  marked true dep b nulls e x = ground arith
  marked false dep b nulls e x = refl

  emits :
      (over opt : Bool) (m : Machine) (b : Block) (nulls : ℕ → ℕ → Bool)
      → (over
          && opt
          && finds_none j t is_optional_vertex m b
              (if opt then mark_found j t is_optional_vertex m.dep b nulls else nulls))
        ≡ (opt
            && over
            && (prv_size j t is_optional_vertex m.tree_node_id
                == m.sched_tree_child (sub32 m.dep 1) + 1)
            && b.im_size m.dep == 0
            && nulls m.dep (b.im_size (sub32 m.dep 1)))
  unfolding finds_none mark_found
  emits true true m b nulls = ground arith
  emits true false m b nulls = refl
  emits false true m b nulls = refl
  emits false false m b nulls = refl

  begin-Refilled :
      (o : OptionalMachine)
      → is_initial (o.machine.state o.machine.dep) ≡ true
      → Refilled o (begin_optional j t is_optional_vertex o)
  unfolding begin_optional open_slots spills
  begin-Refilled o first =
      let m = o.machine in
      let at = same_at m.dep in
      let r = j.start m.dep m.shard_idxs m.rslt m.block in
      let over = not (is_shared (r.0.is_type m.dep)) || is_over j t m.dep r.1 r.0 in
      let opt = is_optional_vertex m.dep in
      record {
        dep = refl;
        going = rw at refl;
        whole = rw at refl;
        ends = rw (at, first) (ends_initial over resume refl);
        block = rw (first, emits over opt m r.0 o.is_null_value) refl;
        flags = λ e x. rw (first, marked opt m.dep r.0 o.is_null_value e x) refl;
        fault = rw first refl;
      }

  go_on-Refilled :
      (o : OptionalMachine)
      → is_initial (o.machine.state o.machine.dep) ≡ false
      → Refilled o (go_on_optional j t is_optional_vertex o)
  unfolding go_on_optional open_slots spills
  go_on-Refilled o later =
      let m = o.machine in
      let at = same_at m.dep in
      let b = j.proceed m.dep (m.shard_offset_arr m.dep) m.block in
      let over = is_over j t m.dep (m.shard_offset_arr m.dep) b in
      let opt = is_optional_vertex m.dep in
      record {
        dep = refl;
        going = rw at refl;
        whole = rw at refl;
        ends = rw (at, later) (ends_initial over (m.state m.dep) later);
        block = rw (later, emits over opt m b o.is_null_value) refl;
        flags = λ e x. rw (later, marked opt m.dep b o.is_null_value e x) refl;
        fault = rw later refl;
      }

  -- Whenever a depth is finished with its buffer, the refill makes a new one, by the first
  -- intersection or by a further one: the depth is as it was, and goes on; the size that the
  -- children are to start from is that of the buffer, and the next intersection is a first one
  -- exactly if the lists are at their end. The shared arrays are those that the intersection
  -- leaves, but for one case, where the buffer holds the null vertex alone: the depth is optional,
  -- the lists are at their end, it is the last child of the node above, and the vertex above has
  -- found nothing, neither now nor before. The flags of the depth below are set, where it is
  -- optional, for the slots of the new buffer; that of the vertex above is taken back, where the
  -- depth is optional and has found a vertex; all others are as they were. There is a fault exactly
  -- where there was one before, or where the flag of the vertex above is read or written and is
  -- behind the 32 of its row, or where the depth below is optional and the new buffer has more than
  -- 32 vertices.
  pub refill_optional-Refilled :
      (o : OptionalMachine)
      → o.machine.is_finish o.machine.dep ≡ true
      → Refilled o (refill_optional j t is_optional_vertex o)
  unfolding refill_optional
  refill_optional-Refilled o finished =
      elim (Bool-cases (is_initial (o.machine.state o.machine.dep))) [
        | inl first ↦ rw (finished, first) (begin-Refilled o first)
        | inr later ↦ rw (finished, later) (go_on-Refilled o later)
      ]

  -- At a depth that is not optional, a first intersection only makes the buffer, and its flags.
  abbrev pub opened : OptionalMachine → Machine
  opened o =
      let m = o.machine in
      let (b, pivot) = j.start m.dep m.shard_idxs m.rslt m.block in
      let ends = not (is_shared (b.is_type m.dep)) || is_over j t m.dep pivot b in
      record m {
        block = b;
        shard_offset_arr = update m.shard_offset_arr m.dep pivot;
        is_finish = update m.is_finish m.dep false;
        state = update m.state m.dep (if ends then initial else resume);
        tmp_im_size = update m.tmp_im_size m.dep (b.im_size m.dep);
      }

  and_false : (a c : Bool) → (a && false && c) ≡ false
  and_false true c = refl
  and_false false c = refl

  or_false : (a : Bool) → (a || false) ≡ a
  or_false true = refl
  or_false false = refl

  pub refill_optional-regular :
      (o : OptionalMachine)
      → o.machine.is_finish o.machine.dep ≡ true
      → is_initial (o.machine.state o.machine.dep) ≡ true
      → is_optional_vertex o.machine.dep ≡ false
      → refill_optional j t is_optional_vertex o ≡ record {
        machine = opened o;
        is_null_value = open_slots j t is_optional_vertex (opened o) o.is_null_value;
        faulted = o.faulted || spills j t is_optional_vertex (opened o);
      }
  unfolding refill_optional begin_optional
  refill_optional-regular o finished first regular =
      rw (finished, first, regular, and_false, or_false) refl

  refill_off :
      (o : OptionalMachine)
      → o.machine.is_finish o.machine.dep ≡ false
      → refill_optional j t is_optional_vertex o ≡ o
  unfolding refill_optional
  refill_off o going = rw going refl

  -- A step goes on from the refill that it makes.
  pub step-refill :
      (o : OptionalMachine)
      → o.machine.is_finish o.machine.dep ≡ true
      → o.machine.dep + 1 < t.num_query_vertices
      → t.num_query_vertices < 2 ^ 32
      → step_optional j t is_optional_vertex o
        ≡ step_optional j t is_optional_vertex (refill_optional j t is_optional_vertex o)
  unfolding step_optional
  step-refill o finished lt small =
      let o' = refill_optional j t is_optional_vertex o in
      let h = refill_optional-Refilled o finished in
      let inside : (o.machine.dep == sub32 t.num_query_vertices 1) ≡ false = ground arith in
      let inside' : (o'.machine.dep == sub32 t.num_query_vertices 1) ≡ false =
        ap (λ x. x == sub32 t.num_query_vertices 1) h.dep ∙ inside in
      let going : o'.machine.is_finish o'.machine.dep ≡ false =
        ap o'.machine.is_finish h.dep ∙ h.going in
      rw (inside, inside', refill_off o' going) refl
