-- ===== src/Optional/Opening.antt =====
-- From the first intersection above an optional last vertex to the end of the buffer that it makes,
-- in source/cuMatch/LFTJ_kernel_optional.cu.
use cu_match.Prelude.{
  ℕ, ◌+◌, ◌<◌, ◌≤◌, ◌≡◌, ◌⊎◌, ◌||◌, refl, ap, sym, ◌∙◌, true, false, List, length, ltb, ◌==◌,
  update, get_or, inl, inr, arith,
}
use mathlib.Core.Path.{subst}
use cu_match.Flip24.{read_element}
use cu_match.Kernel.{Block, shared_membuf, single, add32, sub32}
use cu_match.TableJoin.{is_initial, sm_threshold_opt}
use cu_match.KernelLoop.{TreeTask, child_num}
use cu_match.KernelLoop.Basic.{JoinInfo, task, buffer, option_or}
use cu_match.KernelLoop.Basic.Laws.{length-reads, get_or-reads}
use cu_match.KernelLoop.Spec.{IsTree, Shows, view, shards_at, sum_below}
use cu_match.Optional.{OptionalInfo, joined_shards, optional_start, optional_joins}
use cu_match.Optional.Loop.{OptionalMachine, open_slots, spills, refill_optional, step_optional}
use cu_match.Optional.Slots.{OptionalSteps, at_least_one, no_rest}
use cu_match.Optional.Fills.{opens, opened, refill_optional-regular, step-refill}
use cu_match.Optional.Last.{IsOptional, Joined, last_matches, optional-CountsLast, first_optional}
use cu_match.Optional.Firsts.{first_optional-inner}
use cu_match.Optional.Kernels.{StandsAt, optional-outer_join}

module _ (t : TreeTask) (info : JoinInfo) (opt : OptionalInfo) (schedule : ℕ → ℕ → List ℕ)
    (block_idx : ℕ) (h : IsOptional t info opt) where
  -- The vertices of the buffer of a depth
  abbrev pub vertices : ℕ → ℕ → Block → List ℕ
  vertices d pivot b = buffer t info schedule block_idx d pivot b

  started_inner :
      (d : ℕ) (s r : ℕ → ℕ) (b : Block)
      → d + 1 < t.num_query_vertices
      → let b' = (optional_start t info opt schedule block_idx d s r b).0 in
        Joined t info opt schedule block_idx h d
          (optional_start t info opt schedule block_idx d s r b).1
        × ((b'.is_type d ≡ single)
            ⊎ ((b'.is_type d ≡ shared_membuf) × (b'.im_size d ≡ length (b'.im_data d))))
  unfolding optional_start first_optional
  started_inner d s r b lt =
      let inside : d < t.num_query_vertices = omega (arith, lt) in
      let small = h.small in
      let inner : (d == sub32 t.num_query_vertices 1) ≡ false = ground (arith, lt, small) in
      let (p, joined, pivot, kind) =
        first_optional-inner (task t info schedule block_idx s) opt d (info.global_order d)
          (joined_shards t info opt schedule block_idx d) schedule block_idx r
          (record { rows = h.rows; lists = h.lists }) (h.some_list d inside) b inner in
      ((p, joined, inside, ap (λ x. option_or x 0) pivot), kind)

  shows_vertices :
      (d pivot : ℕ) (b : Block)
      → (b.is_type d ≡ single)
        ⊎ ((b.is_type d ≡ shared_membuf) × (b.im_size d ≡ length (b.im_data d)))
      → Shows
          (optional_joins t info opt schedule block_idx)
          t
          (view (optional_joins t info opt schedule block_idx) t no_rest d pivot b)
          (vertices d pivot b)
        × (b.im_size d ≡ length (vertices d pivot b))
  shows_vertices d pivot b (inl kind) =
      let mem = b.flip24_arrs (t.eids pivot) in
      let lo = b.min_iter_per_shard d (t.eids pivot) in
      let n = b.im_size d in
      rw kind (
        inr (
          refl,
          λ i lt.
              ap (λ x. read_element mem (add32 lo x)) (omega arith)
              ∙ sym (get_or-reads mem lo 0 n i (omega (arith, lt, length-reads mem lo 0 n))),
        ),
        sym (length-reads mem lo 0 n),
      )
  shows_vertices d pivot b (inr (kind, size)) = rw kind (inl (refl, refl), size)

  module _ (o : OptionalMachine) (e : o.machine.dep + 2 ≡ t.num_query_vertices)
      (finished : o.machine.is_finish o.machine.dep ≡ true)
      (first : is_initial (o.machine.state o.machine.dep) ≡ true)
      (number : o.machine.sched_tree_child o.machine.dep ≡ 0)
      (shards : o.machine.shard_idxs
        ≡ shards_at (optional_joins t info opt schedule block_idx) t o.machine.tree_node_id 0)
      (regular : opt.is_optional_vertex o.machine.dep ≡ false)
      (above_last : opt.is_optional_vertex (o.machine.dep + 1) ≡ true)
      (sound : o.faulted ≡ false) where
    -- The vertices of the first buffer
    abbrev pub first_vertices : List ℕ
    first_vertices =
        let m = o.machine in
        let r = optional_start t info opt schedule block_idx m.dep m.shard_idxs m.rslt m.block in
        vertices m.dep r.1 r.0

    abbrev after_first : OptionalMachine
    after_first =
        let j = optional_joins t info opt schedule block_idx in
        let m = opened j t opt.is_optional_vertex o in
        record {
          machine = m;
          is_null_value = open_slots j t opt.is_optional_vertex m o.is_null_value;
          faulted = o.faulted || spills j t opt.is_optional_vertex m;
        }

    after_first-stands :
        length first_vertices ≤ sm_threshold_opt
        → StandsAt t info opt schedule block_idx h o.machine.dep o.machine.tree_node_id
            first_vertices o.machine.rslt
            (length first_vertices)
            0
            after_first
    unfolding optional-CountsLast spills
    after_first-stands row =
        let m = o.machine in
        let r = optional_start t info opt schedule block_idx m.dep m.shard_idxs m.rslt m.block in
        let j = optional_joins t info opt schedule block_idx in
        let (pivot, kind) = started_inner m.dep m.shard_idxs m.rslt m.block (omega (arith, e)) in
        let (shows, size) = shows_vertices m.dep r.1 r.0 kind in
        let at : (m.dep == m.dep) ≡ true = ground arith in
        record {
          dep = refl;
          node_id = refl;
          shards = shards;
          good = tt;
          pivot = rw at pivot;
          finish = rw at refl;
          number = number;
          whole = rw at size;
          size = size;
          size_le = omega arith;
          buffer = rw at shows;
          flags = λ x lx.
              let inside : ltb x (length first_vertices) ≡ true = ground (arith, lx) in
              opens j t opt.is_optional_vertex (opened j t opt.is_optional_vertex o) o.is_null_value
                above_last x (omega (arith, lx, size))
              ∙ rw inside refl;
          above = λ x lx. refl;
          row = row;
          sound =
              let fits : ltb sm_threshold_opt (length first_vertices) ≡ false = ground arith in
              rw (sound, above_last, size, fits) refl;
        }

    -- The loop with its own intersection functions, one depth above the last, where the last query
    -- vertex is optional and the one above it is not. The step goes on from the refill that it
    -- makes. The refill fills the buffer with the first vertices, and from there the main loop goes
    -- through the buffer once for each child of the node, which is that of a tree, until the buffer
    -- is used up for the last child. The counter has then grown as an outer join has it: for each
    -- vertex of the buffer by the matches of the last vertex over all children, or by one where
    -- there are none, and no flag behind a row has been read or written. The matches are those that
    -- the intersection finds from a blank block. At the start the depth is finished, at its first
    -- intersection, and at the first child, with the shards of that child, without a fault so far.
    -- The first vertices are at most 32, so that each has its flag. Each list has an edge id of its
    -- own, the lists of a query vertex, one at least, are those of no other and hang on the
    -- vertices above it, no list is empty at the very start of its array, no array has 2 ^ 31
    -- elements, and the query has fewer than 2 ^ 32 vertices.
    pub opening-outer_join :
        IsTree (optional_joins t info opt schedule block_idx) t 1 o.machine.tree_node_id
        → length first_vertices ≤ sm_threshold_opt
        → (step_optional (optional_joins t info opt schedule block_idx) t opt.is_optional_vertex o
            ≡ step_optional
                (optional_joins t info opt schedule block_idx)
                t
                opt.is_optional_vertex
                (refill_optional
                  (optional_joins t info opt schedule block_idx)
                  t
                  opt.is_optional_vertex
                  o))
          × ((o' : OptionalMachine) × OptionalSteps
                (optional_joins t info opt schedule block_idx)
                t
                opt.is_optional_vertex
                (refill_optional
                  (optional_joins t info opt schedule block_idx)
                  t
                  opt.is_optional_vertex
                  o)
                o'
              × (o'.faulted ≡ false)
              × (o'.machine.block.im_size o.machine.dep ≡ 0)
              × (o'.machine.sched_tree_child o.machine.dep + 1
                  ≡ child_num
                      (optional_joins t info opt schedule block_idx)
                      t
                      o.machine.tree_node_id)
              × (o'.machine.counter
                  ≡ o.machine.counter
                    + sum_below (length first_vertices) (λ x. at_least_one (
                        sum_below
                          (child_num
                            (optional_joins t info opt schedule block_idx)
                            t
                            o.machine.tree_node_id)
                          (λ i.
                            last_matches t info opt schedule block_idx h
                              (shards_at
                                (optional_joins t info opt schedule block_idx)
                                t
                                o.machine.tree_node_id
                                i)
                              (update o.machine.rslt o.machine.dep (get_or first_vertices x 0)))))))
    opening-outer_join tree row =
        let j = optional_joins t info opt schedule block_idx in
        let filled = refill_optional-regular j t opt.is_optional_vertex o finished first regular in
        let (o', steps, stands, counted) =
          optional-outer_join t info opt schedule block_idx h o.machine.dep o.machine.tree_node_id
            first_vertices o.machine.rslt after_first e tree (after_first-stands row) in
        (
          step-refill j t opt.is_optional_vertex o finished (omega (arith, e)) h.small,
          (
            o',
            subst (λ x. OptionalSteps j t opt.is_optional_vertex x o') (sym filled) steps,
            stands.sound,
            stands.size,
            omega (arith, stands.number, tree.0),
            counted,
          ),
        )
