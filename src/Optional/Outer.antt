-- ===== src/Optional/Outer.antt =====
-- What the last depth of source/cuMatch/LFTJ_kernel_optional.cu counts for one buffer: an outer join.
use cu_match.Prelude.{
  ℕ, zero, suc, ◌+◌, ◌-◌, ◌%◌, ◌≤◌, ◌<◌, ◌^◌, ◌≡◌, ◌≢◌, refl, ap, ◌∙◌, Bool, true, false, List,
  length, ltb, ◌==◌, arith,
}
use mathlib.Core.Path.{subst, fun_ext}
use native.Mathlib.Nat.{mod-eq_of_lt}
use cu_match.Kernel.{sub32}
use cu_match.KernelLoop.{Joins, TreeTask, close, child_num}
use cu_match.KernelLoop.Spec.{IsTree, child, sum_below}
use cu_match.KernelLoop.Children.{use_buffer_empty, again, next_child_many, close_open}
use cu_match.Optional.Loop.{OptionalMachine}
use cu_match.Optional.Buffers.{Buffered, slot_step, weight, found, matched}
use cu_match.Optional.Slots.{
  at_least_one, CountsLast, OptionalSteps, stay, and_then, OptionalSteps-trans, step_buffer,
}

module _ (j : Joins) (t : TreeTask) (is_optional_vertex : ℕ → Bool)
    (matches : (ℕ → ℕ) → (ℕ → ℕ) → ℕ) (l : CountsLast j t matches) (d node : ℕ) (c : List ℕ)
    (r0 : ℕ → ℕ) where
  open l use {resized}

  slots_steps :
      (n i : ℕ) (o : OptionalMachine)
      → d + 2 ≡ t.num_query_vertices
      → t.num_query_vertices < 2 ^ 32
      → i < child_num j t node
      → t.sched_tree_prv_id (sub32 (child j t node i) 1) ≡ node
      → Buffered j t is_optional_vertex matches l d node c r0 n i o
      → (o' : OptionalMachine) × OptionalSteps j t is_optional_vertex o o'
        × Buffered j t is_optional_vertex matches l d node c r0 0 i o'
        × (o'.machine.counter + sum_below n (weight j t is_optional_vertex matches l d node c r0 i)
            ≡ o.machine.counter
              + sum_below n (weight j t is_optional_vertex matches l d node c r0 (suc i)))
  slots_steps zero i o e small lt parent h = (o, stay, h, refl)
  slots_steps (suc n) i o e small lt parent h =
      let (o1, one, h1, counted) =
        slot_step j t is_optional_vertex matches l d node c r0 n i o e small lt parent h in
      let (o2, rest, h2, counted') = slots_steps n i o1 e small lt parent h1 in
      (
        o2,
        OptionalSteps-trans j t is_optional_vertex one rest,
        h2,
        omega (arith, counted, counted'),
      )

  -- The buffer again, for the next child
  child_step :
      (i : ℕ) (o : OptionalMachine)
      → d + 2 ≡ t.num_query_vertices
      → t.num_query_vertices < 2 ^ 32
      → suc i < child_num j t node
      → Buffered j t is_optional_vertex matches l d node c r0 0 i o
      → (o' : OptionalMachine) × OptionalSteps j t is_optional_vertex o o'
        × Buffered j t is_optional_vertex matches l d node c r0 (length c) (suc i) o'
        × (o'.machine.counter ≡ o.machine.counter)
  child_step i o e small lt h =
      let m = o.machine in
      let m1 = again j t (suc i) m in
      let many : 1 < child_num j t m.tree_node_id =
        omega (arith, ap (child_num j t) h.node_id, lt) in
      let turn : (m.sched_tree_child m.dep + 1) % child_num j t m.tree_node_id ≡ suc i =
        rw (h.node_id, ap m.sched_tree_child h.dep ∙ h.number)
          (mod-eq_of_lt (omega (arith, lt)) ∙ omega arith) in
      let at : (m.dep == m.dep) ≡ true = ground arith in
      let number : m1.sched_tree_child m.dep ≡ suc i = rw at refl in
      let left : m1.sched_tree_child m1.dep ≢ 0 = λ z. absurd (omega (arith, number, z)) in
      let used =
        use_buffer_empty j t m (ap m.block.im_size h.dep ∙ h.size)
        ∙ ap (close j t) (next_child_many j t m (suc i) many turn)
        ∙ close_open j t m1 left in
      let here : (d == m.dep) ≡ true = ground (arith, h.dep) in
      (
        record o { machine = m1 },
        and_then stay (
            step_buffer j t is_optional_vertex o m1 small (omega (arith, h.dep, e))
              (ap m.is_finish h.dep ∙ h.finish) used),
        record {
          dep = h.dep;
          node_id = h.node_id;
          shards = rw h.node_id refl;
          good = resized m.block m.dep (m.tmp_im_size m.dep) h.good;
          pivot = h.pivot;
          finish = h.finish;
          number = rw here refl;
          whole = h.whole;
          size = rw here (ap m.tmp_im_size h.dep ∙ h.whole);
          size_le = omega arith;
          buffer = h.buffer;
          flags = λ x lx.
              let inside : ltb x (length c) ≡ true = ground arith in
              let outside : ltb x 0 ≡ false = ground arith in
              h.flags x lx ∙ rw (outside, inside) refl;
          above = h.above;
          row = h.row;
          sound = h.sound;
        },
        refl,
      )

  -- The children from the number `i` on
  children_steps :
      (k i : ℕ) (o : OptionalMachine)
      → d + 2 ≡ t.num_query_vertices
      → t.num_query_vertices < 2 ^ 32
      → i + suc k ≡ child_num j t node
      → IsTree j t 1 node
      → Buffered j t is_optional_vertex matches l d node c r0 (length c) i o
      → (o' : OptionalMachine) × OptionalSteps j t is_optional_vertex o o'
        × Buffered j t is_optional_vertex matches l d node c r0 0 (i + k) o'
        × (o'.machine.counter
              + sum_below (length c) (weight j t is_optional_vertex matches l d node c r0 i)
            ≡ o.machine.counter
              + sum_below
                  (length c)
                  (weight j t is_optional_vertex matches l d node c r0 (child_num j t node)))
  children_steps zero i o e small last tree h =
      let lt : i < child_num j t node = omega (arith, last) in
      let (o1, steps, h1, counted) = slots_steps (length c) i o e small lt (tree.1 i lt).0 h in
      let all : suc i ≡ child_num j t node = omega (arith, last) in
      let same : i ≡ i + 0 = omega arith in
      (
        o1,
        steps,
        subst (λ x. Buffered j t is_optional_vertex matches l d node c r0 0 x o1) same h1,
        subst
            (λ x.
              o1.machine.counter
                + sum_below (length c) (weight j t is_optional_vertex matches l d node c r0 i)
              ≡ o.machine.counter
                + sum_below (length c) (weight j t is_optional_vertex matches l d node c r0 x))
            all counted,
      )
  children_steps (suc k) i o e small more tree h =
      let lt : i < child_num j t node = omega (arith, more) in
      let (o1, steps, h1, counted) = slots_steps (length c) i o e small lt (tree.1 i lt).0 h in
      let (o2, turn, h2, kept) = child_step i o1 e small (omega (arith, more)) h1 in
      let (o3, rest, h3, counted') =
        children_steps k (suc i) o2 e small (omega (arith, more)) tree h2 in
      let same : suc i + k ≡ i + suc k = omega arith in
      (
        o3,
        OptionalSteps-trans j t is_optional_vertex
            (OptionalSteps-trans j t is_optional_vertex steps turn) rest,
        subst (λ x. Buffered j t is_optional_vertex matches l d node c r0 0 x o3) same h3,
        omega (arith, counted, kept, counted'),
      )

  sum_below-zero : (n : ℕ) → (w : ℕ → ℕ) → ((x : ℕ) → w x ≡ 0) → sum_below n w ≡ 0
  sum_below-zero zero w z = refl
  sum_below-zero (suc n) w z = omega (arith, z n, sum_below-zero n w z)

  weight_start :
      1 ≤ child_num j t node → (x : ℕ) → weight j t is_optional_vertex matches l d node c r0 0 x ≡ 0
  weight_start le x = let first : ltb 0 (child_num j t node) ≡ true = ground arith in rw first refl

  weight_end :
      (x : ℕ)
      → weight j t is_optional_vertex matches l d node c r0 (child_num j t node) x
        ≡ at_least_one (found j t is_optional_vertex matches l d node c r0 (child_num j t node) x)
  weight_end x =
      let over : ltb (child_num j t node) (child_num j t node) ≡ false = ground arith in
      rw over refl

  -- Above an optional last vertex: from a buffer with the vertices `c` at depth `d`, each flagged to
  -- have found none, the main loop goes through the buffer once for each child of the node. Then the
  -- buffer is used up, for the last child, and the counter has grown as an outer join has it: for
  -- each vertex of the buffer by its matches over all children, or by one where there are none.
  pub outer_join :
      (o : OptionalMachine)
      → d + 2 ≡ t.num_query_vertices
      → t.num_query_vertices < 2 ^ 32
      → IsTree j t 1 node
      → Buffered j t is_optional_vertex matches l d node c r0 (length c) 0 o
      → (o' : OptionalMachine) × OptionalSteps j t is_optional_vertex o o'
        × Buffered j t is_optional_vertex matches l d node c r0 0 (child_num j t node - 1) o'
        × (o'.machine.counter
            ≡ o.machine.counter
              + sum_below (length c) (λ x. at_least_one (
                  sum_below
                    (child_num j t node)
                    (matched j t is_optional_vertex matches l d node c r0 x))))
  outer_join o e small tree h =
      let (o', steps, h', counted) =
        children_steps (child_num j t node - 1) 0 o e small (omega (arith, tree.0)) tree h in
      let number : 0 + (child_num j t node - 1) ≡ child_num j t node - 1 = omega arith in
      let sums : sum_below (length c)
            (weight j t is_optional_vertex matches l d node c r0 (child_num j t node))
          ≡ sum_below (length c) (λ x.
            at_least_one
              (found j t is_optional_vertex matches l d node c r0 (child_num j t node) x)) =
        ap (sum_below (length c)) (fun_ext weight_end) in
      let none_yet =
        sum_below-zero (length c) (weight j t is_optional_vertex matches l d node c r0 0)
          (weight_start tree.0) in
      (
        o',
        steps,
        subst (λ x. Buffered j t is_optional_vertex matches l d node c r0 0 x o') number h',
        omega (arith, counted, none_yet, sums),
      )
