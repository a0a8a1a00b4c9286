-- ===== src/Optional/Buffers.antt =====
-- A buffer above the last depth in the main loop of source/cuMatch/LFTJ_kernel_optional.cu, and how
-- one vertex of it goes through the last depth.
use cu_match.Prelude.{
  ℕ, zero, suc, ◌+◌, ◌≤◌, ◌<◌, ◌^◌, ◌≡◌, ◌≢◌, refl, ap, sym, ◌∙◌, Bool, true, false, not, ◌&&◌,
  ◌||◌, List, length, ltb, leb, ◌==◌, if◌then◌else◌, update, get_or, arith, Bool-cases, ==_iff, inl,
  inr,
}
use mathlib.Core.Path.{subst}
use cu_match.Kernel.{Block, sub32}
use cu_match.TableJoin.{sm_threshold_opt}
use cu_match.KernelLoop.{Joins, TreeTask, enter, child_num}
use cu_match.KernelLoop.Spec.{View, view, Shows, child, shards_at, sum_below}
use cu_match.KernelLoop.Vertices.{take_from}
use cu_match.Optional.Loop.{OptionalMachine, mark_found, finds_none, count_last_optional}
use cu_match.Optional.Slots.{
  at_least_one, no_rest, CountsLast, OptionalSteps, stay, and_then, step_buffer, step_count,
}

module _ (j : Joins) (t : TreeTask) (is_optional_vertex : ℕ → Bool)
    (matches : (ℕ → ℕ) → (ℕ → ℕ) → ℕ) (l : CountsLast j t matches) (d node : ℕ) (c : List ℕ)
    (r0 : ℕ → ℕ) where
  open l use {IsGood, IsPivot, resized, start_last, matches_cong}

  -- The matches of the last vertex below the child with the number `i`, for the x-th vertex
  abbrev pub matched : ℕ → ℕ → ℕ
  matched x i = matches (shards_at j t node i) (update r0 d (get_or c x 0))

  abbrev pub found : ℕ → ℕ → ℕ
  found i x = sum_below i (matched x)

  -- What the x-th vertex adds to the counter until `i` children are done
  abbrev pub weight : ℕ → ℕ → ℕ
  weight i x = if ltb i (child_num j t node) then found i x else at_least_one (found i x)

  -- Depth `d`, above the last, has the buffer `c`, of which `n` vertices are left for the child with
  -- the number `i`; the flags, one for each vertex, tell which have found none so far.
  pub record Buffered (n i : ℕ) (o : OptionalMachine) : Type 0 where
    pub dep : o.machine.dep ≡ d
    pub node_id : o.machine.tree_node_id ≡ node
    pub shards : o.machine.shard_idxs ≡ shards_at j t node i
    pub good : IsGood o.machine.block
    pub pivot : IsPivot d (o.machine.shard_offset_arr d)
    pub finish : o.machine.is_finish d ≡ false
    pub number : o.machine.sched_tree_child d ≡ i
    pub whole : o.machine.tmp_im_size d ≡ length c
    pub size : o.machine.block.im_size d ≡ n
    pub size_le : n ≤ length c
    pub buffer : Shows j t (view j t no_rest d (o.machine.shard_offset_arr d) o.machine.block) c
    pub flags :
        (x : ℕ)
        → x < length c
        → o.is_null_value (d + 1) x ≡ (found (if ltb x n then i else suc i) x == 0)
    pub above : (e : ℕ) → e < d → o.machine.rslt e ≡ r0 e
    pub row : length c ≤ sm_threshold_opt
    pub sound : o.faulted ≡ false

  abbrev Same : Block → Block → Type 0
  Same b b' = (q : ℕ) → IsPivot d q → view j t no_rest d q b' ≡ view j t no_rest d q b

  -- A match without a vertex
  without : Bool → Block → Block
  without a b = if a then record b { im_size = update b.im_size (d + 1) 1 } else b

  without_lem :
      (a : Bool) (b : Block)
      → IsGood b
      → IsGood (without a b)
        × Same b (without a b)
        × ((without a b).im_size (d + 1) ≡ (if a then 1 else b.im_size (d + 1)))
  unfolding without
  without_lem true b h =
      let other : (d == d + 1) ≡ false = ground arith in
      let at : (d + 1 == d + 1) ≡ true = ground arith in
      (resized b (d + 1) 1 h, λ q p. rw other refl, rw at refl)
  without_lem false b h = (h, λ q p. refl, refl)

  before : d + 1 < 2 ^ 32 → sub32 (d + 1) 1 ≡ d
  before lt = omega (arith, lt)

  marks :
      (b : Block) (nulls : ℕ → ℕ → Bool) (n k x : ℕ)
      → d + 1 < 2 ^ 32
      → b.im_size d ≡ n
      → b.im_size (d + 1) ≡ k
      → mark_found j t is_optional_vertex (d + 1) b nulls (d + 1) x
        ≡ (if (x == n) && not (k == 0) then false else nulls (d + 1) x)
  unfolding mark_found
  marks b nulls n k x lt e f = rw (before lt, e, f) (ground arith)

  -- What the branch of the last vertex leaves
  abbrev tally : OptionalMachine → Block → ℕ → OptionalMachine
  tally o b i =
      let m = o.machine in
      let nulls' = mark_found j t is_optional_vertex (d + 1) b o.is_null_value in
      let b' = without ((child_num j t node == i + 1) && nulls' (d + 1) (b.im_size d)) b in
      record {
        machine = record m {
          block = b';
          counter = m.counter + b'.im_size (d + 1);
          tree_node_id = node;
          dep = d;
        };
        is_null_value = nulls';
        faulted =
            o.faulted
            || ((not (b.im_size (d + 1) == 0) || (child_num j t node == i + 1))
                && leb sm_threshold_opt (b.im_size d));
      }

  tallies :
      (o : OptionalMachine) (b : Block) (i : ℕ)
      → d + 1 < 2 ^ 32
      → o.machine.dep ≡ d + 1
      → (j.start (d + 1) o.machine.shard_idxs o.machine.rslt o.machine.block).0 ≡ b
      → t.sched_tree_prv_id (sub32 o.machine.tree_node_id 1) ≡ node
      → o.machine.sched_tree_child d ≡ i
      → count_last_optional j t is_optional_vertex o ≡ tally o b i
  unfolding count_last_optional finds_none without
  tallies o b i lt at e parent number = rw (at, e, before lt, parent, number) refl

  at_least_one_lem : (n : ℕ) → at_least_one n ≡ (if n == 0 then 1 else n)
  at_least_one_lem zero = refl
  at_least_one_lem (suc n) = ground arith

  -- The flag of the vertex that has been matched, and the others
  flag_after :
      (k n i x : ℕ) (flag : Bool)
      → k ≡ matched n i
      → flag ≡ (found (if ltb x (suc n) then i else suc i) x == 0)
      → (if (x == n) && not (k == 0) then false else flag)
        ≡ (found (if ltb x n then i else suc i) x == 0)
  flag_after k n i x flag e f = elim (Bool-cases (x == n)) [
    | inl same ↦
        let at : x ≡ n = (==_iff x n).0 same in
        let below : ltb n (suc n) ≡ true = ground arith in
        let not_below : ltb n n ≡ false = ground arith in
        let f' : flag ≡ (found i n == 0) = f ∙ rw (at, below) refl in
        rw (same, at, not_below, f', e) (ground arith)
    | inr other ↦
        let as_before : ltb x (suc n) ≡ ltb x n = ground arith in rw (other, f, as_before) refl
  ]

  count_after :
      (k n i : ℕ)
      → k ≡ matched n i
      → i < child_num j t node
      → (if (child_num j t node == i + 1)
              && (if (n == n) && not (k == 0) then false else (found i n == 0))
            then 1
            else k)
          + weight i n
        ≡ weight (suc i) n
  count_after k n i e lt =
      let inside : ltb i (child_num j t node) ≡ true = ground arith in
      rw (e, inside, at_least_one_lem (matched n i + found i n)) (ground arith)

  -- The next vertex of the buffer goes through the last depth.
  pub slot_step :
      (n i : ℕ) (o : OptionalMachine)
      → d + 2 ≡ t.num_query_vertices
      → t.num_query_vertices < 2 ^ 32
      → i < child_num j t node
      → t.sched_tree_prv_id (sub32 (child j t node i) 1) ≡ node
      → Buffered (suc n) i o
      → (o' : OptionalMachine) × OptionalSteps j t is_optional_vertex o o'
        × Buffered n i o'
        × (o'.machine.counter + weight i n ≡ o.machine.counter + weight (suc i) n)
  unfolding mark_found without
  slot_step n i o e small lt parent h =
      let m = o.machine in
      let v = get_or c n 0 in
      let m1 = enter j t v n m in
      let o1 : OptionalMachine = record o { machine = m1 } in
      let b0 = m1.block in
      let b = (j.start (d + 1) m1.shard_idxs m1.rslt b0).0 in
      let small_d : d + 1 < 2 ^ 32 = omega (arith, e, small) in
      let (good, matched_here, kept) =
        start_last (d + 1) m1.shard_idxs m1.rslt b0 (omega (arith, e))
          (resized m.block m.dep n h.good) in
      let at : child j t m.tree_node_id (m.sched_tree_child m.dep) ≡ child j t node i =
        rw (h.node_id, ap m.sched_tree_child h.dep ∙ h.number) refl in
      let below : d ≢ d + 1 = omega arith in
      let seen = kept d (m.shard_offset_arr d) below h.pivot in
      let here : (d == m.dep) ≡ true = ground (arith, h.dep) in
      let size_d : b.im_size d ≡ n = ap (λ (x : View j t). x.0) seen ∙ rw here refl in
      let k_eq : b.im_size (d + 1) ≡ matched n i =
        matched_here
        ∙ rw h.shards (
            matches_cong (shards_at j t node i) m1.rslt (update r0 d v) (λ x lx.
              elim (Bool-cases (x == d)) [
                | inl same ↦ ground (arith, h.dep)
                | inr other ↦
                    let old = h.above x (ground (arith, other, lx, e)) in ground (arith, h.dep, old)
              ])) in
      let one =
        step_buffer j t is_optional_vertex o m1 small (omega (arith, h.dep, e))
          (ap m.is_finish h.dep ∙ h.finish)
          (take_from j t no_rest m d n c h.dep h.size (omega (arith, h.size_le)) h.buffer) in
      let two = step_count j t is_optional_vertex o1 small (omega (arith, h.dep, e)) in
      let tally_eq =
        tallies o1 b i small_d (ap (λ x. x + 1) h.dep) refl
          (ap (λ x. t.sched_tree_prv_id (sub32 x 1)) at ∙ parent) h.number in
      let o2 = tally o1 b i in
      let in_row : leb sm_threshold_opt (b.im_size d) ≡ false =
        rw size_d (ground (arith, h.size_le, h.row)) in
      let nulls = mark_found j t is_optional_vertex (d + 1) b o.is_null_value in
      let a = (child_num j t node == i + 1) && nulls (d + 1) (b.im_size d) in
      let (good', kept', size') = without_lem a b good in
      let below_n : ltb n (suc n) ≡ true = ground arith in
      let flag_n : o.is_null_value (d + 1) n ≡ (found i n == 0) =
        h.flags n (omega (arith, h.size_le)) ∙ rw below_n refl in
      let flag_eq : nulls (d + 1) (b.im_size d)
          ≡ (if (n == n) && not (b.im_size (d + 1) == 0) then false else (found i n == 0)) =
        ap (nulls (d + 1)) size_d
        ∙ marks b o.is_null_value n (b.im_size (d + 1)) n small_d size_d refl
        ∙ rw flag_n refl in
      let counts =
        ap (λ x. m.counter + (x + weight i n))
          (size'
            ∙ ap (λ (f : Bool). if (child_num j t node == i + 1) && f then 1 else b.im_size (d + 1))
                flag_eq)
        ∙ ap (λ x. m.counter + x) (count_after (b.im_size (d + 1)) n i k_eq lt) in
      (
        o2,
        and_then (and_then stay one) (two ∙ ap (λ (x : OptionalMachine). (x, false)) tally_eq),
        record {
          dep = refl;
          node_id = refl;
          shards = h.shards;
          good = good';
          pivot = h.pivot;
          finish = h.finish;
          number = h.number;
          whole = h.whole;
          size = ap (λ (x : View j t). x.0) (kept' (m.shard_offset_arr d) h.pivot) ∙ size_d;
          size_le = omega (arith, h.size_le);
          buffer =
              subst (λ x. Shows j t x c) (sym (kept' (m.shard_offset_arr d) h.pivot ∙ seen))
                h.buffer;
          flags = λ x lx.
              marks b o.is_null_value n (b.im_size (d + 1)) x small_d size_d refl
              ∙ flag_after (b.im_size (d + 1)) n i x (o.is_null_value (d + 1) x) k_eq
                  (h.flags x lx);
          above = λ x lx.
              let old = h.above x lx in
              let other : (x == m.dep) ≡ false = ground (arith, h.dep, lx) in rw other old;
          row = h.row;
          sound = rw (h.sound, in_row) (ground arith);
        },
        omega (arith, counts),
      )
