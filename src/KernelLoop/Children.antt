-- ===== src/KernelLoop/Children.antt =====
-- The children of a node, in the main loop of source/cuMatch/LFTJ_kernel_basic.cu: a buffer is gone
-- through once for each of them.
use cu_match.Prelude.{
  ℕ, zero, suc, ◌+◌, ◌%◌, ◌^◌, ◌≤◌, ◌<◌, ◌≡◌, ◌≢◌, refl, ap, ◌∙◌, true, false, List, length, ltb,
  ◌==◌, if◌then◌else◌, update, get_or, arith, Bool-cases, ==_iff, inl, inr,
}
use mathlib.Core.Path.{subst}
use native.Mathlib.Nat.{mod_self, mod-eq_of_lt}
use cu_match.Kernel.{shared_membuf}
use cu_match.TableJoin.{initial, resume}
use cu_match.KernelLoop.{Joins, TreeTask, Machine, step, use_buffer, next_child, close, child_num}
use cu_match.KernelLoop.Spec.{Finds, IsJoin, total, child, shards_at, sum_below, sum_from, is_nil}
use cu_match.KernelLoop.Frames.{Steps, here, next, Steps-trans, look, Walks}
use cu_match.KernelLoop.Vertices.{step_inside, refill_off, Loaded, IsChild, take_vertices}

module _ (j : Joins) (t : TreeTask) where
  pub use_buffer_empty :
      (m : Machine) → m.block.im_size m.dep ≡ 0 → use_buffer j t m ≡ close j t (next_child j t m)
  unfolding use_buffer
  use_buffer_empty m size =
      let empty : (m.block.im_size m.dep == 0) ≡ true = ground arith in rw empty refl

  -- The buffer again, for the child with the number `i`
  abbrev pub again : ℕ → Machine → Machine
  again i m =
      let b = m.block in
      let subtask_id = t.sched_tree_st_id (t.sched_tree_ptr m.tree_node_id + i) in
      record m {
        sched_tree_child = update m.sched_tree_child m.dep i;
        subtask_id = subtask_id;
        block = record b { im_size = update b.im_size m.dep (m.tmp_im_size m.dep) };
        shard_idxs = t.shard_idx_list subtask_id;
      }

  pub next_child_many :
      (m : Machine) (i : ℕ)
      → 1 < child_num j t m.tree_node_id
      → (m.sched_tree_child m.dep + 1) % child_num j t m.tree_node_id ≡ i
      → next_child j t m ≡ again i m
  unfolding next_child
  next_child_many m i many e =
      let more : ltb 1 (child_num j t m.tree_node_id) ≡ true = ground arith in rw (more, e) refl

  next_child_one : (m : Machine) → child_num j t m.tree_node_id ≡ 1 → next_child j t m ≡ m
  unfolding next_child
  next_child_one m e =
      let few : ltb 1 (child_num j t m.tree_node_id) ≡ false = ground arith in rw few refl

  pub close_open : (m : Machine) → m.sched_tree_child m.dep ≢ 0 → close j t m ≡ (m, false)
  unfolding close
  close_open m ne =
      let other : (m.sched_tree_child m.dep == 0) ≡ false = ground arith in rw other refl

module _ (j : Joins) (t : TreeTask) (f : Finds) (l : IsJoin j t f) where
  open l use {IsGood, IsPivot, pending, resized, pending_resized}

  -- Depth `d` is done with a buffer: `later` are the buffers that follow.
  pub record Emptied (d : ℕ) (base : Machine) (later : List (List ℕ)) (m : Machine) : Type 0 where
    pub dep : m.dep ≡ d
    pub node : m.tree_node_id ≡ base.tree_node_id
    pub shards : m.shard_idxs ≡ shards_at j t base.tree_node_id 0
    pub good : IsGood m.block
    pub pivots : (e : ℕ) → e ≤ d → IsPivot e (m.shard_offset_arr e)
    pub fresh :
        (e : ℕ)
        → d < e
        → e + 1 < t.num_query_vertices
        → (m.is_finish e ≡ true) × (m.state e ≡ initial) × (m.sched_tree_child e ≡ 0)
    pub kept : (e : ℕ) → e < d → look j t f l e m ≡ look j t f l e base
    pub state : m.state d ≡ (if is_nil later then initial else resume)
    pub number : m.sched_tree_child d ≡ 0
    pub shared : is_nil later ≡ false → m.block.is_type d ≡ shared_membuf
    pub rest : pending d (m.shard_offset_arr d) m.block ≡ later

  -- The machine gets to `close`, with this machine.
  abbrev pub Closes : Machine → Machine → Type 0
  Closes m last = (m' : Machine) × Steps j t f l m m' × (step j t m' ≡ close j t last)

  look-again :
      (m : Machine) (i e : ℕ) → e ≢ m.dep → look j t f l e (again j t i m) ≡ look j t f l e m
  look-again m i e ne =
      let other : (e == m.dep) ≡ false = ground arith in
      rw (other, pending_resized m.block m.dep (m.tmp_im_size m.dep) e (m.shard_offset_arr e)) refl

  module _ (d : ℕ) (base : Machine) (c : List ℕ) (later : List (List ℕ))
      (small : t.num_query_vertices < 2 ^ 32) (lt : d + 1 < t.num_query_vertices) where
    again-Loaded :
        (i i' : ℕ) (m : Machine)
        → Loaded j t f l d base c later 0 i m
        → Loaded j t f l d base c later (length c) i' (again j t i' m)
    again-Loaded i i' m h =
        let at : (d == m.dep) ≡ true = ground (arith, h.dep) in
        record {
          dep = h.dep;
          node = h.node;
          shards = rw h.node refl;
          good = resized m.block m.dep _ h.good;
          pivots = h.pivots;
          fresh = λ e le lt'. let old = h.fresh e le lt' in ground (arith, old, h.dep);
          kept = λ e le. look-again m i' e (omega (arith, h.dep)) ∙ h.kept e le;
          finish = h.finish;
          state = h.state;
          number = rw at refl;
          whole = h.whole;
          size = rw at (ap m.tmp_im_size h.dep ∙ h.whole);
          size_le = omega arith;
          buffer = h.buffer;
          shared = h.shared;
          rest = pending_resized m.block m.dep _ d (m.shard_offset_arr d) ∙ h.rest;
        }

    Loaded-Emptied :
        (n : ℕ) (m : Machine) → Loaded j t f l d base c later n 0 m → Emptied d base later m
    Loaded-Emptied n m h = record {
      dep = h.dep;
      node = h.node;
      shards = h.shards;
      good = h.good;
      pivots = h.pivots;
      fresh = h.fresh;
      kept = h.kept;
      state = h.state;
      number = h.number;
      shared = h.shared;
      rest = h.rest;
    }

    -- What the buffer counts for one child
    abbrev pub below : ℕ → ℕ → ℕ
    below k i = sum_below (length c) (λ x.
        total j t f k (d + 1) (child j t base.tree_node_id i) (shards_at j t base.tree_node_id i)
          (update base.rslt d (get_or c x 0)))

    step_empty :
        (i : ℕ) (m : Machine)
        → Loaded j t f l d base c later 0 i m
        → step j t m ≡ close j t (next_child j t m)
    step_empty i m h =
        step_inside j t m small (omega (arith, h.dep))
        ∙ ap (use_buffer j t) (refill_off j t m (ap m.is_finish h.dep ∙ h.finish))
        ∙ use_buffer_empty j t m (ap m.block.im_size h.dep ∙ h.size)

    last_child :
        (i : ℕ) (m : Machine)
        → Loaded j t f l d base c later 0 i m
        → i + 1 ≡ child_num j t base.tree_node_id
        → (last : Machine) × (step j t m ≡ close j t last)
          × Emptied d base later last
          × (last.counter ≡ m.counter)
    last_child i m h e =
        let first = step_empty i m h in
        elim (Bool-cases (i == 0)) [
          | inl one ↦
              let same = next_child_one j t m (rw h.node (ground arith)) in
              (
                m,
                first ∙ ap (close j t) same,
                Loaded-Emptied 0 m
                    (subst (λ k. Loaded j t f l d base c later 0 k m) ((==_iff i 0).0 one) h),
                refl,
              )
          | inr more ↦
              let many : 1 < child_num j t m.tree_node_id = rw h.node (ground arith) in
              let wraps : (m.sched_tree_child m.dep + 1) % child_num j t m.tree_node_id ≡ 0 =
                rw (ap m.sched_tree_child h.dep ∙ h.number, h.node, e)
                  (mod_self (child_num j t base.tree_node_id)) in
              (
                again j t 0 m,
                first ∙ ap (close j t) (next_child_many j t m 0 many wraps),
                Loaded-Emptied (length c) _ (again-Loaded i 0 m h),
                refl,
              )
        ]

    pub take_children :
        (k r i : ℕ) (m : Machine)
        → d + suc (suc k) ≡ t.num_query_vertices
        → i + suc r ≡ child_num j t base.tree_node_id
        → ((i' : ℕ) → i' < child_num j t base.tree_node_id → IsChild j t f l k base.tree_node_id i')
        → Walks j t f l k (d + 1)
        → Loaded j t f l d base c later 0 i m
        → (last : Machine) × Closes m last
          × Emptied d base later last
          × (last.counter ≡ m.counter + sum_from (i + 1) r (below k))
    take_children k zero i m e n ch walks h =
        let (last, run, emptied, counted) = last_child i m h (omega (arith, n)) in
        (last, (m, here, run), emptied, omega (arith, counted))
    take_children k (suc r) i m e n ch walks h =
        let many : 1 < child_num j t m.tree_node_id = rw h.node (omega (arith, n)) in
        let next_i : (m.sched_tree_child m.dep + 1) % child_num j t m.tree_node_id ≡ i + 1 =
          rw (ap m.sched_tree_child h.dep ∙ h.number, h.node) (mod-eq_of_lt (omega (arith, n))) in
        let m1 = again j t (i + 1) m in
        let h1 = again-Loaded i (i + 1) m h in
        let open_ =
          close_open j t m1 (λ z. omega (arith, z, ap m1.sched_tree_child h1.dep, h1.number)) in
        let run : step j t m ≡ (m1, false) =
          step_empty i m h ∙ ap (close j t) (next_child_many j t m (i + 1) many next_i) ∙ open_ in
        let (m2, steps, h2, counted) =
          take_vertices j t f l k d base c later (length c) (i + 1) m1 e small
            (ch (i + 1) (omega (arith, n))) walks h1 in
        let (last, (m', steps', run'), emptied, counted') =
          take_children k r (i + 1) m2 e (omega (arith, n)) ch walks h2 in
        (
          last,
          (m', Steps-trans j t f l (Steps-trans j t f l (next here run) steps) steps', run'),
          emptied,
          omega (arith, counted, counted'),
        )
