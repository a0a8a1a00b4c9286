-- ===== src/KernelLoop/Vertices.antt =====
-- One buffer full of vertices in the main loop of source/cuMatch/LFTJ_kernel_basic.cu.
use cu_match.Prelude.{
  ℕ, zero, suc, ◌+◌, ◌-◌, ◌^◌, ◌≤◌, ◌<◌, ◌≡◌, refl, ap, sym, ◌∙◌, true, false, List, length, ◌==◌,
  if◌then◌else◌, update, get_or, arith, Bool-cases, inl, inr,
}
use mathlib.Core.Path.{subst}
use cu_match.Flip24.{read_element}
use cu_match.Kernel.{Block, IntersectionType, shared_membuf, single, add32, sub32}
use cu_match.TableJoin.{initial, resume}
use cu_match.KernelLoop.{Joins, TreeTask, Machine, step, refill, use_buffer, take_vertex, enter}
use cu_match.KernelLoop.Spec.{
  Finds, IsTree, IsEntered, IsJoin, View, view, Shows, total, child, shards_at, sum_below, is_nil,
}
use cu_match.KernelLoop.Frames.{
  Steps, here, next, Steps-trans, Look, look, Walked, Walks, total-cong, look-enter,
}

module _ (j : Joins) (t : TreeTask) where
  pub step_inside :
      (m : Machine)
      → t.num_query_vertices < 2 ^ 32
      → m.dep + 1 < t.num_query_vertices
      → step j t m ≡ use_buffer j t (refill j t m)
  unfolding step
  step_inside m small lt =
      let inside : (m.dep == sub32 t.num_query_vertices 1) ≡ false = ground arith in rw inside refl

  pub refill_off : (m : Machine) → m.is_finish m.dep ≡ false → refill j t m ≡ m
  unfolding refill
  refill_off m going = rw going refl

  use_buffer_more :
      (m : Machine) (n : ℕ)
      → m.block.im_size m.dep ≡ suc n
      → use_buffer j t m ≡ (take_vertex j t (m.block.is_type m.dep) m, false)
  unfolding use_buffer
  use_buffer_more m n size =
      let more : (m.block.im_size m.dep == 0) ≡ false = ground arith in rw more refl

  take_shared :
      (m : Machine) (n : ℕ) (c : List ℕ)
      → m.block.im_size m.dep ≡ suc n
      → m.block.im_data m.dep ≡ c
      → take_vertex j t shared_membuf m ≡ enter j t (get_or c n 0) n m
  unfolding take_vertex
  take_shared m n c size list =
      let before : m.block.im_size m.dep - 1 ≡ n = omega arith in rw (before, list) refl

  take_single :
      (m : Machine) (n v : ℕ)
      → m.block.im_size m.dep ≡ suc n
      → read_element
          (m.block.flip24_arrs (t.eids (m.shard_offset_arr m.dep)))
          (add32 (m.block.min_iter_per_shard m.dep (t.eids (m.shard_offset_arr m.dep))) n)
        ≡ v
      → take_vertex j t single m ≡ enter j t v n m
  unfolding take_vertex
  take_single m n v size value =
      let before : m.block.im_size m.dep - 1 ≡ n = omega arith in rw (before, value) refl

  -- A vertex is taken from the end of the buffer `c` of the depth.
  pub take_from :
      (pending : ℕ → ℕ → Block → List (List ℕ)) (m : Machine) (d n : ℕ) (c : List ℕ)
      → m.dep ≡ d
      → m.block.im_size d ≡ suc n
      → n < length c
      → Shows j t (view j t pending d (m.shard_offset_arr d) m.block) c
      → use_buffer j t m ≡ (enter j t (get_or c n 0) n m, false)
  take_from pending m d n c at size lt shows =
      let size' = ap m.block.im_size at ∙ size in
      let used = use_buffer_more m n size' in
      let of_kind = λ (k : IntersectionType) (e : m.block.is_type d ≡ k).
        used
        ∙ ap (λ (x : IntersectionType). (take_vertex j t x m, false)) (ap m.block.is_type at ∙ e) in
      elim shows [
        | inl (kind, list) ↦
            of_kind shared_membuf kind
            ∙ ap (λ (x : Machine). (x, false))
                (take_shared m n c size' (ap m.block.im_data at ∙ list))
        | inr (kind, values) ↦
            let value =
              subst
                (λ e.
                  read_element (m.block.flip24_arrs (t.eids (m.shard_offset_arr e)))
                    (add32 (m.block.min_iter_per_shard e (t.eids (m.shard_offset_arr e))) n)
                  ≡ get_or c n 0)
                (sym at) (values n lt) in
            of_kind single kind
            ∙ ap (λ (x : Machine). (x, false)) (take_single m n (get_or c n 0) size' value)
      ]

module _ (j : Joins) (t : TreeTask) (f : Finds) (l : IsJoin j t f) where
  open l use {IsGood, IsPivot, pending, resized, pending_resized}

  -- Depth `d` has the buffer `c`, of which `n` vertices are left for the child with the number `i`;
  -- `later` are the buffers that follow. The depths above are as in `base`.
  pub record Loaded (d : ℕ) (base : Machine) (c : List ℕ) (later : List (List ℕ)) (n i : ℕ)
      (m : Machine) : Type 0 where
    pub dep : m.dep ≡ d
    pub node : m.tree_node_id ≡ base.tree_node_id
    pub shards : m.shard_idxs ≡ shards_at j t base.tree_node_id i
    pub good : IsGood m.block
    pub pivots : (e : ℕ) → e ≤ d → IsPivot e (m.shard_offset_arr e)
    pub fresh :
        (e : ℕ)
        → d < e
        → e + 1 < t.num_query_vertices
        → (m.is_finish e ≡ true) × (m.state e ≡ initial) × (m.sched_tree_child e ≡ 0)
    pub kept : (e : ℕ) → e < d → look j t f l e m ≡ look j t f l e base
    pub finish : m.is_finish d ≡ false
    pub state : m.state d ≡ (if is_nil later then initial else resume)
    pub number : m.sched_tree_child d ≡ i
    pub whole : m.tmp_im_size d ≡ length c
    pub size : m.block.im_size d ≡ n
    pub size_le : n ≤ length c
    pub buffer : Shows j t (view j t pending d (m.shard_offset_arr d) m.block) c
    pub shared : is_nil later ≡ false → m.block.is_type d ≡ shared_membuf
    pub rest : pending d (m.shard_offset_arr d) m.block ≡ later

  -- The next vertex is taken from the end of the buffer.
  take_step :
      (d : ℕ) (base : Machine) (c : List ℕ) (later : List (List ℕ)) (n i : ℕ) (m : Machine)
      → d + 1 < t.num_query_vertices
      → t.num_query_vertices < 2 ^ 32
      → Loaded d base c later (suc n) i m
      → step j t m ≡ (enter j t (get_or c n 0) n m, false)
  take_step d base c later n i m lt small h =
      step_inside j t m small (omega (arith, h.dep))
      ∙ ap (use_buffer j t) (refill_off j t m (ap m.is_finish h.dep ∙ h.finish))
      ∙ take_from j t pending m d n c h.dep h.size (omega (arith, h.size_le)) h.buffer

  -- A child with the number `i`, as the tree has it
  abbrev pub IsChild : ℕ → ℕ → ℕ → Type 0
  IsChild k node i =
      (t.sched_tree_prv_id (sub32 (child j t node i) 1) ≡ node)
      × IsEntered j t k (child j t node i) (shards_at j t node i)
      × IsTree j t k (child j t node i)

  -- When a walk below the child has ended, the depth is as before, with one vertex less.
  Walked-Loaded :
      (d : ℕ) (base : Machine) (c : List ℕ) (later : List (List ℕ)) (n i v count : ℕ)
      (m m2 : Machine)
      → d + 1 < t.num_query_vertices
      → t.sched_tree_prv_id (sub32 (child j t base.tree_node_id i) 1) ≡ base.tree_node_id
      → Loaded d base c later (suc n) i m
      → Walked j t f l (d + 1) count (enter j t v n m) m2
      → Loaded d base c later n i m2
  Walked-Loaded d base c later n i v count m m2 lt parent h w =
      let same = w.kept d (omega arith) in
      let offset = ap (λ (x : Look j t f l). x.3) same in
      let at : child j t m.tree_node_id (m.sched_tree_child m.dep) ≡ child j t base.tree_node_id i =
        rw (h.node, ap m.sched_tree_child h.dep ∙ h.number) refl in
      let seen = ap (λ (x : Look j t f l). x.6) same in
      let here_dep : (d == m.dep) ≡ true = ground (arith, h.dep) in
      record {
        dep = omega (arith, w.dep);
        node = w.node ∙ ap (λ x. t.sched_tree_prv_id (sub32 x 1)) at ∙ parent;
        shards = w.shards ∙ h.shards;
        good = w.ready.good;
        pivots = λ e le. w.ready.pivots e (omega arith);
        fresh = λ e le. w.ready.fresh e (omega arith);
        kept = λ e le.
            w.kept e (omega arith)
            ∙ look-enter j t f l m e v n (omega (arith, h.dep))
            ∙ h.kept e le;
        finish = ap (λ (x : Look j t f l). x.0) same ∙ h.finish;
        state = ap (λ (x : Look j t f l). x.1) same ∙ h.state;
        number = ap (λ (x : Look j t f l). x.2) same ∙ h.number;
        whole = ap (λ (x : Look j t f l). x.4) same ∙ h.whole;
        size = ap (λ (x : View j t). x.0) seen ∙ rw here_dep refl;
        size_le = omega (arith, h.size_le);
        buffer = subst (λ x. Shows j t x c) (sym seen) h.buffer;
        shared = λ more. ap (λ (x : View j t). x.1) seen ∙ h.shared more;
        rest =
            ap (λ (x : View j t). x.5) seen
            ∙ pending_resized m.block m.dep n d (m.shard_offset_arr d)
            ∙ h.rest;
      }

  -- The whole buffer is taken, and below each vertex the walk counts what it is to count.
  pub take_vertices :
      (k d : ℕ) (base : Machine) (c : List ℕ) (later : List (List ℕ)) (n i : ℕ) (m : Machine)
      → d + suc (suc k) ≡ t.num_query_vertices
      → t.num_query_vertices < 2 ^ 32
      → IsChild k base.tree_node_id i
      → Walks j t f l k (d + 1)
      → Loaded d base c later n i m
      → (m' : Machine) × Steps j t f l m m'
        × Loaded d base c later 0 i m'
        × (m'.counter
            ≡ m.counter
              + sum_below n (λ x.
                total j t f k
                  (d + 1)
                  (child j t base.tree_node_id i)
                  (shards_at j t base.tree_node_id i)
                  (update base.rslt d (get_or c x 0))))
  take_vertices k d base c later zero i m e small ch walks h = (m, here, h, omega arith)
  take_vertices k d base c later (suc n) i m e small ch walks h =
      let v = get_or c n 0 in
      let m1 = enter j t v n m in
      let one = take_step d base c later n i m (omega (arith, e)) small h in
      let at : child j t m.tree_node_id (m.sched_tree_child m.dep) ≡ child j t base.tree_node_id i =
        rw (h.node, ap m.sched_tree_child h.dep ∙ h.number) refl in
      let (m2, steps, w) =
        walks m1 (omega (arith, h.dep))
          (record {
            good = resized m.block m.dep n h.good;
            pivots = λ e' lt. h.pivots e' (omega arith);
            fresh = λ e' le. h.fresh e' (omega arith);
          })
          (subst (IsTree j t k) (sym at) ch.2) (rw (at, h.shards) ch.1) in
      let h2 = Walked-Loaded d base c later n i v _ m m2 (omega (arith, e)) ch.0 h w in
      let (m', steps', h', counted) = take_vertices k d base c later n i m2 e small ch walks h2 in
      let same : total j t f k (d + 1) m1.tree_node_id m1.shard_idxs m1.rslt
          ≡ total j t f k (d + 1) (child j t base.tree_node_id i)
              (shards_at j t base.tree_node_id i) (update base.rslt d v) =
        rw (at, h.shards)
          (total-cong j t f l k (d + 1) _ _ m1.rslt (update base.rslt d v) (omega (arith, e))
            (λ e' lt. elim (Bool-cases (e' == d)) [
              | inl last ↦ ground (arith, h.dep)
              | inr other ↦
                  let kept = ap (λ (x : Look j t f l). x.5) (h.kept e' (ground arith)) in
                  ground (arith, h.dep, kept)
            ])) in
      (
        m',
        Steps-trans j t f l (Steps-trans j t f l (next here one) steps) steps',
        h',
        omega (arith, counted, w.counted, same),
      )
