-- ===== src/KernelLoop/Frames.antt =====
-- Runs of the main loop of source/cuMatch/LFTJ_kernel_basic.cu, and what they leave as it is.
use cu_match.Prelude.{
  ℕ, zero, suc, ◌+◌, ◌≤◌, ◌<◌, ◌≡◌, ◌≢◌, refl, ap, Bool, true, false, List, ◌∷◌, length, ◌==◌,
  update, get_or, arith,
}
use mathlib.Core.Path.{fun_ext}
use cu_match.Kernel.{sub32}
use cu_match.TableJoin.{StateType, initial}
use cu_match.KernelLoop.{Joins, TreeTask, Machine, step, enter, child_num}
use cu_match.KernelLoop.Spec.{
  Finds, IsTree, IsEntered, IsJoin, View, view, total, child, shards_at, sum_over, sum_from,
  sum_below,
}

sum_below-cong : (n : ℕ) (g h : ℕ → ℕ) → ((x : ℕ) → g x ≡ h x) → sum_below n g ≡ sum_below n h
sum_below-cong n g h e = ap (sum_below n) (fun_ext e)

module _ (j : Joins) (t : TreeTask) (f : Finds) (l : IsJoin j t f) where
  open l use {IsGood, IsPivot, pending, pending_resized, first_cong, later_cong, matches_cong}

  -- The count below a node hangs on the vertices that are matched above it only.
  pub total-cong :
      (k d node : ℕ) (shards r r' : ℕ → ℕ)
      → d + suc k ≡ t.num_query_vertices
      → ((e : ℕ) → e < d → r e ≡ r' e)
      → total j t f k d node shards r ≡ total j t f k d node shards r'
  unfolding total
  total-cong zero d node shards r r' e h = matches_cong shards r r' (λ i lt. h i (omega (arith, e)))
  total-cong (suc k) d node shards r r' e h =
      let inner = λ (c : List ℕ) (i x : ℕ).
        total-cong k (d + 1) (child j t node i) (shards_at j t node i) (update r d (get_or c x 0))
          (update r' d (get_or c x 0)) (omega (arith, e))
          (λ e' lt. let same = h e' in ground (arith, same)) in
      let each = λ (c : List ℕ).
        ap (sum_from 0 (child_num j t node))
          (fun_ext (λ i. ap (sum_below (length c)) (fun_ext (inner c i)))) in
      rw
        (
          first_cong d shards r r' (omega (arith, e)) h,
          later_cong d shards r r' (omega (arith, e)) h,
        )
        (ap (sum_over (f.first d shards r' ∷ f.later d shards r')) (fun_ext each))

  -- One machine leads to another without a `break`.
  pub data Steps (m : Machine) : Machine → Type 0 where
    here : Steps m m
    next : {m1 m2 : Machine} → Steps m m1 → step j t m1 ≡ (m2, false) → Steps m m2

  pub Steps-trans : {m1 m2 m3 : Machine} → Steps m1 m2 → Steps m2 m3 → Steps m1 m3
  Steps-trans s here = s
  Steps-trans s (next r e) = next (Steps-trans s r) e

  -- What the loop remembers of a depth
  abbrev pub Look : Type 0
  Look = Bool × StateType × ℕ × ℕ × ℕ × ℕ × View j t

  abbrev pub look : ℕ → Machine → Look
  look d m = (
    m.is_finish d,
    m.state d,
    m.sched_tree_child d,
    m.shard_offset_arr d,
    m.tmp_im_size d,
    m.rslt d,
    view j t pending d (m.shard_offset_arr d) m.block,
  )

  -- The machine at a depth that is entered, or left: the depths from here on are at their start.
  pub record Ready (d : ℕ) (m : Machine) : Type 0 where
    pub good : IsGood m.block
    pub pivots : (e : ℕ) → e < d → IsPivot e (m.shard_offset_arr e)
    pub fresh :
        (e : ℕ)
        → d ≤ e
        → e + 1 < t.num_query_vertices
        → (m.is_finish e ≡ true) × (m.state e ≡ initial) × (m.sched_tree_child e ≡ 0)

  -- The walk below a node is over: `n` matches are counted, and the depths above are as before.
  pub record Walked (d n : ℕ) (m m' : Machine) : Type 0 where
    pub dep : m'.dep + 1 ≡ d
    pub node : m'.tree_node_id ≡ t.sched_tree_prv_id (sub32 m.tree_node_id 1)
    pub counted : m'.counter ≡ m.counter + n
    pub shards : m'.shard_idxs ≡ m.shard_idxs
    pub ready : Ready d m'
    pub kept : (e : ℕ) → e < d → look e m' ≡ look e m

  -- Every walk that starts at depth `d`, `k` depths above the last, does so.
  abbrev pub Walks : ℕ → ℕ → Type 0
  Walks k d =
      (m : Machine)
      → m.dep ≡ d
      → Ready d m
      → IsTree j t k m.tree_node_id
      → IsEntered j t k m.tree_node_id m.shard_idxs
      → (m' : Machine) × Steps m m'
        × Walked d (total j t f k d m.tree_node_id m.shard_idxs m.rslt) m m'

  pub look-enter : (m : Machine) (e v n : ℕ) → e ≢ m.dep → look e (enter j t v n m) ≡ look e m
  look-enter m e v n ne =
      let other : (e == m.dep) ≡ false = ground arith in
      rw (other, pending_resized m.block m.dep n e (m.shard_offset_arr e)) refl
