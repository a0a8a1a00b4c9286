-- ===== src/KernelLoop/Basic/Openings.antt =====
-- The first intersection at a depth of source/cuMatch/LFTJ_kernel_basic.cu, and what it leaves to
-- the other depths.
use cu_match.Prelude.{
  ℕ, ◌+◌, ◌-◌, ◌≤◌, ◌<◌, ◌^◌, ◌≡◌, ◌≢◌, ◌⊎◌, refl, ap, sym, List, length, update, arith,
}
use mathlib.Core.Path.{subst}
use cu_match.Shard.{adj_list_vid}
use cu_match.Kernel.{Block, shared_membuf, single}
use cu_match.KernelLoop.{TreeTask}
use cu_match.KernelLoop.Spec.{view}
use cu_match.KernelLoop.Basic.{
  JoinInfo, task, num_join_shards, basic_start, basic, buffers, blank, option_or,
}
use cu_match.KernelLoop.Basic.Agree.{Fits}
use cu_match.KernelLoop.Basic.Keep.{Keeps}
use cu_match.KernelLoop.Basic.Starts.{first_intersection, Starts, initial-Starts}
use cu_match.KernelLoop.Basic.Rounds.{joins, left, slot, AgreeAt, rounds_same, rounds-Ranges}

-- What the kernel buffer of a query says: each of its lists has an edge id of its own, the lists of
-- a query vertex hang on the vertices above it, no shard has an empty list at the very start of an
-- array, and no array has 2 ^ 31 elements.
pub record IsBasic (t : TreeTask) (info : JoinInfo) : Type 0 where
  pub small : t.num_query_vertices < 2 ^ 32
  pub some_vertex : 0 < t.num_query_vertices
  pub rows : (x : ℕ) → (1 ≤ (info.shard_ptrs x).num_rows) × ((info.shard_ptrs x).num_rows < 2 ^ 31)
  pub lists :
      (x v : ℕ)
      → let adj = adj_list_vid (info.shard_ptrs x) v in
        (1 ≤ adj.colptr + adj.length) × (adj.colptr + adj.length < 2 ^ 31)
  pub distinct : (i k : ℕ) → t.eids i ≡ t.eids k → i ≡ k
  pub some_list : (d : ℕ) → d < t.num_query_vertices → 0 < num_join_shards info d
  pub apart :
      (d e k i : ℕ)
      → d ≢ e
      → d < t.num_query_vertices
      → e < t.num_query_vertices
      → k < num_join_shards info d
      → i < num_join_shards info e
      → info.prefix_sum_degree (info.global_order d) + k
        ≢ info.prefix_sum_degree (info.global_order e) + i
  pub earlier :
      (d k : ℕ)
      → d < t.num_query_vertices
      → k < num_join_shards info d
      → info.num_query_edges ≤ t.eids (info.prefix_sum_degree (info.global_order d) + k)
      → info.lv0_dep
          (t.eids (info.prefix_sum_degree (info.global_order d) + k) - info.num_query_edges)
        < d

module _ (t : TreeTask) (info : JoinInfo) (schedule : ℕ → ℕ → List ℕ) (block_idx : ℕ)
    (h : IsBasic t info) where
  abbrev pub IsPivot : ℕ → ℕ → Type 0
  IsPivot e q =
      (p : ℕ) × (p < joins t info schedule block_idx e)
      × (e < t.num_query_vertices)
      × (q ≡ slot t info schedule block_idx e p)

  abbrev pub pending : ℕ → ℕ → Block → List (List ℕ)
  pending d pivot b = buffers t info schedule block_idx d pivot b

  abbrev pub SameView : ℕ → ℕ → Block → Block → Type 0
  SameView e q b c =
      view (basic t info schedule block_idx) t pending e q c
      ≡ view (basic t info schedule block_idx) t pending e q b

  pub Keeps-view :
      (s : ℕ → ℕ) (d : ℕ) (b c : Block)
      → d < t.num_query_vertices
      → Keeps
          (task t info schedule block_idx s)
          d
          (info.global_order d)
          (joins t info schedule block_idx d)
          b
          c
      → (e q : ℕ) → e ≢ d
      → IsPivot e q
      → SameView e q b c
  Keeps-view s d b c inside keeps e q ne (p, lt, le, at) =
      let off =
        λ (i : ℕ) (li : i < joins t info schedule block_idx e) (k : ℕ)
            (lk : k < joins t info schedule block_idx d).
          λ (same : t.eids (slot t info schedule block_idx e i)
              ≡ t.eids (slot t info schedule block_idx d k)).
            h.apart e d i k ne le inside li lk (h.distinct _ _ same) in
      let arrays = λ (i : ℕ) (li : i < joins t info schedule block_idx e).
        keeps.arrays (t.eids (slot t info schedule block_idx e i)) (off i li) in
      let agree : AgreeAt t info schedule block_idx e c b = record {
        lower = λ i li. keeps.lower e _ ne;
        upper = λ i li. keeps.upper e _ ne;
        arrays = arrays;
      } in
      let q' = slot t info schedule block_idx e p in
      let same : SameView e q' b c =
        rw
          (
            keeps.size e ne,
            keeps.type_of e ne,
            keeps.data_of e ne,
            keeps.lower e (t.eids q') ne,
            keeps.upper e (t.eids q') ne,
            arrays p lt,
            rounds-Ranges t info schedule block_idx (left t info schedule block_idx e q' b) e p c b
                lt agree,
          )
          refl in
      subst (λ x. SameView e x b c) (sym at) same

  pub resized :
      (b : Block) (d v e pivot : ℕ)
      → pending e pivot (record b { im_size = update b.im_size d v }) ≡ pending e pivot b
  resized b d v e pivot =
      let c = record b { im_size = update b.im_size d v } in
      rw
        (rounds_same t info schedule block_idx (left t info schedule block_idx e pivot b) e pivot c
          b refl refl refl)
        refl

  fits :
      (s : ℕ → ℕ) (d : ℕ)
      → Fits (task t info schedule block_idx s) d (info.global_order d) (num_join_shards info d)
  fits s d = record { rows = h.rows; lists = h.lists }

  -- The first intersection, from a block and from the blank one
  abbrev pub started : ℕ → (ℕ → ℕ) → (ℕ → ℕ) → Block → Block × ℕ
  started d s r b = basic_start t info schedule block_idx d s r b

  abbrev StartsAt : ℕ → (ℕ → ℕ) → (ℕ → ℕ) → Block → Type 0
  StartsAt d s r b =
      (inside : d < t.num_query_vertices)
      → Starts (task t info schedule block_idx s) d (info.global_order d) (num_join_shards info d)
          schedule block_idx r (fits s d) (h.some_list d inside) b
          (first_intersection (task t info schedule block_idx s) d (info.global_order d)
            (num_join_shards info d) schedule block_idx r (fits s d) (h.some_list d inside) b)
          (first_intersection (task t info schedule block_idx s) d (info.global_order d)
            (num_join_shards info d) schedule block_idx r (fits s d) (h.some_list d inside) blank)

  starts_at : (d : ℕ) (s r : ℕ → ℕ) (b : Block) → StartsAt d s r b
  starts_at d s r b inside =
      initial-Starts (task t info schedule block_idx s) d (info.global_order d)
        (num_join_shards info d) schedule block_idx r (fits s d) (h.some_list d inside) b blank

  pub record Opened (d : ℕ) (s r : ℕ → ℕ) (b : Block) : Type 0 where
    pub p : ℕ
    pub joined : p < num_join_shards info d
    pub left_pivot : (started d s r b).1 ≡ slot t info schedule block_idx d p
    pub right_pivot : (started d s r blank).1 ≡ slot t info schedule block_idx d p
    pub agree : AgreeAt t info schedule block_idx d (started d s r b).0 (started d s r blank).0
    pub kind : (started d s r b).0.is_type d ≡ (started d s r blank).0.is_type d
    pub size : (started d s r b).0.im_size d ≡ (started d s r blank).0.im_size d
    pub filled :
        ((started d s r b).0.is_type d ≡ single)
        ⊎ (((started d s r b).0.is_type d ≡ shared_membuf)
            × ((started d s r b).0.im_data d ≡ (started d s r blank).0.im_data d)
            × ((started d s r b).0.im_size d ≡ length ((started d s r b).0.im_data d)))

  pub basic_start-Keeps :
      (d : ℕ) (s r : ℕ → ℕ) (b : Block)
      → d < t.num_query_vertices
      → Keeps
          (task t info schedule block_idx s)
          d
          (info.global_order d)
          (num_join_shards info d)
          b
          (started d s r b).0
  unfolding basic_start first_intersection
  basic_start-Keeps d s r b inside = (starts_at d s r b inside).keeps

  pub start_size :
      (d : ℕ) (s r : ℕ → ℕ) (b : Block)
      → d < t.num_query_vertices
      → (started d s r b).0.im_size d ≡ (started d s r blank).0.im_size d
  unfolding basic_start first_intersection
  start_size d s r b inside = (starts_at d s r b inside).size

  pub opened : (d : ℕ) (s r : ℕ → ℕ) (b : Block) → d + 1 < t.num_query_vertices → Opened d s r b
  unfolding basic_start first_intersection
  opened d s r b inner =
      let inside : d < t.num_query_vertices = omega (arith, inner) in
      let x = starts_at d s r b inside in
      let (p, o) = x.opens inner h.small in
      record {
        p = p;
        joined = o.joined;
        left_pivot = ap (λ y. option_or y 0) o.left;
        right_pivot = ap (λ y. option_or y 0) o.right;
        agree = record { lower = o.ranges.lower; upper = o.ranges.upper; arrays = o.ranges.arrays };
        kind = o.kind;
        size = x.size;
        filled = o.buffer;
      }
