-- ===== src/Optional/Last.antt =====
-- The first intersection of source/cuMatch/LFTJ_kernel_optional.cu at the last depth does what the
-- main loop relies on there.
use cu_match.Prelude.{
  ℕ, ◌+◌, ◌-◌, ◌≤◌, ◌<◌, ◌^◌, ◌≡◌, ◌≢◌, refl, ap, sym, ◌∙◌, Bool, true, false, not, ◌&&◌, List,
  ◌==◌, [], update, arith, Bool-cases, ==_iff, inl, inr, some, Option,
}
use cu_match.Shard.{adj_list_vid}
use cu_match.Kernel.{Task, Block, single, sub32, set_intersection_initial}
use cu_match.KernelLoop.{TreeTask}
use cu_match.KernelLoop.Basic.{JoinInfo, task, blank}
use cu_match.KernelLoop.Basic.Agree.{Fits, load_lists-cong}
use cu_match.KernelLoop.Basic.Keep.{Keeps, Keeps-trans, sizes-Keeps, type-Keeps}
use cu_match.KernelLoop.Basic.Starts.{
  selected, selected-Agree, selected-Keeps, first_intersection, initial-Starts,
}
use cu_match.Optional.{
  OptionalInfo, is_direct, set_intersection_initial_optional, joined_shards, optional_start,
  optional_joins,
}
use cu_match.Optional.Slots.{CountsLast}

module _ (t : Task) (info : OptionalInfo) (dep match_vid num_join_shards : ℕ)
    (schedule : ℕ → ℕ → List ℕ) (block_idx : ℕ) (rslt : ℕ → ℕ)
    (fits : Fits t dep match_vid num_join_shards) (some_list : 0 < num_join_shards) where
  abbrev chosen : Block → Block
  chosen b = selected t dep match_vid num_join_shards schedule block_idx rslt fits some_list b

  unfoldable pub first_optional : Block → Block × Option ℕ
  first_optional b =
      set_intersection_initial_optional t info dep match_vid num_join_shards schedule block_idx rslt
        b

  abbrev basic_first : Block → Block × Option ℕ
  basic_first b =
      first_intersection t dep match_vid num_join_shards schedule block_idx rslt fits some_list b

  -- With an empty list
  abbrev pub empty_list : Block → Block
  empty_list b = record (chosen b) {
    im_size = update (chosen b).im_size dep ((chosen b).vid_gap 0);
    is_type = update (chosen b).is_type dep single;
  }

  abbrev pub direct : ℕ → Bool
  direct gap = is_direct t info dep match_vid num_join_shards gap

  direct-zero : (gap : ℕ) → gap ≡ 0 → direct gap ≡ true
  unfolding is_direct
  direct-zero gap e = let z : (gap == 0) ≡ true = ground arith in rw z refl

  direct-last :
      (gap : ℕ)
      → (dep == sub32 t.num_query_vertices 1) ≡ true
      → (gap == 0) ≡ false
      → direct gap ≡ (not (dep == 0) && num_join_shards == 1)
  unfolding is_direct
  direct-last gap at more = rw (more, at) (ground arith)

  first_empty :
      (b : Block)
      → (chosen b).vid_gap 0 ≡ 0
      → first_optional b ≡ (empty_list b, some ((chosen b).vid_gap_idx 0))
  unfolding first_optional set_intersection_initial_optional
  first_empty b e = rw (direct-zero ((chosen b).vid_gap 0) e) refl

  -- Without one, the last depth is that of the basic kernel.
  first_same :
      (b : Block)
      → (dep == sub32 t.num_query_vertices 1) ≡ true
      → ((chosen b).vid_gap 0 == 0) ≡ false
      → first_optional b ≡ basic_first b
  unfolding first_optional first_intersection set_intersection_initial_optional
      set_intersection_initial
  first_same b at more =
      let same = direct-last ((chosen b).vid_gap 0) at more in
      elim (Bool-cases (not (dep == 0) && num_join_shards == 1)) [
        | inl one ↦ rw (same, one) refl
        | inr many ↦ rw (same, many, at) refl
      ]

  empty_list-Keeps : (b : Block) → Keeps t dep match_vid num_join_shards b (empty_list b)
  empty_list-Keeps b =
      let s = chosen b in
      let sized = record s { im_size = update s.im_size dep (s.vid_gap 0) } in
      Keeps-trans t dep match_vid num_join_shards b s (empty_list b)
        (selected-Keeps t dep match_vid num_join_shards schedule block_idx rslt fits some_list b)
        (Keeps-trans t dep match_vid num_join_shards s sized (empty_list b)
          (sizes-Keeps t dep match_vid num_join_shards (s.vid_gap 0) s)
          (type-Keeps t dep match_vid num_join_shards single sized))

  -- At the last depth, whatever the shared arrays hold before
  pub first_optional-last :
      (b c : Block)
      → (dep == sub32 t.num_query_vertices 1) ≡ true
      → Keeps t dep match_vid num_join_shards b (first_optional b).0
        × ((first_optional b).0.im_size dep ≡ (first_optional c).0.im_size dep)
  first_optional-last b c at =
      let gaps : (chosen b).vid_gap 0 ≡ (chosen c).vid_gap 0 =
        (selected-Agree t dep match_vid num_join_shards schedule block_idx rslt fits some_list b
            c).gap
          0 some_list in
      elim (Bool-cases ((chosen b).vid_gap 0 == 0)) [
        | inl zero_gap ↦
            let e : (chosen b).vid_gap 0 ≡ 0 = (==_iff _ 0).0 zero_gap in
            let here : (dep == dep) ≡ true = ground arith in
            rw (first_empty b e, first_empty c (sym gaps ∙ e)) (empty_list-Keeps b, rw here gaps)
        | inr more ↦
            let x =
              initial-Starts t dep match_vid num_join_shards schedule block_idx rslt fits some_list
                b c in
            let more' : ((chosen c).vid_gap 0 == 0) ≡ false = sym (ap (λ g. g == 0) gaps) ∙ more in
            rw (first_same b at more, first_same c at more') (x.keeps, x.size)
      ]

-- What the kernel buffer of a query with optional edges says, as for the basic kernel: each list has
-- an edge id of its own, the lists of the last vertex are joined at no other depth and hang on the
-- vertices above it, no shard has an empty list at the very start of an array, and no array has
-- 2 ^ 31 elements.
pub record IsOptional (t : TreeTask) (info : JoinInfo) (opt : OptionalInfo) : Type 0 where
  pub small : t.num_query_vertices < 2 ^ 32
  pub some_vertex : 0 < t.num_query_vertices
  pub rows : (x : ℕ) → (1 ≤ (info.shard_ptrs x).num_rows) × ((info.shard_ptrs x).num_rows < 2 ^ 31)
  pub lists :
      (x v : ℕ)
      → let adj = adj_list_vid (info.shard_ptrs x) v in
        (1 ≤ adj.colptr + adj.length) × (adj.colptr + adj.length < 2 ^ 31)
  pub distinct : (i k : ℕ) → t.eids i ≡ t.eids k → i ≡ k
  pub some_list :
      (d : ℕ) → d < t.num_query_vertices → 0 < joined_shards t info opt (λ lo hi. []) 0 d
  pub apart :
      (d e k i : ℕ)
      → d ≢ e
      → d < t.num_query_vertices
      → e < t.num_query_vertices
      → k < joined_shards t info opt (λ lo hi. []) 0 d
      → i < joined_shards t info opt (λ lo hi. []) 0 e
      → info.prefix_sum_degree (info.global_order d) + k
        ≢ info.prefix_sum_degree (info.global_order e) + i
  pub earlier :
      (d k : ℕ)
      → d < t.num_query_vertices
      → k < joined_shards t info opt (λ lo hi. []) 0 d
      → info.num_query_edges ≤ t.eids (info.prefix_sum_degree (info.global_order d) + k)
      → info.lv0_dep
          (t.eids (info.prefix_sum_degree (info.global_order d) + k) - info.num_query_edges)
        < d

module _ (t : TreeTask) (info : JoinInfo) (opt : OptionalInfo) (schedule : ℕ → ℕ → List ℕ)
    (block_idx : ℕ) (h : IsOptional t info opt) where
  -- The matches at the last depth
  abbrev pub last_matches : (ℕ → ℕ) → (ℕ → ℕ) → ℕ
  last_matches shards rslt =
      let d = t.num_query_vertices - 1 in
      (optional_start t info opt schedule block_idx d shards rslt blank).0.im_size d

  abbrev pub Joined : ℕ → ℕ → Type 0
  Joined e q =
      (p : ℕ) × (p < joined_shards t info opt schedule block_idx e)
      × (e < t.num_query_vertices)
      × (q ≡ info.prefix_sum_degree (info.global_order e) + p)

  pub at_last :
      (d : ℕ) (s r : ℕ → ℕ) (b : Block)
      → d + 1 ≡ t.num_query_vertices
      → let b' = (optional_start t info opt schedule block_idx d s r b).0 in
        Keeps
          (task t info schedule block_idx s)
          d
          (info.global_order d)
          (joined_shards t info opt schedule block_idx d)
          b
          b'
        × (b'.im_size d ≡ (optional_start t info opt schedule block_idx d s r blank).0.im_size d)
  unfolding optional_start first_optional
  at_last d s r b e =
      let inside : d < t.num_query_vertices = omega (arith, e) in
      let small = h.small in
      first_optional-last (task t info schedule block_idx s) opt d (info.global_order d)
        (joined_shards t info opt schedule block_idx d) schedule block_idx r
        (record { rows = h.rows; lists = h.lists }) (h.some_list d inside) b blank
        (ground (arith, e, small))

  pub start_cong :
      (d : ℕ) (s r r' : ℕ → ℕ)
      → d < t.num_query_vertices
      → ((e : ℕ) → e < d → r e ≡ r' e)
      → optional_start t info opt schedule block_idx d s r blank
        ≡ optional_start t info opt schedule block_idx d s r' blank
  unfolding optional_start set_intersection_initial_optional
  start_cong d s r r' inside same =
      let lists =
        load_lists-cong (task t info schedule block_idx s) d (info.global_order d)
          (joined_shards t info opt schedule block_idx d) r r' 0
          (joined_shards t info opt schedule block_idx d) blank
          (λ k lt back. same _ (h.earlier d k inside (omega (arith, lt)) back)) in
      rw lists refl

  unfoldable pub optional-CountsLast :
      CountsLast (optional_joins t info opt schedule block_idx) t last_matches
  optional-CountsLast = record {
    IsGood = λ b. Unit;
    IsPivot = Joined;
    resized = λ b d v good. tt;
    start_last = λ d s r b e good.
        let (keeps, size) = at_last d s r b e in
        let inside : d < t.num_query_vertices = omega (arith, e) in
        let last : t.num_query_vertices - 1 ≡ d = omega (arith, e) in
        (
          tt,
          size
              ∙ ap (λ x. (optional_start t info opt schedule block_idx x s r blank).0.im_size x)
                  (sym last),
          λ e' q ne (p, lt, le, at).
              let off = λ (k : ℕ) (lk : k < joined_shards t info opt schedule block_idx d).
                λ (same : t.eids q ≡ t.eids (info.prefix_sum_degree (info.global_order d) + k)).
                  h.apart e' d p k ne le inside lt lk (sym at ∙ h.distinct _ _ same) in
              rw
                (
                  keeps.size e' ne,
                  keeps.type_of e' ne,
                  keeps.data_of e' ne,
                  keeps.lower e' (t.eids q) ne,
                  keeps.arrays (t.eids q) off,
                )
                refl,
        );
    matches_cong = λ s r r' same.
        let some_vertex = h.some_vertex in
        ap (λ (x : Block × ℕ). x.0.im_size (t.num_query_vertices - 1))
          (start_cong (t.num_query_vertices - 1) s r r' (omega (arith, some_vertex))
            (λ e lt. same e (omega (arith, lt))));
  }
