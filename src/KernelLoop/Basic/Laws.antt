-- ===== src/KernelLoop/Basic/Laws.antt =====
-- The intersection functions of source/cuMatch/LFTJ_kernel_basic.cu do what its main loop relies on.
use cu_match.Prelude.{
  ℕ, zero, suc, ◌+◌, ◌-◌, ◌<◌, ◌≡◌, ◌≢◌, refl, ap, sym, ◌∙◌, false, not, ◌||◌, List, ◌∷◌, length,
  get_or, arith, inl, inr,
}
use cu_match.Flip24.{Memory, read_element}
use cu_match.Kernel.{
  Block, IntersectionType, shared_membuf, single, add32, set_intersection_initial,
}
use cu_match.KernelLoop.{TreeTask, is_shared}
use cu_match.KernelLoop.Spec.{Finds, IsJoin, view, Shows, is_nil}
use cu_match.KernelLoop.Basic.{
  JoinInfo, task, num_join_shards, basic_start, basic, rounds, reads, buffer, buffers, basic_finds,
  blank,
}
use cu_match.KernelLoop.Basic.Agree.{load_lists-cong}
use cu_match.KernelLoop.Basic.Chunks.{store_chunk-Stored}
use cu_match.KernelLoop.Basic.Keep.{Bounded, Keeps, store_chunk-Keeps, store_chunk-is_type}
use cu_match.KernelLoop.Basic.Rounds.{
  rest_task, next_block, over, left, slot, proceed_chunk, rounds-Ranges, rounds-is_nil, rounds-next,
}
use cu_match.KernelLoop.Basic.Openings.{
  IsBasic, IsPivot, pending, SameView, Keeps-view, resized, started, basic_start-Keeps, start_size,
  opened, Opened,
}

pub length-reads : (mem : Memory) (lo i n : ℕ) → length (reads mem lo i n) ≡ n
length-reads mem lo i zero = refl
length-reads mem lo i (suc n) = omega (arith, length-reads mem lo (i + 1) n)

pub get_or-reads :
    (mem : Memory) (lo i n k : ℕ)
    → k < n
    → get_or (reads mem lo i n) k 0 ≡ read_element mem (add32 lo (i + k))
get_or-reads mem lo i zero k lt = absurd (omega (arith, lt))
get_or-reads mem lo i (suc n) zero lt = ap (λ x. read_element mem (add32 lo x)) (omega arith)
get_or-reads mem lo i (suc n) (suc k) lt =
    get_or-reads mem lo (i + 1) n k (omega (arith, lt))
    ∙ ap (λ x. read_element mem (add32 lo x)) (omega arith)

module _ (t : TreeTask) (info : JoinInfo) (schedule : ℕ → ℕ → List ℕ) (block_idx : ℕ)
    (h : IsBasic t info) where
  abbrev finds : Finds
  finds = basic_finds t info schedule block_idx

  abbrev begun : ℕ → (ℕ → ℕ) → (ℕ → ℕ) → Block → Block × ℕ
  begun d s r b = started t info schedule block_idx h d s r b

  abbrev Seen : ℕ → (ℕ → ℕ) → (ℕ → ℕ) → Block → Type 0
  Seen d s r b =
      let b' = (begun d s r b).0 in
      let pivot = (begun d s r b).1 in
      Shows (basic t info schedule block_idx) t
        (view (basic t info schedule block_idx) t (pending t info schedule block_idx h) d pivot b')
        (finds.first d s r)
      × (b'.im_size d ≡ length (finds.first d s r))
      × (pending t info schedule block_idx h d pivot b' ≡ finds.later d s r)
      × ((not (is_shared (b'.is_type d)) || over t info schedule block_idx d pivot b')
          ≡ is_nil (finds.later d s r))
      × (is_nil (finds.later d s r) ≡ false → b'.is_type d ≡ shared_membuf)

  seen_single :
      (d : ℕ) (s r : ℕ → ℕ) (b : Block)
      → (o : Opened t info schedule block_idx h d s r b) → (begun d s r b).0.is_type d ≡ single
      → Seen d s r b
  seen_single d s r b o kind =
      let blank_kind = sym o.kind ∙ kind in
      let y = (begun d s r blank).0 in
      let e_id = t.eids (slot t info schedule block_idx d o.p) in
      let lo = y.min_iter_per_shard d e_id in
      let mem = y.flip24_arrs e_id in
      rw (kind, blank_kind, o.left_pivot, o.right_pivot)
        (
          inr (
            refl,
            λ i lt.
                rw (o.agree.arrays o.p o.joined, o.agree.lower o.p o.joined)
                  (ap (λ x. read_element mem (add32 lo x)) (omega arith)
                    ∙ sym (
                        get_or-reads mem lo 0 (y.im_size d) i
                          (omega (arith, lt, length-reads mem lo 0 (y.im_size d))))),
          ),
          o.size ∙ sym (length-reads mem lo 0 (y.im_size d)),
          refl,
          refl,
          λ e. absurd (ground (arith, e)),
        )

  seen_shared :
      (d : ℕ) (s r : ℕ → ℕ) (b : Block)
      → (o : Opened t info schedule block_idx h d s r b)
      → (begun d s r b).0.is_type d ≡ shared_membuf
      → (begun d s r b).0.im_data d ≡ (begun d s r blank).0.im_data d
      → (begun d s r b).0.im_size d ≡ length ((begun d s r b).0.im_data d)
      → Seen d s r b
  seen_shared d s r b o kind data_of size =
      let blank_kind = sym o.kind ∙ kind in
      let x = (begun d s r b).0 in
      let y = (begun d s r blank).0 in
      let q = slot t info schedule block_idx d o.p in
      let as_many : left t info schedule block_idx d q x ≡ left t info schedule block_idx d q y =
        rw (o.agree.lower o.p o.joined, o.agree.upper o.p o.joined) refl in
      let rest =
        rounds-Ranges t info schedule block_idx (left t info schedule block_idx d q x) d o.p x y
          o.joined o.agree
        ∙ ap (λ n. rounds t info schedule block_idx n d q y) as_many in
      rw (kind, blank_kind, o.left_pivot, o.right_pivot)
        (
          inl (refl, data_of),
          size ∙ ap length data_of,
          rest,
          sym (rounds-is_nil t info schedule block_idx d q x) ∙ ap is_nil rest,
          λ e. refl,
        )

  pub seen : (d : ℕ) (s r : ℕ → ℕ) (b : Block) → d + 1 < t.num_query_vertices → Seen d s r b
  seen d s r b inner =
      let o = opened t info schedule block_idx h d s r b inner in
      elim o.filled [
        | inl kind ↦ seen_single d s r b o kind
        | inr (kind, data_of, size) ↦ seen_shared d s r b o kind data_of size
      ]

  -- The vertices that a depth hangs on
  pub started-cong :
      (d : ℕ) (s r r' : ℕ → ℕ)
      → d < t.num_query_vertices
      → ((e : ℕ) → e < d → r e ≡ r' e)
      → begun d s r blank ≡ begun d s r' blank
  unfolding basic_start set_intersection_initial
  started-cong d s r r' inside same =
      let lists =
        load_lists-cong (task t info schedule block_idx s) d (info.global_order d)
          (num_join_shards info d) r r' 0 (num_join_shards info d) blank
          (λ k lt back. same _ (h.earlier d k inside (omega (arith, lt)) back)) in
      rw lists refl

  pub next_lem :
      (d pivot : ℕ) (b : Block) (c : List ℕ) (cs : List (List ℕ))
      → d + 1 < t.num_query_vertices
      → Bounded b
      → IsPivot t info schedule block_idx h d pivot
      → b.is_type d ≡ shared_membuf
      → rounds t info schedule block_idx (left t info schedule block_idx d pivot b) d pivot b
        ≡ c ∷ cs
      → let b' = next_block t info schedule block_idx d pivot b in
        Bounded b'
        × (b'.is_type d ≡ shared_membuf)
        × (b'.im_data d ≡ c)
        × (b'.im_size d ≡ length c)
        × (pending t info schedule block_idx h d pivot b' ≡ cs)
        × (over t info schedule block_idx d pivot b' ≡ is_nil cs)
        × ((e q : ℕ)
            → e ≢ d
            → IsPivot t info schedule block_idx h e q
            → SameView t info schedule block_idx h e q b b')
  next_lem d pivot b c cs inner good at kind e =
      let b' = next_block t info schedule block_idx d pivot b in
      let task0 = rest_task t info schedule block_idx in
      let v = info.global_order d in
      let n = num_join_shards info d in
      let made = proceed_chunk t info schedule block_idx d pivot b in
      let x = store_chunk-Stored task0 d v n pivot schedule b in
      let kind' : b'.is_type d ≡ shared_membuf =
        ap (λ (z : Block). z.is_type d) made
        ∙ ap (λ (f : ℕ → IntersectionType). f d) (store_chunk-is_type task0 d v n schedule pivot b)
        ∙ kind in
      let (data_of, rest) = rounds-next t info schedule block_idx d pivot b c cs good e in
      let keeps : Keeps task0 d v n b b' =
        rw made (store_chunk-Keeps task0 d v n schedule pivot b) in
      (
        keeps.bounded good,
        kind',
        data_of,
        ap (λ (z : Block). z.im_size d) made
            ∙ x.size_of
            ∙ ap length (ap (λ (z : Block). z.im_data d) (sym made) ∙ data_of),
        rw kind' rest,
        sym (rounds-is_nil t info schedule block_idx d pivot b') ∙ ap is_nil rest,
        Keeps-view t info schedule block_idx h (λ i. 0) d b b' (omega (arith, inner)) keeps,
      )

  unfoldable pub basic-IsJoin : IsJoin (basic t info schedule block_idx) t finds
  basic-IsJoin = record {
    IsGood = Bounded;
    IsPivot = IsPivot t info schedule block_idx h;
    pending = pending t info schedule block_idx h;
    resized = λ b d v good. good;
    pending_resized = λ b d v e pivot. resized t info schedule block_idx h b d v e pivot;
    start_first = λ d s r b inner good.
        let inside : d < t.num_query_vertices = omega (arith, inner) in
        let keeps = basic_start-Keeps t info schedule block_idx h d s r b inside in
        let o = opened t info schedule block_idx h d s r b inner in
        let (shows, size, rest, ended, shared) = seen d s r b inner in
        (
          keeps.bounded good,
          (o.p, o.joined, inside, o.left_pivot),
          shows,
          size,
          rest,
          ended,
          shared,
          Keeps-view t info schedule block_idx h s d b _ inside keeps,
        );
    proceed_next = λ d pivot b c cs inner good at kind e.
        next_lem d pivot b c cs inner good at kind (rw kind at e);
    start_last = λ d s r b at good.
        let inside : d < t.num_query_vertices = omega (arith, at) in
        let keeps = basic_start-Keeps t info schedule block_idx h d s r b inside in
        let last : t.num_query_vertices - 1 ≡ d = omega (arith, at) in
        (
          keeps.bounded good,
          start_size t info schedule block_idx h d s r b inside
              ∙ ap (λ e. (begun e s r blank).0.im_size e) (sym last),
          Keeps-view t info schedule block_idx h s d b _ inside keeps,
        );
    first_cong = λ d s r r' inner same.
        ap (λ (x : Block × ℕ). buffer t info schedule block_idx d x.1 x.0)
          (started-cong d s r r' (omega (arith, inner)) same);
    later_cong = λ d s r r' inner same.
        ap (λ (x : Block × ℕ). buffers t info schedule block_idx d x.1 x.0)
          (started-cong d s r r' (omega (arith, inner)) same);
    matches_cong = λ s r r' same.
        let d = t.num_query_vertices - 1 in
        let some_vertex = h.some_vertex in
        let inside : d < t.num_query_vertices = omega (arith, some_vertex) in
        ap (λ (x : Block × ℕ). x.0.im_size d)
          (started-cong d s r r' inside (λ e lt. same e (omega (arith, lt))));
  }
