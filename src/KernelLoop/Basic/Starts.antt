-- ===== src/KernelLoop/Basic/Starts.antt =====
-- The first intersection at a depth in source/cuMatch/LFTJ_kernel_basic.cu, from any two blocks.
use cu_match.Prelude.{
  ℕ, ◌+◌, ◌-◌, ◌<◌, ◌^◌, ◌≡◌, ◌⊎◌, refl, ap, sym, ◌∙◌, true, false, not, ◌&&◌, Option, some, none,
  List, length, ◌==◌, if◌then◌else◌, update, arith, Bool-cases, inl, inr,
}
use mathlib.Core.Path.{subst}
use cu_match.Kernel.{
  Task, Block, IntersectionType, shared_membuf, single, last, sub32, load_lists, select_pivot,
  count_matches, store_chunk, restrict_to_block, set_intersection_initial,
}
use cu_match.Kernel.Intersect.{offset}
use cu_match.Kernel.Pivot.{pivot-shortest}
use cu_match.KernelLoop.Basic.Agree.{Ranges, Agree, Fits, load_lists-Agree, select_pivot-Agree}
use cu_match.KernelLoop.Basic.Chunks.{
  count_matches-Ranges, store_chunk-Stored, store_chunk-Ranges, restrict_to_block-Ranges,
}
use cu_match.KernelLoop.Basic.Keep.{
  Keeps, Keeps-trans, store_chunk-is_type, load_lists-Keeps, select_pivot-Keeps, sizes-Keeps,
  type-Keeps, count_matches-Keeps, store_chunk-Keeps, restrict_to_block-Keeps,
}

module _ (t : Task) (dep match_vid num_join_shards : ℕ) (schedule : ℕ → ℕ → List ℕ) (block_idx : ℕ)
    (rslt : ℕ → ℕ) (fits : Fits t dep match_vid num_join_shards)
    (some_list : 0 < num_join_shards) where
  abbrev pub selected : Block → Block
  selected b =
      select_pivot t dep match_vid num_join_shards 1 (num_join_shards - 1)
        (load_lists t dep match_vid num_join_shards rslt 0 num_join_shards b)

  pub selected-Agree :
      (b c : Block)
      → Agree t dep match_vid num_join_shards num_join_shards (selected b) (selected c)
  selected-Agree b c =
      let b' = load_lists t dep match_vid num_join_shards rslt 0 num_join_shards b in
      let c' = load_lists t dep match_vid num_join_shards rslt 0 num_join_shards c in
      let none_yet : Agree t dep match_vid num_join_shards 0 b c = record {
        gap = λ k lt. absurd (omega (arith, lt));
        idx = λ k lt. absurd (omega (arith, lt));
        ranges = record {
          lower = λ k lt. absurd (omega (arith, lt));
          upper = λ k lt. absurd (omega (arith, lt));
          arrays = λ k lt. absurd (omega (arith, lt));
        };
      } in
      let loaded : Agree t dep match_vid num_join_shards num_join_shards b' c' =
        subst (λ m. Agree t dep match_vid num_join_shards m b' c') (omega arith)
          (load_lists-Agree t dep match_vid num_join_shards rslt 0 num_join_shards b c none_yet) in
      select_pivot-Agree t dep match_vid num_join_shards num_join_shards 1 (num_join_shards - 1) b'
        c' some_list (omega (arith, some_list)) loaded

  pub selected-Keeps : (b : Block) → Keeps t dep match_vid num_join_shards b (selected b)
  selected-Keeps b =
      let b' = load_lists t dep match_vid num_join_shards rslt 0 num_join_shards b in
      Keeps-trans t dep match_vid num_join_shards b b' (selected b)
        (load_lists-Keeps t dep match_vid num_join_shards rslt 0 num_join_shards b fits
          (omega arith))
        (select_pivot-Keeps t dep match_vid num_join_shards 1 (num_join_shards - 1) b')

  unfoldable pub first_intersection : Block → Block × Option ℕ
  first_intersection b =
      set_intersection_initial t dep match_vid num_join_shards schedule block_idx rslt b

  -- At all depths but the last: the same pivot, the same range, and the same buffer.
  pub record Opens (p : ℕ) (x y : Block × Option ℕ) : Type 0 where
    pub joined : p < num_join_shards
    pub left : x.1 ≡ some (offset t dep match_vid num_join_shards p)
    pub right : y.1 ≡ some (offset t dep match_vid num_join_shards p)
    pub ranges : Ranges t dep match_vid num_join_shards num_join_shards x.0 y.0
    pub kind : x.0.is_type dep ≡ y.0.is_type dep
    pub buffer :
        (x.0.is_type dep ≡ single)
        ⊎ ((x.0.is_type dep ≡ shared_membuf)
            × (x.0.im_data dep ≡ y.0.im_data dep)
            × (x.0.im_size dep ≡ length (x.0.im_data dep)))

  pub record Starts (b : Block) (x y : Block × Option ℕ) : Type 0 where
    pub keeps : Keeps t dep match_vid num_join_shards b x.0
    pub size : x.0.im_size dep ≡ y.0.im_size dep
    pub opens :
        dep + 1 < t.num_query_vertices → t.num_query_vertices < 2 ^ 32 → (p : ℕ) × Opens p x y

  -- The single list
  abbrev one_list : Block → Block
  one_list b = record (selected b) {
    im_size = update (selected b).im_size dep ((selected b).vid_gap 0);
    is_type = update (selected b).is_type dep single;
  }

  initial_single :
      (not (dep == 0) && num_join_shards == 1) ≡ true
      → (b : Block) → first_intersection b ≡ (one_list b, some ((selected b).vid_gap_idx 0))
  unfolding set_intersection_initial first_intersection
  initial_single h b = rw h refl

  abbrev no_matches : Block → Block
  no_matches b = record (selected b) {
    im_size = update (selected b).im_size dep 0;
    is_type = update (selected b).is_type dep last;
  }

  initial_last :
      (not (dep == 0) && num_join_shards == 1) ≡ false
      → (dep == sub32 t.num_query_vertices 1) ≡ true
      → (b : Block)
      → let e_id = t.eids ((selected b).vid_gap_idx 0) in
        first_intersection b ≡ (
          count_matches t dep match_vid num_join_shards
              ((selected b).vid_gap_idx 0)
              (schedule
                ((selected b).min_iter_per_shard dep e_id)
                ((selected b).max_iter_per_shard dep e_id))
              (no_matches b),
          none,
        )
  unfolding set_intersection_initial first_intersection
  initial_last h l b = rw (h, l) refl

  unfoldable pub to_fill : Block → Block
  to_fill b =
      let b' = record (selected b) { is_type = update (selected b).is_type dep shared_membuf } in
      if dep == 0
      then restrict_to_block t dep match_vid num_join_shards block_idx
          (t.eids ((selected b).vid_gap_idx 0)) b'
      else b'

  initial_more :
      (not (dep == 0) && num_join_shards == 1) ≡ false
      → (dep == sub32 t.num_query_vertices 1) ≡ false
      → (b : Block)
      → first_intersection b ≡ (
        store_chunk t dep match_vid num_join_shards schedule
            ((selected b).vid_gap_idx 0)
            (to_fill b),
        some ((selected b).vid_gap_idx 0),
      )
  unfolding set_intersection_initial first_intersection to_fill
  initial_more h l b = rw (h, l) refl

  pub pivot_of :
      (b c : Block)
      → (p : ℕ) × (p < num_join_shards)
        × ((selected b).vid_gap_idx 0 ≡ offset t dep match_vid num_join_shards p)
        × ((selected c).vid_gap_idx 0 ≡ offset t dep match_vid num_join_shards p)
  pivot_of b c =
      let (p, lt, idx, _) = pivot-shortest t dep match_vid num_join_shards rslt c some_list in
      (p, lt, (selected-Agree b c).idx 0 some_list ∙ idx, idx)

  single-Starts :
      (not (dep == 0) && num_join_shards == 1) ≡ true
      → (b c : Block)
      → Starts b
          (one_list b, some ((selected b).vid_gap_idx 0))
          (one_list c, some ((selected c).vid_gap_idx 0))
  single-Starts h b c =
      let (p, lt, left, right) = pivot_of b c in
      let agree = selected-Agree b c in
      let at : (dep == dep) ≡ true = ground arith in
      let sized = record (selected b) {
        im_size = update (selected b).im_size dep ((selected b).vid_gap 0);
      } in
      record {
        keeps =
            Keeps-trans t dep match_vid num_join_shards b (selected b) (one_list b)
              (selected-Keeps b)
              (Keeps-trans t dep match_vid num_join_shards (selected b) sized (one_list b)
                (sizes-Keeps t dep match_vid num_join_shards ((selected b).vid_gap 0) (selected b))
                (type-Keeps t dep match_vid num_join_shards single sized));
        size = rw at (agree.gap 0 some_list);
        opens = λ inner small. (
          p,
          record {
            joined = lt;
            left = ap some left;
            right = ap some right;
            ranges = record {
              lower = agree.ranges.lower;
              upper = agree.ranges.upper;
              arrays = agree.ranges.arrays;
            };
            kind = rw at refl;
            buffer = inl (rw at refl);
          },
        );
      }

  last-Starts :
      (not (dep == 0) && num_join_shards == 1) ≡ false
      → (dep == sub32 t.num_query_vertices 1) ≡ true
      → (b c : Block) → Starts b (first_intersection b) (first_intersection c)
  last-Starts h l b c =
      let (p, lt, left, right) = pivot_of b c in
      let agree = selected-Agree b c in
      let at : (dep == dep) ≡ true = ground arith in
      let ranges : Ranges t dep match_vid num_join_shards num_join_shards (no_matches b)
          (no_matches c) =
        record {
          lower = agree.ranges.lower;
          upper = agree.ranges.upper;
          arrays = agree.ranges.arrays;
        } in
      let is =
        schedule
          ((selected c).min_iter_per_shard dep (t.eids (offset t dep match_vid num_join_shards p)))
          ((selected c).max_iter_per_shard dep
            (t.eids (offset t dep match_vid num_join_shards p))) in
      let pivot = offset t dep match_vid num_join_shards p in
      let sized = record (selected b) { im_size = update (selected b).im_size dep 0 } in
      rw
        (
          initial_last h l b,
          initial_last h l c,
          left,
          right,
          agree.ranges.lower p lt,
          agree.ranges.upper p lt,
        )
        (record {
          keeps = Keeps-trans t dep match_vid num_join_shards b (selected b) _ (selected-Keeps b) (
              Keeps-trans t dep match_vid num_join_shards (selected b) sized _
                (sizes-Keeps t dep match_vid num_join_shards 0 (selected b))
                (Keeps-trans t dep match_vid num_join_shards sized (no_matches b) _
                  (type-Keeps t dep match_vid num_join_shards last sized)
                  (count_matches-Keeps t dep match_vid num_join_shards pivot is (no_matches b))));
          size =
              count_matches-Ranges t dep match_vid num_join_shards p lt is (no_matches b)
                (no_matches c) ranges (rw at refl);
          opens = λ inner small. absurd (ground arith);
        })

  to_fill-Ranges :
      (p : ℕ) (b c : Block)
      → p < num_join_shards
      → (selected b).vid_gap_idx 0 ≡ offset t dep match_vid num_join_shards p
      → (selected c).vid_gap_idx 0 ≡ offset t dep match_vid num_join_shards p
      → Ranges t dep match_vid num_join_shards num_join_shards (to_fill b) (to_fill c)
  unfolding to_fill
  to_fill-Ranges p b c lt left right =
      let agree = selected-Agree b c in
      let b' = record (selected b) { is_type = update (selected b).is_type dep shared_membuf } in
      let c' = record (selected c) { is_type = update (selected c).is_type dep shared_membuf } in
      let ranges : Ranges t dep match_vid num_join_shards num_join_shards b' c' = record {
        lower = agree.ranges.lower;
        upper = agree.ranges.upper;
        arrays = agree.ranges.arrays;
      } in
      elim (Bool-cases (dep == 0)) [
        | inl top ↦
            rw (top, left, right)
              (restrict_to_block-Ranges t dep match_vid num_join_shards p lt block_idx b' c'
                (agree.gap 0 some_list) ranges)
        | inr below ↦ rw below ranges
      ]

  to_fill-Keeps : (b : Block) → Keeps t dep match_vid num_join_shards b (to_fill b)
  unfolding restrict_to_block to_fill
  to_fill-Keeps b =
      let b' = record (selected b) { is_type = update (selected b).is_type dep shared_membuf } in
      let e_id = t.eids ((selected b).vid_gap_idx 0) in
      let before =
        Keeps-trans t dep match_vid num_join_shards b (selected b) b' (selected-Keeps b)
          (type-Keeps t dep match_vid num_join_shards shared_membuf (selected b)) in
      elim (Bool-cases (dep == 0)) [
        | inl top ↦ rw top (
            Keeps-trans t dep match_vid num_join_shards b b' _ before
              (restrict_to_block-Keeps t dep match_vid num_join_shards block_idx e_id b'))
        | inr below ↦ rw below before
      ]

  pub to_fill-is_type : (b : Block) → (to_fill b).is_type dep ≡ shared_membuf
  unfolding restrict_to_block to_fill
  to_fill-is_type b =
      let at : (dep == dep) ≡ true = ground arith in
      elim (Bool-cases (dep == 0)) [ inl top ↦ rw (top, at) refl | inr below ↦ rw (below, at) refl ]

  more-Starts :
      (not (dep == 0) && num_join_shards == 1) ≡ false
      → (dep == sub32 t.num_query_vertices 1) ≡ false
      → (b c : Block) → Starts b (first_intersection b) (first_intersection c)
  more-Starts h l b c =
      let (p, lt, left, right) = pivot_of b c in
      let pivot = offset t dep match_vid num_join_shards p in
      let ranges = to_fill-Ranges p b c lt left right in
      let (data_of, after) =
        store_chunk-Ranges t dep match_vid num_join_shards p lt schedule (to_fill b) (to_fill c)
          ranges in
      let x = store_chunk-Stored t dep match_vid num_join_shards pivot schedule (to_fill b) in
      let y = store_chunk-Stored t dep match_vid num_join_shards pivot schedule (to_fill c) in
      let type_at = λ (z : Block).
        ap (λ (f : ℕ → IntersectionType). f dep)
          (store_chunk-is_type t dep match_vid num_join_shards schedule pivot (to_fill z))
        ∙ to_fill-is_type z in
      rw (initial_more h l b, initial_more h l c, left, right)
        (record {
          keeps =
              Keeps-trans t dep match_vid num_join_shards b (to_fill b) _ (to_fill-Keeps b)
                (store_chunk-Keeps t dep match_vid num_join_shards schedule pivot (to_fill b));
          size = x.size_of ∙ ap length data_of ∙ sym y.size_of;
          opens = λ inner small. (
            p,
            record {
              joined = lt;
              left = refl;
              right = refl;
              ranges = after;
              kind = type_at b ∙ sym (type_at c);
              buffer = inr (type_at b, data_of, x.size_of);
            },
          );
        })

  -- Whatever the shared arrays hold before, the first intersection at a depth makes the same of it.
  pub initial-Starts : (b c : Block) → Starts b (first_intersection b) (first_intersection c)
  initial-Starts b c = elim (Bool-cases (not (dep == 0) && num_join_shards == 1)) [
    | inl one ↦ rw (initial_single one b, initial_single one c) (single-Starts one b c)
    | inr many ↦ elim (Bool-cases (dep == sub32 t.num_query_vertices 1)) [
      | inl at_last ↦ last-Starts many at_last b c
      | inr inner ↦ more-Starts many inner b c
    ]
  ]
