-- ===== src/Optional/Firsts.antt =====
-- The first intersection of source/cuMatch/LFTJ_kernel_optional.cu at the depths above the last: the
-- buffer that it makes.
use cu_match.Prelude.{
  ℕ, ◌+◌, ◌<◌, ◌≡◌, ◌⊎◌, refl, ap, sym, ◌∙◌, true, false, List, [], ◌++◌, length, ◌==◌, min, update,
  arith, Bool-cases, inl, inr, some, Option,
}
use cu_match.Kernel.{Task, Block, IntersectionType, shared_membuf, single, add32, sub32}
use cu_match.Kernel.Intersect.{offset, matches, store_matches-matches}
use cu_match.KernelLoop.Basic.Agree.{Fits}
use cu_match.KernelLoop.Basic.Keep.{store_matches-is_type}
use cu_match.KernelLoop.Basic.Starts.{selected, pivot_of, to_fill, to_fill-is_type}
use cu_match.Optional.{
  OptionalInfo, sm_threshold_opt, store_short_chunk, set_intersection_initial_optional,
}
use cu_match.Optional.Last.{direct, first_optional, empty_list}

module _ (t : Task) (info : OptionalInfo) (dep match_vid num_join_shards : ℕ)
    (schedule : ℕ → ℕ → List ℕ) (block_idx : ℕ) (rslt : ℕ → ℕ)
    (fits : Fits t dep match_vid num_join_shards) (some_list : 0 < num_join_shards) where
  abbrev list_of : Block → Block
  list_of b = selected t dep match_vid num_join_shards schedule block_idx rslt fits some_list b

  abbrev made : Block → Block × Option ℕ
  made b =
      first_optional t info dep match_vid num_join_shards schedule block_idx rslt fits some_list b

  first_direct :
      (b : Block)
      → direct t info dep match_vid num_join_shards schedule block_idx rslt fits some_list
          ((list_of b).vid_gap 0)
        ≡ true
      → made b ≡ (
        empty_list t info dep match_vid num_join_shards schedule block_idx rslt fits some_list b,
        some ((list_of b).vid_gap_idx 0),
      )
  unfolding first_optional set_intersection_initial_optional
  first_direct b e = rw e refl

  first_more :
      (b : Block)
      → direct t info dep match_vid num_join_shards schedule block_idx rslt fits some_list
          ((list_of b).vid_gap 0)
        ≡ false
      → (dep == sub32 t.num_query_vertices 1) ≡ false
      → made b ≡ (
        store_short_chunk t info dep match_vid num_join_shards schedule
            ((list_of b).vid_gap_idx 0)
            (to_fill t dep match_vid num_join_shards schedule block_idx rslt fits some_list b),
        some ((list_of b).vid_gap_idx 0),
      )
  unfolding first_optional set_intersection_initial_optional to_fill
  first_more b e inner = rw (e, inner) refl

  -- A buffer in shared memory holds as many vertices as its size says.
  stored :
      (pivot : ℕ) (b : Block)
      → let b' = store_short_chunk t info dep match_vid num_join_shards schedule pivot b in
        (b'.im_size dep ≡ length (b'.im_data dep)) × (b'.is_type ≡ b.is_type)
  unfolding store_short_chunk
  stored pivot b =
      let at : (dep == dep) ≡ true = ground arith in
      let lo = b.min_iter_per_shard dep (t.eids pivot) in
      let max_value =
        min (b.max_iter_per_shard dep (t.eids pivot)) (sub32 (add32 lo sm_threshold_opt) 1) in
      let c = record b { im_size = update b.im_size dep 0; im_data = update b.im_data dep [] } in
      let (data_of, size_of) =
        store_matches-matches t dep match_vid num_join_shards pivot (schedule lo max_value) c in
      let none_yet : c.im_size dep ≡ 0 = rw at refl in
      let no_data : c.im_data dep ≡ [] = rw at refl in
      let found = matches t dep match_vid num_join_shards c pivot (schedule lo max_value) in
      (
        size_of
            ∙ ap (λ n. n + length found) none_yet
            ∙ omega arith
            ∙ ap length (sym (data_of ∙ ap (λ (l : List ℕ). l ++ found) no_data)),
        store_matches-is_type t dep match_vid num_join_shards pivot (schedule lo max_value) c,
      )

  -- Above the last depth, the first intersection names the list that it takes as the pivot, and the
  -- vertices stand in this list, or in the buffer.
  pub first_optional-inner :
      (b : Block)
      → (dep == sub32 t.num_query_vertices 1) ≡ false
      → (p : ℕ) × (p < num_join_shards)
        × ((made b).1 ≡ some (offset t dep match_vid num_join_shards p))
        × (((made b).0.is_type dep ≡ single)
            ⊎ (((made b).0.is_type dep ≡ shared_membuf)
                × ((made b).0.im_size dep ≡ length ((made b).0.im_data dep))))
  first_optional-inner b inner =
      let (p, lt, left, _) =
        pivot_of t dep match_vid num_join_shards schedule block_idx rslt fits some_list b b in
      let at : (dep == dep) ≡ true = ground arith in
      let filled =
        to_fill t dep match_vid num_join_shards schedule block_idx rslt fits some_list b in
      elim (Bool-cases (
        direct t info dep match_vid num_join_shards schedule block_idx rslt fits some_list
          ((list_of b).vid_gap 0))) [
            | inl alone ↦ (
              p,
              lt,
              rw (first_direct b alone, left) refl,
              rw (first_direct b alone) (inl (rw at refl)),
            )
            | inr more ↦
                let (size_of, type_of) = stored ((list_of b).vid_gap_idx 0) filled in
                let kind =
                  ap (λ (f : ℕ → IntersectionType). f dep) type_of
                  ∙ to_fill-is_type t dep match_vid num_join_shards schedule block_idx rslt fits
                      some_list b in
                (
                  p,
                  lt,
                  rw (first_more b more inner, left) refl,
                  rw (first_more b more inner) (inr (kind, size_of)),
                )
          ]
