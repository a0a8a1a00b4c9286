-- ===== src/Kernel/Pivot.antt =====
-- The choice of the pivot list, and its division among the blocks, in
-- source/cuMatch/LFTJ_kernel_basic.cu.
use cu_match.Prelude.{
  ℕ, zero, suc, ◌+◌, ◌-◌, ◌≤◌, ◌<◌, ◌≡◌, ◌≢◌, ◌⊎◌, inl, inr, refl, ◌∙◌, ltb, ◌==◌, if◌then◌else◌,
  arith, Bool-cases,
}
use cu_match.Kernel.{Task, Block, load_list, load_lists, keep_shorter, select_pivot}

module _ (t : Task) (dep match_vid num_join_shards : ℕ) where
  load_list-vid_gap_idx :
      (rslt : ℕ → ℕ) (i k : ℕ) (b : Block)
      → (load_list t dep match_vid num_join_shards rslt i b).vid_gap_idx k
        ≡ (if k == i then t.prefix_sum_degree match_vid + i else b.vid_gap_idx k)
  unfolding load_list
  load_list-vid_gap_idx rslt i k b = ground arith

  -- After the loads each slot names the edge that its list belongs to.
  load_lists-vid_gap_idx :
      (rslt : ℕ → ℕ) (i n k : ℕ) (b : Block)
      → ((i ≤ k
            → k < i + n
            → (load_lists t dep match_vid num_join_shards rslt i n b).vid_gap_idx k
              ≡ t.prefix_sum_degree match_vid + k)
          × (k < i
              → (load_lists t dep match_vid num_join_shards rslt i n b).vid_gap_idx k
                ≡ b.vid_gap_idx k))
  unfolding load_lists
  load_lists-vid_gap_idx rslt i zero k b = (λ p q. absurd (omega arith), λ _. refl)
  load_lists-vid_gap_idx rslt i (suc n) k b = ground (
    arith,
    load_list-vid_gap_idx rslt i k b,
    load_lists-vid_gap_idx rslt (i + 1) n k (load_list t dep match_vid num_join_shards rslt i b),
  )

  keep_shorter_lem :
      (i : ℕ) (b : Block)
      → ((keep_shorter t dep match_vid num_join_shards i b).vid_gap 0 ≤ b.vid_gap 0)
        × ((keep_shorter t dep match_vid num_join_shards i b).vid_gap 0 ≤ b.vid_gap i)
        × ((k : ℕ)
            → k ≢ 0
            → ((keep_shorter t dep match_vid num_join_shards i b).vid_gap k ≡ b.vid_gap k)
              × ((keep_shorter t dep match_vid num_join_shards i b).vid_gap_idx k
                  ≡ b.vid_gap_idx k))
        × ((k : ℕ) × ((k ≡ 0) ⊎ (k ≡ i))
            × ((keep_shorter t dep match_vid num_join_shards i b).vid_gap 0 ≡ b.vid_gap k)
            × ((keep_shorter t dep match_vid num_join_shards i b).vid_gap_idx 0 ≡ b.vid_gap_idx k))
  unfolding keep_shorter
  keep_shorter_lem i b = elim (Bool-cases (ltb (b.vid_gap i) (b.vid_gap 0))) [
    | inl shorter ↦ (
      ground arith,
      ground arith,
      λ k h. (ground arith, ground arith),
      (i, inr refl, ground arith, ground arith),
    )
    | inr longer ↦ (
      ground arith,
      ground arith,
      λ k h. (ground arith, ground arith),
      (0, inl refl, ground arith, ground arith),
    )
  ]

  -- Slot 0 ends with the least of the lengths, and with the edge of a list of that length.
  select_pivot_least :
      (i n : ℕ) (b : Block)
      → 0 < i
      → ((select_pivot t dep match_vid num_join_shards i n b).vid_gap 0 ≤ b.vid_gap 0)
        × ((k : ℕ)
            → i ≤ k
            → k < i + n
            → (select_pivot t dep match_vid num_join_shards i n b).vid_gap 0 ≤ b.vid_gap k)
        × ((k : ℕ) × ((k ≡ 0) ⊎ ((i ≤ k) × (k < i + n)))
            × ((select_pivot t dep match_vid num_join_shards i n b).vid_gap 0 ≡ b.vid_gap k)
            × ((select_pivot t dep match_vid num_join_shards i n b).vid_gap_idx 0
                ≡ b.vid_gap_idx k))
  unfolding select_pivot
  select_pivot_least i zero b h =
      (omega arith, λ k p q. absurd (omega arith), (0, inl refl, refl, refl))
  select_pivot_least i (suc n) b h =
      let (below, below_i, kept, (j, from, gap, idx)) = keep_shorter_lem i b in
      let (least, least_rest, (k, range, gap', idx')) =
        select_pivot_least (i + 1) n (keep_shorter t dep match_vid num_join_shards i b)
          (omega arith) in
      (
        omega arith,
        λ m p q. elim (Bool-cases (m == i)) [
          | inl e ↦ ground arith
          | inr ne ↦
              let (same, _) = kept m (omega arith) in
              let r = least_rest m (ground arith) (omega arith) in omega arith
        ],
        elim range [
          | inl z ↦ (
            j,
            elim from [ inl z' ↦ inl z' | inr e ↦ inr (omega arith, omega arith) ],
            gap' ∙ rw z gap,
            idx' ∙ rw z idx,
          )
          | inr (p, q) ↦
              let (same, same_idx) = kept k (omega arith) in
              (k, inr (omega arith, omega arith), gap' ∙ same, idx' ∙ same_idx)
        ],
      )

  -- Of one or more joined lists, the pivot is one, and none of them is shorter.
  pub pivot-shortest :
      (rslt : ℕ → ℕ) (b : Block)
      → 0 < num_join_shards
      → (k : ℕ) × (k < num_join_shards)
        × ((select_pivot t dep match_vid num_join_shards 1
                (num_join_shards - 1)
                (load_lists t dep match_vid num_join_shards rslt 0 num_join_shards b)).vid_gap_idx
              0
            ≡ t.prefix_sum_degree match_vid + k)
        × ((j : ℕ)
            → j < num_join_shards
            → (load_lists t dep match_vid num_join_shards rslt 0 num_join_shards b).vid_gap k
              ≤ (load_lists t dep match_vid num_join_shards rslt 0 num_join_shards b).vid_gap j)
  pivot-shortest rslt b h =
      let loaded = load_lists t dep match_vid num_join_shards rslt 0 num_join_shards b in
      let (least, least_rest, (k, range, gap, idx)) =
        select_pivot_least 1 (num_join_shards - 1) loaded (omega arith) in
      let lt : k < num_join_shards = omega arith in
      (
        k,
        lt,
        idx ∙ (load_lists-vid_gap_idx rslt 0 num_join_shards k b).0 (omega arith) (omega arith),
        λ j p. elim (Bool-cases (j == 0)) [
          | inl z ↦ ground arith
          | inr nz ↦ let r = least_rest j (ground arith) (omega arith) in omega arith
        ],
      )
