-- ===== src/TableJoin/Ranges.antt =====
-- The indices of a list of source/cuMatch/table_join_kernel_basic.cu, which the threads take in the
-- order of a schedule: what is counted over them hangs on the range alone.
use cu_match.Prelude.{
  ℕ, zero, suc, ◌+◌, ◌≤◌, ◌<◌, ◌≡◌, ◌∙◌, refl, Bool, List, [], ◌∷◌, count, ltb, leb, ◌&&◌,
  if◌then◌else◌, ◌==◌, arith, Bool-cases, inl, inr,
}
use cu_match.Kernel.Rounds.{IsSchedule}

module _ (fits : ℕ → Bool) where
  -- How many of these indices fit
  abbrev pub how_many : List ℕ → ℕ
  how_many [] = 0
  how_many (i ∷ is) = let rest = how_many is in if fits i then rest + 1 else rest

  -- How many of the `n` indices from `lo` on fit
  abbrev pub how_many_from : ℕ → ℕ → ℕ
  how_many_from lo zero = 0
  how_many_from lo (suc n) =
      let rest = how_many_from (lo + 1) n in if fits lo then rest + 1 else rest

  -- The same, each index as often as it stands in the list
  abbrev weighted : List ℕ → ℕ → ℕ → ℕ
  weighted is lo zero = 0
  weighted is lo (suc n) =
      let rest = weighted is (lo + 1) n in if fits lo then rest + count lo is else rest

  weighted-nil : (lo n : ℕ) → weighted [] lo n ≡ 0
  weighted-nil lo zero = refl
  weighted-nil lo (suc n) = ground (arith, weighted-nil (lo + 1) n)

  weighted-cons :
      (i : ℕ) (is : List ℕ) (lo n : ℕ)
      → weighted (i ∷ is) lo n
        ≡ weighted is lo n + (if leb lo i && ltb i (lo + n) then (if fits i then 1 else 0) else 0)
  weighted-cons i is lo zero = ground arith
  weighted-cons i is lo (suc n) = elim (Bool-cases (i == lo)) [
    | inl same ↦
        let at : i ≡ lo = ground (arith, same) in
        rw at (ground (arith, weighted-cons i is (lo + 1) n))
    | inr other ↦ ground (arith, weighted-cons i is (lo + 1) n)
  ]

  how_many-weighted :
      (is : List ℕ) (lo n : ℕ)
      → ((i : ℕ) → 0 < count i is → (lo ≤ i) × (i < lo + n))
      → how_many is ≡ weighted is lo n
  how_many-weighted [] lo n inside = ground (arith, weighted-nil lo n)
  how_many-weighted (i ∷ is) lo n inside =
      let here = inside i (ground arith) in
      let rest = how_many-weighted is lo n (λ k lt. inside k (ground (arith, lt))) in
      ground (arith, weighted-cons i is lo n)

  weighted-once :
      (is : List ℕ) (lo n : ℕ)
      → ((i : ℕ) → lo ≤ i → i < lo + n → count i is ≡ 1)
      → weighted is lo n ≡ how_many_from lo n
  weighted-once is lo zero once = refl
  weighted-once is lo (suc n) once =
      let rest =
        weighted-once is (lo + 1) n (λ i le lt. once i (omega (arith, le)) (omega (arith, lt))) in
      let here = once lo (omega arith) (omega arith) in ground arith

  -- Over the indices from `lo` to `hi`, of which there are `n`
  pub how_many-schedule :
      (schedule : ℕ → ℕ → List ℕ) (lo hi n : ℕ)
      → IsSchedule schedule
      → lo + n ≡ hi + 1
      → how_many (schedule lo hi) ≡ how_many_from lo n
  how_many-schedule schedule lo hi n s e =
      let inside : (i : ℕ) → 0 < count i (schedule lo hi) → (lo ≤ i) × (i < lo + n) =
        λ i lt. ground (arith, s.once lo hi i, lt, e) in
      let once : (i : ℕ) → lo ≤ i → i < lo + n → count i (schedule lo hi) ≡ 1 =
        λ i le lt. ground (arith, s.once lo hi i, le, lt, e) in
      how_many-weighted (schedule lo hi) lo n inside ∙ weighted-once (schedule lo hi) lo n once
