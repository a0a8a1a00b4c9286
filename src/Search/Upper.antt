-- ===== src/Search/Upper.antt =====
-- `upper_bound_on_*` of source/cuMatch/kernel_aux_tools.cu.
use cu_match.Prelude.{
  ℕ, zero, suc, ◌+◌, ◌-◌, ◌/◌, ◌^◌, ◌≤◌, ◌<◌, ◌≡◌, ◌≢◌, ◌↔◌, ◌⊎◌, Bool, true, Option, none, some,
  arith, ltb, leb, ◌==◌, if◌then◌else◌, Bool-cases, inl, inr,
}
use cu_match.Search.Lower.{Sorted}

-- The `while` loop on `int32_t`. `lo1` is the source's `lo + 1`, since `lo` starts at `start - 1`,
-- which is -1 for `start == 0`. A sum past 2 ^ 31 would be a signed overflow: `none`.
upper_loop : ℕ → (ℕ → ℕ) → ℕ → ℕ → ℕ → Option ℕ
upper_loop zero read key lo1 hi = some hi
upper_loop (suc fuel) read key lo1 hi =
    let mid = (lo1 + hi - 1) / 2 in
    let goes_left = leb key (read mid) in
    let rest =
      upper_loop fuel read key (if goes_left then lo1 else mid + 1)
        (if goes_left then mid else hi) in
    let step = if ltb (lo1 + hi - 1) (2 ^ 31) then rest else none in
    if ltb lo1 hi then step else some hi

-- For `end == 0` the index would be -1, in front of the array: `none`.
unfoldable pub upper_bound : (ℕ → ℕ) → ℕ → ℕ → ℕ → Option (Bool × ℕ)
unfolding upper_loop
upper_bound read key start end =
    if end == 0 then none else elim (upper_loop (end - start) read key start (end - 1)) [
      | none ↦ none
      | some hi ↦ some (key == read hi, hi)
    ]

record Lands (read : ℕ → ℕ) (key lo1 hi r : ℕ) : Type 0 where
  above : lo1 ≤ r
  below : r ≤ hi
  reached : r ≢ hi → key ≤ read r
  stopped : (r ≡ lo1) ⊎ (read (r - 1) < key)

upper_loop-Lands :
    (fuel : ℕ) (read : ℕ → ℕ) (key lo1 hi : ℕ)
    → lo1 ≤ hi
    → hi < 2 ^ 30
    → hi ≤ lo1 + fuel
    → (r : ℕ) × (upper_loop fuel read key lo1 hi ≡ some r) × Lands read key lo1 hi r
unfolding upper_loop
upper_loop-Lands zero read key lo1 hi h b f = (hi, ground arith, ground arith)
upper_loop-Lands (suc fuel) read key lo1 hi h b f =
    let mid = (lo1 + hi - 1) / 2 in
    elim (Bool-cases (ltb lo1 hi)) [
      | inr done ↦ (hi, ground arith, ground arith)
      | inl more ↦ elim (Bool-cases (leb key (read mid))) [
        | inl left ↦
            let (r, e, l) =
              upper_loop-Lands fuel read key lo1 mid (ground arith) (ground arith) (ground arith) in
            (r, ground arith, ground arith)
        | inr right ↦
            let (r, e, l) =
              upper_loop-Lands fuel read key (mid + 1) hi (ground arith) b (ground arith) in
            (r, ground arith, ground arith)
      ]
    ]

-- Over a sorted, non-empty range that ends at 2 ^ 30 at most no signed sum overflows: the search
-- gives an index of the range, every element in front of it is below the key, and the result says
-- whether the key is in the range.
pub upper_bound_finds :
    (read : ℕ → ℕ) (key start end : ℕ)
    → start < end
    → end ≤ 2 ^ 30
    → Sorted read start end
    → (found : Bool) × (r : ℕ) × (upper_bound read key start end ≡ some (found, r))
      × (start ≤ r)
      × (r < end)
      × ((i : ℕ) → start ≤ i → i < r → read i < key)
      × ((found ≡ true) ↔ ((i : ℕ) × (start ≤ i) × (i < end) × (read i ≡ key)))
unfolding upper_bound
upper_bound_finds read key start end h b sorted =
    let (r, e, l) =
      upper_loop-Lands (end - start) read key start (end - 1) (omega arith) (omega arith)
        (omega arith) in
    let before : (i : ℕ) → start ≤ i → i < r → read i < key =
      λ i p q. ground (arith, l.stopped, l.below, sorted i (r - 1)) in
    (
      key == read r,
      r,
      ground arith,
      l.above,
      omega (arith, l.below),
      before,
      (
        λ found. (r, l.above, omega (arith, l.below), ground arith),
        λ (i, p, q, same). ground (arith, before i, sorted r i, l.reached, l.below),
      ),
    )
