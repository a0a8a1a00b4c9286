-- ===== src/Search/Lower.antt =====
-- `lower_bound_on_*` of source/cuMatch/kernel_aux_tools.cu.
use cu_match.Prelude.{
  ℕ, zero, suc, ◌+◌, ◌-◌, ◌/◌, ◌%◌, ◌^◌, ◌≤◌, ◌<◌, ◌≡◌, ◌≢◌, ◌↔◌, ◌⊎◌, ap, Bool, true, arith, ltb,
  leb, ◌==◌, if◌then◌else◌,
}

-- No element of [start, end) is above a later one.
abbrev pub Sorted : (ℕ → ℕ) → ℕ → ℕ → Type 0
Sorted read start end = (i j : ℕ) → start ≤ i → i ≤ j → j < end → read i ≤ read j

-- The `while` loop on `uint32_t`; each round narrows [lo, hi), so its width is enough fuel.
unfoldable pub lower_loop : ℕ → (ℕ → ℕ) → ℕ → ℕ → ℕ → ℕ
lower_loop zero read key lo hi = lo
lower_loop (suc fuel) read key lo hi =
    let mid = (lo + hi) % 2 ^ 32 / 2 in
    let goes_right = leb (read mid) key in
    let rest =
      lower_loop fuel read key (if goes_right then mid else lo) (if goes_right then hi else mid) in
    if ltb ((lo + 1) % 2 ^ 32) hi then rest else lo

-- The result and the index that goes to `rslt`.
unfoldable pub lower_bound : (ℕ → ℕ) → ℕ → ℕ → ℕ → Bool × ℕ
unfolding lower_loop
lower_bound read key start end =
    let lo = lower_loop (end - start) read key start end in (key == read lo, lo)

record Lands (read : ℕ → ℕ) (key lo hi r : ℕ) : Type 0 where
  above : lo ≤ r
  below : r < hi
  reached : r ≢ lo → read r ≤ key
  stopped : (r + 1 ≡ hi) ⊎ (key < read (r + 1))

lower_loop-Lands :
    (fuel : ℕ) (read : ℕ → ℕ) (key lo hi : ℕ)
    → lo < hi
    → hi ≤ 2 ^ 31
    → hi ≤ lo + fuel
    → Lands read key lo hi (lower_loop fuel read key lo hi)
unfolding lower_loop
lower_loop-Lands zero read key lo hi h b f = absurd (omega arith)
lower_loop-Lands (suc fuel) read key lo hi h b f = ground (
  arith,
  lower_loop-Lands fuel read key ((lo + hi) % 2 ^ 32 / 2) hi,
  lower_loop-Lands fuel read key lo ((lo + hi) % 2 ^ 32 / 2),
)

-- Over a sorted, non-empty range that ends at 2 ^ 31 at most: the index lies in the range, no
-- element behind it is at most the key, and the result says whether the key is in the range.
pub lower_bound_finds :
    (read : ℕ → ℕ) (key start end : ℕ)
    → start < end
    → end ≤ 2 ^ 31
    → Sorted read start end
    → (start ≤ (lower_bound read key start end).1)
      × ((lower_bound read key start end).1 < end)
      × ((i : ℕ) → (lower_bound read key start end).1 < i → i < end → key < read i)
      × (((lower_bound read key start end).0 ≡ true)
          ↔ ((i : ℕ) × (start ≤ i) × (i < end) × (read i ≡ key)))
unfolding lower_bound
lower_bound_finds read key start end h b sorted =
    let r = lower_loop (end - start) read key start end in
    let l = lower_loop-Lands (end - start) read key start end h b (omega arith) in
    let behind : (i : ℕ) → r < i → i < end → key < read i =
      λ i p q. ground (arith, l.stopped, sorted (r + 1) i) in
    (
      l.above,
      l.below,
      behind,
      (
        λ found. (r, l.above, l.below, ground arith),
        λ (i, p, q, e). ground (arith, behind i, sorted i r, l.reached, l.above),
      ),
    )

-- Over an empty range it tells whether the element behind the range is the key.
pub lower_bound_empty :
    (read : ℕ → ℕ) (key start : ℕ) → (lower_bound read key start start).0 ≡ (key == read start)
unfolding lower_bound lower_loop
lower_bound_empty read key start =
    let none : start - start ≡ 0 = omega arith in
    ap (λ n. key == read (lower_loop n read key start start)) none
