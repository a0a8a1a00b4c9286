-- ===== src/Search.antt =====
-- The binary searches of source/cuMatch/kernel_aux_tools.cu over a sorted range [start, end). The
-- six functions differ in what they read: the loops stand in the children once, over `read`.
pub mod Lower
pub mod Upper
use cu_match.Prelude.{ℕ, ◌≤◌, ◌<◌, ◌≡◌, ◌^◌, ◌↔◌, Bool, true, Option}
use cu_match.Flip24.{Memory, read_element}
pub use Lower.{Sorted, lower_bound_finds, lower_bound_empty}
unfoldable pub use Lower.{lower_bound, lower_loop}
pub use Upper.{upper_bound_finds}
unfoldable pub use Upper.{upper_bound}

-- The searches over an array of 24-bit elements at `arr`.
unfoldable pub lower_bound_on_flip24_array : Memory → ℕ → ℕ → ℕ → Bool × ℕ
lower_bound_on_flip24_array arr = lower_bound (read_element arr)

pub upper_bound_on_flip24_array : Memory → ℕ → ℕ → ℕ → Option (Bool × ℕ)
upper_bound_on_flip24_array arr = upper_bound (read_element arr)

-- Over a sorted, non-empty range of the array that ends at 2 ^ 31 at most, the kernels' search says
-- whether the key is in the range, and gives an index of it.
pub lower_bound_on_flip24_array_finds :
    (arr : Memory) (key start end : ℕ)
    → start < end
    → end ≤ 2 ^ 31
    → Sorted (read_element arr) start end
    → (start ≤ (lower_bound_on_flip24_array arr key start end).1)
      × ((lower_bound_on_flip24_array arr key start end).1 < end)
      × (((lower_bound_on_flip24_array arr key start end).0 ≡ true)
          ↔ ((i : ℕ) × (start ≤ i) × (i < end) × (read_element arr i ≡ key)))
unfolding lower_bound_on_flip24_array
lower_bound_on_flip24_array_finds arr key start end h b sorted =
    let (p, q, _, r) = lower_bound_finds (read_element arr) key start end h b sorted in (p, q, r)
