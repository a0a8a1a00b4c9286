-- ===== src/Tests/Arrays.antt =====
-- The arrays of include/gstream/flip24_array.h and the searches, on small inputs.
use cu_match.Prelude.{
  ℕ, zero, suc, ◌+◌, ◌*◌, ◌^◌, ◌<◌, ◌≤◌, ◌≡◌, ◌≢◌, ◌↔◌, refl, Bool, true, some, arith,
}
use cu_match.Flip24.{Memory, read_high_bits, read_element, write_element, swap_elements}
use cu_match.Flip24.Layout
use cu_match.Search.{
  Sorted, upper_bound, lower_bound_on_flip24_array, lower_bound_on_flip24_array_finds,
}
use cu_match.Search.Upper.{upper_bound_finds}

abbrev zero_bytes : Memory
zero_bytes p = 0

-- 1, 2, 3 and 2, 3, 5
abbrev pub one_two_three : Memory
one_two_three = write_element (write_element (write_element zero_bytes 0 1 0) 1 2 0) 2 3 0

abbrev pub two_three_five : Memory
two_three_five = write_element (write_element (write_element zero_bytes 0 2 0) 1 3 0) 2 5 0

pub Sorted-three : (read : ℕ → ℕ) → read 0 ≤ read 1 → read 1 ≤ read 2 → Sorted read 0 3
Sorted-three read a b zero zero p q r = omega arith
Sorted-three read a b zero (suc zero) p q r = a
Sorted-three read a b zero (suc (suc zero)) p q r = omega arith
Sorted-three read a b (suc zero) (suc zero) p q r = omega arith
Sorted-three read a b (suc zero) (suc (suc zero)) p q r = b
Sorted-three read a b (suc (suc zero)) (suc (suc zero)) p q r = omega arith
Sorted-three read a b i (suc (suc (suc j))) p q r = absurd (omega arith)
Sorted-three read a b (suc i) zero p q r = absurd (omega arith)
Sorted-three read a b (suc (suc i)) (suc zero) p q r = absurd (omega arith)
Sorted-three read a b (suc (suc (suc i))) (suc (suc zero)) p q r = absurd (omega arith)

pub two_three_five-Sorted : Sorted (read_element two_three_five) 0 3
unfolding read_element write_element
two_three_five-Sorted = Sorted-three (read_element two_three_five) (omega arith) (omega arith)

read_element-write_element_example :
    (read_element (write_element two_three_five 1 7 2) 1 ≡ 2 * 2 ^ 16 + 7)
    × (◌≢◌ {A = ℕ} 2 1
        → read_element (write_element two_three_five 1 7 2) 2 ≡ read_element two_three_five 2)
read_element-write_element_example =
    Layout.read_element-write_element two_three_five 1 2 7 2 (omega arith) (omega arith)

two_three_five-bytes : (q : ℕ) → two_three_five q < 256
unfolding write_element
two_three_five-bytes q = ground arith

swap_elements_damage_example :
    (read_high_bits (swap_elements two_three_five 0 2) 1 ≡ read_high_bits two_three_five 3)
    × (swap_elements two_three_five 0 2 1 ≡ two_three_five 1)
swap_elements_damage_example =
    Layout.swap_elements_damage two_three_five 0 2 two_three_five-bytes refl refl (omega arith)

lower_bound_on_flip24_array_finds_example :
    (0 ≤ (lower_bound_on_flip24_array two_three_five 4 0 3).1)
    × ((lower_bound_on_flip24_array two_three_five 4 0 3).1 < 3)
    × (((lower_bound_on_flip24_array two_three_five 4 0 3).0 ≡ true)
        ↔ ((i : ℕ) × (0 ≤ i) × (i < 3) × (read_element two_three_five i ≡ 4)))
lower_bound_on_flip24_array_finds_example =
    lower_bound_on_flip24_array_finds two_three_five 4 0 3 (omega arith) (omega arith)
      two_three_five-Sorted

upper_bound_finds_example :
    (found : Bool) × (r : ℕ) × (upper_bound (read_element two_three_five) 5 0 3 ≡ some (found, r))
    × (0 ≤ r)
    × (r < 3)
    × ((i : ℕ) → 0 ≤ i → i < r → read_element two_three_five i < 5)
    × ((found ≡ true) ↔ ((i : ℕ) × (0 ≤ i) × (i < 3) × (read_element two_three_five i ≡ 5)))
upper_bound_finds_example =
    upper_bound_finds (read_element two_three_five) 5 0 3 (omega arith) (omega arith)
      two_three_five-Sorted
