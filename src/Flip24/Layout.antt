-- ===== src/Flip24/Layout.antt =====
-- Reads and writes of 24-bit elements (include/gstream/flip24_array.h) against each other.
use cu_match.Prelude.{
  ℕ, zero, suc, ◌+◌, ◌*◌, ◌%◌, ◌^◌, ◌<◌, ◌≤◌, ◌≡◌, ◌≢◌, ◌⊎◌, inl, inr, refl, ◌∙◌, arith, Bool-cases,
  ==_iff, ◌==◌,
}
use cu_match.Flip24.{
  Memory, read_high_bits, read_element, read_element2, write_element, fill_from, fill, zerofill,
  swap_elements,
}

-- The three bytes of an element, whatever the parity of its index.
pub read_element_bytes :
    (m n : Memory) (j : ℕ)
    → (n (3 * j) ≡ m (3 * j))
    → (n (3 * j + 1) ≡ m (3 * j + 1))
    → (n (3 * j + 2) ≡ m (3 * j + 2))
    → read_element n j ≡ read_element m j
unfolding read_element
read_element_bytes m n j a b c = ground arith

read_element-write_element_self :
    (m : Memory) (i lo hi : ℕ)
    → lo < 2 ^ 16
    → hi < 2 ^ 8
    → read_element (write_element m i lo hi) i ≡ hi * 2 ^ 16 + lo
unfolding read_element write_element
read_element-write_element_self m i lo hi hl hh = ground arith

-- A write changes no byte but the element's own three.
pub write_element_frame :
    (m : Memory) (i lo hi q : ℕ) → (q < 3 * i) ⊎ (3 * i + 3 ≤ q) → write_element m i lo hi q ≡ m q
unfolding write_element
write_element_frame m i lo hi q h = ground arith

-- The reader that is given the address of the element's own three bytes, element `i` at byte
-- `3 * i`, agrees with the one that is given the start of the array.
read_element2-eq-read_element : (m : Memory) (i : ℕ) → read_element2 m (3 * i) i ≡ read_element m i
unfolding read_element2 read_element
read_element2-eq-read_element m i = ground arith

-- A 24-bit element that is written is read back, and every other element keeps its value.
pub read_element-write_element :
    (m : Memory) (i j lo hi : ℕ)
    → lo < 2 ^ 16
    → hi < 2 ^ 8
    → (read_element (write_element m i lo hi) i ≡ hi * 2 ^ 16 + lo)
      × (j ≢ i → read_element (write_element m i lo hi) j ≡ read_element m j)
read_element-write_element m i j lo hi hl hh = (
  read_element-write_element_self m i lo hi hl hh,
  λ ne.
      read_element_bytes m (write_element m i lo hi) j
        (write_element_frame m i lo hi (3 * j) (omega arith))
        (write_element_frame m i lo hi (3 * j + 1) (omega arith))
        (write_element_frame m i lo hi (3 * j + 2) (omega arith)),
)

fill_from_below :
    (n i j lo hi : ℕ) (m : Memory)
    → j < i
    → read_element (fill_from i n m lo hi) j ≡ read_element m j
unfolding fill_from
fill_from_below zero i j lo hi m h = refl
fill_from_below (suc n) i j lo hi m h =
    fill_from_below n (i + 1) j lo hi (write_element m i lo hi) (omega arith)
    ∙ read_element_bytes m (write_element m i lo hi) j
        (write_element_frame m i lo hi (3 * j) (omega arith))
        (write_element_frame m i lo hi (3 * j + 1) (omega arith))
        (write_element_frame m i lo hi (3 * j + 2) (omega arith))

fill_from-reads :
    (n i j lo hi : ℕ) (m : Memory)
    → lo < 2 ^ 16
    → hi < 2 ^ 8
    → i ≤ j
    → j < i + n
    → read_element (fill_from i n m lo hi) j ≡ hi * 2 ^ 16 + lo
unfolding fill_from
fill_from-reads zero i j lo hi m hl hh p q = absurd (omega arith)
fill_from-reads (suc n) i j lo hi m hl hh p q = elim (Bool-cases (i == j)) [
  | inl here ↦
      let e : i ≡ j = (==_iff i j).0 here in
      rw (← e) (
        fill_from_below n (i + 1) i lo hi (write_element m i lo hi) (omega arith)
        ∙ read_element-write_element_self m i lo hi hl hh)
  | inr later ↦
      fill_from-reads n (i + 1) j lo hi (write_element m i lo hi) hl hh (ground arith) (omega arith)
]

-- After `flip24_memset` every one of the `size` elements is the given one.
read_element-fill :
    (m : Memory) (lo hi size j : ℕ)
    → lo < 2 ^ 16
    → hi < 2 ^ 8
    → j < size
    → read_element (fill m lo hi size) j ≡ hi * 2 ^ 16 + lo
unfolding fill
read_element-fill m lo hi size j hl hh h =
    fill_from-reads size 0 j lo hi m hl hh (omega arith) (omega arith)

-- After `flip24_zerofill` the `length` elements are 0, and no element behind them changes.
read_element-zerofill :
    (m : Memory) (length j : ℕ)
    → (j < length → read_element (zerofill m length) j ≡ 0)
      × (length ≤ j → read_element (zerofill m length) j ≡ read_element m j)
unfolding read_element zerofill
read_element-zerofill m length j = (λ h. ground arith, λ h. ground arith)

-- The swap takes the two offsets the wrong way round. For two even indices, both with an odd
-- neighbour, the high byte of the element behind `a` is overwritten by that of the element behind
-- `b`, and the middle byte of element `a` stays what it was.
pub swap_elements_damage :
    (m : Memory) (a b : ℕ)
    → ((q : ℕ) → m q < 256)
    → a % 2 ≡ 0
    → b % 2 ≡ 0
    → a ≢ b
    → (read_high_bits (swap_elements m a b) (a + 1) ≡ read_high_bits m (b + 1))
      × (swap_elements m a b (3 * a + 1) ≡ m (3 * a + 1))
unfolding read_high_bits swap_elements
swap_elements_damage m a b bytes ea eb ne =
    ground (arith, bytes (3 * a + 3), bytes (3 * b + 3), bytes (3 * a + 2), bytes (3 * b + 2))
