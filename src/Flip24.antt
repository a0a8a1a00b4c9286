-- ===== src/Flip24.antt =====
-- include/gstream/flip24_array.h: arrays of 24-bit numbers, two elements to six bytes, the low
-- halves of a pair at the outside, on a 2-byte boundary. The bytes are a function of the address;
-- a 16-bit access is little-endian.
pub mod Layout
use cu_match.Prelude.{ℕ, zero, suc, ◌+◌, ◌-◌, ◌*◌, ◌/◌, ◌%◌, ◌^◌, ltb, ◌==◌, if◌then◌else◌}

abbrev pub Memory : Type 0
Memory = ℕ → ℕ

abbrev pub store8 : Memory → ℕ → ℕ → Memory
store8 m p v q = if q == p then v % 256 else m q

abbrev pub load16 : Memory → ℕ → ℕ
load16 m p = m p + 256 * m (p + 1)

abbrev pub store16 : Memory → ℕ → ℕ → Memory
store16 m p v = store8 (store8 m p v) (p + 1) (v / 256)

-- `((index >> 1) << 1) + ((index >> 1) << 2)`
abbrev pub base_addr : ℕ → ℕ
base_addr index = index / 2 * 2 + index / 2 * 4

-- `flip24_high_bit_offset`
abbrev pub high_bit_offset : ℕ → ℕ
high_bit_offset index = base_addr index + index % 2 + 2

-- `flip24_low_bit_offset`
abbrev pub low_bit_offset : ℕ → ℕ
low_bit_offset index = base_addr index + index % 2 * 4

pub read_high_bits : Memory → ℕ → ℕ
read_high_bits m index = m (high_bit_offset index)

pub read_low_bits : Memory → ℕ → ℕ
read_low_bits m index = load16 m (low_bit_offset index)

unfoldable pub read_element : Memory → ℕ → ℕ
read_element m index = m (high_bit_offset index) * 2 ^ 16 + load16 m (low_bit_offset index)

-- `read_flip24_element2`, at the address of the element's own three bytes
pub read_element2 : Memory → ℕ → ℕ → ℕ
read_element2 m arr idx = m (arr + (1 - idx % 2) * 2) * 2 ^ 16 + load16 m (arr + idx % 2)

unfoldable pub write_element : Memory → ℕ → ℕ → ℕ → Memory
write_element m index lo hi =
    store8 (store16 m (low_bit_offset index) lo) (high_bit_offset index) hi

-- `flip24_memset`: `i` is the counter, `n` the rounds left
fill_from : ℕ → ℕ → Memory → ℕ → ℕ → Memory
fill_from i zero m lo hi = m
fill_from i (suc n) m lo hi = fill_from (i + 1) n (write_element m i lo hi) lo hi

pub fill : Memory → ℕ → ℕ → ℕ → Memory
unfolding fill_from
fill m lo hi size = fill_from 0 size m lo hi

-- `flip24_zerofill`: `memset(dst, 0, 3 * length)`
pub zerofill : Memory → ℕ → Memory
zerofill m length q = if ltb q (3 * length) then 0 else m q

-- `swap_flip24_elements`, with the two offsets as the source has them
unfoldable pub swap_elements : Memory → ℕ → ℕ → Memory
swap_elements m a b =
    let a_lo = base_addr a + a % 2 + 2 in
    let a_hi = base_addr a + a % 2 * 4 in
    let b_lo = base_addr b + b % 2 + 2 in
    let b_hi = base_addr b + b % 2 * 4 in
    let t_lo = load16 m a_lo in
    let t_hi = m a_hi in
    let m1 = store16 m a_lo (load16 m b_lo) in
    let m2 = store8 m1 a_hi (m1 b_hi) in
    let m3 = store16 m2 b_lo t_lo in if a == b then m else store8 m3 b_hi t_hi
