-- ===== src/Kernel/Shares.antt =====
-- The shares of the pivot list that the blocks of source/cuMatch/LFTJ_kernel_basic.cu take.
use cu_match.Prelude.{ℕ, ◌+◌, ◌-◌, ◌*◌, ◌/◌, ◌≤◌, ◌<◌, ◌≡◌, ◌↔◌, ap, arith, ◌^◌, min}
use native.Mathlib.Nat.{div-add-mod, mod-lt, div-lt_iff_lt-mul, lt_of_mul-lt-mul_left, mul_comm}
use cu_match.Kernel.{Task, Block, add32, sub32, max_blocks, restrict_to_block}

pub quotient_range : (g x : ℕ) → 0 < g → (g * (x / g) ≤ x) × (x < g * (x / g + 1))
quotient_range g x h = (omega (arith, div-add-mod x g), omega (arith, div-add-mod x g, mod-lt x h))

pub quotient_below : (g x n : ℕ) → 0 < g → x < g * n → x / g < n
quotient_below g x n h lt = (div-lt_iff_lt-mul h).1 (rw mul_comm lt)

pub quotient_unique : (g x c : ℕ) → g * c ≤ x → x < g * (c + 1) → c ≡ x / g
quotient_unique g x c lo hi =
    let pos : 0 < g = grind arith in
    let (ql, qr) = quotient_range g x pos in
    let a : c < x / g + 1 = lt_of_mul-lt-mul_left g (omega arith) in
    let b : x / g < c + 1 = lt_of_mul-lt-mul_left g (omega arith) in omega arith

-- The share of a block, as an interval.
share_bounds :
    (t : Task) (dep match_vid n e_id lo len : ℕ) (b : Block)
    → b.vid_gap 0 ≡ len
    → b.min_iter_per_shard dep e_id ≡ lo
    → b.max_iter_per_shard dep e_id ≡ sub32 (add32 lo len) 1
    → 0 < len
    → lo + len ≤ 2 ^ 31
    → (c : ℕ) → c < max_blocks
    → ((restrict_to_block t dep match_vid n c e_id b).min_iter_per_shard dep e_id
        ≡ lo + (len + 3839) / 3840 * c)
      × ((restrict_to_block t dep match_vid n c e_id b).max_iter_per_shard dep e_id + 1
          ≡ min (lo + (len + 3839) / 3840 * (c + 1)) (lo + len))
unfolding restrict_to_block
share_bounds t dep match_vid n e_id lo len b g l u p q c h =
    let gap = (len + 3839) / 3840 in
    let fits : gap * c ≤ gap * 3839 = grind arith in
    let whole : gap * 3840 ≤ len + 3839 = omega arith in
    (rw (g, l) (ground arith), rw (g, l, u) (ground arith))

-- For a pivot list that is not empty and ends at 2 ^ 31 at most, whatever its length: each of its
-- indices, from `lo` to `lo + len - 1`, is in the share of exactly one of the `MaxBlocks` blocks, and
-- no share holds any other index.
pub restrict_to_block_partition :
    (t : Task) (dep match_vid n e_id lo len i : ℕ) (b : Block)
    → b.vid_gap 0 ≡ len
    → b.min_iter_per_shard dep e_id ≡ lo
    → b.max_iter_per_shard dep e_id ≡ sub32 (add32 lo len) 1
    → 0 < len
    → lo + len ≤ 2 ^ 31
    → ((lo ≤ i) × (i < lo + len)
        → (block_idx : ℕ) × (block_idx < max_blocks)
          × ((c : ℕ)
              → c < max_blocks
              → ((restrict_to_block t dep match_vid n c e_id b).min_iter_per_shard dep e_id ≤ i)
                  × (i ≤ (restrict_to_block t dep match_vid n c e_id b).max_iter_per_shard dep e_id)
                ↔ (c ≡ block_idx)))
      × ((c : ℕ)
          → c < max_blocks
          → (restrict_to_block t dep match_vid n c e_id b).min_iter_per_shard dep e_id ≤ i
          → i ≤ (restrict_to_block t dep match_vid n c e_id b).max_iter_per_shard dep e_id
          → (lo ≤ i) × (i < lo + len))
unfolding restrict_to_block
restrict_to_block_partition t dep match_vid n e_id lo len i b g l u p q =
    let gap = (len + 3839) / 3840 in
    let gap_pos : 0 < gap = omega arith in
    let bounds = share_bounds t dep match_vid n e_id lo len b g l u p q in
    (
      λ (above, below).
          let k = (i - lo) / gap in
          (
            k,
            quotient_below gap (i - lo) 3840 gap_pos (omega arith),
            λ c h.
                let (first, last) = bounds c h in
                (
                  λ (from, to). quotient_unique gap (i - lo) c (omega arith) (omega arith),
                  λ e.
                      let (ql, qr) = quotient_range gap (i - lo) gap_pos in
                      rw (first, e) (omega arith, omega (arith, ap (λ (y : ℕ). gap * (y + 1)) e)),
                ),
          ),
      λ c h from to. let (first, last) = bounds c h in (omega arith, omega arith),
    )
