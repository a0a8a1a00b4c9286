-- ===== src/TableJoin/Split.antt =====
-- How the blocks of source/cuMatch/table_join_kernel_basic.cu share the sources of the first edge.
use cu_match.Prelude.{ℕ, ◌+◌, ◌*◌, ◌/◌, ◌^◌, ◌≤◌, ◌<◌, ◌≡◌, ◌↔◌, min, arith, ap, List}
use cu_match.Shard.{Flip24Shard}
use cu_match.Kernel.Shares.{quotient_range, quotient_below, quotient_unique}
use cu_match.TableJoin.{JoinTask, Scan, split_sources}

-- `MaxBlocksOpt`, the number of blocks of the launch
abbrev pub max_blocks_opt : ℕ
max_blocks_opt = 5760

module _ (t : JoinTask) (schedule : ℕ → ℕ → List ℕ) (dep : ℕ) (shard : Flip24Shard) (s : Scan) where
  abbrev pub lower : ℕ → ℕ
  lower c = (split_sources t schedule dep shard c s).min_iter_source_vertex dep

  abbrev pub upper : ℕ → ℕ
  upper c = (split_sources t schedule dep shard c s).max_iter_source_vertex dep

  share_bounds :
      (hi : ℕ)
      → s.min_iter_source_vertex dep ≡ 0
      → s.max_iter_source_vertex dep ≡ hi
      → 0 < hi
      → hi < 2 ^ 31
      → (c : ℕ) → c < max_blocks_opt
      → (lower c ≡ (hi + 3839) / 3840 * c)
        × (upper c + 1 ≡ min ((hi + 3839) / 3840 * (c + 1)) (hi + 1))
  unfolding split_sources
  share_bounds hi l u pos w c lt =
      let gap = (hi + 3839) / 3840 in
      let fits : gap * c ≤ gap * 5759 = grind arith in
      let whole : gap * 3840 ≤ hi + 3839 = omega arith in
      (rw (u, l) (ground arith), rw (u, l) (ground arith))

  -- The blocks of the launch share the sources of a shard that has at least two: each source, with
  -- an index up to `hi` below 2 ^ 31, is in the share of exactly one block. A shard with one source
  -- is not shared: every block takes it, so its matches are counted once for each block.
  pub split_sources_cases :
      (hi i : ℕ)
      → s.min_iter_source_vertex dep ≡ 0
      → s.max_iter_source_vertex dep ≡ hi
      → hi < 2 ^ 31
      → i ≤ hi
      → (0 < hi
          → (b : ℕ) × (b < max_blocks_opt)
            × ((c : ℕ) → c < max_blocks_opt → ((lower c ≤ i) × (i ≤ upper c)) ↔ (c ≡ b)))
        × (hi ≡ 0 → (c : ℕ) → c < max_blocks_opt → (lower c ≤ i) × (i ≤ upper c))
  unfolding split_sources
  split_sources_cases hi i l u w le = (
    λ pos.
        let gap = (hi + 3839) / 3840 in
        let gap_pos : 0 < gap = omega arith in
        let whole : hi ≤ gap * 3840 = omega arith in
        let bounds = share_bounds hi l u pos w in
        (
          i / gap,
          quotient_below gap i 5760 gap_pos (omega arith),
          λ c lt.
              let (first, last) = bounds c lt in
              (
                λ (from, to). quotient_unique gap i c (omega arith) (omega arith),
                λ e.
                    let (above, below) = quotient_range gap i gap_pos in
                    rw (first, e) (omega arith, omega (arith, ap (λ (y : ℕ). gap * (y + 1)) e)),
              ),
        ),
    λ one c lt. rw (l, u, one) (ground arith),
  )
