-- ===== src/Kernel/Covers.antt =====
-- All that a block of source/cuMatch/LFTJ_kernel_basic.cu gets from a pivot list.
use cu_match.Prelude.{
  ℕ, ◌+◌, ◌*◌, ◌≤◌, ◌<◌, ◌≡◌, ◌≢◌, ◌↔◌, ◌^◌, some, List, length, mem_of_count, count_of_mem, min,
  arith, ap, refl,
}
use mathlib.Core.List.{Memᴰ}
use cu_match.Flip24.{read_element}
use cu_match.Kernel.{Task, Block, store_chunk}
use cu_match.Kernel.Intersect.{IsList, InLists, matches, matches_iff, length-matches-le}
use cu_match.Kernel.Rounds.{IsSchedule, StoresChunk, store_chunk_lem, drain, drain-matches}

module _ (t : Task) (dep match_vid num_join_shards : ℕ) (schedule : ℕ → ℕ → List ℕ)
    (order : IsSchedule schedule) (pivot : ℕ) (b : Block)
    (room : b.max_iter_per_shard dep (t.eids pivot) + 256 < 2 ^ 32)
    (range : b.min_iter_per_shard dep (t.eids pivot)
      ≤ b.max_iter_per_shard dep (t.eids pivot) + 128)
    (distinct : (k : ℕ)
      → t.prefix_sum_degree match_vid + k ≢ pivot
      → t.eids (t.prefix_sum_degree match_vid + k) ≢ t.eids pivot) where
  -- One round never writes past the `SMThreshold` slots of its buffer, and `im_size` is the number
  -- of slots that it filled. The share of the pivot list ends 256 below 2 ^ 32, starts at most 128
  -- behind its end, and no other joined edge is the edge of the pivot.
  store_chunk_bound :
      ((store_chunk t dep match_vid num_join_shards schedule pivot b).im_size dep ≤ 128)
      × ((store_chunk t dep match_vid num_join_shards schedule pivot b).im_size dep
          ≡ length ((store_chunk t dep match_vid num_join_shards schedule pivot b).im_data dep))
  store_chunk_bound =
      let lo = b.min_iter_per_shard dep (t.eids pivot) in
      let hi = b.max_iter_per_shard dep (t.eids pivot) in
      let c : StoresChunk t dep match_vid num_join_shards schedule pivot lo hi b =
        store_chunk_lem t dep match_vid num_join_shards schedule pivot lo hi b refl refl
          (omega arith) distinct in
      let is = schedule lo (min hi (lo + 127)) in
      (
        omega (
          arith,
          c.counted,
          ap length c.kept,
          length-matches-le t dep match_vid num_join_shards b pivot is,
          order.size lo (min hi (lo + 127)),
        ),
        c.counted,
      )

  -- Round after round, a block gets exactly the vertices of its share of the pivot list that stand
  -- in each of the other joined lists. One round for each 128 indices, and at least one, is enough
  -- for the rounds to end. The other lists are sorted and not empty, the share of the pivot list
  -- ends 256 below 2 ^ 32 and starts at most 128 behind its end, no other joined edge is the edge of
  -- the pivot, and the threads take each index once, in any order.
  pub drain_covers :
      (fuel : ℕ)
      → 0 < fuel
      → b.max_iter_per_shard dep (t.eids pivot) + 1
        ≤ b.min_iter_per_shard dep (t.eids pivot) + 128 * fuel
      → ((k : ℕ)
          → k < num_join_shards
          → t.prefix_sum_degree match_vid + k ≢ pivot
          → IsList b dep (t.eids (t.prefix_sum_degree match_vid + k)))
      → (r : List ℕ) × (drain t dep match_vid num_join_shards fuel schedule pivot b ≡ some r)
        × ((v_id : ℕ)
            → Memᴰ v_id r ↔ (
                (i : ℕ) × (b.min_iter_per_shard dep (t.eids pivot) ≤ i)
                × (i ≤ b.max_iter_per_shard dep (t.eids pivot))
                × (read_element (b.flip24_arrs (t.eids pivot)) i ≡ v_id)
                × InLists t dep match_vid num_join_shards b pivot v_id 0 num_join_shards))
  drain_covers fuel z enough lists =
      let lo = b.min_iter_per_shard dep (t.eids pivot) in
      let hi = b.max_iter_per_shard dep (t.eids pivot) in
      let (is, run, counts) =
        drain-matches t dep match_vid num_join_shards fuel schedule pivot lo hi b order refl refl
          room range enough z distinct in
      (
        matches t dep match_vid num_join_shards b pivot is,
        run,
        λ v_id.
            let (sound, full) = matches_iff t dep match_vid num_join_shards b pivot v_id is lists in
            (
              λ m.
                  let (i, mi, e, l) = sound m in
                  let c = counts i in
                  let pos = count_of_mem i is mi in (i, ground arith, ground arith, e, l),
              λ (i, p, q, e, l).
                  let c = counts i in full (i, mem_of_count i is (ground arith), e, l),
            ),
      )
