-- ===== src/Tests/Joins.antt =====
-- An intersection of two lists, and shares of the blocks, as in source/cuMatch/LFTJ_kernel_basic.cu.
use cu_match.Prelude.{
  ℕ, zero, suc, ◌+◌, ◌-◌, ◌<◌, ◌≤◌, ◌≡◌, ◌≢◌, ◌↔◌, ◌&&◌, refl, some, List, [], ◌∷◌, length, count,
  leb, if◌then◌else◌, arith,
}
use mathlib.Core.List.{Memᴰ}
use native.Mathlib.Numerals.{unary_clauses}
use cu_match.Flip24.{read_element, write_element}
use cu_match.Shard.{Flip24Shard}
use cu_match.Kernel.{
  Task, Block, shared_membuf, max_blocks, load_lists, select_pivot, intersects, restrict_to_block,
  store_chunk, store_matches, count_matches,
}
use cu_match.Search.{lower_bound, lower_loop, lower_bound_on_flip24_array}
use cu_match.Kernel.Intersect.{IsList, InLists}
use cu_match.Kernel.Tally.{count_matches_covers}
use cu_match.Kernel.Pivot.{pivot-shortest}
use cu_match.Kernel.Shares.{restrict_to_block_partition}
use cu_match.Kernel.Rounds.{IsSchedule, drain}
use cu_match.Kernel.Covers.{drain_covers}
use cu_match.Tests.Arrays.{one_two_three, two_three_five, two_three_five-Sorted}

-- the `n` numbers from `lo` on
unfoldable pub up_from : ℕ → ℕ → List ℕ
up_from lo zero = []
up_from lo (suc n) = lo ∷ up_from (lo + 1) n

unfoldable pub in_order : ℕ → ℕ → List ℕ
in_order lo hi = up_from lo (hi + 1 - lo)

count-up_from :
    (n lo i : ℕ) → count i (up_from lo n) ≡ (if leb lo i && leb (i + 1) (lo + n) then 1 else 0)
unfolding up_from
count-up_from zero lo i = ground arith
count-up_from (suc n) lo i = ground (arith, count-up_from n (lo + 1) i)

length-up_from : (n lo : ℕ) → length (up_from lo n) ≡ n
unfolding up_from
length-up_from zero lo = refl
length-up_from (suc n) lo = omega (arith, length-up_from n (lo + 1))

pub in_order-IsSchedule : IsSchedule in_order
unfolding in_order
in_order-IsSchedule = record {
  once = λ lo hi i. ground (arith, count-up_from (hi + 1 - lo) lo i);
  size = λ lo hi. length-up_from (hi + 1 - lo) lo;
}

abbrev no_edges : Flip24Shard
no_edges = record {
  bytes = λ p. 0;
  rowv = 40;
  colv = 40;
  min_src_vid = 0;
  max_src_vid = 0;
  num_rows = 0;
  num_cols = 0;
}

abbrev pub two_lists : Task
two_lists = record {
  num_query_vertices = 3;
  num_query_edges = 2;
  shard_idxs = λ i. 0;
  shard_ptrs = λ i. no_edges;
  eids = λ i. i;
  lv0_dep = λ i. 0;
  prefix_sum_degree = λ v. 0;
}

abbrev pub loaded : Block
loaded = record {
  vid_gap = λ i. 3;
  vid_gap_idx = λ i. i;
  min_iter_per_shard = λ d e. 0;
  max_iter_per_shard = λ d e. 2;
  im_size = λ d. 0;
  im_data = λ d. [];
  flip24_arrs = λ e. elim e [ zero ↦ one_two_three | suc _ ↦ two_three_five ];
  is_type = λ d. shared_membuf;
}

pub second-IsList : (k : ℕ) → k < 2 → 0 + k ≢ 0 → IsList loaded 1 (0 + k)
second-IsList zero p ne = absurd (ne refl)
second-IsList (suc k) p ne =
    simp unary_clauses
      (record { nonempty = omega arith; bounded = omega arith; sorted = two_three_five-Sorted })

drain_run : drain two_lists 1 0 2 1 in_order 0 loaded ≡ some (2 ∷ 3 ∷ [])
unfolding drain store_chunk store_matches intersects lower_bound_on_flip24_array lower_bound
    lower_loop in_order up_from read_element write_element
drain_run = refl

drain_covers_example :
    (r : List ℕ) × (drain two_lists 1 0 2 1 in_order 0 loaded ≡ some r)
    × ((v_id : ℕ)
        → Memᴰ v_id r ↔ (
            (i : ℕ) × (0 ≤ i)
            × (i ≤ 2)
            × (read_element one_two_three i ≡ v_id)
            × InLists two_lists 1 0 2 loaded 0 v_id 0 2))
drain_covers_example =
    drain_covers two_lists 1 0 2 in_order in_order-IsSchedule 0 loaded (omega arith) (omega arith)
      (λ k ne. ne) 1 (omega arith) (omega arith) second-IsList

count_matches_covers_example :
    (r : List ℕ) × ((count_matches two_lists 1 0 2 0 (in_order 0 2) loaded).im_size 1
      ≡ 0 + length r)
    × ((i : ℕ) → count i r ≤ 1)
    × ((i : ℕ)
        → Memᴰ i r ↔ (
            (0 ≤ i)
            × (i ≤ 2)
            × InLists two_lists 1 0 2 loaded 0 (read_element one_two_three i) 0 2))
count_matches_covers_example =
    count_matches_covers two_lists 1 0 2 0 in_order 0 2 loaded in_order-IsSchedule second-IsList

pivot-shortest_example :
    (k : ℕ) × (k < 2)
    × ((select_pivot two_lists 1 0 2 1 1
            (load_lists two_lists 1 0 2 (λ v. 0) 0 2 loaded)).vid_gap_idx
          0
        ≡ 0 + k)
    × ((j : ℕ)
        → j < 2
        → (load_lists two_lists 1 0 2 (λ v. 0) 0 2 loaded).vid_gap k
          ≤ (load_lists two_lists 1 0 2 (λ v. 0) 0 2 loaded).vid_gap j)
pivot-shortest_example = pivot-shortest two_lists 1 0 2 (λ v. 0) loaded (omega arith)

restrict_to_block_partition_example :
    ((0 ≤ 1) × (1 < 0 + 3)
      → (block_idx : ℕ) × (block_idx < max_blocks)
        × ((c : ℕ)
            → c < max_blocks
            → ((restrict_to_block two_lists 0 0 2 c 0 loaded).min_iter_per_shard 0 0 ≤ 1)
                × (1 ≤ (restrict_to_block two_lists 0 0 2 c 0 loaded).max_iter_per_shard 0 0)
              ↔ (c ≡ block_idx)))
    × ((c : ℕ)
        → c < max_blocks
        → (restrict_to_block two_lists 0 0 2 c 0 loaded).min_iter_per_shard 0 0 ≤ 1
        → 1 ≤ (restrict_to_block two_lists 0 0 2 c 0 loaded).max_iter_per_shard 0 0
        → (0 ≤ 1) × (1 < 0 + 3))
restrict_to_block_partition_example =
    restrict_to_block_partition two_lists 0 0 2 0 0 3 1 loaded refl refl refl (omega arith)
      (omega arith)
