-- ===== src/Tests/Shards.antt =====
-- A small shard, as include/gstream/grid_format/flip24_shard.h lays it out.
use cu_match.Prelude.{ℕ, zero, suc, ◌+◌, ◌<◌, ◌≤◌, ◌≡◌, ◌≢◌, ◌↔◌, refl, true, arith}
use cu_match.Flip24.{Memory, read_element, store8}
use cu_match.Shard.{
  Flip24Shard, colptr, list_size, source_vertex, adj_list_vid, valid_source_vertex,
}
use cu_match.Shard.Adjacency.{IsValid, adj_list_vid_interval}
use cu_match.Tests.Arrays.{Sorted-three}

-- pointers 0, 2, 3; sources 0, 1; destinations 1, 2, 0
abbrev shard_bytes : Memory
shard_bytes = store8 (store8 (store8 (store8 (store8 (λ p. 0) 40 2) 44 3) 52 1) 56 1) 60 2

abbrev pub three_edges : Flip24Shard
three_edges = record {
  bytes = shard_bytes;
  rowv = 48;
  colv = 56;
  min_src_vid = 0;
  max_src_vid = 1;
  num_rows = 2;
  num_cols = 3;
}

sources_valid :
    (i : ℕ) → i < 2 → valid_source_vertex three_edges (source_vertex three_edges i) ≡ true
unfolding colptr list_size source_vertex valid_source_vertex read_element
sources_valid zero h = refl
sources_valid (suc zero) h = refl
sources_valid (suc (suc i)) h = absurd (omega arith)

three_edges-IsValid : IsValid three_edges
unfolding colptr
three_edges-IsValid = record {
  ordered = omega arith;
  width = omega arith;
  first = refl;
  nonempty = omega arith;
  last = refl;
  bounded = omega arith;
  rising = λ i j p q.
      Sorted-three (colptr three_edges) (omega arith) (omega arith) i j (omega arith) p
        (omega arith);
  rows = sources_valid;
}

adj_list_vid_interval_example :
    (0 < (adj_list_vid three_edges 5).colptr + (adj_list_vid three_edges 5).length)
    × ((adj_list_vid three_edges 5).length ≢ 0
        → (adj_list_vid three_edges 5).colptr + (adj_list_vid three_edges 5).length ≤ 3)
    × (((adj_list_vid three_edges 5).length ≢ 0) ↔ (valid_source_vertex three_edges 5 ≡ true))
adj_list_vid_interval_example = adj_list_vid_interval three_edges three_edges-IsValid 5
