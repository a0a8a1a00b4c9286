-- ===== src/Shard/Adjacency.antt =====
-- Adjacency lists of a shard (include/gstream/grid_format/flip24_shard.h).
use cu_match.Prelude.{ℕ, ◌+◌, ◌-◌, ◌^◌, ◌≤◌, ◌<◌, ◌≡◌, ◌≢◌, ◌↔◌, true, arith}
use cu_match.Shard.{
  Flip24Shard, colptr, list_size, source_vertex, adj_list, adj_list_vid, valid_source_vertex,
}

-- What the format promises of a shard: the pointer vector has one entry for each vertex of
-- [min_src_vid, max_src_vid] and one behind, it never falls, the first vertex has an edge, and
-- the row vector holds vertices with an edge.
pub record IsValid (s : Flip24Shard) : Type 0 where
  pub ordered : s.min_src_vid ≤ s.max_src_vid
  pub width : s.max_src_vid < 2 ^ 24
  pub first : colptr s 0 ≡ 0
  pub nonempty : 0 < colptr s 1
  pub last : colptr s (s.max_src_vid - s.min_src_vid + 1) ≡ s.num_cols
  pub bounded : s.num_cols ≤ 2 ^ 31
  pub rising : (i j : ℕ) → i ≤ j → j ≤ s.max_src_vid - s.min_src_vid + 1 → colptr s i ≤ colptr s j
  pub rows : (i : ℕ) → i < s.num_rows → valid_source_vertex s (source_vertex s i) ≡ true

module _ (s : Flip24Shard) (h : IsValid s) where
  -- Within the pointer vector the size of a list is the difference of two pointers.
  list_size_lem :
      (i : ℕ)
      → i ≤ s.max_src_vid - s.min_src_vid
      → (colptr s i + list_size s i ≡ colptr s (i + 1)) × (colptr s (i + 1) ≤ s.num_cols)
  unfolding list_size
  list_size_lem i p = ground (
    arith,
    h.rising i (i + 1) (omega arith) (omega arith),
    h.rising (i + 1) (s.max_src_vid - s.min_src_vid + 1) (omega arith) (omega arith),
    h.last,
    h.bounded,
  )

  -- In a valid shard, whatever vertex is asked for: `_colptr + length` is above 0, so the last index
  -- `_colptr + length - 1` of the interval that a kernel builds never wraps, a list that is not
  -- empty ends in the column vector, and a list is not empty exactly if `valid_source_vertex` holds.
  pub adj_list_vid_interval :
      (v_id : ℕ)
      → (0 < (adj_list_vid s v_id).colptr + (adj_list_vid s v_id).length)
        × ((adj_list_vid s v_id).length ≢ 0
            → (adj_list_vid s v_id).colptr + (adj_list_vid s v_id).length ≤ s.num_cols)
        × (((adj_list_vid s v_id).length ≢ 0) ↔ (valid_source_vertex s v_id ≡ true))
  unfolding adj_list_vid valid_source_vertex
  adj_list_vid_interval v_id = ground (
    arith,
    list_size_lem (v_id - s.min_src_vid),
    list_size_lem 0,
    h.rising 1 (v_id - s.min_src_vid),
    h.nonempty,
  )

  -- In a valid shard the list found by the position of a source vertex is the one found by the
  -- vertex itself.
  adj_list-eq-adj_list_vid :
      (i : ℕ) → i < s.num_rows → adj_list s i ≡ adj_list_vid s (source_vertex s i)
  unfolding adj_list adj_list_vid valid_source_vertex
  adj_list-eq-adj_list_vid i lt = ground (arith, h.rows i lt, h.width)
