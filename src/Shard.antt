-- ===== src/Shard.antt =====
-- include/gstream/grid_format/flip24_shard.h: one block of edges in memory, a header and behind it
-- the pointer vector, the source vertices and the destination vertices. The search functions on a
-- shard are those of source/cuMatch/kernel_aux_tools.cu.
pub mod Adjacency
use cu_match.Prelude.{
  ℕ, ◌+◌, ◌-◌, ◌*◌, ◌/◌, ◌%◌, ◌^◌, Bool, true, false, Option, ltb, leb, ◌&&◌, if◌then◌else◌,
}
use cu_match.Flip24.{Memory, load16, read_element}
use cu_match.Search.{lower_bound, upper_bound}

abbrev pub u32_mod : ℕ
u32_mod = 2 ^ 32

-- `bytes` is the block from its header on, `rowv` and `colv` are the two section offsets.
pub record Flip24Shard : Type 0 where
  pub bytes : Memory
  pub rowv : ℕ
  pub colv : ℕ
  pub min_src_vid : ℕ
  pub max_src_vid : ℕ
  pub num_rows : ℕ
  pub num_cols : ℕ

-- `_colv` is the address of the column section in `_bytes`.
pub record AdjList : Type 0 where
  pub src_vertex : ℕ
  pub length : ℕ
  pub colv : ℕ
  pub colptr : ℕ

-- memory seen from an address on
abbrev pub seek : Memory → ℕ → Memory
seek m p q = m (p + q)

-- `sizeof(flip24_shard_header)`
abbrev pub header_size : ℕ
header_size = 36

abbrev pub data_section_alignment : ℕ
data_section_alignment = 4

abbrev load32 : Memory → ℕ → ℕ
load32 m p = load16 m p + 2 ^ 16 * load16 m (p + 2)

unfoldable pub colptr : Flip24Shard → ℕ → ℕ
colptr s row_off = load32 s.bytes (header_size + 4 * row_off)

unfoldable pub list_size : Flip24Shard → ℕ → ℕ
list_size s i = (colptr s (i + 1) + u32_mod - colptr s i) % u32_mod

unfoldable pub source_vertex : Flip24Shard → ℕ → ℕ
source_vertex s i = read_element (seek s.bytes s.rowv) i

-- `adj_list`, by the index of a source vertex
pub adj_list : Flip24Shard → ℕ → AdjList
adj_list s i =
    let src = source_vertex s i in
    let ptr_idx = (src + u32_mod - s.min_src_vid) % u32_mod in
    record {
      src_vertex = src;
      length = list_size s ptr_idx;
      colv = s.colv;
      colptr = colptr s ptr_idx;
    }

abbrev in_range : Flip24Shard → ℕ → Bool
in_range s v_id = leb s.min_src_vid v_id && leb v_id s.max_src_vid

-- `adj_list_vid`, by the source vertex
unfoldable pub adj_list_vid : Flip24Shard → ℕ → AdjList
adj_list_vid s v_id =
    let ptr_idx = v_id - s.min_src_vid in
    if in_range s v_id
    then record {
      src_vertex = v_id;
      length = list_size s ptr_idx;
      colv = s.colv;
      colptr = colptr s ptr_idx;
    }
    else record { src_vertex = v_id; length = 0; colv = s.colv; colptr = 1 }

unfoldable pub valid_source_vertex : Flip24Shard → ℕ → Bool
valid_source_vertex s v_id =
    if in_range s v_id then ltb 0 (list_size s (v_id - s.min_src_vid)) else false

-- `adj[i]`
pub adj_elem : Flip24Shard → AdjList → ℕ → ℕ
adj_elem s adj i = read_element (seek s.bytes adj.colv) (i + adj.colptr)

pub block_size : Flip24Shard → ℕ
block_size s =
    data_section_alignment
      * ((3 * s.num_cols + data_section_alignment - 1) / data_section_alignment)
    + s.colv

pub lower_bound_on_src_array : Flip24Shard → ℕ → ℕ → ℕ → Bool × ℕ
lower_bound_on_src_array s = lower_bound (source_vertex s)

pub lower_bound_on_dst_array : Flip24Shard → AdjList → ℕ → ℕ → ℕ → Bool × ℕ
lower_bound_on_dst_array s adj = lower_bound (adj_elem s adj)

pub upper_bound_on_src_array : Flip24Shard → ℕ → ℕ → ℕ → Option (Bool × ℕ)
upper_bound_on_src_array s = upper_bound (source_vertex s)

pub upper_bound_on_dst_array : Flip24Shard → AdjList → ℕ → ℕ → ℕ → Option (Bool × ℕ)
upper_bound_on_dst_array s adj = upper_bound (adj_elem s adj)
