-- ===== src/QueryGraph/Data.antt =====
-- The data of include/cu_match/subgraph_match_defines.h and include/cu_match/query_graph.h.
use cu_match.Prelude.{ℕ, ◌+◌, Bool, true, false, List, update, length}

pub data EdgeType : Type 0 where
  optional negative regular : EdgeType

pub data EdgeDirection : Type 0 where
  directed undirected : EdgeDirection

pub data ConstraintType : Type 0 where
  not_equal regular_constraint : ConstraintType

abbrev pub is_optional_type : EdgeType → Bool
is_optional_type optional = true
is_optional_type negative = false
is_optional_type regular = false

abbrev pub is_negative_type : EdgeType → Bool
is_negative_type optional = false
is_negative_type negative = true
is_negative_type regular = false

-- `qgraph_vertex_info`, without the name, which only the printing reads
pub record VertexInfo : Type 0 where
  pub vl_id : ℕ
  pub degree : ℕ
  pub is_optional : Bool

pub record EdgeInfo : Type 0 where
  pub el_id : ℕ
  pub v1_id : ℕ
  pub v2_id : ℕ
  pub e_type : EdgeType
  pub e_dir : EdgeDirection
  pub optional_edge_with_regular_vertex : Bool

pub record ConstraintInfo : Type 0 where
  pub v1_id : ℕ
  pub v2_id : ℕ
  pub c_type : ConstraintType

pub record ParseVertexInfo (Name : Type 0) : Type 0 where
  pub label : Name
  pub name : Name

pub record ParseEdgeInfo (Name : Type 0) : Type 0 where
  pub label : Name
  pub v1_name : Name
  pub v2_name : Name
  pub e_type : EdgeType
  pub e_dir : EdgeDirection

pub record ParseConstraintInfo (Name : Type 0) : Type 0 where
  pub v1_name : Name
  pub v2_name : Name
  pub c_type : ConstraintType

abbrev pub max_num_query_vertices : ℕ
max_num_query_vertices = 8

abbrev pub max_num_query_degrees : ℕ
max_num_query_degrees = 4

-- The arrays of vertices, edges and constraints.
pub record QueryGraph : Type 0 where
  pub num_vertices : ℕ
  pub vertices_info : ℕ → VertexInfo
  pub edges_info : List EdgeInfo
  pub constraints_info : List ConstraintInfo

abbrev pub num_query_edges : QueryGraph → ℕ
num_query_edges g = length g.edges_info

-- what `calloc` leaves
abbrev pub blank_vertex : VertexInfo
blank_vertex = record { vl_id = 0; degree = 0; is_optional = false }

abbrev pub add_degree : ℕ → (ℕ → VertexInfo) → ℕ → VertexInfo
add_degree v vs = update vs v (record (vs v) { degree = (vs v).degree + 1 })

abbrev pub mark_optional : ℕ → (ℕ → VertexInfo) → ℕ → VertexInfo
mark_optional v vs = update vs v (record (vs v) { is_optional = true })
