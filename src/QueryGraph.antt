-- ===== src/QueryGraph.antt =====
-- source/cuMatch/query_graph.cpp: the query graph, from the vertices, edges and constraints that
-- the parser found. Its data is in include/cu_match/subgraph_match_defines.h.

mod Data
pub mod Degrees
pub mod Optionals
pub mod Built
use cu_match.Prelude.{
  ℕ, zero, suc, ◌+◌, Bool, true, false, not, ◌&&◌, ◌||◌, Option, none, some, List, [], ◌∷◌, ltb,
  leb, ◌==◌, if◌then◌else◌, ◌>>=◌, ◌>>◌, check, update, length,
}
pub use Data.*

-- `_vname_map`; the labels of the grid stream have an id, or none.
module _ {Name : Type 0} (same_name : Name → Name → Bool) where
  abbrev pub find : List (Name × ℕ) → Name → Option ℕ
  find [] name = none
  find ((n, i) ∷ m) name = let rest = find m name in if same_name n name then some i else rest

  -- Lines 39 to 53: `i` is the id of the next vertex.
  unfoldable pub make_vertices :
      (Name → Option ℕ)
      → ℕ
      → List (ParseVertexInfo Name)
      → List (Name × ℕ)
      → (ℕ → VertexInfo)
      → Option (List (Name × ℕ) × (ℕ → VertexInfo))
  make_vertices vertex_label_id i [] m vs = some (m, vs)
  make_vertices vertex_label_id i (p ∷ ps) m vs = do
    vl_id ← vertex_label_id p.label
    check (elim (find m p.name) [ none ↦ true | some _ ↦ false ])
    make_vertices vertex_label_id (i + 1) ps ((p.name, i) ∷ m)
        (update vs i (record { vl_id = vl_id; degree = 0; is_optional = false }))

  -- Lines 55 to 81
  unfoldable pub make_edges :
      (Name → Option ℕ)
      → List (Name × ℕ)
      → List (ParseEdgeInfo Name)
      → (ℕ → VertexInfo)
      → Option ((ℕ → VertexInfo) × List EdgeInfo)
  make_edges edge_label_id m [] vs = some (vs, [])
  make_edges edge_label_id m (p ∷ ps) vs = do
    el_id ← edge_label_id p.label
    v1_id ← find m p.v1_name
    v2_id ← find m p.v2_name
    let vs' = add_degree v2_id (add_degree v1_id vs)
    check (not (v1_id == v2_id))
    check (leb (vs' v1_id).degree max_num_query_degrees)
    check (leb (vs' v2_id).degree max_num_query_degrees)
    (vs'', es) ← make_edges edge_label_id m ps vs'
    some (
      vs'',
      record {
        el_id = el_id;
        v1_id = v1_id;
        v2_id = v2_id;
        e_type = p.e_type;
        e_dir = p.e_dir;
        optional_edge_with_regular_vertex = false;
      }
          ∷ es,
    )

  -- Lines 124 to 140
  unfoldable pub make_constraints :
      List (Name × ℕ)
      → (ℕ → VertexInfo)
      → List (ParseConstraintInfo Name)
      → Option (List ConstraintInfo)
  make_constraints m vs [] = some []
  make_constraints m vs (p ∷ ps) = do
    v1_id ← find m p.v1_name
    v2_id ← find m p.v2_name
    check ((vs v1_id).vl_id == (vs v2_id).vl_id)
    cs ← make_constraints m vs ps
    some (record { v1_id = v1_id; v2_id = v2_id; c_type = p.c_type } ∷ cs)

-- Lines 83 to 89: optional edges stand behind all others, and no vertex is alone.
abbrev pub optional_last : Bool → List EdgeInfo → Bool
optional_last seen [] = true
optional_last seen (e ∷ es) =
    let rest = optional_last (is_optional_type e.e_type) es in
    if seen && not (is_optional_type e.e_type) then false else rest

abbrev pub has_degrees : ℕ → (ℕ → VertexInfo) → Bool
has_degrees zero vs = true
has_degrees (suc n) vs = not ((vs n).degree == 0) && has_degrees n vs

-- Lines 92 to 107, with the array `is_regular_vertex`
abbrev pub note_regular : EdgeInfo → (ℕ → Bool) → ℕ → Bool
note_regular e is_regular =
    if is_optional_type e.e_type
    then is_regular
    else update (update is_regular e.v1_id true) e.v2_id true

abbrev pub mark_vertex : EdgeInfo → (ℕ → Bool) → (ℕ → VertexInfo) → ℕ → VertexInfo
mark_vertex e is_regular vs =
    if not (is_optional_type e.e_type)
    then vs
    else if not (is_regular e.v1_id)
    then mark_optional e.v1_id vs
    else if not (is_regular e.v2_id)
    then mark_optional e.v2_id vs
    else vs

unfoldable pub mark_vertices :
    List EdgeInfo → (ℕ → Bool) → (ℕ → VertexInfo) → Option (ℕ → VertexInfo)
mark_vertices [] is_regular vs = some vs
mark_vertices (e ∷ es) is_regular vs = do
  check (ltb e.v1_id max_num_query_vertices && ltb e.v2_id max_num_query_vertices)
  check (not (is_optional_type e.e_type && (is_regular e.v1_id && is_regular e.v2_id)))
  mark_vertices es (note_regular e is_regular) (mark_vertex e is_regular vs)

-- Lines 109 to 113
abbrev pub differ : Bool → Bool → Bool
differ true b = not b
differ false b = b

abbrev pub mark_edges : (ℕ → VertexInfo) → List EdgeInfo → List EdgeInfo
mark_edges vs [] = []
mark_edges vs (e ∷ es) =
    record e {
      optional_edge_with_regular_vertex =
          is_optional_type e.e_type && differ (vs e.v1_id).is_optional (vs e.v2_id).is_optional;
    }
    ∷ mark_edges vs es

-- Lines 115 to 122
abbrev pub negative_supported : (ℕ → VertexInfo) → List EdgeInfo → Bool
negative_supported vs [] = true
negative_supported vs (e ∷ es) =
    (not (is_negative_type e.e_type) || ltb 1 (vs e.v1_id).degree && ltb 1 (vs e.v2_id).degree)
    && negative_supported vs es

abbrev pub starts_optional : List EdgeInfo → Bool
starts_optional [] = true
starts_optional (e ∷ es) = is_optional_type e.e_type

-- `_make_query_graph`. The first assertion on the edges is part of `starts_optional`.
module _ {Name : Type 0} (same_name : Name → Name → Bool)
    (vertex_label_id edge_label_id : Name → Option ℕ) where
  unfoldable pub make_query_graph :
      List (ParseVertexInfo Name)
      → List (ParseEdgeInfo Name)
      → List (ParseConstraintInfo Name)
      → Option QueryGraph
  make_query_graph pvs pes pcs = do
    check (ltb 0 (length pvs))
    check (ltb 0 (length pes))
    (m, vs) ← make_vertices same_name vertex_label_id 0 pvs [] (λ _. blank_vertex)
    (vs', es) ← make_edges same_name edge_label_id m pes vs
    check (not (starts_optional es))
    check (has_degrees (length pvs) vs')
    check (optional_last false es)
    marked ← mark_vertices es (λ _. false) vs'
    let es' = mark_edges marked es
    check (negative_supported marked es')
    cs ← make_constraints same_name m marked pcs
    some (record {
      num_vertices = length pvs;
      vertices_info = marked;
      edges_info = es';
      constraints_info = cs;
    })

-- `is_optional_pattern`
abbrev pub is_optional_pattern : List EdgeInfo → Bool
is_optional_pattern [] = false
is_optional_pattern (e ∷ es) = is_optional_type e.e_type || is_optional_pattern es

-- `is_negative_pattern`
abbrev pub is_negative_pattern : List EdgeInfo → Bool
is_negative_pattern [] = false
is_negative_pattern (e ∷ es) = is_negative_type e.e_type || is_negative_pattern es

-- `num_optional_vertices`
abbrev pub num_optional_vertices : ℕ → (ℕ → VertexInfo) → ℕ
num_optional_vertices zero vs = 0
num_optional_vertices (suc n) vs =
    num_optional_vertices n vs + (if (vs n).is_optional then 1 else 0)

-- `num_max_negative_vertices`
abbrev pub num_max_negative_vertices : List EdgeInfo → ℕ
num_max_negative_vertices [] = 0
num_max_negative_vertices (e ∷ es) =
    (if is_negative_type e.e_type then 1 else 0) + num_max_negative_vertices es
