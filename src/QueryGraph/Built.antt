-- ===== src/QueryGraph/Built.antt =====
-- `_make_query_graph` of source/cuMatch/query_graph.cpp as a whole.
use cu_match.Prelude.{
  ℕ, zero, suc, ◌≤◌, ◌<◌, ◌≡◌, ◌≢◌, refl, ◌∙◌, sym, Bool, true, false, not, ◌&&◌, Option, some,
  List, [], ◌∷◌, length, ltb, ◌==◌, arith, All, Bool-cases, ==_iff, inl, inr, >>=-elim, check-elim,
  some_inj,
}
use mathlib.Core.Path.{subst, fun_ext}
use cu_match.QueryGraph.{
  VertexInfo, EdgeInfo, ConstraintInfo, ParseVertexInfo, ParseEdgeInfo, ParseConstraintInfo,
  QueryGraph, is_optional_type, make_vertices, make_edges, make_constraints, has_degrees,
  optional_last, starts_optional, mark_vertices, mark_edges, negative_supported, differ,
  make_query_graph, blank_vertex,
}
use cu_match.QueryGraph.Degrees.{ends, IsProper, make_vertices-Below, make_edges-ends}
use cu_match.QueryGraph.Optionals.{touches_regular, marked, mark_vertices_lem}

-- What the other parts may rely on.
pub record IsBuilt (g : QueryGraph) : Type 0 where
  pub proper : All (IsProper g.num_vertices) g.edges_info
  pub degree : (v : ℕ) → (g.vertices_info v).degree ≡ ends v g.edges_info
  pub bounded : (v : ℕ) → (g.vertices_info v).degree ≤ 4
  pub used : (v : ℕ) → v < g.num_vertices → (g.vertices_info v).degree ≢ 0
  pub optional :
      (v : ℕ)
      → (g.vertices_info v).is_optional
        ≡ marked (λ u. touches_regular u g.edges_info) v g.edges_info
  pub mixed :
      All
        (λ e. e.optional_edge_with_regular_vertex ≡ (
          is_optional_type e.e_type
          && differ (g.vertices_info e.v1_id).is_optional (g.vertices_info e.v2_id).is_optional))
        g.edges_info

has_degrees-used :
    (n v : ℕ) (vs : ℕ → VertexInfo) → has_degrees n vs ≡ true → v < n → (vs v).degree ≢ 0
has_degrees-used zero v vs h lt = absurd (omega arith)
has_degrees-used (suc n) v vs h lt = elim (Bool-cases (v == n)) [
  | inl last ↦ rw ((==_iff v n).0 last) (ground arith)
  | inr other ↦ has_degrees-used n v vs (ground arith) (ground arith)
]

-- The last loop on the edges changes only the flag.
module _ (vs : ℕ → VertexInfo) where
  ends-mark_edges : (v : ℕ) (es : List EdgeInfo) → ends v (mark_edges vs es) ≡ ends v es
  ends-mark_edges v [] = refl
  ends-mark_edges v (e ∷ es) = omega (arith, ends-mark_edges v es)

  IsProper-mark_edges :
      (n : ℕ) (es : List EdgeInfo) → All (IsProper n) es → All (IsProper n) (mark_edges vs es)
  IsProper-mark_edges n [] h = tt
  IsProper-mark_edges n (e ∷ es) h = (h.0, IsProper-mark_edges n es h.1)

  touches_regular-mark_edges :
      (v : ℕ) (es : List EdgeInfo) → touches_regular v (mark_edges vs es) ≡ touches_regular v es
  touches_regular-mark_edges v [] = refl
  touches_regular-mark_edges v (e ∷ es) = rw (touches_regular-mark_edges v es)

  marked-mark_edges :
      (regular : ℕ → Bool) (v : ℕ) (es : List EdgeInfo)
      → marked regular v (mark_edges vs es) ≡ marked regular v es
  marked-mark_edges regular v [] = refl
  marked-mark_edges regular v (e ∷ es) = rw (marked-mark_edges regular v es)

  mark_edges-flags :
      (es : List EdgeInfo)
      → All
          (λ e. e.optional_edge_with_regular_vertex ≡ (
            is_optional_type e.e_type && differ (vs e.v1_id).is_optional (vs e.v2_id).is_optional))
          (mark_edges vs es)
  mark_edges-flags [] = tt
  mark_edges-flags (e ∷ es) = (refl, mark_edges-flags es)

built :
    {Name : Type 0} (pvs : List (ParseVertexInfo Name)) (vs vs' : ℕ → VertexInfo)
    (es : List EdgeInfo) (cs : List ConstraintInfo)
    → All (IsProper (length pvs)) es
    → ((v : ℕ) → ((vs v).degree ≡ ends v es) × ((vs v).degree ≤ 4) × ((vs v).is_optional ≡ false))
    → has_degrees (length pvs) vs ≡ true
    → optional_last false es ≡ true
    → mark_vertices es (λ _. false) vs ≡ some vs'
    → IsBuilt (record {
      num_vertices = length pvs;
      vertices_info = vs';
      edges_info = mark_edges vs' es;
      constraints_info = cs;
    })
built pvs vs vs' es cs proper sums used last run = record {
  proper = IsProper-mark_edges vs' (length pvs) es proper;
  degree = λ v.
      let (_, same) = mark_vertices_lem es vs vs' v last run in
      same ∙ (sums v).0 ∙ sym (ends-mark_edges vs' v es);
  bounded = λ v. let (_, same) = mark_vertices_lem es vs vs' v last run in rw same (sums v).1;
  used = λ v lt.
      let (_, same) = mark_vertices_lem es vs vs' v last run in
      rw same (has_degrees-used (length pvs) v vs used lt);
  optional = λ v.
      let (is_optional, _) = mark_vertices_lem es vs vs' v last run in
      let same = fun_ext λ u. touches_regular-mark_edges vs' u es in
      is_optional
      ∙ rw (same, (sums v).2) (sym (marked-mark_edges vs' (λ u. touches_regular u es) v es));
  mixed = mark_edges-flags vs' es;
}

module _ {Name : Type 0} (same_name : Name → Name → Bool)
    (vertex_label_id edge_label_id : Name → Option ℕ) (pvs : List (ParseVertexInfo Name))
    (pes : List (ParseEdgeInfo Name)) (pcs : List (ParseConstraintInfo Name)) where
  -- A graph that passes the assertions: each edge joins two different vertices of the graph, the
  -- degree of a vertex is the number of its edge ends, at least 1 and at most 4, a vertex is
  -- optional exactly if no edge of another type touches it and it is the first end of an optional
  -- edge, or the second end behind a first end that such an edge touches, and an edge is flagged
  -- exactly if it is optional and one of its ends is.
  pub make_query_graph-IsBuilt :
      (g : QueryGraph)
      → make_query_graph same_name vertex_label_id edge_label_id pvs pes pcs ≡ some g
      → IsBuilt g
  unfolding make_query_graph
  make_query_graph-IsBuilt g h = check-elim (ltb 0 (length pvs)) _ h λ _ h1.
      check-elim (ltb 0 (length pes)) _ h1 λ _ h2.
        >>=-elim (make_vertices same_name vertex_label_id 0 pvs [] (λ _. blank_vertex)) _ h2
          λ v run_v h3. >>=-elim (make_edges same_name edge_label_id v.0 pes v.1) _ h3 λ e run_e h4.
            check-elim (not (starts_optional e.1)) _ h4 λ _ h5.
              check-elim (has_degrees (length pvs) e.0) _ h5 λ used h6.
                check-elim (optional_last false e.1) _ h6 λ last h7.
                  >>=-elim (mark_vertices e.1 (λ _. false) e.0) _ h7 λ vs run_m h8.
                    check-elim (negative_supported vs (mark_edges vs e.1)) _ h8 λ _ h9.
                      >>=-elim (make_constraints same_name v.0 vs pcs) _ h9 λ cs _ same.
                        let (below, zeros) =
                          make_vertices-Below same_name vertex_label_id 0 (length pvs) pvs [] v.0
                            (λ _. blank_vertex) v.1 (omega arith) tt (λ _. (refl, refl)) run_v in
                        let (sums, proper, _) =
                          make_edges-ends same_name edge_label_id (length pvs) v.0 pes v.1 e.0 e.1
                            below (λ u. omega (arith, (zeros u).0)) run_e in
                        subst IsBuilt (some_inj same) (
                          built pvs e.0 vs e.1 cs proper
                            (λ u.
                              let (sum, bound, flag) = sums u in
                              (omega (arith, sum, (zeros u).0), bound, flag ∙ (zeros u).1))
                            used last run_m)
