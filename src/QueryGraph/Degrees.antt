-- ===== src/QueryGraph/Degrees.antt =====
-- What holds of the query graph that source/cuMatch/query_graph.cpp makes: its degrees and ids.
use cu_match.Prelude.{
  ℕ, ◌+◌, ◌≤◌, ◌<◌, ◌≡◌, ◌≢◌, inl, inr, refl, ap, ◌∙◌, sym, Bool, true, false, not, Option, none,
  some, List, [], ◌∷◌, length, leb→le, ◌==◌, if◌then◌else◌, arith, All, Bool-cases, ==_iff,
  >>=-elim, check-elim, some-pair, update,
}
use mathlib.Core.Path.{subst}
use cu_match.QueryGraph.{
  VertexInfo, EdgeInfo, ParseVertexInfo, ParseEdgeInfo, add_degree, find, make_vertices, make_edges,
}

-- How often the vertex is an end of an edge.
abbrev pub ends : ℕ → List EdgeInfo → ℕ
ends v [] = 0
ends v (e ∷ es) = (if e.v1_id == v then 1 else 0) + (if e.v2_id == v then 1 else 0) + ends v es

-- An edge between two different vertices of the graph.
abbrev pub IsProper : ℕ → EdgeInfo → Type 0
IsProper n e = (e.v1_id ≢ e.v2_id) × (e.v1_id < n) × (e.v2_id < n)

add_degree-degree :
    (v1 v2 u : ℕ) (vs : ℕ → VertexInfo)
    → (add_degree v2 (add_degree v1 vs) u).degree
      ≡ (vs u).degree + ((if v1 == u then 1 else 0) + (if v2 == u then 1 else 0))
add_degree-degree v1 v2 u vs = ground arith

add_degree-bound :
    (v1 v2 u : ℕ) (vs : ℕ → VertexInfo)
    → (vs u).degree ≤ 4
    → (add_degree v2 (add_degree v1 vs) v1).degree ≤ 4
    → (add_degree v2 (add_degree v1 vs) v2).degree ≤ 4
    → (add_degree v2 (add_degree v1 vs) u).degree ≤ 4
add_degree-bound v1 v2 u vs a b c = elim (Bool-cases (v1 == u)) [
  | inl first ↦
      subst (λ w. (add_degree v2 (add_degree v1 vs) w).degree ≤ 4) ((==_iff v1 u).0 first) b
  | inr _ ↦ elim (Bool-cases (v2 == u)) [
    | inl second ↦
        subst (λ w. (add_degree v2 (add_degree v1 vs) w).degree ≤ 4) ((==_iff v2 u).0 second) c
    | inr _ ↦ ground arith
  ]
]

module _ {Name : Type 0} (same_name : Name → Name → Bool) where
  abbrev pub Below : ℕ → List (Name × ℕ) → Type 0
  Below n m = All (λ x. x.1 < n) m

  pub find-lt :
      (n : ℕ) (m : List (Name × ℕ)) (name : Name) (i : ℕ)
      → Below n m
      → find same_name m name ≡ some i
      → i < n
  find-lt n [] name i b h = cc
  find-lt n ((k, j) ∷ m) name i b h = elim (Bool-cases (same_name k name)) [
    | inl same ↦ ground arith
    | inr other ↦ find-lt n m name i b.1 (ground arith)
  ]

  Below-suc : (n : ℕ) (m : List (Name × ℕ)) → Below n m → Below (n + 1) m
  Below-suc n [] h = tt
  Below-suc n (x ∷ m) h = (omega (arith, h.0), Below-suc n m h.1)

  pub make_vertices-Below :
      (label_id : Name → Option ℕ) (i n : ℕ) (ps : List (ParseVertexInfo Name))
      (m m' : List (Name × ℕ)) (vs vs' : ℕ → VertexInfo)
      → i + length ps ≡ n
      → Below i m
      → ((v : ℕ) → ((vs v).degree ≡ 0) × ((vs v).is_optional ≡ false))
      → make_vertices same_name label_id i ps m vs ≡ some (m', vs')
      → Below n m' × ((v : ℕ) → ((vs' v).degree ≡ 0) × ((vs' v).is_optional ≡ false))
  unfolding make_vertices
  make_vertices-Below label_id i n [] m m' vs vs' l b d h =
      let (e, e') = some-pair h in rw (← e, ← e') (subst (λ k. Below k m) (omega (arith, l)) b, d)
  make_vertices-Below label_id i n (p ∷ ps) m m' vs vs' l b d h =
      >>=-elim (label_id p.label) _ h λ vl_id _ h1.
        check-elim (elim (find same_name m p.name) [ none ↦ true | some _ ↦ false ]) _ h1
          λ _ h2.
            let vs1 = update vs i (record { vl_id = vl_id; degree = 0; is_optional = false }) in
            make_vertices-Below label_id (i + 1) n ps ((p.name, i) ∷ m) m' vs1 vs'
              (omega (arith, l)) (omega arith, Below-suc i m b) (λ v. ground (arith, d v)) h2

  -- One round of the loop on the edges.
  record AddsEdge (label_id : Name → Option ℕ) (m : List (Name × ℕ)) (p : ParseEdgeInfo Name)
      (ps : List (ParseEdgeInfo Name)) (vs vs' : ℕ → VertexInfo) (es : List EdgeInfo) : Type 0 where
    edge : EdgeInfo
    rest : List EdgeInfo
    whole : es ≡ edge ∷ rest
    first : find same_name m p.v1_name ≡ some edge.v1_id
    second : find same_name m p.v2_name ≡ some edge.v2_id
    differs : edge.v1_id ≢ edge.v2_id
    first_degree : (add_degree edge.v2_id (add_degree edge.v1_id vs) edge.v1_id).degree ≤ 4
    second_degree : (add_degree edge.v2_id (add_degree edge.v1_id vs) edge.v2_id).degree ≤ 4
    later :
        make_edges same_name label_id m ps (add_degree edge.v2_id (add_degree edge.v1_id vs))
        ≡ some (vs', rest)

  make_edges-AddsEdge :
      (label_id : Name → Option ℕ) (m : List (Name × ℕ)) (p : ParseEdgeInfo Name)
      (ps : List (ParseEdgeInfo Name)) (vs vs' : ℕ → VertexInfo) (es : List EdgeInfo)
      → make_edges same_name label_id m (p ∷ ps) vs ≡ some (vs', es)
      → AddsEdge label_id m p ps vs vs' es
  unfolding make_edges
  make_edges-AddsEdge label_id m p ps vs vs' es h = >>=-elim (label_id p.label) _ h λ el _ h1.
      >>=-elim (find same_name m p.v1_name) _ h1 λ v1 f1 h2.
        >>=-elim (find same_name m p.v2_name) _ h2 λ v2 f2 h3.
          check-elim (not (v1 == v2)) _ h3 λ ne h4. check-elim _ _ h4 λ d1 h5.
            check-elim _ _ h5 λ d2 h6.
              >>=-elim (make_edges same_name label_id m ps (add_degree v2 (add_degree v1 vs))) _ h6
                λ r run e.
                  let (same, whole) = some-pair e in
                  record {
                    edge = record {
                      el_id = el;
                      v1_id = v1;
                      v2_id = v2;
                      e_type = p.e_type;
                      e_dir = p.e_dir;
                      optional_edge_with_regular_vertex = false;
                    };
                    rest = r.1;
                    whole = sym whole;
                    first = f1;
                    second = f2;
                    differs = ground arith;
                    first_degree = leb→le _ _ d1;
                    second_degree = leb→le _ _ d2;
                    later = run ∙ ap (λ x. some (x, r.1)) same;
                  }

  pub make_edges-ends :
      (label_id : Name → Option ℕ) (n : ℕ) (m : List (Name × ℕ)) (ps : List (ParseEdgeInfo Name))
      (vs vs' : ℕ → VertexInfo) (es : List EdgeInfo)
      → Below n m
      → ((v : ℕ) → (vs v).degree ≤ 4)
      → make_edges same_name label_id m ps vs ≡ some (vs', es)
      → ((v : ℕ)
          → ((vs' v).degree ≡ (vs v).degree + ends v es)
            × ((vs' v).degree ≤ 4)
            × ((vs' v).is_optional ≡ (vs v).is_optional))
        × All (IsProper n) es
        × (length es ≡ length ps)
  unfolding make_edges
  make_edges-ends label_id n m [] vs vs' es b d h =
      let (e, e') = some-pair h in rw (← e, ← e') (λ v. (omega arith, d v, refl), tt, refl)
  make_edges-ends label_id n m (p ∷ ps) vs vs' es b d h =
      let record {
        edge = e;
        rest = rest;
        whole = whole;
        first = f1;
        second = f2;
        differs = ne;
        first_degree = d1;
        second_degree = d2;
        later = later;
      } =
        make_edges-AddsEdge label_id m p ps vs vs' es h in
      let (degrees, proper, size) =
        make_edges-ends label_id n m ps _ vs' rest b
          (λ v. add_degree-bound e.v1_id e.v2_id v vs (d v) d1 d2) later in
      rw whole (
        λ v.
            let (sum, bound, same) = degrees v in
            (
              omega (arith, sum, add_degree-degree e.v1_id e.v2_id v vs),
              bound,
              same ∙ ground arith,
            ),
        ((ne, find-lt n m p.v1_name e.v1_id b f1, find-lt n m p.v2_name e.v2_id b f2), proper),
        omega (arith, size),
      )
