-- ===== src/QueryGraph/Optionals.antt =====
-- The vertices that source/cuMatch/query_graph.cpp marks as optional.
use cu_match.Prelude.{
  ℕ, ◌≡◌, refl, ◌∙◌, Bool, true, false, not, ◌&&◌, ◌||◌, some, List, [], ◌∷◌, ◌==◌, ltb, arith,
  Bool-cases, inl, inr, check-elim, some_inj,
}
use mathlib.Core.Path.{fun_ext}
use cu_match.QueryGraph.{
  VertexInfo, EdgeInfo, is_optional_type, mark_vertex, note_regular, mark_vertices, optional_last,
}

-- The vertex is an end of an edge that is not optional.
abbrev pub touches_regular : ℕ → List EdgeInfo → Bool
touches_regular v [] = false
touches_regular v (e ∷ es) =
    not (is_optional_type e.e_type) && (e.v1_id == v || e.v2_id == v) || touches_regular v es

-- The vertex is the first end of an optional edge, or the second and the first one is regular.
abbrev pub marked : (ℕ → Bool) → ℕ → List EdgeInfo → Bool
marked regular v [] = false
marked regular v (e ∷ es) =
    is_optional_type e.e_type
      && not (regular v)
      && (e.v1_id == v || regular e.v1_id && e.v2_id == v)
    || marked regular v es

abbrev regular_after : List EdgeInfo → (ℕ → Bool) → ℕ → Bool
regular_after [] is_regular = is_regular
regular_after (e ∷ es) is_regular = regular_after es (note_regular e is_regular)

regular_after-eq-touches_regular :
    (es : List EdgeInfo) (is_regular : ℕ → Bool) (v : ℕ)
    → regular_after es is_regular v ≡ (is_regular v || touches_regular v es)
regular_after-eq-touches_regular [] is_regular v = ground arith
regular_after-eq-touches_regular (e ∷ es) is_regular v =
    ground (arith, regular_after-eq-touches_regular es (note_regular e is_regular) v)

regular_after-optional :
    (es : List EdgeInfo) (is_regular : ℕ → Bool)
    → optional_last true es ≡ true
    → regular_after es is_regular ≡ is_regular
regular_after-optional [] is_regular h = refl
regular_after-optional (e ∷ es) is_regular h = elim (Bool-cases (is_optional_type e.e_type)) [
  | inl opt ↦ rw opt (regular_after-optional es is_regular (ground arith))
  | inr other ↦ absurd (ground arith)
]

mark_vertex-marked :
    (e : EdgeInfo) (is_regular : ℕ → Bool) (vs : ℕ → VertexInfo) (v : ℕ)
    → (is_optional_type e.e_type && (is_regular e.v1_id && is_regular e.v2_id)) ≡ false
    → ((mark_vertex e is_regular vs v).is_optional
        ≡ ((vs v).is_optional || marked is_regular v (e ∷ [])))
      × ((mark_vertex e is_regular vs v).degree ≡ (vs v).degree)
mark_vertex-marked e is_regular vs v h = ground arith

mark_vertices-marked :
    (es : List EdgeInfo) (seen : Bool) (is_regular : ℕ → Bool) (vs vs' : ℕ → VertexInfo) (v : ℕ)
    → optional_last seen es ≡ true
    → mark_vertices es is_regular vs ≡ some vs'
    → ((vs' v).is_optional ≡ ((vs v).is_optional || marked (regular_after es is_regular) v es))
      × ((vs' v).degree ≡ (vs v).degree)
unfolding mark_vertices
mark_vertices-marked [] seen is_regular vs vs' v o h = rw (← some_inj h) (ground arith)
mark_vertices-marked (e ∷ es) seen is_regular vs vs' v o h =
    check-elim (ltb e.v1_id 8 && ltb e.v2_id 8) _ h λ _ h1.
      check-elim (not (is_optional_type e.e_type && (is_regular e.v1_id && is_regular e.v2_id))) _
        h1
        λ new h2.
          let (first, degree) = mark_vertex-marked e is_regular vs v (ground arith) in
          let (rest, degree') =
            mark_vertices-marked es (is_optional_type e.e_type) (note_regular e is_regular) _ vs' v
              (ground arith) h2 in
          (
            elim (Bool-cases (is_optional_type e.e_type)) [
              | inl opt ↦
                  let last : regular_after es (note_regular e is_regular) ≡ is_regular =
                    rw opt (regular_after-optional es is_regular (ground arith)) in
                  rw last (ground (arith, rw last at rest))
              | inr other ↦ ground arith
            ],
            degree' ∙ degree,
          )

-- Where optional edges stand behind all others, the loop marks exactly the vertices that no other
-- edge touches and that are the first end of an optional edge, or its second end behind a first end
-- that another edge touches. No degree changes.
pub mark_vertices_lem :
    (es : List EdgeInfo) (vs vs' : ℕ → VertexInfo) (v : ℕ)
    → optional_last false es ≡ true
    → mark_vertices es (λ _. false) vs ≡ some vs'
    → ((vs' v).is_optional ≡ ((vs v).is_optional || marked (λ u. touches_regular u es) v es))
      × ((vs' v).degree ≡ (vs v).degree)
mark_vertices_lem es vs vs' v o h =
    let (is_optional, degree) = mark_vertices-marked es false (λ _. false) vs vs' v o h in
    let e : regular_after es (λ _. false) ≡ (λ u. touches_regular u es) =
      fun_ext λ u. regular_after-eq-touches_regular es (λ _. false) u in
    (rw (← e) is_optional, degree)
