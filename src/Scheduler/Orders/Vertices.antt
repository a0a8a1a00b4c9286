-- ===== src/Scheduler/Orders/Vertices.antt =====
-- The new orders of source/cuMatch/lgf_scheduler.cpp hold each query vertex once.
use cu_match.Prelude.{
  ℕ, zero, suc, ◌+◌, ◌≡◌, ◌≢◌, refl, ap, ◌∙◌, Bool, true, false, not, ◌||◌, some, List, [], ◌∷◌,
  ◌++◌, length, ◌==◌, if◌then◌else◌, update, count, count-append, arith, Bool-cases, inl, inr,
  length-append, get_or, ==_iff, ◌<◌,
}
use cu_match.QueryGraph.{VertexInfo, EdgeInfo}
use cu_match.Scheduler.Orders.{
  AdjListInfo, NewOrder, holder, no_order, add_edges, place, split_order, place_optional, new_order,
  fill_rank, fill_adj, make_lftj_order, visit_edges,
}

add_edges-order :
    (idx : ℕ) (adjs : List AdjListInfo) (o : NewOrder)
    → ((add_edges idx adjs o).order ≡ o.order)
      × ((add_edges idx adjs o).postfix_order ≡ o.postfix_order)
      × ((add_edges idx adjs o).optional_vertices ≡ o.optional_vertices)
      × ((add_edges idx adjs o).optional_postfix_order ≡ o.optional_postfix_order)
add_edges-order idx [] o = (refl, refl, refl, refl)
add_edges-order idx (a ∷ adjs) o = add_edges-order idx adjs (record o {
  edge_order = o.edge_order ++ record { edge_id = a.edge_id; order = idx } ∷ [];
  elevel_to_vlevel = o.elevel_to_vlevel ++ idx ∷ [];
})

-- `m` stands for the length of a list, or for how often a vertex is in it.
module _ (m : List ℕ → ℕ) (m-nil : m [] ≡ 0)
    (m-append : (xs ys : List ℕ) → m (xs ++ ys) ≡ m xs + m ys) (vertices_info : ℕ → VertexInfo)
    (adj : ℕ → List AdjListInfo) where
  abbrev placed : NewOrder → ℕ
  placed o = m o.order + m o.postfix_order + m o.optional_vertices + m o.optional_postfix_order

  place-order :
      (v : ℕ) (o : NewOrder)
      → ((place adj v o).order ≡ o.order ++ v ∷ [])
        × ((place adj v o).postfix_order ≡ o.postfix_order)
        × ((place adj v o).optional_vertices ≡ o.optional_vertices)
        × ((place adj v o).optional_postfix_order ≡ o.optional_postfix_order)
  place-order v o =
      let (a, b, c, d) = add_edges-order (length o.order) (adj v) o in
      (ap (λ l. l ++ v ∷ []) a, b, c, d)

  split_order-placed :
      (vs : List ℕ) (o : NewOrder) → placed (split_order vertices_info adj vs o) ≡ placed o + m vs
  unfolding split_order
  split_order-placed [] o = omega (arith, m-nil)
  split_order-placed (v ∷ vs) o = elim (Bool-cases (length (adj v) == 0)) [
    | inl empty ↦ elim (Bool-cases (vertices_info v).is_optional) [
      | inl opt ↦
          rw (empty, opt, split_order)
            (omega (
              arith,
              m-append (v ∷ []) vs,
              split_order-placed vs
                  (record o { optional_postfix_order = o.optional_postfix_order ++ v ∷ [] }),
              m-append o.optional_postfix_order (v ∷ []),
            ))
      | inr reg ↦
          rw (empty, reg, split_order)
            (omega (
              arith,
              m-append (v ∷ []) vs,
              split_order-placed vs (record o { postfix_order = o.postfix_order ++ v ∷ [] }),
              m-append o.postfix_order (v ∷ []),
            ))
    ]
    | inr some_edge ↦ elim (Bool-cases (vertices_info v).is_optional) [
      | inl opt ↦
          rw (some_edge, opt, split_order)
            (omega (
              arith,
              m-append (v ∷ []) vs,
              split_order-placed vs
                  (record o { optional_vertices = o.optional_vertices ++ v ∷ [] }),
              m-append o.optional_vertices (v ∷ []),
            ))
      | inr reg ↦
          let (a, b, c, d) = place-order v o in
          rw (some_edge, reg, split_order)
            (omega (
              arith,
              m-append (v ∷ []) vs,
              split_order-placed vs (place adj v o),
              m-append o.order (v ∷ []),
              ap (m) a,
              ap (m) b,
              ap (m) c,
              ap (m) d,
            ))
    ]
  ]

  place_optional-order :
      (vs : List ℕ) (o : NewOrder)
      → (m (place_optional vertices_info adj vs o).order ≡ m o.order + m vs)
        × ((place_optional vertices_info adj vs o).optional_postfix_order
            ≡ o.optional_postfix_order)
  unfolding place_optional
  place_optional-order [] o = (omega (arith, m-nil), refl)
  place_optional-order (v ∷ vs) o =
      let (a, b, c, d) = place-order v o in
      let (n, same) = place_optional-order vs (place adj v o) in
      let split : m (v ∷ vs) ≡ m (v ∷ []) + m vs = m-append (v ∷ []) vs in
      (omega (arith, n, ap (m) a, m-append o.order (v ∷ [])), same ∙ d)

  new_order-measure : (vs : List ℕ) → m (new_order vertices_info adj vs).order ≡ m vs
  unfolding new_order
  new_order-measure vs =
      let o = split_order vertices_info adj vs no_order in
      let o1 = record o { order = o.order ++ o.postfix_order } in
      let (n, same) = place_optional-order o.optional_vertices o1 in
      omega (
        arith,
        m-nil,
        split_order-placed vs no_order,
        n,
        ap (m) same,
        m-append o.order o.postfix_order,
        m-append (place_optional vertices_info adj o.optional_vertices o1).order
            (place_optional vertices_info adj o.optional_vertices o1).optional_postfix_order,
      )

fill_adj-some :
    (vertices_info : ℕ → VertexInfo) (edges_info : ℕ → EdgeInfo) (rank : ℕ → ℕ) (order : List ℕ)
    (i n : ℕ) (adj : ℕ → List AdjListInfo)
    → ((k : ℕ) → k < i + n → rank (edges_info k).v1_id ≢ rank (edges_info k).v2_id)
    → (adj' : ℕ → List AdjListInfo) × (fill_adj vertices_info edges_info rank order i n adj
        ≡ some adj')
unfolding fill_adj
fill_adj-some vertices_info edges_info rank order i zero adj h = (adj, refl)
fill_adj-some vertices_info edges_info rank order i (suc n) adj h =
    let differ = h i (omega arith) in
    let (adj', run) =
      fill_adj-some vertices_info edges_info rank order (i + 1) n
        (update adj (holder vertices_info edges_info rank i).0 (
          adj (holder vertices_info edges_info rank i).0
          ++ record {
            edge_id = i;
            opposite_order_id = get_or order (holder vertices_info edges_info rank i).1 0;
          }
            ∷ []))
        (λ k lt. h k (omega arith)) in
    let test : not (rank (edges_info i).v1_id == rank (edges_info i).v2_id) ≡ true = ground arith in
    (adj', rw (test, fill_adj) run)

-- Where no edge joins two vertices of one rank, the order for the attribute join is made, no
-- assertion fails, and it holds each vertex as often as the given order does.
pub make_lftj_order-count :
    (sort : List AdjListInfo → List AdjListInfo) (vertices_info : ℕ → VertexInfo)
    (edges_info : ℕ → EdgeInfo) (num_edges : ℕ) (order : List ℕ)
    → ((k : ℕ)
        → k < num_edges
        → fill_rank 0 order (λ v. 0) (edges_info k).v1_id
          ≢ fill_rank 0 order (λ v. 0) (edges_info k).v2_id)
    → (o : NewOrder) × (rank : ℕ → ℕ) × (make_lftj_order sort vertices_info edges_info num_edges
          order
        ≡ some (o, rank))
      × ((u : ℕ) → count u o.order ≡ count u order)
unfolding make_lftj_order
make_lftj_order-count sort vertices_info edges_info num_edges order differ =
    let rank = fill_rank 0 order (λ v. 0) in
    let (adj, run) =
      fill_adj-some vertices_info edges_info rank order 0 num_edges (λ v. [])
        (λ k lt. differ k (omega arith)) in
    let sorted = λ (v : ℕ). sort (adj v) in
    let o = new_order vertices_info sorted order in
    let size : length o.order ≡ length order =
      new_order-measure length refl length-append vertices_info sorted order in
    let test : (length o.order == length order) ≡ true = (==_iff _ _).1 size in
    (
      o,
      fill_rank 0 o.order rank,
      rw (run, test) refl,
      λ u. new_order-measure (count u) refl (count-append u) vertices_info sorted order,
    )

-- The vertex is an end of one of the edges.
abbrev pub touched : (ℕ → EdgeInfo) → ℕ → List ℕ → Bool
touched edges_info u [] = false
touched edges_info u (i ∷ is) =
    (edges_info i).v1_id == u || (edges_info i).v2_id == u || touched edges_info u is

visit_edges-count :
    (edges_info : ℕ → EdgeInfo) (is : List ℕ) (visited : ℕ → Bool) (order : List ℕ)
    → ((i : ℕ) → (edges_info i).v1_id ≢ (edges_info i).v2_id)
    → ((u : ℕ) → count u order ≡ (if visited u then 1 else 0))
    → (order' : List ℕ) × (visit_edges edges_info is visited order ≡ some order')
      × ((u : ℕ) → count u order' ≡ (if visited u || touched edges_info u is then 1 else 0))
unfolding visit_edges
visit_edges-count edges_info [] visited order differ h = (order, refl, λ u. ground (arith, h u))
visit_edges-count edges_info (i ∷ is) visited order differ h =
    let e = edges_info i in
    let order1 = if visited e.v1_id then order else order ++ e.v1_id ∷ [] in
    let order2 = if visited e.v2_id then order1 else order1 ++ e.v2_id ∷ [] in
    let first : (u : ℕ) → count u order1 ≡ (if visited u || e.v1_id == u then 1 else 0) =
      λ u. ground (arith, h u, count-append u order (e.v1_id ∷ [])) in
    let second : (u : ℕ)
        → count u order2 ≡ (if update (update visited e.v1_id true) e.v2_id true u then 1 else 0) =
      λ u. ground (arith, first u, count-append u order1 (e.v2_id ∷ []), differ i) in
    let (order', run, counts) =
      visit_edges-count edges_info is (update (update visited e.v1_id true) e.v2_id true) order2
        differ second in
    let test : not (e.v1_id == e.v2_id) ≡ true = ground (arith, differ i) in
    (order', rw (test, visit_edges) run, λ u. ground (arith, counts u))

-- Where each edge joins two different vertices, the order for the table join is made, and it holds
-- each vertex that an edge touches once, and no other.
visit_edges-once :
    (edges_info : ℕ → EdgeInfo) (edge_order : List ℕ)
    → ((i : ℕ) → (edges_info i).v1_id ≢ (edges_info i).v2_id)
    → (order : List ℕ) × (visit_edges edges_info edge_order (λ v. false) [] ≡ some order)
      × ((u : ℕ) → count u order ≡ (if touched edges_info u edge_order then 1 else 0))
visit_edges-once edges_info edge_order differ =
    visit_edges-count edges_info edge_order (λ v. false) [] differ (λ u. refl)
