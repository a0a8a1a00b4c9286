-- ===== src/Scheduler/Orders/Edges.antt =====
-- The new order of source/cuMatch/lgf_scheduler.cpp holds each query edge once.
use cu_match.Prelude.{
  ℕ, zero, suc, ◌+◌, ◌≡◌, refl, ap, sym, ◌∙◌, true, not, ◌&&◌, some, List, [], ◌∷◌, ◌++◌, length,
  map, ltb, leb, ◌==◌, if◌then◌else◌, update, count, arith, Bool-cases, inl, inr, >>=-elim,
  check-elim, some_inj, some-pair, get_or, List-cases, ==_iff,
}
use cu_match.QueryGraph.{VertexInfo, EdgeInfo}
use cu_match.Scheduler.Orders.{
  AdjListInfo, EdgeOrderInfo, NewOrder, holder, no_order, add_edges, place, split_order,
  place_optional, new_order, fill_rank, fill_adj, make_lftj_order,
}

abbrev pub adj_ids : List AdjListInfo → List ℕ
adj_ids = map (λ a. a.edge_id)

abbrev pub order_ids : List EdgeOrderInfo → List ℕ
order_ids = map (λ a. a.edge_id)

adj_ids-append :
    (i : ℕ) (xs ys : List AdjListInfo)
    → count i (adj_ids (xs ++ ys)) ≡ count i (adj_ids xs) + count i (adj_ids ys)
adj_ids-append i [] ys = omega arith
adj_ids-append i (x ∷ xs) ys = omega (arith, adj_ids-append i xs ys)

order_ids-append :
    (i : ℕ) (xs ys : List EdgeOrderInfo)
    → count i (order_ids (xs ++ ys)) ≡ count i (order_ids xs) + count i (order_ids ys)
order_ids-append i [] ys = omega arith
order_ids-append i (x ∷ xs) ys = omega (arith, order_ids-append i xs ys)

adj_ids-grow :
    (adj : ℕ → List AdjListInfo) (w i u k v : ℕ)
    → count k
        (adj_ids (update adj w (adj w ++ record { edge_id = i; opposite_order_id = u } ∷ []) v))
      ≡ count k (adj_ids (adj v)) + (if v == w && i == k then 1 else 0)
adj_ids-grow adj w i u k v = elim (Bool-cases (v == w)) [
  | inl here ↦
      let e = (==_iff v w).0 here in
      rw (here, e)
        (adj_ids-append k (adj w) (record { edge_id = i; opposite_order_id = u } ∷ [])
          ∙ ap (λ x. count k (adj_ids (adj w)) + x) (omega arith))
  | inr there ↦ rw there (omega arith)
]

-- An edge stands once in the list of its holder, and in no other.
fill_adj-count :
    (vertices_info : ℕ → VertexInfo) (edges_info : ℕ → EdgeInfo) (rank : ℕ → ℕ) (order : List ℕ)
    (i n : ℕ) (adj adj' : ℕ → List AdjListInfo) (k v : ℕ)
    → fill_adj vertices_info edges_info rank order i n adj ≡ some adj'
    → count k (adj_ids (adj' v))
      ≡ count k (adj_ids (adj v))
        + (if leb i k && ltb k (i + n) && (holder vertices_info edges_info rank k).0 == v
            then 1
            else 0)
unfolding fill_adj
fill_adj-count vertices_info edges_info rank order i zero adj adj' k v h =
    rw (← some_inj h) (ground arith)
fill_adj-count vertices_info edges_info rank order i (suc n) adj adj' k v h =
    check-elim (not (rank (edges_info i).v1_id == rank (edges_info i).v2_id)) _ h λ _ h1.
      let w = (holder vertices_info edges_info rank i).0 in
      let u = (holder vertices_info edges_info rank i).1 in
      let x : AdjListInfo = record { edge_id = i; opposite_order_id = get_or order u 0 } in
      let ih =
        fill_adj-count vertices_info edges_info rank order (i + 1) n
          (update adj w (adj w ++ x ∷ [])) adj' k v h1 in
      let grown = adj_ids-grow adj w i (get_or order u 0) k v in
      elim (Bool-cases (i == k)) [
        | inl same ↦
            let e = ap (λ x. (holder vertices_info edges_info rank x).0) ((==_iff i k).0 same) in
            ground arith
        | inr other ↦ ground arith
      ]

module _ (vertices_info : ℕ → VertexInfo) (adj : ℕ → List AdjListInfo) (k : ℕ) where
  -- How often the edge is in the lists of some vertices.
  abbrev pub held : List ℕ → ℕ
  held [] = 0
  held (v ∷ vs) = count k (adj_ids (adj v)) + held vs

  held-append : (xs ys : List ℕ) → held (xs ++ ys) ≡ held xs + held ys
  held-append [] ys = omega arith
  held-append (x ∷ xs) ys = omega (arith, held-append xs ys)

  add_edges-count :
      (idx : ℕ) (adjs : List AdjListInfo) (o : NewOrder)
      → (count k (order_ids (add_edges idx adjs o).edge_order)
          ≡ count k (order_ids o.edge_order) + count k (adj_ids adjs))
        × ((add_edges idx adjs o).optional_vertices ≡ o.optional_vertices)
  add_edges-count idx [] o = (omega arith, refl)
  add_edges-count idx (a ∷ adjs) o =
      let o' = record o {
        edge_order = o.edge_order ++ record { edge_id = a.edge_id; order = idx } ∷ [];
        elevel_to_vlevel = o.elevel_to_vlevel ++ idx ∷ [];
      } in
      let (n, same) = add_edges-count idx adjs o' in
      (
        omega (
          arith,
          n,
          order_ids-append k o.edge_order (record { edge_id = a.edge_id; order = idx } ∷ []),
        ),
        same,
      )

  length-zero : (v : ℕ) → (length (adj v) == 0) ≡ true → count k (adj_ids (adj v)) ≡ 0
  length-zero v h = elim (List-cases (adj v)) [
    | inl empty ↦ rw empty refl
    | inr (x, rest, e) ↦ absurd (ground (arith, ap length e))
  ]

  split_order-held :
      (vs : List ℕ) (o : NewOrder)
      → count k (order_ids (split_order vertices_info adj vs o).edge_order)
          + held (split_order vertices_info adj vs o).optional_vertices
        ≡ count k (order_ids o.edge_order) + held o.optional_vertices + held vs
  unfolding split_order
  split_order-held [] o = omega arith
  split_order-held (v ∷ vs) o = elim (Bool-cases (length (adj v) == 0)) [
    | inl empty ↦
        let none_held = length-zero v empty in
        elim (Bool-cases (vertices_info v).is_optional) [
          | inl opt ↦
              rw (empty, opt, split_order)
                (omega (
                  arith,
                  none_held,
                  split_order-held vs
                      (record o { optional_postfix_order = o.optional_postfix_order ++ v ∷ [] }),
                ))
          | inr reg ↦
              rw (empty, reg, split_order)
                (omega (
                  arith,
                  none_held,
                  split_order-held vs (record o { postfix_order = o.postfix_order ++ v ∷ [] }),
                ))
        ]
    | inr some_edge ↦ elim (Bool-cases (vertices_info v).is_optional) [
      | inl opt ↦
          rw (some_edge, opt, split_order)
            (omega (
              arith,
              held-append o.optional_vertices (v ∷ []),
              split_order-held vs (record o { optional_vertices = o.optional_vertices ++ v ∷ [] }),
            ))
      | inr reg ↦
          let (n, same) = add_edges-count (length o.order) (adj v) o in
          rw (some_edge, reg, split_order)
            (omega (arith, n, ap held same, split_order-held vs (place adj v o)))
    ]
  ]

  place_optional-held :
      (vs : List ℕ) (o : NewOrder)
      → count k (order_ids (place_optional vertices_info adj vs o).edge_order)
        ≡ count k (order_ids o.edge_order) + held vs
  unfolding place_optional
  place_optional-held [] o = omega arith
  place_optional-held (v ∷ vs) o =
      let (n, same) = add_edges-count (length o.order) (adj v) o in
      omega (arith, n, place_optional-held vs (place adj v o))

  new_order-held :
      (vs : List ℕ) → count k (order_ids (new_order vertices_info adj vs).edge_order) ≡ held vs
  unfolding new_order
  new_order-held vs =
      let o = split_order vertices_info adj vs no_order in
      let o1 = record o { order = o.order ++ o.postfix_order } in
      omega (arith, split_order-held vs no_order, place_optional-held o.optional_vertices o1)

held-holder :
    (vertices_info : ℕ → VertexInfo) (adj : ℕ → List AdjListInfo) (k n w : ℕ) (vs : List ℕ)
    → ((v : ℕ) → count k (adj_ids (adj v)) ≡ (if ltb k n && w == v then 1 else 0))
    → held vertices_info adj k vs ≡ (if ltb k n then count w vs else 0)
held-holder vertices_info adj k n w [] h = ground arith
held-holder vertices_info adj k n w (v ∷ vs) h =
    ground (arith, h v, held-holder vertices_info adj k n w vs h)

-- In the order for the attribute join an edge of the query stands as often as its holder, one of its
-- two ends, stands in the given order of the vertices: once, if that order is a permutation. The sort
-- may be any that keeps the edges.
pub make_lftj_order-edges :
    (sort : List AdjListInfo → List AdjListInfo) (vertices_info : ℕ → VertexInfo)
    (edges_info : ℕ → EdgeInfo) (num_edges : ℕ) (order : List ℕ) (o : NewOrder) (rank : ℕ → ℕ)
    (k : ℕ)
    → ((l : List AdjListInfo) → count k (adj_ids (sort l)) ≡ count k (adj_ids l))
    → make_lftj_order sort vertices_info edges_info num_edges order ≡ some (o, rank)
    → count k (order_ids o.edge_order) ≡ (
        if ltb k num_edges
        then count (holder vertices_info edges_info (fill_rank 0 order (λ v. 0)) k).0 order
        else 0)
unfolding make_lftj_order
make_lftj_order-edges sort vertices_info edges_info num_edges order o rank k keeps h =
    let r = fill_rank 0 order (λ v. 0) in
    >>=-elim (fill_adj vertices_info edges_info r order 0 num_edges (λ v. [])) _ h λ adj run h1.
      check-elim (length (new_order vertices_info (λ v. sort (adj v)) order).order == length order)
        _ h1
        λ _ h2.
          let (same, _) = some-pair h2 in
          let at = λ (v : ℕ).
            keeps (adj v)
            ∙ fill_adj-count vertices_info edges_info r order 0 num_edges (λ v. []) adj k v run in
          ap (λ x. count k (order_ids x.edge_order)) (sym same)
          ∙ new_order-held vertices_info (λ v. sort (adj v)) k order
          ∙ held-holder vertices_info (λ v. sort (adj v)) k num_edges
              (holder vertices_info edges_info r k).0 order (λ v. let e = at v in ground arith)
