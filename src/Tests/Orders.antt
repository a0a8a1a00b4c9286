-- ===== src/Tests/Orders.antt =====
-- The orders of a path of two edges and of a triangle, as in source/cuMatch/lgf_scheduler.cpp.
use cu_match.Prelude.{
  ℕ, ◌+◌, ◌<◌, ◌≡◌, ◌≢◌, refl, false, some, List, [], ◌∷◌, ltb, if◌then◌else◌, count, arith,
}
use cu_match.QueryGraph.{VertexInfo, EdgeInfo, regular, directed}
use cu_match.Scheduler.Orders.{
  AdjListInfo, NewOrder, holder, fill_rank, fill_adj, split_order, place_optional, new_order,
  make_lftj_order,
}
use cu_match.Scheduler.Orders.Edges.{order_ids, make_lftj_order-edges}
use cu_match.Scheduler.Orders.Vertices.{make_lftj_order-count}

abbrev plain : ℕ → VertexInfo
plain v = record { vl_id = 0; degree = 2; is_optional = false }

abbrev edge : ℕ → ℕ → EdgeInfo
edge a b = record {
  el_id = 0;
  v1_id = a;
  v2_id = b;
  e_type = regular;
  e_dir = directed;
  optional_edge_with_regular_vertex = false;
}

-- each edge joins a vertex to the next
abbrev chain : ℕ → EdgeInfo
chain k = edge k (k + 1)

abbrev unsorted : List AdjListInfo → List AdjListInfo
unsorted l = l

ranks_differ :
    (k : ℕ)
    → k < 2
    → fill_rank 0 (0 ∷ 1 ∷ 2 ∷ []) (λ v. 0) k ≢ fill_rank 0 (0 ∷ 1 ∷ 2 ∷ []) (λ v. 0) (k + 1)
ranks_differ k lt = ground arith

make_lftj_order-count_example :
    (o : NewOrder) × (rank : ℕ → ℕ) × (make_lftj_order unsorted plain chain 2 (0 ∷ 1 ∷ 2 ∷ [])
      ≡ some (o, rank))
    × ((u : ℕ) → count u o.order ≡ count u (0 ∷ 1 ∷ 2 ∷ []))
make_lftj_order-count_example =
    make_lftj_order-count unsorted plain chain 2 (0 ∷ 1 ∷ 2 ∷ []) ranks_differ

ordered :
    (r : NewOrder × (ℕ → ℕ)) × (make_lftj_order unsorted plain chain 2 (0 ∷ 1 ∷ 2 ∷ []) ≡ some r)
unfolding make_lftj_order fill_adj holder new_order split_order place_optional
ordered = (_, refl)

make_lftj_order-edges_example : count 1 (order_ids ordered.0.0.edge_order) ≡ (
    if ltb 1 2
    then count (holder plain chain (fill_rank 0 (0 ∷ 1 ∷ 2 ∷ []) (λ v. 0)) 1).0 (0 ∷ 1 ∷ 2 ∷ [])
    else 0)
make_lftj_order-edges_example =
    make_lftj_order-edges unsorted plain chain 2 (0 ∷ 1 ∷ 2 ∷ []) ordered.0.0 ordered.0.1 1
      (λ l. refl) ordered.1

ends_differ : (i : ℕ) → (chain i).v1_id ≢ (chain i).v2_id
ends_differ i h = absurd (omega arith)
