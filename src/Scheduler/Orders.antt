-- ===== src/Scheduler/Orders.antt =====
-- The orders that source/cuMatch/lgf_scheduler.cpp makes of the query vertices and edges before it
-- searches: `_make_LFTJ_schedule` and `_make_MJ_schedule`, up to their calls of `_make_sched_plan`.
-- A vector that is only appended to is a list, so an index into it is a length.
pub mod Edges
pub mod Vertices
use cu_match.Prelude.{
  ℕ, zero, suc, ◌+◌, ◌-◌, Bool, true, false, not, Option, none, some, List, [], ◌∷◌, ◌++◌, length,
  ltb, ◌==◌, if◌then◌else◌, update, get_or, ◌>>=◌, ◌>>◌, check, map,
}
use cu_match.QueryGraph.{VertexInfo, EdgeInfo}

-- `_adj_list_info`
pub record AdjListInfo : Type 0 where
  pub edge_id : ℕ
  pub opposite_order_id : ℕ

-- `_edge_order_info`
pub record EdgeOrderInfo : Type 0 where
  pub edge_id : ℕ
  pub order : ℕ

-- The loop `_order_rank[order[i]] = i`, from the counter `i` on
abbrev pub fill_rank : ℕ → List ℕ → (ℕ → ℕ) → ℕ → ℕ
fill_rank i [] rank = rank
fill_rank i (v ∷ vs) rank = fill_rank (i + 1) vs (update rank v i)

module _ (vertices_info : ℕ → VertexInfo) (edges_info : ℕ → EdgeInfo) where
  -- The vertex in whose adjacency list an edge goes, and the other one.
  unfoldable pub holder : (ℕ → ℕ) → ℕ → ℕ × ℕ
  holder rank i =
      let e = edges_info i in
      let by_rank =
        if ltb (rank e.v1_id) (rank e.v2_id) then (e.v1_id, e.v2_id) else (e.v2_id, e.v1_id) in
      if e.optional_edge_with_regular_vertex
      then if not (vertices_info e.v1_id).is_optional
        then (e.v2_id, e.v1_id)
        else if not (vertices_info e.v2_id).is_optional
        then (e.v1_id, e.v2_id)
        else by_rank
      else by_rank

  -- Lines 50 to 74: `i` is the counter, `n` the rounds left.
  unfoldable pub fill_adj :
      (ℕ → ℕ) → List ℕ → ℕ → ℕ → (ℕ → List AdjListInfo) → Option (ℕ → List AdjListInfo)
  fill_adj rank order i zero adj = some adj
  fill_adj rank order i (suc n) adj =
      let e = edges_info i in
      let (v, u) = holder rank i in
      check (not (rank e.v1_id == rank e.v2_id))
      >> fill_adj rank order (i + 1) n (
          update adj v (adj v ++ record { edge_id = i; opposite_order_id = get_or order u 0 } ∷ []))

-- The variables of the loop that makes the new order
pub record NewOrder : Type 0 where
  pub order : List ℕ
  pub edge_order : List EdgeOrderInfo
  pub elevel_to_vlevel : List ℕ
  pub postfix_order : List ℕ
  pub optional_vertices : List ℕ
  pub optional_postfix_order : List ℕ

abbrev pub no_order : NewOrder
no_order = record {
  order = [];
  edge_order = [];
  elevel_to_vlevel = [];
  postfix_order = [];
  optional_vertices = [];
  optional_postfix_order = [];
}

-- The inner loop over the adjacency list of a vertex at `order_idx`
abbrev pub add_edges : ℕ → List AdjListInfo → NewOrder → NewOrder
add_edges order_idx [] o = o
add_edges order_idx (a ∷ adjs) o = add_edges order_idx adjs (record o {
  edge_order = o.edge_order ++ record { edge_id = a.edge_id; order = order_idx } ∷ [];
  elevel_to_vlevel = o.elevel_to_vlevel ++ order_idx ∷ [];
})

-- A vertex goes to the end of the order, with its edges.
abbrev pub place : (ℕ → List AdjListInfo) → ℕ → NewOrder → NewOrder
place adj v o =
    let o' = add_edges (length o.order) (adj v) o in record o' { order = o'.order ++ v ∷ [] }

module _ (vertices_info : ℕ → VertexInfo) (adj : ℕ → List AdjListInfo) where
  -- Lines 83 to 105
  unfoldable pub split_order : List ℕ → NewOrder → NewOrder
  split_order [] o = o
  split_order (v ∷ vs) o = split_order vs (
      if length (adj v) == 0
      then if not (vertices_info v).is_optional
        then record o { postfix_order = o.postfix_order ++ v ∷ [] }
        else record o { optional_postfix_order = o.optional_postfix_order ++ v ∷ [] }
      else if not (vertices_info v).is_optional
      then place adj v o
      else record o { optional_vertices = o.optional_vertices ++ v ∷ [] })

  -- Lines 108 to 117
  unfoldable pub place_optional : List ℕ → NewOrder → NewOrder
  place_optional [] o = o
  place_optional (v ∷ vs) o = place_optional vs (place adj v o)

  -- Lines 80 to 119
  unfoldable pub new_order : List ℕ → NewOrder
  new_order order =
      let o = split_order order no_order in
      let o1 = record o { order = o.order ++ o.postfix_order } in
      let o2 = place_optional o1.optional_vertices o1 in
      record o2 { order = o2.order ++ o2.optional_postfix_order }

-- `_make_LFTJ_schedule` up to the plan; `sort` is `std::sort` by the opposite vertex.
unfoldable pub make_lftj_order :
    (List AdjListInfo → List AdjListInfo)
    → (ℕ → VertexInfo)
    → (ℕ → EdgeInfo)
    → ℕ
    → List ℕ
    → Option (NewOrder × (ℕ → ℕ))
make_lftj_order sort vertices_info edges_info num_edges order = do
  let rank = fill_rank 0 order (λ v. 0)
  adj ← fill_adj vertices_info edges_info rank order 0 num_edges (λ v. [])
  let o = new_order vertices_info (λ v. sort (adj v)) order
  check (length o.order == length order)
  some (o, fill_rank 0 o.order rank)

-- Lines 149 to 164 of `_make_MJ_schedule`
unfoldable pub visit_edges : (ℕ → EdgeInfo) → List ℕ → (ℕ → Bool) → List ℕ → Option (List ℕ)
visit_edges edges_info [] visited order = some order
visit_edges edges_info (i ∷ is) visited order =
    let e = edges_info i in
    let order1 = if visited e.v1_id then order else order ++ e.v1_id ∷ [] in
    let order2 = if visited e.v2_id then order1 else order1 ++ e.v2_id ∷ [] in
    check (not (e.v1_id == e.v2_id))
    >> visit_edges edges_info is (update (update visited e.v1_id true) e.v2_id true) order2

-- Lines 170 to 186: the order of each edge is the rank of its first vertex. The adjacency lists, which
-- only the printing reads in a table join, and the identity `_elevel_to_vlevel` are left out.
abbrev pub order_edges : (ℕ → EdgeInfo) → (ℕ → ℕ) → List ℕ → List EdgeOrderInfo
order_edges edges_info rank [] = []
order_edges edges_info rank (i ∷ is) =
    let e = edges_info i in
    record {
      edge_id = i;
      order = if ltb (rank e.v1_id) (rank e.v2_id) then rank e.v1_id else rank e.v2_id;
    }
    ∷ order_edges edges_info rank is
