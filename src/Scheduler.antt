-- ===== src/Scheduler.antt =====
-- source/cuMatch/lgf_scheduler.cpp: the search for combinations of shards, one for each query
-- edge, in which a query vertex keeps one row of the grid and a range of ids that all its shards
-- share. `Windows` describes the same search without stacks, `Complete` proves that they agree.
mod Data
pub mod Windows
pub mod Restore
pub mod Outcome
pub mod Adds
pub mod Complete
pub mod Orders
pub mod Globals
use cu_match.Prelude.{
  ℕ, zero, suc, ◌+◌, ◌-◌, ◌*◌, ◌<◌, ◌≢◌, Bool, true, false, not, ◌&&◌, ◌||◌, Option, none, some,
  List, [], ◌∷◌, ◌++◌, map, length, ltb, leb, ◌==◌, if◌then◌else◌, min, max, update, ◌>>=◌, ◌>>◌,
  check,
}
use cu_match.SchedTree.{Sleaf, Node, Children, node, nil, cons}
use cu_match.QueryGraph.{
  EdgeType, EdgeInfo, EdgeDirection, optional, negative, regular, directed, undirected,
}
unfoldable pub use Data.{push_range_rslt, pop_range_rslt}
pub use Data.*

-- The two fields of `parent` that the search changes.
pub record Found : Type 0 where
  pub child : Children
  pub valid : Bool

abbrev pub push_back : Children → Node → Children
push_back nil n = cons n nil
push_back (cons p ps) n = cons p (push_back ps n)

-- Lines 460 to 478: a node that leads to a sub-task is linked to its parent.
abbrev pub link : ℕ → ℕ → ℕ → Sleaf → Found → Found → Found
link level e_id qv_id leaf found parent =
    if found.valid
    then record {
      child = push_back parent.child (node (level + 1) e_id (qv_id + 1) (some leaf) found.child);
      valid = true;
    }
    else parent

module _ (i : Input) where
  abbrev pub edge_at : ℕ → EdgeInfo
  edge_at edge_idx = i.edges_info (i.edge_order edge_idx).0

  abbrev pub vertex_at : ℕ → ℕ
  vertex_at edge_idx = i.order (i.edge_order edge_idx).1

  -- The shard that the join reads: outgoing edges if the edge starts at the vertex.
  abbrev pub picks_out : ℕ → Bool
  picks_out edge_idx =
      if (edge_at edge_idx).optional_edge_with_regular_vertex
      then not (vertex_at edge_idx == (edge_at edge_idx).v1_id)
      else vertex_at edge_idx == (edge_at edge_idx).v1_id

  abbrev pub out_sites : Bool → List Switch → List Site
  out_sites out [] = []
  out_sites out (x ∷ xs) =
      record {
        src_range = x.out_edges.actual_src_range;
        dst_range = x.out_edges.actual_dst_range;
        max_src_range = x.out_edges.src_range;
        max_dst_range = x.out_edges.dst_range;
        leaf = if out then x.out_edges.sleaf else x.in_edges.sleaf;
      }
      ∷ out_sites out xs

  -- The reversed block of an undirected edge
  abbrev pub in_sites : Bool → List Switch → List Site
  in_sites out [] = []
  in_sites out (x ∷ xs) =
      record {
        src_range = x.in_edges.actual_src_range;
        dst_range = x.in_edges.actual_dst_range;
        max_src_range = x.out_edges.src_range;
        max_dst_range = x.out_edges.dst_range;
        leaf = if out then x.in_edges.sleaf else x.out_edges.sleaf;
      }
      ∷ in_sites out xs

  abbrev pub sites : ℕ → ℕ → ℕ → List Site
  sites edge_idx r c =
      let e = edge_at edge_idx in
      let out = picks_out edge_idx in
      out_sites out (i.stree (record { row = r; col = c; label = e.el_id })) ++ elim e.e_dir [
        | directed ↦ []
        | undirected ↦ in_sites out (i.stree (record { row = c; col = r; label = e.el_id }))
      ]

  -- The two `for` loops: the blocks (r, c), row by row. `r` and `c` are the counters.
  abbrev pub row_blocks : ℕ → ℕ → ℕ → List (ℕ × ℕ)
  row_blocks r c zero = []
  row_blocks r c (suc n) = (r, c) ∷ row_blocks r (c + 1) n

  abbrev pub blocks_from : ℕ → ℕ → ℕ → ℕ → List (ℕ × ℕ)
  blocks_from r zero c m = []
  blocks_from r (suc n) c m = row_blocks r c m ++ blocks_from (r + 1) n c m

  abbrev pub blocks : ℕ → List (ℕ × ℕ)
  blocks edge_idx =
      let l1 = i.vl_id (edge_at edge_idx).v1_id in
      let l2 = i.vl_id (edge_at edge_idx).v2_id in
      blocks_from (i.min_grid_row l1) (i.max_grid_row l1 - i.min_grid_row l1) (i.min_grid_row l2)
        (i.max_grid_row l2 - i.min_grid_row l2)

  -- The body of the visit of one shard; `next` is the recursive call.
  unfoldable pub visit_site :
      (Ranges → Option (Ranges × Found))
      → ℕ
      → ℕ
      → Gbid
      → Site
      → Ranges
      → Found
      → Option (Ranges × Found)
  visit_site next edge_idx level gbid s g parent = do
    let e = edge_at edge_idx
    pushed ← push_range_rslt i g gbid e s
    elim pushed [
      | none ↦ some (g, parent)
      | some g1 ↦ do
        (g2, found) ← next g1
        g3 ← pop_range_rslt e.v1_id e.v2_id g2
        some (g3, link level (i.edge_order edge_idx).0 (vertex_at edge_idx) s.leaf found parent)
    ]

  unfoldable pub visit_sites :
      (Ranges → Option (Ranges × Found))
      → ℕ
      → ℕ
      → Gbid
      → List Site
      → Ranges
      → Found
      → Option (Ranges × Found)
  visit_sites next edge_idx level gbid [] g parent = some (g, parent)
  visit_sites next edge_idx level gbid (s ∷ ss) g parent = do
    (g', parent') ← visit_site next edge_idx level gbid s g parent
    visit_sites next edge_idx level gbid ss g' parent'

  unfoldable pub visit_blocks :
      (Ranges → Option (Ranges × Found))
      → ℕ
      → ℕ
      → List (ℕ × ℕ)
      → Ranges
      → Found
      → Option (Ranges × Found)
  visit_blocks next edge_idx level [] g parent = some (g, parent)
  visit_blocks next edge_idx level ((r, c) ∷ bs) g parent = do
    let e = edge_at edge_idx
    let gbid : Gbid = record { row = r; col = c; label = e.el_id }
    (g', parent') ←
        if chk_grid_range g gbid e.v1_id e.v2_id
        then visit_sites next edge_idx level gbid (sites edge_idx r c) g parent
        else some (g, parent)
    visit_blocks next edge_idx level bs g' parent'

  -- `_iterate_sub_task` with `n` edges left and a parent at `level`, and what it adds to the parent.
  unfoldable pub iterate_sub_task : ℕ → ℕ → ℕ → Ranges → Option (Ranges × Found)
  iterate_sub_task zero edge_idx level g = some (g, record { child = nil; valid = true })
  iterate_sub_task (suc n) edge_idx level g =
      visit_blocks (iterate_sub_task n (edge_idx + 1) (level + 1)) edge_idx level (blocks edge_idx)
        g (record { child = nil; valid = false })

  -- `_make_sched_plan`, from the ranges that `init` makes
  unfoldable pub make_sched_plan : ℕ → ℕ → Option Node
  make_sched_plan num_edges grid_block_width = do
    (_, found) ← iterate_sub_task num_edges 0 0 (λ _. record {
      grid_id = 0;
      top = record { lo = 0; hi = grid_block_width - 1 };
      below = [];
    })
    check found.valid
    some (node 0 0 0 none found.child)
