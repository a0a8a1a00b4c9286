-- ===== src/Scheduler/Data.antt =====
-- The ranges of source/cuMatch/lgf_scheduler.cpp: what the search knows of each query vertex, and
-- how a shard is taken in and given back.
use cu_match.Prelude.{
  ℕ, Bool, true, false, not, ◌&&◌, ◌||◌, Option, none, some, List, [], ◌∷◌, length, ltb, leb, ◌==◌,
  if◌then◌else◌, min, max, update, ◌>>=◌, ◌>>◌, check,
}
use cu_match.SchedTree.{Sleaf}
use cu_match.QueryGraph.{EdgeType, EdgeInfo, optional, negative, regular}

pub record LaddrInterval : Type 0 where
  pub lo : ℕ
  pub hi : ℕ

pub record Gbid : Type 0 where
  pub row : ℕ
  pub col : ℕ
  pub label : ℕ

-- A leaf of a shard tree with the ranges that the search reads.
pub record ShardLeaf : Type 0 where
  pub sleaf : Sleaf
  pub src_range : LaddrInterval
  pub dst_range : LaddrInterval
  pub actual_src_range : LaddrInterval
  pub actual_dst_range : LaddrInterval

-- A switch node: one shard of outgoing edges and the same edges as ingoing ones.
pub record Switch : Type 0 where
  pub out_edges : ShardLeaf
  pub in_edges : ShardLeaf

-- `_grid_range_info`: a stack that starts with one interval, `top` and what is below it.
pub record GridRangeInfo : Type 0 where
  pub grid_id : ℕ
  pub top : LaddrInterval
  pub below : List LaddrInterval

abbrev pub Ranges : Type 0
Ranges = ℕ → GridRangeInfo

-- `is_overlap`
abbrev pub is_overlap : LaddrInterval → LaddrInterval → Bool
is_overlap a b = leb (max a.lo b.lo) (min a.hi b.hi)

abbrev pub meet : LaddrInterval → LaddrInterval → LaddrInterval
meet a b = record { lo = max a.lo b.lo; hi = min a.hi b.hi }

-- One shard that a query edge may take: the arguments of `_push_range_rslt`, and the leaf.
pub record Site : Type 0 where
  pub src_range : LaddrInterval
  pub dst_range : LaddrInterval
  pub max_src_range : LaddrInterval
  pub max_dst_range : LaddrInterval
  pub leaf : Sleaf

-- What the search reads: the query, the order of its vertices and edges, and the grid stream, with
-- the switch nodes at the bottom of the shard tree of a block, in post-order.
pub record Input : Type 0 where
  pub edges_info : ℕ → EdgeInfo
  pub vl_id : ℕ → ℕ
  pub edge_order : ℕ → ℕ × ℕ
  pub order : ℕ → ℕ
  pub order_rank : ℕ → ℕ
  pub min_grid_row : ℕ → ℕ
  pub max_grid_row : ℕ → ℕ
  pub stree : Gbid → List Switch

-- The tests of `_push_range_rslt` on the two tops.
abbrev pub fits : EdgeType → Bool → LaddrInterval → LaddrInterval → Site → Bool
fits optional true a b s = is_overlap a s.max_src_range
fits optional false a b s = is_overlap b s.max_dst_range
fits negative f a b s = is_overlap a s.max_src_range && is_overlap b s.max_dst_range
fits regular f a b s = is_overlap a s.src_range && is_overlap b s.dst_range

-- `_chk_grid_range`
abbrev pub chk_grid_range : Ranges → Gbid → ℕ → ℕ → Bool
chk_grid_range g gbid src dst =
    (length (g src).below == 0 || (g src).grid_id == gbid.row)
    && (length (g dst).below == 0 || (g dst).grid_id == gbid.col)

abbrev pub set_grid : ℕ → ℕ → Ranges → Ranges
set_grid v row g =
    if length (g v).below == 0 then update g v (record (g v) { grid_id = row }) else g

abbrev pub push : ℕ → LaddrInterval → Ranges → Ranges
push v r g = update g v (record (g v) { top = meet (g v).top r; below = (g v).top ∷ (g v).below })

-- `_push_range_rslt`: the inner `none` for the result `false`, the outer for the assertion.
unfoldable pub push_range_rslt : Input → Ranges → Gbid → EdgeInfo → Site → Option (Option Ranges)
push_range_rslt i g gbid e s =
    let src = e.v1_id in
    let dst = e.v2_id in
    if fits e.e_type (ltb (i.order_rank src) (i.order_rank dst)) (g src).top (g dst).top s
    then check (not (src == dst))
      >> some (
          some (
            push dst s.dst_range
              (push src s.src_range (set_grid dst gbid.col (set_grid src gbid.row g)))))
    else some none

abbrev pub pop : ℕ → Ranges → Option Ranges
pop v g = elim (g v).below [
  | [] ↦ none
  | r ∷ rs ↦ some (update g v (record (g v) { top = r; below = rs }))
]

-- `_pop_range_rslt`
unfoldable pub pop_range_rslt : ℕ → ℕ → Ranges → Option Ranges
pop_range_rslt src dst g = pop src g >>= pop dst
