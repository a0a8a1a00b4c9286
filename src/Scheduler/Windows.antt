-- ===== src/Scheduler/Windows.antt =====
-- The search of source/cuMatch/lgf_scheduler.cpp without its stacks: the combinations of shards
-- as a list, from what each query vertex may still be.
use cu_match.Prelude.{
  ℕ, zero, suc, ◌+◌, ◌≡◌, Bool, true, ◌&&◌, Option, none, some, List, [], ◌∷◌, ◌++◌, map, length,
  ltb, ◌==◌, if◌then◌else◌, update,
}
use mathlib.Core.List.{append_assoc, append-nil}
use cu_match.SchedTree.{Sleaf, Node, Children, nil, cons, child, leaf_ptr}
use cu_match.QueryGraph.{EdgeInfo}
use cu_match.Scheduler.{
  LaddrInterval, Gbid, GridRangeInfo, Ranges, meet, Site, Input, fits, edge_at, sites, blocks,
  push_back,
}

-- The row of the grid that a query vertex is bound to, if any, and the ids that are left for it.
pub record Window : Type 0 where
  pub grid : Option ℕ
  pub range : LaddrInterval

abbrev pub in_row : Option ℕ → ℕ → Bool
in_row none row = true
in_row (some g) row = g == row

abbrev pub bind_row : Option ℕ → ℕ → Option ℕ
bind_row none row = some row
bind_row (some g) row = some g

-- The window of a vertex with the shard's range taken in.
abbrev pub take_in : ℕ → ℕ → LaddrInterval → (ℕ → Window) → ℕ → Window
take_in v row r w =
    update w v (record { grid = bind_row (w v).grid row; range = meet (w v).range r })

abbrev pub narrow : EdgeInfo → Gbid → Site → (ℕ → Window) → ℕ → Window
narrow e gbid s w = take_in e.v2_id gbid.col s.dst_range (take_in e.v1_id gbid.row s.src_range w)

-- What a stack of ranges stands for: a vertex with one interval is bound to no row.
abbrev pub window : GridRangeInfo → Window
window x = record { grid = if length x.below == 0 then none else some x.grid_id; range = x.top }

abbrev pub windows : Ranges → ℕ → Window
windows g v = window (g v)

module _ (i : Input) where
  abbrev pub choices :
      ((ℕ → Window) → List (List Sleaf))
      → EdgeInfo
      → Gbid
      → List Site
      → (ℕ → Window)
      → List (List Sleaf)
  choices next e gbid [] w = []
  choices next e gbid (s ∷ ss) w =
      (if fits e.e_type (ltb (i.order_rank e.v1_id) (i.order_rank e.v2_id)) (w e.v1_id).range
          (w e.v2_id).range s
        then map (λ p. s.leaf ∷ p) (next (narrow e gbid s w))
        else [])
      ++ choices next e gbid ss w

  abbrev pub block_choices :
      ((ℕ → Window) → List (List Sleaf)) → ℕ → List (ℕ × ℕ) → (ℕ → Window) → List (List Sleaf)
  block_choices next edge_idx [] w = []
  block_choices next edge_idx ((r, c) ∷ bs) w =
      let e = edge_at i edge_idx in
      let gbid : Gbid = record { row = r; col = c; label = e.el_id } in
      (if in_row (w e.v1_id).grid r && in_row (w e.v2_id).grid c
        then choices next e gbid (sites i edge_idx r c) w
        else [])
      ++ block_choices next edge_idx bs w

  -- The combinations of shards for the last `n` edges.
  unfoldable pub combinations : ℕ → ℕ → (ℕ → Window) → List (List Sleaf)
  combinations zero edge_idx w = [] ∷ []
  combinations (suc n) edge_idx w =
      block_choices (combinations n (edge_idx + 1)) edge_idx (blocks i edge_idx) w

abbrev leaf_of : Option Sleaf → List Sleaf → List Sleaf
leaf_of none p = p
leaf_of (some s) p = s ∷ p

-- The shards along the paths of a given length below a node.
abbrev pub paths_each : (Children → List (List Sleaf)) → Children → List (List Sleaf)
paths_each next nil = []
paths_each next (cons p ps) = map (leaf_of (leaf_ptr p)) (next (child p)) ++ paths_each next ps

unfoldable pub paths : ℕ → Children → List (List Sleaf)
paths zero c = [] ∷ []
paths (suc n) c = paths_each (paths n) c

pub paths_each-push_back :
    (next : Children → List (List Sleaf)) (c : Children) (p : Node)
    → paths_each next (push_back c p)
      ≡ paths_each next c ++ map (leaf_of (leaf_ptr p)) (next (child p))
paths_each-push_back next nil p = append-nil _
paths_each-push_back next (cons q qs) p = simp (paths_each-push_back next qs p, append_assoc)
