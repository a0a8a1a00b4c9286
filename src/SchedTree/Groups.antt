-- ===== src/SchedTree/Groups.antt =====
-- `pop_grid_group` of source/cuMatch/sched_plan_tree.cpp: the nodes of the tree, in pre-order,
-- are handed out in groups of shards that serve one query vertex, each deeper than the one before.
use cu_match.Prelude.{
  ℕ, zero, suc, ◌+◌, Bool, true, false, not, ◌||◌, Option, none, some, List, [], ◌∷◌, ◌++◌, map,
  length, leb, ◌==◌, if◌then◌else◌, ◌>>=◌, ◌>>◌, check,
}
use mathlib.Core.List.{reverse, tail}
use cu_match.SchedTree.{
  Sleaf, Node, level, v_id, leaf_ptr, TrackingInfo, next_node, this_node, iterate_init,
}

-- `subtask_info`: the shards on the path to a deepest node
abbrev pub SubtaskInfo : Type 0
SubtaskInfo = List (Option Sleaf)

pub record GridGroupInfo : Type 0 where
  pub v_id : ℕ
  pub level : ℕ
  pub min_level : ℕ
  pub max_level : ℕ
  pub grid_group : List (Option Sleaf)
  pub st_info : Option SubtaskInfo

-- The members that an iteration uses and changes; the back of `_tracking_stk` stands in front.
pub record Plan : Type 0 where
  pub max_level : ℕ
  pub is_table_join : Bool
  pub tmp_group_info : GridGroupInfo
  pub grid_group_ptr : Option GridGroupInfo
  pub tracking_stk : List TrackingInfo

-- `grid_group_info{0}`
abbrev pub no_group : GridGroupInfo
no_group = record {
  v_id = 0;
  level = 0;
  min_level = 0;
  max_level = 0;
  grid_group = [];
  st_info = none;
}

-- `init` and `_iterate_init`
unfoldable pub init : Node → ℕ → Bool → Plan
init root max_level is_table_join = record {
  max_level = max_level;
  is_table_join = is_table_join;
  tmp_group_info = no_group;
  grid_group_ptr = none;
  tracking_stk = iterate_init root;
}

-- `make_subtask_info`: `_tracking_stk[i].node->leaf_ptr` for i from 1 on
abbrev pub make_subtask_info : List TrackingInfo → SubtaskInfo
make_subtask_info stk = map (λ t. leaf_ptr t.node) (tail (reverse stk))

-- A group with the node's vertex and level, and no shard yet.
abbrev pub clear_group : Node → GridGroupInfo → GridGroupInfo
clear_group n g = record g {
  v_id = v_id n;
  min_level = level n;
  max_level = level n;
  grid_group = [];
  st_info = none;
}

-- The node's shard goes to the end of the group; at the deepest level it makes the subtask.
abbrev pub push_node : ℕ → List TrackingInfo → Node → GridGroupInfo → Option GridGroupInfo
push_node max_level stk n g =
    let g' = record g { max_level = level n; grid_group = g.grid_group ++ leaf_ptr n ∷ [] } in
    if level n == max_level
    then check (length stk == max_level + 1)
      >> some (record g' { st_info = some (make_subtask_info stk) })
    else some g'

-- The test that the node starts a new group.
abbrev pub starts_group : Bool → GridGroupInfo → Node → Bool
starts_group is_table_join g n =
    level n == 1 || not (g.v_id == v_id n) || leb (level n) g.max_level || is_table_join

-- The `while` loop: `none` for a failed assertion, or for fuel that ran out.
unfoldable pub group_loop : ℕ → Plan → Option (Plan × Bool)
group_loop zero s = none
group_loop (suc fuel) s =
    let (stk, next) = next_node s.tracking_stk in
    let tmp = s.tmp_group_info in
    let s' = record s { tracking_stk = stk } in
    elim next [
      | none ↦ some (record s' { grid_group_ptr = some tmp }, true)
      | some n ↦ elim (starts_group s.is_table_join tmp n) [
        | true ↦ elim (tmp.v_id == 0) [
          | true ↦ push_node s.max_level stk n (clear_group n tmp) >>= λ g.
              group_loop fuel (record s' { tmp_group_info = g })
          | false ↦ push_node s.max_level stk n (clear_group n tmp) >>= λ g.
              some (record s' { tmp_group_info = g; grid_group_ptr = some tmp }, true)
        ]
        | false ↦ push_node s.max_level stk n tmp >>= λ g.
            group_loop fuel (record s' { tmp_group_info = g })
      ]
    ]

unfoldable pub pop_grid_group : ℕ → Plan → Option (Plan × Bool)
pop_grid_group fuel s = elim (this_node s.tracking_stk) [
  | none ↦ some (record s { grid_group_ptr = none }, false)
  | some _ ↦ group_loop fuel s
]
