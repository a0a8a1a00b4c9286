-- ===== src/SchedTree.antt =====
-- source/cuMatch/sched_plan_tree.cpp: the tree of shards that the scheduler found, one level for
-- each query edge, and its traversals. `Traversal` relates them, `Groups` is `pop_grid_group`.
pub mod Traversal
pub mod Groups
pub mod Levels
pub mod Chains
pub mod Partition
pub mod Drain
pub mod Regenerate
pub mod Tasks
use cu_match.Prelude.{
  ℕ, zero, suc, ◌+◌, Option, none, some, List, [], ◌∷◌, ◌++◌, leb, if◌then◌else◌,
}

-- What `sleaf_ptr` points to.
pub record Sleaf : Type 0 where
  pub unique_id : ℕ
  pub in_memory_size : ℕ

-- `sched_plan_node`: `leaf_ptr` is null at the root. The vector `child` is a `Children`; `parent`
-- and `valid`, which only the scheduler reads while it builds the tree, are in `Scheduler`.
mutual
  pub data Node : Type 0 where
    node : ℕ → ℕ → ℕ → Option Sleaf → Children → Node

  pub data Children : Type 0 where
    nil : Children
    cons : Node → Children → Children

abbrev pub level : Node → ℕ
level (node l e v p c) = l

abbrev pub e_id : Node → ℕ
e_id (node l e v p c) = e

abbrev pub v_id : Node → ℕ
v_id (node l e v p c) = v

abbrev pub leaf_ptr : Node → Option Sleaf
leaf_ptr (node l e v p c) = p

abbrev pub child : Node → Children
child (node l e v p c) = c

-- `child.size()`
abbrev pub num_child : Children → ℕ
num_child nil = 0
num_child (cons p ps) = suc (num_child ps)

-- `child[i]`
abbrev pub child_at : Children → ℕ → Option Node
child_at nil i = none
child_at (cons p ps) zero = some p
child_at (cons p ps) (suc i) = child_at ps i

-- `_backtracking`, with the nodes that it appends to the vector
unfoldable mutual
  pub backtracking : Node → List Node
  backtracking (node l e v p c) = backtracking_each c

  pub backtracking_each : Children → List Node
  backtracking_each nil = []
  backtracking_each (cons p ps) = p ∷ (backtracking p ++ backtracking_each ps)

-- the nodes in the order in which `pre_order_dfs` visits them
pub pre_order_dfs : Node → List Node
pre_order_dfs root = root ∷ backtracking root

-- `for (p: node->child) traversal_stk.push(p)`, the top of a stack in front
abbrev pub push_children : Children → List Node → List Node
push_children nil stk = stk
push_children (cons p ps) stk = push_children ps (p ∷ stk)

-- the first loop of `post_order_dfs`; the second visits the result from its front
pub fill_visit_stk : ℕ → List Node → List Node → Option (List Node)
fill_visit_stk fuel [] visit_stk = some visit_stk
fill_visit_stk zero (n ∷ stk) visit_stk = none
fill_visit_stk (suc fuel) (n ∷ stk) visit_stk =
    fill_visit_stk fuel (push_children (child n) stk) (n ∷ visit_stk)

-- one round for each node
unfoldable mutual
  pub num_nodes : Node → ℕ
  num_nodes (node l e v p c) = suc (num_nodes_each c)

  pub num_nodes_each : Children → ℕ
  num_nodes_each nil = 0
  num_nodes_each (cons p ps) = num_nodes p + num_nodes_each ps

pub post_order_dfs : Node → Option (List Node)
post_order_dfs root = fill_visit_stk (num_nodes root) (root ∷ []) []

pub record TrackingInfo : Type 0 where
  pub node : Node
  pub child_idx : ℕ

-- the `while` loop of `_next_node`; the back of `_tracking_stk` stands in front
pub unwind : List TrackingInfo → List TrackingInfo
unwind [] = []
unwind (t ∷ stk) = if leb (num_child (child t.node)) t.child_idx then unwind stk else t ∷ stk

-- `_next_node`, with the new stack; a null pointer is `none`
pub descend : List TrackingInfo → List TrackingInfo × Option Node
descend [] = ([], none)
descend (t ∷ stk) = elim (child_at (child t.node) t.child_idx) [
  | none ↦ (t ∷ stk, none)
  | some p ↦
      (record { node = p; child_idx = 0 } ∷ record t { child_idx = t.child_idx + 1 } ∷ stk, some p)
]

pub next_node : List TrackingInfo → List TrackingInfo × Option Node
next_node stk = descend (unwind stk)

-- `_this_node`
abbrev pub this_node : List TrackingInfo → Option Node
this_node [] = none
this_node (t ∷ stk) = some t.node

-- `_iterate_init`: the stack that an iteration starts with
abbrev pub iterate_init : Node → List TrackingInfo
iterate_init root = record { node = root; child_idx = 0 } ∷ []

-- the nodes that `_next_node` gives, until it gives null
pub iterate : ℕ → List TrackingInfo → Option (List Node)
iterate zero stk = none
iterate (suc fuel) stk =
    let (stk', next) = next_node stk in
    elim next [
      | none ↦ some []
      | some p ↦ elim (iterate fuel stk') [ none ↦ none | some ps ↦ some (p ∷ ps) ]
    ]
