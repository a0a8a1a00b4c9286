-- ===== src/Tests/Trees.antt =====
-- The traversals of a small tree, as in source/cuMatch/sched_plan_tree.cpp, and a small shard.
use cu_match.Prelude.{ℕ, ◌+◌, ◌≡◌, ◌≢◌, refl, false, Option, some, none, List, ◌∷◌, arith, All}
use cu_match.SchedTree.{
  Sleaf, Node, node, nil, cons, num_nodes, iterate, iterate_init, pre_order_dfs, post_order_dfs,
  backtracking,
}
use cu_match.SchedTree.Traversal.{post, post_order_dfs-eq-post, iterate-eq-pre_order_dfs}
use cu_match.SchedTree.Groups.{init}
use cu_match.SchedTree.Levels.{IsLeveled}
use cu_match.SchedTree.Chains.{IsChain, shards}
use cu_match.SchedTree.Drain.{pop_all, shards_of, pop_all-eq-pre_order}

abbrev pub leaf : ℕ → Option Sleaf
leaf i = some (record { unique_id = i; in_memory_size = 4096 })

-- two first shards, the first with two shards below it
abbrev pub tree : Node
tree = node 0 0 0 none (
    cons
      (node 1 0 1 (leaf 10) (cons (node 2 1 1 (leaf 11) nil) (cons (node 2 1 1 (leaf 12) nil) nil)))
      (cons (node 1 0 1 (leaf 20) (cons (node 2 1 2 (leaf 21) nil) nil)) nil))

pub tree-IsLeveled : IsLeveled tree
unfolding IsLeveled
tree-IsLeveled = ground arith

iterate-eq-pre_order_dfs_example :
    (ps : List Node) × (iterate (num_nodes tree) (iterate_init tree) ≡ some ps)
    × (pre_order_dfs tree ≡ tree ∷ ps)
iterate-eq-pre_order_dfs_example = iterate-eq-pre_order_dfs tree

post_order_dfs-eq-post_example : post_order_dfs tree ≡ some (post tree)
post_order_dfs-eq-post_example = post_order_dfs-eq-post tree

pop_all-eq-pre_order_example :
    (gs : List _) × (pop_all (num_nodes tree + 1) (init tree 2 false) ≡ some gs)
    × (shards_of gs ≡ shards (backtracking tree))
    × All (λ g. g.v_id ≢ 0 → IsChain 2 g) gs
pop_all-eq-pre_order_example = pop_all-eq-pre_order tree 2 false refl tree-IsLeveled
