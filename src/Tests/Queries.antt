-- ===== src/Tests/Queries.antt =====
-- A triangle with an optional vertex, as source/cuMatch/query_graph.cpp builds it, and the plan that
-- source/cuMatch/lgf_scheduler.cpp makes for a path of two edges.
use cu_match.Prelude.{
  ℕ, ◌+◌, ◌≡◌, ◌≢◌, refl, Bool, false, none, some, List, [], ◌∷◌, ◌==◌, arith, sym, ◌∙◌,
}
use cu_match.SchedTree.{Sleaf, Node, level, child, num_nodes, backtracking}
use cu_match.SchedTree.Groups.{GridGroupInfo, init}
use cu_match.SchedTree.Levels.{IsLeveled}
use cu_match.SchedTree.Chains.{shards}
use cu_match.SchedTree.Drain.{pop_all, shards_of}
use cu_match.QueryGraph.{
  ParseVertexInfo, ParseEdgeInfo, ParseConstraintInfo, QueryGraph, regular, optional, directed,
  not_equal, make_vertices, make_edges, make_constraints, mark_vertices, make_query_graph,
}
use cu_match.QueryGraph.Built.{IsBuilt, make_query_graph-IsBuilt}
use cu_match.Scheduler.{LaddrInterval, ShardLeaf, Switch, Input, edge_at, make_sched_plan}
use cu_match.Scheduler.Windows.{combinations, paths}
use cu_match.Scheduler.Complete.{
  open_windows, make_sched_plan-combinations, make_sched_plan-pop_all,
}

-- names and labels are numbers here
abbrev names : List (ParseVertexInfo ℕ)
names =
    record { label = 0; name = 11 }
    ∷ record { label = 0; name = 12 }
    ∷ record { label = 1; name = 13 }
    ∷ []

abbrev lines : List (ParseEdgeInfo ℕ)
lines =
    record { label = 0; v1_name = 11; v2_name = 12; e_type = regular; e_dir = directed }
    ∷ record { label = 0; v1_name = 12; v2_name = 13; e_type = optional; e_dir = directed }
    ∷ []

abbrev constraints : List (ParseConstraintInfo ℕ)
constraints = record { v1_name = 11; v2_name = 12; c_type = not_equal } ∷ []

abbrev same_number : ℕ → ℕ → Bool
same_number a b = a == b

built : (g : QueryGraph) × (make_query_graph same_number some some names lines constraints ≡ some g)
unfolding make_query_graph make_vertices make_edges make_constraints mark_vertices
built = (_, refl)

make_query_graph-IsBuilt_example : IsBuilt built.0
make_query_graph-IsBuilt_example =
    make_query_graph-IsBuilt same_number some some names lines constraints built.0 built.1

abbrev ids : ℕ → ℕ → LaddrInterval
ids lo hi = record { lo = lo; hi = hi }

abbrev shard_leaf : ℕ → LaddrInterval → LaddrInterval → ShardLeaf
shard_leaf id src dst = record {
  sleaf = record { unique_id = id; in_memory_size = 4096 };
  src_range = ids 0 99;
  dst_range = ids 0 99;
  actual_src_range = src;
  actual_dst_range = dst;
}

abbrev shard_at : ℕ → LaddrInterval → LaddrInterval → Switch
shard_at id src dst = record {
  out_edges = shard_leaf id src dst;
  in_edges = shard_leaf (id + 1) src dst;
}

-- Two shards in one block: a path can only go from the first into the second.
abbrev path_of_two : Input
path_of_two = record {
  edges_info = λ k. record {
    el_id = 0;
    v1_id = k;
    v2_id = k + 1;
    e_type = regular;
    e_dir = directed;
    optional_edge_with_regular_vertex = false;
  };
  vl_id = λ v. 0;
  edge_order = λ k. (k, k);
  order = λ k. k;
  order_rank = λ v. v;
  min_grid_row = λ l. 0;
  max_grid_row = λ l. 1;
  stree = λ g. shard_at 20 (ids 0 9) (ids 10 19) ∷ shard_at 30 (ids 15 19) (ids 30 39) ∷ [];
}

abbrev leaf_of_id : ℕ → Sleaf
leaf_of_id id = record { unique_id = id; in_memory_size = 4096 }

some_left :
    combinations path_of_two 2 0 (open_windows 100) ≡ (leaf_of_id 20 ∷ leaf_of_id 30 ∷ []) ∷ []
unfolding combinations
some_left = refl

combinations_left : combinations path_of_two 2 0 (open_windows 100) ≢ []
combinations_left h = let e = sym some_left ∙ h in absurd (cc)

ends_differ : (k : ℕ) → (edge_at path_of_two k).v1_id ≢ (edge_at path_of_two k).v2_id
ends_differ k h = absurd (omega arith)

make_sched_plan-combinations_example :
    (combinations path_of_two 2 0 (open_windows 100) ≢ []
      → (root : Node) × (make_sched_plan path_of_two 2 100 ≡ some root)
        × (level root ≡ 0)
        × IsLeveled root
        × (paths 2 (child root) ≡ combinations path_of_two 2 0 (open_windows 100)))
    × (combinations path_of_two 2 0 (open_windows 100) ≡ []
        → make_sched_plan path_of_two 2 100 ≡ none)
make_sched_plan-combinations_example = make_sched_plan-combinations path_of_two 2 100 ends_differ

make_sched_plan-pop_all_example :
    (root : Node) × (gs : List GridGroupInfo) × (make_sched_plan path_of_two 2 100 ≡ some root)
    × (pop_all (num_nodes root + 1) (init root 2 false) ≡ some gs)
    × (shards_of gs ≡ shards (backtracking root))
make_sched_plan-pop_all_example =
    make_sched_plan-pop_all path_of_two 2 100 false ends_differ combinations_left
