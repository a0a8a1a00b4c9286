-- ===== src/Tests/Fillers.antt =====
-- A kernel task of source/cuMatch/sched_plan_tree.cpp for a small tree.
use cu_match.Prelude.{◌+◌, ◌≡◌, ◌⊎◌, refl, ap, length, inl, true, false, some, [], ◌∷◌, ◌++◌, arith}
use cu_match.SchedTree.{num_nodes}
use cu_match.SchedTree.Traversal.{length-backtracking, pending-iterate_init}
use cu_match.SchedTree.Groups.{GridGroupInfo, Plan, init}
use cu_match.SchedTree.Chains.{IsValid}
use cu_match.SchedTree.Tasks.{
  TaskConfig, Filler, no_task, filled, failed, take_group, fill_task, is_full, add_group,
}
use cu_match.SchedTree.Tasks.Fits.{Fits, take_group-Fits}
use cu_match.SchedTree.Tasks.Ends.{Stops, Filled, fill_task_ends}
use cu_match.Tests.Trees.{leaf, tree, tree-IsLeveled}

abbrev small_device : TaskConfig
small_device = record {
  max_level = 2;
  num_query_vertices = 3;
  num_optional_vertices = 0;
  elevel_to_vlevel = 1 ∷ 2 ∷ [];
  capacity = 10000;
}

abbrev two_shards : GridGroupInfo
two_shards = record {
  v_id = 1;
  level = 0;
  min_level = 1;
  max_level = 2;
  grid_group = leaf 10 ∷ leaf 11 ∷ [];
  st_info = some (leaf 10 ∷ leaf 11 ∷ []);
}

abbrev one_task : Filler
one_task = record {
  cache = 10 ∷ 11 ∷ [];
  tree_info_vec = record { v_level = 3; subtask_id = 0 } ∷ [];
  used = 8192;
  total_sleaf_ptrs =
      record { unique_id = 10; in_memory_size = 4096 }
      ∷ record { unique_id = 11; in_memory_size = 4096 }
      ∷ [];
  subtasks = (leaf 10 ∷ leaf 11 ∷ []) ∷ [];
}

takes_two : take_group small_device two_shards no_task ≡ some (one_task, false)
unfolding take_group is_full add_group
takes_two = refl

take_group-Fits_example :
    Fits 10000 one_task
    × (false ≡ true → one_task ≡ no_task)
    × (false ≡ false → one_task.subtasks ≡ [] ++ (leaf 10 ∷ leaf 11 ∷ []) ∷ [])
take_group-Fits_example =
    take_group-Fits small_device two_shards
      (record { unique_id = 10; in_memory_size = 4096 }
        ∷ record { unique_id = 11; in_memory_size = 4096 }
        ∷ [])
      no_task one_task false
      (record { room = omega arith; ids = refl; once = λ u. omega arith; small = omega arith })
      (omega arith) refl (omega arith) takes_two

tree-IsValid : IsValid (init tree 2 false)
unfolding init
tree-IsValid = record {
  path = (refl, tree-IsLeveled, tt);
  fresh = λ _. refl;
  linked = λ u. absurd (u refl);
  chain = λ u. absurd (u refl);
}

fill_task_ends_example :
    ((fill_task small_device (num_nodes tree + 1) (init tree 2 false) no_task ≡ failed)
      × Stops small_device (init tree 2 false) no_task)
    ⊎ ((s' : Plan) × (f' : Filler) × (fill_task small_device
            (num_nodes tree + 1)
            (init tree 2 false)
            no_task
          ≡ filled s' f')
        × Filled small_device (init tree 2 false) no_task s' f')
unfolding init
fill_task_ends_example =
    fill_task_ends small_device (num_nodes tree + 1) (init tree 2 false) no_task (inl tree-IsValid)
      (omega (arith, length-backtracking tree, ap length (pending-iterate_init tree)))
