-- ===== src/SchedTree/Tasks.antt =====
-- `pop_single_kernel_task` of source/cuMatch/sched_plan_tree.cpp up to the trees that it builds from
-- `_tree_info_vec`, which is Regenerate: groups are taken until their shards fill the device.
pub mod Fits
pub mod Ends
use cu_match.Prelude.{
  ℕ, zero, suc, ◌+◌, ◌-◌, ◌*◌, ◌/◌, ◌%◌, ◌^◌, Bool, true, false, not, ◌&&◌, ◌||◌, Option, none,
  some, List, [], ◌∷◌, ◌++◌, length, get_elem?, ltb, leb, ◌==◌, if◌then◌else◌, ◌>>=◌, ◌>>◌, check,
}
use cu_match.SchedTree.{Sleaf}
use cu_match.SchedTree.Groups.{SubtaskInfo, GridGroupInfo, Plan, pop_grid_group}
use cu_match.SchedTree.Regenerate.{TreeInfo, max_num_tree_nodes}

abbrev pub max_num_shards : ℕ
max_num_shards = 300

-- `config_t`, and the capacity of the device
pub record TaskConfig : Type 0 where
  pub max_level : ℕ
  pub num_query_vertices : ℕ
  pub num_optional_vertices : ℕ
  pub elevel_to_vlevel : List ℕ
  pub capacity : ℕ

-- `_cache`, `_tree_info_vec`, `used`, and what is filled in of `single_kernel_task_info`
pub record Filler : Type 0 where
  pub cache : List ℕ
  pub tree_info_vec : List TreeInfo
  pub used : ℕ
  pub total_sleaf_ptrs : List Sleaf
  pub subtasks : List SubtaskInfo

abbrev pub no_task : Filler
no_task = record { cache = []; tree_info_vec = []; used = 0; total_sleaf_ptrs = []; subtasks = [] }

abbrev pub is_cached : ℕ → List ℕ → Bool
is_cached u_id [] = false
is_cached u_id (id ∷ ids) = let rest = is_cached u_id ids in if id == u_id then true else rest

-- `sleaf_ptrs[i]` for the first `n` indices
abbrev pub sleaves : ℕ → SubtaskInfo → Option (List Sleaf)
sleaves zero st = some []
sleaves (suc n) [] = none
sleaves (suc n) (none ∷ st) = none
sleaves (suc n) (some sleaf ∷ st) = sleaves n st >>= λ ls. some (sleaf ∷ ls)

-- The shards of the subtask of a group, if it has one
abbrev pub group_sleaves : ℕ → GridGroupInfo → Option (List Sleaf)
group_sleaves max_level g = elim g.st_info [ none ↦ some [] | some st ↦ sleaves max_level st ]

-- `required_size`, a `uint32_t`
abbrev pub required_size : List ℕ → List Sleaf → ℕ → ℕ
required_size cache [] required = required
required_size cache (sleaf ∷ ls) required = required_size cache ls (
    if is_cached sleaf.unique_id cache
    then required
    else (required + sleaf.in_memory_size) % 2 ^ 32)

-- A shard that the task does not have yet
abbrev pub push_sleaf : Sleaf → Filler → Filler
push_sleaf sleaf f = if is_cached sleaf.unique_id f.cache then f else record f {
  cache = f.cache ++ sleaf.unique_id ∷ [];
  total_sleaf_ptrs = f.total_sleaf_ptrs ++ sleaf ∷ [];
}

abbrev pub push_sleaves : List Sleaf → Filler → Filler
push_sleaves [] f = f
push_sleaves (sleaf ∷ ls) f = push_sleaves ls (push_sleaf sleaf f)

abbrev pub push_subtask : Option SubtaskInfo → Filler → Filler
push_subtask none f = f
push_subtask (some st) f = record f { subtasks = f.subtasks ++ st ∷ [] }

-- The same for the first group, with its size
abbrev pub push_first : List Sleaf → Filler → Filler
push_first [] f = f
push_first (sleaf ∷ ls) f = push_first ls (
    if is_cached sleaf.unique_id f.cache
    then f
    else record (push_sleaf sleaf f) { used = (f.used + sleaf.in_memory_size) % 2 ^ 64 })

-- The levels from `i` on, all of the first subtask
abbrev pub first_levels : ℕ → ℕ → List TreeInfo
first_levels i zero = []
first_levels i (suc n) = record { v_level = i; subtask_id = 0 } ∷ first_levels (i + 1) n

-- What a call ends with
pub data Outcome : Type 0 where
  filled : Plan → Filler → Outcome
  failed : Outcome
  out_of_fuel : Outcome

module _ (c : TaskConfig) where
  -- `_convert_elevel_to_vlevel`
  abbrev pub to_vlevel : ℕ → Option ℕ
  to_vlevel zero = none
  to_vlevel (suc l) = get_elem? c.elevel_to_vlevel l >>= λ v. some (v + 1)

  -- "add first grid group (default)"
  unfoldable pub first_group : GridGroupInfo → Option Filler
  first_group g = do
    n ← to_vlevel g.max_level
    ls ← group_sleaves c.max_level g
    let f = push_first ls (record no_task { tree_info_vec = first_levels 1 n })
    check (ltb f.used c.capacity) >> some (push_subtask g.st_info f)

  -- "heuristic algorithm": is the device full?
  unfoldable pub is_full : GridGroupInfo → ℕ → Filler → Option Bool
  is_full g required f = elim (leb c.capacity ((required + f.used) % 2 ^ 64)) [
    | true ↦ some true
    | false ↦ to_vlevel g.min_level >>= λ v. some (
        v == 1
        && (ltb (c.capacity / 10 * 9) f.used
            || ltb (max_num_shards / 10 * 9) (length f.cache)
            || ltb (max_num_tree_nodes / 10 * 9) (c.num_query_vertices * length f.subtasks + 1)))
  ]

  -- The assertions of a device that is full
  abbrev pub check_full : GridGroupInfo → Filler → Option Bool
  check_full g f =
      let fits = check (not (f.used == 0)) >> some true in
      elim (ltb 0 c.num_optional_vertices) [
        | true ↦ to_vlevel g.min_level >>= λ v. check (v == 1) >> fits
        | false ↦ fits
      ]

  -- "add grid group"
  unfoldable pub add_group : GridGroupInfo → ℕ → List Sleaf → Filler → Option Filler
  add_group g required ls f = to_vlevel g.max_level >>= λ v. some (
      push_subtask g.st_info (
        push_sleaves ls (record f {
          tree_info_vec =
              f.tree_info_vec ++ record { v_level = v; subtask_id = length f.subtasks } ∷ [];
          used = (f.used + required) % 2 ^ 64;
        })))

  -- One group: is the loop over?
  unfoldable pub take_group : GridGroupInfo → Filler → Option (Filler × Bool)
  take_group g f = do
    ls ← group_sleaves c.max_level g
    let required = required_size f.cache ls 0
    full ← is_full g required f
    elim full [
      | true ↦ check_full g f >>= λ x. some (f, true)
      | false ↦ add_group g required ls f >>= λ f'. some (f', false)
    ]

  -- The loop. A group that does not fit stays at `_grid_group_ptr`, for the next call.
  unfoldable pub fill_task : ℕ → Plan → Filler → Outcome
  fill_task zero s f = out_of_fuel
  fill_task (suc fuel) s f = elim (pop_grid_group (suc fuel) s) [
    | none ↦ failed
    | some (s', more) ↦ elim more [
      | false ↦ filled s' f
      | true ↦ elim (s'.grid_group_ptr >>= λ g. take_group g f) [
        | none ↦ failed
        | some (f', full) ↦ elim full [
          | true ↦ filled s' f'
          | false ↦ fill_task fuel (record s' { grid_group_ptr = none }) f'
        ]
      ]
    ]
  ]

  -- A further call that has no group left returns 0.
  unfoldable pub pop_single_kernel_task : ℕ → Plan → Bool → Outcome
  pop_single_kernel_task fuel s initial = elim initial [
    | true ↦ fill_task fuel s no_task
    | false ↦ elim s.grid_group_ptr [
      | none ↦ filled s no_task
      | some g ↦ elim (first_group g) [ none ↦ failed | some f ↦ fill_task fuel s f ]
    ]
  ]
