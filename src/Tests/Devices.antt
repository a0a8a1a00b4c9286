-- ===== src/Tests/Devices.antt =====
-- A task of one edge and one shard, its header and its place in the device buffer, as in
-- source/cuMatch/device_manager.cu.
use cu_match.Prelude.{
  ℕ, ◌+◌, ◌*◌, ◌<◌, ◌≤◌, ◌≡◌, if◌then◌else◌, refl, inl, inr, true, false, Bool, Option, some, none,
  List, [], ◌∷◌, get_elem?, Bool-cases, some-pair, ap, sym, ◌∙◌, update, arith,
}
use cu_match.DeviceManager.{
  GlobalInfo, TaskInfo, Header, arrays, join_arrays, make_header_buffer, header_of,
}
use cu_match.DeviceManager.Store.{Holds}
use cu_match.DeviceManager.Contents.{IsSlots, make_header_buffer-Holds, make_header_buffer-shards}
use cu_match.DeviceManager.Sizes.{get_max_header_size, make_header_buffer-fits}
use cu_match.DeviceManager.Loading.{Allocator, ShardInfo, Host, allocate_shard_buffer}
use cu_match.DeviceManager.Loading.Owners.{IsOwned}
use cu_match.DeviceManager.Loading.Evictions.{Allocated, allocate_shard_buffer_total}
use cu_match.Cache.{empty_policy}

abbrev one_edge : GlobalInfo
one_edge = record {
  num_query_vertices = 2;
  num_query_edges = 1;
  num_constraints = 0;
  is_table_join = false;
  global_order = λ i. i;
  prefix_sum_degree = λ i. i;
  eid_list = λ i. i;
  edge_type_list = λ i. 0;
  lv0_dep = λ i. 0;
  v1_list_idxs = λ j. 0;
  v2_list_idxs = λ j. 1;
  constraint_ptr = λ i. 0;
  constraints = λ i. 0;
  num_optional_per_vertex = λ i. 0;
  num_negative_per_vertex = λ i. 0;
  is_optional_vertex = λ i. 0;
  is_negative_vertex_with_degree = λ i. 0;
  edge_order_with_vid = λ i. i;
  is_join_vertex = λ i. 0;
}

abbrev one_subtask : TaskInfo
one_subtask = record {
  num_tree_nodes = 2;
  sched_tree_ptr = λ i. 1;
  sched_tree_nxt_id = λ i. 1;
  sched_tree_prv_id = λ i. 0;
  sched_tree_st_id = λ i. 0;
  tree_root_id = 0 ∷ [];
  subtasks = (7 ∷ []) ∷ [];
  total_sleaf_ptrs = 7 ∷ [];
}

blank : ℕ → ℕ
blank a = 0

one_edge-IsSlots : IsSlots one_edge
one_edge-IsSlots = record {
  bounded = λ j lt. (omega arith, omega arith);
  v1_once = λ i j li lj e. omega arith;
  v2_once = λ i j li lj e. omega arith;
  apart = λ i j li lj. omega arith;
}

abbrev one_header : Header
one_header = header_of 248 one_edge one_subtask blank

make_header_buffer_run : make_header_buffer 248 one_edge one_subtask blank ≡ some one_header
unfolding make_header_buffer
make_header_buffer_run = refl

make_header_buffer-Holds_example :
    (1 < 300
      → (h : Header) × (make_header_buffer 248 one_edge one_subtask blank ≡ some h)
        × Holds h.buffer.mem (arrays one_edge one_subtask) h.array_ptrs
        × (◌≡◌ {A = Bool} false true → Holds h.buffer.mem (join_arrays one_edge) h.join_ptrs))
    × (300 ≤ 1 → make_header_buffer 248 one_edge one_subtask blank ≡ none)
make_header_buffer-Holds_example = make_header_buffer-Holds 248 one_edge one_subtask blank

make_header_buffer-shards_example :
    get_elem? {A = ℕ}
      (7 ∷ [])
      (one_header.buffer.mem (one_header.buffer.mem (one_header.subtask_info + 8 * 0) + 4 * 1))
    ≡ some 7
make_header_buffer-shards_example =
    make_header_buffer-shards 248 one_edge one_subtask blank one_header one_edge-IsSlots
      make_header_buffer_run 0 (7 ∷ []) 0 1 7 refl refl refl (omega arith) (inr refl) (omega arith)

make_header_buffer-fits_example : one_header.buffer.offset ≤ get_max_header_size 248 false
make_header_buffer-fits_example =
    make_header_buffer-fits 248 one_edge one_subtask blank one_header
      (record {
        vertices = omega arith;
        edges = omega arith;
        constraints = omega arith;
        root = omega arith;
        nodes = omega arith;
        roots = omega arith;
        subtasks = omega arith;
      })
      make_header_buffer_run

abbrev bump_allocate : ℕ × (ℕ → Bool) → Option (ℕ × (ℕ × (ℕ → Bool)))
bump_allocate h = if h.1 h.0 then none else some (h.0, (h.0 + 1, update h.1 h.0 true))

bump_fresh :
    (h h' : ℕ × (ℕ → Bool)) (p : ℕ)
    → bump_allocate h ≡ some (p, h')
    → (h.1 p ≡ false) × ((q : ℕ) → h'.1 q ≡ update h.1 p true q)
bump_fresh h h' p e = elim (Bool-cases (h.1 h.0)) [
  | inl used ↦ let e' = rw used at e in absurd (cc)
  | inr unused ↦
      let (at, heap) = some-pair (rw unused at e) in
      (
        rw (← at) unused,
        λ q. ap (λ (x : ℕ × (ℕ → Bool)). x.1 q) (sym heap) ∙ ap (λ k. update h.1 k true q) at,
      )
]

-- An allocator that never uses an address twice: the next one, and those in use.
abbrev bump : Allocator
bump = record {
  Heap = ℕ × (ℕ → Bool);
  allocate = λ h size. bump_allocate h;
  deallocate = λ h p. (h.0, update h.1 p false);
  live = λ h p. h.1 p;
  fresh = λ h h' size p e. bump_fresh h h' p e;
  freed = λ h p q. refl;
}

abbrev empty_host : Host bump
empty_host = record {
  heap = (0, λ p. false);
  cache = record {
    num_entities = 8;
    container = λ k. record { value = record { addr = 0; size = 0 }; valid = false };
    lru = empty_policy;
  };
}

empty_host-IsOwned : IsOwned bump empty_host
empty_host-IsOwned = record {
  sound = record {
    policy = record { free = λ k. refl; locked = λ k. refl; held = λ k x h. cc; keys = refl };
    same = λ k. refl;
    bound = λ k h. cc;
  };
  in_use = λ k v. cc;
  distinct = λ j k v w e. cc;
}

allocate_shard_buffer_total_example :
    (p : Option ℕ) × (s' : Host bump) × (gone : List ℕ) × (allocate_shard_buffer bump 1 100
        empty_host
      ≡ some (p, s'))
    × Allocated bump 100 empty_host s' p gone
allocate_shard_buffer_total_example =
    allocate_shard_buffer_total bump 100 1 empty_host empty_host-IsOwned (omega arith)

abbrev two_shards : List ShardInfo
two_shards =
    record { unique_id = 7; in_memory_size = 5000 }
    ∷ record { unique_id = 3; in_memory_size = 4096 }
    ∷ record { unique_id = 7; in_memory_size = 5000 }
    ∷ []
