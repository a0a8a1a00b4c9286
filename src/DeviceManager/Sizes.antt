-- ===== src/DeviceManager/Sizes.antt =====
-- The room that source/cuMatch/device_manager.cu keeps for a header, `_get_max_header_size`.
use cu_match.Prelude.{
  ℕ, zero, suc, ◌+◌, ◌*◌, ◌≤◌, ◌<◌, ◌≡◌, Bool, true, false, ap, arith, List, [], ◌∷◌, length, ltb,
  some, if◌then◌else◌, check-elim, some_inj,
}
use cu_match.Kernel.{sub32}
use cu_match.QueryGraph.{max_num_query_vertices}
use cu_match.SchedTree.Regenerate.{max_num_tree_nodes}
use cu_match.DeviceManager.{
  four, eight, bytes, Segment, HostBuffer, GlobalInfo, TaskInfo, Header, copy_subtasks, copy_all,
  copy, array, fill_shard_idxs, store, map_shards, skip, arrays, join_arrays, header_of,
  make_header_buffer, aligned_size, cuda_alignment, disk_io_sector_size, max_num_shard_per_iter,
}

abbrev pub max_num_query_edges : ℕ
max_num_query_edges = 10

abbrev pub max_num_constraints : ℕ
max_num_constraints = 5

-- `ret += aligned_size(count * sizeof(...), CudaAlignment)`
abbrev pub room : ℕ → ℕ
room size = aligned_size size cuda_alignment

-- The loop over `MaxNumTreeNodes`
unfoldable pub list_rooms : ℕ → ℕ → ℕ
list_rooms zero ret = ret
list_rooms (suc n) ret = list_rooms n (ret + room (max_num_query_edges * 2 * 4))

-- `_get_max_header_size`
unfoldable pub get_max_header_size : ℕ → Bool → ℕ
get_max_header_size size is_table_join =
    let fixed =
      room size
      + room (max_num_shard_per_iter * 8)
      + room (max_num_query_vertices * 4)
      + room (max_num_query_vertices * 1)
      + room (max_num_query_vertices * 4)
      + room ((max_num_query_vertices + 1) * 4)
      + room (max_num_query_edges * 2 * 4)
      + room (max_num_query_edges * 2 * 1)
      + room (max_num_query_edges * 4)
      + room ((max_num_query_vertices + 1) * 4)
      + room (max_num_constraints * 4)
      + room (max_num_query_vertices * 4)
      + room (max_num_query_vertices * 4)
      + room (max_num_tree_nodes * 4)
      + room (max_num_tree_nodes * 4)
      + room (max_num_tree_nodes * 4)
      + room (max_num_tree_nodes * 4)
      + room (max_num_tree_nodes * 8)
      + room (max_num_tree_nodes * 4) in
    let lists = list_rooms max_num_tree_nodes fixed in
    aligned_size
      (if is_table_join
        then lists + room (max_num_query_edges * 2 * 4) + room (max_num_query_edges * 2 * 1)
        else lists)
      disk_io_sector_size

list_rooms_lem : (n ret : ℕ) → list_rooms n ret ≡ ret + 256 * n
unfolding list_rooms
list_rooms_lem zero ret = omega arith
list_rooms_lem (suc n) ret =
    omega (arith, list_rooms_lem n (ret + room (max_num_query_edges * 2 * 4)))

copy_subtasks-le :
    (g : GlobalInfo) (mapper : ℕ → ℕ) (info i : ℕ) (subtasks : List (List ℕ)) (b : HostBuffer)
    → g.num_query_edges ≤ 10
    → (copy_subtasks g mapper info i subtasks b).offset ≤ b.offset + 256 * length subtasks
unfolding copy_subtasks
copy_subtasks-le g mapper info i [] b le = omega arith
copy_subtasks-le g mapper info i (ids ∷ subtasks) b le =
    let mem = store (array eight 1 (λ k. b.offset)) (info + 8 * i) b.mem in
    let values = fill_shard_idxs g mapper 0 ids (λ (k : ℕ). mem (b.offset + 4 * k)) in
    let next = copy (array four (g.num_query_edges * 2) values) (record b { mem = mem }) in
    omega (arith, copy_subtasks-le g mapper info (i + 1) subtasks next le)

-- The limits that the program keeps to
pub record IsWithinLimits (g : GlobalInfo) (k : TaskInfo) : Type 0 where
  pub vertices : g.num_query_vertices ≤ max_num_query_vertices
  pub edges : g.num_query_edges ≤ max_num_query_edges
  pub constraints : g.num_constraints ≤ max_num_constraints
  pub root : 1 ≤ k.num_tree_nodes
  pub nodes : k.num_tree_nodes < max_num_tree_nodes
  pub roots : length k.tree_root_id ≤ max_num_tree_nodes
  pub subtasks : length k.subtasks ≤ max_num_tree_nodes

abbrev rooms : List Segment → ℕ
rooms [] = 0
rooms (s ∷ ss) = room (bytes s.width * s.count) + rooms ss

copy_all-rooms :
    (ss : List Segment) (b : HostBuffer) → (copy_all ss b).1.offset ≡ b.offset + rooms ss
unfolding copy_all
copy_all-rooms [] b = omega arith
copy_all-rooms (s ∷ ss) b = omega (arith, copy_all-rooms ss (copy s b))

room-le : (size m : ℕ) → size ≤ 256 * m → room size ≤ 256 * m
room-le size m h = omega arith

rooms-arrays : (g : GlobalInfo) (k : TaskInfo) → IsWithinLimits g k → rooms (arrays g k) ≤ 13056
rooms-arrays g k w =
    let links : sub32 k.num_tree_nodes 1 ≤ 499 = omega (arith, w.root, w.nodes) in
    omega (
      arith,
      room-le (4 * g.num_query_vertices) 1 (omega (arith, w.vertices)),
      room-le (4 * (g.num_query_vertices + 1)) 1 (omega (arith, w.vertices)),
      room-le (1 * g.num_query_vertices) 1 (omega (arith, w.vertices)),
      room-le (4 * (g.num_query_edges * 2)) 1 (omega (arith, w.edges)),
      room-le (1 * (g.num_query_edges * 2)) 1 (omega (arith, w.edges)),
      room-le (4 * g.num_query_edges) 1 (omega (arith, w.edges)),
      room-le (4 * g.num_constraints) 1 (omega (arith, w.constraints)),
      room-le (4 * (k.num_tree_nodes + 1)) 8 (omega (arith, w.nodes)),
      room-le (4 * sub32 k.num_tree_nodes 1) 8 (omega (arith, links)),
      room-le (4 * length k.tree_root_id) 8 (omega (arith, w.roots)),
    )

rooms-join_arrays :
    (g : GlobalInfo) (table : Bool)
    → g.num_query_edges ≤ 10
    → rooms (if table then join_arrays g else []) ≤ (if table then 512 else 0)
rooms-join_arrays g true le = omega arith
rooms-join_arrays g false le = omega arith

header_of-le :
    (size : ℕ) (g : GlobalInfo) (k : TaskInfo) (mem : ℕ → ℕ)
    → IsWithinLimits g k
    → length k.total_sleaf_ptrs < 300
    → (header_of size g k mem).buffer.offset
      ≤ room size + 2560 + 13056 + 4096 + 128000 + (if g.is_table_join then 512 else 0)
unfolding header_of
header_of-le size g k mem w small =
    let start : HostBuffer = record { offset = aligned_size size cuda_alignment; mem = mem } in
    let mapper = map_shards 0 k.total_sleaf_ptrs (λ id. 0) in
    let b = skip eight (length k.total_sleaf_ptrs) start in
    let b1 = (copy_all (arrays g k) b).1 in
    let sk = skip eight (length k.subtasks) b1 in
    let b2 = copy_subtasks g mapper b1.offset 0 k.subtasks sk in
    let n = w.subtasks in
    omega (
      arith,
      copy_all-rooms (arrays g k) b,
      rooms-arrays g k w,
      copy_subtasks-le g mapper b1.offset 0 k.subtasks sk w.edges,
      copy_all-rooms (if g.is_table_join then join_arrays g else []) b2,
      rooms-join_arrays g g.is_table_join w.edges,
      room-le (8 * length k.total_sleaf_ptrs) 10 (omega arith),
      room-le (8 * length k.subtasks) 16 (omega arith),
    )

get_max_header_size_lem :
    (size : ℕ) (table : Bool)
    → room size + 2560 + 13056 + 4096 + 128000 + (if table then 512 else 0)
      ≤ get_max_header_size size table
unfolding get_max_header_size
get_max_header_size_lem size true = omega (arith, list_rooms_lem max_num_tree_nodes)
get_max_header_size_lem size false = omega (arith, list_rooms_lem max_num_tree_nodes)

-- If the query, the constraints and the task keep to the limits of the program, the header of the
-- task fits the room that is kept for every header.
pub make_header_buffer-fits :
    (size : ℕ) (g : GlobalInfo) (k : TaskInfo) (mem : ℕ → ℕ) (h : Header)
    → IsWithinLimits g k
    → make_header_buffer size g k mem ≡ some h
    → h.buffer.offset ≤ get_max_header_size size g.is_table_join
unfolding make_header_buffer
make_header_buffer-fits size g k mem h w made =
    check-elim (ltb (length k.total_sleaf_ptrs) max_num_shard_per_iter)
      (some (header_of size g k mem)) made
      λ small same.
        let le = header_of-le size g k mem w (ground arith) in
        omega (
          arith,
          le,
          get_max_header_size_lem size g.is_table_join,
          ap (λ x. x.buffer.offset) (some_inj same),
        )
