-- ===== src/DeviceManager.antt =====
-- source/cuMatch/device_manager.cu: the header of a kernel task in the buffer that goes to the
-- device, `_make_header_buffer` and `_get_max_header_size`. The host buffer and its copy on the
-- device have the same offsets, so a pointer is an offset. Each byte holds the array element that
-- it belongs to; a `bool` is 0 or 1.
pub mod Contents
pub mod Loading
pub mod Sizes
pub mod Store
pub mod Subtasks
use cu_match.Prelude.{
  ℕ, zero, suc, ◌+◌, ◌-◌, ◌*◌, ◌/◌, Bool, Option, none, some, List, [], ◌∷◌, ◌++◌, length, ltb, leb,
  ◌&&◌, if◌then◌else◌, update, get_or, ◌>>=◌, ◌>>◌, check,
}
use cu_match.Kernel.{sub32}

-- include/ash/numeric.h
abbrev pub aligned_size : ℕ → ℕ → ℕ
aligned_size size align = align * ((size + align - 1) / align)

abbrev pub cuda_alignment : ℕ
cuda_alignment = 256

abbrev pub disk_io_sector_size : ℕ
disk_io_sector_size = 4096

abbrev pub max_num_shard_per_iter : ℕ
max_num_shard_per_iter = 300

-- The sizes of the element types: `bool` and `kernel_edge_type`, `uint32_t`, and pointers.
pub data Width : Type 0 where
  one four eight : Width

abbrev pub bytes : Width → ℕ
bytes one = 1
bytes four = 4
bytes eight = 8

pub record HostBuffer : Type 0 where
  pub offset : ℕ
  pub mem : ℕ → ℕ

-- An array: its elements, and their number.
pub record Segment : Type 0 where
  pub width : Width
  pub count : ℕ
  pub values : ℕ → ℕ

-- Write an array at `start`.
unfoldable pub store : Segment → ℕ → (ℕ → ℕ) → ℕ → ℕ
store s start mem a =
    if leb start a && ltb a (start + bytes s.width * s.count)
    then s.values ((a - start) / bytes s.width)
    else mem a

-- `offset += aligned_size(size, CudaAlignment)`
abbrev pub skip : Width → ℕ → HostBuffer → HostBuffer
skip width count b = record b {
  offset = b.offset + aligned_size (bytes width * count) cuda_alignment;
}

-- One block of the function: the array goes to `offset`, which moves behind it.
abbrev pub copy : Segment → HostBuffer → HostBuffer
copy s b = skip s.width s.count (record b { mem = store s b.offset b.mem })

-- The blocks one after the other, with the pointers that they set.
unfoldable pub copy_all : List Segment → HostBuffer → List ℕ × HostBuffer
copy_all [] b = ([], b)
copy_all (s ∷ ss) b = let (ps, b') = copy_all ss (copy s b) in (b.offset ∷ ps, b')

-- `global_kernel_task_info`
pub record GlobalInfo : Type 0 where
  pub num_query_vertices : ℕ
  pub num_query_edges : ℕ
  pub num_constraints : ℕ
  pub is_table_join : Bool
  pub global_order : ℕ → ℕ
  pub prefix_sum_degree : ℕ → ℕ
  pub eid_list : ℕ → ℕ
  pub edge_type_list : ℕ → ℕ
  pub lv0_dep : ℕ → ℕ
  pub v1_list_idxs : ℕ → ℕ
  pub v2_list_idxs : ℕ → ℕ
  pub constraint_ptr : ℕ → ℕ
  pub constraints : ℕ → ℕ
  pub num_optional_per_vertex : ℕ → ℕ
  pub num_negative_per_vertex : ℕ → ℕ
  pub is_optional_vertex : ℕ → ℕ
  pub is_negative_vertex_with_degree : ℕ → ℕ
  pub edge_order_with_vid : ℕ → ℕ
  pub is_join_vertex : ℕ → ℕ

-- `single_kernel_task_info`: a subtask is the list of the unique ids of its shards.
pub record TaskInfo : Type 0 where
  pub num_tree_nodes : ℕ
  pub sched_tree_ptr : ℕ → ℕ
  pub sched_tree_nxt_id : ℕ → ℕ
  pub sched_tree_prv_id : ℕ → ℕ
  pub sched_tree_st_id : ℕ → ℕ
  pub tree_root_id : List ℕ
  pub subtasks : List (List ℕ)
  pub total_sleaf_ptrs : List ℕ

-- `_shard_mapper`, from the counter `i` on
abbrev pub map_shards : ℕ → List ℕ → (ℕ → ℕ) → ℕ → ℕ
map_shards i [] mapper = mapper
map_shards i (id ∷ ids) mapper = map_shards (i + 1) ids (update mapper id i)

abbrev pub array : Width → ℕ → (ℕ → ℕ) → Segment
array width count values = record { width = width; count = count; values = values }

-- The arrays between `shard_ptr` and `subtask_info`, in order
abbrev pub arrays : GlobalInfo → TaskInfo → List Segment
arrays g k =
    array four g.num_query_vertices g.global_order
    ∷ array four (g.num_query_vertices + 1) g.prefix_sum_degree
    ∷ array four (g.num_query_edges * 2) g.eid_list
    ∷ array one (g.num_query_edges * 2) g.edge_type_list
    ∷ array four g.num_query_edges g.lv0_dep
    ∷ array four (g.num_query_vertices + 1) g.constraint_ptr
    ∷ array four g.num_constraints g.constraints
    ∷ array four g.num_query_vertices g.num_optional_per_vertex
    ∷ array four g.num_query_vertices g.num_negative_per_vertex
    ∷ array one g.num_query_vertices g.is_optional_vertex
    ∷ array four g.num_query_vertices g.is_negative_vertex_with_degree
    ∷ array four (k.num_tree_nodes + 1) k.sched_tree_ptr
    ∷ array four (sub32 k.num_tree_nodes 1) k.sched_tree_nxt_id
    ∷ array four (sub32 k.num_tree_nodes 1) k.sched_tree_prv_id
    ∷ array four (sub32 k.num_tree_nodes 1) k.sched_tree_st_id
    ∷ array four (length k.tree_root_id) (λ i. get_or k.tree_root_id i 0)
    ∷ []

-- The arrays of the table join
abbrev pub join_arrays : GlobalInfo → List Segment
join_arrays g =
    array four (g.num_query_edges * 2) g.edge_order_with_vid
    ∷ array one (g.num_query_edges * 2) g.is_join_vertex
    ∷ []

-- `host_shard_idx_list` of one subtask, for the edges from `j` on
abbrev pub fill_shard_idxs : GlobalInfo → (ℕ → ℕ) → ℕ → List ℕ → (ℕ → ℕ) → ℕ → ℕ
fill_shard_idxs g mapper j [] values = values
fill_shard_idxs g mapper j (id ∷ ids) values = fill_shard_idxs g mapper (j + 1) ids (
    if g.is_table_join
    then update values j (mapper id)
    else update (update values (g.v1_list_idxs j) (mapper id)) (g.v2_list_idxs j) (mapper id))

-- The loop over the subtasks: the pointer goes to `subtask_info[i]`, and the list to `offset`.
unfoldable pub copy_subtasks :
    GlobalInfo → (ℕ → ℕ) → ℕ → ℕ → List (List ℕ) → HostBuffer → HostBuffer
copy_subtasks g mapper info i [] b = b
copy_subtasks g mapper info i (ids ∷ subtasks) b =
    let mem = store (array eight 1 (λ k. b.offset)) (info + 8 * i) b.mem in
    let old = λ (k : ℕ). mem (b.offset + 4 * k) in
    copy_subtasks g mapper info (i + 1) subtasks (
      copy (array four (g.num_query_edges * 2) (fill_shard_idxs g mapper 0 ids old))
        (record b { mem = mem }))

-- The header: the pointers, and the buffer with the final offset, which is `header_size`.
pub record Header : Type 0 where
  pub shard_ptr : ℕ
  pub array_ptrs : List ℕ
  pub subtask_info : ℕ
  pub join_ptrs : List ℕ
  pub buffer : HostBuffer

-- The blocks of `_make_header_buffer`, for a `kernel_buffer_header` of `size` bytes
unfoldable pub header_of : ℕ → GlobalInfo → TaskInfo → (ℕ → ℕ) → Header
header_of size g k mem =
    let start : HostBuffer = record { offset = aligned_size size cuda_alignment; mem = mem } in
    let mapper = map_shards 0 k.total_sleaf_ptrs (λ id. 0) in
    let (ps, b1) = copy_all (arrays g k) (skip eight (length k.total_sleaf_ptrs) start) in
    let b2 = copy_subtasks g mapper b1.offset 0 k.subtasks (skip eight (length k.subtasks) b1) in
    let (js, b3) = copy_all (if g.is_table_join then join_arrays g else []) b2 in
    record {
      shard_ptr = start.offset;
      array_ptrs = ps;
      subtask_info = b1.offset;
      join_ptrs = js;
      buffer = b3;
    }

-- `_make_header_buffer`: `exit(1)` is `none`.
unfoldable pub make_header_buffer : ℕ → GlobalInfo → TaskInfo → (ℕ → ℕ) → Option Header
make_header_buffer size g k mem =
    check (ltb (length k.total_sleaf_ptrs) max_num_shard_per_iter) >> some (header_of size g k mem)
