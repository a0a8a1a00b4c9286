-- ===== src/DeviceManager/Contents.antt =====
-- What a kernel finds in the header that source/cuMatch/device_manager.cu makes.
use cu_match.Prelude.{
  ℕ, zero, suc, ◌+◌, ◌*◌, ◌≤◌, ◌<◌, ◌≡◌, ◌≢◌, ◌⊎◌, if◌then◌else◌, Bool-cases, true, refl, ap, ◌∙◌,
  arith, List, [], ◌∷◌, inl, inr, length, count, get_elem?, some, none, check-elim, some_inj, ltb,
}
use mathlib.Core.Path.{subst}
use native.Mathlib.Nat.{add-zero}
use cu_match.DeviceManager.{
  eight, HostBuffer, GlobalInfo, TaskInfo, Header, fill_shard_idxs, copy_subtasks, copy_all,
  map_shards, skip, header_of, arrays, join_arrays, make_header_buffer, aligned_size,
  max_num_shard_per_iter, cuda_alignment,
}
use cu_match.DeviceManager.Store.{Holds, Holds-keep, copy_all-Copied}
use cu_match.DeviceManager.Subtasks.{
  HoldsLists, HoldsLists-keep, copy_subtasks-CopiedLists, map_shards-get_elem?,
}

-- No entry of the shard list belongs to two edges.
pub record IsSlots (g : GlobalInfo) : Type 0 where
  pub bounded :
      (j : ℕ)
      → j < g.num_query_edges
      → (g.v1_list_idxs j < g.num_query_edges * 2) × (g.v2_list_idxs j < g.num_query_edges * 2)
  pub v1_once :
      (i j : ℕ)
      → i < g.num_query_edges
      → j < g.num_query_edges
      → g.v1_list_idxs i ≡ g.v1_list_idxs j
      → i ≡ j
  pub v2_once :
      (i j : ℕ)
      → i < g.num_query_edges
      → j < g.num_query_edges
      → g.v2_list_idxs i ≡ g.v2_list_idxs j
      → i ≡ j
  pub apart :
      (i j : ℕ)
      → i < g.num_query_edges
      → j < g.num_query_edges
      → g.v1_list_idxs i ≢ g.v2_list_idxs j

-- The entries of an edge: the table join has one, the attribute join two.
abbrev pub IsEntry : GlobalInfo → ℕ → ℕ → Type 0
IsEntry g j e =
    (e ≡ (if g.is_table_join then j else g.v1_list_idxs j))
    ⊎ (e ≡ (if g.is_table_join then j else g.v2_list_idxs j))

module _ (g : GlobalInfo) (slots : IsSlots g) (mapper : ℕ → ℕ) where
  fill_shard_idxs-keep :
      (j : ℕ) (ids : List ℕ) (values : ℕ → ℕ) (i e : ℕ)
      → i < j
      → j + length ids ≤ g.num_query_edges
      → IsEntry g i e
      → fill_shard_idxs g mapper j ids values e ≡ values e
  fill_shard_idxs-keep j [] values i e lt le h = refl
  fill_shard_idxs-keep j (id ∷ ids) values i e lt le h =
      let a = slots.apart i j (omega arith) (omega arith) in
      let a' = slots.apart j i (omega arith) (omega arith) in
      let once1 = slots.v1_once i j (omega arith) (omega arith) in
      let once2 = slots.v2_once i j (omega arith) (omega arith) in
      fill_shard_idxs-keep (j + 1) ids _ i e (omega arith) (omega arith) h
      ∙ elim (Bool-cases g.is_table_join) [
        | inl table ↦ rw table (ground arith)
        | inr attribute ↦ rw attribute (ground arith)
      ]

  -- Every entry of an edge holds what the mapper says for the shard of the edge.
  pub fill_shard_idxs_lem :
      (j : ℕ) (ids : List ℕ) (values : ℕ → ℕ) (i e id : ℕ)
      → j + length ids ≤ g.num_query_edges
      → get_elem? ids i ≡ some id
      → IsEntry g (j + i) e
      → fill_shard_idxs g mapper j ids values e ≡ mapper id
  fill_shard_idxs_lem j [] values i e id le at h = absurd (ground arith)
  fill_shard_idxs_lem j (x ∷ ids) values zero e id le at h =
      fill_shard_idxs-keep (j + 1) ids _ j e (omega arith) (omega arith)
        (subst (λ k. IsEntry g k e) (omega arith) h)
      ∙ elim (Bool-cases g.is_table_join) [
        | inl table ↦ rw table (ground arith)
        | inr attribute ↦ rw attribute (ground arith)
      ]
  fill_shard_idxs_lem j (x ∷ ids) values (suc i) e id le at h =
      fill_shard_idxs_lem (j + 1) ids _ i e id (omega arith) at
        (subst (λ k. IsEntry g k e) (omega arith) h)

  IsEntry-lt : (j e : ℕ) → j < g.num_query_edges → IsEntry g j e → e < g.num_query_edges * 2
  IsEntry-lt j e lt h = let b = slots.bounded j lt in ground arith

  HoldsLists-entry :
      (top : ℕ) (mem : ℕ → ℕ) (info i : ℕ) (subtasks : List (List ℕ)) (n : ℕ) (ids : List ℕ)
      (j e id : ℕ)
      → HoldsLists g mapper top mem info i subtasks
      → get_elem? subtasks n ≡ some ids
      → length ids ≡ g.num_query_edges
      → get_elem? ids j ≡ some id
      → j < g.num_query_edges
      → IsEntry g j e
      → mem (mem (info + 8 * (i + n)) + 4 * e) ≡ mapper id
  HoldsLists-entry top mem info i [] n ids j e id h at len at' lt entry = absurd (ground arith)
  HoldsLists-entry top mem info i (xs ∷ subtasks) zero ids j e id h at len at' lt entry =
      let same = some_inj at in
      let (old, read) = h.0 in
      rw (add-zero, read e (IsEntry-lt j e lt entry))
        (fill_shard_idxs_lem 0 xs old j e id (rw same (omega (arith, len))) (rw same at')
          (subst (λ k. IsEntry g k e) (omega arith) entry))
  HoldsLists-entry top mem info i (xs ∷ subtasks) (suc n) ids j e id h at len at' lt entry =
      ap (λ k. mem (mem (info + 8 * k) + 4 * e)) (omega arith)
      ∙ HoldsLists-entry top mem info (i + 1) subtasks n ids j e id h.2 at len at' lt entry

-- What the header holds when it is complete
record Complete (size : ℕ) (g : GlobalInfo) (k : TaskInfo) (mem : ℕ → ℕ) (h : Header) : Type 0 where
  plain : Holds h.buffer.mem (arrays g k) h.array_ptrs
  join : Holds h.buffer.mem (if g.is_table_join then join_arrays g else []) h.join_ptrs
  lists :
      (top : ℕ) × HoldsLists g
        (map_shards 0 k.total_sleaf_ptrs (λ id. 0))
        top
        h.buffer.mem
        h.subtask_info
        0
        k.subtasks

header_of-Complete :
    (size : ℕ) (g : GlobalInfo) (k : TaskInfo) (mem : ℕ → ℕ)
    → Complete size g k mem (header_of size g k mem)
unfolding header_of
header_of-Complete size g k mem =
    let start : HostBuffer = record { offset = aligned_size size cuda_alignment; mem = mem } in
    let mapper = map_shards 0 k.total_sleaf_ptrs (λ id. 0) in
    let b = skip eight (length k.total_sleaf_ptrs) start in
    let c1 = copy_all-Copied (arrays g k) b in
    let b1 = (copy_all (arrays g k) b).1 in
    let sk = skip eight (length k.subtasks) b1 in
    let c2 = copy_subtasks-CopiedLists g mapper b1.offset 0 k.subtasks sk (omega arith) in
    let b2 = copy_subtasks g mapper b1.offset 0 k.subtasks sk in
    let c3 = copy_all-Copied (if g.is_table_join then join_arrays g else []) b2 in
    let grows = c2.grows in
    record {
      plain =
          Holds-keep b1.mem _ b1.offset (arrays g k) _ c1.within
            (λ a lt.
              c3.keeps a (omega (arith, grows)) ∙ c2.keeps a (omega arith) (inl (omega arith)))
            c1.holds;
      join = c3.holds;
      lists = (
        b2.offset,
        HoldsLists-keep g mapper b2.offset b2.mem _ b1.offset 0 k.subtasks (omega (arith, grows))
            c3.keeps c2.holds,
      );
    }

-- A header is made exactly if the task has fewer than 300 shards. Every array that is copied into
-- it reads back from its pointer, element by element, when the header is complete: no later array
-- overwrites it.
pub make_header_buffer-Holds :
    (size : ℕ) (g : GlobalInfo) (k : TaskInfo) (mem : ℕ → ℕ)
    → (length k.total_sleaf_ptrs < 300
        → (h : Header) × (make_header_buffer size g k mem ≡ some h)
          × Holds h.buffer.mem (arrays g k) h.array_ptrs
          × (g.is_table_join ≡ true → Holds h.buffer.mem (join_arrays g) h.join_ptrs))
      × (300 ≤ length k.total_sleaf_ptrs → make_header_buffer size g k mem ≡ none)
unfolding make_header_buffer
make_header_buffer-Holds size g k mem =
    let c = header_of-Complete size g k mem in
    (
      λ lt. (
        header_of size g k mem,
        ground arith,
        c.plain,
        λ table.
            subst
              (λ t.
                Holds (header_of size g k mem).buffer.mem (if t then join_arrays g else [])
                  (header_of size g k mem).join_ptrs)
              table c.join,
      ),
      λ le. ground arith,
    )

-- The entries that a kernel reads for an edge of a subtask, through the pointer of the subtask,
-- are the index of the shard of that edge in the list of the shards of the task: the edge has one
-- entry for the table join and two for the attribute join. The shard is in the list, the subtask
-- has a shard for each edge, and no entry belongs to two edges.
pub make_header_buffer-shards :
    (size : ℕ) (g : GlobalInfo) (k : TaskInfo) (mem : ℕ → ℕ) (h : Header)
    → IsSlots g
    → make_header_buffer size g k mem ≡ some h
    → (n : ℕ) (ids : List ℕ) (j e id : ℕ) → get_elem? k.subtasks n ≡ some ids
    → length ids ≡ g.num_query_edges
    → get_elem? ids j ≡ some id
    → j < g.num_query_edges
    → IsEntry g j e
    → 0 < count id k.total_sleaf_ptrs
    → get_elem? k.total_sleaf_ptrs (h.buffer.mem (h.buffer.mem (h.subtask_info + 8 * n) + 4 * e))
      ≡ some id
unfolding make_header_buffer
make_header_buffer-shards size g k mem h slots made n ids j e id at len at' lt entry known =
    check-elim (ltb (length k.total_sleaf_ptrs) max_num_shard_per_iter)
      (some (header_of size g k mem)) made
      λ small same.
        let (top, lists) = (header_of-Complete size g k mem).lists in
        let mapper = map_shards 0 k.total_sleaf_ptrs (λ id. 0) in
        let made_header = header_of size g k mem in
        let entry_of = λ (i : ℕ).
          made_header.buffer.mem
            (made_header.buffer.mem (made_header.subtask_info + 8 * i) + 4 * e) in
        let read =
          HoldsLists-entry g slots mapper top made_header.buffer.mem made_header.subtask_info 0
            k.subtasks n ids j e id lists at len at' lt entry in
        let at_zero : 0 + n ≡ n = omega arith in
        let read' = subst (λ i. entry_of i ≡ mapper id) at_zero read in
        subst
          (λ (x : Header).
            get_elem? k.total_sleaf_ptrs
              (x.buffer.mem (x.buffer.mem (x.subtask_info + 8 * n) + 4 * e))
            ≡ some id)
          (some_inj same)
          (ap (get_elem? k.total_sleaf_ptrs) read'
            ∙ map_shards-get_elem? k.total_sleaf_ptrs id known)
