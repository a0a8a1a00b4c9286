-- ===== src/DeviceManager/Subtasks.antt =====
-- The shard indices of the subtasks in the header that source/cuMatch/device_manager.cu makes.
use cu_match.Prelude.{
  ℕ, suc, ◌+◌, ◌*◌, ◌≤◌, ◌<◌, ◌≡◌, ◌⊎◌, ◌==◌, Bool-cases, refl, ap, ◌∙◌, arith, List, [], ◌∷◌, inl,
  inr, update, length, count, get_elem?, some,
}
use cu_match.DeviceManager.{
  four, eight, store, HostBuffer, copy, array, GlobalInfo, fill_shard_idxs, copy_subtasks,
  map_shards,
}
use cu_match.DeviceManager.Store.{store_at, store_off, copy-room}

-- The list of each subtask, from the one with the number `i` on, reads back from its pointer, and
-- ends at `top` at the latest.
abbrev pub HoldsLists : GlobalInfo → (ℕ → ℕ) → ℕ → (ℕ → ℕ) → ℕ → ℕ → List (List ℕ) → Type 0
HoldsLists g mapper top mem info i [] = Unit
HoldsLists g mapper top mem info i (ids ∷ subtasks) =
    ((old : ℕ → ℕ) × ((k : ℕ)
        → k < g.num_query_edges * 2
        → mem (mem (info + 8 * i) + 4 * k) ≡ fill_shard_idxs g mapper 0 ids old k))
    × (mem (info + 8 * i) + 4 * (g.num_query_edges * 2) ≤ top)
    × HoldsLists g mapper top mem info (i + 1) subtasks

-- What the loop over the subtasks does to the buffer: `info` is the array of the pointers.
pub record CopiedLists (g : GlobalInfo) (mapper : ℕ → ℕ) (info i : ℕ) (subtasks : List (List ℕ))
    (b b' : HostBuffer) : Type 0 where
  pub grows : b.offset ≤ b'.offset
  pub keeps :
      (a : ℕ)
      → a < b.offset
      → (a < info + 8 * i) ⊎ (info + 8 * (i + length subtasks) ≤ a)
      → b'.mem a ≡ b.mem a
  pub holds : HoldsLists g mapper b'.offset b'.mem info i subtasks

pub copy_subtasks-CopiedLists :
    (g : GlobalInfo) (mapper : ℕ → ℕ) (info i : ℕ) (subtasks : List (List ℕ)) (b : HostBuffer)
    → info + 8 * (i + length subtasks) ≤ b.offset
    → CopiedLists g mapper info i subtasks b (copy_subtasks g mapper info i subtasks b)
unfolding copy_subtasks
copy_subtasks-CopiedLists g mapper info i [] b h = record {
  grows = omega arith;
  keeps = λ a lt out. refl;
  holds = tt;
}
copy_subtasks-CopiedLists g mapper info i (ids ∷ subtasks) b h =
    let poke = array eight 1 (λ k. b.offset) in
    let mem = store poke (info + 8 * i) b.mem in
    let values = fill_shard_idxs g mapper 0 ids (λ (k : ℕ). mem (b.offset + 4 * k)) in
    let s = array four (g.num_query_edges * 2) values in
    let b1 : HostBuffer = record b { mem = mem } in
    let room = copy-room s b1 in
    let c =
      copy_subtasks-CopiedLists g mapper info (i + 1) subtasks (copy s b1) (omega (arith, room)) in
    let end = (copy_subtasks g mapper info (i + 1) subtasks (copy s b1)).mem in
    let pointer : end (info + 8 * i) ≡ b.offset =
      c.keeps _ (omega (arith, room)) (inl (omega arith))
      ∙ store_off s b.offset mem _ (inl (omega arith))
      ∙ ap mem (omega arith)
      ∙ store_at poke (info + 8 * i) b.mem 0 (omega arith) in
    record {
      grows = omega (arith, c.grows, room);
      keeps = λ a lt out.
          c.keeps a (omega (arith, room)) (ground arith)
          ∙ store_off s b.offset mem a (inl lt)
          ∙ store_off poke (info + 8 * i) b.mem a (ground arith);
      holds = (
        (
          λ k. mem (b.offset + 4 * k),
          λ k lt.
              rw pointer (
                c.keeps _ (omega (arith, room)) (inr (omega arith)) ∙ store_at s b.offset mem k lt),
        ),
        rw pointer (omega (arith, room, c.grows)),
        c.holds,
      );
    }

pub HoldsLists-keep :
    (g : GlobalInfo) (mapper : ℕ → ℕ) (top : ℕ) (mem mem' : ℕ → ℕ) (info i : ℕ)
    (subtasks : List (List ℕ))
    → info + 8 * (i + length subtasks) ≤ top
    → ((a : ℕ) → a < top → mem' a ≡ mem a)
    → HoldsLists g mapper top mem info i subtasks
    → HoldsLists g mapper top mem' info i subtasks
HoldsLists-keep g mapper top mem mem' info i [] le same h = tt
HoldsLists-keep g mapper top mem mem' info i (ids ∷ subtasks) le same ((old, read), end, rest) =
    let at = same (info + 8 * i) (omega arith) in
    (
      (old, λ k lt. rw at (same _ (omega (arith, end)) ∙ read k lt)),
      rw at end,
      HoldsLists-keep g mapper top mem mem' info (i + 1) subtasks (omega arith) same rest,
    )

-- The index of a shard in the list that `_shard_mapper` is made from
map_shards_cases :
    (i : ℕ) (ids : List ℕ) (mapper : ℕ → ℕ) (id : ℕ)
    → ((n : ℕ) × (map_shards i ids mapper id ≡ i + n) × (get_elem? ids n ≡ some id))
      ⊎ ((map_shards i ids mapper id ≡ mapper id) × (count id ids ≡ 0))
map_shards_cases i [] mapper id = inr (refl, refl)
map_shards_cases i (x ∷ ids) mapper id =
    elim (map_shards_cases (i + 1) ids (update mapper x i) id) [
      | inl (n, e, at) ↦ inl (suc n, e ∙ omega arith, at)
      | inr (e, absent) ↦ elim (Bool-cases (id == x)) [
        | inl same ↦ inl (0, ground arith, ground arith)
        | inr other ↦ inr (ground arith, ground arith)
      ]
    ]

pub map_shards-get_elem? :
    (ids : List ℕ) (id : ℕ)
    → 0 < count id ids
    → get_elem? ids (map_shards 0 ids (λ x. 0) id) ≡ some id
map_shards-get_elem? ids id h = elim (map_shards_cases 0 ids (λ x. 0) id) [
  | inl (n, e, at) ↦ rw (e) (ap (get_elem? ids) (omega arith) ∙ at)
  | inr (e, absent) ↦ absurd (omega (arith, absent))
]
