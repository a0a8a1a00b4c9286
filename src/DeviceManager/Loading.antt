-- ===== src/DeviceManager/Loading.antt =====
-- source/cuMatch/device_manager.cu: how the shards of a task get into the host cache and from there
-- to the device, with one GPU: `_make_data_buffer_with_H2D`, `_allocate_shard_buffer_with_evcit`
-- and `_evict_cached_shard_once`. The buddy allocator of the host buffer is a parameter.
pub mod Evictions
pub mod Owners
pub mod Places
pub mod Refusals
use cu_match.Prelude.{
  ℕ, zero, suc, ◌+◌, ◌-◌, ◌*◌, ◌/◌, ◌≡◌, Bool, true, false, not, Option, none, some, List, [], ◌∷◌,
  ◌++◌, length, update, if◌then◌else◌, ◌>>=◌, ◌>>◌, check,
}
use cu_match.DeviceManager.{aligned_size, disk_io_sector_size}
use cu_match.Cache.Controller.{Controller, is_cached, get, add}
use cu_match.Cache.Controller as Controllers

-- What the program uses of `ash::portable_buddy_system`: a buffer that it hands out is not in use,
-- and is in use until it is given back.
pub record Allocator : Type 1 where
  pub Heap : Type 0
  pub allocate : Heap → ℕ → Option (ℕ × Heap)
  pub deallocate : Heap → ℕ → Heap
  pub live : Heap → ℕ → Bool
  pub fresh :
      (h h' : Heap) (size p : ℕ)
      → allocate h size ≡ some (p, h')
      → (live h p ≡ false) × ((q : ℕ) → live h' q ≡ update (live h) p true q)
  pub freed : (h : Heap) (p q : ℕ) → live (deallocate h p) q ≡ update (live h) p false q

-- `shard_descriptor`
pub record ShardDescriptor : Type 0 where
  pub addr : ℕ
  pub size : ℕ

-- What the model uses of a `sleaf`
pub record ShardInfo : Type 0 where
  pub unique_id : ℕ
  pub in_memory_size : ℕ

-- One copy to the device, from a host buffer to an offset of the device buffer
pub record DeviceCopy : Type 0 where
  pub dst : ℕ
  pub src : ℕ
  pub size : ℕ

module _ (a : Allocator) where
  open a use {Heap, allocate, deallocate}

  pub record Host : Type 0 where
    pub heap : Heap
    pub cache : Controller ShardDescriptor

  -- `_evict_cached_shard_once`, but for its assertion that the address is not null
  unfoldable pub evict_cached_shard_once : Host → Option (Bool × Host)
  evict_cached_shard_once s = do
    (c, gone) ← Controllers.evict s.cache
    elim gone [
      | none ↦ some (false, record s { cache = c })
      | some (key, value) ↦ some (true, record s { cache = c; heap = deallocate s.heap value.addr })
    ]

  -- `_allocate_shard_buffer_with_evcit`: the inner `none` is the null pointer, the outer one the end
  -- of the fuel.
  unfoldable pub allocate_shard_buffer : ℕ → ℕ → Host → Option (Option ℕ × Host)
  allocate_shard_buffer zero size s = none
  allocate_shard_buffer (suc fuel) size s = elim (allocate s.heap size) [
    | some (p, h) ↦ some (some p, record s { heap = h })
    | none ↦ evict_cached_shard_once s >>= λ (more, s'). elim more [
      | true ↦ allocate_shard_buffer fuel size s'
      | false ↦ some (none, s')
    ]
  ]

  abbrev pub address : Option ℕ → Option ℕ
  address p = p

  -- A shard that is not cached is loaded. Its bytes are those of the file. The loop of the evictions
  -- has fuel for all keys that it may evict, and one round more; `none` is an assertion that fails.
  unfoldable pub cache_shard : Bool → ShardInfo → Host → Option Host
  cache_shard in_memory_mode sleaf s = do
    cached ← is_cached s.cache sleaf.unique_id
    elim cached [
      | true ↦ some s
      | false ↦ do
        check (not in_memory_mode)
        let fuel = length s.cache.lru.free_list + 1
        (p, s') ← allocate_shard_buffer fuel sleaf.in_memory_size s
        addr ← address p
        c ←
            Controllers.add s'.cache sleaf.unique_id
              (record { addr = addr; size = sleaf.in_memory_size })
        some (record s' { cache = c })
    ]

  pub record Loader : Type 0 where
    pub host : Host
    pub offset : ℕ
    pub shard_ptrs : List ℕ
    pub copies : List DeviceCopy

  -- One round of the loop
  unfoldable pub load_shard : Bool → ShardInfo → Loader → Option Loader
  load_shard in_memory_mode sleaf l = do
    s ← cache_shard in_memory_mode sleaf l.host
    (c, found) ← get s.cache sleaf.unique_id
    des ← found
    some (record {
      host = record s { cache = c };
      offset = l.offset + aligned_size sleaf.in_memory_size disk_io_sector_size;
      shard_ptrs = l.shard_ptrs ++ l.offset ∷ [];
      copies = l.copies ++ record { dst = l.offset; src = des.addr; size = des.size } ∷ [];
    })

  unfoldable pub load_shards : Bool → List ShardInfo → Loader → Option Loader
  load_shards in_memory_mode [] l = some l
  load_shards in_memory_mode (sleaf ∷ sleaves) l =
      load_shard in_memory_mode sleaf l >>= load_shards in_memory_mode sleaves

  -- `_make_data_buffer_with_H2D`
  unfoldable pub make_data_buffer : Bool → ℕ → List ShardInfo → Host → Option Loader
  make_data_buffer in_memory_mode start_offset sleaves s =
      load_shards in_memory_mode sleaves (record {
        host = s;
        offset = aligned_size start_offset disk_io_sector_size;
        shard_ptrs = [];
        copies = [];
      })
