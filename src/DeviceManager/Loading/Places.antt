-- ===== src/DeviceManager/Loading/Places.antt =====
-- Where source/cuMatch/device_manager.cu puts the shards of a task in the device buffer.
use cu_match.Prelude.{ℕ, ◌+◌, ◌*◌, ◌%◌, ◌≤◌, ◌≡◌, Bool, List, [], ◌∷◌, length, map}
use cu_match.DeviceManager.{aligned_size, disk_io_sector_size}
use cu_match.DeviceManager.Loading.{Allocator, ShardInfo, Host, Loader}
use cu_match.DeviceManager.Loading.Refusals.{IsFree}

-- One shard behind the other, each from a multiple of the sector size on
abbrev pub Packed : ℕ → List ShardInfo → List ℕ → ℕ → Type 0
Packed from [] [] end = from ≡ end
Packed from [] (p ∷ ps) end = ⊥
Packed from (s ∷ ss) [] end = ⊥
Packed from (s ∷ ss) (p ∷ ps) end =
    (p ≡ from)
    × (p % 4096 ≡ 0)
    × Packed (from + aligned_size s.in_memory_size disk_io_sector_size) ss ps end

abbrev pub total_size : List ShardInfo → ℕ
total_size [] = 0
total_size (s ∷ ss) = s.in_memory_size + total_size ss

module _ (a : Allocator) (in_memory_mode : Bool) where
  -- The start of the loop
  abbrev pub start : ℕ → Host a → Loader a
  start start_offset s = record {
    host = s;
    offset = aligned_size start_offset disk_io_sector_size;
    shard_ptrs = [];
    copies = [];
  }

  -- What the loop leaves when it is at its end
  pub record Packing (start_offset n : ℕ) (ss : List ShardInfo) (l : Loader a) : Type 0 where
    pub from : ℕ
    pub behind : start_offset ≤ from
    pub packed : Packed from ss l.shard_ptrs l.offset
    pub copied : map (λ c. c.dst) l.copies ≡ l.shard_ptrs
    pub lower : start_offset + total_size ss ≤ l.offset
    pub upper : l.offset ≤ start_offset + total_size ss + 4095 * (length ss + 1)
    pub free : IsFree a in_memory_mode n l.host
