-- ===== src/DeviceManager/Store.antt =====
-- Reads behind the writes of arrays in source/cuMatch/device_manager.cu.
use cu_match.Prelude.{
  ℕ, ◌+◌, ◌-◌, ◌*◌, ◌/◌, ◌≤◌, ◌<◌, ◌≡◌, ◌⊎◌, refl, ap, ◌∙◌, arith, List, [], ◌∷◌, inl,
}
use cu_match.DeviceManager.{
  Width, one, four, eight, bytes, Segment, store, HostBuffer, copy, copy_all, array,
}

-- An element reads back where the array was written, and all else is as before.
store_at_width :
    (w : Width) (count : ℕ) (values : ℕ → ℕ) (start : ℕ) (mem : ℕ → ℕ) (i : ℕ)
    → i < count
    → store (array w count values) start mem (start + bytes w * i) ≡ values i
unfolding store
store_at_width one count values start mem i h =
    let e : (start + 1 * i - start) / 1 ≡ i = omega arith in ground (arith, ap values e)
store_at_width four count values start mem i h =
    let e : (start + 4 * i - start) / 4 ≡ i = omega arith in ground (arith, ap values e)
store_at_width eight count values start mem i h =
    let e : (start + 8 * i - start) / 8 ≡ i = omega arith in ground (arith, ap values e)

pub store_at :
    (s : Segment) (start : ℕ) (mem : ℕ → ℕ) (i : ℕ)
    → i < s.count
    → store s start mem (start + bytes s.width * i) ≡ s.values i
store_at s = store_at_width s.width s.count s.values

pub store_off :
    (s : Segment) (start : ℕ) (mem : ℕ → ℕ) (a : ℕ)
    → (a < start) ⊎ (start + bytes s.width * s.count ≤ a)
    → store s start mem a ≡ mem a
unfolding store
store_off s start mem a h = ground arith

-- The room that a block takes holds its array.
pub copy-room :
    (s : Segment) (b : HostBuffer) → b.offset + bytes s.width * s.count ≤ (copy s b).offset
copy-room s b = omega arith

-- Where an element of an array lies
pub element-lt : (s : Segment) (i : ℕ) → i < s.count → bytes s.width * i < bytes s.width * s.count
element-lt s i h = element_width s.width s.count i h
  where
    element_width : (w : Width) (count i : ℕ) → i < count → bytes w * i < bytes w * count
    element_width one count i h = omega arith
    element_width four count i h = omega arith
    element_width eight count i h = omega arith

-- Every array reads back from its pointer.
abbrev pub Holds : (ℕ → ℕ) → List Segment → List ℕ → Type 0
Holds mem [] ps = Unit
Holds mem (s ∷ ss) [] = ⊥
Holds mem (s ∷ ss) (p ∷ ps) =
    ((i : ℕ) → i < s.count → mem (p + bytes s.width * i) ≡ s.values i) × Holds mem ss ps

-- Every array ends at `top` at the latest.
abbrev pub Within : ℕ → List Segment → List ℕ → Type 0
Within top [] ps = Unit
Within top (s ∷ ss) [] = ⊥
Within top (s ∷ ss) (p ∷ ps) = (p + bytes s.width * s.count ≤ top) × Within top ss ps

pub Within-le :
    (top top' : ℕ) (ss : List Segment) (ps : List ℕ)
    → top ≤ top'
    → Within top ss ps
    → Within top' ss ps
Within-le top top' [] ps le w = tt
Within-le top top' (s ∷ ss) [] le w = w
Within-le top top' (s ∷ ss) (p ∷ ps) le w = (omega (arith, w.0), Within-le top top' ss ps le w.1)

pub Holds-keep :
    (mem mem' : ℕ → ℕ) (top : ℕ) (ss : List Segment) (ps : List ℕ)
    → Within top ss ps
    → ((a : ℕ) → a < top → mem' a ≡ mem a)
    → Holds mem ss ps
    → Holds mem' ss ps
Holds-keep mem mem' top [] ps w same h = tt
Holds-keep mem mem' top (s ∷ ss) [] w same h = h
Holds-keep mem mem' top (s ∷ ss) (p ∷ ps) w same h = (
  λ i lt. let e = element-lt s i lt in same _ (omega (arith, w.0)) ∙ h.0 i lt,
  Holds-keep mem mem' top ss ps w.1 same h.1,
)

-- What the blocks do to the buffer.
pub record Copied (ss : List Segment) (b : HostBuffer) (ps : List ℕ) (b' : HostBuffer)
    : Type 0 where
  pub grows : b.offset ≤ b'.offset
  pub keeps : (a : ℕ) → a < b.offset → b'.mem a ≡ b.mem a
  pub holds : Holds b'.mem ss ps
  pub within : Within b'.offset ss ps

pub copy_all-Copied :
    (ss : List Segment) (b : HostBuffer) → Copied ss b (copy_all ss b).0 (copy_all ss b).1
unfolding copy_all
copy_all-Copied [] b = record { grows = omega arith; keeps = λ a h. refl; holds = tt; within = tt }
copy_all-Copied (s ∷ ss) b =
    let c = copy_all-Copied ss (copy s b) in
    let room = copy-room s b in
    record {
      grows = omega (arith, c.grows, room);
      keeps = λ a h. c.keeps a (omega (arith, room)) ∙ store_off s b.offset b.mem a (inl h);
      holds = (
        λ i lt.
            let e = element-lt s i lt in
            c.keeps _ (omega (arith, room)) ∙ store_at s b.offset b.mem i lt,
        c.holds,
      );
      within = (omega (arith, c.grows, room), c.within);
    }
