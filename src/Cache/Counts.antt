-- ===== src/Cache/Counts.antt =====
-- The lists and the map of include/gstream/framework3/detail/lru_cache_policy.h agree.
use cu_match.Prelude.{
  ℕ, ◌+◌, ◌-◌, ◌^◌, ◌<◌, ◌≡◌, refl, ap, sym, ◌∙◌, true, false, Option, none, some, List, [], ◌∷◌,
  ◌++◌, length, ltb, ◌==◌, if◌then◌else◌, count, count-append, length-append, arith, Bool-cases,
  inl, inr, update,
}
use cu_match.Cache.{InvertedPointer, Policy, remove_key, add, evict, lock, unlock, move_back}

pub count-remove_key :
    (k j : ℕ) (l : List ℕ) → count j (remove_key k l) ≡ count j l - (if k == j then 1 else 0)
count-remove_key k j [] = ground arith
count-remove_key k j (i ∷ l) = ground (arith, count-remove_key k j l)

length-remove_key : (k : ℕ) (l : List ℕ) → 0 < count k l → length (remove_key k l) + 1 ≡ length l
length-remove_key k [] h = absurd (omega arith)
length-remove_key k (i ∷ l) h = ground (arith, length-remove_key k l)

abbrev pub in_free : Option InvertedPointer → ℕ
in_free none = 0
in_free (some x) = if x.is_locked then 0 else 1

abbrev pub in_locked : Option InvertedPointer → ℕ
in_locked none = 0
in_locked (some x) = if x.is_locked then 1 else 0

-- A key stands once in the list that its entry says and in no other, a locked key has a holder, a
-- free one has none.
pub record IsValid (p : Policy) : Type 0 where
  pub free : (k : ℕ) → count k p.free_list ≡ in_free (p.ptr_map k)
  pub locked : (k : ℕ) → count k p.lock_list ≡ in_locked (p.ptr_map k)
  pub held :
      (k : ℕ) (x : InvertedPointer)
      → p.ptr_map k ≡ some x
      → (x.is_locked ≡ true → 0 < x.ref_count) × (x.is_locked ≡ false → x.ref_count ≡ 0)
  pub keys : p.num_keys ≡ length p.free_list + length p.lock_list

-- `add` works exactly for a key that is not cached; the key is then the last to go.
pub add_lem :
    (p : Policy) (k : ℕ)
    → IsValid p
    → p.ptr_map k ≡ none
    → (p' : Policy) × (add p k ≡ some p')
      × IsValid p'
      × (p'.free_list ≡ p.free_list ++ k ∷ [])
      × (p'.lock_list ≡ p.lock_list)
      × (p'.ptr_map ≡ update p.ptr_map k (some (record { is_locked = false; ref_count = 0 })))
unfolding add
add_lem p k v h = (
  record p {
    free_list = p.free_list ++ k ∷ [];
    ptr_map = update p.ptr_map k (some (record { is_locked = false; ref_count = 0 }));
    num_keys = p.num_keys + 1;
  },
  ground arith,
  record {
    free = λ j. ground (arith, count-append j p.free_list (k ∷ []), v.free j, h);
    locked = λ j. ground (arith, v.locked j, h);
    held = λ j x e. ground (arith, v.held j x, e);
    keys = omega (arith, v.keys, length-append p.free_list (k ∷ []));
  },
  refl,
  refl,
  refl,
)

-- `evict` takes the key that is first in the free list, and no assertion of it fails.
pub evict_lem :
    (p : Policy) (k : ℕ) (rest : List ℕ)
    → IsValid p
    → p.free_list ≡ k ∷ rest
    → (p' : Policy) × (evict p ≡ some (p', k))
      × IsValid p'
      × (p'.free_list ≡ rest)
      × (p'.lock_list ≡ p.lock_list)
      × (p'.ptr_map ≡ update p.ptr_map k none)
unfolding evict
evict_lem p k rest v h =
    let once : count k (k ∷ rest) ≡ in_free (p.ptr_map k) = sym (ap (count k) h) ∙ v.free k in
    let p' : Policy = record p {
      free_list = rest;
      ptr_map = update p.ptr_map k none;
      num_keys = p.num_keys - 1;
    } in
    (
      p',
      rw (h, evict) (ground arith),
      record {
        free = λ j.
            let e : count j (k ∷ rest) ≡ in_free (p.ptr_map j) = sym (ap (count j) h) ∙ v.free j in
            ground arith;
        locked = λ j. ground (arith, v.locked j);
        held = λ j x e. ground (arith, v.held j x, e);
        keys = omega (arith, v.keys, ap length h);
      },
      refl,
      refl,
      refl,
    )

-- `move_back` works for a key that is cached and free; the key is then the last to go.
pub move_back_lem :
    (p : Policy) (k : ℕ) (x : InvertedPointer)
    → IsValid p
    → p.ptr_map k ≡ some x
    → x.is_locked ≡ false
    → (p' : Policy) × (move_back p k ≡ some p')
      × IsValid p'
      × (p'.free_list ≡ remove_key k p.free_list ++ k ∷ [])
      × (p'.lock_list ≡ p.lock_list)
      × (p'.ptr_map ≡ p.ptr_map)
unfolding move_back
move_back_lem p k x v h free =
    let here : count k p.free_list ≡ 1 = v.free k ∙ rw (h, free) refl in
    (
      record p { free_list = remove_key k p.free_list ++ k ∷ [] },
      ground arith,
      record {
        free = λ j. ground (
          arith,
          count-append j (remove_key k p.free_list) (k ∷ []),
          count-remove_key k j p.free_list,
          v.free j,
        );
        locked = v.locked;
        held = v.held;
        keys = omega (
          arith,
          v.keys,
          length-append (remove_key k p.free_list) (k ∷ []),
          length-remove_key k p.free_list (omega arith),
        );
      },
      refl,
      refl,
      refl,
    )

-- `lock` of a cached key below 2 ^ 32 - 1 holders: one holder more, and the key is not free.
pub lock_lem :
    (p : Policy) (k : ℕ) (x : InvertedPointer)
    → IsValid p
    → p.ptr_map k ≡ some x
    → x.ref_count + 1 < 2 ^ 32
    → (p' : Policy) × (lock p k ≡ some (p', x.ref_count + 1))
      × IsValid p'
      × (p'.ptr_map
          ≡ update p.ptr_map k (some (record { is_locked = true; ref_count = x.ref_count + 1 })))
      × (p'.free_list ≡ (if x.is_locked then p.free_list else remove_key k p.free_list))
unfolding lock
lock_lem p k x v h w = elim (Bool-cases x.is_locked) [
  | inl taken ↦ (
    record p { ptr_map = update p.ptr_map k (some (record x { ref_count = x.ref_count + 1 })) },
    ground arith,
    record {
      free = λ j. ground (arith, v.free j, h);
      locked = λ j. ground (arith, v.locked j, h);
      held = λ j y e. ground (arith, v.held j y, e);
      keys = v.keys;
    },
    ground arith,
    ground arith,
  )
  | inr free ↦
      let here : count k p.free_list ≡ 1 = v.free k ∙ rw (h, free) refl in
      let zero_holders = (v.held k x h).1 free in
      (
        record p {
          free_list = remove_key k p.free_list;
          lock_list = k ∷ p.lock_list;
          ptr_map = update p.ptr_map k (some (record { is_locked = true; ref_count = 1 }));
        },
        ground arith,
        record {
          free = λ j. ground (arith, v.free j, h, count-remove_key k j p.free_list);
          locked = λ j. ground (arith, v.locked j, h);
          held = λ j y e. ground (arith, v.held j y, e);
          keys = omega (arith, v.keys, length-remove_key k p.free_list (omega arith));
        },
        ground arith,
        ground arith,
      )
]

-- `unlock` of a locked key: one holder less, and with the last one gone the key is free again,
-- behind all others.
pub unlock_lem :
    (p : Policy) (k : ℕ) (x : InvertedPointer)
    → IsValid p
    → p.ptr_map k ≡ some x
    → x.is_locked ≡ true
    → (p' : Policy) × (unlock p k ≡ some (p', x.ref_count - 1))
      × IsValid p'
      × (p'.ptr_map
          ≡ update p.ptr_map k
              (some (record { is_locked = ltb 1 x.ref_count; ref_count = x.ref_count - 1 })))
      × (p'.free_list ≡ (if ltb 1 x.ref_count then p.free_list else p.free_list ++ k ∷ []))
unfolding unlock
unlock_lem p k x v h taken =
    let holders = (v.held k x h).0 taken in
    elim (Bool-cases (x.ref_count - 1 == 0)) [
      | inr more ↦ (
        record p { ptr_map = update p.ptr_map k (some (record x { ref_count = x.ref_count - 1 })) },
        ground arith,
        record {
          free = λ j. ground (arith, v.free j, h);
          locked = λ j. ground (arith, v.locked j, h);
          held = λ j y e. ground (arith, v.held j y, e);
          keys = v.keys;
        },
        ground arith,
        ground arith,
      )
      | inl last ↦
          let here : count k p.lock_list ≡ 1 = v.locked k ∙ rw (h, taken) refl in
          (
            record p {
              free_list = p.free_list ++ k ∷ [];
              lock_list = remove_key k p.lock_list;
              ptr_map =
                  update p.ptr_map k
                    (some (record { is_locked = false; ref_count = x.ref_count - 1 }));
            },
            ground arith,
            record {
              free = λ j. ground (arith, v.free j, h, count-append j p.free_list (k ∷ []));
              locked = λ j. ground (arith, v.locked j, h, count-remove_key k j p.lock_list);
              held = λ j y e. ground (arith, v.held j y, e);
              keys = omega (
                arith,
                v.keys,
                length-append p.free_list (k ∷ []),
                length-remove_key k p.lock_list (omega arith),
              );
            },
            ground arith,
            ground arith,
          )
    ]
