-- ===== src/Cache/Order.antt =====
-- The order in which include/gstream/framework3/detail/lru_cache_policy.h gives its keys up.
use cu_match.Prelude.{
  ℕ, zero, suc, ◌+◌, ◌≡◌, refl, ap, sym, ◌∙◌, true, false, Option, some, List, [], ◌∷◌, ◌++◌,
  length, ltb, arith, ◌>>=◌,
}
use cu_match.Cache.{InvertedPointer, Policy, remove_key, evict, lock, unlock, move_back}
use cu_match.Cache.Counts.{IsValid, evict_lem, lock_lem, unlock_lem, move_back_lem}

-- So many calls of `evict`: the keys, and what is left.
unfoldable pub evict_times : ℕ → Policy → Option (Policy × List ℕ)
evict_times zero p = some (p, [])
evict_times (suc n) p = do (p', k) ← evict p; (p'', ks) ← evict_times n p'; some (p'', k ∷ ks)

evict_times_lem :
    (l : List ℕ) (p : Policy)
    → IsValid p
    → p.free_list ≡ l
    → (p' : Policy) × (evict_times (length l) p ≡ some (p', l))
      × IsValid p'
      × (p'.free_list ≡ [])
      × (p'.lock_list ≡ p.lock_list)
unfolding evict_times
evict_times_lem [] p v h = (p, refl, v, h, refl)
evict_times_lem (k ∷ l) p v h =
    let (p', run, v', rest, same, _) = evict_lem p k l v h in
    let (p'', run', v'', none_left, same') = evict_times_lem l p' v' rest in
    (p'', rw (run, run') refl, v'', none_left, same' ∙ same)

-- As many calls of `evict` as there are free keys give them all, in the order of the free list, and
-- no locked key: these stay cached.
evict_times-all :
    (p : Policy)
    → IsValid p
    → (p' : Policy) × (evict_times (length p.free_list) p ≡ some (p', p.free_list))
      × IsValid p'
      × (p'.free_list ≡ [])
      × (p'.lock_list ≡ p.lock_list)
evict_times-all p v = evict_times_lem p.free_list p v refl

-- A free key that is locked and unlocked again has no holder, and its place in the order is the one
-- that `move_back` gives it: behind all others.
unlock-lock :
    (p : Policy) (k : ℕ) (x : InvertedPointer)
    → IsValid p
    → p.ptr_map k ≡ some x
    → x.is_locked ≡ false
    → (q : Policy) × (p' : Policy) × (moved : Policy) × (lock p k ≡ some (q, 1))
      × (unlock q k ≡ some (p', 0))
      × (move_back p k ≡ some moved)
      × IsValid p'
      × (p'.free_list ≡ moved.free_list)
      × (p'.ptr_map k ≡ some x)
unlock-lock p k x v h free =
    let no_holder = (v.held k x h).1 free in
    let (q, run, v1, map1, free1) = lock_lem p k x v h (omega arith) in
    let y : InvertedPointer = record { is_locked = true; ref_count = x.ref_count + 1 } in
    let here : q.ptr_map k ≡ some y = rw map1 (ground arith) in
    let (p', run', v2, map2, free2) = unlock_lem q k y v1 here refl in
    let (moved, run'', _, free3, _, _) = move_back_lem p k x v h free in
    let last : ltb 1 y.ref_count ≡ false = ground arith in
    let behind : p'.free_list ≡ q.free_list ++ k ∷ [] = free2 ∙ rw last refl in
    let without : q.free_list ≡ remove_key k p.free_list = free1 ∙ rw free refl in
    (
      q,
      p',
      moved,
      run ∙ rw no_holder refl,
      run' ∙ rw no_holder refl,
      run'',
      v2,
      behind ∙ ap (λ l. l ++ k ∷ []) without ∙ sym free3,
      ap (λ f. f k) map2 ∙ ground arith,
    )
