-- ===== src/Tests/Caches.antt =====
-- A cache with two free keys and a locked one, as in include/cu_match/cache_controller.h.
use cu_match.Prelude.{
  ◌||◌, ℕ, ◌<◌, ◌++◌, ◌≡◌, ◌≢◌, refl, true, false, none, some, List, [], ◌∷◌, ◌==◌, if◌then◌else◌,
  arith,
}
use cu_match.Cache.{InvertedPointer, Policy, remove_key}
use cu_match.Cache.Counts.{IsValid}
use cu_match.Cache.Controller.{
  Controller, get, get_const, add, evict, IsSound, get_cases, get_const-add, evict_cases,
}

abbrev free_key : InvertedPointer
free_key = record { is_locked = false; ref_count = 0 }

abbrev held_key : InvertedPointer
held_key = record { is_locked = true; ref_count = 2 }

abbrev three_keys : Policy
three_keys = record {
  free_list = 1 ∷ 2 ∷ [];
  lock_list = 3 ∷ [];
  ptr_map = λ k.
      if k == 1
      then some free_key
      else if k == 2
      then some free_key
      else if k == 3
      then some held_key
      else none;
  num_keys = 3;
}

three_keys-IsValid : IsValid three_keys
three_keys-IsValid = record {
  free = λ k. ground arith;
  locked = λ k. ground arith;
  held = λ k x e. ground (arith, e);
  keys = refl;
}

abbrev squares : Controller ℕ
squares = record {
  num_entities = 10;
  container = λ k. record { value = k; valid = k == 1 || k == 2 || k == 3 };
  lru = three_keys;
}

squares-IsSound : IsSound squares
squares-IsSound = record {
  policy = three_keys-IsValid;
  same = λ k. ground arith;
  bound = λ k h. ground arith;
}

get_const-add_example :
    (c' : Controller ℕ) × (add squares 4 16 ≡ some c')
    × IsSound c'
    × (get_const c' 4 ≡ some (some 16))
    × (c'.lru.free_list ≡ 1 ∷ 2 ∷ 4 ∷ [])
    × (c'.lru.lock_list ≡ 3 ∷ [])
    × (c'.num_entities ≡ squares.num_entities)
    × ((j : ℕ)
        → j ≢ 4
        → (c'.container j ≡ squares.container j)
          × (c'.lru.ptr_map j ≡ three_keys.ptr_map j)
          × (get_const c' j ≡ get_const squares j))
get_const-add_example = get_const-add squares 4 16 squares-IsSound (omega arith) refl

evict_cases_example :
    (three_keys.free_list ≡ [] → evict squares ≡ some (squares, none))
    × ((k : ℕ) (rest : List ℕ)
        → three_keys.free_list ≡ k ∷ rest
        → (c' : Controller ℕ) × (evict squares ≡ some (c', some (k, k)))
          × IsSound c'
          × (c'.lru.free_list ≡ rest)
          × ((c'.container k).valid ≡ false)
          × ((j : ℕ) → j ≢ k → c'.container j ≡ squares.container j))
evict_cases_example = evict_cases squares squares-IsSound

get_cases_example :
    ((x : InvertedPointer)
      → three_keys.ptr_map 1 ≡ some x
      → x.is_locked ≡ false
      → (c' : Controller ℕ) × (get squares 1 ≡ some (c', some (squares.container 1).value))
        × IsSound c'
        × (c'.lru.free_list ≡ remove_key 1 three_keys.free_list ++ 1 ∷ [])
        × (c'.lru.lock_list ≡ 3 ∷ [])
        × (c'.num_entities ≡ squares.num_entities)
        × (c'.container ≡ squares.container)
        × (c'.lru.ptr_map ≡ three_keys.ptr_map))
    × (three_keys.ptr_map 1 ≡ none
        → 1 < squares.num_entities
        → (get squares 1 ≡ none) × (get_const squares 1 ≡ some none))
get_cases_example = get_cases squares 1 squares-IsSound
