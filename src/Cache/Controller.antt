-- ===== src/Cache/Controller.antt =====
-- include/cu_match/cache_controller.h: an array of values, one for each key, over the cache policy.
use cu_match.Prelude.{
  ℕ, ◌<◌, ◌≡◌, ◌≢◌, refl, ap, ◌∙◌, Bool, true, false, not, Option, none, some, List, [], ◌∷◌, ◌++◌,
  length, ltb, ◌==◌, if◌then◌else◌, update, arith, ◌>>=◌, ◌>>◌, check,
}
use cu_match.Cache.{InvertedPointer, Policy, empty_policy, test, remove_key, remove_node, move_back}
use cu_match.Cache as Policies
use cu_match.Cache.Counts.{IsValid, add_lem, evict_lem, move_back_lem}

pub record Entity {ℓ} (V : Type ℓ) : Type ℓ where
  pub value : V
  pub valid : Bool

pub record Controller {ℓ} (V : Type ℓ) : Type ℓ where
  pub num_entities : ℕ
  pub container : ℕ → Entity V
  pub lru : Policy

module _ {ℓ} {V : Type ℓ} where
  -- `init`, with what `calloc` leaves; `none` for the result `false`
  unfoldable pub init : V → ℕ → Option (Controller V)
  init blank n =
      if n == 0
      then none
      else some (record {
        num_entities = n;
        container = λ k. record { value = blank; valid = false };
        lru = empty_policy;
      })

  -- `get() const`; the inner `none` is the null pointer
  unfoldable pub get_const : Controller V → ℕ → Option (Option V)
  get_const c key =
      check (ltb key c.num_entities)
      >> some (if (c.container key).valid then some (c.container key).value else none)

  -- `get()`, which moves the key first
  unfoldable pub get : Controller V → ℕ → Option (Controller V × Option V)
  get c key = do
    lru ← move_back c.lru key
    value ← get_const c key
    some (record c { lru = lru }, value)

  unfoldable pub add : Controller V → ℕ → V → Option (Controller V)
  add c key val = do
    check (ltb key c.num_entities)
    check (not (c.container key).valid)
    lru ← Policies.add c.lru key
    some (record c {
      container = update c.container key (record { value = val; valid = true });
      lru = lru;
    })

  -- `evict`; the inner `none` for `success == false`
  unfoldable pub evict : Controller V → Option (Controller V × Option (ℕ × V))
  evict c = elim (length c.lru.free_list == 0) [
    | true ↦ some (c, none)
    | false ↦ do
      (lru, key) ← Policies.evict c.lru
      let entity = c.container key
      some (
        record c {
          container = update c.container key (record entity { valid = false });
          lru = lru;
        },
        some (key, entity.value),
      )
  ]

  -- `operator[]`, both of them: without assertions, so an index behind the array is the fault
  abbrev pub get_at : Controller V → ℕ → Option (Option V)
  get_at c key = get_const c key

  -- `test`
  abbrev pub is_cached : Controller V → ℕ → Option Bool
  is_cached c key = check (ltb key c.num_entities) >> some (c.container key).valid

  -- `lock` and `unlock`, with the number of holders
  unfoldable pub lock_key : Controller V → ℕ → Option (Controller V × ℕ)
  lock_key c key = do
    valid ← is_cached c key
    check valid
    (lru, n) ← Policies.lock c.lru key
    some (record c { lru = lru }, n)

  unfoldable pub unlock_key : Controller V → ℕ → Option (Controller V × ℕ)
  unlock_key c key = do
    valid ← is_cached c key
    check valid
    (lru, n) ← Policies.unlock c.lru key
    some (record c { lru = lru }, n)

  -- The array and the policy know the same keys.
  pub record IsSound (c : Controller V) : Type ℓ where
    pub policy : IsValid c.lru
    pub same : (k : ℕ) → (c.container k).valid ≡ test c.lru k
    pub bound : (k : ℕ) → (c.container k).valid ≡ true → k < c.num_entities

  unknown_key :
      (c : Controller V) (k : ℕ)
      → IsSound c
      → (c.container k).valid ≡ false
      → c.lru.ptr_map k ≡ none
  unknown_key c k s absent = ground (arith, s.same k)

  known_key :
      (c : Controller V) (k : ℕ) (x : InvertedPointer)
      → IsSound c
      → c.lru.ptr_map k ≡ some x
      → ((c.container k).valid ≡ true) × (k < c.num_entities)
  known_key c k x s h =
      let e : (c.container k).valid ≡ true = s.same k ∙ rw (h, test) refl in (e, s.bound k e)

  -- A value that is added under a free key of the array is found there. The key is the last in the
  -- free list, behind all others, and the locked keys are as before; so are the number of entities,
  -- the slots of all other keys and what the policy knows of them.
  pub get_const-add :
      (c : Controller V) (k : ℕ) (val : V)
      → IsSound c
      → k < c.num_entities
      → (c.container k).valid ≡ false
      → (c' : Controller V) × (add c k val ≡ some c')
        × IsSound c'
        × (get_const c' k ≡ some (some val))
        × (c'.lru.free_list ≡ c.lru.free_list ++ k ∷ [])
        × (c'.lru.lock_list ≡ c.lru.lock_list)
        × (c'.num_entities ≡ c.num_entities)
        × ((j : ℕ)
            → j ≢ k
            → (c'.container j ≡ c.container j)
              × (c'.lru.ptr_map j ≡ c.lru.ptr_map j)
              × (get_const c' j ≡ get_const c j))
  unfolding add get_const
  get_const-add c k val s lt absent =
      let unknown = unknown_key c k s absent in
      let (lru, run, v, behind, locked, map) = add_lem c.lru k s.policy unknown in
      (
        record c {
          container = update c.container k (record { value = val; valid = true });
          lru = lru;
        },
        ground (arith, run),
        record {
          policy = v;
          same = λ j. let at = ap (λ f. f j) map in ground (arith, s.same j);
          bound = λ j h. ground (arith, s.bound j);
        },
        ground arith,
        behind,
        locked,
        refl,
        λ j ne. let at = ap (λ f. f j) map in (ground arith, ground arith, ground arith),
      )

  -- `evict` fails exactly if no key is free; else it gives up the first free key with the value that
  -- the array holds for it, and no other key changes.
  pub evict_cases :
      (c : Controller V)
      → IsSound c
      → (c.lru.free_list ≡ [] → evict c ≡ some (c, none))
        × ((k : ℕ) (rest : List ℕ)
            → c.lru.free_list ≡ k ∷ rest
            → (c' : Controller V) × (evict c ≡ some (c', some (k, (c.container k).value)))
              × IsSound c'
              × (c'.lru.free_list ≡ rest)
              × ((c'.container k).valid ≡ false)
              × ((j : ℕ) → j ≢ k → c'.container j ≡ c.container j))
  unfolding evict
  evict_cases c s = (
    λ h. rw h refl,
    λ k rest h.
        let (lru, run, v, left, _, map) = evict_lem c.lru k rest s.policy h in
        (
          record c {
            container = update c.container k (record (c.container k) { valid = false });
            lru = lru;
          },
          ground (arith, run, ap length h),
          record {
            policy = v;
            same = λ j. let at = ap (λ f. f j) map in ground (arith, s.same j);
            bound = λ j h. ground (arith, s.bound j);
          },
          left,
          ground arith,
          λ j ne. ground arith,
        ),
  )

  -- `get` of a cached key that nobody holds gives its value and makes it the last to go: the locked
  -- keys, the array and what the policy knows are as before. For a key of the array that is not
  -- cached it follows a null pointer, where the constant `get` gives a null pointer.
  pub get_cases :
      (c : Controller V) (k : ℕ)
      → IsSound c
      → ((x : InvertedPointer)
          → c.lru.ptr_map k ≡ some x
          → x.is_locked ≡ false
          → (c' : Controller V) × (get c k ≡ some (c', some (c.container k).value))
            × IsSound c'
            × (c'.lru.free_list ≡ remove_key k c.lru.free_list ++ k ∷ [])
            × (c'.lru.lock_list ≡ c.lru.lock_list)
            × (c'.num_entities ≡ c.num_entities)
            × (c'.container ≡ c.container)
            × (c'.lru.ptr_map ≡ c.lru.ptr_map))
        × (c.lru.ptr_map k ≡ none
            → k < c.num_entities
            → (get c k ≡ none) × (get_const c k ≡ some none))
  unfolding get get_const move_back
  get_cases c k s = (
    λ x h free.
        let (lru, run, v, last, locked, map) = move_back_lem c.lru k x s.policy h free in
        let (valid, lt) = known_key c k x s h in
        (
          record c { lru = lru },
          rw (run, get) (ground arith),
          record {
            policy = v;
            same = λ j. let at = ap (λ f. f j) map in ground (arith, s.same j);
            bound = s.bound;
          },
          last,
          locked,
          refl,
          refl,
          map,
        ),
    λ h lt. (ground arith, ground (arith, s.same k)),
  )
