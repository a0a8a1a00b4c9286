-- ===== src/DeviceManager/Loading/Owners.antt =====
-- The host buffers of the cached shards, as source/cuMatch/device_manager.cu handles them.
use cu_match.Prelude.{
  ℕ, suc, ◌≡◌, ◌≢◌, refl, sym, ap, ◌∙◌, true, false, Option, some, List, [], ◌∷◌, length, arith,
  ◌==◌, Bool-cases, List-cases, not, check, count, inl, inr, >>=-elim, some-pair,
}
use mathlib.Core.Path.{subst}
use cu_match.Cache.Controller.{Controller, IsSound, evict, evict_cases}
use cu_match.Cache as Policies
use cu_match.DeviceManager.Loading.{Allocator, ShardDescriptor, Host, evict_cached_shard_once}

evict-keeps :
    (p p' : Policies.Policy) (k : ℕ) → Policies.evict p ≡ some (p', k) → p'.lock_list ≡ p.lock_list
unfolding Policies.evict
evict-keeps p p' k h = elim (List-cases p.free_list) [
  | inl nil ↦ let h' = rw nil at h in absurd (cc)
  | inr (i, rest, more) ↦ >>=-elim (Policies.is_locked p i) _ (rw more at h) λ b locked h1.
      >>=-elim (check (not b)) _ h1
        λ u free same. sym (ap (λ (x : Policies.Policy). x.lock_list) (some-pair same).0)
]

evict-num_entities :
    (c c' : Controller ShardDescriptor) (r : Option (ℕ × ShardDescriptor))
    → evict c ≡ some (c', r)
    → c'.num_entities ≡ c.num_entities
unfolding evict
evict-num_entities c c' r h = elim (Bool-cases (length c.lru.free_list == 0)) [
  | inl empty ↦ ap (λ x. x.num_entities) (sym (some-pair (rw (empty, evict) at h)).0)
  | inr more ↦
      >>=-elim (Policies.evict c.lru) _ (rw (more, evict) at h)
        λ x run same. sym (ap (λ x. x.num_entities) (some-pair same).0)
]

evict-lock_list :
    (c c' : Controller ShardDescriptor) (r : Option (ℕ × ShardDescriptor))
    → evict c ≡ some (c', r)
    → c'.lru.lock_list ≡ c.lru.lock_list
unfolding evict
evict-lock_list c c' r h = elim (Bool-cases (length c.lru.free_list == 0)) [
  | inl empty ↦ ap (λ x. x.lru.lock_list) (sym (some-pair (rw (empty, evict) at h)).0)
  | inr more ↦ >>=-elim (Policies.evict c.lru) _ (rw (more, evict) at h) λ x run same.
      sym (ap (λ x. x.lru.lock_list) (some-pair same).0) ∙ evict-keeps c.lru x.0 x.1 run
]

first-valid :
    (c : Controller ShardDescriptor) (k : ℕ) (rest : List ℕ)
    → IsSound c
    → c.lru.free_list ≡ k ∷ rest
    → (c.container k).valid ≡ true
first-valid c k rest s h =
    let once = s.policy.free k in
    let one : count k c.lru.free_list ≡ suc (count k rest) = rw h (ground arith) in
    ground (arith, s.same k, once, one)

other_valid :
    (c c' : Controller ShardDescriptor) (k : ℕ)
    → (c'.container k).valid ≡ false
    → ((j : ℕ) → j ≢ k → c'.container j ≡ c.container j)
    → (j : ℕ) → (c'.container j).valid ≡ true
    → (j ≢ k) × (c'.container j ≡ c.container j)
other_valid c c' k gone others j v =
    let ne : j ≢ k = λ e. let v' = subst (λ i. (c'.container i).valid ≡ true) e v in cc in
    (ne, others j ne)

module _ (a : Allocator) where
  open a use {Heap, allocate, deallocate, live, fresh, freed}

  -- Every cached shard has a host buffer that is in use, and no two share one.
  pub record IsOwned (s : Host a) : Type 0 where
    pub sound : IsSound s.cache
    pub in_use :
        (k : ℕ)
        → (s.cache.container k).valid ≡ true
        → live s.heap (s.cache.container k).value.addr ≡ true
    pub distinct :
        (j k : ℕ)
        → (s.cache.container j).valid ≡ true
        → (s.cache.container k).valid ≡ true
        → (s.cache.container j).value.addr ≡ (s.cache.container k).value.addr
        → j ≡ k

  -- What one eviction does: nothing if no key is free, else the first free key goes.
  pub evict_cached_shard_once_lem :
      (s : Host a)
      → IsOwned s
      → (s.cache.lru.free_list ≡ [] → evict_cached_shard_once a s ≡ some (false, s))
        × ((k : ℕ) (rest : List ℕ)
            → s.cache.lru.free_list ≡ k ∷ rest
            → (s' : Host a) × (evict_cached_shard_once a s ≡ some (true, s'))
              × IsOwned s'
              × (s'.cache.lru.free_list ≡ rest)
              × (s'.cache.num_entities ≡ s.cache.num_entities)
              × (s'.cache.lru.lock_list ≡ s.cache.lru.lock_list)
              × ((s'.cache.container k).valid ≡ false)
              × ((j : ℕ) → j ≢ k → s'.cache.container j ≡ s.cache.container j))
  unfolding evict_cached_shard_once
  evict_cached_shard_once_lem s o =
      let (empty, first) = evict_cases s.cache o.sound in
      (
        λ h. rw (empty h) refl,
        λ k rest h.
            let (c, run, sound, left, gone, others) = first k rest h in
            let known : (s.cache.container k).valid ≡ true = first-valid s.cache k rest o.sound h in
            let kept = other_valid s.cache c k gone others in
            (
              record s { cache = c; heap = deallocate s.heap (s.cache.container k).value.addr },
              rw run refl,
              record {
                sound = sound;
                in_use = λ j v.
                    let (ne, same) = kept j v in
                    let v' = rw same at v in
                    let apart : (s.cache.container j).value.addr
                        ≢ (s.cache.container k).value.addr =
                      λ e. ne (o.distinct j k v' known e) in
                    rw same (
                      freed s.heap (s.cache.container k).value.addr (s.cache.container j).value.addr
                      ∙ ground (arith, o.in_use j v'));
                distinct = λ i j vi vj e.
                    let (ni, si) = kept i vi in
                    let (nj, sj) = kept j vj in
                    o.distinct i j (rw si at vi) (rw sj at vj) (rw (si, sj) at e);
              },
              left,
              evict-num_entities s.cache c _ run,
              evict-lock_list s.cache c _ run,
              gone,
              others,
            ),
      )
