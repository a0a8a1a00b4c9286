-- ===== src/DeviceManager/Loading/Evictions.antt =====
-- A buffer for a shard, as source/cuMatch/device_manager.cu gets it: by evicting cached shards.
use cu_match.Prelude.{
  ℕ, zero, suc, ◌<◌, ◌≡◌, ◌≢◌, refl, sym, ap, ◌∙◌, true, false, Option, none, some, List, [], ◌∷◌,
  ◌++◌, length, arith, ◌==◌, Bool-cases, List-cases, count, Option-cases, inl, inr, some_inj,
  ==_iff,
}
use cu_match.DeviceManager.Loading.{Allocator, Host, allocate_shard_buffer}
use cu_match.DeviceManager.Loading.Owners.{IsOwned, evict_cached_shard_once_lem}

module _ (a : Allocator) (size : ℕ) where
  open a use {Heap, allocate, deallocate, live, fresh, freed}

  -- The host after the loop, and the address that it gives: the shards in `gone` were evicted.
  pub record Allocated (s s' : Host a) (p : Option ℕ) (gone : List ℕ) : Type 0 where
    pub owned : IsOwned a s'
    pub entities : s'.cache.num_entities ≡ s.cache.num_entities
    pub locked : s'.cache.lru.lock_list ≡ s.cache.lru.lock_list
    pub order : s.cache.lru.free_list ≡ gone ++ s'.cache.lru.free_list
    pub kept : (j : ℕ) → count j gone ≡ 0 → s'.cache.container j ≡ s.cache.container j
    pub absent :
        (j : ℕ) → (s.cache.container j).valid ≡ false → (s'.cache.container j).valid ≡ false
    pub own :
        (q : ℕ)
        → p ≡ some q
        → (live s'.heap q ≡ true)
          × ((j : ℕ) → (s'.cache.container j).valid ≡ true → (s'.cache.container j).value.addr ≢ q)
    pub full : p ≡ none → (s'.cache.lru.free_list ≡ []) × (allocate s'.heap size ≡ none)

  allocated :
      (s : Host a) (q : ℕ) (h : Heap)
      → IsOwned a s
      → allocate s.heap size ≡ some (q, h)
      → Allocated s (record s { heap = h }) (some q) []
  allocated s q h o run =
      let (dead, now) = fresh s.heap h size q run in
      record {
        owned = record {
          sound = o.sound;
          in_use = λ k v. now _ ∙ ground (arith, o.in_use k v);
          distinct = o.distinct;
        };
        entities = refl;
        locked = refl;
        order = refl;
        kept = λ j c. refl;
        absent = λ j v. v;
        own = λ q' e. (
          now q' ∙ ground (arith, some_inj e),
          λ j v e'. let busy = o.in_use j v in ground (arith, some_inj e, ap (live s.heap) e'),
        );
        full = λ e. cc;
      }

  -- With more fuel than free keys the loop ends: evicting the cached shards in the order of the
  -- cache, it gets a buffer that no cached shard has, or it gives a null pointer when every free
  -- shard is evicted and the allocator still fails. The buffers of the cached shards stay in use
  -- and apart, and a shard that is not evicted stays cached; no locked key is touched.
  pub allocate_shard_buffer_total :
      (fuel : ℕ) (s : Host a)
      → IsOwned a s
      → length s.cache.lru.free_list < fuel
      → (p : Option ℕ) × (s' : Host a) × (gone : List ℕ) × (allocate_shard_buffer a fuel size s
          ≡ some (p, s'))
        × Allocated s s' p gone
  unfolding allocate_shard_buffer
  allocate_shard_buffer_total zero s o lt = absurd (omega arith)
  allocate_shard_buffer_total (suc fuel) s o lt =
      let (empty, first) = evict_cached_shard_once_lem a s o in
      elim (Option-cases (allocate s.heap size)) [
        | inr ((q, h), run) ↦ (
          some q,
          record s { heap = h },
          [],
          rw (run, allocate_shard_buffer) refl,
          allocated s q h o run,
        )
        | inl fails ↦ elim (List-cases s.cache.lru.free_list) [
          | inl nil ↦ (
            none,
            s,
            [],
            rw (fails, allocate_shard_buffer) (rw (empty nil) refl),
            record {
              owned = o;
              entities = refl;
              locked = refl;
              order = refl;
              kept = λ j c. refl;
              absent = λ j v. v;
              own = λ q e. cc;
              full = λ e. (nil, fails);
            },
          )
          | inr (k, rest, more) ↦
              let (s1, run, o1, left, same, held, out, others) = first k rest more in
              let (p, s', gone, run', al) =
                allocate_shard_buffer_total fuel s1 o1
                  (omega (arith, ap length left, ap length more)) in
              (
                p,
                s',
                k ∷ gone,
                rw (fails, allocate_shard_buffer) (rw run run'),
                record {
                  owned = al.owned;
                  entities = al.entities ∙ same;
                  locked = al.locked ∙ held;
                  order = more ∙ ap (λ l. k ∷ l) (sym left ∙ al.order);
                  kept = λ j c. al.kept j (ground arith) ∙ others j (ground arith);
                  absent = λ j v. al.absent j (elim (Bool-cases (j == k)) [
                    | inl e ↦ rw ((==_iff j k).0 e) out
                    | inr ne ↦ rw (others j (ground arith)) v
                  ]);
                  own = al.own;
                  full = al.full;
                },
              )
        ]
      ]
