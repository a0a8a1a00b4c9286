-- ===== src/DeviceManager/Loading/Refusals.antt =====
-- Which shards source/cuMatch/device_manager.cu can load, and where the loop over the shards of a
-- task stops.
use cu_match.Prelude.{
  ℕ, ◌+◌, ◌<◌, ◌≡◌, ◌⊎◌, inl, inr, refl, sym, ap, ◌∙◌, Bool, true, false, none, some, List, [], ◌∷◌,
  ◌++◌, length, arith, Bool-cases, Option-cases, some_inj, ◌==◌, ==_iff, ltb, ◌≢◌,
}
use cu_match.DeviceManager.{aligned_size, disk_io_sector_size}
use cu_match.Cache.{InvertedPointer, test}
use cu_match.Cache.Counts.{in_locked}
use cu_match.Cache.Controller.{Controller, IsSound, get, get_const, get_cases, get_const-add}
use cu_match.DeviceManager.Loading.{
  Allocator, ShardInfo, ShardDescriptor, Host, Loader, allocate_shard_buffer, cache_shard,
  load_shard, load_shards,
}
use cu_match.DeviceManager.Loading.Owners.{IsOwned}
use cu_match.DeviceManager.Loading.Evictions.{allocate_shard_buffer_total}

-- Each shard has a slot in the cache.
abbrev pub InRange : ℕ → List ShardInfo → Type 0
InRange n [] = Unit
InRange n (s ∷ ss) = (s.unique_id < n) × InRange n ss

module _ (a : Allocator) (in_memory_mode : Bool) where
  open a use {allocate}

  -- No assertion of the cache fails for a host like this: no key is locked.
  pub record IsFree (n : ℕ) (s : Host a) : Type 0 where
    pub owned : IsOwned a s
    pub locked : s.cache.lru.lock_list ≡ []
    pub entities : s.cache.num_entities ≡ n

  -- A shard cannot be loaded: it is not cached, and nothing may be loaded, or there is no buffer for it
  -- even with every cached shard evicted.
  pub record IsRefused (sleaf : ShardInfo) (s : Host a) : Type 0 where
    pub absent : (s.cache.container sleaf.unique_id).valid ≡ false
    pub cause :
        (in_memory_mode ≡ true)
        ⊎ ((s' : Host a) × (allocate_shard_buffer a
                (length s.cache.lru.free_list + 1)
                sleaf.in_memory_size
                s
              ≡ some (none, s'))
            × (s'.cache.lru.free_list ≡ [])
            × (allocate s'.heap sleaf.in_memory_size ≡ none))

  unlocked :
      (n : ℕ) (s : Host a) (k : ℕ) (x : InvertedPointer)
      → IsFree n s
      → s.cache.lru.ptr_map k ≡ some x
      → x.is_locked ≡ false
  unlocked n s k x h e =
      let here : 0 ≡ in_locked (some x) = rw (h.locked, e) at (h.owned.sound.policy.locked k) in
      elim (Bool-cases x.is_locked) [
        | inl taken ↦ let h' = rw taken at here in absurd (omega (arith, h'))
        | inr free ↦ free
      ]

  -- `get` of a cached key
  got :
      (n : ℕ) (s : Host a) (k : ℕ)
      → IsFree n s
      → (s.cache.container k).valid ≡ true
      → (c : Controller ShardDescriptor) × (get s.cache k
          ≡ some (c, some (s.cache.container k).value))
        × IsFree n (record s { cache = c })
  got n s k h valid = elim (Option-cases (s.cache.lru.ptr_map k)) [
    | inl missing ↦
        let same : true ≡ false = sym valid ∙ h.owned.sound.same k ∙ rw (missing, test) refl in
        absurd (cc)
    | inr (x, known) ↦
        let (c, run, sound, _, locked, entities, array, _) =
          (get_cases s.cache k h.owned.sound).0 x known (unlocked n s k x h known) in
        (
          c,
          run,
          record {
            owned = record {
              sound = sound;
              in_use = λ j v. let v' = rw array at v in rw array (h.owned.in_use j v');
              distinct = λ i j vi vj e.
                  let vi' = rw array at vi in
                  let vj' = rw array at vj in
                  let e' = rw array at e in h.owned.distinct i j vi' vj' e';
            };
            locked = locked ∙ h.locked;
            entities = entities ∙ h.entities;
          },
        )
  ]

  -- A new buffer becomes that of a key.
  added-IsOwned :
      (s : Host a) (c : Controller ShardDescriptor) (k q : ℕ)
      → IsOwned a s
      → IsSound c
      → (c.container k).value.addr ≡ q
      → a.live s.heap q ≡ true
      → ((j : ℕ) → (s.cache.container j).valid ≡ true → (s.cache.container j).value.addr ≢ q)
      → ((j : ℕ) → j ≢ k → c.container j ≡ s.cache.container j)
      → IsOwned a (record s { cache = c })
  added-IsOwned s c k q o sound at used apart others = record {
    sound = sound;
    in_use = λ j v. elim (Bool-cases (j == k)) [
      | inl same ↦ rw ((==_iff j k).0 same, at) used
      | inr other ↦
          let e = others j (ground (arith, other)) in let v' = rw e at v in rw e (o.in_use j v')
    ];
    distinct = λ i j vi vj e. elim (Bool-cases (i == k)) [
      | inl same ↦ elim (Bool-cases (j == k)) [
        | inl same' ↦ (==_iff i k).0 same ∙ sym ((==_iff j k).0 same')
        | inr other ↦
            let ej = others j (ground (arith, other)) in
            let v' = rw ej at vj in
            let e' = rw ((==_iff i k).0 same, at, ej) at e in absurd (apart j v' (sym e'))
      ]
      | inr other ↦
          let ei = others i (ground (arith, other)) in
          let v = rw ei at vi in
          elim (Bool-cases (j == k)) [
            | inl same ↦ let e' = rw ((==_iff j k).0 same, at, ei) at e in absurd (apart i v e')
            | inr other' ↦
                let ej = others j (ground (arith, other')) in
                let v' = rw ej at vj in let e' = rw (ei, ej) at e in o.distinct i j v v' e'
          ]
    ];
  }

  get_const-some :
      (c : Controller ShardDescriptor) (k : ℕ) (v : ShardDescriptor)
      → get_const c k ≡ some (some v)
      → ((c.container k).valid ≡ true) × ((c.container k).value ≡ v)
  unfolding get_const
  get_const-some c k v h = elim (Bool-cases (ltb k c.num_entities)) [
    | inr out ↦ let h' = rw out at h in absurd (cc)
    | inl inside ↦ elim (Bool-cases (c.container k).valid) [
      | inr missing ↦ let h' = rw (inside, missing) at h in absurd (cc)
      | inl valid ↦ let h' = rw (inside, valid) at h in (valid, some_inj (some_inj h'))
    ]
  ]

  -- What makes a shard cached
  cache_shard_cases :
      (n : ℕ) (sleaf : ShardInfo) (s : Host a)
      → IsFree n s
      → sleaf.unique_id < n
      → ((s' : Host a) × (cache_shard a in_memory_mode sleaf s ≡ some s')
          × IsFree n s'
          × ((s'.cache.container sleaf.unique_id).valid ≡ true))
        ⊎ ((cache_shard a in_memory_mode sleaf s ≡ none) × IsRefused sleaf s)
  unfolding cache_shard
  cache_shard_cases n sleaf s h lt =
      let k = sleaf.unique_id in
      let inside : ltb k s.cache.num_entities ≡ true = ground (arith, h.entities, lt) in
      elim (Bool-cases (s.cache.container k).valid) [
        | inl valid ↦ inl (s, rw (inside, valid) refl, h, valid)
        | inr absent ↦ elim (Bool-cases in_memory_mode) [
          | inl memory ↦
              inr (rw (inside, absent, memory) refl, record { absent = absent; cause = inl memory })
          | inr disk ↦
              let (p, s1, gone, run, al) =
                allocate_shard_buffer_total a sleaf.in_memory_size
                  (length s.cache.lru.free_list + 1) s h.owned (omega arith) in
              elim (Option-cases p) [
                | inl null ↦
                    let (nil, still) = al.full null in
                    inr (
                      rw (inside, absent, disk, run, null) refl,
                      record { absent = absent; cause = inr (s1, run ∙ rw null refl, nil, still) },
                    )
                | inr (q, at) ↦
                    let val : ShardDescriptor = record { addr = q; size = sleaf.in_memory_size } in
                    let (c, added, sound, here, _, locked, entities, others) =
                      get_const-add s1.cache k val al.owned.sound
                        (omega (arith, al.entities, h.entities, lt)) (al.absent k absent) in
                    let (valid, value) = get_const-some c k val here in
                    let (used, apart) = al.own q at in
                    inl (
                      record s1 { cache = c },
                      rw (inside, absent, disk, run, at, added) refl,
                      record {
                        owned =
                            added-IsOwned s1 c k q al.owned sound (ap (λ v. v.addr) value) used
                              apart (λ j ne. (others j ne).0);
                        locked = locked ∙ al.locked ∙ h.locked;
                        entities = entities ∙ al.entities ∙ h.entities;
                      },
                      valid,
                    )
              ]
        ]
      ]

  load_shard_cases :
      (n : ℕ) (sleaf : ShardInfo) (l : Loader a)
      → IsFree n l.host
      → sleaf.unique_id < n
      → ((l' : Loader a) × (load_shard a in_memory_mode sleaf l ≡ some l') × IsFree n l'.host)
        ⊎ ((load_shard a in_memory_mode sleaf l ≡ none) × IsRefused sleaf l.host)
  unfolding load_shard
  load_shard_cases n sleaf l h lt = elim (cache_shard_cases n sleaf l.host h lt) [
    | inl (s, run, free, valid) ↦
        let (c, run', free') = got n s sleaf.unique_id free valid in
        let des = (s.cache.container sleaf.unique_id).value in
        inl (
          record {
            host = record s { cache = c };
            offset = l.offset + aligned_size sleaf.in_memory_size disk_io_sector_size;
            shard_ptrs = l.shard_ptrs ++ l.offset ∷ [];
            copies = l.copies ++ record { dst = l.offset; src = des.addr; size = des.size } ∷ [];
          },
          rw (run, run') refl,
          free',
        )
    | inr (fails, why) ↦ inr (rw fails refl, why)
  ]

  -- The loading stops at a shard: those before it are loaded, and it cannot be.
  pub record StopsAt (ss : List ShardInfo) (l : Loader a) : Type 0 where
    pub before : List ShardInfo
    pub sleaf : ShardInfo
    pub after : List ShardInfo
    pub order : ss ≡ before ++ sleaf ∷ after
    pub loader : Loader a
    pub reached : load_shards a in_memory_mode before l ≡ some loader
    pub refused : IsRefused sleaf loader.host

  pub load_shards_cases :
      (n : ℕ) (ss : List ShardInfo) (l : Loader a)
      → IsFree n l.host
      → InRange n ss
      → ((l' : Loader a) × (load_shards a in_memory_mode ss l ≡ some l') × IsFree n l'.host)
        ⊎ ((load_shards a in_memory_mode ss l ≡ none) × StopsAt ss l)
  unfolding load_shards
  load_shards_cases n [] l h r = inl (l, refl, h)
  load_shards_cases n (s ∷ ss) l h (lt, r) = elim (load_shard_cases n s l h lt) [
    | inr (fails, why) ↦ inr (
      rw fails refl,
      record {
        before = [];
        sleaf = s;
        after = ss;
        order = refl;
        loader = l;
        reached = refl;
        refused = why;
      },
    )
    | inl (l1, run, h1) ↦ elim (load_shards_cases n ss l1 h1 r) [
      | inl (l2, run', h2) ↦ inl (l2, rw run run', h2)
      | inr (fails, stop) ↦ inr (
        rw run fails,
        record {
          before = s ∷ stop.before;
          sleaf = stop.sleaf;
          after = stop.after;
          order = ap (λ x. s ∷ x) stop.order;
          loader = stop.loader;
          reached = rw run stop.reached;
          refused = stop.refused;
        },
      )
    ]
  ]
