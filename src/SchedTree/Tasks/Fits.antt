-- ===== src/SchedTree/Tasks/Fits.antt =====
-- The sizes in `pop_single_kernel_task` of source/cuMatch/sched_plan_tree.cpp.
use cu_match.Prelude.{
  ℕ, ◌+◌, ◌%◌, ◌^◌, ◌≤◌, ◌<◌, ◌≡◌, refl, ap, sym, ◌∙◌, Bool, true, false, Option, none, some, List,
  [], ◌∷◌, ◌++◌, map, length, count, count-append, leb, ◌==◌, ==_iff, if◌then◌else◌, ◌>>=◌, arith,
  Bool-cases, inl, inr, >>=-elim, some_inj, some-pair,
}
use mathlib.Core.List.{map-append, append-nil}
use mathlib.Core.Path.{subst}
use cu_match.SchedTree.{Sleaf}
use cu_match.SchedTree.Groups.{SubtaskInfo, GridGroupInfo}
use cu_match.SchedTree.Tasks.{
  TaskConfig, Filler, is_cached, group_sleaves, required_size, push_sleaves, push_subtask, is_full,
  check_full, add_group, take_group, to_vlevel,
}

abbrev pub sizes : List Sleaf → ℕ
sizes [] = 0
sizes (sleaf ∷ ls) = sleaf.in_memory_size + sizes ls

sizes-append : (xs ys : List Sleaf) → sizes (xs ++ ys) ≡ sizes xs + sizes ys
sizes-append [] ys = omega arith
sizes-append (x ∷ xs) ys = omega (arith, sizes-append xs ys)

-- The sizes of the shards that are not cached, each as often as it occurs
abbrev new_sizes : List ℕ → List Sleaf → ℕ
new_sizes cache [] = 0
new_sizes cache (sleaf ∷ ls) =
    (if is_cached sleaf.unique_id cache then 0 else sleaf.in_memory_size) + new_sizes cache ls

required_size-new :
    (cache : List ℕ) (ls : List Sleaf) (n : ℕ)
    → n + sizes ls < 2 ^ 32
    → required_size cache ls n ≡ n + new_sizes cache ls
required_size-new cache [] n h = omega arith
required_size-new cache (sleaf ∷ ls) n h = elim (Bool-cases (is_cached sleaf.unique_id cache)) [
  | inl old ↦ rw old (required_size-new cache ls n (omega (arith, h)) ∙ omega arith)
  | inr new ↦
      let exact : (n + sleaf.in_memory_size) % 2 ^ 32 ≡ n + sleaf.in_memory_size =
        omega (arith, h) in
      rw (new, exact)
        (required_size-new cache ls (n + sleaf.in_memory_size) (omega (arith, h)) ∙ omega arith)
]

new_sizes-le : (cache : List ℕ) (ls : List Sleaf) → new_sizes cache ls ≤ sizes ls
new_sizes-le cache [] = omega arith
new_sizes-le cache (sleaf ∷ ls) = ground (arith, new_sizes-le cache ls)

is_cached-append :
    (u id : ℕ) (ids : List ℕ)
    → is_cached u (ids ++ id ∷ []) ≡ (if is_cached u ids then true else (id == u))
is_cached-append u id [] = ground arith
is_cached-append u id (i ∷ ids) = ground (arith, is_cached-append u id ids)

count-uncached : (u : ℕ) (ids : List ℕ) → is_cached u ids ≡ false → count u ids ≡ 0
count-uncached u [] h = refl
count-uncached u (i ∷ ids) h = ground (arith, count-uncached u ids)

-- Each shard of the task is cached, once, and together they are no larger than `used`.
pub record Fits (capacity : ℕ) (f : Filler) : Type 0 where
  pub room : sizes f.total_sleaf_ptrs ≤ f.used
  pub ids : f.cache ≡ map (λ (s : Sleaf). s.unique_id) f.total_sleaf_ptrs
  pub once : (u : ℕ) → count u f.cache ≤ 1
  pub small : f.used < capacity

push_once :
    (u id : ℕ) (ids : List ℕ)
    → is_cached id ids ≡ false
    → count u ids ≤ 1
    → count u (ids ++ id ∷ []) ≤ 1
push_once u id ids new le = elim (Bool-cases (id == u)) [
  | inl same ↦
      let e = (==_iff id u).0 same in
      let zero_times : count u ids ≡ 0 =
        count-uncached u ids (ap (λ x. is_cached x ids) (sym e) ∙ new) in
      ground (arith, zero_times, count-append u ids (id ∷ []))
  | inr other ↦ ground (arith, le, count-append u ids (id ∷ []))
]

-- The shards that are pushed, where all of `cache` is cached before
record Pushed (cache : List ℕ) (ls : List Sleaf) (f f' : Filler) : Type 0 where
  ids : f'.cache ≡ map (λ (s : Sleaf). s.unique_id) f'.total_sleaf_ptrs
  once : (u : ℕ) → count u f'.cache ≤ 1
  grown : sizes f'.total_sleaf_ptrs ≤ sizes f.total_sleaf_ptrs + new_sizes cache ls
  used : f'.used ≡ f.used
  subtasks : f'.subtasks ≡ f.subtasks

abbrev Within : List ℕ → Filler → Type 0
Within cache f = (u : ℕ) → is_cached u cache ≡ true → is_cached u f.cache ≡ true

push_sleaves-Pushed :
    (cache : List ℕ) (ls : List Sleaf) (f : Filler)
    → Within cache f
    → f.cache ≡ map (λ (s : Sleaf). s.unique_id) f.total_sleaf_ptrs
    → ((u : ℕ) → count u f.cache ≤ 1)
    → Pushed cache ls f (push_sleaves ls f)
push_sleaves-Pushed cache [] f within ids once = record {
  ids = ids;
  once = once;
  grown = omega arith;
  used = refl;
  subtasks = refl;
}
push_sleaves-Pushed cache (sleaf ∷ ls) f within ids once =
    elim (Bool-cases (is_cached sleaf.unique_id f.cache)) [
      | inl old ↦
          let h = push_sleaves-Pushed cache ls f within ids once in
          rw old (record {
            ids = h.ids;
            once = h.once;
            grown = omega (arith, h.grown);
            used = h.used;
            subtasks = h.subtasks;
          })
      | inr new ↦
          let id = sleaf.unique_id in
          let f1 = record f {
            cache = f.cache ++ id ∷ [];
            total_sleaf_ptrs = f.total_sleaf_ptrs ++ sleaf ∷ [];
          } in
          let ids1 : f1.cache ≡ map (λ (s : Sleaf). s.unique_id) f1.total_sleaf_ptrs =
            ap (λ (l : List ℕ). l ++ id ∷ []) ids
            ∙ sym (map-append (λ (s : Sleaf). s.unique_id) f.total_sleaf_ptrs (sleaf ∷ [])) in
          let once1 = λ (u : ℕ). push_once u id f.cache new (once u) in
          let within1 : Within cache f1 =
            λ u c. let old = within u c in is_cached-append u id f.cache ∙ rw old refl in
          let h = push_sleaves-Pushed cache ls f1 within1 ids1 once1 in
          let fresh : is_cached id cache ≡ false = elim (Bool-cases (is_cached id cache)) [
            | inl c ↦ let old = within id c in absurd (ground (arith, old, new))
            | inr no_entry ↦ no_entry
          ] in
          let total = sizes-append f.total_sleaf_ptrs (sleaf ∷ []) in
          rw new (record {
            ids = h.ids;
            once = h.once;
            grown = rw fresh (omega (arith, h.grown, total));
            used = h.used;
            subtasks = h.subtasks;
          })
    ]

abbrev pub subtask_of : Option SubtaskInfo → List SubtaskInfo
subtask_of none = []
subtask_of (some st) = st ∷ []

push_subtask-Fits :
    (capacity : ℕ) (st : Option SubtaskInfo) (f : Filler)
    → Fits capacity f
    → Fits capacity (push_subtask st f)
      × ((push_subtask st f).subtasks ≡ f.subtasks ++ subtask_of st)
push_subtask-Fits capacity none f h = (h, sym (append-nil f.subtasks))
push_subtask-Fits capacity (some st) f h =
    (record { room = h.room; ids = h.ids; once = h.once; small = h.small }, refl)

module _ (c : TaskConfig) where
  is_full-false :
      (g : GridGroupInfo) (required : ℕ) (f : Filler)
      → is_full c g required f ≡ some false
      → (required + f.used) % 2 ^ 64 < c.capacity
  unfolding is_full
  is_full-false g required f h = elim (Bool-cases (leb c.capacity ((required + f.used) % 2 ^ 64))) [
    | inl over ↦ absurd (cc)
    | inr under ↦ ground arith
  ]

  add_group-Fits :
      (g : GridGroupInfo) (ls : List Sleaf) (f f' : Filler)
      → Fits c.capacity f
      → c.capacity + 2 ^ 32 ≤ 2 ^ 64
      → sizes ls < 2 ^ 32
      → (required_size f.cache ls 0 + f.used) % 2 ^ 64 < c.capacity
      → add_group c g (required_size f.cache ls 0) ls f ≡ some f'
      → Fits c.capacity f' × (f'.subtasks ≡ f.subtasks ++ subtask_of g.st_info)
  unfolding add_group
  add_group-Fits g ls f f' h wide small under run =
      >>=-elim (to_vlevel c g.max_level) _ run (λ v _ made.
        let required = required_size f.cache ls 0 in
        let f0 = record f {
          tree_info_vec =
              f.tree_info_vec ++ record { v_level = v; subtask_id = length f.subtasks } ∷ [];
          used = (f.used + required) % 2 ^ 64;
        } in
        let p = push_sleaves-Pushed f.cache ls f0 (λ u e. e) h.ids h.once in
        let needed = required_size-new f.cache ls 0 (omega (arith, small)) in
        let le = new_sizes-le f.cache ls in
        let exact : (f.used + required) % 2 ^ 64 ≡ f.used + required =
          omega (arith, h.small, wide, needed, le, small) in
        let f1 = push_sleaves ls f0 in
        let fits : Fits c.capacity f1 = record {
          room = omega (arith, p.grown, p.used, h.room, exact, needed);
          ids = p.ids;
          once = p.once;
          small = omega (arith, p.used, under, exact);
        } in
        let (fits', tasks) = push_subtask-Fits c.capacity g.st_info f1 fits in
        let same = some_inj made in
        (
          subst (Fits c.capacity) same fits',
          ap (λ (x : Filler). x.subtasks) (sym same)
              ∙ tasks
              ∙ ap (λ (x : List SubtaskInfo). x ++ subtask_of g.st_info) p.subtasks,
        ))

  decided-Fits :
      (g : GridGroupInfo) (ls : List Sleaf) (f f' : Filler) (full b : Bool)
      → Fits c.capacity f
      → c.capacity + 2 ^ 32 ≤ 2 ^ 64
      → sizes ls < 2 ^ 32
      → is_full c g (required_size f.cache ls 0) f ≡ some b
      → ◌≡◌ {A = Option (Filler × Bool)}
          (elim b [
            | true ↦ check_full c g f >>= λ x. some (f, true)
            | false ↦ add_group c g (required_size f.cache ls 0) ls f >>= λ x. some (x, false)
          ])
          (some (f', full))
      → Fits c.capacity f'
        × (full ≡ true → f' ≡ f)
        × (full ≡ false → f'.subtasks ≡ f.subtasks ++ subtask_of g.st_info)
  decided-Fits g ls f f' full true h wide small decided run =
      >>=-elim (check_full c g f) _ run (λ x _ last.
        let (same, over) = some-pair last in
        (subst (Fits c.capacity) same h, λ _. sym same, λ e. absurd (cc)))
  decided-Fits g ls f f' full false h wide small decided run =
      >>=-elim (add_group c g (required_size f.cache ls 0) ls f) _ run (λ f1 added last.
        let (same, over) = some-pair last in
        let (fits, tasks) =
          add_group-Fits g ls f f1 h wide small (is_full-false g _ f decided) added in
        (
          subst (Fits c.capacity) same fits,
          λ e. absurd (cc),
          λ _. ap (λ (x : Filler). x.subtasks) (sym same) ∙ tasks,
        ))

  -- What a group does to a task whose shards are cached, once each, and no larger together than
  -- `used`, which is below the capacity: all this still holds. If the device is full, the task stays
  -- as it is; if not, it gets the subtask of the group. The shards of one group have fewer than
  -- 2 ^ 32 bytes together, and the capacity is 2 ^ 32 or more below 2 ^ 64.
  pub take_group-Fits :
      (g : GridGroupInfo) (ls : List Sleaf) (f f' : Filler) (full : Bool)
      → Fits c.capacity f
      → c.capacity + 2 ^ 32 ≤ 2 ^ 64
      → group_sleaves c.max_level g ≡ some ls
      → sizes ls < 2 ^ 32
      → take_group c g f ≡ some (f', full)
      → Fits c.capacity f'
        × (full ≡ true → f' ≡ f)
        × (full ≡ false → f'.subtasks ≡ f.subtasks ++ subtask_of g.st_info)
  unfolding take_group
  take_group-Fits g ls f f' full h wide e small run =
      let required = required_size f.cache ls 0 in
      >>=-elim (is_full c g required f) _ (rw e at run)
        (λ b decided rest. decided-Fits g ls f f' full b h wide small decided rest)
