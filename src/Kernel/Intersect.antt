-- ===== src/Kernel/Intersect.antt =====
-- The intersection of source/cuMatch/LFTJ_kernel_basic.cu against the lists that it joins.
use cu_match.Prelude.{
  update, ℕ, zero, suc, ◌+◌, ◌≤◌, ◌<◌, ◌≡◌, ◌≢◌, ◌↔◌, inl, inr, refl, ◌∙◌, sym, ◌^◌, Bool, true,
  false, List, [], ◌∷◌, ◌++◌, length, ◌==◌, if◌then◌else◌, arith, Bool-cases, ==_iff,
}
use mathlib.Core.Path.{subst}
use mathlib.Core.List.{Memᴰ}
use mathlib.Core.List.Memᴰ
use mathlib.Core.List.{append-nil, append_assoc}
use cu_match.Flip24.{read_element}
use cu_match.Search.{Sorted, lower_bound_on_flip24_array, lower_bound_on_flip24_array_finds}
use cu_match.Kernel.{Task, Block, add32, intersects, store_matches}

both_iff : (a b : Bool) → ((if a then b else false) ≡ true) ↔ ((a ≡ true) × (b ≡ true))
both_iff a b = ground arith

-- The vertices of a joined list stand at its indices, in order.
pub record IsList (b : Block) (dep e_id : ℕ) : Type 0 where
  pub nonempty : b.min_iter_per_shard dep e_id ≤ b.max_iter_per_shard dep e_id
  pub bounded : b.max_iter_per_shard dep e_id < 2 ^ 31
  pub sorted :
      Sorted
        (read_element (b.flip24_arrs e_id))
        (b.min_iter_per_shard dep e_id)
        (b.max_iter_per_shard dep e_id + 1)

-- The vertex is in the list of an edge.
abbrev pub InList : Block → ℕ → ℕ → ℕ → Type 0
InList b dep e_id v_id =
    (i : ℕ) × (b.min_iter_per_shard dep e_id ≤ i)
    × (i ≤ b.max_iter_per_shard dep e_id)
    × (read_element (b.flip24_arrs e_id) i ≡ v_id)

module _ (t : Task) (dep match_vid num_join_shards : ℕ) where
  abbrev pub offset : ℕ → ℕ
  offset j = t.prefix_sum_degree match_vid + j

  pub found_iff :
      (b : Block) (e_id v_id : ℕ)
      → IsList b dep e_id
      → ((lower_bound_on_flip24_array
            (b.flip24_arrs e_id)
            v_id
            (b.min_iter_per_shard dep e_id)
            (add32 (b.max_iter_per_shard dep e_id) 1)).0
          ≡ true)
        ↔ InList b dep e_id v_id
  found_iff b e_id v_id h =
      let e : add32 (b.max_iter_per_shard dep e_id) 1 ≡ b.max_iter_per_shard dep e_id + 1 =
        omega (arith, h.bounded) in
      let finds =
        lower_bound_on_flip24_array_finds (b.flip24_arrs e_id) v_id (b.min_iter_per_shard dep e_id)
          (b.max_iter_per_shard dep e_id + 1) (omega (arith, h.nonempty)) (omega (arith, h.bounded))
          h.sorted in
      rw e (
        λ f. let (i, p, q, r) = finds.2.0 f in (i, p, omega arith, r),
        λ (i, p, q, r). finds.2.1 (i, p, omega arith, r),
      )

  -- The vertices that the joined lists but the pivot share, from the `j`-th list on.
  abbrev pub InLists : Block → ℕ → ℕ → ℕ → ℕ → Type 0
  InLists b pivot v_id j n =
      (k : ℕ) → j ≤ k → k < j + n → offset k ≢ pivot → InList b dep (t.eids (offset k)) v_id

  InLists-suc :
      (b : Block) (pivot v_id j n : ℕ)
      → InLists b pivot v_id j (suc n) ↔ (
          (offset j ≢ pivot → InList b dep (t.eids (offset j)) v_id)
          × InLists b pivot v_id (j + 1) n)
  InLists-suc b pivot v_id j n = (
    λ h. (h j (omega arith) (omega arith), λ k p q. h k (omega arith) (omega arith)),
    λ (first, rest) k p q ne. elim (Bool-cases (k == j)) [
      | inl same ↦
          let e = (==_iff k j).0 same in
          subst (λ x. InList b dep (t.eids (offset x)) v_id) (sym e) (first (rw e at ne))
      | inr other ↦ rest k (ground arith) (omega arith) ne
    ],
  )

  -- A vertex passes exactly if each joined list but the pivot holds it, where these lists are sorted,
  -- not empty, and end below 2 ^ 31.
  pub intersects_iff :
      (b : Block) (pivot v_id j n : ℕ)
      → ((k : ℕ) → j ≤ k → k < j + n → offset k ≢ pivot → IsList b dep (t.eids (offset k)))
      → (intersects t dep match_vid num_join_shards b pivot v_id j n ≡ true)
        ↔ InLists b pivot v_id j n
  unfolding intersects
  intersects_iff b pivot v_id j zero h = (λ _ k p q. absurd (omega arith), λ _. refl)
  intersects_iff b pivot v_id j (suc n) h =
      let (split, join) = InLists-suc b pivot v_id j n in
      let (sound, full) =
        intersects_iff b pivot v_id (j + 1) n (λ k p q. h k (omega arith) (omega arith)) in
      elim (Bool-cases (offset j == pivot)) [
        | inl same ↦
            let e = (==_iff (offset j) pivot).0 same in
            rw same (λ p. join (λ ne. absurd (ne e), sound p), λ q. full (split q).1)
        | inr other ↦
            let ne : offset j ≢ pivot = ground arith in
            let (found, found_back) =
              found_iff b (t.eids (offset j)) v_id (h j (omega arith) (omega arith) ne) in
            rw other (
              λ p. let (f, r) = (both_iff _ _).0 p in join (λ _. found f, sound r),
              λ q. (both_iff _ _).1 (found_back ((split q).0 ne), full (split q).1),
            )
      ]

  -- The stores leave the lists alone.
  pub intersects-store :
      (b : Block) (pivot v_id j n : ℕ) (size : ℕ → ℕ) (held : ℕ → List ℕ)
      → intersects t dep match_vid num_join_shards
          (record b { im_size = size; im_data = held })
          pivot
          v_id
          j
          n
        ≡ intersects t dep match_vid num_join_shards b pivot v_id j n
  unfolding intersects
  intersects-store b pivot v_id j zero size held = refl
  intersects-store b pivot v_id j (suc n) size held =
      rw (intersects-store b pivot v_id (j + 1) n size held)

  -- The vertices of the pivot list at the given indices that every other list holds.
  abbrev pub matches : Block → ℕ → List ℕ → List ℕ
  matches b pivot [] = []
  matches b pivot (i ∷ is) =
      let v_id = read_element (b.flip24_arrs (t.eids pivot)) i in
      let rest = matches b pivot is in
      if intersects t dep match_vid num_join_shards b pivot v_id 0 num_join_shards
      then v_id ∷ rest
      else rest

  pub matches-store :
      (b : Block) (pivot : ℕ) (is : List ℕ) (size : ℕ → ℕ) (held : ℕ → List ℕ)
      → matches (record b { im_size = size; im_data = held }) pivot is ≡ matches b pivot is
  matches-store b pivot [] size held = refl
  matches-store b pivot (i ∷ is) size held = ground (
    arith,
    intersects-store b pivot (read_element (b.flip24_arrs (t.eids pivot)) i) 0 num_join_shards size
        held,
    matches-store b pivot is size held,
  )

  pub store_matches-matches :
      (pivot : ℕ) (is : List ℕ) (b : Block)
      → ((store_matches t dep match_vid num_join_shards pivot is b).im_data dep
          ≡ b.im_data dep ++ matches b pivot is)
        × ((store_matches t dep match_vid num_join_shards pivot is b).im_size dep
            ≡ b.im_size dep + length (matches b pivot is))
  unfolding store_matches
  store_matches-matches pivot [] b = (sym (append-nil _), omega arith)
  store_matches-matches pivot (i ∷ is) b =
      let v_id = read_element (b.flip24_arrs (t.eids pivot)) i in
      let size = update b.im_size dep (b.im_size dep + 1) in
      let held = update b.im_data dep (b.im_data dep ++ v_id ∷ []) in
      let stored = record b { im_size = size; im_data = held } in
      elim (Bool-cases
        (intersects t dep match_vid num_join_shards b pivot v_id 0 num_join_shards)) [
          | inl match ↦
              let here : held dep ≡ b.im_data dep ++ v_id ∷ [] = ground arith in
              let size_here : size dep ≡ b.im_size dep + 1 = ground arith in
              let (ih_data, ih_size) = store_matches-matches pivot is stored in
              let same = matches-store b pivot is size held in
              rw (match, store_matches)
                (
                  ih_data ∙ rw (here, same) (append_assoc (b.im_data dep) _ _),
                  ih_size ∙ rw (size_here, same) (omega arith),
                )
          | inr miss ↦ rw (miss, store_matches) (store_matches-matches pivot is b)
        ]

  -- What the stores append for the given indices: exactly the vertices of the pivot list at these
  -- indices that stand in each of the other joined lists.
  pub matches_iff :
      (b : Block) (pivot v_id : ℕ) (is : List ℕ)
      → ((k : ℕ) → k < num_join_shards → offset k ≢ pivot → IsList b dep (t.eids (offset k)))
      → Memᴰ v_id (matches b pivot is) ↔ (
          (i : ℕ) × Memᴰ i is
          × (read_element (b.flip24_arrs (t.eids pivot)) i ≡ v_id)
          × InLists b pivot v_id 0 num_join_shards)
  matches_iff b pivot v_id [] h =
      (λ m. absurd (Memᴰ.not-nil m), λ (i, m, e, l). absurd (Memᴰ.not-nil m))
  matches_iff b pivot v_id (i ∷ is) h =
      let u = read_element (b.flip24_arrs (t.eids pivot)) i in
      let (sound, full) = intersects_iff b pivot u 0 num_join_shards (λ k p q. h k (omega arith)) in
      let (tail_sound, tail_full) = matches_iff b pivot v_id is h in
      let later = λ (m : Memᴰ v_id (matches b pivot is)).
        let (k, mk, e, l) = tail_sound m in
        let r : (k : ℕ) × Memᴰ k (i ∷ is)
            × (read_element (b.flip24_arrs (t.eids pivot)) k ≡ v_id)
            × InLists b pivot v_id 0 num_join_shards =
          (k, Memᴰ.tail mk, e, l) in
        r in
      elim (Bool-cases (intersects t dep match_vid num_join_shards b pivot u 0 num_join_shards)) [
        | inl match ↦ rw match (
          λ m. elim (Memᴰ.cases_cons m) [
            | inl e ↦ (
              i,
              Memᴰ.head refl,
              sym e,
              subst (λ v. InLists b pivot v 0 num_join_shards) (sym e) (sound match),
            )
            | inr m' ↦ later m'
          ],
          λ (k, mk, e, l). elim (Memᴰ.cases_cons mk) [
            | inl same ↦ Memᴰ.head (sym e ∙ rw same)
            | inr mk' ↦ Memᴰ.tail (tail_full (k, mk', e, l))
          ],
        )
        | inr miss ↦ rw miss (
          later,
          λ (k, mk, e, l). elim (Memᴰ.cases_cons mk) [
            | inl same ↦
                let hit : intersects t dep match_vid num_join_shards b pivot u 0 num_join_shards
                    ≡ true =
                  full (subst (λ v. InLists b pivot v 0 num_join_shards) (sym e ∙ rw same) l) in
                absurd (ground arith)
            | inr mk' ↦ tail_full (k, mk', e, l)
          ],
        )
      ]

  pub matches-append :
      (b : Block) (pivot : ℕ) (is js : List ℕ)
      → matches b pivot (is ++ js) ≡ matches b pivot is ++ matches b pivot js
  matches-append b pivot [] js = refl
  matches-append b pivot (i ∷ is) js = ground (arith, matches-append b pivot is js)

  pub length-matches-le :
      (b : Block) (pivot : ℕ) (is : List ℕ) → length (matches b pivot is) ≤ length is
  length-matches-le b pivot [] = omega arith
  length-matches-le b pivot (i ∷ is) = ground (arith, length-matches-le b pivot is)
