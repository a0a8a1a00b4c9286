-- ===== src/Constraint/Partners.antt =====
-- What the test of source/cuMatch/LFTJ_kernel_constraint.cu lets through.
use cu_match.Prelude.{
  ℕ, zero, suc, ◌+◌, ◌≤◌, ◌<◌, ◌≡◌, ◌≢◌, ◌↔◌, inl, inr, refl, ◌∙◌, sym, ap, true, List, [], ◌∷◌,
  ◌++◌, ◌==◌, ==_iff, if◌then◌else◌, min, update, arith, Bool-cases,
}
use mathlib.Core.Path.{subst}
use mathlib.Core.List.{Memᴰ}
use mathlib.Core.List.Memᴰ
use cu_match.Flip24.{Memory, read_element}
use cu_match.Kernel.{
  Task, Block, add32, sub32, sm_threshold, update2, intersects, store_matches, store_chunk,
}
use cu_match.Kernel.Intersect.{IsList, InLists, offset, matches_iff}
use cu_match.KernelLoop.Basic.Chunks.{store_chunk-Stored, first_indices}
use cu_match.Constraint.{ConstraintInfo, is_free, num_constraints_per_block, store_free, fill_free}

is_free_iff :
    (values : ℕ → ℕ) (v_id j n : ℕ)
    → (is_free values v_id j n ≡ true) ↔ ((k : ℕ) → j ≤ k → k < j + n → v_id ≢ values k)
unfolding is_free
is_free_iff values v_id j zero = (λ _ k p q. absurd (omega (arith, p, q)), λ _. refl)
is_free_iff values v_id j (suc n) =
    let (sound, full) = is_free_iff values v_id (j + 1) n in
    elim (Bool-cases (v_id == values j)) [
      | inl same ↦
          let e = (==_iff v_id (values j)).0 same in
          rw same (λ p. absurd (ground (arith, p)), λ q. absurd (q j (omega arith) (omega arith) e))
      | inr other ↦
          let ne : v_id ≢ values j = ground arith in
          rw other (
            λ p k le lt. elim (Bool-cases (k == j)) [
              | inl here ↦ subst (λ x. v_id ≢ values x) (sym ((==_iff k j).0 here)) ne
              | inr there ↦ sound p k (ground (arith, le)) (omega (arith, lt))
            ],
            λ q. full (λ k le lt. q k (omega (arith, le)) (omega (arith, lt))),
          )
    ]

module _ (t : Task) (info : ConstraintInfo) (dep match_vid num_join_shards : ℕ)
    (values : ℕ → ℕ) where
  abbrev partners : ℕ
  partners = num_constraints_per_block t info dep match_vid num_join_shards

  -- The indices whose vertex no constraint forbids
  abbrev free_indices : Memory → List ℕ → List ℕ
  free_indices mem [] = []
  free_indices mem (i ∷ is) =
      let rest = free_indices mem is in
      if is_free values (read_element mem i) 0 partners then i ∷ rest else rest

  free_indices_iff :
      (mem : Memory) (i : ℕ) (is : List ℕ)
      → Memᴰ i (free_indices mem is)
        ↔ (Memᴰ i is × (is_free values (read_element mem i) 0 partners ≡ true))
  free_indices_iff mem i [] = (λ m. absurd (Memᴰ.not-nil m), λ (m, _). absurd (Memᴰ.not-nil m))
  free_indices_iff mem i (k ∷ is) =
      let (sound, full) = free_indices_iff mem i is in
      elim (Bool-cases (is_free values (read_element mem k) 0 partners)) [
        | inl free ↦ rw free (
          λ m. elim (Memᴰ.cases_cons m) [
            | inl e ↦
                (Memᴰ.head e, ap (λ x. is_free values (read_element mem x) 0 partners) e ∙ free)
            | inr m' ↦ (Memᴰ.tail (sound m').0, (sound m').1)
          ],
          λ (m, f). elim (Memᴰ.cases_cons m) [
            | inl e ↦ Memᴰ.head e
            | inr m' ↦ Memᴰ.tail (full (m', f))
          ],
        )
        | inr taken ↦ rw taken (
          λ m. (Memᴰ.tail (sound m).0, (sound m).1),
          λ (m, f). elim (Memᴰ.cases_cons m) [
            | inl e ↦
                let here = ap (λ x. is_free values (read_element mem x) 0 partners) e in
                absurd (ground (arith, here, f, taken))
            | inr m' ↦ full (m', f)
          ],
        )
      ]

  abbrev mem_of : ℕ → Block → Memory
  mem_of pivot b = b.flip24_arrs (t.eids pivot)

  abbrev Stores : ℕ → List ℕ → Block → Type 0
  Stores pivot is b =
      store_free t info dep match_vid num_join_shards values pivot is b
      ≡ store_matches t dep match_vid num_join_shards pivot (free_indices (mem_of pivot b) is) b

  store_free-store_matches : (pivot : ℕ) (is : List ℕ) (b : Block) → Stores pivot is b
  unfolding store_free store_matches
  store_free-store_matches pivot [] b = refl
  store_free-store_matches pivot (i ∷ is) b =
      let v_id = read_element (mem_of pivot b) i in
      let c = record b {
        im_size = update b.im_size dep (b.im_size dep + 1);
        im_data = update b.im_data dep (b.im_data dep ++ v_id ∷ []);
      } in
      let stored : Stores pivot is c = store_free-store_matches pivot is c in
      let skipped : Stores pivot is b = store_free-store_matches pivot is b in
      elim (Bool-cases (is_free values v_id 0 partners)) [
        | inl free ↦
            elim (Bool-cases
              (intersects t dep match_vid num_join_shards b pivot v_id 0 num_join_shards)) [
                | inl match ↦ rw (free, match, store_free, store_matches) stored
                | inr miss ↦ rw (free, miss, store_free, store_matches) skipped
              ]
        | inr taken ↦ rw (taken, store_free, store_matches) skipped
      ]

  -- With constraints, one buffer full is what the basic kernel makes of the free indices alone.
  fill_free-store_chunk :
      (schedule : ℕ → ℕ → List ℕ) (pivot : ℕ) (b : Block)
      → fill_free t info dep match_vid num_join_shards schedule values pivot b
        ≡ store_chunk t dep match_vid num_join_shards
            (λ lo hi. free_indices (mem_of pivot b) (schedule lo hi))
            pivot
            b
  unfolding fill_free store_chunk
  fill_free-store_chunk schedule pivot b =
      let e_id = t.eids pivot in
      let lo = b.min_iter_per_shard dep e_id in
      let hi = min (b.max_iter_per_shard dep e_id) (sub32 (add32 lo sm_threshold) 1) in
      let start = record b {
        im_size = update b.im_size dep 0;
        im_data = update b.im_data dep [];
      } in
      ap
        (λ (x : Block). record x {
          min_iter_per_shard = update2 x.min_iter_per_shard dep e_id (add32 lo sm_threshold);
        })
        (store_free-store_matches pivot (schedule lo hi) start)

  -- One buffer full under constraints holds exactly the vertices of this piece of the pivot list, of
  -- `SMThreshold` indices at most, that stand in each of the other joined lists and differ from the
  -- vertex of every constraint partner. The other lists are sorted, not empty, and end below 2 ^ 31.
  pub fill_free_iff :
      (schedule : ℕ → ℕ → List ℕ) (pivot v_id : ℕ) (b : Block)
      → ((k : ℕ)
          → k < num_join_shards
          → offset t dep match_vid num_join_shards k ≢ pivot
          → IsList b dep (t.eids (offset t dep match_vid num_join_shards k)))
      → let lo = b.min_iter_per_shard dep (t.eids pivot) in
        let hi = min (b.max_iter_per_shard dep (t.eids pivot)) (sub32 (add32 lo sm_threshold) 1) in
        Memᴰ v_id
          ((fill_free t info dep match_vid num_join_shards schedule values pivot b).im_data dep)
        ↔ (((i : ℕ) × Memᴰ i (schedule lo hi)
              × (read_element (b.flip24_arrs (t.eids pivot)) i ≡ v_id)
              × InLists t dep match_vid num_join_shards b pivot v_id 0 num_join_shards)
            × ((k : ℕ)
                → k < num_constraints_per_block t info dep match_vid num_join_shards
                → v_id ≢ values k))
  fill_free_iff schedule pivot v_id b lists =
      let mem = mem_of pivot b in
      let free_schedule = λ (lo hi : ℕ). free_indices mem (schedule lo hi) in
      let held =
        ap (λ (x : Block). x.im_data dep) (fill_free-store_chunk schedule pivot b)
        ∙ (store_chunk-Stored t dep match_vid num_join_shards pivot free_schedule b).data_of in
      let is = first_indices t dep match_vid num_join_shards pivot schedule b in
      let (sound, full) =
        matches_iff t dep match_vid num_join_shards b pivot v_id (free_indices mem is) lists in
      let (differs, differs_back) = is_free_iff values v_id 0 partners in
      rw held (
        λ m.
            let (i, mi, e, l) = sound m in
            let (m', free) = (free_indices_iff mem i is).0 mi in
            (
              (i, m', e, l),
              λ k lt.
                  differs (ap (λ x. is_free values x 0 partners) (sym e) ∙ free) k (omega arith)
                    (omega (arith, lt)),
            ),
        λ ((i, m', e, l), apart).
            let free =
              ap (λ x. is_free values x 0 partners) e
              ∙ differs_back (λ k le lt. apart k (omega (arith, lt))) in
            full (i, (free_indices_iff mem i is).1 (m', free), e, l),
      )
