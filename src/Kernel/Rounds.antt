-- ===== src/Kernel/Rounds.antt =====
-- The rounds in which a block of source/cuMatch/LFTJ_kernel_basic.cu goes through its share of the
-- pivot list, a buffer full at a time.
use cu_match.Prelude.{
  update, ℕ, zero, suc, ◌+◌, ◌-◌, ◌*◌, ◌≤◌, ◌<◌, ◌≡◌, ◌≢◌, inl, inr, refl, ap, ◌∙◌, sym, ◌^◌,
  Option, some, none, List, [], ◌∷◌, ◌++◌, length, count, count-append, leb, ltb, ◌==◌, ◌&&◌,
  if◌then◌else◌, min, arith, Bool-cases, ◌>>=◌,
}
use cu_match.Flip24.{Memory, read_element}
use cu_match.Kernel.{
  Task, Block, add32, sub32, sm_threshold, intersects, store_matches, store_chunk,
}
use cu_match.Kernel.Intersect.{matches, matches-append, store_matches-matches}

-- The additions take each index of the range once, in some order.
pub record IsSchedule (schedule : ℕ → ℕ → List ℕ) : Type 0 where
  pub once : (lo hi i : ℕ) → count i (schedule lo hi) ≡ (if leb lo i && leb i hi then 1 else 0)
  pub size : (lo hi : ℕ) → length (schedule lo hi) ≡ hi + 1 - lo

module _ (t : Task) (dep match_vid num_join_shards : ℕ) where
  -- The blocks agree on all that an intersection with this pivot reads.
  pub record SameLists (pivot : ℕ) (b c : Block) : Type 0 where
    pub arrays : b.flip24_arrs ≡ c.flip24_arrs
    pub lower :
        (k : ℕ)
        → t.prefix_sum_degree match_vid + k ≢ pivot
        → b.min_iter_per_shard dep (t.eids (t.prefix_sum_degree match_vid + k))
          ≡ c.min_iter_per_shard dep (t.eids (t.prefix_sum_degree match_vid + k))
    pub upper : b.max_iter_per_shard ≡ c.max_iter_per_shard

  intersects_same :
      (b c : Block) (pivot v_id j n : ℕ)
      → SameLists pivot b c
      → intersects t dep match_vid num_join_shards b pivot v_id j n
        ≡ intersects t dep match_vid num_join_shards c pivot v_id j n
  unfolding intersects
  intersects_same b c pivot v_id j zero h = refl
  intersects_same b c pivot v_id j (suc n) h =
      let ih = intersects_same b c pivot v_id (j + 1) n h in
      elim (Bool-cases (t.prefix_sum_degree match_vid + j == pivot)) [
        | inl same ↦ rw same ih
        | inr other ↦ rw (other, h.arrays, h.upper, h.lower j (ground arith), ih)
      ]

  pub matches_same :
      (b c : Block) (pivot : ℕ) (is : List ℕ)
      → SameLists pivot b c
      → matches t dep match_vid num_join_shards b pivot is
        ≡ matches t dep match_vid num_join_shards c pivot is
  matches_same b c pivot [] h = refl
  matches_same b c pivot (i ∷ is) h =
      let array = ap (λ (f : ℕ → Memory). f (t.eids pivot)) h.arrays in
      ground (
        arith,
        intersects_same b c pivot (read_element (c.flip24_arrs (t.eids pivot)) i) 0 num_join_shards
            h,
        matches_same b c pivot is h,
      )

  pub store_matches-arrays :
      (pivot : ℕ) (is : List ℕ) (b : Block)
      → ((store_matches t dep match_vid num_join_shards pivot is b).flip24_arrs ≡ b.flip24_arrs)
        × ((store_matches t dep match_vid num_join_shards pivot is b).min_iter_per_shard
            ≡ b.min_iter_per_shard)
        × ((store_matches t dep match_vid num_join_shards pivot is b).max_iter_per_shard
            ≡ b.max_iter_per_shard)
  unfolding store_matches
  store_matches-arrays pivot [] b = (refl, refl, refl)
  store_matches-arrays pivot (i ∷ is) b =
      let v_id = read_element (b.flip24_arrs (t.eids pivot)) i in
      elim (Bool-cases
        (intersects t dep match_vid num_join_shards b pivot v_id 0 num_join_shards)) [
          | inl match ↦ rw (match, store_matches) (store_matches-arrays pivot is _)
          | inr miss ↦ rw (miss, store_matches) (store_matches-arrays pivot is b)
        ]

  -- What one buffer full gets: its matches, and the pivot list goes on behind it.
  pub record StoresChunk (schedule : ℕ → ℕ → List ℕ) (pivot lo hi : ℕ) (b : Block) : Type 0 where
    pub kept :
        (store_chunk t dep match_vid num_join_shards schedule pivot b).im_data dep
        ≡ matches t dep match_vid num_join_shards b pivot (schedule lo (min hi (lo + 127)))
    pub counted :
        (store_chunk t dep match_vid num_join_shards schedule pivot b).im_size dep
        ≡ length ((store_chunk t dep match_vid num_join_shards schedule pivot b).im_data dep)
    pub behind :
        (store_chunk t dep match_vid num_join_shards schedule pivot b).min_iter_per_shard dep
          (t.eids pivot)
        ≡ lo + 128
    pub same : SameLists pivot (store_chunk t dep match_vid num_join_shards schedule pivot b) b

  pub store_chunk_lem :
      (schedule : ℕ → ℕ → List ℕ) (pivot lo hi : ℕ) (b : Block)
      → b.min_iter_per_shard dep (t.eids pivot) ≡ lo
      → b.max_iter_per_shard dep (t.eids pivot) ≡ hi
      → lo + 128 < 2 ^ 32
      → ((k : ℕ)
          → t.prefix_sum_degree match_vid + k ≢ pivot
          → t.eids (t.prefix_sum_degree match_vid + k) ≢ t.eids pivot)
      → StoresChunk schedule pivot lo hi b
  unfolding store_chunk
  store_chunk_lem schedule pivot lo hi b l u w distinct =
      let start = record b {
        im_size = update b.im_size dep 0;
        im_data = update b.im_data dep [];
      } in
      let is = schedule lo (min hi (lo + 127)) in
      let chunk : sub32 (add32 lo sm_threshold) 1 ≡ lo + 127 = omega arith in
      let (stored, size) = store_matches-matches t dep match_vid num_join_shards pivot is start in
      let (arrays, lower, upper) = store_matches-arrays pivot is start in
      let like : SameLists pivot start b = record {
        arrays = refl;
        lower = λ k h. refl;
        upper = refl;
      } in
      let empty : update b.im_data dep [] dep ≡ [] = ground arith in
      let plain = matches_same start b pivot is like in
      record {
        kept = simp (l, u, chunk) (stored ∙ rw empty plain);
        counted = simp (l, u, chunk) (ground (arith, ap length stored));
        behind = ground arith;
        same = record {
          arrays = simp (l, u, chunk) arrays;
          lower = λ k ne.
              let e_id = t.eids (t.prefix_sum_degree match_vid + k) in
              let at = ap (λ (f : ℕ → ℕ → ℕ). f dep e_id) lower in
              let d = distinct k ne in simp (l, u, chunk) (ground arith);
          upper = simp (l, u, chunk) upper;
        };
      }

  -- What the block gets from one buffer after another, while the range has an index left: the
  -- kernel stays in state RESUME until `min_iter_per_shard` has passed `max_iter_per_shard`.
  unfoldable pub drain : ℕ → (ℕ → ℕ → List ℕ) → ℕ → Block → Option (List ℕ)
  drain zero schedule pivot b = none
  drain (suc fuel) schedule pivot b =
      let b' = store_chunk t dep match_vid num_join_shards schedule pivot b in
      let e_id = t.eids pivot in
      let rest = drain fuel schedule pivot b' in
      if ltb (b'.max_iter_per_shard dep e_id) (b'.min_iter_per_shard dep e_id)
      then some (b'.im_data dep)
      else rest >>= λ r. some (b'.im_data dep ++ r)

  pub drain-matches :
      (fuel : ℕ) (schedule : ℕ → ℕ → List ℕ) (pivot lo hi : ℕ) (b : Block)
      → IsSchedule schedule
      → b.min_iter_per_shard dep (t.eids pivot) ≡ lo
      → b.max_iter_per_shard dep (t.eids pivot) ≡ hi
      → hi + 256 < 2 ^ 32
      → lo ≤ hi + 128
      → hi + 1 ≤ lo + 128 * fuel
      → 0 < fuel
      → ((k : ℕ)
          → t.prefix_sum_degree match_vid + k ≢ pivot
          → t.eids (t.prefix_sum_degree match_vid + k) ≢ t.eids pivot)
      → (is : List ℕ) × (drain fuel schedule pivot b
          ≡ some (matches t dep match_vid num_join_shards b pivot is))
        × ((i : ℕ) → count i is ≡ (if leb lo i && leb i hi then 1 else 0))
  unfolding drain
  drain-matches zero schedule pivot lo hi b s l u w p q z distinct = absurd (omega arith)
  drain-matches (suc fuel) schedule pivot lo hi b s l u w p q z distinct =
      let first = schedule lo (min hi (lo + 127)) in
      let c = store_chunk_lem schedule pivot lo hi b l u (omega arith) distinct in
      let b' = store_chunk t dep match_vid num_join_shards schedule pivot b in
      let top : b'.max_iter_per_shard dep (t.eids pivot) ≡ hi =
        ap (λ (f : ℕ → ℕ → ℕ). f dep (t.eids pivot)) c.same.upper ∙ u in
      elim (Bool-cases (ltb hi (lo + 128))) [
        | inl over ↦ (
          first,
          simp (top, c.behind, over) (rw c.kept),
          λ i. ground (arith, s.once lo (min hi (lo + 127)) i),
        )
        | inr more ↦
            let (is, run, counts) =
              drain-matches fuel schedule pivot (lo + 128) hi b' s c.behind top w (ground arith)
                (omega arith) (ground arith) distinct in
            let whole : b'.im_data dep ++ matches t dep match_vid num_join_shards b' pivot is
                ≡ matches t dep match_vid num_join_shards b pivot (first ++ is) =
              rw (c.kept, matches_same b' b pivot is c.same)
                (sym (matches-append t dep match_vid num_join_shards b pivot first is)) in
            let behind = c.behind in
            (
              first ++ is,
              ground arith,
              λ i.
                  ground
                    (arith, count-append i first is, counts i, s.once lo (min hi (lo + 127)) i),
            )
      ]
