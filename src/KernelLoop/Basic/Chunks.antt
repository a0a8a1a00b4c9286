-- ===== src/KernelLoop/Basic/Chunks.antt =====
-- What the buffers of source/cuMatch/LFTJ_kernel_basic.cu hang on.
use cu_match.Prelude.{
  ℕ, ◌+◌, ◌<◌, ◌≡◌, refl, ap, sym, ◌∙◌, Bool, List, [], ◌∷◌, length, if◌then◌else◌, min, update,
  arith, Bool-cases, inl, inr,
}
use cu_match.Flip24.{Memory, read_element}
use cu_match.Kernel.{
  Task, Block, add32, sub32, update2, sm_threshold, intersects, count_matches, store_matches,
  store_chunk, restrict_to_block,
}
use cu_match.Kernel.Intersect.{offset, matches, matches-store, store_matches-matches}
use cu_match.Kernel.Rounds.{store_matches-arrays}
use cu_match.KernelLoop.Basic.Agree.{Ranges, intersects-Ranges}

module _ (t : Task) (dep match_vid num_join_shards pivot : ℕ) where
  -- One buffer full: what it holds, and the lists behind it
  abbrev pub first_indices : (ℕ → ℕ → List ℕ) → Block → List ℕ
  first_indices schedule b =
      let lo = b.min_iter_per_shard dep (t.eids pivot) in
      schedule lo (min (b.max_iter_per_shard dep (t.eids pivot)) (sub32 (add32 lo sm_threshold) 1))

  pub record Stored (schedule : ℕ → ℕ → List ℕ) (b : Block) : Type 0 where
    pub data_of :
        (store_chunk t dep match_vid num_join_shards schedule pivot b).im_data dep
        ≡ matches t dep match_vid num_join_shards b pivot (first_indices schedule b)
    pub size_of :
        (store_chunk t dep match_vid num_join_shards schedule pivot b).im_size dep
        ≡ length ((store_chunk t dep match_vid num_join_shards schedule pivot b).im_data dep)
    pub arrays :
        (store_chunk t dep match_vid num_join_shards schedule pivot b).flip24_arrs ≡ b.flip24_arrs
    pub lower :
        (store_chunk t dep match_vid num_join_shards schedule pivot b).min_iter_per_shard
        ≡ update2 b.min_iter_per_shard dep
            (t.eids pivot)
            (add32 (b.min_iter_per_shard dep (t.eids pivot)) sm_threshold)
    pub upper :
        (store_chunk t dep match_vid num_join_shards schedule pivot b).max_iter_per_shard
        ≡ b.max_iter_per_shard

  pub store_chunk-Stored : (schedule : ℕ → ℕ → List ℕ) (b : Block) → Stored schedule b
  unfolding store_chunk
  store_chunk-Stored schedule b =
      let start = record b {
        im_size = update b.im_size dep 0;
        im_data = update b.im_data dep [];
      } in
      let is = first_indices schedule b in
      let (stored, size) = store_matches-matches t dep match_vid num_join_shards pivot is start in
      let (arrays, lower, upper) =
        store_matches-arrays t dep match_vid num_join_shards pivot is start in
      let empty : update b.im_data dep [] dep ≡ [] = ground arith in
      let zero_size : update b.im_size dep 0 dep ≡ 0 = ground arith in
      let plain =
        matches-store t dep match_vid num_join_shards b pivot is (update b.im_size dep 0)
          (update b.im_data dep []) in
      let held : (store_matches t dep match_vid num_join_shards pivot is start).im_data dep
          ≡ matches t dep match_vid num_join_shards b pivot is =
        rw empty at stored ∙ plain in
      record {
        data_of = held;
        size_of = omega (arith, size, zero_size, ap length (plain ∙ sym held));
        arrays = arrays;
        lower =
            ap
              (λ f.
                update2 f dep (t.eids pivot)
                  (add32 (b.min_iter_per_shard dep (t.eids pivot)) sm_threshold))
              lower;
        upper = upper;
      }

module _ (t : Task) (dep match_vid num_join_shards : ℕ) (p : ℕ) (lt : p < num_join_shards) where
  -- The pivot is the `p`-th list.
  abbrev pivot : ℕ
  pivot = offset t dep match_vid num_join_shards p

  matches-Ranges :
      (is : List ℕ) (b c : Block)
      → Ranges t dep match_vid num_join_shards num_join_shards b c
      → matches t dep match_vid num_join_shards b pivot is
        ≡ matches t dep match_vid num_join_shards c pivot is
  matches-Ranges [] b c h = refl
  matches-Ranges (i ∷ is) b c h =
      let v_id = read_element (c.flip24_arrs (t.eids pivot)) i in
      rw
        (
          h.arrays p lt,
          intersects-Ranges t dep match_vid num_join_shards num_join_shards b c pivot v_id 0
              num_join_shards (omega arith) h,
          matches-Ranges is b c h,
        )
        refl

  abbrev counted : Block → Block
  counted b = record b { im_size = update b.im_size dep (b.im_size dep + 1) }

  count_matches-nil : (b : Block) → count_matches t dep match_vid num_join_shards pivot [] b ≡ b
  unfolding count_matches
  count_matches-nil b = refl

  count_matches-cons :
      (i : ℕ) (is : List ℕ) (b : Block) (hit : Bool)
      → intersects t dep match_vid num_join_shards b pivot
          (read_element (b.flip24_arrs (t.eids pivot)) i)
          0
          num_join_shards
        ≡ hit
      → count_matches t dep match_vid num_join_shards pivot (i ∷ is) b
        ≡ count_matches t dep match_vid num_join_shards pivot is (if hit then counted b else b)
  unfolding count_matches
  count_matches-cons i is b hit e =
      ap (λ x. count_matches t dep match_vid num_join_shards pivot is (if x then counted b else b))
        e

  -- The count of the last depth
  pub count_matches-Ranges :
      (is : List ℕ) (b c : Block)
      → Ranges t dep match_vid num_join_shards num_join_shards b c
      → b.im_size dep ≡ c.im_size dep
      → (count_matches t dep match_vid num_join_shards pivot is b).im_size dep
        ≡ (count_matches t dep match_vid num_join_shards pivot is c).im_size dep
  count_matches-Ranges [] b c h e =
      ap (λ (x : Block). x.im_size dep) (count_matches-nil b)
      ∙ e
      ∙ sym (ap (λ (x : Block). x.im_size dep) (count_matches-nil c))
  count_matches-Ranges (i ∷ is) b c h e =
      let v_id = read_element (c.flip24_arrs (t.eids pivot)) i in
      let hit = intersects t dep match_vid num_join_shards c pivot v_id 0 num_join_shards in
      let same : intersects t dep match_vid num_join_shards b pivot
            (read_element (b.flip24_arrs (t.eids pivot)) i) 0 num_join_shards
          ≡ hit =
        ap
          (λ (x : Memory).
            intersects t dep match_vid num_join_shards b pivot (read_element x i) 0 num_join_shards)
          (h.arrays p lt)
        ∙ intersects-Ranges t dep match_vid num_join_shards num_join_shards b c pivot v_id 0
            num_join_shards (omega arith) h in
      let size_of = λ (x : Block). x.im_size dep in
      let rest : (count_matches t dep match_vid num_join_shards pivot is
              (if hit then counted b else b)).im_size
            dep
          ≡ (count_matches t dep match_vid num_join_shards pivot is
                (if hit then counted c else c)).im_size
              dep =
        elim (Bool-cases hit) [
          | inl match ↦ rw match (
              count_matches-Ranges is (counted b) (counted c)
                (record { lower = h.lower; upper = h.upper; arrays = h.arrays })
                (ground (arith, e)))
          | inr miss ↦ rw miss (count_matches-Ranges is b c h e)
        ] in
      ap size_of (count_matches-cons i is b hit same)
      ∙ rest
      ∙ sym (ap size_of (count_matches-cons i is c hit refl))

  -- The list of the pivot moves on by the same step in both blocks.
  pub store_chunk-Ranges :
      (schedule : ℕ → ℕ → List ℕ) (b c : Block)
      → Ranges t dep match_vid num_join_shards num_join_shards b c
      → ((store_chunk t dep match_vid num_join_shards schedule pivot b).im_data dep
          ≡ (store_chunk t dep match_vid num_join_shards schedule pivot c).im_data dep)
        × Ranges t dep match_vid num_join_shards num_join_shards
            (store_chunk t dep match_vid num_join_shards schedule pivot b)
            (store_chunk t dep match_vid num_join_shards schedule pivot c)
  store_chunk-Ranges schedule b c h =
      let x = store_chunk-Stored t dep match_vid num_join_shards pivot schedule b in
      let y = store_chunk-Stored t dep match_vid num_join_shards pivot schedule c in
      let here = h.lower p lt in
      (
        x.data_of
            ∙ rw (here, h.upper p lt)
                (matches-Ranges (first_indices t dep match_vid num_join_shards pivot schedule c) b c
                  h)
            ∙ sym y.data_of,
        record {
          lower = λ k lk.
              let there = h.lower k lk in rw (x.lower, y.lower, here) (ground (arith, there));
          upper = λ k lk. rw (x.upper, y.upper) (h.upper k lk);
          arrays = λ k lk. rw (x.arrays, y.arrays) (h.arrays k lk);
        },
      )

  -- The block's share of the pivot list
  pub restrict_to_block-Ranges :
      (block_idx : ℕ) (b c : Block)
      → b.vid_gap 0 ≡ c.vid_gap 0
      → Ranges t dep match_vid num_join_shards num_join_shards b c
      → Ranges t dep match_vid num_join_shards num_join_shards
          (restrict_to_block t dep match_vid num_join_shards block_idx (t.eids pivot) b)
          (restrict_to_block t dep match_vid num_join_shards block_idx (t.eids pivot) c)
  unfolding restrict_to_block
  restrict_to_block-Ranges block_idx b c e h =
      let lo = h.lower p lt in
      let hi = h.upper p lt in
      record {
        lower = λ k lk. rw (e, lo) (let there = h.lower k lk in ground (arith, there));
        upper = λ k lk. rw (e, lo, hi) (let there = h.upper k lk in ground (arith, there));
        arrays = h.arrays;
      }
