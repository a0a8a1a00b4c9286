-- ===== src/KernelLoop/Basic/Agree.antt =====
-- What an intersection of source/cuMatch/LFTJ_kernel_basic.cu makes hangs on the lists that it
-- loads, not on what the shared arrays held before.
use cu_match.Prelude.{
  ℕ, zero, suc, ◌+◌, ◌-◌, ◌≤◌, ◌<◌, ◌^◌, ◌≡◌, refl, ap, ◌∙◌, false, ltb, ◌==◌, ==_iff, update,
  arith, Bool-cases, inl, inr,
}
use mathlib.Core.Path.{subst}
use cu_match.Flip24.{Memory}
use cu_match.Shard.{seek, adj_list_vid}
use cu_match.Kernel.{
  Task, Block, add32, sub32, update2, load_list, load_lists, keep_shorter, select_pivot, intersects,
}
use cu_match.Kernel.Intersect.{offset}

module _ (t : Task) (dep match_vid num_join_shards : ℕ) where
  abbrev pub e_id_of : ℕ → ℕ
  e_id_of k = t.eids (offset t dep match_vid num_join_shards k)

  -- The blocks agree on the first `m` lists, and on what is left of them.
  pub record Ranges (m : ℕ) (b c : Block) : Type 0 where
    pub lower :
        (k : ℕ)
        → k < m
        → b.min_iter_per_shard dep (e_id_of k) ≡ c.min_iter_per_shard dep (e_id_of k)
    pub upper :
        (k : ℕ)
        → k < m
        → b.max_iter_per_shard dep (e_id_of k) ≡ c.max_iter_per_shard dep (e_id_of k)
    pub arrays : (k : ℕ) → k < m → b.flip24_arrs (e_id_of k) ≡ c.flip24_arrs (e_id_of k)

  -- The blocks agree on the lengths of the lists, too.
  pub record Agree (m : ℕ) (b c : Block) : Type 0 where
    pub gap : (k : ℕ) → k < m → b.vid_gap k ≡ c.vid_gap k
    pub idx : (k : ℕ) → k < m → b.vid_gap_idx k ≡ c.vid_gap_idx k
    pub ranges : Ranges m b c

  differs : (i k : ℕ) → k < i + 1 → (e_id_of k == e_id_of i) ≡ false → k < i
  differs i k lt other = elim (Bool-cases (k == i)) [
    | inl same ↦ let e = ap e_id_of ((==_iff k i).0 same) in absurd (ground arith)
    | inr ne ↦ ground arith
  ]

  -- No list is empty at the very start of its array, and none reaches 2 ^ 31.
  pub record Fits : Type 0 where
    pub rows : (x : ℕ) → (1 ≤ (t.shard_ptrs x).num_rows) × ((t.shard_ptrs x).num_rows < 2 ^ 31)
    pub lists :
        (x v : ℕ)
        → let adj = adj_list_vid (t.shard_ptrs x) v in
          (1 ≤ adj.colptr + adj.length) × (adj.colptr + adj.length < 2 ^ 31)

  -- `load_list` writes four values that do not hang on the block.
  abbrev pub set_list : ℕ → ℕ → ℕ → ℕ → Memory → Block → Block
  set_list i gap lo hi arr b = record b {
    flip24_arrs = update b.flip24_arrs (e_id_of i) arr;
    vid_gap = update b.vid_gap i gap;
    min_iter_per_shard = update2 b.min_iter_per_shard dep (e_id_of i) lo;
    max_iter_per_shard = update2 b.max_iter_per_shard dep (e_id_of i) hi;
    vid_gap_idx = update b.vid_gap_idx i (offset t dep match_vid num_join_shards i);
  }

  pub load_list-set_list :
      (rslt : ℕ → ℕ) (i : ℕ)
      → (gap : ℕ) × (lo : ℕ) × (hi : ℕ) × (arr : Memory) × (Fits → hi + 256 < 2 ^ 32)
        × ((b : Block)
            → load_list t dep match_vid num_join_shards rslt i b ≡ set_list i gap lo hi arr b)
  unfolding load_list
  load_list-set_list rslt i =
      let k = offset t dep match_vid num_join_shards i in
      let shard = t.shard_ptrs (t.shard_idxs k) in
      let adj = adj_list_vid shard (rslt (t.lv0_dep (t.eids k - t.num_query_edges))) in
      elim (Bool-cases (ltb (t.eids k) t.num_query_edges)) [
        | inl out ↦ (
          shard.num_rows,
          0,
          sub32 shard.num_rows 1,
          seek shard.bytes shard.rowv,
          λ f. let r = f.rows (t.shard_idxs k) in omega (arith, r.0, r.1),
          λ b. rw out refl,
        )
        | inr back ↦ (
          adj.length,
          adj.colptr,
          sub32 (add32 adj.colptr adj.length) 1,
          seek shard.bytes adj.colv,
          λ f.
              let r = f.lists (t.shard_idxs k) (rslt (t.lv0_dep (t.eids k - t.num_query_edges))) in
              omega (arith, r.0, r.1),
          λ b. rw back refl,
        )
      ]

  set_list-Agree :
      (i gap lo hi : ℕ) (arr : Memory) (b c : Block)
      → Agree i b c
      → Agree (i + 1) (set_list i gap lo hi arr b) (set_list i gap lo hi arr c)
  set_list-Agree i gap lo hi arr b c h = record {
    gap = λ k lt. ground (arith, h.gap k);
    idx = λ k lt. ground (arith, h.idx k);
    ranges = record {
      lower = λ k lt. elim (Bool-cases (e_id_of k == e_id_of i)) [
        | inl at ↦ ground arith
        | inr other ↦ ground (arith, h.ranges.lower k (differs i k lt other))
      ];
      upper = λ k lt. elim (Bool-cases (e_id_of k == e_id_of i)) [
        | inl at ↦ ground arith
        | inr other ↦ ground (arith, h.ranges.upper k (differs i k lt other))
      ];
      arrays = λ k lt. elim (Bool-cases (e_id_of k == e_id_of i)) [
        | inl at ↦ rw at refl
        | inr other ↦ rw other (h.ranges.arrays k (differs i k lt other))
      ];
    };
  }

  pub load_lists-Agree :
      (rslt : ℕ → ℕ) (i n : ℕ) (b c : Block)
      → Agree i b c
      → Agree
          (i + n)
          (load_lists t dep match_vid num_join_shards rslt i n b)
          (load_lists t dep match_vid num_join_shards rslt i n c)
  unfolding load_lists
  load_lists-Agree rslt i zero b c h = subst (λ m. Agree m b c) (omega arith) h
  load_lists-Agree rslt i (suc n) b c h =
      let (gap, lo, hi, arr, _, same) = load_list-set_list rslt i in
      let b' = load_list t dep match_vid num_join_shards rslt i b in
      let c' = load_list t dep match_vid num_join_shards rslt i c in
      let h' : Agree (i + 1) b' c' = rw (same b, same c) (set_list-Agree i gap lo hi arr b c h) in
      subst
        (λ m.
          Agree m (load_lists t dep match_vid num_join_shards rslt (i + 1) n b')
            (load_lists t dep match_vid num_join_shards rslt (i + 1) n c'))
        (omega arith) (load_lists-Agree rslt (i + 1) n b' c' h')

  -- The lists hang on the vertices that are matched above the depth only.
  pub load_lists-cong :
      (r r' : ℕ → ℕ) (i n : ℕ) (b : Block)
      → ((k : ℕ)
          → k < i + n
          → t.num_query_edges ≤ e_id_of k
          → r (t.lv0_dep (e_id_of k - t.num_query_edges))
            ≡ r' (t.lv0_dep (e_id_of k - t.num_query_edges)))
      → load_lists t dep match_vid num_join_shards r i n b
        ≡ load_lists t dep match_vid num_join_shards r' i n b
  unfolding load_lists load_list
  load_lists-cong r r' i zero b h = refl
  load_lists-cong r r' i (suc n) b h =
      let here : load_list t dep match_vid num_join_shards r i b
          ≡ load_list t dep match_vid num_join_shards r' i b =
        elim (Bool-cases (ltb (e_id_of i) t.num_query_edges)) [
          | inl out ↦ rw out refl
          | inr back ↦ rw (back, h i (omega arith) (ground arith)) refl
        ] in
      ap (load_lists t dep match_vid num_join_shards r (i + 1) n) here
      ∙ load_lists-cong r r' (i + 1) n _ (λ k lt. h k (omega (arith, lt)))

  keep_shorter-Agree :
      (m i : ℕ) (b c : Block)
      → 0 < m
      → i < m
      → Agree m b c
      → Agree m
          (keep_shorter t dep match_vid num_join_shards i b)
          (keep_shorter t dep match_vid num_join_shards i c)
  unfolding keep_shorter
  keep_shorter-Agree m i b c pos lt h =
      let here = h.gap i lt in
      let first = h.gap 0 pos in
      elim (Bool-cases (ltb (c.vid_gap i) (c.vid_gap 0))) [
        | inl shorter ↦
            rw (here, first, shorter)
              (record {
                gap = λ k lk. ground (arith, h.gap k);
                idx = λ k lk. ground (arith, h.idx k, h.idx i lt);
                ranges = record {
                  lower = h.ranges.lower;
                  upper = h.ranges.upper;
                  arrays = h.ranges.arrays;
                };
              })
        | inr longer ↦ rw (here, first, longer) h
      ]

  pub select_pivot-Agree :
      (m i n : ℕ) (b c : Block)
      → 0 < m
      → i + n ≤ m
      → Agree m b c
      → Agree m
          (select_pivot t dep match_vid num_join_shards i n b)
          (select_pivot t dep match_vid num_join_shards i n c)
  unfolding select_pivot
  select_pivot-Agree m i zero b c pos le h = h
  select_pivot-Agree m i (suc n) b c pos le h =
      select_pivot-Agree m (i + 1) n _ _ pos (omega (arith, le))
        (keep_shorter-Agree m i b c pos (omega (arith, le)) h)

  -- A vertex passes for both blocks, or for none.
  pub intersects-Ranges :
      (m : ℕ) (b c : Block) (pivot v_id i n : ℕ)
      → i + n ≤ m
      → Ranges m b c
      → intersects t dep match_vid num_join_shards b pivot v_id i n
        ≡ intersects t dep match_vid num_join_shards c pivot v_id i n
  unfolding intersects
  intersects-Ranges m b c pivot v_id i zero le h = refl
  intersects-Ranges m b c pivot v_id i (suc n) le h =
      rw
        (
          h.arrays i (omega (arith, le)),
          h.lower i (omega (arith, le)),
          h.upper i (omega (arith, le)),
          intersects-Ranges m b c pivot v_id (i + 1) n (omega (arith, le)) h,
        )
        refl
