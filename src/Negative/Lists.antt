-- ===== src/Negative/Lists.antt =====
-- The test of a vertex in source/cuMatch/LFTJ_kernel_negative.cu against the lists that it joins.
use cu_match.Prelude.{
  ℕ, zero, suc, ◌+◌, ◌≤◌, ◌<◌, ◌≡◌, ◌≢◌, ◌⊎◌, ◌↔◌, inl, inr, refl, sym, ◌^◌, true, false, ◌==◌,
  arith, Bool-cases, ==_iff,
}
use mathlib.Core.Path.{subst}
use cu_match.Search.{lower_bound_on_flip24_array}
use cu_match.Kernel.{Task, Block, add32}
use cu_match.Kernel.Intersect.{IsList, InList, found_iff}
use cu_match.Negative.{NegativeInfo, is_negative, test_edge, test_edges}

range_suc :
    (P : ℕ → Type 0) (j n : ℕ)
    → ((k : ℕ) → j ≤ k → k < j + suc n → P k) ↔ (P j × ((k : ℕ) → j + 1 ≤ k → k < j + 1 + n → P k))
range_suc P j n = (
  λ h. (h j (omega arith) (omega arith), λ k p q. h k (omega (arith, p)) (omega (arith, q))),
  λ (first, rest) k p q. elim (Bool-cases (k == j)) [
    | inl same ↦ subst P (sym ((==_iff k j).0 same)) first
    | inr other ↦ rest k (ground (arith, p)) (omega (arith, q))
  ],
)

module _ (t : Task) (info : NegativeInfo) (dep match_vid num_join_shards : ℕ) where
  abbrev pub offset : ℕ → ℕ
  offset k = t.prefix_sum_degree match_vid + k

  -- A list is sorted and not empty; that of a negative edge may be empty, too.
  abbrev pub IsTestable : Block → ℕ → Type 0
  IsTestable b k =
      IsList b dep (t.eids (offset k))
      ⊎ ((is_negative (info.edge_type_list (offset k)) ≡ true)
          × (b.min_iter_per_shard dep (t.eids (offset k))
              ≡ b.max_iter_per_shard dep (t.eids (offset k)) + 1)
          × (b.max_iter_per_shard dep (t.eids (offset k)) < 2 ^ 31))

  -- The vertex has the edge if it is regular, and does not have it if it is negative.
  abbrev pub IsFitting : Block → ℕ → ℕ → Type 0
  IsFitting b k v_id =
      ((is_negative (info.edge_type_list (offset k)) ≡ false
          → InList b dep (t.eids (offset k)) v_id)
        × (is_negative (info.edge_type_list (offset k)) ≡ true
            → ¬ (InList b dep (t.eids (offset k)) v_id)))

  test_edge_iff :
      (b : Block) (k v_id : ℕ)
      → IsTestable b k
      → (test_edge t info dep match_vid num_join_shards b v_id (offset k) true ≡ true)
        ↔ IsFitting b k v_id
  unfolding test_edge
  test_edge_iff b k v_id (inl h) =
      let (sound, full) = found_iff t dep match_vid num_join_shards b (t.eids (offset k)) v_id h in
      let rising = h.nonempty in
      let below = h.bounded in
      let apart : (b.min_iter_per_shard dep (t.eids (offset k))
            == add32 (b.max_iter_per_shard dep (t.eids (offset k))) 1)
          ≡ false =
        ground (arith, rising, below) in
      elim (Bool-cases (is_negative (info.edge_type_list (offset k)))) [
        | inl neg ↦
            rw (neg, apart)
              (
                λ p. (λ e. absurd (ground arith), λ e m. let f = full m in absurd (ground arith)),
                λ (_, q).
                    elim (Bool-cases
                      (lower_bound_on_flip24_array (b.flip24_arrs (t.eids (offset k))) v_id
                        (b.min_iter_per_shard dep (t.eids (offset k)))
                        (add32 (b.max_iter_per_shard dep (t.eids (offset k))) 1)).0) [
                          | inl hit ↦ absurd (q refl (sound hit))
                          | inr miss ↦ rw miss refl
                        ],
              )
        | inr pos ↦
            rw pos (λ p. (λ e. sound p, λ e. absurd (ground arith)), λ (q, _). full (q refl))
      ]
  test_edge_iff b k v_id (inr (neg, e, below)) =
      let empty : (b.min_iter_per_shard dep (t.eids (offset k))
            == add32 (b.max_iter_per_shard dep (t.eids (offset k))) 1)
          ≡ true =
        ground (arith, e, below) in
      rw (neg, empty)
        (
          λ p. (λ z. absurd (ground arith), λ z (i, p', q', r). absurd (omega (arith, e, p', q'))),
          λ q. refl,
        )

  -- What a vertex must satisfy for the lists from the `j`-th on
  abbrev pub AreFitting : Block → ℕ → ℕ → ℕ → ℕ → Type 0
  AreFitting b pivot v_id j n = (k : ℕ) → j ≤ k → k < j + n → offset k ≢ pivot → IsFitting b k v_id

  -- A vertex passes exactly if each joined list but the pivot that belongs to a regular edge holds it,
  -- and none that belongs to a negative edge does. The lists are sorted, end below 2 ^ 31, and only
  -- those of negative edges may be empty.
  pub test_edges_iff :
      (b : Block) (pivot v_id j n : ℕ)
      → ((k : ℕ) → j ≤ k → k < j + n → offset k ≢ pivot → IsTestable b k)
      → (test_edges t info dep match_vid num_join_shards b pivot v_id true j n ≡ true)
        ↔ AreFitting b pivot v_id j n
  unfolding test_edges
  test_edges_iff b pivot v_id j zero h = (λ _ k p q. absurd (omega (arith, p, q)), λ _. refl)
  test_edges_iff b pivot v_id j (suc n) h =
      let (split, join) = range_suc (λ k. offset k ≢ pivot → IsFitting b k v_id) j n in
      let (h_first, h_rest) = (range_suc (λ k. offset k ≢ pivot → IsTestable b k) j n).0 h in
      let (sound, full) = test_edges_iff b pivot v_id (j + 1) n h_rest in
      elim (Bool-cases (offset j == pivot)) [
        | inl same ↦
            let e = (==_iff (offset j) pivot).0 same in
            rw same (λ p. join (λ ne. absurd (ne e), sound p), λ q. full (split q).1)
        | inr other ↦
            let ne : offset j ≢ pivot = ground arith in
            let (fits, fits_back) = test_edge_iff b j v_id (h_first ne) in
            elim (Bool-cases
              (test_edge t info dep match_vid num_join_shards b v_id (offset j) true)) [
                | inl pass ↦
                    rw (other, pass) (λ p. join (λ _. fits pass, sound p), λ q. full (split q).1)
                | inr fail ↦
                    rw (other, fail)
                      (
                        λ p. absurd (ground (arith, p)),
                        λ q. let pass = fits_back ((split q).0 ne) in absurd (ground arith),
                      )
              ]
      ]
