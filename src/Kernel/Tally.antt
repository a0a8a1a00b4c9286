-- ===== src/Kernel/Tally.antt =====
-- What the branch of the last query vertex counts, in source/cuMatch/LFTJ_kernel_basic.cu.
use cu_match.Prelude.{
  ℕ, ◌+◌, ◌≤◌, ◌<◌, ◌≡◌, ◌≢◌, ◌↔◌, refl, ap, ◌∙◌, Bool, ◌==◌, ==_iff, List, [], ◌∷◌, length, count,
  mem_of_count, count_of_mem, if◌then◌else◌, update, arith, Bool-cases, inl, inr,
}
use mathlib.Core.List.{Memᴰ}
use cu_match.Flip24.{read_element}
use cu_match.Kernel.{Task, Block, intersects, count_matches}
use cu_match.Kernel.Intersect.{IsList, InLists, intersects_iff, intersects-store}
use cu_match.Kernel.Rounds.{IsSchedule}

module _ (t : Task) (dep match_vid num_join_shards pivot : ℕ) where
  -- Does the vertex at the index of the pivot list pass?
  abbrev hit : Block → ℕ → Bool
  hit b i =
      intersects t dep match_vid num_join_shards b pivot
        (read_element (b.flip24_arrs (t.eids pivot)) i) 0 num_join_shards

  abbrev hits : Block → List ℕ → List ℕ
  hits b [] = []
  hits b (i ∷ is) = let rest = hits b is in if hit b i then i ∷ rest else rest

  abbrev sized : Block → ℕ → Block
  sized b n = record b { im_size = update b.im_size dep n }

  hit-sized : (b : Block) (n i : ℕ) → hit (sized b n) i ≡ hit b i
  hit-sized b n i =
      intersects-store t dep match_vid num_join_shards b pivot
        (read_element (b.flip24_arrs (t.eids pivot)) i) 0 num_join_shards (update b.im_size dep n)
        b.im_data

  hits-sized : (b : Block) (n : ℕ) (is : List ℕ) → hits (sized b n) is ≡ hits b is
  hits-sized b n [] = refl
  hits-sized b n (i ∷ is) = rw (hit-sized b n i, hits-sized b n is) refl

  count_matches-hits :
      (is : List ℕ) (b : Block)
      → (count_matches t dep match_vid num_join_shards pivot is b).im_size dep
        ≡ b.im_size dep + length (hits b is)
  unfolding count_matches
  count_matches-hits [] b = omega arith
  count_matches-hits (i ∷ is) b = elim (Bool-cases (hit b i)) [
    | inl pass ↦
        let c = sized b (b.im_size dep + 1) in
        let here : c.im_size dep ≡ b.im_size dep + 1 = ground arith in
        let rest = count_matches-hits is c in
        rw (pass, count_matches)
          (rest ∙ rw (here, hits-sized b (b.im_size dep + 1) is) (omega arith))
    | inr fail ↦ rw (fail, count_matches) (count_matches-hits is b)
  ]

  count-hits :
      (b : Block) (k : ℕ) (is : List ℕ) → count k (hits b is) ≡ (if hit b k then count k is else 0)
  count-hits b k [] = ground arith
  count-hits b k (i ∷ is) =
      let rest = count-hits b k is in
      elim (Bool-cases (i == k)) [
        | inl same ↦
            let e = (==_iff i k).0 same in
            let at : hit b i ≡ hit b k = ap (hit b) e in
            elim (Bool-cases (hit b k)) [
              | inl pass ↦ rw (at, pass, same) (ground (arith, rest, pass))
              | inr fail ↦ rw (at, fail) (rest ∙ rw fail refl)
            ]
        | inr other ↦ elim (Bool-cases (hit b i)) [
          | inl pass ↦ rw (pass, other) (ground (arith, rest))
          | inr fail ↦ rw (fail, other) (rest ∙ ground arith)
        ]
      ]

  -- At the last query vertex, the counter of the depth grows by the number of the indices of the
  -- pivot list whose vertices stand in each of the other joined lists, each index counted once. The
  -- other lists are sorted, not empty, and end below 2 ^ 31, and the threads take each index once,
  -- in any order.
  pub count_matches_covers :
      (schedule : ℕ → ℕ → List ℕ) (lo hi : ℕ) (b : Block)
      → IsSchedule schedule
      → ((k : ℕ)
          → k < num_join_shards
          → t.prefix_sum_degree match_vid + k ≢ pivot
          → IsList b dep (t.eids (t.prefix_sum_degree match_vid + k)))
      → (r : List ℕ) × ((count_matches t dep match_vid num_join_shards pivot
              (schedule lo hi)
              b).im_size
            dep
          ≡ b.im_size dep + length r)
        × ((i : ℕ) → count i r ≤ 1)
        × ((i : ℕ)
            → Memᴰ i r ↔ (
                (lo ≤ i)
                × (i ≤ hi)
                × InLists t dep match_vid num_join_shards b pivot
                    (read_element (b.flip24_arrs (t.eids pivot)) i)
                    0
                    num_join_shards))
  count_matches_covers schedule lo hi b order lists =
      let is = schedule lo hi in
      let times =
        λ (i : ℕ). count-hits b i is ∙ ap (λ n. if hit b i then n else 0) (order.once lo hi i) in
      (
        hits b is,
        count_matches-hits is b,
        λ i. let e = times i in ground (arith, e),
        λ i.
            let (sound, full) =
              intersects_iff t dep match_vid num_join_shards b pivot
                (read_element (b.flip24_arrs (t.eids pivot)) i) 0 num_join_shards
                (λ k p q. lists k (omega (arith, q))) in
            let e = times i in
            (
              λ m.
                  let pos = count_of_mem i (hits b is) m in
                  (ground (arith, e, pos), ground (arith, e, pos), sound (ground (arith, e, pos))),
              λ (p, q, l).
                  let pass = full l in mem_of_count i (hits b is) (ground (arith, e, pass)),
            ),
      )
