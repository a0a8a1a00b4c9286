-- ===== src/KernelLoop/Basic/Rounds.antt =====
-- The buffers of a depth, one after the other, in source/cuMatch/LFTJ_kernel_basic.cu.
use cu_match.Prelude.{
  ℕ, zero, suc, ◌+◌, ◌-◌, ◌≤◌, ◌<◌, ◌≡◌, refl, ap, sym, ◌∙◌, Bool, true, false, List, [], ◌∷◌,
  arith, Bool-cases, inl, inr,
}
use cu_match.Kernel.{Task, Block, store_chunk, set_intersection_resume}
use cu_match.Kernel.Rounds.{SameLists, matches_same}
use cu_match.KernelLoop.{TreeTask, is_over}
use cu_match.KernelLoop.Spec.{is_nil}
use cu_match.KernelLoop.Basic.{JoinInfo, task, num_join_shards, proceed, basic, rounds, left_over}
use cu_match.KernelLoop.Basic.Agree.{Ranges}
use cu_match.KernelLoop.Basic.Chunks.{store_chunk-Stored, store_chunk-Ranges, first_indices}
use cu_match.KernelLoop.Basic.Keep.{Bounded, store_chunk-Keeps}

head_or : List ℕ → List (List ℕ) → List ℕ
head_or x [] = x
head_or x (c ∷ cs) = c

tail_of : List (List ℕ) → List (List ℕ)
tail_of [] = []
tail_of (c ∷ cs) = cs

cons_head : {c c' : List ℕ} {cs cs' : List (List ℕ)} → c ∷ cs ≡ c' ∷ cs' → c ≡ c'
unfolding head_or
cons_head e = ap (head_or []) e

cons_tail : {c c' : List ℕ} {cs cs' : List (List ℕ)} → c ∷ cs ≡ c' ∷ cs' → cs ≡ cs'
unfolding tail_of
cons_tail e = ap tail_of e

module _ (t : TreeTask) (info : JoinInfo) (schedule : ℕ → ℕ → List ℕ) (block_idx : ℕ) where
  -- What the function for another buffer full gets of the task
  abbrev pub rest_task : Task
  rest_task = task t info schedule block_idx (λ i. 0)

  abbrev pub joins : ℕ → ℕ
  joins d = num_join_shards info d

  abbrev pub next_block : ℕ → ℕ → Block → Block
  next_block d pivot b = proceed t info schedule block_idx d pivot b

  abbrev pub over : ℕ → ℕ → Block → Bool
  over d pivot b = is_over (basic t info schedule block_idx) t d pivot b

  pub proceed_chunk :
      (d pivot : ℕ) (b : Block)
      → next_block d pivot b
        ≡ store_chunk rest_task d (info.global_order d) (joins d) schedule pivot b
  unfolding proceed set_intersection_resume
  proceed_chunk d pivot b = refl

  rounds-over :
      (n d pivot : ℕ) (b : Block)
      → over d pivot b ≡ true
      → rounds t info schedule block_idx n d pivot b ≡ []
  unfolding rounds
  rounds-over zero d pivot b h = refl
  rounds-over (suc n) d pivot b h = rw h refl

  pub rounds-more :
      (n d pivot : ℕ) (b : Block)
      → over d pivot b ≡ false
      → rounds t info schedule block_idx (suc n) d pivot b
        ≡ (next_block d pivot b).im_data d
          ∷ rounds t info schedule block_idx n d pivot (next_block d pivot b)
  unfolding rounds
  rounds-more n d pivot b h = rw h refl

  -- Blocks that differ in their buffers alone go through the same buffers.
  pub rounds_same :
      (n d pivot : ℕ) (b c : Block)
      → b.flip24_arrs ≡ c.flip24_arrs
      → b.min_iter_per_shard ≡ c.min_iter_per_shard
      → b.max_iter_per_shard ≡ c.max_iter_per_shard
      → rounds t info schedule block_idx n d pivot b ≡ rounds t info schedule block_idx n d pivot c
  unfolding rounds
  rounds_same zero d pivot b c a l u = refl
  rounds_same (suc n) d pivot b c a l u =
      let x = store_chunk-Stored rest_task d (info.global_order d) (joins d) pivot schedule b in
      let y = store_chunk-Stored rest_task d (info.global_order d) (joins d) pivot schedule c in
      let lo = ap (λ (f : ℕ → ℕ → ℕ). f d (t.eids pivot)) l in
      let hi = ap (λ (f : ℕ → ℕ → ℕ). f d (t.eids pivot)) u in
      let lists : SameLists rest_task d (info.global_order d) (joins d) pivot b c = record {
        arrays = a;
        lower = λ k ne.
            ap (λ (f : ℕ → ℕ → ℕ). f d (t.eids (info.prefix_sum_degree (info.global_order d) + k)))
              l;
        upper = u;
      } in
      let data_of =
        x.data_of
        ∙ rw (lo, hi)
            (matches_same rest_task d (info.global_order d) (joins d) b c pivot
              (first_indices rest_task d (info.global_order d) (joins d) pivot schedule c) lists)
        ∙ sym y.data_of in
      let lower = x.lower ∙ rw (lo, l) (sym y.lower) in
      let rest =
        rounds_same n d pivot (next_block d pivot b) (next_block d pivot c)
          (rw (proceed_chunk d pivot b, proceed_chunk d pivot c) (x.arrays ∙ a ∙ sym y.arrays))
          (rw (proceed_chunk d pivot b, proceed_chunk d pivot c) lower)
          (rw (proceed_chunk d pivot b, proceed_chunk d pivot c) (x.upper ∙ u ∙ sym y.upper)) in
      let data_here : (next_block d pivot b).im_data d ≡ (next_block d pivot c).im_data d =
        rw (proceed_chunk d pivot b, proceed_chunk d pivot c) data_of in
      rw (lo, hi, data_here, rest) refl

  abbrev pub AgreeAt : ℕ → Block → Block → Type 0
  AgreeAt d b c = Ranges rest_task d (info.global_order d) (joins d) (joins d) b c

  abbrev pub slot : ℕ → ℕ → ℕ
  slot d p = info.prefix_sum_degree (info.global_order d) + p

  -- Blocks that agree on what is left of the lists of the depth go through the same buffers.
  pub rounds-Ranges :
      (n d p : ℕ) (b c : Block)
      → p < joins d
      → AgreeAt d b c
      → rounds t info schedule block_idx n d (slot d p) b
        ≡ rounds t info schedule block_idx n d (slot d p) c
  unfolding rounds
  rounds-Ranges zero d p b c lt h = refl
  rounds-Ranges (suc n) d p b c lt h =
      let (data_of, after) =
        store_chunk-Ranges rest_task d (info.global_order d) (joins d) p lt schedule b c h in
      let b' = next_block d (slot d p) b in
      let c' = next_block d (slot d p) c in
      let data_here : b'.im_data d ≡ c'.im_data d =
        rw (proceed_chunk d (slot d p) b, proceed_chunk d (slot d p) c) data_of in
      let agree : AgreeAt d b' c' =
        rw (proceed_chunk d (slot d p) b, proceed_chunk d (slot d p) c) after in
      let lo = h.lower p lt in
      let hi = h.upper p lt in rw (lo, hi, data_here, rounds-Ranges n d p b' c' lt agree) refl

  abbrev pub left : ℕ → ℕ → Block → ℕ
  left d pivot b = left_over t info schedule block_idx d pivot b

  pub proceed_bounds :
      (d pivot : ℕ) (b : Block)
      → Bounded b
      → over d pivot b ≡ false
      → left d pivot (next_block d pivot b) < left d pivot b
  proceed_bounds d pivot b bound more =
      let x = store_chunk-Stored rest_task d (info.global_order d) (joins d) pivot schedule b in
      let lower = ap (λ (f : ℕ → ℕ → ℕ). f d (t.eids pivot)) x.lower in
      let upper = ap (λ (f : ℕ → ℕ → ℕ). f d (t.eids pivot)) x.upper in
      let top = bound d (t.eids pivot) in rw (proceed_chunk d pivot b, lower, upper) (ground arith)

  pub proceed-Bounded : (d pivot : ℕ) (b : Block) → Bounded b → Bounded (next_block d pivot b)
  proceed-Bounded d pivot b bound = rw (proceed_chunk d pivot b) (
      (store_chunk-Keeps rest_task d (info.global_order d) (joins d) schedule pivot b).bounded
        bound)

  -- As many rounds as there are indices left are enough.
  rounds_enough :
      (n m d pivot : ℕ) (b : Block)
      → Bounded b
      → left d pivot b ≤ n
      → left d pivot b ≤ m
      → rounds t info schedule block_idx n d pivot b ≡ rounds t info schedule block_idx m d pivot b
  rounds_enough zero m d pivot b bound le le' =
      let done : over d pivot b ≡ true = ground (arith, le) in
      rounds-over zero d pivot b done ∙ sym (rounds-over m d pivot b done)
  rounds_enough (suc n) zero d pivot b bound le le' =
      let done : over d pivot b ≡ true = ground (arith, le') in
      rounds-over (suc n) d pivot b done ∙ sym (rounds-over zero d pivot b done)
  rounds_enough (suc n) (suc m) d pivot b bound le le' = elim (Bool-cases (over d pivot b)) [
    | inl done ↦ rounds-over (suc n) d pivot b done ∙ sym (rounds-over (suc m) d pivot b done)
    | inr more ↦
        let b' = next_block d pivot b in
        let fewer = proceed_bounds d pivot b bound more in
        rounds-more n d pivot b more
        ∙ ap (λ x. b'.im_data d ∷ x)
            (rounds_enough n m d pivot b' (proceed-Bounded d pivot b bound)
              (omega (arith, fewer, le)) (omega (arith, fewer, le')))
        ∙ sym (rounds-more m d pivot b more)
  ]

  -- Is there another buffer? The kernel asks the same.
  pub rounds-is_nil :
      (d pivot : ℕ) (b : Block)
      → is_nil (rounds t info schedule block_idx (left d pivot b) d pivot b) ≡ over d pivot b
  rounds-is_nil d pivot b = elim (Bool-cases (over d pivot b)) [
    | inl done ↦ ap is_nil (rounds-over (left d pivot b) d pivot b done) ∙ sym done
    | inr more ↦
        let n = left d pivot b - 1 in
        let some_left : left d pivot b ≡ suc n = ground arith in
        ap (λ x. is_nil (rounds t info schedule block_idx x d pivot b)) some_left
        ∙ ap is_nil (rounds-more n d pivot b more)
        ∙ sym more
  ]

  -- The next buffer, and those behind it
  pub rounds-next :
      (d pivot : ℕ) (b : Block) (c : List ℕ) (cs : List (List ℕ))
      → Bounded b
      → rounds t info schedule block_idx (left d pivot b) d pivot b ≡ c ∷ cs
      → ((next_block d pivot b).im_data d ≡ c)
        × (rounds t info schedule block_idx
              (left d pivot (next_block d pivot b))
              d
              pivot
              (next_block d pivot b)
            ≡ cs)
  rounds-next d pivot b c cs bound e = elim (Bool-cases (over d pivot b)) [
    | inl done ↦
        let none = ap is_nil (sym (rounds-over (left d pivot b) d pivot b done) ∙ e) in
        absurd (ground arith)
    | inr more ↦
        let n = left d pivot b - 1 in
        let b' = next_block d pivot b in
        let some_left : left d pivot b ≡ suc n = ground arith in
        let fewer = proceed_bounds d pivot b bound more in
        let both =
          sym (rounds-more n d pivot b more)
          ∙ ap (λ x. rounds t info schedule block_idx x d pivot b) (sym some_left)
          ∙ e in
        (
          cons_head both,
          rounds_enough (left d pivot b') n d pivot b' (proceed-Bounded d pivot b bound)
                (omega arith) (omega (arith, fewer))
              ∙ cons_tail both,
        )
  ]
