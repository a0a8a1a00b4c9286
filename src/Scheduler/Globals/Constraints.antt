-- ===== src/Scheduler/Globals/Constraints.antt =====
-- The arrays of constraints that source/cuMatch/lgf_scheduler.cpp makes for the kernels.
use cu_match.Prelude.{
  ℕ, zero, suc, ◌+◌, ◌<◌, ◌≤◌, ◌≡◌, refl, ap, sym, ◌∙◌, List, [], ◌∷◌, ◌++◌, length, ltb, ◌==◌,
  ◌&&◌, if◌then◌else◌, min, update, get_or, arith, Bool-cases, inl, inr, ==_iff,
}
use mathlib.Core.Path.{subst}
use native.Mathlib.Numerals.{unary_clauses}
use mathlib.Core.List.{append_assoc, append-nil}
use cu_match.QueryGraph.{ConstraintInfo}
use cu_match.Scheduler.Globals.{
  is_not_equal, add_constraint, const_adj, ConstraintArrays, no_arrays, store_constraints,
  layout_constraints, init_constraints,
}

-- The end of a constraint that the matching order has later
abbrev pub later_end : (ℕ → ℕ) → ConstraintInfo → ℕ
later_end rank c = if ltb (rank c.v1_id) (rank c.v2_id) then c.v2_id else c.v1_id

-- The ranks of the earlier ends of the inequalities whose later end is `v`
abbrev pub partners : (ℕ → ℕ) → ℕ → List ConstraintInfo → List ℕ
partners rank v [] = []
partners rank v (c ∷ cs) =
    let rest = partners rank v cs in
    if is_not_equal c.c_type && later_end rank c == v
    then min (rank c.v1_id) (rank c.v2_id) ∷ rest
    else rest

const_adj-partners :
    (rank : ℕ → ℕ) (cs : List ConstraintInfo) (adj : ℕ → List ℕ) (v : ℕ)
    → const_adj rank cs adj v ≡ adj v ++ partners rank v cs
const_adj-partners rank [] adj v = sym (append-nil (adj v))
const_adj-partners rank (c ∷ cs) adj v =
    const_adj-partners rank cs (add_constraint rank c adj) v
    ∙ let rest = partners rank v cs in
      ground (
        arith,
        append_assoc (adj v) (rank c.v1_id ∷ []) rest,
        append_assoc (adj v) (rank c.v2_id ∷ []) rest,
      )

-- Where the part of a vertex starts
abbrev start_of : (ℕ → List ℕ) → ℕ → ℕ
start_of adj zero = 0
start_of adj (suc i) = start_of adj i + length (adj i)

start_of-suc : (adj : ℕ → List ℕ) (i : ℕ) → start_of adj (i + 1) ≡ start_of adj i + length (adj i)
start_of-suc adj i = simp unary_clauses refl

start_of-le :
    (adj : ℕ → List ℕ) (m i : ℕ) → i < m → start_of adj i + length (adj i) ≤ start_of adj m
start_of-le adj zero i h = absurd (omega arith)
start_of-le adj (suc m) i h = elim (Bool-cases (i == m)) [
  | inl last ↦ rw ((==_iff i m).0 last) (omega arith)
  | inr other ↦ let le = start_of-le adj m i (ground arith) in omega (arith, le)
]

start_of-cong :
    (adj adj' : ℕ → List ℕ) (n : ℕ) → ((v : ℕ) → adj v ≡ adj' v) → start_of adj n ≡ start_of adj' n
start_of-cong adj adj' zero h = refl
start_of-cong adj adj' (suc n) h = rw (start_of-cong adj adj' n h, h n) refl

-- A constraint is in one list at most.
partners-one :
    (rank : ℕ → ℕ) (c : ConstraintInfo) (cs : List ConstraintInfo) (n : ℕ)
    → start_of (λ v. partners rank v (c ∷ cs)) n
      ≤ start_of (λ v. partners rank v cs) n + (if ltb (later_end rank c) n then 1 else 0)
partners-one rank c cs zero = omega arith
partners-one rank c cs (suc n) =
    let le = partners-one rank c cs n in
    elim (Bool-cases (is_not_equal c.c_type && later_end rank c == n)) [
      | inl t ↦ ground (arith, le, t)
      | inr f ↦ ground (arith, le, f)
    ]

partners-total :
    (rank : ℕ → ℕ) (cs : List ConstraintInfo) (n : ℕ)
    → start_of (λ v. partners rank v cs) n ≤ length cs
partners-total rank [] zero = omega arith
partners-total rank [] (suc n) = let ih = partners-total rank [] n in omega (arith, ih)
partners-total rank (c ∷ cs) n =
    let le = partners-one rank c cs n in let ih = partners-total rank cs n in ground (arith, le, ih)

store_constraints_lem :
    (rs : List ℕ) (g : ConstraintArrays)
    → ((store_constraints rs g).constraint_ptr ≡ g.constraint_ptr)
      × ((store_constraints rs g).prefix_sum ≡ g.prefix_sum)
      × ((store_constraints rs g).const_idx ≡ g.const_idx + length rs)
      × ((k : ℕ) → k < g.const_idx → (store_constraints rs g).constraints k ≡ g.constraints k)
      × ((j : ℕ)
          → j < length rs
          → (store_constraints rs g).constraints (g.const_idx + j) ≡ get_or rs j 0)
store_constraints_lem [] g = (refl, refl, omega arith, λ k h. refl, λ j h. absurd (omega arith))
store_constraints_lem (r ∷ rs) g =
    let (ptr, sum, idx, old, new) = store_constraints_lem rs (record g {
      constraints = update g.constraints g.const_idx r;
      const_idx = g.const_idx + 1;
    }) in
    (
      ptr,
      sum,
      omega (arith, idx),
      λ k h. let e = old k (omega arith) in ground (arith, e),
      λ j.
          elim j
            as (λ k.
              k < suc (length rs)
              → (store_constraints (r ∷ rs) g).constraints (g.const_idx + k)
                ≡ get_or (r ∷ rs) k 0) [
                  | zero ↦ λ h. let e = old g.const_idx (omega arith) in ground (arith, e)
                  | suc i ↦ λ h. let e = new i (omega (arith, h)) in ground (arith, e)
                ],
    )

-- What the second loop has made of the first `m` vertices
record Laid (adj : ℕ → List ℕ) (m : ℕ) (g : ConstraintArrays) : Type 0 where
  sum : g.prefix_sum ≡ start_of adj m
  idx : g.const_idx ≡ start_of adj m
  ptr : (i : ℕ) → i < m → g.constraint_ptr i ≡ start_of adj i
  slots :
      (i j : ℕ)
      → i < m
      → j < length (adj i)
      → g.constraints (start_of adj i + j) ≡ get_or (adj i) j 0

store_constraints-Laid :
    (adj : ℕ → List ℕ) (m : ℕ) (g : ConstraintArrays)
    → Laid adj m g
    → Laid adj (m + 1) (
        store_constraints (adj m) (record g {
          constraint_ptr = update g.constraint_ptr m g.prefix_sum;
          prefix_sum = g.prefix_sum + length (adj m);
        }))
store_constraints-Laid adj m g f =
    let (ptr, sum, idx, old, new) = store_constraints_lem (adj m) (record g {
      constraint_ptr = update g.constraint_ptr m g.prefix_sum;
      prefix_sum = g.prefix_sum + length (adj m);
    }) in
    let next = start_of-suc adj m in
    record {
      sum = omega (arith, sum, f.sum, next);
      idx = omega (arith, idx, f.idx, next);
      ptr = λ i lt.
          let p = ap (λ h. h i) ptr in
          elim (Bool-cases (i == m)) [
            | inl last ↦ let e = (==_iff i m).0 last in p ∙ rw (last, e) f.sum
            | inr other ↦ p ∙ rw other (f.ptr i (ground arith))
          ];
      slots = λ i j lt h. elim (Bool-cases (i == m)) [
        | inl last ↦ let e = (==_iff i m).0 last in rw (e, ← f.idx) (new j (rw (← e) h))
        | inr other ↦
            let le = start_of-le adj m i (ground arith) in
            old (start_of adj i + j) (omega (arith, le, h, f.idx)) ∙ f.slots i j (ground arith) h
      ];
    }

-- The arrays when the loop is over
record LaidOut (adj : ℕ → List ℕ) (n : ℕ) (g : ConstraintArrays) : Type 0 where
  ptr : (i : ℕ) → i ≤ n → g.constraint_ptr i ≡ start_of adj i
  slots :
      (i j : ℕ)
      → i < n
      → j < length (adj i)
      → g.constraints (start_of adj i + j) ≡ get_or (adj i) j 0

layout_constraints-LaidOut :
    (adj : ℕ → List ℕ) (n i m : ℕ) (g : ConstraintArrays)
    → i + n ≡ m
    → Laid adj i g
    → LaidOut adj m (layout_constraints adj i n g)
unfolding layout_constraints
layout_constraints-LaidOut adj zero i m g e f =
    let same : i ≡ m = omega (arith, e) in
    let last_ptr = update g.constraint_ptr i g.prefix_sum in
    subst (λ k. LaidOut adj k (record g { constraint_ptr = last_ptr })) same
      (record {
        ptr = λ k le. elim (Bool-cases (k == i)) [
          | inl last ↦ let e' = (==_iff k i).0 last in rw (last, e') f.sum
          | inr other ↦ rw other (f.ptr k (ground arith))
        ];
        slots = f.slots;
      })
layout_constraints-LaidOut adj (suc n) i m g e f =
    layout_constraints-LaidOut adj n (i + 1) m _ (omega (arith, e))
      (store_constraints-Laid adj i g f)

init_constraints-LaidOut :
    (rank : ℕ → ℕ) (cs : List ConstraintInfo) (n : ℕ)
    → LaidOut (const_adj rank cs (λ v. [])) n (init_constraints rank cs n)
init_constraints-LaidOut rank cs n =
    layout_constraints-LaidOut (const_adj rank cs (λ v. [])) n 0 n no_arrays (omega arith) (record {
      sum = refl;
      idx = refl;
      ptr = λ i h. absurd (omega arith);
      slots = λ i j h k. absurd (omega arith);
    })

-- For every query vertex `v`, the part of the constraint array between the entries `v` and `v + 1`
-- of `constraint_ptr` is the list, in the order of the constraints, of the ranks that the earlier
-- ends have in the inequalities whose later end is `v`; the first part starts at 0.
pub init_constraints-partners :
    (rank : ℕ → ℕ) (cs : List ConstraintInfo) (n v : ℕ)
    → v < n
    → let g = init_constraints rank cs n in
      let ps = partners rank v cs in
      (g.constraint_ptr 0 ≡ 0)
      × (g.constraint_ptr (v + 1) ≡ g.constraint_ptr v + length ps)
      × ((j : ℕ) → j < length ps → g.constraints (g.constraint_ptr v + j) ≡ get_or ps j 0)
init_constraints-partners rank cs n v lt =
    let adj = const_adj rank cs (λ v. []) in
    let same : adj v ≡ partners rank v cs = const_adj-partners rank cs (λ v. []) v in
    let laid = init_constraints-LaidOut rank cs n in
    let at = laid.ptr v (omega arith) in
    (
      laid.ptr 0 (omega arith),
      laid.ptr (v + 1) (omega arith) ∙ (start_of-suc adj v ∙ rw (at, ← same) refl),
      λ j h. rw (at, ← same) (laid.slots v j lt (rw same h)),
    )

-- The part of every query vertex ends within the array, which is allocated with one entry for each
-- constraint: `constraint_ptr` is at most the number of constraints, at its last entry too.
init_constraints-bound :
    (rank : ℕ → ℕ) (cs : List ConstraintInfo) (n v : ℕ)
    → v ≤ n
    → (init_constraints rank cs n).constraint_ptr v ≤ length cs
init_constraints-bound rank cs n v le =
    let adj = const_adj rank cs (λ v. []) in
    let at = (init_constraints-LaidOut rank cs n).ptr v le in
    let same =
      start_of-cong adj (λ u. partners rank u cs) v (λ u. const_adj-partners rank cs (λ v. []) u) in
    rw (at, same) (partners-total rank cs v)
