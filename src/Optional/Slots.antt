-- ===== src/Optional/Slots.antt =====
-- The last depth in the main loop of source/cuMatch/LFTJ_kernel_optional.cu: for each child of a node,
-- the vertices of one buffer are matched in turn, and the matches of the last vertex are counted.
use cu_match.Prelude.{
  ℕ, zero, suc, ◌+◌, ◌<◌, ◌^◌, ◌≡◌, ◌≢◌, refl, Bool, true, false, List, [], ◌==◌, update, arith,
}
use cu_match.Kernel.{Block, sub32}
use cu_match.KernelLoop.{Joins, TreeTask, Machine, use_buffer}
use cu_match.KernelLoop.Spec.{view}
use cu_match.Optional.Loop.{OptionalMachine, count_last_optional, refill_optional, step_optional}

abbrev pub at_least_one : ℕ → ℕ
at_least_one zero = 1
at_least_one (suc n) = suc n

abbrev pub no_rest : ℕ → ℕ → Block → List (List ℕ)
no_rest d pivot b = []

-- What the last depth relies on: the first intersection finds `matches` many vertices, whatever the
-- block holds, and leaves the other depths alone.
pub record CountsLast (j : Joins) (t : TreeTask) (matches : (ℕ → ℕ) → (ℕ → ℕ) → ℕ) : Type 1 where
  pub IsGood : Block → Type 0
  pub IsPivot : ℕ → ℕ → Type 0
  pub resized :
      (b : Block) (d v : ℕ) → IsGood b → IsGood (record b { im_size = update b.im_size d v })
  pub start_last :
      (d : ℕ) (shards rslt : ℕ → ℕ) (b : Block)
      → d + 1 ≡ t.num_query_vertices
      → IsGood b
      → let b' = (j.start d shards rslt b).0 in
        IsGood b'
        × (b'.im_size d ≡ matches shards rslt)
        × ((e q : ℕ) → e ≢ d → IsPivot e q → view j t no_rest e q b' ≡ view j t no_rest e q b)
  pub matches_cong :
      (shards r r' : ℕ → ℕ)
      → ((e : ℕ) → e + 1 < t.num_query_vertices → r e ≡ r' e)
      → matches shards r ≡ matches shards r'

module _ (j : Joins) (t : TreeTask) (is_optional_vertex : ℕ → Bool) where
  -- One machine leads to another without a `break`.
  pub data OptionalSteps (o : OptionalMachine) : OptionalMachine → Type 0 where
    stay : OptionalSteps o o
    and_then :
        {o1 o2 : OptionalMachine}
        → OptionalSteps o o1
        → step_optional j t is_optional_vertex o1 ≡ (o2, false)
        → OptionalSteps o o2

  pub OptionalSteps-trans :
      {o1 o2 o3 : OptionalMachine} → OptionalSteps o1 o2 → OptionalSteps o2 o3 → OptionalSteps o1 o3
  OptionalSteps-trans s stay = s
  OptionalSteps-trans s (and_then r e) = and_then (OptionalSteps-trans s r) e

  -- A step behind a buffer that is not finished
  pub step_buffer :
      (o : OptionalMachine) (m : Machine)
      → t.num_query_vertices < 2 ^ 32
      → o.machine.dep + 1 < t.num_query_vertices
      → o.machine.is_finish o.machine.dep ≡ false
      → use_buffer j t o.machine ≡ (m, false)
      → step_optional j t is_optional_vertex o ≡ (record o { machine = m }, false)
  unfolding step_optional refill_optional
  step_buffer o m small lt going used =
      let inside : (o.machine.dep == sub32 t.num_query_vertices 1) ≡ false = ground arith in
      rw (inside, going, used) refl

  pub step_count :
      (o : OptionalMachine)
      → t.num_query_vertices < 2 ^ 32
      → o.machine.dep + 1 ≡ t.num_query_vertices
      → step_optional j t is_optional_vertex o
        ≡ (count_last_optional j t is_optional_vertex o, false)
  unfolding step_optional
  step_count o small e =
      let at_last : (o.machine.dep == sub32 t.num_query_vertices 1) ≡ true = ground arith in
      rw at_last refl
