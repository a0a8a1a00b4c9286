-- ===== src/Tests/Optionals.antt =====
-- The main loop of source/cuMatch/LFTJ_kernel_optional.cu on a graph of three edges.
use cu_match.Prelude.{ℕ, List, length, ◌+◌, ◌≤◌, ◌≡◌, refl, false, ◌==◌, update, get_or, arith}
use cu_match.KernelLoop.{child_num, init_machine}
use cu_match.KernelLoop.Spec.{IsTree, shards_at, sum_below}
use cu_match.KernelLoop.Basic.{blank}
use cu_match.Optional.{
  OptionalInfo, optional_start, optional_joins, set_intersection_initial_optional, is_direct,
  store_short_chunk,
}
use cu_match.Kernel.{
  select_pivot, load_lists, load_list, store_matches, restrict_to_block, intersects,
}
use cu_match.Optional.Fills.{Refilled, refill_optional-Refilled}
use cu_match.Optional.Loop.{OptionalMachine, refill_optional, step_optional}
use cu_match.Optional.Slots.{OptionalSteps, at_least_one}
use cu_match.Optional.Last.{IsOptional, last_matches}
use cu_match.Optional.Opening.{vertices, opening-outer_join}
use cu_match.Tests.Joins.{in_order, up_from}
use cu_match.Tests.Matches.{one_leaf, one_edge, each_list}

-- The second query vertex is optional.
abbrev second_optional : OptionalInfo
second_optional = record { is_optional_vertex = λ d. d == 1; num_optional_per_vertex = λ v. 0 }

second_optional-IsOptional : IsOptional one_leaf one_edge second_optional
second_optional-IsOptional = record {
  small = omega arith;
  some_vertex = omega arith;
  rows = λ x. (omega arith, omega arith);
  lists = λ x v. each_list v;
  distinct = λ i k e. e;
  some_list = λ d lt. omega (arith, lt);
  apart = λ d e k i ne ld le lk li same. absurd (ne (omega (arith, ld, le, lk, li, same)));
  earlier = λ d k lt lk back. omega (arith, lt, lk, back);
}

one_leaf_tree : IsTree (optional_joins one_leaf one_edge second_optional in_order 0) one_leaf 1 0
one_leaf_tree = (omega arith, λ i lt. (refl, tt, tt))

-- The first buffer of the loop
abbrev at_start : OptionalMachine
at_start = record {
  machine =
      init_machine (optional_joins one_leaf one_edge second_optional in_order 0) one_leaf blank;
  is_null_value = λ d i. false;
  faulted = false;
}

abbrev first_found : List ℕ
first_found =
    let r = optional_start one_leaf one_edge second_optional in_order 0 0 (λ i. 0) (λ d. 0) blank in
    vertices one_leaf one_edge second_optional in_order 0 second_optional-IsOptional 0 r.1 r.0

few_found : length first_found ≡ 1
unfolding optional_start set_intersection_initial_optional in_order is_direct select_pivot
    load_lists load_list store_short_chunk store_matches up_from restrict_to_block intersects
few_found = refl

few : length first_found ≤ 32
few = omega (arith, few_found)

opening-outer_join_example :
    (step_optional
        (optional_joins one_leaf one_edge second_optional in_order 0)
        one_leaf
        (λ d. d == 1)
        at_start
      ≡ step_optional
          (optional_joins one_leaf one_edge second_optional in_order 0)
          one_leaf
          (λ d. d == 1)
          (refill_optional
            (optional_joins one_leaf one_edge second_optional in_order 0)
            one_leaf
            (λ d. d == 1)
            at_start))
    × ((o' : OptionalMachine) × OptionalSteps
          (optional_joins one_leaf one_edge second_optional in_order 0)
          one_leaf
          (λ d. d == 1)
          (refill_optional
            (optional_joins one_leaf one_edge second_optional in_order 0)
            one_leaf
            (λ d. d == 1)
            at_start)
          o'
        × (o'.faulted ≡ false)
        × (o'.machine.block.im_size 0 ≡ 0)
        × (o'.machine.sched_tree_child 0 + 1
            ≡ child_num (optional_joins one_leaf one_edge second_optional in_order 0) one_leaf 0)
        × (o'.machine.counter
            ≡ 0
              + sum_below (length first_found) (λ x. at_least_one (
                  sum_below
                    (child_num
                      (optional_joins one_leaf one_edge second_optional in_order 0)
                      one_leaf
                      0)
                    (λ i.
                      last_matches one_leaf one_edge second_optional in_order 0
                        second_optional-IsOptional
                        (shards_at
                          (optional_joins one_leaf one_edge second_optional in_order 0)
                          one_leaf
                          0
                          i)
                        (update (λ d. 0) 0 (get_or first_found x 0)))))))
opening-outer_join_example =
    opening-outer_join one_leaf one_edge second_optional in_order 0 second_optional-IsOptional
      at_start refl refl refl refl refl refl refl refl one_leaf_tree few

refill_optional-Refilled_example :
    Refilled
      (optional_joins one_leaf one_edge second_optional in_order 0)
      one_leaf
      (λ d. d == 1)
      at_start
      (refill_optional
        (optional_joins one_leaf one_edge second_optional in_order 0)
        one_leaf
        (λ d. d == 1)
        at_start)
refill_optional-Refilled_example =
    refill_optional-Refilled (optional_joins one_leaf one_edge second_optional in_order 0) one_leaf
      (λ d. d == 1) at_start refl
