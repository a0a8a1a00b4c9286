-- ===== src/Optional/Kernels.antt =====
-- What the kernel of source/cuMatch/LFTJ_kernel_optional.cu counts above an optional last vertex.
use cu_match.Prelude.{ℕ, ◌+◌, ◌-◌, ◌≡◌, List, length, update, get_or}
use cu_match.KernelLoop.{TreeTask, child_num}
use cu_match.KernelLoop.Basic.{JoinInfo}
use cu_match.KernelLoop.Spec.{IsTree, shards_at, sum_below}
use cu_match.Optional.{OptionalInfo, optional_joins}
use cu_match.Optional.Loop.{OptionalMachine}
use cu_match.Optional.Slots.{OptionalSteps, at_least_one}
use cu_match.Optional.Buffers.{Buffered}
use cu_match.Optional.Outer.{outer_join}
use cu_match.Optional.Last.{IsOptional, last_matches, optional-CountsLast}

module _ (t : TreeTask) (info : JoinInfo) (opt : OptionalInfo) (schedule : ℕ → ℕ → List ℕ)
    (block_idx : ℕ) (h : IsOptional t info opt) where
  -- The machine stands at a node above the last depth, with this buffer and so many vertices left
  abbrev pub StandsAt : ℕ → ℕ → List ℕ → (ℕ → ℕ) → ℕ → ℕ → OptionalMachine → Type 0
  StandsAt d node c rslt n i o =
      Buffered (optional_joins t info opt schedule block_idx) t opt.is_optional_vertex
        (last_matches t info opt schedule block_idx h)
        (optional-CountsLast t info opt schedule block_idx h) d node c rslt n i o

  -- The loop with its own intersection functions, above an optional last vertex: from a buffer `c`
  -- at depth `d`, whose vertices are flagged to have found none, it goes through the buffer once for
  -- each child of the node, which is that of a tree. The buffer has at most 32 vertices, and no flag
  -- behind a row is read or written. Then the buffer is used up for the last child,
  -- and the counter has grown as an outer join has it: for each vertex of the buffer by the matches
  -- of the last vertex over all children, or by one where there are none. The matches are those
  -- that the intersection finds from a blank block. Each list has an edge id of its own, the lists
  -- of a query vertex, one at least, are those of no other and hang on the vertices above it, no
  -- list is empty at the very start of its array, and no array has 2 ^ 31 elements.
  pub optional-outer_join :
      (d node : ℕ) (c : List ℕ) (rslt : ℕ → ℕ) (o : OptionalMachine)
      → d + 2 ≡ t.num_query_vertices
      → IsTree (optional_joins t info opt schedule block_idx) t 1 node
      → StandsAt d node c rslt (length c) 0 o
      → (o' : OptionalMachine) × OptionalSteps
          (optional_joins t info opt schedule block_idx)
          t
          opt.is_optional_vertex
          o
          o'
        × StandsAt d node c rslt 0
            (child_num (optional_joins t info opt schedule block_idx) t node - 1)
            o'
        × (o'.machine.counter
            ≡ o.machine.counter
              + sum_below (length c) (λ x. at_least_one (
                  sum_below (child_num (optional_joins t info opt schedule block_idx) t node) (λ i.
                    last_matches t info opt schedule block_idx h
                      (shards_at (optional_joins t info opt schedule block_idx) t node i)
                      (update rslt d (get_or c x 0))))))
  optional-outer_join d node c rslt o e tree stands =
      outer_join (optional_joins t info opt schedule block_idx) t opt.is_optional_vertex
        (last_matches t info opt schedule block_idx h)
        (optional-CountsLast t info opt schedule block_idx h) d node c rslt o e h.small tree stands
