-- ===== src/KernelLoop/Basic/Kernels.antt =====
-- What one block of the kernel of source/cuMatch/LFTJ_kernel_basic.cu counts.
use cu_match.Prelude.{ℕ, suc, ◌≤◌, ◌≡◌, some, List}
use cu_match.Kernel.{Block}
use cu_match.KernelLoop.{TreeTask, kernel}
use cu_match.KernelLoop.Spec.{roots_total, AreRoots}
use cu_match.KernelLoop.Totals.{kernel-roots_total}
use cu_match.KernelLoop.Basic.{JoinInfo, basic, basic_finds}
use cu_match.KernelLoop.Basic.Keep.{Bounded}
use cu_match.KernelLoop.Basic.Openings.{IsBasic}
use cu_match.KernelLoop.Basic.Laws.{basic-IsJoin}

module _ (t : TreeTask) (info : JoinInfo) (schedule : ℕ → ℕ → List ℕ) (block_idx : ℕ) where
  -- The kernel with its own two intersection functions ends, from some amount of fuel on, and adds to
  -- the counter the matches below its roots, as the recursion over the depths counts them with the
  -- buffers that the intersections make of a blank block: what the shared arrays hold at the start
  -- does not matter, but for the upper ends, which stay 256 below 2 ^ 32. The order in which the
  -- threads take the indices is any. Each root is that of a tree, and its shards are those of its
  -- first child; the edge ids of the lists are distinct, the lists of a query vertex, one at least,
  -- are those of no other and hang on the vertices above it, no list is empty at the very start of
  -- its array, and no array has 2 ^ 31 elements.
  pub kernel-basic :
      (k : ℕ) (b : Block)
      → IsBasic t info
      → suc (suc k) ≡ t.num_query_vertices
      → Bounded b
      → AreRoots (basic t info schedule block_idx) t k 0 t.tree_root_ids
      → (fuel : ℕ) × ((n : ℕ)
          → fuel ≤ n
          → kernel (basic t info schedule block_idx) t n b
            ≡ some (
                roots_total
                  (basic t info schedule block_idx)
                  t
                  (basic_finds t info schedule block_idx)
                  k
                  0
                  t.tree_root_ids))
  unfolding basic-IsJoin
  kernel-basic k b h e good trees =
      kernel-roots_total (basic t info schedule block_idx) t (basic_finds t info schedule block_idx)
        (basic-IsJoin t info schedule block_idx h) k b e h.small good trees
