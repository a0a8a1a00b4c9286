-- ===== src/KernelLoop/Spec.antt =====
-- What the main loop of source/cuMatch/LFTJ_kernel_basic.cu is to count, as a recursion over the
-- depths, and what it relies on: the tree of the task and the two intersection functions.
use cu_match.Prelude.{
  ℕ, zero, suc, ◌+◌, ◌≤◌, ◌<◌, ◌≡◌, ◌≢◌, ◌⊎◌, Bool, true, false, not, ◌||◌, List, [], ◌∷◌, length,
  update, get_or,
}
use cu_match.Flip24.{Memory, read_element}
use cu_match.Kernel.{Block, IntersectionType, shared_membuf, single, add32, sub32}
use cu_match.KernelLoop.{Joins, TreeTask, is_shared, is_over, child_num}

abbrev pub sum_below : ℕ → (ℕ → ℕ) → ℕ
sum_below zero f = 0
sum_below (suc n) f = f n + sum_below n f

-- `n` summands, from the number `i` on
abbrev pub sum_from : ℕ → ℕ → (ℕ → ℕ) → ℕ
sum_from i zero f = 0
sum_from i (suc n) f = f i + sum_from (i + 1) n f

abbrev pub sum_over : List (List ℕ) → (List ℕ → ℕ) → ℕ
sum_over [] f = 0
sum_over (c ∷ cs) f = f c + sum_over cs f

abbrev pub is_nil : List (List ℕ) → Bool
is_nil [] = true
is_nil (c ∷ cs) = false

-- What the intersections find: the buffers that a depth goes through for the shards of a subtask and
-- the vertices that are matched so far, and the number of matches at the last depth.
pub record Finds : Type 0 where
  pub first : ℕ → (ℕ → ℕ) → (ℕ → ℕ) → List ℕ
  pub later : ℕ → (ℕ → ℕ) → (ℕ → ℕ) → List (List ℕ)
  pub matches : (ℕ → ℕ) → (ℕ → ℕ) → ℕ

module _ (j : Joins) (t : TreeTask) where
  -- The child of a node with the number `i`
  abbrev pub child : ℕ → ℕ → ℕ
  child node i = t.sched_tree_nxt_id (t.sched_tree_ptr node + i)

  -- The shards of the subtask that goes with it
  abbrev pub shards_at : ℕ → ℕ → ℕ → ℕ
  shards_at node i = t.shard_idx_list (t.sched_tree_st_id (t.sched_tree_ptr node + i))

  module _ (f : Finds) where
    -- The matches below a node, `k` depths above the last
    unfoldable pub total : ℕ → ℕ → ℕ → (ℕ → ℕ) → (ℕ → ℕ) → ℕ
    total zero d node shards rslt = f.matches shards rslt
    total (suc k) d node shards rslt =
        sum_over (f.first d shards rslt ∷ f.later d shards rslt) (λ c.
          sum_from 0 (child_num j t node) (λ i. sum_below (length c) (λ x.
            total k (d + 1) (child node i) (shards_at node i) (update rslt d (get_or c x 0)))))

    -- What the roots from the number `st_idx` on are to count
    abbrev pub roots_total : ℕ → ℕ → List ℕ → ℕ
    roots_total k st_idx [] = 0
    roots_total k st_idx (root ∷ roots) =
        total (suc k) 0 root (t.shard_idx_list (t.sched_tree_st_id st_idx)) (λ d. 0)
        + roots_total k (st_idx + 1) roots

  -- A node that has children comes with the shards of its first child.
  abbrev pub IsEntered : ℕ → ℕ → (ℕ → ℕ) → Type 0
  IsEntered zero node shards = Unit
  IsEntered (suc k) node shards = shards ≡ shards_at node 0

  -- Below a node, each node but the last has children, whose parent it is.
  abbrev pub IsTree : ℕ → ℕ → Type 0
  IsTree zero node = Unit
  IsTree (suc k) node =
      (1 ≤ child_num j t node)
      × ((i : ℕ)
          → i < child_num j t node
          → (t.sched_tree_prv_id (sub32 (child node i) 1) ≡ node)
            × IsEntered k (child node i) (shards_at node i)
            × IsTree k (child node i))

  -- Each root is the root of a tree, and its subtask is that of its first child.
  abbrev pub AreRoots : ℕ → ℕ → List ℕ → Type 0
  AreRoots k st_idx [] = Unit
  AreRoots k st_idx (root ∷ roots) =
      IsTree (suc k) root
      × (t.shard_idx_list (t.sched_tree_st_id st_idx) ≡ shards_at root 0)
      × AreRoots k (st_idx + 1) roots

  -- What the loop sees of a depth whose pivot is `pivot`: `pending` are the buffers still to come.
  abbrev pub View : Type 0
  View = ℕ × IntersectionType × List ℕ × ℕ × Memory × List (List ℕ)

  abbrev pub view : (ℕ → ℕ → Block → List (List ℕ)) → ℕ → ℕ → Block → View
  view pending d pivot b = (
    b.im_size d,
    b.is_type d,
    b.im_data d,
    b.min_iter_per_shard d (t.eids pivot),
    b.flip24_arrs (t.eids pivot),
    pending d pivot b,
  )

  -- The buffer of a depth, as the loop sees it, holds these vertices.
  abbrev pub Shows : View → List ℕ → Type 0
  Shows x c =
      ((x.1 ≡ shared_membuf) × (x.2 ≡ c))
      ⊎ ((x.1 ≡ single) × ((i : ℕ) → i < length c → read_element x.4 (add32 x.3 i) ≡ get_or c i 0))

  -- The intersection functions, with the invariant that they keep, fill the buffers one after the
  -- other, and leave what the loop sees of the other depths.
  pub record IsJoin (f : Finds) : Type 1 where
    pub IsGood : Block → Type 0
    pub IsPivot : ℕ → ℕ → Type 0
    pub pending : ℕ → ℕ → Block → List (List ℕ)
    pub resized :
        (b : Block) (d v : ℕ) → IsGood b → IsGood (record b { im_size = update b.im_size d v })
    pub pending_resized :
        (b : Block) (d v e pivot : ℕ)
        → pending e pivot (record b { im_size = update b.im_size d v }) ≡ pending e pivot b
    pub start_first :
        (d : ℕ) (shards rslt : ℕ → ℕ) (b : Block)
        → d + 1 < t.num_query_vertices
        → IsGood b
        → let b' = (j.start d shards rslt b).0 in
          let pivot = (j.start d shards rslt b).1 in
          IsGood b'
          × IsPivot d pivot
          × Shows (view pending d pivot b') (f.first d shards rslt)
          × (b'.im_size d ≡ length (f.first d shards rslt))
          × (pending d pivot b' ≡ f.later d shards rslt)
          × ((not (is_shared (b'.is_type d)) || is_over j t d pivot b')
              ≡ is_nil (f.later d shards rslt))
          × (is_nil (f.later d shards rslt) ≡ false → b'.is_type d ≡ shared_membuf)
          × ((e q : ℕ) → e ≢ d → IsPivot e q → view pending e q b' ≡ view pending e q b)
    pub proceed_next :
        (d pivot : ℕ) (b : Block) (c : List ℕ) (cs : List (List ℕ))
        → d + 1 < t.num_query_vertices
        → IsGood b
        → IsPivot d pivot
        → b.is_type d ≡ shared_membuf
        → pending d pivot b ≡ c ∷ cs
        → let b' = j.proceed d pivot b in
          IsGood b'
          × (b'.is_type d ≡ shared_membuf)
          × (b'.im_data d ≡ c)
          × (b'.im_size d ≡ length c)
          × (pending d pivot b' ≡ cs)
          × (is_over j t d pivot b' ≡ is_nil cs)
          × ((e q : ℕ) → e ≢ d → IsPivot e q → view pending e q b' ≡ view pending e q b)
    pub start_last :
        (d : ℕ) (shards rslt : ℕ → ℕ) (b : Block)
        → d + 1 ≡ t.num_query_vertices
        → IsGood b
        → let b' = (j.start d shards rslt b).0 in
          IsGood b'
          × (b'.im_size d ≡ f.matches shards rslt)
          × ((e q : ℕ) → e ≢ d → IsPivot e q → view pending e q b' ≡ view pending e q b)
    pub first_cong :
        (d : ℕ) (shards r r' : ℕ → ℕ)
        → d + 1 < t.num_query_vertices
        → ((e : ℕ) → e < d → r e ≡ r' e)
        → f.first d shards r ≡ f.first d shards r'
    pub later_cong :
        (d : ℕ) (shards r r' : ℕ → ℕ)
        → d + 1 < t.num_query_vertices
        → ((e : ℕ) → e < d → r e ≡ r' e)
        → f.later d shards r ≡ f.later d shards r'
    pub matches_cong :
        (shards r r' : ℕ → ℕ)
        → ((e : ℕ) → e + 1 < t.num_query_vertices → r e ≡ r' e)
        → f.matches shards r ≡ f.matches shards r'
