-- ===== src/Cache.antt =====
-- include/gstream/framework3/detail/lru_cache_policy.h: which keys are cached, which of them are
-- locked, and in which order the others go. A key has one node, in the free list or in the lock
-- list, so a list of nodes is a list of keys. The list is a container of include/ash, and is used as
-- one that removes the nodes that it holds. It does not check this: with a node of the other list the
-- source goes on with two lists that are woven into each other, and the model ends, with `none`.
pub mod Counts
pub mod Order
pub mod Controller
use cu_match.Prelude.{
  ℕ, ◌+◌, ◌-◌, ◌%◌, ◌^◌, Bool, true, false, not, Option, none, some, List, [], ◌∷◌, ◌++◌, length,
  ltb, ◌==◌, if◌then◌else◌, update, count, ◌>>=◌, ◌>>◌, check,
}

-- `inverted_pointer`, whose node is that of the key
pub record InvertedPointer : Type 0 where
  pub is_locked : Bool
  pub ref_count : ℕ

-- `_ptr_map`, as a function and the number of its keys
pub record Policy : Type 0 where
  pub free_list : List ℕ
  pub lock_list : List ℕ
  pub ptr_map : ℕ → Option InvertedPointer
  pub num_keys : ℕ

abbrev pub empty_policy : Policy
empty_policy = record { free_list = []; lock_list = []; ptr_map = λ k. none; num_keys = 0 }

-- `remove_node` of a node that stands in the list
abbrev pub remove_key : ℕ → List ℕ → List ℕ
remove_key k [] = []
remove_key k (j ∷ js) = let rest = remove_key k js in if j == k then js else j ∷ rest

-- `remove_node`, for a node that the list may not hold. One of the other list is outside of what the
-- container is for; without a node the source follows a null pointer.
abbrev pub remove_node : ℕ → List ℕ → Option (List ℕ)
remove_node k l = if ltb 0 (count k l) then some (remove_key k l) else none

abbrev pub test : Policy → ℕ → Bool
test p k = elim (p.ptr_map k) [ none ↦ false | some _ ↦ true ]

-- `is_locked`, with its assertion
abbrev pub is_locked : Policy → ℕ → Option Bool
is_locked p k = p.ptr_map k >>= λ x. some x.is_locked

unfoldable pub add : Policy → ℕ → Option Policy
add p k = do
  check (not (test p k))
  some (record p {
    free_list = p.free_list ++ k ∷ [];
    ptr_map = update p.ptr_map k (some (record { is_locked = false; ref_count = 0 }));
    num_keys = p.num_keys + 1;
  })

unfoldable pub evict : Policy → Option (Policy × ℕ)
evict p = elim p.free_list [
  | [] ↦ none
  | key ∷ rest ↦ do
    locked ← is_locked p key
    check (not locked)
    some (
      record p { free_list = rest; ptr_map = update p.ptr_map key none; num_keys = p.num_keys - 1 },
      key,
    )
]

-- `_ptr_map[k]` makes an entry with a null node for a key that is not cached; removing that node
-- is a fault, here and in `unlock` and `move_back`.
unfoldable pub lock : Policy → ℕ → Option (Policy × ℕ)
lock p k = do
  x ← p.ptr_map k
  let n = (x.ref_count + 1) % 2 ^ 32
  elim x.is_locked [
    | true ↦ some (record p { ptr_map = update p.ptr_map k (some (record x { ref_count = n })) }, n)
    | false ↦ do
      free ← remove_node k p.free_list
      some (
        record p {
          free_list = free;
          lock_list = k ∷ p.lock_list;
          ptr_map = update p.ptr_map k (some (record { is_locked = true; ref_count = 1 }));
        },
        1,
      )
  ]

unfoldable pub unlock : Policy → ℕ → Option (Policy × ℕ)
unlock p k = do
  x ← p.ptr_map k
  check x.is_locked
  check (ltb 0 x.ref_count)
  let n = x.ref_count - 1
  elim (n == 0) [
    | true ↦ do
      locked ← remove_node k p.lock_list
      some (
        record p {
          free_list = p.free_list ++ k ∷ [];
          lock_list = locked;
          ptr_map = update p.ptr_map k (some (record { is_locked = false; ref_count = n }));
        },
        n,
      )
    | false ↦
        some (record p { ptr_map = update p.ptr_map k (some (record x { ref_count = n })) }, n)
  ]

-- `move_back` of a free key. The node of a locked key is not in the free list.
unfoldable pub move_back : Policy → ℕ → Option Policy
move_back p k = do
  x ← p.ptr_map k
  free ← remove_node k p.free_list
  some (record p { free_list = free ++ k ∷ [] })

-- `clear`
abbrev pub clear : Policy → Policy
clear p = empty_policy

abbrev pub size : Policy → ℕ
size p = length p.free_list

abbrev pub num_locked : Policy → ℕ
num_locked p = length p.lock_list

abbrev pub num_unlocked : Policy → ℕ
num_unlocked p = length p.free_list

abbrev pub num_cached : Policy → ℕ
num_cached p = p.num_keys
