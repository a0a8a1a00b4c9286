-- ===== src/SchedTree/Regenerate.antt =====
-- `_regenerate_LFTJ_grid_group_tree` and `_regenerate_MJ_grid_group_tree` of
-- source/cuMatch/sched_plan_tree.cpp: the tree of the groups in a kernel task, as adjacency lists,
-- and then in the arrays that the kernels read.
pub mod Parents
pub mod Arrays
use cu_match.Prelude.{
  ℕ, zero, suc, ◌+◌, ◌-◌, ◌*◌, Bool, true, false, not, Option, none, some, List, [], ◌∷◌, ◌++◌,
  length, ltb, leb, ◌==◌, if◌then◌else◌, update, ◌>>=◌, ◌>>◌, check,
}

pub record TreeInfo : Type 0 where
  pub v_level : ℕ
  pub subtask_id : ℕ

pub record TreeElement : Type 0 where
  pub node_id : ℕ
  pub st_id : ℕ

pub record StackElement : Type 0 where
  pub v_id : ℕ
  pub dep : ℕ

-- The variables of the first loop; the top of the stack stands in front.
pub record Builder : Type 0 where
  pub tree : ℕ → List TreeElement
  pub tree_root_id : List ℕ
  pub stk : List StackElement
  pub tree_node_id : ℕ
  pub child_num : ℕ

abbrev pub max_num_tree_nodes : ℕ
max_num_tree_nodes = 500

abbrev pub empty_builder : Builder
empty_builder = record {
  tree = λ i. [];
  tree_root_id = [];
  stk = record { v_id = 0; dep = 0 } ∷ [];
  tree_node_id = 1;
  child_num = 0;
}

-- `while (stk.top().dep >= dep) stk.pop()`
abbrev pub pop_deeper : ℕ → List StackElement → List StackElement
pop_deeper dep [] = []
pop_deeper dep (x ∷ stk) = let rest = pop_deeper dep stk in if leb dep x.dep then rest else x ∷ stk

-- A new node below the top of the stack; `size` is that of the vector `tree`. The top of an empty
-- stack and an index behind the vector are faults.
abbrev pub add_node : ℕ → ℕ → ℕ → Builder → Option Builder
add_node size dep st_id b = elim b.stk [
  | [] ↦ none
  | top ∷ rest ↦
      check (ltb top.v_id size)
      >> some (record b {
        tree =
            update b.tree top.v_id
              (b.tree top.v_id ++ record { node_id = b.tree_node_id; st_id = st_id } ∷ []);
        stk = record { v_id = b.tree_node_id; dep = dep } ∷ top ∷ rest;
        tree_node_id = b.tree_node_id + 1;
        child_num = b.child_num + 1;
      })
]

-- `n` nodes, each below the one before
abbrev pub add_nodes : ℕ → ℕ → ℕ → ℕ → Builder → Option Builder
add_nodes size dep st_id zero b = some b
add_nodes size dep st_id (suc n) b = add_node size dep st_id b >>= add_nodes size dep st_id n

abbrev pub note_root : ℕ → Builder → Builder
note_root dep b =
    if dep == 1 then record b { tree_root_id = b.tree_root_id ++ b.tree_node_id ∷ [] } else b

-- What the two functions read of the configuration. The table join has no postfix vertices.
pub record Postfix : Type 0 where
  pub max_regular_vid : ℕ
  pub num_postfix : ℕ
  pub max_optional_vid : ℕ
  pub num_optional_postfix : ℕ

-- Lines 275 to 297, and without postfix vertices lines 350 to 358
unfoldable pub build : Postfix → ℕ → ℕ → List TreeInfo → Builder → Option Builder
build c size num_subtasks [] b = some b
build c size num_subtasks (x ∷ xs) b = elim (leb num_subtasks x.subtask_id) [
  | true ↦ some b
  | false ↦ do
    let dep = x.v_level
    let st = x.subtask_id
    b1 ← add_node size dep st (note_root dep (record b { stk = pop_deeper dep b.stk }))
    b2 ← add_nodes size dep st (if dep == c.max_regular_vid then c.num_postfix else 0) b1
    b3 ← add_nodes size dep st (if dep == c.max_optional_vid then c.num_optional_postfix else 0) b2
    build c size num_subtasks xs b3
]

-- The arrays in the buffer of a kernel
pub record Csr : Type 0 where
  pub sched_tree_ptr : ℕ → ℕ
  pub sched_tree_nxt_id : List ℕ
  pub sched_tree_prv_id : ℕ → ℕ
  pub sched_tree_st_id : List ℕ
  pub sum : ℕ

abbrev pub blank : Csr
blank = record {
  sched_tree_ptr = λ i. 0;
  sched_tree_nxt_id = [];
  sched_tree_prv_id = λ i. 0;
  sched_tree_st_id = [];
  sum = 0;
}

-- The inner loop, over the children of node `i`
abbrev pub fill_row : ℕ → List TreeElement → Csr → Csr
fill_row i [] c = c
fill_row i (e ∷ es) c = fill_row i es (record c {
  sched_tree_nxt_id = c.sched_tree_nxt_id ++ e.node_id ∷ [];
  sched_tree_prv_id = update c.sched_tree_prv_id (e.node_id - 1) i;
  sched_tree_st_id = c.sched_tree_st_id ++ e.st_id ∷ [];
})

-- The outer loop: `i` is the counter, `n` the rounds left.
unfoldable pub fill_rows : (ℕ → List TreeElement) → ℕ → ℕ → Csr → Csr
fill_rows tree i zero c = record c { sched_tree_ptr = update c.sched_tree_ptr i c.sum }
fill_rows tree i (suc n) c = fill_rows tree (i + 1) n (
    fill_row i (tree i) (record c {
      sched_tree_ptr = update c.sched_tree_ptr i c.sum;
      sum = c.sum + length (tree i);
    }))

-- The whole function; `exit(1)` for a tree that is too large is `none`.
unfoldable pub regenerate : Postfix → ℕ → ℕ → List TreeInfo → Option (Builder × Csr)
regenerate c size num_subtasks tree_info_vec = do
  b ← build c size num_subtasks tree_info_vec empty_builder
  check (b.child_num == b.tree_node_id - 1)
  check (ltb b.tree_node_id max_num_tree_nodes)
  some (b, fill_rows b.tree 0 b.tree_node_id blank)
