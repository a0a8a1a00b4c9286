-- ===== src/SchedTree/Chains.antt =====
-- The groups of `pop_grid_group` (source/cuMatch/sched_plan_tree.cpp) as chains of shards, and what
-- is left to hand out.
use cu_match.Prelude.{
  ℕ, suc, ◌+◌, ◌≤◌, ◌<◌, ◌≡◌, ◌≢◌, ◌⊎◌, refl, ◌∙◌, sym, false, Option, none, some, List, [], ◌∷◌,
  ◌++◌, map, length, ◌==◌, if◌then◌else◌, arith, length-append,
}
use cu_match.SchedTree.{Sleaf, Node, level, v_id, leaf_ptr, TrackingInfo, this_node}
use cu_match.SchedTree.Traversal.{pending}
use cu_match.SchedTree.Groups.{
  GridGroupInfo, Plan, make_subtask_info, clear_group, push_node, starts_group,
}
use cu_match.SchedTree.Levels.{IsPath}

-- As many shards as levels, from `min_level` to `max_level`, and a subtask from the deepest level on.
pub record IsChain (deepest : ℕ) (g : GridGroupInfo) : Type 0 where
  pub shards : length g.grid_group + g.min_level ≡ g.max_level + 1
  pub subtask : deepest ≡ g.max_level → g.st_info ≢ none
  pub no_subtask : g.max_level < deepest → g.st_info ≡ none

pub record IsValid (s : Plan) : Type 0 where
  pub path : IsPath s.tracking_stk
  pub fresh : s.tmp_group_info.v_id ≡ 0 → s.tmp_group_info.grid_group ≡ []
  pub linked : s.tmp_group_info.v_id ≢ 0 → s.tmp_group_info.max_level + 1 ≡ length s.tracking_stk
  pub chain : s.tmp_group_info.v_id ≢ 0 → IsChain s.max_level s.tmp_group_info

-- The group that `push_node` makes where its assertion holds.
abbrev pub pushed : ℕ → List TrackingInfo → Node → GridGroupInfo → GridGroupInfo
pushed deepest stk n g = record g {
  max_level = level n;
  grid_group = g.grid_group ++ leaf_ptr n ∷ [];
  st_info = if level n == deepest then some (make_subtask_info stk) else g.st_info;
}

pub push_node-pushed :
    (deepest : ℕ) (stk : List TrackingInfo) (n : Node) (g : GridGroupInfo)
    → level n + 1 ≡ length stk
    → push_node deepest stk n g ≡ some (pushed deepest stk n g)
push_node-pushed deepest stk n g h = ground arith

abbrev pub shards : List Node → List (Option Sleaf)
shards = map leaf_ptr

-- The shards that are still to be handed out.
abbrev pub left : Plan → List (Option Sleaf)
left s = elim (this_node s.tracking_stk) [
  | none ↦ []
  | some _ ↦ s.tmp_group_info.grid_group ++ shards (pending s.tracking_stk)
]

-- The rounds that a plan can still make.
abbrev pub rounds : Plan → ℕ
rounds s = elim (this_node s.tracking_stk) [
  | none ↦ 0
  | some _ ↦ suc (length (pending s.tracking_stk))
]

-- What one call hands out: the next shards in order, as a chain.
pub record HandsOut (s s' : Plan) (g : GridGroupInfo) : Type 0 where
  pub group : s'.grid_group_ptr ≡ some g
  pub order : left s ≡ g.grid_group ++ left s'
  pub chain : g.v_id ≢ 0 → IsChain s.max_level g
  pub less : rounds s' < rounds s
  pub deepest : s'.max_level ≡ s.max_level
  pub valid : (this_node s'.tracking_stk ≡ none) ⊎ IsValid s'

pushed-IsChain :
    (deepest : ℕ) (stk : List TrackingInfo) (n : Node) (g : GridGroupInfo)
    → length g.grid_group + g.min_level ≡ level n
    → (level n < deepest → g.st_info ≡ none)
    → IsChain deepest (pushed deepest stk n g)
pushed-IsChain deepest stk n g h k = ground (arith, length-append g.grid_group (leaf_ptr n ∷ []))

module _ (s : Plan) (n : Node) (stk : List TrackingInfo) (v : IsValid s) (path : IsPath stk)
    (grows : length stk ≤ length s.tracking_stk + 1) (top : level n + 1 ≡ length stk)
    (serves : v_id n ≢ 0) where
  pub restart-IsValid :
      (p : Option GridGroupInfo)
      → IsValid (record s {
        tracking_stk = stk;
        tmp_group_info = pushed s.max_level stk n (clear_group n s.tmp_group_info);
        grid_group_ptr = p;
      })
  restart-IsValid p = record {
    path = path;
    fresh = λ e. absurd (serves e);
    linked = λ _. top;
    chain = λ _.
        pushed-IsChain s.max_level stk n (clear_group n s.tmp_group_info) (omega arith) (λ _. refl);
  }

  pub grow-IsValid :
      starts_group s.is_table_join s.tmp_group_info n ≡ false
      → IsValid (record s {
        tracking_stk = stk;
        tmp_group_info = pushed s.max_level stk n s.tmp_group_info;
      })
  grow-IsValid e =
      let same : s.tmp_group_info.v_id ≡ v_id n = ground arith in
      let deeper : s.tmp_group_info.max_level < level n = ground arith in
      let used : s.tmp_group_info.v_id ≢ 0 = λ z. serves (sym same ∙ z) in
      let c = v.chain used in
      let l = v.linked used in
      record {
        path = path;
        fresh = λ z. absurd (used z);
        linked = λ _. top;
        chain = λ _.
            pushed-IsChain s.max_level stk n s.tmp_group_info (omega (arith, c.shards))
              (λ b. c.no_subtask (omega arith));
      }

pub this_node-some :
    (stk : List TrackingInfo) → length stk ≢ 0 → (n : Node) × (this_node stk ≡ some n)
this_node-some [] h = absurd (h refl)
this_node-some (t ∷ stk) h = (t.node, refl)
