-- ===== src/Scheduler/Restore.antt =====
-- Windows and stacks.
use cu_match.Prelude.{
  ℕ, ◌≡◌, ◌≢◌, refl, sym, ◌∙◌, true, false, ◌&&◌, none, some, ◌∷◌, length, ltb, update, arith,
}
use mathlib.Core.Path.{fun_ext, subst}
use cu_match.QueryGraph.{EdgeInfo}
use cu_match.Scheduler.{
  LaddrInterval, Gbid, Ranges, Site, Input, fits, chk_grid_range, push_range_rslt, pop_range_rslt,
  set_grid, push, pop,
}
use cu_match.Scheduler.Windows.{window, windows, in_row, take_in, narrow}

-- The stacks hold the same intervals and mean the same windows.
pub record SameStacks (g g' : Ranges) : Type 0 where
  pub top : (v : ℕ) → (g v).top ≡ (g' v).top
  pub below : (v : ℕ) → (g v).below ≡ (g' v).below
  pub grid : (v : ℕ) → length (g v).below ≢ 0 → (g v).grid_id ≡ (g' v).grid_id

pub windows-SameStacks : (g g' : Ranges) → SameStacks g g' → windows g ≡ windows g'
windows-SameStacks g g' h = fun_ext λ v. ground (arith, h.top v, h.below v, h.grid v)

pub chk_grid_range-in_row :
    (g : Ranges) (gbid : Gbid) (src dst : ℕ)
    → chk_grid_range g gbid src dst
      ≡ (in_row (windows g src).grid gbid.row && in_row (windows g dst).grid gbid.col)
chk_grid_range-in_row g gbid src dst = ground arith

-- A shard that does not fit changes nothing.
pub push_range_rslt-none :
    (i : Input) (g : Ranges) (gbid : Gbid) (e : EdgeInfo) (s : Site)
    → fits e.e_type
        (ltb (i.order_rank e.v1_id) (i.order_rank e.v2_id))
        (g e.v1_id).top
        (g e.v2_id).top
        s
      ≡ false
    → push_range_rslt i g gbid e s ≡ some none
unfolding push_range_rslt
push_range_rslt-none i g gbid e s h = rw h

-- A pop takes back a push.
pop-push :
    (v : ℕ) (r : LaddrInterval) (g g2 : Ranges)
    → SameStacks (push v r g) g2
    → (g3 : Ranges) × (pop v g2 ≡ some g3) × SameStacks g g3
pop-push v r g g2 same =
    let g3 = update g2 v (record (g2 v) { top = (g v).top; below = (g v).below }) in
    let stack : (g2 v).below ≡ (g v).top ∷ (g v).below = sym (same.below v) ∙ ground arith in
    (
      g3,
      rw (stack, pop),
      record {
        top = λ u. ground (arith, same.top u);
        below = λ u. ground (arith, same.below u);
        grid = λ u h. ground (arith, same.grid u);
      },
    )

SameStacks-set_grid :
    (v row : ℕ) (g g3 : Ranges) → SameStacks (set_grid v row g) g3 → SameStacks g g3
SameStacks-set_grid v row g g3 same = record {
  top = λ u. ground (arith, same.top u);
  below = λ u. ground (arith, same.below u);
  grid = λ u h. ground (arith, same.grid u);
}

push_comm :
    (v u : ℕ) (r q : LaddrInterval) (g : Ranges)
    → v ≢ u
    → push v r (push u q g) ≡ push u q (push v r g)
push_comm v u r q g ne = fun_ext λ w. ground arith

push-take_in :
    (v row : ℕ) (r : LaddrInterval) (g : Ranges) (u : ℕ)
    → window (push v r (set_grid v row g) u) ≡ take_in v row r (windows g) u
push-take_in v row r g u = ground arith

-- One that fits narrows the windows, and whatever comes back with the same stacks is restored.
pub push_range_rslt-some :
    (i : Input) (g : Ranges) (gbid : Gbid) (e : EdgeInfo) (s : Site)
    → fits e.e_type
        (ltb (i.order_rank e.v1_id) (i.order_rank e.v2_id))
        (g e.v1_id).top
        (g e.v2_id).top
        s
      ≡ true
    → e.v1_id ≢ e.v2_id
    → (g1 : Ranges) × (push_range_rslt i g gbid e s ≡ some (some g1))
      × (windows g1 ≡ narrow e gbid s (windows g))
      × ((g2 : Ranges)
          → SameStacks g1 g2
          → (g3 : Ranges) × (pop_range_rslt e.v1_id e.v2_id g2 ≡ some g3) × SameStacks g g3)
unfolding push_range_rslt pop_range_rslt
push_range_rslt-some i g gbid e s h ne =
    let g1 =
      push e.v2_id s.dst_range
        (push e.v1_id s.src_range (set_grid e.v2_id gbid.col (set_grid e.v1_id gbid.row g))) in
    (
      g1,
      rw h (ground arith),
      fun_ext λ v. ground arith,
      λ g2 same.
          let start = set_grid e.v2_id gbid.col (set_grid e.v1_id gbid.row g) in
          let swapped = push_comm e.v2_id e.v1_id s.dst_range s.src_range start (λ x. ne (sym x)) in
          let (g3, run, same3) =
            pop-push e.v1_id s.src_range (push e.v2_id s.dst_range start) g2
              (subst (λ x. SameStacks x g2) swapped same) in
          let (g4, run', same4) = pop-push e.v2_id s.dst_range start g3 same3 in
          (
            g4,
            rw run run',
            SameStacks-set_grid e.v1_id gbid.row g g4
                (SameStacks-set_grid e.v2_id gbid.col (set_grid e.v1_id gbid.row g) g4 same4),
          ),
    )

pub SameStacks-refl : (g : Ranges) → SameStacks g g
SameStacks-refl g = record { top = λ v. refl; below = λ v. refl; grid = λ v h. refl }

pub SameStacks-trans : {g h k : Ranges} → SameStacks g h → SameStacks h k → SameStacks g k
SameStacks-trans a b = record {
  top = λ v. a.top v ∙ b.top v;
  below = λ v. a.below v ∙ b.below v;
  grid = λ v ne. a.grid v ne ∙ b.grid v (ground (arith, a.below v));
}
