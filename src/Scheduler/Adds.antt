-- ===== src/Scheduler/Adds.antt =====
-- One step of the search in source/cuMatch/lgf_scheduler.cpp: what a shard, a block and all blocks
-- of an edge add to the parent.
use cu_match.Prelude.{
  ℕ, suc, ◌+◌, ◌≡◌, ◌≢◌, refl, sym, ◌∙◌, true, false, Option, some, List, [], ◌∷◌, ◌++◌, map, ltb,
  arith, Bool-cases, inl, inr,
}
use mathlib.Core.List.{append-nil}
use mathlib.Core.Path.{subst}
use cu_match.SchedTree.{Sleaf, node, nil}
use cu_match.SchedTree.Levels.{IsLeveled, AreBelow}
use cu_match.Scheduler.{
  Gbid, Ranges, Site, Input, fits, chk_grid_range, Found, push_back, link, edge_at, vertex_at,
  sites, blocks, visit_site, visit_sites, visit_blocks,
}
use cu_match.Scheduler.Windows.{
  Window, windows, choices, block_choices, combinations, paths, paths_each-push_back,
}
use cu_match.Scheduler.Restore.{
  SameStacks, windows-SameStacks, chk_grid_range-in_row, push_range_rslt-none, push_range_rslt-some,
}
use cu_match.Scheduler.Outcome.{nonempty, AreBelow-push_back, Adds, Finds, Adds-nothing, Adds-both}

module _ (i : Input) (n edge_idx l : ℕ)
    (proper : (edge_at i edge_idx).v1_id ≢ (edge_at i edge_idx).v2_id)
    (next : Ranges → Option (Ranges × Found))
    (finds : (g : Ranges)
      → Finds (l + 1) n (combinations i n (edge_idx + 1) (windows g)) g (next g)) where
  link-Adds :
      (leaf : Sleaf) (g g' : Ranges) (parent found : Found) (ps : List (List Sleaf))
      → SameStacks g g'
      → paths n found.child ≡ ps
      → found.valid ≡ nonempty ps
      → AreBelow (l + 1) found.child
      → Adds n l
          (map (λ p. leaf ∷ p) ps)
          g
          parent
          (some (g', link l (i.edge_order edge_idx).0 (vertex_at i edge_idx) leaf found parent))
  unfolding IsLeveled
  link-Adds leaf g g' parent found [] same all valid below = record {
    ranges = g';
    found = parent;
    run = rw (valid, link) refl;
    same = same;
    added = sym (append-nil _);
    valid = ground arith;
    below = λ h. h;
  }
  link-Adds leaf g g' parent found (p ∷ ps) same all valid below =
      let child =
        node (l + 1) (i.edge_order edge_idx).0 (vertex_at i edge_idx + 1) (some leaf) found.child in
      record {
        ranges = g';
        found = record { child = push_back parent.child child; valid = true };
        run = rw (valid, link) refl;
        same = same;
        added = paths_each-push_back (paths n) parent.child child ∙ rw all refl;
        valid = ground arith;
        below = λ h. AreBelow-push_back l parent.child child h refl (omega arith) below;
      }

  visit_site-Adds :
      (gbid : Gbid) (s : Site) (g : Ranges) (parent : Found)
      → Adds n l
          (choices i
            (combinations i n (edge_idx + 1))
            (edge_at i edge_idx)
            gbid
            (s ∷ [])
            (windows g))
          g
          parent
          (visit_site i next edge_idx l gbid s g parent)
  unfolding visit_site
  visit_site-Adds gbid s g parent =
      let e = edge_at i edge_idx in
      elim (Bool-cases (
        fits e.e_type (ltb (i.order_rank e.v1_id) (i.order_rank e.v2_id)) (g e.v1_id).top
          (g e.v2_id).top s)) [
            | inr misses ↦
                rw (misses, push_range_rslt-none i g gbid e s misses) (Adds-nothing n l g parent)
            | inl hits ↦
                let (g1, run1, narrowed, restore) = push_range_rslt-some i g gbid e s hits proper in
                let d = finds g1 in
                let (g3, run3, same) = restore d.ranges d.same in
                rw (hits, run1, append-nil, ← narrowed)
                  (rw (d.run, run3)
                    (link-Adds s.leaf g g3 parent d.found _ same d.all d.valid d.below))
          ]

  choices-cons :
      (gbid : Gbid) (s : Site) (ss : List Site) (w : ℕ → Window)
      → choices i (combinations i n (edge_idx + 1)) (edge_at i edge_idx) gbid (s ∷ []) w
          ++ choices i (combinations i n (edge_idx + 1)) (edge_at i edge_idx) gbid ss w
        ≡ choices i (combinations i n (edge_idx + 1)) (edge_at i edge_idx) gbid (s ∷ ss) w
  choices-cons gbid s ss w = simp append-nil

  visit_sites-Adds :
      (gbid : Gbid) (ss : List Site) (g : Ranges) (parent : Found)
      → Adds n l
          (choices i (combinations i n (edge_idx + 1)) (edge_at i edge_idx) gbid ss (windows g))
          g
          parent
          (visit_sites i next edge_idx l gbid ss g parent)
  unfolding visit_sites
  visit_sites-Adds gbid [] g parent = Adds-nothing n l g parent
  visit_sites-Adds gbid (s ∷ ss) g parent =
      subst (λ c. Adds n l c g parent (visit_sites i next edge_idx l gbid (s ∷ ss) g parent))
        (choices-cons gbid s ss (windows g))
        (Adds-both n l _ _ g parent (visit_site i next edge_idx l gbid s g parent)
          (visit_sites i next edge_idx l gbid ss) (visit_site-Adds gbid s g parent)
          (λ g' p' same. rw (windows-SameStacks g g' same) (visit_sites-Adds gbid ss g' p')))

  visit_blocks-Adds :
      (bs : List (ℕ × ℕ)) (g : Ranges) (parent : Found)
      → Adds n l
          (block_choices i (combinations i n (edge_idx + 1)) edge_idx bs (windows g))
          g
          parent
          (visit_blocks i next edge_idx l bs g parent)
  unfolding visit_blocks
  visit_blocks-Adds [] g parent = Adds-nothing n l g parent
  visit_blocks-Adds ((r, c) ∷ bs) g parent =
      let e = edge_at i edge_idx in
      let gbid : Gbid = record { row = r; col = c; label = e.el_id } in
      let later = λ (g' : Ranges) (p' : Found) (same : SameStacks g g').
        let d = visit_blocks-Adds bs g' p' in
        let d' : Adds n l
            (block_choices i (combinations i n (edge_idx + 1)) edge_idx bs (windows g)) g' p'
            (visit_blocks i next edge_idx l bs g' p') =
          rw (windows-SameStacks g g' same) d in
        d' in
      elim (Bool-cases (chk_grid_range g gbid e.v1_id e.v2_id)) [
        | inl ok ↦
            let ok' = sym (chk_grid_range-in_row g gbid e.v1_id e.v2_id) ∙ ok in
            rw (ok, ok')
              (Adds-both n l _ _ g parent
                (visit_sites i next edge_idx l gbid (sites i edge_idx r c) g parent)
                (visit_blocks i next edge_idx l bs)
                (visit_sites-Adds gbid (sites i edge_idx r c) g parent) later)
        | inr bad ↦
            let bad' = sym (chk_grid_range-in_row g gbid e.v1_id e.v2_id) ∙ bad in
            rw (bad, bad') (visit_blocks-Adds bs g parent)
      ]

  pub blocks-Finds :
      (g : Ranges)
      → Finds l
          (suc n)
          (block_choices i
            (combinations i n (edge_idx + 1))
            edge_idx
            (blocks i edge_idx)
            (windows g))
          g
          (visit_blocks i next edge_idx l
            (blocks i edge_idx)
            g
            (record { child = nil; valid = false }))
  unfolding paths AreBelow
  blocks-Finds g =
      let d = visit_blocks-Adds (blocks i edge_idx) g (record { child = nil; valid = false }) in
      record {
        ranges = d.ranges;
        found = d.found;
        run = d.run;
        same = d.same;
        all = d.added;
        valid = d.valid;
        below = d.below tt;
      }
