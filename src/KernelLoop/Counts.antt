-- ===== src/KernelLoop/Counts.antt =====
-- What the main loop of source/cuMatch/LFTJ_kernel_basic.cu counts.
use cu_match.Prelude.{
  ℕ, suc, ◌+◌, ◌-◌, ◌^◌, ◌≤◌, ◌<◌, ◌≡◌, refl, ap, sym, ◌∙◌, true, false, List, [], ◌∷◌, length,
  ◌==◌, arith,
}
use mathlib.Core.Path.{subst}
use cu_match.Kernel.{sub32}
use cu_match.TableJoin.{resume}
use cu_match.KernelLoop.{Joins, TreeTask, Machine, step, begin, go_on, count_last, child_num}
use cu_match.KernelLoop.Spec.{Finds, IsJoin, IsTree, total, shards_at, sum_from, sum_over}
use cu_match.KernelLoop.Frames.{Steps, here, next, Ready, Walked, Walks}
use cu_match.KernelLoop.Vertices.{Loaded, IsChild, take_vertices}
use cu_match.KernelLoop.Children.{Emptied, Closes, below, take_children}
use cu_match.KernelLoop.Buffers.{
  again_finished, begin_lem, go_on_lem, close_resume, Closes-replace, Closes-after, step-refill,
  refill-begin, refill-go_on,
}

module _ (j : Joins) (t : TreeTask) (f : Finds) (l : IsJoin j t f)
    (small : t.num_query_vertices < 2 ^ 32) where
  open l use {start_last}

  module _ (k d : ℕ) (base : Machine) (e : d + suc (suc k) ≡ t.num_query_vertices)
      (lt : d + 1 < t.num_query_vertices) (one : 1 ≤ child_num j t base.tree_node_id)
      (ch : (i : ℕ) → i < child_num j t base.tree_node_id → IsChild j t f l k base.tree_node_id i)
      (walks : Walks j t f l k (d + 1)) where
    -- What one buffer counts for all children
    abbrev counts : List ℕ → ℕ
    counts c = sum_from 0 (child_num j t base.tree_node_id) (below j t f l d base c [] small lt k)

    take_buffer :
        (later : List (List ℕ)) (c : List ℕ) (m : Machine)
        → Loaded j t f l d base c later (length c) 0 m
        → (last : Machine) × Closes j t f l m last
          × Emptied j t f l d base later last
          × (last.counter ≡ m.counter + counts c)
    take_buffer later c m h =
        let n = child_num j t base.tree_node_id - 1 in
        let many : child_num j t base.tree_node_id ≡ suc n = omega (arith, one) in
        let (m1, steps, h1, counted) =
          take_vertices j t f l k d base c later (length c) 0 m e small (ch 0 one) walks h in
        let (last, closes, emptied, counted') =
          take_children j t f l d base c later small lt k n 0 m1 e (omega (arith, many)) ch walks
            h1 in
        let split = ap (λ x. sum_from 0 x (below j t f l d base c [] small lt k)) many in
        (
          last,
          Closes-after j t f l m m1 last steps closes,
          emptied,
          omega (arith, counted, counted', split),
        )

    take_buffers :
        (later : List (List ℕ)) (c : List ℕ) (m : Machine)
        → Loaded j t f l d base c later (length c) 0 m
        → (last : Machine) × Closes j t f l m last
          × Emptied j t f l d base [] last
          × (last.counter ≡ m.counter + sum_over (c ∷ later) counts)
    unfolding go_on
    take_buffers [] c m h =
        let (last, closes, emptied, counted) = take_buffer [] c m h in
        (last, closes, emptied, omega (arith, counted))
    take_buffers (c2 ∷ cs) c m h =
        let (m1, (m', run, done), emptied, counted) = take_buffer (c2 ∷ cs) c m h in
        let resumes : m1.state m1.dep ≡ resume = ap m1.state emptied.dep ∙ emptied.state in
        let closed =
          close_resume j t f l m1 (ap m1.sched_tree_child emptied.dep ∙ emptied.number) resumes in
        let m2 = again_finished j t f l m1 in
        let filled = go_on j t m2 in
        let h2 : Loaded j t f l d base c2 cs (length c2) 0 filled =
          subst (λ x. Loaded j t f l x base c2 cs (length c2) 0 filled) emptied.dep
            (go_on_lem j t f l base c2 cs m1 (omega (arith, emptied.dep))
              (subst (λ x. Emptied j t f l x base (c2 ∷ cs) m1) (sym emptied.dep) emptied)) in
        let same =
          step-refill j t f l m2 filled small (omega (arith, emptied.dep))
            (h2.dep ∙ sym emptied.dep) (ap filled.is_finish h2.dep ∙ h2.finish)
            (refill-go_on j t f l m1 resumes) in
        let (last, closes, emptied', counted') = take_buffers cs c2 filled h2 in
        (
          last,
          Closes-after j t f l m m2 last (next run (done ∙ closed))
              (Closes-replace j t f l m2 filled last same closes),
          emptied',
          omega (arith, counted, counted'),
        )

  -- From the machine that enters a node to the one that is done with it
  pub walk_node :
      (k : ℕ) (m : Machine)
      → m.dep + suc (suc k) ≡ t.num_query_vertices
      → Ready j t f l m.dep m
      → IsTree j t (suc k) m.tree_node_id
      → m.shard_idxs ≡ shards_at j t m.tree_node_id 0
      → Walks j t f l k (m.dep + 1)
      → (last : Machine) × Closes j t f l m last
        × Emptied j t f l m.dep m [] last
        × (last.counter ≡ m.counter + total j t f (suc k) m.dep m.tree_node_id m.shard_idxs m.rslt)
  unfolding begin total
  walk_node k m e r tree entered walks =
      let lt : m.dep + 1 < t.num_query_vertices = omega (arith, e) in
      let c = f.first m.dep m.shard_idxs m.rslt in
      let later = f.later m.dep m.shard_idxs m.rslt in
      let h = begin_lem j t f l k m lt r entered in
      let fresh = r.fresh m.dep (omega arith) lt in
      let same =
        step-refill j t f l m (begin j t m) small lt refl h.finish
          (refill-begin j t f l m fresh.0 fresh.1) in
      let (last, closes, emptied, counted) =
        take_buffers k m.dep m e lt tree.0 tree.1 walks later c (begin j t m) h in
      (last, Closes-replace j t f l m (begin j t m) last same closes, emptied, counted)

  step_last :
      (m : Machine) → m.dep + 1 ≡ t.num_query_vertices → step j t m ≡ (count_last j t m, false)
  unfolding step
  step_last m e =
      let at : (m.dep == sub32 t.num_query_vertices 1) ≡ true = ground arith in rw at refl

  -- The last depth: the matches are counted, and the walk goes back.
  pub walk_last :
      (d : ℕ) (m : Machine)
      → d + 1 ≡ t.num_query_vertices
      → 0 < d
      → m.dep ≡ d
      → Ready j t f l d m
      → (m' : Machine) × Steps j t f l m m'
        × Walked j t f l d (total j t f 0 d m.tree_node_id m.shard_idxs m.rslt) m m'
  unfolding total
  walk_last d m e pos at r =
      let (good, size, frame) =
        start_last m.dep m.shard_idxs m.rslt m.block (omega (arith, at)) r.good in
      (
        count_last j t m,
        next here (step_last m (omega (arith, at))),
        record {
          dep = omega (arith, at);
          node = refl;
          counted = ap (λ x. m.counter + x) size;
          shards = refl;
          ready = record {
            good = good;
            pivots = r.pivots;
            fresh = λ i le lt. absurd (omega (arith, e));
          };
          kept = λ i lt.
              let seen = frame i (m.shard_offset_arr i) (omega (arith, at)) (r.pivots i lt) in
              rw seen refl;
        },
      )
