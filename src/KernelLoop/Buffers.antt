-- ===== src/KernelLoop/Buffers.antt =====
-- The buffers of a depth, one after the other, in the main loop of
-- source/cuMatch/LFTJ_kernel_basic.cu.
use cu_match.Prelude.{
  ℕ, ◌+◌, ◌^◌, ◌<◌, ◌≡◌, ◌⊎◌, refl, ap, sym, ◌∙◌, true, false, List, ◌∷◌, length, ◌==◌,
  if◌then◌else◌, update, arith, Bool-cases, ==_iff, inl, inr,
}
use mathlib.Core.Path.{subst}
use cu_match.TableJoin.{initial, resume}
use cu_match.KernelLoop.{Joins, TreeTask, Machine, step, begin, go_on, refill, use_buffer, close}
use cu_match.KernelLoop.Spec.{Finds, IsJoin, shards_at, is_nil}
use cu_match.KernelLoop.Frames.{Steps, here, next, Steps-trans, Ready}
use cu_match.KernelLoop.Vertices.{step_inside, refill_off, Loaded}
use cu_match.KernelLoop.Children.{Emptied, Closes}

module _ (j : Joins) (t : TreeTask) (f : Finds) (l : IsJoin j t f) where
  open l use {IsGood, IsPivot, pending, start_first, proceed_next}

  -- The first buffer of a depth
  pub begin_lem :
      (k : ℕ) (m : Machine)
      → m.dep + 1 < t.num_query_vertices
      → Ready j t f l m.dep m
      → m.shard_idxs ≡ shards_at j t m.tree_node_id 0
      → Loaded j t f l m.dep m
          (f.first m.dep m.shard_idxs m.rslt)
          (f.later m.dep m.shard_idxs m.rslt)
          (length (f.first m.dep m.shard_idxs m.rslt))
          0
          (begin j t m)
  unfolding begin
  begin_lem k m lt r shards =
      let (good, pivot, buffer, size, rest, over, shared, frame) =
        start_first m.dep m.shard_idxs m.rslt m.block lt r.good in
      let fresh = r.fresh m.dep (omega arith) lt in
      let at : (m.dep == m.dep) ≡ true = ground arith in
      record {
        dep = refl;
        node = refl;
        shards = shards;
        good = good;
        pivots = λ e le. elim (Bool-cases (e == m.dep)) [
          | inl last ↦
              subst
                (λ i.
                  IsPivot i (
                    update m.shard_offset_arr m.dep (j.start m.dep m.shard_idxs m.rslt m.block).1
                      i))
                (sym ((==_iff e m.dep).0 last)) (rw at pivot)
          | inr other ↦ rw other (r.pivots e (ground arith))
        ];
        fresh = λ e le lt'. let old = r.fresh e (omega arith) lt' in ground (arith, old);
        kept = λ e le.
            let ne : (e == m.dep) ≡ false = ground arith in
            let seen = frame e (m.shard_offset_arr e) (omega arith) (r.pivots e le) in
            rw (ne, seen) refl;
        finish = rw at refl;
        state = rw (at, over) refl;
        number = fresh.2;
        whole = rw (at, size) refl;
        size = size;
        size_le = omega arith;
        buffer = rw at buffer;
        shared = shared;
        rest = rw at rest;
      }

  abbrev pub again_finished : Machine → Machine
  again_finished m = record m { is_finish = update m.is_finish m.dep true }

  pub close_resume :
      (m : Machine)
      → m.sched_tree_child m.dep ≡ 0
      → m.state m.dep ≡ resume
      → close j t m ≡ (again_finished m, false)
  unfolding close
  close_resume m z s = rw (z, s) refl

  -- Another buffer of a depth
  pub go_on_lem :
      (base : Machine) (c : List ℕ) (cs : List (List ℕ)) (m : Machine)
      → m.dep + 1 < t.num_query_vertices
      → Emptied j t f l m.dep base (c ∷ cs) m
      → Loaded j t f l m.dep base c cs (length c) 0 (go_on j t (again_finished m))
  unfolding go_on
  go_on_lem base c cs m lt h =
      let (good, kind, list, size, rest, over, frame) =
        proceed_next m.dep (m.shard_offset_arr m.dep) m.block c cs lt h.good
          (h.pivots m.dep (omega arith)) (h.shared refl) h.rest in
      let at : (m.dep == m.dep) ≡ true = ground arith in
      record {
        dep = refl;
        node = h.node;
        shards = h.shards;
        good = good;
        pivots = h.pivots;
        fresh = λ e le lt'. let old = h.fresh e le lt' in ground (arith, old);
        kept = λ e le.
            let ne : (e == m.dep) ≡ false = ground arith in
            let seen = frame e (m.shard_offset_arr e) (omega arith) (h.pivots e (omega arith)) in
            rw (ne, seen) (h.kept e le);
        finish = rw at refl;
        state = rw (at, over) (ap (λ s. if is_nil cs then initial else s) h.state);
        number = h.number;
        whole = rw (at, size) refl;
        size = size;
        size_le = omega arith;
        buffer = inl (kind, list);
        shared = λ more. kind;
        rest = rest;
      }

  replace_first :
      (a b : Machine) {m : Machine}
      → step j t a ≡ step j t b
      → Steps j t f l b m
      → (m ≡ b) ⊎ Steps j t f l a m
  replace_first a b e here = inl refl
  replace_first a b e (next {m1} {m2} r s) = elim (replace_first a b e r) [
    | inl same ↦ inr (next here (e ∙ ap (step j t) (sym same) ∙ s))
    | inr run ↦ inr (next run s)
  ]

  -- A machine that makes the same step closes with the same machine.
  pub Closes-replace :
      (a b last : Machine) → step j t a ≡ step j t b → Closes j t f l b last → Closes j t f l a last
  Closes-replace a b last e (m', run, done) = elim (replace_first a b e run) [
    | inl same ↦ (a, here, e ∙ ap (step j t) (sym same) ∙ done)
    | inr run' ↦ (m', run', done)
  ]

  pub Closes-after :
      (a b last : Machine) → Steps j t f l a b → Closes j t f l b last → Closes j t f l a last
  Closes-after a b last r (m', run, done) = (m', Steps-trans j t f l r run, done)

  -- A machine that fills its buffer first makes the step of the machine with the filled buffer.
  pub step-refill :
      (a b : Machine)
      → t.num_query_vertices < 2 ^ 32
      → a.dep + 1 < t.num_query_vertices
      → b.dep ≡ a.dep
      → b.is_finish b.dep ≡ false
      → refill j t a ≡ b
      → step j t a ≡ step j t b
  step-refill a b small lt d finish e =
      step_inside j t a small lt
      ∙ ap (use_buffer j t) (e ∙ sym (refill_off j t b finish))
      ∙ sym (step_inside j t b small (omega (arith, d)))

  pub refill-begin :
      (m : Machine)
      → m.is_finish m.dep ≡ true
      → m.state m.dep ≡ initial
      → refill j t m ≡ begin j t m
  unfolding refill
  refill-begin m fin s = rw (fin, s) refl

  pub refill-go_on :
      (m : Machine)
      → m.state m.dep ≡ resume
      → refill j t (again_finished m) ≡ go_on j t (again_finished m)
  unfolding refill
  refill-go_on m s = let at : (m.dep == m.dep) ≡ true = ground arith in rw (at, s) refl
