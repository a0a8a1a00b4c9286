-- ===== src/SchedTree/Tasks/Ends.antt =====
-- The loop of `pop_single_kernel_task` (source/cuMatch/sched_plan_tree.cpp) ends, and loses no group.
use cu_match.Prelude.{
  ℕ, zero, suc, ◌<◌, ◌≡◌, ◌⊎◌, refl, ap, sym, ◌∙◌, Bool, true, false, Option, none, some, List, [],
  ◌∷◌, ◌++◌, ◌>>=◌, arith, Bool-cases, Option-cases, inl, inr, >>=-elim, some_inj, some-pair,
}
use mathlib.Core.List.{append-nil, append_assoc}
use cu_match.SchedTree.{Sleaf, this_node}
use cu_match.SchedTree.Groups.{SubtaskInfo, GridGroupInfo, Plan, pop_grid_group}
use cu_match.SchedTree.Chains.{IsValid, left, rounds}
use cu_match.SchedTree.Drain.{pop_grid_group-HandsOut, shards_of}
use cu_match.SchedTree.Tasks.{
  TaskConfig, Filler, filled, failed, is_cached, push_sleaves, push_subtask, group_sleaves,
  required_size, is_full, check_full, add_group, take_group, to_vlevel, fill_task,
}
use cu_match.SchedTree.Tasks.Fits.{subtask_of}

abbrev pub subtasks_of : List GridGroupInfo → List SubtaskInfo
subtasks_of [] = []
subtasks_of (g ∷ gs) = subtask_of g.st_info ++ subtasks_of gs

-- The shards of the group that waits for the next call, and of all that follow
abbrev pub waiting : Plan → List (Option Sleaf)
waiting s = elim s.grid_group_ptr [ none ↦ left s | some g ↦ g.grid_group ++ left s ]

push_sleaves-subtasks : (ls : List Sleaf) (f : Filler) → (push_sleaves ls f).subtasks ≡ f.subtasks
push_sleaves-subtasks [] f = refl
push_sleaves-subtasks (sleaf ∷ ls) f = elim (Bool-cases (is_cached sleaf.unique_id f.cache)) [
  | inl old ↦ rw (old, push_sleaves) (push_sleaves-subtasks ls f)
  | inr new ↦ rw (new, push_sleaves) (push_sleaves-subtasks ls _)
]

push_subtask-subtasks :
    (st : Option SubtaskInfo) (f : Filler)
    → (push_subtask st f).subtasks ≡ f.subtasks ++ subtask_of st
push_subtask-subtasks none f = sym (append-nil f.subtasks)
push_subtask-subtasks (some st) f = refl

module _ (c : TaskConfig) where
  -- What a group leaves: it goes in with its subtask, or waits.
  abbrev Takes : GridGroupInfo → Filler → Filler → Bool → Type 0
  Takes g f f' full =
      (full ≡ true → f' ≡ f) × (full ≡ false → f'.subtasks ≡ f.subtasks ++ subtask_of g.st_info)

  decided-Takes :
      (g : GridGroupInfo) (required : ℕ) (ls : List Sleaf) (f f' : Filler) (full b : Bool)
      → ◌≡◌ {A = Option (Filler × Bool)}
          (elim b [
            | true ↦ check_full c g f >>= λ x. some (f, true)
            | false ↦ add_group c g required ls f >>= λ x. some (x, false)
          ])
          (some (f', full))
      → Takes g f f' full
  unfolding add_group
  decided-Takes g required ls f f' full true run =
      >>=-elim (check_full c g f) _ run
        (λ x _ last. let (same, over) = some-pair last in (λ _. sym same, λ e. absurd (cc)))
  decided-Takes g required ls f f' full false run =
      >>=-elim (add_group c g required ls f) _ run (λ f1 added last.
        let (same, over) = some-pair last in
        >>=-elim (to_vlevel c g.max_level) _ added (λ v _ made. (
          λ e. absurd (cc),
          λ _.
              ap (λ (x : Filler). x.subtasks) (sym (some_inj made ∙ same))
              ∙ push_subtask-subtasks g.st_info _
              ∙ ap (λ (x : List SubtaskInfo). x ++ subtask_of g.st_info)
                  (push_sleaves-subtasks ls _),
        )))

  take_group-Takes :
      (g : GridGroupInfo) (f f' : Filler) (full : Bool)
      → take_group c g f ≡ some (f', full)
      → Takes g f f' full
  unfolding take_group
  take_group-Takes g f f' full run = >>=-elim (group_sleaves c.max_level g) _ run (λ ls _ rest.
      >>=-elim (is_full c g (required_size f.cache ls 0) f) _ rest
        (λ b _ last. decided-Takes g (required_size f.cache ls 0) ls f f' full b last))

  resumes :
      (s : Plan)
      → (this_node s.tracking_stk ≡ none) ⊎ IsValid s
      → IsValid (record s { grid_group_ptr = none }) ⊎ (this_node s.tracking_stk ≡ none)
  resumes s (inl over) = inr over
  resumes s (inr v) =
      inl (record { path = v.path; fresh = v.fresh; linked = v.linked; chain = v.chain })

  -- So far the loop has taken groups that pop_grid_group handed out, one after the other.
  pub data Reaches : Plan → Filler → Plan → Filler → Type 0 where
    here : {s : Plan} {f : Filler} → Reaches s f s f
    takes :
        {s : Plan} {f : Filler} {s' : Plan} {f' : Filler} (n : ℕ) (s1 : Plan) (g : GridGroupInfo)
        (f1 : Filler)
        → pop_grid_group n s ≡ some (s1, true)
        → s1.grid_group_ptr ≡ some g
        → take_group c g f ≡ some (f1, false)
        → Reaches (record s1 { grid_group_ptr = none }) f1 s' f'
        → Reaches s f s' f'

  -- The loop stops at a group that it has come to, and that it cannot take: an assertion or an index
  -- fails.
  pub record Stops (s : Plan) (f : Filler) : Type 0 where
    pub plan : Plan
    pub task : Filler
    pub reached : Reaches s f plan task
    pub fuel : ℕ
    pub popped : Plan
    pub group : GridGroupInfo
    pub pop : pop_grid_group fuel plan ≡ some (popped, true)
    pub at : popped.grid_group_ptr ≡ some group
    pub fault : take_group c group task ≡ none

  -- How the loop ends: the groups that it took, and the plan and the task that it leaves
  pub record Filled (s : Plan) (f : Filler) (s' : Plan) (f' : Filler) : Type 0 where
    pub taken : List GridGroupInfo
    pub order : left s ≡ shards_of taken ++ waiting s'
    pub tasks : f'.subtasks ≡ f.subtasks ++ subtasks_of taken

  -- With as much fuel as rounds are left in the plan, and one more, the loop ends. Either it fails:
  -- it has taken the groups that pop_grid_group handed out one after the other, and comes to a
  -- group with which an assertion fails or an index is out of range. Or it fills the task: then the
  -- shards that were left in the plan are those of the groups taken, in order, followed by those of
  -- the group that waits for the next call, if there is one, and by those that are left: no group
  -- is lost. The task has got the subtasks of the groups taken, in order. The plan is one that the
  -- calls of pop_grid_group leave.
  pub fill_task_ends :
      (fuel : ℕ) (s : Plan) (f : Filler)
      → IsValid s ⊎ (this_node s.tracking_stk ≡ none)
      → rounds s < fuel
      → ((fill_task c fuel s f ≡ failed) × Stops s f)
        ⊎ ((s' : Plan) × (f' : Filler) × (fill_task c fuel s f ≡ filled s' f') × Filled s f s' f')
  unfolding fill_task
  fill_task_ends zero s f v lt = absurd (omega (arith, lt))
  fill_task_ends (suc fuel) s f v lt = elim (pop_grid_group-HandsOut (suc fuel) s v (omega arith)) [
    | inl (none_left, run) ↦ inr (
      record s { grid_group_ptr = none },
      f,
      rw (run, fill_task) refl,
      record { taken = []; order = refl; tasks = sym (append-nil f.subtasks) },
    )
    | inr (s1, g, run, out) ↦ elim (Option-cases (take_group c g f)) [
      | inl fault ↦ inl (
        rw (run, fill_task) (rw (out.group, fault) refl),
        record {
          plan = s;
          task = f;
          reached = here;
          fuel = suc fuel;
          popped = s1;
          group = g;
          pop = run;
          at = out.group;
          fault = fault;
        },
      )
      | inr ((f1, full), taken) ↦
          let effect = take_group-Takes g f f1 full taken in
          elim (Bool-cases full) [
            | inl over ↦ inr (
              s1,
              f1,
              rw (run, fill_task) (simp (out.group, taken, over) refl),
              record {
                taken = [];
                order = out.order ∙ rw out.group refl;
                tasks =
                    ap (λ (x : Filler). x.subtasks) (effect.0 over) ∙ sym (append-nil f.subtasks);
              },
            )
            | inr goes_on ↦
                let s2 = record s1 { grid_group_ptr = none } in
                let step : fill_task c (suc fuel) s f ≡ fill_task c fuel s2 f1 =
                  rw (run, fill_task) (rw (out.group, taken, goes_on) refl) in
                elim (fill_task_ends fuel s2 f1 (resumes s1 out.valid)
                  (omega (arith, out.less, lt))) [
                    | inl (fault, cause) ↦ inl (
                      step ∙ fault,
                      record {
                        plan = cause.plan;
                        task = cause.task;
                        reached =
                            takes (suc fuel) s1 g f1 run out.group
                              (taken ∙ ap (λ x. some (f1, x)) goes_on) cause.reached;
                        fuel = cause.fuel;
                        popped = cause.popped;
                        group = cause.group;
                        pop = cause.pop;
                        at = cause.at;
                        fault = cause.fault;
                      },
                    )
                    | inr (s3, f3, ended, h) ↦ inr (
                      s3,
                      f3,
                      step ∙ ended,
                      record {
                        taken = g ∷ h.taken;
                        order =
                            out.order
                            ∙ ap (λ (x : List (Option Sleaf)). g.grid_group ++ x) h.order
                            ∙ sym (append_assoc g.grid_group (shards_of h.taken) (waiting s3));
                        tasks =
                            h.tasks
                            ∙ ap (λ (x : List SubtaskInfo). x ++ subtasks_of h.taken)
                                (effect.1 goes_on)
                            ∙ append_assoc f.subtasks (subtask_of g.st_info) (subtasks_of h.taken);
                      },
                    )
                  ]
          ]
    ]
  ]
