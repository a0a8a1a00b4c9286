-- ===== src/Scheduler/Outcome.antt =====
-- What a step of the search in source/cuMatch/lgf_scheduler.cpp adds to a parent, and two steps.
use cu_match.Prelude.{
  ℕ, ◌+◌, ◌≡◌, ◌≢◌, refl, sym, ◌∙◌, Bool, true, false, ◌||◌, Option, some, List, [], ◌∷◌, ◌++◌, map,
  ◌>>=◌, arith,
}
use mathlib.Core.List.{append_assoc, append-nil}
use cu_match.SchedTree.{Sleaf, Node, Children, nil, cons, level, v_id}
use cu_match.SchedTree.Levels.{IsLeveled, AreBelow}
use cu_match.Scheduler.{Ranges, Found, push_back}
use cu_match.Scheduler.Windows.{paths_each, paths}
use cu_match.Scheduler.Restore.{SameStacks, SameStacks-refl, SameStacks-trans}

abbrev pub nonempty {ℓ} : {A : Type ℓ} → List A → Bool
nonempty [] = false
nonempty (x ∷ xs) = true

pub nonempty-true {ℓ} : {A : Type ℓ} (xs : List A) → xs ≢ [] → nonempty xs ≡ true
nonempty-true [] h = absurd (h refl)
nonempty-true (x ∷ xs) h = refl

pub nonempty-append {ℓ} :
    {A : Type ℓ} (xs ys : List A) → nonempty (xs ++ ys) ≡ (nonempty xs || nonempty ys)
nonempty-append [] ys = refl
nonempty-append (x ∷ xs) ys = refl

pub nonempty-map {ℓ κ} :
    {A : Type ℓ} {B : Type κ} (f : A → B) (xs : List A) → nonempty (map f xs) ≡ nonempty xs
nonempty-map f [] = refl
nonempty-map f (x ∷ xs) = refl

pub or_assoc : (a b c : Bool) → ((a || b) || c) ≡ (a || (b || c))
or_assoc a b c = ground arith

pub AreBelow-push_back :
    (l : ℕ) (c : Children) (p : Node)
    → AreBelow l c
    → level p ≡ l + 1
    → v_id p ≢ 0
    → IsLeveled p
    → AreBelow l (push_back c p)
unfolding AreBelow
AreBelow-push_back l nil p h a b d = (a, b, d, tt)
AreBelow-push_back l (cons q qs) p h a b d = (h.0, h.1, h.2, AreBelow-push_back l qs p h.3 a b d)

-- What a part of the search does: the stacks are back, the parent got the choices.
pub record Adds (n l : ℕ) (choices : List (List Sleaf)) (g : Ranges) (parent : Found)
    (result : Option (Ranges × Found)) : Type 0 where
  pub ranges : Ranges
  pub found : Found
  pub run : result ≡ some (ranges, found)
  pub same : SameStacks g ranges
  pub added : paths_each (paths n) found.child ≡ paths_each (paths n) parent.child ++ choices
  pub valid : found.valid ≡ (parent.valid || nonempty choices)
  pub below : AreBelow l parent.child → AreBelow l found.child

-- What the whole search below a node does.
pub record Finds (l n : ℕ) (found_paths : List (List Sleaf)) (g : Ranges)
    (result : Option (Ranges × Found)) : Type 0 where
  pub ranges : Ranges
  pub found : Found
  pub run : result ≡ some (ranges, found)
  pub same : SameStacks g ranges
  pub all : paths n found.child ≡ found_paths
  pub valid : found.valid ≡ nonempty found_paths
  pub below : AreBelow l found.child

pub Adds-nothing : (n l : ℕ) (g : Ranges) (parent : Found) → Adds n l [] g parent (some (g, parent))
Adds-nothing n l g parent = record {
  ranges = g;
  found = parent;
  run = refl;
  same = SameStacks-refl g;
  added = sym (append-nil _);
  valid = ground arith;
  below = λ h. h;
}

pub Adds-both :
    (n l : ℕ) (a b : List (List Sleaf)) (g : Ranges) (parent : Found)
    (first : Option (Ranges × Found)) (second : Ranges → Found → Option (Ranges × Found))
    → (d : Adds n l a g parent first)
    → ((g' : Ranges) (p' : Found) → SameStacks g g' → Adds n l b g' p' (second g' p'))
    → Adds n l (a ++ b) g parent (first >>= λ r. second r.0 r.1)
Adds-both n l a b g parent first second d k =
    let d' = k d.ranges d.found d.same in
    record {
      ranges = d'.ranges;
      found = d'.found;
      run = rw d.run d'.run;
      same = SameStacks-trans d.same d'.same;
      added = d'.added ∙ rw d.added (append_assoc _ a b);
      valid =
          d'.valid
          ∙ rw (d.valid, nonempty-append a b) (or_assoc parent.valid (nonempty a) (nonempty b));
      below = λ h. d'.below (d.below h);
    }
