-- ===== src/Parser/Spelling.antt =====
-- What the texts that source/cuMatch/simple_parser.cpp takes for edges look like.
use cu_match.Prelude.{
  ℕ, ◌<◌, ◌≡◌, ◌≢◌, ◌⊎◌, inl, inr, refl, sym, ap, ◌∙◌, Bool, true, false, List, [], ◌∷◌, ◌++◌,
  length, ltb→lt, ◌==◌, ==_iff, Bool-cases, arith,
}
use mathlib.Core.Path.{subst}
use cu_match.QueryGraph.{EdgeType, optional, negative, regular, directed, undirected, ParseEdgeInfo}
use cu_match.Parser.{
  Bytes, Parsed, ok, rejected, fault, ◌and_then◌, assert, accept, same, c_string, Tokenizer,
  optional_token, not_token, edge_type, take_type, RawEdge, outgoing, ingoing, without_arrow,
  raw_edge, starts_with, ends_with, inside, bracketed, fits, finish_edge, parse_edge, drop_last,
}

pub and_then-eq-ok :
    {A B : Type 0} (m : Parsed A) (f : A → Parsed B) {b : B}
    → (m and_then f) ≡ ok b
    → (a : A) × (m ≡ ok a) × (f a ≡ ok b)
and_then-eq-ok (ok a) f e = (a, refl, e)
and_then-eq-ok rejected f e = absurd (ground (arith, e))
and_then-eq-ok fault f e = absurd (ground (arith, e))

pub assert-eq-ok :
    {B : Type 0} (t : Bool) (m : Parsed B) {b : B}
    → (assert t and_then λ _. m) ≡ ok b
    → (t ≡ true) × (m ≡ ok b)
assert-eq-ok true m e = (refl, e)
assert-eq-ok false m e = absurd (ground (arith, e))

pub accept-eq-ok :
    {B : Type 0} (t : Bool) (m : Parsed B) {b : B}
    → (accept t and_then λ _. m) ≡ ok b
    → (t ≡ true) × (m ≡ ok b)
accept-eq-ok true m e = (refl, e)
accept-eq-ok false m e = absurd (ground (arith, e))

pub same-eq : (s t : Bytes) → same s t ≡ true → s ≡ t
unfolding same
same-eq [] [] h = refl
same-eq [] (d ∷ t) h = absurd (ground (arith, h))
same-eq (c ∷ s) [] h = absurd (ground (arith, h))
same-eq (c ∷ s) (d ∷ t) h = ground (arith, same-eq s t)

pub same_refl : (s : Bytes) → same s s ≡ true
unfolding same
same_refl [] = refl
same_refl (c ∷ s) = ground (arith, same_refl s)

-- A text between two brackets
abbrev pub wrap : ℕ → Bytes → ℕ → Bytes
wrap left s right = left ∷ s ++ right ∷ []

drop_last-append :
    (right d : ℕ) (s : Bytes)
    → ends_with right (d ∷ s) ≡ true
    → d ∷ s ≡ drop_last (d ∷ s) ++ right ∷ []
unfolding ends_with
drop_last-append right d [] h = ground (arith, h)
drop_last-append right d (e ∷ s) h = ap (λ x. d ∷ x) (drop_last-append right e s h)

bracketed-wrap :
    (left right : ℕ) (s : Bytes)
    → left ≢ right
    → bracketed left right s ≡ true
    → s ≡ wrap left (inside s) right
unfolding starts_with ends_with inside
bracketed-wrap left right [] ne h = absurd (ground (arith, h))
bracketed-wrap left right (c ∷ []) ne h = absurd (ground (arith, h))
bracketed-wrap left right (c ∷ d ∷ s) ne h = elim (Bool-cases (left == c)) [
  | inl first ↦
      let last : ends_with right (d ∷ s) ≡ true = rw first at h in
      ap (λ x. x ∷ d ∷ s) (sym ((==_iff left c).0 first))
      ∙ ap (λ x. left ∷ x) (drop_last-append right d s last)
  | inr other ↦ absurd (ground (arith, h))
]

-- How a text of a given type begins
abbrev pub prefix_of : EdgeType → Bytes
prefix_of optional = optional_token ++ b' ' ∷ []
prefix_of negative = not_token ++ b' ' ∷ []
prefix_of regular = []

-- The three ways to write an edge; an undirected one has no type.
abbrev pub IsForm : EdgeType → RawEdge → Type 0
IsForm e_type raw =
    ((raw.e_dir ≡ directed)
      × (raw.target ≡ outgoing (prefix_of e_type) raw.v1_name raw.label raw.v2_name))
    ⊎ ((raw.e_dir ≡ directed)
        × (raw.target ≡ ingoing (prefix_of e_type) raw.v1_name raw.label raw.v2_name))
    ⊎ ((raw.e_dir ≡ undirected)
        × (e_type ≡ regular)
        × (raw.target ≡ without_arrow raw.v1_name raw.label raw.v2_name))

edge_type-prefix_of : (token : Bytes) → (edge_type token).1 ≡ prefix_of (edge_type token).0
unfolding edge_type
edge_type-prefix_of token = elim (Bool-cases (same token not_token)) [
  | inl is_not ↦ rw is_not refl
  | inr other ↦ elim (Bool-cases (same token optional_token)) [
    | inl is_optional ↦ rw (other, is_optional) refl
    | inr none ↦ rw (other, none) refl
  ]
]

ok-injective : {A : Type 0} {a b : A} → ok a ≡ ok b → a ≡ b
ok-injective {a = a} e = ap (λ m. elim m [ ok x ↦ x | rejected ↦ a | fault ↦ a ]) e

four_tokens :
    (e_type : EdgeType) (a b c d : Bytes) (raw : RawEdge)
    → raw_edge (prefix_of e_type) (a ∷ b ∷ c ∷ d ∷ []) ≡ ok raw
    → IsForm e_type raw
unfolding raw_edge
four_tokens e_type a b c d raw e = elim (Bool-cases (same c [])) [
  | inl out ↦ subst (IsForm e_type) (ok-injective (rw out at e)) (inl (refl, refl))
  | inr more ↦ elim (Bool-cases (same b [])) [
    | inl into ↦
        subst (IsForm e_type) (ok-injective (rw (more, into) at e)) (inr (inl (refl, refl)))
    | inr none ↦ absurd (ground (arith, rw (more, none) at e))
  ]
]

three_tokens :
    (prefix a b c : Bytes) (raw : RawEdge)
    → raw_edge prefix (a ∷ b ∷ c ∷ []) ≡ ok raw
    → IsForm regular raw
unfolding raw_edge
three_tokens prefix a b c raw e =
    subst (IsForm regular) (ok-injective e) (inr (inr (refl, refl, refl)))

abbrev Formed : (EdgeType × Bytes) × List Bytes → Type 0
Formed x = (raw : RawEdge) → raw_edge x.0.1 x.1 ≡ ok raw → IsForm x.0.0 raw

take_type-IsForm : (tokens : List Bytes) → Formed (take_type tokens)
unfolding take_type raw_edge
take_type-IsForm [] raw e = absurd (ground (arith, e))
take_type-IsForm (a ∷ []) raw e = absurd (ground (arith, e))
take_type-IsForm (a ∷ b ∷ []) raw e = absurd (ground (arith, e))
take_type-IsForm (a ∷ b ∷ c ∷ []) raw e = three_tokens [] a b c raw e
take_type-IsForm (a ∷ b ∷ c ∷ d ∷ []) raw e = four_tokens regular a b c d raw e
take_type-IsForm (token ∷ a ∷ b ∷ c ∷ d ∷ []) raw e =
    four_tokens (edge_type token).0 a b c d raw
      (ap (λ prefix. raw_edge prefix (a ∷ b ∷ c ∷ d ∷ [])) (sym (edge_type-prefix_of token)) ∙ e)
take_type-IsForm (token ∷ a ∷ b ∷ c ∷ d ∷ x ∷ xs) raw e = absurd (ground (arith, e))

-- The text of an edge, in one of the three ways
abbrev pub IsSpelling : ParseEdgeInfo Bytes → Bytes → Bytes → Bytes → Bytes → Type 0
IsSpelling edge v1 label v2 str =
    ((edge.e_dir ≡ directed)
      × (str
          ≡ outgoing (prefix_of edge.e_type) (wrap b'(' v1 b')') (wrap b'[' label b']')
              (wrap b'(' v2 b')')))
    ⊎ ((edge.e_dir ≡ directed)
        × (str
            ≡ ingoing (prefix_of edge.e_type) (wrap b'(' v1 b')') (wrap b'[' label b']')
                (wrap b'(' v2 b')')))
    ⊎ ((edge.e_dir ≡ undirected)
        × (edge.e_type ≡ regular)
        × (str ≡ without_arrow (wrap b'(' v1 b')') (wrap b'[' label b']') (wrap b'(' v2 b')')))

spell3 :
    (f : Bytes → Bytes → Bytes → Bytes) {a a' b b' c c' : Bytes}
    → a ≡ a'
    → b ≡ b'
    → c ≡ c'
    → f a b c ≡ f a' b' c'
spell3 f e1 e2 e3 = λ i. f (e1 i) (e2 i) (e3 i)

-- The edge that is read, and the texts that it is read from
pub record Reads (str : Bytes) (edge : ParseEdgeInfo Bytes) : Type 0 where
  pub v1 : Bytes
  pub label : Bytes
  pub v2 : Bytes
  pub v1_is : edge.v1_name ≡ c_string v1
  pub label_is : edge.label ≡ c_string label
  pub v2_is : edge.v2_name ≡ c_string v2
  pub sizes : (length v1 < 32) × (length label < 32) × (length v2 < 32)
  pub spelling : IsSpelling edge v1 label v2 str

finish_edge-Reads :
    (e_type : EdgeType) (raw : RawEdge) (edge : ParseEdgeInfo Bytes)
    → IsForm e_type raw
    → finish_edge e_type raw ≡ ok edge
    → Reads raw.target edge
unfolding finish_edge
finish_edge-Reads e_type raw edge form e =
    let (label_in, e1) = assert-eq-ok (bracketed b'[' b']' raw.label) _ e in
    let (v1_in, e2) = assert-eq-ok (bracketed b'(' b')' raw.v1_name) _ e1 in
    let (v2_in, e3) = assert-eq-ok (bracketed b'(' b')' raw.v2_name) _ e2 in
    let (label_fits, e4) = assert-eq-ok (fits (inside raw.label)) _ e3 in
    let (v1_fits, e5) = assert-eq-ok (fits (inside raw.v1_name)) _ e4 in
    let (v2_fits, e6) = assert-eq-ok (fits (inside raw.v2_name)) _ e5 in
    let l = bracketed-wrap b'[' b']' raw.label (omega arith) label_in in
    let x = bracketed-wrap b'(' b')' raw.v1_name (omega arith) v1_in in
    let y = bracketed-wrap b'(' b')' raw.v2_name (omega arith) v2_in in
    let made : ParseEdgeInfo Bytes = record {
      label = c_string (inside raw.label);
      v1_name = c_string (inside raw.v1_name);
      v2_name = c_string (inside raw.v2_name);
      e_type = e_type;
      e_dir = raw.e_dir;
    } in
    let reads : Reads raw.target made = record {
      v1 = inside raw.v1_name;
      label = inside raw.label;
      v2 = inside raw.v2_name;
      v1_is = refl;
      label_is = refl;
      v2_is = refl;
      sizes = (ltb→lt _ _ v1_fits, ltb→lt _ _ label_fits, ltb→lt _ _ v2_fits);
      spelling = elim form [
        | inl (d, t) ↦ inl (d, t ∙ spell3 (outgoing (prefix_of e_type)) x l y)
        | inr (inl (d, t)) ↦ inr (inl (d, t ∙ spell3 (ingoing (prefix_of e_type)) x l y))
        | inr (inr (d, r, t)) ↦ inr (inr (d, r, t ∙ spell3 without_arrow x l y))
      ];
    } in
    subst (Reads raw.target) (ok-injective e6) reads

-- Whatever the tokens of a text are, an edge that is read from it stands in it in one of three ways:
-- with an arrow from the first vertex to the second, `(v1)-[label]->(v2)`, or the other way round,
-- `(v2)<-[label]-(v1)`, and behind the word for its type, or without an arrow, `(v1)-[label]-(v2)`,
-- and then it is a regular edge. The names and the label have less than 32 bytes.
pub parse_edge-Reads :
    (tokenize : Tokenizer) (str : Bytes) (edge : ParseEdgeInfo Bytes)
    → parse_edge tokenize str ≡ ok edge
    → Reads str edge
unfolding parse_edge
parse_edge-Reads tokenize str edge e =
    let split = take_type (tokenize (b' ' ∷ b'<' ∷ b'-' ∷ b'>' ∷ []) [] str) in
    let form = take_type-IsForm (tokenize (b' ' ∷ b'<' ∷ b'-' ∷ b'>' ∷ []) [] str) in
    let (raw, made, e1) = and_then-eq-ok (raw_edge split.0.1 split.1) _ e in
    let (equal, e2) = accept-eq-ok (same str raw.target) _ e1 in
    subst (λ x. Reads x edge) (sym (same-eq str raw.target equal))
      (finish_edge-Reads split.0.0 raw edge (form raw made) e2)
