-- ===== src/Parser/RoundTrip.antt =====
-- The parser of source/cuMatch/simple_parser.cpp on texts that are written as it expects them.
use cu_match.Prelude.{
  ℕ, ◌<◌, ◌≡◌, ◌≢◌, refl, ap, ◌∙◌, true, false, List, [], ◌∷◌, ◌++◌, length, lt→ltb, ◌==◌, All,
  arith,
}
use cu_match.QueryGraph.{
  EdgeType, optional, negative, regular, EdgeDirection, directed, undirected, ParseEdgeInfo,
}
use cu_match.Parser.{
  Bytes, ok, rejected, same, c_string, Tokenizer, optional_token, not_token, edge_type, take_type,
  RawEdge, outgoing, ingoing, without_arrow, raw_edge, starts_with, ends_with, inside, bracketed,
  finish_edge, parse_edge, drop_last,
}
use cu_match.Parser.Spelling.{same_refl, wrap, prefix_of}
use cu_match.Parser.Tokens.{is_in, IsFree, IsTokenizer}

abbrev separators : Bytes
separators = b' ' ∷ b'<' ∷ b'-' ∷ b'>' ∷ []

-- A name or label: no separator and no byte 0, and less than 32 bytes
pub record IsPlain (s : Bytes) : Type 0 where
  pub free : IsFree separators [] s
  pub no_end : All (λ c. c ≢ 0) s
  pub short : length s < 32

c_string_lem : (s : Bytes) → All (λ c. c ≢ 0) s → c_string s ≡ s
unfolding c_string
c_string_lem [] h = refl
c_string_lem (c ∷ s) (h, hs) =
    let ne : (c == 0) ≡ false = ground arith in rw ne (ap (λ x. c ∷ x) (c_string_lem s hs))

ends_with-append : (right d : ℕ) (s : Bytes) → ends_with right (d ∷ s ++ right ∷ []) ≡ true
unfolding ends_with
ends_with-append right d [] = ground arith
ends_with-append right d (e ∷ s) = ends_with-append right e s

ends_with-wrap : (left right : ℕ) (s : Bytes) → ends_with right (wrap left s right) ≡ true
ends_with-wrap left right s = ends_with-append right left s

bracketed-wrap : (left right : ℕ) (s : Bytes) → bracketed left right (wrap left s right) ≡ true
unfolding starts_with
bracketed-wrap left right s =
    let first : (left == left) ≡ true = ground arith in rw first (ends_with-wrap left right s)

drop_last-append : (s : Bytes) (right : ℕ) → drop_last (s ++ right ∷ []) ≡ s
drop_last-append [] right = refl
drop_last-append (c ∷ []) right = refl
drop_last-append (c ∷ d ∷ s) right = ap (λ x. c ∷ x) (drop_last-append (d ∷ s) right)

inside-wrap : (left right : ℕ) (s : Bytes) → inside (wrap left s right) ≡ s
unfolding inside
inside-wrap left right s = drop_last-append s right

All-append : (P : ℕ → Type 0) (s t : Bytes) → All P s → All P t → All P (s ++ t)
All-append P [] t h k = k
All-append P (c ∷ s) t (h, hs) k = (h, All-append P s t hs k)

wrap-IsFree :
    (left right : ℕ) (s : Bytes)
    → is_in left separators ≡ false
    → is_in right separators ≡ false
    → IsFree separators [] s
    → IsFree separators [] (wrap left s right)
wrap-IsFree left right s l r h = (
  (l, refl),
  All-append (λ c. (is_in c separators ≡ false) × (is_in c [] ≡ false)) s (right ∷ []) h
      ((r, refl), tt),
)

abbrev pub edge : EdgeType → EdgeDirection → Bytes → Bytes → Bytes → ParseEdgeInfo Bytes
edge e_type e_dir v1 label v2 = record {
  label = label;
  v1_name = v1;
  v2_name = v2;
  e_type = e_type;
  e_dir = e_dir;
}

abbrev pub vertex_text : Bytes → Bytes
vertex_text v = wrap b'(' v b')'

abbrev pub label_text : Bytes → Bytes
label_text l = wrap b'[' l b']'

finish_edge-edge :
    (e_type : EdgeType) (e_dir : EdgeDirection) (v1 label v2 target : Bytes)
    → IsPlain v1
    → IsPlain label
    → IsPlain v2
    → finish_edge e_type (record {
      v1_name = vertex_text v1;
      label = label_text label;
      v2_name = vertex_text v2;
      e_dir = e_dir;
      target = target;
    })
      ≡ ok (edge e_type e_dir v1 label v2)
unfolding finish_edge
finish_edge-edge e_type e_dir v1 label v2 target h k g =
    rw
      (
        bracketed-wrap b'[' b']' label,
        bracketed-wrap b'(' b')' v1,
        bracketed-wrap b'(' b')' v2,
        inside-wrap b'[' b']' label,
        inside-wrap b'(' b')' v1,
        inside-wrap b'(' b')' v2,
        lt→ltb _ _ k.short,
        lt→ltb _ _ h.short,
        lt→ltb _ _ g.short,
        c_string_lem label k.no_end,
        c_string_lem v1 h.no_end,
        c_string_lem v2 g.no_end,
      )
      refl

cons-ne-nil : {c : ℕ} {s : Bytes} → c ∷ s ≢ []
cons-ne-nil e = let z = ap length e in absurd (omega (arith, z))

module _ (tokenize : Tokenizer) (laws : IsTokenizer tokenize) (v1 label v2 : Bytes) (h : IsPlain v1)
    (k : IsPlain label) (g : IsPlain v2) where
  abbrev tokens : Bytes → List Bytes
  tokens = tokenize separators []

  vertex-IsFree : (s : Bytes) → IsPlain s → IsFree separators [] (vertex_text s)
  vertex-IsFree s p = wrap-IsFree b'(' b')' s refl refl p.free

  label-IsFree : IsFree separators [] (label_text label)
  label-IsFree = wrap-IsFree b'[' b']' label refl refl k.free

  next :
      (s : Bytes) (c : ℕ) (rest : Bytes)
      → IsFree separators [] s
      → is_in c separators ≡ true
      → rest ≢ []
      → tokens (s ++ c ∷ rest) ≡ s ∷ tokens rest
  next s c rest free sep ne = laws.at_dropped separators [] s c rest free sep ne

  final : (s : Bytes) → IsPlain s → tokens (vertex_text s) ≡ vertex_text s ∷ []
  final s p = laws.single separators [] (vertex_text s) (vertex-IsFree s p) (cons-ne-nil)

  tokens-outgoing :
      tokens (outgoing [] (vertex_text v1) (label_text label) (vertex_text v2))
      ≡ vertex_text v1 ∷ label_text label ∷ [] ∷ vertex_text v2 ∷ []
  tokens-outgoing =
      next (vertex_text v1) b'-' _ (vertex-IsFree v1 h) refl cons-ne-nil
      ∙ ap (λ x. vertex_text v1 ∷ x)
          (next (label_text label) b'-' (b'>' ∷ vertex_text v2) label-IsFree refl cons-ne-nil
            ∙ ap (λ x. label_text label ∷ x)
                (next [] b'>' (vertex_text v2) tt refl cons-ne-nil ∙ ap (λ x. [] ∷ x) (final v2 g)))

  tokens-ingoing :
      tokens (ingoing [] (vertex_text v1) (label_text label) (vertex_text v2))
      ≡ vertex_text v2 ∷ [] ∷ label_text label ∷ vertex_text v1 ∷ []
  tokens-ingoing =
      next (vertex_text v2) b'<' (b'-' ∷ (label_text label ++ b'-' ∷ vertex_text v1))
        (vertex-IsFree v2 g) refl cons-ne-nil
      ∙ ap (λ x. vertex_text v2 ∷ x)
          (next [] b'-' (label_text label ++ b'-' ∷ vertex_text v1) tt refl cons-ne-nil
            ∙ ap (λ x. [] ∷ x)
                (next (label_text label) b'-' (vertex_text v1) label-IsFree refl cons-ne-nil
                  ∙ ap (λ x. label_text label ∷ x) (final v1 h)))

  tokens-without_arrow :
      tokens (without_arrow (vertex_text v1) (label_text label) (vertex_text v2))
      ≡ vertex_text v1 ∷ label_text label ∷ vertex_text v2 ∷ []
  tokens-without_arrow =
      next (vertex_text v1) b'-' (label_text label ++ b'-' ∷ vertex_text v2) (vertex-IsFree v1 h)
        refl cons-ne-nil
      ∙ ap (λ x. vertex_text v1 ∷ x)
          (next (label_text label) b'-' (vertex_text v2) label-IsFree refl cons-ne-nil
            ∙ ap (λ x. label_text label ∷ x) (final v2 g))

  -- A word for the type comes first.
  abbrev typed : EdgeType → List Bytes → List Bytes
  typed optional ts = optional_token ∷ ts
  typed negative ts = not_token ∷ ts
  typed regular ts = ts

  tokens-prefix_of :
      (e_type : EdgeType) (rest : Bytes)
      → rest ≢ []
      → tokens (prefix_of e_type ++ rest) ≡ typed e_type (tokens rest)
  tokens-prefix_of optional rest ne =
      next optional_token b' ' rest
        (
          (refl, refl),
          (
            (refl, refl),
            (
              (refl, refl),
              ((refl, refl), ((refl, refl), ((refl, refl), ((refl, refl), ((refl, refl), tt))))),
            ),
          ),
        )
        refl ne
  tokens-prefix_of negative rest ne =
      next not_token b' ' rest ((refl, refl), ((refl, refl), ((refl, refl), tt))) refl ne
  tokens-prefix_of regular rest ne = refl

  abbrev raw : EdgeDirection → Bytes → RawEdge
  raw e_dir target = record {
    v1_name = vertex_text v1;
    label = label_text label;
    v2_name = vertex_text v2;
    e_dir = e_dir;
    target = target;
  }

  -- What follows the tokens, from the number of tokens on
  finish_tokens :
      (str : Bytes) (ts : List Bytes) (e_type : EdgeType) (prefix : Bytes) (e_dir : EdgeDirection)
      (rest : List Bytes)
      → tokens str ≡ ts
      → take_type ts ≡ ((e_type, prefix), rest)
      → raw_edge prefix rest ≡ ok (raw e_dir str)
      → parse_edge tokenize str ≡ ok (edge e_type e_dir v1 label v2)
  unfolding parse_edge
  finish_tokens str ts e_type prefix e_dir rest at split made =
      rw (at, split, made, same_refl str) (finish_edge-edge e_type e_dir v1 label v2 str h k g)

  abbrev text_out : EdgeType → Bytes
  text_out e_type = outgoing (prefix_of e_type) (vertex_text v1) (label_text label) (vertex_text v2)

  abbrev text_in : EdgeType → Bytes
  text_in e_type = ingoing (prefix_of e_type) (vertex_text v1) (label_text label) (vertex_text v2)

  abbrev text_plain : Bytes
  text_plain = without_arrow (vertex_text v1) (label_text label) (vertex_text v2)

  take_type-typed :
      (e_type : EdgeType) (a b c d : Bytes)
      → take_type (typed e_type (a ∷ b ∷ c ∷ d ∷ []))
        ≡ ((e_type, prefix_of e_type), a ∷ b ∷ c ∷ d ∷ [])
  unfolding take_type edge_type same
  take_type-typed optional a b c d = refl
  take_type-typed negative a b c d = refl
  take_type-typed regular a b c d = refl

  read_outgoing :
      (e_type : EdgeType)
      → parse_edge tokenize (text_out e_type) ≡ ok (edge e_type directed v1 label v2)
  unfolding raw_edge same
  read_outgoing e_type =
      finish_tokens (text_out e_type) _ e_type (prefix_of e_type) directed _
        (tokens-prefix_of e_type (text_out regular) cons-ne-nil ∙ ap (typed e_type) tokens-outgoing)
        (take_type-typed e_type _ _ _ _) refl

  read_ingoing :
      (e_type : EdgeType)
      → parse_edge tokenize (text_in e_type) ≡ ok (edge e_type directed v1 label v2)
  unfolding raw_edge same
  read_ingoing e_type =
      finish_tokens (text_in e_type) _ e_type (prefix_of e_type) directed _
        (tokens-prefix_of e_type (text_in regular) cons-ne-nil ∙ ap (typed e_type) tokens-ingoing)
        (take_type-typed e_type _ _ _ _) refl

  read_without_arrow : parse_edge tokenize text_plain ≡ ok (edge regular undirected v1 label v2)
  unfolding raw_edge take_type
  read_without_arrow =
      finish_tokens text_plain _ regular [] undirected _ tokens-without_arrow refl refl

  reject_typed :
      (e_type : EdgeType)
      → e_type ≢ regular
      → parse_edge tokenize (prefix_of e_type ++ text_plain) ≡ rejected
  unfolding parse_edge raw_edge same take_type
  reject_typed optional ne =
      rw (tokens-prefix_of optional text_plain cons-ne-nil, tokens-without_arrow) refl
  reject_typed negative ne =
      rw (tokens-prefix_of negative text_plain cons-ne-nil, tokens-without_arrow) refl
  reject_typed regular ne = absurd (ne refl)

  -- An edge of any type that is written with an arrow, in either direction, and a regular edge that is
  -- written without one, are read as they are meant. An undirected edge behind the word for a type is
  -- rejected, whatever its names are. Names and labels have no separator and no byte 0, and less
  -- than 32 bytes, and the tokenizer gives the text before each separator as a token.
  pub parse_edge_cases :
      (e_type : EdgeType)
      → (parse_edge tokenize (text_out e_type) ≡ ok (edge e_type directed v1 label v2))
        × (parse_edge tokenize (text_in e_type) ≡ ok (edge e_type directed v1 label v2))
        × (parse_edge tokenize text_plain ≡ ok (edge regular undirected v1 label v2))
        × (e_type ≢ regular → parse_edge tokenize (prefix_of e_type ++ text_plain) ≡ rejected)
  parse_edge_cases e_type =
      (read_outgoing e_type, read_ingoing e_type, read_without_arrow, reject_typed e_type)
