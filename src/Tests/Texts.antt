-- ===== src/Tests/Texts.antt =====
-- Texts of a query file for source/cuMatch/simple_parser.cpp, and a tokenizer.
use cu_match.Prelude.{ℕ, ◌≡◌, ◌≢◌, refl, ap, true, false, List, [], ◌∷◌, ◌++◌, if◌then◌else◌, arith}
use cu_match.QueryGraph.{negative, regular, directed, undirected}
use cu_match.Parser.{
  Bytes, Tokenizer, ok, rejected, parse_edge, outgoing, ingoing, without_arrow, take_type,
  edge_type, raw_edge, finish_edge, same, starts_with, ends_with, inside, c_string,
}
use cu_match.Parser.Spelling.{prefix_of, Reads, parse_edge-Reads}
use cu_match.Parser.Tokens.{is_in, IsFree, IsTokenizer}
use cu_match.Parser.RoundTrip.{IsPlain, edge, vertex_text, label_text, parse_edge_cases}

abbrev put : ℕ → List Bytes → List Bytes
put c [] = (c ∷ []) ∷ []
put c (t ∷ ts) = (c ∷ t) ∷ ts

split : Tokenizer
split dropped kept [] = [] ∷ []
split dropped kept (c ∷ s) =
    let rest = split dropped kept s in
    if is_in c dropped then [] ∷ rest else if is_in c kept then [] ∷ (c ∷ []) ∷ rest else put c rest

split-single : (dropped kept s : Bytes) → IsFree dropped kept s → split dropped kept s ≡ s ∷ []
unfolding split
split-single dropped kept [] h = refl
split-single dropped kept (c ∷ s) ((d, k), hs) =
    rw (d, k) (ap (put c) (split-single dropped kept s hs))

split-drop :
    (dropped kept s : Bytes) (c : ℕ) (rest : Bytes)
    → IsFree dropped kept s
    → is_in c dropped ≡ true
    → split dropped kept (s ++ c ∷ rest) ≡ s ∷ split dropped kept rest
unfolding split
split-drop dropped kept [] c rest h d = rw d refl
split-drop dropped kept (b ∷ s) c rest ((d', k'), hs) d =
    rw (d', k') (ap (put b) (split-drop dropped kept s c rest hs d))

split-keep :
    (dropped kept s : Bytes) (c : ℕ) (rest : Bytes)
    → IsFree dropped kept s
    → is_in c dropped ≡ false
    → is_in c kept ≡ true
    → split dropped kept (s ++ c ∷ rest) ≡ s ∷ (c ∷ []) ∷ split dropped kept rest
unfolding split
split-keep dropped kept [] c rest h d k = rw (d, k) refl
split-keep dropped kept (b ∷ s) c rest ((d', k'), hs) d k =
    rw (d', k') (ap (put b) (split-keep dropped kept s c rest hs d k))

split-IsTokenizer : IsTokenizer split
split-IsTokenizer = record {
  single = λ dropped kept s h ne. split-single dropped kept s h;
  at_dropped = λ dropped kept s c rest h d ne. split-drop dropped kept s c rest h d;
  at_kept = λ dropped kept s c rest h d k ne. split-keep dropped kept s c rest h d k;
}

abbrev name : ℕ → Bytes
name c = c ∷ []

name-IsPlain : (c : ℕ) → is_in c (b' ' ∷ b'<' ∷ b'-' ∷ b'>' ∷ []) ≡ false → c ≢ 0 → IsPlain (name c)
name-IsPlain c free ne = record {
  free = ((free, refl), tt);
  no_end = (ne, tt);
  short = omega arith;
}

abbrev u : Bytes
u = name b'u'

abbrev v : Bytes
v = name b'v'

abbrev l : Bytes
l = name b'l'

parse_edge_cases_example :
    (parse_edge split (outgoing (prefix_of negative) (vertex_text u) (label_text l) (vertex_text v))
      ≡ ok (edge negative directed u l v))
    × (parse_edge split
          (ingoing (prefix_of negative) (vertex_text u) (label_text l) (vertex_text v))
        ≡ ok (edge negative directed u l v))
    × (parse_edge split (without_arrow (vertex_text u) (label_text l) (vertex_text v))
        ≡ ok (edge regular undirected u l v))
    × (negative ≢ regular
        → parse_edge split
            (prefix_of negative ++ without_arrow (vertex_text u) (label_text l) (vertex_text v))
          ≡ rejected)
parse_edge_cases_example =
    parse_edge_cases split split-IsTokenizer u l v (name-IsPlain b'u' refl (omega arith))
      (name-IsPlain b'l' refl (omega arith)) (name-IsPlain b'v' refl (omega arith)) negative

read_one :
    parse_edge split (outgoing [] (vertex_text u) (label_text l) (vertex_text v))
    ≡ ok (edge regular directed u l v)
unfolding split parse_edge take_type edge_type raw_edge same finish_edge starts_with ends_with
    inside c_string
read_one = refl

parse_edge-Reads_example :
    Reads (outgoing [] (vertex_text u) (label_text l) (vertex_text v)) (edge regular directed u l v)
parse_edge-Reads_example =
    parse_edge-Reads split (outgoing [] (vertex_text u) (label_text l) (vertex_text v))
      (edge regular directed u l v) read_one
