-- ===== src/Parser.antt =====
-- source/cuMatch/simple_parser.cpp: the lines of a query file, as the JSON reader hands them over,
-- to the parsed vertices, edges and constraints. Texts are lists of bytes. `boost::tokenizer` is a
-- parameter: with the separators that it drops and those that it keeps, it gives the tokens of a text.
pub mod Spelling
pub mod Tokens
pub mod RoundTrip
use cu_match.Prelude.{
  ℕ, zero, suc, ◌+◌, ◌-◌, Bool, true, false, not, ◌&&◌, List, [], ◌∷◌, ◌++◌, length, ltb, leb, ◌==◌,
  if◌then◌else◌, Option, none, some,
}
use cu_match.QueryGraph.{
  EdgeType, optional, negative, regular, EdgeDirection, directed, undirected, ConstraintType,
  not_equal, ParseVertexInfo, ParseEdgeInfo, ParseConstraintInfo,
}

abbrev pub Bytes : Type 0
Bytes = List ℕ

-- A text that does not parse makes the function return `false`; an assertion that fails is a fault.
pub data Parsed (A : Type 0) : Type 0 where
  ok : A → Parsed A
  rejected : Parsed A
  fault : Parsed A

infixl 5 ◌and_then◌
abbrev pub ◌and_then◌ : {A B : Type 0} → Parsed A → (A → Parsed B) → Parsed B
ok a and_then f = f a
rejected and_then f = rejected
fault and_then f = fault

abbrev pub assert : Bool → Parsed (Unit {0})
assert true = ok tt
assert false = fault

abbrev pub accept : Bool → Parsed (Unit {0})
accept true = ok tt
accept false = rejected

unfoldable pub same : Bytes → Bytes → Bool
same [] [] = true
same [] (d ∷ t) = false
same (c ∷ s) [] = false
same (c ∷ s) (d ∷ t) = let rest = same s t in if c == d then rest else false

-- `strcpy` of a `c_str()`: up to the first byte 0
unfoldable pub c_string : Bytes → Bytes
c_string [] = []
c_string (c ∷ s) = let rest = c_string s in if c == 0 then [] else c ∷ rest

-- `NameSizeLimit` and `LabelSizeLimit`
abbrev pub size_limit : ℕ
size_limit = 32

abbrev pub Tokenizer : Type 0
Tokenizer = Bytes → Bytes → Bytes → List Bytes

abbrev pub optional_token : Bytes
optional_token = b'O' ∷ b'P' ∷ b'T' ∷ b'I' ∷ b'O' ∷ b'N' ∷ b'A' ∷ b'L' ∷ []

abbrev pub not_token : Bytes
not_token = b'N' ∷ b'O' ∷ b'T' ∷ []

abbrev pub constraint_token : Bytes
constraint_token = b'<' ∷ b'>' ∷ []

-- The loop over `_edge_type_tokens`: the type, and what `target` starts with
unfoldable pub edge_type : Bytes → EdgeType × Bytes
edge_type token =
    if same token not_token
    then (negative, not_token ++ b' ' ∷ [])
    else if same token optional_token
    then (optional, optional_token ++ b' ' ∷ [])
    else (regular, [])

-- Five tokens start with the type.
unfoldable pub take_type : List Bytes → (EdgeType × Bytes) × List Bytes
take_type (token ∷ a ∷ b ∷ c ∷ d ∷ []) = (edge_type token, a ∷ b ∷ c ∷ d ∷ [])
take_type tokens = ((regular, []), tokens)

pub record RawEdge : Type 0 where
  pub v1_name : Bytes
  pub label : Bytes
  pub v2_name : Bytes
  pub e_dir : EdgeDirection
  pub target : Bytes

abbrev pub outgoing : Bytes → Bytes → Bytes → Bytes → Bytes
outgoing prefix v1 label v2 = prefix ++ (v1 ++ b'-' ∷ (label ++ b'-' ∷ b'>' ∷ v2))

abbrev pub ingoing : Bytes → Bytes → Bytes → Bytes → Bytes
ingoing prefix v1 label v2 = prefix ++ (v2 ++ b'<' ∷ b'-' ∷ (label ++ b'-' ∷ v1))

abbrev pub without_arrow : Bytes → Bytes → Bytes → Bytes
without_arrow v1 label v2 = v1 ++ b'-' ∷ (label ++ b'-' ∷ v2)

-- The branches on the number of tokens; that of an undirected edge sets `target` anew.
unfoldable pub raw_edge : Bytes → List Bytes → Parsed RawEdge
raw_edge prefix (a ∷ b ∷ c ∷ d ∷ []) =
    if same c []
    then ok (record {
      v1_name = a;
      label = b;
      v2_name = d;
      e_dir = directed;
      target = outgoing prefix a b d;
    })
    else if same b []
    then ok (record {
      v1_name = d;
      label = c;
      v2_name = a;
      e_dir = directed;
      target = ingoing prefix d c a;
    })
    else rejected
raw_edge prefix (a ∷ b ∷ c ∷ []) = ok (record {
  v1_name = a;
  label = b;
  v2_name = c;
  e_dir = undirected;
  target = without_arrow a b c;
})
raw_edge prefix tokens = rejected

unfoldable pub starts_with : ℕ → Bytes → Bool
starts_with c [] = false
starts_with c (d ∷ s) = c == d

unfoldable pub ends_with : ℕ → Bytes → Bool
ends_with c [] = false
ends_with c (d ∷ []) = c == d
ends_with c (d ∷ e ∷ s) = ends_with c (e ∷ s)

-- `substr(1, size() - 2)`, where there are two bytes at least
abbrev drop_last : Bytes → Bytes
drop_last [] = []
drop_last (d ∷ []) = []
drop_last (d ∷ e ∷ s) = d ∷ drop_last (e ∷ s)

unfoldable pub inside : Bytes → Bytes
inside [] = []
inside (c ∷ s) = drop_last s

abbrev pub bracketed : ℕ → ℕ → Bytes → Bool
bracketed left right s = starts_with left s && ends_with right s

abbrev pub fits : Bytes → Bool
fits s = ltb (length s) size_limit

-- `str.find(c_token) != npos`
unfoldable pub is_prefix : Bytes → Bytes → Bool
is_prefix [] s = true
is_prefix (c ∷ p) [] = false
is_prefix (c ∷ p) (d ∷ s) = let rest = is_prefix p s in if c == d then rest else false

unfoldable pub contains : Bytes → Bytes → Bool
contains p [] = is_prefix p []
contains p (d ∷ s) = let rest = contains p s in if is_prefix p (d ∷ s) then true else rest

-- What follows the comparison with `target`
unfoldable pub finish_edge : EdgeType → RawEdge → Parsed (ParseEdgeInfo Bytes)
finish_edge e_type raw = assert (bracketed b'[' b']' raw.label) and_then λ _.
    assert (bracketed b'(' b')' raw.v1_name) and_then λ _.
    assert (bracketed b'(' b')' raw.v2_name) and_then λ _.
    assert (fits (inside raw.label)) and_then λ _. assert (fits (inside raw.v1_name)) and_then λ _.
    assert (fits (inside raw.v2_name)) and_then λ _. ok (record {
      label = c_string (inside raw.label);
      v1_name = c_string (inside raw.v1_name);
      v2_name = c_string (inside raw.v2_name);
      e_type = e_type;
      e_dir = raw.e_dir;
    })

module _ (tokenize : Tokenizer) where
  unfoldable pub vertex_of_tokens : Bytes → List Bytes → Parsed (ParseVertexInfo Bytes)
  vertex_of_tokens str (name ∷ colon ∷ label ∷ []) =
      accept (same str (name ++ b':' ∷ label)) and_then λ _. assert (fits name) and_then λ _.
      assert (fits label) and_then λ _. ok (record { name = c_string name; label = c_string label })
  vertex_of_tokens str tokens = rejected

  -- One element of `_parse_query_vertices_data`
  unfoldable pub parse_vertex : Bytes → Parsed (ParseVertexInfo Bytes)
  parse_vertex str = vertex_of_tokens str (tokenize (b':' ∷ []) (b':' ∷ []) str)

  -- One element of `_parse_query_edges_data`
  unfoldable pub parse_edge : Bytes → Parsed (ParseEdgeInfo Bytes)
  parse_edge str =
      let ((e_type, prefix), tokens) =
        take_type (tokenize (b' ' ∷ b'<' ∷ b'-' ∷ b'>' ∷ []) [] str) in
      raw_edge prefix tokens and_then λ raw.
      accept (same str raw.target) and_then λ _. finish_edge e_type raw

  -- One element of `_parse_constraints_data`
  unfoldable pub constraint_of_tokens : Bytes → List Bytes → Parsed (ParseConstraintInfo Bytes)
  constraint_of_tokens str (v1_name ∷ between ∷ v2_name ∷ tokens) =
      assert (not (same v1_name v2_name)) and_then λ _.
      accept (same str (v1_name ++ (constraint_token ++ v2_name))) and_then λ _.
      assert (fits v1_name) and_then λ _. assert (fits v2_name) and_then λ _.
      ok (record { v1_name = c_string v1_name; v2_name = c_string v2_name; c_type = not_equal })
  constraint_of_tokens str tokens = fault

  unfoldable pub parse_constraint : Bytes → Parsed (ParseConstraintInfo Bytes)
  parse_constraint str =
      let tokens = tokenize constraint_token [] str in
      if contains constraint_token str then constraint_of_tokens str tokens else rejected

  -- The loop over one array of the file, `none` for an element that is no text
  unfoldable pub parse_list :
      {A : Type 0} → (Bytes → Parsed A) → List (Option Bytes) → Parsed (List A)
  parse_list f [] = ok []
  parse_list f (none ∷ rest) = rejected
  parse_list f (some str ∷ rest) = f str and_then λ a. parse_list f rest and_then λ xs. ok (a ∷ xs)

  unfoldable pub parse_array :
      {A : Type 0} → ℕ → (Bytes → Parsed A) → List (Option Bytes) → Parsed (List A)
  parse_array max_num f data_list =
      parse_list f data_list and_then λ xs. assert (leb (length xs) max_num) and_then λ _. ok xs

  pub record ParseInfos : Type 0 where
    pub vertices : List (ParseVertexInfo Bytes)
    pub edges : List (ParseEdgeInfo Bytes)
    pub constraints : List (ParseConstraintInfo Bytes)

  -- `_parse_json`, from the three arrays on
  unfoldable pub parse_json :
      List (Option Bytes) → List (Option Bytes) → List (Option Bytes) → Parsed ParseInfos
  parse_json query_vertices query_edges constraints =
      parse_array 8 parse_vertex query_vertices and_then λ vs.
      parse_array 10 parse_edge query_edges and_then λ es.
      parse_array 5 parse_constraint constraints and_then λ cs.
      ok (record { vertices = vs; edges = es; constraints = cs })
