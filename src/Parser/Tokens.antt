-- ===== src/Parser/Tokens.antt =====
-- What source/cuMatch/simple_parser.cpp relies on in `boost::tokenizer` with a `char_separator` that
-- keeps empty tokens.
use cu_match.Prelude.{ℕ, ◌≡◌, ◌≢◌, Bool, true, false, [], ◌∷◌, ◌++◌, ◌==◌, if◌then◌else◌, All}
use cu_match.Parser.{Bytes, Tokenizer}

abbrev pub is_in : ℕ → Bytes → Bool
is_in c [] = false
is_in c (d ∷ s) = let rest = is_in c s in if c == d then true else rest

-- No separator stands in the text.
abbrev pub IsFree : Bytes → Bytes → Bytes → Type 0
IsFree dropped kept = All (λ c. (is_in c dropped ≡ false) × (is_in c kept ≡ false))

-- A text without separators is one token. Else the text before the first separator is one, though
-- it be empty, and a separator that is kept is the next.
pub record IsTokenizer (tokenize : Tokenizer) : Type 0 where
  pub single :
      (dropped kept s : Bytes) → IsFree dropped kept s → s ≢ [] → tokenize dropped kept s ≡ s ∷ []
  pub at_dropped :
      (dropped kept s : Bytes) (c : ℕ) (rest : Bytes)
      → IsFree dropped kept s
      → is_in c dropped ≡ true
      → rest ≢ []
      → tokenize dropped kept (s ++ c ∷ rest) ≡ s ∷ tokenize dropped kept rest
  pub at_kept :
      (dropped kept s : Bytes) (c : ℕ) (rest : Bytes)
      → IsFree dropped kept s
      → is_in c dropped ≡ false
      → is_in c kept ≡ true
      → rest ≢ []
      → tokenize dropped kept (s ++ c ∷ rest) ≡ s ∷ (c ∷ []) ∷ tokenize dropped kept rest
