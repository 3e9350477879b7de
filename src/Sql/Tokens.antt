-- ===== src/Sql/Tokens.antt =====
-- Texts of whole tokens: literals, comments and plain characters.
use dbwarden.Common.{ℕ, ◌≡◌, Bool, true, false, Option, [], ◌∷◌, ◌++◌, ◌&&◌, ◌==◌, not, Text}
use dbwarden.Sql.Split.{head, next_is, is_quote}

-- What follows the quote `q`, to the quote that closes the literal.
pub data Literal (q : ℕ) : Text → Type 0 where
  closes : Literal q (q ∷ [])
  doubles : (t : Text) → Literal q t → Literal q (q ∷ q ∷ t)
  escapes : (c : ℕ) (t : Text) → Literal q t → Literal q (92 ∷ c ∷ t)
  holds :
      (c : ℕ) (t : Text) → (c == q) ≡ false → (c == 92) ≡ false → Literal q t → Literal q (c ∷ t)

-- What follows the two dashes of a comment, to the end of its line.
pub data LineComment : Text → Type 0 where
  ends_line : LineComment (10 ∷ [])
  in_line : (c : ℕ) (t : Text) → (c == 10) ≡ false → LineComment t → LineComment (c ∷ t)

-- What follows the opening of a block comment, to its closing.
pub data BlockComment : Text → Type 0 where
  ends_block : BlockComment (42 ∷ 47 ∷ [])
  in_block :
      (c d : ℕ) (t : Text)
      → (c == 42 && d == 47) ≡ false
      → BlockComment (d ∷ t)
      → BlockComment (c ∷ d ∷ t)

-- A character that opens no token and ends no statement.
abbrev pub is_plain : ℕ → Option ℕ → Bool
is_plain c next =
    not (is_quote c)
    && not (c == 45 && next_is 45 next)
    && not (c == 47 && next_is 42 next)
    && not (c == 59)

-- A text of whole literals, whole comments and plain characters.
pub data Tokens : Text → Type 0 where
  end : Tokens []
  plain : (c : ℕ) (t : Text) → is_plain c (head t) ≡ true → Tokens t → Tokens (c ∷ t)
  literal :
      (q : ℕ) (s t : Text)
      → is_quote q ≡ true
      → Literal q s
      → next_is q (head t) ≡ false
      → Tokens t
      → Tokens (q ∷ (s ++ t))
  line : (s t : Text) → LineComment s → Tokens t → Tokens (45 ∷ 45 ∷ (s ++ t))
  block :
      (s t : Text)
      → next_is 47 (head s) ≡ false
      → BlockComment s
      → Tokens t
      → Tokens (47 ∷ 42 ∷ (s ++ t))
