-- ===== src/Sql/Split.antt =====
-- dbwarden/sql.py: `split_sql_statements`.
use dbwarden.Common.{
  ℕ, Bool, true, false, Option, none, some, List, [], ◌∷◌, ◌++◌, ◌&&◌, ◌||◌, ◌==◌, if◌then◌else◌,
  is_some, Text, strip,
}

-- The three variables that say where the loop stands.
pub record Lexer : Type 0 where
  pub quote : Option ℕ
  pub line_comment : Bool
  pub block_comment : Bool

-- What the loop does with a character: append it, append it and the next one, or end the statement.
pub data Move : Type 0 where
  one two : Lexer → Move
  cut : Move

-- `sql[index + 1]`, if there is one
abbrev pub head : Text → Option ℕ
head [] = none
head (c ∷ t) = some c

-- `next_char == c`
abbrev pub next_is : ℕ → Option ℕ → Bool
next_is c none = false
next_is c (some d) = d == c

-- `char in ("'", '"', "`")`
abbrev pub is_quote : ℕ → Bool
is_quote c = c == 39 || c == 34 || c == 96

unfoldable pub move_quoted : Lexer → ℕ → ℕ → Option ℕ → Move
move_quoted s q c next =
    if c == q
    then if next_is q next then two s else one (record s { quote = none })
    else if c == 92 && is_some next
    then two s
    else one s

unfoldable pub move_plain : Lexer → ℕ → Option ℕ → Move
move_plain s c next =
    if is_quote c
    then one (record s { quote = some c })
    else if c == 45 && next_is 45 next
    then one (record s { line_comment = true })
    else if c == 47 && next_is 42 next
    then one (record s { block_comment = true })
    else if c == 59
    then cut
    else one s

-- The body of the loop.
unfoldable pub move : Lexer → ℕ → Option ℕ → Move
unfolding move_quoted move_plain
move s c next =
    if s.line_comment
    then one (if c == 10 then record s { line_comment = false } else s)
    else if s.block_comment
    then if c == 42 && next_is 47 next then two (record s { block_comment = false }) else one s
    else elim s.quote [ some q ↦ move_quoted s q c next | none ↦ move_plain s c next ]

-- `if current_text := "".join(current).strip(): statements.append(current_text)`
unfoldable pub flush : Text → List Text
flush current = elim (strip current) [ [] ↦ [] | c ∷ t ↦ (c ∷ t) ∷ [] ]

-- The loop, from the text that is left.
unfoldable pub split_from : Lexer → Text → Text → List Text
unfolding move flush
split_from s current [] = flush current
split_from s current (c ∷ []) = elim (move s c none) [
  | one s' ↦ flush (current ++ c ∷ [])
  | two s' ↦ flush (current ++ c ∷ [])
  | cut ↦ flush current ++ flush []
]
split_from s current (c ∷ d ∷ rest) = elim (move s c (some d)) [
  | one s' ↦ split_from s' (current ++ c ∷ []) (d ∷ rest)
  | two s' ↦ split_from s' (current ++ c ∷ d ∷ []) rest
  | cut ↦ flush current ++ split_from s [] (d ∷ rest)
]

abbrev pub start : Lexer
start = record { quote = none; line_comment = false; block_comment = false }

unfoldable pub split_sql_statements : Text → List Text
unfolding split_from
split_sql_statements sql = split_from start [] sql
