-- ===== src/Sql/Tests.antt =====
-- A text of three statements and a file of two, and the theorems at these inputs.
use dbwarden.Common.{
  ◌≡◌, refl, true, false, List, [], ◌∷◌, Text, text_eq, codes, concat, map, All, is_space,
  strip_left, strip_right, strip, has_prefix,
}
use dbwarden.Sql.Split.{move_quoted, move_plain, move, flush, split_from, split_sql_statements}
use dbwarden.Sql.Tokens.{Tokens, end, plain, literal, line, closes, holds, ends_line, in_line}
use dbwarden.Sql.SplitLaws.{
  joined, statements, IsCut, split_sql_statements-joined, split_sql_statements-IsCut,
}
use dbwarden.Sql.Files.{join_lines, parse_upgrade_statements}
use dbwarden.Sql.Blocks.{is_code, is_header, Block, IsBlock, block_text}
use dbwarden.Sql.RoundTrip.{file_lines, parse_upgrade_statements-file}

-- `a';'`, then a comment of a line, then `b`
abbrev with_literal : Text
with_literal = codes "a';'"

abbrev with_comment : Text
with_comment = codes "--;\nb"

with_literal-Tokens : Tokens with_literal
with_literal-Tokens =
    plain 97 (codes "';'") refl
      (literal 39 (codes ";'") [] refl (holds 59 (39 ∷ []) refl refl closes) refl end)

with_comment-Tokens : Tokens with_comment
with_comment-Tokens =
    line (59 ∷ 10 ∷ []) (codes "b") (in_line 59 (10 ∷ []) refl ends_line) (plain 98 [] refl end)

splitting : Unit {0}
unfolding is_space strip_left strip_right strip move_quoted move_plain move flush split_from
    split_sql_statements
splitting = tt

three_statements : split_sql_statements (codes "a';'; ;--;\nb") ≡ codes "a';'" ∷ codes "--;\nb" ∷ []
unfolding splitting
three_statements = refl

-- A comment is not closed by the slash that opens it, but the loop takes it so.
short_comment : split_sql_statements (codes "/*/;*/") ≡ codes "/*/" ∷ codes "*/" ∷ []
unfolding splitting
short_comment = refl

split_sql_statements-joined_example :
    split_sql_statements (joined with_literal (with_comment ∷ []))
    ≡ statements (with_literal ∷ with_comment ∷ [])
split_sql_statements-joined_example =
    split_sql_statements-joined with_literal (with_comment ∷ []) with_literal-Tokens
      (with_comment-Tokens, tt)

split_sql_statements-IsCut_example : IsCut (codes "a; b") (split_sql_statements (codes "a; b"))
split_sql_statements-IsCut_example = split_sql_statements-IsCut (codes "a; b")

abbrev header : List Text
header = codes "-- seed" ∷ []

abbrev up : List Block
up =
    record { autocommit = true; first_line = codes "a ("; other_lines = codes " b)" ∷ [] }
    ∷ record { autocommit = false; first_line = codes "c; d"; other_lines = [] }
    ∷ []

abbrev down : List Block
down = record { autocommit = false; first_line = codes "e"; other_lines = [] } ∷ []

checking : Unit {0}
unfolding text_eq is_space strip_left strip_right strip has_prefix is_code is_header
checking = tt

header_holds : All (λ l. is_header l ≡ true) header
unfolding checking
header_holds = (refl, tt)

up_holds : All IsBlock up
unfolding checking
up_holds = ((refl, (refl, tt)), ((refl, tt), tt))

down_holds : All IsBlock down
unfolding checking
down_holds = ((refl, tt), tt)

parse_upgrade_statements-file_example :
    parse_upgrade_statements (join_lines (file_lines header up down))
    ≡ concat (map split_sql_statements (map block_text up))
parse_upgrade_statements-file_example =
    parse_upgrade_statements-file header up down header_holds up_holds down_holds
