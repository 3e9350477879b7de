-- ===== src/Sql/Files.antt =====
-- dbwarden/engine/file_parser.py: the sections of a migration file, from its content.
use dbwarden.Common.{
  Bool, true, false, List, [], ◌∷◌, ◌++◌, ◌&&◌, not, ◌==◌, if◌then◌else◌, Text, text_eq, codes,
  concat, map, strip, has_prefix,
}
use dbwarden.Sql.Split.{split_sql_statements}

-- `content.split("\n")`
unfoldable pub split_lines : Text → List Text
split_lines [] = [] ∷ []
split_lines (c ∷ t) = elim (split_lines t) [
  | [] ↦ []
  | line ∷ lines ↦ if c == 10 then [] ∷ line ∷ lines else (c ∷ line) ∷ lines
]

-- `"\n".join(lines)`
unfoldable pub join_lines : List Text → Text
join_lines [] = []
join_lines (line ∷ []) = line
join_lines (line ∷ next ∷ lines) = line ++ (10 ∷ join_lines (next ∷ lines))

abbrev pub upgrade_marker : Text
upgrade_marker = codes "-- upgrade"

abbrev pub rollback_marker : Text
rollback_marker = codes "-- rollback"

abbrev pub autocommit_marker : Text
autocommit_marker = codes "-- @dbwarden:autocommit"

-- The variables of the loop; `pending_marker` is None or the one marker there is.
pub record Section : Type 0 where
  pub raw_statements : List Text
  pub current_statement : List Text
  pub in_section : Bool
  pub pending_marker : Bool

-- `pending_marker + "\n" + statement if pending_marker else statement`
unfoldable pub marked : Bool → Text → Text
marked true statement = autocommit_marker ++ (10 ∷ statement)
marked false statement = statement

-- `if current_statement:` with the lines under it
unfoldable pub end_statement : Section → Section
unfolding marked
end_statement s = elim s.current_statement [
  | [] ↦ s
  | line ∷ lines ↦ elim (strip (join_lines (line ∷ lines))) [
    | [] ↦ record s { current_statement = []; pending_marker = false }
    | c ∷ t ↦ record s {
      raw_statements = s.raw_statements ++ marked s.pending_marker (c ∷ t) ∷ [];
      current_statement = [];
      pending_marker = false;
    }
  ]
]

-- The body of the loop.
unfoldable pub read_line : Text → Section → Text → Section
unfolding end_statement
read_line section_marker s line =
    if text_eq (strip line) section_marker
    then record s { in_section = true }
    else if text_eq (strip line) rollback_marker && s.in_section
    then record (end_statement s) { in_section = false }
    else if not s.in_section
    then s
    else if text_eq (strip line) autocommit_marker
    then record (end_statement s) { pending_marker = true }
    else if not (text_eq (strip line) []) && not (has_prefix (codes "--") (strip line))
    then record s { current_statement = s.current_statement ++ line ∷ [] }
    else if text_eq (strip line) []
    then end_statement s
    else s

unfoldable pub read_lines : Text → Section → List Text → Section
unfolding read_line
read_lines section_marker s [] = s
read_lines section_marker s (line ∷ lines) =
    read_lines section_marker (read_line section_marker s line) lines

abbrev pub no_lines : Section
no_lines = record {
  raw_statements = [];
  current_statement = [];
  in_section = false;
  pending_marker = false;
}

unfoldable pub extract_section_statements : Text → Text → List Text
unfolding split_lines read_lines end_statement
extract_section_statements content section_marker = concat (
    map split_sql_statements
      (end_statement (read_lines section_marker no_lines (split_lines content))).raw_statements)

unfoldable pub parse_upgrade_statements : Text → List Text
unfolding extract_section_statements
parse_upgrade_statements content = extract_section_statements content upgrade_marker

unfoldable pub parse_rollback_statements : Text → List Text
unfolding extract_section_statements
parse_rollback_statements content = extract_section_statements content rollback_marker
