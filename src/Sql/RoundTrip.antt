-- ===== src/Sql/RoundTrip.antt =====
-- The content of a migration file, and the statements that are parsed from it.
use dbwarden.Common.{
  ◌≡◌, refl, true, false, List, [], ◌∷◌, ◌++◌, Text, text_eq, concat, map, strip, has_prefix, All,
  All-map, All-append, arith, ap, ◌∙◌,
}
use dbwarden.Sql.Split.{split_sql_statements}
use dbwarden.Sql.Files.{
  split_lines, join_lines, upgrade_marker, rollback_marker, Section, end_statement, read_line,
  read_lines, no_lines, extract_section_statements, parse_upgrade_statements,
  parse_rollback_statements,
}
use dbwarden.Sql.Blocks.{
  Block, IsBlock, block_lines, section_lines, block_text, no_newline, split_lines-join_lines,
  code_line, is_header, All-block_lines,
}
use dbwarden.Sql.FileLaws.{
  inside, outside, read_lines-append, read_lines-outside, blocks-outside, read_lines-section,
  leave_section, strip-nil, strip-upgrade, strip-rollback,
}

-- The lines of a file with a header, the statements of the upgrade and those of the rollback.
abbrev pub file_lines : List Text → List Block → List Block → List Text
file_lines header up down =
    header ++ (section_lines upgrade_marker up ++ section_lines rollback_marker down)

header_line :
    (l : Text)
    → is_header l ≡ true
    → (no_newline l ≡ true)
      × (text_eq (strip l) upgrade_marker ≡ false)
      × (text_eq (strip l) rollback_marker ≡ false)
unfolding is_header
header_line l h = (ground (arith, h), ground (arith, h), ground (arith, h))

read_upgrade :
    (header : List Text) (up down : List Block)
    → All (λ l. is_header l ≡ true) header
    → All IsBlock up
    → All IsBlock down
    → read_lines upgrade_marker no_lines (file_lines header up down) ≡ outside (map block_text up)
unfolding has_prefix text_eq read_line read_lines
read_upgrade header up down h u d =
    let m = upgrade_marker in
    let found = map block_text up in
    let below = concat (map block_lines down) in
    read_lines-append m no_lines header (section_lines m up ++ section_lines rollback_marker down)
    ∙ ap
        (λ (s : Section). read_lines m s (section_lines m up ++ section_lines rollback_marker down))
        (read_lines-outside m [] header (
          All-map (λ l. is_header l ≡ true) (λ l. text_eq (strip l) m ≡ false) header
            (λ l k. (header_line l k).1) h))
    ∙ read_lines-append m no_lines (section_lines m up) (section_lines rollback_marker down)
    ∙ ap (λ (s : Section). read_lines m s (section_lines rollback_marker down))
        (read_lines-section m up refl refl (rw strip-upgrade refl) u)
    ∙ ap (λ (s : Section). read_lines m s ([] ∷ below)) (leave_section found)
    ∙ read_lines-outside m found ([] ∷ below) (rw strip-nil refl, blocks-outside m down refl refl d)

read_rollback :
    (header : List Text) (up down : List Block)
    → All (λ l. is_header l ≡ true) header
    → All IsBlock up
    → All IsBlock down
    → read_lines rollback_marker no_lines (file_lines header up down)
      ≡ inside (map block_text down) [] false
unfolding has_prefix text_eq read_line read_lines
read_rollback header up down h u d =
    let m = rollback_marker in
    let above = concat (map block_lines up) in
    read_lines-append m no_lines header (section_lines upgrade_marker up ++ section_lines m down)
    ∙ ap (λ (s : Section). read_lines m s (section_lines upgrade_marker up ++ section_lines m down))
        (read_lines-outside m [] header (
          All-map (λ l. is_header l ≡ true) (λ l. text_eq (strip l) m ≡ false) header
            (λ l k. (header_line l k).2) h))
    ∙ read_lines-append m no_lines (section_lines upgrade_marker up) (section_lines m down)
    ∙ ap (λ (s : Section). read_lines m s (section_lines m down))
        (read_lines-outside m [] (upgrade_marker ∷ [] ∷ above)
          (rw strip-upgrade refl, (rw strip-nil refl, blocks-outside m up refl refl u)))
    ∙ read_lines-section m down refl refl (rw strip-rollback refl) d

file_lines-newline :
    (header : List Text) (up down : List Block)
    → All (λ l. is_header l ≡ true) header
    → All IsBlock up
    → All IsBlock down
    → All (λ l. no_newline l ≡ true) (file_lines header up down)
file_lines-newline header up down h u d =
    All-append (λ l. no_newline l ≡ true) header
      (section_lines upgrade_marker up ++ section_lines rollback_marker down)
      (All-map (λ l. is_header l ≡ true) (λ l. no_newline l ≡ true) header
        (λ l k. (header_line l k).0) h)
      (All-append (λ l. no_newline l ≡ true) (section_lines upgrade_marker up)
        (section_lines rollback_marker down) (refl, (refl, blocks up u))
        (refl, (refl, blocks down d)))
  where
    blocks :
        (bs : List Block)
        → All IsBlock bs
        → All (λ l. no_newline l ≡ true) (concat (map block_lines bs))
    blocks bs k =
        All-block_lines (λ l. no_newline l ≡ true) refl refl (λ l j. (code_line l j).1) bs k

split_lines-file :
    (header : List Text) (up down : List Block)
    → All (λ l. is_header l ≡ true) header
    → All IsBlock up
    → All IsBlock down
    → split_lines (join_lines (file_lines header up down)) ≡ file_lines header up down
split_lines-file [] up down h u d =
    split_lines-join_lines upgrade_marker
      ([] ∷ concat (map block_lines up) ++ section_lines rollback_marker down)
      (file_lines-newline [] up down h u d)
split_lines-file (line ∷ header) up down h u d =
    split_lines-join_lines line (file_lines header up down)
      (file_lines-newline (line ∷ header) up down h u d)

-- The statements of a section of the lines.
abbrev found_in : Text → List Text → List Text
found_in m lines =
    concat (map split_sql_statements (end_statement (read_lines m no_lines lines)).raw_statements)

-- The statements of the upgrade, of lines of code, written into a file one below the other with a
-- blank line behind each and the marker of autocommit above those that have it, are what is parsed of
-- the file, the marker included, each split at its semicolons; the header and the rollback add nothing.
pub parse_upgrade_statements-file :
    (header : List Text) (up down : List Block)
    → All (λ l. is_header l ≡ true) header
    → All IsBlock up
    → All IsBlock down
    → parse_upgrade_statements (join_lines (file_lines header up down))
      ≡ concat (map split_sql_statements (map block_text up))
unfolding parse_upgrade_statements extract_section_statements end_statement
parse_upgrade_statements-file header up down h u d =
    ap (found_in upgrade_marker) (split_lines-file header up down h u d)
    ∙ ap (λ (s : Section). concat (map split_sql_statements (end_statement s).raw_statements))
        (read_upgrade header up down h u d)

-- The statements of the rollback, written into the same file behind those of the upgrade, are what
-- is parsed as its rollback, each split at its semicolons; the header and the upgrade add nothing.
parse_rollback_statements-file :
    (header : List Text) (up down : List Block)
    → All (λ l. is_header l ≡ true) header
    → All IsBlock up
    → All IsBlock down
    → parse_rollback_statements (join_lines (file_lines header up down))
      ≡ concat (map split_sql_statements (map block_text down))
unfolding parse_rollback_statements extract_section_statements end_statement
parse_rollback_statements-file header up down h u d =
    ap (found_in rollback_marker) (split_lines-file header up down h u d)
    ∙ ap (λ (s : Section). concat (map split_sql_statements (end_statement s).raw_statements))
        (read_rollback header up down h u d)
