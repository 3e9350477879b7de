-- ===== src/Sql/FileLaws.antt =====
-- What is read of the sections of a migration file.
use dbwarden.Common.{
  ℕ, ◌≡◌, refl, Bool, true, false, List, [], ◌∷◌, ◌++◌, ◌&&◌, if◌then◌else◌, Text, text_eq,
  text_eq_sound, codes, concat, map, strip, strip_left, strip_right, has_prefix, All, All-map,
  arith, Bool-cases, inl, inr, sym, ap, ◌∙◌, append_assoc, append-nil,
}
use dbwarden.Sql.Files.{
  join_lines, upgrade_marker, rollback_marker, autocommit_marker, Section, marked, end_statement,
  read_line, read_lines, no_lines,
}
use dbwarden.Sql.Blocks.{
  is_code, Block, code_lines, IsBlock, block_lines, section_lines, block_text, no_newline,
  join_lines-letter, code_line, All-block_lines,
}

pub read_lines-append :
    (m : Text) (s : Section) (front back : List Text)
    → read_lines m s (front ++ back) ≡ read_lines m (read_lines m s front) back
unfolding read_lines
read_lines-append m s [] back = refl
read_lines-append m s (line ∷ front) back = read_lines-append m (read_line m s line) front back

-- Inside a section, with what is found before it.
abbrev pub inside : List Text → List Text → Bool → Section
inside raw current pending = record {
  raw_statements = raw;
  current_statement = current;
  in_section = true;
  pending_marker = pending;
}

-- A comment is not a line of code.
code-comment :
    (line m : Text)
    → is_code line ≡ true
    → has_prefix (codes "--") m ≡ true
    → text_eq (strip line) m ≡ false
unfolding is_code
code-comment line m h k = elim (Bool-cases (text_eq (strip line) m)) [
  | inr e ↦ e
  | inl e ↦ absurd (
      let same : has_prefix (codes "--") (strip line) ≡ true =
        ap (has_prefix (codes "--")) (text_eq_sound (strip line) m e) ∙ k in
      ground (arith, h, same))
]

pub strip-nil : strip [] ≡ []
unfolding strip strip_left strip_right
strip-nil = refl

strip-autocommit : strip autocommit_marker ≡ autocommit_marker
unfolding strip strip_left strip_right
strip-autocommit = refl

pub strip-upgrade : strip upgrade_marker ≡ upgrade_marker
unfolding strip strip_left strip_right
strip-upgrade = refl

pub strip-rollback : strip rollback_marker ≡ rollback_marker
unfolding strip strip_left strip_right
strip-rollback = refl

comment-not-blank : (m : Text) → has_prefix (codes "--") m ≡ true → text_eq [] m ≡ false
unfolding has_prefix text_eq
comment-not-blank [] h = cc
comment-not-blank (c ∷ m) h = refl

not_empty : (t : Text) → text_eq t [] ≡ false → (c : ℕ) × (u : Text) × (t ≡ c ∷ u)
unfolding text_eq
not_empty [] h = cc
not_empty (c ∷ t) h = (c, t, refl)

module _ (m : Text) (h : has_prefix (codes "--") m ≡ true) where
  read_line-code :
      (raw current : List Text) (pending : Bool) (line : Text)
      → is_code line ≡ true
      → read_line m (inside raw current pending) line ≡ inside raw (current ++ line ∷ []) pending
  unfolding read_line has_prefix is_code
  read_line-code raw current pending line k =
      rw
        (
          code-comment line m k h,
          code-comment line rollback_marker k refl,
          code-comment line autocommit_marker k refl,
          k,
        )
        refl

  read_lines-code :
      (raw current : List Text) (pending : Bool) (lines : List Text)
      → All (λ l. is_code l ≡ true) lines
      → read_lines m (inside raw current pending) lines ≡ inside raw (current ++ lines) pending
  unfolding read_lines
  read_lines-code raw current pending [] k =
      ap (λ (c : List Text). inside raw c pending) (sym (append-nil current))
  read_lines-code raw current pending (line ∷ lines) (k, ks) =
      ap (λ (s : Section). read_lines m s lines) (read_line-code raw current pending line k)
      ∙ read_lines-code raw (current ++ line ∷ []) pending lines ks
      ∙ ap (λ (c : List Text). inside raw c pending) (append_assoc current (line ∷ []) lines)

  -- The blank line behind a statement.
  read_line-blank :
      (raw : List Text) (line : Text) (lines : List Text) (pending : Bool)
      → text_eq (strip (join_lines (line ∷ lines))) [] ≡ false
      → read_line m (inside raw (line ∷ lines) pending) []
        ≡ inside (raw ++ marked pending (strip (join_lines (line ∷ lines))) ∷ []) [] false
  unfolding read_line end_statement text_eq has_prefix
  read_line-blank raw line lines pending k =
      let (c, t, e) = not_empty (strip (join_lines (line ∷ lines))) k in
      rw (strip-nil, comment-not-blank m h, e, end_statement) refl

  module _ (other : text_eq autocommit_marker m ≡ false) where
    read_line-autocommit :
        (raw : List Text) → read_line m (inside raw [] false) autocommit_marker ≡ inside raw [] true
    unfolding read_line end_statement text_eq
    read_line-autocommit raw = rw (strip-autocommit, other) refl

    read_lines-autocommit :
        (raw lines : List Text) (a : Bool)
        → read_lines m (inside raw [] false) ((if a then autocommit_marker ∷ [] else []) ++ lines)
          ≡ read_lines m (inside raw [] a) lines
    unfolding read_lines
    read_lines-autocommit raw lines false = refl
    read_lines-autocommit raw lines true =
        ap (λ (s : Section). read_lines m s lines) (read_line-autocommit raw)

    read_lines-block :
        (raw : List Text) (b : Block)
        → IsBlock b
        → read_lines m (inside raw [] false) (block_lines b)
          ≡ inside (raw ++ block_text b ∷ []) [] false
    unfolding read_lines
    read_lines-block raw b k =
        read_lines-autocommit raw (code_lines b ++ [] ∷ []) b.autocommit
        ∙ read_lines-append m (inside raw [] b.autocommit) (code_lines b) ([] ∷ [])
        ∙ ap (λ (s : Section). read_line m s [])
            (read_lines-code raw [] b.autocommit (code_lines b) (
              All-map (λ l. (is_code l && no_newline l) ≡ true) (λ l. is_code l ≡ true)
                (code_lines b) (λ l j. (code_line l j).0) k))
        ∙ read_line-blank raw b.first_line b.other_lines b.autocommit
            (join_lines-letter b.first_line b.other_lines (code_line b.first_line k.0).0)

    read_lines-blocks :
        (raw : List Text) (bs : List Block)
        → All IsBlock bs
        → read_lines m (inside raw [] false) (concat (map block_lines bs))
          ≡ inside (raw ++ map block_text bs) [] false
    unfolding read_lines
    read_lines-blocks raw [] k = ap (λ (r : List Text). inside r [] false) (sym (append-nil raw))
    read_lines-blocks raw (b ∷ bs) (k, ks) =
        read_lines-append m (inside raw [] false) (block_lines b) (concat (map block_lines bs))
        ∙ ap (λ (s : Section). read_lines m s (concat (map block_lines bs)))
            (read_lines-block raw b k)
        ∙ read_lines-blocks (raw ++ block_text b ∷ []) bs ks
        ∙ ap (λ (r : List Text). inside r [] false)
            (append_assoc raw (block_text b ∷ []) (map block_text bs))

-- Outside a section, with what is found before.
abbrev pub outside : List Text → Section
outside raw = record {
  raw_statements = raw;
  current_statement = [];
  in_section = false;
  pending_marker = false;
}

read_line-outside :
    (m : Text) (raw : List Text) (line : Text)
    → text_eq (strip line) m ≡ false
    → read_line m (outside raw) line ≡ outside raw
unfolding read_line
read_line-outside m raw line h = elim (Bool-cases (text_eq (strip line) rollback_marker)) [
  | inl e ↦ rw (h, e) refl
  | inr e ↦ rw (h, e) refl
]

pub read_lines-outside :
    (m : Text) (raw lines : List Text)
    → All (λ l. text_eq (strip l) m ≡ false) lines
    → read_lines m (outside raw) lines ≡ outside raw
unfolding read_lines
read_lines-outside m raw [] h = refl
read_lines-outside m raw (line ∷ lines) (h, hs) =
    ap (λ (s : Section). read_lines m s lines) (read_line-outside m raw line h)
    ∙ read_lines-outside m raw lines hs

-- The lines of the statements of another section.
pub blocks-outside :
    (m : Text) (bs : List Block)
    → has_prefix (codes "--") m ≡ true
    → text_eq autocommit_marker m ≡ false
    → All IsBlock bs
    → All (λ l. text_eq (strip l) m ≡ false) (concat (map block_lines bs))
blocks-outside m bs h other k =
    All-block_lines (λ l. text_eq (strip l) m ≡ false) (rw strip-nil (comment-not-blank m h))
      (rw strip-autocommit other) (λ l j. code-comment l m (code_line l j).0 h) bs k

enter_section :
    (m : Text) → text_eq (strip m) m ≡ true → read_line m no_lines m ≡ inside [] [] false
unfolding read_line
enter_section m same = rw same refl

skip_blank :
    (m : Text)
    → has_prefix (codes "--") m ≡ true
    → read_line m (inside [] [] false) [] ≡ inside [] [] false
unfolding read_line end_statement text_eq
skip_blank m h = rw (strip-nil, comment-not-blank m h) refl

pub leave_section :
    (found : List Text)
    → read_line upgrade_marker (inside found [] false) rollback_marker ≡ outside found
unfolding read_line end_statement text_eq
leave_section found = rw strip-rollback refl

-- What a section's own lines add.
pub read_lines-section :
    (m : Text) (bs : List Block)
    → has_prefix (codes "--") m ≡ true
    → text_eq autocommit_marker m ≡ false
    → text_eq (strip m) m ≡ true
    → All IsBlock bs
    → read_lines m no_lines (section_lines m bs) ≡ inside (map block_text bs) [] false
unfolding read_lines
read_lines-section m bs h other same k =
    ap (λ (s : Section). read_lines m (read_line m s []) (concat (map block_lines bs)))
      (enter_section m same)
    ∙ ap (λ (s : Section). read_lines m s (concat (map block_lines bs))) (skip_blank m h)
    ∙ read_lines-blocks m h other [] bs k
