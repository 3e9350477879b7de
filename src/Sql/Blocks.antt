-- ===== src/Sql/Blocks.antt =====
-- The text of a migration file, from its statements, and what is read of each.
use dbwarden.Common.{
  ℕ, ◌≡◌, refl, Bool, true, false, List, [], ◌∷◌, ◌++◌, ◌&&◌, not, ◌==◌, if◌then◌else◌, Text,
  text_eq, codes, concat, map, All-append, All-map, strip, has_prefix, all, is_space, strip_left,
  strip_right, &&-eq-true, All, arith, Bool-cases, inl, inr, ap, ◌∙◌,
}
use dbwarden.Sql.Files.{
  split_lines, join_lines, upgrade_marker, rollback_marker, autocommit_marker, marked,
}

abbrev pub no_newline : Text → Bool
no_newline t = all (λ c. not (c == 10)) t

-- Neither blank nor a comment.
unfoldable pub is_code : Text → Bool
is_code line = not (text_eq (strip line) []) && not (has_prefix (codes "--") (strip line))

-- A statement of a file: its lines, and if the marker is above them.
pub record Block : Type 0 where
  pub autocommit : Bool
  pub first_line : Text
  pub other_lines : List Text

abbrev pub code_lines : Block → List Text
code_lines b = b.first_line ∷ b.other_lines

abbrev pub IsBlock : Block → Type 0
IsBlock b = All (λ l. (is_code l && no_newline l) ≡ true) (code_lines b)

-- The lines of a statement and the blank line behind it.
abbrev pub block_lines : Block → List Text
block_lines b = (if b.autocommit then autocommit_marker ∷ [] else []) ++ (code_lines b ++ [] ∷ [])

abbrev pub section_lines : Text → List Block → List Text
section_lines section_marker bs = section_marker ∷ [] ∷ concat (map block_lines bs)

-- What is read of a statement.
abbrev pub block_text : Block → Text
block_text b = marked b.autocommit (strip (join_lines (code_lines b)))

newline : (c : ℕ) (t : Text) → no_newline (c ∷ t) ≡ true → (c == 10) ≡ false
newline c t h = ground (arith, h)

split_lines-line : (line : Text) → no_newline line ≡ true → split_lines line ≡ line ∷ []
unfolding split_lines
split_lines-line [] h = refl
split_lines-line (c ∷ t) h = rw (split_lines-line t (ground (arith, h)), newline c t h) refl

split_lines-some : (t : Text) → (line : Text) × (lines : List Text) × (split_lines t ≡ line ∷ lines)
unfolding split_lines
split_lines-some [] = ([], [], refl)
split_lines-some (c ∷ t) =
    let (line, lines, e) = split_lines-some t in
    elim (Bool-cases (c == 10)) [
      | inl f ↦ ([], line ∷ lines, rw (e, f) refl)
      | inr f ↦ (c ∷ line, lines, rw (e, f) refl)
    ]

split_lines-append :
    (line rest : Text)
    → no_newline line ≡ true
    → split_lines (line ++ (10 ∷ rest)) ≡ line ∷ split_lines rest
unfolding split_lines
split_lines-append [] rest h = let (line, lines, e) = split_lines-some rest in rw e refl
split_lines-append (c ∷ t) rest h =
    rw (split_lines-append t rest (ground (arith, h)), newline c t h) refl

-- A text is split into the lines it is joined from.
pub split_lines-join_lines :
    (line : Text) (lines : List Text)
    → All (λ l. no_newline l ≡ true) (line ∷ lines)
    → split_lines (join_lines (line ∷ lines)) ≡ line ∷ lines
unfolding join_lines
split_lines-join_lines line [] (h, _) = split_lines-line line h
split_lines-join_lines line (next ∷ lines) (h, hs) =
    split_lines-append line (join_lines (next ∷ lines)) h
    ∙ ap (λ (ls : List Text). line ∷ ls) (split_lines-join_lines next lines hs)

strip-space : (s : Text) → all is_space s ≡ true → strip s ≡ []
unfolding strip strip_left strip_right
strip-space [] h = refl
strip-space (c ∷ s) h =
    rw (&&-eq-true (is_space c) (all is_space s) h).0
      (strip-space s (&&-eq-true (is_space c) (all is_space s) h).1)

strip_right-letter :
    (c : ℕ) (s : Text) → is_space c ≡ false → text_eq (strip_right (c ∷ s)) [] ≡ false
unfolding strip_right text_eq
strip_right-letter c s h = last (strip_right s) refl
  where
    last : (t : Text) → strip_right s ≡ t → text_eq (strip_right (c ∷ s)) [] ≡ false
    last [] e = rw (e, strip_right, h) refl
    last (d ∷ t) e = rw (e, strip_right) refl

strip-letter : (s : Text) → all is_space s ≡ false → text_eq (strip s) [] ≡ false
unfolding strip strip_left
strip-letter [] h = cc
strip-letter (c ∷ s) h = elim (Bool-cases (is_space c)) [
  | inl e ↦ rw e (strip-letter s (ground (arith, e, h)))
  | inr e ↦ rw e (strip_right-letter c s e)
]

letter-append : (s t : Text) → all is_space s ≡ false → all is_space (s ++ t) ≡ false
letter-append [] t h = cc
letter-append (c ∷ s) t h = elim (Bool-cases (is_space c)) [
  | inl e ↦ rw e (letter-append s t (ground (arith, e, h)))
  | inr e ↦ rw e refl
]

code-letter : (line : Text) → is_code line ≡ true → all is_space line ≡ false
unfolding is_code text_eq
code-letter line h = elim (Bool-cases (all is_space line)) [
  | inr e ↦ e
  | inl e ↦ absurd (not_blank (rw (strip-space line e) at h))
]
  where
    not_blank : false ≡ true → ⊥
    not_blank e = cc

-- A text of lines that starts with a line of code is not blank.
pub join_lines-letter :
    (line : Text) (lines : List Text)
    → is_code line ≡ true
    → text_eq (strip (join_lines (line ∷ lines))) [] ≡ false
unfolding join_lines
join_lines-letter line [] h = strip-letter line (code-letter line h)
join_lines-letter line (next ∷ lines) h =
    strip-letter (line ++ (10 ∷ join_lines (next ∷ lines)))
      (letter-append line (10 ∷ join_lines (next ∷ lines)) (code-letter line h))

-- A line above the sections.
unfoldable pub is_header : Text → Bool
is_header line =
    no_newline line
    && not (text_eq (strip line) upgrade_marker)
    && not (text_eq (strip line) rollback_marker)

pub code_line :
    (l : Text) → (is_code l && no_newline l) ≡ true → (is_code l ≡ true) × (no_newline l ≡ true)
code_line l h = &&-eq-true (is_code l) (no_newline l) h

-- A predicate of a blank line, the marker and every line of code holds on the lines of statements.
pub All-block_lines :
    (P : Text → Type 0)
    → P []
    → P autocommit_marker
    → ((l : Text) → (is_code l && no_newline l) ≡ true → P l)
    → (bs : List Block) → All IsBlock bs
    → All P (concat (map block_lines bs))
All-block_lines P blank marker code [] h = tt
All-block_lines P blank marker code (b ∷ bs) (h, hs) =
    All-append P (block_lines b) (concat (map block_lines bs))
      (All-append P (if b.autocommit then autocommit_marker ∷ [] else []) (code_lines b ++ [] ∷ [])
        (above b.autocommit)
        (All-append P (code_lines b) ([] ∷ [])
          (All-map (λ l. (is_code l && no_newline l) ≡ true) P (code_lines b) code h) (blank, tt)))
      (All-block_lines P blank marker code bs hs)
  where
    above : (a : Bool) → All P (if a then autocommit_marker ∷ [] else [])
    above true = (marker, tt)
    above false = tt
