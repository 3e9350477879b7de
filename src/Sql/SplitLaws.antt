-- ===== src/Sql/SplitLaws.antt =====
-- The statements that `split_sql_statements` finds.
use dbwarden.Common.{
  ℕ, ◌≡◌, refl, Bool, true, false, ◌&&◌, ◌==◌, ==_iff, if◌then◌else◌, is_some, Option-cases, inl,
  inr, Option, none, some, List, [], ◌∷◌, ◌++◌, Text, concat, map, sym, ap, ◌∙◌, append_assoc,
  append-nil, All,
}
use dbwarden.Sql.Split.{
  Lexer, Move, one, two, cut, head, move, flush, split_from, start, split_sql_statements,
  move_plain, move_quoted, is_quote, next_is,
}
use dbwarden.Sql.Tokens.{Tokens}
use dbwarden.Sql.TokenLaws.{split_from-Tokens}

-- The texts with a semicolon between each two.
abbrev pub joined : Text → List Text → Text
joined first [] = first
joined first (t ∷ ts) = first ++ (59 ∷ joined t ts)

-- The texts without the space around them, but for those that are empty then.
abbrev pub statements : List Text → List Text
statements ts = concat (map flush ts)

split_from-cut :
    (s : Lexer) (current t : Text)
    → move s 59 (head t) ≡ cut
    → split_from s current (59 ∷ t) ≡ flush current ++ split_from s [] t
unfolding split_from
split_from-cut s current [] h = rw (h, split_from) refl
split_from-cut s current (d ∷ t) h = rw (h, split_from) refl

split_from-joined :
    (first : Text) (others : List Text)
    → Tokens first
    → All Tokens others
    → split_from start [] (joined first others) ≡ statements (first ∷ others)
unfolding split_from move
split_from-joined first [] k ks =
    ap (λ (t : Text). split_from start [] t) (sym (append-nil first))
    ∙ split_from-Tokens first k [] [] tt
    ∙ sym (append-nil (flush first))
split_from-joined first (t ∷ ts) k (l, ls) =
    split_from-Tokens first k [] (59 ∷ joined t ts) refl
    ∙ split_from-cut start first (joined t ts) refl
    ∙ ap (λ (xs : List Text). flush first ++ xs) (split_from-joined t ts l ls)

-- Texts of whole literals, whole comments and plain characters, with semicolons between them, are
-- split into these texts without the space around them, and without those that are only space.
pub split_sql_statements-joined :
    (first : Text) (others : List Text)
    → Tokens first
    → All Tokens others
    → split_sql_statements (joined first others) ≡ statements (first ∷ others)
unfolding split_sql_statements
split_sql_statements-joined first others k ks = split_from-joined first others k ks

-- The parts of a text between semicolons, and the statements found in it.
abbrev pub IsCut : Text → List Text → Type 0
IsCut sql found =
    (first : Text) × (others : List Text) × (joined first others ≡ sql)
    × (found ≡ statements (first ∷ others))

Move-cases :
    (m : Move) {P : Type 0}
    → ((r : Lexer) → m ≡ one r → P)
    → ((r : Lexer) → m ≡ two r → P)
    → (m ≡ cut → P)
    → P
Move-cases (one r) f g h = f r refl
Move-cases (two r) f g h = g r refl
Move-cases cut f g h = h refl

going : {P : Type 0} {r : Lexer} → one r ≡ cut → P
going h = cc

going_two : {P : Type 0} {r : Lexer} → two r ≡ cut → P
going_two h = cc

choice :
    {P : Type 0} (b : Bool) {m n : Move}
    → (b ≡ true → m ≡ cut → P)
    → (n ≡ cut → P)
    → (if b then m else n) ≡ cut
    → P
choice true f g h = f refl h
choice false f g h = g h

move_quoted-going :
    {P : Type 0} (s : Lexer) (q c : ℕ) (next : Option ℕ) → move_quoted s q c next ≡ cut → P
unfolding move_quoted
move_quoted-going s q c next h =
    choice (c == q) (λ _ k1. choice (next_is q next) (λ _ k. going_two k) (λ k. going k) k1)
      (λ k1. choice (c == 92 && is_some next) (λ _ k. going_two k) (λ k. going k) k1) h

move_plain-cut : (s : Lexer) (c : ℕ) (next : Option ℕ) → move_plain s c next ≡ cut → c ≡ 59
unfolding move_plain
move_plain-cut s c next h =
    choice (is_quote c) (λ _ k. going k)
      (λ k1.
        choice (c == 45 && next_is 45 next) (λ _ k. going k)
          (λ k2.
            choice (c == 47 && next_is 42 next) (λ _ k. going k)
              (λ k3. choice (c == 59) (λ e _. (==_iff c 59).0 e) (λ k. going k) k3) k2)
          k1)
      h

move-cut : (s : Lexer) (c : ℕ) (next : Option ℕ) → move s c next ≡ cut → c ≡ 59
unfolding move move_quoted
move-cut s c next h =
    choice s.line_comment (λ _ k. going k)
      (λ k1.
        choice s.block_comment
          (λ _ k2. choice (c == 42 && next_is 47 next) (λ _ k. going_two k) (λ k. going k) k2)
          (λ k2. elim (Option-cases s.quote) [
            | inl e ↦ move_plain-cut s c next (rw e at k2)
            | inr (q, e) ↦ move_quoted-going s q c next (rw e at k2)
          ])
          k1)
      h

split_from-IsCut : (s : Lexer) (current t : Text) → IsCut (current ++ t) (split_from s current t)
unfolding split_from
split_from-IsCut s current [] =
    (current, [], sym (append-nil current), sym (append-nil (flush current)))
split_from-IsCut s current (c ∷ []) =
    Move-cases (move s c none)
      (λ r e.
        rw (e, split_from)
          (current ++ c ∷ [], [], refl, sym (append-nil (flush (current ++ c ∷ [])))))
      (λ r e.
        rw (e, split_from)
          (current ++ c ∷ [], [], refl, sym (append-nil (flush (current ++ c ∷ [])))))
      (λ e.
        rw (e, split_from)
          (
            current,
            [] ∷ [],
            ap (λ (x : ℕ). current ++ x ∷ []) (sym (move-cut s c none e)),
            ap (λ (xs : List Text). flush current ++ xs) (sym (append-nil (flush []))),
          ))
split_from-IsCut s current (c ∷ d ∷ t) =
    Move-cases (move s c (some d))
      (λ r e.
        let (first, others, same, found) = split_from-IsCut r (current ++ c ∷ []) (d ∷ t) in
        rw (e, split_from) (first, others, same ∙ append_assoc current (c ∷ []) (d ∷ t), found))
      (λ r e.
        let (first, others, same, found) = split_from-IsCut r (current ++ c ∷ d ∷ []) t in
        rw (e, split_from) (first, others, same ∙ append_assoc current (c ∷ d ∷ []) t, found))
      (λ e.
        let (first, others, same, found) = split_from-IsCut s [] (d ∷ t) in
        rw (e, split_from)
          (
            current,
            first ∷ others,
            ap (λ (x : Text). current ++ (59 ∷ x)) same
                ∙ ap (λ x. current ++ (x ∷ d ∷ t)) (sym (move-cut s c (some d) e)),
            ap (λ (xs : List Text). flush current ++ xs) found,
          ))

-- Every text is cut at some of its semicolons, and only there: what is returned are the parts without
-- the space around them, but for those that are only space. No other character is lost.
pub split_sql_statements-IsCut : (sql : Text) → IsCut sql (split_sql_statements sql)
unfolding split_sql_statements
split_sql_statements-IsCut sql = split_from-IsCut start [] sql
