-- ===== src/Sql/TokenLaws.antt =====
-- `split_sql_statements` does not cut a text of whole tokens.
use dbwarden.Common.{
  ℕ, ◌≡◌, refl, Bool, true, false, Option, none, some, [], ◌∷◌, ◌++◌, ◌&&◌, ◌==◌, Text, arith, sym,
  ap, ◌∙◌, subst, append_assoc, append-nil,
}
use dbwarden.Sql.Split.{
  Lexer, one, two, head, next_is, is_quote, move_quoted, move_plain, move, split_from, start,
}
use dbwarden.Sql.Tokens.{
  Literal, closes, doubles, escapes, holds, LineComment, ends_line, in_line, BlockComment,
  ends_block, in_block, is_plain, Tokens, end, plain, literal, line, block,
}

split_from-one :
    (s r : Lexer) (current : Text) (c : ℕ) (t : Text)
    → move s c (head t) ≡ one r
    → split_from s current (c ∷ t) ≡ split_from r (current ++ c ∷ []) t
unfolding split_from
split_from-one s r current c [] h = rw (h, split_from) refl
split_from-one s r current c (d ∷ t) h = rw (h, split_from) refl

split_from-two :
    (s r : Lexer) (current : Text) (c d : ℕ) (t : Text)
    → move s c (some d) ≡ two r
    → split_from s current (c ∷ d ∷ t) ≡ split_from r (current ++ c ∷ d ∷ []) t
unfolding split_from
split_from-two s r current c d t h = rw (h, split_from) refl

abbrev in_quote : ℕ → Lexer
in_quote q = record { quote = some q; line_comment = false; block_comment = false }

abbrev in_line_comment : Lexer
in_line_comment = record { quote = none; line_comment = true; block_comment = false }

abbrev in_block_comment : Lexer
in_block_comment = record { quote = none; line_comment = false; block_comment = true }

add_one :
    (s : Lexer) (current : Text) (c : ℕ) (w t : Text)
    → split_from s ((current ++ c ∷ []) ++ w) t ≡ split_from s (current ++ (c ∷ w)) t
add_one s current c w t = ap (λ (x : Text). split_from s x t) (append_assoc current (c ∷ []) w)

add_two :
    (s : Lexer) (current : Text) (c d : ℕ) (w t : Text)
    → split_from s ((current ++ c ∷ d ∷ []) ++ w) t ≡ split_from s (current ++ (c ∷ d ∷ w)) t
add_two s current c d w t =
    ap (λ (x : Text). split_from s x t) (append_assoc current (c ∷ d ∷ []) w)

quote-not-backslash : (q : ℕ) → is_quote q ≡ true → (92 == q) ≡ false
quote-not-backslash q h = ground (arith, h)

-- The moves inside a literal.
move-closes :
    (q : ℕ) (next : Option ℕ) → next_is q next ≡ false → move (in_quote q) q next ≡ one start
unfolding move move_quoted
move-closes q next h = ground (arith, h)

move-doubles : (q : ℕ) → move (in_quote q) q (some q) ≡ two (in_quote q)
unfolding move move_quoted
move-doubles q = ground arith

move-escapes : (q c : ℕ) → is_quote q ≡ true → move (in_quote q) 92 (some c) ≡ two (in_quote q)
unfolding move move_quoted
move-escapes q c h = rw (quote-not-backslash q h) refl

move-holds :
    (q c : ℕ) (next : Option ℕ)
    → (c == q) ≡ false
    → (c == 92) ≡ false
    → move (in_quote q) c next ≡ one (in_quote q)
unfolding move move_quoted
move-holds q c next other letter = rw (other, letter) refl

split_from-Literal :
    (q : ℕ) (w : Text)
    → is_quote q ≡ true
    → Literal q w
    → (current t : Text) → next_is q (head t) ≡ false
    → split_from (in_quote q) current (w ++ t) ≡ split_from start (current ++ w) t
split_from-Literal q w h closes current t next =
    split_from-one (in_quote q) start current q t (move-closes q (head t) next)
split_from-Literal q w h (doubles v l) current t next =
    split_from-two (in_quote q) (in_quote q) current q q (v ++ t) (move-doubles q)
    ∙ split_from-Literal q v h l (current ++ q ∷ q ∷ []) t next
    ∙ add_two start current q q v t
split_from-Literal q w h (escapes c v l) current t next =
    split_from-two (in_quote q) (in_quote q) current 92 c (v ++ t) (move-escapes q c h)
    ∙ split_from-Literal q v h l (current ++ 92 ∷ c ∷ []) t next
    ∙ add_two start current 92 c v t
split_from-Literal q w h (holds c v other letter l) current t next =
    split_from-one (in_quote q) (in_quote q) current c (v ++ t)
      (move-holds q c (head (v ++ t)) other letter)
    ∙ split_from-Literal q v h l (current ++ c ∷ []) t next
    ∙ add_one start current c v t

split_from-LineComment :
    (w : Text)
    → LineComment w
    → (current t : Text)
    → split_from in_line_comment current (w ++ t) ≡ split_from start (current ++ w) t
unfolding move
split_from-LineComment w ends_line current t =
    split_from-one in_line_comment start current 10 t refl
split_from-LineComment w (in_line c v other l) current t =
    split_from-one in_line_comment in_line_comment current c (v ++ t) (rw other refl)
    ∙ split_from-LineComment v l (current ++ c ∷ []) t
    ∙ add_one start current c v t

split_from-BlockComment :
    (w : Text)
    → BlockComment w
    → (current t : Text)
    → split_from in_block_comment current (w ++ t) ≡ split_from start (current ++ w) t
unfolding move
split_from-BlockComment w ends_block current t =
    split_from-two in_block_comment start current 42 47 t refl
split_from-BlockComment w (in_block c d v other l) current t =
    split_from-one in_block_comment in_block_comment current c (d ∷ (v ++ t)) (rw other refl)
    ∙ split_from-BlockComment (d ∷ v) l (current ++ c ∷ []) t
    ∙ add_one start current c (d ∷ v) t

-- A text that is empty or goes on with a semicolon.
abbrev pub IsEnd : Text → Type 0
IsEnd [] = Unit
IsEnd (c ∷ t) = c ≡ 59

next_is-end :
    (c : ℕ) (t u : Text)
    → (59 == c) ≡ false
    → IsEnd u
    → next_is c (head t) ≡ false
    → next_is c (head (t ++ u)) ≡ false
next_is-end c [] [] other u h = refl
next_is-end c [] (d ∷ u) other e h = rw e other
next_is-end c (d ∷ t) u other e h = h

not_together : (a b d : Bool) → (a && b) ≡ false → (b ≡ false → d ≡ false) → (a && d) ≡ false
not_together true b d h k = k h
not_together false b d h k = refl

move-plain :
    (c : ℕ) (t u : Text)
    → IsEnd u
    → is_plain c (head t) ≡ true
    → move start c (head (t ++ u)) ≡ one start
unfolding move move_plain
move-plain c t u e h =
    let dash : (c == 45 && next_is 45 (head (t ++ u))) ≡ false =
      not_together (c == 45) (next_is 45 (head t)) (next_is 45 (head (t ++ u))) (ground (arith, h))
        (next_is-end 45 t u refl e) in
    let slash : (c == 47 && next_is 42 (head (t ++ u))) ≡ false =
      not_together (c == 47) (next_is 42 (head t)) (next_is 42 (head (t ++ u))) (ground (arith, h))
        (next_is-end 42 t u refl e) in
    let no_quote : is_quote c ≡ false = ground (arith, h) in
    let no_end : (c == 59) ≡ false = ground (arith, h) in rw (no_quote, dash, slash, no_end) refl

block_opens : (t : Text) → next_is 47 (head t) ≡ false → BlockComment t → BlockComment (42 ∷ t)
block_opens t h ends_block = in_block 42 42 (47 ∷ []) refl ends_block
block_opens t h (in_block c d v other l) = in_block 42 c (d ∷ v) h (in_block c d v other l)

-- A token, of its first character and the rest, in front of others.
split_from-token :
    (r : Lexer) (current : Text) (c : ℕ) (s t u : Text)
    → move start c (head ((s ++ t) ++ u)) ≡ one r
    → ((x y : Text) → y ≡ t ++ u → split_from r x (s ++ y) ≡ split_from start (x ++ s) y)
    → ((x : Text) → split_from start x (t ++ u) ≡ split_from start (x ++ t) u)
    → split_from start current (c ∷ ((s ++ t) ++ u))
      ≡ split_from start (current ++ (c ∷ (s ++ t))) u
split_from-token r current c s t u opens inside behind =
    split_from-one start r current c ((s ++ t) ++ u) opens
    ∙ ap (λ (x : Text). split_from r (current ++ c ∷ []) x) (append_assoc s t u)
    ∙ inside (current ++ c ∷ []) (t ++ u) refl
    ∙ behind ((current ++ c ∷ []) ++ s)
    ∙ ap (λ (x : Text). split_from start x u) (append_assoc (current ++ c ∷ []) s t)
    ∙ add_one start current c (s ++ t) u

-- Tokens go to the current statement as they stand.
pub split_from-Tokens :
    (w : Text)
    → Tokens w
    → (current u : Text) → IsEnd u
    → split_from start current (w ++ u) ≡ split_from start (current ++ w) u
unfolding move move_plain
split_from-Tokens w end current u e =
    ap (λ (x : Text). split_from start x u) (sym (append-nil current))
split_from-Tokens w (plain c t h k) current u e =
    split_from-one start start current c (t ++ u) (move-plain c t u e h)
    ∙ split_from-Tokens t k (current ++ c ∷ []) u e
    ∙ add_one start current c t u
split_from-Tokens w (literal q s t h l next k) current u e =
    split_from-token (in_quote q) current q s t u (rw h refl)
      (λ x y same. split_from-Literal q s h l x y (
        subst (λ (v : Text). next_is q (head v) ≡ false) (sym same)
          (next_is-end q t u (ground (arith, h)) e next)))
      (λ x. split_from-Tokens t k x u e)
split_from-Tokens w (line s t l k) current u e =
    split_from-token in_line_comment current 45 (45 ∷ s) t u refl
      (λ x y same. split_from-LineComment (45 ∷ s) (in_line 45 s refl l) x y)
      (λ x. split_from-Tokens t k x u e)
split_from-Tokens w (block s t next l k) current u e =
    split_from-token in_block_comment current 47 (42 ∷ s) t u refl
      (λ x y same. split_from-BlockComment (42 ∷ s) (block_opens s next l) x y)
      (λ x. split_from-Tokens t k x u e)
