-- ===== src/Naming/TruncateLaws.antt =====
-- The length of a truncated name.
use dbwarden.Common.{
  ℕ, zero, suc, ◌+◌, ◌-◌, ◌≤◌, ◌≡◌, refl, List, [], ◌∷◌, ◌++◌, leb, ltb, Text, length,
  length-append, arith, Bool-cases, inl, inr, leb→le, ltb→lt,
}
use dbwarden.Naming.Truncate.{split_low, join_low, operation_words, take_chars, fit, truncate}

-- The characters of the parts, each with an underscore in front.
abbrev joined_size : List Text → ℕ
joined_size [] = 0
joined_size (part ∷ parts) = suc (length part + joined_size parts)

length-join_low :
    (part : Text) (parts : List Text)
    → length (join_low (part ∷ parts)) ≡ length part + joined_size parts
length-join_low part [] = omega arith
length-join_low part (next ∷ parts) =
    omega (arith, length-append part (95 ∷ join_low (next ∷ parts)), length-join_low next parts)

joined_size-append : (xs ys : List Text) → joined_size (xs ++ ys) ≡ joined_size xs + joined_size ys
joined_size-append [] ys = omega arith
joined_size-append (x ∷ xs) ys = omega (arith, joined_size-append xs ys)

length-take_chars : (n : ℕ) (t : Text) → length (take_chars n t) ≤ n
unfolding take_chars
length-take_chars zero t = omega arith
length-take_chars (suc n) [] = omega arith
length-take_chars (suc n) (c ∷ t) = omega (arith, length-take_chars n t)

nothing_fits :
    (remaining : ℕ) (parts : List Text) → remaining ≡ 0 → joined_size (fit remaining parts) ≡ 0
unfolding fit
nothing_fits remaining [] h = refl
nothing_fits zero (part ∷ parts) h = refl
nothing_fits (suc r) (part ∷ parts) h = absurd (omega arith)

-- The parts that fit, each with an underscore, are one longer than the room at most.
joined_size-fit :
    (remaining : ℕ) (parts : List Text) → joined_size (fit remaining parts) ≤ remaining + 1
unfolding fit
joined_size-fit remaining [] = omega arith
joined_size-fit zero (part ∷ parts) = omega arith
joined_size-fit (suc r) (part ∷ parts) = elim (Bool-cases (ltb (suc r) (length part))) [
  | inl e ↦ rw e (omega (arith, length-take_chars (suc r) part))
  | inr e ↦
      let short : length part ≤ suc r = ground (arith, e) in
      let room = suc r - (length part + 1) in
      rw e (
        omega (
          arith,
          short,
          joined_size-fit room parts,
          enough room parts (joined_size-fit room parts) (nothing_fits room parts),
        ))
]
  where
    enough :
        (room : ℕ) (parts' : List Text)
        → joined_size (fit room parts') ≤ room + 1
        → (room ≡ 0 → joined_size (fit room parts') ≡ 0)
        → joined_size (fit room parts') ≤ room + room
    enough zero parts' h k = omega (arith, k refl)
    enough (suc room) parts' h k = omega (arith, h)

joined :
    (operation : List Text) (remaining : ℕ) (identifiers : List Text)
    → length (join_low operation) ≤ 72
    → remaining ≡ 72 - (length (join_low operation) + 1)
    → length (join_low (operation ++ fit remaining identifiers)) ≤ 72
joined [] remaining identifiers h r =
    go (fit remaining identifiers) (joined_size-fit remaining identifiers)
  where
    go : (parts : List Text) → joined_size parts ≤ remaining + 1 → length (join_low parts) ≤ 72
    go [] k = omega arith
    go (part ∷ parts) k = omega (arith, r, length-join_low part parts)
joined (part ∷ operation) remaining identifiers h r =
    let fits = fit remaining identifiers in
    let known = length-join_low part operation in
    elim (Bool-cases (ltb 0 remaining)) [
      | inl e ↦ omega (
        arith,
        known,
        r,
        ltb→lt 0 remaining e,
        length-join_low part (operation ++ fits),
        joined_size-append operation fits,
        joined_size-fit remaining identifiers,
      )
      | inr e ↦ omega (
        arith,
        known,
        length-join_low part (operation ++ fits),
        joined_size-append operation fits,
        nothing_fits remaining identifiers (ground (arith, e)),
      )
    ]

-- A truncated name has at most 72 characters, where its leading operation words have.
pub length-truncate :
    (name : Text)
    → length (join_low (operation_words (split_low name)).0) ≤ 72
    → length (truncate name) ≤ 72
unfolding truncate
length-truncate name h = elim (Bool-cases (leb (length name) 72)) [
  | inl e ↦ rw e (leb→le (length name) 72 e)
  | inr e ↦
      let (operation, identifiers) = operation_words (split_low name) in
      rw e (joined operation (72 - (length (join_low operation) + 1)) identifiers h refl)
]
