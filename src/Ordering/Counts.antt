-- ===== src/Ordering/Counts.antt =====
-- Sums over the names that are not listed yet.
use dbwarden.Common.{
  ℕ, ◌+◌, ◌≡◌, refl, true, false, List, [], ◌∷◌, ◌++◌, ◌||◌, ◌==◌, if◌then◌else◌, Text, text_eq,
  text_in, text_eq_sound, text_eq_refl, arith, Bool-cases, inl, inr, sym, ap, ◌∙◌, subst,
}

-- No name twice.
abbrev pub Distinct : List Text → Type 0
Distinct [] = Unit
Distinct (n ∷ ns) = (text_in n ns ≡ false) × Distinct ns

-- The sum of the weights of the names that are not listed in `done`.
abbrev pub total : (Text → ℕ) → List Text → List Text → ℕ
total w done [] = 0
total w done (n ∷ ns) = (if text_in n done then 0 else w n) + total w done ns

pub text_in-last :
    (t : Text) (front : List Text) (u : Text)
    → text_in t (front ++ u ∷ []) ≡ (text_in t front || text_eq t u)
unfolding text_in
text_in-last t [] u = ground arith
text_in-last t (v ∷ front) u = ground (arith, text_in-last t front u)

pub same_in : (a b : Text) (ns : List Text) → text_eq a b ≡ true → text_in a ns ≡ text_in b ns
same_in a b ns e = ap (λ t. text_in t ns) (text_eq_sound a b e)

text_eq-text_in :
    (a b : Text) (ns : List Text) → text_in a ns ≡ true → text_in b ns ≡ false → text_eq a b ≡ false
text_eq-text_in a b ns h k = elim (Bool-cases (text_eq a b)) [
  | inr e ↦ e
  | inl e ↦ absurd (ground (arith, h, k, same_in a b ns e))
]

pub text_eq_sym : (a b : Text) → text_eq a b ≡ false → text_eq b a ≡ false
text_eq_sym a b h = elim (Bool-cases (text_eq b a)) [
  | inr e ↦ e
  | inl e ↦ absurd (
      let same : text_eq a b ≡ true =
        subst (λ t. text_eq t b ≡ true) (text_eq_sound b a e) (text_eq_refl b) in
      ground (arith, h, same))
]

total-other :
    (w : Text → ℕ) (done : List Text) (x : Text) (ns : List Text)
    → text_in x ns ≡ false
    → total w (done ++ x ∷ []) ns ≡ total w done ns
unfolding text_in
total-other w done x [] h = refl
total-other w done x (n ∷ ns) h =
    let apart : text_eq n x ≡ false = text_eq_sym x n (ground (arith, h)) in
    let others : text_in x ns ≡ false = ground (arith, h) in
    ground (arith, total-other w done x ns others, text_in-last n done x, apart)

total-head :
    (w : Text → ℕ) (done : List Text) (n : Text) (ns : List Text)
    → text_in n ns ≡ false
    → text_in n done ≡ false
    → total w done (n ∷ ns) ≡ total w (done ++ n ∷ []) (n ∷ ns) + w n
total-head w done n ns apart out =
    ground (arith, total-other w done n ns apart, text_in-last n done n, text_eq_refl n, out)

-- Listing one more name takes its weight away.
pub total-last :
    (w : Text → ℕ) (done : List Text) (x : Text) (ns : List Text)
    → Distinct ns
    → text_in x ns ≡ true
    → text_in x done ≡ false
    → total w done ns ≡ total w (done ++ x ∷ []) ns + w x
unfolding text_in
total-last w done x [] k i out = cc
total-last w done x (n ∷ ns) (apart, k) i out = elim (Bool-cases (text_eq x n)) [
  | inl e ↦
      let same = text_eq_sound x n e in
      subst (λ y. total w done (n ∷ ns) ≡ total w (done ++ y ∷ []) (n ∷ ns) + w y) (sym same)
        (total-head w done n ns apart (subst (λ y. text_in y done ≡ false) same out))
  | inr e ↦
      let rest : text_in x ns ≡ true = ground (arith, i, e) in
      ground (arith, total-last w done x ns k rest out, text_in-last n done x, text_eq_sym x n e)
]

-- A sum that is zero has no weight on a name that is not listed.
pub total-zero :
    (w : Text → ℕ) (done : List Text) (ns : List Text) (a : Text)
    → total w done ns ≡ 0
    → text_in a ns ≡ true
    → (w a ≡ 0 → ⊥)
    → text_in a done ≡ true
unfolding text_in
total-zero w done [] a z i weighs = cc
total-zero w done (n ∷ ns) a z i weighs = elim (Bool-cases (text_eq a n)) [
  | inl e ↦
      let same = text_eq_sound a n e in
      elim (Bool-cases (text_in n done)) [
        | inl f ↦ subst (λ y. text_in y done ≡ true) (sym same) f
        | inr f ↦
            let none_left : w n ≡ 0 = ground (arith, z, f) in
            absurd (weighs (ap w same ∙ none_left))
      ]
  | inr e ↦ total-zero w done ns a (omega (arith, z)) (ground (arith, i, e)) weighs
]

-- A sum that is not zero has a weight on a name that is not listed.
pub total-some :
    (w : Text → ℕ) (done ns : List Text)
    → (total w done ns ≡ 0 → ⊥)
    → (a : Text) × (text_in a ns ≡ true) × (text_in a done ≡ false) × (w a ≡ 0 → ⊥)
unfolding text_in
total-some w done [] h = absurd (h refl)
total-some w done (n ∷ ns) h = elim (Bool-cases (text_in n done)) [
  | inl e ↦ keep (total-some w done ns (λ z. h (ground (arith, z, e))))
  | inr e ↦ elim (Bool-cases (w n == 0)) [
    | inl f ↦ keep (total-some w done ns (λ z. h (ground (arith, z, e, f))))
    | inr f ↦ (n, ground (arith, text_eq_refl n), e, λ z. absurd (ground (arith, f, z)))
  ]
]
  where
    keep :
        (a : Text) × (text_in a ns ≡ true) × (text_in a done ≡ false) × (w a ≡ 0 → ⊥)
        → (a : Text) × ((text_eq a n || text_in a ns) ≡ true)
          × (text_in a done ≡ false)
          × (w a ≡ 0 → ⊥)
    keep (a, i, out, weighs) = (a, ground (arith, i), out, weighs)
