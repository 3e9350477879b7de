-- ===== src/Common/Membership.antt =====
-- The Boolean tests on lists against membership.
use dbwarden.Common.Tests.{Bool-cases}
use dbwarden.Common.Texts.{Text, text_eq, text_in, text_eq_sound, text_eq_refl}
use dbwarden.Common.Lists.{any, all, In}
use mathlib.Core.Path.{◌≡◌, refl, ap, sym, ◌∙◌, subst}
use mathlib.Core.Logic.{inl, inr}
use mathlib.Core.Bool.{Bool, true, false}
use mathlib.Core.List.{List, [], ◌∷◌, map}
use native.Mathlib.Omega.{arith}

module _ {A : Type 0} where
  pub any-In : (p : A → Bool) (xs : List A) → any p xs ≡ true → (x : A) × In x xs × (p x ≡ true)
  any-In p [] h = cc
  any-In p (x ∷ xs) h = elim (Bool-cases (p x)) [
    | inl e ↦ (x, inl refl, e)
    | inr e ↦ let (y, i, q) = any-In p xs (ground (arith, e, h)) in (y, inr i, q)
  ]

  pub In-any : (p : A → Bool) (xs : List A) (x : A) → In x xs → p x ≡ true → any p xs ≡ true
  In-any p [] x i h = absurd i
  In-any p (y ∷ xs) x (inl e) h = rw (ap p (sym e) ∙ h) refl
  In-any p (y ∷ xs) x (inr i) h = ground (arith, In-any p xs x i h)

  pub any-false : (p : A → Bool) (xs : List A) (x : A) → any p xs ≡ false → In x xs → p x ≡ false
  any-false p xs x h i = elim (Bool-cases (p x)) [
    | inr e ↦ e
    | inl e ↦ absurd (ground (arith, h, In-any p xs x i e))
  ]

  pub all-In : (p : A → Bool) (xs : List A) (x : A) → all p xs ≡ true → In x xs → p x ≡ true
  all-In p [] x h i = absurd i
  all-In p (y ∷ xs) x h (inl e) = ap p e ∙ ground (arith, h)
  all-In p (y ∷ xs) x h (inr i) = all-In p xs x (ground (arith, h)) i

  pub In-all : (p : A → Bool) (xs : List A) → ((x : A) → In x xs → p x ≡ true) → all p xs ≡ true
  In-all p [] h = refl
  In-all p (x ∷ xs) h = ground (arith, h x (inl refl), In-all p xs (λ y i. h y (inr i)))

  pub all-false :
      (p : A → Bool) (xs : List A) → all p xs ≡ false → (x : A) × In x xs × (p x ≡ false)
  all-false p [] h = cc
  all-false p (x ∷ xs) h = elim (Bool-cases (p x)) [
    | inr e ↦ (x, inl refl, e)
    | inl e ↦ let (y, i, q) = all-false p xs (ground (arith, e, h)) in (y, inr i, q)
  ]

pub text_in-In : (t : Text) (ts : List Text) → text_in t ts ≡ true → In t ts
unfolding text_in
text_in-In t [] h = cc
text_in-In t (u ∷ ts) h = elim (Bool-cases (text_eq t u)) [
  | inl e ↦ inl (text_eq_sound t u e)
  | inr e ↦ inr (text_in-In t ts (ground (arith, e, h)))
]

pub In-text_in : (t : Text) (ts : List Text) → In t ts → text_in t ts ≡ true
unfolding text_in
In-text_in t [] i = absurd i
In-text_in t (u ∷ ts) (inl e) = rw (subst (λ v. text_eq t v ≡ true) e (text_eq_refl t)) refl
In-text_in t (u ∷ ts) (inr i) = ground (arith, In-text_in t ts i)

pub In-map : {A B : Type 0} (f : A → B) (xs : List A) (x : A) → In x xs → In (f x) (map f xs)
In-map f [] x i = absurd i
In-map f (y ∷ xs) x (inl e) = inl (ap f e)
In-map f (y ∷ xs) x (inr i) = inr (In-map f xs x i)

pub map-In :
    {A B : Type 0} (f : A → B) (xs : List A) (y : B)
    → In y (map f xs)
    → (x : A) × In x xs × (y ≡ f x)
map-In f [] y i = absurd i
map-In f (x ∷ xs) y (inl e) = (x, inl refl, e)
map-In f (x ∷ xs) y (inr i) = let (z, j, e) = map-In f xs y i in (z, inr j, e)
