-- ===== src/Common/Sorting.antt =====
-- Python's `sorted` on a dict's items: by key, where each key stands once.
use dbwarden.Common.Texts.{
  Text, text_lt, text_lt_irrefl, text_lt_trans, text_lt_total, text_eq_sound,
}
use dbwarden.Common.Tests.{if◌then◌else◌, Bool-cases}
use dbwarden.Common.Lists.{All, In, length}
use mathlib.Core.Path.{◌≡◌, refl, ◌∙◌, ap}
use Prim.Native.Nat.{suc}
use mathlib.Core.Logic.{inl, inr}
use mathlib.Core.Bool.{true, false}
use mathlib.Core.List.{List, [], ◌∷◌, Perm}
use mathlib.Core.List.Perm
use native.Mathlib.Omega.{arith}

lt_asymm : (s t : Text) → text_lt s t ≡ true → text_lt t s ≡ false
lt_asymm s t h = ground (arith, text_lt_trans s t s, text_lt_irrefl s)

-- `z` is not below `x`, and `x` is not below `y`: `z` is not below `y`.
not_lt_trans : (x y z : Text) → text_lt x y ≡ false → text_lt z x ≡ false → text_lt z y ≡ false
not_lt_trans x y z h k = ground (
  arith,
  text_lt_total x y,
  text_lt_total x z,
  text_lt_trans z y x,
  text_lt_trans y x z,
  text_lt_irrefl z,
  text_lt_trans z y z,
  text_eq_sound x y,
  text_eq_sound x z,
)

module _ {A : Type 0} where
  unfoldable pub insert_item : Text × A → List (Text × A) → List (Text × A)
  insert_item x [] = x ∷ []
  insert_item x (y ∷ ys) =
      let rest = insert_item x ys in if text_lt y.0 x.0 then y ∷ rest else x ∷ y ∷ ys

  unfoldable pub sort_items : List (Text × A) → List (Text × A)
  unfolding insert_item
  sort_items [] = []
  sort_items (x ∷ xs) = insert_item x (sort_items xs)

  insert_item-perm : (x : Text × A) (ys : List (Text × A)) → Perm (insert_item x ys) (x ∷ ys)
  unfolding insert_item
  insert_item-perm x [] = Perm.rfl
  insert_item-perm x (y ∷ ys) = elim (Bool-cases (text_lt y.0 x.0)) [
    | inl h ↦ rw h (Perm.trans (Perm.cons y (insert_item-perm x ys)) (Perm.swap x y ys))
    | inr h ↦ rw h Perm.rfl
  ]

  pub sort_items-perm : (xs : List (Text × A)) → Perm (sort_items xs) xs
  unfolding sort_items
  sort_items-perm [] = Perm.rfl
  sort_items-perm (x ∷ xs) =
      Perm.trans (insert_item-perm x (sort_items xs)) (Perm.cons x (sort_items-perm xs))

  -- No item stands before one with a smaller key.
  abbrev pub IsOrdered : List (Text × A) → Type 0
  IsOrdered [] = Unit
  IsOrdered (x ∷ xs) = All (λ y. text_lt y.0 x.0 ≡ false) xs × IsOrdered xs

  All-insert_item :
      (P : Text × A → Type 0) (x : Text × A) (ys : List (Text × A))
      → P x
      → All P ys
      → All P (insert_item x ys)
  unfolding insert_item
  All-insert_item P x [] h hs = (h, tt)
  All-insert_item P x (y ∷ ys) h hs = elim (Bool-cases (text_lt y.0 x.0)) [
    | inl e ↦ rw e (hs.0, All-insert_item P x ys h hs.1)
    | inr e ↦ rw e (h, hs)
  ]

  pub All-sort_items :
      (P : Text × A → Type 0) (xs : List (Text × A)) → All P xs → All P (sort_items xs)
  unfolding sort_items
  All-sort_items P [] hs = tt
  All-sort_items P (x ∷ xs) hs = All-insert_item P x (sort_items xs) hs.0 (All-sort_items P xs hs.1)

  All-not_lt :
      (x y : Text) (ys : List (Text × A))
      → text_lt x y ≡ false
      → All (λ z. text_lt z.0 x ≡ false) ys
      → All (λ z. text_lt z.0 y ≡ false) ys
  All-not_lt x y [] h hs = tt
  All-not_lt x y (z ∷ zs) h hs = (not_lt_trans x y z.0 h hs.0, All-not_lt x y zs h hs.1)

  insert_item-IsOrdered :
      (x : Text × A) (ys : List (Text × A)) → IsOrdered ys → IsOrdered (insert_item x ys)
  unfolding insert_item
  insert_item-IsOrdered x [] h = (tt, tt)
  insert_item-IsOrdered x (y ∷ ys) h = elim (Bool-cases (text_lt y.0 x.0)) [
    | inl e ↦ rw e (
      All-insert_item (λ z. text_lt z.0 y.0 ≡ false) x ys (lt_asymm y.0 x.0 e) h.0,
      insert_item-IsOrdered x ys h.1,
    )
    | inr e ↦ rw e ((e, All-not_lt y.0 x.0 ys e h.0), h)
  ]

  pub sort_items-IsOrdered : (xs : List (Text × A)) → IsOrdered (sort_items xs)
  unfolding sort_items
  sort_items-IsOrdered [] = tt
  sort_items-IsOrdered (x ∷ xs) = insert_item-IsOrdered x (sort_items xs) (sort_items-IsOrdered xs)

  In-insert_item : (y x : Text × A) (ys : List (Text × A)) → In y (x ∷ ys) → In y (insert_item x ys)
  unfolding insert_item
  In-insert_item y x [] h = h
  In-insert_item y x (z ∷ ys) h = elim (Bool-cases (text_lt z.0 x.0)) [
    | inr e ↦ rw e h
    | inl e ↦ rw e (swap h (In-insert_item y x ys))
  ]
    where
      swap :
          In y (x ∷ z ∷ ys)
          → (In y (x ∷ ys) → In y (insert_item x ys))
          → In y (z ∷ insert_item x ys)
      swap (inl p) f = inr (f (inl p))
      swap (inr (inl p)) f = inl p
      swap (inr (inr p)) f = inr (f (inr p))

  -- Sorting keeps every item.
  pub In-sort_items : (y : Text × A) (xs : List (Text × A)) → In y xs → In y (sort_items xs)
  unfolding sort_items
  In-sort_items y [] h = absurd h
  In-sort_items y (x ∷ xs) (inl p) = In-insert_item y x (sort_items xs) (inl p)
  In-sort_items y (x ∷ xs) (inr p) = In-insert_item y x (sort_items xs) (inr (In-sort_items y xs p))

  length-insert_item :
      (x : Text × A) (ys : List (Text × A)) → length (insert_item x ys) ≡ suc (length ys)
  unfolding insert_item
  length-insert_item x [] = refl
  length-insert_item x (y ∷ ys) = elim (Bool-cases (text_lt y.0 x.0)) [
    | inl e ↦ rw (e, length-insert_item x ys)
    | inr e ↦ rw e
  ]

  pub length-sort_items : (xs : List (Text × A)) → length (sort_items xs) ≡ length xs
  unfolding sort_items
  length-sort_items [] = refl
  length-sort_items (x ∷ xs) = length-insert_item x (sort_items xs) ∙ ap suc (length-sort_items xs)
