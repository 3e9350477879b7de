-- ===== src/Ordering/AnchorLaws.antt =====
-- Which orderings are accepted, and the statement order that they give.
use dbwarden.Common.{
  ◌≤◌, ◌<◌, ◌≡◌, ◌↔◌, refl, true, false, some, List, [], ◌∷◌, Text, ltb, leb, ok, >>=-eq-ok,
  All-map, arith, Bool-cases, inl, inr, ◌⊎◌, All, In, sym, subst,
}
use dbwarden.Ordering.Values.{StatementOrder}
use dbwarden.Ordering.Anchors.{
  Anchor, position, anchor_statement_order, OrderingConstraint, check_before, check_after,
  validate_ordering, last_anchor, first_anchor, anchor_for, order_of, statement_order_for,
}

check_before_iff :
    (a : Anchor) (bs : List Anchor)
    → (check_before a bs ≡ ok tt) ↔ All (λ b. position a < position b) bs
unfolding check_before
check_before_iff a [] = (λ h. tt, λ h. refl)
check_before_iff a (b ∷ bs) =
    let (to, from) = check_before_iff a bs in
    elim (Bool-cases (leb (position b) (position a))) [
      | inl e ↦ (λ h. absurd (ground (arith, e, h)), λ (h, _). absurd (ground (arith, e, h)))
      | inr e ↦ (
        λ h. (ground (arith, e), to (ground (arith, e, h))),
        λ (h, hs). ground (arith, e, from hs),
      )
    ]

check_after_iff :
    (afters befores : List Anchor)
    → (check_after afters befores ≡ ok tt)
      ↔ All (λ a. All (λ b. position a < position b) befores) afters
unfolding check_after
check_after_iff [] befores = (λ h. tt, λ h. refl)
check_after_iff (a ∷ afters) befores =
    let (to, from) = check_after_iff afters befores in
    let (first, back) = check_before_iff a befores in
    (
      λ h.
          let (u, e, f) = >>=-eq-ok (check_before a befores) (λ _. check_after afters befores) h in
          (first e, to f),
      λ (h, hs). rw (back h) (from hs),
    )

-- An ordering is accepted exactly when each of its `after` anchors stands before each of its
-- `before` anchors.
validate_ordering_iff :
    (ordering : OrderingConstraint)
    → (validate_ordering ordering ≡ ok tt)
      ↔ All (λ a. All (λ b. position a < position b) ordering.before) ordering.after
unfolding validate_ordering
validate_ordering_iff ordering = check_after_iff ordering.after ordering.before

abbrev pub IsLast : Anchor → List Anchor → Type 0
IsLast l as_ = In l as_ × All (λ x. position x ≤ position l) as_

last_anchor_step :
    (a b : Anchor) (bs : List Anchor)
    → ((last_anchor a (b ∷ bs) ≡ last_anchor b bs)
        × (ltb (position a) (position (last_anchor b bs)) ≡ true))
      ⊎ (last_anchor a (b ∷ bs) ≡ a) × (ltb (position a) (position (last_anchor b bs)) ≡ false)
unfolding last_anchor
last_anchor_step a b bs = elim (Bool-cases (ltb (position a) (position (last_anchor b bs)))) [
  | inl e ↦ inl (rw e refl, e)
  | inr e ↦ inr (rw e refl, e)
]

last_anchor-IsLast : (a : Anchor) (as_ : List Anchor) → IsLast (last_anchor a as_) (a ∷ as_)
last_anchor-IsLast a [] = unfold last_anchor in (inl refl, (omega arith, tt))
last_anchor-IsLast a (b ∷ bs) =
    let (i, h) = last_anchor-IsLast b bs in
    elim (last_anchor_step a b bs) [
      | inl (q, e) ↦ subst (λ l. IsLast l (a ∷ b ∷ bs)) (sym q) (inr i, (ground (arith, e), h))
      | inr (q, e) ↦
          subst (λ l. IsLast l (a ∷ b ∷ bs)) (sym q)
            (
              inl refl,
              (
                omega arith,
                All-map (λ x. position x ≤ position (last_anchor b bs))
                    (λ x. position x ≤ position a) (b ∷ bs) (λ x k. ground (arith, e, k)) h,
              ),
            )
    ]

abbrev pub IsFirst : Anchor → List Anchor → Type 0
IsFirst l as_ = In l as_ × All (λ x. position l ≤ position x) as_

first_anchor_step :
    (a b : Anchor) (bs : List Anchor)
    → ((first_anchor a (b ∷ bs) ≡ first_anchor b bs)
        × (ltb (position (first_anchor b bs)) (position a) ≡ true))
      ⊎ (first_anchor a (b ∷ bs) ≡ a) × (ltb (position (first_anchor b bs)) (position a) ≡ false)
unfolding first_anchor
first_anchor_step a b bs = elim (Bool-cases (ltb (position (first_anchor b bs)) (position a))) [
  | inl e ↦ inl (rw e refl, e)
  | inr e ↦ inr (rw e refl, e)
]

first_anchor-IsFirst : (a : Anchor) (as_ : List Anchor) → IsFirst (first_anchor a as_) (a ∷ as_)
first_anchor-IsFirst a [] = unfold first_anchor in (inl refl, (omega arith, tt))
first_anchor-IsFirst a (b ∷ bs) =
    let (i, h) = first_anchor-IsFirst b bs in
    elim (first_anchor_step a b bs) [
      | inl (q, e) ↦ subst (λ l. IsFirst l (a ∷ b ∷ bs)) (sym q) (inr i, (ground (arith, e), h))
      | inr (q, e) ↦
          subst (λ l. IsFirst l (a ∷ b ∷ bs)) (sym q)
            (
              inl refl,
              (
                omega arith,
                All-map (λ x. position (first_anchor b bs) ≤ position x)
                    (λ x. position a ≤ position x) (b ∷ bs) (λ x k. ground (arith, e, k)) h,
              ),
            )
    ]

-- The anchor that decides: the last of `after`, or else the first of `before`.
abbrev pub Decides : Anchor → OrderingConstraint → Type 0
Decides a ordering = IsLast a ordering.after ⊎ (ordering.after ≡ []) × IsFirst a ordering.before

chosen :
    (afters befores : List Anchor) (objects others : List Text) (o : StatementOrder)
    → order_of (anchor_for afters befores) ≡ some o
    → (a : Anchor) × (o ≡ anchor_statement_order a)
      × Decides a (record {
        after = afters;
        before = befores;
        after_object = objects;
        before_object = others;
      })
unfolding anchor_for order_of
chosen (a ∷ afters) befores objects others o h =
    (last_anchor a afters, cc, inl (last_anchor-IsLast a afters))
chosen [] (b ∷ befores) objects others o h =
    (first_anchor b befores, cc, inr (refl, first_anchor-IsFirst b befores))
chosen [] [] objects others o h = cc

-- When `statement_order_for` gives an order, the ordering is accepted, and the order is that of its
-- last `after` anchor, or of its first `before` anchor if there is no `after` anchor.
pub statement_order_for-Decides :
    (ordering : OrderingConstraint) (o : StatementOrder)
    → statement_order_for (some ordering) ≡ ok (some o)
    → (validate_ordering ordering ≡ ok tt)
      × ((a : Anchor) × (o ≡ anchor_statement_order a) × Decides a ordering)
unfolding statement_order_for
statement_order_for-Decides ordering o h =
    let (u, e, f) =
      >>=-eq-ok (validate_ordering ordering)
        (λ _. ok (order_of (anchor_for ordering.after ordering.before))) h in
    (
      e,
      chosen ordering.after ordering.before ordering.after_object ordering.before_object o
          (ground (arith, f)),
    )
