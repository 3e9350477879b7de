-- ===== src/State/Conflicts.antt =====
-- `check_deferred_conflicts` against the relation that it decides.
use dbwarden.Common.{
  ◌≡◌, ◌↔◌, refl, Bool, true, false, List, [], ◌∷◌, ◌++◌, Text, text_eq_iff, text_eq_sound, ok,
  arith, All, any, Bool-cases, inl, inr,
}
use dbwarden.State.Json.{Dict, Eq}
use dbwarden.State.Changes.{Change, state_changes}
use dbwarden.State.Pending.{
  Plan, starts_with, overlaps, is_deferred, contradicts, plan_changes, check_pending,
  check_deferred_conflicts,
}

-- `p` is the beginning of `q`.
abbrev pub IsBeginning : List Text → List Text → Type 0
IsBeginning p q = (r : List Text) × (q ≡ p ++ r)

-- Neither path lies on the way to the other.
abbrev pub AreApart : List Text → List Text → Type 0
AreApart p q = (¬ IsBeginning p q) × (¬ IsBeginning q p)

starts_with_sound : (q p : List Text) → starts_with q p ≡ true → IsBeginning p q
unfolding starts_with
starts_with_sound q [] h = (q, refl)
starts_with_sound [] (k ∷ p) h = cc
starts_with_sound (j ∷ q) (k ∷ p) h =
    let (r, e) = starts_with_sound q p (ground arith) in
    (r, cc (e, text_eq_sound j k (ground arith)))

tail_path : {j k : Text} {q s : List Text} → j ∷ q ≡ k ∷ s → q ≡ s
tail_path h = cc

head_path : {j k : Text} {q s : List Text} → j ∷ q ≡ k ∷ s → j ≡ k
head_path h = cc

starts_with_complete : (q p r : List Text) → q ≡ p ++ r → starts_with q p ≡ true
unfolding starts_with
starts_with_complete q [] r h = refl
starts_with_complete [] (k ∷ p) r h = cc
starts_with_complete (j ∷ q) (k ∷ p) r h =
    ground (arith, starts_with_complete q p r (tail_path h), text_eq_iff j k, head_path h)

overlaps_iff : (p q : List Text) → (overlaps p q ≡ false) ↔ AreApart p q
unfolding overlaps
overlaps_iff p q = (to, from)
  where
    to : overlaps p q ≡ false → AreApart p q
    to h = (
      λ (r, e). ground (arith, starts_with_complete q p r e),
      λ (r, e). ground (arith, starts_with_complete p q r e),
    )

    from : AreApart p q → overlaps p q ≡ false
    from (h, k) = elim (Bool-cases (starts_with p q)) [
      | inl e ↦ absurd (k (starts_with_sound p q e))
      | inr e ↦ elim (Bool-cases (starts_with q p)) [
        | inl e' ↦ absurd (h (starts_with_sound q p e'))
        | inr e' ↦ ground arith
      ]
    ]

any_iff :
    {A : Type 0} (p : A → Bool) (P : A → Type 0) (xs : List A)
    → ((x : A) → (p x ≡ false) ↔ P x)
    → (any p xs ≡ false) ↔ All P xs
any_iff p P [] f = (λ h. tt, λ h. refl)
any_iff p P (x ∷ xs) f =
    let (to, from) = any_iff p P xs f in
    (λ h. ((f x).0 (ground arith), to (ground arith)), λ h. ground (arith, (f x).1 h.0, from h.1))

module _ {Leaf : Type 0} where
  -- No change of the operations lies on the way to an edit, or behind one.
  abbrev pub AreUntouched : List (Change Leaf) → List (List (Change Leaf)) → Type 0
  AreUntouched edits = All (λ cs.
      All (λ (c : Change Leaf). All (λ (edit : Change Leaf). AreApart edit.path c.path) edits) cs)

  contradicts_iff :
      (edits : List (Change Leaf)) (css : List (List (Change Leaf)))
      → (contradicts edits css ≡ false) ↔ AreUntouched edits css
  unfolding contradicts
  contradicts_iff edits css =
      any_iff _ _ css
        λ cs. any_iff _ _ cs λ c. any_iff _ _ edits λ edit. overlaps_iff edit.path c.path

  check_pending_iff :
      (edits : List (Change Leaf)) (pending : List (Text × Plan Leaf))
      → (check_pending edits pending ≡ ok tt)
        ↔ All
            (λ (vp : Text × Plan Leaf).
              is_deferred vp.1 ≡ true → AreUntouched edits (plan_changes vp.1))
            pending
  unfolding check_pending
  check_pending_iff edits [] = (λ h. tt, λ h. refl)
  check_pending_iff edits ((v, plan) ∷ pending) =
      let (to, from) = check_pending_iff edits pending in
      let (apart, touch) = contradicts_iff edits (plan_changes plan) in
      (
        λ h. (λ d. apart (ground arith), to (ground arith)),
        λ h. elim (Bool-cases (is_deferred plan)) [
          | inl d ↦ ground (arith, touch (h.0 d), from h.1)
          | inr d ↦ ground (arith, from h.1)
        ],
      )

-- `check_deferred_conflicts` passes exactly when each change of each deferred pending plan is apart
-- from each edit between the effective state and the target: neither path begins with the other.
pub check_deferred_conflicts_iff :
    {Leaf : Type 0} ⦃e : Eq Leaf⦄ (pending : List (Text × Plan Leaf)) (effective target : Dict Leaf)
    → (check_deferred_conflicts pending effective target ≡ ok tt)
      ↔ All
          (λ (vp : Text × Plan Leaf).
            is_deferred vp.1 ≡ true
            → AreUntouched (state_changes effective target []) (plan_changes vp.1))
          pending
unfolding check_deferred_conflicts
check_deferred_conflicts_iff pending effective target =
    check_pending_iff (state_changes effective target []) pending
