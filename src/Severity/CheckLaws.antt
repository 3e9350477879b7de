-- ===== src/Severity/CheckLaws.antt =====
-- What the single checks of `read_trusted_plan` say when they pass.
use dbwarden.Common.{
  ◌≡◌, refl, Bool, true, false, Option, none, some, List, [], ◌∷◌, if◌then◌else◌, Text, text_eq,
  codes, text_eq_sound, Outcome, ok, err, Outcome-cases, inl, inr, ap, ◌∙◌, arith, Bool-cases,
}
use dbwarden.Severity.Levels.{Safety, safe, info, warn, critical, unknown, safety_of, SeverityError}
use dbwarden.Severity.Documents.{Document, string, dict, Fields, elements, items, get}
use dbwarden.Severity.Sealing.{Distrust}
use dbwarden.Severity.Plans.{PlanError, require, caught, value_of, level_of}
use dbwarden.Severity.Trust.{or_reason, entry_id, is_some, as_text}

pub level_of-value : (level : Safety) → level_of (string (value_of level)) ≡ ok level
unfolding level_of safety_of text_eq
level_of-value safe = refl
level_of-value info = refl
level_of-value warn = refl
level_of-value critical = refl
level_of-value unknown = refl

-- One of the tests of `Safety(value)`.
choice-eq :
    (t : Text) (l level : Safety) (rest : Outcome SeverityError Safety)
    → (if text_eq t (value_of l) then ok l else rest) ≡ ok level
    → (rest ≡ ok level → t ≡ value_of level)
    → t ≡ value_of level
choice-eq t l level rest h otherwise = elim (Bool-cases (text_eq t (value_of l))) [
  | inl e ↦ text_eq_sound t (value_of l) e ∙ ap value_of (ground (arith, h, e))
  | inr e ↦ otherwise (ground (arith, h, e))
]

safety_of-eq : (t : Text) (level : Safety) → safety_of t ≡ ok level → t ≡ value_of level
unfolding safety_of
safety_of-eq t level h = choice-eq t safe level _ h (λ h1. choice-eq t info level _ h1 (λ h2.
    choice-eq t warn level _ h2
      (λ h3. choice-eq t critical level _ h3 (λ h4. choice-eq t unknown level _ h4 (λ h5. cc)))))

pub level_of-eq :
    (v : Document) (level : Safety) → level_of v ≡ ok level → v ≡ string (value_of level)
unfolding level_of safety_of
level_of-eq (string t) level h =
    Outcome-cases (safety_of t) (λ l e. ap string (safety_of-eq t level (e ∙ ground (arith, e))))
      (λ x e. absurd (ground (arith, e)))
level_of-eq _ level h = cc

pub elements-items : (xs : List Document) → elements (items xs) ≡ xs
elements-items [] = refl
elements-items (x ∷ xs) = ap (λ (ys : List Document). x ∷ ys) (elements-items xs)

pub entry_id-eq : (d : Fields) (p : Text × Fields) → entry_id (dict d) ≡ some p → p.1 ≡ d
unfolding entry_id
entry_id-eq d p h = from (get (codes "id") d) h
  where
    from :
        (v : Document)
        → elim v [
          | string i ↦ if is_some (as_text (get (codes "kind") d)) then some (i, d) else none
          | _ ↦ none
        ]
          ≡ some p
        → p.1 ≡ d
    from (string i) e = elim (Bool-cases (is_some (as_text (get (codes "kind") d)))) [
      | inl t ↦ ground (arith, e, t)
      | inr t ↦ ground (arith, e, t)
    ]
    from _ e = cc

pub or_reason-eq :
    {A : Type 0} (reason : Distrust) (o : Option A) (a : A) → or_reason reason o ≡ ok a → o ≡ some a
or_reason-eq reason none a h = cc
or_reason-eq reason (some x) a h = cc

pub caught-eq : {A : Type 0} (o : Outcome PlanError A) (a : A) → caught o ≡ ok a → o ≡ ok a
caught-eq (ok x) a h = cc
caught-eq (err e) a h = cc

pub caught-value :
    {A : Type 0} (o : Outcome PlanError A) (a : A) {c : A} → caught o ≡ ok a → o ≡ ok c → a ≡ c
caught-value (ok x) a h i = cc
caught-value (err e) a h i = cc

pub require-eq :
    (reason : Distrust) (test : Bool) {u : Unit {0}} → require test reason ≡ ok u → test ≡ true
require-eq reason true h = refl
require-eq reason false h = cc
