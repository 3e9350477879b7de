-- ===== src/Severity/Levels.antt =====
-- The levels of dbwarden/engine/safety/classifiers.py and their comparison.
--
-- `upper` is Python's `str.upper`.
use dbwarden.Common.{
  ℕ, ◌≡◌, ◌≢◌, refl, Bool, true, false, ◌&&◌, ◌||◌, not, ltb, if◌then◌else◌, Text, text_eq, codes,
  Outcome, ok, err, ◌>>=◌, arith, Bool-cases, inl, inr, ap, Outcome-cases,
}

pub data Safety : Type 0 where
  safe info warn critical unknown : Safety

-- `LEVELS.index`
abbrev pub index : Safety → ℕ
index safe = 0
index info = 1
index warn = 2
index critical = 3
index unknown = 4

abbrev pub safety_eq : Safety → Safety → Bool
safety_eq safe safe = true
safety_eq info info = true
safety_eq warn warn = true
safety_eq critical critical = true
safety_eq unknown unknown = true
safety_eq _ _ = false

pub safety_eq_sound : (a b : Safety) → safety_eq a b ≡ true → a ≡ b
safety_eq_sound safe safe h = refl
safety_eq_sound info info h = refl
safety_eq_sound warn warn h = refl
safety_eq_sound critical critical h = refl
safety_eq_sound unknown unknown h = refl
safety_eq_sound _ _ h = cc

-- `max(a, b, key=LEVELS.index)`
abbrev pub max_level : Safety → Safety → Safety
max_level a b = if ltb (index a) (index b) then b else a

-- The two messages of `severity_level`.
pub data SeverityError : Type 0 where
  not_a_severity not_selectable : SeverityError

-- `Safety(value)`
unfoldable pub safety_of : Text → Outcome SeverityError Safety
safety_of value =
    if text_eq value (codes "SAFE")
    then ok safe
    else if text_eq value (codes "INFO")
    then ok info
    else if text_eq value (codes "WARN")
    then ok warn
    else if text_eq value (codes "CRITICAL")
    then ok critical
    else if text_eq value (codes "UNKNOWN")
    then ok unknown
    else err not_a_severity

module _ (upper : Text → Text) where
  unfoldable pub severity_level : Text → Bool → Outcome SeverityError Safety
  severity_level value allow_unknown = safety_of (upper value) >>= λ level.
      if safety_eq level unknown && not allow_unknown then err not_selectable else ok level

  unfoldable pub exceeds : Safety → Text → Outcome SeverityError Bool
  exceeds level ceiling = severity_level ceiling false >>= λ cap.
      ok (safety_eq level unknown || not (safety_eq cap critical) && ltb (index cap) (index level))

  exceeds-cap :
      (level cap : Safety)
      → cap ≢ unknown
      → (safety_eq level unknown || not (safety_eq cap critical) && ltb (index cap) (index level))
        ≡ ltb (index cap) (index level)
  exceeds-cap unknown unknown h = absurd (h refl)
  exceeds-cap unknown safe h = refl
  exceeds-cap unknown info h = refl
  exceeds-cap unknown warn h = refl
  exceeds-cap unknown critical h = refl
  exceeds-cap safe critical h = refl
  exceeds-cap info critical h = refl
  exceeds-cap warn critical h = refl
  exceeds-cap critical critical h = refl
  exceeds-cap safe safe h = refl
  exceeds-cap safe info h = refl
  exceeds-cap safe warn h = refl
  exceeds-cap safe unknown h = absurd (h refl)
  exceeds-cap info safe h = refl
  exceeds-cap info info h = refl
  exceeds-cap info warn h = refl
  exceeds-cap info unknown h = absurd (h refl)
  exceeds-cap warn safe h = refl
  exceeds-cap warn info h = refl
  exceeds-cap warn warn h = refl
  exceeds-cap warn unknown h = absurd (h refl)
  exceeds-cap critical safe h = refl
  exceeds-cap critical info h = refl
  exceeds-cap critical warn h = refl
  exceeds-cap critical unknown h = absurd (h refl)

  severity_level-selectable :
      (value : Text) (cap : Safety) → severity_level value false ≡ ok cap → cap ≢ unknown
  unfolding severity_level
  severity_level-selectable value cap h e =
      Outcome-cases (safety_of (upper value))
        (λ level f. elim (Bool-cases (safety_eq level unknown)) [
          | inl u ↦ absurd (ground (arith, f, u))
          | inr u ↦ ground (arith, f, u)
        ])
        (λ x f. absurd (ground (arith, f)))

  -- Where the ceiling can be selected, a level exceeds it exactly when it stands behind it in
  -- `LEVELS`, and an unselectable ceiling raises: the special cases of `exceeds` for UNKNOWN and for
  -- CRITICAL change nothing.
  exceeds-index :
      (level : Safety) (ceiling : Text)
      → exceeds level ceiling
        ≡ (severity_level ceiling false >>= λ cap. ok (ltb (index cap) (index level)))
  unfolding exceeds
  exceeds-index level ceiling =
      Outcome-cases (severity_level ceiling false)
        (λ cap e. rw e (ap ok (exceeds-cap level cap (severity_level-selectable ceiling cap e))))
        (λ x e. rw e)
