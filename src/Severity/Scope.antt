-- ===== src/Severity/Scope.antt =====
-- dbwarden/engine/safety/scope.py: which files run under a severity ceiling.
--
-- `file_severity` is the function of dbwarden/engine/safety/plans.py, which reads the plan beside a
-- file: its level, and a reason where it is UNKNOWN. Messages and metrics are left out.
use dbwarden.Common.{
  ℕ, ◌-◌, Bool, true, false, Option, none, some, List, [], ◌∷◌, ◌++◌, not, if◌then◌else◌, Text,
  text_eq, codes, Outcome, ok, err, ◌>>=◌, length,
}
use dbwarden.Common.Sorting.{sort_items}
use dbwarden.Severity.Levels.{Safety, critical, safety_eq, SeverityError, severity_level, exceeds}

pub record DeferredStop : Type 0 where
  pub version : Text
  pub filepath : Text
  pub severity : Safety
  pub ceiling : Text
  pub remaining : ℕ
  pub reason : Text

-- `MISSING_PLAN_REASON`
abbrev pub missing_plan_reason : Text
missing_plan_reason = codes "no plan"

module _ (upper : Text → Text) where
  unfoldable pub ceiling_stops : Safety → Text → Text → Outcome SeverityError Bool
  ceiling_stops level reason ceiling =
      if text_eq reason missing_plan_reason
      then severity_level upper ceiling false >>= (λ cap. ok (not (safety_eq cap critical)))
      else exceeds upper level ceiling

  module _ (file_severity : Text → Safety × Text) (ceiling : Text) where
    -- `ceiling_stops` for the level and the reason of a file
    unfoldable pub stops : Text → Outcome SeverityError Bool
    stops filepath =
        let (level, reason) = file_severity filepath in ceiling_stops level reason ceiling

    unfoldable pub deferred_stop : Text → Text → ℕ → DeferredStop
    deferred_stop version filepath remaining =
        let (level, reason) = file_severity filepath in
        record {
          version = version;
          filepath = filepath;
          severity = level;
          ceiling = ceiling;
          remaining = remaining;
          reason = reason;
        }

    -- The loop over the sorted files, with the files that are allowed so far and their total number.
    unfoldable pub allow_files :
        ℕ
        → List (Text × Text)
        → List (Text × Text)
        → Outcome SeverityError (List (Text × Text) × Option DeferredStop)
    allow_files total allowed [] = ok (allowed, none)
    allow_files total allowed ((version, filepath) ∷ files) = elim (stops filepath) [
      | err e ↦ err e
      | ok true ↦ ok (allowed, some (deferred_stop version filepath (total - length allowed)))
      | ok false ↦ allow_files total (allowed ++ (version, filepath) ∷ []) files
    ]

    unfoldable pub severity_prefix :
        List (Text × Text) → Outcome SeverityError (List (Text × Text) × Option DeferredStop)
    severity_prefix files = allow_files (length files) [] (sort_items files)

    unfoldable pub filter_repeatables : List Text → Outcome SeverityError (List Text)
    filter_repeatables [] = ok []
    filter_repeatables (filepath ∷ files) =
        let rest = filter_repeatables files in
        elim (stops filepath) [
          | err e ↦ err e
          | ok true ↦ rest
          | ok false ↦ rest >>= λ result. ok (filepath ∷ result)
        ]
