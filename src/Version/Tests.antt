-- ===== src/Version/Tests.antt =====
-- The order of three migrations, one of them applied, and of two that wait for each other.
use mathlib.Core.List.{Perm}
use mathlib.Core.Bool.{false≢true}
use dbwarden.Common.{
  ℕ, ◌≡◌, ◌≢◌, refl, false, List, [], ◌∷◌, ◌++◌, Text, text_in, text_eq, codes, All, Bool, In, ◌↔◌,
  arith, ok, err, if◌then◌else◌, sym,
}
use dbwarden.Version.Resolve.{
  Migration, versions, pending_of, deps_met, pass, passes, unresolved, finish,
  resolve_migration_order,
}
use dbwarden.Version.Validate.{
  missing_target, superseded_dep, unmet_applied_dep, DependencyError, dependency_error, flag_deps,
  flag_all, is_superseded_dep, filepath_of, missing_targets, superseded_deps, unmet_applied_deps,
}
use dbwarden.Version.Reports.{Reported, IsSuperseded, validate_dependencies-In}
use dbwarden.Version.ValidOrder.{IsDecreasing}
use dbwarden.Version.Ranking.{resolve_migration_order-total, IsRanked}
use dbwarden.Version.Order.{
  resolve_migration_order-IsInOrder, resolve_migration_order-err, IsBlocked, IsInOrder,
}

abbrev migration : Text → List Text → Migration
migration v deps = record { version = v; filepath = v; depends_on = deps; is_seed = false }

abbrev first : Migration
first = migration (codes "1") []

-- It needs the third, so it waits for the second pass.
abbrev second : Migration
second = migration (codes "2") (codes "3" ∷ [])

abbrev third : Migration
third = migration (codes "3") (codes "1" ∷ [])

abbrev directory : List Migration
directory = first ∷ second ∷ third ∷ []

abbrev applied : List Text
applied = codes "1" ∷ []

resolving : Unit {0}
unfolding text_eq text_in pending_of deps_met pass passes finish resolve_migration_order
resolving = tt

resolved : resolve_migration_order directory applied ≡ ok (third ∷ second ∷ [])
unfolding resolving
resolved = refl

resolve_migration_order-IsInOrder_example :
    Perm (third ∷ second ∷ []) (pending_of applied directory)
    × IsInOrder applied [] (third ∷ second ∷ [])
resolve_migration_order-IsInOrder_example =
    resolve_migration_order-IsInOrder directory applied (third ∷ second ∷ []) resolved

-- The third migration is below the second.
abbrev rank : Text → ℕ
rank v = if text_eq v (codes "3") then 0 else 1

ranked : IsRanked applied rank (pending_of applied directory)
unfolding resolving
ranked = (((λ e. (refl, omega arith)), tt), (((λ e. absurd (false≢true (sym e))), tt), tt))

resolve_migration_order-total_example :
    (order : List Migration) × (resolve_migration_order directory applied ≡ ok order)
resolve_migration_order-total_example = resolve_migration_order-total rank directory applied ranked

-- Two migrations that wait for each other.
abbrev cycle : List Migration
cycle = migration (codes "4") (codes "5" ∷ []) ∷ migration (codes "5") (codes "4" ∷ []) ∷ []

refused : resolve_migration_order cycle [] ≡ err (unresolved (codes "4" ∷ codes "5" ∷ []))
unfolding resolving
refused = refl

resolve_migration_order-err_example :
    (resolved rest : List Migration) × ((codes "4" ∷ codes "5" ∷ []) ≡ versions rest)
    × (rest ≢ [])
    × Perm (resolved ++ rest) (pending_of [] cycle)
    × All (IsBlocked [] resolved) rest
resolve_migration_order-err_example =
    resolve_migration_order-err cycle [] (codes "4" ∷ codes "5" ∷ []) refused

-- The file of the third migration is superseded, and the second needs it.
abbrev is_superseded : Text → Bool
is_superseded f = text_eq f (codes "3")

validating : Unit {0}
unfolding text_eq text_in flag_deps flag_all filepath_of is_superseded_dep missing_targets
    superseded_deps unmet_applied_deps
validating = tt

flagged :
    superseded_deps is_superseded directory
    ≡ dependency_error superseded_dep (codes "2") (codes "3") ∷ []
unfolding validating
flagged = refl

-- Only the second migration is applied, its dependency is not.
unmet :
    unmet_applied_deps (codes "2" ∷ []) directory
    ≡ dependency_error unmet_applied_dep (codes "2") (codes "3") ∷ []
unfolding validating
unmet = refl

nothing_missing : missing_targets directory ≡ []
unfolding validating
nothing_missing = refl

abbrev third_superseded : DependencyError
third_superseded = dependency_error superseded_dep (codes "2") (codes "3")

validate_dependencies-In_example :
    (In third_superseded (missing_targets directory)
      ↔ Reported
          (λ v. Unit {0})
          (λ d. In d (versions directory) → ⊥)
          missing_target
          directory
          third_superseded)
    × (In third_superseded (superseded_deps is_superseded directory)
        ↔ Reported
            (λ v. Unit {0})
            (IsSuperseded is_superseded directory)
            superseded_dep
            directory
            third_superseded)
    × (In third_superseded (unmet_applied_deps applied directory)
        ↔ Reported
            (λ v. In v applied)
            (λ d. In d applied → ⊥)
            unmet_applied_dep
            directory
            third_superseded)
validate_dependencies-In_example =
    validate_dependencies-In is_superseded applied directory third_superseded

decreasing : IsDecreasing rank applied directory
unfolding resolving
decreasing = (
  (λ new. tt),
  (
    (λ new. ((λ waits. omega arith), tt)),
    ((λ new. ((λ waits. absurd (false≢true (sym waits))), tt)), tt),
  ),
)
