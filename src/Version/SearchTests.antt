-- ===== src/Version/SearchTests.antt =====
-- Three migrations in a row, and two that depend on each other, one through a third.
use dbwarden.Common.{
  ◌≡◌, ◌↔◌, refl, Bool, false, List, [], ◌∷◌, Text, text_eq, text_in, codes, ok, In, inl, inr, sym,
  ap, ◌∙◌, if◌then◌else◌,
}
use dbwarden.Version.Resolve.{Migration, resolve_migration_order}
use dbwarden.Version.PendingLaws.{AgreeOnDeps}
use dbwarden.Version.Validated.{validate_dependencies-order}
use dbwarden.Version.Validate.{
  missing_targets, flag_deps, flag_all, superseded_deps, is_superseded_dep, filepath_of,
  unmet_applied_deps,
}
use dbwarden.Version.Search.{
  set_deps, put_pending, pending_deps, deps_of, is_pending, check_deps, detect_cycle, search,
  cycle_errors, circular_error, validate_dependencies,
}
use dbwarden.Version.Cycles.{Leads}
use dbwarden.Version.CycleLaws.{cycle_errors_iff}

abbrev migration : Text → List Text → Migration
migration v deps = record { version = v; filepath = v; depends_on = deps; is_seed = false }

abbrev row : List Migration
row =
    migration (codes "1") []
    ∷ migration (codes "2") (codes "1" ∷ [])
    ∷ migration (codes "3") (codes "2" ∷ codes "1" ∷ [])
    ∷ []

abbrev ring : List Migration
ring =
    migration (codes "1") (codes "0" ∷ codes "3" ∷ [])
    ∷ migration (codes "2") (codes "1" ∷ [])
    ∷ migration (codes "3") (codes "2" ∷ [])
    ∷ []

searching : Unit {0}
unfolding text_eq text_in set_deps put_pending pending_deps deps_of is_pending check_deps
    detect_cycle search cycle_errors validate_dependencies missing_targets flag_deps flag_all
    superseded_deps is_superseded_dep filepath_of unmet_applied_deps
searching = tt

row_passes : cycle_errors [] row ≡ []
unfolding searching
row_passes = refl

ring_found :
    cycle_errors [] ring ≡ circular_error (pending_deps [] ring) (codes "1" ∷ codes "2" ∷ []) ∷ []
unfolding searching
ring_found = refl

-- With the first migration applied the ring is open.
applied_passes : cycle_errors (codes "1" ∷ []) ring ≡ []
unfolding searching
applied_passes = refl

cycle_errors_iff_example :
    (cycle_errors [] row ≡ []) ↔ ((v : Text) → ¬ Leads (pending_deps [] row) v v)
cycle_errors_iff_example = cycle_errors_iff [] row

abbrev never : Text → Bool
never f = false

row_validated : validate_dependencies never [] row ≡ []
unfolding searching
row_validated = refl

abbrev row_deps : Text → List Text
row_deps v =
    if text_eq v (codes "1")
    then []
    else if text_eq v (codes "2")
    then codes "1" ∷ []
    else codes "2" ∷ codes "1" ∷ []

in_row :
    (m k : Migration)
    → m ≡ k
    → k.depends_on ≡ row_deps k.version
    → m.depends_on ≡ row_deps m.version
in_row m k e h =
    ap (λ (x : Migration). x.depends_on) e ∙ h ∙ ap (λ (x : Migration). row_deps x.version) (sym e)

depends_on-row_deps : (m : Migration) → In m row → m.depends_on ≡ row_deps m.version
unfolding searching
depends_on-row_deps m (inl e) = in_row m (migration (codes "1") []) e refl
depends_on-row_deps m (inr (inl e)) = in_row m (migration (codes "2") (codes "1" ∷ [])) e refl
depends_on-row_deps m (inr (inr (inl e))) =
    in_row m (migration (codes "3") (codes "2" ∷ codes "1" ∷ [])) e refl
depends_on-row_deps m (inr (inr (inr i))) = absurd i

row-AgreeOnDeps : AgreeOnDeps [] row
row-AgreeOnDeps m n i j e = depends_on-row_deps m i ∙ ap row_deps e ∙ sym (depends_on-row_deps n j)

validate_dependencies-order_example :
    (order : List Migration) × (resolve_migration_order row [] ≡ ok order)
validate_dependencies-order_example =
    validate_dependencies-order never [] row row_validated row-AgreeOnDeps
