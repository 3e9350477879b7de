-- ===== src/Version/Validate.antt =====
-- `validate_dependencies` of dbwarden/engine/version.py.
--
-- The first three checks; Version.Search has the search for cycles. The messages are made of the
-- entries of the errors and are left out. `is_superseded` is the function of dbwarden/merge/marker.py.
use dbwarden.Common.{
  Bool, true, false, Option, none, some, List, [], ◌∷◌, ◌++◌, ◌&&◌, not, if◌then◌else◌, Text,
  text_eq, text_in,
}
use dbwarden.Version.Resolve.{Migration, versions}

pub data ErrorType : Type 0 where
  missing_target circular unmet_applied_dep superseded_dep : ErrorType

pub record DependencyError : Type 0 where
  pub version : Text
  pub error_type : ErrorType
  pub missing : List Text

abbrev pub dependency_error : ErrorType → Text → Text → DependencyError
dependency_error kind version dep = record {
  version = version;
  error_type = kind;
  missing = dep ∷ [];
}

-- `for dep in deps: if test(dep): errors.append(…)`
unfoldable pub flag_deps : (Text → Bool) → ErrorType → Text → List Text → List DependencyError
flag_deps test kind version [] = []
flag_deps test kind version (dep ∷ deps) =
    let rest = flag_deps test kind version deps in
    if test dep then dependency_error kind version dep ∷ rest else rest

-- `for version, filepath, deps, seed in all_migrations`, for the versions that the check is about.
unfoldable pub flag_all :
    (Text → Bool) → (Text → Bool) → ErrorType → List Migration → List DependencyError
unfolding flag_deps
flag_all about test kind [] = []
flag_all about test kind (m ∷ ms) =
    let rest = flag_all about test kind ms in
    if about m.version then flag_deps test kind m.version m.depends_on ++ rest else rest

-- `filepath_by_version.get(dep)`: the last file of a version counts.
unfoldable pub filepath_of : Text → List Migration → Option Text
filepath_of v [] = none
filepath_of v (m ∷ ms) = elim (filepath_of v ms) [
  | some f ↦ some f
  | none ↦ if text_eq m.version v then some m.filepath else none
]

-- `dep_filepath and is_superseded(Path(dep_filepath))`; the paths of files are not empty.
unfoldable pub is_superseded_dep : (Text → Bool) → List Migration → Text → Bool
unfolding filepath_of
is_superseded_dep is_superseded all_migrations dep = elim (filepath_of dep all_migrations) [
  | none ↦ false
  | some f ↦ is_superseded f
]

-- Check 1
unfoldable pub missing_targets : List Migration → List DependencyError
missing_targets all_migrations =
    flag_all (λ v. true) (λ dep. not (text_in dep (versions all_migrations))) missing_target
      all_migrations

-- Check 2
unfoldable pub superseded_deps : (Text → Bool) → List Migration → List DependencyError
superseded_deps is_superseded all_migrations =
    flag_all (λ v. true)
      (λ dep.
        text_in dep (versions all_migrations) && is_superseded_dep is_superseded all_migrations dep)
      superseded_dep all_migrations

-- Check 3
unfoldable pub unmet_applied_deps : List Text → List Migration → List DependencyError
unmet_applied_deps applied all_migrations =
    flag_all (λ v. text_in v applied) (λ dep. not (text_in dep applied)) unmet_applied_dep
      all_migrations
