-- ===== src/Version/Files.antt =====
-- The listing of migration files, `get_migration_filepaths_by_version` of
-- dbwarden/engine/version.py.
--
-- The entries are `sorted(os.listdir(directory))` of a directory that exists; a path is the name of
-- its file. `is_superseded` is the function of dbwarden/merge/marker.py.
use dbwarden.Common.{
  Bool, Option, none, some, List, [], ◌∷◌, ◌&&◌, not, if◌then◌else◌, Text, text_eq, Outcome, ok,
  err, ◌>>=◌,
}
use dbwarden.Version.Names.{match_version}

-- An entry of the directory, and what the file system says of it.
pub record Entry : Type 0 where
  pub name : Text
  pub is_inside : Bool
  pub is_symlink : Bool
  pub is_file : Bool

pub data FileError : Type 0 where
  resolves_outside symbolic_link not_regular : Text → FileError
  version_collision : Text → Text → Text → FileError

-- `_validate_migration_file`
unfoldable pub validate_migration_file : Entry → Outcome FileError (Unit {0})
validate_migration_file e =
    if not e.is_inside
    then err (resolves_outside e.name)
    else if e.is_symlink
    then err (symbolic_link e.name)
    else if not e.is_file
    then err (not_regular e.name)
    else ok tt

-- `migrations.get(version)`
unfoldable pub path_of : Text → List (Text × Text) → Option Text
path_of v [] = none
path_of v ((w, f) ∷ migrations) =
    let rest = path_of v migrations in if text_eq w v then some f else rest

-- `migrations[version] = filepath`, at the place of the key if there is one
unfoldable pub set_path : Text → Text → List (Text × Text) → List (Text × Text)
set_path v f [] = (v, f) ∷ []
set_path v f ((w, g) ∷ migrations) =
    let rest = set_path v f migrations in if text_eq w v then (w, f) ∷ migrations else (w, g) ∷ rest

module _ (is_superseded : Text → Bool) where
  -- What is done with a file of a version that may be listed already.
  unfoldable pub enter :
      Text → Text → Option Text → List (Text × Text) → Outcome FileError (List (Text × Text))
  enter v f none migrations = ok (set_path v f migrations)
  enter v f (some g) migrations =
      if not (is_superseded f) && not (is_superseded g)
      then err (version_collision v g f)
      else if is_superseded f
      then ok migrations
      else ok (set_path v f migrations)

  -- The body of the loop for one entry, with the version that its name matches.
  unfoldable pub visit_entry :
      Entry → Option Text → List (Text × Text) → Outcome FileError (List (Text × Text))
  visit_entry e none migrations = ok migrations
  visit_entry e (some v) migrations =
      validate_migration_file e >>= λ _. enter v e.name (path_of v migrations) migrations

  unfoldable pub collect : List Entry → List (Text × Text) → Outcome FileError (List (Text × Text))
  collect [] migrations = ok migrations
  collect (e ∷ entries) migrations =
      visit_entry e (match_version e.name) migrations >>= collect entries

-- The items behind the key, or all if it is missing.
unfoldable pub behind : Text → List (Text × Text) → Option (List (Text × Text))
behind v [] = none
behind v ((w, f) ∷ migrations) =
    let rest = behind v migrations in if text_eq w v then some migrations else rest

unfoldable pub start_after : Option Text → List (Text × Text) → List (Text × Text)
start_after none migrations = migrations
start_after (some []) migrations = migrations
start_after (some (c ∷ v)) migrations = elim (behind (c ∷ v) migrations) [
  | none ↦ migrations
  | some rest ↦ rest
]

-- The items up to the key, or all if it is missing.
unfoldable pub up_to : Text → List (Text × Text) → List (Text × Text)
up_to v [] = []
up_to v ((w, f) ∷ migrations) =
    let rest = up_to v migrations in if text_eq w v then (w, f) ∷ [] else (w, f) ∷ rest

unfoldable pub end_at : Option Text → List (Text × Text) → List (Text × Text)
end_at none migrations = migrations
end_at (some []) migrations = migrations
end_at (some (c ∷ v)) migrations = up_to (c ∷ v) migrations

unfoldable pub get_migration_filepaths_by_version :
    (Text → Bool) → List Entry → Option Text → Option Text → Outcome FileError (List (Text × Text))
get_migration_filepaths_by_version is_superseded entries version_to_start_from end_version =
    collect is_superseded entries [] >>= λ migrations.
    ok (end_at end_version (start_after version_to_start_from migrations))
