-- ===== src/Version/Repeatables.antt =====
-- The listings of repeatable migrations of dbwarden/engine/version.py, from the sorted entries of a
-- directory that exists.
--
-- `recorded` is the checksum that the repository has for a file name, and `checksum` that of the
-- statements of a file.
use dbwarden.Common.{
  Bool, true, false, Option, none, some, List, [], ◌∷◌, ◌++◌, ◌&&◌, ◌||◌, not, Text, text_eq, codes,
  Outcome, ok, ◌>>=◌, ◌==◌,
}
use dbwarden.Version.Names.{is_word, ends_sql}
use dbwarden.Version.Files.{Entry, FileError, validate_migration_file}

-- The prefix and `(.+)\.sql$`.
unfoldable pub match_prefix : Text → Text → Bool
match_prefix [] t = ends_sql t
match_prefix (p ∷ prefix) [] = false
match_prefix (p ∷ prefix) (c ∷ t) = p == c && match_prefix prefix t

unfoldable pub match_within : Text → Text → Bool
match_within prefix [] = false
match_within prefix (c ∷ t) = match_prefix prefix (c ∷ t) || is_word c && match_within prefix t

-- `RUNS_ALWAYS_PATTERN` and `RUNS_ON_CHANGE_PATTERN`
unfoldable pub match_repeatable : Text → Text → Bool
match_repeatable prefix [] = false
match_repeatable prefix (c ∷ t) = is_word c && match_within (codes "__" ++ prefix) t

-- The loop, with the test for the files that are appended.
module _ (prefix : Text) (keep : Text → Bool) where
  unfoldable pub add_if : Bool → Text → List Text → List Text
  add_if true f rest = f ∷ rest
  add_if false f rest = rest

  unfoldable pub list_entry :
      Bool → Entry → Outcome FileError (List Text) → Outcome FileError (List Text)
  unfolding add_if
  list_entry false e rest = rest
  list_entry true e rest = validate_migration_file e >>= λ _.
      rest >>= λ filepaths. ok (add_if (keep e.name) e.name filepaths)

  unfoldable pub list_entries : List Entry → Outcome FileError (List Text)
  list_entries [] = ok []
  list_entries (e ∷ entries) = list_entry (match_repeatable prefix e.name) e (list_entries entries)

unfoldable pub get_runs_always_filepaths : List Entry → Outcome FileError (List Text)
get_runs_always_filepaths = list_entries (codes "RA__") (λ f. true)

-- `not changed_only`, or a file without a recorded checksum or with another one
unfoldable pub is_due : (Text → Option Text) → (Text → Text) → Bool → Text → Bool
is_due recorded checksum changed_only f =
    not changed_only || elim (recorded f) [ none ↦ true | some c ↦ not (text_eq (checksum f) c) ]

unfoldable pub get_runs_on_change_filepaths :
    (Text → Option Text) → (Text → Text) → Bool → List Entry → Outcome FileError (List Text)
get_runs_on_change_filepaths recorded checksum changed_only =
    list_entries (codes "ROC__") (is_due recorded checksum changed_only)

-- The entries `runs_always` and `runs_on_change`.
unfoldable pub get_all_repeatable_filepaths :
    (Text → Option Text) → (Text → Text) → List Entry → Outcome FileError (List Text × List Text)
get_all_repeatable_filepaths recorded checksum entries =
    get_runs_always_filepaths entries >>= λ always.
    get_runs_on_change_filepaths recorded checksum false entries >>= λ changed. ok (always, changed)
