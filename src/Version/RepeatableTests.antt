-- ===== src/Version/RepeatableTests.antt =====
-- Two files that run on change, one of them unchanged, and the theorem at them.
use dbwarden.Common.{
  ◌≡◌, refl, true, false, Option, none, some, List, [], ◌∷◌, Text, text_eq, codes, ok,
  if◌then◌else◌,
}
use dbwarden.Version.Names.{is_word, ends_sql}
use dbwarden.Version.Files.{Entry, validate_migration_file}
use dbwarden.Version.Repeatables.{
  match_prefix, match_within, match_repeatable, add_if, list_entry, list_entries, is_due,
  get_runs_on_change_filepaths,
}

abbrev entry : Text → Entry
entry name = record { name = name; is_inside = true; is_symlink = false; is_file = true }

abbrev entries : List Entry
entries =
    entry (codes "a__RA__z.sql")
    ∷ entry (codes "a__ROC__x.sql")
    ∷ entry (codes "a__ROC__y.sql")
    ∷ []

-- The first has the checksum that is recorded.
abbrev recorded : Text → Option Text
recorded f = if text_eq f (codes "a__ROC__x.sql") then some (codes "abc") else none

abbrev checksum : Text → Text
checksum f = codes "abc"

listing : Unit {0}
unfolding text_eq is_word ends_sql match_prefix match_within match_repeatable
    validate_migration_file add_if list_entry list_entries is_due get_runs_on_change_filepaths
listing = tt

due : get_runs_on_change_filepaths recorded checksum true entries ≡ ok (codes "a__ROC__y.sql" ∷ [])
unfolding listing
due = refl
