-- ===== src/Version/FileTests.antt =====
-- A directory where one version has a superseded file, and the theorem at it.
use dbwarden.Common.{
  ◌≡◌, refl, Bool, true, false, none, some, List, [], ◌∷◌, Text, text_eq, codes, ok, err, inl, inr,
}
use dbwarden.Version.Names.{is_word, ends_sql, match_rest, prefer, match_from, match_version}
use dbwarden.Version.Files.{
  Entry, validate_migration_file, path_of, set_path, enter, visit_entry, collect, behind,
  start_after, up_to, end_at, get_migration_filepaths_by_version, version_collision,
}
use dbwarden.Version.FileLaws.{get_migration_filepaths_by_version-lists}

abbrev entry : Text → Entry
entry name = record { name = name; is_inside = true; is_symlink = false; is_file = true }

abbrev entries : List Entry
entries = entry (codes "a__0001_x.sql") ∷ entry (codes "b__0001_y.sql") ∷ entry (codes "b.txt") ∷ []

abbrev is_superseded : Text → Bool
is_superseded f = text_eq f (codes "a__0001_x.sql")

listing : Unit {0}
unfolding text_eq is_word ends_sql match_rest prefer match_from match_version
    validate_migration_file path_of set_path enter visit_entry collect behind start_after up_to
    end_at get_migration_filepaths_by_version
listing = tt

listed :
    get_migration_filepaths_by_version is_superseded entries none none
    ≡ ok ((codes "0001", codes "b__0001_y.sql") ∷ [])
unfolding listing
listed = refl

collision :
    get_migration_filepaths_by_version (λ f. false) entries none none
    ≡ err (version_collision (codes "0001") (codes "a__0001_x.sql") (codes "b__0001_y.sql"))
unfolding listing
collision = refl

matched : match_version (codes "b__0001_y.sql") ≡ some (codes "0001")
unfolding listing
matched = refl

live : is_superseded (codes "b__0001_y.sql") ≡ false
unfolding listing
live = refl

get_migration_filepaths_by_version-lists_example :
    path_of (codes "0001") ((codes "0001", codes "b__0001_y.sql") ∷ [])
    ≡ some (codes "b__0001_y.sql")
get_migration_filepaths_by_version-lists_example =
    get_migration_filepaths_by_version-lists is_superseded entries
      ((codes "0001", codes "b__0001_y.sql") ∷ []) (entry (codes "b__0001_y.sql")) (codes "0001")
      listed (inr (inl refl)) matched live
