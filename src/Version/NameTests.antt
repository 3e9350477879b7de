-- ===== src/Version/NameTests.antt =====
-- The name of a first migration, and the theorem at it.
use dbwarden.Common.{◌≡◌, refl, none, some, Text, text_eq, codes}
use dbwarden.Version.Names.{
  is_word, ends_sql, match_rest, prefer, match_from, match_version, replace_others, collapse,
  lstrip, rstrip, or_untitled, safe_description, generate_migration_filename,
}
use dbwarden.Version.NameLaws.{match_version-generate_migration_filename}

-- The descriptions of these tests are in small letters already.
abbrev lower : Text → Text
lower t = t

naming : Unit {0}
unfolding text_eq is_word ends_sql match_rest match_from match_version replace_others collapse
    lstrip rstrip or_untitled safe_description generate_migration_filename prefer
naming = tt

named :
    generate_migration_filename lower (codes "main") (codes " add  user-id_") (codes "0007")
    ≡ codes "main__0007_add_user_id.sql"
unfolding naming
named = refl

-- The last number that fits counts.
two_numbers : match_version (codes "a__0001_b__0002_c.sql") ≡ some (codes "0002")
unfolding naming
two_numbers = refl

no_number : match_version (codes "a__1_b.sql") ≡ none
unfolding naming
no_number = refl

match_version-generate_migration_filename_example :
    match_version
      (generate_migration_filename lower (codes "main") (codes " add  user-id_") (codes "0007"))
    ≡ some (codes "0007")
unfolding naming
match_version-generate_migration_filename_example =
    match_version-generate_migration_filename lower 109 (codes "ain") 48 48 48 55
      (codes " add  user-id_") refl refl
