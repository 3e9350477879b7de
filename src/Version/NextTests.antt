-- ===== src/Version/NextTests.antt =====
-- Two migration files and another file, and the theorem at these file_names.
use dbwarden.Common.{◌<◌, ◌≡◌, refl, none, List, [], ◌∷◌, Text, text_eq, codes, In, inl}
use dbwarden.Version.Names.{is_word, ends_sql, match_rest, prefer, match_from, match_version}
use dbwarden.Version.Next.{
  existing_versions, int_from, int_of, max_number, decimal, zeros, four_digits, next_of,
  get_next_migration_number,
}
use dbwarden.Version.NextLaws.{get_next_migration_number-lt}

numbering : Unit {0}
unfolding text_eq is_word ends_sql match_rest prefer match_from match_version existing_versions
    int_from max_number decimal zeros four_digits next_of get_next_migration_number
numbering = tt

abbrev file_names : List Text
file_names = codes "db__0009_a.sql" ∷ codes "notes.sql" ∷ codes "db__0002_b.sql" ∷ []

ten_is_next : get_next_migration_number file_names ≡ codes "0010"
unfolding numbering
ten_is_next = refl

-- The number behind 9999 has five digits, which the pattern of migration files does not match.
five_digits : get_next_migration_number (codes "db__9999_a.sql" ∷ []) ≡ codes "10000"
unfolding numbering
five_digits = refl

five_digits_are_not_matched : match_version (codes "db__10000_b.sql") ≡ none
unfolding numbering
five_digits_are_not_matched = refl

nine_exists : In (codes "0009") (existing_versions file_names)
unfolding numbering
nine_exists = inl refl

get_next_migration_number-lt_example :
    int_of (codes "0009") < int_of (get_next_migration_number file_names)
get_next_migration_number-lt_example =
    get_next_migration_number-lt file_names (codes "0009") nine_exists
