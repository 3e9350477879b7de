-- ===== src/Version/Names.antt =====
-- The names of migration files of dbwarden/engine/version.py.
--
-- Names without line breaks, and `\d` for the digits 0 to 9. `lower` is Python's `str.lower`.
use dbwarden.Common.{
  ℕ, Bool, true, false, Option, none, some, [], ◌∷◌, ◌++◌, ◌&&◌, ◌||◌, leb, ◌==◌, if◌then◌else◌,
  Text, text_eq, codes,
}

-- `\d`
abbrev pub is_digit : ℕ → Bool
is_digit c = leb 48 c && leb c 57

-- `[a-zA-Z0-9_]`
unfoldable pub is_word : ℕ → Bool
is_word c = leb 97 c && leb c 122 || leb 65 c && leb c 90 || is_digit c || c == 95

-- `(.+)\.sql$`
unfoldable pub ends_sql : Text → Bool
ends_sql [] = false
ends_sql (c ∷ t) = text_eq t (codes ".sql") || ends_sql t

-- `__(\d{4})_(.+)\.sql$`, with the four digits
unfoldable pub match_rest : Text → Option Text
match_rest (u ∷ v ∷ a ∷ b ∷ c ∷ d ∷ w ∷ t) =
    if (u == 95 && v == 95)
      && (is_digit a && is_digit b && is_digit c && is_digit d)
      && (w == 95 && ends_sql t)
    then some (a ∷ b ∷ c ∷ d ∷ [])
    else none
match_rest _ = none

-- The match behind a longer run, if the character can belong to the run.
unfoldable pub prefer : Bool → Option Text → Option Text → Option Text
prefer true (some v) here = some v
prefer true none here = here
prefer false longer here = here

-- The longest run of `[a-zA-Z0-9_]` is tried first.
unfoldable pub match_from : Text → Option Text
unfolding prefer
match_from [] = none
match_from (c ∷ t) = prefer (is_word c) (match_from t) (match_rest (c ∷ t))

-- `MIGRATION_PATTERN.match(filename)`: group 1
unfoldable pub match_version : Text → Option Text
match_version [] = none
match_version (c ∷ t) = if is_word c then match_from t else none

-- `re.sub(r"[^a-zA-Z0-9_]", "_", …)`
unfoldable pub replace_others : Text → Text
replace_others [] = []
replace_others (c ∷ t) = (if is_word c then c else 95) ∷ replace_others t

abbrev pub starts_low : Text → Bool
starts_low [] = false
starts_low (c ∷ t) = c == 95

-- `re.sub(r"_+", "_", …)`
unfoldable pub collapse : Text → Text
collapse [] = []
collapse (c ∷ t) = let rest = collapse t in if c == 95 && starts_low rest then rest else c ∷ rest

-- `strip("_")`, on the left and on the right
unfoldable pub lstrip : Text → Text
lstrip [] = []
lstrip (c ∷ t) = let rest = lstrip t in if c == 95 then rest else c ∷ t

unfoldable pub strip_last : ℕ → Text → Text
strip_last c [] = if c == 95 then [] else c ∷ []
strip_last c (d ∷ t) = c ∷ d ∷ t

unfoldable pub rstrip : Text → Text
unfolding strip_last
rstrip [] = []
rstrip (c ∷ t) = strip_last c (rstrip t)

unfoldable pub or_untitled : Text → Text
or_untitled [] = codes "untitled"
or_untitled (c ∷ t) = c ∷ t

module _ (lower : Text → Text) where
  unfoldable pub safe_description : Text → Text
  safe_description description =
      or_untitled (rstrip (lstrip (collapse (replace_others (lower description)))))

  unfoldable pub generate_migration_filename : Text → Text → Text → Text
  generate_migration_filename db_name description version =
      db_name
      ++ (codes "__" ++ (version ++ (codes "_" ++ (safe_description description ++ codes ".sql"))))

  unfoldable pub generate_repeatable_filename : Text → Text → Text → Text
  generate_repeatable_filename db_name description prefix =
      db_name ++ codes "__" ++ prefix ++ safe_description description ++ codes ".sql"
