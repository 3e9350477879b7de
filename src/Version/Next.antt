-- ===== src/Version/Next.antt =====
-- The number of the next migration, of dbwarden/engine/version.py.
use dbwarden.Common.{
  ℕ, zero, suc, ◌+◌, ◌-◌, ◌*◌, ◌/◌, ◌%◌, none, some, List, [], ◌∷◌, ◌++◌, ltb, if◌then◌else◌, Text,
  codes, length,
}
use dbwarden.Version.Names.{match_version}

-- `existing_migrations`
unfoldable pub existing_versions : List Text → List Text
existing_versions [] = []
existing_versions (name ∷ names) = elim (match_version name) [
  | none ↦ existing_versions names
  | some version ↦ version ∷ existing_versions names
]

-- `int(version)` of digits, behind those read before
unfoldable pub int_from : ℕ → Text → ℕ
int_from n [] = n
int_from n (c ∷ t) = int_from (10 * n + (c - 48)) t

abbrev pub int_of : Text → ℕ
int_of t = int_from 0 t

-- `max(existing_numbers)`
unfoldable pub max_number : List Text → ℕ
max_number [] = 0
max_number (v ∷ vs) = let rest = max_number vs in if ltb rest (int_of v) then int_of v else rest

-- The decimal digits of a number, with as many as the first argument allows.
unfoldable pub decimal : ℕ → ℕ → Text
decimal zero n = (48 + n) ∷ []
decimal (suc rounds) n =
    if ltb n 10 then (48 + n) ∷ [] else decimal rounds (n / 10) ++ (48 + n % 10) ∷ []

unfoldable pub zeros : ℕ → Text
zeros zero = []
zeros (suc n) = 48 ∷ zeros n

-- `f"{n:04d}"`
unfoldable pub four_digits : ℕ → Text
unfolding decimal zeros
four_digits n = zeros (4 - length (decimal n n)) ++ decimal n n

unfoldable pub next_of : List Text → Text
unfolding four_digits max_number
next_of [] = codes "0001"
next_of (v ∷ vs) = four_digits (suc (max_number (v ∷ vs)))

-- From the names of the files in the directory.
unfoldable pub get_next_migration_number : List Text → Text
unfolding existing_versions next_of
get_next_migration_number names = next_of (existing_versions names)
