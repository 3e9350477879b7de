-- ===== src/Version/NextLaws.antt =====
-- The next migration number is new.
use dbwarden.Common.{
  ℕ, zero, suc, ◌+◌, ◌-◌, ◌*◌, ◌/◌, ◌%◌, ◌≤◌, ◌<◌, ◌≡◌, refl, List, [], ◌∷◌, ◌++◌, ltb, Text,
  length, arith, Bool-cases, inl, inr, In, sym, ◌∙◌, subst,
}
use dbwarden.Version.Next.{
  existing_versions, int_from, int_of, max_number, decimal, zeros, four_digits, next_of,
  get_next_migration_number,
}

int_from-append :
    (n : ℕ) (s : Text) (c : ℕ) → int_from n (s ++ c ∷ []) ≡ 10 * int_from n s + (c - 48)
unfolding int_from
int_from-append n [] c = refl
int_from-append n (d ∷ s) c = int_from-append (10 * n + (d - 48)) s c

int_from-zeros : (k : ℕ) (t : Text) → int_of (zeros k ++ t) ≡ int_of t
unfolding int_from zeros
int_from-zeros zero t = refl
int_from-zeros (suc k) t = int_from-zeros k t

int_of-decimal : (rounds n : ℕ) → n ≤ rounds → int_of (decimal rounds n) ≡ n
unfolding int_from decimal
int_of-decimal zero n h = omega (arith, h)
int_of-decimal (suc rounds) n h = elim (Bool-cases (ltb n 10)) [
  | inl e ↦ rw e (omega arith)
  | inr e ↦ rw e (
      int_from-append 0 (decimal rounds (n / 10)) (48 + n % 10)
      ∙ (let front = int_of-decimal rounds (n / 10) (ground (arith, h, e)) in omega (arith, front)))
]

int_of-four_digits : (n : ℕ) → int_of (four_digits n) ≡ n
unfolding four_digits
int_of-four_digits n =
    int_from-zeros (4 - length (decimal n n)) (decimal n n) ∙ int_of-decimal n n (omega arith)

max_number-le : (vs : List Text) (v : Text) → In v vs → int_of v ≤ max_number vs
unfolding max_number
max_number-le [] v i = absurd i
max_number-le (u ∷ vs) v (inl e) =
    subst (λ w. int_of w ≤ max_number (u ∷ vs)) (sym e) (ground arith)
max_number-le (u ∷ vs) v (inr i) = ground (arith, max_number-le vs v i)

next_of-lt : (vs : List Text) (v : Text) → In v vs → int_of v < int_of (next_of vs)
unfolding next_of
next_of-lt [] v i = absurd i
next_of-lt (u ∷ vs) v i =
    omega (arith, int_of-four_digits (suc (max_number (u ∷ vs))), max_number-le (u ∷ vs) v i)

-- The next migration number, read back as a number, is greater than the number of every migration
-- file in the directory.
pub get_next_migration_number-lt :
    (names : List Text) (v : Text)
    → In v (existing_versions names)
    → int_of v < int_of (get_next_migration_number names)
unfolding get_next_migration_number
get_next_migration_number-lt names v i = next_of-lt (existing_versions names) v i
