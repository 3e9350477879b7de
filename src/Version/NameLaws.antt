-- ===== src/Version/NameLaws.antt =====
-- A generated name is read back as a migration of its version.
use dbwarden.Common.{
  ℕ, ◌≡◌, refl, Bool, true, false, Option, none, some, [], ◌∷◌, ◌++◌, ◌&&◌, not, ◌==◌, Text,
  text_eq, codes, all, arith, Bool-cases, inl, inr, &&-eq-true,
}
use dbwarden.Version.Names.{
  is_digit, is_word, ends_sql, match_rest, prefer, match_from, match_version, replace_others,
  starts_low, collapse, lstrip, strip_last, rstrip, or_untitled, safe_description,
  generate_migration_filename,
}

-- No two underscores in a row.
abbrev no_double : Text → Bool
no_double [] = true
no_double (c ∷ t) = not (c == 95 && starts_low t) && no_double t

no_double-collapse : (t : Text) → no_double (collapse t) ≡ true
unfolding collapse
no_double-collapse [] = refl
no_double-collapse (c ∷ t) = elim (Bool-cases (c == 95 && starts_low (collapse t))) [
  | inl e ↦ rw e (no_double-collapse t)
  | inr e ↦ rw (e, e, no_double-collapse t) refl
]

no_double-lstrip : (t : Text) → no_double t ≡ true → no_double (lstrip t) ≡ true
unfolding lstrip
no_double-lstrip [] h = refl
no_double-lstrip (c ∷ t) h = elim (Bool-cases (c == 95)) [
  | inl e ↦ rw e (no_double-lstrip t (&&-eq-true (not (c == 95 && starts_low t)) (no_double t) h).1)
  | inr e ↦ rw e h
]

starts_low-lstrip : (t : Text) → starts_low (lstrip t) ≡ false
unfolding lstrip
starts_low-lstrip [] = refl
starts_low-lstrip (c ∷ t) = elim (Bool-cases (c == 95)) [
  | inl e ↦ rw e (starts_low-lstrip t)
  | inr e ↦ rw (e, e) refl
]

starts_low-strip_last : (c : ℕ) (t : Text) → (c == 95) ≡ false → starts_low (strip_last c t) ≡ false
unfolding strip_last
starts_low-strip_last c [] h = rw (h, h) refl
starts_low-strip_last c (d ∷ t) h = h

starts_low-rstrip : (t : Text) → starts_low t ≡ false → starts_low (rstrip t) ≡ false
unfolding rstrip
starts_low-rstrip [] h = refl
starts_low-rstrip (c ∷ t) h = starts_low-strip_last c (rstrip t) h

no_double-strip_last :
    (c : ℕ) (t : Text)
    → (c == 95 && starts_low t) ≡ false
    → no_double t ≡ true
    → no_double (strip_last c t) ≡ true
unfolding strip_last
no_double-strip_last c [] h k = ground (arith, Bool-cases (c == 95))
no_double-strip_last c (d ∷ t) h k = rw h k

no_double-rstrip : (t : Text) → no_double t ≡ true → no_double (rstrip t) ≡ true
unfolding rstrip
no_double-rstrip [] h = refl
no_double-rstrip (c ∷ t) h =
    no_double-strip_last c (rstrip t) (ground (arith, h, starts_low-rstrip t))
      (no_double-rstrip t (&&-eq-true (not (c == 95 && starts_low t)) (no_double t) h).1)

no_double-sql : (t : Text) → no_double t ≡ true → no_double (t ++ codes ".sql") ≡ true
no_double-sql [] h = refl
no_double-sql (c ∷ []) h = ground arith
no_double-sql (c ∷ d ∷ t) h =
    let (first, later) = &&-eq-true (not (c == 95 && d == 95)) (no_double (d ∷ t)) h in
    rw (first, no_double-sql (d ∷ t) later) refl

match_rest-none : (c : ℕ) (t : Text) → (c == 95 && starts_low t) ≡ false → match_rest (c ∷ t) ≡ none
unfolding match_rest
match_rest-none c [] h = refl
match_rest-none c (v ∷ []) h = refl
match_rest-none c (v ∷ a ∷ []) h = refl
match_rest-none c (v ∷ a ∷ b ∷ []) h = refl
match_rest-none c (v ∷ a ∷ b ∷ d ∷ []) h = refl
match_rest-none c (v ∷ a ∷ b ∷ d ∷ e ∷ []) h = refl
match_rest-none c (v ∷ a ∷ b ∷ d ∷ e ∷ w ∷ t) h = rw h refl

prefer-none :
    (t : Bool) (longer here : Option Text)
    → longer ≡ none
    → here ≡ none
    → prefer t longer here ≡ none
unfolding prefer
prefer-none true none here h k = k
prefer-none true (some v) here h k = cc
prefer-none false longer here h k = k

prefer-longer :
    (t : Bool) (longer here : Option Text) (v : Text)
    → t ≡ true
    → longer ≡ some v
    → prefer t longer here ≡ some v
unfolding prefer
prefer-longer true (some w) here v e h = h
prefer-longer true none here v e h = cc
prefer-longer false longer here v e h = cc

match_from-none : (t : Text) → no_double t ≡ true → match_from t ≡ none
unfolding match_from
match_from-none [] h = refl
match_from-none (c ∷ t) h =
    let (first, later) = &&-eq-true (not (c == 95 && starts_low t)) (no_double t) h in
    let rest : match_rest (c ∷ t) ≡ none = match_rest-none c t (ground (arith, first)) in
    prefer-none (is_word c) (match_from t) (match_rest (c ∷ t)) (match_from-none t later) rest

-- A match further on wins.
match_from-word :
    (w t v : Text) → all is_word w ≡ true → match_from t ≡ some v → match_from (w ++ t) ≡ some v
unfolding match_from
match_from-word [] t v h m = m
match_from-word (c ∷ w) t v h m =
    let (first, later) = &&-eq-true (is_word c) (all is_word w) h in
    prefer-longer (is_word c) (match_from (w ++ t)) (match_rest (c ∷ w ++ t)) v first
      (match_from-word w t v later m)

ends_sql-append : (c : ℕ) (t : Text) → ends_sql ((c ∷ t) ++ codes ".sql") ≡ true
unfolding ends_sql text_eq
ends_sql-append c [] = refl
ends_sql-append c (d ∷ t) = rw (ends_sql-append d t) (ground arith)

prefer-here :
    (t : Bool) (longer here : Option Text) (v : Text)
    → longer ≡ none
    → here ≡ some v
    → prefer t longer here ≡ some v
unfolding prefer
prefer-here true none here v h k = k
prefer-here true (some w) here v h k = cc
prefer-here false longer here v h k = k

match_rest-some :
    (a b c d : ℕ) (t : Text)
    → (is_digit a && is_digit b && is_digit c && is_digit d) ≡ true
    → ends_sql t ≡ true
    → match_rest (95 ∷ 95 ∷ a ∷ b ∷ c ∷ d ∷ 95 ∷ t) ≡ some (a ∷ b ∷ c ∷ d ∷ [])
unfolding match_rest
match_rest-some a b c d t digits h = rw (digits, h) refl

not_low : (c : ℕ) → is_digit c ≡ true → (c == 95) ≡ false
not_low c h = ground (arith, h)

digits-single :
    (a b c d : ℕ) (t : Text)
    → (is_digit a && is_digit b && is_digit c && is_digit d) ≡ true
    → starts_low t ≡ false
    → no_double t ≡ true
    → no_double (95 ∷ a ∷ b ∷ c ∷ d ∷ 95 ∷ t) ≡ true
digits-single a b c d t digits h k =
    let (abc, fourth) = &&-eq-true (is_digit a && is_digit b && is_digit c) (is_digit d) digits in
    let (ab, third) = &&-eq-true (is_digit a && is_digit b) (is_digit c) abc in
    let (first, second) = &&-eq-true (is_digit a) (is_digit b) ab in
    rw (not_low a first, not_low b second, not_low c third, not_low d fourth, h, k) refl

-- What stands behind the database name, with a description that is not empty, does not start with
-- an underscore and has no two in a row.
match_from-digits :
    (a b c d x : ℕ) (safe : Text)
    → (is_digit a && is_digit b && is_digit c && is_digit d) ≡ true
    → no_double (x ∷ safe) ≡ true
    → (x == 95) ≡ false
    → match_from
        (codes "__" ++ ((a ∷ b ∷ c ∷ d ∷ []) ++ (codes "_" ++ ((x ∷ safe) ++ codes ".sql"))))
      ≡ some (a ∷ b ∷ c ∷ d ∷ [])
unfolding match_from
match_from-digits a b c d x safe digits single first =
    prefer-here (is_word 95) (match_from (95 ∷ a ∷ b ∷ c ∷ d ∷ 95 ∷ (x ∷ safe) ++ codes ".sql"))
      (match_rest (95 ∷ 95 ∷ a ∷ b ∷ c ∷ d ∷ 95 ∷ (x ∷ safe) ++ codes ".sql")) (a ∷ b ∷ c ∷ d ∷ [])
      (match_from-none (95 ∷ a ∷ b ∷ c ∷ d ∷ 95 ∷ (x ∷ safe) ++ codes ".sql") (
        digits-single a b c d ((x ∷ safe) ++ codes ".sql") digits first
          (no_double-sql (x ∷ safe) single)))
      (match_rest-some a b c d ((x ∷ safe) ++ codes ".sql") digits (ends_sql-append x safe))

or_untitled-plain :
    (t : Text)
    → no_double t ≡ true
    → starts_low t ≡ false
    → (x : ℕ) × (rest : Text) × (or_untitled t ≡ x ∷ rest)
      × (no_double (x ∷ rest) ≡ true)
      × ((x == 95) ≡ false)
unfolding or_untitled
or_untitled-plain [] h k = (117, codes "ntitled", refl, refl, refl)
or_untitled-plain (c ∷ t) h k = (c, t, refl, h, k)

-- The name that is generated for a database name of letters, digits and underscores and a version
-- of four digits is matched as a migration of this version, whatever the description is.
pub match_version-generate_migration_filename :
    (lower : Text → Text) (n : ℕ) (db_name : Text) (a b c d : ℕ) (description : Text)
    → all is_word (n ∷ db_name) ≡ true
    → (is_digit a && is_digit b && is_digit c && is_digit d) ≡ true
    → match_version
        (generate_migration_filename lower (n ∷ db_name) description (a ∷ b ∷ c ∷ d ∷ []))
      ≡ some (a ∷ b ∷ c ∷ d ∷ [])
unfolding match_version generate_migration_filename safe_description
match_version-generate_migration_filename lower n db_name a b c d description word digits =
    let t = collapse (replace_others (lower description)) in
    let (x, rest, same, single, first) =
      or_untitled-plain (rstrip (lstrip t))
        (no_double-rstrip (lstrip t)
          (no_double-lstrip t (no_double-collapse (replace_others (lower description)))))
        (starts_low-rstrip (lstrip t) (starts_low-lstrip t)) in
    let (head, tail) = &&-eq-true (is_word n) (all is_word db_name) word in
    rw (head, same)
      (match_from-word db_name
        (codes "__" ++ ((a ∷ b ∷ c ∷ d ∷ []) ++ (codes "_" ++ ((x ∷ rest) ++ codes ".sql"))))
        (a ∷ b ∷ c ∷ d ∷ []) tail (match_from-digits a b c d x rest digits single first))
