-- ===== src/Version/ValidateLaws.antt =====
-- What the checks of `validate_dependencies` report.
use dbwarden.Common.{
  ◌≡◌, refl, Bool, true, List, [], ◌∷◌, Text, Bool-cases, inl, inr, ◌⊎◌, In, In-append,
  In-append_left, In-append_right, ap, sym, ◌∙◌, subst,
}
use dbwarden.Version.Resolve.{Migration}
use dbwarden.Version.Validate.{ErrorType, DependencyError, dependency_error, flag_deps, flag_all}

flag_deps-In :
    (test : Text → Bool) (kind : ErrorType) (version : Text) (deps : List Text)
    (e : DependencyError)
    → In e (flag_deps test kind version deps)
    → (d : Text) × In d deps × (test d ≡ true) × (e ≡ dependency_error kind version d)
unfolding flag_deps
flag_deps-In test kind version [] e i = absurd i
flag_deps-In test kind version (d ∷ deps) e i = elim (Bool-cases (test d)) [
  | inl t ↦ first (flag_deps-In test kind version deps e) t (rw (t, flag_deps) at i)
  | inr f ↦ later (flag_deps-In test kind version deps e (rw (f, flag_deps) at i))
]
  where
    later :
        ((d' : Text) × In d' deps × (test d' ≡ true) × (e ≡ dependency_error kind version d'))
        → (d' : Text) × In d' (d ∷ deps) × (test d' ≡ true) × (e ≡ dependency_error kind version d')
    later (d', j, t, same) = (d', inr j, t, same)

    first :
        (In e (flag_deps test kind version deps)
          → (d' : Text) × In d' deps × (test d' ≡ true) × (e ≡ dependency_error kind version d'))
        → test d ≡ true
        → In e (dependency_error kind version d ∷ flag_deps test kind version deps)
        → (d' : Text) × In d' (d ∷ deps) × (test d' ≡ true) × (e ≡ dependency_error kind version d')
    first others t (inl same) = (d, inl refl, t, same)
    first others t (inr j) = later (others j)

In-flag_deps :
    (test : Text → Bool) (kind : ErrorType) (version : Text) (deps : List Text) (d : Text)
    → In d deps
    → test d ≡ true
    → In (dependency_error kind version d) (flag_deps test kind version deps)
unfolding flag_deps
In-flag_deps test kind version [] d i t = absurd i
In-flag_deps test kind version (x ∷ deps) d (inl e) t =
    rw (ap test (sym e) ∙ t) (inl (ap (dependency_error kind version) e))
In-flag_deps test kind version (x ∷ deps) d (inr i) t = elim (Bool-cases (test x)) [
  | inl h ↦ rw h (inr (In-flag_deps test kind version deps d i t))
  | inr h ↦ rw h (In-flag_deps test kind version deps d i t)
]

-- A dependency of a migration that a check is about, and that the test fails.
abbrev pub Flagged :
    (Text → Bool) → (Text → Bool) → ErrorType → List Migration → DependencyError → Type 0
Flagged about test kind ms e =
    (m : Migration) × (d : Text) × In m ms
    × (about m.version ≡ true)
    × In d m.depends_on
    × (test d ≡ true)
    × (e ≡ dependency_error kind m.version d)

module _ (about test : Text → Bool) (kind : ErrorType) where
  Flagged-later :
      (x : Migration) (ms : List Migration) (e : DependencyError)
      → Flagged about test kind ms e
      → Flagged about test kind (x ∷ ms) e
  Flagged-later x ms e (m, d, i, a, j, t, same) = (m, d, inr i, a, j, t, same)

  pub flag_all-Flagged :
      (ms : List Migration) (e : DependencyError)
      → In e (flag_all about test kind ms)
      → Flagged about test kind ms e
  unfolding flag_all
  flag_all-Flagged [] e i = absurd i
  flag_all-Flagged (x ∷ ms) e i = elim (Bool-cases (about x.version)) [
    | inl a ↦ here (flag_all-Flagged ms e) a (
        In-append e (flag_deps test kind x.version x.depends_on) (flag_all about test kind ms)
          (rw (a, flag_all) at i))
    | inr a ↦ Flagged-later x ms e (flag_all-Flagged ms e (rw (a, flag_all) at i))
  ]
    where
      here :
          (In e (flag_all about test kind ms) → Flagged about test kind ms e)
          → about x.version ≡ true
          → In e (flag_deps test kind x.version x.depends_on) ⊎ In e (flag_all about test kind ms)
          → Flagged about test kind (x ∷ ms) e
      here others a (inl j) =
          let (d, k, t, same) = flag_deps-In test kind x.version x.depends_on e j in
          (x, d, inl refl, a, k, t, same)
      here others a (inr j) = Flagged-later x ms e (others j)

  pub Flagged-flag_all :
      (ms : List Migration) (e : DependencyError)
      → Flagged about test kind ms e
      → In e (flag_all about test kind ms)
  unfolding flag_all
  Flagged-flag_all [] e (m, d, i, a, j, t, same) = absurd i
  Flagged-flag_all (x ∷ ms) e (m, d, inl p, a, j, t, same) =
      rw (ap (λ (u : Migration). about u.version) (sym p) ∙ a) (
        In-append_left e (flag_deps test kind x.version x.depends_on) (flag_all about test kind ms)
          (subst (λ y. In y (flag_deps test kind x.version x.depends_on))
            (ap (λ (u : Migration). dependency_error kind u.version d) (sym p) ∙ sym same)
            (In-flag_deps test kind x.version x.depends_on d
              (subst (λ (u : Migration). In d u.depends_on) p j) t)))
  Flagged-flag_all (x ∷ ms) e (m, d, inr i, a', j, t, same) = elim (Bool-cases (about x.version)) [
    | inl a ↦ rw a (
        In-append_right e (flag_deps test kind x.version x.depends_on) (flag_all about test kind ms)
          (Flagged-flag_all ms e (m, d, i, a', j, t, same)))
    | inr a ↦ rw a (Flagged-flag_all ms e (m, d, i, a', j, t, same))
  ]
