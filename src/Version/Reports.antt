-- ===== src/Version/Reports.antt =====
-- What the checks of `validate_dependencies` report, against the files and the applied versions.
use dbwarden.Common.{
  ◌≡◌, ◌↔◌, refl, Bool, true, none, some, List, [], ◌∷◌, ◌++◌, ◌&&◌, not, Text, text_eq,
  text_eq_sound, text_eq_refl, text_in, text_in-In, In-text_in, arith, Bool-cases, Option-cases,
  inl, inr, In, ap, sym, ◌∙◌,
}
use mathlib.Core.Bool.{false≢true}
use dbwarden.Version.Resolve.{Migration, versions}
use dbwarden.Version.Validate.{
  ErrorType, missing_target, superseded_dep, unmet_applied_dep, DependencyError, dependency_error,
  flag_all, filepath_of, is_superseded_dep, missing_targets, superseded_deps, unmet_applied_deps,
}
use dbwarden.Version.ValidateLaws.{flag_all-Flagged, Flagged-flag_all}

-- The file of the last migration of this version.
abbrev pub IsLastFile : Text → List Migration → Text → Type 0
IsLastFile v ms f =
    (front : List Migration) × (m : Migration) × (back : List Migration) × (ms ≡ front ++ m ∷ back)
    × (m.version ≡ v)
    × (m.filepath ≡ f)
    × (In v (versions back) → ⊥)

some-inj : {f g : Text} → some f ≡ some g → f ≡ g
some-inj e = cc

is_none : {f : Text} → some f ≡ none → ⊥
is_none e = cc

filepath_of-none :
    (v : Text) (ms : List Migration) → filepath_of v ms ≡ none → In v (versions ms) → ⊥
unfolding filepath_of
filepath_of-none v [] e i = i
filepath_of-none v (m ∷ ms) e i = elim (Option-cases (filepath_of v ms)) [
  | inr (f, g) ↦ is_none (rw (g, filepath_of) at e)
  | inl g ↦ elim i [
    | inl same ↦ is_none (rw (g, filepath_of, sym same, text_eq_refl v) at e)
    | inr j ↦ filepath_of-none v ms g j
  ]
]

none-filepath_of :
    (v : Text) (ms : List Migration) → (In v (versions ms) → ⊥) → filepath_of v ms ≡ none
unfolding filepath_of
none-filepath_of v [] h = refl
none-filepath_of v (m ∷ ms) h = elim (Bool-cases (text_eq m.version v)) [
  | inl e ↦ absurd (h (inl (sym (text_eq_sound m.version v e))))
  | inr e ↦ rw (none-filepath_of v ms (λ i. h (inr i)), e) refl
]

filepath_of-IsLastFile :
    (v : Text) (ms : List Migration) (f : Text) → filepath_of v ms ≡ some f → IsLastFile v ms f
unfolding filepath_of
filepath_of-IsLastFile v [] f e = absurd (is_none (sym e))
filepath_of-IsLastFile v (m ∷ ms) f e = elim (Option-cases (filepath_of v ms)) [
  | inr (g, h) ↦
      let (front, x, back, same, is_v, path, apart) = filepath_of-IsLastFile v ms g h in
      (
        m ∷ front,
        x,
        back,
        ap (λ (l : List Migration). m ∷ l) same,
        is_v,
        path ∙ some-inj (rw (h, filepath_of) at e),
        apart,
      )
  | inl h ↦ elim (Bool-cases (text_eq m.version v)) [
    | inl t ↦ (
      [],
      m,
      ms,
      refl,
      text_eq_sound m.version v t,
      some-inj (rw (h, filepath_of, t) at e),
      filepath_of-none v ms h,
    )
    | inr t ↦ absurd (is_none (sym (rw (h, filepath_of, t) at e)))
  ]
]

last-filepath_of :
    (v : Text) (front : List Migration) (m : Migration) (back : List Migration)
    → m.version ≡ v
    → (In v (versions back) → ⊥)
    → filepath_of v (front ++ m ∷ back) ≡ some m.filepath
unfolding filepath_of
last-filepath_of v [] m back same apart =
    rw (none-filepath_of v back apart, same, text_eq_refl v) refl
last-filepath_of v (x ∷ front) m back same apart =
    rw (last-filepath_of v front m back same apart) refl

IsLastFile-filepath_of :
    (v : Text) (ms : List Migration) (f : Text) → IsLastFile v ms f → filepath_of v ms ≡ some f
IsLastFile-filepath_of v ms f (front, m, back, same, is_v, path, apart) =
    ap (filepath_of v) same ∙ last-filepath_of v front m back is_v apart ∙ ap some path

-- A dependency of a migration that a check is about, and that it reports.
abbrev pub Reported :
    (Text → Type 0) → (Text → Type 0) → ErrorType → List Migration → DependencyError → Type 0
Reported About Wrong kind ms e =
    (m : Migration) × (d : Text) × In m ms
    × About m.version
    × In d m.depends_on
    × Wrong d
    × (e ≡ dependency_error kind m.version d)

-- A test decides a property.
abbrev Decides : (Text → Bool) → (Text → Type 0) → Type 0
Decides test P = (t : Text) → (test t ≡ true) ↔ P t

flag_all-Reported :
    (about test : Text → Bool) (About Wrong : Text → Type 0) (kind : ErrorType)
    (ms : List Migration) (e : DependencyError)
    → Decides about About
    → Decides test Wrong
    → In e (flag_all about test kind ms) ↔ Reported About Wrong kind ms e
flag_all-Reported about test About Wrong kind ms e is_about is_wrong = (
  λ i.
      let (m, d, j, a, k, t, same) = flag_all-Flagged about test kind ms e i in
      (m, d, j, (is_about m.version).0 a, k, (is_wrong d).0 t, same),
  λ (m, d, j, a, k, t, same).
      Flagged-flag_all about test kind ms e
        (m, d, j, (is_about m.version).1 a, k, (is_wrong d).1 t, same),
)

every : Decides (λ v. true) (λ v. Unit {0})
every v = ((λ e. tt), (λ u. refl))

inside : (ts : List Text) → Decides (λ t. text_in t ts) (λ t. In t ts)
inside ts t = (text_in-In t ts, In-text_in t ts)

outside : (ts : List Text) → Decides (λ t. not (text_in t ts)) (λ t. In t ts → ⊥)
outside ts t = (
  (λ e i. absurd (false≢true (ground (arith, e, In-text_in t ts i)))),
  λ apart. elim (Bool-cases (text_in t ts)) [
    | inl e ↦ absurd (apart (text_in-In t ts e))
    | inr e ↦ rw e refl
  ],
)

-- A version whose last file is superseded.
abbrev pub IsSuperseded : (Text → Bool) → List Migration → Text → Type 0
IsSuperseded is_superseded ms v = (f : Text) × IsLastFile v ms f × (is_superseded f ≡ true)

is_superseded_dep-IsSuperseded :
    (is_superseded : Text → Bool) (ms : List Migration)
    → Decides
        (λ d. text_in d (versions ms) && is_superseded_dep is_superseded ms d)
        (IsSuperseded is_superseded ms)
unfolding is_superseded_dep
is_superseded_dep-IsSuperseded is_superseded ms d = (
  λ e. elim (Option-cases (filepath_of d ms)) [
    | inl g ↦ absurd (false≢true (ground (arith, rw (g, is_superseded_dep) at e)))
    | inr (f, g) ↦
        (f, filepath_of-IsLastFile d ms f g, ground (arith, rw (g, is_superseded_dep) at e))
  ],
  λ (f, last, known).
      let found = IsLastFile-filepath_of d ms f last in
      rw (is_superseded_dep, found, is_listed f found) known,
)
  where
    is_listed : (f : Text) → filepath_of d ms ≡ some f → text_in d (versions ms) ≡ true
    is_listed f found = elim (Bool-cases (text_in d (versions ms))) [
      | inl e ↦ e
      | inr e ↦
          absurd
            (is_none (sym found ∙ none-filepath_of d ms ((outside (versions ms) d).0 (rw e refl))))
    ]

-- For each of the checks, an error is reported exactly for a migration and a dependency of it: by
-- the first, if no migration has the version that it names; by the second, if the last file of that
-- version is superseded; by the third, if the migration is applied and that version is not.
pub validate_dependencies-In :
    (is_superseded : Text → Bool) (applied : List Text) (ms : List Migration) (e : DependencyError)
    → (In e (missing_targets ms)
        ↔ Reported (λ v. Unit {0}) (λ d. In d (versions ms) → ⊥) missing_target ms e)
      × (In e (superseded_deps is_superseded ms)
          ↔ Reported (λ v. Unit {0}) (IsSuperseded is_superseded ms) superseded_dep ms e)
      × (In e (unmet_applied_deps applied ms)
          ↔ Reported (λ v. In v applied) (λ d. In d applied → ⊥) unmet_applied_dep ms e)
unfolding missing_targets superseded_deps unmet_applied_deps
validate_dependencies-In is_superseded applied ms e = (
  flag_all-Reported (λ v. true) (λ d. not (text_in d (versions ms))) (λ v. Unit {0})
      (λ d. In d (versions ms) → ⊥) missing_target ms e every (outside (versions ms)),
  flag_all-Reported (λ v. true)
      (λ d. text_in d (versions ms) && is_superseded_dep is_superseded ms d) (λ v. Unit {0})
      (IsSuperseded is_superseded ms) superseded_dep ms e every
      (is_superseded_dep-IsSuperseded is_superseded ms),
  flag_all-Reported (λ v. text_in v applied) (λ d. not (text_in d applied)) (λ v. In v applied)
      (λ d. In d applied → ⊥) unmet_applied_dep ms e (inside applied) (outside applied),
)
