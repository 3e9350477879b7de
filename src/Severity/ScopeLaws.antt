-- ===== src/Severity/ScopeLaws.antt =====
-- The files that a ceiling lets through.
use dbwarden.Common.{
  ℕ, ◌+◌, ◌-◌, ◌≡◌, ◌↔◌, refl, Bool, true, false, Option, none, some, List, [], ◌∷◌, ◌++◌, inl, inr,
  Text, Outcome, ok, err, >>=-eq-ok, length, arith, All, All-append, ap, append_assoc,
  length-append, In, sym, ◌∙◌, subst,
}
use dbwarden.Common.Sorting.{sort_items, length-sort_items}
use dbwarden.Severity.Levels.{Safety, SeverityError}
use dbwarden.Severity.Scope.{
  DeferredStop, stops, deferred_stop, allow_files, severity_prefix, filter_repeatables,
}

Outcome-Bool-cases :
    {P : Type 0} (m : Outcome SeverityError Bool)
    → ((e : SeverityError) → m ≡ err e → P)
    → (m ≡ ok true → P)
    → (m ≡ ok false → P)
    → P
Outcome-Bool-cases (err e) f g h = f e refl
Outcome-Bool-cases (ok true) f g h = g refl
Outcome-Bool-cases (ok false) f g h = h refl

abbrev the_ok : {A : Type 0} → A → Outcome SeverityError A
the_ok a = ok a

ok-inj : {A : Type 0} {a b : A} → the_ok a ≡ ok b → a ≡ b
ok-inj h = cc

module _ (upper : Text → Text) (file_severity : Text → Safety × Text) (ceiling : Text) where
  -- What the stop says of the files that are deferred: their first, which the ceiling stops, and
  -- their number.
  abbrev pub IsStop : Option DeferredStop → List (Text × Text) → Type 0
  IsStop none [] = Unit
  IsStop none (f ∷ deferred) = ⊥
  IsStop (some s) [] = ⊥
  IsStop (some s) ((version, filepath) ∷ deferred) =
      (stops upper file_severity ceiling filepath ≡ ok true)
      × (s
          ≡ deferred_stop upper file_severity ceiling version filepath
              (length ((version, filepath) ∷ deferred)))

  abbrev pub IsSplit : List (Text × Text) → List (Text × Text) → Option DeferredStop → Type 0
  IsSplit files allowed stop =
      (deferred : List (Text × Text)) × (allowed ++ deferred ≡ files)
      × All (λ vf. stops upper file_severity ceiling vf.1 ≡ ok false) allowed
      × IsStop stop deferred

  result-IsSplit :
      (files before allowed : List (Text × Text)) (s stop : Option DeferredStop)
      → IsSplit files before s
      → the_ok {A = List (Text × Text) × Option DeferredStop} (before, s) ≡ ok (allowed, stop)
      → IsSplit files allowed stop
  result-IsSplit files before allowed s stop split h =
      let e : (before, s) ≡ (allowed, stop) = ok-inj h in
      subst (λ (r : List (Text × Text) × Option DeferredStop). IsSplit files r.0 r.1) e split

  allow_files-IsSplit :
      (total : ℕ) (before files allowed : List (Text × Text)) (stop : Option DeferredStop)
      → total ≡ length before + length files
      → All (λ vf. stops upper file_severity ceiling vf.1 ≡ ok false) before
      → allow_files upper file_severity ceiling total before files ≡ ok (allowed, stop)
      → IsSplit (before ++ files) allowed stop
  unfolding allow_files
  allow_files-IsSplit total before [] allowed stop n b h =
      result-IsSplit (before ++ []) before allowed none stop ([], refl, b, tt) h
  allow_files-IsSplit total before ((v, f) ∷ files) allowed stop n b h =
      Outcome-Bool-cases (stops upper file_severity ceiling f)
        (λ e q. absurd (ground (arith, rw (q, allow_files) at h)))
        (λ q.
          result-IsSplit (before ++ (v, f) ∷ files) before allowed
            (some (deferred_stop upper file_severity ceiling v f (total - length before))) stop
            (
              (v, f) ∷ files,
              refl,
              b,
              (q, ap (deferred_stop upper file_severity ceiling v f) (omega (arith, n))),
            )
            (rw (q, allow_files) at h))
        (λ q.
          subst (λ l. IsSplit l allowed stop) (append_assoc before ((v, f) ∷ []) files)
            (allow_files-IsSplit total (before ++ (v, f) ∷ []) files allowed stop
              (omega (arith, n, length-append before ((v, f) ∷ [])))
              (All-append (λ (vf : Text × Text). stops upper file_severity ceiling vf.1 ≡ ok false)
                before ((v, f) ∷ []) b (q, tt))
              (rw (q, allow_files) at h)))

  -- When `severity_prefix` returns, the allowed files are a prefix of the files sorted by version,
  -- none of which the ceiling stops. Without a stop these are all files; with one, it names the
  -- first file behind them, which the ceiling stops, and the number of files from there on.
  pub severity_prefix-IsSplit :
      (files allowed : List (Text × Text)) (stop : Option DeferredStop)
      → severity_prefix upper file_severity ceiling files ≡ ok (allowed, stop)
      → IsSplit (sort_items files) allowed stop
  unfolding severity_prefix
  severity_prefix-IsSplit files allowed stop h =
      allow_files-IsSplit (length files) [] (sort_items files) allowed stop
        (omega (arith, length-sort_items files)) tt h

  -- When `filter_repeatables` returns, it has kept exactly the files that the ceiling does not stop.
  pub filter_repeatables-In :
      (files result : List Text) (f : Text)
      → filter_repeatables upper file_severity ceiling files ≡ ok result
      → In f result ↔ (In f files × (stops upper file_severity ceiling f ≡ ok false))
  unfolding filter_repeatables
  filter_repeatables-In [] result f h =
      (λ i. absurd (subst (In f) (sym (ok-inj h)) i), λ (i, _). absurd i)
  filter_repeatables-In (x ∷ files) result f h =
      Outcome-Bool-cases (stops upper file_severity ceiling x)
        (λ e q. absurd (ground (arith, rw (q, filter_repeatables) at h)))
        (λ q.
          let (to, from) = filter_repeatables-In files result f (rw (q, filter_repeatables) at h) in
          (
            λ i. let (j, g) = to i in (inr j, g),
            λ (i, g). elim i [ inl e ↦ absurd (ground (arith, q, g, e)) | inr j ↦ from (j, g) ],
          ))
        (λ q.
          let (kept, r, e) =
            >>=-eq-ok (filter_repeatables upper file_severity ceiling files) (λ l. ok (x ∷ l))
              (rw (q, filter_repeatables) at h) in
          let (to, from) = filter_repeatables-In files kept f r in
          let same : (x ∷ kept) ≡ result = ok-inj e in
          (
            λ i. elim (subst (In f) (sym same) i) [
              | inl p ↦ (inl p, ap (stops upper file_severity ceiling) p ∙ q)
              | inr j ↦ let (k, g) = to j in (inr k, g)
            ],
            λ (i, g). subst (In f) same (elim i [ inl p ↦ inl p | inr j ↦ inr (from (j, g)) ]),
          ))
