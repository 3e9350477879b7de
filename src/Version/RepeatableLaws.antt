-- ===== src/Version/RepeatableLaws.antt =====
-- Which repeatable migrations are listed.
use dbwarden.Common.{
  ◌≡◌, ◌↔◌, refl, Bool, true, false, Option, List, [], ◌∷◌, Text, codes, Outcome, ok, ◌>>=◌,
  >>=-eq-ok, In, inl, inr, ap, sym, ◌∙◌, subst,
}
use dbwarden.Version.Files.{Entry, FileError, validate_migration_file}
use dbwarden.Version.Repeatables.{
  match_repeatable, add_if, list_entry, list_entries, is_due, get_runs_on_change_filepaths,
}

-- The name of an entry that the pattern matches and the test keeps.
abbrev pub Listed : Text → (Text → Bool) → List Entry → Text → Type 0
Listed prefix keep entries f =
    (e : Entry) × In e entries
    × (f ≡ e.name)
    × (match_repeatable prefix e.name ≡ true)
    × (keep e.name ≡ true)

true-not-false : ¬ (true ≡ false)
true-not-false h = cc

abbrev returned : List Text → Outcome FileError (List Text)
returned l = ok l

texts-inj : {a b : List Text} → returned a ≡ ok b → a ≡ b
texts-inj h = cc

module _ (prefix : Text) (keep : Text → Bool) where
  later :
      (x : Entry) (entries : List Entry) (f : Text)
      → Listed prefix keep entries f
      → Listed prefix keep (x ∷ entries) f
  later x entries f (e, i, same, m, k) = (e, inr i, same, m, k)

  add_if-In :
      (x : Entry) (entries : List Entry) (f : Text) (rest : List Text) (t : Bool)
      → keep x.name ≡ t
      → match_repeatable prefix x.name ≡ true
      → In f rest ↔ Listed prefix keep entries f
      → In f (add_if prefix keep t x.name rest) ↔ Listed prefix keep (x ∷ entries) f
  unfolding add_if
  add_if-In x entries f rest true k m (to, from) = (
    λ i. elim i [ inl same ↦ (x, inl refl, same, m, k) | inr j ↦ later x entries f (to j) ],
    λ (e, i, same, m', k'). elim i [
      | inl p ↦ inl (same ∙ ap (λ (u : Entry). u.name) p)
      | inr j ↦ inr (from (e, j, same, m', k'))
    ],
  )
  add_if-In x entries f rest false k m (to, from) = (
    λ i. later x entries f (to i),
    λ (e, i, same, m', k'). elim i [
      | inl p ↦ absurd (true-not-false (sym k' ∙ ap (λ (u : Entry). keep u.name) p ∙ k))
      | inr j ↦ from (e, j, same, m', k')
    ],
  )

  list_entry-In :
      (t : Bool) (x : Entry) (entries : List Entry) (rest : Outcome FileError (List Text))
      (result : List Text) (f : Text)
      → match_repeatable prefix x.name ≡ t
      → ((l : List Text) → rest ≡ ok l → In f l ↔ Listed prefix keep entries f)
      → list_entry prefix keep t x rest ≡ ok result
      → In f result ↔ Listed prefix keep (x ∷ entries) f
  unfolding list_entry
  list_entry-In false x entries rest result f m known h =
      let (to, from) = known result h in
      (
        λ i. later x entries f (to i),
        λ (e, i, same, m', k'). elim i [
          | inl p ↦
              absurd
                (true-not-false (sym m' ∙ ap (λ (u : Entry). match_repeatable prefix u.name) p ∙ m))
          | inr j ↦ from (e, j, same, m', k')
        ],
      )
  list_entry-In true x entries rest result f m known h =
      let (_, _, h') =
        >>=-eq-ok (validate_migration_file x)
          (λ _. rest >>= λ l. ok (add_if prefix keep (keep x.name) x.name l)) h in
      let (l, r, e) = >>=-eq-ok rest (λ l. ok (add_if prefix keep (keep x.name) x.name l)) h' in
      subst (λ y. In f y ↔ Listed prefix keep (x ∷ entries) f) (texts-inj e)
        (add_if-In x entries f l (keep x.name) refl m (known l r))

  list_entries-In :
      (entries : List Entry) (result : List Text) (f : Text)
      → list_entries prefix keep entries ≡ ok result
      → In f result ↔ Listed prefix keep entries f
  unfolding list_entries
  list_entries-In [] result f h =
      (λ i. absurd (subst (In f) (sym (texts-inj h)) i), λ (e, i, same, m, k). absurd i)
  list_entries-In (x ∷ entries) result f h =
      list_entry-In (match_repeatable prefix x.name) x entries (list_entries prefix keep entries)
        result f refl (λ l r. list_entries-In entries l f r) h

-- When the listing returns, it has exactly the files whose names match the pattern for files that
-- run on change and that are due: all of them, or with `changed_only` those without a recorded
-- checksum or with another one than their statements have.
get_runs_on_change_filepaths-In :
    (recorded : Text → Option Text) (checksum : Text → Text) (changed_only : Bool)
    (entries : List Entry) (result : List Text) (f : Text)
    → get_runs_on_change_filepaths recorded checksum changed_only entries ≡ ok result
    → In f result ↔ Listed (codes "ROC__") (is_due recorded checksum changed_only) entries f
unfolding get_runs_on_change_filepaths
get_runs_on_change_filepaths-In recorded checksum changed_only entries result f h =
    list_entries-In (codes "ROC__") (is_due recorded checksum changed_only) entries result f h
