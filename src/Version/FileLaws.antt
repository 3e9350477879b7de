-- ===== src/Version/FileLaws.antt =====
-- The file of a version that is not superseded is the one that is listed.
use dbwarden.Common.{
  ◌≡◌, ◌≢◌, refl, Bool, true, false, Option, none, some, List, [], ◌∷◌, if◌then◌else◌, Text,
  text_eq, text_eq_refl, text_eq_sound, Outcome, ok, err, >>=-eq-ok, In, inl, inr, Bool-cases, ap,
  sym, ◌∙◌, subst,
}
use dbwarden.Version.Names.{match_version}
use dbwarden.Version.Files.{
  Entry, FileError, version_collision, validate_migration_file, path_of, set_path, enter,
  visit_entry, collect, get_migration_filepaths_by_version, start_after, end_at,
}

path_of-set_path_same :
    (v f : Text) (ms : List (Text × Text)) → path_of v (set_path v f ms) ≡ some f
unfolding path_of set_path
path_of-set_path_same v f [] = rw (text_eq_refl v) refl
path_of-set_path_same v f ((w, g) ∷ ms) = elim (Bool-cases (text_eq w v)) [
  | inl e ↦ rw (e, e) refl
  | inr e ↦ rw (e, e) (path_of-set_path_same v f ms)
]

path_of-set_path_other :
    (v u f : Text) (ms : List (Text × Text))
    → text_eq u v ≡ false
    → path_of v (set_path u f ms) ≡ path_of v ms
unfolding path_of set_path
path_of-set_path_other v u f [] h = rw h refl
path_of-set_path_other v u f ((w, g) ∷ ms) h = elim (Bool-cases (text_eq w u)) [
  | inl e ↦
      let other : text_eq w v ≡ false =
        subst (λ x. text_eq x v ≡ false) (sym (text_eq_sound w u e)) h in
      rw (e, other) refl
  | inr e ↦ rw e (ap (λ r. if text_eq w v then some g else r) (path_of-set_path_other v u f ms h))
]

abbrev ok_of : List (Text × Text) → Outcome FileError (List (Text × Text))
ok_of l = ok l

abbrev err_of : FileError → Outcome FileError (List (Text × Text))
err_of x = err x

none-not-some : (f : Text) → ¬ (none ≡ some f)
none-not-some f h = cc

some-inj : {a b : Text} → some a ≡ some b → a ≡ b
some-inj h = cc

true-not-false : ¬ (true ≡ false)
true-not-false h = cc

ok-inj : {a b : List (Text × Text)} → ok_of a ≡ ok b → a ≡ b
ok-inj h = cc

err-not-ok : (x : FileError) (b : List (Text × Text)) → ¬ (err_of x ≡ ok b)
err-not-ok x b h = cc

set-keeps :
    (v f u g : Text) (ms : List (Text × Text))
    → path_of v ms ≡ some f
    → path_of u ms ≢ some f
    → path_of v (set_path u g ms) ≡ some f
set-keeps v f u g ms listed other = elim (Bool-cases (text_eq u v)) [
  | inl e ↦ absurd (other (subst (λ x. path_of x ms ≡ some f) (sym (text_eq_sound u v e)) listed))
  | inr e ↦ path_of-set_path_other v u g ms e ∙ listed
]

module _ (is_superseded : Text → Bool) where
  enter-collision :
      (u g k : Text) (ms : List (Text × Text))
      → is_superseded g ≡ false
      → is_superseded k ≡ false
      → enter is_superseded u g (some k) ms ≡ err_of (version_collision u k g)
  unfolding enter
  enter-collision u g k ms a b = rw (a, b) refl

  enter-skips :
      (u g k : Text) (ms : List (Text × Text))
      → is_superseded g ≡ true
      → enter is_superseded u g (some k) ms ≡ ok ms
  unfolding enter
  enter-skips u g k ms a = rw a refl

  enter-replaces :
      (u g k : Text) (ms : List (Text × Text))
      → is_superseded g ≡ false
      → is_superseded k ≡ true
      → enter is_superseded u g (some k) ms ≡ ok (set_path u g ms)
  unfolding enter
  enter-replaces u g k ms a b = rw (a, b) refl

  enter-new :
      (u g : Text) (ms : List (Text × Text))
      → enter is_superseded u g none ms ≡ ok (set_path u g ms)
  unfolding enter
  enter-new u g ms = refl

  enter-sets :
      (v f : Text) (known : Option Text) (ms ms' : List (Text × Text))
      → is_superseded f ≡ false
      → enter is_superseded v f known ms ≡ ok ms'
      → path_of v ms' ≡ some f
  enter-sets v f none ms ms' live h =
      subst (λ l. path_of v l ≡ some f) (ok-inj (sym (enter-new v f ms) ∙ h))
        (path_of-set_path_same v f ms)
  enter-sets v f (some k) ms ms' live h = elim (Bool-cases (is_superseded k)) [
    | inl e ↦
        subst (λ l. path_of v l ≡ some f) (ok-inj (sym (enter-replaces v f k ms live e) ∙ h))
          (path_of-set_path_same v f ms)
    | inr e ↦
        absurd
          (err-not-ok (version_collision v k f) ms' (sym (enter-collision v f k ms live e) ∙ h))
  ]

  enter-keeps :
      (v f u g : Text) (known : Option Text) (ms ms' : List (Text × Text))
      → is_superseded f ≡ false
      → path_of v ms ≡ some f
      → known ≡ path_of u ms
      → enter is_superseded u g known ms ≡ ok ms'
      → path_of v ms' ≡ some f
  enter-keeps v f u g none ms ms' live listed look h =
      subst (λ l. path_of v l ≡ some f) (ok-inj (sym (enter-new u g ms) ∙ h))
        (set-keeps v f u g ms listed (λ e. none-not-some f (look ∙ e)))
  enter-keeps v f u g (some k) ms ms' live listed look h = elim (Bool-cases (is_superseded g)) [
    | inl a ↦ subst (λ l. path_of v l ≡ some f) (ok-inj (sym (enter-skips u g k ms a) ∙ h)) listed
    | inr a ↦ elim (Bool-cases (is_superseded k)) [
      | inr b ↦
          absurd (err-not-ok (version_collision u k g) ms' (sym (enter-collision u g k ms a b) ∙ h))
      | inl b ↦
          subst (λ l. path_of v l ≡ some f) (ok-inj (sym (enter-replaces u g k ms a b) ∙ h))
            (set-keeps v f u g ms listed
              (λ e. true-not-false (sym b ∙ ap is_superseded (some-inj (look ∙ e)) ∙ live)))
    ]
  ]

  visit_entry-keeps :
      (v f : Text) (e : Entry) (matched : Option Text) (ms ms' : List (Text × Text))
      → is_superseded f ≡ false
      → path_of v ms ≡ some f
      → visit_entry is_superseded e matched ms ≡ ok ms'
      → path_of v ms' ≡ some f
  unfolding visit_entry
  visit_entry-keeps v f e none ms ms' live listed h =
      subst (λ l. path_of v l ≡ some f) (ok-inj h) listed
  visit_entry-keeps v f e (some u) ms ms' live listed h =
      let (_, _, entered) =
        >>=-eq-ok (validate_migration_file e) (λ _. enter is_superseded u e.name (path_of u ms) ms)
          h in
      enter-keeps v f u e.name (path_of u ms) ms ms' live listed refl entered

  visit_entry-sets :
      (v : Text) (e : Entry) (ms ms' : List (Text × Text))
      → is_superseded e.name ≡ false
      → visit_entry is_superseded e (some v) ms ≡ ok ms'
      → path_of v ms' ≡ some e.name
  unfolding visit_entry
  visit_entry-sets v e ms ms' live h =
      let (_, _, entered) =
        >>=-eq-ok (validate_migration_file e) (λ _. enter is_superseded v e.name (path_of v ms) ms)
          h in
      enter-sets v e.name (path_of v ms) ms ms' live entered

  collect-keeps :
      (v f : Text) (entries : List Entry) (ms ms' : List (Text × Text))
      → is_superseded f ≡ false
      → path_of v ms ≡ some f
      → collect is_superseded entries ms ≡ ok ms'
      → path_of v ms' ≡ some f
  unfolding collect
  collect-keeps v f [] ms ms' live listed h = subst (λ l. path_of v l ≡ some f) (ok-inj h) listed
  collect-keeps v f (e ∷ entries) ms ms' live listed h =
      let (mid, first, later) =
        >>=-eq-ok (visit_entry is_superseded e (match_version e.name) ms)
          (collect is_superseded entries) h in
      collect-keeps v f entries mid ms' live
        (visit_entry-keeps v f e (match_version e.name) ms mid live listed first) later

  collect-lists :
      (v : Text) (e : Entry) (entries : List Entry) (ms ms' : List (Text × Text))
      → In e entries
      → match_version e.name ≡ some v
      → is_superseded e.name ≡ false
      → collect is_superseded entries ms ≡ ok ms'
      → path_of v ms' ≡ some e.name
  unfolding collect
  collect-lists v e [] ms ms' i matched live h = absurd i
  collect-lists v e (x ∷ entries) ms ms' (inl p) matched live h =
      let (mid, first, later) =
        >>=-eq-ok (visit_entry is_superseded x (match_version x.name) ms)
          (collect is_superseded entries) h in
      collect-keeps v e.name entries mid ms' live
        (visit_entry-sets v e ms mid live (
          subst (λ o. visit_entry is_superseded e o ms ≡ ok mid) matched
            (subst (λ (y : Entry). visit_entry is_superseded y (match_version y.name) ms ≡ ok mid)
              (sym p) first)))
        later
  collect-lists v e (x ∷ entries) ms ms' (inr i) matched live h =
      let (mid, _, later) =
        >>=-eq-ok (visit_entry is_superseded x (match_version x.name) ms)
          (collect is_superseded entries) h in
      collect-lists v e entries mid ms' i matched live later

  -- When the listing of all versions returns, each file of the directory that is named as a
  -- migration and is not superseded is the file that is listed for its version: no two such files
  -- have the same version.
  pub get_migration_filepaths_by_version-lists :
      (entries : List Entry) (migrations : List (Text × Text)) (e : Entry) (v : Text)
      → get_migration_filepaths_by_version is_superseded entries none none ≡ ok migrations
      → In e entries
      → match_version e.name ≡ some v
      → is_superseded e.name ≡ false
      → path_of v migrations ≡ some e.name
  unfolding get_migration_filepaths_by_version start_after end_at
  get_migration_filepaths_by_version-lists entries migrations e v h i matched live =
      let (all, first, same) =
        >>=-eq-ok (collect is_superseded entries []) (λ ms. ok (end_at none (start_after none ms)))
          h in
      collect-lists v e entries [] migrations i matched live (first ∙ ap (λ l. ok l) (ok-inj same))
