-- ===== src/Version/PendingLaws.antt =====
-- The dict of the pending migrations, as `validate_dependencies` builds it.
use dbwarden.Common.{
  ◌≡◌, refl, true, false, List, [], ◌∷◌, Text, text_eq, text_in, text_eq_sound, text_eq_iff,
  text_eq_refl, In, arith, Bool-cases, inl, inr, ◌⊎◌, sym, ap, ◌∙◌, subst, if◌then◌else◌,
}
use dbwarden.Version.Resolve.{Migration}
use dbwarden.Version.Search.{Pending, set_deps, put_pending, pending_deps, deps_of, is_pending}

deps_of-set_deps :
    (v w : Text) (deps : List Text) (p : Pending)
    → deps_of v (set_deps w deps p) ≡ (if text_eq v w then deps else deps_of v p)
unfolding deps_of set_deps
deps_of-set_deps v w deps [] = refl
deps_of-set_deps v w deps ((u, es) ∷ p) =
    ground (arith, text_eq_iff v w, text_eq_iff w u, text_eq_iff v u, deps_of-set_deps v w deps p)

is_pending-set_deps :
    (v w : Text) (deps : List Text) (p : Pending)
    → is_pending v (set_deps w deps p) ≡ (if text_eq v w then true else is_pending v p)
unfolding is_pending set_deps
is_pending-set_deps v w deps [] = refl
is_pending-set_deps v w deps ((u, es) ∷ p) =
    ground
      (arith, text_eq_iff v w, text_eq_iff w u, text_eq_iff v u, is_pending-set_deps v w deps p)

module _ (applied : List Text) where
  put_pending-keeps :
      (ms : List Migration) (v : Text) (p : Pending)
      → is_pending v p ≡ true
      → is_pending v (put_pending applied ms p) ≡ true
  unfolding put_pending
  put_pending-keeps [] v p h = h
  put_pending-keeps (m ∷ ms) v p h = elim (Bool-cases (text_in m.version applied)) [
    | inl a ↦ rw (a, put_pending) (put_pending-keeps ms v p h)
    | inr a ↦
        rw (a, put_pending)
          (put_pending-keeps ms v (set_deps m.version m.depends_on p)
            (ground (arith, is_pending-set_deps v m.version m.depends_on p, h)))
  ]

  put_pending-adds :
      (ms : List Migration) (v : Text) (p : Pending) (m : Migration)
      → In m ms
      → m.version ≡ v
      → text_in v applied ≡ false
      → is_pending v (put_pending applied ms p) ≡ true
  unfolding put_pending
  put_pending-adds [] v p m i e new = absurd i
  put_pending-adds (n ∷ ms) v p m i e new = elim (Bool-cases (text_in n.version applied)) [
    | inl a ↦
        rw (a, put_pending)
          (elim i [
            | inr j ↦ put_pending-adds ms v p m j e new
            | inl same ↦ absurd (
                off (
                  subst (λ (x : Text). text_in x applied ≡ true)
                    (sym (ap (λ (u : Migration). u.version) same) ∙ e) a))
          ])
    | inr a ↦
        rw (a, put_pending)
          (elim i [
            | inr j ↦ put_pending-adds ms v (set_deps n.version n.depends_on p) m j e new
            | inl same ↦ put_pending-keeps ms v (set_deps n.version n.depends_on p) (
                is_pending-set_deps v n.version n.depends_on p
                ∙ when_same (sym e ∙ ap (λ (u : Migration). u.version) same))
          ])
  ]
    where
      off : text_in v applied ≡ true → ⊥
      off h = ground (arith, h, new)

      when_same : v ≡ n.version → (if text_eq v n.version then true else is_pending v p) ≡ true
      when_same q = rw (subst (λ (x : Text). text_eq v x ≡ true) q (text_eq_refl v)) refl

  -- The dependencies that the dict has for a version are those of one of its files.
  put_pending-from :
      (ms : List Migration) (v : Text) (p : Pending)
      → is_pending v (put_pending applied ms p) ≡ true
      → ((m : Migration) × In m ms
          × (m.version ≡ v)
          × (deps_of v (put_pending applied ms p) ≡ m.depends_on))
        ⊎ ((is_pending v p ≡ true) × (deps_of v (put_pending applied ms p) ≡ deps_of v p))
  unfolding put_pending
  put_pending-from [] v p h = inr (h, refl)
  put_pending-from (n ∷ ms) v p h = elim (Bool-cases (text_in n.version applied)) [
    | inl a ↦
        rw (a, put_pending)
          (elim (put_pending-from ms v p (rw (a, put_pending) at h)) [
            | inl (m, i, e, d) ↦ inl (m, inr i, e, d)
            | inr q ↦ inr q
          ])
    | inr a ↦
        rw (a, put_pending)
          (elim (put_pending-from ms v (set_deps n.version n.depends_on p)
            (rw (a, put_pending) at h)) [
              | inl (m, i, e, d) ↦ inl (m, inr i, e, d)
              | inr (k, d) ↦ elim (Bool-cases (text_eq v n.version)) [
                | inl q ↦ inl (
                  n,
                  inl refl,
                  sym (text_eq_sound v n.version q),
                  d ∙ deps_of-set_deps v n.version n.depends_on p ∙ rw q refl,
                )
                | inr q ↦ inr (
                  ground (arith, is_pending-set_deps v n.version n.depends_on p, k, q),
                  d ∙ deps_of-set_deps v n.version n.depends_on p ∙ rw q refl,
                )
              ]
            ])
  ]

  -- Files of one version have the same dependencies.
  abbrev pub AgreeOnDeps : List Migration → Type 0
  AgreeOnDeps ms =
      (m n : Migration) → In m ms → In n ms → m.version ≡ n.version → m.depends_on ≡ n.depends_on

  pub pending_deps-is_pending :
      (ms : List Migration) (m : Migration)
      → In m ms
      → text_in m.version applied ≡ false
      → is_pending m.version (pending_deps applied ms) ≡ true
  unfolding pending_deps
  pending_deps-is_pending ms m i new = put_pending-adds ms m.version [] m i refl new

  pub deps_of-pending_deps :
      (ms : List Migration) (m : Migration)
      → AgreeOnDeps ms
      → In m ms
      → text_in m.version applied ≡ false
      → deps_of m.version (pending_deps applied ms) ≡ m.depends_on
  unfolding pending_deps is_pending
  deps_of-pending_deps ms m agree i new =
      elim (put_pending-from ms m.version [] (put_pending-adds ms m.version [] m i refl new)) [
        | inl (n, j, e, d) ↦ d ∙ agree n m j i e
        | inr (k, d) ↦ absurd (ground (arith, k))
      ]
