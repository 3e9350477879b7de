-- ===== src/Version/ValidOrder.antt =====
-- A directory that the first check of `validate_dependencies` passes has an order.
use dbwarden.Common.{
  All-In, ℕ, ◌<◌, ◌≡◌, refl, true, false, List, [], ◌∷◌, not, Text, text_eq, text_in, text_eq_sound,
  arith, Bool-cases, inl, inr, In, All, ap, sym, ◌∙◌, subst, ok,
}
use dbwarden.Version.Resolve.{Migration, versions, pending_of, resolve_migration_order}
use dbwarden.Version.Ranking.{IsBelow, resolve_migration_order-total}
use dbwarden.Version.Validate.{missing_target, dependency_error, missing_targets}
use dbwarden.Version.ValidateLaws.{Flagged-flag_all}

versions-pending_of :
    (applied : List Text) (ms : List Migration) (d : Text)
    → text_in d applied ≡ false
    → text_in d (versions ms) ≡ true
    → text_in d (versions (pending_of applied ms)) ≡ true
unfolding pending_of text_in
versions-pending_of applied [] d new h = cc
versions-pending_of applied (m ∷ ms) d new h = elim (Bool-cases (text_in m.version applied)) [
  | inr p ↦ rw p (ground (arith, versions-pending_of applied ms d new, h))
  | inl p ↦ elim (Bool-cases (text_eq d m.version)) [
    | inl e ↦ absurd (
        ground
          (arith, subst (λ v. text_in v applied ≡ true) (sym (text_eq_sound d m.version e)) p, new))
    | inr e ↦ rw p (versions-pending_of applied ms d new (ground (arith, h, e)))
  ]
]

pending-In :
    (applied : List Text) (ms : List Migration) (m : Migration)
    → In m (pending_of applied ms)
    → In m ms × (text_in m.version applied ≡ false)
unfolding pending_of
pending-In applied [] m i = absurd i
pending-In applied (x ∷ ms) m i = elim (Bool-cases (text_in x.version applied)) [
  | inl p ↦ let (j, new) = pending-In applied ms m (rw (p, pending_of) at i) in (inr j, new)
  | inr p ↦ here p (pending-In applied ms m) (rw (p, pending_of) at i)
]
  where
    here :
        text_in x.version applied ≡ false
        → (In m (pending_of applied ms) → In m ms × (text_in m.version applied ≡ false))
        → In m (x ∷ pending_of applied ms)
        → In m (x ∷ ms) × (text_in m.version applied ≡ false)
    here p others (inl e) = (inl e, ap (λ (u : Migration). text_in u.version applied) e ∙ p)
    here p others (inr j) = let (k, new) = others j in (inr k, new)

-- `rank` goes down from a pending migration to its dependencies that are not applied.
abbrev pub IsDecreasing : (Text → ℕ) → List Text → List Migration → Type 0
IsDecreasing rank applied = All (λ m.
    text_in m.version applied ≡ false
    → All (λ d. text_in d applied ≡ false → rank d < rank m.version) m.depends_on)

-- Where the first check of `validate_dependencies` reports nothing and the dependencies among the
-- pending migrations go down along some rank, so that they have no cycle,
-- `resolve_migration_order` returns an order.
pub resolve_migration_order-missing_targets :
    (rank : Text → ℕ) (ms : List Migration) (applied : List Text)
    → missing_targets ms ≡ []
    → IsDecreasing rank applied ms
    → (order : List Migration) × (resolve_migration_order ms applied ≡ ok order)
unfolding missing_targets
resolve_migration_order-missing_targets rank ms applied none_missing decreasing =
    resolve_migration_order-total rank ms applied
      (ranked (pending_of applied ms) (λ m i. pending-In applied ms m i))
  where
    exists :
        (m : Migration) (d : Text) → In m ms → In d m.depends_on → text_in d (versions ms) ≡ true
    exists m d i j = elim (Bool-cases (text_in d (versions ms))) [
      | inl e ↦ e
      | inr e ↦ absurd (
          subst (In (dependency_error missing_target m.version d)) none_missing (
            Flagged-flag_all (λ v. true) (λ t. not (text_in t (versions ms))) missing_target ms
              (dependency_error missing_target m.version d) (m, d, i, refl, j, ap not e, refl)))
    ]

    lower :
        (m : Migration) (d : Text)
        → In m ms
        → text_in m.version applied ≡ false
        → In d m.depends_on
        → text_in d applied ≡ false
        → rank d < rank m.version
    lower m d i new j waits =
        All-In (λ d'. text_in d' applied ≡ false → rank d' < rank m.version) m.depends_on d
          (All-In
            (λ u.
              text_in u.version applied ≡ false
              → All (λ d'. text_in d' applied ≡ false → rank d' < rank u.version) u.depends_on)
            ms m decreasing i new)
          j waits

    below :
        (m : Migration)
        → In m ms
        → text_in m.version applied ≡ false
        → (ds : List Text) → ((d : Text) → In d ds → In d m.depends_on)
        → All (IsBelow applied rank (pending_of applied ms) m.version) ds
    below m i new [] all_in = tt
    below m i new (d ∷ ds) all_in = (
      (λ waits. (
        versions-pending_of applied ms d waits (exists m d i (all_in d (inl refl))),
        lower m d i new (all_in d (inl refl)) waits,
      )),
      below m i new ds (λ d' j. all_in d' (inr j)),
    )

    ranked :
        (ps : List Migration)
        → ((m : Migration) → In m ps → In m ms × (text_in m.version applied ≡ false))
        → All (λ m. All (IsBelow applied rank (pending_of applied ms) m.version) m.depends_on) ps
    ranked [] listed = tt
    ranked (p ∷ ps) listed =
        let (i, new) = listed p (inl refl) in
        (below p i new p.depends_on (λ d j. j), ranked ps (λ m j. listed m (inr j)))
