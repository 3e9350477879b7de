-- ===== src/Version/Validated.antt =====
-- A directory that `validate_dependencies` passes has an order.
use dbwarden.Common.{
  ℕ, ◌≤◌, ◌<◌, ◌≡◌, refl, Bool, true, false, List, [], ◌∷◌, ◌++◌, not, Text, text_in, In, All,
  In-text_in, text_in-In, map-In, length, if◌then◌else◌, arith, Bool-cases, inl, inr, sym, ap,
  subst, ok,
}
use dbwarden.Version.Resolve.{Migration, versions, resolve_migration_order}
use dbwarden.Version.Validate.{
  missing_target, dependency_error, missing_targets, superseded_deps, unmet_applied_deps,
}
use dbwarden.Version.ValidateLaws.{Flagged-flag_all}
use dbwarden.Version.ValidOrder.{IsDecreasing, resolve_migration_order-missing_targets}
use dbwarden.Version.Search.{Pending, pending_deps, is_pending, cycle_errors, validate_dependencies}
use dbwarden.Version.Cycles.{DependsOn, IsFinished, closed_step}
use dbwarden.Version.CycleLaws.{cycle_errors-IsFinished}
use dbwarden.Version.PendingLaws.{AgreeOnDeps, pending_deps-is_pending, deps_of-pending_deps}

-- How many migrations were finished in front of this one.
unfoldable rank : List Text → Text → ℕ
rank [] v = 0
rank (w ∷ done) v = let below = rank done v in if text_in v done then below else length done

rank-le : (done : List Text) (v : Text) → rank done v ≤ length done
unfolding rank
rank-le [] v = omega arith
rank-le (w ∷ done) v = ground (arith, rank-le done v)

rank-lt_length : (done : List Text) (v : Text) → In v done → rank done v < length done
unfolding rank
rank-lt_length [] v i = absurd i
rank-lt_length (w ∷ done) v i = elim (Bool-cases (text_in v done)) [
  | inl e ↦ ground (arith, e, rank-lt_length done v (text_in-In v done e))
  | inr e ↦ ground (arith, e)
]

rank-lt :
    (pending : Pending) (done : List Text) (v d : Text)
    → IsFinished pending done
    → In v done
    → DependsOn pending v d
    → rank done d < rank done v
unfolding rank
rank-lt pending [] v d f i e = absurd i
rank-lt pending (w ∷ done) v d (h, f) i e = elim (Bool-cases (text_in v done)) [
  | inl q ↦ ground (
    arith,
    q,
    In-text_in d done (closed_step pending done v d f (text_in-In v done q) e),
    rank-lt pending done v d f (text_in-In v done q) e,
  )
  | inr q ↦ elim i [
    | inr j ↦ absurd (ground (arith, q, In-text_in v done j))
    | inl same ↦
        let j = h d (subst (λ (x : Text). DependsOn pending x d) same e) in
        ground (arith, q, In-text_in d done j, rank-lt_length done d j)
  ]
]

nil-left : {A : Type 0} (xs ys : List A) → xs ++ ys ≡ [] → xs ≡ []
nil-left [] ys h = refl
nil-left (x ∷ xs) ys h = cc

nil-right : {A : Type 0} (xs ys : List A) → xs ++ ys ≡ [] → ys ≡ []
nil-right [] ys h = h
nil-right (x ∷ xs) ys h = cc

All-of : {A : Type 0} (P : A → Type 0) (xs : List A) → ((x : A) → In x xs → P x) → All P xs
All-of P [] h = tt
All-of P (x ∷ xs) h = (h x (inl refl), All-of P xs (λ y i. h y (inr i)))

-- A dependency has a file where the first check reports nothing.
has_file :
    (ms : List Migration) (m : Migration) (d : Text)
    → missing_targets ms ≡ []
    → In m ms
    → In d m.depends_on
    → text_in d (versions ms) ≡ true
unfolding missing_targets
has_file ms m d none_missing i j = elim (Bool-cases (text_in d (versions ms))) [
  | inl e ↦ e
  | inr e ↦ absurd (
      subst (In (dependency_error missing_target m.version d)) none_missing (
        Flagged-flag_all (λ v. true) (λ t. not (text_in t (versions ms))) missing_target ms
          (dependency_error missing_target m.version d) (m, d, i, refl, j, ap not e, refl)))
]

decreasing :
    (applied : List Text) (ms : List Migration)
    → missing_targets ms ≡ []
    → AgreeOnDeps applied ms
    → (done : List Text) → IsFinished (pending_deps applied ms) done
    → ((x : Text) → is_pending x (pending_deps applied ms) ≡ true → In x done)
    → IsDecreasing (rank done) applied ms
decreasing applied ms none_missing agree done f t =
    All-of
      (λ m.
        text_in m.version applied ≡ false
        → All (λ d. text_in d applied ≡ false → rank done d < rank done m.version) m.depends_on)
      ms
      (λ m i new.
        All-of (λ d. text_in d applied ≡ false → rank done d < rank done m.version) m.depends_on
          (λ d j waits.
            rank-lt (pending_deps applied ms) done m.version d f
              (t m.version (pending_deps-is_pending applied ms m i new))
              (
                subst (In d) (sym (deps_of-pending_deps applied ms m agree i new)) j,
                pending d waits (has_file ms m d none_missing i j),
              )))
  where
    pending :
        (d : Text)
        → text_in d applied ≡ false
        → text_in d (versions ms) ≡ true
        → is_pending d (pending_deps applied ms) ≡ true
    pending d waits h =
        let (n, i, e) = map-In (λ (m : Migration). m.version) ms d (text_in-In d (versions ms) h) in
        subst (λ (x : Text). is_pending x (pending_deps applied ms) ≡ true) (sym e)
          (pending_deps-is_pending applied ms n i
            (subst (λ (x : Text). text_in x applied ≡ false) e waits))

-- Where `validate_dependencies` reports nothing, and files of one version have the same dependencies,
-- `resolve_migration_order` returns an order.
pub validate_dependencies-order :
    (is_superseded : Text → Bool) (applied : List Text) (ms : List Migration)
    → validate_dependencies is_superseded applied ms ≡ []
    → AgreeOnDeps applied ms
    → (order : List Migration) × (resolve_migration_order ms applied ≡ ok order)
unfolding validate_dependencies
validate_dependencies-order is_superseded applied ms passed agree =
    let A = missing_targets ms in
    let B = superseded_deps is_superseded ms in
    let C = unmet_applied_deps applied ms in
    let D = cycle_errors applied ms in
    let none_missing : A ≡ [] =
      nil-left A B (nil-left (A ++ B) C (nil-left (A ++ B ++ C) D passed)) in
    let no_cycle : D ≡ [] = nil-right (A ++ B ++ C) D passed in
    let (done, f, t) = cycle_errors-IsFinished applied ms no_cycle in
    resolve_migration_order-missing_targets (rank done) ms applied none_missing
      (decreasing applied ms none_missing agree done f t)
