-- ===== src/Version/Order.antt =====
-- `resolve_migration_order` gives an order that respects the dependencies, and fails only where
-- there is none.
use mathlib.Core.List.{Perm}
use dbwarden.Common.{
  In, &&-eq-true, All-map, ◌*◌, ◌≡◌, ◌≢◌, refl, true, false, List, [], ◌∷◌, ◌++◌, ◌||◌, Text,
  text_in, all, length, arith, All, Bool-cases, inl, inr, append-nil, subst, ok, err,
}
use dbwarden.Version.Resolve.{
  Migration, versions, pending_of, deps_met, passes, unresolved, finish, resolve_migration_order,
}
use dbwarden.Version.ResolveLaws.{IsResolved, passes-final, passes-perm, passes-IsResolved}

-- What the loop leaves, for a call of `resolve_migration_order`.
abbrev pub loop : List Migration → List Text → List Migration × List Migration
loop all_migrations applied =
    let pending = pending_of applied all_migrations in
    passes (length pending * 2) applied [] pending

finish-ok : (resolved order : List Migration) → finish (resolved, []) ≡ ok order → resolved ≡ order
unfolding finish
finish-ok resolved order h = cc

finish-err :
    (resolved : List Migration) (m : Migration) (rest order : List Migration)
    → ¬ (finish (resolved, m ∷ rest) ≡ ok order)
unfolding finish
finish-err resolved m rest order h = cc

finish-ne_err :
    (resolved : List Migration) (vs : List Text) → ¬ (finish (resolved, []) ≡ err (unresolved vs))
unfolding finish
finish-ne_err resolved vs h = cc

finish-versions :
    (resolved : List Migration) (m : Migration) (rest : List Migration) (vs : List Text)
    → finish (resolved, m ∷ rest) ≡ err (unresolved vs)
    → vs ≡ versions (m ∷ rest)
unfolding finish
finish-versions resolved m rest vs h = cc

-- Each dependency is applied, or the version of a migration that stands before.
abbrev pub IsReady : List Text → List Migration → Migration → Type 0
IsReady applied before m =
    All (λ d. (text_in d applied || text_in d (versions before)) ≡ true) m.depends_on

-- Every migration of the list is ready behind those before it.
abbrev pub IsInOrder : List Text → List Migration → List Migration → Type 0
IsInOrder applied before [] = Unit
IsInOrder applied before (m ∷ ms) =
    IsReady applied before m × IsInOrder applied (before ++ m ∷ []) ms

-- A dependency that is neither applied nor the version of a migration that is placed.
abbrev pub IsBlocked : List Text → List Migration → Migration → Type 0
IsBlocked applied placed m =
    (d : Text) × In d m.depends_on
    × (text_in d applied ≡ false)
    × (text_in d (versions placed) ≡ false)

deps_met-IsReady :
    (applied : List Text) (before : List Migration) (m : Migration)
    → deps_met applied before m ≡ true
    → IsReady applied before m
unfolding deps_met
deps_met-IsReady applied before m h = go m.depends_on h
  where
    go :
        (ds : List Text)
        → all (λ d. text_in d applied || text_in d (versions before)) ds ≡ true
        → All (λ d. (text_in d applied || text_in d (versions before)) ≡ true) ds
    go [] h = tt
    go (d ∷ ds) h =
        let (here, there) =
          &&-eq-true (text_in d applied || text_in d (versions before))
            (all (λ d'. text_in d' applied || text_in d' (versions before)) ds) h in
        (here, go ds there)

deps_met-IsBlocked :
    (applied : List Text) (placed : List Migration) (m : Migration)
    → deps_met applied placed m ≡ false
    → IsBlocked applied placed m
unfolding deps_met
deps_met-IsBlocked applied placed m h = go m.depends_on h
  where
    go :
        (ds : List Text)
        → all (λ d. text_in d applied || text_in d (versions placed)) ds ≡ false
        → (d : Text) × In d ds × (text_in d applied ≡ false) × (text_in d (versions placed) ≡ false)
    go [] h = cc
    go (d ∷ ds) h = elim (Bool-cases (text_in d applied || text_in d (versions placed))) [
      | inl e ↦ let (d', i, a, p) = go ds (ground arith) in (d', inr i, a, p)
      | inr e ↦ (d, inl refl, ground arith, ground arith)
    ]

IsResolved-IsInOrder :
    (applied : List Text) (before ms : List Migration)
    → IsResolved applied before ms
    → IsInOrder applied before ms
IsResolved-IsInOrder applied before [] h = tt
IsResolved-IsInOrder applied before (m ∷ ms) h =
    (deps_met-IsReady applied before m h.0, IsResolved-IsInOrder applied (before ++ m ∷ []) ms h.1)

-- When `resolve_migration_order` returns an order, it holds each migration that is not applied,
-- as often as the directory does, and each stands behind all of its dependencies that are not
-- applied.
pub resolve_migration_order-IsInOrder :
    (all_migrations : List Migration) (applied : List Text) (order : List Migration)
    → resolve_migration_order all_migrations applied ≡ ok order
    → Perm order (pending_of applied all_migrations) × IsInOrder applied [] order
unfolding resolve_migration_order
resolve_migration_order-IsInOrder ms applied order h =
    go (loop ms applied) h
      (passes-perm applied (length (pending_of applied ms) * 2) [] (pending_of applied ms))
      (IsResolved-IsInOrder applied [] (loop ms applied).0 (
        passes-IsResolved applied (length (pending_of applied ms) * 2) [] (pending_of applied ms)
          tt))
  where
    go :
        (r : List Migration × List Migration)
        → finish r ≡ ok order
        → Perm (r.0 ++ r.1) (pending_of applied ms)
        → IsInOrder applied [] r.0
        → Perm order (pending_of applied ms) × IsInOrder applied [] order
    go (resolved, []) e p d =
        subst (λ o. Perm o (pending_of applied ms) × IsInOrder applied [] o)
          (finish-ok resolved order e) (rw append-nil at p, d)
    go (resolved, m ∷ rest) e p d = absurd (finish-err resolved m rest order e)

-- When `resolve_migration_order` raises, it names the versions of some pending migrations, at least
-- one, that are left when all others are placed, and each of them has a dependency that is neither
-- applied nor placed.
pub resolve_migration_order-err :
    (all_migrations : List Migration) (applied vs : List Text)
    → resolve_migration_order all_migrations applied ≡ err (unresolved vs)
    → (resolved rest : List Migration) × (vs ≡ versions rest)
      × (rest ≢ [])
      × Perm (resolved ++ rest) (pending_of applied all_migrations)
      × All (IsBlocked applied resolved) rest
unfolding resolve_migration_order
resolve_migration_order-err ms applied vs h =
    let pending = pending_of applied ms in
    go (loop ms applied) h (passes-perm applied (length pending * 2) [] pending)
      (passes-final applied (length pending * 2) [] pending (omega arith))
  where
    go :
        (r : List Migration × List Migration)
        → finish r ≡ err (unresolved vs)
        → Perm (r.0 ++ r.1) (pending_of applied ms)
        → All (λ m. deps_met applied r.0 m ≡ false) r.1
        → (resolved rest : List Migration) × (vs ≡ versions rest)
          × (rest ≢ [])
          × Perm (resolved ++ rest) (pending_of applied ms)
          × All (IsBlocked applied resolved) rest
    go (resolved, []) e p st = absurd (finish-ne_err resolved vs e)
    go (resolved, m ∷ rest) e p st = (
      resolved,
      m ∷ rest,
      finish-versions resolved m rest vs e,
      (λ q. cc),
      p,
      All-map (λ u. deps_met applied resolved u ≡ false) (IsBlocked applied resolved) (m ∷ rest)
          (deps_met-IsBlocked applied resolved) st,
    )
