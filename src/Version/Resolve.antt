-- ===== src/Version/Resolve.antt =====
-- `resolve_migration_order` of dbwarden/engine/version.py.
--
-- `all_migrations` is what `get_all_migrations_with_metadata` returns for the directory: each file
-- once, so no two of its tuples are equal.
use dbwarden.Common.{
  ℕ, zero, suc, ◌*◌, Bool, true, false, List, [], ◌∷◌, ◌++◌, ◌||◌, map, if◌then◌else◌, Text,
  text_in, Outcome, ok, err, all, length,
}

-- A tuple `(version, filepath, depends_on, is_seed)`.
pub record Migration : Type 0 where
  pub version : Text
  pub filepath : Text
  pub depends_on : List Text
  pub is_seed : Bool

-- `[m[0] for m in migrations]`
abbrev pub versions : List Migration → List Text
versions = map (λ m. m.version)

-- `[(v, fp, deps, seed) for … in all_migrations if v not in applied_versions]`
unfoldable pub pending_of : List Text → List Migration → List Migration
pending_of applied [] = []
pending_of applied (m ∷ ms) =
    let rest = pending_of applied ms in if text_in m.version applied then rest else m ∷ rest

unfoldable pub deps_met : List Text → List Migration → Migration → Bool
deps_met applied resolved m =
    all (λ d. text_in d applied || text_in d (versions resolved)) m.depends_on

-- `for migration in remaining[:]`: the migrations resolved after the pass, and those that remain.
unfoldable pub pass : List Text → List Migration → List Migration → List Migration × List Migration
pass applied resolved [] = (resolved, [])
pass applied resolved (m ∷ ms) = elim (deps_met applied resolved m) [
  | true ↦ pass applied (resolved ++ m ∷ []) ms
  | false ↦ let (resolved', rest) = pass applied resolved ms in (resolved', m ∷ rest)
]

-- `while remaining and iterations < max_iterations`, with the iterations that are left.
unfoldable pub passes :
    ℕ → List Text → List Migration → List Migration → List Migration × List Migration
passes iterations applied resolved [] = (resolved, [])
passes zero applied resolved (m ∷ ms) = (resolved, m ∷ ms)
passes (suc iterations) applied resolved (m ∷ ms) =
    let (resolved', rest) = pass applied resolved (m ∷ ms) in
    passes iterations applied resolved' rest

-- The `ValueError`, with the versions that are unresolved.
pub data ResolveError : Type 0 where
  unresolved : List Text → ResolveError

-- `if remaining: raise …`
unfoldable pub finish : List Migration × List Migration → Outcome ResolveError (List Migration)
finish (resolved, []) = ok resolved
finish (resolved, m ∷ ms) = err (unresolved (versions (m ∷ ms)))

unfoldable pub resolve_migration_order :
    List Migration → List Text → Outcome ResolveError (List Migration)
resolve_migration_order all_migrations applied =
    let pending = pending_of applied all_migrations in
    finish (passes (length pending * 2) applied [] pending)
