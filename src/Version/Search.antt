-- ===== src/Version/Search.antt =====
-- Check 4 of `validate_dependencies` of dbwarden/engine/version.py: the search for cycles.
--
-- A set is the list of what was added to it. `_detect_cycle` adds to the set `visited` of its caller,
-- which is given back; a call that finds no cycle leaves the stack as it was, and behind one that finds
-- a cycle the stack is not read again. Each call that is not on the last of the fuel visits one more
-- pending migration.
use dbwarden.Common.{
  ℕ, zero, suc, Bool, true, false, Option, none, some, List, [], ◌∷◌, ◌++◌, not, if◌then◌else◌,
  Text, text_eq, text_in, length,
}
use dbwarden.Version.Resolve.{Migration}
use dbwarden.Version.Validate.{
  DependencyError, circular, missing_targets, superseded_deps, unmet_applied_deps,
}

-- `pending`: the versions that are not applied, each once, with the dependencies of its last file.
abbrev pub Pending : Type 0
Pending = List (Text × List Text)

-- `d[v] = deps`
unfoldable pub set_deps : Text → List Text → Pending → Pending
set_deps v deps [] = (v, deps) ∷ []
set_deps v deps ((w, es) ∷ rest) =
    let behind = set_deps v deps rest in if text_eq v w then (v, deps) ∷ rest else (w, es) ∷ behind

unfoldable pub put_pending : List Text → List Migration → Pending → Pending
put_pending applied [] pending = pending
put_pending applied (m ∷ ms) pending =
    let skipped = put_pending applied ms pending in
    let added = put_pending applied ms (set_deps m.version m.depends_on pending) in
    if text_in m.version applied then skipped else added

unfoldable pub pending_deps : List Text → List Migration → Pending
unfolding put_pending
pending_deps applied all_migrations = put_pending applied all_migrations []

-- `pending.get(v, [])`
unfoldable pub deps_of : Text → Pending → List Text
deps_of v [] = []
deps_of v ((w, deps) ∷ rest) = if text_eq v w then deps else deps_of v rest

-- `v in pending`
unfoldable pub is_pending : Text → Pending → Bool
is_pending v [] = false
is_pending v ((w, deps) ∷ rest) = if text_eq v w then true else is_pending v rest

-- `cycle[-1]`
abbrev pub last : List Text → Text
last [] = []
last (v ∷ []) = v
last (v ∷ (w ∷ vs)) = last (w ∷ vs)

-- A cycle, if one was found, and the set `visited`.
abbrev pub Found : Type 0
Found = Option (List Text) × List Text

module _ (pending : Pending) where
  -- The loop of `_detect_cycle` over the dependencies, for the call of itself.
  unfoldable pub check_deps :
      (Text → List Text → List Text → Found) → Text → List Text → List Text → List Text → Found
  check_deps call start stack [] visited = (none, visited)
  check_deps call start stack (dep ∷ deps) visited =
      let (cycle, visited') = call dep visited stack in
      let skipped = check_deps call start stack deps visited in
      let behind = check_deps call start stack deps visited' in
      if not (is_pending dep pending)
      then skipped
      else if not (text_in dep visited)
      then elim cycle [ some c ↦ (some c, visited') | none ↦ behind ]
      else if text_in dep stack
      then (some (dep ∷ start ∷ []), visited)
      else skipped

  unfoldable pub detect_cycle : ℕ → Text → List Text → List Text → Found
  unfolding check_deps
  detect_cycle zero start visited stack = (none, visited)
  detect_cycle (suc fuel) start visited stack =
      check_deps (detect_cycle fuel) start (start ∷ stack) (deps_of start pending) (start ∷ visited)

  -- The error for a cycle that was found.
  abbrev pub circular_error : List Text → DependencyError
  circular_error cycle = record { version = last cycle; error_type = circular; missing = cycle }

  -- The loop over the pending versions.
  unfoldable pub search : Pending → List Text → List DependencyError
  unfolding detect_cycle
  search [] visited = []
  search ((version, deps) ∷ rest) visited =
      let (cycle, visited') = detect_cycle (length pending) version visited [] in
      let skipped = search rest visited in
      let behind = search rest visited' in
      if text_in version visited
      then skipped
      else elim cycle [ some c ↦ circular_error c ∷ behind | none ↦ behind ]

-- Check 4
unfoldable pub cycle_errors : List Text → List Migration → List DependencyError
unfolding search pending_deps
cycle_errors applied all_migrations =
    let pending = pending_deps applied all_migrations in search pending pending []

-- The four checks, in order.
unfoldable pub validate_dependencies :
    (Text → Bool) → List Text → List Migration → List DependencyError
unfolding cycle_errors
validate_dependencies is_superseded applied all_migrations =
    missing_targets all_migrations
    ++ superseded_deps is_superseded all_migrations
    ++ unmet_applied_deps applied all_migrations
    ++ cycle_errors applied all_migrations
