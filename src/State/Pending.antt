-- ===== src/State/Pending.antt =====
-- `effective_state` and `check_deferred_conflicts` of dbwarden/engine/generation_state.py.
--
-- What these functions read beside the states is passed in: the digest of a state
-- (`state_checksum`), the trusted plan of a file (`read_trusted_plan`), and whether a file is
-- marked as superseded (`is_superseded`). Plans are numbered by version, and a state has been
-- through `schema_state` before it comes here.
use dbwarden.Common.{
  Bool, true, false, Option, none, some, List, [], ◌∷◌, ◌&&◌, ◌||◌, not, if◌then◌else◌, Text,
  text_eq, text_in, codes, Outcome, ok, err, ◌>>=◌, any,
}
use dbwarden.Common.Sorting.{sort_items}
use dbwarden.State.Json.{Dict, Eq}
use dbwarden.State.Changes.{Change, ChangeError, apply_changes, state_changes}

-- An operation of a plan: its `state_changes`, or `none` if it is no dict with such a list.
abbrev pub Operation : Type 0 → Type 0
Operation Leaf = Option (List (Change Leaf))

pub record Plan (Leaf : Type 0) : Type 0 where
  pub base_checksum : Option Text
  pub target_checksum : Option Text
  -- `plan.get("upgrade_ops")`, or `none` if that is no list
  pub upgrade_ops : Option (List (Operation Leaf))
  -- `plan["severity"].get("split", {}).get("role", "unsplit")`
  pub role : Text

-- What the functions read from their surroundings.
pub record Surroundings (Leaf : Type 0) : Type 0 where
  pub checksum : Dict Leaf → Text
  pub trusted_plan : Text → Option (Plan Leaf)
  pub is_superseded : Text → Bool

-- The `ValueError`s of `effective_state`, and an exception of `apply_changes` passed on.
pub data PendingError : Type 0 where
  no_composable_plan stale_pending_plan invalid_pending_plan : Text → PendingError
  change_error : ChangeError → PendingError
  contradicted : Text → PendingError

-- What `effective_state` returns, with the versions that it warned about.
pub record Effective (Leaf : Type 0) : Type 0 where
  pub state : Dict Leaf
  pub pending : List (Text × Plan Leaf)
  pub warned : List Text

-- `plan.get(…) == checksum`, for an entry that may be missing
unfoldable pub names : Option Text → Text → Bool
names none checksum = false
names (some a) checksum = text_eq a checksum

module _ {Leaf : Type 0} where
  -- `isinstance(ops, list) and all(isinstance(op, dict) and …)`: the changes of all operations.
  unfoldable pub all_changes : List (Operation Leaf) → Option (List (List (Change Leaf)))
  all_changes [] = some []
  all_changes (none ∷ ops) = none
  all_changes (some cs ∷ ops) = elim (all_changes ops) [ none ↦ none | some css ↦ some (cs ∷ css) ]

  unfoldable pub composable_ops :
      Option (List (Operation Leaf)) → Option (List (List (Change Leaf)))
  unfolding all_changes
  composable_ops none = none
  composable_ops (some ops) = all_changes ops

  unfoldable pub composable : Option (Plan Leaf) → Option (Plan Leaf × List (List (Change Leaf)))
  unfolding composable_ops
  composable none = none
  composable (some plan) = elim (composable_ops plan.upgrade_ops) [
    | none ↦ none
    | some css ↦ some (plan, css)
  ]

module _ {Leaf : Type 0} ⦃e : Eq Leaf⦄ where
  -- `for op in ops: apply_changes(state, op["state_changes"])`
  unfoldable pub apply_ops :
      List (List (Change Leaf)) → Dict Leaf → Outcome PendingError (Dict Leaf)
  apply_ops [] state = ok state
  apply_ops (cs ∷ css) state = elim (apply_changes cs state) [
    | ok state' ↦ apply_ops css state'
    | err x ↦ err (change_error x)
  ]

  -- The body of the loop from the base checksum on: the state after the plan.
  unfoldable pub compose_plan :
      Surroundings Leaf
      → Text
      → Plan Leaf
      → List (List (Change Leaf))
      → Dict Leaf
      → Outcome PendingError (Dict Leaf)
  unfolding apply_ops names
  compose_plan env version plan css state =
      if not (names plan.base_checksum (env.checksum state))
      then err (stale_pending_plan version)
      else do
        state' ← apply_ops css state
        if not (names plan.target_checksum (env.checksum state'))
            then err (invalid_pending_plan version)
            else ok state'

  unfoldable pub add_pending : Text → Plan Leaf → Effective Leaf → Effective Leaf
  add_pending version plan r = record r { pending = (version, plan) ∷ r.pending }

  unfoldable pub add_warned : Text → Effective Leaf → Effective Leaf
  add_warned version r = record r { warned = version ∷ r.warned }

  -- The loop over the sorted files.
  module _ (env : Surroundings Leaf) (applied : List Text) (strict : Bool) where
    unfoldable pub compose_files :
        List (Text × Text) → Dict Leaf → Outcome PendingError (Effective Leaf)
    unfolding compose_plan composable add_pending add_warned
    compose_files [] state = ok (record { state = state; pending = []; warned = [] })
    compose_files ((version, filename) ∷ files) state =
        elim (text_in version applied || env.is_superseded filename) [
          | true ↦ compose_files files state
          | false ↦ elim (composable (env.trusted_plan filename)) [
            | none ↦ elim strict [
              | true ↦ err (no_composable_plan version)
              | false ↦ compose_files files state >>= λ r. ok (add_warned version r)
            ]
            | some (plan, css) ↦ compose_plan env version plan css state >>= λ state'.
                compose_files files state' >>= λ r. ok (add_pending version plan r)
          ]
        ]

    -- `effective_state`, from the normalized baseline
    unfoldable pub effective_state :
        Dict Leaf → List (Text × Text) → Outcome PendingError (Effective Leaf)
    unfolding compose_files
    effective_state baseline files = compose_files (sort_items files) baseline

-- `path[:len(prefix)] == prefix`
unfoldable pub starts_with : List Text → List Text → Bool
starts_with path [] = true
starts_with [] (k ∷ prefix) = false
starts_with (j ∷ path) (k ∷ prefix) = text_eq j k && starts_with path prefix

unfoldable pub overlaps : List Text → List Text → Bool
unfolding starts_with
overlaps edit path = starts_with edit path || starts_with path edit

module _ {Leaf : Type 0} where
  -- `{"base", "unsplit"}`
  unfoldable pub is_deferred : Plan Leaf → Bool
  is_deferred plan = not (text_eq plan.role (codes "base") || text_eq plan.role (codes "unsplit"))

  -- Does a change of the operations touch what an edit touches?
  unfoldable pub contradicts : List (Change Leaf) → List (List (Change Leaf)) → Bool
  unfolding overlaps
  contradicts edits css = any (any (λ c. any (λ edit. overlaps edit.path c.path) edits)) css

  -- `plan["upgrade_ops"]` of a plan that `effective_state` has accepted
  unfoldable pub plan_changes : Plan Leaf → List (List (Change Leaf))
  unfolding composable_ops
  plan_changes plan = elim (composable_ops plan.upgrade_ops) [ none ↦ [] | some css ↦ css ]

  unfoldable pub check_pending :
      List (Change Leaf) → List (Text × Plan Leaf) → Outcome PendingError (Unit {0})
  unfolding is_deferred contradicts plan_changes
  check_pending edits [] = ok tt
  check_pending edits ((version, plan) ∷ pending) =
      let rest = check_pending edits pending in
      if is_deferred plan && contradicts edits (plan_changes plan)
      then err (contradicted version)
      else rest

-- `check_deferred_conflicts`, on normalized states
unfoldable pub check_deferred_conflicts :
    {Leaf : Type 0} ⦃e : Eq Leaf⦄
    → List (Text × Plan Leaf)
    → Dict Leaf
    → Dict Leaf
    → Outcome PendingError (Unit {0})
unfolding check_pending
check_deferred_conflicts pending effective target =
    check_pending (state_changes effective target []) pending
