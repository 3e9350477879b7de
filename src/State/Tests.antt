-- ===== src/State/Tests.antt =====
-- Small states and plans, what the functions of dbwarden/engine/generation_state.py do on them, and
-- the theorems at these inputs.
use dbwarden.Common.{
  ℕ, ◌≡◌, ◌↔◌, refl, true, false, none, some, List, [], ◌∷◌, map, Text, text_eq, text_lt, text_in,
  codes, ok, err, ◌==◌, ==_iff, length, In, inl, inr, All, append-nil, if◌then◌else◌,
}
use dbwarden.Common.Sorting.{sort_items, IsOrdered}
use dbwarden.State.Json.{
  Json, null, leaf, obj, Dict, end, field, lookup, keys, put, remove, IsSorted, depth, Eq, json_eq,
}
use dbwarden.State.Changes.{
  insert_key, sorted_union, differ, change_at, key_changes, loop_keys, state_changes, stale_plan,
  or_null, is_stale, edit, descend, put_after, apply_at, apply_changes,
}
use dbwarden.State.RoundTrip.{apply_changes-state_changes}
use dbwarden.State.Pending.{
  Plan, Surroundings, Effective, all_changes, composable_ops, composable, names, apply_ops,
  compose_plan, add_pending, add_warned, compose_files, effective_state, is_deferred, contradicts,
  plan_changes, starts_with, overlaps, check_pending, check_deferred_conflicts, contradicted,
}
use dbwarden.State.PendingLaws.{Chain}
use dbwarden.State.Effective.{
  effective_state-Chain, effective_state-pending, effective_state-strict,
  effective_state-state_changes, IsFrom,
}
use dbwarden.State.Conflicts.{check_deferred_conflicts_iff, AreUntouched}

instance abbrev nat_leaf : Eq ℕ
nat_leaf = record { beq = ◌==◌; beq_iff = ==_iff }

abbrev users : Json ℕ
users = obj (field (codes "id") (leaf 1) (field (codes "name") (leaf 2) end))

abbrev users' : Json ℕ
users' = obj (field (codes "id") (leaf 1) (field (codes "mail") null end))

abbrev posts : Json ℕ
posts = obj (field (codes "id") (leaf 1) end)

abbrev before : Dict ℕ
before = field (codes "tables") (obj (field (codes "users") users end)) end

abbrev after : Dict ℕ
after =
    field (codes "tables") (obj (field (codes "posts") posts (field (codes "users") users' end)))
      end

states : Unit {0}
unfolding text_eq text_lt text_in lookup keys put remove depth json_eq insert_key sorted_union
    differ change_at key_changes loop_keys state_changes or_null is_stale put_after edit descend
    apply_at apply_changes
states = tt

before-IsSorted : IsSorted before
unfolding text_lt
before-IsSorted = (tt, (tt, ((refl, tt), tt, (tt, tt, tt)), tt), tt)

after-IsSorted : IsSorted after
unfolding text_lt
after-IsSorted = (tt, ((refl, tt), (tt, tt, tt), (tt, ((refl, tt), tt, (tt, tt, tt)), tt)), tt)

-- One key removed and one added in `users`, and a table added.
three_changes : length (state_changes before after []) ≡ 3
unfolding states
three_changes = refl

apply_twice : apply_changes (state_changes before after []) after ≡ err stale_plan
unfolding states
apply_twice = refl

apply_changes-state_changes_example :
    apply_changes (state_changes before after []) before ≡ ok after
apply_changes-state_changes_example =
    apply_changes-state_changes before after before-IsSorted after-IsSorted

-- A digest that tells these states apart.
abbrev digest : Dict ℕ → Text
digest d = length (state_changes before d []) ∷ []

abbrev plan : Plan ℕ
plan = record {
  base_checksum = some (digest before);
  target_checksum = some (digest after);
  upgrade_ops = some (map some (state_changes before after [] ∷ []));
  role = codes "deferred";
}

-- `2.sql` is superseded and `1.sql` holds the plan.
abbrev env : Surroundings ℕ
env = record {
  checksum = digest;
  trusted_plan = λ f. if text_eq f (codes "1.sql") then some plan else none;
  is_superseded = text_eq (codes "2.sql");
}

abbrev files : List (Text × Text)
files = (codes "0002", codes "2.sql") ∷ (codes "0001", codes "1.sql") ∷ []

abbrev result : Effective ℕ
result = record { state = after; pending = (codes "0001", plan) ∷ []; warned = [] }

composing : Unit {0}
unfolding states sort_items composable names apply_ops compose_plan add_pending add_warned
    compose_files effective_state all_changes composable_ops
composing = tt

composed_files : effective_state env [] true before files ≡ ok result
unfolding composing
composed_files = refl

effective_state-Chain_example : Chain env before ((codes "0001", plan) ∷ []) after
effective_state-Chain_example = effective_state-Chain env [] true before files result composed_files

effective_state-pending_example :
    IsOrdered ((codes "0001", plan) ∷ [])
    × All (IsFrom env [] true (sort_items files)) ((codes "0001", plan) ∷ [])
effective_state-pending_example =
    effective_state-pending env [] true before files result composed_files

not_applied : text_in (codes "0001") [] ≡ false
unfolding text_in
not_applied = refl

not_superseded : env.is_superseded (codes "1.sql") ≡ false
unfolding text_eq
not_superseded = refl

trusted : env.trusted_plan (codes "1.sql") ≡ some plan
unfolding text_eq
trusted = refl

effective_state-strict_example :
    (p : Plan ℕ) × In {A = Text × Plan ℕ} (codes "0001", p) ((codes "0001", plan) ∷ [])
effective_state-strict_example =
    effective_state-strict env [] before files result (codes "0001") (codes "1.sql") composed_files
      (inr (inl refl)) not_applied not_superseded

effective_state-state_changes_example :
    effective_state env [] false before ((codes "0001", codes "1.sql") ∷ []) ≡ ok result
effective_state-state_changes_example =
    effective_state-state_changes env false before after (codes "0001") (codes "1.sql") plan
      (state_changes before after [] ∷ []) before-IsSorted after-IsSorted not_superseded trusted
      refl refl refl (append-nil (state_changes before after []))

-- The models go back on what the deferred plan changes.
deferred_conflict :
    check_deferred_conflicts ((codes "0001", plan) ∷ []) after before
    ≡ err (contradicted (codes "0001"))
unfolding composing is_deferred contradicts plan_changes starts_with overlaps check_pending
    check_deferred_conflicts
deferred_conflict = refl

check_deferred_conflicts_iff_example :
    (check_deferred_conflicts ((codes "0001", plan) ∷ []) after before ≡ ok tt)
    ↔ All
        (λ (vp : Text × Plan ℕ).
          is_deferred vp.1 ≡ true
          → AreUntouched (state_changes after before []) (plan_changes vp.1))
        ((codes "0001", plan) ∷ [])
check_deferred_conflicts_iff_example =
    check_deferred_conflicts_iff ((codes "0001", plan) ∷ []) after before
