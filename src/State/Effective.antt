-- ===== src/State/Effective.antt =====
-- What `effective_state` guarantees of the state and the pending plans that it returns.
mod Files
pub use Files.{IsFrom}
use Files.{files-Chain, files-IsFrom, files-strict, files-IsOrdered}
use dbwarden.Common.{
  ◌≡◌, refl, Bool, true, false, some, List, [], ◌∷◌, ◌++◌, ◌||◌, Text, text_in, ok, ◌>>=◌, arith,
  All, In, Outcome-cases, text_eq_refl, concat, map, sym, ap, ◌∙◌, >>=-eq-ok,
}
use dbwarden.Common.Sorting.{sort_items, IsOrdered, sort_items-IsOrdered, In-sort_items}
use dbwarden.State.Json.{Dict, Eq, IsSorted}
use dbwarden.State.Changes.{Change, apply_changes, state_changes}
use dbwarden.State.RoundTrip.{apply_changes-state_changes, apply_changes-append, apply_changes-nil}
use dbwarden.State.Pending.{
  Plan, Surroundings, Effective, Operation, apply_ops, effective_state, composable, add_pending,
  all_changes, compose_files, compose_plan,
}
use dbwarden.State.PendingLaws.{Chain, is_skipped}

module _ {Leaf : Type 0} ⦃e : Eq Leaf⦄ where
  -- When `effective_state` returns, the pending plans lead from the baseline to the returned state:
  -- each plan names the checksum of the state that the plan before it reached, its typed changes
  -- apply to that state without an error, and it names the checksum of what they give.
  pub effective_state-Chain :
      (env : Surroundings Leaf) (applied : List Text) (strict : Bool) (baseline : Dict Leaf)
      (files : List (Text × Text)) (r : Effective Leaf)
      → effective_state env applied strict baseline files ≡ ok r
      → Chain env baseline r.pending r.state
  unfolding effective_state
  effective_state-Chain env applied strict baseline files r h =
      files-Chain env applied strict (sort_items files) baseline r h

  -- When `effective_state` returns, the pending versions ascend, and each pending plan is the
  -- trusted plan of a file that is neither applied nor superseded.
  pub effective_state-pending :
      (env : Surroundings Leaf) (applied : List Text) (strict : Bool) (baseline : Dict Leaf)
      (files : List (Text × Text)) (r : Effective Leaf)
      → effective_state env applied strict baseline files ≡ ok r
      → IsOrdered r.pending × All (IsFrom env applied strict (sort_items files)) r.pending
  unfolding effective_state
  effective_state-pending env applied strict baseline files r h = (
    files-IsOrdered env applied strict (sort_items files) baseline r h (sort_items-IsOrdered files),
    files-IsFrom env applied strict (sort_items files) baseline r h,
  )

  -- In strict mode, when `effective_state` returns, every file that is neither applied nor
  -- superseded has a plan among the pending ones: none is left out.
  pub effective_state-strict :
      (env : Surroundings Leaf) (applied : List Text) (baseline : Dict Leaf)
      (files : List (Text × Text)) (r : Effective Leaf) (v f : Text)
      → effective_state env applied true baseline files ≡ ok r
      → In (v, f) files
      → text_in v applied ≡ false
      → env.is_superseded f ≡ false
      → (plan : Plan Leaf) × In (v, plan) r.pending
  unfolding effective_state
  effective_state-strict env applied baseline files r v f h m a b =
      files-strict env applied true v f (sort_items files) baseline r refl h
        (In-sort_items (v, f) files m) (ground arith)

  apply_ops-concat :
      (css : List (List (Change Leaf))) (s t : Dict Leaf)
      → apply_changes (concat css) s ≡ ok t
      → apply_ops css s ≡ ok t
  unfolding apply_ops
  apply_ops-concat [] s t h = cc (apply_changes-nil s)
  apply_ops-concat (cs ∷ css) s t h =
      let (u, first, later) =
        >>=-eq-ok (apply_changes cs s) (apply_changes (concat css))
          (sym (apply_changes-append cs (concat css) s) ∙ h) in
      rw (first, apply_ops) (apply_ops-concat css u t later)

  all_changes-some : (css : List (List (Change Leaf))) → all_changes (map some css) ≡ some css
  unfolding all_changes
  all_changes-some [] = refl
  all_changes-some (cs ∷ css) = rw (all_changes-some css)

  composable-typed :
      (plan : Plan Leaf) (css : List (List (Change Leaf)))
      → plan.upgrade_ops ≡ some (map some css)
      → composable (some plan) ≡ some (plan, css)
  unfolding composable
  composable-typed plan css ops = ground (arith, all_changes-some css)

  compose_plan-eq-ok :
      (env : Surroundings Leaf) (v : Text) (plan : Plan Leaf) (css : List (List (Change Leaf)))
      (s t : Dict Leaf)
      → plan.base_checksum ≡ some (env.checksum s)
      → plan.target_checksum ≡ some (env.checksum t)
      → apply_ops css s ≡ ok t
      → compose_plan env v plan css s ≡ ok t
  unfolding compose_plan
  compose_plan-eq-ok env v plan css s t base goal h =
      ground (arith, text_eq_refl (env.checksum s), text_eq_refl (env.checksum t))

  -- A plan whose operations carry, in order, the changes from the baseline to a target, and whose
  -- checksums are those of the two states, is composed without an error, and gives the target.
  pub effective_state-state_changes :
      (env : Surroundings Leaf) (strict : Bool) (baseline target : Dict Leaf) (v f : Text)
      (plan : Plan Leaf) (css : List (List (Change Leaf)))
      → IsSorted baseline
      → IsSorted target
      → env.is_superseded f ≡ false
      → env.trusted_plan f ≡ some plan
      → plan.base_checksum ≡ some (env.checksum baseline)
      → plan.target_checksum ≡ some (env.checksum target)
      → plan.upgrade_ops ≡ some (map some css)
      → concat css ≡ state_changes baseline target []
      → effective_state env [] strict baseline ((v, f) ∷ [])
        ≡ ok (record { state = target; pending = (v, plan) ∷ []; warned = [] })
  unfolding effective_state text_in sort_items
  effective_state-state_changes env strict baseline target v f plan css sb st new trusted base goal
        ops same =
      let applies = apply_ops-concat css baseline target (
        ap (λ cs. apply_changes cs baseline) same
        ∙ apply_changes-state_changes baseline target sb st) in
      rw
        (
          compose_files,
          new,
          trusted,
          composable-typed plan css ops,
          compose_plan-eq-ok env v plan css baseline target base goal applies,
        )
        refl
