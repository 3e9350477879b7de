-- ===== src/State/PendingLaws.antt =====
-- What the loop of `effective_state` does with one file, and the chain of states it goes through.
use dbwarden.Common.{
  ◌≡◌, Bool, true, false, Option, none, some, List, [], ◌∷◌, ◌||◌, Text, text_in, ok, ◌>>=◌, arith,
  inl, inr, Bool-cases, >>=-eq-ok, Option-cases, subst,
}
use dbwarden.State.Json.{Dict, Eq}
use dbwarden.State.Changes.{Change}
use dbwarden.State.Pending.{
  Plan, Surroundings, Effective, composable, names, apply_ops, compose_plan, add_pending,
  add_warned, compose_files,
}

module _ {Leaf : Type 0} ⦃e : Eq Leaf⦄ where
  -- A plan whose base and target checksums stand for the states before and after its operations.
  pub record Transforms (env : Surroundings Leaf) (plan : Plan Leaf) (s u : Dict Leaf)
      : Type 0 where
    pub css : List (List (Change Leaf))
    pub typed : composable (some plan) ≡ some (plan, css)
    pub base : names plan.base_checksum (env.checksum s) ≡ true
    pub applied : apply_ops css s ≡ ok u
    pub target : names plan.target_checksum (env.checksum u) ≡ true

  -- The plans lead from the first state to the last, each from where the one before it ends.
  abbrev pub Chain : Surroundings Leaf → Dict Leaf → List (Text × Plan Leaf) → Dict Leaf → Type 0
  Chain env s [] t = s ≡ t
  Chain env s ((version, plan) ∷ ps) t =
      (u : Dict Leaf) × Transforms env plan s u × Chain env u ps t

  composable-fst :
      (o : Option (Plan Leaf)) (plan : Plan Leaf) (css : List (List (Change Leaf)))
      → composable o ≡ some (plan, css)
      → o ≡ some plan
  unfolding composable
  composable-fst none plan css h = cc
  composable-fst (some p) plan css h = ground arith

  compose_plan-Transforms :
      (env : Surroundings Leaf) (version : Text) (plan : Plan Leaf)
      (css : List (List (Change Leaf))) (s u : Dict Leaf)
      → composable (some plan) ≡ some (plan, css)
      → compose_plan env version plan css s ≡ ok u
      → Transforms env plan s u
  unfolding compose_plan
  compose_plan-Transforms env version plan css s u typed h = record {
    css = css;
    typed = typed;
    base = ground arith;
    applied = ground arith;
    target = ground arith;
  }

  module _ (env : Surroundings Leaf) (applied : List Text) (strict : Bool) where
    abbrev pub is_skipped : Text → Text → Bool
    is_skipped version filename = text_in version applied || env.is_superseded filename

    -- What the loop did with its first file.
    pub data Visit (version filename : Text) (files : List (Text × Text)) (s : Dict Leaf)
        (r : Effective Leaf) : Type 0 where
      skipped :
          is_skipped version filename ≡ true
          → compose_files env applied strict files s ≡ ok r
          → Visit version filename files s r
      ignored :
          (rest : Effective Leaf)
          → strict ≡ false
          → compose_files env applied strict files s ≡ ok rest
          → r ≡ add_warned version rest
          → Visit version filename files s r
      composed :
          (plan : Plan Leaf) (u : Dict Leaf) (rest : Effective Leaf)
          → is_skipped version filename ≡ false
          → env.trusted_plan filename ≡ some plan
          → Transforms env plan s u
          → compose_files env applied strict files u ≡ ok rest
          → r ≡ add_pending version plan rest
          → Visit version filename files s r

    pub visit :
        (version filename : Text) (files : List (Text × Text)) (s : Dict Leaf) (r : Effective Leaf)
        → compose_files env applied strict ((version, filename) ∷ files) s ≡ ok r
        → Visit version filename files s r
    unfolding compose_files
    visit version filename files s r h = elim (Bool-cases (is_skipped version filename)) [
      | inl e ↦ skipped e (ground arith)
      | inr e ↦ elim (Option-cases (composable (env.trusted_plan filename))) [
        | inl none_e ↦ elim (Bool-cases strict) [
          | inl st ↦ absurd (ground arith)
          | inr st ↦
              let h' : (compose_files env applied strict files s >>= λ r'.
              ok (add_warned version r'))
                  ≡ ok r =
                ground arith in
              let (rest, e1, e2) = >>=-eq-ok (compose_files env applied strict files s) _ h' in
              ignored rest st e1 (cc e2)
        ]
        | inr ((plan, css), some_e) ↦
            let h' : (compose_plan env version plan css s >>= λ u.
            compose_files env applied strict files u >>= λ r'. ok (add_pending version plan r'))
                ≡ ok r =
              ground arith in
            let (u, e1, e2) = >>=-eq-ok (compose_plan env version plan css s) _ h' in
            let (rest, e3, e4) = >>=-eq-ok (compose_files env applied strict files u) _ e2 in
            let same = composable-fst (env.trusted_plan filename) plan css some_e in
            composed plan u rest e same
              (compose_plan-Transforms env version plan css s u
                (subst (λ o. composable o ≡ some (plan, css)) same some_e) e1)
              e3 (cc e4)
      ]
    ]
