-- ===== src/State/Effective/Files.antt =====
-- The loop of `effective_state` over its files, by induction on them.
use dbwarden.Common.{
  ◌≡◌, refl, Bool, true, false, some, List, [], ◌∷◌, Text, text_in, text_lt, ok, arith, All, In,
  inl, inr, subst, sym, ap, All-map,
}
use dbwarden.Common.Sorting.{IsOrdered}
use dbwarden.State.Json.{Dict, Eq}
use dbwarden.State.Pending.{Plan, Surroundings, Effective, add_pending, add_warned, compose_files}
use dbwarden.State.PendingLaws.{Transforms, Chain, is_skipped, skipped, ignored, composed, visit}

module _ {Leaf : Type 0} ⦃e : Eq Leaf⦄ (env : Surroundings Leaf) (applied : List Text)
    (strict : Bool) where
  files-nil :
      (s : Dict Leaf) (r : Effective Leaf)
      → compose_files env applied strict [] s ≡ ok r
      → ◌≡◌ {A = Effective Leaf} (record { state = s; pending = []; warned = [] }) r
  unfolding compose_files
  files-nil s r h = cc

  pub files-Chain :
      (files : List (Text × Text)) (s : Dict Leaf) (r : Effective Leaf)
      → compose_files env applied strict files s ≡ ok r
      → Chain env s r.pending r.state
  files-Chain [] s r h = subst (λ t. Chain env s t.pending t.state) (files-nil s r h) refl
  files-Chain ((v, f) ∷ files) s r h = elim (visit env applied strict v f files s r h) [
    | skipped _ h' ↦ files-Chain files s r h'
    | ignored rest _ h' same ↦
        subst (λ t. Chain env s t.pending t.state) (sym same)
          (warned_step v rest (files-Chain files s rest h'))
    | composed plan u rest _ _ moves h' same ↦
        subst (λ t. Chain env s t.pending t.state) (sym same)
          (pending_step plan v u rest moves (files-Chain files u rest h'))
  ]
    where
      warned_step :
          (v : Text) (rest : Effective Leaf)
          → Chain env s rest.pending rest.state
          → Chain env s (add_warned v rest).pending (add_warned v rest).state
      warned_step v rest c = unfold add_warned in c

      pending_step :
          (plan : Plan Leaf) (v : Text) (u : Dict Leaf) (rest : Effective Leaf)
          → Transforms env plan s u
          → Chain env u rest.pending rest.state
          → Chain env s (add_pending v plan rest).pending (add_pending v plan rest).state
      pending_step plan v u rest tr c = unfold add_pending in (u, tr, c)

  -- Where a pending plan comes from: a file that is neither applied nor superseded.
  abbrev pub IsFrom : List (Text × Text) → Text × Plan Leaf → Type 0
  IsFrom files (v, plan) =
      (f : Text) × In (v, f) files
      × (text_in v applied ≡ false)
      × (env.is_superseded f ≡ false)
      × (env.trusted_plan f ≡ some plan)

  IsFrom-cons :
      (x : Text × Text) (files : List (Text × Text)) (vp : Text × Plan Leaf)
      → IsFrom files vp
      → IsFrom (x ∷ files) vp
  IsFrom-cons x files (v, plan) (f, m, a, b, c) = (f, inr m, a, b, c)

  pub files-IsFrom :
      (files : List (Text × Text)) (s : Dict Leaf) (r : Effective Leaf)
      → compose_files env applied strict files s ≡ ok r
      → All (IsFrom files) r.pending
  files-IsFrom [] s r h = subst (λ t. All (IsFrom []) t.pending) (files-nil s r h) tt
  files-IsFrom ((v, f) ∷ files) s r h = elim (visit env applied strict v f files s r h) [
    | skipped _ h' ↦ weaken r.pending (files-IsFrom files s r h')
    | ignored rest _ h' same ↦
        subst (λ t. All (IsFrom ((v, f) ∷ files)) t.pending) (sym same)
          (warned_step rest (weaken rest.pending (files-IsFrom files s rest h')))
    | composed plan u rest new trusted moves h' same ↦
        subst (λ t. All (IsFrom ((v, f) ∷ files)) t.pending) (sym same)
          (pending_step plan rest new trusted (weaken rest.pending (files-IsFrom files u rest h')))
  ]
    where
      weaken :
          (ps : List (Text × Plan Leaf)) → All (IsFrom files) ps → All (IsFrom ((v, f) ∷ files)) ps
      weaken ps = All-map (IsFrom files) (IsFrom ((v, f) ∷ files)) ps (IsFrom-cons (v, f) files)

      warned_step :
          (rest : Effective Leaf)
          → All (IsFrom ((v, f) ∷ files)) rest.pending
          → All (IsFrom ((v, f) ∷ files)) (add_warned v rest).pending
      warned_step rest c = unfold add_warned in c

      pending_step :
          (plan : Plan Leaf) (rest : Effective Leaf)
          → is_skipped env applied strict v f ≡ false
          → env.trusted_plan f ≡ some plan
          → All (IsFrom ((v, f) ∷ files)) rest.pending
          → All (IsFrom ((v, f) ∷ files)) (add_pending v plan rest).pending
      pending_step plan rest new trusted c =
          unfold add_pending in ((f, inl refl, ground arith, ground arith, trusted), c)

  -- In strict mode every file that is neither applied nor superseded is composed.
  pub files-strict :
      (v f : Text) (files : List (Text × Text)) (s : Dict Leaf) (r : Effective Leaf)
      → strict ≡ true
      → compose_files env applied strict files s ≡ ok r
      → In (v, f) files
      → is_skipped env applied strict v f ≡ false
      → (plan : Plan Leaf) × In (v, plan) r.pending
  files-strict v f [] s r st h m new = absurd m
  files-strict v f ((v', f') ∷ files) s r st h m new =
      elim (visit env applied strict v' f' files s r h) [
        | skipped sk h' ↦ files-strict v f files s r st h' (later sk m) new
        | ignored rest st' h' same ↦ cc
        | composed plan u rest new' trusted moves h' same ↦
            subst (λ t. (p : Plan Leaf) × In (v, p) t.pending) (sym same)
              (here plan rest m (λ m'. files-strict v f files u rest st h' m' new))
      ]
    where
      later :
          is_skipped env applied strict v' f' ≡ true
          → In (v, f) ((v', f') ∷ files)
          → In (v, f) files
      later sk (inl e) =
          absurd (ground (arith, ap (λ (p : Text × Text). p.0) e, ap (λ (p : Text × Text). p.1) e))
      later sk (inr m') = m'

      here :
          (plan : Plan Leaf) (rest : Effective Leaf)
          → In (v, f) ((v', f') ∷ files)
          → (In (v, f) files → (p : Plan Leaf) × In (v, p) rest.pending)
          → (p : Plan Leaf) × In (v, p) (add_pending v' plan rest).pending
      here plan rest (inl e) go =
          unfold add_pending in (plan, inl (ap (λ (p : Text × Text). (p.0, plan)) e))
      here plan rest (inr m') go = let (p, i) = go m' in unfold add_pending in (p, inr i)

  -- Files in ascending order give pending plans in ascending order.
  files-NotBelow :
      (k : Text) (files : List (Text × Text)) (s : Dict Leaf) (r : Effective Leaf)
      → compose_files env applied strict files s ≡ ok r
      → All (λ x. text_lt x.0 k ≡ false) files
      → All (λ x. text_lt x.0 k ≡ false) r.pending
  files-NotBelow k [] s r h low =
      subst (λ t. All (λ x. text_lt x.0 k ≡ false) t.pending) (files-nil s r h) tt
  files-NotBelow k ((v, f) ∷ files) s r h low = elim (visit env applied strict v f files s r h) [
    | skipped _ h' ↦ files-NotBelow k files s r h' low.1
    | ignored rest _ h' same ↦
        subst (λ t. All (λ x. text_lt x.0 k ≡ false) t.pending) (sym same)
          (warned_step rest (files-NotBelow k files s rest h' low.1))
    | composed plan u rest _ _ moves h' same ↦
        subst (λ t. All (λ x. text_lt x.0 k ≡ false) t.pending) (sym same)
          (pending_step plan rest (files-NotBelow k files u rest h' low.1))
  ]
    where
      warned_step :
          (rest : Effective Leaf)
          → All (λ x. text_lt x.0 k ≡ false) rest.pending
          → All (λ x. text_lt x.0 k ≡ false) (add_warned v rest).pending
      warned_step rest c = unfold add_warned in c

      pending_step :
          (plan : Plan Leaf) (rest : Effective Leaf)
          → All (λ x. text_lt x.0 k ≡ false) rest.pending
          → All (λ x. text_lt x.0 k ≡ false) (add_pending v plan rest).pending
      pending_step plan rest c = unfold add_pending in (low.0, c)

  pub files-IsOrdered :
      (files : List (Text × Text)) (s : Dict Leaf) (r : Effective Leaf)
      → compose_files env applied strict files s ≡ ok r
      → IsOrdered files
      → IsOrdered r.pending
  files-IsOrdered [] s r h up = subst (λ t. IsOrdered t.pending) (files-nil s r h) tt
  files-IsOrdered ((v, f) ∷ files) s r h up = elim (visit env applied strict v f files s r h) [
    | skipped _ h' ↦ files-IsOrdered files s r h' up.1
    | ignored rest _ h' same ↦
        subst (λ t. IsOrdered t.pending) (sym same)
          (warned_step rest (files-IsOrdered files s rest h' up.1))
    | composed plan u rest _ _ moves h' same ↦
        subst (λ t. IsOrdered t.pending) (sym same)
          (pending_step plan rest (files-NotBelow v files u rest h' up.0)
            (files-IsOrdered files u rest h' up.1))
  ]
    where
      warned_step :
          (rest : Effective Leaf) → IsOrdered rest.pending → IsOrdered (add_warned v rest).pending
      warned_step rest c = unfold add_warned in c

      pending_step :
          (plan : Plan Leaf) (rest : Effective Leaf)
          → All (λ x. text_lt x.0 v ≡ false) rest.pending
          → IsOrdered rest.pending
          → IsOrdered (add_pending v plan rest).pending
      pending_step plan rest b c = unfold add_pending in (b, c)
