-- ===== src/Version/Cycles.antt =====
-- Cycles among the pending migrations.
use dbwarden.Common.{◌≡◌, true, List, [], ◌∷◌, Text, In, inl, inr, subst}
use dbwarden.Version.Search.{Pending, deps_of, is_pending}

module _ (pending : Pending) where
  -- A pending migration depends on another one.
  abbrev pub DependsOn : Text → Text → Type 0
  DependsOn v d = In d (deps_of v pending) × (is_pending d pending ≡ true)

  -- One or more such steps.
  pub data Leads : Text → Text → Type 0 where
    step : (v d : Text) → DependsOn v d → Leads v d
    onward : (v d w : Text) → DependsOn v d → Leads d w → Leads v w

  pub Leads-last : {v d w : Text} → Leads v d → DependsOn d w → Leads v w
  Leads-last (step v d e) f = onward v d _ e (step d _ f)
  Leads-last (onward v x d e l) f = onward v x _ e (Leads-last l f)

  pub Leads-pending : {v w : Text} → Leads v w → is_pending w pending ≡ true
  Leads-pending (step v d e) = e.1
  Leads-pending (onward v d w e l) = Leads-pending l

  -- The migrations that a search has left, the last one first: each behind all it depends on.
  abbrev pub IsFinished : List Text → Type 0
  IsFinished [] = Unit
  IsFinished (v ∷ done) = ((d : Text) → DependsOn v d → In d done) × IsFinished done

  pub closed_step :
      (done : List Text) (x d : Text) → IsFinished done → In x done → DependsOn x d → In d done
  closed_step [] x d f i e = absurd i
  closed_step (v ∷ done) x d (h, f) (inl same) e =
      inr (h d (subst (λ (y : Text). DependsOn y d) same e))
  closed_step (v ∷ done) x d (h, f) (inr i) e = inr (closed_step done x d f i e)

  closed : (done : List Text) {x y : Text} → IsFinished done → In x done → Leads x y → In y done
  closed done f i (step x d e) = closed_step done x d f i e
  closed done f i (onward x d y e l) = closed done f (closed_step done x d f i e) l

  pub IsFinished-acyclic :
      (done : List Text) (v : Text) → IsFinished done → In v done → Leads v v → ⊥
  IsFinished-acyclic [] v f i l = absurd i
  IsFinished-acyclic (w ∷ done) v (h, f) (inr i) l = IsFinished-acyclic done v f i l
  IsFinished-acyclic (w ∷ done) v (h, f) (inl same) l = IsFinished-acyclic done v f (below l) l
    where
      below : {y : Text} → Leads v y → In y done
      below (step _ d e) = h d (subst (λ (x : Text). DependsOn x d) same e)
      below (onward _ d y e m) = closed done f (h d (subst (λ (x : Text). DependsOn x d) same e)) m
