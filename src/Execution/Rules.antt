-- ===== src/Execution/Rules.antt =====
-- How an action ends: one rule for each way in which actions are put together.
use dbwarden.Common.{
  ℕ, suc, ◌≡◌, refl, Bool, true, false, Option, List, [], ◌∷◌, ◌++◌, if◌then◌else◌, Text, Outcome,
  ok, err, Option-cases, inl, inr,
}
use dbwarden.Execution.Calls.{Call, Raised, Action, ◌then◌, when, on_error, call, for_each}

-- What holds of the calls when an action returns, and when it raises.
pub data Ends (Q : List Call → Type 0) (R : Raised → List Call → Type 0)
    : Outcome Raised (Unit {0}) × List Call → Type 0 where
  returns : (calls : List Call) → Q calls → Ends Q R (ok tt, calls)
  throws : (e : Raised) (calls : List Call) → R e calls → Ends Q R (err e, calls)

module _ {Q : List Call → Type 0} {R : Raised → List Call → Type 0} where
  pub call-Ends :
      (raises : List Call → Call → Option Raised) (c : Call) (calls : List Call)
      → Q (calls ++ c ∷ [])
      → ((e : Raised) → R e calls)
      → Ends Q R (call raises c calls)
  unfolding call
  call-Ends raises c calls through raised = elim (Option-cases (raises calls c)) [
    | inl e ↦ rw (e, call) (returns (calls ++ c ∷ []) through)
    | inr (x, e) ↦ rw (e, call) (throws x calls (raised x))
  ]

  pub then-Ends :
      (first rest : Action) (calls : List Call) (P : List Call → Type 0)
      → Ends P R (first calls)
      → ((calls' : List Call) → P calls' → Ends Q R (rest calls'))
      → Ends Q R ((first then rest) calls)
  then-Ends first rest calls P h k = from (first calls) h
    where
      from :
          (r : Outcome Raised (Unit {0}) × List Call)
          → Ends P R r
          → Ends Q R (elim r.0 [ ok u ↦ rest r.1 | err e ↦ (err e, r.1) ])
      from (ok u, calls') (returns _ i) = k calls' i
      from (err e, calls') (throws _ _ i) = throws e calls' i

  pub when-Ends :
      (test : Bool) (action : Action) (calls : List Call)
      → (test ≡ true → Ends Q R (action calls))
      → (test ≡ false → Q calls)
      → Ends Q R (when test action calls)
  when-Ends true action calls h k = h refl
  when-Ends false action calls h k = returns calls (k refl)

  pub on_error-Ends :
      (body : Action) (handler : Raised → Action) (calls : List Call)
      (S : Raised → List Call → Type 0)
      → Ends Q S (body calls)
      → ((e : Raised) (calls' : List Call) → S e calls' → Ends Q R (handler e calls'))
      → Ends Q R (on_error body handler calls)
  on_error-Ends body handler calls S h k = from (body calls) h
    where
      from :
          (r : Outcome Raised (Unit {0}) × List Call)
          → Ends Q S r
          → Ends Q R (elim r.0 [ ok u ↦ (ok u, r.1) | err e ↦ handler e r.1 ])
      from (ok u, calls') (returns _ i) = returns calls' i
      from (err e, calls') (throws _ _ i) = k e calls' i

-- A loop keeps a predicate of the texts that are left.
pub for_each-Ends :
    {R : Raised → List Call → Type 0} (P : List Text → List Call → Type 0)
    (body : ℕ → Text → Action)
    → ((n : ℕ) (t : Text) (ts : List Text) (calls : List Call)
        → P (t ∷ ts) calls
        → Ends (P ts) R (body n t calls))
    → (n : ℕ) (ts : List Text) (calls : List Call) → P ts calls
    → Ends (P []) R (for_each body n ts calls)
unfolding for_each
for_each-Ends P body keeps n [] calls h = returns calls h
for_each-Ends P body keeps n (t ∷ ts) calls h =
    then-Ends (body (suc n) t) (for_each body (suc n) ts) calls (P ts) (keeps (suc n) t ts calls h)
      (λ calls' i. for_each-Ends P body keeps (suc n) ts calls' i)

pub Ends-weaken :
    {Q R : List Call → Type 0} {S T : Raised → List Call → Type 0}
    (result : Outcome Raised (Unit {0}) × List Call)
    → ((calls : List Call) → Q calls → R calls)
    → ((e : Raised) (calls : List Call) → S e calls → T e calls)
    → Ends Q S result
    → Ends R T result
Ends-weaken _ f g (returns calls h) = returns calls (f calls h)
Ends-weaken _ f g (throws e calls h) = throws e calls (g e calls h)
