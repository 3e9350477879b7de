-- ===== src/Execution/Quiet.antt =====
-- Actions during which the fencing token is not checked.
use dbwarden.Common.{
  ℕ, ◌≡◌, refl, Bool, true, false, Option, List, [], ◌∷◌, ◌++◌, if◌then◌else◌, Text, Outcome, ap,
  ◌∙◌,
}
use dbwarden.Execution.Calls.{
  Call, fence_check, Raised, Action, skip, raise, ◌then◌, when, on_error, call, for_each,
}
use dbwarden.Execution.Rules.{
  Ends, returns, throws, call-Ends, then-Ends, when-Ends, on_error-Ends, for_each-Ends,
}

abbrev is_fence_check : Call → Bool
is_fence_check fence_check = true
is_fence_check _ = false

-- The fencing token is checked in one of the calls.
unfoldable pub checks_fence : List Call → Bool
checks_fence [] = false
checks_fence (c ∷ calls) = let rest = checks_fence calls in if is_fence_check c then true else rest

checks_fence-last :
    (calls : List Call) (c : Call)
    → is_fence_check c ≡ false
    → checks_fence (calls ++ c ∷ []) ≡ checks_fence calls
unfolding checks_fence
checks_fence-last [] c e = rw (e) refl
checks_fence-last (d ∷ calls) c e =
    ap (λ (b : Bool). if is_fence_check d then true else b) (checks_fence-last calls c e)

unfoldable pub Quiet : Action → Type 0
Quiet action =
    (calls : List Call)
    → checks_fence calls ≡ false
    → Ends (λ l. checks_fence l ≡ false) (λ e l. checks_fence l ≡ false) (action calls)

module _ (raises : List Call → Call → Option Raised) where
  pub call-Quiet : (c : Call) → is_fence_check c ≡ false → Quiet (call raises c)
  unfolding Quiet
  call-Quiet c e calls h = call-Ends raises c calls (checks_fence-last calls c e ∙ h) (λ x. h)

pub skip-Quiet : Quiet skip
unfolding Quiet
skip-Quiet calls h = returns calls h

pub raise-Quiet : (e : Raised) → Quiet (raise e)
unfolding Quiet
raise-Quiet e calls h = throws e calls h

pub then-Quiet : (first rest : Action) → Quiet first → Quiet rest → Quiet (first then rest)
unfolding Quiet
then-Quiet first rest f g calls h =
    then-Ends first rest calls (λ l. checks_fence l ≡ false) (f calls h) (λ l i. g l i)

pub when-Quiet : (test : Bool) (action : Action) → Quiet action → Quiet (when test action)
unfolding Quiet
when-Quiet test action f calls h = when-Ends test action calls (λ e. f calls h) (λ e. h)

pub on_error-Quiet :
    (body : Action) (handler : Raised → Action)
    → Quiet body
    → ((e : Raised) → Quiet (handler e))
    → Quiet (on_error body handler)
unfolding Quiet
on_error-Quiet body handler f g calls h =
    on_error-Ends body handler calls (λ e l. checks_fence l ≡ false) (f calls h) (λ e l i. g e l i)

pub for_each-Quiet :
    (body : ℕ → Text → Action) (n : ℕ) (ts : List Text)
    → ((m : ℕ) (t : Text) → Quiet (body m t))
    → Quiet (for_each body n ts)
unfolding Quiet
for_each-Quiet body n ts f calls h =
    for_each-Ends (λ us l. checks_fence l ≡ false) body (λ m t us l i. f m t l i) n ts calls h

pub if-Quiet :
    (test : Bool) (first rest : Action)
    → (test ≡ true → Quiet first)
    → Quiet rest
    → Quiet (if test then first else rest)
if-Quiet true first rest f g = f refl
if-Quiet false first rest f g = g

pub Quiet-calls : (action : Action) → Quiet action → checks_fence ((action []).1) ≡ false
unfolding Quiet checks_fence
Quiet-calls action f = from (action []) (f [] refl)
  where
    from :
        (r : Outcome Raised (Unit {0}) × List Call)
        → Ends (λ l. checks_fence l ≡ false) (λ e l. checks_fence l ≡ false) r
        → checks_fence r.1 ≡ false
    from _ (returns l i) = i
    from _ (throws e l i) = i
