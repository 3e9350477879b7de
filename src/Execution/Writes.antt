-- ===== src/Execution/Writes.antt =====
-- Actions that return, and what they write.
use dbwarden.Common.{
  ℕ, suc, ◌≡◌, refl, Bool, true, false, Option, none, List, [], ◌∷◌, ◌++◌, not, map, if◌then◌else◌,
  Text, Outcome, ok, sym, ap, ◌∙◌, subst, append_assoc, append-nil,
}
use dbwarden.Execution.Calls.{
  Effect, statement, insert_version, delete_version, optimize_table, Call, execute, autocommit,
  Raised, Action, skip, ◌then◌, when, on_error, call, for_each, progress,
}
use dbwarden.Execution.Run.{
  Settings, is_empty, Operation, upgrade, downgrade, other_operation, record_version,
  report_progress,
}
use dbwarden.Execution.Rules.{Ends, returns, throws, then-Ends, on_error-Ends, Ends-weaken}
use dbwarden.Execution.Steps.{records}

abbrev pub writes : Call → List Effect
writes (execute e) = e ∷ []
writes (autocommit t) = statement t ∷ []
writes _ = []

-- What the calls write, in order, in a transaction or outside of one.
unfoldable pub written : List Call → List Effect
written [] = []
written (c ∷ calls) = writes c ++ written calls

written-last :
    (calls : List Call) (c : Call) → written (calls ++ c ∷ []) ≡ written calls ++ writes c
unfolding written
written-last [] c = append-nil (writes c)
written-last (d ∷ calls) c =
    ap (λ (x : List Effect). writes d ++ x) (written-last calls c)
    ∙ sym (append_assoc (writes d) (written calls) (writes c))

-- The action returns, and writes the effects.
unfoldable pub Writes : Action → List Effect → Type 0
Writes action es =
    (calls : List Call) (ws : List Effect)
    → written calls ≡ ws
    → Ends (λ l. written l ≡ ws ++ es) (λ e l. ⊥) (action calls)

pub skip-Writes : Writes skip []
unfolding Writes
skip-Writes calls ws h = returns calls (h ∙ sym (append-nil ws))

pub then-Writes :
    (first rest : Action) (es fs : List Effect)
    → Writes first es
    → Writes rest fs
    → Writes (first then rest) (es ++ fs)
unfolding Writes
then-Writes first rest es fs f g calls ws h =
    then-Ends first rest calls (λ l. written l ≡ ws ++ es) (f calls ws h)
      (λ l i.
        Ends-weaken (rest l) (λ l' j. j ∙ append_assoc ws es fs) (λ e l' j. j) (g l (ws ++ es) i))

pub on_error-Writes :
    (body : Action) (handler : Raised → Action) (es : List Effect)
    → Writes body es
    → Writes (on_error body handler) es
unfolding Writes
on_error-Writes body handler es f calls ws h =
    on_error-Ends body handler calls (λ e l. ⊥) (f calls ws h) (λ e l i. absurd i)

pub for_each-Writes :
    (body : ℕ → Text → Action) (n : ℕ) (ts : List Text)
    → ((m : ℕ) (t : Text) → Writes (body m t) (statement t ∷ []))
    → Writes (for_each body n ts) (map statement ts)
unfolding for_each
for_each-Writes body n [] f = skip-Writes
for_each-Writes body n (t ∷ ts) f =
    then-Writes (body (suc n) t) (for_each body (suc n) ts) (statement t ∷ []) (map statement ts)
      (f (suc n) t) (for_each-Writes body (suc n) ts f)

pub Writes-written :
    (action : Action) (es : List Effect)
    → Writes action es
    → ((action []).0 ≡ ok tt) × (written ((action []).1) ≡ es)
unfolding Writes written
Writes-written action es f = from (action []) (f [] [] refl)
  where
    from :
        (r : Outcome Raised (Unit {0}) × List Call)
        → Ends (λ l. written l ≡ es) (λ e l. ⊥) r
        → (r.0 ≡ ok tt) × (written r.1 ≡ es)
    from _ (returns l i) = (refl, i)
    from _ (throws e l i) = absurd i

module _ (raises : List Call → Call → Option Raised) (fence_holds : List Call → Bool)
    (settings : Settings)
    (none_raises : (calls : List Call) (c : Call) → raises calls c ≡ none) where
  pub call-Writes : (c : Call) → Writes (call raises c) (writes c)
  unfolding call Writes
  call-Writes c calls ws h =
      rw (none_raises calls c, call)
        (returns (calls ++ c ∷ [])
          (written-last calls c ∙ ap (λ (x : List Effect). x ++ writes c) h))

  -- A call that writes nothing, or no call.
  pub when_silent-Writes :
      (test : Bool) (c : Call) → writes c ≡ [] → Writes (when test (call raises c)) []
  when_silent-Writes true c e = subst (Writes (call raises c)) e (call-Writes c)
  when_silent-Writes false c e = skip-Writes

  pub record_version-Writes :
      (op : Operation)
      → Writes (record_version raises fence_holds settings op) (records settings op)
  unfolding record_version
  record_version-Writes upgrade = call-Writes (execute insert_version)
  record_version-Writes other_operation = skip-Writes
  record_version-Writes downgrade =
      then-Writes (call raises (execute delete_version))
        (when settings.optimizes (call raises (execute optimize_table))) (delete_version ∷ [])
        (if settings.optimizes then optimize_table ∷ [] else [])
        (call-Writes (execute delete_version)) (optimize settings.optimizes)
    where
      optimize :
          (b : Bool)
          → Writes
              (when b (call raises (execute optimize_table)))
              (if b then optimize_table ∷ [] else [])
      optimize true = call-Writes (execute optimize_table)
      optimize false = skip-Writes

  -- A statement of the loop, with the report of the progress behind it.
  pub reported-Writes :
      (c : Call) (total n : ℕ)
      → Writes (call raises c then report_progress raises fence_holds settings total n) (writes c)
  unfolding report_progress
  reported-Writes c total n =
      subst (Writes (call raises c then report_progress raises fence_holds settings total n))
        (append-nil (writes c))
        (then-Writes (call raises c) (report_progress raises fence_holds settings total n)
          (writes c) [] (call-Writes c)
          (when_silent-Writes settings.has_callback (progress n total) refl))

  -- The record of the version in front of or behind the test of the autocommit statements.
  abbrev pub recorded_if : Bool → List Effect
  recorded_if b = if b then records settings settings.operation else []

  pub record_if-Writes :
      (b : Bool)
      → Writes
          (when b (record_version raises fence_holds settings settings.operation))
          (recorded_if b)
  record_if-Writes true = record_version-Writes settings.operation
  record_if-Writes false = skip-Writes

  -- The statements of the two kinds, and the record.
  abbrev pub all_of : List Text → List Text → List Effect
  all_of txns autos =
      (((map statement txns ++ map statement autos) ++ recorded_if (is_empty autos))
        ++ recorded_if (not (is_empty autos)))
      ++ []
