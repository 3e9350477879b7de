-- ===== src/Execution/Steps.antt =====
-- The effects of single calls on a database with transactions.
use dbwarden.Common.{
  ℕ, ◌≡◌, refl, Bool, true, false, Option, List, [], ◌∷◌, ◌++◌, map, if◌then◌else◌, Text, sym, ap,
  ◌∙◌, subst, append_assoc, append-nil,
}
use dbwarden.Execution.Calls.{
  Effect, statement, insert_version, delete_version, optimize_table, Call, execute, commit,
  rollback, progress, Raised, skip, raise, ◌then◌, when, on_error, call,
}
use dbwarden.Execution.Run.{
  Operation, upgrade, downgrade, other_operation, Settings, record_version, report_progress,
}
use dbwarden.Execution.Rules.{
  Ends, returns, throws, call-Ends, then-Ends, Ends-weaken, when-Ends, on_error-Ends,
}
use dbwarden.Execution.Durable.{Database, perform, after, after-last}

-- The effects that record a version.
abbrev pub records : Settings → Operation → List Effect
records settings upgrade = insert_version ∷ []
records settings downgrade =
    delete_version ∷ (if settings.optimizes then optimize_table ∷ [] else [])
records settings other_operation = []

module _ (db : Database) where
  -- The durable effects are `d`, and the pending ones `p`.
  abbrev pub Has : List Effect → List Effect → List Call → Type 0
  Has d p calls = ((after db calls).durable ≡ d) × ((after db calls).pending ≡ p)

  -- The durable effects are still `d`.
  abbrev pub Kept : List Effect → Raised → List Call → Type 0
  Kept d e calls = (after db calls).durable ≡ d

  pub performed :
      (calls : List Call) (c : Call) (d p : List Effect)
      → (perform (after db calls) c).durable ≡ d
      → (perform (after db calls) c).pending ≡ p
      → Has d p (calls ++ c ∷ [])
  performed calls c d p e f = (
    ap (λ (x : Database). x.durable) (after-last db calls c) ∙ e,
    ap (λ (x : Database). x.pending) (after-last db calls c) ∙ f,
  )

  -- The statements that are left follow the pending ones.
  abbrev pub Loop : List Effect → List Effect → List Text → List Call → Type 0
  Loop d target ts calls = (p : List Effect) × Has d p calls × (p ++ map statement ts ≡ target)

  next-Loop :
      (d target : List Effect) (t : Text) (ts : List Text) (calls : List Call) (p : List Effect)
      → p ++ map statement (t ∷ ts) ≡ target
      → Has d (p ++ statement t ∷ []) calls
      → Loop d target ts calls
  next-Loop d target t ts calls p e h =
      (p ++ statement t ∷ [], h, append_assoc p (statement t ∷ []) (map statement ts) ∙ e)

module _ (raises : List Call → Call → Option Raised) (fence_holds : List Call → Bool)
    (settings : Settings) (db : Database) where
  execute-Ends :
      (d p : List Effect) (e : Effect) (calls : List Call)
      → Has db d p calls
      → Ends (Has db d (p ++ e ∷ [])) (Kept db d) (call raises (execute e) calls)
  execute-Ends d p e calls (h, k) =
      call-Ends raises (execute e) calls
        (performed db calls (execute e) d (p ++ e ∷ []) h (ap (λ (x : List Effect). x ++ e ∷ []) k))
        (λ x. h)

  pub commit-Ends :
      (d p : List Effect) (calls : List Call)
      → Has db d p calls
      → Ends (Has db (d ++ p) []) (Kept db d) (call raises commit calls)
  commit-Ends d p calls (h, k) =
      call-Ends raises commit calls
        (performed db calls commit (d ++ p) []
          (ap (λ (x : List Effect). x ++ (after db calls).pending) h
            ∙ ap (λ (x : List Effect). d ++ x) k)
          refl)
        (λ x. h)

  pub progress-Ends :
      (d p : List Effect) (total n : ℕ) (calls : List Call)
      → Has db d p calls
      → Ends (Has db d p) (Kept db d) (report_progress raises fence_holds settings total n calls)
  unfolding report_progress
  progress-Ends d p total n calls (h, k) =
      when-Ends settings.has_callback (call raises (progress n total)) calls
        (λ e.
          call-Ends raises (progress n total) calls (performed db calls (progress n total) d p h k)
            (λ x. h))
        (λ e. (h, k))

  pub record_version-Ends :
      (d p : List Effect) (op : Operation) (calls : List Call)
      → Has db d p calls
      → Ends
          (Has db d (p ++ records settings op))
          (Kept db d)
          (record_version raises fence_holds settings op calls)
  unfolding record_version
  record_version-Ends d p upgrade calls h = execute-Ends d p insert_version calls h
  record_version-Ends d p other_operation calls h =
      returns calls (subst (λ (x : List Effect). Has db d x calls) (sym (append-nil p)) h)
  record_version-Ends d p downgrade calls h =
      then-Ends (call raises (execute delete_version))
        (when settings.optimizes (call raises (execute optimize_table))) calls
        (Has db d (p ++ delete_version ∷ [])) (execute-Ends d p delete_version calls h)
        (λ calls' i. optimize settings.optimizes calls' i)
    where
      optimize :
          (b : Bool) (calls' : List Call)
          → Has db d (p ++ delete_version ∷ []) calls'
          → Ends
              (Has db d (p ++ delete_version ∷ (if b then optimize_table ∷ [] else [])))
              (Kept db d)
              (when b (call raises (execute optimize_table)) calls')
      optimize false calls' i = returns calls' i
      optimize true calls' i =
          Ends-weaken (call raises (execute optimize_table) calls')
            (λ l j.
              subst (λ (x : List Effect). Has db d x l)
                (append_assoc p (delete_version ∷ []) (optimize_table ∷ [])) j)
            (λ e l j. j) (execute-Ends d (p ++ delete_version ∷ []) optimize_table calls' i)

  pub execute-Loop :
      (d target : List Effect) (t : Text) (ts : List Text) (calls : List Call)
      → Loop db d target (t ∷ ts) calls
      → Ends (Loop db d target ts) (Kept db d) (call raises (execute (statement t)) calls)
  execute-Loop d target t ts calls (p, h, e) =
      Ends-weaken (call raises (execute (statement t)) calls)
        (λ l j. next-Loop db d target t ts l p e j) (λ x l j. j)
        (execute-Ends d p (statement t) calls h)

  -- A call that leaves the durable effects alone.
  pub harmless-Ends :
      (d : List Effect) (c : Call) (calls : List Call)
      → (perform (after db calls) c).durable ≡ (after db calls).durable
      → (after db calls).durable ≡ d
      → Ends (λ l. (after db l).durable ≡ d) (Kept db d) (call raises c calls)
  harmless-Ends d c calls same h =
      call-Ends raises c calls (ap (λ (x : Database). x.durable) (after-last db calls c) ∙ same ∙ h)
        (λ x. h)

  pub rollback-Ends :
      {Q : List Call → Type 0} (d : List Effect) (e : Raised) (calls : List Call)
      → Kept db d e calls
      → Ends Q (Kept db d) ((on_error (call raises rollback) (λ ignored. skip) then raise e) calls)
  rollback-Ends d e calls h =
      then-Ends (on_error (call raises rollback) (λ ignored. skip)) (raise e) calls
        (λ l. (after db l).durable ≡ d)
        (on_error-Ends (call raises rollback) (λ ignored. skip) calls (Kept db d)
          (harmless-Ends d rollback calls refl h) (λ x l i. returns l i))
        (λ l i. throws e l i)
