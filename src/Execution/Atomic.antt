-- ===== src/Execution/Atomic.antt =====
-- What a run on one connection leaves in a database with transactions.
use dbwarden.Common.{
  ℕ, ◌≡◌, refl, Bool, true, false, Option, List, [], ◌++◌, map, if◌then◌else◌, Text, Outcome, ok,
  err, sym, ap, ◌∙◌, subst, append-nil,
}
use dbwarden.Execution.Calls.{
  Effect, statement, Call, execute, set_timeout, begin_nested, release, rollback_to, commit,
  rollback, Raised, dbapi_error, lock_error, other_error, Action, skip, raise, ◌then◌, when,
  on_error, call, for_each,
}
use dbwarden.Execution.Run.{
  other_dialect, is_mysql, Settings, is_empty, record_version, report_progress, run_external,
  run_nested, run_internal, abort, run_on_connection,
}
use dbwarden.Execution.Rules.{
  Ends, returns, throws, call-Ends, then-Ends, Ends-weaken, when-Ends, on_error-Ends, for_each-Ends,
}
use dbwarden.Execution.Durable.{Database, after}
use dbwarden.Execution.Steps.{
  records, Has, Kept, performed, commit-Ends, progress-Ends, record_version-Ends, Loop,
  execute-Loop, harmless-Ends, rollback-Ends,
}

module _ (raises : List Call → Call → Option Raised) (fence_holds : List Call → Bool)
    (settings : Settings) (db : Database) where
  module _ (txns autos : List Text) where
    -- The effects of the transaction: its statements, and the version if nothing is run behind it.
    abbrev pub in_transaction : List Effect
    in_transaction =
        map statement txns ++ (if is_empty autos then records settings settings.operation else [])

    record_if-Ends :
        (d : List Effect) (calls : List Call)
        → Loop db d (map statement txns) [] calls
        → Ends (Has db d in_transaction) (Kept db d) (
            when
              (is_empty autos)
              (record_version raises fence_holds settings settings.operation)
              calls)
    record_if-Ends d calls (p, h, e) = go (is_empty autos)
      where
        known : Has db d (map statement txns) calls
        known = subst (λ (x : List Effect). Has db d x calls) (sym (append-nil p) ∙ e) h

        go :
            (b : Bool)
            → Ends
                (Has db d
                  (map statement txns ++ (if b then records settings settings.operation else [])))
                (Kept db d)
                (when b (record_version raises fence_holds settings settings.operation) calls)
        go true =
            record_version-Ends raises fence_holds settings db d (map statement txns)
              settings.operation calls known
        go false = returns calls (
            subst (λ (x : List Effect). Has db d x calls) (sym (append-nil (map statement txns)))
              known)

    -- The branch of a connection of the caller.
    run_external-Ends :
        (d : List Effect) (calls : List Call)
        → Has db d [] calls
        → Ends
            (Has db (d ++ in_transaction) [])
            (Kept db d)
            (run_external raises fence_holds settings txns autos calls)
    unfolding run_external
    run_external-Ends d calls h =
        let body : ℕ → Text → Action = λ n s. call raises (execute (statement s)) in
        let recording =
          when (is_empty autos) (record_version raises fence_holds settings settings.operation) in
        on_error-Ends (for_each body 0 txns then recording then call raises commit)
          (λ e. on_error (call raises rollback) (λ ignored. skip) then raise e) calls (Kept db d)
          (then-Ends (for_each body 0 txns then recording) (call raises commit) calls
            (Has db d in_transaction)
            (then-Ends (for_each body 0 txns) recording calls (Loop db d (map statement txns) [])
              (for_each-Ends (Loop db d (map statement txns)) body
                (λ n t ts l i.
                  execute-Loop raises fence_holds settings db d (map statement txns) t ts l i)
                0 txns calls ([], h, refl))
              (λ l i. record_if-Ends d l i))
            (λ l i. commit-Ends raises fence_holds settings db d in_transaction l i))
          (λ e l i. rollback-Ends raises fence_holds settings db d e l i)

    run_nested-Ends :
        (d : List Effect) (has_savepoint : Bool) (total : ℕ) (calls : List Call)
        → Has db d [] calls
        → Ends
            (Has db d in_transaction)
            (Kept db d)
            (run_nested raises fence_holds settings has_savepoint total txns autos calls)
    unfolding run_nested
    run_nested-Ends d has_savepoint total calls h =
        let body : ℕ → Text → Action = λ n s.
          call raises (execute (statement s))
          then report_progress raises fence_holds settings total n in
        let recording =
          when (is_empty autos) (record_version raises fence_holds settings settings.operation) in
        on_error-Ends
          (for_each body 0 txns then recording then when has_savepoint (call raises release))
          (λ e. when has_savepoint (call raises rollback_to) then raise e) calls (Kept db d)
          (then-Ends (for_each body 0 txns then recording)
            (when has_savepoint (call raises release)) calls (Has db d in_transaction)
            (then-Ends (for_each body 0 txns) recording calls (Loop db d (map statement txns) [])
              (for_each-Ends (Loop db d (map statement txns)) body
                (λ n t ts l i.
                  then-Ends (call raises (execute (statement t)))
                    (report_progress raises fence_holds settings total n) l
                    (Loop db d (map statement txns) ts)
                    (execute-Loop raises fence_holds settings db d (map statement txns) t ts l i)
                    (λ l' (p, j, e).
                      Ends-weaken (report_progress raises fence_holds settings total n l')
                        (λ l'' k. (p, k, e)) (λ x l'' k. k)
                        (progress-Ends raises fence_holds settings db d p total n l' j)))
                0 txns calls ([], h, refl))
              (λ l i. record_if-Ends d l i))
            (λ l (i, j).
              when-Ends has_savepoint (call raises release) l
                (λ e.
                  call-Ends raises release l (performed db l release d in_transaction i j) (λ x. i))
                (λ e. (i, j))))
          (λ e l i.
            then-Ends (when has_savepoint (call raises rollback_to)) (raise e) l
              (λ l'. (after db l').durable ≡ d)
              (when-Ends has_savepoint (call raises rollback_to) l
                (λ f. harmless-Ends raises fence_holds settings db d rollback_to l refl i) (λ f. i))
              (λ l' j. throws e l' j))

    run_internal-Ends :
        (d : List Effect) (total : ℕ) (calls : List Call)
        → Has db d [] calls
        → Ends
            (Has db d in_transaction)
            (Kept db d)
            (run_internal raises fence_holds settings total txns autos calls)
    unfolding run_internal
    run_internal-Ends d total calls (h, k) = from (call raises begin_nested calls) (
        call-Ends raises begin_nested calls (performed db calls begin_nested d [] h k)
          (λ x. (h, k)))
      where
        from :
            (r : Outcome Raised (Unit {0}) × List Call)
            → Ends (Has db d []) (λ e. Has db d []) r
            → Ends (Has db d in_transaction) (Kept db d) (elim r.0 [
              | ok u ↦ run_nested raises fence_holds settings true total txns autos r.1
              | err e ↦ run_nested raises fence_holds settings false total txns autos r.1
            ])
        from (ok u, l) (returns _ i) = run_nested-Ends d true total l i
        from (err e, l) (throws _ _ i) = run_nested-Ends d false total l i

    -- What a run on a connection leaves, by whether the connection is the caller's.
    abbrev pub Leaves : Bool → List Effect → List Call → Type 0
    Leaves true d calls = Has db (d ++ in_transaction) [] calls
    Leaves false d calls = Has db d in_transaction calls

    abort-Ends :
        {Q : List Call → Type 0} (d : List Effect) (e : Raised) (calls : List Call)
        → Kept db d e calls
        → Ends Q (Kept db d) (abort raises fence_holds settings e calls)
    abort-Ends d dbapi_error calls h = throws lock_error calls h
    abort-Ends d lock_error calls h = throws lock_error calls h
    abort-Ends d other_error calls h = throws other_error calls h

    pub run_on_connection-Ends :
        (is_external : Bool) (d : List Effect) (total : ℕ) (calls : List Call)
        → settings.dialect ≡ other_dialect
        → Has db d [] calls
        → Ends
            (Leaves is_external d)
            (Kept db d)
            (run_on_connection raises fence_holds settings is_external total txns autos calls)
    unfolding run_on_connection
    run_on_connection-Ends is_external d total calls dialect (h, k) = rw (ap is_mysql dialect) (
        then-Ends (when settings.lock_timeout (call raises set_timeout))
          (on_error
            (if is_external
              then run_external raises fence_holds settings txns autos
              else run_internal raises fence_holds settings total txns autos)
            (abort raises fence_holds settings))
          calls (Has db d [])
          (when-Ends settings.lock_timeout (call raises set_timeout) calls
            (λ e.
              call-Ends raises set_timeout calls (performed db calls set_timeout d [] h k) (λ x. h))
            (λ e. (h, k)))
          (λ l i. by_kind is_external l i))
      where
        by_kind :
            (b : Bool) (l : List Call)
            → Has db d [] l
            → Ends (Leaves b d) (Kept db d) (
                on_error
                  (if b
                    then run_external raises fence_holds settings txns autos
                    else run_internal raises fence_holds settings total txns autos)
                  (abort raises fence_holds settings)
                  l)
        by_kind true l i =
            on_error-Ends (run_external raises fence_holds settings txns autos)
              (abort raises fence_holds settings) l (Kept db d) (run_external-Ends d l i)
              (λ e l' j. abort-Ends d e l' j)
        by_kind false l i =
            on_error-Ends (run_internal raises fence_holds settings total txns autos)
              (abort raises fence_holds settings) l (Kept db d) (run_internal-Ends d total l i)
              (λ e l' j. abort-Ends d e l' j)
