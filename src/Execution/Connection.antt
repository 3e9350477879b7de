-- ===== src/Execution/Connection.antt =====
-- How a body over a connection of its own ends, and how the record behind autocommit statements ends.
use dbwarden.Common.{
  ◌≡◌, refl, Bool, true, false, Option, List, [], ◌++◌, if◌then◌else◌, ap, ◌∙◌, append-nil,
}
use dbwarden.Execution.Calls.{
  Effect, Call, open_connection, commit, rollback, Raised, Action, raise, ◌then◌, on_error, call,
}
use dbwarden.Execution.Run.{other_dialect, is_clickhouse, Settings, record_version, with_connection}
use dbwarden.Execution.Rules.{Ends, throws, call-Ends, then-Ends, on_error-Ends, Ends-weaken}
use dbwarden.Execution.Durable.{Database, after}
use dbwarden.Execution.Steps.{
  records, Has, Kept, performed, harmless-Ends, commit-Ends, record_version-Ends,
}

module _ (raises : List Call → Call → Option Raised) (fence_holds : List Call → Bool)
    (settings : Settings) (db : Database) (other : settings.dialect ≡ other_dialect) where
  -- A body over a connection of its own, committed at its end.
  pub with_connection-Ends :
      (body : Action) (d p : List Effect) (calls : List Call)
      → (after db calls).durable ≡ d
      → ((l : List Call) → Has db d [] l → Ends (Has db d p) (Kept db d) (body l))
      → Ends
          (Has db (d ++ p) [])
          (Kept db d)
          (with_connection raises fence_holds settings body calls)
  unfolding with_connection
  with_connection-Ends body d p calls h inside = rw (ap is_clickhouse other) (
      then-Ends (call raises open_connection)
        (on_error body (λ e. on_error (call raises rollback) raise then raise e)
          then call raises commit)
        calls (Has db d [])
        (call-Ends raises open_connection calls (performed db calls open_connection d [] h refl)
          (λ x. h))
        (λ l i.
          then-Ends (on_error body (λ e. on_error (call raises rollback) raise then raise e))
            (call raises commit) l (Has db d p)
            (on_error-Ends body (λ e. on_error (call raises rollback) raise then raise e) l
              (Kept db d) (inside l i)
              (λ e l' j.
                then-Ends (on_error (call raises rollback) raise) (raise e) l'
                  (λ l''. (after db l'').durable ≡ d)
                  (on_error-Ends (call raises rollback) raise l' (Kept db d)
                    (harmless-Ends raises fence_holds settings db d rollback l' refl j)
                    (λ x l'' k. throws x l'' k))
                  (λ l'' k. throws e l'' k)))
            (λ l' j. commit-Ends raises fence_holds settings db d p l' j)))

  module _ (has_connection : Bool) where
    abbrev pub last_record : Action
    last_record =
        if has_connection
        then record_version raises fence_holds settings settings.operation
        else with_connection raises fence_holds settings
            (record_version raises fence_holds settings settings.operation)

    pub last_record-Ends :
        (e : List Effect) (calls : List Call)
        → Has db e [] calls
        → Ends
            (λ l.
              ((after db l).durable ++ (after db l).pending
                ≡ e ++ records settings settings.operation)
              × ((after db l).pending
                  ≡ (if has_connection then records settings settings.operation else [])))
            (Kept db e)
            (last_record calls)
    last_record-Ends e calls (h, k) = by_kind has_connection
      where
        by_kind :
            (b : Bool)
            → Ends
                (λ l.
                  ((after db l).durable ++ (after db l).pending
                    ≡ e ++ records settings settings.operation)
                  × ((after db l).pending
                      ≡ (if b then records settings settings.operation else [])))
                (Kept db e)
                ((if b
                    then record_version raises fence_holds settings settings.operation
                    else with_connection raises fence_holds settings
                        (record_version raises fence_holds settings settings.operation))
                  calls)
        by_kind true =
            Ends-weaken (record_version raises fence_holds settings settings.operation calls)
              (λ l (i, j). (
                ap (λ (x : List Effect). x ++ (after db l).pending) i
                    ∙ ap (λ (x : List Effect). e ++ x) j,
                j,
              ))
              (λ x l i. i)
              (record_version-Ends raises fence_holds settings db e [] settings.operation calls
                (h, k))
        by_kind false =
            Ends-weaken
              (with_connection raises fence_holds settings
                (record_version raises fence_holds settings settings.operation) calls)
              (λ l (i, j). (
                ap (λ (x : List Effect). x ++ (after db l).pending) i
                    ∙ ap (λ (x : List Effect). (e ++ records settings settings.operation) ++ x) j
                    ∙ append-nil (e ++ records settings settings.operation),
                j,
              ))
              (λ x l i. i)
              (with_connection-Ends (record_version raises fence_holds settings settings.operation)
                e (records settings settings.operation) calls h
                (λ l i.
                  record_version-Ends raises fence_holds settings db e [] settings.operation l i))
