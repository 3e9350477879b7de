-- ===== src/Execution/Fencing.antt =====
-- Where the fencing token is checked in dbwarden/repositories/migrations_repo.py.
use dbwarden.Common.{
  ℕ, ◌≡◌, refl, Bool, true, false, Option, none, List, [], not, length, if◌then◌else◌, Text,
}
use dbwarden.Execution.Calls.{
  Call, autocommit, open_connection, set_timeout, commit, rollback, Raised, dbapi_error, lock_error,
  other_error, Action, raise, ◌then◌, when, on_error, call, for_each,
}
use dbwarden.Execution.Run.{
  is_mysql, is_clickhouse, Settings, is_empty, txn_statements, autocommit_statements,
  record_version, run_mysql, run_external, run_internal, abort, run_on_connection, with_connection,
  run_migration, run_statements,
}
use dbwarden.Execution.Quiet.{
  checks_fence, Quiet, call-Quiet, raise-Quiet, then-Quiet, when-Quiet, on_error-Quiet,
  for_each-Quiet, if-Quiet, Quiet-calls,
}
use dbwarden.Execution.Branches.{
  record_version-Quiet, run_mysql-Quiet, run_external-Quiet, run_internal-Quiet,
}

module _ (raises : List Call → Call → Option Raised) (fence_holds : List Call → Bool)
    (settings : Settings) where
  abort-Quiet : (e : Raised) → Quiet (abort raises fence_holds settings e)
  abort-Quiet dbapi_error = raise-Quiet lock_error
  abort-Quiet lock_error = raise-Quiet lock_error
  abort-Quiet other_error = raise-Quiet other_error

  run_on_connection-Quiet :
      (is_external : Bool) (total : ℕ) (txns autos : List Text)
      → Quiet (run_on_connection raises fence_holds settings is_external total txns autos)
  unfolding run_on_connection
  run_on_connection-Quiet is_external total txns autos =
      then-Quiet (when settings.lock_timeout (call raises set_timeout))
        (on_error
          (if is_mysql settings.dialect
            then run_mysql raises fence_holds settings total txns autos
            else if is_external
            then run_external raises fence_holds settings txns autos
            else run_internal raises fence_holds settings total txns autos)
          (abort raises fence_holds settings))
        (when-Quiet settings.lock_timeout (call raises set_timeout)
          (call-Quiet raises set_timeout refl))
        (on_error-Quiet
          (if is_mysql settings.dialect
            then run_mysql raises fence_holds settings total txns autos
            else if is_external
            then run_external raises fence_holds settings txns autos
            else run_internal raises fence_holds settings total txns autos)
          (abort raises fence_holds settings)
          (if-Quiet (is_mysql settings.dialect)
            (run_mysql raises fence_holds settings total txns autos)
            (if is_external
              then run_external raises fence_holds settings txns autos
              else run_internal raises fence_holds settings total txns autos)
            (λ e. run_mysql-Quiet raises fence_holds settings total txns autos e)
            (if-Quiet is_external (run_external raises fence_holds settings txns autos)
              (run_internal raises fence_holds settings total txns autos)
              (λ e. run_external-Quiet raises fence_holds settings txns autos)
              (run_internal-Quiet raises fence_holds settings total txns autos)))
          (λ e. abort-Quiet e))

  with_connection-Quiet :
      (body : Action) → Quiet body → Quiet (with_connection raises fence_holds settings body)
  unfolding with_connection
  with_connection-Quiet body f =
      let guarded = on_error body (λ e. on_error (call raises rollback) raise then raise e) in
      then-Quiet (call raises open_connection)
        (if is_clickhouse settings.dialect then body else (guarded then call raises commit))
        (call-Quiet raises open_connection refl)
        (if-Quiet (is_clickhouse settings.dialect) body (guarded then call raises commit) (λ e. f)
          (then-Quiet guarded (call raises commit)
            (on_error-Quiet body (λ e. on_error (call raises rollback) raise then raise e) f
              (λ e.
                then-Quiet (on_error (call raises rollback) raise) (raise e)
                  (on_error-Quiet (call raises rollback) raise (call-Quiet raises rollback refl)
                    (λ x. raise-Quiet x))
                  (raise-Quiet e)))
            (call-Quiet raises commit refl)))

  -- No run of a migration without a data plan checks the fencing token, on no kind of database,
  -- whatever the token is and whichever calls raise.
  pub run_migration-fence :
      (has_connection : Bool) (sqls : List Text)
      → checks_fence ((run_migration raises fence_holds settings none has_connection sqls []).1)
        ≡ false
  unfolding run_migration run_statements checks_fence
  run_migration-fence has_connection sqls =
      let txns = txn_statements sqls in
      let autos = autocommit_statements sqls in
      let total = length sqls in
      let behind : ℕ → Text → Action = λ n s. call raises (autocommit s) in
      let recording = record_version raises fence_holds settings settings.operation in
      let recorded = record_version-Quiet raises fence_holds settings settings.operation in
      let main =
        if has_connection
        then run_on_connection raises fence_holds settings true total txns autos
        else with_connection raises fence_holds settings
            (run_on_connection raises fence_holds settings false total txns autos) in
      let last =
        if has_connection
        then recording
        else with_connection raises fence_holds settings recording in
      Quiet-calls (main then (for_each behind 0 autos then when (not (is_empty autos)) last)) (
        then-Quiet main (for_each behind 0 autos then when (not (is_empty autos)) last)
          (if-Quiet has_connection
            (run_on_connection raises fence_holds settings true total txns autos)
            (with_connection raises fence_holds settings
              (run_on_connection raises fence_holds settings false total txns autos))
            (λ e. run_on_connection-Quiet true total txns autos)
            (with_connection-Quiet
              (run_on_connection raises fence_holds settings false total txns autos)
              (run_on_connection-Quiet false total txns autos)))
          (then-Quiet (for_each behind 0 autos) (when (not (is_empty autos)) last)
            (for_each-Quiet behind 0 autos (λ n t. call-Quiet raises (autocommit t) refl))
            (when-Quiet (not (is_empty autos)) last (
              if-Quiet has_connection recording
                (with_connection raises fence_holds settings recording) (λ e. recorded)
                (with_connection-Quiet recording recorded)))))
