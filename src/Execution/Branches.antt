-- ===== src/Execution/Branches.antt =====
-- The branches of a run on one connection check no fencing token.
use dbwarden.Common.{
  arith, ℕ, ◌≡◌, refl, Bool, true, false, Option, List, not, length, if◌then◌else◌, Text, Outcome,
  ok, err,
}
use dbwarden.Execution.Calls.{
  statement, insert_version, delete_version, optimize_table, Call, execute, autocommit,
  begin_nested, release, rollback_to, commit, rollback, progress, Raised, Action, skip, raise,
  ◌then◌, when, on_error, call, for_each,
}
use dbwarden.Execution.Run.{
  Dialect, mysql, clickhouse, other_dialect, is_mysql, is_clickhouse, Operation, upgrade, downgrade,
  other_operation, Settings, is_empty, record_version, report_progress, check_fence, run_mysql,
  run_external, run_nested, run_internal,
}
use dbwarden.Execution.Rules.{Ends, returns, throws}
use dbwarden.Execution.Quiet.{
  checks_fence, Quiet, call-Quiet, skip-Quiet, raise-Quiet, then-Quiet, when-Quiet, on_error-Quiet,
  for_each-Quiet,
}

module _ (raises : List Call → Call → Option Raised) (fence_holds : List Call → Bool)
    (settings : Settings) where
  pub record_version-Quiet :
      (op : Operation) → Quiet (record_version raises fence_holds settings op)
  unfolding record_version
  record_version-Quiet upgrade = call-Quiet raises (execute insert_version) refl
  record_version-Quiet downgrade =
      then-Quiet (call raises (execute delete_version))
        (when settings.optimizes (call raises (execute optimize_table)))
        (call-Quiet raises (execute delete_version) refl)
        (when-Quiet settings.optimizes (call raises (execute optimize_table))
          (call-Quiet raises (execute optimize_table) refl))
  record_version-Quiet other_operation = skip-Quiet

  report_progress-Quiet :
      (total n : ℕ) → Quiet (report_progress raises fence_holds settings total n)
  unfolding report_progress
  report_progress-Quiet total n =
      when-Quiet settings.has_callback (call raises (progress n total))
        (call-Quiet raises (progress n total) refl)

  check_fence-Quiet :
      is_mysql settings.dialect ≡ true → Quiet (check_fence raises fence_holds settings)
  unfolding check_fence
  check_fence-Quiet e = rw (mysql_only settings.dialect e) skip-Quiet
    where
      mysql_only : (d : Dialect) → is_mysql d ≡ true → is_clickhouse d ≡ false
      mysql_only mysql e = refl
      mysql_only clickhouse e = ground (arith, e)
      mysql_only other_dialect e = refl

  pub run_mysql-Quiet :
      (total : ℕ) (txns autos : List Text)
      → is_mysql settings.dialect ≡ true
      → Quiet (run_mysql raises fence_holds settings total txns autos)
  unfolding run_mysql
  run_mysql-Quiet total txns autos e =
      let check = check_fence raises fence_holds settings in
      let execution : ℕ → Text → Action = λ n s.
        check
        then call raises (execute (statement s))
        then report_progress raises fence_holds settings total n in
      let behind : ℕ → Text → Action = λ n s.
        call raises (autocommit s) then report_progress raises fence_holds settings total n in
      let recording = record_version raises fence_holds settings settings.operation in
      let recorded = record_version-Quiet settings.operation in
      then-Quiet
        (for_each execution 0 txns
          then for_each behind (length txns) autos
          then when (is_empty autos) recording
          then when (not (is_empty autos)) recording)
        (call raises commit)
        (then-Quiet
          (for_each execution 0 txns
            then for_each behind (length txns) autos
            then when (is_empty autos) recording)
          (when (not (is_empty autos)) recording)
          (then-Quiet (for_each execution 0 txns then for_each behind (length txns) autos)
            (when (is_empty autos) recording)
            (then-Quiet (for_each execution 0 txns) (for_each behind (length txns) autos)
              (for_each-Quiet execution 0 txns (λ n t.
                then-Quiet (check then call raises (execute (statement t)))
                  (report_progress raises fence_holds settings total n)
                  (then-Quiet check (call raises (execute (statement t))) (check_fence-Quiet e)
                    (call-Quiet raises (execute (statement t)) refl))
                  (report_progress-Quiet total n)))
              (for_each-Quiet behind (length txns) autos (λ n t.
                then-Quiet (call raises (autocommit t))
                  (report_progress raises fence_holds settings total n)
                  (call-Quiet raises (autocommit t) refl) (report_progress-Quiet total n))))
            (when-Quiet (is_empty autos) recording recorded))
          (when-Quiet (not (is_empty autos)) recording recorded))
        (call-Quiet raises commit refl)

  pub run_external-Quiet :
      (txns autos : List Text) → Quiet (run_external raises fence_holds settings txns autos)
  unfolding run_external
  run_external-Quiet txns autos =
      let execution : ℕ → Text → Action = λ n s. call raises (execute (statement s)) in
      let recording =
        when (is_empty autos) (record_version raises fence_holds settings settings.operation) in
      on_error-Quiet (for_each execution 0 txns then recording then call raises commit)
        (λ e. on_error (call raises rollback) (λ ignored. skip) then raise e)
        (then-Quiet (for_each execution 0 txns then recording) (call raises commit)
          (then-Quiet (for_each execution 0 txns) recording
            (for_each-Quiet execution 0 txns
              (λ n t. call-Quiet raises (execute (statement t)) refl))
            (when-Quiet (is_empty autos)
              (record_version raises fence_holds settings settings.operation)
              (record_version-Quiet settings.operation)))
          (call-Quiet raises commit refl))
        (λ e.
          then-Quiet (on_error (call raises rollback) (λ ignored. skip)) (raise e)
            (on_error-Quiet (call raises rollback) (λ ignored. skip)
              (call-Quiet raises rollback refl) (λ x. skip-Quiet))
            (raise-Quiet e))

  run_nested-Quiet :
      (has_savepoint : Bool) (total : ℕ) (txns autos : List Text)
      → Quiet (run_nested raises fence_holds settings has_savepoint total txns autos)
  unfolding run_nested
  run_nested-Quiet has_savepoint total txns autos =
      let execution : ℕ → Text → Action = λ n s.
        call raises (execute (statement s))
        then report_progress raises fence_holds settings total n in
      let recording =
        when (is_empty autos) (record_version raises fence_holds settings settings.operation) in
      on_error-Quiet
        (for_each execution 0 txns then recording then when has_savepoint (call raises release))
        (λ e. when has_savepoint (call raises rollback_to) then raise e)
        (then-Quiet (for_each execution 0 txns then recording)
          (when has_savepoint (call raises release))
          (then-Quiet (for_each execution 0 txns) recording
            (for_each-Quiet execution 0 txns (λ n t.
              then-Quiet (call raises (execute (statement t)))
                (report_progress raises fence_holds settings total n)
                (call-Quiet raises (execute (statement t)) refl) (report_progress-Quiet total n)))
            (when-Quiet (is_empty autos)
              (record_version raises fence_holds settings settings.operation)
              (record_version-Quiet settings.operation)))
          (when-Quiet has_savepoint (call raises release) (call-Quiet raises release refl)))
        (λ e.
          then-Quiet (when has_savepoint (call raises rollback_to)) (raise e)
            (when-Quiet has_savepoint (call raises rollback_to)
              (call-Quiet raises rollback_to refl))
            (raise-Quiet e))

  pub run_internal-Quiet :
      (total : ℕ) (txns autos : List Text)
      → Quiet (run_internal raises fence_holds settings total txns autos)
  unfolding run_internal Quiet
  run_internal-Quiet total txns autos calls h =
      from (call raises begin_nested calls) (call-Quiet raises begin_nested refl calls h)
    where
      from :
          (r : Outcome Raised (Unit {0}) × List Call)
          → Ends (λ l. checks_fence l ≡ false) (λ e l. checks_fence l ≡ false) r
          → Ends
              (λ l. checks_fence l ≡ false)
              (λ e l. checks_fence l ≡ false)
              (elim r.0 [
                | ok u ↦ run_nested raises fence_holds settings true total txns autos r.1
                | err e ↦ run_nested raises fence_holds settings false total txns autos r.1
              ])
      from (ok u, l) (returns _ i) = run_nested-Quiet true total txns autos l i
      from (err e, l) (throws _ _ i) = run_nested-Quiet false total txns autos l i
