-- ===== src/Execution/Repeats.antt =====
-- What a run of a migration writes on MySQL, when no call raises.
use dbwarden.Common.{
  ℕ, ◌≡◌, refl, Bool, true, false, Option, none, List, [], ◌∷◌, ◌++◌, not, map, length,
  if◌then◌else◌, Text, ok, ap, subst, append_assoc, append-nil,
}
use dbwarden.Execution.Calls.{
  Effect, statement, Call, execute, autocommit, open_connection, set_timeout, commit, rollback,
  Raised, Action, skip, raise, ◌then◌, when, on_error, call, for_each,
}
use dbwarden.Execution.Run.{
  mysql, is_mysql, is_clickhouse, Settings, is_empty, txn_statements, autocommit_statements,
  record_version, report_progress, check_fence, run_mysql, abort, run_on_connection,
  with_connection, run_migration, run_statements,
}
use dbwarden.Execution.Steps.{records}
use dbwarden.Execution.Writes.{
  written, Writes, recorded_if, all_of, skip-Writes, then-Writes, on_error-Writes, for_each-Writes,
  Writes-written, call-Writes, when_silent-Writes, record_version-Writes, reported-Writes,
  record_if-Writes,
}

module _ (raises : List Call → Call → Option Raised) (fence_holds : List Call → Bool)
    (settings : Settings) (none_raises : (calls : List Call) (c : Call) → raises calls c ≡ none)
    (is : settings.dialect ≡ mysql) where
  run_mysql-Writes :
      (total : ℕ) (txns autos : List Text)
      → Writes
          (run_mysql raises fence_holds settings total txns autos)
          (all_of raises fence_holds settings none_raises txns autos)
  unfolding run_mysql check_fence
  run_mysql-Writes total txns autos = rw (ap is_clickhouse is) (
      let report = report_progress raises fence_holds settings total in
      let execution : ℕ → Text → Action =
        λ n s. skip then call raises (execute (statement s)) then report n in
      let behind : ℕ → Text → Action = λ n s. call raises (autocommit s) then report n in
      let record_if =
        λ (b : Bool). when b (record_version raises fence_holds settings settings.operation) in
      let A = map statement txns in
      let B = map statement autos in
      let R = recorded_if raises fence_holds settings none_raises (is_empty autos) in
      let S = recorded_if raises fence_holds settings none_raises (not (is_empty autos)) in
      let first = for_each execution 0 txns in
      let second = for_each behind (length txns) autos in
      let third = record_if (is_empty autos) in
      let fourth = record_if (not (is_empty autos)) in
      then-Writes (first then second then third then fourth) (call raises commit)
        (((A ++ B) ++ R) ++ S) []
        (then-Writes (first then second then third) fourth ((A ++ B) ++ R) S
          (then-Writes (first then second) third (A ++ B) R
            (then-Writes first second A B
              (for_each-Writes execution 0 txns (λ n t.
                reported-Writes raises fence_holds settings none_raises (execute (statement t))
                  total n))
              (for_each-Writes behind (length txns) autos (λ n t.
                reported-Writes raises fence_holds settings none_raises (autocommit t) total n)))
            (record_if-Writes raises fence_holds settings none_raises (is_empty autos)))
          (record_if-Writes raises fence_holds settings none_raises (not (is_empty autos))))
        (call-Writes raises fence_holds settings none_raises commit))

  run_on_connection-Writes :
      (is_external : Bool) (total : ℕ) (txns autos : List Text)
      → Writes
          (run_on_connection raises fence_holds settings is_external total txns autos)
          (all_of raises fence_holds settings none_raises txns autos)
  unfolding run_on_connection
  run_on_connection-Writes is_external total txns autos = rw (ap is_mysql is) (
      then-Writes (when settings.lock_timeout (call raises set_timeout))
        (on_error (run_mysql raises fence_holds settings total txns autos)
          (abort raises fence_holds settings))
        [] (all_of raises fence_holds settings none_raises txns autos)
        (when_silent-Writes raises fence_holds settings none_raises settings.lock_timeout
          set_timeout refl)
        (on_error-Writes (run_mysql raises fence_holds settings total txns autos)
          (abort raises fence_holds settings)
          (all_of raises fence_holds settings none_raises txns autos)
          (run_mysql-Writes total txns autos)))

  with_connection-Writes :
      (body : Action) (es : List Effect)
      → Writes body es
      → Writes (with_connection raises fence_holds settings body) es
  unfolding with_connection
  with_connection-Writes body es f = rw (ap is_clickhouse is) (
      let guarded = on_error body (λ e. on_error (call raises rollback) raise then raise e) in
      then-Writes (call raises open_connection) (guarded then call raises commit) [] es
        (call-Writes raises fence_holds settings none_raises open_connection)
        (subst (Writes (guarded then call raises commit)) (append-nil es) (
          then-Writes guarded (call raises commit) es []
            (on_error-Writes body (λ e. on_error (call raises rollback) raise then raise e) es f)
            (call-Writes raises fence_holds settings none_raises commit))))

  -- The first part of the run, and the last one.
  main-Writes :
      (has_connection : Bool) (total : ℕ) (txns autos : List Text)
      → Writes
          (if has_connection
            then run_on_connection raises fence_holds settings true total txns autos
            else with_connection raises fence_holds settings
                (run_on_connection raises fence_holds settings false total txns autos))
          (all_of raises fence_holds settings none_raises txns autos)
  main-Writes true total txns autos = run_on_connection-Writes true total txns autos
  main-Writes false total txns autos =
      with_connection-Writes (run_on_connection raises fence_holds settings false total txns autos)
        (all_of raises fence_holds settings none_raises txns autos)
        (run_on_connection-Writes false total txns autos)

  last-Writes :
      (has_connection b : Bool)
      → Writes
          (when b (
            if has_connection
            then record_version raises fence_holds settings settings.operation
            else with_connection raises fence_holds settings
                (record_version raises fence_holds settings settings.operation)))
          (recorded_if raises fence_holds settings none_raises b)
  last-Writes has_connection false = skip-Writes
  last-Writes true true =
      record_version-Writes raises fence_holds settings none_raises settings.operation
  last-Writes false true =
      with_connection-Writes (record_version raises fence_holds settings settings.operation)
        (records settings settings.operation)
        (record_version-Writes raises fence_holds settings none_raises settings.operation)

  -- The statements, the autocommit statements and the record; then, if there are autocommit
  -- statements, these and the record once more.
  abbrev pub twice : List Text → List Text → List Effect
  twice txns autos =
      let end = map statement autos ++ records settings settings.operation in
      (map statement txns ++ end) ++ (if is_empty autos then [] else end)

  same_effects :
      (txns autos : List Text)
      → all_of raises fence_holds settings none_raises txns autos
          ++ (map statement autos
              ++ recorded_if raises fence_holds settings none_raises (not (is_empty autos)))
        ≡ twice txns autos
  same_effects txns [] = simp append-nil
  same_effects txns (t ∷ ts) = simp (append-nil, append_assoc)

  -- On MySQL, when no call raises, a run of a migration without a data plan returns and has written,
  -- in order, the statements of the transaction, the autocommit statements and the record of the
  -- version, and then, if there are autocommit statements, all of these and the record a second time.
  pub run_migration-repeats :
      (has_connection : Bool) (sqls : List Text)
      → ((run_migration raises fence_holds settings none has_connection sqls []).0 ≡ ok tt)
        × (written ((run_migration raises fence_holds settings none has_connection sqls []).1)
            ≡ twice (txn_statements sqls) (autocommit_statements sqls))
  unfolding run_migration run_statements
  run_migration-repeats has_connection sqls =
      let txns = txn_statements sqls in
      let autos = autocommit_statements sqls in
      let behind : ℕ → Text → Action = λ n s. call raises (autocommit s) in
      let main =
        if has_connection
        then run_on_connection raises fence_holds settings true (length sqls) txns autos
        else with_connection raises fence_holds settings
            (run_on_connection raises fence_holds settings false (length sqls) txns autos) in
      let last = when (not (is_empty autos)) (
        if has_connection
        then record_version raises fence_holds settings settings.operation
        else with_connection raises fence_holds settings
            (record_version raises fence_holds settings settings.operation)) in
      Writes-written (main then (for_each behind 0 autos then last)) (twice txns autos) (
        subst (Writes (main then (for_each behind 0 autos then last))) (same_effects txns autos) (
          then-Writes main (for_each behind 0 autos then last)
            (all_of raises fence_holds settings none_raises txns autos)
            (map statement autos
              ++ recorded_if raises fence_holds settings none_raises (not (is_empty autos)))
            (main-Writes has_connection (length sqls) txns autos)
            (then-Writes (for_each behind 0 autos) last (map statement autos)
              (recorded_if raises fence_holds settings none_raises (not (is_empty autos)))
              (for_each-Writes behind 0 autos
                (λ n t. call-Writes raises fence_holds settings none_raises (autocommit t)))
              (last-Writes has_connection (not (is_empty autos))))))
