-- ===== src/Execution/Run.antt =====
-- `run_migration` of dbwarden/repositories/migrations_repo.py.
--
-- The texts and parameters of the statements that record a version are left out, and so is the
-- logging. `raises` says which calls raise, `fence_holds` what the check of the fencing token gives.
use dbwarden.Common.{
  ℕ, Bool, true, false, Option, none, some, List, [], ◌∷◌, ◌&&◌, ◌==◌, not, ltb, length,
  if◌then◌else◌, Text, strip, has_prefix, ok, err,
}
use dbwarden.Sql.Files.{autocommit_marker}
use dbwarden.Execution.Calls.{
  statement, insert_version, delete_version, optimize_table, Call, execute, autocommit,
  open_connection, set_timeout, begin_nested, release, rollback_to, commit, rollback, fence_check,
  progress, Raised, dbapi_error, lock_error, other_error, Action, skip, raise, ◌then◌, when,
  on_error, call, for_each,
}

unfoldable pub has_autocommit_marker : Text → Bool
has_autocommit_marker s = has_prefix autocommit_marker (strip s)

-- `statement.split("\n", 1)[1]`, or nothing without a line break
unfoldable pub behind_line : Text → Text
behind_line [] = []
behind_line (c ∷ t) = let rest = behind_line t in if c == 10 then t else rest

unfoldable pub strip_autocommit_marker : Text → Text
unfolding behind_line
strip_autocommit_marker s = strip (behind_line s)

unfoldable pub txn_statements : List Text → List Text
txn_statements [] = []
txn_statements (s ∷ ss) =
    let rest = txn_statements ss in if has_autocommit_marker s then rest else s ∷ rest

unfoldable pub autocommit_statements : List Text → List Text
unfolding strip_autocommit_marker
autocommit_statements [] = []
autocommit_statements (s ∷ ss) =
    let rest = autocommit_statements ss in
    if has_autocommit_marker s then strip_autocommit_marker s ∷ rest else rest

abbrev pub is_empty : List Text → Bool
is_empty [] = true
is_empty (t ∷ ts) = false

pub data Dialect : Type 0 where
  mysql clickhouse other_dialect : Dialect

abbrev pub is_mysql : Dialect → Bool
is_mysql mysql = true
is_mysql _ = false

abbrev pub is_clickhouse : Dialect → Bool
is_clickhouse clickhouse = true
is_clickhouse _ = false

pub data Operation : Type 0 where
  upgrade downgrade other_operation : Operation

-- What the configuration says, and the arguments that the calls depend on.
pub record Settings : Type 0 where
  pub dialect : Dialect
  pub lock_timeout : Bool
  pub optimizes : Bool
  pub operation : Operation
  pub fencing_token : ℕ
  pub has_callback : Bool

-- What the branch of a data plan reads: if the type of the migration allows one, if it has
-- `data_execution`, and how many statements that has for the operation, if it has an entry for it.
-- `execute_bundle` is `execute_migration_bundle` of dbwarden/data/integration.py, for what it calls in
-- front of each statement and behind the n-th.
pub record DataPlan : Type 0 where
  pub fits_type : Bool
  pub has_execution : Bool
  pub total : Option ℕ
  pub execute_bundle : Action → (ℕ → Action) → Action

module _ (raises : List Call → Call → Option Raised) (fence_holds : List Call → Bool)
    (settings : Settings) where
  -- The statements that `INSERT_VERSION`, or `DELETE_VERSION` and `OPTIMIZE_MIGRATIONS_TABLE`, name.
  unfoldable pub record_version : Operation → Action
  record_version upgrade = call raises (execute insert_version)
  record_version downgrade =
      call raises (execute delete_version)
      then when settings.optimizes (call raises (execute optimize_table))
  record_version other_operation = skip

  unfoldable pub report_progress : ℕ → ℕ → Action
  report_progress total n = when settings.has_callback (call raises (progress n total))

  -- The check in front of a statement.
  unfoldable pub check_fence : Action
  check_fence = when (is_clickhouse settings.dialect && ltb 0 settings.fencing_token) (
      call raises fence_check
      then (λ calls. when (not (fence_holds calls)) (raise lock_error) calls))

  -- The branch for MySQL.
  unfoldable pub run_mysql : ℕ → List Text → List Text → Action
  unfolding check_fence report_progress record_version
  run_mysql total txns autos =
      for_each
        (λ n s. check_fence then call raises (execute (statement s)) then report_progress total n) 0
        txns
      then for_each (λ n s. call raises (autocommit s) then report_progress total n) (length txns)
          autos
      then when (is_empty autos) (record_version settings.operation)
      then when (not (is_empty autos)) (record_version settings.operation)
      then call raises commit

  -- The branch for a connection of the caller.
  unfoldable pub run_external : List Text → List Text → Action
  unfolding record_version
  run_external txns autos =
      on_error
        (for_each (λ n s. call raises (execute (statement s))) 0 txns
          then when (is_empty autos) (record_version settings.operation)
          then call raises commit)
        (λ e. on_error (call raises rollback) (λ ignored. skip) then raise e)

  -- The branch for a connection of its own, behind the savepoint.
  unfoldable pub run_nested : Bool → ℕ → List Text → List Text → Action
  unfolding report_progress record_version
  run_nested has_savepoint total txns autos =
      on_error
        (for_each (λ n s. call raises (execute (statement s)) then report_progress total n) 0 txns
          then when (is_empty autos) (record_version settings.operation)
          then when has_savepoint (call raises release))
        (λ e. when has_savepoint (call raises rollback_to) then raise e)

  unfoldable pub run_internal : ℕ → List Text → List Text → Action
  unfolding run_nested
  run_internal total txns autos calls =
      let (result, calls') = call raises begin_nested calls in
      elim result [
        | ok u ↦ run_nested true total txns autos calls'
        | err e ↦ run_nested false total txns autos calls'
      ]

  -- An error of the driver becomes a LockError.
  abbrev pub abort : Raised → Action
  abort dbapi_error = raise lock_error
  abort lock_error = raise lock_error
  abort other_error = raise other_error

  -- `_run_on_connection`
  unfoldable pub run_on_connection : Bool → ℕ → List Text → List Text → Action
  unfolding run_mysql run_external run_internal
  run_on_connection is_external total txns autos =
      when settings.lock_timeout (call raises set_timeout)
      then on_error
          (if is_mysql settings.dialect
            then run_mysql total txns autos
            else if is_external
            then run_external txns autos
            else run_internal total txns autos)
          abort

  -- `with get_db_connection(db_name) as conn:` over a body
  unfoldable pub with_connection : Action → Action
  with_connection body =
      call raises open_connection
      then (if is_clickhouse settings.dialect
          then body
          else (on_error body (λ e. on_error (call raises rollback) raise then raise e)
              then call raises commit))

  -- The function without a data plan, with a connection of the caller or without one.
  unfoldable pub run_statements : Bool → List Text → Action
  unfolding run_on_connection with_connection txn_statements autocommit_statements
  run_statements has_connection sql_statements =
      let txns = txn_statements sql_statements in
      let autos = autocommit_statements sql_statements in
      let total = length sql_statements in
      (if has_connection
        then run_on_connection true total txns autos
        else with_connection (run_on_connection false total txns autos))
      then (for_each (λ n s. call raises (autocommit s)) 0 autos
          then when (not (is_empty autos)) (
              if has_connection
              then record_version settings.operation
              else with_connection (record_version settings.operation)))

  -- `run_data`: the check of the fence is its `before_statement`, the report its `after_statement`.
  unfoldable pub run_data : DataPlan → Action
  unfolding check_fence report_progress
  run_data plan =
      when settings.lock_timeout (call raises set_timeout)
      then (if plan.has_execution
          then elim plan.total [
            | none ↦ raise other_error
            | some total ↦ plan.execute_bundle check_fence (report_progress total)
          ]
          else raise other_error)

  -- The function, for the data plan that `load_data_plan` finds.
  unfoldable pub run_migration : Option DataPlan → Bool → List Text → Action
  unfolding run_statements run_data
  run_migration none has_connection sql_statements = run_statements has_connection sql_statements
  run_migration (some plan) has_connection sql_statements =
      if plan.fits_type
      then (if has_connection then run_data plan else with_connection (run_data plan))
      else raise other_error
