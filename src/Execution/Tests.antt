-- ===== src/Execution/Tests.antt =====
-- A migration of a table and an index that is built outside of a transaction, and the theorems at it.
use dbwarden.Common.{
  ◌≡◌, refl, Bool, true, false, Option, none, some, List, [], ◌∷◌, Text, codes, ok, err, strip,
  strip_left, strip_right, is_space, has_prefix,
}
use dbwarden.Execution.Calls.{
  statement, insert_version, Call, commit, Raised, dbapi_error, lock_error, call, for_each,
}
use dbwarden.Execution.Run.{
  mysql, clickhouse, other_dialect, upgrade, Settings, txn_statements, autocommit_statements,
  run_migration, run_statements, has_autocommit_marker, strip_autocommit_marker, behind_line,
}
use dbwarden.Execution.Rules.{Ends}
use dbwarden.Execution.Durable.{Database, after}
use dbwarden.Execution.Writes.{written}
use dbwarden.Execution.Outcome.{IsDone, IsUndone, run_migration-Ends}
use dbwarden.Execution.Repeats.{twice, run_migration-repeats}
use dbwarden.Execution.Quiet.{checks_fence}
use dbwarden.Execution.Fencing.{run_migration-fence}

abbrev two : List Text
two = codes "CREATE TABLE t" ∷ codes "-- @dbwarden:autocommit\nCREATE INDEX i" ∷ []

abbrev never : List Call → Call → Option Raised
never calls c = none

abbrev at_commit : List Call → Call → Option Raised
at_commit calls commit = some dbapi_error
at_commit calls _ = none

abbrev holds_always : List Call → Bool
holds_always calls = true

abbrev postgres : Settings
postgres = record {
  dialect = other_dialect;
  lock_timeout = true;
  optimizes = false;
  operation = upgrade;
  fencing_token = 0;
  has_callback = false;
}

abbrev on_mysql : Settings
on_mysql = record postgres { dialect = mysql; lock_timeout = false }

abbrev on_clickhouse : Settings
on_clickhouse = record postgres { dialect = clickhouse; lock_timeout = false; fencing_token = 7 }

abbrev fresh : Database
fresh = record { durable = []; pending = []; savepoint = none }

running : Unit {0}
unfolding is_space strip_left strip_right strip behind_line strip_autocommit_marker
    has_autocommit_marker txn_statements autocommit_statements call for_each run_migration
    run_statements after written checks_fence has_prefix
running = tt

-- On a connection of its own all is durable at the end.
run_own :
    (after fresh ((run_migration never holds_always postgres none false two []).1)).durable
    ≡ statement (codes "CREATE TABLE t") ∷ statement (codes "CREATE INDEX i") ∷ insert_version ∷ []
unfolding running
run_own = refl

-- On a connection of the caller the record is left in the open transaction.
run_external_left :
    (after fresh ((run_migration never holds_always postgres none true two []).1)).pending
    ≡ insert_version ∷ []
unfolding running
run_external_left = refl

-- The error of the commit is given on as a LockError, and nothing is durable.
run_fails : (run_migration at_commit holds_always postgres none true two []).0 ≡ err lock_error
unfolding running
run_fails = refl

run_mysql_twice :
    written ((run_migration never holds_always on_mysql none true two []).1)
    ≡ statement (codes "CREATE TABLE t")
      ∷ statement (codes "CREATE INDEX i")
      ∷ insert_version
      ∷ statement (codes "CREATE INDEX i")
      ∷ insert_version
      ∷ []
unfolding running
run_mysql_twice = refl

run_migration-Ends_example :
    Ends
      (IsDone never holds_always postgres fresh refl true []
        (txn_statements two)
        (autocommit_statements two))
      (IsUndone never holds_always postgres fresh refl []
        (txn_statements two)
        (autocommit_statements two))
      (run_migration never holds_always postgres none true two [])
unfolding after
run_migration-Ends_example =
    run_migration-Ends never holds_always postgres fresh refl true two [] (refl, refl)

run_migration-repeats_example :
    ((run_migration never holds_always on_mysql none true two []).0 ≡ ok tt)
    × (written ((run_migration never holds_always on_mysql none true two []).1)
        ≡ twice never holds_always on_mysql
            (λ calls c. refl)
            refl
            (txn_statements two)
            (autocommit_statements two))
run_migration-repeats_example =
    run_migration-repeats never holds_always on_mysql (λ calls c. refl) refl true two

run_migration-fence_example :
    checks_fence ((run_migration never holds_always on_clickhouse none true two []).1) ≡ false
run_migration-fence_example = run_migration-fence never holds_always on_clickhouse true two
