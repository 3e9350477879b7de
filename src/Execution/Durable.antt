-- ===== src/Execution/Durable.antt =====
-- A database with transactions: which effects are durable after a list of calls.
use dbwarden.Common.{◌≡◌, refl, Option, none, some, List, [], ◌∷◌, ◌++◌}
use dbwarden.Execution.Calls.{
  Effect, statement, Call, execute, autocommit, open_connection, set_timeout, begin_nested, release,
  rollback_to, commit, rollback, fence_check, progress,
}

-- The durable effects, those of the open transaction, and those in front of its savepoint.
pub record Database : Type 0 where
  pub durable : List Effect
  pub pending : List Effect
  pub savepoint : Option (List Effect)

abbrev or_else : Option (List Effect) → List Effect → List Effect
or_else none es = es
or_else (some saved) es = saved

-- An autocommit statement has a connection of its own.
abbrev pub perform : Database → Call → Database
perform db (execute e) = record db { pending = db.pending ++ e ∷ [] }
perform db (autocommit t) = record db { durable = db.durable ++ statement t ∷ [] }
perform db open_connection = record db { pending = []; savepoint = none }
perform db set_timeout = db
perform db begin_nested = record db { savepoint = some db.pending }
perform db release = record db { savepoint = none }
perform db rollback_to = record db { pending = or_else db.savepoint db.pending }
perform db commit = record db { durable = db.durable ++ db.pending; pending = []; savepoint = none }
perform db rollback = record db { pending = []; savepoint = none }
perform db fence_check = db
perform db (progress n total) = db

unfoldable pub after : Database → List Call → Database
after db [] = db
after db (c ∷ calls) = after (perform db c) calls

pub after-last :
    (db : Database) (calls : List Call) (c : Call)
    → after db (calls ++ c ∷ []) ≡ perform (after db calls) c
unfolding after
after-last db [] c = refl
after-last db (d ∷ calls) c = after-last (perform db d) calls c
