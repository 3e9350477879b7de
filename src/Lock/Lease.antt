-- ===== src/Lock/Lease.antt =====
-- The ClickHouse lease of dbwarden/lock/clickhouse.py, over the statements of
-- dbwarden/lock/table.py.
--
-- The table is the rows of one namespace, several while the engine has not merged them; a read with
-- FINAL on the ReplacingMergeTree table gives the row of the highest token, of equal ones the row that
-- was added last. A plain MergeTree table of an older version, which is read with argMax, is not
-- modelled. An insertion is not atomic: its subqueries read a table of their own. A mutation (ALTER
-- TABLE UPDATE) is applied row by row at any later time; `update_state` and `release` give the table
-- in which it is applied to all rows. Times are seconds of the server's clock, the resolution of a
-- DateTime, so that comparing them as numbers is comparing them as the text of `str(now)`. The entries
-- that are only stored and shown (version, checksum, host, process) are left out.
mod Tokens
pub mod Fence
pub mod Exclusion
use dbwarden.Common.{
  ℕ, zero, suc, ◌+◌, Bool, true, false, Option, none, some, List, [], ◌∷◌, ◌++◌, ◌&&◌, ◌||◌, not,
  map, ltb, leb, ◌==◌, if◌then◌else◌, Text, text_eq, any,
}
use dbwarden.Lock.State.{LockState, available, running, complete}
use Prim.Native.Nat.{max}

pub record Row : Type 0 where
  pub execution_id : Text
  pub owner_id : Text
  pub fencing_token : ℕ
  pub state : LockState
  pub expires_at : Option ℕ

-- `expires_at > now()`, which NULL never is
unfoldable pub unexpired : ℕ → Row → Bool
unexpired now r = elim r.expires_at [ none ↦ false | some e ↦ ltb now e ]

-- `ifNull((SELECT max(fencing_token) …), 0)`
unfoldable pub max_token : List Row → ℕ
max_token [] = 0
max_token (r ∷ rows) = max r.fencing_token (max_token rows)

-- `read_status_row`
unfoldable pub read_status_row : List Row → Option Row
read_status_row [] = none
read_status_row (r ∷ rows) = elim (read_status_row rows) [
  | none ↦ some r
  | some s ↦ if ltb r.fencing_token s.fencing_token then some s else some r
]

-- The row of a new lease, for the table that the subquery reads.
unfoldable pub lease_row : Text → Text → ℕ → List Row → Row
lease_row execution_id owner_id expires seen = record {
  execution_id = execution_id;
  owner_id = owner_id;
  fencing_token = max_token seen + 1;
  state = running;
  expires_at = some expires;
}

-- The `INSERT … SELECT … WHERE NOT EXISTS` of `acquire`, which reads the table `seen` at the time `now`
-- and adds its row to the table `rows`.
unfoldable pub insert_lease : ℕ → Text → Text → ℕ → List Row → List Row → List Row
insert_lease now execution_id owner_id expires seen rows =
    if any (unexpired now) seen then rows else lease_row execution_id owner_id expires seen ∷ rows

pub data AcquireResult : Type 0 where
  acquired : ℕ → AcquireResult
  held_by : Row → AcquireResult
  not_verified : AcquireResult

-- The row read back after the insertion, at the time `now`.
unfoldable pub verify : ℕ → Text → Option Row → AcquireResult
verify now execution_id none = not_verified
verify now execution_id (some r) =
    if text_eq r.execution_id execution_id then acquired r.fencing_token else elim r.expires_at [
      | none ↦ not_verified
      | some e ↦ if leb now e then held_by r else not_verified
    ]

-- The readings of the server's clock by the statements of `acquire`, in order.
pub record Clock : Type 0 where
  pub start : ℕ
  pub insertion : ℕ
  pub check : ℕ

-- `acquire`, with the table that it reads back. The insertion reads `seen` and adds its row to `rows`,
-- and `others` is what the other processes do to the table until it is read back. `applied` tells
-- whether the server applies the insertion: an exception, raised before that or behind it, is passed
-- over.
unfoldable pub acquire :
    ℕ
    → Clock
    → Bool
    → Text
    → Text
    → List Row
    → List Row
    → (List Row → List Row)
    → List Row × AcquireResult
acquire ttl clock applied execution_id owner_id seen rows others =
    let rows' = others (
      if applied
      then insert_lease clock.insertion execution_id owner_id (clock.start + ttl) seen rows
      else rows) in
    (rows', verify clock.check execution_id (read_status_row rows'))

-- The mutations of the table: the state is set and the expiry cleared; the expiry is set in the rows
-- of one holder; the tokens are advanced.
pub data Mutation : Type 0 where
  set_state : LockState → Mutation
  set_expiry : Text → Text → ℕ → ℕ → Mutation
  advance_token : Mutation

-- What a mutation does to a row.
unfoldable pub mutate : Mutation → Row → Row
mutate (set_state s) r = record r { state = s; expires_at = none }
mutate (set_expiry execution_id owner_id token expires) r =
    if text_eq r.execution_id execution_id
      && text_eq r.owner_id owner_id
      && r.fencing_token == token
    then record r { expires_at = some expires }
    else r
mutate advance_token r = record r { fencing_token = r.fencing_token + 1 }

-- `update_state`
unfoldable pub update_state : LockState → List Row → List Row
unfolding mutate
update_state s [] = []
update_state s (r ∷ rows) = mutate (set_state s) r ∷ update_state s rows

-- `update_heartbeat`: the mutation that it sends.
unfoldable pub update_heartbeat : ℕ → ℕ → Text → Text → ℕ → Mutation
update_heartbeat now ttl execution_id owner_id token =
    set_expiry execution_id owner_id token (now + ttl)

-- `release`; `raises` tells whether the mutation was refused, which is only logged.
unfoldable pub release : Bool → List Row → List Row
release raises rows = if raises then rows else update_state complete rows

-- `now <= expires_at`, or no expiry
unfoldable pub not_past : ℕ → Row → Bool
not_past now r = elim r.expires_at [ none ↦ true | some e ↦ leb now e ]

unfoldable pub fence_row : ℕ → ℕ → Option Row → Bool
fence_row now token none = false
fence_row now token (some r) = r.fencing_token == token && not_past now r

unfoldable pub fence_check : ℕ → ℕ → List Row → Bool
fence_check now token rows = fence_row now token (read_status_row rows)

-- `is_alive`; `describe_holder` returns a holder in the same cases.
unfoldable pub is_alive : ℕ → List Row → Bool
is_alive now rows = elim (read_status_row rows) [ none ↦ false | some r ↦ not_past now r ]

-- The ClickHouse branch of `terminate_holder`: the mutations that it sends one after the other, by the
-- table it reads; an exception of the first is only logged.
unfoldable pub terminate_holder : ℕ → List Row → List Mutation
terminate_holder now rows =
    if not (is_alive now rows) then [] else advance_token ∷ set_state available ∷ []
