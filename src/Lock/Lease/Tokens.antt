-- ===== src/Lock/Lease/Tokens.antt =====
-- The highest token of the table under each statement.
use Prim.Native.Nat.{max}
use dbwarden.Common.{
  ℕ, ◌≤◌, ◌≡◌, refl, false, none, some, List, [], ◌∷◌, arith, Text, All, text_eq, Option-cases, inl,
  inr, ap,
}
use dbwarden.Lock.State.{LockState}
use dbwarden.Lock.Lease.{
  Row, max_token, read_status_row, insert_lease, update_state, Mutation, set_state, set_expiry,
  advance_token, mutate,
}

pub read-none : (rows : List Row) → read_status_row rows ≡ none → rows ≡ []
unfolding read_status_row
read-none [] h = refl
read-none (r ∷ rows) h = elim (Option-cases (read_status_row rows)) [
  | inl e ↦ absurd (ground arith)
  | inr (s, e) ↦ absurd (ground arith)
]

pub max_token-read :
    (rows : List Row) (r : Row) → read_status_row rows ≡ some r → r.fencing_token ≡ max_token rows
unfolding read_status_row max_token
max_token-read [] r h = cc
max_token-read (s ∷ rows) r h = elim (Option-cases (read_status_row rows)) [
  | inl e ↦ ground (arith, read-none rows e)
  | inr (u, e) ↦ ground (arith, max_token-read rows u e)
]

-- A row that no other is above is read.
pub read-highest :
    (r : Row) (rows : List Row)
    → max_token rows ≤ r.fencing_token
    → read_status_row (r ∷ rows) ≡ some r
unfolding read_status_row
read-highest r rows h = elim (Option-cases (read_status_row rows)) [
  | inl e ↦ ground (arith, e)
  | inr (s, e) ↦ ground (arith, e, h, max_token-read rows s e)
]

pub max_token-update_state :
    (st : LockState) (rows : List Row) → max_token (update_state st rows) ≡ max_token rows
unfolding update_state max_token
max_token-update_state st [] = refl
max_token-update_state st (r ∷ rows) = ap (max r.fencing_token) (max_token-update_state st rows)

-- A mutation lowers no token.
pub token-mutate : (m : Mutation) (r : Row) → r.fencing_token ≤ (mutate m r).fencing_token
unfolding mutate
token-mutate (set_state s) r = omega arith
token-mutate (set_expiry e o t x) r = ground arith
token-mutate advance_token r = omega arith

pub max_token-insert_lease :
    (now : ℕ) (e o : Text) (expires : ℕ) (seen rows : List Row)
    → max_token rows ≤ max_token (insert_lease now e o expires seen rows)
unfolding insert_lease max_token
max_token-insert_lease now e o expires seen rows = ground arith

-- No row carries this execution id.
abbrev pub IsFresh : Text → List Row → Type 0
IsFresh e = All (λ r. text_eq r.execution_id e ≡ false)

pub read-IsFresh :
    (e : Text) (rows : List Row) (r : Row)
    → IsFresh e rows
    → read_status_row rows ≡ some r
    → text_eq r.execution_id e ≡ false
unfolding read_status_row
read-IsFresh e [] r f h = cc
read-IsFresh e (s ∷ rows) r f h = elim (Option-cases (read_status_row rows)) [
  | inl n ↦ ground (arith, f.0)
  | inr (u, n) ↦ ground (arith, f.0, read-IsFresh e rows u f.1 n)
]
