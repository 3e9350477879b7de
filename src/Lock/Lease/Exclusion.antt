-- ===== src/Lock/Lease/Exclusion.antt =====
-- Which fencing tokens pass the fence, however the statements of several processes come together.
use Prim.Native.Nat.{max}
use dbwarden.Common.{
  ℕ, ◌≤◌, ◌<◌, ◌≡◌, ◌≢◌, refl, true, false, none, some, List, [], ◌∷◌, ◌++◌, arith, Text, ltb,
  Option-cases, Bool-cases, inl, inr, subst, sym,
}
use dbwarden.Lock.State.{LockState, complete}
use dbwarden.Lock.Lease.{
  Row, acquired, max_token, read_status_row, insert_lease, verify, release, Mutation, mutate,
  update_state, not_past, fence_row, fence_check, is_alive,
}
use dbwarden.Lock.Lease.Tokens.{
  max_token-read, max_token-update_state, max_token-insert_lease, token-mutate, read-none,
}
use dbwarden.Lock.Lease.Fence.{verify-max_token}

-- A mutation that is applied to some of the rows so far.
pub data Mutated (m : Mutation) : List Row → List Row → Type 0 where
  no_rows : Mutated m [] []
  waits :
      (r : Row) {rows rows' : List Row} → Mutated m rows rows' → Mutated m (r ∷ rows) (r ∷ rows')
  applies :
      (r : Row) {rows rows' : List Row}
      → Mutated m rows rows'
      → Mutated m (r ∷ rows) (mutate m r ∷ rows')

-- What may happen to the table next: an insertion adds its row, if the table that it read lets it; some
-- rows get a mutation that a process has sent; or the engine merges a row away that is not above all
-- others. Reading back is no step, since it leaves the table as it is.
pub data Step (rows : List Row) : List Row → Type 0 where
  inserting :
      (now : ℕ) (e o : Text) (expires : ℕ) (seen : List Row)
      → Step rows (insert_lease now e o expires seen rows)
  mutating : {rows' : List Row} (m : Mutation) → Mutated m rows rows' → Step rows rows'
  merging :
      (front : List Row) (r : Row) (back : List Row)
      → rows ≡ front ++ r ∷ back
      → r.fencing_token ≤ max_token (front ++ back)
      → Step rows (front ++ back)

pub data Reach (rows : List Row) : List Row → Type 0 where
  at_start : Reach rows rows
  next : {u v : List Row} → Reach rows u → Step u v → Reach rows v

max_token-Mutated :
    {m : Mutation} {rows rows' : List Row} → Mutated m rows rows' → max_token rows ≤ max_token rows'
unfolding max_token
max_token-Mutated no_rows = omega arith
max_token-Mutated (waits r s) = omega (arith, max_token-Mutated s)
max_token-Mutated {m} (applies r s) = omega (arith, max_token-Mutated s, token-mutate m r)

max_token-append :
    (front back : List Row) → max_token (front ++ back) ≡ max (max_token front) (max_token back)
unfolding max_token
max_token-append [] back = omega arith
max_token-append (r ∷ front) back = omega (arith, max_token-append front back)

max_token-merged :
    (front : List Row) (r : Row) (back : List Row)
    → r.fencing_token ≤ max_token (front ++ back)
    → max_token (front ++ r ∷ back) ≤ max_token (front ++ back)
unfolding max_token
max_token-merged front r back h =
    omega (arith, h, max_token-append front back, max_token-append front (r ∷ back))

max_token-Step : {rows rows' : List Row} → Step rows rows' → max_token rows ≤ max_token rows'
max_token-Step {rows} (inserting now e o expires seen) =
    max_token-insert_lease now e o expires seen rows
max_token-Step (mutating m s) = max_token-Mutated s
max_token-Step (merging front r back same h) =
    subst (λ (l : List Row). max_token l ≤ max_token (front ++ back)) (sym same)
      (max_token-merged front r back h)

max_token-Reach : {rows rows' : List Row} → Reach rows rows' → max_token rows ≤ max_token rows'
max_token-Reach at_start = omega arith
max_token-Reach (next r s) = omega (arith, max_token-Reach r, max_token-Step s)

fence_check-token :
    (now token : ℕ) (rows : List Row) → fence_check now token rows ≡ true → token ≡ max_token rows
unfolding fence_check fence_row
fence_check-token now token rows h = elim (Option-cases (read_status_row rows)) [
  | inl e ↦ absurd (ground arith)
  | inr (r, e) ↦ ground (arith, max_token-read rows r e)
]

-- When one execution reads back that it acquired the lease and a later reading back gives another
-- token, then that token is greater, and the earlier one never passes `fence_check` again, whatever the
-- clock says: whatever insertions read, whenever their rows and the mutations are applied, row by row,
-- and rows are merged.
pub fence_check-latest :
    (now now' time : ℕ) (e e' : Text) (rows rows' later : List Row) (token token' : ℕ)
    → verify now e (read_status_row rows) ≡ acquired token
    → Reach rows rows'
    → verify now' e' (read_status_row rows') ≡ acquired token'
    → token ≢ token'
    → Reach rows' later
    → (token < token') × (fence_check time token later ≡ false)
fence_check-latest now now' time e e' rows rows' later token token' h r h' other r' =
    let top : token ≡ max_token rows = verify-max_token now e rows token h in
    let top' : token' ≡ max_token rows' = verify-max_token now' e' rows' token' h' in
    let less : token < token' =
      below token token' other (omega (arith, top, top', max_token-Reach r)) in
    (
      less,
      elim (Bool-cases (fence_check time token later)) [
        | inl p ↦
            absurd
              (omega (arith, fence_check-token time token later p, top', less, max_token-Reach r'))
        | inr p ↦ p
      ],
    )
  where
    below : (m n : ℕ) → m ≢ n → m ≤ n → m < n
    below m n h k = elim (Bool-cases (ltb m n)) [
      | inl j ↦ ground (arith, j)
      | inr j ↦ absurd (h (ground (arith, j, k)))
    ]

read-update_state :
    (s : LockState) (rows : List Row) (r : Row)
    → read_status_row (update_state s rows) ≡ some r
    → r.expires_at ≡ none
unfolding read_status_row update_state
read-update_state s [] r h = cc
read-update_state s (x ∷ rows) r h = elim (Option-cases (read_status_row (update_state s rows))) [
  | inl e ↦ ground arith
  | inr (u, e) ↦ ground (arith, read-update_state s rows u e)
]

update_state-nil : (s : LockState) (rows : List Row) → update_state s rows ≡ [] → rows ≡ []
unfolding update_state
update_state-nil s [] h = refl
update_state-nil s (r ∷ rows) h = cc

-- A `release` that does not raise clears the expiry of every row once its mutation is applied: whoever
-- has the highest token passes the fence at any time after it, also when its lease had run out, and
-- `is_alive` says that a released lease is alive.
pub fence_check-release :
    (now : ℕ) (rows : List Row)
    → rows ≢ []
    → (fence_check now (max_token rows) (release false rows) ≡ true)
      × (is_alive now (release false rows) ≡ true)
unfolding fence_check fence_row is_alive release not_past
fence_check-release now rows h =
    elim (Option-cases (read_status_row (update_state complete rows))) [
      | inl e ↦
          absurd (h (update_state-nil complete rows (read-none (update_state complete rows) e)))
      | inr (r, e) ↦
          let unlimited = read-update_state complete rows r e in
          let top = max_token-read (update_state complete rows) r e in
          (ground (arith, max_token-update_state complete rows), ground arith)
    ]
