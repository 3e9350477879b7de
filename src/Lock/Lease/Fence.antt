-- ===== src/Lock/Lease/Fence.antt =====
-- What `acquire` gives, whatever other processes do between its statements.
use dbwarden.Common.{
  ℕ, ◌+◌, ◌≤◌, ◌≡◌, refl, Bool, true, false, Option, none, some, List, ◌∷◌, arith, Text, any,
  text_eq, text_eq_refl, Option-cases, Bool-cases, inl, inr, subst, sym, ap, ◌∙◌,
}
use dbwarden.Lock.Lease.{
  Row, Clock, acquired, unexpired, max_token, read_status_row, lease_row, insert_lease, verify,
  acquire, not_past, fence_row, fence_check,
}
use dbwarden.Lock.Lease.Tokens.{max_token-read, read-highest, IsFresh, read-IsFresh}

pub verify-acquired :
    (now : ℕ) (e : Text) (o : Option Row) (t : ℕ)
    → verify now e o ≡ acquired t
    → (r : Row) × (o ≡ some r) × (text_eq r.execution_id e ≡ true) × (r.fencing_token ≡ t)
unfolding verify
verify-acquired now e none t h = cc
verify-acquired now e (some r) t h = elim (Bool-cases (text_eq r.execution_id e)) [
  | inl same ↦ (r, refl, same, ground arith)
  | inr other ↦ elim (Option-cases r.expires_at) [
    | inl n ↦ absurd (ground arith)
    | inr (x, n) ↦ absurd (ground arith)
  ]
]

-- The token that is read back is the highest of the table.
pub verify-max_token :
    (now : ℕ) (e : Text) (rows : List Row) (t : ℕ)
    → verify now e (read_status_row rows) ≡ acquired t
    → t ≡ max_token rows
verify-max_token now e rows t h =
    let (r, read, _, tok) = verify-acquired now e (read_status_row rows) t h in
    sym tok ∙ max_token-read rows r read

-- An execution whose id no other process writes is told that it acquired the lease only if the server
-- applied its insertion, no lease that the insertion saw was unexpired, and its token is the highest
-- of the table that is read back.
pub acquire-acquired :
    (ttl : ℕ) (clock : Clock) (applied : Bool) (e o : Text) (seen rows : List Row)
    (others : List Row → List Row) (token : ℕ)
    → IsFresh e rows
    → ((l : List Row) → IsFresh e l → IsFresh e (others l))
    → (acquire ttl clock applied e o seen rows others).1 ≡ acquired token
    → (applied ≡ true)
      × (any (unexpired clock.insertion) seen ≡ false)
      × (token ≡ max_token (acquire ttl clock applied e o seen rows others).0)
unfolding acquire insert_lease
acquire-acquired ttl clock false e o seen rows others token fresh keep h =
    let (r, read, same, _) =
      verify-acquired clock.check e (read_status_row (others rows)) token h in
    absurd (ground (arith, same, read-IsFresh e (others rows) r (keep rows fresh) read))
acquire-acquired ttl clock true e o seen rows others token fresh keep h =
    let expires = clock.start + ttl in
    elim (Bool-cases (any (unexpired clock.insertion) seen)) [
      | inl busy ↦
          let kept : insert_lease clock.insertion e o expires seen rows ≡ rows = rw busy refl in
          let h' =
            subst
              (λ (l : List Row). verify clock.check e (read_status_row (others l)) ≡ acquired token)
              kept h in
          let (r, read, same, _) =
            verify-acquired clock.check e (read_status_row (others rows)) token h' in
          absurd (ground (arith, same, read-IsFresh e (others rows) r (keep rows fresh) read))
      | inr idle ↦ (
        refl,
        idle,
        verify-max_token clock.check e (others (insert_lease clock.insertion e o expires seen rows))
            token h,
      )
    ]

-- The insertion puts a row on the table that is read back, where nothing it saw was unexpired.
insert_lease-read :
    (now : ℕ) (e o : Text) (expires : ℕ) (seen rows : List Row)
    → any (unexpired now) seen ≡ false
    → max_token rows ≤ max_token seen + 1
    → read_status_row (insert_lease now e o expires seen rows) ≡ some (lease_row e o expires seen)
unfolding insert_lease lease_row
insert_lease-read now e o expires seen rows idle h =
    rw idle (read-highest (lease_row e o expires seen) rows h)

insert_lease-idle :
    (now : ℕ) (e o : Text) (expires : ℕ) (seen rows : List Row)
    → any (unexpired now) seen ≡ false
    → insert_lease now e o expires seen rows ≡ lease_row e o expires seen ∷ rows
unfolding insert_lease
insert_lease-idle now e o expires seen rows idle = rw idle refl

max_token-added :
    (e o : Text) (expires : ℕ) (rows : List Row)
    → max_token (lease_row e o expires rows ∷ rows) ≤ max_token rows + 1
unfolding max_token lease_row
max_token-added e o expires rows = omega arith

verify-own :
    (now : ℕ) (e : Text) (r : Row)
    → text_eq r.execution_id e ≡ true
    → verify now e (some r) ≡ acquired r.fencing_token
unfolding verify
verify-own now e r h = rw h refl

-- Two executions whose insertions read the same table, in which no lease is unexpired, both acquire
-- the lease, with the same token: the first reads its row back, then the row of the second is added
-- and read back. That token passes the fence until the second lease expires, for either of them.
pub acquire-twice :
    (ttl : ℕ) (first second : Clock) (e e' o o' : Text) (rows : List Row) (now : ℕ)
    → any (unexpired first.insertion) rows ≡ false
    → any (unexpired second.insertion) rows ≡ false
    → now ≤ second.start + ttl
    → let (between, result) = acquire ttl first true e o rows rows (λ l. l) in
      let (after, result') = acquire ttl second true e' o' rows between (λ l. l) in
      (result ≡ acquired (max_token rows + 1))
      × (result' ≡ acquired (max_token rows + 1))
      × (fence_check now (max_token rows + 1) after ≡ true)
unfolding acquire fence_check fence_row not_past lease_row
acquire-twice ttl first second e e' o o' rows now idle idle' lasts =
    let x = first.start + ttl in
    let y = second.start + ttl in
    let between = insert_lease first.insertion e o x rows rows in
    let added : between ≡ lease_row e o x rows ∷ rows =
      insert_lease-idle first.insertion e o x rows rows idle in
    let read = insert_lease-read first.insertion e o x rows rows idle (omega arith) in
    let read' = insert_lease-read second.insertion e' o' y rows between idle' (
      subst (λ (l : List Row). max_token l ≤ max_token rows + 1) (sym added)
        (max_token-added e o x rows)) in
    (
      ap (verify first.check e) read
          ∙ verify-own first.check e (lease_row e o x rows) (text_eq_refl e),
      ap (verify second.check e') read'
          ∙ verify-own second.check e' (lease_row e' o' y rows) (text_eq_refl e'),
      ap (fence_row now (max_token rows + 1)) read' ∙ ground (arith, lasts),
    )
