-- ===== src/Lock/Tests.antt =====
-- Small runs of the lock, and the theorems at these inputs.
use dbwarden.Common.{
  ℕ, ◌<◌, ◌≡◌, ◌↔◌, refl, Bool, true, false, Option, none, some, List, [], ◌∷◌, ◌⊎◌, arith, Text,
  text_eq, codes, any,
}
use dbwarden.Lock.State.{running, complete, dead, inspecting, needs_review, validate_transition}
use dbwarden.Lock.Transitions.{Run, here, step}
use dbwarden.Lock.Recovery.{
  Status, inspection, apply_recovery_policy, apply_recovery_policy-inspection,
}
use dbwarden.Lock.Heartbeat.{started, run, has_streak, run-fatal}
use dbwarden.Lock.Lease.{
  Row, unexpired, max_token, read_status_row, lease_row, insert_lease, acquired, verify, Clock,
  acquire, set_state, mutate, update_state, release, not_past, fence_row, fence_check, is_alive,
}
use dbwarden.Lock.Lease.Fence.{acquire-acquired, acquire-twice}
use dbwarden.Lock.Lease.Exclusion.{
  fence_check-latest, fence_check-release, no_rows, applies, inserting, mutating, Reach, at_start,
  next,
}

valid : Unit {0}
unfolding validate_transition
valid = tt

-- DEAD, INSPECTING, RUNNING
recovered : Run dead running
unfolding valid
recovered = step {t = inspecting} (step here refl) refl

-- A clock text that stands for its own length.
abbrev clock_text : Text → Option ℕ
clock_text [] = none
clock_text (c ∷ t) = some c

abbrev predecessor : Status
predecessor = record {
  state = codes "DEAD";
  execution_id = codes "e1";
  migration_version = some (codes "0007");
  migration_checksum = some (codes "abc");
}

abbrev resume : Text
resume = codes "resume_idempotent"

apply_recovery_policy-inspection_example :
    (validate_transition inspecting
        (apply_recovery_policy (inspection predecessor (some (codes "abc"))) resume)
      ≡ true)
    × ((apply_recovery_policy (inspection predecessor (some (codes "abc"))) resume ≡ running)
        ⊎ (apply_recovery_policy (inspection predecessor (some (codes "abc"))) resume
            ≡ needs_review))
    × ((apply_recovery_policy (inspection predecessor (some (codes "abc"))) resume ≡ running) ↔ (
        (resume ≡ codes "force")
        ⊎ (resume ≡ codes "resume_idempotent")
          × ((c : Text) × (predecessor.migration_checksum ≡ some c)
              × (some (codes "abc") ≡ some c))))
apply_recovery_policy-inspection_example =
    apply_recovery_policy-inspection predecessor (some (codes "abc")) resume

-- Two failures, a success, a failure.
abbrev beats : List Bool
beats = false ∷ false ∷ true ∷ false ∷ []

run-fatal_example : (run 2 started beats).fatal ≡ has_streak 2 beats
run-fatal_example = run-fatal 2 beats (omega arith)

leasing : Unit {0}
unfolding text_eq unexpired max_token read_status_row insert_lease verify acquire update_state
    release not_past fence_row fence_check is_alive lease_row mutate
leasing = tt

abbrev clock_at : ℕ → Clock
clock_at t = record { start = t; insertion = t; check = t }

abbrev leased : Text → ℕ → Row
leased e t = record {
  execution_id = e;
  owner_id = codes "host";
  fencing_token = t;
  state = running;
  expires_at = some 70;
}

abbrev alone : List Row → List Row
alone rows = rows

abbrev e1 : Text
e1 = codes "e1"

abbrev e2 : Text
e2 = codes "e2"

abbrev host : Text
host = codes "host"

taken : (acquire 60 (clock_at 10) true e1 host [] [] alone).1 ≡ acquired 1
unfolding leasing
taken = refl

acquire-acquired_example :
    (true ≡ true)
    × (any (unexpired 10) [] ≡ false)
    × (1 ≡ max_token (acquire 60 (clock_at 10) true e1 host [] [] alone).0)
acquire-acquired_example =
    acquire-acquired 60 (clock_at 10) true e1 host [] [] alone 1 tt (λ l h. h) taken

acquire-twice_example :
    let (between, result) = acquire 60 (clock_at 10) true e1 host [] [] (λ l. l) in
    let (after, result') = acquire 60 (clock_at 11) true e2 host [] between (λ l. l) in
    (result ≡ acquired 1) × (result' ≡ acquired 1) × (fence_check 20 1 after ≡ true)
unfolding leasing
acquire-twice_example =
    acquire-twice 60 (clock_at 10) (clock_at 11) e1 e2 host host [] 20 refl refl (omega arith)

-- One execution acquires the lease and releases it, then another acquires it.
abbrev one_row : List Row
one_row = leased e1 1 ∷ []

abbrev two_rows : List Row
two_rows =
    record {
      execution_id = e2;
      owner_id = host;
      fencing_token = 2;
      state = running;
      expires_at = some 90;
    }
    ∷ record {
      execution_id = e1;
      owner_id = host;
      fencing_token = 1;
      state = complete;
      expires_at = none;
    }
    ∷ []

two_holders : Reach one_row two_rows
unfolding leasing
two_holders =
    next (next at_start (mutating (set_state complete) (applies (leased e1 1) no_rows)))
      (inserting 30 e2 host 90 (mutate (set_state complete) (leased e1 1) ∷ []))

first_read : verify 10 e1 (read_status_row one_row) ≡ acquired 1
unfolding leasing
first_read = refl

second_read : verify 30 e2 (read_status_row two_rows) ≡ acquired 2
unfolding leasing
second_read = refl

fence_check-latest_example : (1 < 2) × (fence_check 40 1 two_rows ≡ false)
fence_check-latest_example =
    fence_check-latest 10 30 40 e1 e2 one_row two_rows two_rows 1 2 first_read two_holders
      second_read (λ e. omega arith) at_start

fence_check-release_example :
    (fence_check 500
        (max_token (leased (codes "e1") 1 ∷ []))
        (release false (leased (codes "e1") 1 ∷ []))
      ≡ true)
    × (is_alive 500 (release false (leased (codes "e1") 1 ∷ [])) ≡ true)
fence_check-release_example = fence_check-release 500 (leased (codes "e1") 1 ∷ []) (λ e. cc)
