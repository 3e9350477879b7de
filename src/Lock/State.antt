-- ===== src/Lock/State.antt =====
-- dbwarden/lock/state.py: the states of a run, their transitions, and the health verdict.
--
-- Times are in microseconds. `fromisoformat` is the parser of the datetime module, with `none` for
-- a ValueError or TypeError.
use dbwarden.Common.{
  ℕ, ◌+◌, ◌*◌, Bool, true, false, Option, none, some, List, [], ◌∷◌, ◌||◌, ltb, if◌then◌else◌, Text,
}

pub data LockState : Type 0 where
  available running complete failed dead inspecting needs_review : LockState

abbrev pub state_eq : LockState → LockState → Bool
state_eq available available = true
state_eq running running = true
state_eq complete complete = true
state_eq failed failed = true
state_eq dead dead = true
state_eq inspecting inspecting = true
state_eq needs_review needs_review = true
state_eq _ _ = false

abbrev pub state_in : LockState → List LockState → Bool
state_in s [] = false
state_in s (t ∷ ts) = state_eq s t || state_in s ts

-- `_TRANSITIONS`
unfoldable pub transitions : LockState → List LockState
transitions available = running ∷ []
transitions running = complete ∷ failed ∷ dead ∷ []
transitions dead = inspecting ∷ []
transitions inspecting = complete ∷ needs_review ∷ running ∷ []
transitions complete = available ∷ running ∷ []
transitions failed = available ∷ running ∷ []
transitions needs_review = available ∷ running ∷ []

unfoldable pub validate_transition : LockState → LockState → Bool
unfolding transitions
validate_transition from_state to_state = state_in to_state (transitions from_state)

pub data Health : Type 0 where
  available complete failed needs_review inspecting dead healthy stuck : Health

-- The RUNNING state: `last_heartbeat_at` against the clock.
unfoldable pub heartbeat_health : (Text → Option ℕ) → Option Text → ℕ → ℕ → Health
heartbeat_health fromisoformat none ttl now = Health.healthy
heartbeat_health fromisoformat (some at) ttl now = elim (fromisoformat at) [
  | none ↦ Health.healthy
  | some beat ↦ if ltb (beat + ttl * 1000000) now then Health.stuck else Health.healthy
]

unfoldable pub compute_health : (Text → Option ℕ) → LockState → Option Text → ℕ → ℕ → Health
unfolding heartbeat_health
compute_health fromisoformat complete at ttl now = Health.complete
compute_health fromisoformat failed at ttl now = Health.failed
compute_health fromisoformat available at ttl now = Health.available
compute_health fromisoformat needs_review at ttl now = Health.needs_review
compute_health fromisoformat inspecting at ttl now = Health.inspecting
compute_health fromisoformat dead at ttl now = Health.dead
compute_health fromisoformat running at ttl now = heartbeat_health fromisoformat at ttl now
