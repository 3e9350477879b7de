-- ===== src/Lock/Transitions.antt =====
-- Runs of the recovery state machine of dbwarden/lock/state.py.
use dbwarden.Common.{
  ℕ, ◌+◌, ◌*◌, ◌<◌, ◌≡◌, ◌≢◌, ◌↔◌, refl, true, Option, none, some, ◌⊎◌, inl, inr, arith, Text,
  Option-cases,
}
use dbwarden.Lock.State.{
  LockState, available, running, complete, failed, dead, inspecting, needs_review,
  validate_transition, Health, compute_health,
}

-- A sequence of valid transitions.
pub data Run (s : LockState) : LockState → Type 0 where
  here : Run s s
  step : {t u : LockState} → Run s t → validate_transition t u ≡ true → Run s u

abbrev pub Visits : LockState → {s t : LockState} → Run s t → Type 0
Visits v {s} {t} here = v ≡ s
Visits v {s} {t} (step r h) = (v ≡ t) ⊎ Visits v r

dead_step : (t u : LockState) → validate_transition t u ≡ true → t ≡ dead → inspecting ≡ u
unfolding validate_transition
dead_step t u h e = ground arith

LockState-cases : (t : LockState) → (t ≡ dead) ⊎ (t ≢ dead)
LockState-cases dead = inl refl
LockState-cases t = inr (λ e. cc)

-- A run that starts DEAD stays there, or passes through INSPECTING.
Run-dead : {t : LockState} (r : Run dead t) → t ≢ dead → Visits inspecting r
Run-dead here h = absurd (h refl)
Run-dead (step {t} {u} r v) h = elim (LockState-cases t) [
  | inl e ↦ inl (dead_step t u v e)
  | inr other ↦ inr (Run-dead r other)
]

-- From every state a run can get back to AVAILABLE, and from there to every state.
Run-available : (s : LockState) → Run s available × Run available s
unfolding validate_transition
Run-available s = (back s, forth s)
  where
    launched : Run available running
    launched = step here refl

    finished : Run available complete
    finished = step launched refl

    died : Run available dead
    died = step launched refl

    inspected : Run available inspecting
    inspected = step died refl

    back : (s : LockState) → Run s available
    back available = here
    back running = step {t = complete} (step here refl) refl
    back complete = step here refl
    back failed = step here refl
    back dead = step {t = complete} (step {t = inspecting} (step here refl) refl) refl
    back inspecting = step {t = complete} (step here refl) refl
    back needs_review = step here refl

    forth : (s : LockState) → Run available s
    forth available = here
    forth running = launched
    forth complete = finished
    forth failed = step launched refl
    forth dead = died
    forth inspecting = inspected
    forth needs_review = step inspected refl

-- `compute_health` says STUCK exactly for a RUNNING state whose heartbeat can be read and is older
-- than the allowed number of seconds.
compute_health-stuck :
    (fromisoformat : Text → Option ℕ) (s : LockState) (at : Option Text) (ttl now : ℕ)
    → (compute_health fromisoformat s at ttl now ≡ Health.stuck) ↔ (
        (s ≡ running)
        × ((t : Text) × (beat : ℕ) × (at ≡ some t)
            × (fromisoformat t ≡ some beat)
            × (beat + ttl * 1000000 < now)))
unfolding compute_health
compute_health-stuck f s at ttl now = (to s at, from s at)
  where
    to :
        (s : LockState) (at : Option Text)
        → compute_health f s at ttl now ≡ Health.stuck
        → (s ≡ running)
          × ((t : Text) × (beat : ℕ) × (at ≡ some t)
              × (f t ≡ some beat)
              × (beat + ttl * 1000000 < now))
    to running (some t) h = elim (Option-cases (f t)) [
      | inl e ↦ absurd (ground arith)
      | inr (beat, e) ↦ (refl, (t, beat, refl, e, ground arith))
    ]
    to running none h = cc
    to available at h = cc
    to complete at h = cc
    to failed at h = cc
    to dead at h = cc
    to inspecting at h = cc
    to needs_review at h = cc

    from :
        (s : LockState) (at : Option Text)
        → (s ≡ running)
          × ((t : Text) × (beat : ℕ) × (at ≡ some t)
              × (f t ≡ some beat)
              × (beat + ttl * 1000000 < now))
        → compute_health f s at ttl now ≡ Health.stuck
    from s at (e, (t, beat, h, p, less)) = rw (e, h) (ground arith)
