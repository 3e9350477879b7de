-- ===== src/Lock/Heartbeat.antt =====
-- The loop of `HeartbeatTask._run` in dbwarden/lock/heartbeat.py.
--
-- The thread is started once and stopped from outside; what each update of the status row gives
-- before that is a list of outcomes, `true` for a heartbeat that raised nothing.
use dbwarden.Common.{
  ℕ, zero, suc, ◌+◌, ◌≤◌, ◌≡◌, refl, Bool, true, false, List, [], ◌∷◌, ◌||◌, leb, arith, inl, inr,
  not, ◌∙◌, any, Bool-cases,
}

pub record Task : Type 0 where
  pub degraded : Bool
  pub fatal : Bool
  pub consecutive_failures : ℕ

-- `start`
abbrev pub started : Task
started = record { degraded = false; fatal = false; consecutive_failures = 0 }

-- One round of the loop.
unfoldable pub beat : ℕ → Task → Bool → Task
beat fatal_grace t true = record t { consecutive_failures = 0 }
beat fatal_grace t false =
    let failures = t.consecutive_failures + 1 in
    record {
      degraded = true;
      fatal = t.fatal || leb fatal_grace failures;
      consecutive_failures = failures;
    }

unfoldable pub run : ℕ → Task → List Bool → Task
run fatal_grace t [] = t
run fatal_grace t (ok ∷ outcomes) = run fatal_grace (beat fatal_grace t ok) outcomes

-- `n` failures in a row, somewhere among the outcomes.
abbrev pub starts_failing : ℕ → List Bool → Bool
starts_failing zero outcomes = true
starts_failing (suc n) (false ∷ outcomes) = starts_failing n outcomes
starts_failing (suc n) _ = false

abbrev pub has_streak : ℕ → List Bool → Bool
has_streak n [] = starts_failing n []
has_streak n (ok ∷ outcomes) = starts_failing n (ok ∷ outcomes) || has_streak n outcomes

starts_failing_mono :
    (n m : ℕ) (outcomes : List Bool)
    → m ≤ n
    → starts_failing n outcomes ≡ true
    → starts_failing m outcomes ≡ true
starts_failing_mono n zero outcomes h s = refl
starts_failing_mono zero (suc m) outcomes h s = absurd (omega arith)
starts_failing_mono (suc n) (suc m) [] h s = cc
starts_failing_mono (suc n) (suc m) (true ∷ outcomes) h s = cc
starts_failing_mono (suc n) (suc m) (false ∷ outcomes) h s =
    starts_failing_mono n m outcomes (omega arith) s

has_streak_start :
    (n : ℕ) (outcomes : List Bool) → starts_failing n outcomes ≡ true → has_streak n outcomes ≡ true
has_streak_start n [] h = h
has_streak_start n (x ∷ outcomes) h = ground arith

run-fatal_stays :
    (g : ℕ) (t : Task) (outcomes : List Bool) → t.fatal ≡ true → (run g t outcomes).fatal ≡ true
unfolding run beat
run-fatal_stays g t [] h = h
run-fatal_stays g t (true ∷ outcomes) h =
    run-fatal_stays g (record t { consecutive_failures = 0 }) outcomes h
run-fatal_stays g t (false ∷ outcomes) h =
    run-fatal_stays g (beat g t false) outcomes (ground arith)

streak_absorbs :
    (n : ℕ) (outcomes : List Bool)
    → (starts_failing n outcomes || has_streak n outcomes) ≡ has_streak n outcomes
streak_absorbs n outcomes = elim (Bool-cases (starts_failing n outcomes)) [
  | inl e ↦ rw (e, has_streak_start n outcomes e)
  | inr e ↦ rw e
]

fewer_absorbs :
    (d g : ℕ) (outcomes : List Bool)
    → d ≤ g
    → (starts_failing d outcomes || has_streak (suc g) outcomes)
      ≡ (starts_failing d outcomes || (starts_failing g outcomes || has_streak (suc g) outcomes))
fewer_absorbs d g outcomes h = elim (Bool-cases (starts_failing g outcomes)) [
  | inl e ↦ rw (e, starts_failing_mono g d outcomes h e)
  | inr e ↦ rw e
]

-- `d + 1` more failures in a row are fatal, or as many as allowed later on.
run-fatal_from :
    (g d : ℕ) (t : Task) (outcomes : List Bool)
    → t.fatal ≡ false
    → t.consecutive_failures + d ≡ g
    → (run (suc g) t outcomes).fatal
      ≡ (starts_failing (suc d) outcomes || has_streak (suc g) outcomes)
unfolding run
run-fatal_from g d t [] h k = h
run-fatal_from g d t (true ∷ outcomes) h k =
    run-fatal_from g g (beat (suc g) t true) outcomes (unfold beat in h)
      (unfold beat in omega arith)
    ∙ streak_absorbs (suc g) outcomes
run-fatal_from g zero t (false ∷ outcomes) h k =
    run-fatal_stays (suc g) (beat (suc g) t false) outcomes (unfold beat in ground arith)
run-fatal_from g (suc d) t (false ∷ outcomes) h k =
    run-fatal_from g d (beat (suc g) t false) outcomes (unfold beat in ground arith)
      (unfold beat in omega arith)
    ∙ fewer_absorbs (suc d) g outcomes (omega arith)

-- With at least one failure allowed for, `is_fatal` says whether that many heartbeats have ever
-- failed in a row.
pub run-fatal :
    (fatal_grace : ℕ) (outcomes : List Bool)
    → 1 ≤ fatal_grace
    → (run fatal_grace started outcomes).fatal ≡ has_streak fatal_grace outcomes
run-fatal zero outcomes h = absurd (omega arith)
run-fatal (suc g) outcomes h =
    run-fatal_from g g started outcomes refl (omega arith) ∙ streak_absorbs (suc g) outcomes

run-degraded_from :
    (g : ℕ) (t : Task) (outcomes : List Bool)
    → (run g t outcomes).degraded ≡ (t.degraded || any not outcomes)
unfolding run beat
run-degraded_from g t [] = ground arith
run-degraded_from g t (true ∷ outcomes) =
    run-degraded_from g (record t { consecutive_failures = 0 }) outcomes
run-degraded_from g t (false ∷ outcomes) =
    ground (arith, run-degraded_from g (beat g t false) outcomes)

-- `is_degraded` says whether any heartbeat has failed since the start, whatever the last one did.
run-degraded :
    (fatal_grace : ℕ) (outcomes : List Bool)
    → (run fatal_grace started outcomes).degraded ≡ any not outcomes
run-degraded g outcomes = run-degraded_from g started outcomes
