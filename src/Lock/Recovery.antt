-- ===== src/Lock/Recovery.antt =====
-- The inspection of a dead predecessor and the recovery policy of dbwarden/lock/__init__.py.
--
-- `status` is the row that `_read_status_row` returns; connections are not modelled.
use dbwarden.Common.{
  ◌≡◌, ◌↔◌, refl, Bool, true, false, Option, none, some, [], ◌∷◌, ◌&&◌, not, ◌⊎◌, inl, inr, arith,
  if◌then◌else◌, Text, text_eq, text_eq_iff, codes, is_some, Bool-cases, text_eq_sound,
  text_eq_refl, &&-eq-true, ap, sym, subst,
}
use dbwarden.Lock.State.{
  LockState, available, running, complete, failed, dead, inspecting, needs_review, state_in,
  validate_transition,
}

-- The entries of the status row that the inspection reads.
pub record Status : Type 0 where
  pub state : Text
  pub execution_id : Text
  pub migration_version : Option Text
  pub migration_checksum : Option Text

-- `LockState(state_str)`, with AVAILABLE for a ValueError
unfoldable pub lock_state : Text → LockState
lock_state s =
    if text_eq s (codes "RUNNING")
    then running
    else if text_eq s (codes "COMPLETE")
    then complete
    else if text_eq s (codes "FAILED")
    then failed
    else if text_eq s (codes "DEAD")
    then dead
    else if text_eq s (codes "INSPECTING")
    then inspecting
    else if text_eq s (codes "NEEDS_REVIEW")
    then needs_review
    else available

-- The sentences of `reason`.
pub data Reason : Type 0 where
  checksums_match no_checksum no_candidate checksum_mismatch : Reason

pub record InspectionResult : Type 0 where
  pub predecessor_execution_id : Text
  pub predecessor_migration_version : Option Text
  pub predecessor_checksum : Option Text
  pub candidate_checksum : Option Text
  pub checksum_match : Bool
  pub last_recorded_step : Option Text
  pub is_resumable : Bool
  pub needs_review : Bool
  pub reason : Reason

-- `predecessor is not None and candidate is not None and predecessor == candidate`
unfoldable pub checksums_equal : Option Text → Option Text → Bool
checksums_equal (some p) (some c) = text_eq p c
checksums_equal none c = false
checksums_equal (some p) none = false

unfoldable pub reason_for : Bool → Option Text → Option Text → Reason
reason_for match p c =
    if match
    then checksums_match
    else if not (is_some p)
    then no_checksum
    else if not (is_some c)
    then no_candidate
    else checksum_mismatch

unfoldable pub inspection : Status → Option Text → InspectionResult
unfolding checksums_equal reason_for
inspection status candidate =
    let match = checksums_equal status.migration_checksum candidate in
    record {
      predecessor_execution_id = status.execution_id;
      predecessor_migration_version = status.migration_version;
      predecessor_checksum = status.migration_checksum;
      candidate_checksum = candidate;
      checksum_match = match;
      last_recorded_step = status.migration_version;
      is_resumable = match;
      needs_review = not match;
      reason = reason_for match status.migration_checksum candidate;
    }

unfoldable pub inspect_dead_predecessor : Option Status → Option Text → Option InspectionResult
unfolding inspection lock_state
inspect_dead_predecessor none candidate = none
inspect_dead_predecessor (some status) candidate =
    if not (state_in (lock_state status.state) (dead ∷ failed ∷ []))
    then none
    else some (inspection status candidate)

unfoldable pub apply_recovery_policy : InspectionResult → Text → LockState
apply_recovery_policy inspection policy =
    if inspection.is_resumable && text_eq policy (codes "resume_idempotent")
    then running
    else if text_eq policy (codes "force")
    then running
    else needs_review

checksums_equal_iff :
    (p c : Option Text) → (checksums_equal p c ≡ true) ↔ ((t : Text) × (p ≡ some t) × (c ≡ some t))
unfolding checksums_equal
checksums_equal_iff (some p) (some c) = (
  λ h. (p, refl, ap some (sym (text_eq_sound p c h))),
  λ (t, e, f). ground (arith, text_eq_refl t),
)
checksums_equal_iff none c = (λ h. cc, λ (t, e, f). cc)
checksums_equal_iff (some p) none = (λ h. cc, λ (t, e, f). cc)

policy_iff :
    (r : InspectionResult) (policy : Text)
    → (apply_recovery_policy r policy ≡ running)
      ↔ ((policy ≡ codes "force") ⊎ (policy ≡ codes "resume_idempotent") × (r.is_resumable ≡ true))
unfolding apply_recovery_policy
policy_iff r policy = (
  λ h. elim (Bool-cases (text_eq policy (codes "force"))) [
    | inl e ↦ inl (text_eq_sound policy (codes "force") e)
    | inr e ↦
        let b : (r.is_resumable && text_eq policy (codes "resume_idempotent")) ≡ true =
          ground arith in
        let (f, g) = &&-eq-true r.is_resumable (text_eq policy (codes "resume_idempotent")) b in
        inr (text_eq_sound policy (codes "resume_idempotent") g, f)
  ],
  λ h. elim h [
    | inl e ↦ ground (arith, text_eq_iff policy (codes "force"))
    | inr (e, f) ↦ ground (arith, text_eq_iff policy (codes "resume_idempotent"))
  ],
)

policy_target :
    (r : InspectionResult) (policy : Text)
    → (apply_recovery_policy r policy ≡ running) ⊎ (apply_recovery_policy r policy ≡ needs_review)
unfolding apply_recovery_policy
policy_target r policy = ground arith

target_valid :
    (t : LockState) → (t ≡ running) ⊎ (t ≡ needs_review) → validate_transition inspecting t ≡ true
unfolding validate_transition
target_valid t (inl e) = rw e
target_valid t (inr e) = rw e

-- The recovery policy sends an inspected run back to RUNNING exactly under `force`, or under
-- `resume_idempotent` with the checksum of the predecessor recorded and equal to the candidate's;
-- any other case ends in NEEDS_REVIEW. No statement of the migration is looked at. Both are valid
-- transitions from INSPECTING.
pub apply_recovery_policy-inspection :
    (status : Status) (candidate : Option Text) (policy : Text)
    → (validate_transition inspecting (apply_recovery_policy (inspection status candidate) policy)
        ≡ true)
      × ((apply_recovery_policy (inspection status candidate) policy ≡ running)
          ⊎ (apply_recovery_policy (inspection status candidate) policy ≡ needs_review))
      × ((apply_recovery_policy (inspection status candidate) policy ≡ running) ↔ (
          (policy ≡ codes "force")
          ⊎ (policy ≡ codes "resume_idempotent")
            × ((c : Text) × (status.migration_checksum ≡ some c) × (candidate ≡ some c))))
apply_recovery_policy-inspection status candidate policy =
    let r = inspection status candidate in
    let (to, from) = policy_iff r policy in
    let (sound, back) = checksums_equal_iff status.migration_checksum candidate in
    (
      target_valid (apply_recovery_policy r policy) (policy_target r policy),
      policy_target r policy,
      (
        λ h. elim (to h) [ inl e ↦ inl e | inr (e, f) ↦ inr (e, sound (unfold inspection in f)) ],
        λ h. elim h [
          | inl e ↦ from (inl e)
          | inr (e, f) ↦ from (inr (e, unfold inspection in back f))
        ],
      ),
    )

lock_state-dead : (s : Text) → s ≡ codes "DEAD" → lock_state s ≡ dead
unfolding lock_state text_eq
lock_state-dead s e = subst (λ t. lock_state t ≡ dead) (sym e) refl

lock_state-failed : (s : Text) → s ≡ codes "FAILED" → lock_state s ≡ failed
unfolding lock_state text_eq
lock_state-failed s e = subst (λ t. lock_state t ≡ failed) (sym e) refl

inspects :
    (s : Text)
    → state_in (lock_state s) (dead ∷ failed ∷ []) ≡ true
    → (s ≡ codes "DEAD") ⊎ (s ≡ codes "FAILED")
unfolding lock_state
inspects s h = elim (Bool-cases (text_eq s (codes "DEAD"))) [
  | inl e ↦ inl (text_eq_sound s (codes "DEAD") e)
  | inr e ↦ elim (Bool-cases (text_eq s (codes "FAILED"))) [
    | inl e' ↦ inr (text_eq_sound s (codes "FAILED") e')
    | inr e' ↦ absurd (ground arith)
  ]
]

-- A predecessor is inspected exactly when the status row says DEAD or FAILED.
inspect_dead_predecessor_iff :
    (status : Status) (candidate : Option Text)
    → (inspect_dead_predecessor (some status) candidate ≡ some (inspection status candidate))
      ↔ ((status.state ≡ codes "DEAD") ⊎ (status.state ≡ codes "FAILED"))
unfolding inspect_dead_predecessor
inspect_dead_predecessor_iff status candidate = (
  λ h. inspects status.state (ground arith),
  λ h. elim h [
    | inl e ↦ ground (arith, lock_state-dead status.state e)
    | inr e ↦ ground (arith, lock_state-failed status.state e)
  ],
)
