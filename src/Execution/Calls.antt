-- ===== src/Execution/Calls.antt =====
-- The calls that `run_migration` makes, and actions over the list of the calls that went through.
--
-- A call goes through, or raises and has no effect; which of them raise is a parameter, `raises`.
use dbwarden.Common.{
  ℕ, suc, Bool, Option, none, some, List, [], ◌∷◌, ◌++◌, if◌then◌else◌, Text, Outcome, ok, err,
}

-- What a statement does to the database.
pub data Effect : Type 0 where
  statement : Text → Effect
  insert_version delete_version optimize_table : Effect

pub data Call : Type 0 where
  execute : Effect → Call
  autocommit : Text → Call
  open_connection set_timeout begin_nested release rollback_to commit rollback fence_check : Call
  progress : ℕ → ℕ → Call

-- An error of the database driver, a LockError, or another exception.
pub data Raised : Type 0 where
  dbapi_error lock_error other_error : Raised

-- The calls come back after a raise too.
abbrev pub Action : Type 0
Action = List Call → Outcome Raised (Unit {0}) × List Call

abbrev pub skip : Action
skip calls = (ok tt, calls)

abbrev pub raise : Raised → Action
raise e calls = (err e, calls)

infixl 5 ◌then◌
abbrev pub ◌then◌ : Action → Action → Action
(first then rest) calls =
    let (result, calls') = first calls in
    elim result [ ok u ↦ rest calls' | err e ↦ (err e, calls') ]

abbrev pub when : Bool → Action → Action
when test action calls = if test then action calls else skip calls

-- `try: … except Exception as exc:` with the handler under it
abbrev pub on_error : Action → (Raised → Action) → Action
on_error body handler calls =
    let (result, calls') = body calls in
    elim result [ ok u ↦ (ok u, calls') | err e ↦ handler e calls' ]

module _ (raises : List Call → Call → Option Raised) where
  unfoldable pub call : Call → Action
  call c calls = elim (raises calls c) [ none ↦ (ok tt, calls ++ c ∷ []) | some e ↦ (err e, calls) ]

-- One action for each text, with the number of the texts up to it.
unfoldable pub for_each : (ℕ → Text → Action) → ℕ → List Text → Action
for_each body n [] = skip
for_each body n (t ∷ ts) = body (suc n) t then for_each body (suc n) ts
