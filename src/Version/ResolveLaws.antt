-- ===== src/Version/ResolveLaws.antt =====
-- The passes of `resolve_migration_order`: what they keep, and when they stop.
use mathlib.Core.List.Perm
use mathlib.Core.List.{Perm, perm_middle}
use dbwarden.Common.{
  ℕ, zero, suc, ◌≤◌, ◌<◌, ◌≡◌, refl, true, false, List, [], ◌∷◌, ◌++◌, Text, length, arith, All,
  Bool-cases, inl, inr, ◌⊎◌, append-nil, append_assoc, sym, ◌∙◌, ap, subst,
}
use dbwarden.Version.Resolve.{Migration, deps_met, pass, passes}

-- In the order each migration stands behind what it depends on, applied or placed before it.
abbrev pub IsResolved : List Text → List Migration → List Migration → Type 0
IsResolved applied before [] = Unit
IsResolved applied before (m ∷ ms) =
    (deps_met applied before m ≡ true) × IsResolved applied (before ++ m ∷ []) ms

IsResolved-snoc :
    (applied : List Text) (before ms : List Migration) (m : Migration)
    → IsResolved applied before ms
    → deps_met applied (before ++ ms) m ≡ true
    → IsResolved applied before (ms ++ m ∷ [])
IsResolved-snoc applied before [] m h d =
    (subst (λ l. deps_met applied l m ≡ true) (append-nil before) d, tt)
IsResolved-snoc applied before (x ∷ ms) m h d = (
  h.0,
  IsResolved-snoc applied (before ++ x ∷ []) ms m h.1
      (subst (λ l. deps_met applied l m ≡ true) (sym (append_assoc before (x ∷ []) ms)) d),
)

module _ (applied : List Text) where
  pub pass-IsResolved :
      (resolved ms : List Migration)
      → IsResolved applied [] resolved
      → IsResolved applied [] (pass applied resolved ms).0
  unfolding pass
  pass-IsResolved resolved [] h = h
  pass-IsResolved resolved (m ∷ ms) h = elim (Bool-cases (deps_met applied resolved m)) [
    | inl e ↦
        rw (e, pass)
          (pass-IsResolved (resolved ++ m ∷ []) ms (IsResolved-snoc applied [] resolved m h e))
    | inr e ↦ rw (e, pass) (pass-IsResolved resolved ms h)
  ]

  pub pass-perm :
      (resolved ms : List Migration)
      → Perm ((pass applied resolved ms).0 ++ (pass applied resolved ms).1) (resolved ++ ms)
  unfolding pass
  pass-perm resolved [] = Perm.rfl
  pass-perm resolved (m ∷ ms) = elim (Bool-cases (deps_met applied resolved m)) [
    | inl e ↦
        rw (e, pass) (rw (append_assoc resolved (m ∷ []) ms) at (pass-perm (resolved ++ m ∷ []) ms))
    | inr e ↦
        rw (e, pass)
          (Perm.trans (perm_middle _ _) (
            Perm.trans (Perm.cons m (pass-perm resolved ms)) (Perm.symm (perm_middle resolved ms))))
  ]

  pub length-pass : (resolved ms : List Migration) → length (pass applied resolved ms).1 ≤ length ms
  unfolding pass
  length-pass resolved [] = omega arith
  length-pass resolved (m ∷ ms) = elim (Bool-cases (deps_met applied resolved m)) [
    | inl e ↦ rw (e, pass) (omega (arith, length-pass (resolved ++ m ∷ []) ms))
    | inr e ↦ rw (e, pass) (omega (arith, length-pass resolved ms))
  ]

  -- A pass that places nothing leaves everything as it was, with no dependencies met.
  pass_progress :
      (resolved ms : List Migration)
      → (length (pass applied resolved ms).1 < length ms)
        ⊎ ((pass applied resolved ms ≡ (resolved, ms))
            × All (λ m. deps_met applied resolved m ≡ false) ms)
  unfolding pass
  pass_progress resolved [] = inr (refl, tt)
  pass_progress resolved (m ∷ ms) = elim (Bool-cases (deps_met applied resolved m)) [
    | inl e ↦ inl (rw (e, pass) (omega (arith, length-pass (resolved ++ m ∷ []) ms)))
    | inr e ↦ elim (pass_progress resolved ms) [
      | inl less ↦ inl (rw (e, pass) (omega arith))
      | inr (same, stuck) ↦ inr (rw (e, pass) (rw same refl), (e, stuck))
    ]
  ]

  pass_stuck :
      (resolved ms : List Migration)
      → All (λ m. deps_met applied resolved m ≡ false) ms
      → pass applied resolved ms ≡ (resolved, ms)
  unfolding pass
  pass_stuck resolved [] h = refl
  pass_stuck resolved (m ∷ ms) h = rw (h.0, pass) (rw (pass_stuck resolved ms h.1) refl)

  passes_stuck :
      (n : ℕ) (resolved ms : List Migration)
      → All (λ m. deps_met applied resolved m ≡ false) ms
      → passes n applied resolved ms ≡ (resolved, ms)
  unfolding passes
  passes_stuck n resolved [] h = refl
  passes_stuck zero resolved (m ∷ ms) h = refl
  passes_stuck (suc n) resolved (m ∷ ms) h =
      ap (λ (p : List Migration × List Migration). passes n applied p.0 p.1)
        (pass_stuck resolved (m ∷ ms) h)
      ∙ passes_stuck n resolved (m ∷ ms) h

  -- With as many passes as migrations, what remains at the end has unmet dependencies.
  pub passes-final :
      (n : ℕ) (resolved ms : List Migration)
      → length ms ≤ n
      → All
          (λ m. deps_met applied (passes n applied resolved ms).0 m ≡ false)
          (passes n applied resolved ms).1
  unfolding passes
  passes-final n resolved [] h = tt
  passes-final zero resolved (m ∷ ms) h = absurd (omega arith)
  passes-final (suc n) resolved (m ∷ ms) h = elim (pass_progress resolved (m ∷ ms)) [
    | inl less ↦
        passes-final n (pass applied resolved (m ∷ ms)).0 (pass applied resolved (m ∷ ms)).1
          (omega arith)
    | inr (same, stuck) ↦
        subst
          (λ (p : List Migration × List Migration). All (λ m. deps_met applied p.0 m ≡ false) p.1)
          (sym (passes_stuck (suc n) resolved (m ∷ ms) stuck)) stuck
  ]

  pub passes-perm :
      (n : ℕ) (resolved ms : List Migration)
      → Perm ((passes n applied resolved ms).0 ++ (passes n applied resolved ms).1) (resolved ++ ms)
  unfolding passes
  passes-perm n resolved [] = Perm.rfl
  passes-perm zero resolved (m ∷ ms) = Perm.rfl
  passes-perm (suc n) resolved (m ∷ ms) =
      Perm.trans
        (passes-perm n (pass applied resolved (m ∷ ms)).0 (pass applied resolved (m ∷ ms)).1)
        (pass-perm resolved (m ∷ ms))

  pub passes-IsResolved :
      (n : ℕ) (resolved ms : List Migration)
      → IsResolved applied [] resolved
      → IsResolved applied [] (passes n applied resolved ms).0
  unfolding passes
  passes-IsResolved n resolved [] h = h
  passes-IsResolved zero resolved (m ∷ ms) h = h
  passes-IsResolved (suc n) resolved (m ∷ ms) h =
      passes-IsResolved n (pass applied resolved (m ∷ ms)).0 (pass applied resolved (m ∷ ms)).1
        (pass-IsResolved resolved (m ∷ ms) h)
