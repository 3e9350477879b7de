-- ===== src/Severity/OperationLaws.antt =====
-- What a plugin's declaration can do to a severity, and how the flags follow from the severity.
use dbwarden.Common.{
  ℕ, ◌≤◌, ◌≡◌, ◌≢◌, refl, Bool, true, false, Option, none, some, List, [], ◌∷◌, ◌||◌, any, Text,
  codes, Outcome, ok, err, arith, Bool-cases, inl, inr, All, ap, ◌⊎◌, In, sym, ◌∙◌,
}
use dbwarden.Severity.Levels.{
  Safety, safe, info, warn, critical, unknown, index, safety_eq, safety_eq_sound, max_level,
  severity_level, SeverityError,
}
use dbwarden.Severity.Operations.{
  Declaration, malformed, declared, Operation, Backend, base_level, declared_level, join_declared,
  with_declaration, classify_operation, required_flags, file_level,
}

index-le-unknown : (l : Safety) → index l ≤ index unknown
index-le-unknown safe = omega arith
index-le-unknown info = omega arith
index-le-unknown warn = omega arith
index-le-unknown critical = omega arith
index-le-unknown unknown = omega arith

max_level-left : (a b : Safety) → index a ≤ index (max_level a b)
max_level-left a b = ground arith

max_level-right : (a b : Safety) → index b ≤ index (max_level a b)
max_level-right a b = ground arith

max_level-cases : (a b : Safety) → (max_level a b ≡ a) ⊎ (max_level a b ≡ b)
max_level-cases a b = ground arith

mild : (l : Safety) → index l ≤ index info → (safety_eq l warn || safety_eq l critical) ≡ false
mild safe h = refl
mild info h = refl
mild warn h = absurd (omega arith)
mild critical h = absurd (omega arith)
mild unknown h = absurd (omega arith)

module _ {Value Types : Type 0} (b : Backend Value Types) where
  join_declared-le :
      (level : Safety) (d : Outcome SeverityError Safety)
      → level ≢ unknown
      → index level ≤ index (join_declared b level d)
  unfolding join_declared
  join_declared-le level (err e) h = index-le-unknown level
  join_declared-le level (ok d) h = elim (Bool-cases (safety_eq level unknown)) [
    | inl u ↦ absurd (h (safety_eq_sound level unknown u))
    | inr u ↦ rw u (max_level-left level d)
  ]

  declared_level-le :
      (level : Safety) (s : Option Text)
      → level ≢ unknown
      → index level ≤ index (declared_level b level s)
  unfolding declared_level
  declared_level-le level none h = index-le-unknown level
  declared_level-le level (some s) h = join_declared-le level (severity_level b.upper s false) h

  -- A plugin's declaration never lowers the severity of an operation that dbwarden itself
  -- classifies, whatever the declaration holds.
  pub classify_operation-le :
      (backend : Text) (op : Operation Value Types)
      → base_level b backend op ≢ unknown
      → index (base_level b backend op) ≤ index (classify_operation b backend op)
  unfolding classify_operation with_declaration
  classify_operation-le backend op h = go op.plugin_safety
    where
      go :
          (d : Option Declaration)
          → index (base_level b backend op) ≤ index (with_declaration b (base_level b backend op) d)
      go none = omega arith
      go (some malformed) = index-le-unknown (base_level b backend op)
      go (some (declared s)) = declared_level-le (base_level b backend op) s h

  -- The severity of a file is at least that of each of its operations, and SAFE or that of one.
  file_level-max :
      (ops : List (Operation Value Types)) (backend : Text)
      → All (λ op. index (classify_operation b backend op) ≤ index (file_level b ops backend)) ops
        × ((file_level b ops backend ≡ safe)
            ⊎ ((op : Operation Value Types) × In op ops
                × (file_level b ops backend ≡ classify_operation b backend op)))
  unfolding file_level
  file_level-max [] backend = (tt, inl refl)
  file_level-max (op ∷ ops) backend =
      let (bounds, source) = file_level-max ops backend in
      let level = classify_operation b backend op in
      let rest = file_level b ops backend in
      (
        (
          max_level-left level rest,
          All-le (index rest) (index (max_level level rest)) ops (max_level-right level rest)
              bounds,
        ),
        elim (max_level-cases level rest) [
          | inl e ↦ inr (op, inl refl, e)
          | inr e ↦ elim source [ inl f ↦ inl (e ∙ f) | inr (o, i, f) ↦ inr (o, inr i, e ∙ f) ]
        ],
      )
    where
      All-le :
          (m n : ℕ) (os : List (Operation Value Types))
          → m ≤ n
          → All (λ o. index (classify_operation b backend o) ≤ m) os
          → All (λ o. index (classify_operation b backend o) ≤ n) os
      All-le m n [] h bs = tt
      All-le m n (o ∷ os) h bs = (omega arith, All-le m n os h bs.1)

  module _ (backend : Text) where
    forces : Operation Value Types → Bool
    forces op =
        safety_eq (classify_operation b backend op) warn
        || safety_eq (classify_operation b backend op) critical

    none_forces :
        (ops : List (Operation Value Types))
        → All (λ op. index (classify_operation b backend op) ≤ index info) ops
        → any forces ops ≡ false
    unfolding forces
    none_forces [] h = refl
    none_forces (op ∷ ops) h = rw (mild (classify_operation b backend op) h.0, none_forces ops h.1)

    one_forces :
        (ops : List (Operation Value Types)) (op : Operation Value Types)
        → In op ops
        → forces op ≡ true
        → any forces ops ≡ true
    one_forces [] op i h = absurd i
    one_forces (x ∷ ops) op (inl e) h = rw (sym (ap forces e) ∙ h)
    one_forces (x ∷ ops) op (inr i) h = ground (arith, one_forces ops op i h)

  -- A plan whose file severity is SAFE or INFO needs no flags, and one whose file severity is WARN or
  -- CRITICAL needs `--force`.
  required_flags-file_level :
      (ops : List (Operation Value Types)) (backend : Text)
      → (index (file_level b ops backend) ≤ index info → required_flags b ops backend ≡ [])
        × ((file_level b ops backend ≡ warn) ⊎ (file_level b ops backend ≡ critical)
            → required_flags b ops backend ≡ codes "--force" ∷ [])
  unfolding required_flags forces
  required_flags-file_level ops backend =
      let (bounds, source) = file_level-max ops backend in
      (
        λ h.
            rw
              (none_forces backend ops (All-below (index (file_level b ops backend)) ops h bounds)),
        λ h. elim source [
          | inl f ↦ absurd (ground (arith, h, f))
          | inr (op, i, f) ↦ rw (one_forces backend ops op i (ground (arith, h, f)))
        ],
      )
    where
      All-below :
          (m : ℕ) (os : List (Operation Value Types))
          → m ≤ index info
          → All (λ o. index (classify_operation b backend o) ≤ m) os
          → All (λ o. index (classify_operation b backend o) ≤ index info) os
      All-below m [] h bs = tt
      All-below m (o ∷ os) h bs = (omega arith, All-below m os h bs.1)
