-- ===== src/Ordering/StatementLaws.antt =====
-- The order of the statements of a migration.
use mathlib.Core.List.{Perm}
use mathlib.Core.List.Perm
use dbwarden.Common.{
  ℕ, ◌≤◌, ◌≡◌, refl, false, List, [], ◌∷◌, map, ltb, ◌==◌, if◌then◌else◌, arith, All, All-map,
  Bool-cases, inl, inr, ap, ◌∙◌,
}
use dbwarden.Ordering.Values.{value}
use dbwarden.Ordering.Statements.{
  MigrationStatement, insert_statement, sorted, reverse, join, assemble_migration,
}

-- The statements of one order.
abbrev pub of_order : ℕ → List MigrationStatement → List MigrationStatement
of_order n [] = []
of_order n (s ∷ ss) = let rest = of_order n ss in if value s.order == n then s ∷ rest else rest

abbrev pub IsSorted : List MigrationStatement → Type 0
IsSorted [] = Unit
IsSorted (s ∷ ss) = All (λ t. value s.order ≤ value t.order) ss × IsSorted ss

insert_statement-perm :
    (s : MigrationStatement) (ts : List MigrationStatement) → Perm (insert_statement s ts) (s ∷ ts)
unfolding insert_statement
insert_statement-perm s [] = Perm.rfl
insert_statement-perm s (t ∷ ts) = elim (Bool-cases (ltb (value t.order) (value s.order))) [
  | inl e ↦ rw e (Perm.trans (Perm.cons t (insert_statement-perm s ts)) (Perm.swap s t ts))
  | inr e ↦ rw e Perm.rfl
]

sorted-perm : (ss : List MigrationStatement) → Perm (sorted ss) ss
unfolding sorted
sorted-perm [] = Perm.rfl
sorted-perm (s ∷ ss) =
    Perm.trans (insert_statement-perm s (sorted ss)) (Perm.cons s (sorted-perm ss))

All-insert_statement :
    (P : MigrationStatement → Type 0) (s : MigrationStatement) (ts : List MigrationStatement)
    → P s
    → All P ts
    → All P (insert_statement s ts)
unfolding insert_statement
All-insert_statement P s [] h hs = (h, tt)
All-insert_statement P s (t ∷ ts) h hs = elim (Bool-cases (ltb (value t.order) (value s.order))) [
  | inl e ↦ rw e (hs.0, All-insert_statement P s ts h hs.1)
  | inr e ↦ rw e (h, hs)
]

insert_statement-IsSorted :
    (s : MigrationStatement) (ts : List MigrationStatement)
    → IsSorted ts
    → IsSorted (insert_statement s ts)
unfolding insert_statement
insert_statement-IsSorted s [] h = (tt, tt)
insert_statement-IsSorted s (t ∷ ts) h = elim (Bool-cases (ltb (value t.order) (value s.order))) [
  | inl e ↦ rw e (
    All-insert_statement (λ u. value t.order ≤ value u.order) s ts (ground (arith, e)) h.0,
    insert_statement-IsSorted s ts h.1,
  )
  | inr e ↦ rw e (
    (
      ground (arith, e),
      All-map (λ u. value t.order ≤ value u.order) (λ u. value s.order ≤ value u.order) ts
          (λ u k. ground (arith, e, k)) h.0,
    ),
    h,
  )
]

sorted-IsSorted : (ss : List MigrationStatement) → IsSorted (sorted ss)
unfolding sorted
sorted-IsSorted [] = tt
sorted-IsSorted (s ∷ ss) = insert_statement-IsSorted s (sorted ss) (sorted-IsSorted ss)

of_order-insert_statement :
    (n : ℕ) (s : MigrationStatement) (ts : List MigrationStatement)
    → of_order n (insert_statement s ts) ≡ of_order n (s ∷ ts)
unfolding insert_statement
of_order-insert_statement n s [] = refl
of_order-insert_statement n s (t ∷ ts) = elim (Bool-cases (ltb (value t.order) (value s.order))) [
  | inr e ↦ rw e refl
  | inl e ↦ elim (Bool-cases (value t.order == n)) [
    | inr f ↦ rw (e, f) (of_order-insert_statement n s ts)
    | inl f ↦
        let other : (value s.order == n) ≡ false = ground (arith, e, f) in
        rw (e, f, other) (ap (λ l. t ∷ l) (of_order-insert_statement n s ts ∙ rw other refl))
  ]
]

of_order-sorted : (n : ℕ) (ss : List MigrationStatement) → of_order n (sorted ss) ≡ of_order n ss
unfolding sorted
of_order-sorted n [] = refl
of_order-sorted n (s ∷ ss) =
    of_order-insert_statement n s (sorted ss)
    ∙ ap (λ l. if value s.order == n then s ∷ l else l) (of_order-sorted n ss)

-- A migration has each of its statements as often as it was given, the lower orders first and those
-- of one order as they were given; the rollback goes through the same statements backwards.
pub assemble_migration-IsSorted :
    (statements : List MigrationStatement)
    → (ss : List MigrationStatement) × Perm ss statements
      × IsSorted ss
      × ((n : ℕ) → of_order n ss ≡ of_order n statements)
      × (assemble_migration statements
          ≡ (join (map (λ s. s.upgrade_sql) ss), join (reverse (map (λ s. s.rollback_sql) ss))))
unfolding assemble_migration
assemble_migration-IsSorted statements = (
  sorted statements,
  sorted-perm statements,
  sorted-IsSorted statements,
  (λ n. of_order-sorted n statements),
  refl,
)
