-- ===== src/Ordering/Statements.antt =====
-- `_assemble_migration` of dbwarden/engine/core/statement_order.py.
use dbwarden.Common.{List, [], ◌∷◌, ◌++◌, map, ltb, if◌then◌else◌, Text}
use dbwarden.Ordering.Values.{StatementOrder, value}

-- The other entries of a statement are not read here.
pub record MigrationStatement : Type 0 where
  pub order : StatementOrder
  pub upgrade_sql : Text
  pub rollback_sql : Text

-- `sorted(statements, key=lambda s: s.order)`, which is stable
unfoldable pub insert_statement :
    MigrationStatement → List MigrationStatement → List MigrationStatement
insert_statement s [] = s ∷ []
insert_statement s (t ∷ ts) =
    let rest = insert_statement s ts in
    if ltb (value t.order) (value s.order) then t ∷ rest else s ∷ t ∷ ts

unfoldable pub sorted : List MigrationStatement → List MigrationStatement
unfolding insert_statement
sorted [] = []
sorted (s ∷ ss) = insert_statement s (sorted ss)

abbrev pub reverse : List Text → List Text
reverse [] = []
reverse (t ∷ ts) = reverse ts ++ t ∷ []

-- `"\n\n".join(parts)`
abbrev pub join : List Text → Text
join [] = []
join (t ∷ []) = t
join (t ∷ u ∷ ts) = t ++ 10 ∷ 10 ∷ join (u ∷ ts)

unfoldable pub assemble_migration : List MigrationStatement → Text × Text
unfolding sorted
assemble_migration statements =
    let ss = sorted statements in
    (join (map (λ s. s.upgrade_sql) ss), join (reverse (map (λ s. s.rollback_sql) ss)))
