-- ===== src/Ordering/Tests.antt =====
-- An ordering between two anchors, three statements of a migration, and the theorems at these inputs.
use mathlib.Core.List.{Perm}
use dbwarden.Common.{ℕ, ◌≡◌, refl, some, List, [], ◌∷◌, ◌++◌, map, Text, codes, ok}
use dbwarden.Ordering.Values.{StatementOrder, alter_table_constraint, create_table, drop_view}
use dbwarden.Ordering.Anchors.{
  before_tables, after_constraints, postamble, anchor_statement_order, OrderingConstraint,
  check_before, check_after, validate_ordering, last_anchor, anchor_for, order_of,
  statement_order_for, Anchor,
}
use dbwarden.Ordering.AnchorLaws.{Decides, statement_order_for-Decides}
use dbwarden.Ordering.Statements.{
  MigrationStatement, assemble_migration, reverse, join, sorted, insert_statement,
}
use dbwarden.Ordering.StatementLaws.{of_order, IsSorted, assemble_migration-IsSorted}

abbrev ordering : OrderingConstraint
ordering = record {
  after = before_tables ∷ after_constraints ∷ [];
  before = postamble ∷ [];
  after_object = codes "table" ∷ [];
  before_object = [];
}

ordering_order : Unit {0}
unfolding check_before check_after validate_ordering last_anchor anchor_for order_of
    statement_order_for
ordering_order = tt

behind_constraints : statement_order_for (some ordering) ≡ ok (some alter_table_constraint)
unfolding ordering_order
behind_constraints = refl

statement_order_for-Decides_example :
    (validate_ordering ordering ≡ ok tt)
    × ((a : Anchor) × (alter_table_constraint ≡ anchor_statement_order a) × Decides a ordering)
statement_order_for-Decides_example =
    statement_order_for-Decides ordering alter_table_constraint behind_constraints

abbrev statement : StatementOrder → Text → Text → MigrationStatement
statement o up down = record { order = o; upgrade_sql = up; rollback_sql = down }

abbrev statements : List MigrationStatement
statements =
    statement drop_view (codes "v") (codes "V")
    ∷ statement create_table (codes "t") (codes "T")
    ∷ statement drop_view (codes "w") (codes "W")
    ∷ []

-- The table first, the views in the order given; the rollback backwards.
assembled : assemble_migration statements ≡ (
  codes "t" ++ 10 ∷ 10 ∷ codes "v" ++ 10 ∷ 10 ∷ codes "w",
  codes "W" ++ 10 ∷ 10 ∷ codes "V" ++ 10 ∷ 10 ∷ codes "T",
)
unfolding assemble_migration sorted insert_statement
assembled = refl

assemble_migration-IsSorted_example :
    (ss : List MigrationStatement) × Perm ss statements
    × IsSorted ss
    × ((n : ℕ) → of_order n ss ≡ of_order n statements)
    × (assemble_migration statements
        ≡ (join (map (λ s. s.upgrade_sql) ss), join (reverse (map (λ s. s.rollback_sql) ss))))
assemble_migration-IsSorted_example = assemble_migration-IsSorted statements
