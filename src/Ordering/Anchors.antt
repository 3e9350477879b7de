-- ===== src/Ordering/Anchors.antt =====
-- The anchors of dbwarden/engine/core/ordering.py.
--
-- An anchor is a member of the enumeration, so the test for unknown anchors passes.
use dbwarden.Common.{
  ℕ, Option, none, some, List, [], ◌∷◌, ltb, leb, if◌then◌else◌, Text, Outcome, ok, err, ◌>>=◌,
}
use dbwarden.Ordering.Values.{
  StatementOrder, create_extension, create_type, add_column, alter_table_constraint, alter_index,
  alter_view,
}

pub data Anchor : Type 0 where
  preamble before_tables after_tables after_constraints after_indexes postamble : Anchor

-- `ANCHOR_ORDER.index`
abbrev pub position : Anchor → ℕ
position preamble = 0
position before_tables = 1
position after_tables = 2
position after_constraints = 3
position after_indexes = 4
position postamble = 5

-- `ANCHOR_STATEMENT_ORDER`
abbrev pub anchor_statement_order : Anchor → StatementOrder
anchor_statement_order preamble = create_extension
anchor_statement_order before_tables = create_type
anchor_statement_order after_tables = add_column
anchor_statement_order after_constraints = alter_table_constraint
anchor_statement_order after_indexes = alter_index
anchor_statement_order postamble = alter_view

pub record OrderingConstraint : Type 0 where
  pub after : List Anchor
  pub before : List Anchor
  pub after_object : List Text
  pub before_object : List Text

-- The pair of anchors of the message.
pub data OrderingError : Type 0 where
  impossible : Anchor → Anchor → OrderingError

-- The inner loop, for one anchor of `after`.
unfoldable pub check_before : Anchor → List Anchor → Outcome OrderingError (Unit {0})
check_before after [] = ok tt
check_before after (before ∷ befores) =
    let rest = check_before after befores in
    if leb (position before) (position after) then err (impossible after before) else rest

unfoldable pub check_after : List Anchor → List Anchor → Outcome OrderingError (Unit {0})
check_after [] befores = ok tt
check_after (after ∷ afters) befores =
    check_before after befores >>= λ _. check_after afters befores

unfoldable pub validate_ordering : OrderingConstraint → Outcome OrderingError (Unit {0})
validate_ordering ordering = check_after ordering.after ordering.before

-- `max(anchors, key=ANCHOR_ORDER.index)` of `a` and the anchors behind it
unfoldable pub last_anchor : Anchor → List Anchor → Anchor
last_anchor a [] = a
last_anchor a (b ∷ bs) =
    let rest = last_anchor b bs in if ltb (position a) (position rest) then rest else a

-- `min(anchors, key=ANCHOR_ORDER.index)`
unfoldable pub first_anchor : Anchor → List Anchor → Anchor
first_anchor a [] = a
first_anchor a (b ∷ bs) =
    let rest = first_anchor b bs in if ltb (position rest) (position a) then rest else a

-- The choice of `statement_order_for`.
unfoldable pub anchor_for : List Anchor → List Anchor → Option Anchor
anchor_for (a ∷ after) before = some (last_anchor a after)
anchor_for [] (b ∷ before) = some (first_anchor b before)
anchor_for [] [] = none

unfoldable pub order_of : Option Anchor → Option StatementOrder
order_of none = none
order_of (some a) = some (anchor_statement_order a)

unfoldable pub statement_order_for :
    Option OrderingConstraint → Outcome OrderingError (Option StatementOrder)
statement_order_for none = ok none
statement_order_for (some ordering) =
    validate_ordering ordering >>= λ _. ok (order_of (anchor_for ordering.after ordering.before))
