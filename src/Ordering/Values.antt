-- ===== src/Ordering/Values.antt =====
-- `StatementOrder` of dbwarden/engine/core/statement_order.py.
--
-- `value` is the value of a member plus 5, which makes all of them natural numbers. Members of equal
-- value are one member in Python, under the first name.
use dbwarden.Common.{ℕ}

pub data StatementOrder : Type 0 where
  role_mgmt alter_default_privileges create_extension create_schema : StatementOrder
  create_domain create_sequence rename_table rename_column : StatementOrder
  alter_column_type alter_column_nullable alter_column_default create_type : StatementOrder
  create_table create_view add_column alter_foreign_key : StatementOrder
  drop_view alter_index drop_column drop_table : StatementOrder
  alter_table_comment alter_column_comment alter_table_options alter_table_constraint :
      StatementOrder
  alter_constraint alter_column_autoincrement alter_pg_rls alter_pg_policy : StatementOrder
  alter_pg_grant create_statistics alter_view : StatementOrder

abbrev pub value : StatementOrder → ℕ
value role_mgmt = 0
value alter_default_privileges = 1
value create_extension = 2
value create_schema = 3
value create_domain = 4
value create_sequence = 5
value rename_table = 6
value rename_column = 7
value alter_column_type = 8
value alter_column_nullable = 9
value alter_column_default = 10
value create_type = 11
value create_table = 12
value create_view = 13
value add_column = 14
value alter_foreign_key = 15
value drop_view = 16
value alter_index = 17
value drop_column = 18
value drop_table = 19
value alter_table_comment = 20
value alter_column_comment = 21
value alter_table_options = 22
value alter_table_constraint = 23
value alter_constraint = 24
value alter_column_autoincrement = 25
value alter_pg_rls = 26
value alter_pg_policy = 27
value alter_pg_grant = 28
value create_statistics = 29
value alter_view = 104

abbrev pub create_function : StatementOrder
create_function = create_type

abbrev pub validate_constraint : StatementOrder
validate_constraint = alter_constraint

abbrev pub create_trigger : StatementOrder
create_trigger = create_statistics
