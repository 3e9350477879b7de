-- ===== src/Partition/Tests.antt =====
-- A column that is dropped and added again, and the theorems at this migration.
use mathlib.Core.List.{Perm}
use dbwarden.Common.{
  ◌≡◌, refl, false, Option, none, some, List, [], ◌∷◌, ◌++◌, map, leb, if◌then◌else◌, Text, text_eq,
  text_in, text_lt, codes, ok, In, has_prefix, contains, behind_prefix, remove_prefix, before_last,
  rsplit_front, texts_eq,
}
use dbwarden.State.Changes.{insert_key}
use dbwarden.Severity.Levels.{Safety, safe, warn, critical, index, safety_of, severity_level}
use dbwarden.Partition.Dependencies.{
  Operation, is_view, table_references, references_of, is_key_operation, object_of, op_table,
  same_table, same_object, same_columns, earlier_column, replaces_object, uses_temporary,
  follows_table, covers_column, same_column, references_created, follows_schema, needs_earlier,
  needs_type, ids_where, dependencies_of,
}
use dbwarden.Partition.Split.{
  Node, ids, has_duplicate, nodes_from, has_unknown, still_waiting, cyclic_nodes, is_cyclic,
  position, has_conflict, sorted_set, store_dependencies, ids_if, closure, same_ids, close,
  nodes_if, above, deferred_ids, split_at, split_by, check_nodes, partition_operations,
}
use dbwarden.Partition.Closure.{Waits}
use dbwarden.Partition.InOrder.{InOrder}
use dbwarden.Partition.SplitLaws.{partition_operations-InOrder, partition_operations-Waits}

abbrev operation : Text → Text → Text → Option Text → Operation
operation id type table column = record {
  id = id;
  type = type;
  depends_on = [];
  table = some table;
  old_table = none;
  new_table = none;
  column = column;
  new_name = none;
  name = none;
  index_name = none;
  columns = [];
  temporary = none;
  has_expression = false;
  schema = none;
  referenced_table = none;
  referenced_tables = [];
  state_references = [];
  state_column_keys = [];
  object_type = none;
  definition = none;
  enum_name = none;
  domain_name = none;
  type_references = [];
  referenced_types = [];
}

abbrev ops : List Operation
ops =
    operation (codes "1") (codes "create_table") (codes "t") none
    ∷ operation (codes "2") (codes "drop_column") (codes "t") (some (codes "c"))
    ∷ operation (codes "3") (codes "add_column") (codes "t") (some (codes "c"))
    ∷ operation (codes "4") (codes "create_table") (codes "u") none
    ∷ []

abbrev level : Operation → Safety
level op = if text_eq op.type (codes "drop_column") then critical else safe

abbrev upper : Text → Text
upper t = t

abbrev view_references : Text → Option (List Text)
view_references t = some []

abbrev node : Operation → List Text → Node
node op ts = record { op = record op { depends_on = ts }; deps = ts }

partitioning : Unit {0}
unfolding text_eq text_in text_lt has_prefix contains behind_prefix remove_prefix before_last
    rsplit_front texts_eq insert_key safety_of severity_level is_view table_references references_of
    is_key_operation object_of op_table same_table same_object same_columns earlier_column
    replaces_object uses_temporary follows_table covers_column same_column references_created
    follows_schema needs_earlier needs_type ids_where dependencies_of has_duplicate nodes_from
    has_unknown still_waiting cyclic_nodes is_cyclic position has_conflict sorted_set
    store_dependencies ids_if closure same_ids close nodes_if above deferred_ids split_at split_by
    check_nodes partition_operations
partitioning = tt

abbrev base : List Node
base =
    node (operation (codes "1") (codes "create_table") (codes "t") none) []
    ∷ node (operation (codes "4") (codes "create_table") (codes "u") none) []
    ∷ []

abbrev deferred : List Node
deferred =
    node (operation (codes "2") (codes "drop_column") (codes "t") (some (codes "c")))
      (codes "1" ∷ [])
    ∷ node (operation (codes "3") (codes "add_column") (codes "t") (some (codes "c")))
        (codes "1" ∷ codes "2" ∷ [])
    ∷ []

column_is_deferred :
    partition_operations level upper view_references ops (some (codes "WARN")) ≡ ok (base, deferred)
unfolding partitioning
column_is_deferred = refl

partition_operations-InOrder_example :
    Perm (ids (base ++ deferred)) (map (λ op. op.id) ops) × InOrder [] (base ++ deferred)
partition_operations-InOrder_example =
    partition_operations-InOrder level upper view_references ops (some (codes "WARN")) base deferred
      column_is_deferred

threshold_is_warn : severity_level upper (codes "WARN") false ≡ ok warn
unfolding partitioning
threshold_is_warn = refl

partition_operations-Waits_example :
    ((n : Node)
      → In n deferred
      → Waits (base ++ deferred) (λ m. leb (index warn) (index (level m.op))) n.op.id)
    × ((n : Node)
        → In n base
        → Waits (base ++ deferred) (λ m. leb (index warn) (index (level m.op))) n.op.id
        → ⊥)
partition_operations-Waits_example =
    partition_operations-Waits level upper view_references ops (codes "WARN") warn base deferred
      threshold_is_warn column_is_deferred
