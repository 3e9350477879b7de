-- ===== src/Partition/Dependencies.antt =====
-- The dependencies between operations that `partition_operations` of
-- dbwarden/engine/safety/partition.py finds.
--
-- An entry of an operation that is None counts as missing. `view_references` stands for the parser of
-- view definitions, `none` where it raises.
use dbwarden.Common.{
  Bool, true, false, Option, none, some, List, [], ◌∷◌, ◌++◌, ◌&&◌, ◌||◌, not, map, if◌then◌else◌,
  Text, text_eq, text_in, codes, has_prefix, contains, remove_prefix, rsplit_front, texts_eq,
}

pub record Operation : Type 0 where
  pub id : Text
  pub type : Text
  pub depends_on : List Text
  pub table : Option Text
  pub old_table : Option Text
  pub new_table : Option Text
  pub column : Option Text
  pub new_name : Option Text
  pub name : Option Text
  pub index_name : Option Text
  pub columns : List Text
  pub temporary : Option Text
  pub has_expression : Bool
  pub schema : Option Text
  pub referenced_table : Option Text
  pub referenced_tables : List Text
  -- the tables that the foreign keys of `state_table` name, and the foreign keys of its columns
  pub state_references : List Text
  pub state_column_keys : List Text
  pub object_type : Option Text
  -- the definition or query, if it is a string
  pub definition : Option Text
  pub enum_name : Option Text
  pub domain_name : Option Text
  -- what `_type_references` finds in the entries it is given, and the entry `referenced_types`
  pub type_references : List Text
  pub referenced_types : List Text

-- `op.get(key, default)`
abbrev pub get_or : Option Text → Option Text → Option Text
get_or none d = d
get_or (some t) d = some t

-- `a or b`
abbrev pub or_entry : Option Text → Option Text → Option Text
or_entry none b = b
or_entry (some []) b = b
or_entry (some (c ∷ t)) b = some (c ∷ t)

abbrev pub entry_eq : Option Text → Option Text → Bool
entry_eq none none = true
entry_eq (some a) (some b) = text_eq a b
entry_eq none (some b) = false
entry_eq (some a) none = false

-- `a and a == b`
abbrev pub is_same : Option Text → Option Text → Bool
is_same none b = false
is_same (some []) b = false
is_same (some (c ∷ t)) b = entry_eq (some (c ∷ t)) b

abbrev pub is_in : Option Text → List Text → Bool
is_in none ts = false
is_in (some t) ts = text_in t ts

abbrev pub entry_list : Option Text → List Text
entry_list none = []
entry_list (some []) = []
entry_list (some (c ∷ t)) = (c ∷ t) ∷ []

unfoldable pub is_view : Operation → Bool
is_view op =
    contains (codes "view") op.type
    || is_in op.object_type (map codes ("view" ∷ "materialized_view" ∷ []))

-- `references` without those of a view
unfoldable pub table_references : Operation → List Text
table_references op =
    op.referenced_tables
    ++ (op.state_references
        ++ (map (rsplit_front 46) op.state_column_keys ++ entry_list op.referenced_table))

-- `references`, or `none` for a view whose definition the parser refuses
unfoldable pub references_of : (Text → Option (List Text)) → Operation → Option (List Text)
references_of view_references op =
    if is_view op
    then elim op.definition [
      | none ↦ some (table_references op)
      | some d ↦ elim (view_references d) [
        | none ↦ none
        | some ts ↦ some (table_references op ++ ts)
      ]
    ]
    else some (table_references op)

-- `"index" in op["type"] or "constraint" in … or "foreign_key" in …`
unfoldable pub is_key_operation : Text → Bool
is_key_operation type =
    contains (codes "index") type
    || contains (codes "constraint") type
    || contains (codes "foreign_key") type

-- `type.removeprefix("add_").removeprefix("drop_")`
unfoldable pub object_of : Text → Text
object_of type = remove_prefix (codes "drop_") (remove_prefix (codes "add_") type)

-- `str(value)` of an entry
abbrev pub str_entry : Option Text → Text
str_entry none = codes "None"
str_entry (some t) = t

module _ (op earlier : Operation) where
  unfoldable pub op_table : Option Text
  op_table = get_or op.table op.old_table

  unfoldable pub same_table : Bool
  unfolding op_table
  same_table = is_same op_table earlier.table || is_same op_table earlier.new_table

  unfoldable pub same_object : Bool
  same_object = is_same (or_entry op.name op.index_name) (or_entry earlier.name earlier.index_name)

  unfoldable pub same_columns : Bool
  same_columns = not (texts_eq op.columns []) && texts_eq op.columns earlier.columns

  unfoldable pub earlier_column : Option Text
  earlier_column = get_or earlier.column earlier.new_name

  -- The conditions of the inner loop, in order.
  unfoldable pub replaces_object : Bool
  unfolding same_table same_object same_columns
  replaces_object =
      (same_table && is_key_operation op.type)
      && (same_object || same_columns && text_eq (object_of op.type) (object_of earlier.type))

  unfoldable pub uses_temporary : Bool
  unfolding same_table
  uses_temporary = same_table && is_same op.temporary earlier.column

  unfoldable pub follows_table : Bool
  unfolding same_table
  follows_table =
      same_table
      && text_in earlier.type (
          map codes
            ("create_table" ∷ "rename_table" ∷ "recreate_sq_table" ∷ "recreate_ch_table" ∷ []))

  unfoldable pub covers_column : Bool
  unfolding same_table earlier_column
  covers_column =
      (same_table && is_key_operation op.type)
      && text_in earlier.type (
          map codes
            ("add_column" ∷ "rename_column" ∷ "alter_column_type" ∷ "safe_type_contract" ∷ []))
      && (op.has_expression || is_in earlier_column op.columns)

  unfoldable pub same_column : Bool
  unfolding same_table earlier_column
  same_column = same_table && is_same op.column earlier_column

  unfoldable pub references_created : Bool
  references_created =
      entry_eq op.referenced_table earlier.table && text_eq earlier.type (codes "create_table")

  unfoldable pub follows_schema : Bool
  unfolding op_table
  follows_schema = text_eq earlier.type (codes "create_schema") && elim op_table [
    | none ↦ false
    | some t ↦ not (text_eq t []) && has_prefix (str_entry earlier.schema ++ 46 ∷ []) t
  ]

  unfoldable pub needs_earlier : List Text → Bool
  unfolding replaces_object uses_temporary follows_table covers_column same_column
      references_created follows_schema
  needs_earlier references =
      replaces_object
      || uses_temporary
      || follows_table
      || covers_column
      || same_column
      || references_created
      || is_in (get_or earlier.table earlier.new_table) references
      || follows_schema

  -- `name in types`, for a candidate that changes a type
  unfoldable pub needs_type : Bool
  needs_type =
      not (text_eq earlier.id op.id)
      && text_in earlier.type (
          map codes
            ("create_type" ∷ "create_domain" ∷ "alter_domain" ∷ "alter_enum_add_value" ∷ []))
      && is_in (or_entry (or_entry earlier.enum_name earlier.domain_name) earlier.name)
          (op.type_references ++ op.referenced_types)

-- The ids of the operations that pass a test.
unfoldable pub ids_where : (Operation → Bool) → List Operation → List Text
ids_where test [] = []
ids_where test (o ∷ os) = let rest = ids_where test os in if test o then o.id ∷ rest else rest

-- `dependencies[op["id"]]`, from the operations before it and from all; a set as a list.
unfoldable pub dependencies_of : List Text → List Operation → List Operation → Operation → List Text
unfolding ids_where
dependencies_of references earlier ops op =
    op.depends_on
    ++ (ids_where (λ e. needs_earlier op e references) earlier
        ++ ids_where (λ c. needs_type op c) ops)
