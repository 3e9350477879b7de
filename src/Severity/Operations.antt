-- ===== src/Severity/Operations.antt =====
-- The severity of an operation, of dbwarden/engine/safety/classifiers.py, and of a plan's
-- operations, `severity_metadata` of dbwarden/engine/safety/plans.py.
use dbwarden.Common.{
  Bool, false, Option, none, some, List, [], ◌∷◌, ◌&&◌, ◌||◌, not, map, any, if◌then◌else◌, Text,
  text_eq, text_in, codes, Outcome, ok, err, ◌==◌,
}
use dbwarden.Severity.Levels.{
  Safety, safe, info, warn, critical, unknown, safety_eq, max_level, severity_level, SeverityError,
}

-- `_INFO_OPS`
unfoldable pub info_ops : List Text
info_ops = map codes (
    "create_table" ∷ "create_view" ∷ "add_column" ∷ "create_schema" ∷ "create_type"
    ∷ "create_domain" ∷ "create_sequence" ∷ "create_extension" ∷ "create_function"
    ∷ "create_composite_type" ∷ "create_event_trigger" ∷ "create_extended_statistics"
    ∷ "create_role" ∷ "add_index" ∷ "create_index" ∷ "add_foreign_key" ∷ "add_unique_constraint"
    ∷ "add_check_constraint" ∷ "add_exclude_constraint" ∷ "add_policy" ∷ "add_grant"
    ∷ "alter_column_comment" ∷ "alter_table_comment" ∷ "alter_column_default" ∷ "drop_not_null"
    ∷ "alter_enum_add_value" ∷ "rename_unique_constraint" ∷ "validate_constraint"
    ∷ "create_ch_agg_target" ∷ "create_ch_named_collection" ∷ "create_ch_settings_profile"
    ∷ "create_ch_role" ∷ "create_ch_user" ∷ "create_ch_quota" ∷ "create_ch_row_policy"
    ∷ "create_pg_extension" ∷ "alter_ch_comment" ∷ "create_trigger" ∷ [])

-- `_WARN_OPS`
unfoldable pub warn_ops : List Text
warn_ops = map codes (
    "rename_column" ∷ "rename_table" ∷ "set_not_null" ∷ "alter_column_type"
    ∷ "alter_column_autoincrement" ∷ "alter_pg_column_meta" ∷ "alter_my_column_meta"
    ∷ "alter_sq_column_meta" ∷ "alter_ch_column" ∷ "alter_ch_dict" ∷ "alter_ch_options"
    ∷ "alter_ch_projection" ∷ "alter_ch_row_policy" ∷ "alter_ch_skip_index"
    ∷ "alter_default_privileges" ∷ "alter_pg_rls" ∷ "alter_pg_table" ∷ "alter_role"
    ∷ "alter_sq_table" ∷ "alter_my_table" ∷ "alter_view" ∷ "detach_partition" ∷ "attach_partition"
    ∷ "drop_ch_named_collection" ∷ "drop_ch_quota" ∷ "drop_ch_role" ∷ "drop_ch_row_policy"
    ∷ "drop_ch_settings_profile" ∷ "drop_ch_user" ∷ "drop_check_constraint" ∷ "drop_composite_type"
    ∷ "drop_domain" ∷ "drop_event_trigger" ∷ "drop_exclude_constraint" ∷ "drop_extended_statistics"
    ∷ "drop_foreign_key" ∷ "drop_function" ∷ "drop_index" ∷ "drop_role" ∷ "drop_schema"
    ∷ "drop_sequence" ∷ "drop_type" ∷ "drop_unique_constraint" ∷ "modify_mv_query"
    ∷ "modify_mv_refresh" ∷ "recreate_sq_table" ∷ "revoke_grant" ∷ "refresh_matview"
    ∷ "alter_trigger" ∷ "alter_column_statistics" ∷ "alter_ch_named_collection"
    ∷ "alter_ch_settings_profile" ∷ "alter_ch_role" ∷ "alter_ch_user" ∷ "alter_ch_quota"
    ∷ "alter_ch_grant" ∷ "alter_policy" ∷ "drop_policy" ∷ "alter_pg_storage_param" ∷ "drop_view"
    ∷ "alter_sequence" ∷ "alter_domain" ∷ "alter_function" ∷ "alter_composite_type"
    ∷ "alter_event_trigger" ∷ "alter_extended_statistics" ∷ "alter_pg_extension"
    ∷ "drop_pg_extension" ∷ "drop_trigger" ∷ "add_projection" ∷ "drop_projection"
    ∷ "recreate_dictionary" ∷ [])

-- `_CRITICAL_OPS`
unfoldable pub critical_ops : List Text
critical_ops = map codes (
    "drop_table" ∷ "drop_column" ∷ "drop_ch_agg_target" ∷ "alter_pg_partition" ∷ "truncate"
    ∷ "safe_type_contract" ∷ "drop_materialized_view" ∷ "recreate_materialized_view" ∷ [])

-- A plugin's declaration; `malformed` if it is no dict or names no plugin. Its severity is `none`
-- if the entry is missing.
pub data Declaration : Type 0 where
  malformed : Declaration
  declared : Option Text → Declaration

-- What the classification reads of an operation. A truth value is that of the entry with its
-- default; `Value` and `Types` stand for what the backends' classifiers are given.
pub record Operation (Value Types : Type 0) : Type 0 where
  pub kind : Text
  pub plugin_safety : Option Declaration
  pub data_severity : Option Text
  pub key : Option Text
  pub bounded_key : Bool
  pub concurrently : Bool
  -- `op.get("to_nullable", op.get("nullable")) is True`
  pub to_nullable : Bool
  -- of the definition, else of the model column, else true
  pub nullable : Bool
  pub volatile_default : Bool
  -- of the definition, else of the model column, if it is a string
  pub default : Option Text
  pub lossy : Bool
  pub drop_old_after_swap : Bool
  pub rollback_kind : Option Text
  -- the two types, normalized, if both are dicts
  pub types : Option Types
  pub changes : List (Text × Value)
  -- the entries `from_value` and `to_value`
  pub change : Value

-- `str.upper` and the classifiers of dbwarden/engine/backends.
pub record Backend (Value Types : Type 0) : Type 0 where
  pub upper : Text → Text
  pub classify_pg_type_change : Types → Safety
  pub classify_ch_column_change : Text → Value → Safety
  pub classify_ch_options_change : Text → Safety

-- `entry == value`, for an entry that may be missing
abbrev pub entry_is : Option Text → Text → Bool
entry_is none value = false
entry_is (some t) value = text_eq t value

-- `entry in {…}`
abbrev pub entry_in : Option Text → List Text → Bool
entry_in none values = false
entry_in (some t) values = text_in t values

unfoldable pub classify_data : Option Text → Safety
classify_data value =
    if entry_is value (codes "INFO")
    then info
    else if entry_is value (codes "WARN")
    then warn
    else if entry_is value (codes "CRITICAL")
    then critical
    else unknown

module _ {Value Types : Type 0} (b : Backend Value Types) where
  -- `isinstance(default, str) and ("(" in default or default.upper() in {…})`
  unfoldable pub is_computed : Option Text → Bool
  is_computed none = false
  is_computed (some d) =
      any (λ c. c == 40) d
      || text_in (b.upper d)
          (map codes ("CURRENT_TIMESTAMP" ∷ "CURRENT_DATE" ∷ "CURRENT_TIME" ∷ []))

  unfoldable pub unsafe_column : Operation Value Types → Bool
  unsafe_column op = not op.nullable || op.volatile_default || is_computed op.default

  unfoldable pub max_change : Text × Value → List (Text × Value) → Safety
  max_change (k, v) [] = b.classify_ch_column_change k v
  max_change (k, v) (c ∷ cs) = max_level (b.classify_ch_column_change k v) (max_change c cs)

  -- The three sets, at the end.
  unfoldable pub classify_kind : Text → Safety
  classify_kind kind =
      if text_in kind critical_ops
      then critical
      else if text_in kind warn_ops
      then warn
      else if text_in kind info_ops
      then info
      else unknown

  -- The branches for a ClickHouse column, options or table, and those behind them.
  unfoldable pub classify_ch_column : Operation Value Types → Safety
  classify_ch_column op = elim op.changes [
    | c ∷ cs ↦ max_change c cs
    | [] ↦ elim op.key [
      | some k ↦
          if text_eq k [] then classify_kind op.kind else b.classify_ch_column_change k op.change
      | none ↦ classify_kind op.kind
    ]
  ]

  unfoldable pub classify_ch_options : Operation Value Types → Safety
  classify_ch_options op = elim op.key [
    | some k ↦ if text_eq k [] then warn else b.classify_ch_options_change k
    | none ↦ warn
  ]

  unfoldable pub classify_rest : Operation Value Types → Safety
  classify_rest op =
      if text_eq op.kind (codes "alter_ch_column")
      then classify_ch_column op
      else if text_in op.kind (map codes ("alter_ch_options" ∷ "alter_ch_table" ∷ []))
      then classify_ch_options op
      else classify_kind op.kind

  unfoldable pub classify_type_change : Text → Operation Value Types → Safety
  classify_type_change backend op =
      if text_eq op.kind (codes "alter_column_type") && text_eq backend (codes "postgresql")
      then elim op.types [ none ↦ classify_rest op | some ts ↦ b.classify_pg_type_change ts ]
      else classify_rest op

  unfoldable pub base_level : Text → Operation Value Types → Safety
  base_level backend op =
      if text_eq op.kind (codes "declarative_data")
      then classify_data op.data_severity
      else if text_eq op.kind (codes "select")
      then safe
      else if text_eq op.kind (codes "alter_pg_storage_param")
          || text_eq op.kind (codes "alter_pg_table")
            && entry_in op.key
                (map codes ("fillfactor" ∷ "pg_fillfactor" ∷ "pg_storage_params" ∷ []))
      then info
      else if text_in op.kind (map codes ("insert" ∷ "update" ∷ "delete" ∷ "backfill" ∷ []))
      then (if op.bounded_key then info else warn)
      else if text_in op.kind (map codes ("add_index" ∷ "create_index" ∷ []))
          && text_eq backend (codes "postgresql")
      then (if op.concurrently then info else warn)
      else if text_eq op.kind (codes "alter_column_nullable")
      then (if op.to_nullable then info else warn)
      else if text_eq op.kind (codes "add_column") && unsafe_column op
      then warn
      else if text_eq op.kind (codes "recreate_ch_table")
      then (if op.lossy
            || op.drop_old_after_swap
            || entry_is op.rollback_kind (codes "irreversible")
          then critical
          else warn)
      else classify_type_change backend op

  -- `declared if level == Safety.UNKNOWN else max(level, declared, …)`, UNKNOWN for an exception
  unfoldable pub join_declared : Safety → Outcome SeverityError Safety → Safety
  join_declared level (ok d) = if safety_eq level unknown then d else max_level level d
  join_declared level (err e) = unknown

  unfoldable pub declared_level : Safety → Option Text → Safety
  declared_level level none = unknown
  declared_level level (some s) = join_declared level (severity_level b.upper s false)

  unfoldable pub with_declaration : Safety → Option Declaration → Safety
  with_declaration level none = level
  with_declaration level (some malformed) = unknown
  with_declaration level (some (declared s)) = declared_level level s

  unfoldable pub classify_operation : Text → Operation Value Types → Safety
  classify_operation backend op = with_declaration (base_level backend op) op.plugin_safety

  unfoldable pub required_flags : List (Operation Value Types) → Text → List Text
  required_flags ops backend =
      if any
        (λ op.
          safety_eq (classify_operation backend op) warn
          || safety_eq (classify_operation backend op) critical)
        ops
      then codes "--force" ∷ []
      else []

  -- `max((Safety(op["severity"]) for op in entries), default=Safety.SAFE, key=LEVELS.index)`: the
  -- severities of the entries are those of the operations.
  unfoldable pub file_level : List (Operation Value Types) → Text → Safety
  file_level [] backend = safe
  file_level (op ∷ ops) backend = max_level (classify_operation backend op) (file_level ops backend)
