-- ===== src/Naming/Truncate.antt =====
-- `_truncate` and `_pluralize` of dbwarden/engine/migration_name.py.
use Prim.Native.String.{String}
use dbwarden.Common.{
  ℕ, zero, suc, ◌+◌, ◌-◌, Option, none, some, List, [], ◌∷◌, ◌++◌, map, leb, ltb, ◌==◌,
  if◌then◌else◌, Text, text_eq, text_in, codes, length,
}

-- `singular_to_plural`
unfoldable pub singular_to_plural : List (Text × Text)
singular_to_plural =
    map (λ (p : String × String). (codes p.0, codes p.1))
      (("add_column", "add_columns")
        ∷ ("drop_column", "drop_columns")
        ∷ ("rename_column", "rename_columns")
        ∷ ("create_table", "create_tables")
        ∷ ("drop_table", "drop_tables")
        ∷ ("add_index", "add_indexes")
        ∷ ("drop_index", "drop_indexes")
        ∷ ("add_foreign_key", "add_foreign_keys")
        ∷ ("drop_foreign_key", "drop_foreign_keys")
        ∷ ("add_constraint", "add_constraints")
        ∷ ("drop_constraint", "drop_constraints")
        ∷ ("alter_column_type", "alter_column_types")
        ∷ ("alter_column_nullable", "alter_column_nullables")
        ∷ ("alter_column_default", "alter_column_defaults")
        ∷ ("recreate_ch_table", "recreate_ch_tables")
        ∷ ("create_domain", "create_domains")
        ∷ ("drop_domain", "drop_domains")
        ∷ ("create_sequence", "create_sequences")
        ∷ ("drop_sequence", "drop_sequences")
        ∷ ("refresh_matview", "refresh_matviews")
        ∷ ("alter_pg_rls", "alter_pg_rls")
        ∷ ("add_policy", "add_policies")
        ∷ ("drop_policy", "drop_policies")
        ∷ ("alter_policy", "alter_policies")
        ∷ ("add_grant", "add_grants")
        ∷ ("revoke_grant", "revoke_grants")
        ∷ ("alter_pg_storage_param", "alter_pg_storage_params")
        ∷ ("validate_constraint", "validate_constraints")
        ∷ ("alter_pg_column_meta", "alter_pg_column_metas")
        ∷ ("alter_pg_table", "alter_pg_tables")
        ∷ ("create_type", "create_types")
        ∷ ("drop_type", "drop_types")
        ∷ ("alter_enum_add_value", "alter_enum_add_values")
        ∷ [])

unfoldable pub plural_in : List (Text × Text) → Text → Option Text
plural_in [] operation = none
plural_in ((singular, plural) ∷ entries) operation =
    let rest = plural_in entries operation in
    if text_eq singular operation then some plural else rest

unfoldable pub pluralize : Text → Text
pluralize operation = elim (plural_in singular_to_plural operation) [
  | some plural ↦ plural
  | none ↦ operation ++ codes "s"
]

-- `op_words`
unfoldable pub op_words : List Text
op_words = map codes (
    "add" ∷ "drop" ∷ "alter" ∷ "create" ∷ "rename" ∷ "adds" ∷ "drops" ∷ "alters" ∷ "creates"
    ∷ "renames" ∷ "add_columns" ∷ "drop_columns" ∷ "rename_columns" ∷ "create_tables"
    ∷ "drop_tables" ∷ "add_indexes" ∷ "drop_indexes" ∷ "add_foreign_keys" ∷ "drop_foreign_keys"
    ∷ "add_constraints" ∷ "drop_constraints" ∷ "recreate_ch_table" ∷ "recreate_ch_tables"
    ∷ "alter_column_type" ∷ "alter_column_types" ∷ "alter_column_nullable"
    ∷ "alter_column_nullables" ∷ "alter_column_default" ∷ "alter_column_defaults"
    ∷ "refresh_matview" ∷ "refresh_matviews" ∷ "alter_pg_rls" ∷ "add_policy" ∷ "drop_policy"
    ∷ "alter_policy" ∷ "add_policies" ∷ "drop_policies" ∷ "alter_policies" ∷ "add_grant"
    ∷ "revoke_grant" ∷ "add_grants" ∷ "revoke_grants" ∷ "alter_pg_storage_param"
    ∷ "alter_pg_storage_params" ∷ "validate_constraint" ∷ "validate_constraints"
    ∷ "alter_pg_column_meta" ∷ "alter_pg_column_metas" ∷ "alter_pg_table" ∷ "alter_pg_tables"
    ∷ "create_type" ∷ "drop_type" ∷ "create_types" ∷ "drop_types" ∷ "alter_enum_add_value"
    ∷ "alter_enum_add_values" ∷ [])

-- A character in front of the first part.
unfoldable pub extend_part : ℕ → List Text → List Text
extend_part c [] = (c ∷ []) ∷ []
extend_part c (part ∷ parts) = (c ∷ part) ∷ parts

-- `name.split("_")`
unfoldable pub split_low : Text → List Text
unfolding extend_part
split_low [] = [] ∷ []
split_low (c ∷ t) = let rest = split_low t in if c == 95 then [] ∷ rest else extend_part c rest

-- `"_".join(parts)`
abbrev pub join_low : List Text → Text
join_low [] = []
join_low (part ∷ []) = part
join_low (part ∷ next ∷ parts) = part ++ 95 ∷ join_low (next ∷ parts)

-- The loop over the parts: the leading operation words, and the parts from the first other one on.
unfoldable pub operation_words : List Text → List Text × List Text
operation_words [] = ([], [])
operation_words (part ∷ parts) =
    let (operation, identifiers) = operation_words parts in
    if text_in part op_words then (part ∷ operation, identifiers) else ([], part ∷ parts)

-- `part[:n]`
unfoldable pub take_chars : ℕ → Text → Text
take_chars zero t = []
take_chars (suc n) [] = []
take_chars (suc n) (c ∷ t) = c ∷ take_chars n t

-- The loop over the identifiers, with `remaining` or 0 where it is negative: the parts it appends.
unfoldable pub fit : ℕ → List Text → List Text
fit remaining [] = []
fit zero (part ∷ parts) = []
fit (suc r) (part ∷ parts) =
    let rest = fit (suc r - (length part + 1)) parts in
    if ltb (suc r) (length part) then take_chars (suc r) part ∷ [] else part ∷ rest

unfoldable pub truncate : Text → Text
truncate name =
    let (operation, identifiers) = operation_words (split_low name) in
    if leb (length name) 72
    then name
    else join_low (operation ++ fit (72 - (length (join_low operation) + 1)) identifiers)
