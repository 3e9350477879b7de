-- ===== src/Severity/PlanTests.antt =====
-- A plan of a created and a dropped table, bound and read back, and the theorems at it.
use dbwarden.Common.{
  ℕ, ◌≡◌, ◌≢◌, refl, true, false, none, some, List, [], ◌∷◌, Text, codes, Outcome, ok, err, text_eq,
  text_lt, text_in, has_prefix, ap, ◌∙◌,
}
use dbwarden.Version.Next.{decimal}
use dbwarden.Severity.Levels.{info, warn, critical, unknown, safety_of}
use dbwarden.Severity.Operations.{
  Operation, Backend, base_level, classify_operation, required_flags, file_level, info_ops,
  warn_ops, critical_ops, classify_kind, classify_rest, classify_type_change, with_declaration,
  unsafe_column, is_computed,
}
use dbwarden.Severity.Documents.{
  Document, null, string, dict, Fields, no_fields, field, get, has, set, truthy, document_eq,
}
use dbwarden.Severity.Sealing.{
  Distrust, content_hash_mismatch, missing_key, Place, in_project, resolve_bind_key,
  resolve_verify_key, place_after, keyed_hash, replace_cr, replace_crlf, lines_from, splitlines,
}
use dbwarden.Severity.Plans.{
  PlanError, level_of, id_of, copy_text, type_of, entry_of, anchor, backend_of, operations,
  entries_from, severity_metadata, bind_plan,
}
use dbwarden.Severity.Categories.{check_category}
use dbwarden.Severity.Trust.{
  CheckError, entry_id, read_entries, max_of, provenance_of, flags_of, is_data_plan, typed_dicts,
  typed_operations, check_derived, check_typed, check_hash, check_bundle, check_severity,
  check_content, read_trusted_plan, file_severity,
}
use dbwarden.Severity.Trusted.{
  IsDerived, IsSealed, read_trusted_plan-IsSealed, read_trusted_plan-IsDerived,
}
use dbwarden.Severity.BindLaws.{provenance}
use dbwarden.Severity.Bound.{IsTyped, HasIds}
use dbwarden.Severity.Accepted.{read_trusted_plan-bind_plan}

abbrev plain : Backend ℕ ℕ
plain = record {
  upper = λ t. t;
  classify_pg_type_change = λ n. warn;
  classify_ch_column_change = λ k n. info;
  classify_ch_options_change = λ k. warn;
}

abbrev of_kind : Text → Operation ℕ ℕ
of_kind kind = record {
  kind = kind;
  plugin_safety = none;
  data_severity = none;
  key = none;
  bounded_key = false;
  concurrently = false;
  to_nullable = false;
  nullable = true;
  volatile_default = false;
  default = none;
  lossy = false;
  drop_old_after_swap = false;
  rollback_kind = none;
  types = none;
  changes = [];
  change = 0;
}

abbrev text_or_empty : Document → Text
text_or_empty (string t) = t
text_or_empty _ = []

abbrev read_operation : Fields → Outcome PlanError (Operation ℕ ℕ)
read_operation d = ok (of_kind (text_or_empty (get (codes "type") d)))

-- A stand-in for the digest: the key in front of the content.
abbrev tag : ℕ → Text → Text
tag key content = key ∷ content

abbrev no_bundle : Fields → Outcome CheckError (Unit {0})
no_bundle plan = ok tt

abbrev no_spec : Document → Outcome CheckError (Unit {0})
no_spec v = ok tt

abbrev two_operations : List Fields
two_operations =
    field (codes "id") (string (codes "a"))
      (field (codes "type") (string (codes "create_table")) no_fields)
    ∷ field (codes "type") (string (codes "drop_table")) no_fields
    ∷ []

abbrev sql : Text
sql = codes "DROP TABLE t;\r\n"

-- A project without a key: the new key is 7.
abbrev project : Place ℕ
project = in_project none

abbrev postgresql : Text
postgresql = codes "postgresql"

planning : Unit {0}
unfolding get has set text_eq text_lt text_in decimal safety_of base_level classify_operation
    required_flags file_level info_ops warn_ops critical_ops classify_kind classify_rest
    classify_type_change with_declaration unsafe_column is_computed truthy document_eq
    resolve_bind_key resolve_verify_key place_after keyed_hash replace_cr replace_crlf lines_from
    splitlines level_of id_of copy_text type_of entry_of anchor backend_of operations entries_from
    severity_metadata bind_plan check_category entry_id read_entries max_of provenance_of flags_of
    is_data_plan typed_dicts typed_operations check_derived check_typed check_hash check_bundle
    check_severity check_content read_trusted_plan file_severity has_prefix
planning = tt

abbrev bound_fields : Outcome PlanError Fields → Fields
bound_fields (ok d) = d
bound_fields (err e) = no_fields

abbrev bound : Fields
bound = bound_fields (
    bind_plan plain read_operation tag (resolve_bind_key 1 7 (some project)) no_fields sql
      two_operations postgresql (codes "generated"))

abbrev read_in : Place ℕ → Fields → Text → Outcome Distrust Fields
read_in place plan content =
    read_trusted_plan plain read_operation tag no_bundle no_spec 1 place (ok (dict plan))
      (ok content)

severity_of_two :
    file_severity plain read_operation tag no_bundle no_spec 1
      (in_project (some 7))
      (ok (dict bound))
      (ok sql)
    ≡ (critical, none)
unfolding planning
severity_of_two = refl

-- Other line ends are no change of the content; another table is.
same_content : read_in (in_project (some 7)) bound (codes "DROP TABLE t;\n") ≡ ok bound
unfolding planning
same_content = refl

other_content :
    read_in (in_project (some 7)) bound (codes "DROP TABLE u;\n") ≡ err content_hash_mismatch
unfolding planning
other_content = refl

without_key : read_in (in_project none) bound sql ≡ err missing_key
unfolding planning
without_key = refl

trusted_two : read_in (in_project (some 7)) bound sql ≡ ok bound
unfolding planning
trusted_two = refl

without_data : is_data_plan bound ≡ false
unfolding planning
without_data = refl

two_bound :
    bind_plan plain read_operation tag
      (resolve_bind_key 1 7 (some project))
      no_fields
      sql
      two_operations
      postgresql
      (provenance true)
    ≡ ok bound
unfolding planning
two_bound = refl

two_operations-IsTyped : IsTyped two_operations
unfolding planning
two_operations-IsTyped = (refl, (refl, tt))

two_operations-HasIds : HasIds 0 [] two_operations
unfolding planning
two_operations-HasIds = (codes "a", refl, refl, (codes "op:1", refl, refl, tt))

reads-eq :
    (rs ss : List (Operation ℕ ℕ))
    → ◌≡◌ {A = Outcome PlanError (List (Operation ℕ ℕ))} (ok rs) (ok ss)
    → rs ≡ ss
reads-eq rs ss h = cc

two_known :
    (read : List (Operation ℕ ℕ))
    → operations plain read_operation two_operations ≡ ok read
    → file_level plain read postgresql ≢ unknown
unfolding planning
two_known read h e =
    let level : critical ≡ file_level plain read postgresql =
      ap (λ (r : List (Operation ℕ ℕ)). file_level plain r postgresql) (reads-eq _ read h) in
    cc (level ∙ e)

some_two : two_operations ≢ []
some_two e = cc

no_category : get (codes "category") no_fields ≡ null
unfolding planning
no_category = refl

no_data : is_data_plan no_fields ≡ false
unfolding planning
no_data = refl

no_marker : text_in (codes "-- dbwarden: data-bundle") (splitlines sql) ≡ false
unfolding planning
no_marker = refl

read_trusted_plan-IsSealed_example :
    IsSealed plain read_operation tag no_bundle no_spec 1 (in_project (some 7)) (ok sql) bound
read_trusted_plan-IsSealed_example =
    read_trusted_plan-IsSealed plain read_operation tag no_bundle no_spec 1 (in_project (some 7))
      (ok (dict bound)) (ok sql) bound trusted_two

read_trusted_plan-IsDerived_example :
    (severity : Fields) × (provenance : Text) × (ops : List Fields) × (read : List (Operation ℕ ℕ))
    × (get (codes "severity") bound ≡ dict severity)
    × (get (codes "provenance") severity ≡ string provenance)
    × IsDerived plain read_operation tag no_bundle no_spec bound severity provenance ops read
read_trusted_plan-IsDerived_example =
    read_trusted_plan-IsDerived plain read_operation tag no_bundle no_spec 1 (in_project (some 7))
      (ok (dict bound)) (ok sql) bound trusted_two without_data

read_trusted_plan-bind_plan_example :
    read_trusted_plan plain read_operation tag no_bundle no_spec 1
      (place_after 7 project)
      (ok (dict bound))
      (ok sql)
    ≡ ok bound
read_trusted_plan-bind_plan_example =
    read_trusted_plan-bind_plan plain read_operation tag no_bundle no_spec 1 7 project no_fields sql
      two_operations postgresql true bound two_bound no_category no_data some_two
      two_operations-IsTyped two_operations-HasIds two_known no_marker
