-- ===== src/Severity/Trust.antt =====
-- `read_trusted_plan` of dbwarden/engine/safety/plans.py: the checks of a plan sidecar, in order.
use dbwarden.Common.{
  Bool, true, false, Option, none, some, List, [], ◌∷◌, ◌||◌, not, all, map, if◌then◌else◌, Text,
  text_eq, text_in, codes, Outcome, ok, err, ◌>>=◌, has_prefix,
}
use dbwarden.Severity.Levels.{Safety, safe, unknown, safety_eq, max_level}
use dbwarden.Severity.Operations.{Operation, Backend, required_flags}
use dbwarden.Severity.Documents.{
  Document, null, string, list, dict, Fields, elements, items, get, has, truthy, document_eq,
}
use dbwarden.Severity.Sealing.{
  Distrust, missing_plan, no_typed_ops_anchor, legacy_hash, invalid_plan_object,
  no_trusted_provenance, invalid_operation_list, invalid_operation_metadata, duplicate_operation_id,
  file_severity_mismatch, unclassified_operations, invalid_required_flags, invalid_typed_operations,
  metadata_mismatch, flags_mismatch, invalid_split, content_hash_mismatch, data_execution_missing,
  malformed_plan, bundle, Place, resolve_verify_key, keyed_hash, splitlines,
}
use dbwarden.Severity.Categories.{check_category}
use dbwarden.Severity.Plans.{
  PlanError, require, caught, level_of, anchor, backend_of, operations, severity_metadata,
}

-- A file is missing, or it cannot be read or parsed.
pub data Unread : Type 0 where
  missing unreadable : Unread

-- The exceptions of `verify_bundle` and `validate_spec`: with a message, another one, or that of a
-- missing file.
pub data CheckError : Type 0 where
  refused : Text → CheckError
  failed file_missing : CheckError

abbrev pub read_file : {A : Type 0} → Outcome Unread A → Outcome Distrust A
read_file (ok a) = ok a
read_file (err missing) = err missing_plan
read_file (err unreadable) = err malformed_plan

abbrev pub or_reason : {A : Type 0} → Distrust → Option A → Outcome Distrust A
or_reason reason none = err reason
or_reason reason (some a) = ok a

abbrev pub checked : Outcome CheckError (Unit {0}) → Outcome Distrust (Unit {0})
checked (ok u) = ok tt
checked (err (refused [])) = err malformed_plan
checked (err (refused (c ∷ t))) = err (bundle (c ∷ t))
checked (err failed) = err malformed_plan
checked (err file_missing) = err missing_plan

abbrev pub as_dict : Document → Option Fields
as_dict (dict d) = some d
as_dict _ = none

abbrev pub as_list : Document → Option (List Document)
as_list (list xs) = some (elements xs)
as_list _ = none

abbrev pub as_text : Document → Option Text
as_text (string t) = some t
as_text _ = none

abbrev pub is_some : {A : Type 0} → Option A → Bool
is_some none = false
is_some (some a) = true

-- The ID and the fields of an entry of `ops`.
unfoldable pub entry_id : Document → Option (Text × Fields)
entry_id (dict entry) = elim (get (codes "id") entry) [
  | string i ↦ if is_some (as_text (get (codes "kind") entry)) then some (i, entry) else none
  | _ ↦ none
]
entry_id _ = none

-- The loop over `ops`, with the IDs it has seen.
unfoldable pub read_entries : List Text → List Document → Outcome Distrust (List Safety)
read_entries seen [] = ok []
read_entries seen (op ∷ ops) = do
  entry ← or_reason invalid_operation_metadata (entry_id op)
  fresh ← require (not (text_in entry.0 seen)) duplicate_operation_id
  level ← caught (level_of (get (codes "severity") entry.1))
  rest ← read_entries (entry.0 ∷ seen) ops
  ok (level ∷ rest)

-- `max(levels, default=Safety.SAFE, key=LEVELS.index)`
unfoldable pub max_of : List Safety → Safety
max_of [] = safe
max_of (level ∷ levels) = max_level level (max_of levels)

unfoldable pub provenance_of : Document → Option Text
provenance_of (string t) =
    if text_eq t (codes "generated") || text_eq t (codes "static") then some t else none
provenance_of _ = none

-- `required_flags`, a list in which every flag is `--force`
unfoldable pub flags_of : Document → Option Document
flags_of (list flags) =
    if all (λ flag. document_eq flag (string (codes "--force"))) (elements flags)
    then some (list flags)
    else none
flags_of _ = none

unfoldable pub is_data_plan : Fields → Bool
is_data_plan plan =
    has (codes "data_spec") plan
    || has (codes "data_execution") plan
    || has (codes "data_bundle") plan

-- The dicts of a list, each with a text as its `type`.
unfoldable pub typed_dicts : List Document → Option (List Fields)
typed_dicts [] = some []
typed_dicts (dict op ∷ ops) =
    let rest = typed_dicts ops in
    if is_some (as_text (get (codes "type") op))
    then elim rest [ none ↦ none | some ds ↦ some (op ∷ ds) ]
    else none
typed_dicts (op ∷ ops) = none

unfoldable pub typed_operations : Document → Option (List Fields)
typed_operations (list xs) = typed_dicts (elements xs)
typed_operations _ = none

module _ {Value Types Key : Type 0} (b : Backend Value Types)
    (operation : Fields → Outcome PlanError (Operation Value Types)) (digest : Key → Text → Text)
    (verify_bundle : Fields → Outcome CheckError (Unit {0}))
    (validate_spec : Document → Outcome CheckError (Unit {0})) where
  -- `if typed is not None:` with the lines under it
  unfoldable pub check_derived :
      Document → Text → Text → List Document → Document → Outcome Distrust (Unit {0})
  check_derived null backend provenance ops flags = ok tt
  check_derived typed backend provenance ops flags = do
    typed_ops ← or_reason invalid_typed_operations (typed_operations typed)
    metadata ← caught (severity_metadata b operation typed_ops backend provenance)
    same_ops ←
        require (document_eq (get (codes "ops") metadata) (list (items ops))) metadata_mismatch
    read ← caught (operations b operation typed_ops)
    require (document_eq (list (items (map string (required_flags b read backend)))) flags)
        flags_mismatch

  unfoldable pub check_typed :
      Fields → Text → List Document → Document → Outcome Distrust (Unit {0})
  check_typed plan provenance ops flags = do
    anchored ←
        require (is_data_plan plan || truthy (get (anchor provenance) plan)) no_typed_ops_anchor
    check_derived (get (anchor provenance) plan) (backend_of (get (codes "backend") plan))
        provenance ops flags

  unfoldable pub check_hash : Key → Place Key → Text → Document → Outcome Distrust (Unit {0})
  check_hash ephemeral place content (string stored) = do
    keyed ← require (not (has_prefix (codes "sha256:") stored)) legacy_hash
    key ← resolve_verify_key ephemeral place
    require (text_eq stored (keyed_hash digest key content)) content_hash_mismatch
  check_hash ephemeral place content _ = err legacy_hash

  unfoldable pub check_bundle : Fields → Text → Outcome Distrust (Unit {0})
  check_bundle plan content =
      if has (codes "data_spec") plan
        || text_in (codes "-- dbwarden: data-bundle") (splitlines content)
      then (checked (verify_bundle plan)
          >>= (λ u. require (has (codes "data_spec") plan) malformed_plan)
          >>= (λ u. checked (validate_spec (get (codes "data_spec") plan)))
          >>= (λ u.
              require (is_some (as_dict (get (codes "data_execution") plan)))
                data_execution_missing))
      else ok tt

  -- The severity block, with the level of the file, its entries and its provenance.
  unfoldable pub check_severity : Fields → Outcome Distrust (Text × List Document)
  check_severity severity = do
    provenance ← or_reason no_trusted_provenance (provenance_of (get (codes "provenance") severity))
    file_level ← caught (level_of (get (codes "file") severity))
    ops ← or_reason invalid_operation_list (as_list (get (codes "ops") severity))
    levels ← read_entries [] ops
    same_level ← require (safety_eq file_level (max_of levels)) file_severity_mismatch
    classified ← require (not (safety_eq file_level unknown)) unclassified_operations
    ok (provenance, ops)

  -- The checks behind the severity block.
  unfoldable pub check_content :
      Key → Place Key → Outcome Unread Text → Fields → Fields → Outcome Distrust (Unit {0})
  check_content ephemeral place content_file plan severity = do
    content ← read_file content_file
    split ←
        require
          (not (has (codes "split") severity) || is_some (as_dict (get (codes "split") severity)))
          invalid_split
    category ← check_category (get (codes "category") plan) (get (codes "split") severity) content
    hash ← check_hash ephemeral place content (get (codes "content_hash") plan)
    check_bundle plan content

  unfoldable pub read_trusted_plan :
      Key → Place Key → Outcome Unread Document → Outcome Unread Text → Outcome Distrust Fields
  read_trusted_plan ephemeral place plan_file content_file = do
    document ← read_file plan_file
    plan ← or_reason invalid_plan_object (as_dict document)
    severity ← or_reason missing_plan (as_dict (get (codes "severity") plan))
    trusted ← check_severity severity
    flags ← or_reason invalid_required_flags (flags_of (get (codes "required_flags") plan))
    derived ← check_typed plan trusted.0 trusted.1 flags
    sealed ← check_content ephemeral place content_file plan severity
    ok plan

  -- `Safety(plan["severity"]["file"])` cannot raise for a plan that is trusted.
  abbrev trusted_level : Document → Safety
  trusted_level (dict severity) = elim (level_of (get (codes "file") severity)) [
    | ok level ↦ level
    | err e ↦ unknown
  ]
  trusted_level _ = unknown

  abbrev level_in : Outcome Distrust Fields → Safety × Option Distrust
  level_in (err reason) = (unknown, some reason)
  level_in (ok plan) = (trusted_level (get (codes "severity") plan), none)

  -- The level and the reason; no reason is the empty text.
  unfoldable pub file_severity :
      Key → Place Key → Outcome Unread Document → Outcome Unread Text → Safety × Option Distrust
  file_severity ephemeral place plan_file content_file =
      level_in (read_trusted_plan ephemeral place plan_file content_file)
