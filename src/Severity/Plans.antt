-- ===== src/Severity/Plans.antt =====
-- `severity_metadata`, `bind_plan` and `read_trusted_plan` of dbwarden/engine/safety/plans.py.
--
-- Parameters: what the classification reads of an operation (`operation`, which raises for values that
-- `classify_operation` cannot read), the digest, and the checks of a data bundle, which give the
-- message of the error they raise.
use dbwarden.Common.{
  ℕ, suc, Bool, true, false, List, [], ◌∷◌, ◌++◌, map, if◌then◌else◌, Text, text_eq, codes, Outcome,
  ok, err, ◌>>=◌,
}
use dbwarden.Version.Next.{decimal}
use dbwarden.Severity.Levels.{Safety, safe, info, warn, critical, unknown, safety_of}
use dbwarden.Severity.Operations.{
  Operation, Backend, classify_operation, required_flags, file_level,
}
use dbwarden.Severity.Documents.{
  Document, string, list, dict, Fields, no_fields, items, get, has, set,
}
use dbwarden.Severity.Sealing.{Distrust, malformed_plan, keyed_hash}

-- `Safety.value`
abbrev pub value_of : Safety → Text
value_of safe = codes "SAFE"
value_of info = codes "INFO"
value_of warn = codes "WARN"
value_of critical = codes "CRITICAL"
value_of unknown = codes "UNKNOWN"

-- The exceptions that `read_trusted_plan` catches at its end.
pub data PlanError : Type 0 where
  key_error type_error value_error : PlanError

abbrev pub require : Bool → Distrust → Outcome Distrust (Unit {0})
require true reason = ok tt
require false reason = err reason

abbrev pub caught : {A : Type 0} → Outcome PlanError A → Outcome Distrust A
caught (ok a) = ok a
caught (err e) = err malformed_plan

-- `Safety(value)`
unfoldable pub level_of : Document → Outcome PlanError Safety
level_of (string t) = elim (safety_of t) [ ok level ↦ ok level | err e ↦ err value_error ]
level_of _ = err value_error

-- `f"op:{index}"`
unfoldable pub id_of : ℕ → Fields → Document
id_of index op =
    if has (codes "id") op then get (codes "id") op else string (codes "op:" ++ decimal index index)

-- `if isinstance(op.get(key), str): entry[key] = op[key]`
unfoldable pub copy_text : Text → Fields → Fields → Fields
copy_text key op entry = elim (get key op) [ string t ↦ set key (string t) entry | _ ↦ entry ]

-- `op["type"]`
unfoldable pub type_of : Fields → Outcome PlanError Document
type_of op = if has (codes "type") op then ok (get (codes "type") op) else err key_error

unfoldable pub entry_of : ℕ → Fields → Document → Safety → Fields
entry_of index op kind level = copy_text (codes "column") op (
    copy_text (codes "table") op (
      set (codes "severity") (string (value_of level))
        (set (codes "kind") kind (set (codes "id") (id_of index op) no_fields))))

-- The entry of `typed` for the provenance.
unfoldable pub anchor : Text → Text
anchor provenance =
    if text_eq provenance (codes "generated") then codes "upgrade_ops" else codes "operations"

-- `plan.get("backend", "")`; any other value than a text compares unequal to the names of backends.
unfoldable pub backend_of : Document → Text
backend_of (string t) = t
backend_of _ = []

module _ {Value Types : Type 0} (b : Backend Value Types)
    (operation : Fields → Outcome PlanError (Operation Value Types)) where
  unfoldable pub operations : List Fields → Outcome PlanError (List (Operation Value Types))
  operations [] = ok []
  operations (op ∷ ops) = do first ← operation op; rest ← operations ops; ok (first ∷ rest)

  -- The loop of `severity_metadata`.
  unfoldable pub entries_from : ℕ → List Fields → Text → Outcome PlanError (List Fields)
  entries_from index [] backend = ok []
  entries_from index (op ∷ ops) backend = do
    kind ← type_of op
    first ← operation op
    rest ← entries_from (suc index) ops backend
    ok (entry_of index op kind (classify_operation b backend first) ∷ rest)

  unfoldable pub severity_metadata : List Fields → Text → Text → Outcome PlanError Fields
  severity_metadata ops backend provenance = do
    entries ← entries_from 0 ops backend
    read ← operations ops
    ok (
        set (codes "file") (string (value_of (file_level b read backend))) (
          set (codes "ops") (list (items (map dict entries)))
            (set (codes "provenance") (string provenance) no_fields)))

  module _ {Key : Type 0} (digest : Key → Text → Text) where
    unfoldable pub bind_plan :
        Key → Fields → Text → List Fields → Text → Text → Outcome PlanError Fields
    bind_plan key plan content ops backend provenance = do
      severity ← severity_metadata ops backend provenance
      read ← operations ops
      ok (
          set (anchor provenance) (list (items (map dict ops))) (
            set (codes "required_flags") (list (items (map string (required_flags b read backend))))
              (set (codes "severity") (dict severity) (
                set (codes "content_hash") (string (keyed_hash digest key content)) (
                  set (codes "backend") (string backend)
                    (set (codes "schema_version") (string (codes "1.1")) plan))))))
