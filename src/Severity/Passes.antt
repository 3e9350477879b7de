-- ===== src/Severity/Passes.antt =====
-- What `bind_plan` writes passes the checks of `read_trusted_plan`.
use dbwarden.Common.{
  ◌≡◌, ◌≢◌, refl, Bool, true, false, none, some, List, [], ◌∷◌, ◌||◌, map, any, if◌then◌else◌, Text,
  text_eq, text_in, text_lt, codes, text_eq_refl, Outcome, ok, arith, has_prefix,
}
use dbwarden.Severity.Levels.{Safety, safe, info, warn, critical, unknown, safety_eq}
use dbwarden.Severity.Operations.{
  Operation, Backend, classify_operation, required_flags, file_level,
}
use dbwarden.Severity.Documents.{
  Document, null, string, list, dict, Fields, items, get, has, set, document_eq, document_eq_refl,
}
use dbwarden.Severity.Sealing.{
  Place, outside, in_project, resolve_bind_key, resolve_verify_key, place_after, keyed_hash,
  splitlines,
}
use dbwarden.Severity.Plans.{PlanError, operations, entries_from, severity_metadata}
use dbwarden.Severity.Categories.{check_category}
use dbwarden.Severity.Trust.{
  CheckError, provenance_of, flags_of, is_data_plan, check_derived, check_hash, check_bundle,
  check_severity, check_content,
}
use dbwarden.Severity.CheckLaws.{level_of-value, elements-items}
use dbwarden.Severity.EntryLaws.{Written, read_entries-file_level}
use dbwarden.Severity.BindLaws.{provenance, severity_of}
use dbwarden.Severity.Bound.{IsTyped, HasIds, typed_operations-map, read_entries-Written}

provenance_of-provenance :
    (generated : Bool) → provenance_of (string (provenance generated)) ≡ some (provenance generated)
unfolding provenance_of text_eq
provenance_of-provenance true = refl
provenance_of-provenance false = refl

flags_of-force :
    (test : Bool)
    → flags_of (list (items (map string (if test then codes "--force" ∷ [] else []))))
      ≡ some (list (items (map string (if test then codes "--force" ∷ [] else []))))
unfolding flags_of document_eq text_eq
flags_of-force true = refl
flags_of-force false = refl

pub flags_of-required :
    {Value Types : Type 0} (b : Backend Value Types) (read : List (Operation Value Types))
    (backend : Text)
    → flags_of (list (items (map string (required_flags b read backend))))
      ≡ some (list (items (map string (required_flags b read backend))))
unfolding required_flags
flags_of-required b read backend = flags_of-force (
    any
      (λ op.
        safety_eq (classify_operation b backend op) warn
        || safety_eq (classify_operation b backend op) critical)
      read)

resolve_verify_key-bind :
    {Key : Type 0} (ephemeral created : Key) (place : Place Key)
    → resolve_verify_key ephemeral (place_after created place)
      ≡ ok (resolve_bind_key ephemeral created (some place))
unfolding resolve_verify_key place_after resolve_bind_key
resolve_verify_key-bind ephemeral created outside = refl
resolve_verify_key-bind ephemeral created (in_project none) = refl
resolve_verify_key-bind ephemeral created (in_project (some key)) = refl

keyed_hash-prefix :
    {Key : Type 0} (digest : Key → Text → Text) (key : Key) (content : Text)
    → has_prefix (codes "sha256:") (keyed_hash digest key content) ≡ false
unfolding has_prefix keyed_hash
keyed_hash-prefix digest key content = refl

pub ||-true : (test : Bool) → (test || true) ≡ true
||-true true = refl
||-true false = refl

pub no_spec : (plan : Fields) → is_data_plan plan ≡ false → has (codes "data_spec") plan ≡ false
unfolding is_data_plan
no_spec plan h = ground (arith, h)

known-eq : (level : Safety) → level ≢ unknown → safety_eq level unknown ≡ false
known-eq unknown h = absurd (h refl)
known-eq safe h = refl
known-eq info h = refl
known-eq warn h = refl
known-eq critical h = refl

safety_eq_refl : (level : Safety) → safety_eq level level ≡ true
safety_eq_refl unknown = refl
safety_eq_refl safe = refl
safety_eq_refl info = refl
safety_eq_refl warn = refl
safety_eq_refl critical = refl

module _ {Value Types Key : Type 0} (b : Backend Value Types)
    (operation : Fields → Outcome PlanError (Operation Value Types)) (digest : Key → Text → Text)
    (verify_bundle : Fields → Outcome CheckError (Unit {0}))
    (validate_spec : Document → Outcome CheckError (Unit {0})) where
  -- The block that `severity_metadata` gives passes its checks.
  pub check_severity-metadata :
      (generated : Bool) (backend : Text) (ops entries : List Fields)
      (read : List (Operation Value Types))
      → Written b operation backend 0 ops read entries
      → IsTyped ops
      → HasIds 0 [] ops
      → file_level b read backend ≢ unknown
      → check_severity b operation digest verify_bundle validate_spec
          (severity_of b operation digest generated backend entries read)
        ≡ ok (provenance generated, map dict entries)
  unfolding check_severity get set text_eq text_lt
  check_severity-metadata generated backend ops entries read w typed ids known =
      let (levels, e) = read_entries-Written b operation backend [] w typed ids in
      rw
        (
          provenance_of-provenance generated,
          level_of-value (file_level b read backend),
          elements-items (map dict entries),
          e,
          read_entries-file_level b operation backend [] levels w e,
          safety_eq_refl (file_level b read backend),
          known-eq (file_level b read backend) known,
        )
        refl

  pub check_derived-metadata :
      (generated : Bool) (backend : Text) (ops entries : List Fields)
      (read : List (Operation Value Types))
      → entries_from b operation 0 ops backend ≡ ok entries
      → operations b operation ops ≡ ok read
      → IsTyped ops
      → check_derived b operation digest verify_bundle validate_spec
          (list (items (map dict ops)))
          backend
          (provenance generated)
          (map dict entries)
          (list (items (map string (required_flags b read backend))))
        ≡ ok tt
  unfolding check_derived severity_metadata get set text_eq text_lt
  check_derived-metadata generated backend ops entries read e1 e2 typed =
      rw
        (
          typed_operations-map ops typed,
          e1,
          e2,
          document_eq_refl (list (items (map dict entries))),
          document_eq_refl (list (items (map string (required_flags b read backend)))),
        )
        refl

  pub has-split :
      (generated : Bool) (backend : Text) (entries : List Fields)
      (read : List (Operation Value Types))
      → has (codes "split") (severity_of b operation digest generated backend entries read) ≡ false
  unfolding has set text_eq text_lt
  has-split generated backend entries read = refl

  pub check_content-bound :
      (ephemeral created : Key) (place : Place Key) (plan bound severity : Fields) (content : Text)
      → get (codes "content_hash") bound
        ≡ string (keyed_hash digest (resolve_bind_key ephemeral created (some place)) content)
      → get (codes "category") bound ≡ null
      → has (codes "data_spec") bound ≡ false
      → has (codes "split") severity ≡ false
      → text_in (codes "-- dbwarden: data-bundle") (splitlines content) ≡ false
      → check_content b operation digest verify_bundle validate_spec ephemeral
          (place_after created place)
          (ok content)
          bound
          severity
        ≡ ok tt
  unfolding check_content check_category check_hash check_bundle
  check_content-bound ephemeral created place plan bound severity content h c d s m =
      let key = resolve_bind_key ephemeral created (some place) in
      rw
        (
          s,
          c,
          h,
          keyed_hash-prefix digest key content,
          resolve_verify_key-bind ephemeral created place,
          text_eq_refl (keyed_hash digest key content),
          d,
          m,
        )
        refl
