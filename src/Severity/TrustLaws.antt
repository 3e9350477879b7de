-- ===== src/Severity/TrustLaws.antt =====
-- What holds of a plan that `read_trusted_plan` trusts.
use dbwarden.Common.{
  ◌≡◌, refl, Bool, true, false, some, List, [], ◌∷◌, ◌||◌, not, map, all, Text, text_eq, text_lt,
  codes, Outcome, ok, err, >>=-eq-ok, Option-cases, inl, inr, sym, ap, ◌∙◌, arith, Bool-cases,
}
use dbwarden.Severity.Levels.{Safety, unknown, safety_eq, safety_eq_sound}
use dbwarden.Severity.Operations.{Operation, Backend, required_flags}
use dbwarden.Severity.Documents.{
  Document, null, string, list, dict, Items, Fields, no_items, item, elements, items, get, set,
  truthy, document_eq, document_eq_sound,
}
use dbwarden.Severity.Sealing.{
  Distrust, no_trusted_provenance, invalid_operation_list, file_severity_mismatch,
  unclassified_operations, invalid_typed_operations, metadata_mismatch, flags_mismatch,
}
use dbwarden.Severity.Plans.{
  PlanError, require, caught, value_of, level_of, operations, entries_from, severity_metadata,
}
use dbwarden.Severity.Trust.{
  Unread, missing, unreadable, CheckError, read_file, or_reason, as_dict, as_list, is_some, as_text,
  read_entries, max_of, provenance_of, flags_of, typed_dicts, typed_operations, check_derived,
  check_severity,
}
use dbwarden.Severity.CheckLaws.{level_of-eq, elements-items, or_reason-eq, caught-eq, require-eq}

pub as_dict-eq : (v : Document) (d : Fields) → as_dict v ≡ some d → v ≡ dict d
as_dict-eq (dict e) d h = ap dict (cc h)
as_dict-eq _ d h = cc

pub read_file-eq : {A : Type 0} (o : Outcome Unread A) (a : A) → read_file o ≡ ok a → o ≡ ok a
read_file-eq (ok x) a h = cc
read_file-eq (err missing) a h = cc
read_file-eq (err unreadable) a h = cc

pair-eq :
    (s t : Text) (xs ys : List Document)
    → ◌≡◌ {A = Outcome Distrust (Text × List Document)} (ok (s, xs)) (ok (t, ys))
    → (s ≡ t) × (xs ≡ ys)
pair-eq s t xs ys h = (cc h, cc h)

not-true : (test : Bool) → not test ≡ true → test ≡ false
not-true true h = cc
not-true false h = refl

provenance_of-eq : (v : Document) (t : Text) → provenance_of v ≡ some t → v ≡ string t
unfolding provenance_of
provenance_of-eq (string u) t h =
    elim (Bool-cases (text_eq u (codes "generated") || text_eq u (codes "static"))) [
      | inl e ↦ ground (arith, h, e)
      | inr e ↦ ground (arith, h, e)
    ]
provenance_of-eq _ t h = cc

typed_dicts-eq :
    (xs : Items) (ds : List Fields) → typed_dicts (elements xs) ≡ some ds → xs ≡ items (map dict ds)
unfolding typed_dicts
typed_dicts-eq no_items ds h =
    let e : ds ≡ [] = cc h in ap (λ (l : List Fields). items (map dict l)) (sym e)
typed_dicts-eq (item (dict op) xs) ds h =
    elim (Bool-cases (is_some (as_text (get (codes "type") op)))) [
      | inr t ↦ absurd (ground (arith, h, t))
      | inl t ↦ elim (Option-cases (typed_dicts (elements xs))) [
        | inl e ↦ absurd (ground (arith, h, t, e))
        | inr (es, e) ↦
            let same : ds ≡ op ∷ es = ground (arith, h, t, e) in
            ap (item (dict op)) (typed_dicts-eq xs es e)
            ∙ ap (λ (l : List Fields). items (map dict l)) (sym same)
      ]
    ]
typed_dicts-eq (item _ xs) ds h = cc

typed_operations-eq :
    (v : Document) (ds : List Fields)
    → typed_operations v ≡ some ds
    → v ≡ list (items (map dict ds))
unfolding typed_operations
typed_operations-eq (list xs) ds h = ap list (typed_dicts-eq xs ds h)
typed_operations-eq _ ds h = cc

pub flags_of-eq : (v w : Document) → flags_of v ≡ some w → w ≡ v
unfolding flags_of
flags_of-eq (list xs) w h =
    elim (Bool-cases (all (λ flag. document_eq flag (string (codes "--force"))) (elements xs))) [
      | inl t ↦ ground (arith, h, t)
      | inr t ↦ ground (arith, h, t)
    ]
flags_of-eq _ w h = cc

abbrev items_of : Document → Items
items_of (list xs) = xs
items_of _ = no_items

items-injective : (xs ys : List Document) → items xs ≡ items ys → xs ≡ ys
items-injective xs ys h = sym (elements-items xs) ∙ ap elements h ∙ elements-items ys

module _ {Value Types Key : Type 0} (b : Backend Value Types)
    (operation : Fields → Outcome PlanError (Operation Value Types)) (digest : Key → Text → Text)
    (verify_bundle : Fields → Outcome CheckError (Unit {0}))
    (validate_spec : Document → Outcome CheckError (Unit {0})) where
  severity_metadata-eq :
      (ops : List Fields) (backend provenance : Text) (metadata : Fields)
      → severity_metadata b operation ops backend provenance ≡ ok metadata
      → (entries : List Fields) × (read : List (Operation Value Types)) × (entries_from b operation
            0 ops backend
          ≡ ok entries)
        × (operations b operation ops ≡ ok read)
        × (get (codes "ops") metadata ≡ list (items (map dict entries)))
  unfolding severity_metadata set get text_eq text_lt
  severity_metadata-eq ops backend provenance metadata h =
      let (entries, e1, i1) = >>=-eq-ok (entries_from b operation 0 ops backend) _ h in
      let (read, e2, i2) = >>=-eq-ok (operations b operation ops) _ i1 in
      (
        entries,
        read,
        e1,
        e2,
        ap (λ (o : Outcome PlanError Fields). elim o [ ok m ↦ get (codes "ops") m | err e ↦ null ])
            (sym i2),
      )

  -- The entries are those of the typed operations, and the flags are theirs.
  pub check_derived-eq :
      (typed : Document) (backend provenance : Text) (ops : List Document) (flags : Document)
      → truthy typed ≡ true
      → check_derived b operation digest verify_bundle validate_spec typed backend provenance ops
          flags
        ≡ ok tt
      → (typed_ops entries : List Fields) × (read : List (Operation Value Types)) × (typed
          ≡ list (items (map dict typed_ops)))
        × (entries_from b operation 0 typed_ops backend ≡ ok entries)
        × (operations b operation typed_ops ≡ ok read)
        × (ops ≡ map dict entries)
        × (flags ≡ list (items (map string (required_flags b read backend))))
  unfolding check_derived truthy typed_operations
  check_derived-eq null backend provenance ops flags t h = cc
  check_derived-eq (list xs) backend provenance ops flags t h =
      let (typed_ops, e1, i1) =
        >>=-eq-ok (or_reason invalid_typed_operations (typed_operations (list xs))) _ h in
      let (metadata, e2, i2) =
        >>=-eq-ok (caught (severity_metadata b operation typed_ops backend provenance)) _ i1 in
      let (u, e3, i3) =
        >>=-eq-ok
          (require (document_eq (get (codes "ops") metadata) (list (items ops))) metadata_mismatch)
          _ i2 in
      let (read, e4, i4) = >>=-eq-ok (caught (operations b operation typed_ops)) _ i3 in
      let (entries, read', k1, k2, k3) =
        severity_metadata-eq typed_ops backend provenance metadata
          (caught-eq (severity_metadata b operation typed_ops backend provenance) metadata e2) in
      let same = document_eq_sound (get (codes "ops") metadata) (list (items ops)) (
        require-eq metadata_mismatch (document_eq (get (codes "ops") metadata) (list (items ops)))
          e3) in
      (
        typed_ops,
        entries,
        read,
        typed_operations-eq (list xs) typed_ops
            (or_reason-eq invalid_typed_operations (typed_operations (list xs)) typed_ops e1),
        k1,
        caught-eq (operations b operation typed_ops) read e4,
        items-injective ops (map dict entries) (ap items_of (sym same ∙ k3)),
        sym (
            document_eq_sound (list (items (map string (required_flags b read backend)))) flags (
              require-eq flags_mismatch
                (document_eq (list (items (map string (required_flags b read backend)))) flags)
                i4)),
      )
  check_derived-eq _ backend provenance ops flags t h = cc

  pub check_severity-eq :
      (severity : Fields) (provenance : Text) (ops : List Document)
      → check_severity b operation digest verify_bundle validate_spec severity
        ≡ ok (provenance, ops)
      → (level : Safety) × (levels : List Safety) × (get (codes "provenance") severity
          ≡ string provenance)
        × (get (codes "file") severity ≡ string (value_of level))
        × (read_entries [] ops ≡ ok levels)
        × (level ≡ max_of levels)
        × (safety_eq level unknown ≡ false)
  unfolding check_severity
  check_severity-eq severity provenance ops h =
      let (provenance', e1, i1) =
        >>=-eq-ok
          (or_reason no_trusted_provenance (provenance_of (get (codes "provenance") severity))) _
          h in
      let (level, e2, i2) = >>=-eq-ok (caught (level_of (get (codes "file") severity))) _ i1 in
      let (ops', e3, i3) =
        >>=-eq-ok (or_reason invalid_operation_list (as_list (get (codes "ops") severity))) _ i2 in
      let (levels, e4, i4) = >>=-eq-ok (read_entries [] ops') _ i3 in
      let (u, e5, i5) =
        >>=-eq-ok (require (safety_eq level (max_of levels)) file_severity_mismatch) _ i4 in
      let (v, e6, i6) =
        >>=-eq-ok (require (not (safety_eq level unknown)) unclassified_operations) _ i5 in
      let same = pair-eq provenance' provenance ops' ops i6 in
      (
        level,
        levels,
        provenance_of-eq (get (codes "provenance") severity) provenance' (
              or_reason-eq no_trusted_provenance (provenance_of (get (codes "provenance") severity))
                provenance' e1)
            ∙ ap string same.0,
        level_of-eq (get (codes "file") severity) level
            (caught-eq (level_of (get (codes "file") severity)) level e2),
        ap (λ (q : List Document). read_entries [] q) (sym same.1) ∙ e4,
        safety_eq_sound level (max_of levels)
            (require-eq file_severity_mismatch (safety_eq level (max_of levels)) e5),
        not-true (safety_eq level unknown)
            (require-eq unclassified_operations (not (safety_eq level unknown)) e6),
      )
