-- ===== src/Severity/BindLaws.antt =====
-- What `bind_plan` writes.
use dbwarden.Common.{
  ◌≡◌, Bool, true, false, List, map, Text, text_eq, codes, Outcome, ok, >>=-eq-ok, sym, ap, ◌∙◌,
  subst,
}
use dbwarden.Severity.Operations.{Operation, Backend, required_flags, file_level}
use dbwarden.Severity.Documents.{
  Document, string, list, dict, Fields, no_fields, items, get, has, set, get-set, has-set,
}
use dbwarden.Severity.Sealing.{keyed_hash}
use dbwarden.Severity.Plans.{
  PlanError, value_of, anchor, operations, entries_from, severity_metadata, bind_plan,
}
use dbwarden.Severity.Trust.{is_data_plan}

-- The two provenances.
abbrev pub provenance : Bool → Text
provenance true = codes "generated"
provenance false = codes "static"

fields-eq : (d e : Fields) → ◌≡◌ {A = Outcome PlanError Fields} (ok d) (ok e) → d ≡ e
fields-eq d e h = cc

module _ {Value Types Key : Type 0} (b : Backend Value Types)
    (operation : Fields → Outcome PlanError (Operation Value Types))
    (digest : Key → Text → Text) where
  abbrev pub severity_of : Bool → Text → List Fields → List (Operation Value Types) → Fields
  severity_of generated backend entries read =
      set (codes "file") (string (value_of (file_level b read backend))) (
        set (codes "ops") (list (items (map dict entries)))
          (set (codes "provenance") (string (provenance generated)) no_fields))

  abbrev flags_document : Text → List (Operation Value Types) → Document
  flags_document backend read = list (items (map string (required_flags b read backend)))

  abbrev bound_plan :
      Key
      → Fields
      → Text
      → List Fields
      → Text
      → Bool
      → List Fields
      → List (Operation Value Types)
      → Fields
  bound_plan key plan content ops backend generated entries read =
      set (anchor (provenance generated)) (list (items (map dict ops))) (
        set (codes "required_flags") (flags_document backend read) (
          set (codes "severity") (dict (severity_of generated backend entries read)) (
            set (codes "content_hash") (string (keyed_hash digest key content)) (
              set (codes "backend") (string backend)
                (set (codes "schema_version") (string (codes "1.1")) plan)))))

  -- What a plan that is bound has under the keys that are read.
  pub record IsBound (key : Key) (plan : Fields) (content : Text) (ops : List Fields)
      (backend : Text) (generated : Bool) (entries : List Fields)
      (read : List (Operation Value Types)) (bound : Fields) : Type 0 where
    pub severity : get (codes "severity") bound ≡ dict (severity_of generated backend entries read)
    pub flags : get (codes "required_flags") bound ≡ flags_document backend read
    pub anchored : get (anchor (provenance generated)) bound ≡ list (items (map dict ops))
    pub named : get (codes "backend") bound ≡ string backend
    pub hash : get (codes "content_hash") bound ≡ string (keyed_hash digest key content)
    pub category : get (codes "category") bound ≡ get (codes "category") plan
    pub without : is_data_plan bound ≡ is_data_plan plan
    pub spec : has (codes "data_spec") bound ≡ has (codes "data_spec") plan

  bound_plan-IsBound :
      (key : Key) (plan : Fields) (content : Text) (ops : List Fields) (backend : Text)
      (generated : Bool) (entries : List Fields) (read : List (Operation Value Types))
      → IsBound key plan content ops backend generated entries read
          (bound_plan key plan content ops backend generated entries read)
  unfolding text_eq anchor is_data_plan
  bound_plan-IsBound key plan content ops backend true entries read = record {
    severity = simp get-set;
    flags = simp get-set;
    anchored = simp get-set;
    named = simp get-set;
    hash = simp get-set;
    category = simp get-set;
    without = simp has-set;
    spec = simp has-set;
  }
  bound_plan-IsBound key plan content ops backend false entries read = record {
    severity = simp get-set;
    flags = simp get-set;
    anchored = simp get-set;
    named = simp get-set;
    hash = simp get-set;
    category = simp get-set;
    without = simp has-set;
    spec = simp has-set;
  }

  pub bind_plan-IsBound :
      (key : Key) (plan : Fields) (content : Text) (ops : List Fields) (backend : Text)
      (generated : Bool) (bound : Fields)
      → bind_plan b operation digest key plan content ops backend (provenance generated) ≡ ok bound
      → (entries : List Fields) × (read : List (Operation Value Types)) × (entries_from b operation
            0 ops backend
          ≡ ok entries)
        × (operations b operation ops ≡ ok read)
        × IsBound key plan content ops backend generated entries read bound
  unfolding bind_plan severity_metadata
  bind_plan-IsBound key plan content ops backend generated bound h =
      let (severity, e1, i1) =
        >>=-eq-ok (severity_metadata b operation ops backend (provenance generated)) _ h in
      let (entries, e2, i2) = >>=-eq-ok (entries_from b operation 0 ops backend) _ e1 in
      let (read, e3, i3) = >>=-eq-ok (operations b operation ops) _ i2 in
      let (read', e4, i4) = >>=-eq-ok (operations b operation ops) _ i1 in
      let same : read' ≡ read = cc (e3, e4) in
      let block : severity_of generated backend entries read ≡ severity = fields-eq _ severity i3 in
      (
        entries,
        read,
        e2,
        e3,
        subst (IsBound key plan content ops backend generated entries read)
            (ap
                (λ (s : Fields). set (anchor (provenance generated)) (list (items (map dict ops))) (
                  set (codes "required_flags") (flags_document backend read) (
                    set (codes "severity") (dict s) (
                      set (codes "content_hash") (string (keyed_hash digest key content)) (
                        set (codes "backend") (string backend)
                          (set (codes "schema_version") (string (codes "1.1")) plan))))))
                block
              ∙ ap
                  (λ (r : List (Operation Value Types)).
                    set (anchor (provenance generated)) (list (items (map dict ops))) (
                      set (codes "required_flags") (flags_document backend r) (
                        set (codes "severity") (dict severity) (
                          set (codes "content_hash") (string (keyed_hash digest key content)) (
                            set (codes "backend") (string backend)
                              (set (codes "schema_version") (string (codes "1.1")) plan))))))
                  (sym same)
              ∙ fields-eq _ bound i4)
            (bound_plan-IsBound key plan content ops backend generated entries read),
      )
