-- ===== src/Severity/Accepted.antt =====
-- `read_trusted_plan` trusts what `bind_plan` writes.
use dbwarden.Common.{
  ◌≡◌, ◌≢◌, refl, Bool, false, some, List, [], ◌∷◌, map, Text, text_in, codes, Outcome, ok, ◌∙◌,
}
use dbwarden.Severity.Levels.{unknown}
use dbwarden.Severity.Operations.{Operation, Backend, required_flags, file_level}
use dbwarden.Severity.Documents.{Document, null, string, list, dict, Fields, items, get, truthy}
use dbwarden.Severity.Sealing.{Place, resolve_bind_key, place_after, splitlines}
use dbwarden.Severity.Plans.{PlanError, anchor, backend_of, operations, bind_plan}
use dbwarden.Severity.Trust.{
  CheckError, is_data_plan, check_derived, check_typed, read_trusted_plan,
}
use dbwarden.Severity.EntryLaws.{entries_from-Written}
use dbwarden.Severity.BindLaws.{provenance, severity_of, bind_plan-IsBound}
use dbwarden.Severity.Bound.{IsTyped, HasIds}
use dbwarden.Severity.Passes.{
  ||-true, no_spec, flags_of-required, check_severity-metadata, check_derived-metadata,
  check_content-bound, has-split,
}

module _ {Value Types Key : Type 0} (b : Backend Value Types)
    (operation : Fields → Outcome PlanError (Operation Value Types)) (digest : Key → Text → Text)
    (verify_bundle : Fields → Outcome CheckError (Unit {0}))
    (validate_spec : Document → Outcome CheckError (Unit {0})) where
  check_typed-bound :
      (generated : Bool) (backend : Text) (ops entries : List Fields) (plan : Fields)
      (flags : Document)
      → ops ≢ []
      → get (anchor (provenance generated)) plan ≡ list (items (map dict ops))
      → get (codes "backend") plan ≡ string backend
      → check_derived b operation digest verify_bundle validate_spec
          (list (items (map dict ops)))
          backend
          (provenance generated)
          (map dict entries)
          flags
        ≡ ok tt
      → check_typed b operation digest verify_bundle validate_spec plan
          (provenance generated)
          (map dict entries)
          flags
        ≡ ok tt
  unfolding check_typed truthy backend_of
  check_typed-bound generated backend [] entries plan flags given a n h = absurd (given refl)
  check_typed-bound generated backend (op ∷ ops) entries plan flags given a n h =
      rw (a, n, ||-true (is_data_plan plan), h) refl

  -- What `bind_plan` writes for a project is read as a trusted plan there, if the plan has neither data
  -- nor a category, the operations are one or more with types and different IDs, none is unclassified,
  -- and no line of the content marks a data bundle.
  pub read_trusted_plan-bind_plan :
      (ephemeral created : Key) (place : Place Key) (plan : Fields) (content : Text)
      (ops : List Fields) (backend : Text) (generated : Bool) (bound : Fields)
      → bind_plan b operation digest
          (resolve_bind_key ephemeral created (some place))
          plan
          content
          ops
          backend
          (provenance generated)
        ≡ ok bound
      → get (codes "category") plan ≡ null
      → is_data_plan plan ≡ false
      → ops ≢ []
      → IsTyped ops
      → HasIds 0 [] ops
      → ((read : List (Operation Value Types))
          → operations b operation ops ≡ ok read
          → file_level b read backend ≢ unknown)
      → text_in (codes "-- dbwarden: data-bundle") (splitlines content) ≡ false
      → read_trusted_plan b operation digest verify_bundle validate_spec ephemeral
          (place_after created place)
          (ok (dict bound))
          (ok content)
        ≡ ok bound
  unfolding read_trusted_plan
  read_trusted_plan-bind_plan ephemeral created place plan content ops backend generated bound h c d
        given typed ids known m =
      let key = resolve_bind_key ephemeral created (some place) in
      let (entries, read, e1, e2, f) =
        bind_plan-IsBound b operation digest key plan content ops backend generated bound h in
      let w = entries_from-Written b operation backend 0 ops entries read e1 e2 in
      let block = severity_of b operation digest generated backend entries read in
      let flags = list (items (map string (required_flags b read backend))) in
      rw
        (
          f.severity,
          check_severity-metadata b operation digest verify_bundle validate_spec generated backend
              ops entries read w typed ids (known read e2),
          f.flags,
          flags_of-required b read backend,
          check_typed-bound generated backend ops entries bound flags given f.anchored f.named (
              check_derived-metadata b operation digest verify_bundle validate_spec generated
                backend ops entries read e1 e2 typed),
          check_content-bound b operation digest verify_bundle validate_spec ephemeral created place
              plan bound block content f.hash (f.category ∙ c) (f.spec ∙ no_spec plan d)
              (has-split b operation digest verify_bundle validate_spec generated backend entries
                read)
              m,
        )
        refl
