-- ===== src/Severity/Trusted.antt =====
-- What `read_trusted_plan` promises.
use dbwarden.Common.{
  ◌≡◌, ◌≢◌, Bool, true, false, List, [], ◌∷◌, ◌||◌, not, map, Text, text_eq, codes, text_eq_sound,
  Outcome, ok, >>=-eq-ok, sym, ap, ◌∙◌, subst, arith, has_prefix,
}
use dbwarden.Severity.Levels.{Safety, unknown, safety_eq}
use dbwarden.Severity.Operations.{Operation, Backend, required_flags, file_level}
use dbwarden.Severity.Documents.{Document, string, list, dict, Fields, items, get, has, truthy}
use dbwarden.Severity.Sealing.{
  Distrust, invalid_required_flags, no_typed_ops_anchor, invalid_plan_object, missing_plan,
  legacy_hash, content_hash_mismatch, invalid_split, Place, resolve_verify_key, keyed_hash,
}
use dbwarden.Severity.Plans.{PlanError, require, value_of, anchor, backend_of, operations}
use dbwarden.Severity.Categories.{check_category}
use dbwarden.Severity.Trust.{
  Unread, CheckError, read_file, or_reason, as_dict, is_some, read_entries, flags_of, is_data_plan,
  check_typed, check_hash, check_severity, check_content, read_trusted_plan,
}
use dbwarden.Severity.CheckLaws.{or_reason-eq, require-eq}
use dbwarden.Severity.EntryLaws.{entries_from-Written, read_entries-file_level}
use dbwarden.Severity.TrustLaws.{
  as_dict-eq, read_file-eq, flags_of-eq, check_derived-eq, check_severity-eq,
}

module _ {Value Types Key : Type 0} (b : Backend Value Types)
    (operation : Fields → Outcome PlanError (Operation Value Types)) (digest : Key → Text → Text)
    (verify_bundle : Fields → Outcome CheckError (Unit {0}))
    (validate_spec : Document → Outcome CheckError (Unit {0})) where
  -- The operations that stand in the plan are those of the severity block.
  pub record IsDerived (plan severity : Fields) (provenance : Text) (ops : List Fields)
      (read : List (Operation Value Types)) : Type 0 where
    pub anchored : get (anchor provenance) plan ≡ list (items (map dict ops))
    pub given : ops ≢ []
    pub known : operations b operation ops ≡ ok read
    pub level :
        get (codes "file") severity
        ≡ string (value_of (file_level b read (backend_of (get (codes "backend") plan))))
    pub classified : file_level b read (backend_of (get (codes "backend") plan)) ≢ unknown
    pub flags :
        get (codes "required_flags") plan
        ≡ list
            (items (map string (required_flags b read (backend_of (get (codes "backend") plan)))))

  -- The content of the migration has the hash that the plan gives, with the key of the place.
  pub record IsSealed (ephemeral : Key) (place : Place Key) (content_file : Outcome Unread Text)
      (plan : Fields) : Type 0 where
    pub key : Key
    pub content : Text
    pub found : resolve_verify_key ephemeral place ≡ ok key
    pub there : content_file ≡ ok content
    pub sealed : get (codes "content_hash") plan ≡ string (keyed_hash digest key content)

  plan-eq : (p q : Fields) → ◌≡◌ {A = Outcome Distrust Fields} (ok p) (ok q) → p ≡ q
  plan-eq p q h = cc

  only-right : (p q : Bool) → p ≡ false → (p || q) ≡ true → q ≡ true
  only-right p q h e = ground (arith, h, e)

  some_operation : (ops : List Fields) → truthy (list (items (map dict ops))) ≡ true → ops ≢ []
  unfolding truthy
  some_operation [] h e = cc
  some_operation (op ∷ ops) h e = cc

  known_level : (level : Safety) → safety_eq level unknown ≡ false → level ≢ unknown
  known_level level h e = cc (ap (λ (l : Safety). safety_eq l unknown) e)

  check_hash-eq :
      (ephemeral : Key) (place : Place Key) (content : Text) (stored : Document)
      → check_hash b operation digest verify_bundle validate_spec ephemeral place content stored
        ≡ ok tt
      → (key : Key) × (resolve_verify_key ephemeral place ≡ ok key)
        × (stored ≡ string (keyed_hash digest key content))
  unfolding check_hash
  check_hash-eq ephemeral place content (string stored) h =
      let (u, e1, i1) =
        >>=-eq-ok (require (not (has_prefix (codes "sha256:") stored)) legacy_hash) _ h in
      let (key, e2, i2) = >>=-eq-ok (resolve_verify_key ephemeral place) _ i1 in
      (
        key,
        e2,
        ap string (
            text_eq_sound stored (keyed_hash digest key content) (
              require-eq content_hash_mismatch (text_eq stored (keyed_hash digest key content))
                i2)),
      )
  check_hash-eq ephemeral place content _ h = cc

  -- The checks that a trusted plan has passed.
  read_trusted_plan-eq :
      (ephemeral : Key) (place : Place Key) (plan_file : Outcome Unread Document)
      (content_file : Outcome Unread Text) (plan : Fields)
      → read_trusted_plan b operation digest verify_bundle validate_spec ephemeral place plan_file
          content_file
        ≡ ok plan
      → (severity : Fields) × (trusted : Text × List Document) × (get (codes "severity") plan
          ≡ dict severity)
        × (check_severity b operation digest verify_bundle validate_spec severity ≡ ok trusted)
        × (check_typed b operation digest verify_bundle validate_spec plan trusted.0 trusted.1
              (get (codes "required_flags") plan)
            ≡ ok tt)
        × (check_content b operation digest verify_bundle validate_spec ephemeral place content_file
              plan severity
            ≡ ok tt)
  unfolding read_trusted_plan
  read_trusted_plan-eq ephemeral place plan_file content_file plan h =
      let (document, e1, i1) = >>=-eq-ok (read_file plan_file) _ h in
      let (plan', e2, i2) = >>=-eq-ok (or_reason invalid_plan_object (as_dict document)) _ i1 in
      let (severity, e3, i3) =
        >>=-eq-ok (or_reason missing_plan (as_dict (get (codes "severity") plan'))) _ i2 in
      let (trusted, e4, i4) =
        >>=-eq-ok (check_severity b operation digest verify_bundle validate_spec severity) _ i3 in
      let (flags, e5, i5) =
        >>=-eq-ok (or_reason invalid_required_flags (flags_of (get (codes "required_flags") plan')))
          _ i4 in
      let (u, e6, i6) =
        >>=-eq-ok
          (check_typed b operation digest verify_bundle validate_spec plan' trusted.0 trusted.1
            flags)
          _ i5 in
      let (v, e7, i7) =
        >>=-eq-ok
          (check_content b operation digest verify_bundle validate_spec ephemeral place content_file
            plan' severity)
          _ i6 in
      let same = plan-eq plan' plan i7 in
      let same_flags = flags_of-eq (get (codes "required_flags") plan') flags (
        or_reason-eq invalid_required_flags (flags_of (get (codes "required_flags") plan')) flags
          e5) in
      (
        severity,
        trusted,
        subst (λ (p : Fields). get (codes "severity") p ≡ dict severity) same
            (as_dict-eq (get (codes "severity") plan') severity
              (or_reason-eq missing_plan (as_dict (get (codes "severity") plan')) severity e3)),
        e4,
        subst
            (λ (p : Fields).
              check_typed b operation digest verify_bundle validate_spec p trusted.0 trusted.1
                (get (codes "required_flags") p)
              ≡ ok tt)
            same
            (subst
              (λ (f : Document).
                check_typed b operation digest verify_bundle validate_spec plan' trusted.0 trusted.1
                  f
                ≡ ok tt)
              same_flags e6),
        subst
            (λ (p : Fields).
              check_content b operation digest verify_bundle validate_spec ephemeral place
                content_file p severity
              ≡ ok tt)
            same e7,
      )

  -- A plan that `read_trusted_plan` gives carries the hash of the content that stands beside it, made
  -- with the key of the place where it stands.
  pub read_trusted_plan-IsSealed :
      (ephemeral : Key) (place : Place Key) (plan_file : Outcome Unread Document)
      (content_file : Outcome Unread Text) (plan : Fields)
      → read_trusted_plan b operation digest verify_bundle validate_spec ephemeral place plan_file
          content_file
        ≡ ok plan
      → IsSealed ephemeral place content_file plan
  unfolding check_content
  read_trusted_plan-IsSealed ephemeral place plan_file content_file plan h =
      let (severity, trusted, s1, s2, s3, s4) =
        read_trusted_plan-eq ephemeral place plan_file content_file plan h in
      let (content, k1, j1) = >>=-eq-ok (read_file content_file) _ s4 in
      let (w, k2, j2) =
        >>=-eq-ok
          (require
            (not (has (codes "split") severity) || is_some (as_dict (get (codes "split") severity)))
            invalid_split)
          _ j1 in
      let (x, k3, j3) =
        >>=-eq-ok
          (check_category (get (codes "category") plan) (get (codes "split") severity) content) _
          j2 in
      let (y, k4, j4) =
        >>=-eq-ok
          (check_hash b operation digest verify_bundle validate_spec ephemeral place content
            (get (codes "content_hash") plan))
          _ j3 in
      let (key, found, sealed) =
        check_hash-eq ephemeral place content (get (codes "content_hash") plan) k4 in
      record {
        key = key;
        content = content;
        found = found;
        there = read_file-eq content_file content k1;
        sealed = sealed;
      }

  -- A plan without data that `read_trusted_plan` gives holds operations under the key of its provenance,
  -- at least one; the level of the file is the greatest of theirs, as the classification finds them,
  -- and known, and the required flags are theirs.
  pub read_trusted_plan-IsDerived :
      (ephemeral : Key) (place : Place Key) (plan_file : Outcome Unread Document)
      (content_file : Outcome Unread Text) (plan : Fields)
      → read_trusted_plan b operation digest verify_bundle validate_spec ephemeral place plan_file
          content_file
        ≡ ok plan
      → is_data_plan plan ≡ false
      → (severity : Fields) × (provenance : Text) × (ops : List Fields) × (read : List
          (Operation Value Types))
        × (get (codes "severity") plan ≡ dict severity)
        × (get (codes "provenance") severity ≡ string provenance)
        × IsDerived plan severity provenance ops read
  unfolding check_typed truthy
  read_trusted_plan-IsDerived ephemeral place plan_file content_file plan h no_data =
      let (severity, (provenance, entries), s1, s2, s3, s4) =
        read_trusted_plan-eq ephemeral place plan_file content_file plan h in
      let (level, levels, t1, t2, t3, t4, t5) =
        check_severity-eq b operation digest verify_bundle validate_spec severity provenance entries
          s2 in
      let typed = get (anchor provenance) plan in
      let backend = backend_of (get (codes "backend") plan) in
      let (u, k1, k2) =
        >>=-eq-ok (require (is_data_plan plan || truthy typed) no_typed_ops_anchor) _ s3 in
      let has_typed : truthy typed ≡ true =
        only-right (is_data_plan plan) (truthy typed) no_data
          (require-eq no_typed_ops_anchor (is_data_plan plan || truthy typed) k1) in
      let (ops, written, read, d1, d2, d3, d4, d5) =
        check_derived-eq b operation digest verify_bundle validate_spec typed backend provenance
          entries (get (codes "required_flags") plan) has_typed k2 in
      let greatest : level ≡ file_level b read backend =
        t4
        ∙ read_entries-file_level b operation backend [] levels
            (entries_from-Written b operation backend 0 ops written read d2 d3)
            (ap (λ (es : List Document). read_entries [] es) (sym d4) ∙ t3) in
      (
        severity,
        provenance,
        ops,
        read,
        s1,
        t1,
        record {
          anchored = d1;
          given = λ e. some_operation ops (ap truthy (sym d1) ∙ has_typed) e;
          known = d3;
          level = t2 ∙ ap (λ (l : Safety). string (value_of l)) greatest;
          classified = λ e. known_level level t5 (greatest ∙ e);
          flags = d5;
        },
      )
