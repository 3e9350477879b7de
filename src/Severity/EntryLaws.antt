-- ===== src/Severity/EntryLaws.antt =====
-- The entries of a severity block, as they are written and read back.
use dbwarden.Common.{
  ℕ, suc, ◌≡◌, refl, false, List, [], ◌∷◌, not, map, Text, text_eq, text_in, text_lt, codes,
  Outcome, ok, >>=-eq-ok, sym, ap, ◌∙◌, subst,
}
use dbwarden.Severity.Levels.{Safety, max_level}
use dbwarden.Severity.Operations.{Operation, Backend, classify_operation, file_level}
use dbwarden.Severity.Documents.{Document, string, dict, Fields, get, set, get-set}
use dbwarden.Severity.Sealing.{invalid_operation_metadata, duplicate_operation_id}
use dbwarden.Severity.Plans.{
  PlanError, require, caught, value_of, level_of, copy_text, type_of, entry_of, operations,
  entries_from,
}
use dbwarden.Severity.Trust.{or_reason, entry_id, read_entries, max_of}
use dbwarden.Severity.CheckLaws.{level_of-value, entry_id-eq, or_reason-eq, caught-value}

-- `copy_text` leaves the other keys alone.
pub get-copy_text :
    (j key : Text) (op entry : Fields)
    → text_eq j key ≡ false
    → get j (copy_text key op entry) ≡ get j entry
unfolding copy_text
get-copy_text j key op entry h = from (get key op)
  where
    from :
        (v : Document)
        → get j (elim v [ string t ↦ set key (string t) entry | _ ↦ entry ]) ≡ get j entry
    from (string t) = rw (get-set j key (string t) entry) (rw h refl)
    from _ = refl

module _ (index : ℕ) (op : Fields) (kind : Document) (level : Safety) where
  pub get-entry_severity :
      get (codes "severity") (entry_of index op kind level) ≡ string (value_of level)
  unfolding entry_of text_eq text_lt get set
  get-entry_severity =
      get-copy_text (codes "severity") (codes "column") op _ refl
      ∙ get-copy_text (codes "severity") (codes "table") op _ refl

module _ {Value Types : Type 0} (b : Backend Value Types)
    (operation : Fields → Outcome PlanError (Operation Value Types)) (backend : Text) where
  -- The entries that are written for operations, with what is read of these.
  pub data Written : ℕ → List Fields → List (Operation Value Types) → List Fields → Type 0 where
    nothing : (index : ℕ) → Written index [] [] []
    entry :
        (index : ℕ) (op : Fields) (ops : List Fields) (kind : Document)
        (first : Operation Value Types) (read : List (Operation Value Types))
        (entries : List Fields)
        → type_of op ≡ ok kind
        → Written (suc index) ops read entries
        → Written index
            (op ∷ ops)
            (first ∷ read)
            (entry_of index op kind (classify_operation b backend first) ∷ entries)

  pub entries_from-Written :
      (index : ℕ) (ops entries : List Fields) (read : List (Operation Value Types))
      → entries_from b operation index ops backend ≡ ok entries
      → operations b operation ops ≡ ok read
      → Written index ops read entries
  unfolding entries_from operations
  entries_from-Written index [] entries read h1 h2 =
      subst (λ (es : List Fields). Written index [] read es) (cc h1)
        (subst (λ (r : List (Operation Value Types)). Written index [] r []) (cc h2)
          (nothing index))
  entries_from-Written index (op ∷ ops) entries read h1 h2 =
      let (kind, e1, i1) = >>=-eq-ok (type_of op) _ h1 in
      let (first, e2, i2) = >>=-eq-ok (operation op) _ i1 in
      let (rest, e3, i3) = >>=-eq-ok (entries_from b operation (suc index) ops backend) _ i2 in
      let (first', e4, i4) = >>=-eq-ok (operation op) _ h2 in
      let (read', e5, i5) = >>=-eq-ok (operations b operation ops) _ i4 in
      let same : first' ≡ first = cc (e2, e4) in
      subst (λ (es : List Fields). Written index (op ∷ ops) read es) (cc i3)
        (subst
          (λ (r : List (Operation Value Types)).
            Written index (op ∷ ops) r
              (entry_of index op kind (classify_operation b backend first) ∷ rest))
          (ap (λ (x : Operation Value Types). x ∷ read') (sym same) ∙ cc i5)
          (entry index op ops kind first read' rest e1
            (entries_from-Written (suc index) ops rest read' e3 e5)))

  -- The levels that are read from the entries are those of the operations.
  pub read_entries-file_level :
      {index : ℕ} {ops entries : List Fields} {read : List (Operation Value Types)}
      (seen : List Text) (levels : List Safety)
      → Written index ops read entries
      → read_entries seen (map dict entries) ≡ ok levels
      → max_of levels ≡ file_level b read backend
  unfolding read_entries max_of file_level
  read_entries-file_level seen levels (nothing index) h = let e : levels ≡ [] = cc h in ap max_of e
  read_entries-file_level seen levels (entry index op ops kind first read entries t w) h =
      let E = entry_of index op kind (classify_operation b backend first) in
      let (p, e1, i1) = >>=-eq-ok (or_reason invalid_operation_metadata (entry_id (dict E))) _ h in
      let (u, e2, i2) = >>=-eq-ok (require (not (text_in p.0 seen)) duplicate_operation_id) _ i1 in
      let (level, e3, i3) = >>=-eq-ok (caught (level_of (get (codes "severity") p.1))) _ i2 in
      let (rest, e4, i4) = >>=-eq-ok (read_entries (p.0 ∷ seen) (map dict entries)) _ i3 in
      let same : level ≡ classify_operation b backend first =
        caught-value (level_of (get (codes "severity") p.1)) level e3 (
          ap (λ (d : Fields). level_of (get (codes "severity") d))
            (entry_id-eq E p (or_reason-eq invalid_operation_metadata (entry_id (dict E)) p e1))
          ∙ ap level_of (get-entry_severity index op kind (classify_operation b backend first))
          ∙ level_of-value (classify_operation b backend first)) in
      let whole : levels ≡ level ∷ rest = cc i4 in
      ap max_of whole
      ∙ ap (λ (x : Safety). max_level x (max_of rest)) same
      ∙ ap (max_level (classify_operation b backend first))
          (read_entries-file_level (p.0 ∷ seen) rest w e4)
