-- ===== src/Severity/Bound.antt =====
-- The entries that `bind_plan` writes are read back.
use dbwarden.Common.{
  ℕ, suc, ◌≡◌, refl, true, false, some, List, [], ◌∷◌, map, All, Text, text_eq, text_in, text_lt,
  codes, Outcome, ok, inl, inr, ap, ◌∙◌, arith, Bool-cases,
}
use dbwarden.Severity.Levels.{Safety}
use dbwarden.Severity.Operations.{Operation, Backend, classify_operation}
use dbwarden.Severity.Documents.{Document, string, list, dict, Fields, items, get, has, set}
use dbwarden.Severity.Plans.{PlanError, level_of, id_of, type_of, entry_of}
use dbwarden.Severity.Trust.{
  as_text, is_some, entry_id, read_entries, typed_dicts, typed_operations,
}
use dbwarden.Severity.CheckLaws.{level_of-value, elements-items}
use dbwarden.Severity.EntryLaws.{get-copy_text, get-entry_severity, Written, nothing, entry}

-- The `type` of every operation is a text.
abbrev pub IsTyped : List Fields → Type 0
IsTyped ops = All (λ op. is_some (as_text (get (codes "type") op)) ≡ true) ops

-- The IDs of the operations, or those that their indices give, are texts, and all different.
abbrev pub HasIds : ℕ → List Text → List Fields → Type 0
HasIds index seen [] = Unit
HasIds index seen (op ∷ ops) =
    (i : Text) × (id_of index op ≡ string i)
    × (text_in i seen ≡ false)
    × HasIds (suc index) (i ∷ seen) ops

module _ (index : ℕ) (op : Fields) (kind : Document) (level : Safety) where
  get-entry_id : get (codes "id") (entry_of index op kind level) ≡ id_of index op
  unfolding entry_of text_eq text_lt get set
  get-entry_id =
      get-copy_text (codes "id") (codes "column") op _ refl
      ∙ get-copy_text (codes "id") (codes "table") op _ refl

  get-entry_kind : get (codes "kind") (entry_of index op kind level) ≡ kind
  unfolding entry_of text_eq text_lt get set
  get-entry_kind =
      get-copy_text (codes "kind") (codes "column") op _ refl
      ∙ get-copy_text (codes "kind") (codes "table") op _ refl

entry_id-texts :
    (d : Fields) (i t : Text)
    → get (codes "id") d ≡ string i
    → get (codes "kind") d ≡ string t
    → entry_id (dict d) ≡ some (i, d)
unfolding entry_id
entry_id-texts d i t h k = rw (h, k, entry_id) refl

text_of-eq : (v : Document) → is_some (as_text v) ≡ true → (t : Text) × (v ≡ string t)
text_of-eq (string t) h = (t, refl)
text_of-eq _ h = cc

type_of-eq : (op : Fields) (kind : Document) → type_of op ≡ ok kind → kind ≡ get (codes "type") op
unfolding type_of
type_of-eq op kind h = elim (Bool-cases (has (codes "type") op)) [
  | inl e ↦ ground (arith, h, e)
  | inr e ↦ ground (arith, h, e)
]

typed_dicts-map : (ops : List Fields) → IsTyped ops → typed_dicts (map dict ops) ≡ some ops
unfolding typed_dicts
typed_dicts-map [] h = refl
typed_dicts-map (op ∷ ops) (h, k) = rw (h, typed_dicts-map ops k) refl

pub typed_operations-map :
    (ops : List Fields) → IsTyped ops → typed_operations (list (items (map dict ops))) ≡ some ops
unfolding typed_operations
typed_operations-map ops h = ap typed_dicts (elements-items (map dict ops)) ∙ typed_dicts-map ops h

module _ {Value Types : Type 0} (b : Backend Value Types)
    (operation : Fields → Outcome PlanError (Operation Value Types)) (backend : Text) where
  -- The entries of typed operations with different IDs are read back.
  pub read_entries-Written :
      {index : ℕ} {ops entries : List Fields} {read : List (Operation Value Types)}
      (seen : List Text)
      → Written b operation backend index ops read entries
      → IsTyped ops
      → HasIds index seen ops
      → (levels : List Safety) × (read_entries seen (map dict entries) ≡ ok levels)
  unfolding read_entries
  read_entries-Written seen (nothing index) typed ids = ([], refl)
  read_entries-Written seen (entry index op ops kind first read entries k w) (t, ts)
        (i, e, fresh, is) =
      let level = classify_operation b backend first in
      let E = entry_of index op kind level in
      let (text, k') = text_of-eq (get (codes "type") op) t in
      let (levels, h) = read_entries-Written (i ∷ seen) w ts is in
      (
        level ∷ levels,
        rw
            (
              entry_id-texts E i text (get-entry_id index op kind level ∙ e)
                  (get-entry_kind index op kind level ∙ type_of-eq op kind k ∙ k'),
              fresh,
              ap level_of (get-entry_severity index op kind level) ∙ level_of-value level,
              h,
            )
            refl,
      )
