-- ===== src/Severity/Sealing.antt =====
-- The keys and the keyed hash of dbwarden/engine/safety/plans.py.
--
-- A key is 32 random bytes. `digest` is the HMAC with SHA-256, in hexadecimal digits.
use dbwarden.Common.{
  ℕ, Bool, false, Option, none, some, List, [], ◌∷◌, ◌++◌, ◌&&◌, ◌==◌, any, if◌then◌else◌, Text,
  codes, Outcome, ok, err,
}

-- What `read_trusted_plan` gives as the reason that a plan is not trusted.
pub data Distrust : Type 0 where
  missing_plan no_typed_ops_anchor legacy_hash missing_key : Distrust
  invalid_plan_object no_trusted_provenance invalid_operation_list : Distrust
  invalid_operation_metadata duplicate_operation_id file_severity_mismatch : Distrust
  unclassified_operations invalid_required_flags invalid_typed_operations : Distrust
  metadata_mismatch flags_mismatch invalid_split invalid_category : Distrust
  invalid_builtin_category invalid_custom_category category_mismatch : Distrust
  content_hash_mismatch data_execution_missing malformed_plan : Distrust
  bundle : Text → Distrust

-- `content.replace("\r\n", "\n").replace("\r", "\n")`
unfoldable pub replace_crlf : Text → Text
replace_crlf [] = []
replace_crlf (c ∷ []) = c ∷ []
replace_crlf (c ∷ (d ∷ t)) =
    let behind = replace_crlf t in
    let rest = replace_crlf (d ∷ t) in if c == 13 && d == 10 then 10 ∷ behind else c ∷ rest

unfoldable pub replace_cr : Text → Text
replace_cr [] = []
replace_cr (c ∷ t) = (if c == 13 then 10 else c) ∷ replace_cr t

-- What `_find_project_root` and `_load_plan_key` find: no root, or a root with a key or without one.
pub data Place (Key : Type 0) : Type 0 where
  outside : Place Key
  in_project : Option Key → Place Key

module _ {Key : Type 0} where
  -- `_resolve_bind_key` with `_create_plan_key`, for the key of the process and a new one.
  unfoldable pub resolve_bind_key : Key → Key → Option (Place Key) → Key
  resolve_bind_key ephemeral created none = ephemeral
  resolve_bind_key ephemeral created (some outside) = ephemeral
  resolve_bind_key ephemeral created (some (in_project none)) = created
  resolve_bind_key ephemeral created (some (in_project (some key))) = key

  -- The place behind the call: the key that was created is on the disk.
  unfoldable pub place_after : Key → Place Key → Place Key
  place_after created outside = outside
  place_after created (in_project none) = in_project (some created)
  place_after created (in_project (some key)) = in_project (some key)

  unfoldable pub resolve_verify_key : Key → Place Key → Outcome Distrust Key
  resolve_verify_key ephemeral outside = ok ephemeral
  resolve_verify_key ephemeral (in_project none) = err missing_key
  resolve_verify_key ephemeral (in_project (some key)) = ok key

  unfoldable pub keyed_hash : (Key → Text → Text) → Key → Text → Text
  unfolding replace_crlf replace_cr
  keyed_hash digest key content =
      codes "hmac-sha256:" ++ digest key (replace_cr (replace_crlf content))

-- The characters behind which `str.splitlines` ends a line.
abbrev ends_line : ℕ → Bool
ends_line c = any (λ e. c == e) (10 ∷ 11 ∷ 12 ∷ 13 ∷ 28 ∷ 29 ∷ 30 ∷ 133 ∷ 8232 ∷ 8233 ∷ [])

-- The rest of the lines: whether the character in front is a carriage return, the line so far, and the
-- rest of the text.
unfoldable pub lines_from : Bool → Text → Text → List Text
lines_from after_cr [] [] = []
lines_from after_cr (d ∷ line) [] = (d ∷ line) ∷ []
lines_from after_cr line (c ∷ t) =
    let ended = lines_from (c == 13) [] t in
    let longer = lines_from false (line ++ c ∷ []) t in
    let skipped = lines_from false [] t in
    if after_cr && c == 10 then skipped else if ends_line c then line ∷ ended else longer

-- `str.splitlines`
unfoldable pub splitlines : Text → List Text
unfolding lines_from
splitlines content = lines_from false [] content
