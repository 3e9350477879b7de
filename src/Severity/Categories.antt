-- ===== src/Severity/Categories.antt =====
-- The check of a migration's category in `read_trusted_plan` of dbwarden/engine/safety/plans.py.
use dbwarden.Common.{
  ℕ, Bool, true, false, [], ◌∷◌, ◌++◌, ◌&&◌, ◌||◌, ◌==◌, not, all, ltb, leb, if◌then◌else◌, Text,
  text_eq, text_in, codes, Outcome, ok, err, ◌>>=◌, length,
}
use dbwarden.Severity.Documents.{Document, null, natural, negative, string, dict, get, document_eq}
use dbwarden.Severity.Sealing.{
  Distrust, invalid_category, invalid_builtin_category, invalid_custom_category, category_mismatch,
  splitlines,
}
use dbwarden.Severity.Plans.{require}

abbrev is_lower : ℕ → Bool
is_lower c = leb 97 c && leb c 122

abbrev is_name_char : ℕ → Bool
is_name_char c = is_lower c || leb 48 c && leb c 57 || c == 95

-- `re.fullmatch(r"[a-z][a-z0-9_]{0,47}", name)`
unfoldable pub is_category_name : Text → Bool
is_category_name [] = false
is_category_name (c ∷ t) = is_lower c && all is_name_char t && leb (length t) 47

-- `type(order) is int`
abbrev pub is_int : Document → Bool
is_int (natural n) = true
is_int (negative n) = true
is_int _ = false

-- The order of a category with a plugin, and the name of the plugin.
abbrev pub is_custom_order : Document → Bool
is_custom_order (natural n) = ltb 0 n && not (n == 100)
is_custom_order _ = false

abbrev pub is_plugin : Document → Bool
is_plugin (string (c ∷ t)) = true
is_plugin _ = false

unfoldable pub check_order : Text → Document → Document → Outcome Distrust (Unit {0})
check_order name order plugin =
    if text_eq name (codes "base")
    then require (document_eq order (natural 0) && document_eq plugin null) invalid_builtin_category
    else if text_eq name (codes "deferred")
    then require (document_eq order (natural 100) && document_eq plugin null)
        invalid_builtin_category
    else require (not (text_eq name (codes "unsplit")) && is_custom_order order && is_plugin plugin)
        invalid_custom_category

-- `(split or {}).get("role")`
unfoldable pub role_of : Document → Document
role_of (dict d) = get (codes "role") d
role_of _ = null

unfoldable pub check_name :
    Document → Document → Document → Document → Text → Outcome Distrust (Unit {0})
check_name (string name) order plugin split content = do
  valid ← require (is_category_name name && is_int order) invalid_category
  placed ← check_order name order plugin
  require
      (document_eq (role_of split) (string name)
        && text_in (codes "-- dbwarden: category " ++ name) (splitlines content))
      category_mismatch
check_name _ order plugin split content = err invalid_category

unfoldable pub check_category : Document → Document → Text → Outcome Distrust (Unit {0})
check_category null split content = ok tt
check_category (dict category) split content =
    check_name (get (codes "name") category) (get (codes "order") category)
      (get (codes "plugin") category) split content
check_category _ split content = err invalid_category
