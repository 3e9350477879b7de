-- ===== src/Severity/Tests.antt =====
-- A dropped table, a renamed column with a plugin's declaration, three files under a ceiling, and
-- the theorems at these inputs.
use dbwarden.Common.{
  ℕ, ◌≤◌, ◌≡◌, ◌↔◌, ◌≢◌, refl, true, false, Option, none, some, List, [], ◌∷◌, if◌then◌else◌, Text,
  text_eq, text_in, text_lt, codes, ok, In,
}
use dbwarden.Common.Sorting.{sort_items}
use dbwarden.Severity.Levels.{
  Safety, info, warn, critical, unknown, index, safety_of, severity_level, exceeds,
}
use dbwarden.Severity.Operations.{
  Declaration, declared, Operation, Backend, base_level, classify_operation, required_flags,
  file_level, info_ops, warn_ops, critical_ops, classify_data, unsafe_column, classify_kind,
  classify_rest, classify_type_change, is_computed, declared_level, join_declared, with_declaration,
}
use dbwarden.Severity.OperationLaws.{classify_operation-le}
use dbwarden.Severity.Scope.{
  DeferredStop, ceiling_stops, stops, deferred_stop, allow_files, severity_prefix,
  filter_repeatables,
}
use dbwarden.Severity.ScopeLaws.{IsSplit, severity_prefix-IsSplit, filter_repeatables-In}

-- The texts of these tests are in capitals already.
abbrev upper : Text → Text
upper t = t

abbrev backend : Backend ℕ ℕ
backend = record {
  upper = upper;
  classify_pg_type_change = λ n. warn;
  classify_ch_column_change = λ k n. info;
  classify_ch_options_change = λ k. warn;
}

abbrev operation : Text → Option Declaration → Operation ℕ ℕ
operation kind declaration = record {
  kind = kind;
  plugin_safety = declaration;
  data_severity = none;
  key = none;
  bounded_key = false;
  concurrently = true;
  to_nullable = false;
  nullable = true;
  volatile_default = false;
  default = none;
  lossy = false;
  drop_old_after_swap = false;
  rollback_kind = none;
  types = none;
  changes = [];
  change = 0;
}

abbrev rename : Operation ℕ ℕ
rename = operation (codes "rename_column") (some (declared (some (codes "SAFE"))))

abbrev drop : Operation ℕ ℕ
drop = operation (codes "drop_table") none

classifying : Unit {0}
unfolding text_eq text_in info_ops warn_ops critical_ops classify_data is_computed unsafe_column
    classify_kind classify_rest classify_type_change base_level safety_of severity_level
    declared_level join_declared with_declaration classify_operation required_flags file_level
classifying = tt

rename_warns : base_level backend [] rename ≡ warn
unfolding classifying
rename_warns = refl

-- The plugin's SAFE does not count.
rename_stays : classify_operation backend [] rename ≡ warn
unfolding classifying
rename_stays = refl

not_unknown : base_level backend [] rename ≢ unknown
unfolding classifying
not_unknown = λ e. cc

classify_operation-le_example :
    index (base_level backend [] rename) ≤ index (classify_operation backend [] rename)
classify_operation-le_example = classify_operation-le backend [] rename not_unknown

-- The second of three files is critical.
abbrev file_severity : Text → Safety × Text
file_severity f = if text_eq f (codes "b") then (critical, []) else (info, [])

abbrev files : List (Text × Text)
files = (codes "0003", codes "c") ∷ (codes "0001", codes "a") ∷ (codes "0002", codes "b") ∷ []

abbrev stop : DeferredStop
stop = record {
  version = codes "0002";
  filepath = codes "b";
  severity = critical;
  ceiling = codes "WARN";
  remaining = 2;
  reason = [];
}

scoping : Unit {0}
unfolding text_eq text_lt safety_of severity_level exceeds ceiling_stops stops deferred_stop
    allow_files sort_items severity_prefix filter_repeatables
scoping = tt

stopped :
    severity_prefix upper file_severity (codes "WARN") files
    ≡ ok ((codes "0001", codes "a") ∷ [], some stop)
unfolding scoping
stopped = refl

severity_prefix-IsSplit_example :
    IsSplit upper file_severity
      (codes "WARN")
      (sort_items files)
      ((codes "0001", codes "a") ∷ [])
      (some stop)
severity_prefix-IsSplit_example =
    severity_prefix-IsSplit upper file_severity (codes "WARN") files
      ((codes "0001", codes "a") ∷ []) (some stop) stopped

filtered :
    filter_repeatables upper file_severity (codes "WARN") (codes "a" ∷ codes "b" ∷ [])
    ≡ ok (codes "a" ∷ [])
unfolding scoping
filtered = refl

filter_repeatables-In_example : In (codes "b") (codes "a" ∷ []) ↔ (
    In (codes "b") (codes "a" ∷ codes "b" ∷ [])
    × (stops upper file_severity (codes "WARN") (codes "b") ≡ ok false))
filter_repeatables-In_example =
    filter_repeatables-In upper file_severity (codes "WARN") (codes "a" ∷ codes "b" ∷ [])
      (codes "a" ∷ []) (codes "b") filtered
