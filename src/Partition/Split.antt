-- ===== src/Partition/Split.antt =====
-- `partition_operations` of dbwarden/engine/safety/partition.py.
--
-- `level` is what `classify_operation` gives an operation and `upper` is `str.upper`. graphlib's sorter
-- raises where operations wait for each other.
use dbwarden.Common.{
  ℕ, zero, suc, Bool, true, false, Option, none, some, List, [], ◌∷◌, ◌++◌, ◌&&◌, ◌||◌, not, map,
  any, all, leb, if◌then◌else◌, Text, text_eq, text_in, Outcome, ok, err, ◌>>=◌, length,
}
use dbwarden.State.Changes.{insert_key}
use dbwarden.Severity.Levels.{Safety, index, SeverityError, severity_level}
use dbwarden.Partition.Dependencies.{Operation, references_of, dependencies_of}

-- An operation with its dependencies.
pub record Node : Type 0 where
  pub op : Operation
  pub deps : List Text

abbrev pub ids : List Node → List Text
ids = map (λ n. n.op.id)

pub data PartitionError : Type 0 where
  duplicate_ids unknown_view unknown_dependency dependency_cycle conflicting_order : PartitionError
  threshold_error : SeverityError → PartitionError

unfoldable pub has_duplicate : List Text → Bool
has_duplicate [] = false
has_duplicate (t ∷ ts) = text_in t ts || has_duplicate ts

unfoldable pub nodes_from :
    (Text → Option (List Text))
    → List Operation
    → List Operation
    → List Operation
    → Outcome PartitionError (List Node)
nodes_from view_references ops earlier [] = ok []
nodes_from view_references ops earlier (op ∷ later) =
    let rest = nodes_from view_references ops (earlier ++ op ∷ []) later in
    elim (references_of view_references op) [
      | none ↦ err unknown_view
      | some references ↦ rest >>= λ nodes.
          ok (record { op = op; deps = dependencies_of references earlier ops op } ∷ nodes)
    ]

-- `any(dep not in by_id for deps in dependencies.values() for dep in deps)`
unfoldable pub has_unknown : List Text → List Node → Bool
has_unknown known [] = false
has_unknown known (n ∷ nodes) = any (λ d. not (text_in d known)) n.deps || has_unknown known nodes

-- The nodes that wait for one of them, over and over: those that no order can place.
unfoldable pub still_waiting : List Text → List Node → List Node
still_waiting waiting [] = []
still_waiting waiting (n ∷ nodes) =
    let rest = still_waiting waiting nodes in
    if any (λ d. text_in d waiting) n.deps then n ∷ rest else rest

unfoldable pub cyclic_nodes : ℕ → List Node → List Node
unfolding still_waiting
cyclic_nodes zero nodes = nodes
cyclic_nodes (suc rounds) nodes = cyclic_nodes rounds (still_waiting (ids nodes) nodes)

unfoldable pub is_cyclic : List Node → Bool
unfolding cyclic_nodes
is_cyclic nodes = elim (cyclic_nodes (length nodes) nodes) [ [] ↦ false | n ∷ ns ↦ true ]

-- `positions[id]`
unfoldable pub position : Text → List Text → ℕ
position t [] = 0
position t (u ∷ us) = let rest = position t us in if text_eq u t then 0 else suc rest

-- `any(positions[dependency] >= positions[key] …)`, for all ids and the nodes that are left.
unfoldable pub has_conflict : List Text → List Node → Bool
has_conflict order [] = false
has_conflict order (n ∷ nodes) =
    any (λ d. leb (position n.op.id order) (position d order)) n.deps || has_conflict order nodes

-- `sorted(dependencies[op["id"]])`
unfoldable pub sorted_set : List Text → List Text
sorted_set [] = []
sorted_set (t ∷ ts) = insert_key t (sorted_set ts)

unfoldable pub store_dependencies : List Node → List Node
store_dependencies [] = []
store_dependencies (n ∷ nodes) =
    record n { op = record n.op { depends_on = sorted_set n.deps } } ∷ store_dependencies nodes

-- `{key for key, deps in dependencies.items() if …}`, in the order of the operations.
unfoldable pub ids_if : (Node → Bool) → List Node → List Text
ids_if test [] = []
ids_if test (n ∷ nodes) = let rest = ids_if test nodes in if test n then n.op.id ∷ rest else rest

-- `deferred | {key for key, deps in dependencies.items() if deps & deferred}`
unfoldable pub closure : List Node → List Text → List Text
unfolding ids_if
closure nodes deferred =
    ids_if (λ n. text_in n.op.id deferred || any (λ d. text_in d deferred) n.deps) nodes

-- `closure == deferred`
unfoldable pub same_ids : List Text → List Text → Bool
same_ids a b = all (λ t. text_in t b) a && all (λ t. text_in t a) b

-- `while True`, with the rounds that are left.
unfoldable pub close : ℕ → List Node → List Text → List Text
close zero nodes deferred = deferred
close (suc rounds) nodes deferred =
    let next = close rounds nodes (closure nodes deferred) in
    if same_ids (closure nodes deferred) deferred then deferred else next

unfoldable pub nodes_if : (Node → Bool) → List Node → List Node
nodes_if test [] = []
nodes_if test (n ∷ nodes) = let rest = nodes_if test nodes in if test n then n ∷ rest else rest

-- The checks of the dependencies, in order.
unfoldable pub check_nodes : List Node → Outcome PartitionError (Unit {0})
check_nodes nodes =
    if has_unknown (ids nodes) nodes
    then err unknown_dependency
    else if is_cyclic nodes
    then err dependency_cycle
    else if has_conflict (ids nodes) nodes
    then err conflicting_order
    else ok tt

module _ (level : Operation → Safety) where
  -- `deferred` before the loop
  unfoldable pub above : Safety → List Node → List Text
  above cut = ids_if (λ n. leb (index cut) (index (level n.op)))

  -- `deferred` behind the loop
  unfoldable pub deferred_ids : Safety → List Node → List Text
  deferred_ids cut nodes = close (length nodes) nodes (above cut nodes)

  -- The base and the deferred operations.
  unfoldable pub split_at : List Text → List Node → List Node × List Node
  split_at deferred nodes = (
    nodes_if (λ n. not (text_in n.op.id deferred)) nodes,
    nodes_if (λ n. text_in n.op.id deferred) nodes,
  )

  unfoldable pub split_by :
      (Text → Text) → Option Text → List Node → Outcome PartitionError (List Node × List Node)
  split_by upper none nodes = ok (nodes, [])
  split_by upper (some threshold) nodes = elim (severity_level upper threshold false) [
    | err e ↦ err (threshold_error e)
    | ok cut ↦ ok (split_at (deferred_ids cut nodes) nodes)
  ]

  unfoldable pub partition_operations :
      (Text → Text)
      → (Text → Option (List Text))
      → List Operation
      → Option Text
      → Outcome PartitionError (List Node × List Node)
  partition_operations upper view_references ops threshold =
      if has_duplicate (map (λ op. op.id) ops)
      then err duplicate_ids
      else (nodes_from view_references ops [] ops >>= λ nodes.
          check_nodes nodes >>= λ _. split_by upper threshold (store_dependencies nodes))
