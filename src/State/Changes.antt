-- ===== src/State/Changes.antt =====
-- `state_changes` and `apply_changes` of dbwarden/engine/generation_state.py.
use dbwarden.Common.{
  ℕ, zero, suc, Bool, true, Option, none, some, List, [], ◌∷◌, ◌++◌, ◌||◌, not, if◌then◌else◌, Text,
  text_eq, text_lt, Outcome, ok, err, ◌>>=◌, is_some,
}
use dbwarden.State.Json.{Json, null, obj, Dict, lookup, put, remove, keys, depth, Eq, json_eq}

-- One entry of `state_changes`. `before` and `after` are `change.get("before")` and
-- `change.get("after")`, with `none` for an entry that is missing.
pub record Change (Leaf : Type 0) : Type 0 where
  pub path : List Text
  pub before_exists : Bool
  pub after_exists : Bool
  pub before : Option (Json Leaf)
  pub after : Option (Json Leaf)

-- Adds a key to a sorted list of keys that may hold it.
unfoldable pub insert_key : Text → List Text → List Text
insert_key k [] = k ∷ []
insert_key k (j ∷ js) =
    let rest = insert_key k js in
    if text_eq k j then j ∷ js else if text_lt k j then k ∷ j ∷ js else j ∷ rest

-- `sorted(before.keys() | after.keys())`
unfoldable pub sorted_union : List Text → List Text → List Text
sorted_union [] js = js
sorted_union (k ∷ ks) js = insert_key k (sorted_union ks js)

module _ {Leaf : Type 0} ⦃e : Eq Leaf⦄ where
  -- `before[key] != after[key]`, on entries that exist
  unfoldable pub differ : Option (Json Leaf) → Option (Json Leaf) → Bool
  differ (some b) (some a) = not (json_eq b a)
  differ _ _ = true

  unfoldable pub change_at : List Text → Option (Json Leaf) → Option (Json Leaf) → Change Leaf
  change_at location b a = record {
    path = location;
    before_exists = is_some b;
    after_exists = is_some a;
    before = b;
    after = a;
  }

  -- The body of the loop for one key, with `recurse` for the nested call.
  unfoldable pub key_changes :
      (Dict Leaf → Dict Leaf → List Text → List (Change Leaf))
      → List Text
      → Option (Json Leaf)
      → Option (Json Leaf)
      → List (Change Leaf)
  key_changes recurse location (some (obj b)) (some (obj a)) = recurse b a location
  key_changes recurse location b a = if differ b a then change_at location b a ∷ [] else []

  -- The loop over the sorted keys.
  unfoldable pub loop_keys :
      (Dict Leaf → Dict Leaf → List Text → List (Change Leaf))
      → Dict Leaf
      → Dict Leaf
      → List Text
      → List Text
      → List (Change Leaf)
  loop_keys recurse before after path [] = []
  loop_keys recurse before after path (key ∷ rest) =
      key_changes recurse (path ++ key ∷ []) (lookup key before) (lookup key after)
      ++ loop_keys recurse before after path rest

  -- `fuel` bounds the nesting.
  unfoldable pub changes_in : ℕ → Dict Leaf → Dict Leaf → List Text → List (Change Leaf)
  changes_in zero before after path = []
  changes_in (suc fuel) before after path =
      loop_keys (changes_in fuel) before after path (sorted_union (keys before) (keys after))

  unfoldable pub state_changes : Dict Leaf → Dict Leaf → List Text → List (Change Leaf)
  unfolding changes_in
  state_changes before after path = changes_in (depth before) before after path

-- `TypeError` and `KeyError` come from indexing, the other two are raised as `ValueError`.
pub data ChangeError : Type 0 where
  invalid_path stale_plan key_error type_error : ChangeError

module _ {Leaf : Type 0} ⦃e : Eq Leaf⦄ where
  -- `change.get("before")`: a missing entry reads as None
  unfoldable pub or_null : Option (Json Leaf) → Json Leaf
  or_null none = null
  or_null (some v) = v

  -- The test that refuses a stale plan.
  unfoldable pub is_stale : Change Leaf → Option (Json Leaf) → Bool
  unfolding or_null
  is_stale c none = c.before_exists
  is_stale c (some v) = not c.before_exists || not (json_eq v (or_null c.before))

  -- `parent[key] = deepcopy(change["after"])`
  unfoldable pub put_after : Option (Json Leaf) → Text → Dict Leaf → Outcome ChangeError (Dict Leaf)
  put_after none key parent = err key_error
  put_after (some v) key parent = ok (put key v parent)

  -- What is done to the parent dict at the last key of the path.
  unfoldable pub edit : Change Leaf → Text → Dict Leaf → Outcome ChangeError (Dict Leaf)
  unfolding is_stale put_after
  edit c key parent =
      if is_stale c (lookup key parent)
      then err stale_plan
      else if c.after_exists
      then put_after c.after key parent
      else ok (remove key parent)

  -- `parent = parent[key]`, with `continue` for the steps below. The parent is changed in place:
  -- here each dict on the way is written back under its key.
  unfoldable pub descend :
      (Dict Leaf → Outcome ChangeError (Dict Leaf))
      → Text
      → Dict Leaf
      → Option (Json Leaf)
      → Outcome ChangeError (Dict Leaf)
  descend continue key state none = err key_error
  descend continue key state (some (obj d)) = do d' ← continue d; ok (put key (obj d') state)
  descend continue key state (some _) = err type_error

  -- The body of the loop for one change, with the path walked by recursion.
  unfoldable pub apply_at : Change Leaf → List Text → Dict Leaf → Outcome ChangeError (Dict Leaf)
  unfolding edit descend
  apply_at c [] state = err invalid_path
  apply_at c (key ∷ []) state = edit c key state
  apply_at c (key ∷ next ∷ path) state =
      descend (apply_at c (next ∷ path)) key state (lookup key state)

  unfoldable pub apply_changes : List (Change Leaf) → Dict Leaf → Outcome ChangeError (Dict Leaf)
  unfolding apply_at
  apply_changes [] state = ok state
  apply_changes (c ∷ cs) state = apply_at c c.path state >>= apply_changes cs
