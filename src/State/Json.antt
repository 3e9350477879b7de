-- ===== src/State/Json.antt =====
-- The JSON documents that dbwarden/engine/generation_state.py compares and edits.
--
-- A Python dict is the list of its fields sorted by key: the modelled code reads a dict only by
-- membership, lookup, its sorted keys and `==`, and none of these sees the order of insertion.
-- `Leaf` stands for the values that are neither None nor a dict, up to Python's `==`: the code only
-- compares them.
use dbwarden.Common.{
  ℕ, suc, ◌≡◌, Bool, true, false, Option, none, some, List, [], ◌∷◌, ◌&&◌, ◌↔◌, if◌then◌else◌, Text,
  text_eq, text_lt,
}
use Prim.Native.Nat.{max}

mutual
  pub data Json (Leaf : Type 0) : Type 0 where
    null : Json Leaf
    leaf : Leaf → Json Leaf
    obj : Dict Leaf → Json Leaf

  pub data Dict (Leaf : Type 0) : Type 0 where
    end : Dict Leaf
    field : Text → Json Leaf → Dict Leaf → Dict Leaf

module _ {Leaf : Type 0} where
  -- `d.get(k)`; `k in d` is `is_some (lookup k d)`
  unfoldable pub lookup : Text → Dict Leaf → Option (Json Leaf)
  lookup k end = none
  lookup k (field j v d) = if text_eq k j then some v else lookup k d

  -- `d[k] = v`
  unfoldable pub put : Text → Json Leaf → Dict Leaf → Dict Leaf
  put k v end = field k v end
  put k v (field j w d) =
      let rest = put k v d in
      if text_eq k j
      then field k v d
      else if text_lt k j
      then field k v (field j w d)
      else field j w rest

  -- `del d[k]`, for a key that is present
  unfoldable pub remove : Text → Dict Leaf → Dict Leaf
  remove k end = end
  remove k (field j w d) = let rest = remove k d in if text_eq k j then d else field j w rest

  -- `d.keys()`
  unfoldable pub keys : Dict Leaf → List Text
  keys end = []
  keys (field k v d) = k ∷ keys d

  -- `k` stands before every key of the dict.
  abbrev pub Before : Text → Dict Leaf → Type 0
  Before k end = Unit
  Before k (field j w d) = (text_lt k j ≡ true) × Before k d

-- Dicts are sorted by key, at every depth.
abbrev mutual
  pub IsSortedJson : {Leaf : Type 0} → Json Leaf → Type 0
  IsSortedJson null = Unit
  IsSortedJson (leaf x) = Unit
  IsSortedJson (obj d) = IsSorted d

  pub IsSorted : {Leaf : Type 0} → Dict Leaf → Type 0
  IsSorted end = Unit
  IsSorted (field k v d) = Before k d × IsSortedJson v × IsSorted d

-- The nesting depth, which bounds the recursion of `state_changes`.
unfoldable mutual
  pub depth_json : {Leaf : Type 0} → Json Leaf → ℕ
  depth_json null = 0
  depth_json (leaf x) = 0
  depth_json (obj d) = depth d

  pub depth : {Leaf : Type 0} → Dict Leaf → ℕ
  depth end = 1
  depth (field k v d) = max (suc (depth_json v)) (depth d)

-- Python's `==` on the values that are neither None nor a dict.
pub record Eq (Leaf : Type 0) : Type 0 where
  pub beq : Leaf → Leaf → Bool
  pub beq_iff : (a b : Leaf) → (beq a b ≡ true) ↔ (a ≡ b)

module _ {Leaf : Type 0} ⦃e : Eq Leaf⦄ where
  -- Python's `==`
  unfoldable mutual
    pub json_eq : Json Leaf → Json Leaf → Bool
    json_eq null null = true
    json_eq (leaf x) (leaf y) = e.beq x y
    json_eq (obj d) (obj d') = dict_eq d d'
    json_eq _ _ = false

    pub dict_eq : Dict Leaf → Dict Leaf → Bool
    dict_eq end end = true
    dict_eq (field k v d) (field k' v' d') = text_eq k k' && json_eq v v' && dict_eq d d'
    dict_eq _ _ = false
