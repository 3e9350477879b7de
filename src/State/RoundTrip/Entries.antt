-- ===== src/State/RoundTrip/Entries.antt =====
-- The entry that the loop of `state_changes` writes at one key.
use dbwarden.Common.{
  suc, ◌≤◌, ◌≡◌, Option, none, some, if◌then◌else◌, Text, text_eq, arith, text_eq_iff,
}
use dbwarden.State.Json.{
  Json, obj, Dict, end, field, lookup, put, remove, IsSorted, IsSortedJson, depth,
}
use dbwarden.State.DictLaws.{
  lookup-put, lookup-remove, put-IsSorted, remove-IsSorted, lookup-IsSorted, dict_ext,
}

module _ {Leaf : Type 0} where
  -- What the loop does for one key: the entry becomes that of the target.
  abbrev pub set_entry : Text → Option (Json Leaf) → Dict Leaf → Dict Leaf
  set_entry k none d = remove k d
  set_entry k (some v) d = put k v d

  abbrev pub IsSortedEntry : Option (Json Leaf) → Type 0
  IsSortedEntry none = Unit
  IsSortedEntry (some v) = IsSortedJson v

  pub lookup-set_entry :
      (j k : Text) (o : Option (Json Leaf)) (d : Dict Leaf)
      → IsSorted d
      → lookup j (set_entry k o d) ≡ (if text_eq j k then o else lookup j d)
  lookup-set_entry j k none d s = lookup-remove j k d s
  lookup-set_entry j k (some v) d s = lookup-put j k v d

  pub set_entry-IsSorted :
      (k : Text) (o : Option (Json Leaf)) (d : Dict Leaf)
      → IsSortedEntry o
      → IsSorted d
      → IsSorted (set_entry k o d)
  set_entry-IsSorted k none d so s = remove-IsSorted k d s
  set_entry-IsSorted k (some v) d so s = put-IsSorted k v d so s

  pub lookup-IsSortedEntry :
      (k : Text) (d : Dict Leaf) (o : Option (Json Leaf))
      → IsSorted d
      → lookup k d ≡ o
      → IsSortedEntry o
  lookup-IsSortedEntry k d none s h = tt
  lookup-IsSortedEntry k d (some v) s h = lookup-IsSorted k d v s h

  -- Writing back what is there changes nothing.
  pub set_entry_self :
      (k : Text) (o : Option (Json Leaf)) (d : Dict Leaf)
      → IsSorted d
      → lookup k d ≡ o
      → set_entry k o d ≡ d
  set_entry_self k o d s h =
      dict_ext (set_entry k o d) d (set_entry-IsSorted k o d (lookup-IsSortedEntry k d o s h) s) s
        λ j. ground (arith, lookup-set_entry j k o d s, text_eq_iff j k)

  pub depth-lookup :
      (k : Text) (d d' : Dict Leaf) → lookup k d ≡ some (obj d') → suc (depth d') ≤ depth d
  unfolding lookup depth
  depth-lookup k end d' h = cc
  depth-lookup k (field j v d) d' h = ground (arith, depth-lookup k d d')

  pub depth-pos : (d : Dict Leaf) → 1 ≤ depth d
  unfolding depth
  depth-pos end = omega arith
  depth-pos (field k v d) = omega arith
