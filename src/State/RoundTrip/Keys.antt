-- ===== src/State/RoundTrip/Keys.antt =====
-- The keys that `state_changes` visits: sorted, each once, and all of both states.
use dbwarden.Common.{
  ◌≡◌, refl, true, false, none, List, [], ◌∷◌, if◌then◌else◌, Text, text_eq, text_lt, text_in,
  arith, All, text_eq_iff, text_eq_refl, text_lt_trans, text_lt_total, is_some,
}
use dbwarden.State.Json.{Dict, end, field, lookup, keys, Before, IsSorted}
use dbwarden.State.Changes.{insert_key, sorted_union}

-- Lists of keys in strictly ascending order.
abbrev pub KeyBefore : Text → List Text → Type 0
KeyBefore k = All (λ j. text_lt k j ≡ true)

abbrev pub IsAscending : List Text → Type 0
IsAscending [] = Unit
IsAscending (k ∷ ks) = KeyBefore k ks × IsAscending ks

KeyBefore-trans :
    (j k : Text) (ks : List Text) → text_lt j k ≡ true → KeyBefore k ks → KeyBefore j ks
KeyBefore-trans j k [] h b = tt
KeyBefore-trans j k (i ∷ ks) h b = (text_lt_trans j k i h b.0, KeyBefore-trans j k ks h b.1)

KeyBefore-insert_key :
    (j k : Text) (ks : List Text)
    → text_lt j k ≡ true
    → KeyBefore j ks
    → KeyBefore j (insert_key k ks)
unfolding insert_key
KeyBefore-insert_key j k [] h b = (h, tt)
KeyBefore-insert_key j k (i ∷ ks) h b = ground (arith, KeyBefore-insert_key j k ks h b.1)

insert_key-IsAscending :
    (k : Text) (ks : List Text) → IsAscending ks → IsAscending (insert_key k ks)
unfolding insert_key
insert_key-IsAscending k [] h = (tt, tt)
insert_key-IsAscending k (i ∷ ks) h = ground (
  arith,
  insert_key-IsAscending k ks h.1,
  text_eq_iff k i,
  text_lt_total k i,
  KeyBefore-insert_key i k ks,
  KeyBefore-trans k i ks,
)

pub sorted_union-IsAscending :
    (ks js : List Text) → IsAscending js → IsAscending (sorted_union ks js)
unfolding sorted_union
sorted_union-IsAscending [] js h = h
sorted_union-IsAscending (k ∷ ks) js h =
    insert_key-IsAscending k (sorted_union ks js) (sorted_union-IsAscending ks js h)

text_in-insert_key :
    (t k : Text) (ks : List Text)
    → text_in t (insert_key k ks) ≡ (if text_eq t k then true else text_in t ks)
unfolding insert_key text_in
text_in-insert_key t k [] = ground arith
text_in-insert_key t k (i ∷ ks) =
    ground (arith, text_in-insert_key t k ks, text_eq_iff k i, text_eq_iff t k, text_eq_iff t i)

pub text_in-sorted_union :
    (t : Text) (ks js : List Text)
    → text_in t (sorted_union ks js) ≡ (if text_in t ks then true else text_in t js)
unfolding sorted_union text_in
text_in-sorted_union t [] js = refl
text_in-sorted_union t (k ∷ ks) js =
    ground (arith, text_in-insert_key t k (sorted_union ks js), text_in-sorted_union t ks js)

module _ {Leaf : Type 0} where
  KeyBefore-keys : (k : Text) (d : Dict Leaf) → Before k d → KeyBefore k (keys d)
  unfolding keys
  KeyBefore-keys k end h = tt
  KeyBefore-keys k (field j v d) h = (h.0, KeyBefore-keys k d h.1)

  pub keys-IsAscending : (d : Dict Leaf) → IsSorted d → IsAscending (keys d)
  unfolding keys
  keys-IsAscending end h = tt
  keys-IsAscending (field k v d) h = (KeyBefore-keys k d h.0, keys-IsAscending d h.2)

  pub lookup-ne_key : (k : Text) (d : Dict Leaf) → text_in k (keys d) ≡ false → lookup k d ≡ none
  unfolding keys lookup text_in
  lookup-ne_key k end h = refl
  lookup-ne_key k (field j v d) h = ground (arith, lookup-ne_key k d)

  pub lookup-key :
      (k : Text) (d : Dict Leaf) → text_in k (keys d) ≡ true → is_some (lookup k d) ≡ true
  unfolding keys lookup text_in
  lookup-key k end h = cc
  lookup-key k (field j v d) h = ground (arith, lookup-key k d)

pub All-of-text_in :
    {P : Text → Type 0} (ks : List Text) → ((t : Text) → text_in t ks ≡ true → P t) → All P ks
unfolding text_in
All-of-text_in [] h = tt
All-of-text_in (k ∷ ks) h =
    (h k (ground (arith, text_eq_refl k)), All-of-text_in ks (λ t m. h t (ground arith)))
