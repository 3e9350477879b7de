-- ===== src/State/DictLaws.antt =====
-- The laws of the dicts of State/Json.antt: lookup, order, equality.
use dbwarden.Common.{
  ◌≡◌, ◌↔◌, refl, true, none, some, arith, subst, if◌then◌else◌, Text, text_eq, text_lt,
  text_eq_iff, text_eq_refl, text_eq_sound, ◌&&◌, &&-eq-true, text_lt_irrefl, text_lt_trans,
  text_lt_total,
}
use dbwarden.State.Json.{
  Json, null, leaf, obj, Dict, end, field, lookup, put, remove, Before, IsSortedJson, IsSorted, Eq,
  json_eq, dict_eq,
}

module _ {Leaf : Type 0} where
  pub lookup-put :
      (j k : Text) (v : Json Leaf) (d : Dict Leaf)
      → lookup j (put k v d) ≡ (if text_eq j k then some v else lookup j d)
  unfolding lookup put
  lookup-put j k v end = refl
  lookup-put j k v (field i w d) =
      ground (arith, text_eq_iff j k, text_eq_iff k i, text_eq_iff j i, lookup-put j k v d)

  pub lookup-Before : (k : Text) (d : Dict Leaf) → Before k d → lookup k d ≡ none
  unfolding lookup
  lookup-Before k end h = refl
  lookup-Before k (field i w d) h =
      ground (arith, text_eq_iff k i, text_lt_irrefl k, lookup-Before k d h.1)

  pub lookup-remove :
      (j k : Text) (d : Dict Leaf)
      → IsSorted d
      → lookup j (remove k d) ≡ (if text_eq j k then none else lookup j d)
  unfolding lookup remove
  lookup-remove j k end s = ground arith
  lookup-remove j k (field i w d) s = ground (
    arith,
    text_eq_iff j k,
    text_eq_iff k i,
    text_eq_iff j i,
    lookup-Before i d s.0,
    lookup-remove j k d s.2,
  )

  pub Before-trans : (j k : Text) (d : Dict Leaf) → text_lt j k ≡ true → Before k d → Before j d
  Before-trans j k end h b = tt
  Before-trans j k (field i w d) h b = (text_lt_trans j k i h b.0, Before-trans j k d h b.1)

  Before-put :
      (j k : Text) (v : Json Leaf) (d : Dict Leaf)
      → text_lt j k ≡ true
      → Before j d
      → Before j (put k v d)
  unfolding put
  Before-put j k v end h b = (h, tt)
  Before-put j k v (field i w d) h b = ground (arith, Before-put j k v d h b.1)

  pub put-IsSorted :
      (k : Text) (v : Json Leaf) (d : Dict Leaf)
      → IsSortedJson v
      → IsSorted d
      → IsSorted (put k v d)
  unfolding put
  put-IsSorted k v end sv s = (tt, sv, tt)
  put-IsSorted k v (field i w d) sv s = ground (
    arith,
    put-IsSorted k v d sv s.2,
    text_eq_iff k i,
    text_lt_total k i,
    Before-put i k v d,
    Before-trans k i d,
  )

  Before-remove : (j k : Text) (d : Dict Leaf) → Before j d → Before j (remove k d)
  unfolding remove
  Before-remove j k end b = tt
  Before-remove j k (field i w d) b = ground (arith, Before-remove j k d b.1)

  pub remove-IsSorted : (k : Text) (d : Dict Leaf) → IsSorted d → IsSorted (remove k d)
  unfolding remove
  remove-IsSorted k end s = tt
  remove-IsSorted k (field i w d) s =
      ground (arith, remove-IsSorted k d s.2, Before-remove i k d s.0)

  -- What a key of a sorted dict holds is sorted.
  pub lookup-IsSorted :
      (k : Text) (d : Dict Leaf) (v : Json Leaf) → IsSorted d → lookup k d ≡ some v → IsSortedJson v
  unfolding lookup
  lookup-IsSorted k end v s h = cc
  lookup-IsSorted k (field i w d) v s h = ground (arith, lookup-IsSorted k d v s.2, lem)
    where
      lem : w ≡ v → IsSortedJson v
      lem e = subst IsSortedJson e s.1

  some_inj : {a b : Json Leaf} → some a ≡ some b → a ≡ b
  some_inj h = cc

  -- Two sorted dicts with the same lookups are the same dict.
  pub dict_ext :
      (d d' : Dict Leaf)
      → IsSorted d
      → IsSorted d'
      → ((k : Text) → lookup k d ≡ lookup k d')
      → d ≡ d'
  unfolding lookup
  dict_ext end end s s' h = refl
  dict_ext end (field k v d') s s' h = absurd (ground (arith, h k, text_eq_refl k))
  dict_ext (field k v d) end s s' h = absurd (ground (arith, h k, text_eq_refl k))
  dict_ext (field k v d) (field k' v' d') s s' h =
      ground (arith, same_key, same_value same_key, dict_ext d d' s.2 s'.2 (rest same_key))
    where
      same_key : k ≡ k'
      same_key = ground (
        arith,
        h k,
        h k',
        text_eq_iff k k',
        text_eq_refl k,
        text_eq_refl k',
        text_eq_iff k' k,
        text_lt_total k k',
        lookup-Before k d',
        lookup-Before k' d,
        Before-trans k k' d',
        Before-trans k' k d,
      )

      same_value : k ≡ k' → v ≡ v'
      same_value e = ground (arith, h k, text_eq_refl k, text_eq_iff k k')

      rest : k ≡ k' → (j : Text) → lookup j d ≡ lookup j d'
      rest e j = ground (
        arith,
        h j,
        text_eq_iff j k,
        text_eq_iff j k',
        lookup-Before k d s.0,
        lookup-Before k' d' s'.0,
      )

mutual
  unfolding json_eq

  json_eq_sound : {Leaf : Type 0} ⦃e : Eq Leaf⦄ (v w : Json Leaf) → json_eq v w ≡ true → v ≡ w
  json_eq_sound null null h = refl
  json_eq_sound ⦃e⦄ (leaf x) (leaf y) h = ground (arith, e.beq_iff x y)
  json_eq_sound (obj d) (obj d') h = ground (arith, dict_eq_sound d d')
  json_eq_sound _ _ h = cc

  dict_eq_sound : {Leaf : Type 0} ⦃e : Eq Leaf⦄ (d d' : Dict Leaf) → dict_eq d d' ≡ true → d ≡ d'
  dict_eq_sound end end h = refl
  dict_eq_sound (field k v d) (field k' v' d') h =
      let (r, hd) = &&-eq-true (text_eq k k' && json_eq v v') (dict_eq d d') h in
      let (hk, hv) = &&-eq-true (text_eq k k') (json_eq v v') r in
      cc (text_eq_sound k k' hk, json_eq_sound v v' hv, dict_eq_sound d d' hd)
  dict_eq_sound _ _ h = cc

mutual
  unfolding json_eq

  json_eq_refl : {Leaf : Type 0} ⦃e : Eq Leaf⦄ (v : Json Leaf) → json_eq v v ≡ true
  json_eq_refl null = refl
  json_eq_refl ⦃e⦄ (leaf x) = ground (arith, e.beq_iff x x)
  json_eq_refl (obj d) = dict_eq_refl d

  dict_eq_refl : {Leaf : Type 0} ⦃e : Eq Leaf⦄ (d : Dict Leaf) → dict_eq d d ≡ true
  dict_eq_refl end = refl
  dict_eq_refl (field k v d) = ground (arith, text_eq_refl k, json_eq_refl v, dict_eq_refl d)

pub json_eq_iff : {Leaf : Type 0} ⦃e : Eq Leaf⦄ (v w : Json Leaf) → (json_eq v w ≡ true) ↔ (v ≡ w)
json_eq_iff v w = (json_eq_sound v w, λ p. subst (λ u. json_eq v u ≡ true) p (json_eq_refl v))
