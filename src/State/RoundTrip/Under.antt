-- ===== src/State/RoundTrip/Under.antt =====
-- Changes below a key of a state act on the dict that stands under the key.
use dbwarden.Common.{
  ℕ, zero, suc, ◌≡◌, refl, Option, none, some, List, [], ◌∷◌, ◌++◌, ap, map, Text, ok, ◌>>=◌, arith,
  All, All-append, Outcome-cases, text_eq_refl,
}
use mathlib.Core.Path.{fun_ext}
use mathlib.Core.List.{map-append}
use dbwarden.State.Json.{Json, null, leaf, obj, Dict, end, field, lookup, put, keys, Eq}
use dbwarden.State.DictLaws.{lookup-put}
use dbwarden.State.Changes.{
  Change, sorted_union, change_at, key_changes, loop_keys, changes_in, descend, apply_at,
  apply_changes,
}

module _ {Leaf : Type 0} where
  pub put-put : (k : Text) (v w : Json Leaf) (d : Dict Leaf) → put k v (put k w d) ≡ put k v d
  unfolding put
  put-put k v w end = ground (arith, text_eq_refl k)
  put-put k v w (field j x d) = ground (arith, text_eq_refl k, put-put k v w d)

abbrev pub HasKey : List Text → Type 0
HasKey [] = ⊥
HasKey (k ∷ path) = Unit

module _ {Leaf : Type 0} ⦃e : Eq Leaf⦄ where
  abbrev pub under : Text → Change Leaf → Change Leaf
  under k c = record c { path = k ∷ c.path }

  abbrev pub HaveKeys : List (Change Leaf) → Type 0
  HaveKeys = All (λ c. HasKey c.path)

  -- A longer location only adds its key in front of each path.
  module _ (k : Text) (recurse : Dict Leaf → Dict Leaf → List Text → List (Change Leaf))
      (ih : (b a : Dict Leaf) (path : List Text)
        → recurse b a (k ∷ path) ≡ map (under k) (recurse b a path)) where
    key_changes-under :
        (location : List Text) (x y : Option (Json Leaf))
        → key_changes recurse (k ∷ location) x y ≡ map (under k) (key_changes recurse location x y)
    unfolding key_changes change_at
    key_changes-under location (some (obj b)) (some (obj a)) = ih b a location
    key_changes-under location none none = ground arith
    key_changes-under location none (some y) = ground arith
    key_changes-under location (some null) y = ground arith
    key_changes-under location (some (leaf x)) y = ground arith
    key_changes-under location (some (obj x)) none = ground arith
    key_changes-under location (some (obj x)) (some null) = ground arith
    key_changes-under location (some (obj x)) (some (leaf y)) = ground arith

    loop_keys-under :
        (b a : Dict Leaf) (path ks : List Text)
        → loop_keys recurse b a (k ∷ path) ks ≡ map (under k) (loop_keys recurse b a path ks)
    unfolding loop_keys
    loop_keys-under b a path [] = refl
    loop_keys-under b a path (j ∷ ks) = rw map-append (
        cc (
          key_changes-under (path ++ j ∷ []) (lookup j b) (lookup j a),
          loop_keys-under b a path ks,
        ))

  pub changes_in-under :
      (k : Text) (n : ℕ) (b a : Dict Leaf) (path : List Text)
      → changes_in n b a (k ∷ path) ≡ map (under k) (changes_in n b a path)
  unfolding changes_in
  changes_in-under k zero b a path = refl
  changes_in-under k (suc n) b a path =
      loop_keys-under k (changes_in n) (changes_in-under k n) b a path
        (sorted_union (keys b) (keys a))

  -- Every path that `state_changes` writes has a last key.
  module _ (recurse : Dict Leaf → Dict Leaf → List Text → List (Change Leaf))
      (ih : (b a : Dict Leaf) (path : List Text) → HasKey path → HaveKeys (recurse b a path)) where
    key_changes-HaveKeys :
        (location : List Text) (x y : Option (Json Leaf))
        → HasKey location
        → HaveKeys (key_changes recurse location x y)
    unfolding key_changes change_at
    key_changes-HaveKeys location (some (obj b)) (some (obj a)) h = ih b a location h
    key_changes-HaveKeys location none none h = ground arith
    key_changes-HaveKeys location none (some y) h = ground arith
    key_changes-HaveKeys location (some null) y h = ground arith
    key_changes-HaveKeys location (some (leaf x)) y h = ground arith
    key_changes-HaveKeys location (some (obj x)) none h = ground arith
    key_changes-HaveKeys location (some (obj x)) (some null) h = ground arith
    key_changes-HaveKeys location (some (obj x)) (some (leaf y)) h = ground arith

    loop_keys-HaveKeys :
        (b a : Dict Leaf) (path ks : List Text) → HaveKeys (loop_keys recurse b a path ks)
    unfolding loop_keys
    loop_keys-HaveKeys b a path [] = tt
    loop_keys-HaveKeys b a path (j ∷ ks) =
        All-append (λ c. HasKey c.path)
          (key_changes recurse (path ++ j ∷ []) (lookup j b) (lookup j a)) _
          (key_changes-HaveKeys (path ++ j ∷ []) (lookup j b) (lookup j a) (snoc path))
          (loop_keys-HaveKeys b a path ks)
      where
        snoc : (p : List Text) → HasKey (p ++ j ∷ [])
        snoc [] = tt
        snoc (x ∷ p) = tt

  pub changes_in-HaveKeys :
      (n : ℕ) (b a : Dict Leaf) (path : List Text) → HaveKeys (changes_in n b a path)
  unfolding changes_in
  changes_in-HaveKeys zero b a path = tt
  changes_in-HaveKeys (suc n) b a path =
      loop_keys-HaveKeys (changes_in n) (λ b' a' p h. changes_in-HaveKeys n b' a' p) b a path
        (sorted_union (keys b) (keys a))

  apply_at-under :
      (k : Text) (c : Change Leaf) (path : List Text) (s : Dict Leaf)
      → apply_at (under k c) path s ≡ apply_at c path s
  unfolding apply_at
  apply_at-under k c [] s = refl
  apply_at-under k c (j ∷ []) s = refl
  apply_at-under k c (j ∷ i ∷ path) s =
      ap (λ f. descend f j s (lookup j s)) (fun_ext (apply_at-under k c (i ∷ path)))

  -- One step down: the change acts on the dict that stands under the key.
  apply_at-put :
      (k t : Text) (p : List Text) (c : Change Leaf) (d s : Dict Leaf)
      → apply_at c (k ∷ t ∷ p) (put k (obj d) s)
        ≡ (do d' ← apply_at c (t ∷ p) d; ok (put k (obj d') s))
  unfolding apply_at
  apply_at-put k t p c d s =
      rw (lookup-put k k (obj d) s, text_eq_refl k)
        (Outcome-cases (apply_at c (t ∷ p) d) (λ d' h. rw (h, put-put k (obj d') (obj d) s))
          (λ x h. rw h))

  under_step :
      (k : Text) (c : Change Leaf) (path : List Text) (cs cs' : List (Change Leaf))
      (d s : Dict Leaf)
      → HasKey path
      → ((d' : Dict Leaf)
          → apply_changes cs' (put k (obj d') s)
            ≡ (do d'' ← apply_changes cs d'; ok (put k (obj d'') s)))
      → (apply_at (under k c) (k ∷ path) (put k (obj d) s) >>= apply_changes cs')
        ≡ (do d' ← (apply_at c path d >>= apply_changes cs); ok (put k (obj d') s))
  under_step k c [] cs cs' d s h rest = absurd h
  under_step k c (t ∷ p) cs cs' d s h rest =
      rw (apply_at-under k c (k ∷ t ∷ p) (put k (obj d) s), apply_at-put k t p c d s)
        (Outcome-cases (apply_at c (t ∷ p) d) (λ d' e. rw e (rest d')) (λ x e. rw e))

  -- Changes below a key act on the dict that stands there.
  pub apply_changes-under :
      (k : Text) (cs : List (Change Leaf)) (d s : Dict Leaf)
      → HaveKeys cs
      → apply_changes (map (under k) cs) (put k (obj d) s)
        ≡ (do d' ← apply_changes cs d; ok (put k (obj d') s))
  unfolding apply_changes
  apply_changes-under k [] d s h = refl
  apply_changes-under k (c ∷ cs) d s h =
      under_step k c c.path cs (map (under k) cs) d s h.0 (λ d'. apply_changes-under k cs d' s h.1)
