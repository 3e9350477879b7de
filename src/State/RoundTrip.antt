-- ===== src/State/RoundTrip.antt =====
-- Applying the differences of two states to the first gives the second.
mod Entries
mod Under
mod Keys
use dbwarden.Common.{
  ℕ, zero, suc, ◌≤◌, ◌≡◌, refl, true, false, Option, none, some, List, [], ◌∷◌, sym, not,
  if◌then◌else◌, Text, text_eq, text_in, ok, arith, text_eq_iff, text_eq_refl, text_lt_irrefl, ap,
  Outcome-cases, Outcome, Bool-cases, is_some, subst, inl, inr, ◌∙◌, All, map, ◌++◌, Outcome, ◌>>=◌,
  ◌↔◌, text_lt,
}
use mathlib.Core.Path.{◌≡⟨◌⟩◌, ◌∎}
use dbwarden.State.Json.{
  put, Json, null, leaf, obj, Dict, lookup, keys, IsSorted, depth, Eq, json_eq, field, end,
}
use dbwarden.State.DictLaws.{dict_ext, json_eq_iff}
use dbwarden.State.Changes.{
  Change, sorted_union, differ, change_at, key_changes, loop_keys, changes_in, state_changes,
  is_stale, apply_at, apply_changes,
}
use Entries.{
  set_entry, IsSortedEntry, lookup-set_entry, set_entry-IsSorted, lookup-IsSortedEntry,
  set_entry_self, depth-lookup, depth-pos,
}
use Under.{under, changes_in-under, changes_in-HaveKeys, apply_changes-under}
use Keys.{
  KeyBefore, IsAscending, sorted_union-IsAscending, text_in-sorted_union, keys-IsAscending,
  lookup-ne_key, lookup-key, All-of-text_in,
}

module _ {Leaf : Type 0} ⦃e : Eq Leaf⦄ where
  pub apply_changes-append :
      (cs cs' : List (Change Leaf)) (s : Dict Leaf)
      → apply_changes (cs ++ cs') s ≡ (apply_changes cs s >>= apply_changes cs')
  unfolding apply_changes
  apply_changes-append [] cs' s = refl
  apply_changes-append (c ∷ cs) cs' s =
      Outcome-cases (apply_at c c.path s) (λ t h. rw h (apply_changes-append cs cs' t))
        (λ x h. rw h)

  pub apply_changes-nil : (s : Dict Leaf) → apply_changes [] s ≡ ok s
  unfolding apply_changes
  apply_changes-nil s = refl

  -- One change, at a key of the state itself.
  change_step :
      (k : Text) (x y : Option (Json Leaf)) (s : Dict Leaf)
      → IsSorted s
      → lookup k s ≡ x
      → apply_changes (if differ x y then change_at (k ∷ []) x y ∷ [] else []) s
        ≡ ok (set_entry k y s)
  unfolding apply_changes differ change_at
  change_step k none none s so h = rw h refl
  change_step k none (some w) s so h = rw h refl
  change_step k (some v) none s so h = rw (h, (json_eq_iff v v).1 refl) refl
  change_step k (some v) (some w) s so h = elim (Bool-cases (json_eq v w)) [
    | inl same ↦
        rw same
          (ap ok (sym (set_entry_self k (some w) s so (h ∙ ap some ((json_eq_iff v w).0 same)))))
    | inr other ↦ rw (other, h, (json_eq_iff v v).1 refl) refl
  ]

  -- The nested loop, at the key under which both states hold a dict.
  nested_step :
      (n : ℕ) (k : Text) (b a s : Dict Leaf)
      → IsSorted s
      → lookup k s ≡ some (obj b)
      → apply_changes (changes_in n b a []) b ≡ ok a
      → apply_changes (changes_in n b a (k ∷ [])) s ≡ ok (set_entry k (some (obj a)) s)
  nested_step n k b a s so h ih =
      apply_changes (changes_in n b a (k ∷ [])) s
      ≡⟨ ap (λ t. apply_changes (changes_in n b a (k ∷ [])) t)
          (sym (set_entry_self k (some (obj b)) s so h)) ⟩
        apply_changes (changes_in n b a (k ∷ [])) (put k (obj b) s)
      ≡⟨ ap (λ cs. apply_changes cs (put k (obj b) s)) (changes_in-under k n b a []) ⟩
        apply_changes (map (under k) (changes_in n b a [])) (put k (obj b) s)
      ≡⟨ apply_changes-under k (changes_in n b a []) b s (changes_in-HaveKeys n b a []) ⟩
        (do d' ← apply_changes (changes_in n b a []) b; ok (put k (obj d') s))
      ≡⟨ ap (λ r. r >>= λ d'. ok (put k (obj d') s)) ih ⟩ ok (put k (obj a) s) ∎

  module _ (n : ℕ)
      (ih : (b a : Dict Leaf)
        → IsSorted b
        → IsSorted a
        → depth b ≤ n
        → apply_changes (changes_in n b a []) b ≡ ok a) where
    key_step :
        (k : Text) (x y : Option (Json Leaf)) (s : Dict Leaf)
        → IsSorted s
        → lookup k s ≡ x
        → IsSortedEntry x
        → IsSortedEntry y
        → ((d : Dict Leaf) → x ≡ some (obj d) → depth d ≤ n)
        → apply_changes (key_changes (changes_in n) (k ∷ []) x y) s ≡ ok (set_entry k y s)
    unfolding key_changes
    key_step k (some (obj b)) (some (obj a)) s so h sx sy deep =
        nested_step n k b a s so h (ih b a sx sy (deep b refl))
    key_step k none none s so h sx sy deep = change_step k none none s so h
    key_step k none (some y) s so h sx sy deep = change_step k none (some y) s so h
    key_step k (some null) y s so h sx sy deep = change_step k (some null) y s so h
    key_step k (some (leaf x)) y s so h sx sy deep = change_step k (some (leaf x)) y s so h
    key_step k (some (obj x)) none s so h sx sy deep = change_step k (some (obj x)) none s so h
    key_step k (some (obj x)) (some null) s so h sx sy deep =
        change_step k (some (obj x)) (some null) s so h
    key_step k (some (obj x)) (some (leaf y)) s so h sx sy deep =
        change_step k (some (obj x)) (some (leaf y)) s so h

    module _ (b a : Dict Leaf) (sb : IsSorted b) (sa : IsSorted a) (deep : depth b ≤ suc n) where
      -- The state after the loop over some keys.
      copy_keys : List Text → Dict Leaf → Dict Leaf
      copy_keys [] s = s
      copy_keys (k ∷ ks) s = copy_keys ks (set_entry k (lookup k a) s)

      copy_keys-IsSorted : (ks : List Text) (s : Dict Leaf) → IsSorted s → IsSorted (copy_keys ks s)
      unfolding copy_keys
      copy_keys-IsSorted [] s so = so
      copy_keys-IsSorted (k ∷ ks) s so =
          copy_keys-IsSorted ks (set_entry k (lookup k a) s)
            (set_entry-IsSorted k (lookup k a) s (lookup-IsSortedEntry k a _ sa refl) so)

      lookup-copy_keys :
          (j : Text) (ks : List Text) (s : Dict Leaf)
          → IsSorted s
          → lookup j (copy_keys ks s) ≡ (if text_in j ks then lookup j a else lookup j s)
      unfolding copy_keys text_in
      lookup-copy_keys j [] s so = refl
      lookup-copy_keys j (k ∷ ks) s so = ground (
        arith,
        lookup-set_entry j k (lookup k a) s so,
        lookup-copy_keys j ks (set_entry k (lookup k a) s)
            (set_entry-IsSorted k (lookup k a) s (lookup-IsSortedEntry k a _ sa refl) so),
        text_eq_iff j k,
      )

      loop_step :
          (ks : List Text) (s : Dict Leaf)
          → IsSorted s
          → IsAscending ks
          → All (λ k. lookup k s ≡ lookup k b) ks
          → apply_changes (loop_keys (changes_in n) b a [] ks) s ≡ ok (copy_keys ks s)
      unfolding loop_keys copy_keys
      loop_step [] s so up same = unfold apply_changes in refl
      loop_step (k ∷ ks) s so up same =
          rw
            (
              apply_changes-append,
              key_step k (lookup k b) (lookup k a) s so same.0 (lookup-IsSortedEntry k b _ sb refl)
                  (lookup-IsSortedEntry k a _ sa refl) (λ d h. omega (arith, depth-lookup k b d h)),
            )
            (loop_step ks (set_entry k (lookup k a) s)
              (set_entry-IsSorted k (lookup k a) s (lookup-IsSortedEntry k a _ sa refl) so) up.1
              (keep ks up.0 same.1))
        where
          keep :
              (js : List Text)
              → KeyBefore k js
              → All (λ j. lookup j s ≡ lookup j b) js
              → All (λ j. lookup j (set_entry k (lookup k a) s) ≡ lookup j b) js
          keep [] up h = tt
          keep (j ∷ js) up h = (
            ground (
              arith,
              lookup-set_entry j k (lookup k a) s so,
              text_eq_iff j k,
              text_lt_irrefl k,
              up.0,
              h.0,
            ),
            keep js up.1 h.1,
          )

      copy_all : copy_keys (sorted_union (keys b) (keys a)) b ≡ a
      copy_all =
          dict_ext (copy_keys (sorted_union (keys b) (keys a)) b) a
            (copy_keys-IsSorted (sorted_union (keys b) (keys a)) b sb) sa
            λ j. ground (
              arith,
              lookup-copy_keys j (sorted_union (keys b) (keys a)) b sb,
              text_in-sorted_union j (keys b) (keys a),
              lookup-ne_key j b,
              lookup-ne_key j a,
            )

      level_step :
          apply_changes (loop_keys (changes_in n) b a [] (sorted_union (keys b) (keys a))) b ≡ ok a
      level_step =
          loop_step (sorted_union (keys b) (keys a)) b sb
            (sorted_union-IsAscending (keys b) (keys a) (keys-IsAscending a sa))
            (all_refl (sorted_union (keys b) (keys a)))
          ∙ ap ok copy_all
        where
          all_refl : (ks : List Text) → All (λ k. lookup k b ≡ lookup k b) ks
          all_refl [] = tt
          all_refl (k ∷ ks) = (refl, all_refl ks)

  pub changes_in_apply :
      (n : ℕ) (b a : Dict Leaf)
      → IsSorted b
      → IsSorted a
      → depth b ≤ n
      → apply_changes (changes_in n b a []) b ≡ ok a
  unfolding changes_in
  changes_in_apply zero b a sb sa h = absurd (omega (arith, depth-pos b))
  changes_in_apply (suc n) b a sb sa h = level_step n (changes_in_apply n) b a sb sa h

-- Applying the changes that `state_changes` lists between two states to the first state succeeds,
-- and gives the second state.
pub apply_changes-state_changes :
    {Leaf : Type 0} ⦃e : Eq Leaf⦄ (before after : Dict Leaf)
    → IsSorted before
    → IsSorted after
    → apply_changes (state_changes before after []) before ≡ ok after
unfolding state_changes
apply_changes-state_changes before after sb sa =
    changes_in_apply (depth before) before after sb sa (omega arith)

module _ {Leaf : Type 0} ⦃e : Eq Leaf⦄ where
  key_changes_same :
      (n : ℕ) (location : List Text) (x : Option (Json Leaf))
      → ((d : Dict Leaf) (p : List Text) → changes_in n d d p ≡ [])
      → is_some x ≡ true
      → key_changes (changes_in n) location x x ≡ []
  unfolding key_changes differ
  key_changes_same n location none ih h = cc
  key_changes_same n location (some null) ih h = rw ((json_eq_iff {Leaf = Leaf} null null).1 refl)
  key_changes_same n location (some (leaf x)) ih h = rw ((json_eq_iff (leaf x) (leaf x)).1 refl)
  key_changes_same n location (some (obj d)) ih h = ih d location

  loop_keys_same :
      (n : ℕ) (d : Dict Leaf) (path ks : List Text)
      → ((d' : Dict Leaf) (p : List Text) → changes_in n d' d' p ≡ [])
      → All (λ k. is_some (lookup k d) ≡ true) ks
      → loop_keys (changes_in n) d d path ks ≡ []
  unfolding loop_keys
  loop_keys_same n d path [] ih h = refl
  loop_keys_same n d path (k ∷ ks) ih h =
      rw
        (key_changes_same n (path ++ k ∷ []) (lookup k d) ih h.0, loop_keys_same n d path ks ih h.1)

  changes_in_same : (n : ℕ) (d : Dict Leaf) (path : List Text) → changes_in n d d path ≡ []
  unfolding changes_in
  changes_in_same zero d path = refl
  changes_in_same (suc n) d path =
      loop_keys_same n d path (sorted_union (keys d) (keys d)) (changes_in_same n) (
        All-of-text_in (sorted_union (keys d) (keys d))
          λ t h. ground (arith, text_in-sorted_union t (keys d) (keys d), lookup-key t d))

-- Between two states there are no changes exactly when they are equal.
state_changes-eq-nil :
    {Leaf : Type 0} ⦃e : Eq Leaf⦄ (before after : Dict Leaf)
    → IsSorted before
    → IsSorted after
    → (state_changes before after [] ≡ []) ↔ (before ≡ after)
unfolding state_changes
state_changes-eq-nil before after sb sa = (
  λ h.
      ok_inj (
        ap (λ cs. apply_changes cs before) (sym h)
        ∙ apply_changes-state_changes before after sb sa),
  λ p.
      subst (λ t. changes_in (depth before) before t [] ≡ []) p
        (changes_in_same (depth before) before []),
)
  where
    ok_inj : apply_changes [] before ≡ ok after → before ≡ after
    ok_inj h = unfold apply_changes in cc
