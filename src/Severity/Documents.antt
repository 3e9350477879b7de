-- ===== src/Severity/Documents.antt =====
-- The JSON documents that dbwarden/engine/safety/plans.py writes and reads.
--
-- A dict is the list of its fields sorted by key: the order of insertion is not seen by `get`, `in`
-- and `==`. Whole numbers and other numbers are told apart as by `type(x) is int`. `==` tells a
-- number, a truth value and a text of it apart; the code compares lists of texts and dicts of texts.
use dbwarden.Common.{
  ℕ, ◌≡◌, refl, Bool, true, false, List, [], ◌∷◌, ◌&&◌, ◌==◌, not, if◌then◌else◌, Text, text_eq,
  text_lt, codes, text_eq_iff, text_eq_refl, text_eq_sound, arith, ap, &&-eq-true,
}

mutual
  pub data Document : Type 0 where
    null : Document
    boolean : Bool → Document
    natural negative : ℕ → Document
    float string : Text → Document
    list : Items → Document
    dict : Fields → Document

  pub data Items : Type 0 where
    no_items : Items
    item : Document → Items → Items

  pub data Fields : Type 0 where
    no_fields : Fields
    field : Text → Document → Fields → Fields

abbrev pub elements : Items → List Document
elements no_items = []
elements (item x xs) = x ∷ elements xs

abbrev pub items : List Document → Items
items [] = no_items
items (x ∷ xs) = item x (items xs)

-- `d.get(k)`
unfoldable pub get : Text → Fields → Document
get k no_fields = null
get k (field j v d) = if text_eq k j then v else get k d

-- `k in d`
unfoldable pub has : Text → Fields → Bool
has k no_fields = false
has k (field j v d) = if text_eq k j then true else has k d

-- `d[k] = v`
unfoldable pub set : Text → Document → Fields → Fields
set k v no_fields = field k v no_fields
set k v (field j w d) =
    let rest = set k v d in
    if text_eq k j
    then field k v d
    else if text_lt k j
    then field k v (field j w d)
    else field j w rest

-- `bool(x)`; a float is given by its text.
unfoldable pub truthy : Document → Bool
truthy null = false
truthy (boolean b) = b
truthy (natural n) = not (n == 0)
truthy (negative n) = true
truthy (float t) = not (text_eq t (codes "0.0"))
truthy (string t) = not (text_eq t [])
truthy (list no_items) = false
truthy (list (item x xs)) = true
truthy (dict no_fields) = false
truthy (dict (field k v d)) = true

-- `==`
unfoldable mutual
  pub document_eq : Document → Document → Bool
  document_eq null null = true
  document_eq (boolean true) (boolean c) = c
  document_eq (boolean false) (boolean c) = not c
  document_eq (natural m) (natural n) = m == n
  document_eq (negative m) (negative n) = m == n
  document_eq (float s) (float t) = text_eq s t
  document_eq (string s) (string t) = text_eq s t
  document_eq (list xs) (list ys) = items_eq xs ys
  document_eq (dict d) (dict e) = fields_eq d e
  document_eq _ _ = false

  items_eq : Items → Items → Bool
  items_eq no_items no_items = true
  items_eq (item x xs) (item y ys) = document_eq x y && items_eq xs ys
  items_eq _ _ = false

  fields_eq : Fields → Fields → Bool
  fields_eq no_fields no_fields = true
  fields_eq (field j v d) (field k w e) = text_eq j k && document_eq v w && fields_eq d e
  fields_eq _ _ = false

pub get-set :
    (j k : Text) (v : Document) (d : Fields)
    → get j (set k v d) ≡ (if text_eq j k then v else get j d)
unfolding get set
get-set j k v no_fields = refl
get-set j k v (field i w d) =
    ground (arith, text_eq_iff j k, text_eq_iff k i, text_eq_iff j i, get-set j k v d)

pub has-set :
    (j k : Text) (v : Document) (d : Fields)
    → has j (set k v d) ≡ (if text_eq j k then true else has j d)
unfolding has set
has-set j k v no_fields = refl
has-set j k v (field i w d) =
    ground (arith, text_eq_iff j k, text_eq_iff k i, text_eq_iff j i, has-set j k v d)

mutual
  unfolding document_eq items_eq fields_eq

  pub document_eq_refl : (v : Document) → document_eq v v ≡ true
  document_eq_refl null = refl
  document_eq_refl (boolean true) = refl
  document_eq_refl (boolean false) = refl
  document_eq_refl (natural n) = ground arith
  document_eq_refl (negative n) = ground arith
  document_eq_refl (float t) = text_eq_refl t
  document_eq_refl (string t) = text_eq_refl t
  document_eq_refl (list xs) = items_eq_refl xs
  document_eq_refl (dict d) = fields_eq_refl d

  items_eq_refl : (xs : Items) → items_eq xs xs ≡ true
  items_eq_refl no_items = refl
  items_eq_refl (item x xs) = ground (arith, document_eq_refl x, items_eq_refl xs)

  fields_eq_refl : (d : Fields) → fields_eq d d ≡ true
  fields_eq_refl no_fields = refl
  fields_eq_refl (field k v d) =
      ground (arith, text_eq_refl k, document_eq_refl v, fields_eq_refl d)

mutual
  unfolding document_eq items_eq fields_eq

  pub document_eq_sound : (v w : Document) → document_eq v w ≡ true → v ≡ w
  document_eq_sound null null h = refl
  document_eq_sound (boolean true) (boolean c) h = cc
  document_eq_sound (boolean false) (boolean true) h = cc
  document_eq_sound (boolean false) (boolean false) h = refl
  document_eq_sound (natural m) (natural n) h = ground arith
  document_eq_sound (negative m) (negative n) h = ground arith
  document_eq_sound (float s) (float t) h = ap float (text_eq_sound s t h)
  document_eq_sound (string s) (string t) h = ap string (text_eq_sound s t h)
  document_eq_sound (list xs) (list ys) h = ap list (items_eq_sound xs ys h)
  document_eq_sound (dict d) (dict e) h = ap dict (fields_eq_sound d e h)
  document_eq_sound _ _ h = cc

  items_eq_sound : (xs ys : Items) → items_eq xs ys ≡ true → xs ≡ ys
  items_eq_sound no_items no_items h = refl
  items_eq_sound (item x xs) (item y ys) h =
      let (p, q) = &&-eq-true (document_eq x y) (items_eq xs ys) h in
      cc (document_eq_sound x y p, items_eq_sound xs ys q)
  items_eq_sound _ _ h = cc

  fields_eq_sound : (d e : Fields) → fields_eq d e ≡ true → d ≡ e
  fields_eq_sound no_fields no_fields h = refl
  fields_eq_sound (field j v d) (field k w e) h =
      let (r, hd) = &&-eq-true (text_eq j k && document_eq v w) (fields_eq d e) h in
      let (hk, hv) = &&-eq-true (text_eq j k) (document_eq v w) r in
      cc (text_eq_sound j k hk, document_eq_sound v w hv, fields_eq_sound d e hd)
  fields_eq_sound _ _ h = cc
