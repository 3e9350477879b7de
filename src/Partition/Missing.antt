-- ===== src/Partition/Missing.antt =====
-- The ids of the nodes that pass a test, and the nodes whose ids are missing in a list.
use dbwarden.Common.{
  ℕ, ◌+◌, ◌≤◌, ◌<◌, ◌≡◌, refl, Bool, true, false, List, [], ◌∷◌, all, if◌then◌else◌, Text, text_in,
  length, arith, Bool-cases, inl, inr, In, sym, ap, ◌∙◌, subst, &&-eq-true, all-In, In-all,
  all-false, text_in-In, In-text_in,
}
use dbwarden.Partition.Split.{Node, ids_if, same_ids}

pub In-ids_if :
    (test : Node → Bool) (nodes : List Node) (n : Node)
    → In n nodes
    → test n ≡ true
    → In n.op.id (ids_if test nodes)
unfolding ids_if
In-ids_if test [] n i t = absurd i
In-ids_if test (x ∷ nodes) n (inl e) t =
    rw (ap test (sym e) ∙ t) (inl (ap (λ (y : Node). y.op.id) e))
In-ids_if test (x ∷ nodes) n (inr i) t = elim (Bool-cases (test x)) [
  | inl h ↦ rw h (inr (In-ids_if test nodes n i t))
  | inr h ↦ rw h (In-ids_if test nodes n i t)
]

pub ids_if-In :
    (test : Node → Bool) (nodes : List Node) (t : Text)
    → In t (ids_if test nodes)
    → (n : Node) × In n nodes × (t ≡ n.op.id) × (test n ≡ true)
unfolding ids_if
ids_if-In test [] t i = absurd i
ids_if-In test (x ∷ nodes) t i = elim (Bool-cases (test x)) [
  | inl e ↦ first e (ids_if-In test nodes t) (rw (e, ids_if) at i)
  | inr e ↦ later (ids_if-In test nodes t (rw (e, ids_if) at i))
]
  where
    later :
        (n : Node) × In n nodes × (t ≡ n.op.id) × (test n ≡ true)
        → (n : Node) × In n (x ∷ nodes) × (t ≡ n.op.id) × (test n ≡ true)
    later (n, j, same, pass) = (n, inr j, same, pass)

    first :
        test x ≡ true
        → (In t (ids_if test nodes) → (n : Node) × In n nodes × (t ≡ n.op.id) × (test n ≡ true))
        → In t (x.op.id ∷ ids_if test nodes)
        → (n : Node) × In n (x ∷ nodes) × (t ≡ n.op.id) × (test n ≡ true)
    first e others (inl same) = (x, inl refl, same, e)
    first e others (inr j) = later (others j)

-- The nodes whose ids are not listed.
abbrev pub missing : List Text → List Node → ℕ
missing ts [] = 0
missing ts (n ∷ nodes) = (if text_in n.op.id ts then 0 else 1) + missing ts nodes

pub missing-le-length : (ts : List Text) (nodes : List Node) → missing ts nodes ≤ length nodes
missing-le-length ts [] = omega arith
missing-le-length ts (n ∷ nodes) = ground (arith, missing-le-length ts nodes)

abbrev pub Within : List Text → List Text → Type 0
Within ts us = (t : Text) → In t ts → In t us

missing-le :
    (ts us : List Text) (nodes : List Node) → Within ts us → missing us nodes ≤ missing ts nodes
missing-le ts us [] h = omega arith
missing-le ts us (n ∷ nodes) h = elim (Bool-cases (text_in n.op.id ts)) [
  | inl e ↦
      ground (
        arith,
        missing-le ts us nodes h,
        In-text_in n.op.id us (h n.op.id (text_in-In n.op.id ts e)),
      )
  | inr e ↦ ground (arith, missing-le ts us nodes h)
]

pub missing-lt :
    (ts us : List Text) (nodes : List Node) (n : Node)
    → Within ts us
    → In n nodes
    → text_in n.op.id ts ≡ false
    → In n.op.id us
    → missing us nodes < missing ts nodes
missing-lt ts us [] n h i out now = absurd i
missing-lt ts us (x ∷ nodes) n h (inl e) out now = ground (
  arith,
  missing-le ts us nodes h,
  subst (λ (y : Node). text_in y.op.id ts ≡ false) e out,
  subst (λ (y : Node). text_in y.op.id us ≡ true) e (In-text_in n.op.id us now),
)
missing-lt ts us (x ∷ nodes) n h (inr i) out now = elim (Bool-cases (text_in x.op.id ts)) [
  | inl e ↦ ground (
    arith,
    missing-lt ts us nodes n h i out now,
    In-text_in x.op.id us (h x.op.id (text_in-In x.op.id ts e)),
  )
  | inr e ↦ ground (arith, missing-lt ts us nodes n h i out now)
]

pub same_ids-Within : (ts us : List Text) → same_ids ts us ≡ true → Within ts us
unfolding same_ids
same_ids-Within ts us h t i = text_in-In t us (
    all-In (λ u. text_in u us) ts t
      (&&-eq-true (all (λ u. text_in u us) ts) (all (λ u. text_in u ts) us) h).0 i)

pub not_same :
    (ts us : List Text)
    → Within us ts
    → same_ids ts us ≡ false
    → (t : Text) × In t ts × (text_in t us ≡ false)
unfolding same_ids
not_same ts us back h =
    let returns : all (λ u. text_in u ts) us ≡ true =
      In-all (λ u. text_in u ts) us (λ u i. In-text_in u ts (back u i)) in
    all-false (λ u. text_in u us) ts (ground (arith, h, returns))
