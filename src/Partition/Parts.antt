-- ===== src/Partition/Parts.antt =====
-- The two parts that a test cuts a list of nodes into.
use mathlib.Core.List.{Perm, perm_middle}
use mathlib.Core.List.Perm
use dbwarden.Common.{
  ◌≡◌, Bool, true, List, [], ◌∷◌, ◌++◌, not, Text, text_in, Bool-cases, inl, inr, In, sym, ap, ◌∙◌,
  In-append, In-append_left, In-append_right,
}
use dbwarden.Partition.Split.{Node, nodes_if}

-- The two parts of a list that a test makes are the list, in another order.
pub nodes_if-perm :
    (test : Node → Bool) (nodes : List Node)
    → Perm (nodes_if (λ n. not (test n)) nodes ++ nodes_if test nodes) nodes
unfolding nodes_if
nodes_if-perm test [] = Perm.rfl
nodes_if-perm test (n ∷ nodes) = elim (Bool-cases (test n)) [
  | inl e ↦ rw e (
      Perm.trans (perm_middle (nodes_if (λ m. not (test m)) nodes) (nodes_if test nodes))
        (Perm.cons n (nodes_if-perm test nodes)))
  | inr e ↦ rw e (Perm.cons n (nodes_if-perm test nodes))
]

pub nodes_if-passes :
    (test : Node → Bool) (nodes : List Node) (n : Node)
    → In n (nodes_if test nodes)
    → In n nodes × (test n ≡ true)
unfolding nodes_if
nodes_if-passes test [] n i = absurd i
nodes_if-passes test (x ∷ nodes) n i = elim (Bool-cases (test x)) [
  | inr e ↦ let (j, pass) = nodes_if-passes test nodes n (rw (e, nodes_if) at i) in (inr j, pass)
  | inl e ↦ first e (rw (e, nodes_if) at i) (nodes_if-passes test nodes n)
]
  where
    first :
        test x ≡ true
        → In n (x ∷ nodes_if test nodes)
        → (In n (nodes_if test nodes) → In n nodes × (test n ≡ true))
        → In n (x ∷ nodes) × (test n ≡ true)
    first e (inl same) others = (inl same, ap test same ∙ e)
    first e (inr j) others = let (k, pass) = others j in (inr k, pass)

In-nodes_if :
    (test : Node → Bool) (nodes : List Node) (n : Node)
    → In n nodes
    → test n ≡ true
    → In n (nodes_if test nodes)
unfolding nodes_if
In-nodes_if test [] n i pass = absurd i
In-nodes_if test (x ∷ nodes) n (inl e) pass = rw (ap test (sym e) ∙ pass) (inl e)
In-nodes_if test (x ∷ nodes) n (inr i) pass = elim (Bool-cases (test x)) [
  | inl f ↦ rw f (inr (In-nodes_if test nodes n i pass))
  | inr f ↦ rw f (In-nodes_if test nodes n i pass)
]

pub In-split :
    (ts : List Text) (nodes : List Node) (n : Node)
    → In n nodes
    → In n
        (nodes_if (λ m. not (text_in m.op.id ts)) nodes ++ nodes_if (λ m. text_in m.op.id ts) nodes)
In-split ts nodes n i = elim (Bool-cases (text_in n.op.id ts)) [
  | inl e ↦
      In-append_right n (nodes_if (λ m. not (text_in m.op.id ts)) nodes)
        (nodes_if (λ m. text_in m.op.id ts) nodes)
        (In-nodes_if (λ m. text_in m.op.id ts) nodes n i e)
  | inr e ↦
      In-append_left n (nodes_if (λ m. not (text_in m.op.id ts)) nodes)
        (nodes_if (λ m. text_in m.op.id ts) nodes)
        (In-nodes_if (λ m. not (text_in m.op.id ts)) nodes n i (ap not e))
]

pub split-In :
    (ts : List Text) (nodes : List Node) (n : Node)
    → In n
        (nodes_if (λ m. not (text_in m.op.id ts)) nodes ++ nodes_if (λ m. text_in m.op.id ts) nodes)
    → In n nodes
split-In ts nodes n i =
    elim (In-append n (nodes_if (λ m. not (text_in m.op.id ts)) nodes)
      (nodes_if (λ m. text_in m.op.id ts) nodes) i) [
        | inl j ↦ (nodes_if-passes (λ m. not (text_in m.op.id ts)) nodes n j).0
        | inr j ↦ (nodes_if-passes (λ m. text_in m.op.id ts) nodes n j).0
      ]
