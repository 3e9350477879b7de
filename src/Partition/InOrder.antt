-- ===== src/Partition/InOrder.antt =====
-- Lists of operations in which each stands behind those it depends on.
use dbwarden.Common.{
  ◌≤◌, ◌<◌, ◌≡◌, refl, Bool, true, false, List, [], ◌∷◌, ◌++◌, not, any, leb, Text, text_eq,
  text_in, length, arith, Bool-cases, inl, inr, In, sym, ap, subst, In-append, any-false,
  text_in-In, In-text_in, text_eq_sound, text_eq_refl, append_assoc,
}
use dbwarden.Partition.Split.{Node, ids, position, has_conflict, store_dependencies, nodes_if}
use dbwarden.Partition.Missing.{Within}
use dbwarden.Partition.Closure.{IsClosed}

-- The dependencies of each node are `seen`, or ids of nodes in front of it.
abbrev pub InOrder : List Text → List Node → Type 0
InOrder seen [] = Unit
InOrder seen (n ∷ nodes) = Within n.deps seen × InOrder (n.op.id ∷ seen) nodes

position-le-length :
    (t : Text) (front back : List Text) → position t (front ++ t ∷ back) ≤ length front
unfolding position
position-le-length t [] back = rw (text_eq_refl t) (omega arith)
position-le-length t (u ∷ front) back = ground (arith, position-le-length t front back)

position-In :
    (t : Text) (front back : List Text) → position t (front ++ back) < length front → In t front
unfolding position
position-In t [] back h = absurd (omega (arith, h))
position-In t (u ∷ front) back h = elim (Bool-cases (text_eq u t)) [
  | inl e ↦ inl (sym (text_eq_sound u t e))
  | inr e ↦ inr (position-In t front back (ground (arith, e, h)))
]

in_front :
    (front : List Text) (n : Node) (back : List Text)
    → any
        (λ d.
          leb (position n.op.id (front ++ n.op.id ∷ back)) (position d (front ++ n.op.id ∷ back)))
        n.deps
      ≡ false
    → Within n.deps front
in_front front n back h d i = position-In d front (n.op.id ∷ back) (
    ground (
      arith,
      any-false
          (λ t.
            leb (position n.op.id (front ++ n.op.id ∷ back)) (position t (front ++ n.op.id ∷ back)))
          n.deps d h i,
      position-le-length n.op.id front back,
    ))

has_conflict-InOrder :
    (front : List Text) (nodes : List Node) (seen : List Text)
    → has_conflict (front ++ ids nodes) nodes ≡ false
    → Within front seen
    → InOrder seen nodes
unfolding has_conflict
has_conflict-InOrder front [] seen h known = tt
has_conflict-InOrder front (n ∷ nodes) seen h known = (
  λ d i. known d (in_front front n (ids nodes) (ground (arith, h)) d i),
  has_conflict-InOrder (front ++ n.op.id ∷ []) nodes (n.op.id ∷ seen)
      (subst (λ (order : List Text). has_conflict order nodes ≡ false)
        (sym (append_assoc front (n.op.id ∷ []) (ids nodes))) (ground (arith, h)))
      (λ t i. elim (In-append t front (n.op.id ∷ []) i) [
        | inl j ↦ inr (known t j)
        | inr (inl e) ↦ inl e
        | inr (inr k) ↦ absurd k
      ]),
)

pub no_conflict-InOrder :
    (nodes : List Node) → has_conflict (ids nodes) nodes ≡ false → InOrder [] nodes
no_conflict-InOrder nodes h = has_conflict-InOrder [] nodes [] h (λ t i. i)

pub store_dependencies-InOrder :
    (seen : List Text) (nodes : List Node)
    → InOrder seen nodes
    → InOrder seen (store_dependencies nodes)
unfolding store_dependencies
store_dependencies-InOrder seen [] h = tt
store_dependencies-InOrder seen (n ∷ nodes) (first, others) =
    (first, store_dependencies-InOrder (n.op.id ∷ seen) nodes others)

pub ids-store_dependencies : (nodes : List Node) → ids (store_dependencies nodes) ≡ ids nodes
unfolding store_dependencies
ids-store_dependencies [] = refl
ids-store_dependencies (n ∷ nodes) = ap (λ ts. n.op.id ∷ ts) (ids-store_dependencies nodes)

InOrder-append :
    (seen : List Text) (xs ys : List Node)
    → InOrder seen xs
    → ((later : List Text) → Within seen later → Within (ids xs) later → InOrder later ys)
    → InOrder seen (xs ++ ys)
InOrder-append seen [] ys h rest = rest seen (λ t i. i) (λ t i. absurd i)
InOrder-append seen (x ∷ xs) ys (first, others) rest = (
  first,
  InOrder-append (x.op.id ∷ seen) xs ys others (λ later known listed.
      rest later (λ t i. known t (inr i))
        (λ t i. elim i [ inl e ↦ known t (inl e) | inr j ↦ listed t j ])),
)

clash : {a b : Bool} → a ≡ b → b ≡ true → a ≡ false → ⊥
clash h e f = cc

-- A list of ids with the nodes that depend on one of them, and the two parts it cuts the nodes into.
module _ (nodes : List Node) (deferred : List Text) (closed : IsClosed nodes deferred) where
  kept-InOrder :
      (xs : List Node) (seen kept : List Text)
      → ((n : Node) → In n xs → In n nodes)
      → ((t : Text) → In t seen → text_in t deferred ≡ false → In t kept)
      → InOrder seen xs
      → InOrder kept (nodes_if (λ n. not (text_in n.op.id deferred)) xs)
  unfolding nodes_if
  kept-InOrder [] seen kept inside known h = tt
  kept-InOrder (n ∷ xs) seen kept inside known (first, others) =
      elim (Bool-cases (text_in n.op.id deferred)) [
        | inl e ↦ rw e (
            kept-InOrder xs (n.op.id ∷ seen) kept (λ m i. inside m (inr i))
              (λ t i out. elim i [
                | inl same ↦ absurd (clash (ap (λ u. text_in u deferred) same) e out)
                | inr j ↦ known t j out
              ])
              others)
        | inr e ↦ rw e (
          λ d i. elim (Bool-cases (text_in d deferred)) [
            | inr out ↦ known d (first d i) out
            | inl waits ↦ absurd (
                clash refl
                  (In-text_in n.op.id deferred
                    (closed n d (inside n (inl refl)) i (text_in-In d deferred waits)))
                  e)
          ],
          kept-InOrder xs (n.op.id ∷ seen) (n.op.id ∷ kept) (λ m i. inside m (inr i))
              (λ t i out. elim i [ inl same ↦ inl same | inr j ↦ inr (known t j out) ]) others,
        )
      ]

  put_off-InOrder :
      (xs : List Node) (seen later : List Text)
      → Within seen later
      → Within (ids (nodes_if (λ n. not (text_in n.op.id deferred)) xs)) later
      → InOrder seen xs
      → InOrder later (nodes_if (λ n. text_in n.op.id deferred) xs)
  unfolding nodes_if
  put_off-InOrder [] seen later known listed h = tt
  put_off-InOrder (n ∷ xs) seen later known listed (first, others) =
      elim (Bool-cases (text_in n.op.id deferred)) [
        | inl e ↦ rw e (
          λ d i. known d (first d i),
          put_off-InOrder xs (n.op.id ∷ seen) (n.op.id ∷ later)
              (λ t i. elim i [ inl same ↦ inl same | inr j ↦ inr (known t j) ])
              (λ t i. inr (listed t (rw e i))) others,
        )
        | inr e ↦ rw e (
            put_off-InOrder xs (n.op.id ∷ seen) later
              (λ t i. elim i [ inl same ↦ listed t (rw e (inl same)) | inr j ↦ known t j ])
              (λ t i. listed t (rw e (inr i))) others)
      ]

  pub split-InOrder :
      InOrder [] nodes
      → InOrder [] (
          nodes_if (λ n. not (text_in n.op.id deferred)) nodes
          ++ nodes_if (λ n. text_in n.op.id deferred) nodes)
  split-InOrder h =
      InOrder-append [] (nodes_if (λ n. not (text_in n.op.id deferred)) nodes)
        (nodes_if (λ n. text_in n.op.id deferred) nodes)
        (kept-InOrder nodes [] [] (λ n i. i) (λ t i out. absurd i) h)
        (λ later known listed. put_off-InOrder nodes [] later known listed h)
