-- ===== src/Ordering/Asked.antt =====
-- Where the edges of `order_handlers` come from, and which of its steps raises the error of a cycle.
use dbwarden.Common.{
  ◌≡◌, refl, Bool, true, false, some, List, [], ◌∷◌, ◌++◌, if◌then◌else◌, Text, text_in, text_eq,
  text_in-In, In-append, Option-cases, Outcome-cases, Bool-cases, inl, inr, ◌⊎◌, In, Outcome, ok,
  err, ◌>>=◌, >>=-eq-ok, sym, subst, text_eq_sound, In-text_in,
}
use dbwarden.Ordering.Anchors.{OrderingConstraint, statement_order_for}
use dbwarden.Ordering.Handlers.{
  Handler, HandlerError, ordering_error, unknown_object, cycle_detected, Graph, add_edge, add_after,
  add_before, add_orderings, apply_public_ordering, apply_orderings,
}
use dbwarden.Ordering.EdgeCounts.{HasEdge}

-- The ordering of a handler asks for the first name in front of the second.
abbrev pub Asks : List Handler → Text → Text → Type 0
Asks hs a b =
    (h : Handler) × (o : OrderingConstraint) × In h hs
    × (h.ordering ≡ some o)
    × ((In a o.after_object × (b ≡ h.name)) ⊎ ((a ≡ h.name) × In b o.before_object))

add_edge-source :
    (x y : Text) (g : Graph) (a b : Text)
    → HasEdge (add_edge x y g) a b
    → HasEdge g a b ⊎ ((a ≡ x) × (b ≡ y))
unfolding add_edge
add_edge-source x y g a b i = elim (Bool-cases (text_in y (g.edges x))) [
  | inl e ↦ inl (rw (e, add_edge) at i)
  | inr e ↦ elim (Bool-cases (text_eq a x)) [
    | inr f ↦ inl (rw (e, add_edge, f) at i)
    | inl f ↦
        let same = text_eq_sound a x f in
        elim (In-append b (g.edges x) (y ∷ [])
          (text_in-In b (g.edges x ++ y ∷ []) (rw (e, add_edge, f) at i))) [
            | inl j ↦ inl (subst (λ n. HasEdge g n b) (sym same) (In-text_in b (g.edges x) j))
            | inr (inl l) ↦ inr (same, l)
            | inr (inr j) ↦ absurd j
          ]
  ]
]

abbrev done : Graph → Outcome HandlerError Graph
done g = ok g

abbrev raised : HandlerError → Outcome HandlerError Graph
raised e = err e

done-inj : {g h : Graph} → done g ≡ ok h → g ≡ h
done-inj e = cc

ok_if :
    (c : Bool) (m : Outcome HandlerError Graph) (e : HandlerError) (g : Graph)
    → (if c then m else err e) ≡ ok g
    → m ≡ ok g
ok_if true m e g h = h
ok_if false m e g h = cc

add_after-source :
    (ns : List Text) (t : Text) (deps : List Text) (g r : Graph) (a b : Text)
    → add_after ns t deps g ≡ ok r
    → HasEdge r a b
    → HasEdge g a b ⊎ (In a deps × (b ≡ t))
unfolding add_after
add_after-source ns t [] g r a b e i = inl (subst (λ x. HasEdge x a b) (sym (done-inj e)) i)
add_after-source ns t (d ∷ deps) g r a b e i =
    elim (add_after-source ns t deps (add_edge d t g) r a b
      (ok_if (text_in d ns) (add_after ns t deps (add_edge d t g)) (unknown_object d t) r e) i) [
        | inr (j, same) ↦ inr (inr j, same)
        | inl j ↦ elim (add_edge-source d t g a b j) [
          | inl k ↦ inl k
          | inr (first, same) ↦ inr (inl first, same)
        ]
      ]

add_before-source :
    (ns : List Text) (t : Text) (deps : List Text) (g r : Graph) (a b : Text)
    → add_before ns t deps g ≡ ok r
    → HasEdge r a b
    → HasEdge g a b ⊎ ((a ≡ t) × In b deps)
unfolding add_before
add_before-source ns t [] g r a b e i = inl (subst (λ x. HasEdge x a b) (sym (done-inj e)) i)
add_before-source ns t (d ∷ deps) g r a b e i =
    elim (add_before-source ns t deps (add_edge t d g) r a b
      (ok_if (text_in d ns) (add_before ns t deps (add_edge t d g)) (unknown_object d t) r e) i) [
        | inr (same, j) ↦ inr (same, inr j)
        | inl j ↦ elim (add_edge-source t d g a b j) [
          | inl k ↦ inl k
          | inr (same, first) ↦ inr (same, inl first)
        ]
      ]

Asks-later : (x : Handler) (hs : List Handler) (a b : Text) → Asks hs a b → Asks (x ∷ hs) a b
Asks-later x hs a b (h, o, i, set, asks) = (h, o, inr i, set, asks)

pub add_orderings-source :
    (ns : List Text) (hs : List Handler) (g r : Graph) (a b : Text)
    → add_orderings ns hs g ≡ ok r
    → HasEdge r a b
    → HasEdge g a b ⊎ Asks hs a b
unfolding add_orderings
add_orderings-source ns [] g r a b e i = inl (subst (λ x. HasEdge x a b) (sym (done-inj e)) i)
add_orderings-source ns (x ∷ hs) g r a b e i = elim (Option-cases x.ordering) [
  | inl f ↦ elim (add_orderings-source ns hs g r a b (rw (f, add_orderings) at e) i) [
    | inl j ↦ inl j
    | inr asks ↦ inr (Asks-later x hs a b asks)
  ]
  | inr (o, f) ↦
      let (g1, e1, later) =
        >>=-eq-ok (add_after ns x.name o.after_object g)
          (λ g'. add_before ns x.name o.before_object g' >>= λ g''. add_orderings ns hs g'')
          (rw (f, add_orderings) at e) in
      let (g2, e2, last) =
        >>=-eq-ok (add_before ns x.name o.before_object g1) (λ g''. add_orderings ns hs g'')
          later in
      elim (add_orderings-source ns hs g2 r a b last i) [
        | inr asks ↦ inr (Asks-later x hs a b asks)
        | inl j ↦ elim (add_before-source ns x.name o.before_object g1 g2 a b e2 j) [
          | inr asks ↦ inr (x, o, inl refl, f, inr asks)
          | inl k ↦ elim (add_after-source ns x.name o.after_object g g1 a b e1 k) [
            | inr asks ↦ inr (x, o, inl refl, f, inl asks)
            | inl l ↦ inl l
          ]
        ]
      ]
]

-- An outcome that is no error of a cycle.
abbrev pub NoCycle : {A : Type 0} → Outcome HandlerError A → Type 0
NoCycle (ok a) = Unit {0}
NoCycle (err (ordering_error e)) = Unit {0}
NoCycle (err (unknown_object t u)) = Unit {0}
NoCycle (err (cycle_detected left)) = ⊥

bind-NoCycle :
    {A B : Type 0} (m : Outcome HandlerError A) (f : A → Outcome HandlerError B)
    → NoCycle m
    → ((a : A) → NoCycle (f a))
    → NoCycle (m >>= f)
bind-NoCycle (ok a) f h k = k a
bind-NoCycle (err (ordering_error e)) f h k = tt
bind-NoCycle (err (unknown_object t u)) f h k = tt
bind-NoCycle (err (cycle_detected left)) f h k = absurd h

apply_public_ordering-NoCycle : (h : Handler) → NoCycle (apply_public_ordering h)
unfolding apply_public_ordering
apply_public_ordering-NoCycle h =
    Outcome-cases (statement_order_for h.ordering)
      (λ r f. elim (Option-cases r) [
        | inl g ↦ rw (f, g, apply_public_ordering) tt
        | inr (order, g) ↦ rw (f, g, apply_public_ordering) tt
      ])
      (λ e f. rw (f, apply_public_ordering) tt)

pub apply_orderings-NoCycle : (hs : List Handler) → NoCycle (apply_orderings hs)
unfolding apply_orderings
apply_orderings-NoCycle [] = tt
apply_orderings-NoCycle (h ∷ hs) =
    bind-NoCycle (apply_public_ordering h)
      (λ first. apply_orderings hs >>= λ others. ok (first ∷ others))
      (apply_public_ordering-NoCycle h)
      (λ first.
        bind-NoCycle (apply_orderings hs) (λ others. ok (first ∷ others))
          (apply_orderings-NoCycle hs) (λ others. tt))

if-NoCycle :
    (c : Bool) (m : Outcome HandlerError Graph) (a b : Text)
    → NoCycle m
    → NoCycle (if c then m else err (unknown_object a b))
if-NoCycle true m a b h = h
if-NoCycle false m a b h = tt

add_after-NoCycle :
    (ns : List Text) (t : Text) (deps : List Text) (g : Graph) → NoCycle (add_after ns t deps g)
unfolding add_after
add_after-NoCycle ns t [] g = tt
add_after-NoCycle ns t (d ∷ deps) g =
    if-NoCycle (text_in d ns) (add_after ns t deps (add_edge d t g)) d t
      (add_after-NoCycle ns t deps (add_edge d t g))

add_before-NoCycle :
    (ns : List Text) (t : Text) (deps : List Text) (g : Graph) → NoCycle (add_before ns t deps g)
unfolding add_before
add_before-NoCycle ns t [] g = tt
add_before-NoCycle ns t (d ∷ deps) g =
    if-NoCycle (text_in d ns) (add_before ns t deps (add_edge t d g)) d t
      (add_before-NoCycle ns t deps (add_edge t d g))

pub add_orderings-NoCycle :
    (ns : List Text) (hs : List Handler) (g : Graph) → NoCycle (add_orderings ns hs g)
unfolding add_orderings
add_orderings-NoCycle ns [] g = tt
add_orderings-NoCycle ns (x ∷ hs) g = elim (Option-cases x.ordering) [
  | inl f ↦ rw (f, add_orderings) (add_orderings-NoCycle ns hs g)
  | inr (o, f) ↦
      rw (f, add_orderings)
        (bind-NoCycle (add_after ns x.name o.after_object g)
          (λ g'. add_before ns x.name o.before_object g' >>= λ g''. add_orderings ns hs g'')
          (add_after-NoCycle ns x.name o.after_object g)
          (λ g'.
            bind-NoCycle (add_before ns x.name o.before_object g') (λ g''. add_orderings ns hs g'')
              (add_before-NoCycle ns x.name o.before_object g')
              (λ g''. add_orderings-NoCycle ns hs g'')))
]
