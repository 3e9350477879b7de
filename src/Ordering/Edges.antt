-- ===== src/Ordering/Edges.antt =====
-- The edges that `order_handlers` takes from the orderings.
use dbwarden.Common.{
  ◌≡◌, refl, Bool, true, false, none, some, List, [], ◌∷◌, if◌then◌else◌, Text, text_in,
  Option-cases, inl, inr, In, Outcome, ok, err, ◌>>=◌, >>=-eq-ok, sym, ap, ◌∙◌, subst,
}
use dbwarden.Ordering.Anchors.{OrderingConstraint}
use dbwarden.Ordering.Handlers.{
  Handler, HandlerError, unknown_object, Graph, add_edge, add_after, add_before, add_orderings,
}
use dbwarden.Ordering.Counts.{Distinct}
use dbwarden.Ordering.HandlerOrder.{IsGraph}
use dbwarden.Ordering.EdgeCounts.{HasEdge, add_edge-HasEdge, add_edge-keeps, add_edge-IsGraph}

abbrev done : Graph → Outcome HandlerError Graph
done g = ok g

done-inj : {g h : Graph} → done g ≡ ok h → g ≡ h
done-inj e = cc

if-ok :
    (c : Bool) (m : Outcome HandlerError Graph) (e : HandlerError) (g : Graph)
    → (if c then m else err e) ≡ ok g
    → (c ≡ true) × (m ≡ ok g)
if-ok true m e g h = (refl, h)
if-ok false m e g h = cc

abbrev Keeps : Graph → Graph → Type 0
Keeps g h = (c d : Text) → HasEdge g c d → HasEdge h c d

module _ (ns : List Text) (distinct : Distinct ns) (t : Text) (inside : text_in t ns ≡ true) where
  add_after-IsGraph :
      (deps : List Text) (g h : Graph)
      → IsGraph ns g
      → add_after ns t deps g ≡ ok h
      → IsGraph ns h
        × (Keeps g h × ((d : Text) → In d deps → HasEdge h d t × (text_in d ns ≡ true)))
  unfolding add_after
  add_after-IsGraph [] g h k e =
      subst
        (λ x.
          IsGraph ns x
          × (Keeps g x × ((d : Text) → In d [] → HasEdge x d t × (text_in d ns ≡ true))))
        (done-inj e) (k, (λ c d i. i, λ d i. absurd i))
  add_after-IsGraph (x ∷ deps) g h k e =
      let (known, rest) =
        if-ok (text_in x ns) (add_after ns t deps (add_edge x t g)) (unknown_object x t) h e in
      let (k', (keeps, has)) =
        add_after-IsGraph deps (add_edge x t g) h (add_edge-IsGraph ns x t g distinct known k)
          rest in
      (
        k',
        (
          λ c d i. keeps c d (add_edge-keeps x t g c d i),
          λ d i. elim i [
            | inl same ↦
                subst (λ y. HasEdge h y t × (text_in y ns ≡ true)) (sym same)
                  (keeps x t (add_edge-HasEdge x t g), known)
            | inr j ↦ has d j
          ],
        ),
      )

  add_before-IsGraph :
      (deps : List Text) (g h : Graph)
      → IsGraph ns g
      → add_before ns t deps g ≡ ok h
      → IsGraph ns h
        × (Keeps g h × ((d : Text) → In d deps → HasEdge h t d × (text_in d ns ≡ true)))
  unfolding add_before
  add_before-IsGraph [] g h k e =
      subst
        (λ x.
          IsGraph ns x
          × (Keeps g x × ((d : Text) → In d [] → HasEdge x t d × (text_in d ns ≡ true))))
        (done-inj e) (k, (λ c d i. i, λ d i. absurd i))
  add_before-IsGraph (x ∷ deps) g h k e =
      let (known, rest) =
        if-ok (text_in x ns) (add_before ns t deps (add_edge t x g)) (unknown_object x t) h e in
      let (k', (keeps, has)) =
        add_before-IsGraph deps (add_edge t x g) h (add_edge-IsGraph ns t x g distinct inside k)
          rest in
      (
        k',
        (
          λ c d i. keeps c d (add_edge-keeps t x g c d i),
          λ d i. elim i [
            | inl same ↦
                subst (λ y. HasEdge h t y × (text_in y ns ≡ true)) (sym same)
                  (keeps t x (add_edge-HasEdge t x g), known)
            | inr j ↦ has d j
          ],
        ),
      )

-- The edges that the ordering of a handler asks for, with known names.
abbrev pub HasOrdering : List Text → Graph → Handler → Type 0
HasOrdering ns g h =
    (o : OrderingConstraint)
    → h.ordering ≡ some o
    → ((d : Text) → In d o.after_object → HasEdge g d h.name × (text_in d ns ≡ true))
      × ((d : Text) → In d o.before_object → HasEdge g h.name d × (text_in d ns ≡ true))

no_ordering : {o : OrderingConstraint} → none ≡ some o → ⊥
no_ordering e = cc

some-inj : {o p : OrderingConstraint} → some o ≡ some p → o ≡ p
some-inj e = cc

pub add_orderings-IsGraph :
    (ns : List Text) (hs : List Handler) (g r : Graph)
    → Distinct ns
    → ((h : Handler) → In h hs → text_in h.name ns ≡ true)
    → IsGraph ns g
    → add_orderings ns hs g ≡ ok r
    → IsGraph ns r × (Keeps g r × ((h : Handler) → In h hs → HasOrdering ns r h))
unfolding add_orderings
add_orderings-IsGraph ns [] g r k inside graph e =
    subst (λ x. IsGraph ns x × (Keeps g x × ((h : Handler) → In h [] → HasOrdering ns x h)))
      (done-inj e) (graph, (λ c d i. i, λ h i. absurd i))
add_orderings-IsGraph ns (x ∷ hs) g r k inside graph e = elim (Option-cases x.ordering) [
  | inl f ↦
      let (graph', (keeps, has)) =
        add_orderings-IsGraph ns hs g r k (λ h i. inside h (inr i)) graph
          (rw (f, add_orderings) at e) in
      (
        graph',
        (
          keeps,
          λ h i o same. elim i [
            | inl first ↦
                absurd (no_ordering (sym f ∙ ap (λ (y : Handler). y.ordering) (sym first) ∙ same))
            | inr j ↦ has h j o same
          ],
        ),
      )
  | inr (o, f) ↦
      let (g1, e1, later) =
        >>=-eq-ok (add_after ns x.name o.after_object g)
          (λ g'. add_before ns x.name o.before_object g' >>= λ g''. add_orderings ns hs g'')
          (rw (f, add_orderings) at e) in
      let (g2, e2, last) =
        >>=-eq-ok (add_before ns x.name o.before_object g1) (λ g''. add_orderings ns hs g'')
          later in
      let known = inside x (inl refl) in
      let (graph1, (keeps1, afters)) =
        add_after-IsGraph ns k x.name known o.after_object g g1 graph e1 in
      let (graph2, (keeps2, befores)) =
        add_before-IsGraph ns k x.name known o.before_object g1 g2 graph1 e2 in
      let (graph', (keeps, has)) =
        add_orderings-IsGraph ns hs g2 r k (λ h i. inside h (inr i)) graph2 last in
      let first : HasOrdering ns r x = λ o' same.
        subst
          (λ (y : OrderingConstraint).
            ((d : Text) → In d y.after_object → HasEdge r d x.name × (text_in d ns ≡ true))
            × ((d : Text) → In d y.before_object → HasEdge r x.name d × (text_in d ns ≡ true)))
          (some-inj (sym f ∙ same))
          (
            λ d i.
                let (edge, inside_d) = afters d i in
                (keeps d x.name (keeps2 d x.name edge), inside_d),
            λ d i. let (edge, inside_d) = befores d i in (keeps x.name d edge, inside_d),
          ) in
      (
        graph',
        (
          λ c d i. keeps c d (keeps2 c d (keeps1 c d i)),
          λ h i. elim i [ inl same ↦ subst (HasOrdering ns r) (sym same) first | inr j ↦ has h j ],
        ),
      )
]
