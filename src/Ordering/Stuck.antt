-- ===== src/Ordering/Stuck.antt =====
-- The error of `order_handlers` for handlers that wait for each other, against their orderings.
use dbwarden.Common.{
  ℕ, zero, suc, ◌<◌, ◌≡◌, refl, List, [], ◌∷◌, Text, arith, Outcome-cases, inl, inr, In, Outcome,
  ok, err, ◌>>=◌, text_in, >>=-eq-ok, sym, ap, ◌∙◌, subst, In-text_in, In-map,
}
use mathlib.Core.Bool.{false≢true}
use dbwarden.Ordering.Handlers.{
  Handler, HandlerError, cycle_detected, Graph, names, no_edges, apply_public_ordering,
  apply_orderings, add_orderings, order_graph, order_handlers,
}
use dbwarden.Ordering.Counts.{Distinct}
use dbwarden.Ordering.EdgeCounts.{HasEdge}
use dbwarden.Ordering.Edges.{add_orderings-IsGraph}
use dbwarden.Ordering.OrderLaws.{
  IsSame, apply_public_ordering-IsSame, apply_orderings-names, no_edges-IsGraph,
}
use dbwarden.Ordering.Asked.{
  Asks, NoCycle, add_orderings-source, apply_orderings-NoCycle, add_orderings-NoCycle,
}
use dbwarden.Ordering.Cycles.{IsStuck, order_graph-IsStuck}

abbrev done : List Handler → Outcome HandlerError (List Handler)
done hs = ok hs

done-inj : {hs ks : List Handler} → done hs ≡ ok ks → hs ≡ ks
done-inj e = cc

apply_orderings-source :
    (hs ks : List Handler) (k : Handler)
    → apply_orderings hs ≡ ok ks
    → In k ks
    → (h : Handler) × In h hs × IsSame h k
unfolding apply_orderings
apply_orderings-source [] ks k e i =
    absurd (subst (λ (l : List Handler). In k l) (sym (done-inj e)) i)
apply_orderings-source (h ∷ hs) ks k e i =
    let (first, f, later) =
      >>=-eq-ok (apply_public_ordering h) (λ x. apply_orderings hs >>= λ others. ok (x ∷ others))
        e in
    let (rest, g, last) = >>=-eq-ok (apply_orderings hs) (λ others. ok (first ∷ others)) later in
    elim (subst (λ (l : List Handler). In k l) (sym (done-inj last)) i) [
      | inl same ↦
          (h, inl refl, subst (λ y. IsSame h y) (sym same) (apply_public_ordering-IsSame h first f))
      | inr j ↦ let (x, l, alike) = apply_orderings-source hs rest k g j in (x, inr l, alike)
    ]

applied-Asks :
    (hs ks : List Handler) (a b : Text) → apply_orderings hs ≡ ok ks → Asks ks a b → Asks hs a b
applied-Asks hs ks a b e (k, o, i, set, asks) =
    let (h, j, (same, alike)) = apply_orderings-source hs ks k e i in
    (
      h,
      o,
      j,
      alike ∙ set,
      elim asks [ inl (l, n) ↦ inl (l, n ∙ sym same) | inr (n, l) ↦ inr (n ∙ sym same, l) ],
    )

-- Positions that keep what every ordering asks for.
abbrev pub IsRanking : List Handler → (Text → ℕ) → Type 0
IsRanking hs rank = (a b : Text) → Asks hs a b → rank a < rank b

-- Names of which each has to stand behind one of them have no positions.
no_ranking :
    (left : List Text) (hs : List Handler) (rank : Text → ℕ)
    → ((b : Text) → In b left → (a : Text) × In a left × Asks hs a b)
    → IsRanking hs rank
    → (bound : ℕ) (b : Text) → In b left
    → rank b < bound
    → ⊥
no_ranking left hs rank waits keeps zero b i l = omega (arith, l)
no_ranking left hs rank waits keeps (suc bound) b i l =
    let (a, j, asks) = waits b i in
    no_ranking left hs rank waits keeps bound a j (omega (arith, l, keeps a b asks))

raised_by :
    {A : Type 0} (left : List Text) (x : HandlerError) (m : Outcome HandlerError A)
    → NoCycle m
    → m ≡ err x
    → x ≡ cycle_detected left
    → ⊥
raised_by left x m h e same = subst NoCycle (e ∙ ap err same) h

abbrev failed : HandlerError → Outcome HandlerError (List Text)
failed x = err x

failed-inj : {x y : HandlerError} → failed x ≡ err y → x ≡ y
failed-inj e = cc

left-inj : {l m : List Text} → cycle_detected l ≡ cycle_detected m → l ≡ m
left-inj e = cc

edge-Asks :
    (hs : List Handler) (g : Graph) (a b : Text)
    → add_orderings (names hs) hs no_edges ≡ ok g
    → HasEdge g a b
    → Asks hs a b
unfolding text_in
edge-Asks hs g a b e i = elim (add_orderings-source (names hs) hs no_edges g a b e i) [
  | inl j ↦ absurd (false≢true j)
  | inr asks ↦ asks
]

-- Names that wait for each other, and what follows.
abbrev pub IsCyclic : List Handler → List Text → Type 0
IsCyclic hs left =
    ((b : Text) × In b left)
    × (((b : Text) → In b left → (a : Text) × In a left × Asks hs a b)
        × ((rank : Text → ℕ) → IsRanking hs rank → ⊥))

order_graph-IsCyclic :
    (handlers hs : List Handler) (g : Graph) (left : List Text)
    → Distinct (names handlers)
    → apply_orderings handlers ≡ ok hs
    → add_orderings (names hs) hs no_edges ≡ ok g
    → order_graph hs g ≡ err (cycle_detected left)
    → IsCyclic handlers left
order_graph-IsCyclic handlers hs g left k e1 e2 last =
    let distinct : Distinct (names hs) =
      subst Distinct (sym ((apply_orderings-names handlers hs e1).0)) k in
    let (graph, _) =
      add_orderings-IsGraph (names hs) hs no_edges g distinct
        (λ h i. In-text_in h.name (names hs) (In-map (λ (x : Handler). x.name) hs h i))
        (no_edges-IsGraph (names hs)) e2 in
    let (left', same, stuck) = order_graph-IsStuck hs g (cycle_detected left) distinct graph last in
    let ((first, inside), waits) : IsStuck hs g left =
      subst (IsStuck hs g) (sym (left-inj same)) stuck in
    let asked : (b : Text) → In b left → (a : Text) × In a left × Asks handlers a b = λ b i.
      let (a, j, _, edge) = waits b i in
      (a, j, applied-Asks handlers hs a b e1 (edge-Asks hs g a b e2 edge)) in
    (
      (first, inside),
      (
        asked,
        λ rank keeps.
            no_ranking left handlers rank asked keeps (suc (rank first)) first inside (omega arith),
      ),
    )

-- `order_handlers` raises the error of a cycle only with names, at least one, each of which the
-- orderings ask to stand behind one of them, and only if no positions of the handlers keep what all
-- of the orderings ask for. The names of the handlers, keys of a dict, differ.
pub order_handlers-cycle_detected :
    (handlers : List Handler) (left : List Text)
    → Distinct (names handlers)
    → order_handlers handlers ≡ err (cycle_detected left)
    → IsCyclic handlers left
unfolding order_handlers
order_handlers-cycle_detected handlers left k e =
    Outcome-cases (apply_orderings handlers)
      (λ hs e1.
        Outcome-cases (add_orderings (names hs) hs no_edges)
          (λ g e2.
            order_graph-IsCyclic handlers hs g left k e1 e2 (rw (e1, e2, order_handlers) at e))
          (λ x e2. absurd (
            raised_by left x (add_orderings (names hs) hs no_edges)
              (add_orderings-NoCycle (names hs) hs no_edges) e2
              (failed-inj (rw (e1, e2, order_handlers) at e)))))
      (λ x e1. absurd (
        raised_by left x (apply_orderings handlers) (apply_orderings-NoCycle handlers) e1
          (failed-inj (rw (e1, order_handlers) at e))))
