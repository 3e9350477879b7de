-- ===== src/Ordering/OrderLaws.antt =====
-- `order_handlers` against the orderings of its handlers.
use dbwarden.Common.{
  ◌≡◌, refl, true, some, List, [], ◌∷◌, ◌++◌, Text, text_eq, text_in, text_eq_sound, text_in-In,
  In-text_in, In-map, length, arith, Bool-cases, Outcome-cases, Option-cases, inl, inr, In, Outcome,
  ok, err, ◌>>=◌, >>=-eq-ok, sym, ap, ◌∙◌, subst, append_assoc,
}
use dbwarden.Ordering.Anchors.{OrderingConstraint, statement_order_for}
use dbwarden.Ordering.Handlers.{
  Handler, HandlerError, names, no_edges, add_orderings, apply_public_ordering, apply_orderings,
  order_graph, order_handlers,
}
use dbwarden.Ordering.Counts.{Distinct, total}
use dbwarden.Ordering.HandlerLaws.{Follows}
use dbwarden.Ordering.HandlerOrder.{IsGraph, order_graph-Follows}
use dbwarden.Ordering.Edges.{add_orderings-IsGraph}

-- The first name stands in front of the second, which stands in the list.
abbrev pub IsBefore : Text → Text → List Text → Type 0
IsBefore a b ordered =
    (front : List Text) × (back : List Text) × (ordered ≡ front ++ b ∷ back)
    × (text_in a front ≡ true)

-- What an ordering asks of the result.
abbrev pub IsKept : List Text → Handler → Type 0
IsKept ordered h =
    (o : OrderingConstraint)
    → h.ordering ≡ some o
    → ((d : Text) → In d o.after_object → IsBefore d h.name ordered)
      × ((d : Text) → In d o.before_object → IsBefore h.name d ordered)

Follows-IsBefore :
    (hs : List Handler) (ns : List Text) (edges : Text → List Text) (seen xs : List Text)
    (a b : Text)
    → Follows hs ns edges seen xs
    → text_in a ns ≡ true
    → text_in b (edges a) ≡ true
    → text_in b xs ≡ true
    → IsBefore a b (seen ++ xs)
unfolding text_in
Follows-IsBefore hs ns edges seen [] a b h i e j = cc
Follows-IsBefore hs ns edges seen (x ∷ xs) a b (first, later) i e j =
    elim (Bool-cases (text_eq b x)) [
      | inl f ↦
          let same = text_eq_sound b x f in
          (
            seen,
            xs,
            ap (λ y. seen ++ y ∷ xs) (sym same),
            first a i (subst (λ y. text_in y (edges a) ≡ true) same e),
          )
      | inr f ↦
          subst (λ (o : List Text). IsBefore a b o) (append_assoc seen (x ∷ []) xs)
            (Follows-IsBefore hs ns edges (seen ++ x ∷ []) xs a b later i e (ground (arith, j, f)))
    ]

abbrev applied_to : Handler → Outcome HandlerError Handler
applied_to h = ok h

abbrev done : List Handler → Outcome HandlerError (List Handler)
done hs = ok hs

-- A handler keeps its name and its ordering when its statement order is set.
abbrev pub IsSame : Handler → Handler → Type 0
IsSame h k = (h.name ≡ k.name) × (h.ordering ≡ k.ordering)

applied-inj : {h k : Handler} → applied_to h ≡ ok k → h ≡ k
applied-inj e = cc

done-inj : {hs ks : List Handler} → done hs ≡ ok ks → hs ≡ ks
done-inj e = cc

not_ok : {x : HandlerError} {h : Handler} → err x ≡ applied_to h → ⊥
not_ok e = cc

pub apply_public_ordering-IsSame : (h k : Handler) → apply_public_ordering h ≡ ok k → IsSame h k
unfolding apply_public_ordering
apply_public_ordering-IsSame h k e =
    Outcome-cases (statement_order_for h.ordering)
      (λ r f. elim (Option-cases r) [
        | inl none_set ↦
            let same : h ≡ k = applied-inj (rw (f, none_set, apply_public_ordering) at e) in
            (ap (λ (x : Handler). x.name) same, ap (λ (x : Handler). x.ordering) same)
        | inr (order, set) ↦
            let same : record h { statement_order = some order } ≡ k =
              applied-inj (rw (f, set, apply_public_ordering) at e) in
            (ap (λ (x : Handler). x.name) same, ap (λ (x : Handler). x.ordering) same)
      ])
      (λ raises f. absurd (not_ok (rw (f, apply_public_ordering) at e)))

pub apply_orderings-names :
    (hs ks : List Handler)
    → apply_orderings hs ≡ ok ks
    → (names ks ≡ names hs)
      × ((length ks ≡ length hs) × ((h : Handler) → In h hs → (k : Handler) × In k ks × IsSame h k))
unfolding apply_orderings
apply_orderings-names [] ks e =
    subst
      (λ (ks' : List Handler).
        (names ks' ≡ [])
        × ((length ks' ≡ 0) × ((h : Handler) → In h [] → (k : Handler) × In k ks' × IsSame h k)))
      (done-inj e) (refl, (refl, λ h i. absurd i))
apply_orderings-names (h ∷ hs) ks e =
    let (k, f, later) =
      >>=-eq-ok (apply_public_ordering h)
        (λ first. apply_orderings hs >>= λ others. ok (first ∷ others)) e in
    let (rest, g, last) = >>=-eq-ok (apply_orderings hs) (λ others. ok (k ∷ others)) later in
    let (known, (size, kept)) = apply_orderings-names hs rest g in
    let same = apply_public_ordering-IsSame h k f in
    subst
      (λ (ks' : List Handler).
        (names ks' ≡ names (h ∷ hs))
        × ((length ks' ≡ length (h ∷ hs))
            × ((x : Handler) → In x (h ∷ hs) → (y : Handler) × In y ks' × IsSame x y)))
      (done-inj last)
      (
        ap (λ n. n ∷ names rest) (sym same.0) ∙ ap (λ (ns : List Text). h.name ∷ ns) known,
        (
          omega (arith, size),
          λ x i. elim i [
            | inl first ↦ (k, inl refl, subst (λ y. IsSame y k) (sym first) same)
            | inr j ↦ let (y, l, alike) = kept x j in (y, inr l, alike)
          ],
        ),
      )

pub no_edges-IsGraph : (ns : List Text) → IsGraph ns no_edges
unfolding text_in
no_edges-IsGraph ns b i = none_of ns
  where
    none_of : (ms : List Text) → 0 ≡ total (λ a. 0) [] ms
    none_of [] = refl
    none_of (m ∷ ms) = omega (arith, none_of ms)

-- Where `order_handlers` returns, its result has the name of each handler, once, each behind the
-- objects its ordering puts it after and in front of those it puts it before. The names of the
-- handlers, keys of a dict, differ.
pub order_handlers-IsKept :
    (handlers : List Handler) (ordered : List Text)
    → Distinct (names handlers)
    → order_handlers handlers ≡ ok ordered
    → (length ordered ≡ length handlers)
      × (((h : Handler) → In h handlers → In h.name ordered)
          × ((h : Handler) → In h handlers → IsKept ordered h))
unfolding order_handlers
order_handlers-IsKept handlers ordered k e =
    let (hs, e1, later) =
      >>=-eq-ok (apply_orderings handlers)
        (λ applied. add_orderings (names applied) applied no_edges >>= λ g. order_graph applied g)
        e in
    let (g, e2, last) =
      >>=-eq-ok (add_orderings (names hs) hs no_edges) (λ g'. order_graph hs g') later in
    let (known, (size, kept)) = apply_orderings-names handlers hs e1 in
    let distinct : Distinct (names hs) = subst Distinct (sym known) k in
    let (graph, (keeps, has)) =
      add_orderings-IsGraph (names hs) hs no_edges g distinct
        (λ h i. In-text_in h.name (names hs) (In-map (λ (x : Handler). x.name) hs h i))
        (no_edges-IsGraph (names hs)) e2 in
    let (full, (all_placed, follows)) = order_graph-Follows hs g ordered distinct graph last in
    let placed : (h : Handler) → In h hs → text_in h.name ordered ≡ true = λ h i.
      all_placed h.name (In-text_in h.name (names hs) (In-map (λ (x : Handler). x.name) hs h i)) in
    (
      full ∙ size,
      (
        λ h i.
            let (x, j, same) = kept h i in
            subst (λ n. In n ordered) (sym same.0) (text_in-In x.name ordered (placed x j)),
        λ h i o asks.
            let (x, j, same) = kept h i in
            let (afters, befores) = has x j o (sym same.1 ∙ asks) in
            let inside = In-text_in x.name (names hs) (In-map (λ (y : Handler). y.name) hs x j) in
            (
              λ d l.
                  let (edge, d_inside) = afters d l in
                  subst (λ n. IsBefore d n ordered) (sym same.0)
                    (Follows-IsBefore hs (names hs) g.edges [] ordered d x.name follows d_inside
                      edge (placed x j)),
              λ d l.
                  let (edge, d_inside) = befores d l in
                  subst (λ n. IsBefore n d ordered) (sym same.0)
                    (Follows-IsBefore hs (names hs) g.edges [] ordered x.name d follows inside edge
                      (all_placed d d_inside)),
            ),
      ),
    )
