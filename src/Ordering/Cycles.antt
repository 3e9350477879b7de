-- ===== src/Ordering/Cycles.antt =====
-- The error of `order_handlers` for handlers that wait for each other.
use dbwarden.Common.{
  ℕ, ◌≡◌, refl, Bool, true, false, List, [], ◌==◌, ltb, if◌then◌else◌, Text, text_in, text_in-In,
  In-text_in, length, arith, In, Outcome, ok, err, ap, sym,
}
use dbwarden.Ordering.Handlers.{
  Handler, HandlerError, cycle_detected, names, names_if, drain, Graph, first_queue, order_graph,
}
use dbwarden.Ordering.Counts.{Distinct, total-some}
use dbwarden.Ordering.Ready.{text_in-names_if}
use dbwarden.Ordering.HandlerOrder.{
  IsGraph, drain-IsDrained, first_queue-IsPlaced, total-one, length-names,
}

abbrev failed : HandlerError → Outcome HandlerError (List Text)
failed e = err e

-- Names, some, each with an edge from one of them.
abbrev pub IsStuck : List Handler → Graph → List Text → Type 0
IsStuck hs g left =
    ((b : Text) × In b left)
    × ((b : Text)
        → In b left
        → (a : Text) × In a left × (In a (names hs)) × (text_in b (g.edges a) ≡ true))

ordered-err :
    (c : Bool) (a : List Text) (e f : HandlerError)
    → (if c then ok a else err e) ≡ failed f
    → (c ≡ false) × (e ≡ f)
ordered-err true a e f h = cc
ordered-err false a e f h = (refl, cc)

edge_of : (c : Bool) → (if◌then◌else◌ {A = ℕ} c 1 0 ≡ 0 → ⊥) → c ≡ true
edge_of true h = refl
edge_of false h = absurd (h refl)

-- An order of a graph fails only with names that are stuck.
pub order_graph-IsStuck :
    (hs : List Handler) (g : Graph) (e : HandlerError)
    → Distinct (names hs)
    → IsGraph (names hs) g
    → order_graph hs g ≡ err e
    → (left : List Text) × (e ≡ cycle_detected left) × IsStuck hs g left
unfolding order_graph text_in
order_graph-IsStuck hs g e k h fails =
    let r = drain (length hs) hs g.edges [] (first_queue hs g) in
    let test : Text → Bool = λ n. ltb 0 (r.1.count n) in
    let left = names_if test (names hs) in
    let (short, same) = ordered-err (length r.0 == length hs) r.0 (cycle_detected left) e fails in
    let ((counted, ((queued, _), (_, size))), empty) =
      drain-IsDrained hs g.edges (length hs) [] (first_queue hs g) k
        (omega (arith, total-one (names hs), length-names hs)) (first_queue-IsPlaced hs g k h) in
    let placed : (b : Text) → text_in b (names hs) ≡ true → text_in b r.0 ≡ (r.1.count b == 0) =
      λ b i.
        let none_ready : text_in b r.1.ready ≡ false = ap (λ (x : List Text). text_in b x) empty in
        ground (arith, queued b i, none_ready) in
    let is_left : (b : Text) → text_in b (names hs) ≡ true → text_in b r.0 ≡ false → In b left =
      λ b i out.
        text_in-In b left
          (ground (arith, text_in-names_if test b (names hs), placed b i, out, i)) in
    (
      left,
      sym same,
      (
        (let (a, i, out, _) =
              total-some (λ n. 1) r.0 (names hs)
                (λ z. ground (arith, z, size, length-names hs, short)) in
            (a, is_left a i out)),
        λ b j.
            let listed : text_in b left ≡ true = In-text_in b left j in
            let i : text_in b (names hs) ≡ true =
              ground (arith, listed, text_in-names_if test b (names hs)) in
            let some_count : ltb 0 (r.1.count b) ≡ true =
              ground (arith, listed, text_in-names_if test b (names hs)) in
            let (a, inside, out, weighs) =
              total-some (λ n. if text_in b (g.edges n) then 1 else 0) r.0 (names hs)
                (λ z. ground (arith, z, counted b i, some_count)) in
            (
              a,
              is_left a inside out,
              text_in-In a (names hs) inside,
              edge_of (text_in b (g.edges a)) weighs,
            ),
      ),
    )
