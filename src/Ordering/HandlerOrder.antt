-- ===== src/Ordering/HandlerOrder.antt =====
-- The order that `order_handlers` returns.
use dbwarden.Common.{
  ℕ, zero, suc, ◌≤◌, ◌≡◌, refl, Bool, true, false, List, [], ◌∷◌, ◌++◌, ◌||◌, ◌&&◌, ◌==◌, ==_iff,
  ltb, text_eq_refl, if◌then◌else◌, Text, text_eq, text_in, length, length-append, arith, Outcome,
  ok, err, sym, ap, ◌∙◌, subst,
}
use dbwarden.Ordering.Handlers.{
  Handler, HandlerError, cycle_detected, names, names_if, Queue, release, drain, Graph, first_queue,
  order_graph, push_all,
}
use dbwarden.Ordering.Counts.{Distinct, total, total-zero}
use dbwarden.Ordering.HandlerLaws.{IsPlaced, Follows, pop-IsPlaced}
use dbwarden.Ordering.Ready.{text_in-push, push-Distinct, text_in-names_if, names_if-Distinct}

text_in-head : (x : Text) (rest : List Text) → text_in x (x ∷ rest) ≡ true
unfolding text_in
text_in-head x rest = ground (arith, text_eq_refl x)

module _ (hs : List Handler) (edges : Text → List Text) where
  drain-nil :
      (rounds : ℕ) (placed : List Text) (q : Queue)
      → q.ready ≡ []
      → drain (suc rounds) hs edges placed q ≡ (placed, q)
  unfolding drain
  drain-nil rounds placed q e = simp (e, drain)

  drain-cons :
      (rounds : ℕ) (placed : List Text) (q : Queue) (x : Text) (rest : List Text)
      → q.ready ≡ x ∷ rest
      → drain (suc rounds) hs edges placed q
        ≡ drain rounds hs edges (placed ++ x ∷ []) (
            release hs (names_if (λ n. text_in n (edges x)) (names hs)) (record q { ready = rest }))
  unfolding drain
  drain-cons rounds placed q x rest e = rw (e, drain) refl

  abbrev IsDrained : List Text × Queue → Type 0
  IsDrained r = IsPlaced hs (names hs) edges r.0 r.1 × (r.1.ready ≡ [])

  -- A name in the heap is left.
  none-ready :
      (placed : List Text) (q : Queue)
      → total (λ a. 1) placed (names hs) ≤ 0
      → IsPlaced hs (names hs) edges placed q
      → (r : List Text) → q.ready ≡ r
      → r ≡ []
  none-ready placed q small h [] e = refl
  none-ready placed q small (_, ((_, (_, known)), _)) (x ∷ rest) e = absurd (
      let (inside, out) =
        known x (subst (λ (r : List Text). text_in x r ≡ true) (sym e) (text_in-head x rest)) in
      ground (
        arith,
        out,
        total-zero (λ a. 1) placed (names hs) x (omega (arith, small)) inside
            (λ one_is. omega (arith, one_is)),
      ))

  -- With as many rounds as names are left, the loop ends with an empty heap.
  pub drain-IsDrained :
      (rounds : ℕ) (placed : List Text) (q : Queue)
      → Distinct (names hs)
      → total (λ a. 1) placed (names hs) ≤ rounds
      → IsPlaced hs (names hs) edges placed q
      → IsDrained (drain rounds hs edges placed q)
  unfolding drain
  drain-IsDrained zero placed q k small h = (h, none-ready placed q small h q.ready refl)
  drain-IsDrained (suc rounds) placed q k small h = next q.ready refl (drain-IsDrained rounds)
    where
      next :
          (r : List Text)
          → q.ready ≡ r
          → ((placed' : List Text) (q' : Queue)
              → Distinct (names hs)
              → total (λ a. 1) placed' (names hs) ≤ rounds
              → IsPlaced hs (names hs) edges placed' q'
              → IsDrained (drain rounds hs edges placed' q'))
          → IsDrained (drain (suc rounds) hs edges placed q)
      next [] e later = subst IsDrained (sym (drain-nil rounds placed q e)) (h, e)
      next (x ∷ rest) e later =
          let popped = pop-IsPlaced hs (names hs) edges placed x rest q k e h in
          subst IsDrained (sym (drain-cons rounds placed q x rest e)) (
            later (placed ++ x ∷ [])
              (release hs (names_if (λ n. text_in n (edges x)) (names hs))
                (record q { ready = rest }))
              k (omega (arith, small, popped.1.1.1, h.1.1.1, length-append placed (x ∷ []))) popped)

text_in-push_all :
    (hs : List Handler) (b : Text) (ns : List Text) → text_in b (push_all hs ns) ≡ text_in b ns
unfolding push_all text_in
text_in-push_all hs b [] = refl
text_in-push_all hs b (n ∷ ns) =
    text_in-push hs b n (push_all hs ns) ∙ ap (λ c. text_eq b n || c) (text_in-push_all hs b ns)

push_all-Distinct : (hs : List Handler) (ns : List Text) → Distinct ns → Distinct (push_all hs ns)
unfolding push_all
push_all-Distinct hs [] k = tt
push_all-Distinct hs (n ∷ ns) (apart, k) =
    push-Distinct hs n (push_all hs ns) (text_in-push_all hs n ns ∙ apart)
      (push_all-Distinct hs ns k)

-- The counts of a graph are the numbers of its edges.
abbrev pub IsGraph : List Text → Graph → Type 0
IsGraph ns g =
    (b : Text)
    → text_in b ns ≡ true
    → g.indegree b ≡ total (λ a. if text_in b (g.edges a) then 1 else 0) [] ns

pub total-one : (ns : List Text) → total (λ a. 1) [] ns ≡ length ns
unfolding text_in
total-one [] = refl
total-one (n ∷ ns) = omega (arith, total-one ns)

pub first_queue-IsPlaced :
    (hs : List Handler) (g : Graph)
    → Distinct (names hs)
    → IsGraph (names hs) g
    → IsPlaced hs (names hs) g.edges [] (first_queue hs g)
unfolding first_queue text_in
first_queue-IsPlaced hs g k h =
    let free = names_if (λ n. g.indegree n == 0) (names hs) in
    let in_free : (b : Text) → text_in b free ≡ (text_in b (names hs) && (g.indegree b == 0)) =
      λ b. text_in-names_if (λ n. g.indegree n == 0) b (names hs) in
    (
      λ b i. omega (arith, h b i),
      (
        (
          λ b i. ground (arith, text_in-push_all hs b free, in_free b, i),
          (
            push_all-Distinct hs free (names_if-Distinct (λ n. g.indegree n == 0) (names hs) k),
            λ b j. (ground (arith, j, text_in-push_all hs b free, in_free b), refl),
          ),
        ),
        (tt, omega (arith, total-one (names hs))),
      ),
    )

pub length-names : (hs : List Handler) → length (names hs) ≡ length hs
length-names [] = refl
length-names (h ∷ hs) = omega (arith, length-names hs)

abbrev found : List Text → Outcome HandlerError (List Text)
found ordered = ok ordered

found-inj : {a b : List Text} → found a ≡ ok b → a ≡ b
found-inj h = cc

ordered-ok :
    (c : Bool) {a b : List Text} (e : HandlerError)
    → (if c then found a else err e) ≡ ok b
    → (c ≡ true) × (a ≡ b)
ordered-ok true e h = (refl, found-inj h)
ordered-ok false e h = cc

-- An order of a graph has all names, once each, behind those with an edge to them.
pub order_graph-Follows :
    (hs : List Handler) (g : Graph) (ordered : List Text)
    → Distinct (names hs)
    → IsGraph (names hs) g
    → order_graph hs g ≡ ok ordered
    → (length ordered ≡ length hs)
      × (((n : Text) → text_in n (names hs) ≡ true → text_in n ordered ≡ true)
          × Follows hs (names hs) g.edges [] ordered)
unfolding order_graph
order_graph-Follows hs g ordered k h e =
    let r = drain (length hs) hs g.edges [] (first_queue hs g) in
    let (full, same) =
      ordered-ok (length r.0 == length hs)
        (cycle_detected (names_if (λ n. ltb 0 (r.1.count n)) (names hs))) e in
    let all_placed : length r.0 ≡ length hs = (==_iff (length r.0) (length hs)).0 full in
    let drained =
      drain-IsDrained hs g.edges (length hs) [] (first_queue hs g) k
        (omega (arith, total-one (names hs), length-names hs)) (first_queue-IsPlaced hs g k h) in
    subst
      (λ (o : List Text).
        (length o ≡ length hs)
        × (((n : Text) → text_in n (names hs) ≡ true → text_in n o ≡ true)
            × Follows hs (names hs) g.edges [] o))
      same
      (
        all_placed,
        (
          λ n i.
              total-zero (λ a. 1) r.0 (names hs) n
                (omega (arith, all_placed, length-names hs, drained.0.1.1.1)) i
                (λ one_is. omega (arith, one_is)),
          drained.0.1.1.0,
        ),
      )
