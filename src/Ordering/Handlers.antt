-- ===== src/Ordering/Handlers.antt =====
-- `order_handlers` of dbwarden/engine/core/ordering.py.
--
-- The handlers of a dict stand as a list, each with its key; the dicts that the function fills are
-- functions on names. The heap is the list of the names that it holds, in the order they are popped.
use dbwarden.Common.{
  ℕ, zero, suc, ◌-◌, Bool, Option, none, some, List, [], ◌∷◌, ◌++◌, ◌&&◌, ◌||◌, ◌==◌, ltb, map,
  length, if◌then◌else◌, Text, text_eq, text_in, Outcome, ok, err, ◌>>=◌,
}
use dbwarden.Ordering.Values.{StatementOrder, value}
use dbwarden.Ordering.Anchors.{OrderingConstraint, OrderingError, statement_order_for}

pub record Handler : Type 0 where
  pub name : Text
  pub ordering : Option OrderingConstraint
  pub statement_order : Option StatementOrder

pub data HandlerError : Type 0 where
  ordering_error : OrderingError → HandlerError
  unknown_object : Text → Text → HandlerError
  cycle_detected : List Text → HandlerError

-- `apply_public_ordering`
unfoldable pub apply_public_ordering : Handler → Outcome HandlerError Handler
apply_public_ordering handler = elim (statement_order_for handler.ordering) [
  | err e ↦ err (ordering_error e)
  | ok none ↦ ok handler
  | ok (some order) ↦ ok (record handler { statement_order = some order })
]

unfoldable pub apply_orderings : List Handler → Outcome HandlerError (List Handler)
unfolding apply_public_ordering
apply_orderings [] = ok []
apply_orderings (h ∷ handlers) =
    apply_public_ordering h >>= λ first. apply_orderings handlers >>= λ others. ok (first ∷ others)

abbrev pub names : List Handler → List Text
names = map (λ h. h.name)

-- `edges` and `indegree`
pub record Graph : Type 0 where
  pub edges : Text → List Text
  pub indegree : Text → ℕ

abbrev pub no_edges : Graph
no_edges = record { edges = λ n. []; indegree = λ n. 0 }

-- `if b not in edges[a]:` with the lines under it
unfoldable pub add_edge : Text → Text → Graph → Graph
add_edge a b g = if text_in b (g.edges a) then g else record {
  edges = λ n. if text_eq n a then g.edges a ++ b ∷ [] else g.edges n;
  indegree = λ n. if text_eq n b then suc (g.indegree n) else g.indegree n;
}

unfoldable pub add_after : List Text → Text → List Text → Graph → Outcome HandlerError Graph
unfolding add_edge
add_after known object_type [] g = ok g
add_after known object_type (d ∷ dependencies) g =
    let rest = add_after known object_type dependencies (add_edge d object_type g) in
    if text_in d known then rest else err (unknown_object d object_type)

unfoldable pub add_before : List Text → Text → List Text → Graph → Outcome HandlerError Graph
unfolding add_edge
add_before known object_type [] g = ok g
add_before known object_type (d ∷ dependents) g =
    let rest = add_before known object_type dependents (add_edge object_type d g) in
    if text_in d known then rest else err (unknown_object d object_type)

unfoldable pub add_orderings : List Text → List Handler → Graph → Outcome HandlerError Graph
unfolding add_after add_before
add_orderings known [] g = ok g
add_orderings known (h ∷ handlers) g = elim h.ordering [
  | none ↦ add_orderings known handlers g
  | some o ↦ add_after known h.name o.after_object g >>= λ g'.
      add_before known h.name o.before_object g' >>= λ g''. add_orderings known handlers g''
]

-- `_handler_order_value`
abbrev pub handler_order_value : Handler → ℕ
handler_order_value h = elim h.statement_order [ none ↦ 5 | some order ↦ value order ]

-- The order value of the handler of this name, and its position.
unfoldable pub key_of : Text → List Handler → ℕ × ℕ
key_of n [] = (0, 0)
key_of n (h ∷ handlers) =
    let (v, p) = key_of n handlers in
    if text_eq n h.name then (handler_order_value h, 0) else (v, suc p)

-- The order of the tuples in the heap.
unfoldable pub comes_first : List Handler → Text → Text → Bool
unfolding key_of
comes_first handlers m n =
    let (v, p) = key_of m handlers in let (w, q) = key_of n handlers in ltb v w || v == w && ltb p q

-- `heappush`
unfoldable pub push : List Handler → Text → List Text → List Text
unfolding comes_first
push handlers n [] = n ∷ []
push handlers n (m ∷ ready) =
    let rest = push handlers n ready in if comes_first handlers n m then n ∷ m ∷ ready else m ∷ rest

-- The names that pass a test, by their positions.
unfoldable pub names_if : (Text → Bool) → List Text → List Text
names_if test [] = []
names_if test (n ∷ ns) = let rest = names_if test ns in if test n then n ∷ rest else rest

unfoldable pub push_all : List Handler → List Text → List Text
unfolding push
push_all handlers [] = []
push_all handlers (n ∷ ns) = push handlers n (push_all handlers ns)

pub record Queue : Type 0 where
  pub count : Text → ℕ
  pub ready : List Text

-- `for dependent in sorted(edges[object_type], …)`
unfoldable pub release : List Handler → List Text → Queue → Queue
unfolding push
release handlers [] q = q
release handlers (d ∷ dependents) q = release handlers dependents record {
  count = λ n. if text_eq n d then q.count n - 1 else q.count n;
  ready = if q.count d - 1 == 0 then push handlers d q.ready else q.ready;
}

-- `while ready`, with the rounds that are left.
unfoldable pub drain : ℕ → List Handler → (Text → List Text) → List Text → Queue → List Text × Queue
unfolding release names_if
drain zero handlers edges ordered q = (ordered, q)
drain (suc rounds) handlers edges ordered q = elim q.ready [
  | [] ↦ (ordered, q)
  | x ∷ ready ↦ drain rounds handlers edges (ordered ++ x ∷ []) (
      release handlers (names_if (λ n. text_in n (edges x)) (names handlers))
        (record q { ready = ready }))
]

unfoldable pub first_queue : List Handler → Graph → Queue
unfolding push_all names_if
first_queue handlers g = record {
  count = g.indegree;
  ready = push_all handlers (names_if (λ n. g.indegree n == 0) (names handlers));
}

-- The end of the function, from the graph.
unfoldable pub order_graph : List Handler → Graph → Outcome HandlerError (List Text)
unfolding drain first_queue
order_graph handlers g =
    let (ordered, q) = drain (length handlers) handlers g.edges [] (first_queue handlers g) in
    if length ordered == length handlers
    then ok ordered
    else err (cycle_detected (names_if (λ n. ltb 0 (q.count n)) (names handlers)))

unfoldable pub order_handlers : List Handler → Outcome HandlerError (List Text)
unfolding apply_orderings add_orderings order_graph
order_handlers handlers = apply_orderings handlers >>= λ applied.
    add_orderings (names applied) applied no_edges >>= λ g. order_graph applied g
