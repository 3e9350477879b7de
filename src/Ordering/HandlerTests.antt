-- ===== src/Ordering/HandlerTests.antt =====
-- Three handlers that order each other, and the theorem at these handlers.
use dbwarden.Common.{
  ◌≡◌, refl, none, some, List, [], ◌∷◌, Text, text_eq, text_in, codes, length, ok, err, In,
}
use dbwarden.Ordering.Anchors.{
  OrderingConstraint, check_before, check_after, validate_ordering, last_anchor, first_anchor,
  anchor_for, order_of, statement_order_for,
}
use dbwarden.Ordering.Handlers.{
  Handler, cycle_detected, apply_public_ordering, apply_orderings, names, add_edge, add_after,
  add_before, add_orderings, key_of, comes_first, push, names_if, push_all, release, drain,
  first_queue, order_graph, order_handlers,
}
use dbwarden.Ordering.Counts.{Distinct}
use dbwarden.Ordering.Stuck.{IsCyclic, order_handlers-cycle_detected}
use dbwarden.Ordering.OrderLaws.{IsKept, order_handlers-IsKept}

abbrev objects : List Text → List Text → OrderingConstraint
objects afters befores = record {
  after = [];
  before = [];
  after_object = afters;
  before_object = befores;
}

abbrev handlers : List Handler
handlers =
    record {
      name = codes "index";
      ordering = some (objects (codes "table" ∷ []) []);
      statement_order = none;
    }
    ∷ record { name = codes "table"; ordering = none; statement_order = none }
    ∷ record {
      name = codes "type";
      ordering = some (objects [] (codes "table" ∷ []));
      statement_order = none;
    }
    ∷ []

ordering_handlers : Unit {0}
unfolding text_eq text_in check_before check_after validate_ordering last_anchor first_anchor
    anchor_for order_of statement_order_for apply_public_ordering apply_orderings add_edge add_after
    add_before add_orderings key_of comes_first push names_if push_all release drain first_queue
    order_graph order_handlers
ordering_handlers = tt

abbrev ordered : List Text
ordered = codes "type" ∷ codes "table" ∷ codes "index" ∷ []

type_is_first : order_handlers handlers ≡ ok ordered
unfolding ordering_handlers
type_is_first = refl

names_differ : Distinct (names handlers)
unfolding ordering_handlers
names_differ = (refl, (refl, (refl, tt)))

order_handlers-IsKept_example :
    (length ordered ≡ length handlers)
    × (((h : Handler) → In h handlers → In h.name ordered)
        × ((h : Handler) → In h handlers → IsKept ordered h))
order_handlers-IsKept_example = order_handlers-IsKept handlers ordered names_differ type_is_first

-- A handler behind and in front of the same one.
abbrev cyclic : List Handler
cyclic =
    record {
      name = codes "a";
      ordering = some (objects (codes "b" ∷ []) (codes "b" ∷ []));
      statement_order = none;
    }
    ∷ record { name = codes "b"; ordering = none; statement_order = none }
    ∷ []

cycle_is_found : order_handlers cyclic ≡ err (cycle_detected (codes "a" ∷ codes "b" ∷ []))
unfolding ordering_handlers
cycle_is_found = refl

cyclic_differ : Distinct (names cyclic)
unfolding ordering_handlers
cyclic_differ = (refl, (refl, tt))

order_handlers-cycle_detected_example : IsCyclic cyclic (codes "a" ∷ codes "b" ∷ [])
order_handlers-cycle_detected_example =
    order_handlers-cycle_detected cyclic (codes "a" ∷ codes "b" ∷ []) cyclic_differ cycle_is_found
