-- ===== src/Partition/SplitLaws.antt =====
-- What `partition_operations` returns.
use mathlib.Core.List.{Perm}
use mathlib.Core.List.Perm
use dbwarden.Common.{
  ◌≡◌, Bool, true, false, Option, none, some, List, [], ◌∷◌, ◌++◌, not, map, leb, Text, text_in,
  Outcome, ok, err, ◌>>=◌, >>=-eq-ok, Outcome-cases, Bool-cases, Option-cases, inl, inr, In, sym,
  ap, ◌∙◌, subst, text_in-In, In-text_in, append-nil,
}
use dbwarden.Severity.Levels.{Safety, index, severity_level}
use dbwarden.Partition.Dependencies.{Operation, references_of, dependencies_of}
use dbwarden.Partition.Split.{
  Node, ids, PartitionError, has_duplicate, nodes_from, has_conflict, has_unknown, is_cyclic,
  store_dependencies, nodes_if, above, deferred_ids, split_at, split_by, check_nodes,
  partition_operations,
}
use dbwarden.Partition.Closure.{Waits, starts, follows, close-In, close-IsClosed}
use dbwarden.Partition.Parts.{nodes_if-perm, nodes_if-passes, In-split, split-In}
use dbwarden.Partition.InOrder.{
  InOrder, no_conflict-InOrder, store_dependencies-InOrder, ids-store_dependencies, split-InOrder,
}

abbrev done : {A : Type 0} → A → Outcome PartitionError A
done a = ok a

done-inj : {A : Type 0} {a b : A} → done a ≡ ok b → a ≡ b
done-inj h = cc

raised : {A : Type 0} {e : PartitionError} {a : A} → err e ≡ done a → ⊥
raised h = cc

nodes_from-ids :
    (view_references : Text → Option (List Text)) (ops earlier later : List Operation)
    (nodes : List Node)
    → nodes_from view_references ops earlier later ≡ ok nodes
    → ids nodes ≡ map (λ op. op.id) later
unfolding nodes_from
nodes_from-ids view_references ops earlier [] nodes h =
    ap ids (sym (done-inj {A = List Node} {a = []} {b = nodes} h))
nodes_from-ids view_references ops earlier (op ∷ later) nodes h =
    elim (Option-cases (references_of view_references op)) [
      | inl e ↦ absurd (raised (rw (e, nodes_from) at h))
      | inr (references, e) ↦
          let (others, f, g) =
            >>=-eq-ok (nodes_from view_references ops (earlier ++ op ∷ []) later)
              (λ (ns : List Node).
                ok (record { op = op; deps = dependencies_of references earlier ops op } ∷ ns))
              (rw (e, nodes_from) at h) in
          ap ids (sym (done-inj g))
          ∙ ap (λ ts. op.id ∷ ts)
              (nodes_from-ids view_references ops (earlier ++ op ∷ []) later others f)
    ]

-- What the checks of an accepted list say.
check_nodes-conflict :
    (nodes : List Node) → check_nodes nodes ≡ ok tt → has_conflict (ids nodes) nodes ≡ false
unfolding check_nodes
check_nodes-conflict nodes h = elim (Bool-cases (has_conflict (ids nodes) nodes)) [
  | inr e ↦ e
  | inl e ↦ elim (Bool-cases (has_unknown (ids nodes) nodes)) [
    | inl f ↦ absurd (raised (rw (f, check_nodes) at h))
    | inr f ↦ elim (Bool-cases (is_cyclic nodes)) [
      | inl g ↦ absurd (raised (rw (f, g, check_nodes) at h))
      | inr g ↦ absurd (raised (rw (e, f, g, check_nodes) at h))
    ]
  ]
]

not_both : (b : Bool) → b ≡ true → not b ≡ true → ⊥
not_both true _ h = cc
not_both false h _ = cc

module _ (level : Operation → Safety) (upper : Text → Text) where
  -- A result of the split is that of an accepted list of nodes.
  split_nodes :
      (view_references : Text → Option (List Text)) (ops : List Operation) (threshold : Option Text)
      (result : List Node × List Node)
      → partition_operations level upper view_references ops threshold ≡ ok result
      → (nodes : List Node) × (ids nodes ≡ map (λ op. op.id) ops)
        × InOrder [] nodes
        × (split_by level upper threshold nodes ≡ ok result)
  unfolding partition_operations
  split_nodes view_references ops threshold result h =
      elim (Bool-cases (has_duplicate (map (λ op. op.id) ops))) [
        | inl e ↦ absurd (raised (rw (e, partition_operations) at h))
        | inr e ↦
            let (nodes, f, g) =
              >>=-eq-ok (nodes_from view_references ops [] ops)
                (λ ns.
                  check_nodes ns >>= λ _. split_by level upper threshold (store_dependencies ns))
                (rw (e, partition_operations) at h) in
            let (unit, c, r) =
              >>=-eq-ok (check_nodes nodes)
                (λ _. split_by level upper threshold (store_dependencies nodes)) g in
            (
              store_dependencies nodes,
              ids-store_dependencies nodes ∙ nodes_from-ids view_references ops [] ops nodes f,
              store_dependencies-InOrder [] nodes
                  (no_conflict-InOrder nodes (check_nodes-conflict nodes c)),
              r,
            )
      ]

  -- A split is a cut at a closed list of ids.
  split_by-closed :
      (threshold : Option Text) (nodes base deferred : List Node)
      → split_by level upper threshold nodes ≡ ok (base, deferred)
      → InOrder [] nodes
      → InOrder [] (base ++ deferred) × Perm (base ++ deferred) nodes
  unfolding split_by split_at deferred_ids above
  split_by-closed none nodes base deferred h ordered =
      subst (λ (r : List Node × List Node). InOrder [] (r.0 ++ r.1) × Perm (r.0 ++ r.1) nodes)
        (done-inj h)
        (subst (λ (xs : List Node). InOrder [] xs × Perm xs nodes) (sym (append-nil nodes))
          (ordered, Perm.rfl))
  split_by-closed (some threshold) nodes base deferred h ordered =
      Outcome-cases (severity_level upper threshold false)
        (λ cut e.
          let ts = deferred_ids level cut nodes in
          subst (λ (r : List Node × List Node). InOrder [] (r.0 ++ r.1) × Perm (r.0 ++ r.1) nodes)
            (done-inj (rw (e, split_by) at h))
            (
              split-InOrder nodes ts
                  (close-IsClosed nodes (λ n. leb (index cut) (index (level n.op)))) ordered,
              nodes_if-perm (λ n. text_in n.op.id ts) nodes,
            ))
        (λ raises e. absurd (raised (rw (e, split_by) at h)))

  -- Where `partition_operations` returns, each operation stands in one of the two parts, once, and
  -- the base operations with the deferred ones behind them are an order of all in which each stands
  -- behind those it depends on.
  pub partition_operations-InOrder :
      (view_references : Text → Option (List Text)) (ops : List Operation) (threshold : Option Text)
      (base deferred : List Node)
      → partition_operations level upper view_references ops threshold ≡ ok (base, deferred)
      → Perm (ids (base ++ deferred)) (map (λ op. op.id) ops) × InOrder [] (base ++ deferred)
  partition_operations-InOrder view_references ops threshold base deferred h =
      let (nodes, known, ordered, r) =
        split_nodes view_references ops threshold (base, deferred) h in
      let (behind, same) = split_by-closed threshold nodes base deferred r ordered in
      (subst (λ ts. Perm (ids (base ++ deferred)) ts) known (Perm.map (λ n. n.op.id) same), behind)

  Waits-subset :
      (test : Node → Bool) (xs ys : List Node) (t : Text)
      → ((n : Node) → In n xs → In n ys)
      → Waits xs test t
      → Waits ys test t
  Waits-subset test xs ys _ sub (starts n i pass) = starts n (sub n i) pass
  Waits-subset test xs ys _ sub (follows n d i j w) =
      follows n d (sub n i) j (Waits-subset test xs ys d sub w)

  -- With a threshold, the deferred operations are those whose level reaches it, with those that
  -- depend on a deferred one, directly or not; no base operation is one of these.
  pub partition_operations-Waits :
      (view_references : Text → Option (List Text)) (ops : List Operation) (threshold : Text)
      (cut : Safety) (base deferred : List Node)
      → severity_level upper threshold false ≡ ok cut
      → partition_operations level upper view_references ops (some threshold) ≡ ok (base, deferred)
      → ((n : Node)
          → In n deferred
          → Waits (base ++ deferred) (λ m. leb (index cut) (index (level m.op))) n.op.id)
        × ((n : Node)
            → In n base
            → Waits (base ++ deferred) (λ m. leb (index cut) (index (level m.op))) n.op.id
            → ⊥)
  unfolding split_by split_at deferred_ids above
  partition_operations-Waits view_references ops threshold cut base deferred e h =
      let (nodes, known, ordered, r) =
        split_nodes view_references ops (some threshold) (base, deferred) h in
      let test : Node → Bool = λ m. leb (index cut) (index (level m.op)) in
      let ts = deferred_ids level cut nodes in
      subst
        (λ (r : List Node × List Node).
          ((n : Node) → In n r.1 → Waits (r.0 ++ r.1) test n.op.id)
          × ((n : Node) → In n r.0 → Waits (r.0 ++ r.1) test n.op.id → ⊥))
        (done-inj (rw (e, split_by) at r))
        (
          λ n i.
              let (j, pass) = nodes_if-passes (λ m. text_in m.op.id ts) nodes n i in
              Waits-subset test nodes
                (nodes_if (λ m. not (text_in m.op.id ts)) nodes
                  ++ nodes_if (λ m. text_in m.op.id ts) nodes)
                n.op.id (λ m k. In-split ts nodes m k)
                ((close-In nodes test n.op.id).0 (text_in-In n.op.id ts pass)),
          λ n i w.
              let (j, out) = nodes_if-passes (λ m. not (text_in m.op.id ts)) nodes n i in
              let listed = (close-In nodes test n.op.id).1 (
                Waits-subset test
                  (nodes_if (λ m. not (text_in m.op.id ts)) nodes
                    ++ nodes_if (λ m. text_in m.op.id ts) nodes)
                  nodes n.op.id (λ m k. split-In ts nodes m k) w) in
              not_both (text_in n.op.id ts) (In-text_in n.op.id ts listed) out,
        )
