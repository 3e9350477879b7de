-- ===== src/Partition/Closure.antt =====
-- Which operations the loop of `partition_operations` defers.
use dbwarden.Common.{
  ℕ, zero, suc, ◌≤◌, ◌<◌, ◌≡◌, ◌↔◌, refl, Bool, true, false, List, ◌∷◌, ◌||◌, any, Text, text_in,
  length, arith, Bool-cases, inl, inr, In, sym, subst, any-In, In-any, text_in-In, In-text_in,
  In-map, map-In,
}
use dbwarden.Partition.Split.{Node, ids, ids_if, closure, same_ids, close}
use dbwarden.Partition.Missing.{
  In-ids_if, ids_if-In, missing, missing-le-length, Within, missing-lt, same_ids-Within, not_same,
}

-- A node that passes the test, or that depends on one that waits.
pub data Waits (nodes : List Node) (test : Node → Bool) : Text → Type 0 where
  starts : (n : Node) → In n nodes → test n ≡ true → Waits nodes test n.op.id
  follows :
      (n : Node) (d : Text)
      → In n nodes
      → In d n.deps
      → Waits nodes test d
      → Waits nodes test n.op.id

module _ (nodes : List Node) where
  -- Each node that depends on a listed one is listed.
  abbrev pub IsClosed : List Text → Type 0
  IsClosed ts = (n : Node) (d : Text) → In n nodes → In d n.deps → In d ts → In n.op.id ts

  closure-Within : (ts : List Text) → Within ts (ids nodes) → Within ts (closure nodes ts)
  unfolding closure
  closure-Within ts known t i =
      let (n, j, same) = map-In (λ (y : Node). y.op.id) nodes t (known t i) in
      let listed : text_in n.op.id ts ≡ true =
        In-text_in n.op.id ts (subst (λ u. In u ts) same i) in
      subst (λ u. In u (closure nodes ts)) (sym same)
        (In-ids_if (λ y. text_in y.op.id ts || any (λ d. text_in d ts) y.deps) nodes n j
          (ground (arith, listed)))

  closure-known : (ts : List Text) → Within (closure nodes ts) (ids nodes)
  unfolding closure
  closure-known ts t i =
      let (n, j, same, _) =
        ids_if-In (λ y. text_in y.op.id ts || any (λ d. text_in d ts) y.deps) nodes t i in
      subst (λ u. In u (ids nodes)) (sym same) (In-map (λ (y : Node). y.op.id) nodes n j)

  closed : (ts : List Text) → Within (closure nodes ts) ts → IsClosed ts
  unfolding closure
  closed ts within n d i j listed = within n.op.id (
      In-ids_if (λ y. text_in y.op.id ts || any (λ u. text_in u ts) y.deps) nodes n i
        (ground (arith, In-any (λ u. text_in u ts) n.deps d j (In-text_in d ts listed))))

  everything : (ts : List Text) → missing ts nodes ≡ 0 → Within (ids nodes) ts
  everything ts none_missing t i =
      let (n, j, same) = map-In (λ (y : Node). y.op.id) nodes t i in
      elim (Bool-cases (text_in n.op.id ts)) [
        | inl e ↦ subst (λ u. In u ts) (sym same) (text_in-In n.op.id ts e)
        | inr e ↦ absurd (
            omega (
              arith,
              none_missing,
              missing-lt ts (n.op.id ∷ ts) nodes n (λ u k. inr k) j e (inl refl),
            ))
      ]

  close_rounds-IsClosed :
      (rounds : ℕ) (ts : List Text)
      → missing ts nodes ≤ rounds
      → Within ts (ids nodes)
      → IsClosed (close rounds nodes ts) × Within ts (close rounds nodes ts)
  unfolding close
  close_rounds-IsClosed zero ts small known =
      (closed ts (λ t i. everything ts (omega arith) t (closure-known ts t i)), λ t i. i)
  close_rounds-IsClosed (suc rounds) ts small known =
      elim (Bool-cases (same_ids (closure nodes ts) ts)) [
        | inl e ↦ rw e (closed ts (same_ids-Within (closure nodes ts) ts e), λ t i. i)
        | inr e ↦
            let grows = closure-Within ts known in
            let (t, i, out) = not_same (closure nodes ts) ts grows e in
            let (n, j, same) = map-In (λ (y : Node). y.op.id) nodes t (closure-known ts t i) in
            let less : missing (closure nodes ts) nodes < missing ts nodes =
              missing-lt ts (closure nodes ts) nodes n grows j
                (subst (λ u. text_in u ts ≡ false) same out)
                (subst (λ u. In u (closure nodes ts)) same i) in
            let (shut, kept) =
              close_rounds-IsClosed rounds (closure nodes ts) (omega arith) (closure-known ts) in
            rw e (shut, λ u k. kept u (grows u k))
      ]

  module _ (test : Node → Bool) where
    closure-Waits :
        (ts : List Text)
        → ((t : Text) → In t ts → Waits nodes test t)
        → (t : Text) → In t (closure nodes ts)
        → Waits nodes test t
    unfolding closure
    closure-Waits ts sound t i =
        let (n, j, same, pass) =
          ids_if-In (λ y. text_in y.op.id ts || any (λ d. text_in d ts) y.deps) nodes t i in
        subst (Waits nodes test) (sym same) (elim (Bool-cases (text_in n.op.id ts)) [
          | inl e ↦ sound n.op.id (text_in-In n.op.id ts e)
          | inr e ↦
              let (d, k, listed) = any-In (λ u. text_in u ts) n.deps (ground (arith, pass, e)) in
              follows n d j k (sound d (text_in-In d ts listed))
        ])

    close-Waits :
        (rounds : ℕ) (ts : List Text)
        → ((t : Text) → In t ts → Waits nodes test t)
        → (t : Text) → In t (close rounds nodes ts)
        → Waits nodes test t
    unfolding close
    close-Waits zero ts sound t i = sound t i
    close-Waits (suc rounds) ts sound t i = elim (Bool-cases (same_ids (closure nodes ts) ts)) [
      | inl e ↦ sound t (rw (e, close) at i)
      | inr e ↦
          close-Waits rounds (closure nodes ts) (closure-Waits ts sound) t (rw (e, close) at i)
    ]

    -- The ids that are left after as many rounds as there are nodes are those that wait.
    pub close-In :
        (t : Text) → In t (close (length nodes) nodes (ids_if test nodes)) ↔ Waits nodes test t
    close-In t = (to t, from t)
      where
        start : List Text
        start = ids_if test nodes

        started_known : Within start (ids nodes)
        started_known u i =
            let (n, j, same, _) = ids_if-In test nodes u i in
            subst (λ v. In v (ids nodes)) (sym same) (In-map (λ (y : Node). y.op.id) nodes n j)

        to : (u : Text) → In u (close (length nodes) nodes start) → Waits nodes test u
        to u i =
            close-Waits (length nodes) start
              (λ v k.
                let (n, j, same, pass) = ids_if-In test nodes v k in
                subst (Waits nodes test) (sym same) (starts n j pass))
              u i

        from : (u : Text) → Waits nodes test u → In u (close (length nodes) nodes start)
        from u (starts n i pass) =
            (close_rounds-IsClosed (length nodes) start (missing-le-length start nodes)
                started_known).1
              n.op.id (In-ids_if test nodes n i pass)
        from u (follows n d i j w) =
            (close_rounds-IsClosed (length nodes) start (missing-le-length start nodes)
                started_known).0
              n d i j (from d w)

  pub close-IsClosed :
      (test : Node → Bool) → IsClosed (close (length nodes) nodes (ids_if test nodes))
  close-IsClosed test n d i j listed =
      (close-In test n.op.id).1 (follows n d i j ((close-In test d).0 listed))
