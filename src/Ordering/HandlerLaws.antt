-- ===== src/Ordering/HandlerLaws.antt =====
-- What the loop of `order_handlers` keeps.
use dbwarden.Common.{
  ℕ, ◌+◌, ◌-◌, ◌≡◌, refl, true, false, List, [], ◌∷◌, ◌++◌, ◌||◌, ◌&&◌, ◌==◌, if◌then◌else◌, Text,
  text_eq, text_in, text_eq_sound, text_eq_refl, length, arith, Bool-cases, inl, inr, sym, ap, ◌∙◌,
  subst, append_assoc, append-nil, length-append,
}
use dbwarden.Ordering.Handlers.{Handler, push, names_if, Queue, release}
use dbwarden.Ordering.Counts.{Distinct, total, text_in-last, total-last, total-zero, same_in}
use dbwarden.Ordering.Ready.{text_in-push, push-Distinct, text_in-names_if, names_if-Distinct}

module _ (hs : List Handler) (ns : List Text) (edges : Text → List Text) where
  abbrev pub edge : Text → Text → ℕ
  edge b a = if text_in b (edges a) then 1 else 0

  -- The counts are the edges from names that are not placed, with one more for each of `waiting`.
  abbrev pub IsCounted : List Text → List Text → Queue → Type 0
  IsCounted placed waiting q =
      (b : Text)
      → text_in b ns ≡ true
      → q.count b ≡ total (edge b) placed ns + (if text_in b waiting then 1 else 0)

  -- The names that are placed or wait in the heap are those without a count.
  abbrev pub IsQueued : List Text → Queue → Type 0
  IsQueued placed q =
      ((b : Text)
        → text_in b ns ≡ true
        → (text_in b placed || text_in b q.ready) ≡ (q.count b == 0))
      × (Distinct q.ready
          × ((b : Text)
              → text_in b q.ready ≡ true
              → (text_in b ns ≡ true) × (text_in b placed ≡ false)))

  -- One edge less.
  abbrev next : Text → Queue → Queue
  next d q = record {
    count = λ n. if text_eq n d then q.count n - 1 else q.count n;
    ready = if q.count d - 1 == 0 then push hs d q.ready else q.ready;
  }

  next-ready :
      (b d : Text) (q : Queue)
      → text_in b (next d q).ready ≡ ((q.count d - 1 == 0) && text_eq b d || text_in b q.ready)
  next-ready b d q = elim (Bool-cases (q.count d - 1 == 0)) [
    | inl e ↦ rw e (text_in-push hs b d q.ready)
    | inr e ↦ rw e refl
  ]

  module _ (placed : List Text) (d : Text) (ds : List Text) (q : Queue) where
    next-IsCounted :
        text_in d ds ≡ false → IsCounted placed (d ∷ ds) q → IsCounted placed ds (next d q)
    unfolding text_in
    next-IsCounted apart counted b i = elim (Bool-cases (text_eq b d)) [
      | inl e ↦
          let gone : text_in b ds ≡ false = same_in b d ds e ∙ apart in
          ground (arith, counted b i, e, gone)
      | inr e ↦ ground (arith, counted b i, e)
    ]

    next-IsQueued :
        text_in d ns ≡ true
        → IsCounted placed (d ∷ ds) q
        → IsQueued placed q
        → IsQueued placed (next d q)
    unfolding text_in
    next-IsQueued i counted (queued, (distinct, known)) =
        let some_left : (q.count d == 0) ≡ false = ground (arith, counted d i, text_eq_refl d) in
        let unplaced : text_in d placed ≡ false = ground (arith, queued d i, some_left) in
        let unready : text_in d q.ready ≡ false = ground (arith, queued d i, some_left) in
        (
          λ b j. elim (Bool-cases (text_eq b d)) [
            | inl e ↦
                let same : q.count b ≡ q.count d = ap q.count (text_eq_sound b d e) in
                ground (arith, queued b j, next-ready b d q, e, same, some_left)
            | inr e ↦ ground (arith, queued b j, next-ready b d q, e)
          ],
          (
            elim (Bool-cases (q.count d - 1 == 0)) [
              | inl e ↦ rw e (push-Distinct hs d q.ready unready distinct)
              | inr e ↦ rw e distinct
            ],
            λ b j. elim (Bool-cases (text_eq b d)) [
              | inl e ↦ (same_in b d ns e ∙ i, same_in b d placed e ∙ unplaced)
              | inr e ↦
                  let before : text_in b q.ready ≡ true = ground (arith, j, next-ready b d q, e) in
                  known b before
            ],
          ),
        )

  release-IsQueued :
      (placed ds : List Text) (q : Queue)
      → Distinct ds
      → ((b : Text) → text_in b ds ≡ true → text_in b ns ≡ true)
      → IsCounted placed ds q
      → IsQueued placed q
      → IsCounted placed [] (release hs ds q) × IsQueued placed (release hs ds q)
  unfolding release text_in
  release-IsQueued placed [] q k inside counted queued = (counted, queued)
  release-IsQueued placed (d ∷ ds) q (apart, k) inside counted queued =
      release-IsQueued placed ds (next d q) k (λ b j. inside b (ground (arith, j)))
        (next-IsCounted placed d ds q apart counted)
        (next-IsQueued placed d ds q (inside d (ground (arith, text_eq_refl d))) counted queued)

  -- Each name stands behind the names with an edge to it.
  abbrev pub Follows : List Text → List Text → Type 0
  Follows seen [] = Unit
  Follows seen (x ∷ xs) =
      ((a : Text) → text_in a ns ≡ true → text_in x (edges a) ≡ true → text_in a seen ≡ true)
      × Follows (seen ++ x ∷ []) xs

  Follows-last :
      (seen xs : List Text) (x : Text)
      → Follows seen xs
      → ((a : Text)
          → text_in a ns ≡ true
          → text_in x (edges a) ≡ true
          → text_in a (seen ++ xs) ≡ true)
      → Follows seen (xs ++ x ∷ [])
  Follows-last seen [] x h last =
      (λ a i e. subst (λ (s : List Text). text_in a s ≡ true) (append-nil seen) (last a i e), tt)
  Follows-last seen (y ∷ xs) x (h, hs') last = (
    h,
    Follows-last (seen ++ y ∷ []) xs x hs' (λ a i e.
        subst (λ (s : List Text). text_in a s ≡ true) (sym (append_assoc seen (y ∷ []) xs))
          (last a i e)),
  )

  -- What the loop keeps of the names that are placed.
  abbrev pub IsPlaced : List Text → Queue → Type 0
  IsPlaced placed q =
      IsCounted placed [] q
      × (IsQueued placed q
          × (Follows [] placed × (length placed + total (λ a. 1) placed ns ≡ length ns)))

  edge-some : (b a : Text) → text_in b (edges a) ≡ true → edge b a ≡ 0 → ⊥
  edge-some b a h z = ground (arith, h, z)

  pub pop-IsPlaced :
      (placed : List Text) (x : Text) (rest : List Text) (q : Queue)
      → Distinct ns
      → q.ready ≡ x ∷ rest
      → IsPlaced placed q
      → IsPlaced
          (placed ++ x ∷ [])
          (release hs (names_if (λ n. text_in n (edges x)) ns) (record q { ready = rest }))
  unfolding text_in
  pop-IsPlaced placed x rest q k e (counted, ((queued, (distinct, known)), (follows, size))) =
      let waits : (b : Text) → text_in b q.ready ≡ (text_eq b x || text_in b rest) =
        λ b. ap (λ (r : List Text). text_in b r) e in
      let first : text_in x q.ready ≡ true = ground (arith, waits x, text_eq_refl x) in
      let (inside, out) = known x first in
      let free : q.count x ≡ 0 = ground (arith, queued x inside, first) in
      let (apart, others) = subst Distinct e distinct in
      let (counted', queued') =
        release-IsQueued (placed ++ x ∷ []) (names_if (λ n. text_in n (edges x)) ns)
          (record q { ready = rest }) (names_if-Distinct (λ n. text_in n (edges x)) ns k)
          (λ b j. ground (arith, j, text_in-names_if (λ n. text_in n (edges x)) b ns))
          (λ b i. ground (
            arith,
            counted b i,
            total-last (edge b) placed x ns k inside out,
            text_in-names_if (λ n. text_in n (edges x)) b ns,
            i,
          ))
          (
            λ b i. ground (arith, text_in-last b placed x, waits b, queued b i),
            (
              others,
              λ b j.
                  let (inside_b, out_b) = known b (ground (arith, waits b, j)) in
                  (
                    inside_b,
                    elim (Bool-cases (text_eq b x)) [
                      | inl f ↦ absurd (ground (arith, j, apart, same_in b x rest f))
                      | inr f ↦ ground (arith, text_in-last b placed x, out_b, f)
                    ],
                  ),
            ),
          ) in
      (
        counted',
        (
          queued',
          (
            Follows-last [] placed x follows (λ a i f.
                total-zero (edge x) placed ns a (omega (arith, counted x inside, free)) i
                  (λ weight. edge-some x a f weight)),
            omega (
              arith,
              size,
              length-append placed (x ∷ []),
              total-last (λ a. 1) placed x ns k inside out,
            ),
          ),
        ),
      )
