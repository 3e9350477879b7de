-- ===== src/Version/SearchLaws.antt =====
-- What `_detect_cycle` gives: a cycle, or the migrations that it has left.
use dbwarden.Common.{
  ℕ, ◌≤◌, ◌≡◌, refl, true, false, none, some, List, [], ◌∷◌, Text, text_in, text_in-In, In-text_in,
  In, All, All-In, arith, Bool-cases, inl, inr, ◌⊎◌, sym, subst,
}
use dbwarden.Version.Search.{Pending, deps_of, is_pending, Found, check_deps}
use dbwarden.Version.Cycles.{DependsOn, Leads, step, Leads-last, IsFinished}
use dbwarden.Version.Unseen.{unseen}

module _ (pending : Pending) where
  -- The path that is reported: a dependency, and the migration that closes the cycle through it.
  abbrev pub IsCycle : List Text → Type 0
  IsCycle c =
      (d : Text) × (v : Text) × (c ≡ d ∷ v ∷ [])
      × DependsOn pending v d
      × ((d ≡ v) ⊎ Leads pending d v)

  -- All that the stack holds leads to the migration.
  abbrev pub LeadsTo : List Text → Text → Type 0
  LeadsTo stack v = All (λ x. Leads pending x v) stack

  LeadsTo-step :
      (stack : List Text) (v d : Text) → LeadsTo stack v → DependsOn pending v d → LeadsTo stack d
  LeadsTo-step [] v d h e = tt
  LeadsTo-step (x ∷ stack) v d (l, h) e = (Leads-last pending l e, LeadsTo-step stack v d h e)

  -- What a call of `_detect_cycle` promises: a cycle, or a finished migration; `done` holds those that
  -- are finished, and every visited migration is finished or on the stack.
  abbrev pub Known : List Text → List Text → List Text → Type 0
  Known visited stack done = (x : Text) → text_in x visited ≡ true → In x stack ⊎ In x done

  pub data Ends (Q : List Text → Type 0) : Found → Type 0 where
    found : (c : List Text) (visited : List Text) → IsCycle c → Ends Q (some c, visited)
    finished : (visited : List Text) → Q visited → Ends Q (none, visited)

  pub Ends-weaken :
      {Q R : List Text → Type 0} (r : Found)
      → ((visited : List Text) → Q visited → R visited)
      → Ends Q r
      → Ends R r
  Ends-weaken _ f (found c visited k) = found c visited k
  Ends-weaken _ f (finished visited q) = finished visited (f visited q)

  -- The rest of the loop behind a call.
  Ends-then :
      {Q R : List Text → Type 0} (r : Found) (rest : List Text → Found)
      → Ends Q r
      → ((visited : List Text) → Q visited → Ends R (rest visited))
      → Ends R (elim r.0 [ some c ↦ (some c, r.1) | none ↦ rest r.1 ])
  Ends-then (some c, visited) rest (found _ _ k) f = found c visited k
  Ends-then (none, visited) rest (finished _ q) f = f visited q

  -- The dependencies that are pending are finished.
  abbrev pub Covers : List Text → List Text → Type 0
  Covers deps done = (d : Text) → In d deps → is_pending d pending ≡ true → In d done

  Covers-cons :
      (d : Text) (deps done : List Text)
      → (is_pending d pending ≡ true → In d done)
      → Covers deps done
      → Covers (d ∷ deps) done
  Covers-cons d deps done h k e (inl same) p =
      subst (λ (x : Text). In x done) (sym same)
        (h (subst (λ (x : Text). is_pending x pending ≡ true) same p))
  Covers-cons d deps done h k e (inr i) p = k e i p

  -- The set `done` has grown, and everything visited is accounted for.
  abbrev pub Grown : List Text → List Text → List Text → List Text → List Text → Type 0
  Grown stack done visited visited' done' =
      Known visited' stack done'
      × IsFinished pending done'
      × ((x : Text) → In x done → In x done')
      × (unseen pending visited' ≤ unseen pending visited)

  abbrev pub CallEnds : ℕ → (Text → List Text → List Text → Found) → Type 0
  CallEnds fuel call =
      (start : Text) (visited stack done : List Text)
      → LeadsTo stack start
      → Known visited stack done
      → IsFinished pending done
      → is_pending start pending ≡ true
      → text_in start visited ≡ false
      → unseen pending visited ≤ fuel
      → Ends
          (λ visited'.
            (done' : List Text) × Grown stack done visited visited' done' × In start done')
          (call start visited stack)

  module _ (fuel : ℕ) (call : Text → List Text → List Text → Found) (ends : CallEnds fuel call)
      (start : Text) (stack : List Text) (leads : LeadsTo stack start) where
    on_stack : (d : Text) → In d (start ∷ stack) → (d ≡ start) ⊎ Leads pending d start
    on_stack d (inl same) = inl same
    on_stack d (inr i) = inr (All-In (λ x. Leads pending x start) stack d leads i)

    not_on_stack :
        (d : Text) (visited done : List Text)
        → Known visited (start ∷ stack) done
        → text_in d visited ≡ true
        → text_in d (start ∷ stack) ≡ false
        → In d done
    not_on_stack d visited done known v s = elim (known d v) [
      | inl i ↦ absurd (ground (arith, s, In-text_in d (start ∷ stack) i))
      | inr i ↦ i
    ]

    pub check_deps-Ends :
        (deps visited done : List Text)
        → ((d : Text) → In d deps → In d (deps_of start pending))
        → Known visited (start ∷ stack) done
        → IsFinished pending done
        → unseen pending visited ≤ fuel
        → Ends
            (λ visited'.
              (done' : List Text) × Grown (start ∷ stack) done visited visited' done'
              × Covers deps done')
            (check_deps pending call start (start ∷ stack) deps visited)
    unfolding check_deps
    check_deps-Ends [] visited done within known f u =
        finished visited (done, (known, f, (λ x i. i), ground arith), (λ d i. absurd i))
    check_deps-Ends (d ∷ deps) visited done within known f u =
        let next = check_deps-Ends deps in
        let depends : is_pending d pending ≡ true → DependsOn pending start d =
          λ p. (within d (inl refl), p) in
        elim (Bool-cases (is_pending d pending)) [
          | inr p ↦
              rw (p, check_deps)
                (Ends-weaken (check_deps pending call start (start ∷ stack) deps visited)
                  (λ v (done', g, t).
                    (done', g, Covers-cons d deps done' (λ q. absurd (ground (arith, p, q))) t))
                  (next visited done (λ e i. within e (inr i)) known f u))
          | inl p ↦ elim (Bool-cases (text_in d visited)) [
            | inr v ↦
                rw (p, v, check_deps)
                  (Ends-then (call d visited (start ∷ stack))
                    (λ visited'. check_deps pending call start (start ∷ stack) deps visited')
                    (ends d visited (start ∷ stack) done
                      (step start d (depends p), LeadsTo-step stack start d leads (depends p)) known
                      f p v u)
                    (λ visited1 (done1, (k1, f1, s1, u1), i1).
                      Ends-weaken (check_deps pending call start (start ∷ stack) deps visited1)
                        (λ v2 (done', (k2, f2, s2, u2), t). (
                          done',
                          (k2, f2, (λ x i. s2 x (s1 x i)), ground (arith, u1, u2)),
                          Covers-cons d deps done' (λ q. s2 d i1) t,
                        ))
                        (next visited1 done1 (λ e i. within e (inr i)) k1 f1
                          (ground (arith, u1, u)))))
            | inl v ↦ elim (Bool-cases (text_in d (start ∷ stack))) [
              | inl s ↦
                  rw (p, v, s, check_deps)
                    (found (d ∷ start ∷ []) visited
                      (d, start, refl, depends p, on_stack d (text_in-In d (start ∷ stack) s)))
              | inr s ↦
                  rw (p, v, s, check_deps)
                    (Ends-weaken (check_deps pending call start (start ∷ stack) deps visited)
                      (λ v2 (done', (k2, f2, s2, u2), t). (
                        done',
                        (k2, f2, s2, u2),
                        Covers-cons d deps done' (λ q. s2 d (not_on_stack d visited done known v s))
                            t,
                      ))
                      (next visited done (λ e i. within e (inr i)) known f u))
            ]
          ]
        ]
