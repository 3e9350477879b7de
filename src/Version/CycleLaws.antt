-- ===== src/Version/CycleLaws.antt =====
-- The search for cycles in `validate_dependencies` finds one if there is one.
use dbwarden.Common.{
  ℕ, zero, suc, ◌≡◌, ◌↔◌, refl, Bool, true, false, none, some, List, [], ◌∷◌, Text, text_eq,
  text_in, text_eq_sound, text_eq_refl, In, length, if◌then◌else◌, arith, Bool-cases, inl, inr, ◌⊎◌,
  sym, subst,
}
use dbwarden.Version.Resolve.{Migration}
use dbwarden.Version.Validate.{DependencyError}
use dbwarden.Version.Search.{
  Pending, deps_of, is_pending, pending_deps, Found, check_deps, detect_cycle, circular_error,
  search, cycle_errors,
}
use dbwarden.Version.Cycles.{
  DependsOn, Leads, step, Leads-last, Leads-pending, IsFinished, IsFinished-acyclic,
}
use dbwarden.Version.Unseen.{unseen-lt, unseen-le_length}
use dbwarden.Version.SearchLaws.{
  IsCycle, Known, Ends, found, finished, Grown, CallEnds, Ends-weaken, check_deps-Ends,
}

module _ (pending : Pending) where
  detect_cycle-Ends : (fuel : ℕ) → CallEnds pending fuel (detect_cycle pending fuel)
  unfolding detect_cycle text_in
  detect_cycle-Ends zero start visited stack done leads known f p v u =
      absurd (ground (arith, u, unseen-lt pending start visited p v))
  detect_cycle-Ends (suc fuel) start visited stack done leads known f p v u =
      let less = unseen-lt pending start visited p v in
      Ends-weaken pending
        (check_deps pending (detect_cycle pending fuel) start (start ∷ stack)
          (deps_of start pending) (start ∷ visited))
        (λ v' (done', (k', f', s', u'), t). (
          start ∷ done',
          (
            leave v' done' k',
            ((λ d e. t d e.0 e.1), f'),
            (λ x i. inr (s' x i)),
            ground (arith, u', less),
          ),
          inl refl,
        ))
        (check_deps-Ends pending fuel (detect_cycle pending fuel) (detect_cycle-Ends fuel) start
          stack leads (deps_of start pending) (start ∷ visited) done (λ d i. i) entering f
          (ground (arith, less, u)))
    where
      entering : Known pending (start ∷ visited) (start ∷ stack) done
      entering x i = elim (Bool-cases (text_eq x start)) [
        | inl e ↦ inl (inl (text_eq_sound x start e))
        | inr e ↦ elim (known x (ground (arith, i, e))) [ inl j ↦ inl (inr j) | inr j ↦ inr j ]
      ]

      leave :
          (v' done' : List Text)
          → Known pending v' (start ∷ stack) done'
          → Known pending v' stack (start ∷ done')
      leave v' done' k x i = elim (k x i) [
        | inl (inl same) ↦ inr (inl same)
        | inl (inr j) ↦ inl j
        | inr j ↦ inr (inr j)
      ]

  -- What the loop over the pending versions gives: an error for a cycle, or none and all are finished.
  abbrev Searched : Pending → List Text → List Text → List DependencyError → Type 0
  Searched p visited done errors =
      ((c : List Text) × IsCycle pending c × In (circular_error pending c) errors)
      ⊎ ((errors ≡ [])
          × ((done' : List Text) × IsFinished pending done'
              × ((x : Text) → In x done → In x done')
              × ((x : Text) → is_pending x p ≡ true → In x done')))

  search-Searched :
      (p : Pending) (visited done : List Text)
      → ((x : Text) → is_pending x p ≡ true → is_pending x pending ≡ true)
      → Known pending visited [] done
      → IsFinished pending done
      → Searched p visited done (search pending p visited)
  unfolding search is_pending
  search-Searched [] visited done within known f =
      inr (refl, (done, f, (λ x i. i), (λ x h. absurd (ground (arith, h)))))
  search-Searched ((v, deps) ∷ rest) visited done within known f =
      let here : is_pending v pending ≡ true = within v (rw (text_eq_refl v) refl) in
      let inside : (x : Text) → is_pending x rest ≡ true → is_pending x pending ≡ true =
        λ x h. within x (later (text_eq x v) h) in
      elim (Bool-cases (text_in v visited)) [
        | inl e ↦
            rw (e, search)
              (keep done (search pending rest visited) (from_known v visited done known e)
                (λ x i. i) (search-Searched rest visited done inside known f))
        | inr e ↦
            rw (e, search)
              (behind_call (detect_cycle pending (length pending) v visited [])
                (detect_cycle-Ends (length pending) v visited [] done tt known f here e
                  (unseen-le_length pending visited))
                (λ visited' done' k' f'. search-Searched rest visited' done' inside k' f'))
      ]
    where
      later : {h : Bool} (b : Bool) → h ≡ true → (if b then true else h) ≡ true
      later true e = refl
      later false e = e

      from_known :
          (w : Text) (seen done1 : List Text)
          → Known pending seen [] done1
          → text_in w seen ≡ true
          → In w done1
      from_known w seen done1 k e = elim (k w e) [ inl i ↦ absurd i | inr i ↦ i ]

      all_of :
          (done' : List Text)
          → In v done'
          → ((x : Text) → is_pending x rest ≡ true → In x done')
          → (x : Text) → (if text_eq x v then true else is_pending x rest) ≡ true
          → In x done'
      all_of done' i h x e = elim (Bool-cases (text_eq x v)) [
        | inl q ↦ subst (λ (y : Text). In y done') (sym (text_eq_sound x v q)) i
        | inr q ↦ h x (ground (arith, e, q))
      ]

      keep :
          (done1 : List Text) (errors : List DependencyError)
          → In v done1
          → ((x : Text) → In x done → In x done1)
          → Searched rest visited done1 errors
          → Searched ((v, deps) ∷ rest) visited done errors
      keep done1 errors i s (inl r) = inl r
      keep done1 errors i s (inr (none_found, (done', f', s', t'))) =
          inr (none_found, (done', f', (λ x j. s' x (s x j)), all_of done' (s' v i) t'))

      behind_call :
          (r : Found)
          → Ends pending
              (λ visited'.
                (done' : List Text) × Grown pending [] done visited visited' done' × In v done')
              r
          → ((visited' done' : List Text)
              → Known pending visited' [] done'
              → IsFinished pending done'
              → Searched rest visited' done' (search pending rest visited'))
          → Searched ((v, deps) ∷ rest) visited done (elim r.0 [
            | some c ↦ circular_error pending c ∷ search pending rest r.1
            | none ↦ search pending rest r.1
          ])
      behind_call (some c, visited') (found _ _ k) next = inl (c, k, inl refl)
      behind_call (none, visited') (finished _ (done', (k', f', s', u'), i')) next =
          keep done' (search pending rest visited') i' s' (next visited' done' k' f')

  IsCycle-Leads : (c : List Text) → IsCycle pending c → (v : Text) × Leads pending v v
  IsCycle-Leads c (d, v, same, e, inl q) =
      (v, step v v (subst (λ (x : Text). DependsOn pending v x) q e))
  IsCycle-Leads c (d, v, same, e, inr l) = (d, Leads-last pending l e)

-- Without an error every pending migration is finished.
pub cycle_errors-IsFinished :
    (applied : List Text) (all_migrations : List Migration)
    → cycle_errors applied all_migrations ≡ []
    → (done : List Text) × IsFinished (pending_deps applied all_migrations) done
      × ((x : Text) → is_pending x (pending_deps applied all_migrations) ≡ true → In x done)
unfolding cycle_errors text_in
cycle_errors-IsFinished applied all_migrations h =
    let pending = pending_deps applied all_migrations in
    elim (search-Searched pending pending [] [] (λ x i. i) (λ x i. absurd (ground (arith, i))) tt) [
      | inl (c, k, i) ↦
          absurd (subst (λ (es : List DependencyError). In (circular_error pending c) es) h i)
      | inr (e, (done, f, s, t)) ↦ (done, f, t)
    ]

-- Check 4 reports nothing exactly when no pending migration leads back to itself along the pending
-- migrations that it depends on, directly or through others.
pub cycle_errors_iff :
    (applied : List Text) (all_migrations : List Migration)
    → (cycle_errors applied all_migrations ≡ [])
      ↔ ((v : Text) → ¬ Leads (pending_deps applied all_migrations) v v)
unfolding cycle_errors text_in
cycle_errors_iff applied all_migrations = (forward, backward)
  where
    pending : Pending
    pending = pending_deps applied all_migrations

    searched : Searched pending pending [] [] (search pending pending [])
    searched =
        search-Searched pending pending [] [] (λ x h. h) (λ x h. absurd (ground (arith, h))) tt

    forward : search pending pending [] ≡ [] → (v : Text) → Leads pending v v → ⊥
    forward h v l = elim searched [
      | inl (c, k, i) ↦
          absurd (subst (λ (es : List DependencyError). In (circular_error pending c) es) h i)
      | inr (e, (done, f, s, t)) ↦
          IsFinished-acyclic pending done v f (t v (Leads-pending pending l)) l
    ]

    backward : ((v : Text) → Leads pending v v → ⊥) → search pending pending [] ≡ []
    backward h = elim searched [
      | inl (c, k, i) ↦ let (v, l) = IsCycle-Leads pending c k in absurd (h v l)
      | inr (e, d) ↦ e
    ]
