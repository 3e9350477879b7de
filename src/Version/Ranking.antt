-- ===== src/Version/Ranking.antt =====
-- `resolve_migration_order` returns an order where the dependencies can be ranked.
use mathlib.Core.List.Perm
use mathlib.Core.List.{
  Perm, Mem, mem-append, mem-append_right, mem-cast, mem-map_of_mem, exists_of_mem-map,
  mem-cons_self, mem-cons_of_mem, not-mem-nil, mem-cons,
}
use mathlib.Core.Logic.Or
use mathlib.Core.Logic.{∥∥₁_elim}
use mathlib.Core.HLevel.{×_prop}
use native.Mathlib.Bridge.{le_prop}
use mathlib.Core.Bool.{false≢true}
use dbwarden.Common.{
  ℕ, zero, suc, ◌*◌, ◌<◌, ◌≡◌, refl, true, false, List, [], ◌∷◌, ◌++◌, ◌||◌, Text, text_in, all,
  length, arith, All, Bool-cases, inl, inr, sym, ◌∙◌, ap, subst, ok, text_eq_sound, text_eq_iff,
  text_eq,
}
use dbwarden.Version.Resolve.{
  Migration, versions, pending_of, deps_met, finish, resolve_migration_order,
}
use dbwarden.Version.ResolveLaws.{passes-final, passes-perm}
use dbwarden.Version.Order.{loop}

text_in→Mem : (t : Text) (ts : List Text) → text_in t ts ≡ true → Mem t ts
unfolding text_in
text_in→Mem t [] h = cc
text_in→Mem t (x ∷ ts) h = elim (Bool-cases (text_eq t x)) [
  | inl e ↦ mem-cons.1 (Or.inl (text_eq_sound t x e))
  | inr e ↦ mem-cons_of_mem x (text_in→Mem t ts (ground arith))
]

Mem→text_in : (t : Text) (ts : List Text) → Mem t ts → text_in t ts ≡ true
unfolding text_in
Mem→text_in t [] h = absurd (not-mem-nil h)
Mem→text_in t (x ∷ ts) h =
    Or.elim (hlevel) (mem-cons.0 h) (λ e. ground (arith, text_eq_iff t x, e))
      (λ m. ground (arith, Mem→text_in t ts m))

All-Mem :
    {A : Type 0} (P : A → Type 0) (xs : List A) → All P xs → (x : A) → Mem x xs → IsProp (P x) → P x
All-Mem P [] h x i prop = absurd (not-mem-nil i)
All-Mem P (y ∷ xs) h x i prop =
    Or.elim prop (mem-cons.0 i) (λ e. subst P (sym e) h.0) (λ i'. All-Mem P xs h.1 x i' prop)

All-IsProp :
    {A : Type 0} (P : A → Type 0) (xs : List A) → ((x : A) → IsProp (P x)) → IsProp (All P xs)
All-IsProp P [] h = hlevel
All-IsProp P (x ∷ xs) h = ×_prop (h x) (All-IsProp P xs h)

module _ (applied : List Text) where
  -- `d` is applied, or a pending migration of a lower rank than the version `v`.
  abbrev pub IsBelow : (Text → ℕ) → List Migration → Text → Text → Type 0
  IsBelow rank pending v d =
      text_in d applied ≡ false → (text_in d (versions pending) ≡ true) × (rank d < rank v)

  -- `rank` puts each dependency that is not applied below its migration, and it is pending.
  abbrev pub IsRanked : (Text → ℕ) → List Migration → Type 0
  IsRanked rank pending = All (λ m. All (IsBelow rank pending m.version) m.depends_on) pending

  deps_met-true :
      (resolved : List Migration) (m : Migration)
      → ((d : Text)
          → Mem d m.depends_on
          → (text_in d applied || text_in d (versions resolved)) ≡ true)
      → deps_met applied resolved m ≡ true
  unfolding deps_met
  deps_met-true resolved m h = go m.depends_on h
    where
      go :
          (ds : List Text)
          → ((d : Text) → Mem d ds → (text_in d applied || text_in d (versions resolved)) ≡ true)
          → all (λ d. text_in d applied || text_in d (versions resolved)) ds ≡ true
      go [] h = refl
      go (d ∷ ds) h = rw (h d mem-cons_self) (go ds (λ d' m'. h d' (mem-cons_of_mem d m')))

  module _ (rank : Text → ℕ) (pending resolved rest : List Migration)
      (ranked : IsRanked rank pending) (same : Perm (resolved ++ rest) pending)
      (stuck : All (λ m. deps_met applied resolved m ≡ false) rest) where
    not_stuck : (m : Migration) → Mem m rest → deps_met applied resolved m ≡ false
    not_stuck m i = All-Mem (λ u. deps_met applied resolved u ≡ false) rest stuck m i (hlevel)

    descent : (n : ℕ) (m : Migration) → Mem m rest → ¬ (rank m.version < n)
    descent zero m i below = omega arith
    descent (suc n) m i small = false≢true (
        sym (not_stuck m i)
        ∙ deps_met-true resolved m λ d dep. met (λ u i'. descent n u i') d (below d dep))
      where
        listed : (u : Migration) → Mem u rest → Mem u pending
        listed u i' = Perm.subset same u (mem-append_right resolved i')

        below : (d : Text) → Mem d m.depends_on → IsBelow rank pending m.version d
        below d dep =
            All-Mem (IsBelow rank pending m.version) m.depends_on
              (All-Mem (λ u. All (IsBelow rank pending u.version) u.depends_on) pending ranked m
                (listed m i)
                (All-IsProp (IsBelow rank pending m.version) m.depends_on (λ x. hlevel le_prop)))
              d dep (hlevel le_prop)

        by_version :
            (d : Text) (u : Migration)
            → u.version ≡ d
            → Mem u resolved
            → (text_in d applied || text_in d (versions resolved)) ≡ true
        by_version d u named now =
            let i' : Mem d (versions resolved) =
              mem-cast (sym named) (mem-map_of_mem (λ (v : Migration). v.version) now) in
            ground (arith, Mem→text_in d (versions resolved) i')

        placed :
            ((u : Migration) → Mem u rest → ¬ (rank u.version < n))
            → (d : Text) (u : Migration) → u.version ≡ d
            → rank d < rank m.version
            → Mem u (resolved ++ rest)
            → (text_in d applied || text_in d (versions resolved)) ≡ true
        placed lower d u named less i' =
            Or.elim (hlevel) (mem-append.0 i') (λ now. by_version d u named now)
              (λ waits. absurd (lower u waits (omega (arith, ap rank named))))

        met :
            ((u : Migration) → Mem u rest → ¬ (rank u.version < n))
            → (d : Text) → IsBelow rank pending m.version d
            → (text_in d applied || text_in d (versions resolved)) ≡ true
        met lower d placed_below = elim (Bool-cases (text_in d applied)) [
          | inl a ↦ ground arith
          | inr a ↦
              let (p, less) = placed_below a in
              ∥∥₁_elim (exists_of_mem-map (text_in→Mem d (versions pending) p)) (hlevel)
                λ (u, listed_u, named).
                  placed lower d u named less (Perm.subset (Perm.symm same) u listed_u)
        ]

    none_left : rest ≡ []
    none_left = go rest descent
      where
        go :
            (ms : List Migration)
            → ((n : ℕ) (m : Migration) → Mem m ms → ¬ (rank m.version < n))
            → ms ≡ []
        go [] h = refl
        go (m ∷ ms) h = absurd (h (suc (rank m.version)) m mem-cons_self (omega arith))

-- Where some ranking puts each dependency that is not applied at a pending migration of lower rank,
-- `resolve_migration_order` returns an order: twice as many passes as pending migrations suffice.
pub resolve_migration_order-total :
    (rank : Text → ℕ) (all_migrations : List Migration) (applied : List Text)
    → IsRanked applied rank (pending_of applied all_migrations)
    → (order : List Migration) × (resolve_migration_order all_migrations applied ≡ ok order)
unfolding resolve_migration_order finish
resolve_migration_order-total rank ms applied ranked =
    let pending = pending_of applied ms in
    let (resolved, rest) = loop ms applied in
    let done : rest ≡ [] =
      none_left applied rank pending resolved rest ranked
        (passes-perm applied (length pending * 2) [] pending)
        (passes-final applied (length pending * 2) [] pending (omega arith)) in
    (resolved, ap (λ l. finish (resolved, l)) done)
