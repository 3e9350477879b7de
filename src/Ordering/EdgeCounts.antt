-- ===== src/Ordering/EdgeCounts.antt =====
-- One more edge of the graph of `order_handlers`, and its counts.
use dbwarden.Common.{
  ℕ, suc, ◌≡◌, refl, true, false, List, [], ◌∷◌, ◌++◌, ◌||◌, ◌&&◌, if◌then◌else◌, Text, text_eq,
  text_in, text_eq_sound, text_eq_refl, arith, Bool-cases, inl, inr, sym, ap, ◌∙◌, subst,
}
use dbwarden.Ordering.Handlers.{Graph, add_edge}
use dbwarden.Ordering.Counts.{Distinct, total, total-last, text_in-last, same_in}
use dbwarden.Ordering.HandlerOrder.{IsGraph}

total-same :
    (w v : Text → ℕ) (done ns : List Text)
    → ((n : Text) → text_in n done ≡ false → w n ≡ v n)
    → total w done ns ≡ total v done ns
total-same w v done [] same = refl
total-same w v done (n ∷ ns) same = elim (Bool-cases (text_in n done)) [
  | inl e ↦ ground (arith, total-same w v done ns same, e)
  | inr e ↦ ground (arith, total-same w v done ns same, e, same n e)
]

-- One weight that is one more.
total-more :
    (w v : Text → ℕ) (a : Text) (ns : List Text)
    → Distinct ns
    → text_in a ns ≡ true
    → ((n : Text) → text_eq n a ≡ false → w n ≡ v n)
    → v a ≡ suc (w a)
    → total v [] ns ≡ suc (total w [] ns)
unfolding text_in
total-more w v a ns k i same more = omega (
  arith,
  total-last w [] a ns k i refl,
  total-last v [] a ns k i refl,
  total-same w v (a ∷ []) ns (λ n out. same n (ground (arith, out))),
  more,
)

abbrev pub HasEdge : Graph → Text → Text → Type 0
HasEdge g a b = text_in b (g.edges a) ≡ true

-- The graph with one more edge.
abbrev more_edges : Text → Text → Graph → Graph
more_edges a b g = record {
  edges = λ n. if text_eq n a then g.edges a ++ b ∷ [] else g.edges n;
  indegree = λ n. if text_eq n b then suc (g.indegree n) else g.indegree n;
}

add_edge-cases :
    (a b : Text) (g : Graph) (P : Graph → Type 0)
    → (HasEdge g a b → P g)
    → (text_in b (g.edges a) ≡ false → P (more_edges a b g))
    → P (add_edge a b g)
unfolding add_edge
add_edge-cases a b g P there new = elim (Bool-cases (text_in b (g.edges a))) [
  | inl e ↦ rw e (there e)
  | inr e ↦ rw e (new e)
]

pub add_edge-HasEdge : (a b : Text) (g : Graph) → HasEdge (add_edge a b g) a b
add_edge-HasEdge a b g =
    add_edge-cases a b g (λ h. HasEdge h a b) (λ e. e)
      (λ e. rw (text_eq_refl a) (text_in-last b (g.edges a) b ∙ ground (arith, text_eq_refl b)))

more_edges-keeps :
    (a b : Text) (g : Graph) (c d : Text) → HasEdge g c d → HasEdge (more_edges a b g) c d
more_edges-keeps a b g c d h = elim (Bool-cases (text_eq c a)) [
  | inr e ↦ rw e h
  | inl e ↦
      let old : text_in d (g.edges a) ≡ true =
        subst (λ n. text_in d (g.edges n) ≡ true) (text_eq_sound c a e) h in
      rw e (text_in-last d (g.edges a) b ∙ ground (arith, old))
]

pub add_edge-keeps :
    (a b : Text) (g : Graph) (c d : Text) → HasEdge g c d → HasEdge (add_edge a b g) c d
add_edge-keeps a b g c d h =
    add_edge-cases a b g (λ x. HasEdge x c d) (λ e. h) (λ e. more_edges-keeps a b g c d h)

more_edges-In :
    (a b : Text) (g : Graph) (c n : Text)
    → text_in c ((more_edges a b g).edges n) ≡ (text_in c (g.edges n) || text_eq n a && text_eq c b)
more_edges-In a b g c n = elim (Bool-cases (text_eq n a)) [
  | inr e ↦ rw e (ground arith)
  | inl e ↦
      let same : text_in c (g.edges n) ≡ text_in c (g.edges a) =
        ap (λ m. text_in c (g.edges m)) (text_eq_sound n a e) in
      rw e (text_in-last c (g.edges a) b ∙ ground (arith, same))
]

pub add_edge-IsGraph :
    (ns : List Text) (a b : Text) (g : Graph)
    → Distinct ns
    → text_in a ns ≡ true
    → IsGraph ns g
    → IsGraph ns (add_edge a b g)
add_edge-IsGraph ns a b g k i h =
    add_edge-cases a b g (IsGraph ns) (λ e. h)
      (λ new c j. elim (Bool-cases (text_eq c b)) [
        | inr e ↦ rw e (
            h c j
            ∙ total-same (λ n. if text_in c (g.edges n) then 1 else 0)
                (λ n. if text_in c ((more_edges a b g).edges n) then 1 else 0) [] ns
                (λ n out. ground (arith, more_edges-In a b g c n, e)))
        | inl e ↦
            let absent : text_in c (g.edges a) ≡ false = same_in c b (g.edges a) e ∙ new in
            rw e (
              ap suc (h c j)
              ∙ sym (
                  total-more (λ n. if text_in c (g.edges n) then 1 else 0)
                    (λ n. if text_in c ((more_edges a b g).edges n) then 1 else 0) a ns k i
                    (λ n other. ground (arith, more_edges-In a b g c n, other))
                    (ground (arith, more_edges-In a b g c a, e, absent, text_eq_refl a))))
      ])
