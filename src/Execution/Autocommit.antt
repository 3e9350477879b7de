-- ===== src/Execution/Autocommit.antt =====
-- How the loop over the autocommit statements ends.
use dbwarden.Common.{
  ◌≡◌, refl, Option, List, [], ◌∷◌, ◌++◌, map, Text, sym, ap, ◌∙◌, append_assoc, append-nil,
}
use dbwarden.Execution.Calls.{Effect, statement, Call, autocommit, Raised, call, for_each}
use dbwarden.Execution.Rules.{Ends, call-Ends, for_each-Ends}
use dbwarden.Execution.Durable.{Database, after}
use dbwarden.Execution.Steps.{Has, performed}

map-last :
    (ts : List Text) (t : Text)
    → map statement (ts ++ t ∷ []) ≡ map statement ts ++ statement t ∷ []
map-last [] t = refl
map-last (u ∷ ts) t = ap (λ (x : List Effect). statement u ∷ x) (map-last ts t)

module _ (raises : List Call → Call → Option Raised) (db : Database) (first : List Effect)
    (autos : List Text) where
  -- The statements in front of those that are left are durable.
  abbrev pub Behind : List Text → List Call → Type 0
  Behind rest calls =
      (front : List Text) × (front ++ rest ≡ autos) × Has db (first ++ map statement front) [] calls

  abbrev pub Partly : Raised → List Call → Type 0
  Partly e calls =
      (front : List Text) × (rest : List Text) × (front ++ rest ≡ autos)
      × ((after db calls).durable ≡ first ++ map statement front)

  autocommit-Ends :
      (t : Text) (ts : List Text) (calls : List Call)
      → Behind (t ∷ ts) calls
      → Ends (Behind ts) Partly (call raises (autocommit t) calls)
  autocommit-Ends t ts calls (front, same, (h, k)) =
      call-Ends raises (autocommit t) calls
        (
          front ++ t ∷ [],
          append_assoc front (t ∷ []) ts ∙ same,
          performed db calls (autocommit t) (first ++ map statement (front ++ t ∷ [])) []
              (ap (λ (x : List Effect). x ++ statement t ∷ []) h
                ∙ append_assoc first (map statement front) (statement t ∷ [])
                ∙ ap (λ (x : List Effect). first ++ x) (sym (map-last front t)))
              k,
        )
        (λ e. (front, t ∷ ts, same, h))

  pub loop-Ends :
      (calls : List Call)
      → Has db first [] calls
      → Ends (Behind []) Partly (for_each (λ n s. call raises (autocommit s)) 0 autos calls)
  loop-Ends calls (h, k) =
      for_each-Ends Behind (λ n s. call raises (autocommit s))
        (λ n t ts l i. autocommit-Ends t ts l i) 0 autos calls
        ([], refl, (h ∙ sym (append-nil first), k))
