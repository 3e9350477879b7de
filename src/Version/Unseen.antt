-- ===== src/Version/Unseen.antt =====
-- How many pending migrations the search has not visited.
use dbwarden.Common.{
  ℕ, suc, ◌≤◌, ◌≡◌, true, false, List, [], ◌∷◌, Text, text_eq, text_in, text_eq_iff, length,
  if◌then◌else◌, arith, Bool-cases, inl, inr,
}
use dbwarden.Version.Search.{Pending, is_pending}

unfoldable pub unseen : Pending → List Text → ℕ
unseen [] visited = 0
unseen ((v, deps) ∷ rest) visited =
    let more = unseen rest visited in if text_in v visited then more else suc more

pub unseen-le_length : (p : Pending) (visited : List Text) → unseen p visited ≤ length p
unfolding unseen
unseen-le_length [] visited = omega arith
unseen-le_length ((v, deps) ∷ rest) visited = ground (arith, unseen-le_length rest visited)

pub unseen-le :
    (p : Pending) (w : Text) (visited : List Text) → unseen p (w ∷ visited) ≤ unseen p visited
unfolding unseen text_in
unseen-le [] w visited = omega arith
unseen-le ((v, deps) ∷ rest) w visited = ground (arith, unseen-le rest w visited)

pub unseen-lt :
    (p : Pending) (w : Text) (visited : List Text)
    → is_pending w p ≡ true
    → text_in w visited ≡ false
    → suc (unseen p (w ∷ visited)) ≤ unseen p visited
unfolding unseen text_in is_pending
unseen-lt [] w visited h k = ground (arith, h)
unseen-lt ((v, deps) ∷ rest) w visited h k = elim (Bool-cases (text_eq w v)) [
  | inl e ↦ ground (arith, h, k, e, unseen-le rest w visited, text_eq_iff w v, text_eq_iff v w)
  | inr e ↦ ground (arith, h, k, e, unseen-lt rest w visited, text_eq_iff w v, text_eq_iff v w)
]
