-- ===== src/Common/Strings.antt =====
-- Python's methods on strings, for texts.
use Prim.Native.Nat.{ℕ}
use dbwarden.Common.Tests.{◌==◌, leb, if◌then◌else◌}
use dbwarden.Common.Texts.{Text, text_eq}
use mathlib.Core.Bool.{Bool, true, false, ◌&&◌, ◌||◌}
use mathlib.Core.Option.{Option, none, some}
use mathlib.Core.List.{List, [], ◌∷◌}

-- `s.startswith(p)`
unfoldable pub has_prefix : Text → Text → Bool
has_prefix [] s = true
has_prefix (c ∷ p) [] = false
has_prefix (c ∷ p) (d ∷ s) = c == d && has_prefix p s

-- `p in s`
unfoldable pub contains : Text → Text → Bool
contains p [] = has_prefix p []
contains p (d ∷ s) = has_prefix p (d ∷ s) || contains p s

-- The text behind the prefix, if it is there.
unfoldable pub behind_prefix : Text → Text → Option Text
behind_prefix [] s = some s
behind_prefix (c ∷ p) [] = none
behind_prefix (c ∷ p) (d ∷ s) = let rest = behind_prefix p s in if c == d then rest else none

-- `s.removeprefix(p)`
unfoldable pub remove_prefix : Text → Text → Text
remove_prefix p s = elim (behind_prefix p s) [ none ↦ s | some rest ↦ rest ]

-- The text before the last `c`, if there is one.
unfoldable pub before_last : ℕ → Text → Option Text
before_last c [] = none
before_last c (d ∷ s) = elim (before_last c s) [
  | some front ↦ some (d ∷ front)
  | none ↦ if c == d then some [] else none
]

-- `s.rsplit(c, 1)[0]`
unfoldable pub rsplit_front : ℕ → Text → Text
rsplit_front c s = elim (before_last c s) [ none ↦ s | some front ↦ front ]

-- Equality of lists of texts.
unfoldable pub texts_eq : List Text → List Text → Bool
texts_eq [] [] = true
texts_eq (s ∷ ss) (t ∷ ts) = text_eq s t && texts_eq ss ts
texts_eq [] (t ∷ ts) = false
texts_eq (s ∷ ss) [] = false

-- `c.isspace()` for a code point
unfoldable pub is_space : ℕ → Bool
is_space c =
    leb 9 c && leb c 13
    || leb 28 c && leb c 32
    || c == 133
    || c == 160
    || c == 5760
    || leb 8192 c && leb c 8202
    || c == 8232
    || c == 8233
    || c == 8239
    || c == 8287
    || c == 12288

-- `s.lstrip()`
unfoldable pub strip_left : Text → Text
unfolding is_space
strip_left [] = []
strip_left (c ∷ s) = let rest = strip_left s in if is_space c then rest else c ∷ s

-- `s.rstrip()`
unfoldable pub strip_right : Text → Text
unfolding is_space
strip_right [] = []
strip_right (c ∷ s) = elim (strip_right s) [
  | [] ↦ if is_space c then [] else c ∷ []
  | d ∷ t ↦ c ∷ d ∷ t
]

-- `s.strip()`
unfoldable pub strip : Text → Text
unfolding strip_left strip_right
strip s = strip_right (strip_left s)
