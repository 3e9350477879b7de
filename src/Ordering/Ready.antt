-- ===== src/Ordering/Ready.antt =====
-- The heap of `order_handlers`, and the names that pass a test.
use dbwarden.Common.{
  ◌≡◌, refl, Bool, false, List, [], ◌∷◌, ◌||◌, ◌&&◌, Text, text_eq, text_in, text_eq_sound, arith,
  Bool-cases, inl, inr, ap, ◌∙◌,
}
use dbwarden.Ordering.Handlers.{Handler, comes_first, push, names_if}
use dbwarden.Ordering.Counts.{Distinct, text_eq_sym}

pub text_in-push :
    (hs : List Handler) (b d : Text) (ready : List Text)
    → text_in b (push hs d ready) ≡ (text_eq b d || text_in b ready)
unfolding push text_in
text_in-push hs b d [] = refl
text_in-push hs b d (m ∷ ready) = elim (Bool-cases (comes_first hs d m)) [
  | inl e ↦ rw e refl
  | inr e ↦ rw e (ground (arith, text_in-push hs b d ready))
]

pub push-Distinct :
    (hs : List Handler) (d : Text) (ready : List Text)
    → text_in d ready ≡ false
    → Distinct ready
    → Distinct (push hs d ready)
unfolding push text_in
push-Distinct hs d [] out k = (refl, tt)
push-Distinct hs d (m ∷ ready) out (apart, k) = elim (Bool-cases (comes_first hs d m)) [
  | inl e ↦ rw e (out, (apart, k))
  | inr e ↦ rw e (
    text_in-push hs m d ready
        ∙ (let other : text_eq m d ≡ false = text_eq_sym d m (ground (arith, out)) in
            ground (arith, other, apart)),
    push-Distinct hs d ready (ground (arith, out)) k,
  )
]

pub text_in-names_if :
    (test : Text → Bool) (b : Text) (ns : List Text)
    → text_in b (names_if test ns) ≡ (text_in b ns && test b)
unfolding names_if text_in
text_in-names_if test b [] = refl
text_in-names_if test b (n ∷ ns) = elim (Bool-cases (text_eq b n)) [
  | inl e ↦
      let same : test b ≡ test n = ap test (text_eq_sound b n e) in
      ground (arith, text_in-names_if test b ns, e, same)
  | inr e ↦ ground (arith, text_in-names_if test b ns, e)
]

pub names_if-Distinct :
    (test : Text → Bool) (ns : List Text) → Distinct ns → Distinct (names_if test ns)
unfolding names_if
names_if-Distinct test [] k = tt
names_if-Distinct test (n ∷ ns) (apart, k) = elim (Bool-cases (test n)) [
  | inr e ↦ rw e (names_if-Distinct test ns k)
  | inl e ↦ rw e (text_in-names_if test n ns ∙ ground (arith, apart), names_if-Distinct test ns k)
]
