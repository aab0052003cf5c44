-- ===== src/Hub/Audit/Newest.antt =====
-- audit_store.go: `List` gives the newest events first.
use constellate.Common.{
  ℕ, zero, suc, ◌≤◌, ◌≡◌, refl, ap, sym, ◌∙◌, Bool-cases, inl, inr, some, List, [], ◌∷◌, ◌++◌, ltb,
  length, length-append, get_elem?, get_elem?-some, take, arith,
}
use mathlib.Core.List.{reverse, reverse-append}
use constellate.Hub.Audit.{Event, list_from, list}

-- The events from the newest on, of which the first `n` were appended.
take-succ :
    (n : ℕ) (es : List Event) (e : Event)
    → get_elem? es n ≡ some e
    → take (suc n) es ≡ take n es ++ (e ∷ [])
take-succ n [] e h = absurd (cc h)
take-succ zero (x ∷ es) e h = ap (λ y. y ∷ []) {x = x} (cc h)
take-succ (suc n) (x ∷ es) e h = ap (◌∷◌ x) (take-succ n es e h)

list_from_lem :
    (n i : ℕ) (es : List Event)
    → i ≤ n
    → n ≤ length es
    → list_from n i es ≡ some (take i (reverse (take n es)))
unfolding list_from
list_from_lem n zero es h k = refl
list_from_lem zero (suc i) es h k = absurd (omega (arith, h))
list_from_lem (suc n) (suc i) es h k =
    let (e, g) = get_elem?-some es n (omega (arith, k)) in
    rw (g, list_from_lem n i es (omega (arith, h)) (omega (arith, k)))
      (ap (λ x. some (take (suc i) x))
        (sym (ap reverse (take-succ n es e g) ∙ reverse-append (take n es) (e ∷ []))))

take_all : (n : ℕ) (es : List Event) → length es ≤ n → take n es ≡ es
take_all zero [] h = refl
take_all (suc n) [] h = refl
take_all zero (e ∷ es) h = absurd (omega (arith, h))
take_all (suc n) (e ∷ es) h = ap (◌∷◌ e) (take_all n es (omega (arith, h)))

length-reverse : (es : List Event) → length (reverse es) ≡ length es
length-reverse [] = refl
length-reverse (e ∷ es) =
    ap length (reverse-append (e ∷ []) es)
    ∙ omega (arith, length-append (reverse es) (e ∷ []), length-reverse es)

-- `List` never reads out of range, and gives the events from the newest to the oldest, of which
-- the first `limit`.
pub list_newest : (limit : ℕ) (es : List Event) → list limit es ≡ some (take limit (reverse es))
unfolding list
list_newest limit es = elim (Bool-cases (ltb (length es) limit)) [
  | inl h ↦ rw h (
      list_from_lem (length es) (length es) es (omega arith) (omega arith)
      ∙ ap (λ x. some (take (length es) (reverse x))) (take_all (length es) es (omega arith))
      ∙ ap some (
          take_all (length es) (reverse es) (omega (arith, length-reverse es))
          ∙ sym (take_all limit (reverse es) (ground (arith, h, length-reverse es)))))
  | inr h ↦ rw h (
      list_from_lem (length es) limit es (ground (arith, h)) (omega arith)
      ∙ ap (λ x. some (take limit (reverse x))) (take_all (length es) es (omega arith)))
]
