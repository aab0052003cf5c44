-- ===== src/Maps/Laws.antt =====
-- Lookups behind each change of a map, and equality of strings.
use constellate.Common.{
  ◌≡◌, refl, ap, subst, ◌∙◌, true, false, ◌==◌, if◌then◌else◌, Bool-cases, inl, inr, none, some, [],
  ◌∷◌, arith,
}
use constellate.Maps.{Text, same_text, Map, find, put, remove}

pub same_text_refl : (a : Text) → same_text a a ≡ true
unfolding same_text
same_text_refl [] = refl
same_text_refl (c ∷ cs) = ground (arith, same_text_refl cs)

pub same_text_sound : (a b : Text) → same_text a b ≡ true → a ≡ b
unfolding same_text
same_text_sound [] [] e = refl
same_text_sound [] (d ∷ ds) e = cc
same_text_sound (c ∷ cs) [] e = cc
same_text_sound (c ∷ cs) (d ∷ ds) e = elim (Bool-cases (c == d)) [
  | inl h ↦
      ap (λ x. x ∷ cs) {x = c} (ground arith)
      ∙ ap (◌∷◌ d) (same_text_sound cs ds (ground (arith, h)))
  | inr h ↦ absurd (ground (arith, h))
]

pub same_text_sym : (a b : Text) → same_text a b ≡ same_text b a
unfolding same_text
same_text_sym [] [] = refl
same_text_sym [] (d ∷ ds) = refl
same_text_sym (c ∷ cs) [] = refl
same_text_sym (c ∷ cs) (d ∷ ds) = ground (arith, same_text_sym cs ds)

module _ {V : Type 0} where
  pub find-put_self : (id : Text) (v : V) (m : Map V) → find id (put id v m) ≡ some v
  unfolding find put
  find-put_self id v [] = ground (arith, same_text_refl id)
  find-put_self id v ((k, w) ∷ m) = elim (Bool-cases (same_text k id)) [
    | inl e ↦ ground (arith, e)
    | inr e ↦ ground (arith, e, find-put_self id v m)
  ]

  pub find-put_ne :
      (id j : Text) (v : V) (m : Map V) → same_text id j ≡ false → find j (put id v m) ≡ find j m
  unfolding find put
  find-put_ne id j v [] h = ground (arith, h)
  find-put_ne id j v ((k, w) ∷ m) h = elim (Bool-cases (same_text k id)) [
    | inl e ↦ ground (arith, e, same_text_sound k id e, h)
    | inr e ↦ ground (arith, e, find-put_ne id j v m h)
  ]

  pub find-remove_self : (id : Text) (m : Map V) → find id (remove id m) ≡ none
  unfolding find remove
  find-remove_self id [] = refl
  find-remove_self id ((k, w) ∷ m) = ground (arith, find-remove_self id m)

  pub find-remove_ne :
      (id j : Text) (m : Map V) → same_text id j ≡ false → find j (remove id m) ≡ find j m
  unfolding find remove
  find-remove_ne id j [] h = refl
  find-remove_ne id j ((k, w) ∷ m) h = elim (Bool-cases (same_text k id)) [
    | inl e ↦ ground (arith, e, same_text_sound k id e, h, find-remove_ne id j m h)
    | inr e ↦ ground (arith, e, find-remove_ne id j m h)
  ]

  pub find-put :
      (id j : Text) (v : V) (m : Map V)
      → find j (put id v m) ≡ (if same_text id j then some v else find j m)
  find-put id j v m = elim (Bool-cases (same_text id j)) [
    | inl e ↦
        rw e (
          subst (λ k. find k (put id v m) ≡ some v) (same_text_sound id j e) (find-put_self id v m))
    | inr e ↦ rw e (find-put_ne id j v m e)
  ]

  pub find-remove :
      (id j : Text) (m : Map V) → find j (remove id m) ≡ (if same_text id j then none else find j m)
  find-remove id j m = elim (Bool-cases (same_text id j)) [
    | inl e ↦
        rw e (
          subst (λ k. find k (remove id m) ≡ none) (same_text_sound id j e) (find-remove_self id m))
    | inr e ↦ rw e (find-remove_ne id j m e)
  ]
