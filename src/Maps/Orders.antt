-- ===== src/Maps/Orders.antt =====
-- The order in which a `range` takes the entries of a map, which Go leaves open: whatever holds of the
-- entries of one order holds of those of another.
use constellate.Common.{◌≡◌, ◌∙◌, subst, false, Bool-cases, inl, inr, none, List, ◌∷◌, arith, All}
use mathlib.Core.List.{Permᴰ}
use constellate.Maps.{Text, Map, find, same_text}
use constellate.Maps.Laws.{same_text_sym}
use constellate.Maps.Sums.{IsDistinct}

module _ {A : Type 0} (P : A → Type 0) where
  pub All-Permᴰ : {xs ys : List A} → Permᴰ xs ys → All P xs → All P ys
  All-Permᴰ Permᴰ.nil h = h
  All-Permᴰ (Permᴰ.cons e d) (p, h) = (subst P e p, All-Permᴰ d h)
  All-Permᴰ (Permᴰ.swap e f) (p, (q, h)) = (subst P f q, (subst P e p, h))
  All-Permᴰ (Permᴰ.trans d f) h = All-Permᴰ f (All-Permᴰ d h)

module _ {V : Type 0} where
  absent_cons :
      (k : Text) (a : Text × V) (m : Map V)
      → same_text a.0 k ≡ false
      → find k m ≡ none
      → find k (a ∷ m) ≡ none
  unfolding find
  absent_cons k (j, v) m e h = rw e h

  absent_tail :
      (k : Text) (a : Text × V) (m : Map V)
      → find k (a ∷ m) ≡ none
      → (same_text a.0 k ≡ false) × (find k m ≡ none)
  unfolding find
  absent_tail k (j, v) m h = elim (Bool-cases (same_text j k)) [
    | inl e ↦ absurd (ground (arith, e, h))
    | inr e ↦ (e, ground (arith, e, h))
  ]

  absent-Permᴰ : (k : Text) {m n : Map V} → Permᴰ m n → find k m ≡ none → find k n ≡ none
  absent-Permᴰ k Permᴰ.nil h = h
  absent-Permᴰ k (Permᴰ.cons {a = a} {b = b} {l₁ = m} {l₂ = n} e d) h =
      let (x, y) = absent_tail k a m h in
      absent_cons k b n (subst (λ c. same_text c.0 k ≡ false) e x) (absent-Permᴰ k d y)
  absent-Permᴰ k (Permᴰ.swap {a = a} {b = b} {a' = c} {b' = d} {l = m} e f) h =
      let (x, y) = absent_tail k a (b ∷ m) h in
      let (z, w) = absent_tail k b m y in
      absent_cons k c (d ∷ m) (subst (λ r. same_text r.0 k ≡ false) f z)
        (absent_cons k d m (subst (λ r. same_text r.0 k ≡ false) e x) w)
  absent-Permᴰ k (Permᴰ.trans d f) h = absent-Permᴰ k f (absent-Permᴰ k d h)

  IsDistinct-cons :
      (a : Text × V) (m : Map V) → find a.0 m ≡ none → IsDistinct m → IsDistinct (a ∷ m)
  unfolding IsDistinct
  IsDistinct-cons (k, v) m n d = (n, d)

  IsDistinct-tail :
      (a : Text × V) (m : Map V) → IsDistinct (a ∷ m) → (find a.0 m ≡ none) × IsDistinct m
  unfolding IsDistinct
  IsDistinct-tail (k, v) m d = d

  pub Permᴰ-IsDistinct : {m n : Map V} → Permᴰ m n → IsDistinct m → IsDistinct n
  Permᴰ-IsDistinct Permᴰ.nil h = h
  Permᴰ-IsDistinct (Permᴰ.cons {a = a} {b = b} {l₁ = m} {l₂ = n} e d) h =
      let (x, y) = IsDistinct-tail a m h in
      IsDistinct-cons b n (subst (λ c. find c.0 n ≡ none) e (absent-Permᴰ a.0 d x))
        (Permᴰ-IsDistinct d y)
  Permᴰ-IsDistinct (Permᴰ.swap {a = a} {b = b} {a' = c} {b' = d} {l = m} e f) h =
      let (x, y) = IsDistinct-tail a (b ∷ m) h in
      let (z, w) = IsDistinct-tail b m y in
      let (s, t) = absent_tail a.0 b m x in
      subst (λ r. IsDistinct (r ∷ d ∷ m)) f
        (subst (λ r. IsDistinct (b ∷ r ∷ m)) e
          (IsDistinct-cons b (a ∷ m) (absent_cons b.0 a m (same_text_sym a.0 b.0 ∙ s) z)
            (IsDistinct-cons a m t w)))
  Permᴰ-IsDistinct (Permᴰ.trans d f) h = Permᴰ-IsDistinct f (Permᴰ-IsDistinct d h)
