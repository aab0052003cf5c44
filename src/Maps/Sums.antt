-- ===== src/Maps/Sums.antt =====
-- Maps with one entry for each key, as every map of Go is, and sums over their entries.
use constellate.Common.{
  ℕ, ◌+◌, ◌≡◌, ◌≤◌, refl, ap, subst, ◌∙◌, Option, none, some, [], ◌∷◌, arith, Bool-cases, inl, inr,
  All,
}
use constellate.Maps.{Text, Map, find, put, remove, same_text}
use constellate.Maps.Laws.{find-put_ne, find-remove, same_text_refl, same_text_sound, same_text_sym}

module _ {V : Type 0} where
  unfoldable pub IsDistinct : Map V → Type 0
  IsDistinct [] = 0 ≤ 0
  IsDistinct ((k, v) ∷ m) = (find k m ≡ none) × IsDistinct m

  -- The weight of every entry, by its key and its value.
  unfoldable pub sum_by : (Text → V → ℕ) → Map V → ℕ
  sum_by w [] = 0
  sum_by w ((k, v) ∷ m) = w k v + sum_by w m

  abbrev pub weight : (Text → V → ℕ) → Text → Option V → ℕ
  weight w k none = 0
  weight w k (some v) = w k v

  pub remove-absent : (k : Text) (m : Map V) → find k m ≡ none → remove k m ≡ m
  unfolding find remove
  remove-absent k [] h = refl
  remove-absent k ((j, v) ∷ m) h = elim (Bool-cases (same_text j k)) [
    | inl e ↦ absurd (ground (arith, e, h))
    | inr e ↦ rw e (ap (◌∷◌ (j, v)) (remove-absent k m (ground (arith, e, h))))
  ]

  pub remove-IsDistinct : (k : Text) (m : Map V) → IsDistinct m → IsDistinct (remove k m)
  unfolding IsDistinct remove
  remove-IsDistinct k [] d = d
  remove-IsDistinct k ((j, v) ∷ m) (a, d) = elim (Bool-cases (same_text j k)) [
    | inl e ↦ rw e (remove-IsDistinct k m d)
    | inr e ↦ rw (e, IsDistinct) (find-remove k j m ∙ ground (arith, a), remove-IsDistinct k m d)
  ]

  pub put-IsDistinct : (k : Text) (v : V) (m : Map V) → IsDistinct m → IsDistinct (put k v m)
  unfolding put IsDistinct find
  put-IsDistinct k v [] d = (refl, d)
  put-IsDistinct k v ((j, w) ∷ m) (a, d) = elim (Bool-cases (same_text j k)) [
    | inl s ↦ rw (s, IsDistinct) (a, d)
    | inr s ↦
        rw (s, IsDistinct) (find-put_ne k j v m (same_text_sym k j ∙ s) ∙ a, put-IsDistinct k v m d)
  ]

  -- With one entry for each key, an entry is what its key finds.
  found_cons :
      (k : Text) (v : V) (m n : Map V)
      → find k n ≡ none
      → All (λ kv. find kv.0 m ≡ some kv.1) n
      → All (λ kv. find kv.0 ((k, v) ∷ m) ≡ some kv.1) n
  unfolding find
  found_cons k v m [] a h = tt
  found_cons k v m ((j, w) ∷ n) a h = elim (Bool-cases (same_text j k)) [
    | inl e ↦ absurd (ground (arith, e, a))
    | inr e ↦ (rw (same_text_sym k j ∙ e) h.0, found_cons k v m n (ground (arith, e, a)) h.1)
  ]

  pub entries-found : (m : Map V) → IsDistinct m → All (λ kv. find kv.0 m ≡ some kv.1) m
  unfolding IsDistinct find
  entries-found [] d = tt
  entries-found ((k, v) ∷ m) (a, d) =
      (ground (arith, same_text_refl k), found_cons k v m m a (entries-found m d))

  -- Removing a key takes its weight from the sum.
  pub sum_by-remove :
      (w : Text → V → ℕ) (k : Text) (m : Map V)
      → IsDistinct m
      → sum_by w (remove k m) + weight w k (find k m) ≡ sum_by w m
  unfolding sum_by remove find IsDistinct
  sum_by-remove w k [] d = refl
  sum_by-remove w k ((j, v) ∷ m) (a, d) = elim (Bool-cases (same_text j k)) [
    | inl e ↦
        let r = same_text_sound j k e in
        let b = subst (λ x. find x m ≡ none) r a in
        rw (e, remove-absent k m b) (omega (arith, ap (λ x. w x v) r))
    | inr e ↦ rw e (omega (arith, sum_by-remove w k m d))
  ]

  -- A new value for a key takes the weight of the old one, if any.
  pub sum_by-put :
      (w : Text → V → ℕ) (k : Text) (v : V) (m : Map V)
      → sum_by w (put k v m) + weight w k (find k m) ≡ sum_by w m + w k v
  unfolding sum_by put find
  sum_by-put w k v [] = omega arith
  sum_by-put w k v ((j, x) ∷ m) = elim (Bool-cases (same_text j k)) [
    | inl e ↦
        let r = same_text_sound j k e in rw e (omega (arith, ap (λ y. w y v) r, ap (λ y. w y x) r))
    | inr e ↦ rw e (omega (arith, sum_by-put w k v m))
  ]
