-- ===== src/Hub/Overview/Subscribers.antt =====
-- The set of subscribers of overview.go as a list.
use constellate.Common.{
  ℕ, suc, ◌+◌, ◌≡◌, refl, ◌==◌, Bool, true, false, length, if◌then◌else◌, List, [], ◌∷◌, arith,
  Bool-cases, inl, inr, ap,
}
use constellate.Hub.Overview.{has, drop_sub, drop_all, failed_of}

-- No subscriber twice, as the keys of a map are.
abbrev pub IsDistinct : List ℕ → Type 0
IsDistinct [] = Unit
IsDistinct (s ∷ ss) = (has s ss ≡ false) × IsDistinct ss

pub drop_sub-absent : (s : ℕ) (ts : List ℕ) → has s ts ≡ false → drop_sub s ts ≡ ts
unfolding has drop_sub
drop_sub-absent s [] h = refl
drop_sub-absent s (t ∷ ts) h = ground (arith, drop_sub-absent s ts)

pub has-drop_sub :
    (s j : ℕ) (ts : List ℕ) → has j (drop_sub s ts) ≡ (if j == s then false else has j ts)
unfolding has drop_sub
has-drop_sub s j [] = ground arith
has-drop_sub s j (t ∷ ts) = ground (arith, has-drop_sub s j ts)

pub drop_sub-IsDistinct : (s : ℕ) (ts : List ℕ) → IsDistinct ts → IsDistinct (drop_sub s ts)
unfolding has drop_sub
drop_sub-IsDistinct s [] d = tt
drop_sub-IsDistinct s (t ∷ ts) d = elim (Bool-cases (s == t)) [
  | inl e ↦ rw e (drop_sub-IsDistinct s ts d.1)
  | inr e ↦ rw e (ground (arith, has-drop_sub s t ts, d.0), drop_sub-IsDistinct s ts d.1)
]

pub length-drop_sub :
    (s : ℕ) (ts : List ℕ)
    → IsDistinct ts
    → has s ts ≡ true
    → suc (length (drop_sub s ts)) ≡ length ts
unfolding has drop_sub
length-drop_sub s [] d h = cc
length-drop_sub s (t ∷ ts) d h = elim (Bool-cases (s == t)) [
  | inl e ↦ rw e (ap (λ xs. suc (length xs)) (drop_sub-absent s ts (ground (arith, d.0, e))))
  | inr e ↦ rw e (ground (arith, length-drop_sub s ts d.1, e, h))
]

-- Every one of the first is one of the second.
abbrev pub IsAmong : List ℕ → List ℕ → Type 0
IsAmong [] ts = Unit
IsAmong (s ∷ ss) ts = (has s ts ≡ true) × IsAmong ss ts

drop_sub-IsAmong :
    (s : ℕ) (ss ts : List ℕ) → has s ss ≡ false → IsAmong ss ts → IsAmong ss (drop_sub s ts)
unfolding has
drop_sub-IsAmong s [] ts h a = tt
drop_sub-IsAmong s (j ∷ ss) ts h a =
    (ground (arith, has-drop_sub s j ts, a.0, h), drop_sub-IsAmong s ss ts (ground (arith, h)) a.1)

pub drop_all-IsDistinct : (ss ts : List ℕ) → IsDistinct ts → IsDistinct (drop_all ss ts)
unfolding drop_all
drop_all-IsDistinct [] ts d = d
drop_all-IsDistinct (s ∷ ss) ts d =
    drop_all-IsDistinct ss (drop_sub s ts) (drop_sub-IsDistinct s ts d)

pub length-drop_all :
    (ss ts : List ℕ)
    → IsDistinct ss
    → IsDistinct ts
    → IsAmong ss ts
    → length (drop_all ss ts) + length ss ≡ length ts
unfolding drop_all
length-drop_all [] ts d e a = omega arith
length-drop_all (s ∷ ss) ts d e a = omega (
  arith,
  length-drop_all ss (drop_sub s ts) d.1 (drop_sub-IsDistinct s ts e)
      (drop_sub-IsAmong s ss ts d.0 a.1),
  length-drop_sub s ts e a.0,
)

module _ (sends : ℕ → Bool) where
  has-failed_of : (s : ℕ) (ts : List ℕ) → has s ts ≡ false → has s (failed_of sends ts) ≡ false
  unfolding has failed_of
  has-failed_of s [] h = refl
  has-failed_of s (t ∷ ts) h = ground (arith, has-failed_of s ts)

  pub failed_of-IsDistinct : (ts : List ℕ) → IsDistinct ts → IsDistinct (failed_of sends ts)
  unfolding failed_of
  failed_of-IsDistinct [] d = tt
  failed_of-IsDistinct (t ∷ ts) d = elim (Bool-cases (sends t)) [
    | inl e ↦ rw e (failed_of-IsDistinct ts d.1)
    | inr e ↦ rw e (has-failed_of t ts d.0, failed_of-IsDistinct ts d.1)
  ]

  IsAmong-cons : (ss : List ℕ) (t : ℕ) (ts : List ℕ) → IsAmong ss ts → IsAmong ss (t ∷ ts)
  unfolding has
  IsAmong-cons [] t ts a = tt
  IsAmong-cons (s ∷ ss) t ts a = (ground (arith, a.0), IsAmong-cons ss t ts a.1)

  pub failed_of-IsAmong : (ts : List ℕ) → IsAmong (failed_of sends ts) ts
  unfolding failed_of has
  failed_of-IsAmong [] = tt
  failed_of-IsAmong (t ∷ ts) = elim (Bool-cases (sends t)) [
    | inl e ↦ rw e (IsAmong-cons (failed_of sends ts) t ts (failed_of-IsAmong ts))
    | inr e ↦ rw e (ground arith, IsAmong-cons (failed_of sends ts) t ts (failed_of-IsAmong ts))
  ]
