-- ===== src/Maps.antt =====
-- Go's strings and its maps keyed by strings. A string is the list of its bytes, and a map an
-- association list in an order about which nothing is assumed.
pub mod Laws
pub mod Sums
pub mod Orders
use constellate.Common.{
  ℕ, Bool, true, false, ◌&&◌, ◌==◌, if◌then◌else◌, Option, none, some, List, [], ◌∷◌,
}

abbrev pub Text : Type 0
Text = List ℕ

unfoldable pub same_text : Text → Text → Bool
same_text [] [] = true
same_text [] (d ∷ ds) = false
same_text (c ∷ cs) [] = false
same_text (c ∷ cs) (d ∷ ds) = c == d && same_text cs ds

abbrev pub is_empty : Text → Bool
is_empty [] = true
is_empty (c ∷ cs) = false

abbrev pub Map : Type 0 → Type 0
Map V = List (Text × V)

module _ {V : Type 0} where
  -- `m[id]`
  unfoldable pub find : Text → Map V → Option V
  find id [] = none
  find id ((k, v) ∷ m) = if same_text k id then some v else find id m

  -- `m[id] = v`
  unfoldable pub put : Text → V → Map V → Map V
  put id v [] = (id, v) ∷ []
  put id v ((k, w) ∷ m) = if same_text k id then (k, v) ∷ m else (k, w) ∷ put id v m

  -- `delete(m, id)`
  unfoldable pub remove : Text → Map V → Map V
  remove id [] = []
  remove id ((k, w) ∷ m) = if same_text k id then remove id m else (k, w) ∷ remove id m
