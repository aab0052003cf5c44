-- ===== src/Hub/Store/Laws.antt =====
-- Lookups in the map of memory/session_store.go behind its bulk changes.
pub use constellate.Maps.Laws.{
  same_text_refl, same_text_sound, find-put_self, find-put_ne, find-remove_self, find-remove_ne,
}
use constellate.Common.{◌≡◌, refl, Bool, if◌then◌else◌, [], ◌∷◌, arith}
use mathlib.Core.Option.{map}
use constellate.Hub.Session.{Text, Session}
use constellate.Hub.Store.{Store, find, update_where}

-- A test of a key against another one after it equals the first.
pub find-update_where :
    (p : Session → Bool) (f : Session → Session) (id : Text) (st : Store)
    → find id (update_where p f st) ≡ map (λ s. if p s then f s else s) (find id st)
unfolding find update_where
find-update_where p f id [] = refl
find-update_where p f id ((k, s) ∷ st) = ground (arith, find-update_where p f id st)
