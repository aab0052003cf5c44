-- ===== src/Hub/Machines/Changes.antt =====
-- internal/hub/adapter/secondary/memory/machine_store.go: what a method keeps of each machine.
use constellate.Common.{
  ◌≡◌, ◌∙◌, sym, ap, refl, if◌then◌else◌, Option, none, some, Bool-cases, inl, inr,
}
use mathlib.Core.Option.{map}
use constellate.Maps.{Text, same_text, find}
use constellate.Maps.Laws.{find-put, same_text_sound}
use constellate.Hub.Machines.{Machine, MachineStore, change_found, change, upsert, merged}

-- A part `g` of a machine that `f` leaves as it is.
module _ {A : Type 0} (g : Machine → A) (f : Machine → Machine)
    (keeps : (m : Machine) → g (f m) ≡ g m) where
  changed_at :
      (id j : Text) (st : MachineStore) (o : Option Machine)
      → find id st ≡ o
      → map g (find j (change_found id f st o).1) ≡ map g (find j st)
  changed_at id j st none e = refl
  changed_at id j st (some m) e = elim (Bool-cases (same_text id j)) [
    | inl s ↦
        rw (find-put id j (f m) st, s)
          (ap some (keeps m) ∙ ap (map g) (sym e ∙ ap (λ k. find k st) (same_text_sound id j s)))
    | inr s ↦ rw (find-put id j (f m) st, s) refl
  ]

  pub find-change :
      (id j : Text) (st : MachineStore) → map g (find j (change id f st).1) ≡ map g (find j st)
  find-change id j st = changed_at id j st (find id st) refl

-- What `Upsert` stores, under its own id and under another.
pub find-upsert :
    (m : Machine) (j : Text) (st : MachineStore)
    → find j (upsert m st)
      ≡ (if same_text m.id j then some (merged m (find m.id st)) else find j st)
unfolding upsert
find-upsert m j st = find-put m.id j (merged m (find m.id st)) st
