-- ===== src/Hub/Dashboard/Rollups.antt =====
-- dashboard/usecase.go: the rollup of a machine depends on the sessions of that machine only.
use constellate.Common.{
  ◌≡◌, refl, ap, sym, subst, ◌∙◌, Bool, if◌then◌else◌, Bool-cases, inl, inr, Option, none, some,
  List, [], ◌∷◌, ◌>>=◌, ℕ, ◌+◌, arith, length,
}
use mathlib.Core.Option.{map, some-injective}
use constellate.Maps.{Text, same_text, Map, find, put}
use constellate.Maps.Laws.{find-put, same_text_sound}
use constellate.Hub.Session.{Session, Status, running, exited, lost, disconnected}
use constellate.Hub.Machines.{Machine}
use constellate.Hub.Projects.{Project}
use constellate.Hub.Dashboard.{
  MachineEntry, machine_entry, index_machines, Progress, count_on_machine, roll_machine, roll_all,
  start,
}
use constellate.Hub.Dashboard.Tallies.{tally, has, is_running, is_disconnected}
use constellate.Hub.Dashboard.Counts.{
  IsCounted, roll-IsCounted, roll_all-IsCounted, start-IsCounted,
}

-- The sessions of a machine, and a rollup with each of them counted.
unfoldable pub sessions_of : Text → List Session → List Session
sessions_of k [] = []
sessions_of k (s ∷ ss) =
    let rest = sessions_of k ss in if same_text s.machine_id k then s ∷ rest else rest

unfoldable pub counted_on : List Session → MachineEntry → MachineEntry
counted_on [] m = m
counted_on (s ∷ ss) m = counted_on ss (count_on_machine s.status m)

abbrev pub counted_for : List Session → Option MachineEntry → Option MachineEntry
counted_for ss none = none
counted_for ss (some m) = some (counted_on ss m)

-- What a session makes of the rollup of the machine `k`.
counted_once : Session → Text → Option MachineEntry → Option MachineEntry
counted_once s k o = if same_text s.machine_id k then counted_for (s ∷ []) o else o

find-roll_machine :
    (s : Session) (k : Text) (ms : Map MachineEntry)
    → find k (roll_machine s (find s.machine_id ms) ms) ≡ counted_once s k (find k ms)
unfolding roll_machine counted_once counted_on
find-roll_machine s k ms = of_found (find s.machine_id ms) refl
  where
    of_found :
        (o : Option MachineEntry)
        → find s.machine_id ms ≡ o
        → find k (roll_machine s o ms) ≡ counted_once s k (find k ms)
    of_found none e = elim (Bool-cases (same_text s.machine_id k)) [
      | inl h ↦
          let f = subst (λ x. find x ms ≡ none) (same_text_sound s.machine_id k h) e in
          rw (h, f) refl
      | inr h ↦ rw h refl
    ]
    of_found (some m) e =
        find-put s.machine_id k (count_on_machine s.status m) ms
        ∙ elim (Bool-cases (same_text s.machine_id k)) [
          | inl h ↦
              let f = subst (λ x. find x ms ≡ some m) (same_text_sound s.machine_id k h) e in
              rw (h, f) refl
          | inr h ↦ rw h refl
        ]

counted_for-once :
    (s : Session) (k : Text) (ss : List Session) (o : Option MachineEntry)
    → counted_for (sessions_of k ss) (counted_once s k o) ≡ counted_for (sessions_of k (s ∷ ss)) o
unfolding counted_once sessions_of counted_on
counted_for-once s k ss none = elim (Bool-cases (same_text s.machine_id k)) [
  | inl h ↦ rw h refl
  | inr h ↦ rw h refl
]
counted_for-once s k ss (some m) = elim (Bool-cases (same_text s.machine_id k)) [
  | inl h ↦ rw h refl
  | inr h ↦ rw h refl
]

counted_for_nil : (o : Option MachineEntry) → counted_for [] o ≡ o
unfolding counted_on
counted_for_nil none = refl
counted_for_nil (some m) = refl

find-roll_all :
    (k : Text) (ss : List Session) (g h : Progress)
    → IsCounted g
    → roll_all ss g ≡ some h
    → find k h.machines ≡ counted_for (sessions_of k ss) (find k g.machines)
unfolding roll_all sessions_of
find-roll_all k [] g h v e =
    let q : g ≡ h = cc e in
    ap (λ (x : Progress). find k x.machines) (sym q) ∙ sym (counted_for_nil (find k g.machines))
find-roll_all k (s ∷ ss) g h v e =
    let (t, f, w, n, a, b) = roll-IsCounted s g v in
    find-roll_all k ss t h w (sym (ap (λ o. o >>= λ x. roll_all ss x) f) ∙ e)
    ∙ ap (counted_for (sessions_of k ss)) (ap (find k) a ∙ find-roll_machine s k g.machines)
    ∙ counted_for-once s k ss (find k g.machines)

-- The counts of a machine, of the sessions that it has.
unfoldable pub with_counts : List Session → MachineEntry → MachineEntry
with_counts ss m = record m {
  running_count = tally (has is_running) ss;
  total = length ss;
  disconnected_count = tally (has is_disconnected) ss;
}

abbrev counts : MachineEntry → ℕ → ℕ → ℕ → MachineEntry
counts m r t d = record m { running_count = r; total = t; disconnected_count = d }

counts-eq :
    (m : MachineEntry) {r r' t t' d d' : ℕ}
    → r ≡ r'
    → t ≡ t'
    → d ≡ d'
    → counts m r t d ≡ counts m r' t' d'
counts-eq m a b c = λ i. counts m (a i) (b i) (c i)

counted_on_lem :
    (ss : List Session) (m : MachineEntry) (r t d : ℕ)
    → counted_on ss (counts m r t d)
      ≡ counts m
          (r + tally (has is_running) ss)
          (t + length ss)
          (d + tally (has is_disconnected) ss)
unfolding counted_on tally count_on_machine
counted_on_lem [] m r t d = counts-eq m (omega arith) (omega arith) (omega arith)
counted_on_lem (s ∷ ss) m r t d = of_status (counted_on_lem ss m) s.status refl
  where
    of_status :
        ((r t d : ℕ)
          → counted_on ss (counts m r t d)
            ≡ counts m
                (r + tally (has is_running) ss)
                (t + length ss)
                (d + tally (has is_disconnected) ss))
        → (st : Status) → s.status ≡ st
        → counted_on (s ∷ ss) (counts m r t d)
          ≡ counts m
              (r + tally (has is_running) (s ∷ ss))
              (t + length (s ∷ ss))
              (d + tally (has is_disconnected) (s ∷ ss))
    of_status rest running e =
        rw e (rest (r + 1) (t + 1) d ∙ counts-eq m (omega arith) (omega arith) (omega arith))
    of_status rest exited e =
        rw e (rest r (t + 1) d ∙ counts-eq m (omega arith) (omega arith) (omega arith))
    of_status rest lost e =
        rw e (rest r (t + 1) d ∙ counts-eq m (omega arith) (omega arith) (omega arith))
    of_status rest disconnected e =
        rw e (rest r (t + 1) (d + 1) ∙ counts-eq m (omega arith) (omega arith) (omega arith))

-- No entry of a map has counted anything yet.
AllBlank : Map MachineEntry → Type 0
AllBlank ms = (k : Text) (m : MachineEntry) → find k ms ≡ some m → counts m 0 0 0 ≡ m

nil-AllBlank : AllBlank []
unfolding AllBlank find
nil-AllBlank k m e = absurd (cc e)

put-AllBlank :
    (online : Text → Bool) (p : Machine) (ms : Map MachineEntry)
    → AllBlank ms
    → AllBlank (put p.id (machine_entry online p) ms)
unfolding AllBlank machine_entry
put-AllBlank online p ms a k m e = elim (Bool-cases (same_text p.id k)) [
  | inl h ↦
      let q : machine_entry online p ≡ m =
        some-injective (machine_entry online p) m
          (sym (find-put p.id k (machine_entry online p) ms ∙ rw h refl) ∙ e) in
      subst (λ x. counts x 0 0 0 ≡ x) q refl
  | inr h ↦ a k m (sym (find-put p.id k (machine_entry online p) ms ∙ rw h refl) ∙ e)
]

index_machines-AllBlank :
    (online : Text → Bool) (ps : List Machine) (ms : Map MachineEntry)
    → AllBlank ms
    → AllBlank (index_machines online ps ms)
unfolding index_machines
index_machines-AllBlank online [] ms a = a
index_machines-AllBlank online (p ∷ ps) ms a =
    index_machines-AllBlank online ps (put p.id (machine_entry online p) ms)
      (put-AllBlank online p ms a)

-- The rollup that a machine has behind the loop over the sessions is the one that it had before,
-- and its counts are the numbers of the sessions of that machine, of those that run and of those
-- that are disconnected; a machine that the store does not have gets none.
pub find-roll_all_machines :
    (online : Text → Bool) (k : Text) (ms : List Machine) (ss : List Session) (ps : List Project)
    → (h : Progress) × (roll_all ss (start online ms ps) ≡ some h)
      × (find k h.machines
          ≡ map (with_counts (sessions_of k ss)) (find k (start online ms ps).machines))
unfolding start AllBlank with_counts
find-roll_all_machines online k ms ss ps =
    let v = start-IsCounted online ms ps in
    let (h, e, w, n) = roll_all-IsCounted ss (start online ms ps) v in
    (
      h,
      e,
      find-roll_all k ss (start online ms ps) h v e
          ∙ counted_of (find k (index_machines online ms [])) refl,
    )
  where
    counted_of :
        (o : Option MachineEntry)
        → find k (index_machines online ms []) ≡ o
        → counted_for (sessions_of k ss) o ≡ map (with_counts (sessions_of k ss)) o
    counted_of none e = refl
    counted_of (some m) e =
        let b = index_machines-AllBlank online ms [] nil-AllBlank k m e in
        ap some (
          ap (counted_on (sessions_of k ss)) (sym b)
          ∙ counted_on_lem (sessions_of k ss) m 0 0 0
          ∙ counts-eq m (omega arith) (omega arith) (omega arith))
