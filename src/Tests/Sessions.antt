-- ===== src/Tests/Sessions.antt =====
-- The sessions of an agent and their archive at concrete inputs.
use constellate.Common.{
  ℕ, ◌≡◌, ◌≢◌, ◌≤◌, ◌⊎◌, refl, subst, arith, true, false, some, none, [], ◌∷◌, ◌++◌, length,
  get_elem?, suc,
}
use mathlib.Core.Option
use mathlib.Core.List.{Permᴰ}
use mathlib.Core.List.Permᴰ
use constellate.Maps.{Text, Map, same_text, find}
use constellate.Maps.Sums.{IsDistinct}
use constellate.Terminal.Scrollback.{Bytes, Scrollback, write, snapshot}
use constellate.Terminal.Scrollback.History.{Holds}
use constellate.Agent.Archive.{
  Disk, System, path, temp_prefix, suffix, has_prefix, has_suffix, save, is_valid_id, has_separator,
  has_dots, new_file, create_temp, write_temp, close_and_rename, load, loaded,
}
use constellate.Agent.Archive.Saved.{Accounted, save-Accounted, find-save_temp}
use constellate.Agent.Archive.Capped.{archived_bytes}
use constellate.Agent.Archive.Capped.Cap.{save_within_cap}
use constellate.Agent.Producer.{Producer, set_enabled, run_once}
use constellate.Agent.Sessions.{
  Live, Manager, separator, new_manager, open_session, lookup, register, pump_exit, pump_chunk,
  save_taken, flush_one, flush_dirty_one, is_taken,
}
use constellate.Agent.Sessions.Flush.{save_taken-pump_chunk, open_session-flush_one}
use constellate.Agent.Sessions.Races.{
  start, next, opens, Reaches-IsValid_new, pump_exit-register_twice, new_manager-IsValid,
}
use constellate.Agent.Sessions.Valid.{IsValid, IsOpen}
use constellate.Agent.Sessions.Views.{running_screen_revs, render_screen, running_screens}
use constellate.Agent.Sessions.Views.Ticks.{run_once-running_screens}

-- Every call succeeds.
abbrev system : System
system = record {
  makes = true;
  creates = some (b'7' ∷ []);
  fails_at = none;
  closes = true;
  renames = true;
  lists = true;
  informs = λ name. true;
  removes = λ name. true;
  time = 9;
}

abbrev id_a : Text
id_a = b'a' ∷ []

abbrev id_b : Text
id_b = b'b' ∷ []

-- A temporary file that a crash left.
abbrev left_over : Text
left_over = temp_prefix ++ (b'3' ∷ [])

abbrev disk : Disk
disk =
    (id_a ++ suffix, record { content = 1 ∷ 2 ∷ 3 ∷ []; mtime = 1; is_dir = false })
    ∷ (left_over, record { content = 4 ∷ []; mtime = 2; is_dir = false })
    ∷ []

abbrev bytes : Bytes
bytes = 5 ∷ 6 ∷ 7 ∷ 8 ∷ []

disk-IsDistinct : IsDistinct disk
unfolding IsDistinct find same_text
disk-IsDistinct = (refl, (refl, omega arith))

save_succeeds : (save system 5 id_b bytes disk).0 ≡ none
unfolding save create_temp write_temp close_and_rename is_valid_id has_separator has_dots
save_succeeds = refl

plain_b : has_prefix (path id_b) temp_prefix ≡ false
unfolding has_prefix path same_text
plain_b = refl

save_within_cap_example :
    (archived_bytes (save system 5 id_b bytes disk).1 ≤ 5)
    ⊎ (archived_bytes (save system 5 id_b bytes disk).1 ≤ length bytes)
save_within_cap_example =
    save_within_cap system refl (λ name. refl) (λ name. refl) 5 id_b bytes disk disk-IsDistinct
      save_succeeds

other_name : (r : Text) → system.creates ≡ some r → same_text (temp_prefix ++ r) (path id_a) ≡ false
unfolding same_text path
other_name r e = refl

save-Accounted_example :
    Accounted id_b (path id_a) (new_file bytes 9) disk (save system 5 id_b bytes disk)
save-Accounted_example = save-Accounted system 5 id_b (path id_a) bytes disk plain_b other_name

no_suffix : has_suffix left_over suffix ≡ false
unfolding has_suffix same_text
no_suffix = refl

own_temp : (r : Text) → system.creates ≡ some r → same_text (temp_prefix ++ r) left_over ≡ false
unfolding same_text
own_temp r e =
    subst (λ x. same_text (temp_prefix ++ x) left_over ≡ false) {x = b'7' ∷ []} {y = r} (cc e) refl

find-save_temp_example : find left_over (save system 5 id_b bytes disk).1 ≡ find left_over disk
find-save_temp_example = find-save_temp system 5 id_b left_over bytes disk no_suffix own_temp

-- A session that has printed the bytes.
abbrev live : Live ℕ
live = record {
  pid = 4;
  sb = record { buf = bytes; max = 100; start = 0; closed = false };
  screen = some 3;
  last_output_at = 7;
  dirty = true;
}

abbrev manager : Manager ℕ
manager = record {
  scrollback_bytes = 100;
  sessions = (id_b, 0) ∷ [];
  heap = live ∷ [];
  archive = some disk;
  cap = 5;
}

snapshot-bytes : snapshot live.sb ≡ bytes
unfolding snapshot
snapshot-bytes = refl

save_taken-pump_chunk_example :
    let n =
      save_taken system id_b 0 bytes (some disk) (pump_chunk (λ p k. k) 8 0 (9 ∷ []) manager) in
    (flush_dirty_one system id_b 0 n ≡ n)
    × (Option.map (λ (x : Live ℕ). x.sb) (get_elem? n.heap 0) ≡ some (write (9 ∷ []) live.sb))
    × (Option.map (load true id_b) n.archive ≡ some (loaded (snapshot live.sb)))
save_taken-pump_chunk_example =
    save_taken-pump_chunk system id_b 0 manager disk live 5 (6 ∷ 7 ∷ 8 ∷ []) refl refl
      snapshot-bytes plain_b save_succeeds (λ p k. k) 8 9 [] system

open_session-flush_one_example :
    (o : Live ℕ) × (lookup id_b
        (open_session true id_b
          (some 6)
          (some 0)
          (new_manager 100 (flush_one system id_b 0 manager).archive 5)).1
      ≡ some o)
    × Holds o.sb (bytes ++ separator)
open_session-flush_one_example =
    open_session-flush_one system id_b 0 manager disk live 5 (6 ∷ 7 ∷ 8 ∷ []) refl refl
      snapshot-bytes plain_b save_succeeds 100 6 (some 0) (omega arith) (omega arith)

abbrev first : Manager ℕ
first = new_manager 100 none 5

Reaches-IsValid_new_example : IsValid (open_session true id_a (some 4) (some 0) first).1
Reaches-IsValid_new_example =
    Reaches-IsValid_new 100 none 5 (open_session true id_a (some 4) (some 0) first).1
      (next first _ start (opens true id_a (some 4) (some 0) first _ refl))

abbrev fresh : Scrollback
fresh = record { buf = []; max = 100; start = 0; closed = false }

untaken : is_taken id_a first ≡ false
unfolding is_taken find new_manager
untaken = refl

pump_exit-register_twice_example :
    let n =
      pump_exit id_a
        (length first.heap)
        (register id_a fresh 5 (some 0) (register id_a fresh 4 (some 0) first)) in
    (find id_a n.sessions ≡ none)
    × IsOpen n.heap (suc (length first.heap))
    × ((j : Text) → find j n.sessions ≢ some (suc (length first.heap)))
pump_exit-register_twice_example =
    pump_exit-register_twice id_a fresh fresh 4 5 (some 0) (some 0) first
      (new_manager-IsValid 100 none 5) untaken refl

abbrev producer : Producer
producer = record { enabled = false; last_rev = [] }

-- A second session, and a range that takes it first.
abbrev two_sessions : Manager ℕ
two_sessions = record manager {
  sessions = (id_b, 0) ∷ (id_a, 1) ∷ [];
  heap = live ∷ record live { screen = some 8 } ∷ [];
}

two_sessions-IsDistinct : IsDistinct two_sessions.sessions
unfolding IsDistinct find same_text
two_sessions-IsDistinct = (refl, (refl, omega arith))

abbrev backwards : Map ℕ → Map ℕ
backwards [] = []
backwards (a ∷ []) = a ∷ []
backwards (a ∷ b ∷ m) = b ∷ a ∷ m

run_once-running_screens_example :
    Permᴰ
      (run_once
        (render_screen (λ (s : ℕ). (s, s)) two_sessions)
        (running_screen_revs (λ (s : ℕ). s) (λ n. n) two_sessions)
        (set_enabled true producer)).0
      (running_screens (λ (s : ℕ). (s, s)) backwards two_sessions)
run_once-running_screens_example =
    run_once-running_screens (λ (s : ℕ). s) (λ (s : ℕ). (s, s)) two_sessions (λ n. n)
      (Permᴰ.refl two_sessions.sessions) two_sessions-IsDistinct backwards producer
      (Permᴰ.swap refl refl)
