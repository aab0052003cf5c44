-- ===== src/Agent/Archive/Kept.antt =====
-- archive.go: which files a `Save` leaves as they were.
use constellate.Common.{
  ℕ, ◌-◌, ◌≡◌, refl, ap, sym, subst, ◌∙◌, Bool, true, false, not, ◌&&◌, ◌||◌, if_ind, Bool-cases,
  inl, inr, List, [], ◌∷◌, ◌++◌, arith, leb, length, drop, All, length-append, drop-append_ge,
}
use constellate.Maps.{Text, same_text, Map, find}
use constellate.Maps.Laws.{find-remove_ne, same_text_refl, same_text_sound}
use constellate.Agent.Archive.{
  File, Disk, System, suffix, temp_prefix, path, has_prefix, has_suffix, Entry, Scan, remove_file,
  scan_entry, scan_files, scan_dir, insert, sort, evict_entry, evict, enforce_cap,
}

pub find-remove_file :
    (s : System) (name n : Text) (d : Disk)
    → same_text name n ≡ false
    → find n (remove_file s name d) ≡ find n d
unfolding remove_file
find-remove_file s name n d h = elim (Bool-cases (s.removes name)) [
  | inl e ↦ rw e (find-remove_ne name n d h)
  | inr e ↦ rw e refl
]

-- The names of archives left by a crash, which the scan removes.
abbrev pub is_stale : Text → Bool
is_stale name = has_suffix name suffix && has_prefix name temp_prefix

scan_entry-keeps :
    (s : System) (n name : Text) (f : File) (r : Scan)
    → is_stale n ≡ false
    → find n (scan_entry s name f r).disk ≡ find n r.disk
unfolding scan_entry
scan_entry-keeps s n name f r h = elim (Bool-cases (same_text name n)) [
  | inl e ↦
      let k = subst (λ x. is_stale x ≡ false) (sym (same_text_sound name n e)) h in
      ground (arith, k)
  | inr e ↦ ground (arith, find-remove_file s name n r.disk e)
]

pub scan_files-keeps :
    (s : System) (n : Text) (fs : Map File) (d : Disk)
    → is_stale n ≡ false
    → find n (scan_files s fs d).disk ≡ find n d
unfolding scan_files
scan_files-keeps s n [] d h = refl
scan_files-keeps s n ((name, f) ∷ fs) d h =
    scan_entry-keeps s n name f (scan_files s fs d) h ∙ scan_files-keeps s n fs d h

scan_dir-keeps :
    (s : System) (n : Text) (d : Disk) → is_stale n ≡ false → find n (scan_dir s d).disk ≡ find n d
unfolding scan_dir
scan_dir-keeps s n d h =
    if_ind (λ (r : Scan). find n r.disk ≡ find n d) s.lists (scan_files-keeps s n d d h) refl

-- Every entry of the scan is a file with the suffix.
abbrev pub Suffixed : List Entry → Type 0
Suffixed = All (λ e. has_suffix e.path suffix ≡ true)

scan_entry-Suffixed :
    (s : System) (name : Text) (f : File) (r : Scan)
    → Suffixed r.entries
    → Suffixed (scan_entry s name f r).entries
unfolding scan_entry
scan_entry-Suffixed s name f r h = elim (Bool-cases (f.is_dir || not (has_suffix name suffix))) [
  | inl e ↦ rw e h
  | inr e ↦ rw e elim (Bool-cases (s.informs name)) [
    | inl i ↦ rw i elim (Bool-cases (has_prefix name temp_prefix)) [
      | inl p ↦ rw p h
      | inr p ↦ rw p (ground (arith, e), h)
    ]
    | inr i ↦ rw i h
  ]
]

scan_files-Suffixed : (s : System) (fs : Map File) (d : Disk) → Suffixed (scan_files s fs d).entries
unfolding scan_files
scan_files-Suffixed s [] d = tt
scan_files-Suffixed s ((name, f) ∷ fs) d =
    scan_entry-Suffixed s name f (scan_files s fs d) (scan_files-Suffixed s fs d)

scan_dir-Suffixed : (s : System) (d : Disk) → Suffixed (scan_dir s d).entries
unfolding scan_dir
scan_dir-Suffixed s d =
    if_ind (λ (r : Scan). Suffixed r.entries) s.lists (scan_files-Suffixed s d d) tt

-- Sorting keeps what holds of every entry.
module _ (P : Entry → Type 0) where
  All-insert : (e : Entry) (es : List Entry) → P e → All P es → All P (insert e es)
  unfolding insert
  All-insert e [] p h = (p, tt)
  All-insert e (f ∷ es) p h = elim (Bool-cases (leb e.mtime f.mtime)) [
    | inl b ↦ rw b (p, h)
    | inr b ↦ rw b (h.0, All-insert e es p h.1)
  ]

  pub All-sort : (es : List Entry) → All P es → All P (sort es)
  unfolding sort
  All-sort [] h = tt
  All-sort (e ∷ es) h = All-insert e (sort es) h.0 (All-sort es h.1)

evict_entry-keeps :
    (s : System) (protected n : Text) (e : Entry) (total : ℕ) (d : Disk)
    → (same_text e.path n && not (same_text e.path protected)) ≡ false
    → find n (evict_entry s protected e total d).1 ≡ find n d
unfolding evict_entry
evict_entry-keeps s protected n e total d h = elim (Bool-cases (same_text e.path n)) [
  | inl k ↦ ground (arith, k, h)
  | inr k ↦ ground (arith, find-remove_ne e.path n d k)
]

-- A file stays that is protected or is not among the entries.
evict-keeps :
    (s : System) (cap : ℕ) (protected n : Text) (es : List Entry) (total : ℕ) (d : Disk)
    → All (λ e. (same_text e.path n && not (same_text e.path protected)) ≡ false) es
    → find n (evict s cap protected es total d) ≡ find n d
unfolding evict
evict-keeps s cap protected n [] total d h = refl
evict-keeps s cap protected n (e ∷ es) total d h =
    let r = evict_entry s protected e total d in
    let k =
      evict-keeps s cap protected n es r.0 r.1 h.1
      ∙ evict_entry-keeps s protected n e total d h.0 in
    if_ind (λ (x : Disk). find n x ≡ find n d) (leb total cap) refl k

-- Nothing is its own opposite.
spares_self :
    (p : Text) (es : List Entry)
    → All (λ e. (same_text e.path p && not (same_text e.path p)) ≡ false) es
spares_self p [] = tt
spares_self p (e ∷ es) = (ground arith, spares_self p es)

spares-Suffixed :
    (p n : Text) (es : List Entry)
    → has_suffix n suffix ≡ false
    → Suffixed es
    → All (λ e. (same_text e.path n && not (same_text e.path p)) ≡ false) es
spares-Suffixed p n [] h v = tt
spares-Suffixed p n (e ∷ es) h v = elim (Bool-cases (same_text e.path n)) [
  | inl k ↦
      let a = subst (λ x. has_suffix x suffix ≡ false) (sym (same_text_sound e.path n k)) h in
      absurd (cc (a, v.0))
  | inr k ↦ (rw k refl, spares-Suffixed p n es h v.1)
]

pub enforce_cap-protects :
    (s : System) (cap : ℕ) (id : Text) (d : Disk)
    → is_stale (path id) ≡ false
    → find (path id) (enforce_cap s cap id d) ≡ find (path id) d
unfolding enforce_cap
enforce_cap-protects s cap id d h =
    let r = scan_dir s d in
    let k =
      evict-keeps s cap (path id) (path id) (sort r.entries) r.total r.disk
        (spares_self (path id) (sort r.entries))
      ∙ scan_dir-keeps s (path id) d h in
    if_ind (λ (e : Disk). find (path id) e ≡ find (path id) d) (leb r.total cap)
      (scan_dir-keeps s (path id) d h) k

pub enforce_cap-spares :
    (s : System) (cap : ℕ) (id n : Text) (d : Disk)
    → has_suffix n suffix ≡ false
    → find n (enforce_cap s cap id d) ≡ find n d
unfolding enforce_cap
enforce_cap-spares s cap id n d h =
    let r = scan_dir s d in
    let k = scan_dir-keeps s n d (rw h refl) in
    let m =
      evict-keeps s cap (path id) n (sort r.entries) r.total r.disk (
        spares-Suffixed (path id) n (sort r.entries) h
          (All-sort (λ e. has_suffix e.path suffix ≡ true) r.entries (scan_dir-Suffixed s d)))
      ∙ k in
    if_ind (λ (x : Disk). find n x ≡ find n d) (leb r.total cap) k m

suffix-append : (id xs : Text) → has_suffix (id ++ xs) xs ≡ true
unfolding has_suffix
suffix-append id xs =
    let l = length-append id xs in
    let n : length (id ++ xs) - length xs ≡ length id = omega (arith, l) in
    let e : drop (length (id ++ xs) - length xs) (id ++ xs) ≡ xs =
      ap (λ k. drop k (id ++ xs)) n
      ∙ drop-append_ge (length id) id xs (omega arith)
      ∙ ap (λ k. drop k xs) {y = 0} (omega arith) in
    rw (e, same_text_refl xs) (ground (arith, l))

pub path-has_suffix : (id : Text) → has_suffix (path id) suffix ≡ true
unfolding path
path-has_suffix id = suffix-append id suffix
