-- ===== src/Agent/Archive/Saved.antt =====
-- archive.go: what a `Save` comes to, its error paths included.
use constellate.Common.{
  ℕ, ◌-◌, ◌≡◌, ◌⊎◌, refl, subst, ◌∙◌, true, false, not, ◌||◌, if◌then◌else◌, if_ind, Bool-cases,
  inl, inr, Option, none, some, List, [], ◌∷◌, ◌++◌, arith, leb,
}
use constellate.Maps.{Text, same_text, Map, find, put, remove}
use constellate.Maps.Laws.{find-put_self, find-put_ne, find-remove, find-remove_ne, same_text_sound}
use constellate.Agent.Archive.{
  Bytes, File, Disk, System, suffix, temp_prefix, path, has_prefix, has_suffix, is_valid_id, Entry,
  Scan, remove_file, scan_entry, scan_files, scan_dir, sort, evict_entry, evict, enforce_cap,
  SaveError, invalid_id, mkdir_failed, create_failed, write_failed, close_failed, rename_failed,
  new_file, close_and_rename, write_temp, create_temp, save, loaded, read_file, load,
}
use constellate.Agent.Archive.Kept.{
  find-remove_file, path-has_suffix, enforce_cap-protects, enforce_cap-spares,
}

module _ (P : Option SaveError × Disk → Type 0) (s : System) (cap : ℕ) (id : Text) (p : Bytes)
    (d : Disk) (fails : (e : SaveError) → P (some e, d))
    (leaves : (e : SaveError) (r : Text) (f : File)
      → s.creates ≡ some r
      → P (some e, remove_file s (temp_prefix ++ r) (put (temp_prefix ++ r) f d)))
    (saves : (r : Text)
      → s.creates ≡ some r
      → is_valid_id id ≡ true
      → P (
        none,
        enforce_cap s cap id (put (path id) (new_file p s.time) (remove (temp_prefix ++ r) d)),
      )) where
  write_temp_ind :
      (r : Text) (o : Option ℕ)
      → s.creates ≡ some r
      → is_valid_id id ≡ true
      → P (write_temp s cap id (temp_prefix ++ r) p o d)
  unfolding write_temp close_and_rename
  write_temp_ind r (some n) c v = leaves write_failed r _ c
  write_temp_ind r none c v =
      if_ind P (not s.closes) (leaves close_failed r _ c)
        (if_ind P (not s.renames) (leaves rename_failed r _ c) (saves r c v))

  create_temp_ind :
      (o : Option Text) → s.creates ≡ o → is_valid_id id ≡ true → P (create_temp s cap id p o d)
  unfolding create_temp
  create_temp_ind none c v = fails create_failed
  create_temp_ind (some r) c v = write_temp_ind r s.fails_at c v

  -- A save fails with the files as they were, or fails behind its temporary file, or succeeds.
  pub save_ind : P (save s cap id p d)
  unfolding save
  save_ind = elim (Bool-cases (is_valid_id id)) [
    | inl v ↦ rw v (if_ind P (not s.makes) (fails mkdir_failed) (create_temp_ind s.creates refl v))
    | inr v ↦ rw v (fails invalid_id)
  ]

pub load-save :
    (s : System) (cap : ℕ) (id : Text) (p : Bytes) (d : Disk)
    → has_prefix (path id) temp_prefix ≡ false
    → (save s cap id p d).0 ≡ none
    → load true id (save s cap id p d).1 ≡ loaded p
unfolding load read_file
load-save s cap id p d h =
    save_ind (λ r. r.0 ≡ none → load true id r.1 ≡ loaded p) s cap id p d (λ e n. cc)
      (λ e r f c n. cc)
      (λ r c v n.
        let e = remove (temp_prefix ++ r) d in
        let k =
          enforce_cap-protects s cap id (put (path id) (new_file p s.time) e)
            (ground (arith, h, path-has_suffix id))
          ∙ find-put_self (path id) (new_file p s.time) e in
        rw (v, k) refl)

-- A file is as it was, or it is gone.
abbrev pub Within : Text → Disk → Disk → Type 0
Within n d e = (find n e ≡ find n d) ⊎ (find n e ≡ none)

Within-remove : (n k : Text) (d e : Disk) → Within n d e → Within n d (remove k e)
Within-remove n k d e w = elim (Bool-cases (same_text k n)) [
  | inl s ↦ inr (find-remove k n e ∙ rw s refl)
  | inr s ↦ elim w [
    | inl q ↦ inl (find-remove_ne k n e s ∙ q)
    | inr q ↦ inr (find-remove_ne k n e s ∙ q)
  ]
]

remove_file-Within :
    (s : System) (n name : Text) (d e : Disk) → Within n d e → Within n d (remove_file s name e)
unfolding remove_file
remove_file-Within s n name d e w =
    if_ind (Within n d) (s.removes name) (Within-remove n name d e w) w

scan_entry-Within :
    (s : System) (n name : Text) (f : File) (d : Disk) (r : Scan)
    → Within n d r.disk
    → Within n d (scan_entry s name f r).disk
unfolding scan_entry
scan_entry-Within s n name f d r w = elim (Bool-cases (f.is_dir || not (has_suffix name suffix))) [
  | inl e ↦ rw e w
  | inr e ↦ rw e elim (Bool-cases (s.informs name)) [
    | inl i ↦ rw i elim (Bool-cases (has_prefix name temp_prefix)) [
      | inl p ↦ rw p (remove_file-Within s n name d r.disk w)
      | inr p ↦ rw p w
    ]
    | inr i ↦ rw i w
  ]
]

pub scan_files-Within :
    (s : System) (n : Text) (fs : Map File) (d : Disk) → Within n d (scan_files s fs d).disk
unfolding scan_files
scan_files-Within s n [] d = inl refl
scan_files-Within s n ((name, f) ∷ fs) d =
    scan_entry-Within s n name f d (scan_files s fs d) (scan_files-Within s n fs d)

evict-Within :
    (s : System) (cap : ℕ) (protected n : Text) (es : List Entry) (total : ℕ) (d e : Disk)
    → Within n d e
    → Within n d (evict s cap protected es total e)
unfolding evict evict_entry
evict-Within s cap protected n [] total d e w = w
evict-Within s cap protected n (x ∷ es) total d e w =
    let P = λ (t : ℕ × Disk). Within n d t.1 in
    let r = evict_entry s protected x total e in
    let v = if_ind P (same_text x.path protected) {x = (total, e)} w (
      if_ind P (s.removes x.path) {x = (total - x.size, remove x.path e)} {y = (total, e)}
        (Within-remove n x.path d e w) w) in
    if_ind (Within n d) (leb total cap) w (evict-Within s cap protected n es r.0 d r.1 v)

enforce_cap-Within :
    (s : System) (cap : ℕ) (id n : Text) (d : Disk) → Within n d (enforce_cap s cap id d)
unfolding enforce_cap scan_dir
enforce_cap-Within s cap id n d =
    let r = scan_dir s d in
    let w =
      if_ind (λ (t : Scan). Within n d t.disk) s.lists (scan_files-Within s n d d) (inl refl) in
    if_ind (Within n d) (leb r.total cap) w
      (evict-Within s cap (path id) n (sort r.entries) r.total d r.disk w)

-- What a `Save` may do to a file `n` that is not its temporary one. An error changes nothing;
-- otherwise the archive of the session is the data, and any other file stays as it was or goes.
abbrev pub Accounted : Text → Text → File → Disk → Option SaveError × Disk → Type 0
Accounted id n f d (some e, d') = find n d' ≡ find n d
Accounted id n f d (none, d') = if same_text (path id) n then find n d' ≡ some f else Within n d d'

success-Accounted :
    (s : System) (cap : ℕ) (id n temp : Text) (f : File) (d : Disk)
    → has_prefix (path id) temp_prefix ≡ false
    → same_text temp n ≡ false
    → Accounted id n f d (none, enforce_cap s cap id (put (path id) f (remove temp d)))
success-Accounted s cap id n temp f d h t =
    let e = put (path id) f (remove temp d) in
    elim (Bool-cases (same_text (path id) n)) [
      | inl k ↦ rw k (
          subst (λ x. find x (enforce_cap s cap id e) ≡ some f) (same_text_sound (path id) n k)
            (enforce_cap-protects s cap id e (rw (h, path-has_suffix id) refl)
              ∙ find-put_self (path id) f (remove temp d)))
      | inr k ↦
          let q = find-put_ne (path id) n f (remove temp d) k ∙ find-remove_ne temp n d t in
          rw k elim (enforce_cap-Within s cap id n e) [ inl w ↦ inl (w ∙ q) | inr w ↦ inr w ]
    ]

path-ne : (id n : Text) → has_suffix n suffix ≡ false → same_text (path id) n ≡ false
path-ne id n h = elim (Bool-cases (same_text (path id) n)) [
  | inl e ↦ absurd (
      cc (
        subst (λ x. has_suffix x suffix ≡ true) (same_text_sound (path id) n e)
            (path-has_suffix id),
        h,
      ))
  | inr e ↦ e
]

-- Of a file that is not its temporary one, and with an identifier that does not begin like a
-- temporary file, a `Save` that fails, on whatever path, changes nothing; after one without an
-- error the archive of the session is the data, and any other file is as it was or gone.
pub save-Accounted :
    (s : System) (cap : ℕ) (id n : Text) (p : Bytes) (d : Disk)
    → has_prefix (path id) temp_prefix ≡ false
    → ((r : Text) → s.creates ≡ some r → same_text (temp_prefix ++ r) n ≡ false)
    → Accounted id n (new_file p s.time) d (save s cap id p d)
save-Accounted s cap id n p d h t =
    save_ind (Accounted id n (new_file p s.time) d) s cap id p d (λ e. refl)
      (λ e r f c.
        find-remove_file s (temp_prefix ++ r) n (put (temp_prefix ++ r) f d) (t r c)
        ∙ find-put_ne (temp_prefix ++ r) n f d (t r c))
      (λ r c v. success-Accounted s cap id n (temp_prefix ++ r) (new_file p s.time) d h (t r c))

-- A file without the suffix of an archive, such as a temporary file that a crash has left, is as
-- it was after every `Save` whose own temporary file it is not.
pub find-save_temp :
    (s : System) (cap : ℕ) (id n : Text) (p : Bytes) (d : Disk)
    → has_suffix n suffix ≡ false
    → ((r : Text) → s.creates ≡ some r → same_text (temp_prefix ++ r) n ≡ false)
    → find n (save s cap id p d).1 ≡ find n d
find-save_temp s cap id n p d h t =
    save_ind (λ r. find n r.1 ≡ find n d) s cap id p d (λ e. refl)
      (λ e r f c.
        find-remove_file s (temp_prefix ++ r) n (put (temp_prefix ++ r) f d) (t r c)
        ∙ find-put_ne (temp_prefix ++ r) n f d (t r c))
      (λ r c v.
        let f = new_file p s.time in
        enforce_cap-spares s cap id n (put (path id) f (remove (temp_prefix ++ r) d)) h
        ∙ find-put_ne (path id) n f (remove (temp_prefix ++ r) d) (path-ne id n h)
        ∙ find-remove_ne (temp_prefix ++ r) n d (t r c))
