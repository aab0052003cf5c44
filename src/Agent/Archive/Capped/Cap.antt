-- ===== src/Agent/Archive/Capped/Cap.antt =====
-- archive.go: a `Save` keeps the archives within the cap of the directory.
use constellate.Common.{
  ℕ, ◌≡◌, ◌≤◌, ◌⊎◌, ap, ◌∙◌, true, false, if_true, Bool-cases, inl, inr, none, some, List, [], ◌∷◌,
  ◌++◌, arith, leb, length, All,
}
use constellate.Maps.{Text, find, put, remove}
use constellate.Maps.Laws.{find-put_self}
use constellate.Maps.Sums.{IsDistinct, weight, remove-IsDistinct, put-IsDistinct, entries-found}
use constellate.Agent.Archive.{
  Bytes, File, Disk, System, path, temp_prefix, Entry, scan_files, scan_dir, sort, enforce_cap,
  new_file, save,
}
use constellate.Agent.Archive.Kept.{is_stale, scan_files-keeps, All-sort}
use constellate.Agent.Archive.Saved.{save_ind, scan_files-Within}
use constellate.Agent.Archive.Capped.{
  counted, archived_bytes, counted-le-length, Sized, sizes-sort, sort-DistinctPaths,
  protected_sizes_le,
}
use constellate.Agent.Archive.Capped.Bounded.{Tracks, evict_bounded, scan_files-Scanned}

module _ (s : System) (lists : s.lists ≡ true) (informs : (name : Text) → s.informs name ≡ true)
    (removes : (name : Text) → s.removes name ≡ true) where
  -- The sizes that hold of the directory hold behind the scan, which keeps every listed file.
  scanned-Sized :
      (d : Disk) (es : List Entry)
      → All (λ e. (is_stale e.path ≡ false) × Sized d e) es
      → All (Sized (scan_files s d d).disk) es
  scanned-Sized d [] h = tt
  scanned-Sized d (e ∷ es) h = (
    ap (weight counted e.path) (scan_files-keeps s e.path d d h.0.0) ∙ h.0.1,
    scanned-Sized d es h.1,
  )

  sorted-Tracks :
      (d : Disk)
      → IsDistinct d
      → Tracks 0 (sort (scan_files s d d).entries) (scan_files s d d).total (scan_files s d d).disk
  unfolding archived_bytes
  sorted-Tracks d u =
      let r = scan_files s d d in
      let v = scan_files-Scanned s informs removes d u d (entries-found d u) u in
      record {
        counts = omega (arith, v.counts, sizes-sort r.entries);
        exact = omega (arith, v.exact, v.same_bytes);
        sized = All-sort (Sized r.disk) r.entries (scanned-Sized d r.entries v.sized);
        apart = sort-DistinctPaths r.entries v.apart;
        distinct = v.distinct;
      }

  scan_dir-listed : (d : Disk) → scan_dir s d ≡ scan_files s d d
  unfolding scan_dir
  scan_dir-listed d = if_true s.lists _ _ lists

  protected_weight :
      (id : Text) (f : File) (d : Disk)
      → find (path id) d ≡ some f
      → weight counted (path id) (find (path id) (scan_files s d d).disk) ≤ length f.content
  protected_weight id f d g = elim (scan_files-Within s (path id) d d) [
    | inl w ↦ rw (w, g) (counted-le-length (path id) f)
    | inr w ↦ rw w (omega arith)
  ]

  enforce_cap_bounded :
      (cap : ℕ) (id : Text) (f : File) (d : Disk)
      → IsDistinct d
      → find (path id) d ≡ some f
      → (archived_bytes (enforce_cap s cap id d) ≤ cap)
        ⊎ (archived_bytes (enforce_cap s cap id d) ≤ length f.content)
  unfolding enforce_cap
  enforce_cap_bounded cap id f d u g =
      let r = scan_files s d d in
      let t = sorted-Tracks d u in
      let b = evict_bounded s removes cap (path id) 0 (sort r.entries) r.total r.disk t in
      let q = protected_sizes_le (path id) r.disk (sort r.entries) t.apart t.sized in
      let w = protected_weight id f d g in
      rw (scan_dir-listed d) elim (Bool-cases (leb r.total cap)) [
        | inl e ↦ rw e (inl (ground (arith, e, t.exact)))
        | inr e ↦ rw e elim b [ inl x ↦ inl x | inr x ↦ inr (omega (arith, x, q, w)) ]
      ]

  -- If the system lists, looks at and removes the files as it is asked to, and no two files have
  -- one name, the archives that a `Save` without an error leaves are within the cap, or together
  -- no larger than the one that it has written.
  pub save_within_cap :
      (cap : ℕ) (id : Text) (p : Bytes) (d : Disk)
      → IsDistinct d
      → (save s cap id p d).0 ≡ none
      → (archived_bytes (save s cap id p d).1 ≤ cap)
        ⊎ (archived_bytes (save s cap id p d).1 ≤ length p)
  save_within_cap cap id p d u =
      save_ind (λ r. r.0 ≡ none → (archived_bytes r.1 ≤ cap) ⊎ (archived_bytes r.1 ≤ length p)) s
        cap id p d (λ e n. cc) (λ e r f c n. cc)
        (λ r c v n.
          let f = new_file p s.time in
          let e = remove (temp_prefix ++ r) d in
          enforce_cap_bounded cap id f (put (path id) f e)
            (put-IsDistinct (path id) f e (remove-IsDistinct (temp_prefix ++ r) d u))
            (find-put_self (path id) f e))
