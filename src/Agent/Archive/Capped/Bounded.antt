-- ===== src/Agent/Archive/Capped/Bounded.antt =====
-- archive.go: the total size of the archives behind a `Save`, against the cap of `enforceCap`.
use constellate.Common.{
  ℕ, ◌+◌, ◌-◌, ◌≡◌, ◌≤◌, ◌⊎◌, refl, ap, ◌∙◌, true, false, not, ◌||◌, Bool-cases, inl, inr, none,
  some, List, [], ◌∷◌, arith, leb, length, All,
}
use constellate.Maps.{Text, same_text, Map, find, remove}
use constellate.Maps.Laws.{same_text_sym}
use constellate.Maps.Sums.{IsDistinct, sum_by, weight, remove-IsDistinct, sum_by-remove}
use constellate.Agent.Archive.{
  File, Disk, System, suffix, temp_prefix, has_prefix, has_suffix, Entry, Scan, remove_file,
  scan_entry, scan_files, evict_entry, evict,
}
use constellate.Agent.Archive.Kept.{is_stale}
use constellate.Agent.Archive.Capped.{
  counted, archived_bytes, weight_temp, Sized, Apart, DistinctPaths, sizes, protected_sizes,
  remove-Sized,
}

-- What the eviction loop needs of the entries `es` that are left, the total and the files, where
-- `past` is the size of the protected entries that it has passed.
pub record Tracks (past : ℕ) (es : List Entry) (total : ℕ) (d : Disk) : Type 0 where
  pub counts : total ≡ past + sizes es
  pub exact : total ≡ archived_bytes d
  pub sized : All (Sized d) es
  pub apart : DistinctPaths es
  pub distinct : IsDistinct d

pass-Tracks :
    (past : ℕ) (e : Entry) (es : List Entry) (total : ℕ) (d : Disk)
    → Tracks past (e ∷ es) total d
    → Tracks (past + e.size) es total d
pass-Tracks past e es total d t = record {
  counts = omega (arith, t.counts);
  exact = t.exact;
  sized = t.sized.1;
  apart = t.apart.1;
  distinct = t.distinct;
}

remove-Tracks :
    (past : ℕ) (e : Entry) (es : List Entry) (total : ℕ) (d : Disk)
    → Tracks past (e ∷ es) total d
    → Tracks past es (total - e.size) (remove e.path d)
unfolding archived_bytes
remove-Tracks past e es total d t = record {
  counts = omega (arith, t.counts);
  exact = omega (arith, t.exact, sum_by-remove counted e.path d t.distinct, t.sized.0);
  sized = remove-Sized e.path d es t.apart.0 t.sized.1;
  apart = t.apart.1;
  distinct = remove-IsDistinct e.path d t.distinct;
}

module _ (s : System) (removes : (name : Text) → s.removes name ≡ true) (cap : ℕ) (p : Text) where
  -- If every removal succeeds, the loop ends below the cap or with nothing but the protected file.
  pub evict_bounded :
      (past : ℕ) (es : List Entry) (total : ℕ) (d : Disk)
      → Tracks past es total d
      → (archived_bytes (evict s cap p es total d) ≤ cap)
        ⊎ (archived_bytes (evict s cap p es total d) ≤ past + protected_sizes p es)
  unfolding evict evict_entry
  evict_bounded past [] total d t = inr (omega (arith, t.exact, t.counts))
  evict_bounded past (e ∷ es) total d t = elim (Bool-cases (leb total cap)) [
    | inl b ↦ rw b (inl (ground (arith, b, t.exact)))
    | inr b ↦ rw b elim (Bool-cases (same_text e.path p)) [
      | inl h ↦
          let w = evict_bounded (past + e.size) es total d (pass-Tracks past e es total d t) in
          rw h elim w [ inl x ↦ inl x | inr x ↦ inr (omega (arith, x)) ]
      | inr h ↦
          let w =
            evict_bounded past es (total - e.size) (remove e.path d)
              (remove-Tracks past e es total d t) in
          rw (h, removes e.path) elim w [ inl x ↦ inl x | inr x ↦ inr (omega (arith, x)) ]
    ]
  ]

-- What the scan of the files `fs`, of the directory `d`, comes to.
pub record Scanned (fs : Map File) (d : Disk) (r : Scan) : Type 0 where
  pub counts : r.total ≡ sizes r.entries
  pub exact : r.total ≡ sum_by counted fs
  pub apart : DistinctPaths r.entries
  pub fresh : (n : Text) → find n fs ≡ none → Apart n r.entries
  pub same_bytes : archived_bytes r.disk ≡ archived_bytes d
  pub distinct : IsDistinct r.disk
  pub sized : All (λ e. (is_stale e.path ≡ false) × Sized d e) r.entries

find_cons :
    {V : Type 0} (n k : Text) (v : V) (m : Map V)
    → find n ((k, v) ∷ m) ≡ none
    → (same_text k n ≡ false) × (find n m ≡ none)
unfolding find
find_cons n k v m h = elim (Bool-cases (same_text k n)) [
  | inl e ↦ absurd (ground (arith, e, h))
  | inr e ↦ (e, ground (arith, e, h))
]

-- A turn that lists nothing.
skip-Scanned :
    (fs : Map File) (d : Disk) (name : Text) (f : File) (r : Scan)
    → counted name f ≡ 0
    → Scanned fs d r
    → Scanned ((name, f) ∷ fs) d r
unfolding sum_by
skip-Scanned fs d name f r z v = record {
  counts = v.counts;
  exact = omega (arith, v.exact, z);
  apart = v.apart;
  fresh = λ n h. v.fresh n (find_cons n name f fs h).1;
  same_bytes = v.same_bytes;
  distinct = v.distinct;
  sized = v.sized;
}

-- Removing a file with the prefix of a temporary one.
remove-Scanned :
    (s : System) (fs : Map File) (d : Disk) (name : Text) (r : Scan)
    → s.removes name ≡ true
    → has_prefix name temp_prefix ≡ true
    → Scanned fs d r
    → Scanned fs d (record r { disk = remove_file s name r.disk })
unfolding remove_file archived_bytes
remove-Scanned s fs d name r m h v =
    let z = weight_temp name (find name r.disk) h in
    let b = sum_by-remove counted name r.disk v.distinct in
    rw m record {
      counts = v.counts;
      exact = v.exact;
      apart = v.apart;
      fresh = v.fresh;
      same_bytes = omega (arith, z, b, v.same_bytes);
      distinct = remove-IsDistinct name r.disk v.distinct;
      sized = v.sized;
    }

-- An archive is listed.
list-Scanned :
    (fs : Map File) (d : Disk) (name : Text) (f : File) (r : Scan)
    → counted name f ≡ length f.content
    → has_prefix name temp_prefix ≡ false
    → find name d ≡ some f
    → find name fs ≡ none
    → Scanned fs d r
    → Scanned ((name, f) ∷ fs) d record {
      entries = record { path = name; size = length f.content; mtime = f.mtime } ∷ r.entries;
      total = length f.content + r.total;
      disk = r.disk;
    }
unfolding sum_by
list-Scanned fs d name f r z h g a v = record {
  counts = omega (arith, v.counts);
  exact = omega (arith, v.exact, z);
  apart = (v.fresh name a, v.apart);
  fresh = λ n k. let q = find_cons n name f fs k in (same_text_sym n name ∙ q.0, v.fresh n q.1);
  same_bytes = v.same_bytes;
  distinct = v.distinct;
  sized = ((ground (arith, h), ap (weight counted name) g ∙ z), v.sized);
}

module _ (s : System) (informs : (name : Text) → s.informs name ≡ true)
    (removes : (name : Text) → s.removes name ≡ true) (d : Disk) (distinct : IsDistinct d) where
  scan_entry-Scanned :
      (fs : Map File) (name : Text) (f : File) (r : Scan)
      → find name d ≡ some f
      → find name fs ≡ none
      → Scanned fs d r
      → Scanned ((name, f) ∷ fs) d (scan_entry s name f r)
  unfolding scan_entry counted
  scan_entry-Scanned fs name f r g a v =
      elim (Bool-cases (f.is_dir || not (has_suffix name suffix))) [
        | inl e ↦ rw e (skip-Scanned fs d name f r (rw e refl) v)
        | inr e ↦
            rw (e, informs name)
              elim (Bool-cases (has_prefix name temp_prefix)) [
                | inl p ↦ rw p (
                    skip-Scanned fs d name f _ (rw (e, p) refl)
                      (remove-Scanned s fs d name r (removes name) p v))
                | inr p ↦ rw p (list-Scanned fs d name f r (rw (e, p) refl) p g a v)
              ]
      ]

  pub scan_files-Scanned :
      (fs : Map File)
      → All (λ kv. find kv.0 d ≡ some kv.1) fs
      → IsDistinct fs
      → Scanned fs d (scan_files s fs d)
  unfolding scan_files IsDistinct sum_by
  scan_files-Scanned [] h a = record {
    counts = refl;
    exact = refl;
    apart = omega arith;
    fresh = λ n e. tt;
    same_bytes = refl;
    distinct = distinct;
    sized = tt;
  }
  scan_files-Scanned ((name, f) ∷ fs) h (a, b) =
      scan_entry-Scanned fs name f (scan_files s fs d) h.0 a (scan_files-Scanned fs h.1 b)
