-- ===== src/Agent/Archive/Capped.antt =====
-- archive.go: the sizes of the archives, and the entries by which `enforceCap` removes them.
pub mod Bounded
pub mod Cap
use constellate.Common.{
  ℕ, ◌+◌, ◌-◌, ◌≡◌, ◌≤◌, ◌⊎◌, refl, ap, sym, subst, ◌∙◌, Bool, true, false, not, ◌||◌,
  if◌then◌else◌, if_ind, Bool-cases, inl, inr, Option, none, some, List, [], ◌∷◌, ◌++◌, arith, leb,
  length, All,
}
use constellate.Maps.{Text, same_text, Map, find, put, remove}
use constellate.Maps.Laws.{find-put_self, find-remove_ne, same_text_sound, same_text_sym}
use constellate.Maps.Sums.{
  IsDistinct, sum_by, weight, remove-IsDistinct, put-IsDistinct, sum_by-remove,
}
use constellate.Agent.Archive.{
  Bytes, File, Disk, System, suffix, temp_prefix, path, has_prefix, has_suffix, Entry, Scan,
  remove_file, scan_entry, scan_files, scan_dir, insert, sort, evict_entry, evict, enforce_cap,
  new_file, save,
}
use constellate.Agent.Archive.Kept.{is_stale, scan_files-keeps, All-sort}
use constellate.Agent.Archive.Saved.{save_ind}

-- The bytes that a file counts for: those of an archive count, and nothing else does.
unfoldable pub counted : Text → File → ℕ
counted name f =
    if f.is_dir || not (has_suffix name suffix)
    then 0
    else if has_prefix name temp_prefix
    then 0
    else length f.content

-- The total size of the archives.
unfoldable pub archived_bytes : Disk → ℕ
archived_bytes d = sum_by counted d

pub counted-le-length : (name : Text) (f : File) → counted name f ≤ length f.content
unfolding counted
counted-le-length name f = ground arith

-- A file with the prefix of a temporary one counts nothing.
pub weight_temp :
    (name : Text) (o : Option File) → has_prefix name temp_prefix ≡ true → weight counted name o ≡ 0
unfolding counted
weight_temp name none h = refl
weight_temp name (some f) h = ground (arith, h)

-- An entry whose size is what the file of its path counts for.
abbrev pub Sized : Disk → Entry → Type 0
Sized d e = weight counted e.path (find e.path d) ≡ e.size

abbrev pub Apart : Text → List Entry → Type 0
Apart name = All (λ e. same_text name e.path ≡ false)

abbrev pub DistinctPaths : List Entry → Type 0
DistinctPaths [] = 0 ≤ 0
DistinctPaths (e ∷ es) = Apart e.path es × DistinctPaths es

abbrev pub sizes : List Entry → ℕ
sizes [] = 0
sizes (e ∷ es) = e.size + sizes es

-- The sizes of the entries of the protected path.
abbrev pub protected_sizes : Text → List Entry → ℕ
protected_sizes p [] = 0
protected_sizes p (e ∷ es) = (if same_text e.path p then e.size else 0) + protected_sizes p es

sizes-insert : (e : Entry) (es : List Entry) → sizes (insert e es) ≡ e.size + sizes es
unfolding insert
sizes-insert e [] = refl
sizes-insert e (f ∷ es) =
    if_ind (λ (l : List Entry). sizes l ≡ e.size + (f.size + sizes es)) (leb e.mtime f.mtime) refl
      (omega (arith, sizes-insert e es))

pub sizes-sort : (es : List Entry) → sizes (sort es) ≡ sizes es
unfolding sort
sizes-sort [] = refl
sizes-sort (e ∷ es) = omega (arith, sizes-insert e (sort es), sizes-sort es)

insert-Apart :
    (n : Text) (e : Entry) (es : List Entry)
    → same_text n e.path ≡ false
    → Apart n es
    → Apart n (insert e es)
unfolding insert
insert-Apart n e [] h a = (h, tt)
insert-Apart n e (f ∷ es) h a =
    if_ind (Apart n) (leb e.mtime f.mtime) (h, a) (a.0, insert-Apart n e es h a.1)

insert-DistinctPaths :
    (e : Entry) (es : List Entry) → Apart e.path es → DistinctPaths es → DistinctPaths (insert e es)
unfolding insert
insert-DistinctPaths e [] a d = (tt, d)
insert-DistinctPaths e (f ∷ es) a d =
    if_ind DistinctPaths (leb e.mtime f.mtime) (a, d)
      (
        insert-Apart f.path e es (same_text_sym f.path e.path ∙ a.0) d.0,
        insert-DistinctPaths e es a.1 d.1,
      )

pub sort-Apart : (n : Text) (es : List Entry) → Apart n es → Apart n (sort es)
sort-Apart n es = All-sort (λ e. same_text n e.path ≡ false) es

pub sort-DistinctPaths : (es : List Entry) → DistinctPaths es → DistinctPaths (sort es)
unfolding sort
sort-DistinctPaths [] d = d
sort-DistinctPaths (e ∷ es) d =
    insert-DistinctPaths e (sort es) (sort-Apart e.path es d.0) (sort-DistinctPaths es d.1)

-- Removing the file of another path leaves an entry's size right.
pub remove-Sized :
    (k : Text) (d : Disk) (es : List Entry)
    → Apart k es
    → All (Sized d) es
    → All (Sized (remove k d)) es
remove-Sized k d [] a v = tt
remove-Sized k d (e ∷ es) a v =
    (ap (weight counted e.path) (find-remove_ne k e.path d a.0) ∙ v.0, remove-Sized k d es a.1 v.1)

-- No entry apart from the protected path counts for it.
protected_sizes-Apart : (p : Text) (es : List Entry) → Apart p es → protected_sizes p es ≡ 0
protected_sizes-Apart p [] a = refl
protected_sizes-Apart p (e ∷ es) a =
    rw (same_text_sym e.path p ∙ a.0) (omega (arith, protected_sizes-Apart p es a.1))

pub protected_sizes_le :
    (p : Text) (d : Disk) (es : List Entry)
    → DistinctPaths es
    → All (Sized d) es
    → protected_sizes p es ≤ weight counted p (find p d)
protected_sizes_le p d [] a v = omega arith
protected_sizes_le p d (e ∷ es) a v = elim (Bool-cases (same_text e.path p)) [
  | inl h ↦
      let q = same_text_sound e.path p h in
      let z = protected_sizes-Apart p es (subst (λ x. Apart x es) q a.0) in
      let w = subst (λ x. weight counted x (find x d) ≡ e.size) q v.0 in rw h (omega (arith, z, w))
  | inr h ↦ rw h (omega (arith, protected_sizes_le p d es a.1 v.1))
]
