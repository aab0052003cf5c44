-- ===== src/Hub/Projects/Owned.antt =====
-- The project store: no two projects of a machine have one path, and a project that goes has no
-- session.
use constellate.Common.{
  ◌≡◌, ◌≤◌, refl, subst, ◌∙◌, false, not, ◌&&◌, ltb, if◌then◌else◌, if_ind, Bool-cases, inl, inr,
  ◌⊎◌, Option, none, some, [], ◌∷◌, arith,
}
use constellate.Maps.{Text, same_text, find, put, remove}
use constellate.Maps.Laws.{find-remove, same_text_sym, same_text_sound}
use constellate.Hub.Store.{Store, count_by_project}
use constellate.Hub.Projects.{
  Project, ProjectError, has_sessions, new_project, ProjectStore, is_at, has_path, store_project,
  project_by_id, remove_project, create_valid, create_project, delete_found, delete_project,
  found_or_not, remove_found,
}

-- No two projects of one machine have one path.
unfoldable pub HasDistinctPaths : ProjectStore → Type 0
HasDistinctPaths [] = 0 ≤ 0
HasDistinctPaths ((k, p) ∷ st) = (has_path p st ≡ false) × HasDistinctPaths st

is_at_sym : (p q : Project) → is_at p q ≡ is_at q p
unfolding is_at
is_at_sym p q = rw (same_text_sym q.machine_id p.machine_id, same_text_sym q.path p.path) refl

has_path-put :
    (q p : Project) (k : Text) (st : ProjectStore)
    → has_path q st ≡ false
    → is_at q p ≡ false
    → has_path q (put k p st) ≡ false
unfolding has_path put
has_path-put q p k [] h n = rw n refl
has_path-put q p k ((j, r) ∷ st) h n = elim (Bool-cases (same_text j k)) [
  | inl e ↦ ground (arith, e, h, n)
  | inr e ↦ ground (arith, e, h, has_path-put q p k st)
]

has_path-remove :
    (q : Project) (k : Text) (st : ProjectStore)
    → has_path q st ≡ false
    → has_path q (remove k st) ≡ false
unfolding has_path remove
has_path-remove q k [] h = refl
has_path-remove q k ((j, r) ∷ st) h = ground (arith, h, has_path-remove q k st)

put-HasDistinctPaths :
    (k : Text) (p : Project) (st : ProjectStore)
    → has_path p st ≡ false
    → HasDistinctPaths st
    → HasDistinctPaths (put k p st)
unfolding HasDistinctPaths put has_path
put-HasDistinctPaths k p [] h d = (refl, d)
put-HasDistinctPaths k p ((j, q) ∷ st) h (a, d) = elim (Bool-cases (same_text j k)) [
  | inl e ↦ rw (e, HasDistinctPaths) (ground (arith, h), d)
  | inr e ↦
      rw (e, HasDistinctPaths)
        (
          has_path-put q p k st a (is_at_sym q p ∙ ground (arith, h)),
          put-HasDistinctPaths k p st (ground (arith, h)) d,
        )
]

remove-HasDistinctPaths :
    (k : Text) (st : ProjectStore) → HasDistinctPaths st → HasDistinctPaths (remove k st)
unfolding HasDistinctPaths remove
remove-HasDistinctPaths k [] d = d
remove-HasDistinctPaths k ((j, q) ∷ st) (a, d) = elim (Bool-cases (same_text j k)) [
  | inl e ↦ rw e (remove-HasDistinctPaths k st d)
  | inr e ↦ rw (e, HasDistinctPaths) (has_path-remove q k st a, remove-HasDistinctPaths k st d)
]

create_valid-HasDistinctPaths :
    (x : ProjectError ⊎ Project) (st : ProjectStore)
    → HasDistinctPaths st
    → HasDistinctPaths (create_valid x st).1
unfolding create_valid store_project
create_valid-HasDistinctPaths (inl e) st d = d
create_valid-HasDistinctPaths (inr p) st d = elim (Bool-cases (has_path p st)) [
  | inl h ↦ rw h d
  | inr h ↦ rw h (put-HasDistinctPaths p.id p st h d)
]

delete_found-HasDistinctPaths :
    (id : Text) (x : ProjectError ⊎ Project) (sessions : Store) (st : ProjectStore)
    → HasDistinctPaths st
    → HasDistinctPaths (delete_found id x sessions st).1
unfolding delete_found remove_project
delete_found-HasDistinctPaths id (inl e) sessions st d = d
delete_found-HasDistinctPaths id (inr p) sessions st d =
    if_ind (λ (r : Option ProjectError × ProjectStore). HasDistinctPaths r.1)
      (ltb 0 (count_by_project id sessions)) {x = (some has_sessions, st)} d (removed (find id st))
  where
    removed : (o : Option Project) → HasDistinctPaths (remove_found id o st).1
    removed none = d
    removed (some q) = remove-HasDistinctPaths id st d

-- If no two projects of one machine have one path, none do behind the use case's `Create` and
-- `Delete`, whatever is created or deleted and whatever sessions there are.
pub keeps_distinct_paths :
    (p : Project) (id : Text) (sessions : Store) (st : ProjectStore)
    → HasDistinctPaths st
    → HasDistinctPaths (create_project p st).1 × HasDistinctPaths (delete_project id sessions st).1
unfolding create_project delete_project
keeps_distinct_paths p id sessions st d = (
  create_valid-HasDistinctPaths (new_project p) st d,
  delete_found-HasDistinctPaths id (project_by_id id st) sessions st d,
)

-- What the use case's `Delete` leaves, whatever the two stores hold: of a project that no session
-- names nothing, and every other project as it was.
pub find-delete_project :
    (id j : Text) (sessions : Store) (st : ProjectStore)
    → find j (delete_project id sessions st).1
      ≡ (if same_text id j && not (ltb 0 (count_by_project id sessions)) then none else find j st)
unfolding delete_project delete_found project_by_id remove_project
find-delete_project id j sessions st = of_found (find id st) refl
  where
    of_found :
        (o : Option Project)
        → find id st ≡ o
        → find j (delete_found id (found_or_not o) sessions st).1 ≡ (
            if same_text id j && not (ltb 0 (count_by_project id sessions))
            then none
            else find j st)
    of_found none e = elim (Bool-cases (same_text id j)) [
      | inl h ↦
          let n = subst (λ x. find x st ≡ none) (same_text_sound id j h) e in
          rw (h, n) (ground arith)
      | inr h ↦ rw h refl
    ]
    of_found (some p) e = elim (Bool-cases (ltb 0 (count_by_project id sessions))) [
      | inl n ↦ rw n (ground arith)
      | inr n ↦ rw (n, e) (find-remove id j st ∙ ground arith)
    ]
