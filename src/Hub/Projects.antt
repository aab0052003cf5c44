-- ===== src/Hub/Projects.antt =====
-- internal/hub/domain/project/project.go, the store of
-- internal/hub/adapter/secondary/memory/project_store.go, and the use case of
-- internal/hub/app/projects/usecase.go over that store and the session store. The accessors are the
-- fields, and a string is the list of its characters. Each method of a store holds its mutex.
pub mod Owned
use constellate.Common.{
  ℕ, ◌+◌, Bool, true, false, ◌&&◌, ◌||◌, ◌==◌, ltb, leb, if◌then◌else◌, Option, none, some, ◌⊎◌,
  inl, inr, List, [], ◌∷◌, ◌++◌, Word,
}
use constellate.Maps.{Text, same_text, is_empty, Map, find, put, remove}
use constellate.Strings.{trim_space}
use constellate.Hub.Store.{Store, count_by_project}

pub record Project : Type 0 where
  pub id : Text
  pub machine_id : Text
  pub name : Text
  pub path : Text
  pub color : Text
  pub created_at : Word

pub data ProjectError : Type 0 where
  invalid : ProjectError
  duplicate_path : ProjectError
  not_found : ProjectError
  has_sessions : ProjectError

abbrev pub trimmed : Project → Project
trimmed p = record {
  id = trim_space p.id;
  machine_id = trim_space p.machine_id;
  name = trim_space p.name;
  path = trim_space p.path;
  color = trim_space p.color;
  created_at = p.created_at;
}

-- `New`: the fields as they are given, and the project or an error.
unfoldable pub new_project : Project → ProjectError ⊎ Project
new_project p =
    let q = trimmed p in
    if is_empty q.id || is_empty q.machine_id || is_empty q.name || is_empty q.path
    then inl invalid
    else inr q

abbrev pub ProjectStore : Type 0
ProjectStore = Map Project

unfoldable pub is_at : Project → Project → Bool
is_at p q = same_text q.machine_id p.machine_id && same_text q.path p.path

unfoldable pub has_path : Project → ProjectStore → Bool
has_path p [] = false
has_path p ((k, q) ∷ st) = is_at p q || has_path p st

-- The store's `Create`
unfoldable pub store_project : Project → ProjectStore → Option ProjectError × ProjectStore
store_project p st = if has_path p st then (some duplicate_path, st) else (none, put p.id p st)

-- `ByID`
abbrev pub found_or_not : Option Project → ProjectError ⊎ Project
found_or_not none = inl not_found
found_or_not (some p) = inr p

unfoldable pub project_by_id : Text → ProjectStore → ProjectError ⊎ Project
project_by_id id st = found_or_not (find id st)

-- `List` and `ListByMachine`
unfoldable pub list_projects : ProjectStore → List Project
list_projects [] = []
list_projects ((k, p) ∷ st) = p ∷ list_projects st

unfoldable pub list_by_machine : Text → ProjectStore → List Project
list_by_machine machine_id [] = []
list_by_machine machine_id ((k, p) ∷ st) =
    if same_text p.machine_id machine_id
    then p ∷ list_by_machine machine_id st
    else list_by_machine machine_id st

-- The store's `Delete`
abbrev pub remove_found : Text → Option Project → ProjectStore → Option ProjectError × ProjectStore
remove_found id none st = (some not_found, st)
remove_found id (some p) st = (none, remove id st)

unfoldable pub remove_project : Text → ProjectStore → Option ProjectError × ProjectStore
remove_project id st = remove_found id (find id st) st

-- The use case's `Create`; `p` has the new identifier and the time in its fields.
unfoldable pub create_valid :
    ProjectError ⊎ Project → ProjectStore → Option ProjectError × ProjectStore
create_valid (inl e) st = (some e, st)
create_valid (inr p) st = store_project p st

unfoldable pub create_project : Project → ProjectStore → Option ProjectError × ProjectStore
create_project p st = create_valid (new_project p) st

-- The use case's `Delete`, where nothing comes between its calls of the stores.
unfoldable pub delete_found :
    Text → ProjectError ⊎ Project → Store → ProjectStore → Option ProjectError × ProjectStore
delete_found id (inl e) sessions st = (some e, st)
delete_found id (inr p) sessions st =
    if ltb 0 (count_by_project id sessions) then (some has_sessions, st) else remove_project id st

unfoldable pub delete_project : Text → Store → ProjectStore → Option ProjectError × ProjectStore
delete_project id sessions st = delete_found id (project_by_id id st) sessions st
