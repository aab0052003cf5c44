-- ===== src/Agent/Archive.antt =====
-- internal/agent/adapter/secondary/scrollbackfile/archive.go: the archive of scrollbacks, a
-- directory with one file for each session. The directory is a map from names to files, and what
-- the operating system answers to each call is an argument. The sizes of the files of a disk do not
-- reach 2^63, so that their total is a natural number.
pub mod Kept
pub mod Saved
pub mod Capped
use constellate.Common.{
  ℕ, ◌+◌, ◌-◌, ◌*◌, Bool, true, false, not, ◌&&◌, ◌||◌, ◌==◌, if◌then◌else◌, Option, none, some,
  List, [], ◌∷◌, ◌++◌, Word, le_int, leb, length, take, drop,
}
use constellate.Maps.{Text, is_empty, same_text, Map, find, put, remove}

abbrev pub Bytes : Type 0
Bytes = List ℕ

abbrev pub default_disk_cap : ℕ
default_disk_cap = 64 * 1024 * 1024

-- A file, or a directory, of the archive's directory.
pub record File : Type 0 where
  pub content : Bytes
  pub mtime : ℕ
  pub is_dir : Bool

abbrev pub Disk : Type 0
Disk = Map File

-- What the operating system answers while one call of `Save` runs.
pub record System : Type 0 where
  -- `MkdirAll`
  pub makes : Bool
  -- `CreateTemp`: the random part of the name, which is the `*` of the pattern
  pub creates : Option Text
  -- `Write`: the number of bytes at which it fails
  pub fails_at : Option ℕ
  -- `Close` and `Rename`
  pub closes : Bool
  pub renames : Bool
  -- `ReadDir`, and `Info` and `Remove` of each name
  pub lists : Bool
  pub informs : Text → Bool
  pub removes : Text → Bool
  pub time : ℕ

-- `New`: the cap
unfoldable pub new_cap : Word → ℕ
new_cap cap = if le_int cap 0 then default_disk_cap else cap

-- ".scrollback" and ".sb-tmp-"
abbrev pub suffix : Text
suffix = b'.' ∷ b's' ∷ b'c' ∷ b'r' ∷ b'o' ∷ b'l' ∷ b'l' ∷ b'b' ∷ b'a' ∷ b'c' ∷ b'k' ∷ []

abbrev pub temp_prefix : Text
temp_prefix = b'.' ∷ b's' ∷ b'b' ∷ b'-' ∷ b't' ∷ b'm' ∷ b'p' ∷ b'-' ∷ []

-- `path`, without the directory
unfoldable pub path : Text → Text
path id = id ++ suffix

unfoldable pub has_separator : Text → Bool
has_separator [] = false
has_separator (c ∷ cs) = (c == b'/' || c == 0x5c) || has_separator cs

unfoldable pub has_dots : Text → Bool
has_dots [] = false
has_dots (c ∷ []) = false
has_dots (c ∷ d ∷ cs) = (c == b'.' && d == b'.') || has_dots (d ∷ cs)

-- `validateID`
unfoldable pub is_valid_id : Text → Bool
is_valid_id id = not (is_empty id) && not (has_separator id) && not (has_dots id)

-- `HasPrefix` and `HasSuffix`
unfoldable pub has_prefix : Text → Text → Bool
has_prefix s p = leb (length p) (length s) && same_text (take (length p) s) p

unfoldable pub has_suffix : Text → Text → Bool
has_suffix s p = leb (length p) (length s) && same_text (drop (length s - length p) s) p

-- `archiveEntry`
pub record Entry : Type 0 where
  pub path : Text
  pub size : ℕ
  pub mtime : ℕ

pub record Scan : Type 0 where
  pub entries : List Entry
  pub total : ℕ
  pub disk : Disk

unfoldable pub remove_file : System → Text → Disk → Disk
remove_file s name d = if s.removes name then remove name d else d

-- One turn of the loop of `scanDir`, with what the later turns come to. The listing is read before
-- the loop, and a turn reads or removes its own name only, so that their order does not matter.
unfoldable pub scan_entry : System → Text → File → Scan → Scan
scan_entry s name f r =
    if f.is_dir || not (has_suffix name suffix)
    then r
    else if not (s.informs name)
    then r
    else if has_prefix name temp_prefix
    then record r { disk = remove_file s name r.disk }
    else record {
      entries = record { path = name; size = length f.content; mtime = f.mtime } ∷ r.entries;
      total = length f.content + r.total;
      disk = r.disk;
    }

unfoldable pub scan_files : System → Map File → Disk → Scan
scan_files s [] d = record { entries = []; total = 0; disk = d }
scan_files s ((name, f) ∷ fs) d = scan_entry s name f (scan_files s fs d)

-- `scanDir`
unfoldable pub scan_dir : System → Disk → Scan
scan_dir s d = if s.lists then scan_files s d d else record { entries = []; total = 0; disk = d }

-- `sort.Slice` by `mtime`; of entries of one time any may come first.
unfoldable pub insert : Entry → List Entry → List Entry
insert e [] = e ∷ []
insert e (f ∷ es) = if leb e.mtime f.mtime then e ∷ f ∷ es else f ∷ insert e es

unfoldable pub sort : List Entry → List Entry
sort [] = []
sort (e ∷ es) = insert e (sort es)

-- What one turn of the loop of `enforceCap` leaves of the total and of the files.
unfoldable pub evict_entry : System → Text → Entry → ℕ → Disk → ℕ × Disk
evict_entry s protected e total d =
    if same_text e.path protected
    then (total, d)
    else if s.removes e.path
    then (total - e.size, remove e.path d)
    else (total, d)

unfoldable pub evict : System → ℕ → Text → List Entry → ℕ → Disk → Disk
evict s cap protected [] total d = d
evict s cap protected (e ∷ es) total d =
    let (t, d') = evict_entry s protected e total d in
    let rest = evict s cap protected es t d' in if leb total cap then d else rest

-- `enforceCap`
unfoldable pub enforce_cap : System → ℕ → Text → Disk → Disk
enforce_cap s cap just_written d =
    let r = scan_dir s d in
    if leb r.total cap
    then r.disk
    else evict s cap (path just_written) (sort r.entries) r.total r.disk

pub data SaveError : Type 0 where
  invalid_id : SaveError
  mkdir_failed : SaveError
  create_failed : SaveError
  write_failed : SaveError
  close_failed : SaveError
  rename_failed : SaveError

abbrev pub new_file : Bytes → ℕ → File
new_file p t = record { content = p; mtime = t; is_dir = false }

-- `Save`, from `Close` on
unfoldable pub close_and_rename : System → ℕ → Text → Text → Bytes → Disk → Option SaveError × Disk
close_and_rename s cap id temp p d =
    if not s.closes
    then (some close_failed, remove_file s temp (put temp (new_file p s.time) d))
    else if not s.renames
    then (some rename_failed, remove_file s temp (put temp (new_file p s.time) d))
    else (none, enforce_cap s cap id (put (path id) (new_file p s.time) (remove temp d)))

-- `Save`, from `Write` on
unfoldable pub write_temp :
    System → ℕ → Text → Text → Bytes → Option ℕ → Disk → Option SaveError × Disk
write_temp s cap id temp p (some n) d =
    (some write_failed, remove_file s temp (put temp (new_file (take n p) s.time) d))
write_temp s cap id temp p none d = close_and_rename s cap id temp p d

unfoldable pub create_temp :
    System → ℕ → Text → Bytes → Option Text → Disk → Option SaveError × Disk
create_temp s cap id p none d = (some create_failed, d)
create_temp s cap id p (some r) d = write_temp s cap id (temp_prefix ++ r) p s.fails_at d

-- `Save`
unfoldable pub save : System → ℕ → Text → Bytes → Disk → Option SaveError × Disk
save s cap id p d =
    if not (is_valid_id id)
    then (some invalid_id, d)
    else if not s.makes
    then (some mkdir_failed, d)
    else create_temp s cap id p s.creates d

pub data Loaded : Type 0 where
  loaded : Bytes → Loaded
  bad_id : Loaded
  unreadable : Loaded

-- `Load`, where `reads` says whether a file that is there can be read. No file loads as no bytes.
unfoldable pub read_file : Bool → Option File → Loaded
read_file reads none = loaded []
read_file reads (some f) = if reads then loaded f.content else unreadable

unfoldable pub load : Bool → Text → Disk → Loaded
load reads id d = if is_valid_id id then read_file reads (find (path id) d) else bad_id

pub data DeleteError : Type 0 where
  refused : DeleteError
  delete_failed : DeleteError

-- `Delete`; a file that is not there is no error.
unfoldable pub delete_file : Bool → Text → Option File → Disk → Option DeleteError × Disk
delete_file removes name none d = (none, d)
delete_file removes name (some f) d =
    if removes then (none, remove name d) else (some delete_failed, d)

unfoldable pub delete : Bool → Text → Disk → Option DeleteError × Disk
delete removes id d =
    if is_valid_id id then delete_file removes (path id) (find (path id) d) d else (some refused, d)
