-- ===== src/Server/Folders.antt =====
-- The removal of empty directories: `cleanEmptyFolders` and `isEmptyDir` of server/http_upload.go,
-- which `CleanEmptyFolders` runs once a day and `RemoveEmptyDir` of server/http_remove.go on demand,
-- with `filepath.Walk` of Go. Nothing else changes the disk meanwhile.
pub mod Cleaned
pub mod Daily
use go_fastdfs.Prelude.{
  ℕ, zero, suc, ◌+◌, Bool, true, false, not, ◌&&◌, ◌||◌, Option, none, some, List, [], ◌∷◌, ◌++◌,
  if◌then◌else◌,
}
use go_fastdfs.Prelude.Int.{ℤ}
use go_fastdfs.Prelude.Text.{Text, lit, text_eq, has_infix, has_suffix}
use go_fastdfs.Server.Types.{slash, store_dir_name}

-- A file with its name, size and time, or a directory with its entries in the order of their names
mutual
  pub data Entry : Type 0 where
    file : Text → ℕ → ℤ → Entry
    dir : Text → Entries → Entry

  pub data Entries : Type 0 where
    nil : Entries
    cons : Entry → Entries → Entries

abbrev pub name_of : Entry → Text
name_of (file name size time) = name
name_of (dir name es) = name

-- `filepath.Join` of a path that is clean, but for a slash at its end
abbrev pub join_path : Text → Text → Text
join_path path name = if has_suffix path slash then path ++ name else path ++ (slash ++ name)

-- `isEmptyDir`: the walk meets nothing but directories.
unfoldable mutual
  pub is_empty_dir : Entries → Bool
  is_empty_dir nil = true
  is_empty_dir (cons e es) = is_empty_entry e && is_empty_dir es

  pub is_empty_entry : Entry → Bool
  is_empty_entry (file name size time) = false
  is_empty_entry (dir name es) = is_empty_dir es

-- The directories of temporary files and of big uploads, and the root
unfoldable pub is_exempt : Text → Bool
is_exempt path =
    has_infix path (store_dir_name ++ lit "/_big")
    || has_infix path (store_dir_name ++ lit "/_tmp")
    || text_eq path store_dir_name

abbrev pub is_nil : Entries → Bool
is_nil nil = true
is_nil (cons e es) = false

abbrev pub cons_left : Option Entry → Entries → Entries
cons_left none es = es
cons_left (some e) es = cons e es

-- The walk of `cleanEmptyFolders`: what is left of an entry, and whether the walk goes on. It has read
-- the names in a directory before it removes the directory, and ends at the first of them, which is
-- not found any more.
unfoldable mutual
  pub clean_entry : Text → Entry → Option Entry × Bool
  clean_entry path (file name size time) = (some (file name size time), true)
  clean_entry path (dir name es) =
      let (left, goes_on) = clean_entries path es in
      if not (is_exempt path) && is_empty_dir es
      then (none, is_nil es)
      else (some (dir name left), goes_on)

  pub clean_entries : Text → Entries → Entries × Bool
  clean_entries path nil = (nil, true)
  clean_entries path (cons e es) =
      let (left, goes_on) = clean_entry (join_path path (name_of e)) e in
      let (rest, ends) = clean_entries path es in
      if goes_on then (cons_left left rest, ends) else (cons_left left es, false)

-- `cleanEmptyFolders` of the directory at a path: the root, if it is left, and whether the walk came to
-- its end
unfoldable pub clean_empty_folders : Text → Entry → Option Entry × Bool
clean_empty_folders path e = clean_entry path e

-- So many runs of it, one a day
unfoldable pub clean_daily : Text → ℕ → Option Entry → Option Entry
clean_daily path zero o = o
clean_daily path (suc n) none = none
clean_daily path (suc n) (some e) = clean_daily path n (clean_empty_folders path e).0

-- The number of directories
unfoldable mutual
  pub dirs : Entry → ℕ
  dirs (file name size time) = 0
  dirs (dir name es) = suc (dirs_in es)

  pub dirs_in : Entries → ℕ
  dirs_in nil = 0
  dirs_in (cons e es) = dirs e + dirs_in es

-- The paths of the files
unfoldable mutual
  pub paths_of : Text → Entry → List Text
  paths_of path (file name size time) = path ∷ []
  paths_of path (dir name es) = paths_in path es

  pub paths_in : Text → Entries → List Text
  paths_in path nil = []
  paths_in path (cons e es) = paths_of (join_path path (name_of e)) e ++ paths_in path es

abbrev pub paths_left : Text → Option Entry → List Text
paths_left path none = []
paths_left path (some e) = paths_of path e

-- Every directory has a file in it or below, but those that are exempt.
unfoldable mutual
  pub is_tidy : Text → Entry → Bool
  is_tidy path (file name size time) = true
  is_tidy path (dir name es) = (is_exempt path || not (is_empty_dir es)) && are_tidy path es

  pub are_tidy : Text → Entries → Bool
  are_tidy path nil = true
  are_tidy path (cons e es) = is_tidy (join_path path (name_of e)) e && are_tidy path es

abbrev pub is_tidy_left : Text → Option Entry → Bool
is_tidy_left path none = true
is_tidy_left path (some e) = is_tidy path e
