-- ===== src/Server/Repair/FromFile.antt =====
-- `RepairFileInfoFromFile` of server/http_repair.go, which records the files that it finds on the disk
-- as migrated ones, and queues them for the peers.
pub mod Listed
use go_fastdfs.Prelude.{
  ℕ, zero, suc, Bool, true, false, not, ◌&&◌, Option, none, some, List, [], ◌∷◌, ◌++◌, map,
  if◌then◌else◌, ◌==◌,
}
use go_fastdfs.Prelude.Int.{ℤ, pos}
use go_fastdfs.Prelude.Text.{Text, lit, text_eq, has_prefix, replace_first}
use go_fastdfs.Server.Types.{FileInfo, no_info, migrated, slash, store_dir_name, large_dir_name}
use go_fastdfs.Server.Folders.{Entry, file, dir, Entries, nil, cons, name_of, join_path}

-- The host, `DOCKER_DIR`, what `Readlink` of the root gives (empty where it is no link) without a slash
-- at its end, and the hash of the content of a file (`none` is an error)
pub record Source : Type 0 where
  pub host : Text
  pub docker_dir : Text
  pub path_prefix : Text
  pub hash : Text → Option Text

abbrev pub to_slashes : Text → Text
to_slashes s = map (λ b. if b == 92 then 47 else b) s

abbrev pub without_docker : Text → Text → Text
without_docker docker path = if text_eq docker [] then path else replace_first path docker []

-- What the loop makes of the path of a directory, before each file that it does not skip
unfoldable pub stored_path : Source → Text → Text
stored_path s path =
    let p = without_docker s.docker_dir (to_slashes path) in
    if text_eq s.path_prefix [] then p else replace_first p s.path_prefix store_dir_name

abbrev pub is_large_dir : Text → Bool
is_large_dir path = has_prefix path (store_dir_name ++ (slash ++ large_dir_name))

abbrev pub new_info : Source → Text → Text → ℕ → ℤ → Text → FileInfo
new_info s path name size time sum = record no_info {
  size = pos size;
  name = name;
  path = path;
  md5 = sum;
  time_stamp = time;
  peers = s.host ∷ [];
  offset = migrated;
}

-- One round of the loop, at the path that the rounds before have left
unfoldable pub file_info : Source → Text → Text → ℕ → ℤ → List FileInfo
file_info s path name size time =
    if is_large_dir path then [] else elim (s.hash (s.docker_dir ++ (path ++ (slash ++ name)))) [
      | none ↦ []
      | some sum ↦ new_info s path name size time sum ∷ []
    ]

-- The loop over the entries of a directory. The path of the directory is replaced in each round.
unfoldable pub repair_files : Source → Text → Entries → List FileInfo
repair_files s path nil = []
repair_files s path (cons (dir name es) rest) = repair_files s path rest
repair_files s path (cons (file name zero time) rest) = repair_files s path rest
repair_files s path (cons (file name (suc n) time) rest) =
    let p = stored_path s path in file_info s p name (suc n) time ++ repair_files s p rest

-- `filepath.Walk`: the records, in the order in which they are saved and queued
unfoldable mutual
  pub repair_entry : Source → Text → Entry → List FileInfo
  repair_entry s path (file name size time) = []
  repair_entry s path (dir name es) = repair_files s path es ++ repair_entries s path es

  pub repair_entries : Source → Text → Entries → List FileInfo
  repair_entries s path nil = []
  repair_entries s path (cons e es) =
      repair_entry s (join_path path (name_of e)) e ++ repair_entries s path es

-- `RepairFileInfoFromFile`, with its lock: a run beside another does nothing. A root that is a file is
-- not walked.
unfoldable pub repair_file_info_from_file : Source → Bool → Text → Entry → List FileInfo
repair_file_info_from_file s locked path e = if locked then [] else repair_entry s path e
