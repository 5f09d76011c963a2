-- ===== src/Server/Info.antt =====
-- Requests for the records of files: `CheckFileExist`, `CheckFilesExist` and `GetFileInfo` of
-- server/http_info.go.
pub mod Acknowledgement
use go_fastdfs.Prelude.{
  ℕ, Bool, true, false, not, ◌&&◌, ◌||◌, Option, none, some, List, [], ◌∷◌, ◌++◌, if◌then◌else◌,
}
use go_fastdfs.Prelude.Int.{ℤ, pos}
use go_fastdfs.Prelude.Text.{Text, lit, text_eq, replace_first}
use go_fastdfs.Prelude.Split.{split}
use go_fastdfs.Server.Types.{FileInfo, Config, no_info, whole_file, slash, store_dir_name}
use go_fastdfs.Server.Disk.{Disk, exists}
use go_fastdfs.Server.Paths.{get_file_path_by_info}
use go_fastdfs.Server.Sync.{is_whole}

-- The record that is sent, an empty one where nothing is found, and the key that is removed
pub record Found : Type 0 where
  pub answer : FileInfo
  pub removed : Option Text

-- What the disk tells of a path that has no record: the size and the time of the file, `path.Dir` and
-- `path.Base` of the path
pub record PathInfo : Type 0 where
  pub size : ℤ
  pub mod_time : ℤ
  pub dir : Text
  pub base : Text

-- The record of a file without one
abbrev pub made : (Text → Text) → Config → Text → PathInfo → FileInfo
made hash c path p = record no_info {
  path = p.dir;
  name = p.base;
  size = p.size;
  md5 = hash path;
  peers = c.host ∷ [];
  offset = whole_file;
  time_stamp = p.mod_time;
}

-- A record that is found: one of a small or a migrated file is sent as it is.
unfoldable pub check_record : Config → Text → FileInfo → Disk → Found
check_record c key info d =
    if not (is_whole info.offset) || exists d (get_file_path_by_info c info true)
    then record { answer = info; removed = none }
    else record { answer = no_info; removed = some key }

-- `CheckFileExist`
unfoldable pub check_file_exist :
    (Text → Text)
    → (Text → Option PathInfo)
    → (Text → Option FileInfo)
    → Config
    → Disk
    → Text
    → Text
    → Found
check_file_exist hash stat find c d md5 path = elim (find md5) [
  | some info ↦ check_record c md5 info d
  | none ↦
      if text_eq path [] then record { answer = no_info; removed = none } else elim (stat path) [
        | none ↦ record { answer = no_info; removed = none }
        | some p ↦ record { answer = made hash c path p; removed = none }
      ]
]

-- `CheckFilesExist`: the records that are sent, and the keys that are removed. The key is the whole
-- list of hashes of the request.
abbrev pub add_found : Found → List FileInfo × List Text → List FileInfo × List Text
add_found f (infos, removed) = elim f.removed [
  | none ↦ (f.answer ∷ infos, removed)
  | some key ↦ (infos, key ∷ removed)
]

unfoldable pub check_each :
    (Text → Option FileInfo) → Config → Disk → Text → List Text → List FileInfo × List Text
check_each find c d md5s [] = ([], [])
check_each find c d md5s (m ∷ ms) =
    let rest = check_each find c d md5s ms in
    elim (find m) [ none ↦ rest | some info ↦ add_found (check_record c md5s info d) rest ]

unfoldable pub check_files_exist :
    (Text → Option FileInfo) → Config → Disk → Text → List FileInfo × List Text
check_files_exist find c d md5s = check_each find c d md5s (split b',' md5s)

-- `GetFileInfo`: a request that is no peer's, a record, or the error that there is none
pub data InfoAnswer : Type 0 where
  not_permitted not_found : InfoAnswer
  info_of : FileInfo → InfoAnswer

unfoldable pub get_file_info :
    (Text → Text) → (Text → Option FileInfo) → Bool → Config → Text → Text → InfoAnswer
get_file_info hash find is_peer c md5 path =
    let stored = replace_first path (slash ++ (c.group ++ slash)) (store_dir_name ++ slash) in
    if not is_peer
    then not_permitted
    else elim (find (if text_eq path [] then md5 else hash stored)) [
      | none ↦ not_found
      | some info ↦ info_of info
    ]
