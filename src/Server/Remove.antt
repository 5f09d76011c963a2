-- ===== src/Server/Remove.antt =====
-- The removal of a file: `RemoveFile` of server/http_remove.go.
pub mod Effects
pub mod Downloading
use go_fastdfs.Prelude.{
  ℕ, Bool, true, false, not, ◌&&◌, Option, none, some, List, [], ◌∷◌, ◌++◌, map, if◌then◌else◌, ltb,
  length,
}
use go_fastdfs.Prelude.Int.{ℤ, pos, negsuc}
use go_fastdfs.Prelude.Text.{Text, lit, text_eq, replace_first}
use go_fastdfs.Server.Types.{FileInfo, Config, remove_log, store_dir_name, slash}
use go_fastdfs.Server.Meta.{FileLog, full_path}
use go_fastdfs.Server.Paths.{get_request_uri}

-- The messages of the answer; `cannot_remove` stands for the text of the error of `os.Remove`.
pub data Answer : Type 0 where
  cluster_not_permit not_permit md5_unvalid not_found small_file cannot_remove remove_success
        fail_remove :
      Answer

-- The answer, the requests to peers (their URL and the hash), the log, and the path that
-- `os.Remove` is called with
pub record Removal : Type 0 where
  pub answer : Answer
  pub asked : List (Text × Text)
  pub log : Option FileLog
  pub removed : Option Text

abbrev pub refusal : Answer → List (Text × Text) → Removal
refusal answer asked = record { answer = answer; asked = asked; log = none; removed = none }

-- The path of the request in the store
unfoldable pub store_path_of : Config → Text → Text
store_path_of c path =
    if not (text_eq c.group []) && c.support_group_manage
    then replace_first path (slash ++ (c.group ++ slash)) (store_dir_name ++ slash)
    else replace_first path slash (store_dir_name ++ slash)

abbrev pub is_small : ℤ → Bool
is_small (pos n) = true
is_small (negsuc n) = false

module _ (hash : Text → Text) (find : Text → Option FileInfo) (exists removes : Text → Bool) where
  -- The hash by which the file is looked for
  unfoldable pub remove_key_of : Config → Text → Text → Text
  unfolding store_path_of
  remove_key_of c md5 path =
      if not (text_eq path []) && text_eq md5 [] then hash (store_path_of c path) else md5

  -- The goroutines that ask the peers
  unfoldable pub ask_peers : Config → Text → Text → List (Text × Text)
  unfolding get_request_uri
  ask_peers c inner key =
      if text_eq inner (lit "1")
      then []
      else map (λ peer. (peer ++ get_request_uri c (lit "delete"), key)) c.peers

  -- From the record that is found
  unfoldable pub remove_found : Config → List (Text × Text) → FileInfo → Removal
  remove_found c asked info =
      if is_small info.offset
      then refusal small_file asked
      else if not (text_eq info.path []) && exists (c.docker_dir ++ full_path info)
      then record {
        answer = if removes (c.docker_dir ++ full_path info) then remove_success else cannot_remove;
        asked = asked;
        log = some (record { info = info; file_name = remove_log });
        removed = some (c.docker_dir ++ full_path info);
      }
      else refusal fail_remove asked

  -- `RemoveFile`, with the answers of `IsPeer` and `CheckAuth`
  unfoldable pub remove_file_by : Config → Bool → Bool → Text → Text → Text → Removal
  unfolding remove_key_of ask_peers remove_found
  remove_file_by c peer auth md5 path inner =
      let key = remove_key_of c md5 path in
      let asked = ask_peers c inner key in
      if not peer
      then refusal cluster_not_permit []
      else if not (text_eq c.auth_url []) && not auth
      then refusal not_permit []
      else if ltb (length key) 32
      then refusal md5_unvalid asked
      else elim (find key) [
        | none ↦ refusal not_found asked
        | some info ↦ remove_found c asked info
      ]
