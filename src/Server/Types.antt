-- ===== src/Server/Types.antt =====
-- The records of server/fileserver.go and the part of server/config.go that the other modules read.
use go_fastdfs.Prelude.{ℕ, Bool, List, [], ◌∷◌, ◌^◌}
use go_fastdfs.Prelude.Int.{ℤ, pos, negsuc}
use go_fastdfs.Prelude.Text.{Text, lit}

-- `FileInfo`
pub record FileInfo : Type 0 where
  pub name : Text
  pub re_name : Text
  pub path : Text
  pub md5 : Text
  pub size : ℤ
  pub peers : List Text
  pub scene : Text
  pub time_stamp : ℤ
  pub offset : ℤ
  pub retry : ℕ
  pub op : Text

-- The zero value of `FileInfo`
abbrev pub no_info : FileInfo
no_info = record {
  name = [];
  re_name = [];
  path = [];
  md5 = [];
  size = pos 0;
  peers = [];
  scene = [];
  time_stamp = pos 0;
  offset = pos 0;
  retry = 0;
  op = [];
}

-- The offsets that mark a file of its own, and a file that is migrated.
abbrev pub whole_file : ℤ
whole_file = negsuc 0

abbrev pub migrated : ℤ
migrated = negsuc 1

-- The fields of `GlobalConfig` that the modelled code reads, and `DOCKER_DIR`.
pub record Config : Type 0 where
  pub addr : Text
  pub peers : List Text
  pub enable_https : Bool
  pub group : Text
  pub rename_file : Bool
  pub extensions : List Text
  pub download_domain : Text
  pub enable_custom_path : Bool
  pub scenes : List Text
  pub default_scene : Text
  pub download_use_token : Bool
  pub download_token_expire : ℤ
  pub host : Text
  pub peer_id : Text
  pub support_group_manage : Bool
  pub admin_ips : List Text
  pub admin_key : Text
  pub enable_merge_small_file : Bool
  pub enable_distinct_file : Bool
  pub read_only : Bool
  pub enable_google_auth : Bool
  pub auth_url : Text
  pub enable_download_auth : Bool
  pub default_download : Bool
  pub retry_count : ℤ
  pub read_timeout : ℤ
  pub write_timeout : ℤ
  pub sync_worker : ℤ
  pub upload_worker : ℤ
  pub upload_queue_size : ℤ
  pub sync_delay : ℤ
  pub watch_chan_size : ℤ
  pub image_max_width : ℤ
  pub image_max_height : ℤ
  pub enable_trim_file_name_special_char : Bool
  pub enable_cross_origin : Bool
  pub show_dir : Bool
  pub docker_dir : Text

abbrev pub store_dir_name : Text
store_dir_name = lit "files"

abbrev pub large_dir_name : Text
large_dir_name = lit "haystack"

-- 1024 * 1024
abbrev pub small_file_size : ℕ
small_file_size = 2 ^ 20

abbrev pub queue_size : ℕ
queue_size = 10000

abbrev pub error_log : Text
error_log = lit "errors.md5"

abbrev pub queue_log : Text
queue_log = lit "queue.md5"

abbrev pub file_log : Text
file_log = lit "files.md5"

abbrev pub remove_log : Text
remove_log = lit "removes.md5"

-- `fileInfo.ReName` if there is one, else `fileInfo.Name`
unfoldable pub out_name : Text → Text → Text
out_name name [] = name
out_name name (c ∷ s) = c ∷ s

abbrev pub slash : Text
slash = b'/' ∷ []
