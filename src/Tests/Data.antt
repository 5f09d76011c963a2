-- ===== src/Tests/Data.antt =====
-- Data for the tests of the server: a configuration (server/config.go), a file, and a reader of parts.
use go_fastdfs.Prelude.{ℕ, refl, false, true, List, [], take, drop}
use go_fastdfs.Prelude.Int.{ℤ, pos}
use go_fastdfs.Prelude.Text.{lit}
use go_fastdfs.Server.Types.{FileInfo, Config, no_info}
use go_fastdfs.Server.SmallFile.{Read, bytes, failed}
use go_fastdfs.Server.SmallFile.Store.{ReadsParts}

unfoldable pub read : List ℕ → ℤ → ℤ → Read
read file (pos offset) (pos size) = bytes (take size (drop offset file))
read file _ _ = failed false

pub reads : ReadsParts read
unfolding read
reads file offset size h = refl

abbrev pub cfg : Config
cfg = record {
  addr = lit ":8080";
  peers = [];
  enable_https = false;
  group = lit "group1";
  rename_file = false;
  extensions = [];
  download_domain = [];
  enable_custom_path = true;
  scenes = [];
  default_scene = lit "default";
  download_use_token = false;
  download_token_expire = pos 600;
  host = lit "http://10.0.0.1:8080";
  peer_id = lit "1";
  support_group_manage = true;
  admin_ips = [];
  admin_key = [];
  enable_merge_small_file = true;
  enable_distinct_file = true;
  read_only = false;
  enable_google_auth = false;
  auth_url = [];
  enable_download_auth = false;
  default_download = true;
  retry_count = pos 3;
  read_timeout = pos 0;
  write_timeout = pos 0;
  sync_worker = pos 0;
  upload_worker = pos 0;
  upload_queue_size = pos 0;
  sync_delay = pos 0;
  watch_chan_size = pos 0;
  image_max_width = pos 0;
  image_max_height = pos 0;
  enable_trim_file_name_special_char = true;
  enable_cross_origin = false;
  show_dir = true;
  docker_dir = [];
}

abbrev pub hello : FileInfo
hello = record no_info { name = lit "a.txt"; size = pos 5 }
