-- ===== src/Server/Upload/Save.antt =====
-- `SaveUploadFile` of server/http_upload.go.
pub mod Stored
use go_fastdfs.Prelude.{
  ℕ, ◌≡◌, Bool, true, false, not, ◌&&◌, ◌||◌, Option, none, some, List, [], ◌∷◌, ◌++◌,
  if◌then◌else◌, ◌==◌, length, take,
}
use go_fastdfs.Prelude.Int.{ℤ, pos}
use go_fastdfs.Prelude.Text.{Text, lit, text_eq, to_lower, after_last, replace_first}
use go_fastdfs.Prelude.TextSet.{contains}
use go_fastdfs.Server.Types.{FileInfo, Config}
use go_fastdfs.Server.Disk.{Disk, exists, write}
use go_fastdfs.Server.SmallFile.{path_ext}
use go_fastdfs.Server.Upload.Place.{trim_file_name, folder_of, choose_path}

-- What the server takes from outside: the time as `20060102/15/04` and in seconds, the hash of a
-- new UUID, its own address, the hash of contents (`GetFileSum`), MD5, `fmt.Sprintf` of a format
-- that holds a percent sign, and the secrets and codes of scenes
pub record Env : Type 0 where
  pub time : Text
  pub now : ℤ
  pub uuid_md5 : Text
  pub host : Text
  pub checksum : List ℕ → Text
  pub hash : Text → Text
  pub sprintf : Text → List Text → Text
  pub secret : Text → Option Text
  pub verify : Text → Text → ℤ → Bool

-- The file of a form: its name, the size in its header, and its bytes
pub record FormFile : Type 0 where
  pub file_name : Text
  pub header_size : ℕ
  pub bytes : List ℕ

-- What can fail in the system: a copy fails behind some bytes.
pub data SaveFault : Type 0 where
  create : SaveFault
  copying : ℕ → SaveFault
  stat : SaveFault

pub data SaveError : Type 0 where
  extension_mismatch system_error uncomplete : SaveError

pub record Outcome : Type 0 where
  pub error : Option SaveError
  pub info : FileInfo
  pub disk : Disk

-- The name of the file
unfoldable pub clean_name : Config → Text → Text
unfolding trim_file_name after_last
clean_name c file_name =
    let name = after_last b'/' file_name in
    if c.enable_trim_file_name_special_char then trim_file_name name else name

unfoldable pub allowed_extension : Config → Text → Bool
unfolding path_ext to_lower
allowed_extension c name =
    (length c.extensions == 0) || contains (path_ext (to_lower name)) c.extensions

-- The custom name of the file, or the one that it gets
unfoldable pub custom_name : Env → Config → FileInfo → Text → Text
custom_name e c info name = if c.rename_file then e.uuid_md5 ++ path_ext name else info.re_name

-- From the creation of the file on, at a path and with the name that it gives
unfoldable pub store_file :
    Env → Config → Option SaveFault → FormFile → Text → Text → FileInfo → Disk → Outcome
store_file e c (some create) file folder path info d = record {
  error = some system_error;
  info = info;
  disk = d;
}
store_file e c (some (copying n)) file folder path info d = record {
  error = some system_error;
  info = info;
  disk = write path (take n file.bytes) d;
}
store_file e c (some stat) file folder path info d = record {
  error = some system_error;
  info = info;
  disk = write path file.bytes d;
}
store_file e c none file folder path info d =
    let sized = record info { size = pos (length file.bytes) } in
    if length file.bytes == file.header_size
    then record {
      error = none;
      info = record sized {
        md5 = e.checksum file.bytes;
        path = replace_first folder c.docker_dir [];
        peers = info.peers ++ e.host ∷ [];
      };
      disk = write path file.bytes d;
    }
    else record { error = some uncomplete; info = sized; disk = write path file.bytes d }

-- `SaveUploadFile`, with the fault that is met
unfoldable pub save_upload_file :
    Env → Config → Option SaveFault → FormFile → FileInfo → Disk → Outcome
unfolding store_file
save_upload_file e c fault file info d =
    let name = clean_name c file.file_name in
    let re_name = custom_name e c info name in
    let folder = folder_of c e.time info.scene info.path in
    let (path, final) = choose_path e.sprintf (exists d) c folder name re_name in
    if allowed_extension c name
    then store_file e c fault file folder path (record info { name = final; re_name = re_name }) d
    else record { error = some extension_mismatch; info = record info { name = name }; disk = d }
