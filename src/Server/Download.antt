-- ===== src/Server/Download.antt =====
-- The downloads of server/http_download.go: `Download`, which answers a request for a file, and
-- `DownloadFromPeer`, which takes a file from a peer.
pub mod Absent
pub mod Replica
pub mod Held
pub mod Part
pub mod Fallback
use go_fastdfs.Prelude.{
  ℕ, Bool, true, false, not, ◌&&◌, ◌||◌, Option, none, some, List, [], ◌∷◌, ◌++◌, if◌then◌else◌,
  ◌==◌, length,
}
use go_fastdfs.Prelude.Int.{ℤ, pos, negsuc, ltb_ℤ}
use go_fastdfs.Prelude.Text.{Text, lit, text_eq, has_infix, replace_first}
use go_fastdfs.Prelude.Split.{before}
use go_fastdfs.Server.Types.{FileInfo, Config, slash, store_dir_name, out_name, file_log}
use go_fastdfs.Server.Disk.{Disk, exists, write, erase}
use go_fastdfs.Server.SmallFile.{Read, Sent, content, not_found, panicked, sent, get_small_file}
use go_fastdfs.Server.Paths.{get_file_path_by_info, get_file_path_from_request}
use go_fastdfs.Server.Sync.{is_migrated, begin_download}

-- What `Download` answers: a page, the bytes of a file, or what `DownloadNotFound` finds at the peers
pub data Page : Type 0 where
  not_permitted index listing_denied listing missing panic : Page
  file : List ℕ → Page

abbrev pub page_of : Sent → Page
page_of (content b) = file b
page_of not_found = missing
page_of panicked = panic

abbrev pub is_index : Config → Text → Bool
is_index c uri =
    text_eq uri slash
    || text_eq uri []
    || text_eq uri (slash ++ c.group)
    || text_eq uri (slash ++ (c.group ++ slash))

module _ (read : List ℕ → ℤ → ℤ → Read) (is_dir : Text → Bool) where
  -- The file of a request that is permitted
  unfoldable pub send_file : Config → Text → Text × Text → Disk → Page
  send_file c uri (full, small) d =
      if text_eq small []
      then if is_dir full
        then if c.show_dir then listing else listing_denied
        else elim (d full) [ none ↦ missing | some b ↦ file b ]
      else page_of (sent (get_small_file read uri (d full)))

  -- `Download`, with the answer of `CheckDownloadAuth`, for a request that does not resize a picture.
  -- net/http sends the file at the path of the request.
  unfoldable pub download : Bool → Config → Text → Disk → Page
  download allowed c uri d =
      if has_infix uri (lit "..")
      then not_permitted
      else if is_index c uri
      then index
      else if allowed
      then send_file c uri (get_file_path_from_request c uri) d
      else not_permitted

-- What a download meets: the bytes that the peer sends (`none` is a request that fails), whether the
-- temporary file is found again and can be rename_done, `WriteFileByOffSet` of goutil (`none` is an
-- error), and the times of the files
pub record Transfer : Type 0 where
  pub reply : Option (List ℕ)
  pub found : Bool
  pub rename_done : Bool
  pub write_at : List ℕ → ℤ → List ℕ → Option (List ℕ)
  pub mod_time : Text → ℤ

-- What `DownloadFromPeer` does besides: `AppendToDownloadQueue`, `SaveFileMd5Log` for files.md5,
-- `SaveFileInfoToLevelDB` under the hash, and `postFileToPeer`
pub data Event : Type 0 where
  requeued logged recorded posted : FileInfo → Event

abbrev pub is_size : Option (List ℕ) → ℤ → Bool
is_size none size = false
is_size (some b) (pos n) = length b == n
is_size (some b) (negsuc n) = false

-- `CheckFileExistByInfo`, with `GetFileInfoFromLevelDB`
unfoldable pub check_file_exist_by_info :
    (Text → Option FileInfo) → Config → ℤ → FileInfo → Disk → Bool
check_file_exist_by_info find c (pos n) info d = elim (find info.md5) [
  | none ↦ false
  | some v ↦ text_eq v.md5 info.md5
]
check_file_exist_by_info find c (negsuc n) info d =
    is_size (d (get_file_path_by_info c info true)) info.size

abbrev pub temporary : Config → FileInfo → Text
temporary c info =
    c.docker_dir ++ (info.path ++ (slash ++ (lit "tmp_" ++ out_name info.name info.re_name)))

-- The path in the URL of a file at the peer
unfoldable pub download_uri : Config → FileInfo → Text
download_uri c info =
    let p = replace_first info.path (store_dir_name ++ slash) [] in
    let filename = out_name info.name info.re_name in
    if c.support_group_manage
    then slash ++ (c.group ++ (slash ++ (p ++ (slash ++ filename))))
    else slash ++ (p ++ (slash ++ filename))

-- The temporary file takes its name, and the file is noted.
unfoldable pub rename : Config → Transfer → FileInfo → List ℕ → Event → Disk → Disk × List Event
rename c t info b event d =
    if t.rename_done
    then (write (get_file_path_by_info c info true) b (erase (temporary c info) d), event ∷ [])
    else (d, [])

-- A file of its own is taken: `event` notes it where it is there. A migrated file of another size is
-- removed, and then cannot be rename_done.
unfoldable pub take_whole : Config → Transfer → FileInfo → Event → Disk → Disk × List Event
take_whole c t info event d = elim t.reply [
  | none ↦ (erase (temporary c info) d, requeued info ∷ [])
  | some b ↦
      let written = write (temporary c info) b d in
      if t.found && is_size (some b) info.size
      then rename c t info b event written
      else (erase (temporary c info) written, [])
]

abbrev pub bytes_at : Disk → Text → List ℕ
bytes_at d path = elim (d path) [ none ↦ [] | some b ↦ b ]

-- A small file is taken: its mark and its bytes are written into the large file.
abbrev pub small_target : Config → FileInfo → Text
small_target c info = before b',' (get_file_path_by_info c info true)

unfoldable pub take_small : Config → Transfer → FileInfo → Disk → Disk × List Event
take_small c t info d = elim t.reply [
  | none ↦ (d, requeued info ∷ [])
  | some b ↦
      if is_size (some (49 ∷ b)) info.size
      then elim (t.write_at (bytes_at d (small_target c info)) info.offset (49 ∷ b)) [
        | none ↦ (d, [])
        | some large ↦ (write (small_target c info) large d, logged info ∷ [])
      ]
      else (d, [])
]

-- The request to the peer, by the offset of the file
unfoldable pub take_file : Config → Transfer → ℤ → FileInfo → Disk → Disk × List Event
take_file c t (pos n) info d = take_small c t info d
take_file c t (negsuc n) info d =
    if n == 1
    then if is_size (d (get_file_path_by_info c info true)) info.size
      then (d, recorded info ∷ [])
      else take_whole c t info (recorded info) d
    else take_whole c t info (logged info) d

-- `DownloadFromPeer` behind its guard. The mark of the download, a key of the database, is there only
-- while it runs.
unfoldable pub download_file :
    (Text → Option FileInfo) → Config → Transfer → FileInfo → Disk → Disk × List Event
download_file find c t info d =
    let path = get_file_path_by_info c info true in
    if not (is_migrated info.offset)
      && c.enable_distinct_file
      && check_file_exist_by_info find c info.offset info d
    then (d, [])
    else if (not c.enable_distinct_file || is_migrated info.offset) && exists d path
    then if ltb_ℤ info.time_stamp (t.mod_time path)
      then (d, posted (record info { time_stamp = t.mod_time path }) ∷ [])
      else take_file c t info.offset info (erase path d)
    else take_file c t info.offset info d

-- `DownloadFromPeer`
unfoldable pub download_from_peer :
    (Text → Option FileInfo) → Config → Transfer → FileInfo → Disk → Disk × List Event
download_from_peer find c t info d = elim (begin_download c info) [
  | none ↦ (d, [])
  | some counted ↦ download_file find c t counted d
]
