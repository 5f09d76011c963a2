-- ===== src/Server/Sync.antt =====
-- What a server sends to its peers and takes from them: `postFileToPeer` of server/fileserver.go,
-- `ConsumerDownLoad` and the guard of `DownloadFromPeer` of server/http_download.go.
pub mod Acknowledged
pub mod Retries
pub mod Choice
pub mod Queue
pub mod Drain
pub mod Workers
use go_fastdfs.Prelude.{
  ℕ, zero, suc, ◌≡◌, Bool, true, false, not, ◌&&◌, ◌||◌, Option, none, some, List, [], ◌∷◌, ◌++◌,
  if◌then◌else◌, leb, ltb, ◌==◌,
}
use go_fastdfs.Prelude.Int.{ℤ, pos, negsuc, ltb_ℤ, leb_ℤ}
use go_fastdfs.Prelude.Text.{Text, lit, text_eq, has_prefix, has_infix}
use go_fastdfs.Prelude.Split.{before}
use go_fastdfs.Prelude.TextSet.{contains}
use go_fastdfs.Server.Types.{FileInfo, Config, slash}

-- The answer to a request: its text, and whether the request failed
pub record Reply : Type 0 where
  pub text : Text
  pub failed : Bool

-- The disk, and the peers: the size of a file (`none` if there is none), whether
-- `checkPeerFileExist` of a peer gives a record with a hash, and the answer to `syncfile_info`
pub record World : Type 0 where
  pub stat : Text → Option ℤ
  pub has_file : Text → Text → Bool
  pub post : Text → FileInfo → Reply

-- What `postFileToPeer` does besides: `SaveFileInfoToLevelDB` of the file under its hash,
-- `AppendToQueue`, and `SaveFileMd5Log` for errors.md5
pub data Effect : Type 0 where
  saved queued error_logged : FileInfo → Effect

-- `fileInfo.OffSet == -1`, and `fileInfo.OffSet == -2`
abbrev pub is_whole : ℤ → Bool
is_whole (pos n) = false
is_whole (negsuc n) = n == 0

abbrev pub is_migrated : ℤ → Bool
is_migrated (pos n) = false
is_migrated (negsuc n) = n == 1

unfoldable pub sent_name : FileInfo → Text
sent_name info =
    if text_eq info.re_name []
    then info.name
    else if is_whole info.offset
    then info.re_name
    else before b',' info.re_name

unfoldable pub sent_path : Config → FileInfo → Text
unfolding sent_name
sent_path c info = c.docker_dir ++ (info.path ++ (slash ++ sent_name info))

-- The size of the disk, where none is known
abbrev pub sized : ℤ → ℤ → ℤ
sized on_disk (pos zero) = on_disk
sized on_disk (pos (suc n)) = pos (suc n)
sized on_disk (negsuc n) = negsuc n

abbrev pub add_peer : Text → FileInfo → FileInfo
add_peer peer info = record info { peers = info.peers ++ peer ∷ [] }

abbrev pub accepted : Reply → Bool
accepted r = has_prefix r.text (lit "http://")

-- The retry of a request that failed
unfoldable pub retried : Config → FileInfo → Reply → FileInfo × List Effect
retried c info r =
    let again = record info { retry = suc info.retry } in
    if r.failed && leb_ℤ (pos info.retry) c.retry_count
    then (again, queued again ∷ [])
    else (info, [])

-- From the answer to the end of the round
unfoldable pub on_reply : Config → Text → FileInfo → Reply → FileInfo × List Effect
unfolding retried
on_reply c peer info r =
    let (i, es) = retried c info r in
    let logs = if not (accepted r) || r.failed then error_logged i ∷ [] else [] in
    if accepted r && not (contains peer i.peers)
    then (add_peer peer i, es ++ (logs ++ saved (add_peer peer i) ∷ []))
    else (i, es ++ logs)

-- A peer that has not acknowledged the file, which is there
unfoldable pub post_to : Config → World → Text → FileInfo → FileInfo × List Effect
unfolding on_reply
post_to c w peer info =
    if not (is_migrated info.offset) && c.enable_distinct_file && w.has_file peer info.md5
    then (add_peer peer info, saved (add_peer peer info) ∷ [])
    else on_reply c peer info (w.post peer info)

-- One round of the loop
unfoldable pub peer_step : Config → World → Text → FileInfo → FileInfo × List Effect
unfolding sent_path post_to
peer_step c w peer info =
    if contains peer info.peers then (info, []) else elim (w.stat (sent_path c info)) [
      | none ↦ (info, [])
      | some size ↦ post_to c w peer (record info { size = sized size info.size })
    ]

unfoldable pub post_loop : Config → World → List Text → FileInfo → FileInfo × List Effect
unfolding peer_step
post_loop c w [] info = (info, [])
post_loop c w (peer ∷ peers) info =
    let (i, es) = peer_step c w peer info in let (j, fs) = post_loop c w peers i in (j, es ++ fs)

-- `postFileToPeer`
unfoldable pub post_file_to_peer : Config → World → FileInfo → FileInfo × List Effect
unfolding post_loop
post_file_to_peer c w info = post_loop c w c.peers info

-- `ConsumerDownLoad` at one file: the peer that `DownloadFromPeer` is called with
unfoldable pub choose_peer : Text → List Text → Option Text
choose_peer host [] = none
choose_peer host (peer ∷ peers) =
    let rest = choose_peer host peers in
    if has_infix peer (lit "127.0.0.1") || text_eq peer host then rest else some peer

-- The guard of `DownloadFromPeer`: the file with its attempts counted, where it goes on
unfoldable pub begin_download : Config → FileInfo → Option FileInfo
begin_download c info =
    if c.read_only
    then none
    else if ltb_ℤ (pos 0) c.retry_count && leb_ℤ c.retry_count (pos info.retry)
    then none
    else if not (ltb_ℤ (pos 0) c.retry_count) && ltb 0 info.retry
    then none
    else some (record info { retry = suc info.retry })
