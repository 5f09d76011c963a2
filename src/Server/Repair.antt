-- ===== src/Server/Repair.antt =====
-- The repair between two servers: `AutoRepair` of server/http_repair.go, `GetMd5sByDate` and
-- `CheckFileAndSendToPeer` of server/fileserver.go, `ReceiveMd5s`, `GetMd5sForWeb` and `Sync` of
-- server/http_info.go, `SyncFileInfo` of server/http_upload.go. The sets of golang-set are lists; the
-- order in which a set is read is that of its list.
pub mod Sets
pub mod Exchange
pub mod Keyed
pub mod Recount
pub mod FromFile
use go_fastdfs.Prelude.{
  ℕ, Bool, true, false, not, ◌&&◌, ◌||◌, Option, none, some, List, [], ◌∷◌, ◌++◌, if◌then◌else◌,
  length, ltb, map,
}
use go_fastdfs.Prelude.Int.{ℤ, pos, ltb_ℤ}
use go_fastdfs.Prelude.Text.{Text, lit, text_eq, has_prefix, remove_byte, replace_first}
use go_fastdfs.Prelude.TextSet.{contains, insert}
use go_fastdfs.Prelude.Split.{split, join}
use go_fastdfs.Server.Types.{
  FileInfo, Config, slash, store_dir_name, out_name, file_log, queue_log, error_log,
}
use go_fastdfs.Server.Stat.{StatRow}
use go_fastdfs.Server.Sync.{is_migrated}

-- `keys[2]`, where there are three parts
abbrev pub third : List Text → Option Text
third (a ∷ b ∷ c ∷ more) = some c
third _ = none

abbrev pub add_third : Option Text → List Text → List Text
add_third none set = set
add_third (some m) set = insert m set

-- `GetMd5sByDate`, with the keys of the logs
unfoldable pub get_md5s_by_date : List Text → Text → Text → List Text
get_md5s_by_date [] date filename = []
get_md5s_by_date (key ∷ keys) date filename =
    let rest = get_md5s_by_date keys date filename in
    if has_prefix key (date ++ (b'_' ∷ (filename ++ (b'_' ∷ []))))
    then add_third (third (split b'_' key)) rest
    else rest

abbrev pub not_empty : List Text → List Text
not_empty [] = []
not_empty ([] ∷ set) = not_empty set
not_empty ((b ∷ m) ∷ set) = (b ∷ m) ∷ not_empty set

-- `GetMd5sForWeb` for a peer
unfoldable pub get_md5s_for_web : List Text → Text → Text
get_md5s_for_web keys date = join b',' (not_empty (get_md5s_by_date keys date file_log))

-- `Union` and `Difference`
abbrev pub union : List Text → List Text → List Text
union [] ys = ys
union (x ∷ xs) ys = insert x (union xs ys)

abbrev pub difference : List Text → List Text → List Text
difference [] ys = []
difference (x ∷ xs) ys = let rest = difference xs ys in if contains x ys then rest else x ∷ rest

-- What goes into `queueToPeers` and `queueFromPeers`
pub data Queued : Type 0 where
  to_peers from_peers : FileInfo → Queued

-- The records of a set are queued; one that is missing is passed over.
unfoldable pub queue_found : (Text → Option FileInfo) → List Text → List Queued
queue_found find [] = []
queue_found find (m ∷ set) = elim (find m) [
  | none ↦ queue_found find set
  | some info ↦ to_peers info ∷ queue_found find set
]

-- `ReceiveMd5s` for a peer
unfoldable pub receive_md5s : (Text → Option FileInfo) → Text → List Queued
receive_md5s find md5s = queue_found find (not_empty (split b',' md5s))

-- The sets of a repair: what the peer is asked for, and what it is offered
pub record Differences : Type 0 where
  pub asked : Text
  pub offered : List Text

-- What `AutoRepair` does: the request `sync` of a day, the request `receive_md5s`, and what is queued
pub data Repair : Type 0 where
  sync_day : Text → Text → Repair
  ask : Text → Text → Repair
  queue : List Queued → Repair

-- A peer: its answer to `stat`, and to `get_md5s_by_date`; `none` is a request that fails.
pub record Peer : Type 0 where
  pub stat : Option (List StatRow)
  pub md5s : Text → Option Text

-- `StrToMapSet` and `MapSetToStr` of goutil with a comma
module _ (str_to_set : Text → List Text) (set_to_str : List Text → Text) where
  -- The differences of a day, with the hashes of the peer as text
  unfoldable pub differences : List Text → Text → Differences
  differences local md5s =
      let remote = str_to_set md5s in
      let all = union local remote in
      record { asked = set_to_str (difference all local); offered = difference all remote }

  module _ (find : Text → Option FileInfo) (keys : List Text) (count : Text → Option ℤ) where
    abbrev pub same_count : ℤ → ℤ → Bool
    same_count a b = not (ltb_ℤ a b || ltb_ℤ b a)

    unfoldable pub exchange : Text → Text → Text → List Repair
    exchange peer date md5s =
        let d = differences (get_md5s_by_date keys date file_log) md5s in
        ask peer d.asked ∷ queue (queue_found find d.offered) ∷ []

    -- One day of a peer
    unfoldable pub repair_day : Bool → Text → Peer → StatRow → List Repair
    repair_day force name peer row =
        if text_eq row.date (lit "all") then [] else elim (count (row.date ++ lit "_fileCount")) [
          | none ↦ sync_day name row.date ∷ []
          | some n ↦
              if not (same_count n row.file_count) || force
              then elim (peer.md5s row.date) [ none ↦ [] | some md5s ↦ exchange name row.date md5s ]
              else []
        ]

    unfoldable pub repair_days : Bool → Text → Peer → List StatRow → List Repair
    repair_days force name peer [] = []
    repair_days force name peer (row ∷ rows) =
        repair_day force name peer row ++ repair_days force name peer rows

    abbrev pub repair_peer : Bool → Text → Peer → Option (List StatRow) → List Repair
    repair_peer force name peer none = []
    repair_peer force name peer (some rows) = repair_days force name peer rows

    -- `AutoRepair`, for a server on which no other repair runs
    unfoldable pub auto_repair : Bool → (Text → Peer) → List Text → List Repair
    auto_repair force peer [] = []
    auto_repair force peer (name ∷ names) =
        repair_peer force name (peer name) (peer name).stat ++ auto_repair force peer names

-- `CheckFileAndSendToPeer`
abbrev pub sent_again : Config → Text → Text → Bool → FileInfo → List Queued
sent_again c host filename force info =
    let peers = if force then [] else info.peers in
    if ltb (length c.peers) (length peers)
    then []
    else let marked : FileInfo = record info {
      peers = if contains host peers then peers else peers ++ host ∷ [];
    } in
      if text_eq filename queue_log then from_peers marked ∷ [] else to_peers marked ∷ []

unfoldable pub send_set :
    (Text → Option FileInfo) → Config → Text → Text → Bool → List Text → List Queued
send_set find c host filename force [] = []
send_set find c host filename force (m ∷ set) =
    let rest = send_set find c host filename force set in
    elim (find m) [
      | none ↦ rest
      | some info ↦
          if text_eq info.md5 [] then rest else sent_again c host filename force info ++ rest
    ]

unfoldable pub check_file_and_send_to_peer :
    (Text → Option FileInfo) → List Text → Config → Text → Text → Text → Bool → List Queued
check_file_and_send_to_peer find keys c host date filename force =
    send_set find c host filename force (get_md5s_by_date keys date filename)

-- `Sync`: the peers to which it is passed on, and the job, with the answer
pub data SyncAnswer : Type 0 where
  not_in_cluster require_date job_running : SyncAnswer

pub record SyncJob : Type 0 where
  pub forwarded : List Text
  pub job : Option (Text × Text × Bool)
  pub answer : SyncAnswer

unfoldable pub sync : Bool → Config → Text → Text → Text → SyncJob
sync is_peer c force inner date =
    let forced = text_eq force (lit "1") in
    let forwarded = if text_eq inner (lit "1") then [] else c.peers in
    if not is_peer
    then record { forwarded = []; job = none; answer = not_in_cluster }
    else if text_eq date []
    then record { forwarded = forwarded; job = none; answer = require_date }
    else record {
      forwarded = forwarded;
      job = some (remove_byte b'.' date, if forced then file_log else error_log, forced);
      answer = job_running;
    }

-- `SyncFileInfo` with the record that the request holds: whether the record is saved under its hash
-- or logged in queue.md5, what is queued, and the URL of the answer
pub data SyncSaved : Type 0 where
  by_hash in_queue_log : SyncSaved

unfoldable pub sync_file_info : Config → Text → FileInfo → SyncSaved × Queued × Text
sync_file_info c host info =
    let p = replace_first info.path (c.docker_dir ++ (store_dir_name ++ slash)) [] in
    (
      if is_migrated info.offset then by_hash else in_queue_log,
      from_peers info,
      lit "http://"
          ++ (host
              ++ (slash
                  ++ (c.group ++ (slash ++ (p ++ (slash ++ out_name info.name info.re_name)))))),
    )
