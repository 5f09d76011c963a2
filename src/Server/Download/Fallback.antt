-- ===== src/Server/Download/Fallback.antt =====
-- A request for a file that is not here: `DownloadNotFound` of server/http_download.go asks the peers
-- by `checkPeerFileExist` of server/fileserver.go, and passes on what one of them sends.
pub mod Taken
use go_fastdfs.Prelude.{
  ℕ, Bool, true, false, Option, none, some, List, [], ◌∷◌, ◌++◌, if◌then◌else◌,
}
use go_fastdfs.Prelude.Int.{ℤ}
use go_fastdfs.Prelude.Text.{Text, text_eq}
use go_fastdfs.Server.Types.{FileInfo, Config}
use go_fastdfs.Server.Disk.{Disk}
use go_fastdfs.Server.SmallFile.{Read}
use go_fastdfs.Server.Paths.{get_file_path_from_request}
use go_fastdfs.Server.Download.{
  Page, not_permitted, index, listing_denied, listing, missing, panic, file, download,
}

-- The record that a peer answers to `check_file_exist` with a hash and a path (`none` is a request that
-- fails), and what is behind an address (the page of a request that fails is what the parameter says)
pub record Cluster : Type 0 where
  pub check : Text → Text → Text → Option FileInfo
  pub page : Text → Page

-- `checkPeerFileExist`: a record without a hash is an error.
unfoldable pub check_peer_file_exist : Cluster → Text → Text → Text → Option FileInfo
check_peer_file_exist ps peer key path = elim (ps.check peer key path) [
  | none ↦ none
  | some info ↦ if text_eq info.md5 [] then none else some info
]

-- The loop of `DownloadNotFound`: the answer, and the peer and the record with which
-- `DownloadFromPeer` is started
unfoldable pub ask_each : Cluster → List Text → Text → Text → Text → Page × Option (Text × FileInfo)
ask_each ps [] key path uri = (missing, none)
ask_each ps (peer ∷ peers) key path uri =
    let rest = ask_each ps peers key path uri in
    elim (check_peer_file_exist ps peer key path) [
      | none ↦ rest
      | some info ↦ (ps.page (peer ++ uri), some (peer, info))
    ]

-- `DownloadNotFound`, with the paths of `GetFilePathFromRequest`
unfoldable pub download_not_found :
    (Text → Text) → Cluster → Config → Text → Text × Text → Page × Option (Text × FileInfo)
download_not_found hash ps c uri (full, small) =
    ask_each ps c.peers (hash (if text_eq small [] then full else small)) full uri

abbrev pub is_missing : Page → Bool
is_missing missing = true
is_missing not_permitted = false
is_missing index = false
is_missing listing_denied = false
is_missing listing = false
is_missing panic = false
is_missing (file b) = false

-- `Download` with `DownloadNotFound`
unfoldable pub download_or_ask :
    (List ℕ → ℤ → ℤ → Read)
    → (Text → Bool)
    → (Text → Text)
    → Cluster
    → Bool
    → Config
    → Text
    → Disk
    → Page × Option (Text × FileInfo)
download_or_ask read is_dir hash ps allowed c uri d =
    let page = download read is_dir allowed c uri d in
    if is_missing page
    then download_not_found hash ps c uri (get_file_path_from_request c uri)
    else (page, none)
