-- ===== src/Server/Download/Fallback/Taken.antt =====
-- A file that is not here is found at a peer, served, and taken (server/http_download.go).
use go_fastdfs.Prelude.{ℕ, ◌≡◌, Bool, true, Option, some, List, ◌∷◌, ◌++◌}
use go_fastdfs.Prelude.Int.{ℤ}
use go_fastdfs.Prelude.Text.{Text}
use go_fastdfs.Server.Types.{FileInfo, Config}
use go_fastdfs.Server.Database.{Database, CountMap}
use go_fastdfs.Server.Disk.{Disk}
use go_fastdfs.Server.SmallFile.{Read}
use go_fastdfs.Server.Paths.{get_file_path_by_info}
use go_fastdfs.Server.Meta.{Meta, stored}
use go_fastdfs.Server.Info.{PathInfo, check_file_exist}
use go_fastdfs.Server.Info.Acknowledgement.{logged_records}
use go_fastdfs.Server.Download.{download, Transfer, download_uri}
use go_fastdfs.Server.Download.Fallback.{Cluster}

-- The path at which a server would have the file of a record, and the URL path of its download
abbrev pub path : Config → FileInfo → Text
path c info = get_file_path_by_info c (stored info) true

module _ (D : Database) (M : CountMap) (hash : Text → Text) (day : ℤ → Text)
    (stat : Text → Option PathInfo) (s : Meta D.State M.State) (info : FileInfo) (p c : Config)
    (of_peer : Disk) where
  -- What the peer, which has logged the file, answers to the hash of its path at the other server
  abbrev pub answer_of_peer : FileInfo
  answer_of_peer =
      (check_file_exist hash stat
        (λ key. D.get (logged_records D M hash day stat p of_peer s info).files key) p of_peer
        (hash (path c info)) (path c info)).answer

  -- The first peer of the list is the server `p`, whose answers come back.
  pub record Asks (read : List ℕ → ℤ → ℤ → Read) (there : Text → Bool) (ps : Cluster) (peer : Text)
      (more : List Text) : Type 0 where
    pub first : c.peers ≡ peer ∷ more
    pub check : ps.check peer (hash (path c info)) (path c info) ≡ some answer_of_peer
    pub page :
        ps.page (peer ++ download_uri c (stored info))
        ≡ download read there true p (download_uri c (stored info)) of_peer

  module _ (read : List ℕ → ℤ → ℤ → Read) (here there : Text → Bool) (find : Text → Option FileInfo)
      (t : Transfer) (rest : Text) (d : Disk) (ps : Cluster) (peer : Text) (more : List Text)
      (b : List ℕ) where
    -- The record as the database keeps it
    abbrev kept : FileInfo
    kept = stored info

    abbrev uri : Text
    uri = download_uri c kept
