-- ===== src/Tests/Fallback.antt =====
-- A request for a file that a peer has (server/http_download.go) at concrete data.
use go_fastdfs.Prelude.{true, none, some, [], ◌∷◌}
use go_fastdfs.Prelude.Text.{Text, lit}
use go_fastdfs.Server.Types.{Config}
use go_fastdfs.Server.Download.{download, Transfer, download_uri}
use go_fastdfs.Server.Download.Fallback.{Cluster}
use go_fastdfs.Server.Download.Fallback.Taken.{answer_of_peer}
use go_fastdfs.Tests.Data.{cfg, read}
use go_fastdfs.Tests.Memory.{memory, tally_map}
use go_fastdfs.Tests.Meta.{hash, day, empty}
use go_fastdfs.Tests.Download.{no_dir, reply_of, transfer, doc, of_peer}

abbrev peer : Text
peer = lit "http://b"

abbrev one : Config
one = record cfg { peers = peer ∷ []; peer_id = lit "2" }

-- The peer answers as the server of the configuration `cfg`.
abbrev peers : Cluster
peers = record {
  check = λ p key q.
      some (answer_of_peer memory tally_map hash day (λ x. none) empty doc cfg one of_peer);
  page = λ address. download read no_dir true cfg (download_uri one doc) of_peer;
}

abbrev taking : Transfer
taking = record (transfer cfg doc of_peer) {
  reply = reply_of (download read no_dir true cfg (download_uri one doc) of_peer);
}
