-- ===== src/Tests/Sync.antt =====
-- Synchronisation (server/fileserver.go, server/http_download.go) at concrete data.
use go_fastdfs.Prelude.{◌≡◌, refl, some, [], ◌∷◌, arith, if◌then◌else◌}
use go_fastdfs.Prelude.Int.{pos}
use go_fastdfs.Prelude.Text.{lit, text_eq, has_infix, has_prefix}
use go_fastdfs.Server.Types.{FileInfo, Config}
use go_fastdfs.Server.Sync.{World, post_file_to_peer, choose_peer}
use go_fastdfs.Server.Sync.Acknowledged.{Adds, post_file_to_peer-Adds}
use go_fastdfs.Server.Sync.Queue.{consume}
use go_fastdfs.Server.Sync.Drain.{doubled, consume-total}
use go_fastdfs.Tests.Data.{cfg, hello}

abbrev three : Config
three = record cfg { peers = lit "http://a" ∷ lit "http://b" ∷ lit "http://c" ∷ [] }

-- One peer has the file, one takes it, and one does not answer.
abbrev pub world : World
world = record {
  stat = λ path. some (pos 5);
  has_file = λ peer md5. text_eq peer (lit "http://a");
  post = λ peer info. record {
    text = if text_eq peer (lit "http://b") then lit "http://x" else [];
    failed = text_eq peer (lit "http://c");
  };
}

abbrev known : FileInfo
known = record hello { peers = lit "http://me" ∷ []; md5 = lit "5d" }

post_file_to_peer-Adds_example :
    Adds three world three.peers known (post_file_to_peer three world known).0
post_file_to_peer-Adds_example = post_file_to_peer-Adds three world known (refl, tt)

added_by_run :
    (post_file_to_peer three world known).0.peers
    ≡ lit "http://me" ∷ lit "http://a" ∷ lit "http://b" ∷ []
unfolding post_file_to_peer text_eq has_prefix
added_by_run = refl

chosen_by_run :
    choose_peer (lit "me") (lit "127.0.0.1" ∷ lit "me" ∷ lit "a" ∷ lit "b" ∷ []) ≡ some (lit "a")
unfolding choose_peer text_eq has_infix has_prefix
chosen_by_run = refl

-- A file that no peer takes
abbrev pub one : Config
one = record cfg { peers = lit "http://c" ∷ [] }

consume-total_example : consume one (λ n. world) 16 (hello ∷ []) ≡ some []
consume-total_example =
    consume-total one (λ n. world) 16 (hello ∷ []) (unfold doubled in omega arith)
      (unfold doubled in omega arith)
