-- ===== src/Tests/Info.antt =====
-- Requests for records (server/http_info.go) at concrete data.
use go_fastdfs.Prelude.{◌≡◌, refl, true, none, some, [], ◌∷◌, if◌then◌else◌, arith}
use go_fastdfs.Prelude.Int.{pos, negsuc}
use go_fastdfs.Prelude.Text.{lit, text_eq}
use go_fastdfs.Prelude.Split.{split}
use go_fastdfs.Server.Types.{FileInfo, no_info, out_name}
use go_fastdfs.Server.Disk.{Disk}
use go_fastdfs.Server.Meta.{stored, save_file_md5_log}
use go_fastdfs.Server.Paths.{get_file_path_by_info}
use go_fastdfs.Server.Sync.{World, saved, add_peer, peer_step}
use go_fastdfs.Server.Info.{check_files_exist, check_each, check_file_exist, check_record}
use go_fastdfs.Server.Info.Acknowledgement.{answer_to, check_file_exist-peer_step}
use go_fastdfs.Tests.Data.{cfg}
use go_fastdfs.Tests.Memory.{memory, tally_map, memory-IsLawful, memory-IsWritable}
use go_fastdfs.Tests.Meta.{hash, day, empty}

abbrev doc : FileInfo
doc = record no_info {
  name = lit "a.txt";
  path = lit "files/default/1";
  md5 = lit "5d";
  size = pos 5;
  offset = negsuc 0;
}

abbrev disk : Disk
disk path = if text_eq path (lit "files/default/1/a.txt") then some (lit "hello") else none

abbrev world : World
world = record {
  stat = λ path. some (pos 5);
  has_file = λ peer md5. true;
  post = λ peer info. record { text = []; failed = true };
}

check_file_exist-peer_step_example :
    (answer_to memory tally_map hash day (λ path. none) cfg disk empty doc []
      ≡ record { answer = stored doc; removed = none })
    × (peer_step cfg world (lit "http://b") doc
        ≡ (add_peer (lit "http://b") doc, saved (add_peer (lit "http://b") doc) ∷ []))
check_file_exist-peer_step_example =
    check_file_exist-peer_step memory tally_map hash day (λ path. none) cfg disk empty doc cfg world
      (lit "http://b") (pos 5) [] memory-IsLawful memory-IsWritable (λ h. absurd (ground arith))
      (unfold get_file_path_by_info out_name text_eq in refl) refl refl refl refl
      (unfold check_file_exist check_record save_file_md5_log text_eq get_file_path_by_info
          out_name in
        refl)

-- Two files that are gone: the key that is removed is the list of both hashes.
removed_by_run :
    (check_files_exist (λ key. some doc) cfg (λ path. none) (lit "5d,6e")).1
    ≡ lit "5d,6e" ∷ lit "5d,6e" ∷ []
unfolding check_files_exist check_each check_record split
removed_by_run = refl
