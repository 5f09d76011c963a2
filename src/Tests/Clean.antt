-- ===== src/Tests/Clean.antt =====
-- The daily cleaning (server/fileserver.go) at concrete data.
use go_fastdfs.Prelude.{◌≡◌, refl, some, [], ◌∷◌, ◌++◌}
use go_fastdfs.Prelude.Text.{Text, lit, text_eq, has_prefix}
use go_fastdfs.Server.Types.{FileInfo, queue_log}
use go_fastdfs.Server.Meta.{
  stored, consume_logs, save_file_md5_log, save_file_info, remove_key, Meta,
}
use go_fastdfs.Server.Meta.Clean.{clean, clean_each, clean_log, remove_keys, values_at}
use go_fastdfs.Server.Meta.Clean.Kept.{clean-consume_logs}
use go_fastdfs.Tests.Data.{hello}
use go_fastdfs.Tests.Memory.{memory, tally_map, memory-IsLawful}
use go_fastdfs.Tests.Meta.{hash, day, empty}

abbrev json : FileInfo → Text
json info = lit "{" ++ (info.md5 ++ lit "}")

abbrev queue_info : FileInfo
queue_info = record hello { md5 = lit "aa" }

abbrev with_log : Meta memory.State tally_map.State
with_log =
    consume_logs memory tally_map hash day
      (record { info = queue_info; file_name = queue_log } ∷ []) empty

abbrev next_day : Text × Meta memory.State tally_map.State
next_day =
    clean memory tally_map hash day json (λ d. d) (lit "20240103") (lit "20240102")
      (lit "20240102", with_log)

clean-consume_logs_example :
    memory.get next_day.1.logs (lit "20240102_queue.md5_aa")
    ≡ memory.get with_log.logs (lit "20240102_queue.md5_aa")
clean-consume_logs_example =
    clean-consume_logs memory tally_map hash day memory-IsLawful (λ n. refl) json (λ info. refl)
      (λ d. d) (lit "20240103") (lit "20240102") (lit "20240102")
      (record { info = queue_info; file_name = queue_log } ∷ []) empty (λ key o. refl)
      (lit "20240102_queue.md5_aa")

-- The log of the queue of yesterday is not removed.
kept_by_run : memory.get next_day.1.logs (lit "20240102_queue.md5_aa") ≡ some (stored queue_info)
unfolding clean clean_each clean_log remove_keys values_at consume_logs save_file_md5_log
    save_file_info remove_key text_eq has_prefix
kept_by_run = refl
