-- ===== src/Tests/Meta.antt =====
-- The records of the files (server/fileserver.go) at concrete data.
use go_fastdfs.Prelude.{◌≡◌, refl, Bool, not, none, List, [], ◌∷◌, ◌++◌, arith}
use go_fastdfs.Prelude.Int.{ℤ, pos}
use go_fastdfs.Prelude.Text.{Text, lit, has_prefix}
use go_fastdfs.Server.Types.{FileInfo, no_info, file_log, remove_log, out_name}
use go_fastdfs.Server.Meta.{Meta, FileLog, consume_logs}
use go_fastdfs.Server.Meta.Lookup.{entry_of, find-consume_logs}
use go_fastdfs.Server.Meta.Catalog.{present, tally}
use go_fastdfs.Server.Meta.Counts.{count_at, count_at-consume_logs}
use go_fastdfs.Tests.Memory.{
  memory, tally_map, memory-IsLawful, memory-IsWritable, tally_map-IsCounting,
}

-- A function with two values in the place of MD5, and one with one value in the place of the day
abbrev pub hash : Text → Text
hash s = lit "path:" ++ s

abbrev pub day : ℤ → Text
day t = lit "20240102"

abbrev file : Text → FileInfo
file md5 = record no_info { name = lit "a"; path = lit "files"; size = pos 5; md5 = md5 }

abbrev pub logs : List FileLog
logs =
    record { info = file (lit "aa"); file_name = file_log }
    ∷ record { info = file (lit "bb"); file_name = file_log }
    ∷ record { info = file (lit "aa"); file_name = remove_log }
    ∷ record { info = file (lit "bb"); file_name = file_log }
    ∷ []

abbrev pub empty : Meta memory.State tally_map.State
empty = record { files = []; logs = []; counts = []; stat_file = none }

find-consume_logs_example :
    memory.get (consume_logs memory tally_map hash day logs empty).files (lit "bb")
    ≡ entry_of hash (lit "bb") logs none
find-consume_logs_example =
    find-consume_logs memory tally_map hash day memory-IsLawful memory-IsWritable (lit "bb") logs
      empty

abbrev pub is_content : Text → Bool
is_content s = not (has_prefix s (lit "path:"))

count_at-consume_logs_example :
    count_at memory tally_map hash day tally_map-IsCounting
      (lit "20240102")
      (consume_logs memory tally_map hash day logs empty)
    ≡ pos (tally (λ k. lit "20240102") (lit "20240102") (present logs []))
count_at-consume_logs_example =
    count_at-consume_logs memory tally_map hash day tally_map-IsCounting memory-IsLawful
      memory-IsWritable (λ k. lit "20240102") is_content logs empty []
      (unfold has_prefix out_name in
        ((refl, refl, refl), ((refl, refl, refl), ((refl, refl, refl), ((refl, refl, refl), tt)))))
      (omega arith) (λ k c. refl) tt (λ d. refl) (lit "20240102")
