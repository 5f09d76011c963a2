-- ===== src/Tests/Recount.antt =====
-- `RepairStatByDate` (server/http_repair.go) at concrete data.
use go_fastdfs.Prelude.{
  true, ◌≡◌, refl, ◌&&◌, Option, none, some, List, [], ◌∷◌, ◌++◌, arith, length, if◌then◌else◌,
}
use go_fastdfs.Prelude.Int.{pos, add_int64, ◌+ℤ◌}
use go_fastdfs.Prelude.Text.{Text, lit, text_eq}
use go_fastdfs.Prelude.TextSet.{contains, IsDistinct}
use go_fastdfs.Server.Types.{FileInfo, no_info, out_name}
use go_fastdfs.Server.Disk.{Disk, exists}
use go_fastdfs.Server.Paths.{get_file_path_by_info}
use go_fastdfs.Server.Repair.Recount.{
  repair_stat_by_date, recount, count_path, repair_stat_web, has_digits, repaired,
}
use go_fastdfs.Server.Repair.Recount.Paths.{is_logged, repair_stat_by_date-paths}
use go_fastdfs.Tests.Data.{cfg}
use go_fastdfs.Tests.Memory.{memory, tally_map, tally_map-IsCounting}
use go_fastdfs.Tests.Meta.{hash, day, empty}

abbrev date : Text
date = lit "20240102"

abbrev named : Text → FileInfo
named name = record no_info { path = lit "files"; name = name; size = pos 5 }

-- A file that two records name, a value that is no record, and a file that is not on the disk
abbrev entries : List (Option FileInfo)
entries = some (named (lit "a")) ∷ none ∷ some (named (lit "a")) ∷ some (named (lit "b")) ∷ []

abbrev disk : Disk
disk path = if text_eq path (lit "files/a") then some (lit "hello") else none

counted_by_run :
    (repair_stat_by_date memory tally_map hash day cfg disk entries date empty).1
    ≡ record { date = date; total_size = pos 5; file_count = pos 1 }
unfolding repair_stat_by_date recount count_path get_file_path_by_info out_name text_eq add_int64
    ◌+ℤ◌
counted_by_run = refl

repair_stat_by_date-paths_example :
    let (t, row) = repair_stat_by_date memory tally_map hash day cfg disk entries date empty in
    (paths : List Text) × IsDistinct paths
    × ((path : Text) → contains path paths ≡ (exists disk path && is_logged cfg entries path))
    × (row.file_count ≡ pos (length paths))
    × (tally_map.value t.counts (date ++ lit "_fileCount") ≡ some (pos (length paths)))
repair_stat_by_date-paths_example =
    repair_stat_by_date-paths memory tally_map hash day tally_map-IsCounting cfg disk entries date
      empty (omega arith)

-- A date of more than eight digits is taken for today.
long_date_by_run :
    repair_stat_web memory tally_map hash day cfg disk
      (λ d. if text_eq d (lit "20240103") then entries else [])
      true
      (lit "202401021")
      (lit "1")
      (lit "20240103")
      empty
    ≡ (let (t, row) =
          repair_stat_by_date memory tally_map hash day cfg disk entries (lit "20240103") empty in
        (t, [], repaired row))
unfolding repair_stat_web has_digits text_eq
long_date_by_run = refl
