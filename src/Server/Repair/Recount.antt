-- ===== src/Server/Repair/Recount.antt =====
-- `RepairStatByDate` of server/http_repair.go, which counts the files of a day again, from its log and
-- the disk, and `RepairStatWeb` for it.
pub mod Paths
use go_fastdfs.Prelude.{
  ℕ, ◌+◌, ◌≤◌, ◌≡◌, refl, ◌∙◌, sym, ap, Bool, true, false, not, ◌&&◌, ◌||◌, Option, none, some,
  List, [], ◌∷◌, ◌++◌, if◌then◌else◌, arith, length, suc, zero, map, leb, ◌==◌, inl, inr,
  Bool-cases,
}
use go_fastdfs.Prelude.Int.{ℤ, pos, add_int64, ◌+ℤ◌}
use go_fastdfs.Prelude.Decimal.{max_int64}
use go_fastdfs.Prelude.Text.{Text, lit, text_eq, text_eq_sound, text_eq_refl}
use go_fastdfs.Prelude.TextSet.{contains, IsDistinct}
use go_fastdfs.Server.Types.{FileInfo, Config}
use go_fastdfs.Server.Database.{Database, CountMap, IsCounting}
use go_fastdfs.Server.Disk.{Disk, exists}
use go_fastdfs.Server.Paths.{get_file_path_by_info, get_request_uri}
use go_fastdfs.Server.Meta.{Meta, save_stat}
use go_fastdfs.Server.Stat.{StatRow}
use go_fastdfs.Server.Meta.Counts.{keys_differ, counts-save_stat}

-- What the loop over the log keeps: `filePathSet`, `fileCount` and `fileSize`
pub record Recount : Type 0 where
  pub paths : List Text
  pub count : ℤ
  pub size : ℤ

abbrev pub disk_path : Config → FileInfo → Text
disk_path c info = get_file_path_by_info c info (not (text_eq c.docker_dir []))

-- A record whose file is on the disk
unfoldable pub count_path : Text → ℤ → Recount → Recount
count_path path size r = if contains path r.paths then r else record {
  paths = path ∷ r.paths;
  count = add_int64 r.count (pos 1);
  size = add_int64 r.size size;
}

-- The loop over the values of the log; `none` is a value that is no record.
unfoldable pub recount : Config → Disk → List (Option FileInfo) → Recount → Recount
recount c d [] r = r
recount c d (none ∷ entries) r = recount c d entries r
recount c d (some info ∷ entries) r =
    recount c d entries
      (if exists d (disk_path c info) then count_path (disk_path c info) info.size r else r)

abbrev pub fresh_recount : Recount
fresh_recount = record { paths = []; count = pos 0; size = pos 0 }

-- Whether a text has a run of digits of this length: the test of the date by a regular expression
abbrev pub starts_digits : ℕ → Text → Bool
starts_digits zero s = true
starts_digits (suc n) [] = false
starts_digits (suc n) (b ∷ s) = leb 48 b && leb b 57 && starts_digits n s

unfoldable pub has_digits : ℕ → Text → Bool
has_digits n [] = starts_digits n []
has_digits n (b ∷ s) = starts_digits n (b ∷ s) || has_digits n s

-- What `RepairStatWeb` answers
pub data WebAnswer : Type 0 where
  not_permitted invalid_date : WebAnswer
  repaired : StatRow → WebAnswer

module _ (D : Database) (M : CountMap) (hash : Text → Text) (day : ℤ → Text) where
  abbrev State : Type 0
  State = Meta D.State M.State

  -- `RepairStatByDate`, with the values of the log whose keys have the date and files.md5
  unfoldable pub repair_stat_by_date :
      Config → Disk → List (Option FileInfo) → Text → State → State × StatRow
  repair_stat_by_date c d entries date s =
      let r = recount c d entries fresh_recount in
      (
        save_stat D M hash day (record s {
          counts =
              M.put (M.put s.counts (date ++ lit "_fileCount") r.count) (date ++ lit "_totalSize")
                r.size;
        }),
        record { date = date; file_count = r.count; total_size = r.size },
      )

  -- `RepairStatWeb`, with the answer of `IsPeer`, the values of the form and the day of today: the
  -- addresses that are asked, and the answer
  unfoldable pub repair_stat_web :
      Config
      → Disk
      → (Text → List (Option FileInfo))
      → Bool
      → Text
      → Text
      → Text
      → State
      → State × List Text × WebAnswer
  repair_stat_web c d log is_peer date inner today s =
      if not is_peer
      then (s, [], not_permitted)
      else if not (has_digits 8 date)
      then (s, [], invalid_date)
      else let day_asked = if length date == 8 then date else today in
        let (t, row) = repair_stat_by_date c d (log day_asked) day_asked s in
        (
          t,
          if text_eq inner (lit "1")
              then []
              else map (λ peer. peer ++ get_request_uri c (lit "repair_stat")) c.peers,
          repaired row,
        )
