-- ===== src/Server/Stat.antt =====
-- The statistics of the days: `GetStat` of server/fileserver.go.
pub mod Rows
pub mod Summary
use go_fastdfs.Prelude.{ℕ, zero, suc, Bool, Option, none, some, List, [], ◌∷◌, ◌++◌, if◌then◌else◌}
use go_fastdfs.Prelude.Int.{ℤ, pos, ltb_ℤ, ◌+ℤ◌, ◌-ℤ◌, add_int64, pos_part}
use go_fastdfs.Prelude.Text.{Text, lit}
use go_fastdfs.Prelude.Split.{split}
use go_fastdfs.Prelude.Decimal.{parse_int, show_int}
use go_fastdfs.Server.Database.{CountMap, or_zero}

-- `StatDateFileInfo`
pub record StatRow : Type 0 where
  pub date : Text
  pub total_size : ℤ
  pub file_count : ℤ

abbrev pub no_row : StatRow
no_row = record { date = []; total_size = pos 0; file_count = pos 0 }

-- The day of a key of two parts
abbrev pub parts_day : List Text → Option ℤ
parts_day (first ∷ second ∷ []) = parse_int first
parts_day _ = none

-- `min` and `max` behind a key with a day
abbrev pub widen : ℤ → ℤ → Option ℤ → ℤ × ℤ
widen lo hi none = (lo, hi)
widen lo hi (some i) = (if ltb_ℤ i lo then i else lo, if ltb_ℤ i hi then hi else i)

unfoldable pub day_range : ℤ → ℤ → List Text → ℤ × ℤ
day_range lo hi [] = (lo, hi)
day_range lo hi (key ∷ keys) =
    let (lo', hi') = widen lo hi (parts_day (split b'_' key)) in day_range lo' hi' keys

abbrev pub first_day : ℤ
first_day = pos 20190101

-- The numbers from `lo` to `hi`
abbrev pub width : ℤ → ℤ → ℕ
width lo hi = suc (pos_part (hi -ℤ lo))

abbrev pub add_row : StatRow → StatRow → StatRow
add_row total r = record total {
  total_size = add_int64 total.total_size r.total_size;
  file_count = add_int64 total.file_count r.file_count;
}

module _ (M : CountMap) where
  unfoldable pub row_of : M.State → ℤ → Option StatRow
  row_of m i = elim (M.value m (show_int i ++ lit "_totalSize")) [
    | none ↦ none
    | some size ↦ some (record {
      date = show_int i;
      total_size = size;
      file_count = or_zero (M.value m (show_int i ++ lit "_fileCount"));
    })
  ]

  -- The loop from i, for so many numbers: the rows, and the sums
  unfoldable pub stat_rows : M.State → ℕ → ℤ → StatRow → List StatRow × StatRow
  unfolding row_of
  stat_rows m zero i total = ([], total)
  stat_rows m (suc n) i total = elim (row_of m i) [
    | none ↦ stat_rows m n (i +ℤ pos 1) total
    | some r ↦ let (rows, sums) = stat_rows m n (i +ℤ pos 1) (add_row total r) in (r ∷ rows, sums)
  ]

  -- `GetStat`
  unfoldable pub get_stat : M.State → List StatRow
  unfolding day_range stat_rows
  get_stat m =
      let (lo, hi) = day_range first_day first_day (M.keys m) in
      let (rows, total) = stat_rows m (width lo hi) lo no_row in
      rows ++ record total { date = lit "all" } ∷ []
