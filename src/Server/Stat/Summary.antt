-- ===== src/Server/Stat/Summary.antt =====
-- The last row of `GetStat` (server/fileserver.go), and its rows behind the logs of the files.
use go_fastdfs.Prelude.{
  ℕ, zero, suc, ◌+◌, ◌≤◌, ◌≡◌, refl, ap, inl, inr, Bool, some, List, [], ◌∷◌, ◌++◌, length,
  Option-cases,
}
use mathlib.Core.Path.{subst}
use go_fastdfs.Prelude.Int.{ℤ, pos, ◌+ℤ◌}
use go_fastdfs.Prelude.Text.{Text, lit}
use go_fastdfs.Prelude.TextSet.{IsDistinct}
use go_fastdfs.Prelude.Decimal.{show_nat, max_int64}
use go_fastdfs.Server.Database.{Database, CountMap, IsCounting, IsLawful, IsWritable}
use go_fastdfs.Server.Meta.{Meta, FileLog, consume_logs}
use go_fastdfs.Server.Meta.Catalog.{present, tally}
use go_fastdfs.Server.Meta.Counts.{AreRegular, Finds, Counts, count_at-consume_logs}
use go_fastdfs.Server.Stat.{
  StatRow, no_row, day_range, first_day, width, add_row, row_of, stat_rows, get_stat,
}
use go_fastdfs.Server.Stat.Rows.{HasRow, get_stat-HasRow}

abbrev pub sum_rows : List StatRow → StatRow → StatRow
sum_rows [] total = total
sum_rows (r ∷ rows) total = sum_rows rows (add_row total r)

-- The row `all` of some rows
abbrev pub all_of : List StatRow → StatRow
all_of rows = record (sum_rows rows no_row) { date = lit "all" }

stat_rows-sum_rows :
    (M : CountMap) (m : M.State) (n : ℕ) (i : ℤ) (total : StatRow)
    → (stat_rows M m n i total).1 ≡ sum_rows (stat_rows M m n i total).0 total
unfolding stat_rows
stat_rows-sum_rows M m zero i total = refl
stat_rows-sum_rows M m (suc n) i total = elim (Option-cases (row_of M m i)) [
  | inl e ↦ rw (stat_rows, e) (stat_rows-sum_rows M m n (i +ℤ pos 1) total)
  | inr (r, e) ↦ rw (stat_rows, e) (stat_rows-sum_rows M m n (i +ℤ pos 1) (add_row total r))
]

-- The last row that `GetStat` gives is `all`, with the sums of the sizes and of the counts of the
-- rows before it, as sums of `int64`.
pub get_stat-all_of :
    (M : CountMap) (m : M.State) → (rows : List StatRow) × (get_stat M m ≡ rows ++ all_of rows ∷ [])
unfolding get_stat
get_stat-all_of M m =
    let (lo, hi) = day_range first_day first_day (M.keys m) in
    (
      (stat_rows M m (width lo hi) lo no_row).0,
      ap
          (λ (t : StatRow).
            (stat_rows M m (width lo hi) lo no_row).0 ++ record t { date = lit "all" } ∷ [])
          (stat_rows-sum_rows M m (width lo hi) lo no_row),
    )

-- Behind the logs of regular files, which the counts and the database agreed with a list of hashes
-- before, the row of a day in `GetStat` counts the files of the day that the logs leave.
pub get_stat-consume_logs :
    (D : Database) (M : CountMap) (hash : Text → Text) (day : ℤ → Text) (counting : IsCounting M)
    (lawful : IsLawful D) (writable : IsWritable D) (day_of : Text → Text)
    (is_content : Text → Bool) (ls : List FileLog) (s : Meta D.State M.State) (set : List Text)
    (n : ℕ) (v : ℤ)
    → AreRegular D M hash day counting lawful writable day_of is_content ls
    → length ls + length set ≤ max_int64
    → Finds D M hash day counting lawful writable day_of is_content s set
    → IsDistinct set
    → Counts D M hash day counting lawful writable day_of is_content s set
    → n ≤ max_int64
    → M.value (consume_logs D M hash day ls s).counts (show_nat n ++ lit "_totalSize") ≡ some v
    → HasRow M
        (record {
          date = show_nat n;
          total_size = v;
          file_count = pos (tally day_of (show_nat n) (present ls set));
        })
        (get_stat M (consume_logs D M hash day ls s).counts)
get_stat-consume_logs D M hash day counting lawful writable day_of is_content ls s set n v r b f i h
      k e =
    subst
      (λ c.
        HasRow M (record { date = show_nat n; total_size = v; file_count = c })
          (get_stat M (consume_logs D M hash day ls s).counts))
      (count_at-consume_logs D M hash day counting lawful writable day_of is_content ls s set r b f
        i h (show_nat n))
      (get_stat-HasRow M counting (consume_logs D M hash day ls s).counts n v k e)
