-- ===== src/Tests/Stat.antt =====
-- The statistics of the days (server/fileserver.go) at concrete data.
use go_fastdfs.Prelude.{ℕ, refl, [], ◌∷◌, arith}
use go_fastdfs.Prelude.Int.{ℤ, pos, ◌+ℤ◌, ◌-ℤ◌, add_int64}
use go_fastdfs.Prelude.Text.{Text, lit, has_prefix, text_eq}
use go_fastdfs.Prelude.Decimal.{show_nat, digits_of}
use go_fastdfs.Server.Types.{out_name}
use go_fastdfs.Server.Meta.{consume_logs}
use go_fastdfs.Server.Meta.Catalog.{present, tally}
use go_fastdfs.Server.Stat.{get_stat}
use go_fastdfs.Server.Stat.Rows.{HasRow}
use go_fastdfs.Server.Stat.Summary.{get_stat-consume_logs}
use go_fastdfs.Tests.Memory.{
  memory, tally_map, memory-IsLawful, memory-IsWritable, tally_map-IsCounting,
}
use go_fastdfs.Tests.Meta.{hash, is_content, logs, empty}

abbrev day_number : ℕ
day_number = 5

abbrev day : ℤ → Text
day t = show_nat day_number

get_stat-consume_logs_example :
    HasRow tally_map
      (record {
        date = show_nat day_number;
        total_size = pos 5;
        file_count = pos (tally (λ k. show_nat day_number) (show_nat day_number) (present logs []));
      })
      (get_stat tally_map (consume_logs memory tally_map hash day logs empty).counts)
get_stat-consume_logs_example =
    get_stat-consume_logs memory tally_map hash day tally_map-IsCounting memory-IsLawful
      memory-IsWritable (λ k. show_nat day_number) is_content logs empty [] day_number (pos 5)
      (unfold has_prefix out_name in
        ((refl, refl, refl), ((refl, refl, refl), ((refl, refl, refl), ((refl, refl, refl), tt)))))
      (omega arith) (λ k c. refl) tt (λ d. refl) (omega arith)
      (unfold consume_logs out_name show_nat digits_of text_eq add_int64 ◌+ℤ◌ ◌-ℤ◌ in refl)

abbrev counts : tally_map.State
counts = (lit "20240102_totalSize", pos 7) ∷ (lit "20240102_fileCount", pos 2) ∷ []
