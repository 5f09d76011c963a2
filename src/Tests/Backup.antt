-- ===== src/Tests/Backup.antt =====
-- The backup of a day (server/http_backup.go) at concrete data.
use go_fastdfs.Prelude.{◌≡◌, refl, Bool, true, false, some, List, [], ◌∷◌, if◌then◌else◌, arith}
use go_fastdfs.Prelude.Text.{Text, lit, text_eq, has_prefix}
use go_fastdfs.Server.Types.{FileInfo, no_info}
use go_fastdfs.Server.Disk.{Disk, write, erase}
use go_fastdfs.Server.Backup.{records_of, meta_text, log_text, back_up}
use go_fastdfs.Server.Backup.ReadBack.{IsPlain, read_back, keyed, back_up-read_back}
use go_fastdfs.Tests.Data.{hello}

abbrev sum : Text → Text
sum s = lit "00ff"

-- A reader of JSON that knows one text
abbrev decode : FileInfo → Text → FileInfo × Bool
decode old json =
    if text_eq json (lit "{}") then (record hello { md5 = lit "aa" }, true) else (old, false)

abbrev day_log : List (Text × Text)
day_log =
    (lit "20240102_files.md5_aa", lit "{}")
    ∷ (lit "20240102_files.md5_bb", lit "?")
    ∷ (lit "20240103_files.md5_aa", lit "{}")
    ∷ []

abbrev backed : Disk
backed =
    back_up sum decode day_log true true (lit "data") (lit "20240102") no_info
      (λ path. some (lit "old"))

sum_plain : (s : Text) → IsPlain (sum s)
sum_plain s = (omega arith, omega arith)

back_up-read_back_example :
    (read_back (backed (lit "data/20240102/meta.data"))
      ≡ keyed sum (records_of decode (lit "20240102_files.md5_") no_info day_log))
    × ((path : Text)
        → text_eq path (lit "data/20240102/files.md5") ≡ false
        → text_eq path (lit "data/20240102/meta.data") ≡ false
        → backed path ≡ some (lit "old"))
back_up-read_back_example =
    back_up-read_back sum decode day_log (lit "data") (lit "20240102") no_info
      (λ path. some (lit "old")) sum_plain
      (unfold records_of text_eq has_prefix in (omega arith, omega arith, tt))

meta_by_run : backed (lit "data/20240102/meta.data") ≡ some (lit "aa\t{}\n00ff\t{}\n")
unfolding back_up records_of meta_text log_text write erase text_eq has_prefix
meta_by_run = refl
