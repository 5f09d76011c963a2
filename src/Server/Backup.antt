-- ===== src/Server/Backup.antt =====
-- The backup of the records of a day: `BackUpMetaDataByDate` of server/http_backup.go.
pub mod ReadBack
use go_fastdfs.Prelude.{
  ℕ, Bool, true, false, not, Option, none, some, List, [], ◌∷◌, ◌++◌, if◌then◌else◌,
}
use go_fastdfs.Prelude.Text.{Text, lit, has_prefix}
use go_fastdfs.Prelude.Decimal.{show_int}
use go_fastdfs.Server.Types.{FileInfo, slash, file_log}
use go_fastdfs.Server.Meta.{full_path}
use go_fastdfs.Server.Disk.{Disk, write, erase}

-- The records that the iterator gives, each with its JSON text. All texts are read into one record,
-- which `read` changes.
unfoldable pub records_of :
    (FileInfo → Text → FileInfo × Bool)
    → Text
    → FileInfo
    → List (Text × Text)
    → List (FileInfo × Text)
records_of read prefix info [] = []
records_of read prefix info ((key, json) ∷ entries) =
    let (next, ok) = read info json in
    let rest = records_of read prefix next entries in
    if has_prefix key prefix
    then (if ok then (next, json) ∷ rest else rest)
    else records_of read prefix info entries

unfoldable pub meta_text : (Text → Text) → List (FileInfo × Text) → Text
meta_text hash [] = []
meta_text hash ((info, json) ∷ records) =
    (info.md5 ++ (b'\t' ∷ json))
    ++ b'\n' ∷ ((hash (full_path info) ++ (b'\t' ∷ json)) ++ b'\n' ∷ meta_text hash records)

unfoldable pub log_text : List (FileInfo × Text) → Text
log_text [] = []
log_text ((info, json) ∷ records) =
    (info.md5
      ++ (b'|'
          ∷ (show_int info.size ++ (b'|' ∷ (show_int info.time_stamp ++ (b'|' ∷ full_path info))))))
    ++ b'\n' ∷ log_text records

-- The removal of an empty file
abbrev pub drop_empty : Text → Text → Disk → Disk
drop_empty path [] d = erase path d
drop_empty path (b ∷ s) d = d

abbrev pub backup_dir : Text → Text → Text
backup_dir data_dir date = data_dir ++ (slash ++ (date ++ slash))

-- `BackUpMetaDataByDate`, with the entries of the database of the logs, and whether each of the two
-- files can be opened
unfoldable pub back_up :
    (Text → Text)
    → (FileInfo → Text → FileInfo × Bool)
    → List (Text × Text)
    → Bool
    → Bool
    → Text
    → Text
    → FileInfo
    → Disk
    → Disk
back_up hash read entries opens_log opens_meta data_dir date zero_info d =
    let log_name = backup_dir data_dir date ++ file_log in
    let meta_name = backup_dir data_dir date ++ lit "meta.data" in
    let records = records_of read (date ++ (b'_' ∷ (file_log ++ lit "_"))) zero_info entries in
    let removed = erase meta_name (erase log_name d) in
    if not opens_log
    then removed
    else if not opens_meta
    then write log_name [] removed
    else drop_empty meta_name (meta_text hash records) (
        drop_empty log_name (log_text records)
          (write log_name (log_text records) (write meta_name (meta_text hash records) removed)))
