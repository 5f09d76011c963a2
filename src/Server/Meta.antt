-- ===== src/Server/Meta.antt =====
-- The records of the files: `saveFileMd5Log`, `SaveFileInfoToLevelDB`, `RemoveKeyFromLevelDB`,
-- `SaveStat` and `ConsumerLog` of server/fileserver.go. `ConsumerLog` is the only reader of its
-- queue, so the logs are handled one after another.
pub mod Lookup
pub mod Catalog
pub mod Counts
pub mod Clean
use go_fastdfs.Prelude.{
  ◌≡◌, Bool, true, false, ◌||◌, Option, none, some, List, [], ◌∷◌, ◌++◌, if◌then◌else◌,
}
use go_fastdfs.Prelude.Int.{ℤ, pos, negsuc, add_int64, ◌-ℤ◌}
use go_fastdfs.Prelude.Text.{Text, lit, text_eq}
use go_fastdfs.Server.Types.{FileInfo, file_log, remove_log, out_name, slash}
use go_fastdfs.Server.Database.{Database, CountMap, is_some, or_same}

-- What the JSON text of a record keeps: the fields `retry` and `op` are not exported.
abbrev pub stored : FileInfo → FileInfo
stored info = record info { retry = 0; op = [] }

-- `c.ldb` and `c.logDB`
pub data Which : Type 0 where
  file_db log_db : Which

-- The two databases, `statMap`, and the counts that the file stat.json holds
pub record Meta (D M : Type 0) : Type 0 where
  pub files : D
  pub logs : D
  pub counts : M
  pub stat_file : Option M

-- `FileLog`
pub record FileLog : Type 0 where
  pub info : FileInfo
  pub file_name : Text

abbrev pub full_path : FileInfo → Text
full_path info = info.path ++ (slash ++ out_name info.name info.re_name)

-- `-n` of an `int64`
abbrev pub negated : ℤ → ℤ
negated n = add_int64 (pos 0) (pos 0 -ℤ n)

module _ (D : Database) (M : CountMap) (hash : Text → Text) (day : ℤ → Text) where
  abbrev State : Type 0
  State = Meta D.State M.State

  abbrev pub log_key : FileInfo → Text → Text
  log_key info filename = day info.time_stamp ++ (b'_' ∷ (filename ++ (b'_' ∷ info.md5)))

  abbrev pub count_key : FileInfo → Text
  count_key info = day info.time_stamp ++ lit "_fileCount"

  abbrev pub size_key : FileInfo → Text
  size_key info = day info.time_stamp ++ lit "_totalSize"

  -- `SaveStat`
  unfoldable pub save_stat : State → State
  save_stat s = elim (M.value s.counts (lit "fileCount")) [
    | none ↦ s
    | some (pos n) ↦ record s { stat_file = some s.counts }
    | some (negsuc n) ↦ s
  ]

  -- The counts of the day of a file change.
  unfoldable pub add_counts : FileInfo → ℤ → ℤ → State → State
  unfolding save_stat
  add_counts info n size s = save_stat (record s {
    counts = M.add_count (M.add_count s.counts (count_key info) n) (size_key info) size;
  })

  -- `SaveFileInfoToLevelDB`, and whether it succeeds. A write to `c.ldb` is written to `c.logDB`
  -- too, whose errors it ignores.
  unfoldable pub save_file_info : Text → FileInfo → Which → State → State × Bool
  save_file_info key info file_db s =
      let written = D.put s.files key (stored info) in
      (
        record s {
          files = or_same s.files written;
          logs =
              if is_some written
              then or_same s.logs (D.put s.logs (log_key info file_log) (stored info))
              else s.logs;
        },
        is_some written,
      )
  save_file_info key info log_db s =
      let written = D.put s.logs key (stored info) in
      (record s { logs = or_same s.logs written }, is_some written)

  -- `RemoveKeyFromLevelDB`
  unfoldable pub remove_key : Text → Which → State → State
  remove_key key file_db s = record s { files = or_same s.files (D.delete s.files key) }
  remove_key key log_db s = record s { logs = or_same s.logs (D.delete s.logs key) }

  -- `saveFileMd5Log` for files.md5
  unfoldable pub save_file : FileInfo → State → State
  unfolding add_counts save_file_info
  save_file info s =
      let counted =
        if is_some (D.get s.files info.md5) then s else add_counts info (pos 1) info.size s in
      let logged = (save_file_info (log_key info file_log) info log_db counted).0 in
      let by_md5 = (save_file_info info.md5 info file_db logged).0 in
      (save_file_info (hash (full_path info)) info file_db by_md5).0

  -- `saveFileMd5Log` for removes.md5
  unfoldable pub remove_file : FileInfo → State → State
  unfolding add_counts remove_key
  remove_file info s =
      let counted =
        if is_some (D.get s.files info.md5)
        then add_counts info (negsuc 0) (negated info.size) s
        else s in
      let unlogged = remove_key (log_key info remove_log) log_db counted in
      let by_md5 = remove_key info.md5 file_db unlogged in
      let by_path = remove_key (hash (full_path info)) file_db by_md5 in
      remove_key (log_key info file_log) log_db by_path

  -- `saveFileMd5Log`
  unfoldable pub save_file_md5_log : FileLog → State → State
  unfolding save_file remove_file save_file_info
  save_file_md5_log l s =
      if text_eq l.info.md5 [] || text_eq l.file_name []
      then s
      else if text_eq l.file_name file_log
      then save_file l.info s
      else if text_eq l.file_name remove_log
      then remove_file l.info s
      else (save_file_info (log_key l.info l.file_name) l.info log_db s).0

  -- `ConsumerLog`: the logs of the queue in their order
  unfoldable pub consume_logs : List FileLog → State → State
  unfolding save_file_md5_log
  consume_logs [] s = s
  consume_logs (l ∷ ls) s = consume_logs ls (save_file_md5_log l s)
