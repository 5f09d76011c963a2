-- ===== src/Server/Meta/Clean.antt =====
-- The daily cleaning of the database of the logs: `CleanLogLevelDBByDate` and `CleanAndBackUp` of
-- server/fileserver.go.
pub mod Kept
use go_fastdfs.Prelude.{List, [], ◌∷◌, ◌++◌, if◌then◌else◌}
use go_fastdfs.Prelude.Int.{ℤ}
use go_fastdfs.Prelude.Text.{Text, lit, text_eq, has_prefix}
use go_fastdfs.Prelude.TextSet.{insert}
use go_fastdfs.Server.Types.{FileInfo, queue_log, error_log, remove_log}
use go_fastdfs.Server.Database.{Database, CountMap}
use go_fastdfs.Server.Meta.{Meta, remove_key, log_db}

-- The values, as texts, of the entries whose keys have a prefix
unfoldable pub values_at : (FileInfo → Text) → Text → List (Text × FileInfo) → List Text
values_at json prefix [] = []
values_at json prefix ((key, info) ∷ entries) =
    let rest = values_at json prefix entries in
    if has_prefix key prefix then insert (json info) rest else rest

module _ (D : Database) (M : CountMap) (hash : Text → Text) (day : ℤ → Text)
    (json : FileInfo → Text) (entries : D.State → List (Text × FileInfo)) where
  abbrev State : Type 0
  State = Meta D.State M.State

  unfoldable pub remove_keys : List Text → State → State
  remove_keys [] s = s
  remove_keys (key ∷ keys) s = remove_keys keys (remove_key D M hash day key log_db s)

  -- `CleanLogLevelDBByDate`
  unfoldable pub clean_log : Text → Text → State → State
  clean_log date filename s =
      remove_keys (values_at json (date ++ (b'_' ∷ (filename ++ lit "_"))) (entries s.logs)) s

  unfoldable pub clean_each : Text → List Text → State → State
  clean_each date [] s = s
  clean_each date (filename ∷ filenames) s = clean_each date filenames (clean_log date filename s)

  -- `Clean` of `CleanAndBackUp`, on `curDate` and the databases
  unfoldable pub clean : Text → Text → Text × State → Text × State
  clean today yesterday (date, s) =
      if text_eq date today
      then (date, s)
      else (today, clean_each yesterday (queue_log ∷ error_log ∷ remove_log ∷ []) s)
