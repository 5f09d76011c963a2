-- ===== src/Server/Meta/Lookup.antt =====
-- What the database of files holds behind the logs, against a reading of the logs alone.
use go_fastdfs.Prelude.{
  ◌≡◌, refl, ◌∙◌, ap, Bool, true, false, ◌||◌, Option, none, some, List, [], ◌∷◌, if◌then◌else◌,
  arith,
}
use go_fastdfs.Prelude.Int.{ℤ}
use go_fastdfs.Prelude.Text.{Text, text_eq}
use go_fastdfs.Server.Types.{FileInfo, file_log, remove_log}
use go_fastdfs.Server.Database.{
  Database, CountMap, IsLawful, IsWritable, get-or_same-put, get-or_same-delete,
}
use go_fastdfs.Server.Meta.{
  Meta, FileLog, stored, full_path, add_counts, save_stat, save_file_info, remove_key, save_file,
  remove_file, save_file_md5_log, consume_logs, file_db,
}

-- The names of a file: its hash, and the hash of its path
abbrev pub names : (Text → Text) → FileInfo → Text → Bool
names hash info key = text_eq key info.md5 || text_eq key (hash (full_path info))

-- What one log says of a key
unfoldable pub entry_after : (Text → Text) → Text → FileLog → Option FileInfo → Option FileInfo
entry_after hash key l old =
    if text_eq l.info.md5 [] || text_eq l.file_name []
    then old
    else if names hash l.info key
    then if text_eq l.file_name file_log
      then some (stored l.info)
      else if text_eq l.file_name remove_log
      then none
      else old
    else old

-- What the logs say of a key, the last one first
unfoldable pub entry_of : (Text → Text) → Text → List FileLog → Option FileInfo → Option FileInfo
unfolding entry_after
entry_of hash key [] old = old
entry_of hash key (l ∷ ls) old = entry_of hash key ls (entry_after hash key l old)

or_order {ℓ} :
    {A : Type ℓ} (a b : Bool) (x y : A)
    → (if b then x else if a then x else y) ≡ (if a || b then x else y)
or_order true true x y = refl
or_order true false x y = refl
or_order false true x y = refl
or_order false false x y = refl

module _ (D : Database) (M : CountMap) (hash : Text → Text) (day : ℤ → Text) (lawful : IsLawful D)
    (writable : IsWritable D) where
  abbrev State : Type 0
  State = Meta D.State M.State

  pub files-save_stat : (s : State) → (save_stat D M hash day s).files ≡ s.files
  unfolding save_stat
  files-save_stat s = ground arith

  pub logs-save_stat : (s : State) → (save_stat D M hash day s).logs ≡ s.logs
  unfolding save_stat
  logs-save_stat s = ground arith

  files-add_counts :
      (info : FileInfo) (n size : ℤ) (s : State)
      → (add_counts D M hash day info n size s).files ≡ s.files
  unfolding add_counts
  files-add_counts info n size s = files-save_stat _

  logs-add_counts :
      (info : FileInfo) (n size : ℤ) (s : State)
      → (add_counts D M hash day info n size s).logs ≡ s.logs
  unfolding add_counts
  logs-add_counts info n size s = logs-save_stat _

  abbrev pub find : Text → State → Option FileInfo
  find key s = D.get s.files key

  find-save_file_info :
      (k key : Text) (info : FileInfo) (s : State)
      → find key (save_file_info D M hash day k info file_db s).0
        ≡ (if text_eq key k then some (stored info) else find key s)
  unfolding save_file_info
  find-save_file_info k key info s = get-or_same-put D lawful writable s.files k key (stored info)

  find-remove_key :
      (k key : Text) (s : State)
      → find key (remove_key D M hash day k file_db s)
        ≡ (if text_eq key k then none else find key s)
  unfolding remove_key
  find-remove_key k key s = get-or_same-delete D lawful writable s.files k key

  find-counted :
      (b : Bool) (key : Text) (info : FileInfo) (n size : ℤ) (s : State)
      → find key (if b then s else add_counts D M hash day info n size s) ≡ find key s
  find-counted true key info n size s = refl
  find-counted false key info n size s = ap (λ d. D.get d key) (files-add_counts info n size s)

  find-save_file :
      (key : Text) (info : FileInfo) (s : State)
      → find key (save_file D M hash day info s)
        ≡ (if names hash info key then some (stored info) else find key s)
  unfolding save_file
  find-save_file key info s =
      rw (find-save_file_info, find-save_file_info, find-counted)
        (or_order (text_eq key info.md5) (text_eq key (hash (full_path info))) _ _)

  find-dropped :
      (b : Bool) (key : Text) (info : FileInfo) (n size : ℤ) (s : State)
      → find key (if b then add_counts D M hash day info n size s else s) ≡ find key s
  find-dropped true key info n size s = ap (λ d. D.get d key) (files-add_counts info n size s)
  find-dropped false key info n size s = refl

  find-remove_file :
      (key : Text) (info : FileInfo) (s : State)
      → find key (remove_file D M hash day info s)
        ≡ (if names hash info key then none else find key s)
  unfolding remove_file
  find-remove_file key info s =
      rw (find-remove_key, find-remove_key, find-dropped)
        (or_order (text_eq key info.md5) (text_eq key (hash (full_path info))) none _)

  pub find-save_file_md5_log :
      (key : Text) (l : FileLog) (s : State)
      → find key (save_file_md5_log D M hash day l s) ≡ entry_after hash key l (find key s)
  unfolding save_file_md5_log entry_after
  find-save_file_md5_log key l s =
      ground (arith, find-save_file key l.info s, find-remove_file key l.info s)

  -- Behind any logs, the database finds at each key what the logs say of it: the record of the last
  -- log that names the key, where that is a log of files.md5, nothing where it is one of
  -- removes.md5, and what it found before where no log names it.
  pub find-consume_logs :
      (key : Text) (ls : List FileLog) (s : State)
      → find key (consume_logs D M hash day ls s) ≡ entry_of hash key ls (find key s)
  unfolding consume_logs entry_of
  find-consume_logs key [] s = refl
  find-consume_logs key (l ∷ ls) s =
      find-consume_logs key ls (save_file_md5_log D M hash day l s)
      ∙ ap (entry_of hash key ls) (find-save_file_md5_log key l s)
