-- ===== src/Server/Backup/ReadBack.antt =====
-- What can be read back from the file meta.data of server/http_backup.go.
use go_fastdfs.Prelude.{
  ℕ, ◌≡◌, refl, ◌∙◌, Bool, true, false, Option, none, some, List, [], ◌∷◌, ◌++◌, arith,
}
use go_fastdfs.Prelude.Text.{Text, lit, text_eq, text_eq_refl}
use go_fastdfs.Prelude.Split.{split, Lacks, Lacks-append, split-append, split_of_Lacks}
use go_fastdfs.Server.Types.{FileInfo, file_log}
use go_fastdfs.Server.Meta.{full_path}
use go_fastdfs.Server.Disk.{Disk, write, erase}
use go_fastdfs.Server.Backup.{records_of, meta_text, log_text, backup_dir, drop_empty, back_up}

abbrev pub pair_of : List Text → List (Text × Text)
pair_of (key ∷ json ∷ []) = (key, json) ∷ []
pair_of _ = []

abbrev pub pairs_of : List Text → List (Text × Text)
pairs_of [] = []
pairs_of (line ∷ lines) = pair_of (split b'\t' line) ++ pairs_of lines

-- The entries that the lines of a file give: a key, a tabulator and a JSON text each
abbrev pub read_back : Option Text → List (Text × Text)
read_back none = []
read_back (some text) = pairs_of (split b'\n' text)

-- Each record under its hash and under the hash of its path
abbrev pub keyed : (Text → Text) → List (FileInfo × Text) → List (Text × Text)
keyed hash [] = []
keyed hash ((info, json) ∷ records) =
    (info.md5, json) ∷ (hash (full_path info), json) ∷ keyed hash records

abbrev pub IsPlain : Text → Type 0
IsPlain s = Lacks b'\t' s × Lacks b'\n' s

abbrev pub ArePlain : List (FileInfo × Text) → Type 0
ArePlain [] = Unit {0}
ArePlain ((info, json) ∷ records) = IsPlain info.md5 × IsPlain json × ArePlain records

pair_of-split :
    (key json : Text)
    → IsPlain key
    → IsPlain json
    → pair_of (split b'\t' (key ++ b'\t' ∷ json)) ≡ (key, json) ∷ []
pair_of-split key json h k =
    rw (split-append b'\t' key json h.0, split_of_Lacks b'\t' json k.0) refl

line_Lacks : (key json : Text) → IsPlain key → IsPlain json → Lacks b'\n' (key ++ b'\t' ∷ json)
line_Lacks key json h k = Lacks-append b'\n' key (b'\t' ∷ json) h.1 (omega arith, k.1)

read_back-meta_text :
    (hash : Text → Text) (plain : (s : Text) → IsPlain (hash s)) (records : List (FileInfo × Text))
    → ArePlain records
    → read_back (some (meta_text hash records)) ≡ keyed hash records
unfolding meta_text
read_back-meta_text hash plain [] h = unfold split in refl
read_back-meta_text hash plain ((info, json) ∷ records) (m, j, h) =
    let k = plain (full_path info) in
    rw
      (
        split-append b'\n' (info.md5 ++ b'\t' ∷ json) _ (line_Lacks info.md5 json m j),
        split-append b'\n' (hash (full_path info) ++ b'\t' ∷ json) _ (line_Lacks _ json k j),
        pair_of-split info.md5 json m j,
        pair_of-split (hash (full_path info)) json k j,
        read_back-meta_text hash plain records h,
      )
      refl

text_eq-append_front : (p s t : Text) → text_eq (p ++ s) (p ++ t) ≡ text_eq s t
unfolding text_eq
text_eq-append_front [] s t = refl
text_eq-append_front (c ∷ p) s t = rw (text_eq-append_front p s t) (ground arith)

drop_empty-append : (path s t : Text) (b : ℕ) (d : Disk) → drop_empty path (s ++ b ∷ t) d ≡ d
drop_empty-append path [] t b d = refl
drop_empty-append path (c ∷ s) t b d = refl

module _ (hash : Text → Text) (plain : (s : Text) → IsPlain (hash s)) (log_name meta_name : Text)
    (differ : text_eq meta_name log_name ≡ false) (d : Disk) where
  -- The disk behind the writes and the removal of empty files
  abbrev backed_up : List (FileInfo × Text) → Disk
  backed_up records = drop_empty meta_name (meta_text hash records) (
      drop_empty log_name (log_text records) (
        write log_name (log_text records)
          (write meta_name (meta_text hash records) (erase meta_name (erase log_name d)))))

  backed_up-read_back :
      (records : List (FileInfo × Text))
      → ArePlain records
      → read_back (backed_up records meta_name) ≡ keyed hash records
  unfolding write erase
  backed_up-read_back [] h = unfold meta_text log_text in rw (text_eq_refl meta_name) refl
  backed_up-read_back ((info, json) ∷ records) h =
      unfold meta_text log_text in
      rw (drop_empty-append, drop_empty-append, differ, text_eq_refl meta_name)
        (read_back-meta_text hash plain ((info, json) ∷ records) h)

  backed_up_elsewhere :
      (records : List (FileInfo × Text)) (path : Text)
      → text_eq path log_name ≡ false
      → text_eq path meta_name ≡ false
      → backed_up records path ≡ d path
  unfolding write erase
  backed_up_elsewhere [] path l m = unfold meta_text log_text in rw (l, m) refl
  backed_up_elsewhere ((info, json) ∷ records) path l m =
      unfold meta_text log_text in rw (drop_empty-append, drop_empty-append, l, m) refl

-- Where both files can be opened, and hashes, contents and JSON texts have no tabulator and no end
-- of a line, the records of the log of a day are read back from meta.data, each under its hash and
-- under the hash of its path, and no other file changes.
pub back_up-read_back :
    (hash : Text → Text) (read : FileInfo → Text → FileInfo × Bool) (entries : List (Text × Text))
    (data_dir date : Text) (zero_info : FileInfo) (d : Disk)
    → ((s : Text) → IsPlain (hash s))
    → let records = records_of read (date ++ (b'_' ∷ (file_log ++ lit "_"))) zero_info entries in
      let left = back_up hash read entries true true data_dir date zero_info d in
      let log_name = backup_dir data_dir date ++ file_log in
      let meta_name = backup_dir data_dir date ++ lit "meta.data" in
      ArePlain records
      → (read_back (left meta_name) ≡ keyed hash records)
        × ((path : Text)
            → text_eq path log_name ≡ false
            → text_eq path meta_name ≡ false
            → left path ≡ d path)
unfolding back_up
back_up-read_back hash read entries data_dir date zero_info d plain h =
    let records = records_of read (date ++ (b'_' ∷ (file_log ++ lit "_"))) zero_info entries in
    let dir = backup_dir data_dir date in
    let differ : text_eq (dir ++ lit "meta.data") (dir ++ file_log) ≡ false =
      text_eq-append_front dir (lit "meta.data") file_log ∙ (unfold text_eq in refl) in
    (
      backed_up-read_back hash plain (dir ++ file_log) (dir ++ lit "meta.data") differ d records h,
      backed_up_elsewhere hash plain (dir ++ file_log) (dir ++ lit "meta.data") differ d records,
    )
