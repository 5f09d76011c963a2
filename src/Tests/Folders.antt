-- ===== src/Tests/Folders.antt =====
-- The walks over the directories of the server (server/http_upload.go, server/http_repair.go) and
-- `RemoveDownloading` (server/http_remove.go) at concrete data.
use go_fastdfs.Prelude.{ℕ, ◌≡◌, refl, true, false, none, some, List, [], ◌∷◌, arith, if◌then◌else◌}
use go_fastdfs.Prelude.Int.{pos}
use go_fastdfs.Prelude.Text.{Text, lit, text_eq, has_prefix, has_suffix, has_infix, replace_first}
use go_fastdfs.Server.Disk.{Disk}
use go_fastdfs.Server.Folders.{
  Entry, file, dir, nil, cons, is_empty_dir, is_exempt, clean_entry, clean_empty_folders,
  clean_daily, dirs, paths_of, paths_left, is_tidy_left,
}
use go_fastdfs.Server.Folders.Daily.{clean_daily-paths-tidy}
use go_fastdfs.Server.Repair.FromFile.{Source, repair_file_info_from_file, stored_path}
use go_fastdfs.Server.Repair.FromFile.Listed.{
  IsPlain, listed, is_recorded, repair_file_info_from_file-listed,
}
use go_fastdfs.Server.Remove.Downloading.{
  keys_of, is_stale, remove_downloading, remove_downloading-keys_of,
}

-- An empty directory with a directory in it, an empty directory, and a file
abbrev a_dir : Entry
a_dir = dir (lit "a") (cons (dir (lit "b") nil) nil)

abbrev c_dir : Entry
c_dir = dir (lit "c") nil

abbrev d_txt : Entry
d_txt = file (lit "d.txt") 5 (pos 1)

abbrev root : Entry
root = dir (lit "files") (cons a_dir (cons c_dir (cons d_txt nil)))

-- The first run ends at the directory `b`, which went with `a`, and leaves `c`.
cut_by_run :
    clean_empty_folders (lit "files") root
    ≡ (some (dir (lit "files") (cons c_dir (cons d_txt nil))), false)
unfolding clean_empty_folders clean_entry is_empty_dir is_exempt has_infix has_prefix has_suffix
    text_eq
cut_by_run = refl

clean_daily-paths-tidy_example :
    (paths_left (lit "files") (clean_daily (lit "files") 4 (some root))
      ≡ paths_of (lit "files") root)
    × (is_tidy_left (lit "files") (clean_daily (lit "files") 4 (some root)) ≡ true)
clean_daily-paths-tidy_example =
    clean_daily-paths-tidy (lit "files") 4 root (unfold dirs in omega arith)

-- Outside the directory `files` a root that has no file is removed.
root_removed :
    clean_empty_folders (lit "/data/files") (dir (lit "files") (cons (dir (lit "_tmp") nil) nil))
    ≡ (none, false)
unfolding clean_empty_folders clean_entry is_empty_dir is_exempt has_infix has_prefix has_suffix
    text_eq
root_removed = refl

abbrev source : Source
source = record {
  host = lit "http://10.0.0.1:8080";
  docker_dir = [];
  path_prefix = [];
  hash = λ path. some (lit "5d");
}

repair_file_info_from_file-listed_example :
    is_recorded (repair_file_info_from_file source false (lit "files") root) (lit "files/d.txt")
    ≡ listed source (lit "files") root (lit "files/d.txt")
repair_file_info_from_file-listed_example =
    repair_file_info_from_file-listed source refl refl (lit "files") root (lit "files/d.txt")
      (omega arith) (unfold IsPlain in omega arith)

-- Where the root is a link, the path of its target is replaced again for the second file.
replaced_twice :
    let linked : Source = record source { path_prefix = lit "/data" } in
    (stored_path linked (lit "/data/x/data/y") ≡ lit "files/x/data/y")
    × (stored_path linked (lit "files/x/data/y") ≡ lit "files/xfiles/y")
unfolding stored_path has_prefix text_eq replace_first
replaced_twice = (refl, refl)

abbrev marks : List (ℕ × Text)
marks = (100, lit "files/a") ∷ (100, lit "files/a_b") ∷ []

abbrev disk : Disk
disk path = some (lit "hello")

remove_downloading-keys_of_example :
    remove_downloading [] 1000 (keys_of marks) disk (lit "files/a")
    ≡ (if is_stale [] 1000 marks (lit "files/a") then none else disk (lit "files/a"))
remove_downloading-keys_of_example =
    remove_downloading-keys_of [] 1000 marks disk (lit "files/a") (omega arith) (omega arith)

stale_by_run : is_stale [] 1000 marks (lit "files/a") ≡ true
unfolding text_eq
stale_by_run = refl
