-- ===== src/Server/SmallFile.antt =====
-- Small files merged into one large file: `ParseSmallFile` and `GetSmallFileByURI` of
-- server/fileserver.go, `SaveSmallFile` of server/http_upload.go, `DownloadSmallFileByURI` of
-- server/http_download.go. A file is the list of its bytes. `SaveSmallFile` holds the lock of the
-- large file from before its first read to its end, so a call is one step.
pub mod Name
pub mod Store
use go_fastdfs.Prelude.{
  ℕ, zero, suc, ◌+◌, ◌-◌, ◌≡◌, Bool, true, false, ◌||◌, Option, none, some, List, [], ◌∷◌, ◌++◌,
  if◌then◌else◌, ltb, ◌==◌, length, take, drop,
}
use go_fastdfs.Prelude.Int.{ℤ, pos, negsuc, ltb_ℤ, ◌+ℤ◌, add_int64}
use go_fastdfs.Prelude.Text.{Text, lit, text_eq, has_infix, after_last, last_index, replace_first}
use go_fastdfs.Prelude.Split.{split}
use go_fastdfs.Prelude.Decimal.{show_nat, show_int, parse_int}
use go_fastdfs.Server.Types.{
  FileInfo, Config, store_dir_name, large_dir_name, small_file_size, out_name, slash,
}

pub data ParseError : Type 0 where
  unvalid_small_file bad_offset bad_length invalid_size : ParseError

-- The three results of `ParseSmallFile`, and its error
pub record Parsed : Type 0 where
  pub file_name : Text
  pub offset : ℤ
  pub size : ℤ
  pub error : Option ParseError

abbrev refused : Text → ℤ → ParseError → Parsed
refused name offset e = record {
  file_name = name;
  offset = offset;
  size = negsuc 0;
  error = some e;
}

-- The tests on the number `length`, and on both numbers.
unfoldable pub parse_size : Text → Text → ℤ → Option ℤ → Parsed
parse_size name first offset none = refused name offset bad_length
parse_size name first offset (some size) =
    if ltb_ℤ (pos small_file_size) size || ltb_ℤ offset (pos 0)
    then refused name (negsuc 0) invalid_size
    else record { file_name = first; offset = offset; size = size; error = none }

unfoldable pub parse_offset : Text → Text → Text → Option ℤ → Parsed
unfolding parse_size
parse_offset name first third none = refused name (negsuc 0) bad_offset
parse_offset name first third (some offset) = parse_size name first offset (parse_int third)

unfoldable pub parse_pieces : Text → List Text → Parsed
unfolding parse_offset
parse_pieces name (first ∷ second ∷ third ∷ more) = parse_offset name first third (parse_int second)
parse_pieces name _ = refused name (negsuc 0) unvalid_small_file

unfoldable pub parse_small_file : Text → Parsed
unfolding parse_pieces
parse_small_file filename =
    if ltb (length filename) 3
    then refused filename (negsuc 0) unvalid_small_file
    else let name = if has_infix filename slash then after_last b'/' filename else filename in
      parse_pieces name (split b',' name)

-- `path.Ext`: from the last dot of the last part of the path, the dot included.
unfoldable pub path_ext : Text → Text
unfolding after_last last_index
path_ext s =
    let base = after_last b'/' s in elim (last_index base b'.') [ none ↦ [] | some i ↦ drop i base ]

-- What can fail in `SaveSmallFile`; a copy may fail behind some bytes.
pub data Fault : Type 0 where
  open_source open_target write_mark seek_end : Fault
  copy : ℕ → Fault

-- The large file and the file that was uploaded (`none` if it is not there), and the `FileInfo`
pub record Saved : Type 0 where
  pub large : List ℕ
  pub source : Option (List ℕ)
  pub info : FileInfo
  pub fault : Option Fault

-- `fmt.Sprintf("%s,%d,%d,%s", reName, fileInfo.OffSet, fileInfo.Size, fileExt)`
unfoldable pub small_name : Text → ℤ → ℤ → Text → Text
unfolding show_int
small_name re_name offset size ext =
    re_name ++ (b',' ∷ (show_int offset ++ (b',' ∷ (show_int size ++ (b',' ∷ ext)))))

unfoldable pub large_dir : Config → Text
large_dir c =
    c.docker_dir ++ (store_dir_name ++ (slash ++ (large_dir_name ++ (slash ++ c.peer_id))))

-- `fileInfo` behind the mark, with `OffSet`, `Size` and `ReName` written
unfoldable pub renamed : Text → ℕ → FileInfo → FileInfo
unfolding small_name path_ext
renamed re_name offset info = record info {
  re_name = small_name re_name (pos offset) (info.size +ℤ pos 1) (path_ext info.name);
  size = info.size +ℤ pos 1;
  offset = pos offset;
}

-- `SaveSmallFile`, with the name of the large file that was drawn, and the fault that is met
unfoldable pub save_small_file :
    Config → Text → Option Fault → List ℕ → Option (List ℕ) → FileInfo → Saved
unfolding renamed large_dir
save_small_file c re_name fault large none info = record {
  large = large;
  source = none;
  info = info;
  fault = none;
}
save_small_file c re_name none large (some source) info = record {
  large = (large ++ 49 ∷ []) ++ source;
  source = none;
  info = record (renamed re_name (length large) info) {
    path = replace_first (large_dir c) c.docker_dir [];
  };
  fault = none;
}
save_small_file c re_name (some open_source) large (some source) info = record {
  large = large;
  source = some source;
  info = info;
  fault = some open_source;
}
save_small_file c re_name (some open_target) large (some source) info = record {
  large = large;
  source = some source;
  info = info;
  fault = some open_target;
}
save_small_file c re_name (some write_mark) large (some source) info = record {
  large = large;
  source = some source;
  info = record info { offset = pos (length large) };
  fault = some write_mark;
}
save_small_file c re_name (some seek_end) large (some source) info = record {
  large = large ++ 49 ∷ [];
  source = some source;
  info = record info { offset = pos 0 };
  fault = some seek_end;
}
save_small_file c re_name (some (copy n)) large (some source) info = record {
  large = (large ++ 49 ∷ []) ++ take n source;
  source = some source;
  info = renamed re_name (length large) info;
  fault = some (copy n);
}

-- The result of `GetSmallFileByURI`: the bytes, or an error with its flag `notFound`.
pub data Read : Type 0 where
  bytes : List ℕ → Read
  failed : Bool → Read
  panic : Read

-- `goutil` reads a part of a file.
module _ (read_file_by_offset : List ℕ → ℤ → ℤ → Read) where
  -- `GetSmallFileByURI` behind the parsing of the name
  unfoldable pub read_parsed : Parsed → Option (List ℕ) → Read
  unfolding add_int64
  read_parsed p none = failed false
  read_parsed p (some large) = elim p.error [
    | some e ↦ failed false
    | none ↦
        if ltb_ℤ (pos (length large)) (add_int64 p.offset p.size)
        then failed true
        else read_file_by_offset large p.offset p.size
  ]

  -- `GetSmallFileByURI`, with the large file that the path of the request names
  unfoldable pub get_small_file : Text → Option (List ℕ) → Read
  unfolding read_parsed
  get_small_file uri file = read_parsed (parse_small_file uri) file

-- The part of `DownloadSmallFileByURI` that chooses what is sent: `string(data[0]) == "1"`. `none`
-- is the error `not found`, and reading `data[0]` of no data panics.
pub data Sent : Type 0 where
  content : List ℕ → Sent
  not_found : Sent
  panicked : Sent

unfoldable pub sent : Read → Sent
sent (bytes []) = panicked
sent (bytes (b ∷ rest)) = if b == 49 then content rest else not_found
sent (failed flag) = not_found
sent panic = panicked
