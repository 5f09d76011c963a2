-- ===== src/Tests/SmallFile.antt =====
-- Small files (server/fileserver.go, server/http_upload.go) at concrete data.
use go_fastdfs.Prelude.{◌≡◌, refl, none, ◌++◌, arith}
use go_fastdfs.Prelude.Int.{pos, negsuc}
use go_fastdfs.Prelude.Text.{lit, has_infix, after_last}
use go_fastdfs.Prelude.Split.{split}
use go_fastdfs.Prelude.Decimal.{parse_int}
use go_fastdfs.Server.SmallFile.{parse_small_file, small_name}
use go_fastdfs.Server.SmallFile.Name.{parsed, parse_small_file-small_name}

parse_small_file-small_name_example :
    parse_small_file (
      lit "/group1/haystack/1/"
      ++ (small_name (lit "123") (pos 0) (pos 11) (lit ".txt") ++ lit "?download=1"))
    ≡ parsed (lit "123") 0 11
parse_small_file-small_name_example =
    parse_small_file-small_name (lit "/group1/haystack/1") (lit "123") (lit ".txt")
      (lit "?download=1") 0 11 (omega arith) (omega arith) (omega arith) (omega arith) (omega arith)

parsed_by_run : parse_small_file (lit "/group1/haystack/1/123,7,11,.txt") ≡ parsed (lit "123") 7 11
unfolding parse_small_file split has_infix after_last parse_int
parsed_by_run = refl

-- A negative length is accepted.
negative_length : (parse_small_file (lit "/a/b,0,-5,")).size ≡ negsuc 4
unfolding parse_small_file split has_infix after_last parse_int
negative_length = refl

accepted_by_run : (parse_small_file (lit "/a/b,0,-5,")).error ≡ none
unfolding parse_small_file split has_infix after_last parse_int
accepted_by_run = refl
