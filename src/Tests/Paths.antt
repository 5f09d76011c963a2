-- ===== src/Tests/Paths.antt =====
-- Paths and URLs (server/fileserver.go) at concrete data.
use go_fastdfs.Prelude.{ℕ, ◌≡◌, refl, true, none, some, List, [], ◌++◌, arith}
use go_fastdfs.Prelude.Text.{lit, has_prefix}
use go_fastdfs.Server.Types.{FileInfo, no_info, slash, out_name}
use go_fastdfs.Server.SmallFile.{
  save_small_file, get_small_file, sent, content, path_ext, large_dir,
}
use go_fastdfs.Server.SmallFile.Store.{save_all}
use go_fastdfs.Server.Paths.{
  get_file_path_by_info, get_file_path_from_request, url_query, build_file_result,
}
use go_fastdfs.Server.Paths.RoundTrip.{request-build_file_result}
use go_fastdfs.Server.Paths.Domain.{build_file_result_twice}
use go_fastdfs.Server.Paths.Small.{sent-build_file_result}
use go_fastdfs.Tests.Data.{read, reads, cfg, hello}

abbrev pub doc : FileInfo
doc = record no_info { name = lit "a b.txt"; path = lit "files/default/20240102" }

request-build_file_result_example :
    let r = (build_file_result cfg doc (some (lit "h:8080"))).0 in
    (r.url ≡ r.domain ++ (r.path ++ url_query cfg doc))
    × (get_file_path_from_request cfg (r.path ++ url_query cfg doc)
        ≡ (get_file_path_by_info cfg doc true, []))
request-build_file_result_example =
    request-build_file_result cfg doc (some (lit "h:8080")) (lit "default/20240102") refl refl
      (unfold out_name in omega arith) (unfold get_file_path_by_info out_name in omega arith)
      (unfold has_prefix url_query out_name in refl)

build_file_result_twice_example :
    let (r, c) = build_file_result cfg doc (some (lit "evil:1")) in
    let (r', c') = build_file_result c hello (some (lit "h:8080")) in
    (r'.domain ≡ r.domain) × (c' ≡ c)
build_file_result_twice_example =
    build_file_result_twice cfg (some (lit "evil:1")) (some (lit "h:8080")) doc hello

abbrev large : List ℕ
large = lit "1old"

sent-build_file_result_example :
    let s = save_small_file cfg (lit "123") none large (some (lit "hello")) hello in
    let r = (build_file_result cfg s.info none).0 in
    (r.url ≡ r.domain ++ (r.path ++ url_query cfg s.info))
    × ((get_file_path_from_request cfg (r.path ++ url_query cfg s.info)).0
        ≡ (large_dir cfg ++ slash) ++ lit "123")
    × (sent (
          get_small_file read
            (r.path ++ url_query cfg s.info)
            (some (save_all cfg (lit "123") s.large [])))
        ≡ content (lit "hello"))
sent-build_file_result_example =
    sent-build_file_result read reads cfg none (lit "123") large (lit "hello") hello [] refl
      (omega arith) (omega arith) refl (omega arith) (omega arith) (omega arith) (omega arith)
      (unfold path_ext in omega arith) (unfold large_dir in omega arith)
      (unfold large_dir in omega arith) (omega arith)
