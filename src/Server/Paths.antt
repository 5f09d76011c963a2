-- ===== src/Server/Paths.antt =====
-- From a `FileInfo` to the URL of the file and to its path on the disk, and from a request to the
-- path: `GetFilePathByInfo`, `GetFilePathFromRequest`, `getRequestURI` and `BuildFileResult` of
-- server/fileserver.go.
pub mod RoundTrip
pub mod Domain
pub mod LargeFile
pub mod Small
use go_fastdfs.Prelude.{
  ℕ, ◌+◌, Bool, true, false, not, Option, none, some, List, [], ◌∷◌, ◌++◌, if◌then◌else◌, length,
  drop,
}
use go_fastdfs.Prelude.Int.{ℤ}
use go_fastdfs.Prelude.Text.{Text, lit, text_eq, has_prefix, replace_first, replace_all}
use go_fastdfs.Prelude.Split.{before}
use go_fastdfs.Prelude.Url.{path_unescape, path_escape}
use go_fastdfs.Server.Types.{FileInfo, Config, store_dir_name, large_dir_name, out_name, slash}

-- `GetFilePathByInfo(fileInfo, withDocker)`
unfoldable pub get_file_path_by_info : Config → FileInfo → Bool → Text
get_file_path_by_info c info true =
    c.docker_dir ++ (info.path ++ (slash ++ out_name info.name info.re_name))
get_file_path_by_info c info false = info.path ++ (slash ++ out_name info.name info.re_name)

-- `getRequestURI(action)`
unfoldable pub get_request_uri : Config → Text → Text
get_request_uri c action =
    if c.support_group_manage then slash ++ (c.group ++ (slash ++ action)) else slash ++ action

-- What is left of the path where `PathUnescape` fails: its empty result.
abbrev pub or_empty : Option Text → Text
or_empty none = []
or_empty (some s) = s

-- The path of the request below the files, before it is unescaped
unfoldable pub request_path : Config → Text → Text
request_path c uri =
    c.docker_dir
    ++ (store_dir_name
        ++ (slash
            ++ before b'?' (
                if has_prefix uri (slash ++ (c.group ++ slash))
                then drop (length c.group + 2) uri
                else drop 1 uri)))

unfoldable pub large_prefix : Config → Text
large_prefix c =
    if c.support_group_manage
    then slash ++ (c.group ++ (slash ++ (large_dir_name ++ slash)))
    else slash ++ (large_dir_name ++ slash)

-- `GetFilePathFromRequest`: the path, and the path with the name of the small file.
unfoldable pub get_file_path_from_request : Config → Text → Text × Text
unfolding request_path large_prefix
get_file_path_from_request c uri =
    if has_prefix uri (large_prefix c)
    then (or_empty (path_unescape (before b',' (request_path c uri))), request_path c uri)
    else (or_empty (path_unescape (request_path c uri)), [])

-- `FileResult`
pub record FileResult : Type 0 where
  pub url : Text
  pub md5 : Text
  pub path : Text
  pub domain : Text
  pub scene : Text
  pub size : ℤ
  pub mod_time : ℤ
  pub scenes : Text
  pub ret_msg : Text
  pub ret_code : ℕ
  pub src : Text

abbrev pub protocol : Config → Text
protocol c = if c.enable_https then lit "https" else lit "http"

-- `r.Host`, or the host of the configuration where there is no request
unfoldable pub host_of : Config → Option Text → Text
host_of c none = replace_all c.host (lit "http://") []
host_of c (some host) = host

-- The assignments to `Config().DownloadDomain`
unfoldable pub set_domain : Config → Option Text → Config
unfolding host_of
set_domain c host =
    if has_prefix c.download_domain (lit "http")
    then c
    else if text_eq c.download_domain []
    then record c { download_domain = protocol c ++ (lit "://" ++ host_of c host) }
    else record c { download_domain = protocol c ++ (lit "://" ++ c.download_domain) }

-- The path of the file in its URL
unfoldable pub url_path : Config → FileInfo → Text
url_path c info =
    let p =
      replace_first info.path (store_dir_name ++ slash) []
      ++ (slash ++ out_name info.name info.re_name) in
    if c.support_group_manage then c.group ++ (slash ++ p) else p

unfoldable pub url_query : Config → FileInfo → Text
unfolding path_escape
url_query c info =
    if c.default_download then lit "?name=" ++ (path_escape info.name ++ lit "&download=1") else []

-- The result for a configuration whose domain is set
unfoldable pub result_of : Config → Option Text → FileInfo → FileResult
unfolding url_path url_query host_of
result_of c host info =
    let base =
      if text_eq c.download_domain []
      then protocol c ++ (lit "://" ++ host_of c host)
      else c.download_domain in
    record {
      url = base ++ (slash ++ (url_path c info ++ url_query c info));
      md5 = info.md5;
      path = slash ++ url_path c info;
      domain = base;
      scene = info.scene;
      size = info.size;
      mod_time = info.time_stamp;
      scenes = info.scene;
      ret_msg = [];
      ret_code = 0;
      src = slash ++ url_path c info;
    }

-- `BuildFileResult`, with the host of the request: the result, and the configuration that it leaves
unfoldable pub build_file_result : Config → FileInfo → Option Text → FileResult × Config
unfolding set_domain result_of
build_file_result c info host = (result_of (set_domain c host) host info, set_domain c host)
