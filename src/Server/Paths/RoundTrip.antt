-- ===== src/Server/Paths/RoundTrip.antt =====
-- The URL that `BuildFileResult` gives leads `GetFilePathFromRequest` to the file.
use go_fastdfs.Prelude.{
  ◌+◌, ◌≡◌, refl, true, false, [], ◌∷◌, ◌++◌, arith, append_assoc, append-nil, length,
  length-append, Bool-cases, inl, inr, Option,
}
use go_fastdfs.Prelude.Text.{
  Text, lit, has_prefix, has_prefix-append, has_prefix-append_left, drop-append,
  replace_first-append,
}
use go_fastdfs.Prelude.Split.{before, Lacks, before-append, before_of_Lacks}
use go_fastdfs.Prelude.Url.{path_unescape_of_Lacks}
use go_fastdfs.Server.Types.{FileInfo, Config, store_dir_name, large_dir_name, out_name, slash}
use go_fastdfs.Server.Paths.{
  get_file_path_by_info, get_file_path_from_request, request_path, large_prefix, url_path,
  url_query, build_file_result, set_domain,
}

-- A request for `/group/rest` with a query
abbrev pub group_uri : Config → Text → Text → Text
group_uri c rest query = slash ++ ((c.group ++ (slash ++ rest)) ++ query)

group_uri_assoc :
    (c : Config) (rest query : Text)
    → group_uri c rest query ≡ (slash ++ (c.group ++ slash)) ++ (rest ++ query)
group_uri_assoc c rest query = simp append_assoc

-- The query is empty, or begins with a question mark.
abbrev pub IsQuery : Text → Type 0
IsQuery [] = Unit {0}
IsQuery (c ∷ q) = c ≡ b'?'

before-query : (s query : Text) → Lacks b'?' s → IsQuery query → before b'?' (s ++ query) ≡ s
before-query s [] h q = rw append-nil (before_of_Lacks b'?' s h)
before-query s (c ∷ query) h q = rw q (before-append b'?' s query h)

length_group : (c : Config) → length (slash ++ (c.group ++ slash)) ≡ length c.group + 2
length_group c = omega (arith, length-append c.group slash)

pub request_path-group_uri :
    (c : Config) (rest query : Text)
    → Lacks b'?' rest
    → IsQuery query
    → request_path c (group_uri c rest query) ≡ c.docker_dir ++ (store_dir_name ++ (slash ++ rest))
unfolding request_path
request_path-group_uri c rest query h q =
    rw
      (
        group_uri_assoc,
        has_prefix-append (slash ++ (c.group ++ slash)) (rest ++ query),
        ← length_group c,
        drop-append (slash ++ (c.group ++ slash)) (rest ++ query),
        before-query rest query h q,
      )
      refl

large_prefix_assoc :
    (c : Config)
    → c.support_group_manage ≡ true
    → large_prefix c ≡ (slash ++ (c.group ++ slash)) ++ (large_dir_name ++ slash)
unfolding large_prefix
large_prefix_assoc c g = rw g (simp append_assoc)

pub has_prefix-large_prefix :
    (c : Config) (rest query : Text)
    → c.support_group_manage ≡ true
    → has_prefix (group_uri c rest query) (large_prefix c)
      ≡ has_prefix (rest ++ query) (large_dir_name ++ slash)
has_prefix-large_prefix c rest query g =
    rw (group_uri_assoc, large_prefix_assoc c g)
      (has_prefix-append_left (slash ++ (c.group ++ slash)) _ _)

-- The last bytes of a URL path: the directory below `files/` and the name
abbrev pub below_store : Text → FileInfo → Text
below_store rest info = rest ++ (slash ++ out_name info.name info.re_name)

pub url_path-below_store :
    (c : Config) (info : FileInfo) (rest : Text)
    → c.support_group_manage ≡ true
    → info.path ≡ (store_dir_name ++ slash) ++ rest
    → url_path c info ≡ c.group ++ (slash ++ below_store rest info)
unfolding url_path
url_path-below_store c info rest g e =
    rw (g, e, replace_first-append b'f' (lit "iles/") rest []) refl

pub url_path-set_domain :
    (c : Config) (host : Option Text) (info : FileInfo)
    → url_path (set_domain c host) info ≡ url_path c info
unfolding set_domain url_path
url_path-set_domain c host info = ground arith

pub url_query-set_domain :
    (c : Config) (host : Option Text) (info : FileInfo)
    → url_query (set_domain c host) info ≡ url_query c info
unfolding set_domain url_query
url_query-set_domain c host info = ground arith

pub url_query-IsQuery : (c : Config) (info : FileInfo) → IsQuery (url_query c info)
unfolding url_query
url_query-IsQuery c info = elim (Bool-cases c.default_download) [
  | inl e ↦ rw e refl
  | inr e ↦ rw e tt
]

file_path :
    (c : Config) (info : FileInfo) (rest : Text)
    → info.path ≡ (store_dir_name ++ slash) ++ rest
    → c.docker_dir ++ (store_dir_name ++ (slash ++ below_store rest info))
      ≡ get_file_path_by_info c info true
unfolding get_file_path_by_info
file_path c info rest e = rw e (simp append_assoc)

pub request-url_path :
    (c : Config) (info : FileInfo) (rest query : Text)
    → c.support_group_manage ≡ true
    → info.path ≡ (store_dir_name ++ slash) ++ rest
    → Lacks b'?' (below_store rest info)
    → Lacks b'%' (get_file_path_by_info c info true)
    → IsQuery query
    → has_prefix (below_store rest info ++ query) (large_dir_name ++ slash) ≡ false
    → get_file_path_from_request c (group_uri c (below_store rest info) query)
      ≡ (get_file_path_by_info c info true, [])
unfolding get_file_path_from_request
request-url_path c info rest query g e h l q n =
    rw
      (
        has_prefix-large_prefix c (below_store rest info) query g,
        n,
        request_path-group_uri c (below_store rest info) query h q,
        file_path c info rest e,
        path_unescape_of_Lacks (get_file_path_by_info c info true) l,
      )
      refl

-- With groups, the URL of a file of its own is its domain and a request that the server takes to
-- the path of the file: where the file lies in the store but not in the directory of the large
-- files, its path has no percent sign, and its part below the store no question mark.
pub request-build_file_result :
    (c : Config) (info : FileInfo) (host : Option Text) (rest : Text)
    → c.support_group_manage ≡ true
    → info.path ≡ (store_dir_name ++ slash) ++ rest
    → Lacks b'?' (below_store rest info)
    → Lacks b'%' (get_file_path_by_info c info true)
    → has_prefix (below_store rest info ++ url_query c info) (large_dir_name ++ slash) ≡ false
    → let r = (build_file_result c info host).0 in
      (r.url ≡ r.domain ++ (r.path ++ url_query c info))
      × (get_file_path_from_request c (r.path ++ url_query c info)
          ≡ (get_file_path_by_info c info true, []))
unfolding build_file_result
request-build_file_result c info host rest g e h l n = (
  rw (url_path-set_domain, url_query-set_domain) refl,
  rw (url_path-set_domain, url_path-below_store c info rest g e)
      (request-url_path c info rest (url_query c info) g e h l (url_query-IsQuery c info) n),
)
