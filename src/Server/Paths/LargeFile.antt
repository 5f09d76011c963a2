-- ===== src/Server/Paths/LargeFile.antt =====
-- The path of a large file and the requests for its parts (server/fileserver.go,
-- `GetFilePathFromRequest`).
use go_fastdfs.Prelude.{◌≡◌, refl, ◌∙◌, ap, sym, true, [], ◌∷◌, ◌++◌, append_assoc}
use go_fastdfs.Prelude.Int.{ℤ}
use go_fastdfs.Prelude.Text.{Text, has_prefix, has_prefix-append}
use go_fastdfs.Prelude.Split.{before, Lacks, before-append}
use go_fastdfs.Prelude.Url.{path_unescape_of_Lacks}
use go_fastdfs.Server.Types.{Config, store_dir_name, large_dir_name, out_name, slash}
use go_fastdfs.Server.SmallFile.{large_dir, small_name}
use go_fastdfs.Server.Paths.RoundTrip.{
  group_uri, IsQuery, has_prefix-large_prefix, request_path-group_uri,
}
use go_fastdfs.Server.Paths.{get_file_path_from_request}

pub out_name-small_name :
    (name re_name ext : Text) (offset size : ℤ)
    → out_name name (small_name re_name offset size ext) ≡ small_name re_name offset size ext
unfolding out_name small_name
out_name-small_name name [] ext offset size = refl
out_name-small_name name (c ∷ re_name) ext offset size = refl

abbrev pub large_path : Config → Text
large_path c = large_dir_name ++ (slash ++ c.peer_id)

-- The path of a large file with the name of a part of it, in two groupings
pub store_path :
    (c : Config) (n : Text)
    → c.docker_dir ++ (store_dir_name ++ (slash ++ (large_path c ++ (slash ++ n))))
      ≡ (large_dir c ++ slash) ++ n
unfolding large_dir
store_path c n = simp append_assoc

pub before-small_name :
    (d re_name ext : Text) (offset size : ℤ)
    → Lacks b',' (d ++ re_name)
    → before b',' (d ++ small_name re_name offset size ext) ≡ d ++ re_name
unfolding small_name
before-small_name d re_name ext offset size h =
    ap (before b',') (sym (append_assoc d re_name _)) ∙ before-append b',' (d ++ re_name) _ h

large_path_assoc :
    (c : Config) (n query : Text)
    → (large_path c ++ (slash ++ n)) ++ query
      ≡ (large_dir_name ++ slash) ++ (c.peer_id ++ (slash ++ (n ++ query)))
large_path_assoc c n query = simp append_assoc

has_prefix-large_path :
    (c : Config) (n query : Text)
    → has_prefix ((large_path c ++ (slash ++ n)) ++ query) (large_dir_name ++ slash) ≡ true
has_prefix-large_path c n query =
    ap (λ s. has_prefix s (large_dir_name ++ slash)) (large_path_assoc c n query)
    ∙ has_prefix-append (large_dir_name ++ slash) (c.peer_id ++ (slash ++ (n ++ query)))

pub request-small_name :
    (c : Config) (re_name ext query : Text) (offset size : ℤ)
    → let n = small_name re_name offset size ext in
      c.support_group_manage ≡ true
      → Lacks b'?' (large_path c ++ (slash ++ n))
      → Lacks b',' ((large_dir c ++ slash) ++ re_name)
      → Lacks b'%' ((large_dir c ++ slash) ++ re_name)
      → IsQuery query
      → get_file_path_from_request c (group_uri c (large_path c ++ (slash ++ n)) query)
        ≡ ((large_dir c ++ slash) ++ re_name, (large_dir c ++ slash) ++ n)
unfolding get_file_path_from_request
request-small_name c re_name ext query offset size g q comma percent isq =
    let n = small_name re_name offset size ext in
    rw
      (
        has_prefix-large_prefix c (large_path c ++ (slash ++ n)) query g,
        has_prefix-large_path c n query,
        request_path-group_uri c (large_path c ++ (slash ++ n)) query q isq,
        store_path c n,
        before-small_name (large_dir c ++ slash) re_name ext offset size comma,
        path_unescape_of_Lacks ((large_dir c ++ slash) ++ re_name) percent,
      )
      refl

-- A request for the saved file, cut at its last slash
pub saved_uri :
    (c : Config) (n query : Text)
    → group_uri c (large_path c ++ (slash ++ n)) query
      ≡ (slash ++ (c.group ++ (slash ++ large_path c))) ++ b'/' ∷ (n ++ query)
saved_uri c n query = simp append_assoc
