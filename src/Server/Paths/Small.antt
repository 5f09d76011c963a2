-- ===== src/Server/Paths/Small.antt =====
-- The URL of a merged small file leads to its bytes.
use go_fastdfs.Prelude.{
  ℕ, suc, ◌+◌, ◌<◌, ◌≡◌, refl, ◌∙◌, ap, sym, true, none, some, List, [], ◌∷◌, ◌++◌, arith, length,
  drop, Option, Option-cases, Bool-cases, inl, inr,
}
use go_fastdfs.Prelude.Int.{ℤ, pos}
use go_fastdfs.Prelude.Text.{Text, lit, last_index, replace_first-front}
use go_fastdfs.Prelude.Split.{Lacks, Lacks-append, Lacks-drop, after_last-Lacks}
use go_fastdfs.Prelude.Text.{after_last}
use go_fastdfs.Prelude.Url.{AreBytes, path_escape-Lacks_slash, path_escape}
use go_fastdfs.Prelude.Decimal.{max_int64}
use go_fastdfs.Server.Types.{
  FileInfo, Config, store_dir_name, large_dir_name, small_file_size, slash,
}
use go_fastdfs.Server.SmallFile.{
  Read, sent, content, get_small_file, save_small_file, large_dir, path_ext, small_name,
}
use go_fastdfs.Server.SmallFile.Name.{small_name-Lacks}
use go_fastdfs.Server.SmallFile.Store.{
  ReadsParts, Later, save_all, sent-save_small_file, re_name-save_small_file,
}
use go_fastdfs.Server.Paths.RoundTrip.{
  group_uri, below_store, url_path-below_store, url_path-set_domain, url_query-set_domain,
  url_query-IsQuery,
}
use go_fastdfs.Server.Paths.LargeFile.{
  large_path, out_name-small_name, request-small_name, saved_uri,
}
use go_fastdfs.Server.Paths.{get_file_path_from_request, url_query, build_file_result}

path_ext-none : (s : Text) → last_index (after_last b'/' s) b'.' ≡ none → path_ext s ≡ []
unfolding path_ext
path_ext-none s e = rw (e, path_ext)

path_ext-some :
    (i : ℕ) (s : Text)
    → last_index (after_last b'/' s) b'.' ≡ some i
    → path_ext s ≡ drop i (after_last b'/' s)
unfolding path_ext
path_ext-some i s e = rw (e, path_ext)

-- An extension has no slash.
path_ext-Lacks_slash : (s : Text) → Lacks b'/' (path_ext s)
path_ext-Lacks_slash s = elim (Option-cases (last_index (after_last b'/' s) b'.')) [
  | inl e ↦ rw (path_ext-none s e) tt
  | inr (i, e) ↦
      rw (path_ext-some i s e) (Lacks-drop b'/' i (after_last b'/' s) (after_last-Lacks b'/' s))
]

url_query-Lacks_slash :
    (c : Config) (info : FileInfo) → AreBytes info.name → Lacks b'/' (url_query c info)
unfolding url_query
url_query-Lacks_slash c info h = elim (Bool-cases c.default_download) [
  | inl e ↦ rw e (
      Lacks-append b'/' (lit "?name=") _ (omega arith) (
        Lacks-append b'/' (path_escape info.name) _ (path_escape-Lacks_slash info.name h)
          (omega arith)))
  | inr e ↦ rw e tt
]

abbrev saved : Config → Text → List ℕ → List ℕ → FileInfo → FileInfo
saved c re_name large source info = (save_small_file c re_name none large (some source) info).info

path-saved :
    (c : Config) (re_name : Text) (large source : List ℕ) (info : FileInfo)
    → (saved c re_name large source info).path
      ≡ (store_dir_name ++ slash) ++ (large_dir_name ++ (slash ++ c.peer_id))
unfolding save_small_file
path-saved c re_name large source info = replace_first-front c.docker_dir b'f' _

name-saved :
    (c : Config) (re_name : Text) (large source : List ℕ) (info : FileInfo)
    → (saved c re_name large source info).name ≡ info.name
unfolding save_small_file
name-saved c re_name large source info = refl

-- The name of the saved file
abbrev saved_name : Text → List ℕ → List ℕ → FileInfo → Text
saved_name re_name large source info =
    small_name re_name (pos (length large)) (pos (length (49 ∷ source))) (path_ext info.name)

below_store-saved :
    (c : Config) (re_name : Text) (large source : List ℕ) (info : FileInfo)
    → info.size ≡ pos (length source)
    → below_store (large_path c) (saved c re_name large source info)
      ≡ large_path c ++ (slash ++ saved_name re_name large source info)
below_store-saved c re_name large source info z =
    rw (re_name-save_small_file c re_name large source info z, out_name-small_name) refl

path-build_file_result :
    (c : Config) (host : Option Text) (re_name : Text) (large source : List ℕ) (info : FileInfo)
    → info.size ≡ pos (length source)
    → c.support_group_manage ≡ true
    → (build_file_result c (saved c re_name large source info) host).0.path
      ≡ slash
        ++ (c.group ++ (slash ++ (large_path c ++ (slash ++ saved_name re_name large source info))))
unfolding build_file_result
path-build_file_result c host re_name large source info z g =
    rw
      (
        url_path-set_domain,
        url_path-below_store c (saved c re_name large source info) (large_path c) g
            (path-saved c re_name large source info),
        below_store-saved c re_name large source info z,
      )
      refl

request_uri :
    (c : Config) (host : Option Text) (re_name : Text) (large source : List ℕ) (info : FileInfo)
    (query : Text)
    → info.size ≡ pos (length source)
    → c.support_group_manage ≡ true
    → (build_file_result c (saved c re_name large source info) host).0.path ++ query
      ≡ group_uri c (large_path c ++ (slash ++ saved_name re_name large source info)) query
request_uri c host re_name large source info query z g =
    ap (λ p. p ++ query) (path-build_file_result c host re_name large source info z g)

url-build_file_result :
    (c : Config) (info : FileInfo) (host : Option Text)
    → let r = (build_file_result c info host).0 in r.url ≡ r.domain ++ (r.path ++ url_query c info)
unfolding build_file_result
url-build_file_result c info host = rw url_query-set_domain refl

module _ (read : List ℕ → ℤ → ℤ → Read) (reads : ReadsParts read) where
  -- With groups, the URL that `BuildFileResult` gives for a file that `SaveSmallFile` has merged is
  -- its domain and a request that leads to the large file, and is answered by the bytes of the file,
  -- whatever is merged behind it. The names have none of the bytes that separate the parts of a
  -- URL, and the large file stays below 2^63 bytes.
  pub sent-build_file_result :
      (c : Config) (host : Option Text) (re_name : Text) (large source : List ℕ) (info : FileInfo)
      (later : List Later)
      → let s = save_small_file c re_name none large (some source) info in
        let r = (build_file_result c s.info host).0 in
        info.size ≡ pos (length source)
        → length source < small_file_size
        → length large + length source < max_int64
        → c.support_group_manage ≡ true
        → AreBytes info.name
        → Lacks b'/' re_name
        → Lacks b'?' (large_path c)
        → Lacks b'?' re_name
        → Lacks b'?' (path_ext info.name)
        → Lacks b',' ((large_dir c ++ slash) ++ re_name)
        → Lacks b'%' ((large_dir c ++ slash) ++ re_name)
        → Lacks b',' re_name
        → (r.url ≡ r.domain ++ (r.path ++ url_query c s.info))
          × ((get_file_path_from_request c (r.path ++ url_query c s.info)).0
              ≡ (large_dir c ++ slash) ++ re_name)
          × (sent (
                get_small_file read
                  (r.path ++ url_query c s.info)
                  (some (save_all c re_name s.large later)))
              ≡ content source)
  sent-build_file_result c host re_name large source info later z small fits g bytes ls qd qn qe
        comma percent lc =
      let s = saved c re_name large source info in
      let query = url_query c s in
      let q : Lacks b'?' (large_path c ++ (slash ++ saved_name re_name large source info)) =
        Lacks-append b'?' (large_path c) _ qd (
          omega arith,
          small_name-Lacks b'?' re_name (path_ext info.name) (length large) (suc (length source))
              (inr (omega arith)) (omega arith) qn qe,
        ) in
      let slashes : Lacks b'/' (path_ext info.name ++ query) =
        Lacks-append b'/' (path_ext info.name) query (path_ext-Lacks_slash info.name)
          (url_query-Lacks_slash c s (rw (name-saved c re_name large source info) bytes)) in
      (
        url-build_file_result c s host,
        rw (request_uri c host re_name large source info query z g) (
            ap (λ (t : Text × Text). t.0)
              (request-small_name c re_name (path_ext info.name) query (pos (length large))
                (pos (length (49 ∷ source))) g q comma percent (url_query-IsQuery c s))),
        rw (request_uri c host re_name large source info query z g ∙ saved_uri c _ query) (
            ap
              (λ n. sent (
                get_small_file read
                  ((slash ++ (c.group ++ (slash ++ large_path c))) ++ b'/' ∷ (n ++ query))
                  (some (
                    save_all c re_name
                      (save_small_file c re_name none large (some source) info).large later))))
              (sym (re_name-save_small_file c re_name large source info z))
            ∙ sent-save_small_file read reads c re_name
                (slash ++ (c.group ++ (slash ++ large_path c))) query large source info later z
                small fits lc ls slashes),
      )
