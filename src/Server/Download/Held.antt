-- ===== src/Server/Download/Held.antt =====
-- The part of a large file that a small file is (server/http_upload.go), and the answer of `Download`
-- of server/http_download.go to its request.
use go_fastdfs.Prelude.{
  ℕ, suc, ◌+◌, ◌≤◌, ◌≡◌, refl, ◌∙◌, sym, ap, Bool, true, false, Option, some, List, [], ◌∷◌, ◌++◌,
  length, take, drop, length-append, arith,
}
use go_fastdfs.Prelude.Int.{ℤ, pos, ltb_ℤ, add_int64}
use go_fastdfs.Prelude.Text.{Text, lit, text_eq, text_eq-false, has_infix}
use go_fastdfs.Prelude.Split.{Lacks}
use go_fastdfs.Prelude.Decimal.{max_int64}
use go_fastdfs.Server.Types.{FileInfo, Config, slash, store_dir_name, small_file_size}
use go_fastdfs.Server.Disk.{Disk}
use go_fastdfs.Server.SmallFile.{
  Read, bytes, read_parsed, get_small_file, sent, content, small_name, large_dir,
}
use go_fastdfs.Server.SmallFile.Name.{parsed, parse_small_file-small_name}
use go_fastdfs.Server.SmallFile.Store.{ReadsParts}
use go_fastdfs.Server.Paths.{get_file_path_from_request, request_path, large_prefix}
use go_fastdfs.Server.Paths.RoundTrip.{below_store, group_uri}
use go_fastdfs.Server.Paths.LargeFile.{
  large_path, request-small_name, out_name-small_name, saved_uri,
}
use go_fastdfs.Server.Download.{file, page_of, send_file, download, is_index, download_uri}
use go_fastdfs.Server.Download.Replica.{download_uri-group_uri, is_index-group_uri}

-- A large file holds the mark and the bytes of a small file at a position.
abbrev pub Holds : ℕ → List ℕ → List ℕ → Type 0
Holds n source large =
    (n + suc (length source) ≤ length large)
    × (take (suc (length source)) (drop n large) ≡ 49 ∷ source)

-- The documented behaviour of `goutil.WriteFileByOffSet`: where it succeeds the file holds the bytes.
abbrev pub WritesParts : (List ℕ → ℤ → List ℕ → Option (List ℕ)) → Type 0
WritesParts write_at =
    (large part after : List ℕ) (n : ℕ)
    → write_at large (pos n) part ≡ some after
    → (n + length part ≤ length after) × (take (length part) (drop n after) ≡ part)

module _ (read : List ℕ → ℤ → ℤ → Read) (reads : ReadsParts read) where
  read_parsed-Holds :
      (name : Text) (n : ℕ) (source large : List ℕ)
      → n + suc (length source) ≤ max_int64
      → Holds n source large
      → read_parsed read (parsed name n (suc (length source))) (some large) ≡ bytes (49 ∷ source)
  unfolding read_parsed
  read_parsed-Holds name n source large h (fits, part) =
      let inside : ltb_ℤ (pos (length large)) (add_int64 (pos n) (pos (suc (length source))))
          ≡ false =
        ground arith in
      rw (inside, reads large n (suc (length source)) fits, part) refl

  -- A request for the small file is answered by its bytes.
  sent-Holds :
      (dir re_name ext query : Text) (n : ℕ) (source large : List ℕ)
      → Lacks b',' re_name
      → Lacks b'/' re_name
      → Lacks b'/' (ext ++ query)
      → suc (length source) ≤ small_file_size
      → n + suc (length source) ≤ max_int64
      → Holds n source large
      → sent (
          get_small_file read
            (dir ++ b'/' ∷ (small_name re_name (pos n) (pos (suc (length source))) ext ++ query))
            (some large))
        ≡ content source
  unfolding get_small_file
  sent-Holds dir re_name ext query n source large c l e small h k =
      rw
        (
          parse_small_file-small_name dir re_name ext query n (suc (length source)) c l e
              (omega arith) small,
          read_parsed-Holds re_name n source large h k,
        )
        (unfold sent in refl)

-- A configuration with the identity of the server that merged the file
abbrev pub at : Config → Text → Config
at c pid = record c { peer_id = pid }

-- The path of the large file
abbrev pub large_file : Config → Text → Text → Text
large_file c pid re_name = (large_dir (at c pid) ++ slash) ++ re_name

-- The record of a part of a large file, whose names have none of the bytes that separate the parts
-- of a URL
pub record IsPart (c : Config) (pid re_name ext : Text) (n : ℕ) (source : List ℕ) (info : FileInfo)
    : Type 0 where
  pub group : c.support_group_manage ≡ true
  pub path : info.path ≡ (store_dir_name ++ slash) ++ large_path (at c pid)
  pub name : info.re_name ≡ small_name re_name (pos n) (pos (suc (length source))) ext
  pub no_query : Lacks b'?' (
      large_path (at c pid)
      ++ (slash ++ small_name re_name (pos n) (pos (suc (length source))) ext))
  pub no_comma : Lacks b',' (large_file c pid re_name)
  pub no_percent : Lacks b'%' (large_file c pid re_name)
  pub no_dots : has_infix (download_uri c info) (lit "..") ≡ false
  pub plain_name : Lacks b',' re_name × Lacks b'/' re_name × Lacks b'/' (ext ++ [])
  pub small : suc (length source) ≤ small_file_size
  pub bounded : n + suc (length source) ≤ max_int64

not_empty_path : (s t : Text) → text_eq ((s ++ slash) ++ t) [] ≡ false
not_empty_path s t =
    text_eq-false _ _
      (λ e. omega (arith, ap length e, length-append (s ++ slash) t, length-append s slash))

module _ (c : Config) (pid re_name ext : Text) (n : ℕ) (source : List ℕ) (info : FileInfo)
    (p : IsPart c pid re_name ext n source info) where
  abbrev pub part_name : Text
  part_name = small_name re_name (pos n) (pos (suc (length source))) ext

  below_store_part :
      below_store (large_path (at c pid)) info ≡ large_path (at c pid) ++ (slash ++ part_name)
  below_store_part =
      rw (p.name, out_name-small_name info.name re_name ext (pos n) (pos (suc (length source))))
        refl

  pub download_uri_part :
      download_uri c info ≡ group_uri c (large_path (at c pid) ++ (slash ++ part_name)) []
  download_uri_part =
      download_uri-group_uri c info (large_path (at c pid)) p.group p.path
      ∙ ap (λ t. group_uri c t []) below_store_part

  request_at :
      (uri : Text) → get_file_path_from_request (at c pid) uri ≡ get_file_path_from_request c uri
  unfolding get_file_path_from_request request_path large_prefix
  request_at uri = refl

  request_part :
      get_file_path_from_request c (group_uri c (large_path (at c pid) ++ (slash ++ part_name)) [])
      ≡ (large_file c pid re_name, (large_dir (at c pid) ++ slash) ++ part_name)
  request_part =
      sym (request_at (group_uri c (large_path (at c pid) ++ (slash ++ part_name)) []))
      ∙ request-small_name (at c pid) re_name ext [] (pos n) (pos (suc (length source))) p.group
          p.no_query p.no_comma p.no_percent tt

  index_part : is_index c (download_uri c info) ≡ false
  index_part =
      rw (download_uri-group_uri c info (large_path (at c pid)) p.group p.path)
        (is_index-group_uri c info (large_path (at c pid)))

  -- A server sends the part that its large file holds.
  pub download-Holds :
      (read : List ℕ → ℤ → ℤ → Read) (reads : ReadsParts read) (is_dir : Text → Bool) (d : Disk)
      (large : List ℕ)
      → d (large_file c pid re_name) ≡ some large
      → Holds n source large
      → download read is_dir true c (download_uri c info) d ≡ file source
  unfolding download send_file
  download-Holds read reads is_dir d large there holds =
      let (c0, s0, e0) = p.plain_name in
      let uri = saved_uri (at c pid) part_name [] in
      rw (p.no_dots, index_part, download_uri_part)
        (rw request_part (
          rw (not_empty_path (large_dir (at c pid)) part_name, there, uri)
            (ap page_of (
              sent-Holds read reads (slash ++ (c.group ++ (slash ++ large_path (at c pid)))) re_name
                ext [] n source large c0 s0 e0 p.small p.bounded holds))))
