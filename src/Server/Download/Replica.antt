-- ===== src/Server/Download/Replica.antt =====
-- A file of its own that `DownloadFromPeer` takes from a peer (server/http_download.go) is served as
-- the peer serves it.
use go_fastdfs.Prelude.{
  ℕ, suc, ◌+◌, ◌<◌, ◌≡◌, refl, ◌∙◌, sym, ap, Bool, true, false, Option, some, List, [], ◌∷◌, ◌++◌,
  length, length-append, append-nil, arith,
}
use go_fastdfs.Prelude.Int.{ℤ, negsuc}
use go_fastdfs.Prelude.Text.{
  Text, lit, text_eq, text_eq-false, text_eq_refl, has_infix, has_prefix, replace_first-append,
}
use go_fastdfs.Prelude.Split.{Lacks}
use go_fastdfs.Server.Types.{
  FileInfo, Config, slash, store_dir_name, large_dir_name, whole_file, out_name,
}
use go_fastdfs.Server.Disk.{Disk, exists, write, erase, write_same, none_of_exists}
use go_fastdfs.Server.SmallFile.{Read}
use go_fastdfs.Server.Paths.{get_file_path_by_info}
use go_fastdfs.Server.Paths.RoundTrip.{below_store, group_uri, request-url_path}
use go_fastdfs.Server.Sync.Retries.{most_attempts, begin_download_more}
use go_fastdfs.Server.Download.Absent.{download_file-take_file, download_from_peer_step}
use go_fastdfs.Server.Download.{
  file, send_file, download, is_index, Transfer, logged, is_size, check_file_exist_by_info,
  temporary, download_uri, rename, take_whole, take_file, download_file, download_from_peer,
}

-- The URL of the download is a request for the file.
pub download_uri-group_uri :
    (c : Config) (info : FileInfo) (rest : Text)
    → c.support_group_manage ≡ true
    → info.path ≡ (store_dir_name ++ slash) ++ rest
    → download_uri c info ≡ group_uri c (below_store rest info) []
unfolding download_uri
download_uri-group_uri c info rest g e =
    rw (g, e, replace_first-append b'f' (lit "iles/") rest [])
      (ap (λ t. slash ++ t) (sym (append-nil (c.group ++ (slash ++ below_store rest info)))))

length_uri :
    (c : Config) (info : FileInfo) (rest : Text)
    → length c.group + 2 < length (group_uri c (below_store rest info) [])
length_uri c info rest =
    let name = out_name info.name info.re_name in
    omega (
      arith,
      length-append (c.group ++ (slash ++ below_store rest info)) [],
      length-append c.group (slash ++ below_store rest info),
      length-append rest (slash ++ name),
    )

longer : (s t : Text) → length t < length s → text_eq s t ≡ false
longer s t h = text_eq-false s t (λ e. omega (arith, ap length e))

pub is_index-group_uri :
    (c : Config) (info : FileInfo) (rest : Text)
    → is_index c (group_uri c (below_store rest info) []) ≡ false
is_index-group_uri c info rest =
    let uri = group_uri c (below_store rest info) [] in
    let h = length_uri c info rest in
    rw
      (
        longer uri slash (omega (arith, h)),
        longer uri [] (omega (arith, h)),
        longer uri (slash ++ c.group) (omega (arith, h)),
        longer uri (slash ++ (c.group ++ slash)) (omega (arith, h, length-append c.group slash)),
      )
      refl

-- A file of its own, with a path in the store that a URL leads to
pub record IsServed (c : Config) (info : FileInfo) (rest : Text) : Type 0 where
  pub group : c.support_group_manage ≡ true
  pub path : info.path ≡ (store_dir_name ++ slash) ++ rest
  pub no_query : Lacks b'?' (below_store rest info)
  pub no_percent : Lacks b'%' (get_file_path_by_info c info true)
  pub whole : has_prefix (below_store rest info ++ []) (large_dir_name ++ slash) ≡ false
  pub no_dots : has_infix (download_uri c info) (lit "..") ≡ false

module _ (read : List ℕ → ℤ → ℤ → Read) (is_dir : Text → Bool) where
  -- A server sends the file that is on its disk to the request of a peer.
  download-served :
      (c : Config) (info : FileInfo) (rest : Text) (d : Disk) (b : List ℕ)
      → IsServed c info rest
      → is_dir (get_file_path_by_info c info true) ≡ false
      → d (get_file_path_by_info c info true) ≡ some b
      → download read is_dir true c (download_uri c info) d ≡ file b
  unfolding download send_file
  download-served c info rest d b s dir there =
      let e = download_uri-group_uri c info rest s.group s.path in
      rw (s.no_dots, e, is_index-group_uri c info rest)
        (rw (request-url_path c info rest [] s.group s.path s.no_query s.no_percent tt s.whole)
          (rw (text_eq_refl [], dir, there) refl))

module _ (find : Text → Option FileInfo) (c : Config) (t : Transfer) (info : FileInfo) (d : Disk)
    (b : List ℕ) (own : info.offset ≡ whole_file)
    (absent : exists d (get_file_path_by_info c info true) ≡ false) (reply : t.reply ≡ some b)
    (found : t.found ≡ true) (rename_done : t.rename_done ≡ true)
    (complete : is_size (some b) info.size ≡ true) where
  abbrev path : Text
  path = get_file_path_by_info c info true

  abbrev taken_disk : Disk
  taken_disk = write path b (erase (temporary c info) (write (temporary c info) b d))

  not_there : check_file_exist_by_info find c (negsuc 0) info d ≡ false
  unfolding check_file_exist_by_info
  not_there = rw (none_of_exists d path absent) refl

  take_whole_lem : take_whole c t info (logged info) d ≡ (taken_disk, logged info ∷ [])
  unfolding take_whole rename
  take_whole_lem = rw (take_whole, reply) (rw (found, complete) (rw rename_done refl))

  download_file_lem : download_file find c t info d ≡ (taken_disk, logged info ∷ [])
  unfolding take_file
  download_file_lem =
      download_file-take_file find c t info d (negsuc 0) own absent not_there ∙ take_whole_lem

module _ (read : List ℕ → ℤ → ℤ → Read) (here there : Text → Bool) (find : Text → Option FileInfo)
    (peer c : Config) (t : Transfer) (info : FileInfo) (rest : Text) (of_peer d : Disk) where
  abbrev uri : Text
  uri = download_uri c info

  -- The request brings what the peer sends.
  abbrev pub Brings : Type 0
  Brings = (b : List ℕ) → download read there true peer uri of_peer ≡ file b → t.reply ≡ some b

  same_uri :
      peer.group ≡ c.group
      → IsServed peer info rest
      → IsServed c info rest
      → uri ≡ download_uri peer info
  same_uri e s u =
      download_uri-group_uri c info rest u.group u.path
      ∙ ap (λ g. slash ++ ((g ++ (slash ++ below_store rest info)) ++ [])) (sym e)
      ∙ sym (download_uri-group_uri peer info rest s.group s.path)

  counted_path :
      (n : ℕ)
      → get_file_path_by_info c (record info { retry = n }) true ≡ get_file_path_by_info c info true
  unfolding get_file_path_by_info
  counted_path n = refl

  -- A file of its own that lies at a peer of the same group, and is not here, is taken from there by
  -- `DownloadFromPeer`: it is logged, and from then on its request is answered as the peer answers it,
  -- by the bytes of the file. The transfer succeeds, and the record gives the size of the file.
  pub download_from_peer-download :
      (b : List ℕ)
      → IsServed peer info rest
      → IsServed c info rest
      → peer.group ≡ c.group
      → there (get_file_path_by_info peer info true) ≡ false
      → here (get_file_path_by_info c info true) ≡ false
      → of_peer (get_file_path_by_info peer info true) ≡ some b
      → exists d (get_file_path_by_info c info true) ≡ false
      → Brings
      → c.read_only ≡ false
      → info.retry < most_attempts c
      → info.offset ≡ whole_file
      → is_size (some b) info.size ≡ true
      → t.found ≡ true
      → t.rename_done ≡ true
      → let (after, events) = download_from_peer find c t info d in
        (events ≡ logged (record info { retry = suc info.retry }) ∷ [])
        × (download read here true c uri after ≡ download read there true peer uri of_peer)
        × (download read here true c uri after ≡ file b)
  download_from_peer-download b s u g dir_there dir_here has absent brings ro tries own size found
        rename_done =
      let counted : FileInfo = record info { retry = suc info.retry } in
      let p = counted_path (suc info.retry) in
      let sends : download read there true peer uri of_peer ≡ file b =
        ap (λ x. download read there true peer x of_peer) (same_uri g s u)
        ∙ download-served read there peer info rest of_peer b s dir_there has in
      let e =
        download_file_lem find c t counted d b own (ap (exists d) p ∙ absent) (brings b sends) found
          rename_done size in
      let tmp = temporary c counted in
      let after : Disk =
        write (get_file_path_by_info c counted true) b (erase tmp (write tmp b d)) in
      let holds : after (get_file_path_by_info c info true) ≡ some b =
        rw p (write_same (get_file_path_by_info c info true) b (erase tmp (write tmp b d))) in
      let serves = download-served read here c info rest after b u dir_here holds in
      rw (download_from_peer_step find c t info d (begin_download_more c info ro tries) ∙ e)
        (refl, serves ∙ sym sends, serves)
