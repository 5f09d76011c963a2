-- ===== src/Server/Download/Part.antt =====
-- A merged small file that `DownloadFromPeer` takes from a peer (server/http_download.go) is served
-- as the peer serves it.
use go_fastdfs.Prelude.{
  ℕ, suc, ◌<◌, ◌≡◌, refl, ◌∙◌, sym, ap, Bool, true, false, Option, none, some, List, [], ◌∷◌, ◌++◌,
  length, arith,
}
use go_fastdfs.Prelude.Int.{ℤ, pos}
use go_fastdfs.Prelude.Text.{Text}
use go_fastdfs.Prelude.Split.{before}
use go_fastdfs.Server.Types.{FileInfo, Config, slash}
use go_fastdfs.Server.Disk.{Disk, exists, write, write_same}
use go_fastdfs.Server.SmallFile.{Read, small_name, large_dir}
use go_fastdfs.Server.SmallFile.Store.{ReadsParts}
use go_fastdfs.Server.Paths.{get_file_path_by_info}
use go_fastdfs.Server.Paths.LargeFile.{
  large_path, out_name-small_name, before-small_name, store_path,
}
use go_fastdfs.Server.Sync.Retries.{most_attempts, begin_download_more}
use go_fastdfs.Server.Download.{
  file, download, Transfer, logged, is_size, check_file_exist_by_info, download_uri, bytes_at,
  small_target, take_small, take_file, download_file, download_from_peer,
}
use go_fastdfs.Server.Download.Absent.{download_file-take_file, download_from_peer_step}
use go_fastdfs.Server.Download.Held.{
  Holds, WritesParts, large_file, IsPart, at, part_name, download_uri_part, download-Holds,
}

module _ (c : Config) (pid re_name ext : Text) (n : ℕ) (source : List ℕ) (info : FileInfo)
    (p : IsPart c pid re_name ext n source info) where
  small_target_part : small_target c info ≡ large_file c pid re_name
  unfolding get_file_path_by_info
  small_target_part =
      let name = small_name re_name (pos n) (pos (suc (length source))) ext in
      rw
        (
          p.path,
          p.name,
          out_name-small_name info.name re_name ext (pos n) (pos (suc (length source))),
        )
        (ap (before b',') (store_path (at c pid) name)
          ∙ before-small_name (large_dir (at c pid) ++ slash) re_name ext (pos n)
              (pos (suc (length source))) p.no_comma)

  module _ (find : Text → Option FileInfo) (t : Transfer) (d : Disk) (after : List ℕ)
      (offset : info.offset ≡ pos n) (size : info.size ≡ pos (suc (length source)))
      (unknown : find info.md5 ≡ none)
      (absent : exists d (get_file_path_by_info c info true) ≡ false)
      (reply : t.reply ≡ some source)
      (written : t.write_at (bytes_at d (large_file c pid re_name)) (pos n) (49 ∷ source)
        ≡ some after) where
    right_size : is_size (some (49 ∷ source)) info.size ≡ true
    right_size = ap (is_size (some (49 ∷ source))) size ∙ ground arith

    writes : t.write_at (bytes_at d (small_target c info)) info.offset (49 ∷ source) ≡ some after
    writes =
        ap (λ o. t.write_at (bytes_at d (small_target c info)) o (49 ∷ source)) offset
        ∙ ap (λ x. t.write_at (bytes_at d x) (pos n) (49 ∷ source)) small_target_part
        ∙ written

    take_small_lem : take_small c t info d ≡ (write (small_target c info) after d, logged info ∷ [])
    unfolding take_small
    take_small_lem = rw (take_small, reply) (rw (right_size) (rw writes refl))

    not_known : check_file_exist_by_info find c (pos n) info d ≡ false
    unfolding check_file_exist_by_info
    not_known = rw (check_file_exist_by_info, unknown) refl

    download_file_part :
        download_file find c t info d ≡ (write (small_target c info) after d, logged info ∷ [])
    unfolding take_file
    download_file_part =
        download_file-take_file find c t info d (pos n) offset absent not_known ∙ take_small_lem

module _ (read : List ℕ → ℤ → ℤ → Read) (reads : ReadsParts read) (here there : Text → Bool)
    (find : Text → Option FileInfo) (peer c : Config) (t : Transfer) (pid re_name ext : Text)
    (n : ℕ) (source : List ℕ) (info : FileInfo) (of_peer d : Disk) where
  counted_path :
      (m : ℕ)
      → get_file_path_by_info c (record info { retry = m }) true ≡ get_file_path_by_info c info true
  unfolding get_file_path_by_info
  counted_path m = refl

  same_uri :
      peer.group ≡ c.group
      → IsPart peer pid re_name ext n source info
      → IsPart c pid re_name ext n source info
      → download_uri c info ≡ download_uri peer info
  same_uri g s u =
      download_uri_part c pid re_name ext n source info u
      ∙ ap
          (λ x.
            slash
            ++ ((x
                  ++ (slash
                      ++ (large_path (at c pid)
                          ++ (slash ++ part_name c pid re_name ext n source info u))))
                ++ []))
          (sym g)
      ∙ sym (download_uri_part peer pid re_name ext n source info s)

  -- The record counts for the part with each number of retries.
  IsPart-retry :
      (m : ℕ)
      → IsPart c pid re_name ext n source info
      → IsPart c pid re_name ext n source (record info { retry = m })
  unfolding download_uri
  IsPart-retry m p = record {
    group = p.group;
    path = p.path;
    name = p.name;
    no_query = p.no_query;
    no_comma = p.no_comma;
    no_percent = p.no_percent;
    no_dots = p.no_dots;
    plain_name = p.plain_name;
    small = p.small;
    bounded = p.bounded;
  }

  -- A small file that lies in the large file of a peer of the same group, and is not known here, with
  -- no file at its path, is taken from there by `DownloadFromPeer`: it is logged, and from then on its
  -- request is answered as the peer answers it, by the bytes of the file. The server is not read-only,
  -- retries are left, groups are on, the names have none of the bytes that separate the parts of a
  -- URL and no two dots, the part ends below 2^63 bytes and is below the size of small files, the
  -- request brings what the peer sends, and the write into the large file succeeds.
  pub download_from_peer-Holds :
      (of_large after : List ℕ)
      → IsPart peer pid re_name ext n source info
      → IsPart c pid re_name ext n source info
      → peer.group ≡ c.group
      → of_peer (large_file peer pid re_name) ≡ some of_large
      → Holds n source of_large
      → ((b : List ℕ)
          → download read there true peer (download_uri c info) of_peer ≡ file b
          → t.reply ≡ some b)
      → WritesParts t.write_at
      → t.write_at (bytes_at d (large_file c pid re_name)) (pos n) (49 ∷ source) ≡ some after
      → c.read_only ≡ false
      → info.retry < most_attempts c
      → info.offset ≡ pos n
      → info.size ≡ pos (suc (length source))
      → find info.md5 ≡ none
      → exists d (get_file_path_by_info c info true) ≡ false
      → let (left, events) = download_from_peer find c t info d in
        (events ≡ logged (record info { retry = suc info.retry }) ∷ [])
        × (download read here true c (download_uri c info) left
            ≡ download read there true peer (download_uri c info) of_peer)
        × (download read here true c (download_uri c info) left ≡ file source)
  download_from_peer-Holds of_large after s u g there_large holds brings spec writes ro tries offset
        size unknown absent =
      let m = suc info.retry in
      let counted : FileInfo = record info { retry = m } in
      let q = IsPart-retry m u in
      let sends : download read there true peer (download_uri c info) of_peer ≡ file source =
        ap (λ x. download read there true peer x of_peer) (same_uri g s u)
        ∙ download-Holds peer pid re_name ext n source info s read reads there of_peer of_large
            there_large holds in
      let e =
        download_file_part c pid re_name ext n source counted q find t d after offset size unknown
          (ap (exists d) (counted_path m) ∙ absent) (brings source sends) writes in
      let left : Disk = write (small_target c counted) after d in
      let lies : left (large_file c pid re_name) ≡ some after =
        rw (small_target_part c pid re_name ext n source counted q)
          (write_same (large_file c pid re_name) after d) in
      let serves =
        download-Holds c pid re_name ext n source info u read reads here left after lies
          (spec (bytes_at d (large_file c pid re_name)) (49 ∷ source) after n writes) in
      rw (download_from_peer_step find c t info d (begin_download_more c info ro tries) ∙ e)
        (refl, serves ∙ sym sends, serves)
