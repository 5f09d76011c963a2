-- ===== src/Server/Download/Absent.antt =====
-- A download of `DownloadFromPeer` (server/http_download.go) of a file that is not here.
use go_fastdfs.Prelude.{
  ◌≡◌, refl, ◌∙◌, ap, Bool, true, false, not, ◌&&◌, ◌||◌, Option, some, if◌then◌else◌,
}
use go_fastdfs.Prelude.Int.{ℤ}
use go_fastdfs.Prelude.Text.{Text}
use go_fastdfs.Server.Types.{FileInfo, Config}
use go_fastdfs.Server.Disk.{Disk, exists}
use go_fastdfs.Server.Paths.{get_file_path_by_info}
use go_fastdfs.Server.Sync.{begin_download, is_migrated}
use go_fastdfs.Server.Download.{
  Transfer, check_file_exist_by_info, take_file, download_file, download_from_peer,
}

and_false : (a : Bool) → (a && false) ≡ false
and_false true = refl
and_false false = refl

if_false : {A : Type 0} (b : Bool) (x y : A) → b ≡ false → (if b then x else y) ≡ y
if_false b x y h = rw h refl

module _ (find : Text → Option FileInfo) (c : Config) (t : Transfer) (info : FileInfo)
    (d : Disk) where
  -- Where neither check finds the file, it is requested.
  pub download_file-take_file :
      (offset : ℤ)
      → info.offset ≡ offset
      → exists d (get_file_path_by_info c info true) ≡ false
      → check_file_exist_by_info find c offset info d ≡ false
      → download_file find c t info d ≡ take_file c t offset info d
  unfolding download_file
  download_file-take_file offset own absent unknown =
      let path = get_file_path_by_info c info true in
      let known = λ (o : ℤ).
        not (is_migrated o) && c.enable_distinct_file && check_file_exist_by_info find c o info d in
      let old = λ (o : ℤ). (not c.enable_distinct_file || is_migrated o) && exists d path in
      let tested = not (is_migrated offset) && c.enable_distinct_file in
      let fresh : known info.offset ≡ false =
        ap known own ∙ ap (λ x. tested && x) unknown ∙ and_false tested in
      let new : old info.offset ≡ false =
        ap (λ x. (not c.enable_distinct_file || is_migrated info.offset) && x) absent
        ∙ and_false (not c.enable_distinct_file || is_migrated info.offset) in
      if_false (known info.offset) _ _ fresh
      ∙ if_false (old info.offset) _ _ new
      ∙ ap (λ o. take_file c t o info d) own

  pub download_from_peer_step :
      {i : FileInfo}
      → begin_download c info ≡ some i
      → download_from_peer find c t info d ≡ download_file find c t i d
  unfolding download_from_peer
  download_from_peer_step h = rw (download_from_peer, h) refl
