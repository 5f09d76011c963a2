-- ===== src/Server/Info/Acknowledgement.antt =====
-- A server that has a file acknowledges it to the others (server/http_info.go, server/fileserver.go).
use go_fastdfs.Prelude.{
  ◌≡◌, ◌≢◌, refl, ◌∙◌, ap, inl, inr, true, false, not, Option, none, some, [], ◌∷◌, Bool-cases,
}
use go_fastdfs.Prelude.Int.{ℤ}
use go_fastdfs.Prelude.Text.{Text, text_eq, text_eq-false}
use go_fastdfs.Server.Types.{FileInfo, Config, file_log}
use go_fastdfs.Server.Database.{Database, CountMap, IsLawful, IsWritable}
use go_fastdfs.Server.Disk.{Disk, exists}
use go_fastdfs.Server.Meta.{Meta, stored, save_file_md5_log}
use go_fastdfs.Server.Meta.Lookup.{find-save_file_md5_log}
use go_fastdfs.Server.Paths.{get_file_path_by_info}
use go_fastdfs.Server.Sync.{
  World, saved, add_peer, is_migrated, is_whole, post_to, peer_step, sent_path, sized,
}
use go_fastdfs.Prelude.TextSet.{contains}
use go_fastdfs.Server.Upload.Post.Content.{entry_after-file_log}
use go_fastdfs.Server.Info.{PathInfo, Found, check_record, check_file_exist}

module _ (D : Database) (M : CountMap) (hash : Text → Text) (day : ℤ → Text)
    (stat : Text → Option PathInfo) (c : Config) (d : Disk) (s : Meta D.State M.State)
    (info : FileInfo) where
  -- The records behind the log of the file
  abbrev pub logged_records : Meta D.State M.State
  logged_records = save_file_md5_log D M hash day (record { info = info; file_name = file_log }) s

  abbrev pub answer_to : Text → Found
  answer_to path =
      check_file_exist hash stat (λ key. D.get logged_records.files key) c d info.md5 path

  check_stored :
      exists d (get_file_path_by_info c info true) ≡ true
      → check_record c info.md5 (stored info) d ≡ record { answer = stored info; removed = none }
  unfolding check_record get_file_path_by_info
  check_stored there = elim (Bool-cases (is_whole info.offset)) [
    | inl e ↦ rw (e, there) refl
    | inr e ↦ rw e refl
  ]

  check_found :
      (path : Text)
      → D.get logged_records.files info.md5 ≡ some (stored info)
      → answer_to path ≡ check_record c info.md5 (stored info) d
  unfolding check_file_exist
  check_found path h = rw (check_file_exist, h) refl

  module _ (from : Config) (w : World) (peer : Text) (size : ℤ) where
    -- The file as `postFileToPeer` sends it
    abbrev pub sized_info : FileInfo
    sized_info = record info { size = sized size info.size }

    post_to_known :
        from.enable_distinct_file ≡ true
        → is_migrated info.offset ≡ false
        → w.has_file peer info.md5 ≡ true
        → post_to from w peer sized_info
          ≡ (add_peer peer sized_info, saved (add_peer peer sized_info) ∷ [])
    unfolding post_to
    post_to_known e m h = rw (m, e, h) refl

    peer_step_known :
        contains peer info.peers ≡ false
        → w.stat (sent_path from info) ≡ some size
        → peer_step from w peer info ≡ post_to from w peer sized_info
    unfolding peer_step
    peer_step_known n t = rw (peer_step, n) (rw t refl)

    -- A server on whose disk a file lies, and that has logged it, answers `check_file_exist` for
    -- its hash, which is not empty, by its record, where its database keeps its laws and its writes
    -- succeed. So the next round of `postFileToPeer` of a server to which that answer comes, where
    -- files are distinct, the file is on the disk and no migrated one, and the peer is not yet
    -- among its peers, adds the peer and does not send the file.
    pub check_file_exist-peer_step :
        (path : Text)
        → IsLawful D
        → IsWritable D
        → info.md5 ≢ []
        → exists d (get_file_path_by_info c info true) ≡ true
        → from.enable_distinct_file ≡ true
        → is_migrated info.offset ≡ false
        → contains peer info.peers ≡ false
        → w.stat (sent_path from info) ≡ some size
        → w.has_file peer info.md5 ≡ not (text_eq (answer_to path).answer.md5 [])
        → (answer_to path ≡ record { answer = stored info; removed = none })
          × (peer_step from w peer info
              ≡ (add_peer peer sized_info, saved (add_peer peer sized_info) ∷ []))
    check_file_exist-peer_step path lawful writable n there e m new size_known says =
        let logged =
          find-save_file_md5_log D M hash day lawful writable info.md5
            (record { info = info; file_name = file_log }) s
          ∙ entry_after-file_log hash info _ n in
        let found = check_found path logged ∙ check_stored there in
        let has : w.has_file peer info.md5 ≡ true =
          says
          ∙ ap (λ (f : Found). not (text_eq f.answer.md5 [])) found
          ∙ ap not (text_eq-false info.md5 [] n) in
        (found, peer_step_known new size_known ∙ post_to_known e m has)
