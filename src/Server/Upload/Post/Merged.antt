-- ===== src/Server/Upload/Post/Merged.antt =====
-- From the upload of a small file that is merged to the bytes that its URL leads to
-- (server/http_upload.go, server/fileserver.go).
use go_fastdfs.Prelude.{
  ℕ, ◌+◌, ◌<◌, ◌≡◌, ◌≢◌, refl, ◌∙◌, ap, true, ◌&&◌, ◌||◌, none, some, List, [], ◌++◌, length, arith,
  append_assoc,
}
use go_fastdfs.Prelude.Int.{ℤ, pos, ltb_ℤ, ◌+ℤ◌}
use go_fastdfs.Prelude.Text.{Text, text_eq, text_eq-false}
use go_fastdfs.Prelude.Split.{Lacks}
use go_fastdfs.Prelude.Url.{AreBytes}
use go_fastdfs.Prelude.Decimal.{max_int64}
use go_fastdfs.Server.Types.{FileInfo, Config, slash, large_dir_name, small_file_size}
use go_fastdfs.Server.Database.{Database, CountMap, IsLawful, IsWritable}
use go_fastdfs.Server.Disk.{Disk, write, erase, write_same, erase_ne}
use go_fastdfs.Server.SmallFile.{
  Saved, Read, sent, content, get_small_file, save_small_file, large_dir, path_ext,
}
use go_fastdfs.Server.SmallFile.Store.{ReadsParts, save_all}
use go_fastdfs.Server.Meta.{stored}
use go_fastdfs.Server.Paths.{
  FileResult, get_file_path_by_info, get_file_path_from_request, url_query, build_file_result,
}
use go_fastdfs.Server.Paths.Domain.{request-set_domain}
use go_fastdfs.Server.Paths.Small.{sent-build_file_result}
use go_fastdfs.Server.Upload.Save.{Env, save_upload_file}
use go_fastdfs.Server.Upload.Form.{Ready, check_form, ok}
use go_fastdfs.Server.Upload.Post.{
  Luck, UploadRequest, answer_of, Service, known, finish, record_file, logged, post_upload,
  merge_result, merge_disk, merge_written, large_path, bytes_of,
}
use go_fastdfs.Server.Upload.Post.Plain.{
  IsPlain, outcome, new_path, kept, post_upload-outcome, outcome_path,
}
use go_fastdfs.Server.Upload.Post.Content.{known-logged, known_records}
use go_fastdfs.Server.Upload.Post.Steps.{
  distinct_known-none, on_saved-new, add_file-merge_small, merge_small-record_file,
  record_file-finish,
}

module _ (c : Config) (luck : Luck) (info : FileInfo) (d : Disk) (bytes : List ℕ)
    (no_fault : luck.merge_fault ≡ none)
    (there : d (get_file_path_by_info c info true) ≡ some bytes) where
  abbrev large : List ℕ
  large = bytes_of (d (large_path c luck))

  merge_result_lem :
      merge_result c luck info d ≡ save_small_file c luck.large_name none large (some bytes) info
  merge_result_lem = rw (no_fault, there) refl

  merge_disk_lem :
      merge_disk c luck info d
      ≡ erase (get_file_path_by_info c info true) (
          write
            (large_path c luck)
            (save_small_file c luck.large_name none large (some bytes) info).large
            d)
  unfolding merge_disk save_small_file
  merge_disk_lem =
      let path = get_file_path_by_info c info true in
      let t = large_path c luck in
      let s = merge_result c luck info d in
      ap (λ f. merge_written path t f (d path) s d) no_fault
      ∙ ap (λ o. merge_written path t none o s d) there
      ∙ ap (λ o. merge_written path t none (some bytes) o d) merge_result_lem

  -- What the large file holds behind the merge
  merge_disk_large :
      large_path c luck ≢ get_file_path_by_info c info true
      → merge_disk c luck info d (large_path c luck)
        ≡ some (save_small_file c luck.large_name none large (some bytes) info).large
  merge_disk_large n =
      ap (λ (f : Disk). f (large_path c luck)) merge_disk_lem
      ∙ erase_ne (get_file_path_by_info c info true) _ (large_path c luck) n
      ∙ write_same (large_path c luck) _ d

module _ (read : List ℕ → ℤ → ℤ → Read) (reads : ReadsParts read) (D : Database) (M : CountMap)
    (day : ℤ → Text) (e : Env) (luck : Luck) (r : UploadRequest) (s : Service D.State M.State)
    (ready : Ready) (accepted : check_form e s.config r.form ≡ ok ready)
    (no_fault : (luck.save_fault ≡ none) × (luck.merge_fault ≡ none))
    (complete : (save_upload_file e s.config none ready.file ready.info s.disk).error ≡ none)
    (plain : IsPlain e s.config ready) where
  abbrev c : Config
  c = s.config

  abbrev source : List ℕ
  source = ready.file.bytes

  abbrev info : FileInfo
  info = (outcome D M e s ready).info

  abbrev disk : Disk
  disk = (kept D M e s ready).disk

  -- The large file before the merge, and what `SaveSmallFile` gives
  abbrev pub before_merge : List ℕ
  before_merge = bytes_of (disk (large_path c luck))

  abbrev small : Saved
  small = save_small_file c luck.large_name none before_merge (some source) info

  there : disk (get_file_path_by_info c info true) ≡ some source
  there =
      ap disk (outcome_path D M e s ready plain) ∙ write_same (new_path D M e s ready) source s.disk

  abbrev merged : Service D.State M.State
  merged = record s { disk = merge_disk c luck info disk }

  -- A new content whose hash is the one that the form gives, if any, and that is merged
  abbrev pub IsSmall : Type 0
  IsSmall =
      (known D M day e (e.checksum source) s ≡ none)
      × (e.checksum source ≢ [])
      × ((text_eq r.form.md5 [] || text_eq (e.checksum source) r.form.md5) ≡ true)
      × ((c.enable_merge_small_file && ltb_ℤ (pos (length source)) (pos small_file_size)) ≡ true)

  small_lem : merge_result c luck info disk ≡ small
  small_lem = merge_result_lem c luck info disk source no_fault.1 there

  size_pos : ltb_ℤ (pos 0) small.info.size ≡ true
  unfolding save_small_file ◌+ℤ◌
  size_pos = ground arith

  fault_none : small.fault ≡ none
  unfolding save_small_file
  fault_none = refl

  post_upload-small :
      IsSmall
      → post_upload D M day e luck r s
        ≡ finish D M day e ready.output small.info r.host (logged D M day e small.info merged)
  post_upload-small (k, n, m, w) =
      post_upload-outcome D M e s ready day luck r accepted no_fault.0 complete
      ∙ on_saved-new D M day e luck r s ready.output (outcome D M e s ready) refl
          (distinct_known-none D M day e luck r s (e.checksum source) k)
      ∙ add_file-merge_small D M day e luck r (kept D M e s ready) ready.output r.host r.form.md5
          info (text_eq-false _ _ n) m w
      ∙ merge_small-record_file D M day e luck r (kept D M e s ready) ready.output r.host info
          (ap (λ (x : Saved). x.fault) small_lem ∙ fault_none)
      ∙ ap (λ (x : Saved). record_file D M day e ready.output r.host x.info merged) small_lem
      ∙ record_file-finish D M day e luck r merged ready.output r.host small.info size_pos

  large_name_path : (large_dir c ++ slash) ++ luck.large_name ≡ large_path c luck
  large_name_path = append_assoc (large_dir c) slash luck.large_name

  -- The names of the upload have none of the bytes that separate the parts of a URL, the new file is
  -- not the large one, and that one stays below 2^63 bytes.
  abbrev pub IsClean : Type 0
  IsClean =
      AreBytes info.name
      × Lacks b'/' luck.large_name
      × Lacks b'?' (large_dir_name ++ (slash ++ c.peer_id))
      × Lacks b'?' luck.large_name
      × Lacks b'?' (path_ext info.name)
      × Lacks b',' ((large_dir c ++ slash) ++ luck.large_name)
      × Lacks b'%' ((large_dir c ++ slash) ++ luck.large_name)
      × Lacks b',' luck.large_name
      × (large_path c luck ≢ get_file_path_by_info c info true)
      × (length before_merge + length source < max_int64)

  finish_small :
      IsClean
      → length source < small_file_size
      → c.support_group_manage ≡ true
      → let (t, a) =
          finish D M day e ready.output small.info r.host (logged D M day e small.info merged) in
        (result : FileResult) × (a ≡ answer_of ready.output result)
        × (result.url ≡ result.domain ++ (result.path ++ url_query c small.info))
        × (t.disk (get_file_path_from_request t.config (result.path ++ url_query c small.info)).0
            ≡ some small.large)
        × (sent (get_small_file read (result.path ++ url_query c small.info) (some small.large))
            ≡ content source)
        × (t.records ≡ (logged D M day e small.info merged).records)
  unfolding finish build_file_result save_all
  finish_small (names, s0, q0, q1, q2, c0, p0, c1, apart, fits) lt g =
      let (u, path, bytes) =
        sent-build_file_result read reads c (some r.host) luck.large_name before_merge source info
          [] refl lt fits g names s0 q0 q1 q2 c0 p0 c1 in
      (
        (build_file_result c small.info (some r.host)).0,
        refl,
        u,
        ap (merge_disk c luck info disk) (
              ap (λ (t : Text × Text). t.0) (request-set_domain c (some r.host) _)
              ∙ path
              ∙ large_name_path)
            ∙ merge_disk_large c luck info disk source no_fault.1 there apart,
        bytes,
        refl,
      )

  known_small :
      IsLawful D
      → IsWritable D
      → e.checksum source ≢ []
      → known D M day e (e.checksum source) (logged D M day e small.info merged)
        ≡ some (stored small.info)
  unfolding save_small_file
  known_small lawful writable n = known-logged D M day e lawful writable small.info merged n

  -- Where groups are on, no write fails, files keep their names, the file has a name, the form has no
  -- file name of its own, the directory has no percent sign, the names have none of the bytes that
  -- separate the parts of a URL, the new file is not the large one and that one stays below 2^63
  -- bytes, a new content below the size of small files, that the form allows, that is stored and
  -- merged without a fault, and whose hash is not empty and not another than the form gives, is
  -- found at its URL: the answer is built from a
  -- result whose URL is its domain and a request, the path to which that request leads is a large
  -- file from which the request reads the bytes that were uploaded, and the record of the file is
  -- known under the hash of its content from then on.
  pub post_upload-sent :
      IsLawful D
      → IsWritable D
      → IsSmall
      → IsClean
      → length source < small_file_size
      → c.support_group_manage ≡ true
      → let (t, a) = post_upload D M day e luck r s in
        (result : FileResult) × (file : List ℕ) × (a ≡ answer_of ready.output result)
        × (result.url ≡ result.domain ++ (result.path ++ url_query c small.info))
        × (t.disk (get_file_path_from_request t.config (result.path ++ url_query c small.info)).0
            ≡ some file)
        × (sent (get_small_file read (result.path ++ url_query c small.info) (some file))
            ≡ content source)
        × (known D M day e (e.checksum source) t ≡ some (stored small.info))
  post_upload-sent lawful writable new clean lt g =
      let (result, a, u, file, bytes, records) = finish_small clean lt g in
      rw (post_upload-small new) (
        result,
        small.large,
        a,
        u,
        file,
        bytes,
        known_records D M day e (e.checksum source) _ (logged D M day e small.info merged) records
            ∙ known_small lawful writable new.1,
      )
