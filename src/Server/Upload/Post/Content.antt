-- ===== src/Server/Upload/Post/Content.antt =====
-- From an upload to the bytes that its URL leads to (server/http_upload.go, server/fileserver.go).
use go_fastdfs.Prelude.{
  ℕ, ◌≡◌, ◌≢◌, refl, ◌∙◌, ap, true, false, ◌&&◌, ◌||◌, Option, none, some, List, [], ◌++◌, length,
}
use go_fastdfs.Prelude.Int.{ℤ, pos, ltb_ℤ}
use go_fastdfs.Prelude.Text.{Text, text_eq, text_eq-false, text_eq_refl, has_prefix}
use go_fastdfs.Prelude.Split.{Lacks}
use go_fastdfs.Server.Types.{
  FileInfo, Config, slash, store_dir_name, large_dir_name, small_file_size, file_log,
}
use go_fastdfs.Server.Database.{Database, CountMap, IsLawful, IsWritable}
use go_fastdfs.Server.Disk.{write_same}
use go_fastdfs.Server.Meta.{Meta, stored}
use go_fastdfs.Server.Meta.Lookup.{entry_after, find-save_file_md5_log}
use go_fastdfs.Server.Paths.{
  FileResult, get_file_path_by_info, get_file_path_from_request, url_query, build_file_result,
}
use go_fastdfs.Server.Paths.RoundTrip.{below_store, request-build_file_result}
use go_fastdfs.Server.Paths.Domain.{request-set_domain}
use go_fastdfs.Server.Upload.Save.{Env, save_upload_file}
use go_fastdfs.Server.Upload.Form.{Ready, Output, check_form, ok}
use go_fastdfs.Server.Upload.Post.{
  Luck, UploadRequest, answer_of, Service, known, finish, logged, post_upload,
}
use go_fastdfs.Server.Upload.Post.Plain.{IsPlain, outcome, kept, post_upload-outcome, outcome_path}
use go_fastdfs.Server.Upload.Post.Steps.{
  distinct_known-none, on_saved-new, add_file-record_file, record_file-finish,
}

pub file_log_named : text_eq file_log [] ≡ false
unfolding text_eq
file_log_named = refl

pub entry_after-file_log :
    (hash : Text → Text) (info : FileInfo) (old : Option FileInfo)
    → info.md5 ≢ []
    → entry_after hash info.md5 (record { info = info; file_name = file_log }) old
      ≡ some (stored info)
unfolding entry_after
entry_after-file_log hash info old n =
    rw (text_eq-false info.md5 [] n, file_log_named, text_eq_refl info.md5, text_eq_refl file_log)
      refl

module _ (D : Database) (M : CountMap) (day : ℤ → Text) (e : Env) where
  abbrev State : Type 0
  State = Service D.State M.State

  found_known :
      (info : FileInfo) (t : State)
      → D.get t.records.files info.md5 ≡ some (stored info)
      → info.md5 ≢ []
      → known D M day e info.md5 t ≡ some (stored info)
  unfolding known
  found_known info t f n = rw (known, f) (rw (text_eq-false info.md5 [] n) refl)

  pub known_records :
      (key : Text) (t u : State)
      → t.records ≡ u.records
      → known D M day e key t ≡ known D M day e key u
  unfolding known
  known_records key t u h =
      ap (λ (m : Meta D.State M.State). known D M day e key (record u { records = m })) h

  -- A record that is written is known.
  pub known-logged :
      (lawful : IsLawful D) (writable : IsWritable D) (info : FileInfo) (s : State)
      → info.md5 ≢ []
      → known D M day e info.md5 (logged D M day e info s) ≡ some (stored info)
  known-logged lawful writable info s n =
      found_known info (logged D M day e info s)
        (find-save_file_md5_log D M e.hash day lawful writable info.md5
            (record { info = info; file_name = file_log }) s.records
          ∙ entry_after-file_log e.hash info _ n)
        n

  -- The end of the handler, at a file whose record is written
  finish_request :
      (output : Output) (info : FileInfo) (host rest : Text) (s : State)
      → s.config.support_group_manage ≡ true
      → info.path ≡ (store_dir_name ++ slash) ++ rest
      → Lacks b'?' (below_store rest info)
      → Lacks b'%' (get_file_path_by_info s.config info true)
      → has_prefix (below_store rest info ++ url_query s.config info) (large_dir_name ++ slash)
        ≡ false
      → let (t, a) = finish D M day e output info host s in
        (result : FileResult) × (a ≡ answer_of output result)
        × (result.url ≡ result.domain ++ (result.path ++ url_query s.config info))
        × ((get_file_path_from_request t.config (result.path ++ url_query s.config info)).0
            ≡ get_file_path_by_info s.config info true)
        × (t.disk ≡ s.disk)
        × (t.records ≡ s.records)
  unfolding finish build_file_result
  finish_request output info host rest s g p q l n =
      let (u, v) = request-build_file_result s.config info (some host) rest g p q l n in
      (
        (build_file_result s.config info (some host)).0,
        refl,
        u,
        ap (λ (t : Text × Text). t.0) (request-set_domain s.config (some host) _ ∙ v),
        refl,
        refl,
      )

module _ (D : Database) (M : CountMap) (day : ℤ → Text) (e : Env) (luck : Luck) (r : UploadRequest)
    (s : Service D.State M.State) (ready : Ready)
    (accepted : check_form e s.config r.form ≡ ok ready) (no_fault : luck.save_fault ≡ none)
    (complete : (save_upload_file e s.config none ready.file ready.info s.disk).error ≡ none)
    (plain : IsPlain e s.config ready) where
  abbrev c : Config
  c = s.config

  abbrev bytes : List ℕ
  bytes = ready.file.bytes

  abbrev info : FileInfo
  info = (outcome D M e s ready).info

  -- A new content whose hash is the one that the form gives, if any, and that is not merged
  abbrev pub IsNew : Type 0
  IsNew =
      (known D M day e (e.checksum bytes) s ≡ none)
      × (e.checksum bytes ≢ [])
      × ((text_eq r.form.md5 [] || text_eq (e.checksum bytes) r.form.md5) ≡ true)
      × ((c.enable_merge_small_file && ltb_ℤ (pos (length bytes)) (pos small_file_size)) ≡ false)
      × (ltb_ℤ (pos 0) (pos (length bytes)) ≡ true)

  post_upload-new :
      IsNew
      → post_upload D M day e luck r s
        ≡ finish D M day e ready.output info r.host (logged D M day e info (kept D M e s ready))
  post_upload-new (k, n, m, w, z) =
      post_upload-outcome D M e s ready day luck r accepted no_fault complete
      ∙ on_saved-new D M day e luck r s ready.output (outcome D M e s ready) refl
          (distinct_known-none D M day e luck r s (e.checksum bytes) k)
      ∙ add_file-record_file D M day e luck r (kept D M e s ready) ready.output r.host r.form.md5
          info (text_eq-false _ _ n) m w
      ∙ record_file-finish D M day e luck r (kept D M e s ready) ready.output r.host info z

  -- Where groups are on, no write fails, files keep their names, the file has a name, the form has no
  -- file name of its own, the directory has no percent sign, the path in the store has no question
  -- mark, no percent sign and is not that of the large files, a new content that the form allows, that
  -- is not empty, stored without a fault and not merged, and whose hash is not empty and not another
  -- than the form gives, is found at its URL: the answer is built from a result whose URL
  -- is its domain and a request, the path to which that request leads holds the bytes that were
  -- uploaded, and the record of the file is known under the hash of its content from then on.
  pub post_upload-request :
      (rest : Text)
      → IsLawful D
      → IsWritable D
      → IsNew
      → c.support_group_manage ≡ true
      → info.path ≡ (store_dir_name ++ slash) ++ rest
      → Lacks b'?' (below_store rest info)
      → Lacks b'%' (get_file_path_by_info c info true)
      → has_prefix (below_store rest info ++ url_query c info) (large_dir_name ++ slash) ≡ false
      → let (t, a) = post_upload D M day e luck r s in
        (result : FileResult) × (a ≡ answer_of ready.output result)
        × (result.url ≡ result.domain ++ (result.path ++ url_query c info))
        × (t.disk (get_file_path_from_request t.config (result.path ++ url_query c info)).0
            ≡ some bytes)
        × (known D M day e (e.checksum bytes) t ≡ some (stored info))
  post_upload-request rest lawful writable new g p q l h =
      let logged_new = logged D M day e info (kept D M e s ready) in
      let (result, a, u, path, disk, records) =
        finish_request D M day e ready.output info r.host rest logged_new g p q l h in
      rw (post_upload-new new) (
        result,
        a,
        u,
        rw (path, disk, outcome_path D M e s ready plain) (write_same _ bytes s.disk),
        known_records D M day e (e.checksum bytes) _ logged_new records
            ∙ known-logged D M day e lawful writable info (kept D M e s ready) new.1,
      )
