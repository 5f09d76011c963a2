-- ===== src/Server/Upload/Post/Known.antt =====
-- The upload of a content that the server knows, against the fast upload by its hash
-- (server/http_upload.go).
use go_fastdfs.Prelude.{◌≡◌, ◌≢◌, refl, ◌∙◌, sym, ap, ◌⊎◌, inl, inr, true, false, none, some, []}
use go_fastdfs.Prelude.Int.{ℤ}
use go_fastdfs.Prelude.Text.{Text, text_eq-false}
use go_fastdfs.Server.Types.{FileInfo, Config}
use go_fastdfs.Server.Database.{Database, CountMap}
use go_fastdfs.Server.Disk.{Disk, exists, erase, erase-write}
use go_fastdfs.Server.Paths.{get_file_path_by_info}
use go_fastdfs.Server.Upload.Place.{AllTaken, rounds, choose_path-AllTaken}
use go_fastdfs.Server.Upload.Save.{Env, FormFile, clean_name, save_upload_file, Outcome}
use go_fastdfs.Server.Upload.Save.Stored.{folder, re_name}
use go_fastdfs.Server.Upload.Form.{Ready, check_form, ok, check_form-Allowed}
use go_fastdfs.Server.Upload.Post.{
  Luck, UploadRequest, Answer, Service, known, finish, post_upload, fast_upload,
}
use go_fastdfs.Server.Upload.Post.Plain.{
  IsPlain, outcome, new_path, kept, post_upload-outcome, outcome_path,
}
use go_fastdfs.Server.Upload.Post.Steps.{
  distinct_known_on, on_saved-known, drop_copy-ne, fast_upload-known, wanted-output_of,
}

-- The fast upload for the content of the form, with the same output
abbrev pub fast_request : Env → UploadRequest → FormFile → UploadRequest
fast_request e r file = record r { form = record r.form { md5 = e.checksum file.bytes } }

module _ (D : Database) (M : CountMap) (day : ℤ → Text) (e : Env) (luck : Luck) (r : UploadRequest)
    (s : Service D.State M.State) (ready : Ready) (v : FileInfo)
    (accepted : check_form e s.config r.form ≡ ok ready) (no_fault : luck.save_fault ≡ none)
    (stored : (save_upload_file e s.config none ready.file ready.info s.disk).error ≡ none)
    (plain : IsPlain e s.config ready) where
  abbrev c : Config
  c = s.config

  abbrev new : Outcome
  new = outcome D M e s ready

  abbrev path : Text
  path = new_path D M e s ready

  abbrev with_disk : Disk → Service D.State M.State
  with_disk d = record s { disk = d }

  -- What is answered, and what is left
  posted_known :
      c.enable_distinct_file ≡ true
      → known D M day e (e.checksum ready.file.bytes) s ≡ some v
      → exists s.disk (get_file_path_by_info c v true) ≡ true
      → exists s.disk path ≡ false
      → post_upload D M day e luck r s
        ≡ finish D M day e ready.output v r.host
            (record s { disk = erase path (kept D M e s ready).disk })
  posted_known d k there free =
      let new_path_lem = outcome_path D M e s ready plain in
      let apart : get_file_path_by_info c new.info true ≢ get_file_path_by_info c v true =
        λ q. cc (ap (exists s.disk) (sym new_path_lem ∙ q)) in
      post_upload-outcome D M e s ready day luck r accepted no_fault stored
      ∙ on_saved-known D M day e luck r s ready.output new v refl
          (distinct_known_on D M day e luck r s (e.checksum ready.file.bytes) d ∙ k)
      ∙ ap (finish D M day e ready.output v r.host) (
          drop_copy-ne D M day e luck r (kept D M e s ready) new.info v (text_eq-false _ _ apart)
          ∙ ap (λ t. with_disk (erase t (kept D M e s ready).disk)) new_path_lem)

  fast_known :
      e.checksum ready.file.bytes ≢ []
      → known D M day e (e.checksum ready.file.bytes) s ≡ some v
      → fast_upload D M day e (fast_request e r ready.file) s
        ≡ finish D M day e ready.output v r.host s
  fast_known n k =
      fast_upload-known D M day e luck (fast_request e r ready.file) s v (text_eq-false _ _ n) k
      ∙ ap (λ o. finish D M day e o v r.host s)
          (wanted-output_of r.form.output ready.output
            (check_form-Allowed e c r.form ready accepted).output)

  -- What an upload does is what the fast upload does.
  abbrev pub AsFast : Service D.State M.State × Answer → Service D.State M.State × Answer → Type 0
  AsFast (t, a) (u, b) =
      (a ≡ b)
      × (t.config ≡ u.config)
      × (t.records ≡ s.records)
      × (t.posted ≡ s.posted)
      × ((path : Text) → t.disk path ≡ s.disk path)

  finish-AsFast :
      (d : Disk)
      → ((path : Text) → d path ≡ s.disk path)
      → AsFast
          (finish D M day e ready.output v r.host (with_disk d))
          (finish D M day e ready.output v r.host s)
  unfolding finish
  finish-AsFast d h = (refl, refl, refl, refl, h)

  -- Where files are distinct, files keep their names, the file has a name, the form is accepted and
  -- has no file name of its own, the hash is not empty, the directory has no percent sign, and the
  -- content is stored without a fault, the upload of a content whose record is known and whose file
  -- is on the disk answers what the fast upload by the hash of the content answers, and leaves the
  -- records, the posts to the peers and every file of the disk as they were, unless 10000 numbered
  -- paths are taken.
  pub post_upload-fast_upload :
      c.enable_distinct_file ≡ true
      → e.checksum ready.file.bytes ≢ []
      → known D M day e (e.checksum ready.file.bytes) s ≡ some v
      → exists s.disk (get_file_path_by_info c v true) ≡ true
      → AllTaken e.sprintf
          (exists s.disk)
          (folder e c ready.file ready.info s.disk)
          rounds
          0
          (clean_name c ready.file.file_name)
        ⊎ AsFast
            (post_upload D M day e luck r s)
            (fast_upload D M day e (fast_request e r ready.file) s)
  post_upload-fast_upload d n k there =
      elim (choose_path-AllTaken e.sprintf (exists s.disk) c
        (folder e c ready.file ready.info s.disk) (clean_name c ready.file.file_name)
        (re_name e c ready.file ready.info s.disk) d) [
          | inr all ↦ inl all
          | inl free ↦ inr (
              rw (posted_known d k there free, fast_known n k)
                (finish-AsFast (erase path (kept D M e s ready).disk)
                  (λ q. erase-write path ready.file.bytes s.disk q free)))
        ]
