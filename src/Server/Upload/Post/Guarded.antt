-- ===== src/Server/Upload/Post/Guarded.antt =====
-- Which uploads (server/http_upload.go) change anything.
use go_fastdfs.Prelude.{◌≡◌, refl, ◌∙◌, ap, ◌⊎◌, inl, inr, true, false, Option, some, Bool-cases}
use go_fastdfs.Prelude.Int.{ℤ}
use go_fastdfs.Prelude.Text.{Text}
use go_fastdfs.Server.Types.{FileInfo, Config}
use go_fastdfs.Server.Database.{Database, CountMap}
use go_fastdfs.Server.Disk.{Disk}
use go_fastdfs.Server.Upload.Save.{
  Env, FormFile, SaveFault, clean_name, allowed_extension, save_upload_file, extension_mismatch,
}
use go_fastdfs.Server.Upload.Form.{
  Refusal, not_saved, Ready, Allowed, check_form-Allowed, check_form,
}
use go_fastdfs.Server.Upload.Post.{Luck, UploadRequest, failure, Service, post_upload}
use go_fastdfs.Server.Upload.Post.Steps.{
  Checked-cases, post_upload-refused, post_upload-ok, on_saved-error,
}

-- A form that meets every check, with a file of an extension that is allowed
abbrev pub Accepted : Env → Config → UploadRequest → Type 0
Accepted e c r =
    (ready : Ready) × Allowed e c r.form ready
    × (allowed_extension c (clean_name c ready.file.file_name) ≡ true)

refused_extension :
    (e : Env) (c : Config) (fault : Option SaveFault) (file : FormFile) (info : FileInfo) (d : Disk)
    → allowed_extension c (clean_name c file.file_name) ≡ false
    → let o = save_upload_file e c fault file info d in
      (o.error ≡ some extension_mismatch) × (o.disk ≡ d)
unfolding save_upload_file
refused_extension e c fault file info d h = rw h (refl, refl)

module _ (D : Database) (M : CountMap) (day : ℤ → Text) (e : Env) (luck : Luck) (r : UploadRequest)
    (s : Service D.State M.State) where
  -- An upload whose form is not accepted is answered with a message and changes nothing: where the
  -- server is read-only, the code of the scene is wrong, the form has no file, its output or its scene
  -- is unknown, or the extension of the file is not allowed.
  pub post_upload-Accepted :
      ((m : Refusal) × (post_upload D M day e luck r s ≡ (s, failure m))) ⊎ Accepted e s.config r
  post_upload-Accepted = elim (Checked-cases (check_form e s.config r.form)) [
    | inr (m, h) ↦ inl (m, post_upload-refused D M day e luck r s m h)
    | inl (ready, h) ↦
        let name = clean_name s.config ready.file.file_name in
        elim (Bool-cases (allowed_extension s.config name)) [
          | inl a ↦ inr (ready, check_form-Allowed e s.config r.form ready h, a)
          | inr a ↦
              let o = save_upload_file e s.config luck.save_fault ready.file ready.info s.disk in
              let (x, d) =
                refused_extension e s.config luck.save_fault ready.file ready.info s.disk a in
              let with_disk =
                λ (t : Disk). let u : Service D.State M.State = record s { disk = t } in u in
              inl (
                not_saved extension_mismatch,
                post_upload-ok D M day e luck r s ready h
                    ∙ on_saved-error D M day e luck r s ready.output o extension_mismatch x
                    ∙ ap (λ t. (with_disk t, failure (not_saved extension_mismatch))) d,
              )
        ]
  ]
