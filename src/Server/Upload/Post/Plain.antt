-- ===== src/Server/Upload/Post/Plain.antt =====
-- The handler `upload` (server/http_upload.go) at a file that it stores under its own name.
use go_fastdfs.Prelude.{◌≡◌, ◌≢◌, ◌∙◌, ap, true, false, none, []}
use go_fastdfs.Prelude.Int.{ℤ}
use go_fastdfs.Prelude.Text.{Text, lit, has_infix}
use go_fastdfs.Server.Types.{Config}
use go_fastdfs.Server.Database.{Database, CountMap}
use go_fastdfs.Server.Disk.{write}
use go_fastdfs.Server.Paths.{get_file_path_by_info}
use go_fastdfs.Server.Upload.Place.{folder_of}
use go_fastdfs.Server.Upload.Save.{Env, clean_name, save_upload_file, Outcome}
use go_fastdfs.Server.Upload.Save.Stored.{
  chosen, success, info_path, re_name_none, save_upload_file-success,
}
use go_fastdfs.Server.Upload.Form.{Ready, check_form, ok}
use go_fastdfs.Server.Upload.Post.{Luck, UploadRequest, Service, on_saved, post_upload}
use go_fastdfs.Server.Upload.Post.Steps.{post_upload-ok}

-- The file of a form is stored under its own name: no custom name, a name that is not empty, and a
-- directory that `fmt.Sprintf` leaves as it is
pub record IsPlain (e : Env) (c : Config) (ready : Ready) : Type 0 where
  pub rename_file : c.rename_file ≡ false
  pub re_name : ready.info.re_name ≡ []
  pub name : clean_name c ready.file.file_name ≢ []
  pub folder : has_infix (folder_of c e.time ready.info.scene ready.info.path) (lit "%") ≡ false

module _ (D : Database) (M : CountMap) (e : Env) (s : Service D.State M.State) (ready : Ready) where
  -- What `SaveUploadFile` gives where it succeeds
  abbrev pub outcome : Outcome
  outcome = success e s.config ready.file ready.info s.disk

  abbrev pub new_path : Text
  new_path = (chosen e s.config ready.file ready.info s.disk).0

  -- The server with the new file on its disk
  abbrev pub kept : Service D.State M.State
  kept = record s { disk = write new_path ready.file.bytes s.disk }

  pub outcome_path :
      IsPlain e s.config ready → get_file_path_by_info s.config outcome.info true ≡ new_path
  outcome_path plain =
      info_path e s.config ready.file ready.info s.disk
        (re_name_none e s.config ready.file ready.info s.disk plain.rename_file plain.re_name)
        plain.name plain.folder

  pub post_upload-outcome :
      (day : ℤ → Text) (luck : Luck) (r : UploadRequest)
      → check_form e s.config r.form ≡ ok ready
      → luck.save_fault ≡ none
      → (save_upload_file e s.config none ready.file ready.info s.disk).error ≡ none
      → post_upload D M day e luck r s ≡ on_saved D M day e luck r ready.output outcome s
  post_upload-outcome day luck r accepted no_fault stored =
      post_upload-ok D M day e luck r s ready accepted
      ∙ ap (λ o. on_saved D M day e luck r ready.output o s)
          (rw no_fault (save_upload_file-success e s.config ready.file ready.info s.disk stored).1)
