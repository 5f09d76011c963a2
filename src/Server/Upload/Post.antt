-- ===== src/Server/Upload/Post.antt =====
-- The handler `upload` of server/http_upload.go, from the checks of the form to its answer.
pub mod Steps
pub mod Guarded
pub mod Plain
pub mod Known
pub mod Content
pub mod Merged
use go_fastdfs.Prelude.{
  ℕ, Bool, true, false, not, ◌&&◌, ◌||◌, Option, none, some, List, [], ◌∷◌, ◌++◌, if◌then◌else◌,
}
use go_fastdfs.Prelude.Int.{ℤ, pos, ltb_ℤ}
use go_fastdfs.Prelude.Text.{Text, lit, text_eq}
use go_fastdfs.Server.Types.{FileInfo, Config, slash, small_file_size, file_log}
use go_fastdfs.Server.Database.{Database, CountMap}
use go_fastdfs.Server.Disk.{Disk, write, erase}
use go_fastdfs.Server.SmallFile.{Fault, open_source, open_target, Saved, save_small_file, large_dir}
use go_fastdfs.Server.Paths.{get_file_path_by_info, FileResult, build_file_result}
use go_fastdfs.Server.Meta.{Meta, save_file_md5_log}
use go_fastdfs.Server.Upload.Save.{Env, FormFile, SaveFault, SaveError, Outcome, save_upload_file}
use go_fastdfs.Server.Upload.Form.{
  UploadForm, Refusal, not_saved, md5_null, md5_differs, not_merged, size_zero, md5_required,
  Checked, ok, refused, Output, Ready, check_form,
}
use go_fastdfs.Server.Upload.Form

-- The faults that an upload meets, and the name of the large file that is drawn
pub record Luck : Type 0 where
  pub save_fault : Option SaveFault
  pub merge_fault : Option Fault
  pub large_name : Text

-- The method of a request
pub data Method : Type 0 where
  post options get other : Method

pub record UploadRequest : Type 0 where
  pub method : Method
  pub host : Text
  pub form : UploadForm

-- What the handler writes: nothing, the message of a refusal, a `JsonResult` of the status "fail" with
-- no message, the URL, the `FileResult`, or a `JsonResult` of the status "ok" with it
pub data Answer : Type 0 where
  no_answer : Answer
  failure : Refusal → Answer
  no_data : Answer
  url : Text → Answer
  file_result : FileResult → Answer
  ok_result : FileResult → Answer

-- The server: its configuration, its records, its disk, and the files for which `postFileToPeer` was
-- started
pub record Service (D M : Type 0) : Type 0 where
  pub config : Config
  pub records : Meta D M
  pub disk : Disk
  pub posted : List FileInfo

abbrev pub answer_of : Output → FileResult → Answer
answer_of Form.text r = url r.url
answer_of Form.json r = file_result r
answer_of Form.json2 r = ok_result r

-- `SaveSmallFile` on the disk. The large file is made when it is opened.
abbrev pub large_written : Option Fault → Text → List ℕ → Disk → Disk
large_written (some open_source) target large d = d
large_written (some open_target) target large d = d
large_written fault target large d = write target large d

abbrev pub bytes_of : Option (List ℕ) → List ℕ
bytes_of none = []
bytes_of (some b) = b

abbrev pub large_path : Config → Luck → Text
large_path c luck = large_dir c ++ (slash ++ luck.large_name)

abbrev pub merge_result : Config → Luck → FileInfo → Disk → Saved
merge_result c luck info d =
    save_small_file c luck.large_name luck.merge_fault (bytes_of (d (large_path c luck)))
      (d (get_file_path_by_info c info true)) info

abbrev pub source_dropped : Text → Option (List ℕ) → Disk → Disk
source_dropped path none d = erase path d
source_dropped path (some b) d = d

abbrev pub merge_written : Text → Text → Option Fault → Option (List ℕ) → Saved → Disk → Disk
merge_written path target fault none s d = d
merge_written path target fault (some b) s d =
    source_dropped path s.source (large_written fault target s.large d)

unfoldable pub merge_disk : Config → Luck → FileInfo → Disk → Disk
merge_disk c luck info d =
    let path = get_file_path_by_info c info true in
    merge_written path (large_path c luck) luck.merge_fault (d path) (merge_result c luck info d) d

-- The zero value of `FileResult`
abbrev pub no_result : FileResult
no_result = record {
  url = [];
  md5 = [];
  path = [];
  domain = [];
  scene = [];
  size = pos 0;
  mod_time = pos 0;
  scenes = [];
  ret_msg = [];
  ret_code = 0;
  src = [];
}

-- The answer of the fast upload without a record, and the form of its answer with one
abbrev pub no_file : Text → Answer
no_file output =
    if text_eq output (lit "json2")
    then no_data
    else if text_eq output (lit "json")
    then file_result no_result
    else url []

abbrev pub wanted : Text → Output
wanted output =
    if text_eq output (lit "json2")
    then Form.json2
    else if text_eq output (lit "json")
    then Form.json
    else Form.text

module _ (D : Database) (M : CountMap) (day : ℤ → Text) (e : Env) where
  abbrev State : Type 0
  State = Service D.State M.State

  -- `GetFileInfoFromLevelDB`, and the test of the hash of the record
  unfoldable pub known : Text → State → Option FileInfo
  known md5 s = elim (D.get s.records.files md5) [
    | none ↦ none
    | some v ↦ if text_eq v.md5 [] then none else some v
  ]

  -- The record of the content, where files are distinct
  unfoldable pub distinct_known : Text → State → Option FileInfo
  distinct_known md5 s = if s.config.enable_distinct_file then known md5 s else none

  -- The end of the handler: the result is built, and written.
  unfoldable pub finish : Output → FileInfo → Text → State → State × Answer
  finish output info host s =
      let (r, c) = build_file_result s.config info (some host) in
      (record s { config = c }, answer_of output r)

  -- The content is known: the file that was saved is removed again.
  unfoldable pub drop_copy : FileInfo → FileInfo → State → State
  drop_copy info v s =
      let c = s.config in
      let with_docker = not (text_eq c.docker_dir []) in
      if text_eq (get_file_path_by_info c info with_docker) (get_file_path_by_info c v with_docker)
      then s
      else record s { disk = erase (get_file_path_by_info c info with_docker) s.disk }

  abbrev pub logged : FileInfo → State → State
  logged info s = record s {
    records =
        save_file_md5_log D M e.hash day (record { info = info; file_name = file_log }) s.records;
    posted = info ∷ s.posted;
  }

  -- The file is recorded, and posted to the peers; an empty one is refused after that.
  unfoldable pub record_file : Output → Text → FileInfo → State → State × Answer
  record_file output host info s =
      if ltb_ℤ (pos 0) info.size
      then finish output info host (logged info s)
      else (logged info s, failure size_zero)

  unfoldable pub merge_small : Luck → Output → Text → FileInfo → State → State × Answer
  merge_small luck output host info s =
      let r = merge_result s.config luck info s.disk in
      let merged : State = record s { disk = merge_disk s.config luck info s.disk } in
      elim r.fault [
        | some fault ↦ (merged, failure (not_merged fault))
        | none ↦ record_file output host r.info merged
      ]

  -- A new file
  unfoldable pub add_file : Luck → Output → Text → Text → FileInfo → State → State × Answer
  add_file luck output host md5sum info s =
      if text_eq info.md5 []
      then (s, failure md5_null)
      else if not (text_eq md5sum []) && not (text_eq info.md5 md5sum)
      then (s, failure md5_differs)
      else if s.config.enable_merge_small_file && ltb_ℤ info.size (pos small_file_size)
      then merge_small luck output host info s
      else record_file output host info s

  -- From the call of `SaveUploadFile` on
  unfoldable pub on_saved : Luck → UploadRequest → Output → Outcome → State → State × Answer
  on_saved luck r output saved s =
      let kept : State = record s { disk = saved.disk } in
      elim saved.error [
        | some fault ↦ (kept, failure (not_saved fault))
        | none ↦ elim (distinct_known saved.info.md5 s) [
          | some v ↦ finish output v r.host (drop_copy saved.info v kept)
          | none ↦ add_file luck output r.host r.form.md5 saved.info kept
        ]
      ]

  unfoldable pub post_upload : Luck → UploadRequest → State → State × Answer
  post_upload luck r s = elim (check_form e s.config r.form) [
    | refused m ↦ (s, failure m)
    | ok ready ↦
        on_saved luck r ready.output
          (save_upload_file e s.config luck.save_fault ready.file ready.info s.disk) s
  ]

  -- The fast upload: a record of the hash is the answer.
  unfoldable pub fast_upload : UploadRequest → State → State × Answer
  fast_upload r s =
      if text_eq r.form.md5 [] then (s, failure md5_required) else elim (known r.form.md5 s) [
        | none ↦ (s, no_file r.form.output)
        | some v ↦ finish (wanted r.form.output) v r.host s
      ]

  -- `upload`; the headers of `CrossOrigin` are left out.
  unfoldable pub upload : Luck → UploadRequest → State → State × Answer
  upload luck r s = elim r.method [
    | options ↦ if s.config.enable_cross_origin then (s, no_answer) else fast_upload r s
    | post ↦ post_upload luck r s
    | get ↦ fast_upload r s
    | other ↦ fast_upload r s
  ]
