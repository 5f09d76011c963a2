-- ===== src/Server/Upload/Form.antt =====
-- The checks of the handler `upload` (server/http_upload.go) before it saves the file of a form, and
-- `CheckScene`. A check that fails ends the handler with a message.
use go_fastdfs.Prelude.{
  ◌≡◌, Bool, true, false, not, ◌&&◌, ◌||◌, Option, none, some, [], map, if◌then◌else◌, ◌==◌, length,
  arith,
}
use go_fastdfs.Prelude.Int.{quotient}
use go_fastdfs.Prelude.Text.{Text, lit, text_eq, remove_byte, trim}
use go_fastdfs.Prelude.TextSet.{contains}
use go_fastdfs.Prelude.Split.{before}
use go_fastdfs.Server.Types.{FileInfo, Config, no_info, whole_file}
use go_fastdfs.Server.SmallFile.{Fault}
use go_fastdfs.Server.Upload.Save.{Env, FormFile, SaveError}

-- The values of a form, empty where they are missing; `file` is missing where `r.FormFile` fails.
pub record UploadForm : Type 0 where
  pub output : Text
  pub md5 : Text
  pub filename : Text
  pub path : Text
  pub scene : Text
  pub scenes : Text
  pub code : Text
  pub file : Option FormFile

-- The messages of the handler
pub data Refusal : Type 0 where
  readonly error_google_code no_form_file bad_output not_valid_scene : Refusal
  not_saved : SaveError → Refusal
  md5_null md5_differs : Refusal
  not_merged : Fault → Refusal
  size_zero md5_required auth_fail body_failed : Refusal

pub data Checked (A : Type 0) : Type 0 where
  ok : A → Checked A
  refused : Refusal → Checked A

infixl 5 ◌>>=◌ ◌>>◌
abbrev pub ◌>>=◌ : {A B : Type 0} → Checked A → (A → Checked B) → Checked B
ok a >>= f = f a
refused m >>= f = refused m

abbrev pub ◌>>◌ : {B : Type 0} → Checked (Unit {0}) → Checked B → Checked B
m >> k = m >>= λ _. k

abbrev pub guard : Bool → Refusal → Checked (Unit {0})
guard true m = ok tt
guard false m = refused m

abbrev pub or_refuse : {A : Type 0} → Option A → Refusal → Checked A
or_refuse none m = refused m
or_refuse (some a) m = ok a

pub data Output : Type 0 where
  text json json2 : Output

unfoldable pub output_of : Text → Option Output
output_of s =
    if text_eq s [] || text_eq s (lit "text")
    then some text
    else if text_eq s (lit "json")
    then some json
    else if text_eq s (lit "json2")
    then some json2
    else none

-- The directory that the form asks for
unfoldable pub custom_path : Config → Text → Text
custom_path c path = if c.enable_custom_path then trim b'/' (remove_byte b'.' path) else []

abbrev pub named_scene : UploadForm → Text
named_scene f = if text_eq f.scene [] then f.scenes else f.scene

abbrev pub scene_of : Config → UploadForm → Text
scene_of c f = if text_eq (named_scene f) [] then c.default_scene else named_scene f

unfoldable pub right_code : Env → Config → UploadForm → Bool
right_code e c f =
    if c.enable_google_auth && not (text_eq (named_scene f) [])
    then elim (e.secret (named_scene f)) [
      | none ↦ true
      | some secret ↦ e.verify secret f.code (quotient c.download_token_expire 30)
    ]
    else true

-- `CheckScene`
unfoldable pub check_scene : Config → Text → Bool
check_scene c scene = (length c.scenes == 0) || contains scene (map (λ s. before b':' s) c.scenes)

-- A form that is accepted: its file, the record of it before it is saved, and the form of the answer
pub record Ready : Type 0 where
  pub file : FormFile
  pub info : FileInfo
  pub output : Output

unfoldable pub check_form : Env → Config → UploadForm → Checked Ready
check_form e c f = do
  guard (not c.read_only) readonly
  guard (right_code e c f) error_google_code
  file ← or_refuse f.file no_form_file
  output ← or_refuse (output_of f.output) bad_output
  guard (check_scene c (scene_of c f)) not_valid_scene
  ok (record {
    file = file;
    info = record no_info {
      md5 = f.md5;
      re_name = f.filename;
      path = custom_path c f.path;
      scene = scene_of c f;
      time_stamp = e.now;
      offset = whole_file;
    };
    output = output;
  })

-- What a form that is accepted meets
pub record Allowed (e : Env) (c : Config) (f : UploadForm) (r : Ready) : Type 0 where
  pub writable : c.read_only ≡ false
  pub code : right_code e c f ≡ true
  pub file : f.file ≡ some r.file
  pub scene : check_scene c r.info.scene ≡ true
  pub output : output_of f.output ≡ some r.output

pub check_form-Allowed :
    (e : Env) (c : Config) (f : UploadForm) (r : Ready) → check_form e c f ≡ ok r → Allowed e c f r
unfolding check_form
check_form-Allowed e c f r h = ground arith
