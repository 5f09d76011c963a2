-- ===== src/Tests/Upload.antt =====
-- The upload of a file (server/http_upload.go) at concrete data.
use go_fastdfs.Prelude.{
  ℕ, ◌≡◌, refl, ◌⊎◌, true, false, none, some, List, [], ◌∷◌, ◌++◌, arith, if◌then◌else◌,
}
use go_fastdfs.Prelude.Int.{pos, negsuc}
use go_fastdfs.Prelude.Text.{
  Text, lit, text_eq, remove_byte, trim, trim_left, after_last, last_index, has_prefix, has_suffix,
  has_infix, replace_first, replace_all, replace_from,
}
use go_fastdfs.Prelude.TextSet.{contains}
use go_fastdfs.Server.Types.{FileInfo, Config, no_info}
use go_fastdfs.Server.Disk.{exists, write}
use go_fastdfs.Server.Upload.Save.{
  Env, FormFile, save_upload_file, store_file, allowed_extension, clean_name, custom_name,
}
use go_fastdfs.Server.Upload.Form.{
  right_code, output_of, check_scene, custom_path, UploadForm, Ready, Output, check_form, ok,
  readonly,
}
use go_fastdfs.Server.Upload.Form
use go_fastdfs.Server.Upload.Post.{
  answer_of, known, Luck, UploadRequest, Service, post, post_upload, fast_upload, upload, failure,
}
use go_fastdfs.Server.Upload.Place.{
  choose_path, choose_within, path_in, AllTaken, rounds, trim_file_name, folder_of, drop_special,
}
use go_fastdfs.Server.Upload.Post.Plain.{IsPlain, outcome}
use go_fastdfs.Server.Paths.{
  get_file_path_by_info, FileResult, url_query, get_file_path_from_request,
}
use go_fastdfs.Server.Meta.{stored}
use go_fastdfs.Server.Types.{out_name}
use go_fastdfs.Server.Upload.Post.Known.{AsFast, fast_request, post_upload-fast_upload}
use go_fastdfs.Server.Upload.Post.Content.{IsNew, post_upload-request}
use go_fastdfs.Server.Upload.Post.Merged.{IsSmall, IsClean, before_merge, post_upload-sent}
use go_fastdfs.Server.SmallFile.{
  save_small_file, sent, content, get_small_file, path_ext, large_dir,
}
use go_fastdfs.Server.Upload.Post.Guarded.{Accepted}
use go_fastdfs.Server.Upload.Entry.{
  Arrival, permitted, serve_upload, Refused, serve_upload-Accepted,
}
use go_fastdfs.Server.Auth.Remote.{check_auth, says_ok, trim_space, trim_space_left}
use go_fastdfs.Tests.Data.{cfg, read, reads}
use go_fastdfs.Tests.Memory.{memory, tally_map, memory-IsLawful, memory-IsWritable}
use go_fastdfs.Tests.Meta.{hash, day, empty}

abbrev env : Env
env = record {
  time = lit "20240102/15/04";
  now = pos 1;
  uuid_md5 = lit "u";
  host = lit "http://10.0.0.1:8080";
  checksum = λ bytes. b'c' ∷ bytes;
  hash = hash;
  sprintf = λ format values. format;
  secret = λ scene. none;
  verify = λ secret code window. true;
}

abbrev luck : Luck
luck = record { save_fault = none; merge_fault = none; large_name = lit "123" }

abbrev a_txt : FormFile
a_txt = record { file_name = lit "a.txt"; header_size = 5; bytes = lit "hello" }

abbrev form : UploadForm
form = record {
  output = lit "json2";
  md5 = [];
  filename = [];
  path = [];
  scene = [];
  scenes = [];
  code = [];
  file = some a_txt;
}

abbrev request : UploadRequest
request = record { method = post; host = lit "h:8080"; form = form }

abbrev service : Config → Service memory.State tally_map.State
service c = record { config = c; records = empty; disk = λ path. none; posted = [] }

abbrev arrival : Arrival
arrival = record {
  token = lit "t";
  auth_answer = lit "ok";
  tmp_path = lit "files/_tmp/20240102/u";
  body = lit "body";
  fault = none;
}

abbrev guarded : Config
guarded = record cfg { auth_url = lit "http://auth/" }

-- A server that asks an auth server
serve_upload-Accepted_example :
    Refused
      (λ text. none)
      memory
      tally_map
      day
      env
      arrival.tmp_path
      (service guarded)
      (serve_upload (λ text. none) memory tally_map day env luck arrival request (service guarded))
    ⊎ ((permitted (λ text. none) memory tally_map day env guarded arrival ≡ true)
        × (arrival.fault ≡ none)
        × Accepted env guarded request)
serve_upload-Accepted_example =
    serve_upload-Accepted (λ text. none) memory tally_map day env luck arrival request
      (service guarded) refl

permitted_by_run : permitted (λ text. none) memory tally_map day env guarded arrival ≡ true
unfolding check_auth says_ok trim_space trim_space_left has_prefix has_suffix text_eq
permitted_by_run = refl

-- A server that is read-only
readonly_by_run :
    upload memory tally_map day env luck request (service (record cfg { read_only = true }))
    ≡ (service (record cfg { read_only = true }), failure readonly)
unfolding upload post_upload check_form
readonly_by_run = refl

abbrev ready : Ready
ready = record {
  file = a_txt;
  info = record no_info { scene = lit "default"; time_stamp = pos 1; offset = negsuc 0 };
  output = Form.json2;
}

form_accepted : check_form env cfg form ≡ ok ready
unfolding check_form right_code output_of check_scene custom_path text_eq remove_byte trim trim_left
    contains
form_accepted = refl

complete : (save_upload_file env cfg none a_txt ready.info (λ path. none)).error ≡ none
unfolding save_upload_file store_file allowed_extension clean_name
complete = refl

plain : IsPlain env cfg ready
unfolding clean_name trim_file_name folder_of after_last last_index drop_special replace_all
    replace_from has_prefix has_infix text_eq
plain = record {
  rename_file = refl;
  re_name = refl;
  name = λ h. absurd (ground arith);
  folder = refl;
}

-- A server that has the content at another path
abbrev found : FileInfo
found = record no_info { name = lit "b.txt"; path = lit "files"; md5 = lit "chello" }

abbrev holding : Service memory.State tally_map.State
holding = record {
  config = cfg;
  records = record empty { files = (lit "chello", found) ∷ [] };
  disk = λ path. if text_eq path (lit "files/b.txt") then some (lit "hello") else none;
  posted = [];
}

held : (save_upload_file env cfg none a_txt ready.info holding.disk).error ≡ none
unfolding save_upload_file store_file allowed_extension clean_name
held = refl

post_upload-fast_upload_example :
    AllTaken env.sprintf
      (exists holding.disk)
      (folder_of cfg env.time ready.info.scene ready.info.path)
      rounds
      0
      (clean_name cfg a_txt.file_name)
    ⊎ AsFast memory tally_map day env luck request holding ready found form_accepted refl held plain
        (post_upload memory tally_map day env luck request holding)
        (fast_upload memory tally_map day env (fast_request env request a_txt) holding)
post_upload-fast_upload_example =
    post_upload-fast_upload memory tally_map day env luck request holding ready found form_accepted
      refl held plain refl (λ h. absurd (ground arith)) (unfold known text_eq in refl)
      (unfold get_file_path_by_info out_name text_eq in refl)

-- A server that does not merge small files
abbrev whole : Config
whole = record cfg { enable_merge_small_file = false }

form_accepted_whole : check_form env whole form ≡ ok ready
unfolding check_form right_code output_of check_scene custom_path text_eq remove_byte trim trim_left
    contains
form_accepted_whole = refl

complete_whole :
    (save_upload_file env whole none a_txt ready.info (service whole).disk).error ≡ none
unfolding save_upload_file store_file allowed_extension clean_name
complete_whole = refl

plain_whole : IsPlain env whole ready
unfolding clean_name trim_file_name folder_of after_last last_index drop_special replace_all
    replace_from has_prefix has_infix text_eq
plain_whole = record {
  rename_file = refl;
  re_name = refl;
  name = λ h. absurd (ground arith);
  folder = refl;
}

-- The record of the new file
abbrev new_info : Config → FileInfo
new_info c = (outcome memory tally_map env (service c) ready).info

new :
    IsNew memory tally_map day env luck request
      (service whole)
      ready
      form_accepted_whole
      refl
      complete_whole
      plain_whole
unfolding known text_eq
new = (refl, λ h. absurd (ground arith), refl, refl, refl)

abbrev directory : Text
directory = lit "default/20240102/15/04/1"

directory_path : (new_info whole).path ≡ lit "files/" ++ directory
unfolding replace_first folder_of text_eq has_prefix
directory_path = refl

name_whole : (new_info whole).name ≡ lit "a.txt"
unfolding choose_path choose_within path_in clean_name trim_file_name folder_of after_last
    last_index drop_special replace_all replace_from has_prefix has_infix text_eq custom_name
name_whole = refl

re_name_whole : (new_info whole).re_name ≡ []
unfolding custom_name
re_name_whole = refl

post_upload-request_example :
    let (t, a) = post_upload memory tally_map day env luck request (service whole) in
    (result : FileResult) × (a ≡ answer_of Form.json2 result)
    × (result.url ≡ result.domain ++ (result.path ++ url_query whole (new_info whole)))
    × (t.disk
          (get_file_path_from_request t.config (result.path ++ url_query whole (new_info whole))).0
        ≡ some (lit "hello"))
    × (known memory tally_map day env (lit "chello") t ≡ some (stored (new_info whole)))
post_upload-request_example =
    post_upload-request memory tally_map day env luck request (service whole) ready
      form_accepted_whole refl complete_whole plain_whole directory memory-IsLawful
      memory-IsWritable new refl directory_path
      (rw (name_whole, re_name_whole) (unfold out_name in omega arith))
      (unfold get_file_path_by_info in
        (rw (name_whole, re_name_whole, directory_path) (unfold out_name in omega arith)))
      (rw (name_whole, re_name_whole) (unfold has_prefix out_name in refl))

-- The same, where small files are merged
small :
    IsSmall read reads memory tally_map day env luck request
      (service cfg)
      ready
      form_accepted
      (refl, refl)
      complete
      plain
unfolding known text_eq
small = (refl, λ h. absurd (ground arith), refl, refl)

name_small : (new_info cfg).name ≡ lit "a.txt"
unfolding choose_path choose_within path_in clean_name trim_file_name folder_of after_last
    last_index drop_special replace_all replace_from has_prefix has_infix text_eq custom_name
name_small = refl

new_path_small :
    get_file_path_by_info cfg (new_info cfg) true ≡ lit "files/" ++ (directory ++ lit "/a.txt")
unfolding choose_path choose_within path_in clean_name trim_file_name folder_of after_last
    last_index drop_special replace_all replace_from replace_first has_prefix has_infix text_eq
    custom_name get_file_path_by_info out_name
new_path_small = refl

no_large :
    before_merge read reads memory tally_map day env luck request
      (service cfg)
      ready
      form_accepted
      (refl, refl)
      complete
      plain
    ≡ []
unfolding large_dir write choose_path choose_within path_in clean_name trim_file_name folder_of
    after_last last_index drop_special replace_all replace_from has_prefix has_infix text_eq
    custom_name
no_large = refl

ext_small : path_ext (lit "a.txt") ≡ lit ".txt"
unfolding path_ext
ext_small = refl

clean :
    IsClean read reads memory tally_map day env luck request
      (service cfg)
      ready
      form_accepted
      (refl, refl)
      complete
      plain
clean = (
  rw name_small (omega arith),
  omega arith,
  omega arith,
  omega arith,
  rw (name_small, ext_small) (omega arith),
  unfold large_dir in omega arith,
  unfold large_dir in omega arith,
  omega arith,
  rw new_path_small (unfold large_dir in λ h. absurd (ground arith)),
  rw no_large (omega arith),
)

abbrev small_info : FileInfo
small_info =
    (save_small_file cfg (lit "123") none
      (before_merge read reads memory tally_map day env luck request (service cfg) ready
        form_accepted (refl, refl) complete plain)
      (some (lit "hello")) (new_info cfg)).info

post_upload-sent_example :
    let (t, a) = post_upload memory tally_map day env luck request (service cfg) in
    (result : FileResult) × (file : List ℕ) × (a ≡ answer_of Form.json2 result)
    × (result.url ≡ result.domain ++ (result.path ++ url_query cfg small_info))
    × (t.disk (get_file_path_from_request t.config (result.path ++ url_query cfg small_info)).0
        ≡ some file)
    × (sent (get_small_file read (result.path ++ url_query cfg small_info) (some file))
        ≡ content (lit "hello"))
    × (known memory tally_map day env (lit "chello") t ≡ some (stored small_info))
post_upload-sent_example =
    post_upload-sent read reads memory tally_map day env luck request (service cfg) ready
      form_accepted (refl, refl) complete plain memory-IsLawful memory-IsWritable small clean
      (omega arith) refl
