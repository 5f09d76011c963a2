-- ===== src/Server/Upload/Post/Steps.antt =====
-- The stages of the handler `upload` (server/http_upload.go), one at a time.
use go_fastdfs.Prelude.{
  ◌≡◌, refl, ◌∙◌, sym, ap, ◌⊎◌, inl, inr, Bool, true, false, not, ◌&&◌, ◌||◌, none, some, [], ◌++◌,
  if◌then◌else◌, arith, Bool-cases,
}
use go_fastdfs.Prelude.Int.{ℤ, pos, ltb_ℤ}
use go_fastdfs.Prelude.Text.{Text, lit, text_eq, text_eq_sound}
use go_fastdfs.Server.Types.{FileInfo, Config, small_file_size}
use go_fastdfs.Server.Database.{Database, CountMap}
use go_fastdfs.Server.Disk.{erase}
use go_fastdfs.Server.Paths.{get_file_path_by_info}
use go_fastdfs.Server.Upload.Save.{Env, Outcome, SaveError, save_upload_file}
use go_fastdfs.Server.Upload.Form.{
  Refusal, not_saved, Checked, ok, refused, Output, output_of, Ready, check_form,
}
use go_fastdfs.Server.Upload.Form
use go_fastdfs.Server.Upload.Post.{
  Luck, UploadRequest, failure, Service, known, distinct_known, finish, drop_copy, add_file,
  merge_small, merge_result, merge_disk, record_file, logged, on_saved, post_upload, fast_upload,
  wanted,
}

pub Checked-cases :
    {A : Type 0} (m : Checked A) → ((a : A) × (m ≡ ok a)) ⊎ ((x : Refusal) × (m ≡ refused x))
Checked-cases (ok a) = inl (a, refl)
Checked-cases (refused x) = inr (x, refl)

-- `GetFilePathByInfo` with and without the root is the same where the root is empty.
pub with_docker_lem :
    (c : Config) (info : FileInfo)
    → get_file_path_by_info c info (not (text_eq c.docker_dir []))
      ≡ get_file_path_by_info c info true
unfolding get_file_path_by_info
with_docker_lem c info = elim (Bool-cases (text_eq c.docker_dir [])) [
  | inl e ↦
      rw e
        (ap (λ t. t ++ get_file_path_by_info c info false) (sym (text_eq_sound c.docker_dir [] e)))
  | inr e ↦ rw e refl
]

if_true : {A : Type 0} (b : Bool) (x y : A) → b ≡ true → (if b then x else y) ≡ x
if_true b x y h = rw h refl

if_false : {A : Type 0} (b : Bool) (x y : A) → b ≡ false → (if b then x else y) ≡ y
if_false b x y h = rw h refl

same_md5 : (a b : Bool) → (a || b) ≡ true → (not a && not b) ≡ false
same_md5 true b h = refl
same_md5 false b h = rw h refl

if_same : {A : Type 0} (b : Bool) (x : A) → (if b then x else x) ≡ x
if_same true x = refl
if_same false x = refl

module _ (D : Database) (M : CountMap) (day : ℤ → Text) (e : Env) (luck : Luck) (r : UploadRequest)
    (s : Service D.State M.State) where
  pub post_upload-refused :
      (m : Refusal)
      → check_form e s.config r.form ≡ refused m
      → post_upload D M day e luck r s ≡ (s, failure m)
  unfolding post_upload
  post_upload-refused m h = rw (post_upload, h) refl

  pub post_upload-ok :
      (ready : Ready)
      → check_form e s.config r.form ≡ ok ready
      → post_upload D M day e luck r s
        ≡ on_saved D M day e luck r ready.output
            (save_upload_file e s.config luck.save_fault ready.file ready.info s.disk)
            s
  unfolding post_upload
  post_upload-ok ready h = rw (post_upload, h) refl

  pub on_saved-error :
      (output : Output) (saved : Outcome) (x : SaveError)
      → saved.error ≡ some x
      → on_saved D M day e luck r output saved s
        ≡ (record s { disk = saved.disk }, failure (not_saved x))
  unfolding on_saved
  on_saved-error output saved x h = rw (on_saved, h) refl

  pub distinct_known_on :
      (md5 : Text)
      → s.config.enable_distinct_file ≡ true
      → distinct_known D M day e md5 s ≡ known D M day e md5 s
  unfolding distinct_known
  distinct_known_on md5 d = if_true s.config.enable_distinct_file (known D M day e md5 s) none d

  pub distinct_known-none :
      (md5 : Text) → known D M day e md5 s ≡ none → distinct_known D M day e md5 s ≡ none
  unfolding distinct_known
  distinct_known-none md5 k = rw k (if_same s.config.enable_distinct_file none)

  pub on_saved-known :
      (output : Output) (saved : Outcome) (v : FileInfo)
      → saved.error ≡ none
      → distinct_known D M day e saved.info.md5 s ≡ some v
      → on_saved D M day e luck r output saved s
        ≡ finish D M day e output v r.host
            (drop_copy D M day e saved.info v (record s { disk = saved.disk }))
  unfolding on_saved
  on_saved-known output saved v h k = rw (on_saved, h, k) refl

  pub on_saved-new :
      (output : Output) (saved : Outcome)
      → saved.error ≡ none
      → distinct_known D M day e saved.info.md5 s ≡ none
      → on_saved D M day e luck r output saved s
        ≡ add_file D M day e luck output r.host r.form.md5 saved.info
            (record s { disk = saved.disk })
  unfolding on_saved
  on_saved-new output saved h k = rw (on_saved, h, k) refl

  pub drop_copy-ne :
      (info v : FileInfo)
      → text_eq (get_file_path_by_info s.config info true) (get_file_path_by_info s.config v true)
        ≡ false
      → drop_copy D M day e info v s
        ≡ record s { disk = erase (get_file_path_by_info s.config info true) s.disk }
  unfolding drop_copy
  drop_copy-ne info v h = rw (with_docker_lem s.config info, with_docker_lem s.config v, h) refl

  pub add_file-record_file :
      (output : Output) (host md5sum : Text) (info : FileInfo)
      → text_eq info.md5 [] ≡ false
      → (text_eq md5sum [] || text_eq info.md5 md5sum) ≡ true
      → (s.config.enable_merge_small_file && ltb_ℤ info.size (pos small_file_size)) ≡ false
      → add_file D M day e luck output host md5sum info s ≡ record_file D M day e output host info s
  unfolding add_file
  add_file-record_file output host md5sum info null same whole =
      rw (null, same_md5 (text_eq md5sum []) (text_eq info.md5 md5sum) same)
        (if_false (s.config.enable_merge_small_file && ltb_ℤ info.size (pos small_file_size)) _ _
          whole)

  pub add_file-merge_small :
      (output : Output) (host md5sum : Text) (info : FileInfo)
      → text_eq info.md5 [] ≡ false
      → (text_eq md5sum [] || text_eq info.md5 md5sum) ≡ true
      → (s.config.enable_merge_small_file && ltb_ℤ info.size (pos small_file_size)) ≡ true
      → add_file D M day e luck output host md5sum info s
        ≡ merge_small D M day e luck output host info s
  unfolding add_file
  add_file-merge_small output host md5sum info null same small =
      rw (null, same_md5 (text_eq md5sum []) (text_eq info.md5 md5sum) same)
        (if_true (s.config.enable_merge_small_file && ltb_ℤ info.size (pos small_file_size)) _ _
          small)

  pub merge_small-record_file :
      (output : Output) (host : Text) (info : FileInfo)
      → (merge_result s.config luck info s.disk).fault ≡ none
      → merge_small D M day e luck output host info s
        ≡ record_file D M day e output host
            (merge_result s.config luck info s.disk).info
            (record s { disk = merge_disk s.config luck info s.disk })
  unfolding merge_small
  merge_small-record_file output host info n = rw (merge_small, n) refl

  pub record_file-finish :
      (output : Output) (host : Text) (info : FileInfo)
      → ltb_ℤ (pos 0) info.size ≡ true
      → record_file D M day e output host info s
        ≡ finish D M day e output info host (logged D M day e info s)
  unfolding record_file
  record_file-finish output host info h = rw h refl

  pub fast_upload-known :
      (v : FileInfo)
      → text_eq r.form.md5 [] ≡ false
      → known D M day e r.form.md5 s ≡ some v
      → fast_upload D M day e r s ≡ finish D M day e (wanted r.form.output) v r.host s
  unfolding fast_upload
  fast_upload-known v h k = rw (fast_upload, h, k) refl

some_injective : {A : Type 0} (a b : A) → some a ≡ some b → a ≡ b
some_injective a b h = cc

output_of_literals :
    (output_of (lit "json2") ≡ some Form.json2) × (output_of (lit "json") ≡ some Form.json)
unfolding output_of text_eq
output_of_literals = (refl, refl)

output_of_literal :
    (s t : Text) (o o' : Output)
    → text_eq s t ≡ true
    → output_of t ≡ some o'
    → output_of s ≡ some o
    → o' ≡ o
output_of_literal s t o o' e f h =
    some_injective o' o (sym f ∙ ap output_of (sym (text_eq_sound s t e)) ∙ h)

some_text :
    (s : Text) (o : Output)
    → text_eq s (lit "json2") ≡ false
    → text_eq s (lit "json") ≡ false
    → output_of s ≡ some o
    → Form.text ≡ o
unfolding output_of
some_text s o e f h = ground arith

-- The output of a form that is accepted is the one that the fast upload takes.
pub wanted-output_of : (s : Text) (o : Output) → output_of s ≡ some o → wanted s ≡ o
wanted-output_of s o h = elim (Bool-cases (text_eq s (lit "json2"))) [
  | inl e ↦ rw e (output_of_literal s (lit "json2") o Form.json2 e output_of_literals.0 h)
  | inr e ↦ elim (Bool-cases (text_eq s (lit "json"))) [
    | inl f ↦ rw (e, f) (output_of_literal s (lit "json") o Form.json f output_of_literals.1 h)
    | inr f ↦ rw (e, f) (some_text s o e f h)
  ]
]
