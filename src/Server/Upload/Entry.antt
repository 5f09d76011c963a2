-- ===== src/Server/Upload/Entry.antt =====
-- `Upload` of server/http_upload.go, around the handler `upload`: the question to the auth server,
-- and the temporary copy of the request. The queue of uploads hands the request to a worker, and the
-- call waits for it.
use mathlib.Core.Path.{subst}
use go_fastdfs.Prelude.{
  ℕ, ◌≡◌, ◌≢◌, refl, ◌∙◌, sym, ◌⊎◌, inl, inr, Bool, true, ◌||◌, Option, none, some, List, [],
  if◌then◌else◌, take, Bool-cases,
}
use go_fastdfs.Prelude.Int.{ℤ}
use go_fastdfs.Prelude.Text.{Text, text_eq}
use go_fastdfs.Server.Types.{Config}
use go_fastdfs.Server.Database.{Database, CountMap}
use go_fastdfs.Server.Disk.{Disk, write, erase, write_ne, erase_ne}
use go_fastdfs.Server.Auth.Remote.{check_auth}
use go_fastdfs.Server.Upload.Save.{Env}
use go_fastdfs.Server.Upload.Form.{Refusal, auth_fail, body_failed}
use go_fastdfs.Server.Upload.Post.{
  Luck, UploadRequest, Method, post, Answer, failure, Service, post_upload, upload,
}
use go_fastdfs.Server.Upload.Post
use go_fastdfs.Server.Upload.Post.Guarded.{Accepted, post_upload-Accepted}

-- What fails in the copy of the request: it is not opened, copied up to some bytes, or not opened
-- again.
pub data BodyFault : Type 0 where
  not_opened not_reopened : BodyFault
  not_copied : ℕ → BodyFault

-- What comes with a request besides its form: the header Auth-Token, the answer of the auth server, the
-- path of the temporary file, which is new, the bytes of the body, and the fault that is met
pub record Arrival : Type 0 where
  pub token : Text
  pub auth_answer : Text
  pub tmp_path : Text
  pub body : List ℕ
  pub fault : Option BodyFault

module _ (data_of : Text → Option Text) (D : Database) (M : CountMap) (day : ℤ → Text)
    (e : Env) where
  abbrev State : Type 0
  State = Service D.State M.State

  abbrev pub permitted : Config → Arrival → Bool
  permitted c a = text_eq c.auth_url [] || check_auth data_of a.token a.auth_answer

  -- The disk is changed.
  abbrev pub on_disk : (Disk → Disk) → State → State
  on_disk f s = record s { disk = f s.disk }

  -- A request with a body: its temporary copy is removed at the end.
  unfoldable pub copied : Luck → Arrival → UploadRequest → Option BodyFault → State → State × Answer
  copied luck a r (some not_opened) s = (s, failure body_failed)
  copied luck a r (some not_reopened) s = (on_disk (write a.tmp_path a.body) s, failure body_failed)
  copied luck a r (some (not_copied n)) s =
      (on_disk (write a.tmp_path (take n a.body)) s, failure body_failed)
  copied luck a r none s =
      let (t, answer) = upload D M day e luck r (on_disk (write a.tmp_path a.body) s) in
      (on_disk (erase a.tmp_path) t, answer)

  -- `Upload`
  unfoldable pub serve_upload : Luck → Arrival → UploadRequest → State → State × Answer
  serve_upload luck a r s =
      if permitted s.config a
      then elim r.method [ Post.get ↦ upload D M day e luck r s | _ ↦ copied luck a r a.fault s ]
      else (s, failure auth_fail)

  -- The server is as it was, but for a file at one path.
  pub record Unchanged (path : Text) (s t : State) : Type 0 where
    pub config : t.config ≡ s.config
    pub records : t.records ≡ s.records
    pub posted : t.posted ≡ s.posted
    pub disk : (q : Text) → q ≢ path → t.disk q ≡ s.disk q

  -- What a request that is refused leaves
  abbrev pub Refused : Text → State → State × Answer → Type 0
  Refused path s (t, answer) = (m : Refusal) × (answer ≡ failure m) × Unchanged path s t

  same : (path : Text) (s : State) → Unchanged path s s
  same path s = record { config = refl; records = refl; posted = refl; disk = λ q n. refl }

  written : (path : Text) (b : List ℕ) (s : State) → Unchanged path s (on_disk (write path b) s)
  written path b s = record {
    config = refl;
    records = refl;
    posted = refl;
    disk = λ q n. write_ne path b s.disk q n;
  }

  erased :
      (path : Text) (b : List ℕ) (s : State)
      → Unchanged path s (on_disk (erase path) (on_disk (write path b) s))
  erased path b s = record {
    config = refl;
    records = refl;
    posted = refl;
    disk = λ q n. erase_ne path (write path b s.disk) q n ∙ write_ne path b s.disk q n;
  }

  upload-post :
      (luck : Luck) (r : UploadRequest) (s : State)
      → r.method ≡ post
      → upload D M day e luck r s ≡ post_upload D M day e luck r s
  unfolding upload
  upload-post luck r s p = rw p refl

  copied-Accepted :
      (luck : Luck) (a : Arrival) (r : UploadRequest) (fault : Option BodyFault) (s : State)
      → r.method ≡ post
      → Refused a.tmp_path s (copied luck a r fault s) ⊎ ((fault ≡ none) × Accepted e s.config r)
  unfolding copied
  copied-Accepted luck a r (some not_opened) s p = inl (body_failed, refl, same a.tmp_path s)
  copied-Accepted luck a r (some not_reopened) s p =
      inl (body_failed, refl, written a.tmp_path a.body s)
  copied-Accepted luck a r (some (not_copied n)) s p =
      inl (body_failed, refl, written a.tmp_path (take n a.body) s)
  copied-Accepted luck a r none s p =
      let w = on_disk (write a.tmp_path a.body) s in
      elim (post_upload-Accepted D M day e luck r w) [
        | inl (m, h) ↦ inl (
            subst
              (λ x.
                let y : State × Answer = x in
                (k : Refusal) × (y.1 ≡ failure k)
                × Unchanged a.tmp_path s (on_disk (erase a.tmp_path) y.0))
              (sym (upload-post luck r w p ∙ h)) (m, refl, erased a.tmp_path a.body s))
        | inr accepted ↦ inr (refl, accepted)
      ]

  -- An upload by POST that the auth server does not permit, whose body is not copied, or whose form
  -- is not accepted, is answered with a message, and it changes nothing but the temporary copy of
  -- its body: the configuration, the records, the posts to peers and every other file are as they
  -- were.
  pub serve_upload-Accepted :
      (luck : Luck) (a : Arrival) (r : UploadRequest) (s : State)
      → r.method ≡ post
      → Refused a.tmp_path s (serve_upload luck a r s)
        ⊎ ((permitted s.config a ≡ true) × (a.fault ≡ none) × Accepted e s.config r)
  unfolding serve_upload
  serve_upload-Accepted luck a r s p = elim (Bool-cases (permitted s.config a)) [
    | inr h ↦ inl (auth_fail, rw h refl, rw h (same a.tmp_path s))
    | inl h ↦ elim (copied-Accepted luck a r a.fault s p) [
      | inl refused ↦ inl (rw (h, p) refused)
      | inr (whole, accepted) ↦ inr (h, whole, accepted)
    ]
  ]
