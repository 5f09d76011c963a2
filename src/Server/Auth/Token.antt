-- ===== src/Server/Auth/Token.antt =====
-- The tokens of downloads: `CheckDownloadAuth` of server/http_download.go.
use go_fastdfs.Prelude.{
  ◌⊎◌, inl, inr, ◌≡◌, ◌≢◌, refl, ◌∙◌, sym, ap, ◌↔◌, Bool, true, false, ◌||◌, Option, none, some, [],
  ◌++◌, if◌then◌else◌, arith, Bool-cases,
}
use mathlib.Core.Path.{subst}
use go_fastdfs.Prelude.Int.{ℤ, ltb_ℤ, ◌+ℤ◌, ◌-ℤ◌, ◌≤ℤ◌}
use go_fastdfs.Prelude.Text.{Text, text_eq, has_prefix, text_eq_refl, text_eq_sound}
use go_fastdfs.Prelude.Split.{Lacks}
use go_fastdfs.Prelude.Decimal.{parse_int}
use go_fastdfs.Server.Types.{FileInfo, Config, slash, store_dir_name, large_dir_name}
use go_fastdfs.Server.Meta.{full_path}
use go_fastdfs.Server.Paths.{url_query, build_file_result, get_file_path_by_info}
use go_fastdfs.Server.Paths.RoundTrip.{below_store, request-build_file_result}
use go_fastdfs.Server.Auth.{
  Request, Verdict, permitted, unvalid_request, unvalid_timestamp, expired, unvalid_token,
  request_key, check_token, check_time, check_request, check_download_auth,
}

outside :
    (now window ts u : ℤ)
    → some ts ≡ some u
    → u ≤ℤ now +ℤ window
    → now -ℤ window ≤ℤ u
    → (ltb_ℤ (now +ℤ window) ts || ltb_ℤ ts (now -ℤ window)) ≢ true
outside now window ts u e x y w = let z : ts ≡ u = cc in ground (arith, z)

inside :
    (now window ts : ℤ)
    → (ltb_ℤ (now +ℤ window) ts || ltb_ℤ ts (now -ℤ window)) ≡ false
    → (ts ≤ℤ now +ℤ window) × (now -ℤ window ≤ℤ ts)
inside now window ts w = (ground arith, ground arith)

module _ (hash : Text → Text) (find : Text → Option FileInfo) (secret : Text → Option Text)
    (verify : Text → Text → ℤ → Bool) where
  -- A token in time, and made from the hash of the file
  abbrev pub IsToken : Config → ℤ → FileInfo → Request → Type 0
  IsToken c now info r =
      (text_eq r.token [] ≡ false)
      × (text_eq r.timestamp [] ≡ false)
      × (ts : ℤ) × (parse_int r.timestamp ≡ some ts)
      × (ts ≤ℤ now +ℤ c.download_token_expire)
      × (now -ℤ c.download_token_expire ≤ℤ ts)
      × (hash (info.md5 ++ r.timestamp) ≡ r.token)

  check_token-IsToken :
      (c : Config) (r : Request) (info : FileInfo)
      → find (request_key hash find c r.uri) ≡ some info
      → check_token hash find c r ≡ (
          if text_eq (hash (info.md5 ++ r.timestamp)) r.token
          then some permitted
          else some unvalid_token)
  check_token-IsToken c r info e = unfold check_token in rw (check_token, e) refl

  no_some : (ts : ℤ) → none ≢ some ts
  no_some ts h = absurd (ground arith)

  abbrev Decides : Config → ℤ → FileInfo → Request → Option Verdict → Type 0
  Decides c now info r o = (v : Verdict) × (o ≡ some v) × ((v ≡ permitted) ↔ IsToken c now info r)

  check_time-Decides :
      (c : Config) (now : ℤ) (r : Request) (info : FileInfo) (o : Option ℤ)
      → parse_int r.timestamp ≡ o
      → find (request_key hash find c r.uri) ≡ some info
      → text_eq r.token [] ≡ false
      → text_eq r.timestamp [] ≡ false
      → Decides c now info r (check_time hash find c now r o)
  unfolding check_time
  check_time-Decides c now r info none p e t n = (
    unvalid_timestamp,
    refl,
    (λ h. absurd (ground arith), λ (_, _, ts, q, _, _, _). absurd (no_some ts (sym p ∙ q))),
  )
  check_time-Decides c now r info (some ts) p e t n =
      elim (Bool-cases
        (ltb_ℤ (now +ℤ c.download_token_expire) ts || ltb_ℤ ts (now -ℤ c.download_token_expire))) [
          | inl w ↦ rw w (
            expired,
            refl,
            (
              λ h. absurd (ground arith),
              λ (_, _, u, q, x, y, _).
                  absurd (outside now c.download_token_expire ts u (sym p ∙ q) x y w),
            ),
          )
          | inr w ↦ elim (Bool-cases (text_eq (hash (info.md5 ++ r.timestamp)) r.token)) [
            | inl k ↦
                rw (w, check_token-IsToken c r info e, k)
                  (
                    permitted,
                    refl,
                    (
                      λ h. (
                        t,
                        n,
                        ts,
                        p,
                        (inside now c.download_token_expire ts w).0,
                        (inside now c.download_token_expire ts w).1,
                        text_eq_sound _ _ k,
                      ),
                      λ h. refl,
                    ),
                  )
            | inr k ↦
                rw (w, check_token-IsToken c r info e, k)
                  (
                    unvalid_token,
                    refl,
                    (
                      λ h. absurd (ground arith),
                      λ (_, _, u, q, x, y, z). absurd (ground (arith, z, text_eq_refl r.token)),
                    ),
                  )
          ]
        ]

  check_token_unknown :
      (c : Config) (r : Request)
      → find (request_key hash find c r.uri) ≡ none
      → check_token hash find c r ≡ none
  check_token_unknown c r e = unfold check_token in rw (check_token, e) refl

  check_request_timed :
      (c : Config) (now : ℤ) (r : Request)
      → text_eq r.token [] ≡ false
      → text_eq r.timestamp [] ≡ false
      → check_request hash find c now r ≡ check_time hash find c now r (parse_int r.timestamp)
  unfolding check_request
  check_request_timed c now r t n = ground arith

  check_request-Decides :
      (c : Config) (now : ℤ) (r : Request) (info : FileInfo)
      → find (request_key hash find c r.uri) ≡ some info
      → Decides c now info r (check_request hash find c now r)
  unfolding check_request
  check_request-Decides c now r info e = elim (Bool-cases (text_eq r.token [])) [
    | inl t ↦ rw t (
      unvalid_request,
      refl,
      (λ h. absurd (ground arith), λ (x, _, _, _, _, _, _). absurd (ground arith)),
    )
    | inr t ↦ elim (Bool-cases (text_eq r.timestamp [])) [
      | inl n ↦
          rw (t, n)
            (
              unvalid_request,
              refl,
              (λ h. absurd (ground arith), λ (_, x, _, _, _, _, _). absurd (ground arith)),
            )
      | inr n ↦
          subst (Decides c now info r) (sym (check_request_timed c now r t n))
            (check_time-Decides c now r info (parse_int r.timestamp) refl e t n)
    ]
  ]

  check_download_auth_token :
      (c : Config) (now : ℤ) (auth : Bool) (r : Request) (v : Verdict)
      → c.enable_download_auth ≡ false
      → c.download_use_token ≡ true
      → check_request hash find c now r ≡ some v
      → check_download_auth hash find secret verify c now false auth r ≡ v
  unfolding check_download_auth
  check_download_auth_token c now auth r v a u e = ground (arith, e)

  -- Where downloads need a token and no other authentication is on, a request that comes from no
  -- peer, for a file whose record is found, is permitted exactly if its token is made from the hash
  -- of the file and its timestamp, which is at most the expiry away from now.
  pub check_download_auth-IsToken :
      (c : Config) (now : ℤ) (auth : Bool) (r : Request) (info : FileInfo)
      → c.enable_download_auth ≡ false
      → c.download_use_token ≡ true
      → find (request_key hash find c r.uri) ≡ some info
      → (check_download_auth hash find secret verify c now false auth r ≡ permitted)
        ↔ IsToken c now info r
  check_download_auth-IsToken c now auth r info a u e =
      let (v, q, i) = check_request-Decides c now r info e in
      rw (check_download_auth_token c now auth r v a u q) i

  check_request_unknown :
      (c : Config) (now : ℤ) (r : Request) (ts : ℤ)
      → find (request_key hash find c r.uri) ≡ none
      → text_eq r.token [] ≡ false
      → text_eq r.timestamp [] ≡ false
      → parse_int r.timestamp ≡ some ts
      → ts ≤ℤ now +ℤ c.download_token_expire
      → now -ℤ c.download_token_expire ≤ℤ ts
      → check_request hash find c now r ≡ none
  check_request_unknown c now r ts e t n p x y =
      check_request_timed c now r t n
      ∙ ap (check_time hash find c now r) p
      ∙ unfold check_time in ground (arith, check_token_unknown c r e)

  -- A request with a token that is not empty, and a timestamp in time
  abbrev pub IsTimed : Config → ℤ → Request → Type 0
  IsTimed c now r =
      (text_eq r.token [] ≡ false)
      × (text_eq r.timestamp [] ≡ false)
      × (ts : ℤ) × (parse_int r.timestamp ≡ some ts)
      × (ts ≤ℤ now +ℤ c.download_token_expire)
      × (now -ℤ c.download_token_expire ≤ℤ ts)

  check_time_unknown :
      (c : Config) (now : ℤ) (r : Request) (o : Option ℤ)
      → parse_int r.timestamp ≡ o
      → text_eq r.token [] ≡ false
      → text_eq r.timestamp [] ≡ false
      → IsTimed c now r
        ⊎ ((v : Verdict) × (check_time hash find c now r o ≡ some v) × (v ≢ permitted))
  unfolding check_time
  check_time_unknown c now r none p t n = inr (unvalid_timestamp, refl, λ h. absurd (ground arith))
  check_time_unknown c now r (some ts) p t n =
      elim (Bool-cases
        (ltb_ℤ (now +ℤ c.download_token_expire) ts || ltb_ℤ ts (now -ℤ c.download_token_expire))) [
          | inl w ↦ inr (expired, rw w refl, λ h. absurd (ground arith))
          | inr w ↦ let (x, y) = inside now c.download_token_expire ts w in inl (t, n, ts, p, x, y)
        ]

  check_request_refused :
      (c : Config) (now : ℤ) (r : Request)
      → IsTimed c now r
        ⊎ ((v : Verdict) × (check_request hash find c now r ≡ some v) × (v ≢ permitted))
  unfolding check_request
  check_request_refused c now r = elim (Bool-cases (text_eq r.token [])) [
    | inl t ↦ inr (unvalid_request, rw t refl, λ h. absurd (ground arith))
    | inr t ↦ elim (Bool-cases (text_eq r.timestamp [])) [
      | inl n ↦ inr (unvalid_request, rw (t, n) refl, λ h. absurd (ground arith))
      | inr n ↦
          rw (check_request_timed c now r t n)
            (check_time_unknown c now r (parse_int r.timestamp) refl t n)
    ]
  ]

  -- Where downloads need a token and no other authentication is on, a request that comes from no
  -- peer, for a file whose record is not found, is permitted exactly if its token is not empty and its
  -- timestamp is at most the expiry away from now, whatever the token is.
  pub check_download_auth-IsTimed :
      (c : Config) (now : ℤ) (auth : Bool) (r : Request)
      → c.enable_download_auth ≡ false
      → c.enable_google_auth ≡ false
      → c.download_use_token ≡ true
      → find (request_key hash find c r.uri) ≡ none
      → (check_download_auth hash find secret verify c now false auth r ≡ permitted)
        ↔ IsTimed c now r
  unfolding check_download_auth
  check_download_auth-IsTimed c now auth r a g u e = (
    λ h. elim (check_request_refused c now r) [
      | inl timed ↦ timed
      | inr (v, q, n) ↦ absurd (n (sym (check_download_auth_token c now auth r v a u q) ∙ h))
    ],
    λ (t, n, ts, p, x, y). ground (arith, check_request_unknown c now r ts e t n p x y),
  )

-- With groups, the key under which the check looks for the record of a file, whose URL
-- `BuildFileResult` gave, is the hash of the path of the file with the root directory before it: where
-- the file lies in the store but not in the directory of the large files, its path has no percent
-- sign, and its part below the store no question mark.
pub request_key-build_file_result :
    (hash : Text → Text) (find : Text → Option FileInfo) (c : Config) (info : FileInfo)
    (host : Option Text) (rest : Text)
    → c.support_group_manage ≡ true
    → info.path ≡ (store_dir_name ++ slash) ++ rest
    → Lacks b'?' (below_store rest info)
    → Lacks b'%' (get_file_path_by_info c info true)
    → has_prefix (below_store rest info ++ url_query c info) (large_dir_name ++ slash) ≡ false
    → request_key hash find c ((build_file_result c info host).0.path ++ url_query c info)
      ≡ hash (c.docker_dir ++ full_path info)
unfolding request_key get_file_path_by_info text_eq
request_key-build_file_result hash find c info host rest g e q l n =
    rw (request-build_file_result c info host rest g e q l n).1 refl
