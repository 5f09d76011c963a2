-- ===== src/Server/Auth/Remote.antt =====
-- The server that is asked whether a request is permitted: `CheckAuth` of server/http_auth.go, and
-- the hook `NewUpload` of server/store.go.
use go_fastdfs.Prelude.{
  ℕ, Bool, true, false, not, ◌&&◌, ◌||◌, Option, none, some, [], ◌∷◌, if◌then◌else◌, ◌==◌, leb,
  reverse,
}
use go_fastdfs.Prelude.Text.{Text, lit, text_eq, has_prefix, has_suffix}

-- `strings.TrimSpace` on the spaces of ASCII
abbrev pub is_space : ℕ → Bool
is_space b = (leb 9 b && leb b 13) || (b == 32)

unfoldable pub trim_space_left : Text → Text
trim_space_left [] = []
trim_space_left (b ∷ s) = let rest = trim_space_left s in if is_space b then rest else b ∷ rest

unfoldable pub trim_space : Text → Text
trim_space s = reverse (trim_space_left (reverse (trim_space_left s)))

-- The answer of the server: "ok", or an object of JSON whose member `data` is "ok". The member is
-- read by a parameter, `none` for a text that is no JSON.
unfoldable pub says_ok : (Text → Option Text) → Text → Bool
says_ok data_of answer =
    let result = trim_space answer in
    if has_prefix result (lit "{") && has_suffix result (lit "}")
    then elim (data_of result) [ none ↦ false | some value ↦ text_eq value (lit "ok") ]
    else text_eq result (lit "ok")

-- `CheckAuth`, with the header Auth-Token and the answer, which is empty where the request fails
unfoldable pub check_auth : (Text → Option Text) → Text → Text → Bool
check_auth data_of token answer = if text_eq token [] then false else says_ok data_of answer

-- `NewUpload` up to the call of the store, with the token of the metadata and the answer, and whether
-- the request fails
unfoldable pub new_upload : (Text → Option Text) → Text → Option Text → Text → Bool → Bool
new_upload data_of auth_url token answer fails = if text_eq auth_url [] then true else elim token [
  | none ↦ false
  | some t ↦
      let result = trim_space answer in
      if has_prefix result (lit "{") && has_suffix result (lit "}")
      then says_ok data_of answer
      else not fails && text_eq (trim_space result) (lit "ok")
]
