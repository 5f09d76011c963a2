-- ===== src/Server/Auth.antt =====
-- Who may ask: `IsPeer` of server/fileserver.go and `CheckDownloadAuth` of server/http_download.go.
pub mod Token
pub mod Peers
pub mod Remote
use go_fastdfs.Prelude.{
  ℕ, Bool, true, false, not, ◌&&◌, ◌||◌, Option, none, some, List, [], ◌∷◌, ◌++◌, if◌then◌else◌,
  ◌==◌, leb, drop, length, ◌+◌, ◌/◌,
}
use go_fastdfs.Prelude.Int.{quotient, ℤ, pos, ltb_ℤ, ◌+ℤ◌, ◌-ℤ◌}
use go_fastdfs.Prelude.Text.{Text, lit, text_eq, has_prefix, has_infix}
use go_fastdfs.Prelude.TextSet.{contains}
use go_fastdfs.Prelude.Split.{before}
use go_fastdfs.Prelude.Decimal.{parse_int}
use go_fastdfs.Server.Types.{FileInfo, Config}
use go_fastdfs.Server.Paths.{get_file_path_from_request}

-- The four bytes of an address of version 4
pub record Ip4 : Type 0 where
  pub a : ℕ
  pub b : ℕ
  pub c : ℕ
  pub d : ℕ

-- `IsPublicIP`; `none` is any other address, and what `net.ParseIP` rejects.
unfoldable pub is_public_ip : Option Ip4 → Bool
is_public_ip none = false
is_public_ip (some ip) =
    if (ip.a == 127)
      || ((ip.a == 224) && (ip.b == 0) && (ip.c == 0))
      || ((ip.a == 169) && (ip.b == 254))
    then false
    else not (
        (ip.a == 10)
        || ((ip.a == 172) && leb 16 ip.b && leb ip.b 31)
        || ((ip.a == 192) && (ip.b == 168)))

-- `strings.Split(r.RemoteAddr, ":")[0]`
abbrev pub get_real_ip : Text → Text
get_real_ip remote_addr = before b':' remote_addr

-- The loop over the ranges of `AdminIps`: its answer, where it returns
unfoldable pub in_ranges : (Text → Option (Text → Bool)) → Text → List Text → Option Bool
in_ranges cidr ip [] = none
in_ranges cidr ip (v ∷ vs) =
    let rest = in_ranges cidr ip vs in
    if has_infix v (lit "/")
    then elim (cidr v) [ none ↦ some false | some range ↦ if range ip then some true else rest ]
    else rest

unfoldable pub any_prefix : List Text → Text → Bool
any_prefix [] ip = false
any_prefix (peer ∷ peers) ip = has_prefix peer ip || any_prefix peers ip

-- `IsPeer`, with `net.ParseCIDR`, `net.ParseIP` and the address of the server
unfoldable pub is_peer :
    (Text → Option (Text → Bool)) → (Text → Option Ip4) → Text → Config → Text → Bool
unfolding is_public_ip in_ranges any_prefix
is_peer cidr parse_ip real_ip c remote_addr =
    let ip = get_real_ip remote_addr in
    let peer =
      if text_eq ip (lit "127.0.0.1") || text_eq ip real_ip
      then true
      else any_prefix c.peers (lit "http://" ++ ip) in
    if contains (lit "0.0.0.0") c.admin_ips
    then not (is_public_ip (parse_ip ip))
    else if contains ip c.admin_ips
    then true
    else elim (in_ranges cidr ip c.admin_ips) [ some answer ↦ answer | none ↦ peer ]

-- The fields of a request that the check of a download reads
pub record Request : Type 0 where
  pub uri : Text
  pub token : Text
  pub timestamp : Text
  pub code : Text

-- The results of `CheckDownloadAuth`: true, or the text of its error
pub data Verdict : Type 0 where
  permitted auth_fail unvalid_request unvalid_timestamp expired unvalid_token invalid_code : Verdict

module _ (hash : Text → Text) (find : Text → Option FileInfo) where
  -- The key of the record of the file that is asked for
  unfoldable pub request_key : Config → Text → Text
  request_key c uri =
      let (full, small) = get_file_path_from_request c uri in
      if text_eq small [] then hash full else hash small

  -- The token of a request in time: `none` where the check goes on.
  unfoldable pub check_token : Config → Request → Option Verdict
  unfolding request_key
  check_token c r = elim (find (request_key c r.uri)) [
    | none ↦ none
    | some info ↦
        if text_eq (hash (info.md5 ++ r.timestamp)) r.token
        then some permitted
        else some unvalid_token
  ]

  unfoldable pub check_time : Config → ℤ → Request → Option ℤ → Option Verdict
  unfolding check_token
  check_time c now r none = some unvalid_timestamp
  check_time c now r (some ts) =
      if ltb_ℤ (now +ℤ c.download_token_expire) ts || ltb_ℤ ts (now -ℤ c.download_token_expire)
      then some expired
      else check_token c r

  unfoldable pub check_request : Config → ℤ → Request → Option Verdict
  unfolding check_time
  check_request c now r =
      if text_eq r.token [] || text_eq r.timestamp []
      then some unvalid_request
      else check_time c now r (parse_int r.timestamp)

  module _ (secret : Text → Option Text) (verify : Text → Text → ℤ → Bool) where
    -- The check of the code of a scene. A URI shorter than the group and two slashes panics in the
    -- code, and is empty here.
    unfoldable pub check_google : Config → Request → Verdict
    check_google c r = elim (secret (before b'/' (before b'?' (drop (length c.group + 2) r.uri)))) [
      | none ↦ permitted
      | some s ↦
          if verify s r.code (quotient c.download_token_expire 30) then permitted else invalid_code
    ]

    -- `CheckDownloadAuth`, with the answers of `IsPeer` and `CheckAuth`
    unfoldable pub check_download_auth : Config → ℤ → Bool → Bool → Request → Verdict
    unfolding check_request check_google
    check_download_auth c now peer auth r =
        let google = if c.enable_google_auth && not peer then check_google c r else permitted in
        if c.enable_download_auth && not (text_eq c.auth_url []) && not peer && not auth
        then auth_fail
        else if c.download_use_token && not peer
        then elim (check_request c now r) [ some verdict ↦ verdict | none ↦ google ]
        else google
