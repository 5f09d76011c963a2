-- ===== src/Server/Paths/Domain.antt =====
-- `BuildFileResult` writes the configured domain, which later results then use.
use go_fastdfs.Prelude.{◌≡◌, refl, true, false, [], ◌∷◌, ◌++◌, arith, Option, Bool-cases, inl, inr}
use go_fastdfs.Prelude.Text.{Text, lit, text_eq, has_prefix, has_prefix-append}
use go_fastdfs.Server.Types.{FileInfo, Config}
use go_fastdfs.Server.Paths.{
  set_domain, result_of, protocol, build_file_result, host_of, get_file_path_from_request,
  request_path, large_prefix,
}

protocol_http : (c : Config) (s : Text) → has_prefix (protocol c ++ s) (lit "http") ≡ true
protocol_http c s = elim (Bool-cases c.enable_https) [
  | inl e ↦ rw e (has_prefix-append (lit "http") (b's' ∷ s))
  | inr e ↦ rw e (has_prefix-append (lit "http") s)
]

-- The domain that a call leaves begins with `http`.
has_prefix-set_domain :
    (c : Config) (host : Option Text)
    → has_prefix (set_domain c host).download_domain (lit "http") ≡ true
unfolding set_domain
has_prefix-set_domain c host = ground (
  arith,
  protocol_http c (lit "://" ++ host_of c host),
  protocol_http c (lit "://" ++ c.download_domain),
)

set_domain_done :
    (c : Config) (host : Option Text)
    → has_prefix c.download_domain (lit "http") ≡ true
    → set_domain c host ≡ c
unfolding set_domain
set_domain_done c host h = rw h refl

not_empty_of_prefix : (s : Text) → has_prefix s (lit "http") ≡ true → text_eq s [] ≡ false
unfolding has_prefix text_eq
not_empty_of_prefix [] h = cc
not_empty_of_prefix (c ∷ s) h = refl

domain-result_of :
    (c : Config) (host : Option Text) (info : FileInfo)
    → has_prefix c.download_domain (lit "http") ≡ true
    → (result_of c host info).domain ≡ c.download_domain
unfolding result_of
domain-result_of c host info h = rw (not_empty_of_prefix c.download_domain h) refl

-- The first call fixes the domain: whatever hosts the two requests name, the second result has the
-- domain of the first, and the second call leaves the configuration as it is.
pub build_file_result_twice :
    (c : Config) (first second : Option Text) (info other : FileInfo)
    → let (r, c') = build_file_result c info first in
      let (r', c'') = build_file_result c' other second in (r'.domain ≡ r.domain) × (c'' ≡ c')
unfolding build_file_result
build_file_result_twice c first second info other =
    let h = has_prefix-set_domain c first in
    let e = set_domain_done (set_domain c first) second h in
    (
      rw
          (
            e,
            domain-result_of (set_domain c first) second other h,
            domain-result_of (set_domain c first) first info h,
          )
          refl,
      e,
    )

-- The domain does not matter to the path of a request.
pub request-set_domain :
    (c : Config) (host : Option Text) (uri : Text)
    → get_file_path_from_request (set_domain c host) uri ≡ get_file_path_from_request c uri
unfolding get_file_path_from_request request_path large_prefix set_domain
request-set_domain c host uri = elim (Bool-cases (has_prefix c.download_domain (lit "http"))) [
  | inl e ↦ rw e refl
  | inr e ↦ elim (Bool-cases (text_eq c.download_domain [])) [
    | inl f ↦ rw (e, f) refl
    | inr f ↦ rw (e, f) refl
  ]
]
