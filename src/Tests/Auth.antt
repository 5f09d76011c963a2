-- ===== src/Tests/Auth.antt =====
-- Peers and tokens (server/fileserver.go, server/http_download.go) at concrete data.
use go_fastdfs.Prelude.{◌≡◌, refl, ◌↔◌, true, false, none, some, [], ◌∷◌, ◌++◌, arith}
use go_fastdfs.Prelude.Int.{pos, ◌+ℤ◌, ◌-ℤ◌}
use go_fastdfs.Prelude.Text.{lit, text_eq, has_prefix}
use go_fastdfs.Prelude.Decimal.{parse_int}
use go_fastdfs.Server.Types.{FileInfo, Config, out_name}
use go_fastdfs.Server.Meta.{full_path}
use go_fastdfs.Server.Paths.{url_query, build_file_result, get_file_path_by_info}
use go_fastdfs.Server.Auth.{Request, permitted, request_key, check_download_auth}
use go_fastdfs.Server.Auth.Token.{
  IsToken, check_download_auth-IsToken, check_download_auth-IsTimed, IsTimed,
  request_key-build_file_result,
}
use go_fastdfs.Tests.Data.{cfg, hello}
use go_fastdfs.Tests.Meta.{hash}
use go_fastdfs.Tests.Paths.{doc}

abbrev guarded : Config
guarded = record cfg { download_use_token = true }

abbrev known : FileInfo
known = record hello { md5 = lit "5d" }

abbrev request : Request
request = record {
  uri = lit "/group1/default/a.txt";
  token = lit "path:5d100";
  timestamp = lit "100";
  code = [];
}

check_download_auth-IsToken_example :
    (check_download_auth hash
        (λ k. some known)
        (λ s. none)
        (λ s code n. false)
        guarded
        (pos 90)
        false
        false
        request
      ≡ permitted)
    ↔ IsToken hash (λ k. some known) (λ s. none) (λ s code n. false) guarded (pos 90) known request
check_download_auth-IsToken_example =
    check_download_auth-IsToken hash (λ k. some known) (λ s. none) (λ s code n. false) guarded
      (pos 90) false request known refl refl refl

abbrev stranger : Request
stranger = record request { token = lit "x" }

check_download_auth-IsTimed_example :
    (check_download_auth hash
        (λ k. none)
        (λ s. none)
        (λ s code n. false)
        guarded
        (pos 90)
        false
        false
        stranger
      ≡ permitted)
    ↔ IsTimed hash (λ k. none) (λ s. none) (λ s code n. false) guarded (pos 90) stranger
check_download_auth-IsTimed_example =
    check_download_auth-IsTimed hash (λ k. none) (λ s. none) (λ s code n. false) guarded (pos 90)
      false stranger refl refl refl refl

stranger_by_run :
    check_download_auth hash
      (λ k. none)
      (λ s. none)
      (λ s code n. false)
      guarded
      (pos 90)
      false
      false
      stranger
    ≡ permitted
unfolding check_download_auth text_eq parse_int ◌+ℤ◌ ◌-ℤ◌
stranger_by_run = refl

request_key-build_file_result_example :
    request_key hash (λ k. none) cfg ((build_file_result cfg doc none).0.path ++ url_query cfg doc)
    ≡ hash (cfg.docker_dir ++ full_path doc)
request_key-build_file_result_example =
    request_key-build_file_result hash (λ k. none) cfg doc none (lit "default/20240102") refl refl
      (unfold out_name in omega arith) (unfold get_file_path_by_info out_name in omega arith)
      (unfold has_prefix url_query out_name in refl)

-- A client at 10.1.14.15, where the peer is 10.1.14.150
abbrev prefixed : Config
prefixed = record cfg { peers = lit "http://10.1.14.150:8080" ∷ [] }
