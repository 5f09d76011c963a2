-- ===== src/Tests/Reload.antt =====
-- A configuration that is set and reloaded (server/http_reload.go) at concrete data.
use go_fastdfs.Prelude.{◌≡◌, refl, true, Option, none, some, [], ◌∷◌, if◌then◌else◌}
use go_fastdfs.Prelude.Text.{Text, lit, text_eq, has_prefix}
use go_fastdfs.Prelude.Split.{split}
use go_fastdfs.Server.Types.{Config}
use go_fastdfs.Server.Reload.{
  App, done, addresses_from, dotted, take_digits, clean_peers, put_scenes, with_host, with_defaults,
  init_component, parse_config, set_config, reload_file, act, reload,
}
use go_fastdfs.Server.Reload.Applied.{ArePeers, is_kept, secret_of, or_else, reload-init_component}
use go_fastdfs.Tests.Data.{cfg}

abbrev ip : Text
ip = lit "10.0.0.1"

abbrev new : Config
new = record cfg {
  host = [];
  peers = lit "10.0.0.1:8080" ∷ lit "10.0.0.2:8080" ∷ [];
  scenes = lit "a:new" ∷ lit "b:c:d" ∷ [];
}

abbrev parse : Text → Option Config
parse [] = none
parse (b ∷ s) = some new

abbrev print : Config → Text
print c = lit "{}"

abbrev secrets : Text → Option Text
secrets k = if text_eq k (lit "old") then some (lit "kept") else none

abbrev app : App
app = record {
  config = record cfg { admin_key = lit "key" };
  host = lit "http://10.0.0.1:8080";
  secrets = secrets;
  file = none;
}

abbrev set : App
set = (reload parse print ip 2 true (lit "{}") (lit "set") (lit "key") app).0

abbrev after : App
after = (reload parse print ip 2 true [] (lit "reload") (lit "key") set).0

reload-init_component_example :
    ((reload parse print ip 2 true (lit "{}") (lit "set") (lit "key") app).1 ≡ done)
    × ((reload parse print ip 2 true [] (lit "reload") (lit "key") set).1 ≡ done)
    × (set.config ≡ app.config)
    × ArePeers ip new.peers after.config.peers
    × ((p : Text) → is_kept ip new.peers after.config.peers p ≡ true)
    × ((k : Text) → after.secrets k ≡ or_else (secret_of new.scenes k) (secrets k))
unfolding text_eq
reload-init_component_example =
    reload-init_component parse print ip 2 app (lit "key") (lit "{}") new refl refl refl refl refl
      []

peers_by_run : after.config.peers ≡ lit "http://10.0.0.2:8080" ∷ []
unfolding reload act set_config reload_file init_component parse_config with_host with_defaults
    clean_peers addresses_from dotted take_digits text_eq has_prefix split
peers_by_run = refl

host_by_run : after.host ≡ lit "http://10.0.0.1:8080"
unfolding reload act set_config reload_file init_component parse_config with_host with_defaults
    text_eq has_prefix split
host_by_run = refl

-- A secret of a scene that the configuration no longer has stays.
secret_by_run : after.secrets (lit "old") ≡ some (lit "kept")
unfolding reload act set_config reload_file init_component parse_config with_host with_defaults
    put_scenes text_eq split
secret_by_run = refl
