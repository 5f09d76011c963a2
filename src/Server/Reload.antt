-- ===== src/Server/Reload.antt =====
-- Requests for the configuration: `Reload` of server/http_reload.go, `ParseConfig` of server/config.go,
-- and `initComponent` of server/init.go as it is called by `Reload`.
pub mod Applied
use go_fastdfs.Prelude.{
  ℕ, zero, suc, ◌-◌, ◌+◌, Bool, true, false, not, ◌&&◌, ◌||◌, Option, none, some, List, [], ◌∷◌,
  ◌++◌, if◌then◌else◌, ◌==◌, leb, ltb, length, drop,
}
use go_fastdfs.Prelude.Int.{ℤ, pos, negsuc}
use go_fastdfs.Prelude.Text.{Text, lit, text_eq, has_prefix}
use go_fastdfs.Prelude.TextSet.{contains}
use go_fastdfs.Prelude.Split.{split}
use go_fastdfs.Server.Types.{Config}

abbrev pub is_digit : ℕ → Bool
is_digit b = leb 48 b && leb b 57

unfoldable pub take_digits : Text → Text
take_digits [] = []
take_digits (b ∷ s) = let rest = take_digits s in if is_digit b then b ∷ rest else []

abbrev pub after_dot : Text → Option Text
after_dot [] = none
after_dot (b ∷ s) = if b == b'.' then some s else none

abbrev pub in_front : Text → Option Text → Option Text
in_front ds none = none
in_front ds (some rest) = some (ds ++ (b'.' ∷ rest))

-- Numbers with so many dots between them, at the start of a text
unfoldable pub dotted : ℕ → Text → Option Text
dotted zero s = if text_eq (take_digits s) [] then none else some (take_digits s)
dotted (suc n) s =
    let ds = take_digits s in
    if text_eq ds [] then none else elim (after_dot (drop (length ds) s)) [
      | none ↦ none
      | some rest ↦ in_front ds (dotted n rest)
    ]

-- `FindAllString` of the expression for four numbers with dots; the number counts the bytes of a match
-- that are still to be skipped.
unfoldable pub addresses_from : ℕ → Text → List Text
addresses_from k [] = []
addresses_from (suc k) (b ∷ s) = addresses_from k s
addresses_from zero (b ∷ s) = elim (dotted 3 (b ∷ s)) [
  | none ↦ addresses_from zero s
  | some a ↦ a ∷ addresses_from (length a - 1) s
]

abbrev pub is_own : Text → Text → Bool
is_own ip peer =
    contains ip (addresses_from zero peer) || contains (lit "127.0.0.1") (addresses_from zero peer)

abbrev pub with_scheme : Text → Text
with_scheme peer = if has_prefix peer (lit "http") then peer else lit "http://" ++ peer

-- The peers but this server, each with its scheme
unfoldable pub clean_peers : Text → List Text → List Text
clean_peers ip [] = []
clean_peers ip (peer ∷ peers) =
    let rest = clean_peers ip peers in if is_own ip peer then rest else with_scheme peer ∷ rest

abbrev pub or_default : ℤ → ℤ → ℤ
or_default d (pos zero) = d
or_default d (pos (suc n)) = pos (suc n)
or_default d (negsuc n) = negsuc n

unfoldable pub with_defaults : ℕ → Config → Config
with_defaults cpus c = record c {
  read_timeout = or_default (pos 600) c.read_timeout;
  write_timeout = or_default (pos 600) c.write_timeout;
  sync_worker = or_default (pos 200) c.sync_worker;
  upload_worker = or_default (pos (if ltb cpus 4 then 8 else cpus + 4)) c.upload_worker;
  upload_queue_size = or_default (pos 200) c.upload_queue_size;
  retry_count = or_default (pos 3) c.retry_count;
  sync_delay = or_default (pos 60) c.sync_delay;
  watch_chan_size = or_default (pos 100000) c.watch_chan_size;
  image_max_width = or_default (pos 2000) c.image_max_width;
  image_max_height = or_default (pos 2000) c.image_max_height;
}

-- The configuration, `server.host`, the secrets of the scenes (`sceneMap`), and the file cfg.json
pub record App : Type 0 where
  pub config : Config
  pub host : Text
  pub secrets : Text → Option Text
  pub file : Option Text

abbrev pub port_of : List Text → Option Text
port_of (a ∷ port ∷ []) = some port
port_of _ = none

-- The host of a configuration: its own, or the address with the port that is listened to
unfoldable pub with_host : Text → App → App
with_host ip app =
    let c = app.config in
    if text_eq c.host []
    then elim (port_of (split b':' c.addr)) [
      | none ↦ app
      | some port ↦
          let host = lit "http://" ++ (ip ++ (b':' ∷ port)) in
          record app { host = host; config = record c { host = host } }
    ]
    else record app {
      host = if has_prefix c.host (lit "http") then c.host else lit "http://" ++ c.host;
    }

abbrev pub put : Text → Text → (Text → Option Text) → Text → Option Text
put key value f k = if text_eq k key then some value else f k

abbrev pub put_scene : List Text → (Text → Option Text) → Text → Option Text
put_scene (scene ∷ secret ∷ []) f = put scene secret f
put_scene _ f = f

unfoldable pub put_scenes : List Text → (Text → Option Text) → Text → Option Text
put_scenes [] f = f
put_scenes (s ∷ ss) f = put_scenes ss (put_scene (split b':' s) f)

-- `initComponent(true)`, with the address of the server and the number of its processors
unfoldable pub init_component : Text → ℕ → App → App
init_component ip cpus app =
    let a = with_host ip app in
    let c = record a.config { peers = clean_peers ip a.config.peers } in
    record a { config = with_defaults cpus c; secrets = put_scenes c.scenes a.secrets }

abbrev pub dotted_extensions : List Text → List Text
dotted_extensions [] = []
dotted_extensions (e ∷ es) = (if has_prefix e (lit ".") then e else b'.' ∷ e) ∷ dotted_extensions es

-- `ParseConfig` of a text that is a configuration; `DOCKER_DIR` is none of its fields.
unfoldable pub parse_config : Config → App → App
parse_config c app = record app {
  config = record c {
    extensions = dotted_extensions c.extensions;
    docker_dir = app.config.docker_dir;
  };
}

-- What `Reload` answers
pub data Answer : Type 0 where
  not_permitted key_required key_wrong cfg_required bad_cfg no_file bad_file usage nothing : Answer
  done : Answer
  shown : Config → Answer

module _ (parse : Text → Option Config) (print : Config → Text) (ip : Text) (cpus : ℕ) where
  unfoldable pub set_config : Text → App → App × Answer
  set_config cfgjson app =
      if text_eq cfgjson [] then (app, cfg_required) else elim (parse cfgjson) [
        | none ↦ (app, bad_cfg)
        | some cfg ↦ (record app { file = some (print cfg) }, done)
      ]

  unfoldable pub reload_file : App → App × Answer
  reload_file app = elim app.file [
    | none ↦ (app, no_file)
    | some t ↦ elim (parse t) [
      | none ↦ (app, bad_file)
      | some cfg ↦ (init_component ip cpus (parse_config cfg app), done)
    ]
  ]

  unfoldable pub act : Text → Text → App → App × Answer
  act action cfgjson app =
      if text_eq action (lit "get")
      then (app, shown app.config)
      else if text_eq action (lit "set")
      then set_config cfgjson app
      else if text_eq action (lit "reload")
      then reload_file app
      else (app, if text_eq action [] then usage else nothing)

  -- `Reload`, with the answer of `IsPeer` and the values cfg, action and key of the form
  unfoldable pub reload : Bool → Text → Text → Text → App → App × Answer
  reload is_peer cfgjson action key app =
      if not is_peer
      then (app, not_permitted)
      else if text_eq key []
      then (app, key_required)
      else if not (text_eq key app.config.admin_key)
      then (app, key_wrong)
      else act action cfgjson app
