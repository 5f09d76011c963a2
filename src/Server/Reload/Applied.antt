-- ===== src/Server/Reload/Applied.antt =====
-- A configuration that is set and reloaded (server/http_reload.go), and who can do so.
use go_fastdfs.Prelude.{
  map, ℕ, zero, ◌≡◌, refl, ◌∙◌, sym, ap, ◌⊎◌, inl, inr, Bool, true, false, not, ◌||◌, Option, none,
  some, List, [], ◌∷◌, if◌then◌else◌, arith, Bool-cases, Option-cases,
}
use go_fastdfs.Prelude.Text.{Text, lit, text_eq, text_eq_sound, text_eq_refl, has_prefix}
use go_fastdfs.Prelude.TextSet.{contains}
use go_fastdfs.Prelude.Split.{split}
use go_fastdfs.Server.Types.{Config}
use go_fastdfs.Server.Reload.{
  App, Answer, done, not_permitted, key_required, key_wrong, is_own, with_scheme, addresses_from,
  dotted, take_digits, clean_peers, put_scene, put_scenes, with_host, with_defaults, init_component,
  parse_config, port_of, set_config, reload_file, act, reload,
}

addresses-with_scheme :
    (peer : Text) → addresses_from zero (with_scheme peer) ≡ addresses_from zero peer
addresses-with_scheme peer = elim (Bool-cases (has_prefix peer (lit "http"))) [
  | inl e ↦ rw e refl
  | inr e ↦ rw e (unfold addresses_from dotted take_digits text_eq in refl)
]

prefix-with_scheme : (peer : Text) → has_prefix (with_scheme peer) (lit "http") ≡ true
prefix-with_scheme peer = elim (Bool-cases (has_prefix peer (lit "http"))) [
  | inl e ↦ rw e e
  | inr e ↦ rw e (unfold has_prefix in refl)
]

-- Every peer has a scheme and is one of the configured peers with its scheme, and none is this server.
abbrev pub ArePeers : Text → List Text → List Text → Type 0
ArePeers ip configured [] = Unit {0}
ArePeers ip configured (q ∷ qs) =
    (has_prefix q (lit "http") ≡ true)
    × (is_own ip q ≡ false)
    × (contains q (map with_scheme configured) ≡ true)
    × ArePeers ip configured qs

ArePeers-more :
    (ip peer : Text) (configured qs : List Text)
    → ArePeers ip configured qs
    → ArePeers ip (peer ∷ configured) qs
ArePeers-more ip peer configured [] h = tt
ArePeers-more ip peer configured (q ∷ qs) (a, b, c, h) =
    (a, b, ground (arith, c), ArePeers-more ip peer configured qs h)

clean_peers-ArePeers : (ip : Text) (peers : List Text) → ArePeers ip peers (clean_peers ip peers)
unfolding clean_peers
clean_peers-ArePeers ip [] = tt
clean_peers-ArePeers ip (peer ∷ peers) =
    let rest = ArePeers-more ip peer peers (clean_peers ip peers) (clean_peers-ArePeers ip peers) in
    elim (Bool-cases (is_own ip peer)) [
      | inl e ↦ rw e rest
      | inr e ↦ rw e (
        prefix-with_scheme peer,
        ap (λ found. contains ip found || contains (lit "127.0.0.1") found)
              (addresses-with_scheme peer)
            ∙ e,
        ap (λ b. b || contains (with_scheme peer) (map with_scheme peers))
            (text_eq_refl (with_scheme peer)),
        rest,
      )
    ]

-- A peer that is configured is this server, or is kept.
abbrev pub is_kept : Text → List Text → List Text → Text → Bool
is_kept ip peers kept p = not (contains p peers) || is_own ip p || contains (with_scheme p) kept

is_kept_own : (a o b : Bool) → o ≡ true → (not a || o || b) ≡ true
is_kept_own a o b h = ground arith

is_kept_same : (a o b c : Bool) → b ≡ true → (not a || o || (b || c)) ≡ true
is_kept_same a o b c h = ground arith

is_kept_more : (a o b c : Bool) → (not a || o || c) ≡ true → (not a || o || (b || c)) ≡ true
is_kept_more a o b c h = ground arith

clean_peers-is_kept :
    (ip : Text) (peers : List Text) (p : Text) → is_kept ip peers (clean_peers ip peers) p ≡ true
unfolding clean_peers
clean_peers-is_kept ip [] p = refl
clean_peers-is_kept ip (peer ∷ peers) p =
    let kept = clean_peers ip peers in
    elim (Bool-cases (is_own ip peer)) [
      | inl own ↦ elim (Bool-cases (text_eq p peer)) [
        | inl e ↦ rw own (
            is_kept_own (contains p (peer ∷ peers)) _ _
              (ap (is_own ip) (text_eq_sound p peer e) ∙ own))
        | inr e ↦ rw (own, e) (clean_peers-is_kept ip peers p)
      ]
      | inr other ↦ elim (Bool-cases (text_eq p peer)) [
        | inl e ↦ rw other (
            is_kept_same (contains p (peer ∷ peers)) (is_own ip p) _ (contains (with_scheme p) kept)
              (ap (λ x. text_eq (with_scheme p) (with_scheme x)) (sym (text_eq_sound p peer e))
                ∙ text_eq_refl (with_scheme p)))
        | inr e ↦
            rw (other, e)
              (is_kept_more (contains p peers) (is_own ip p)
                (text_eq (with_scheme p) (with_scheme peer)) (contains (with_scheme p) kept)
                (clean_peers-is_kept ip peers p))
      ]
    ]

-- The secret that a list of scenes gives last to a scene
abbrev pub secret_in : List Text → Text → Option Text
secret_in (scene ∷ secret ∷ []) k = if text_eq k scene then some secret else none
secret_in _ k = none

abbrev pub or_else : Option Text → Option Text → Option Text
or_else none o = o
or_else (some a) o = some a

abbrev pub secret_of : List Text → Text → Option Text
secret_of [] k = none
secret_of (s ∷ ss) k = or_else (secret_of ss k) (secret_in (split b':' s) k)

put_scene-secret_in :
    (parts : List Text) (f : Text → Option Text) (k : Text)
    → put_scene parts f k ≡ or_else (secret_in parts k) (f k)
put_scene-secret_in [] f k = refl
put_scene-secret_in (a ∷ []) f k = refl
put_scene-secret_in (a ∷ b ∷ []) f k = ground arith
put_scene-secret_in (a ∷ b ∷ c ∷ more) f k = refl

or_else_assoc : (a b c : Option Text) → or_else a (or_else b c) ≡ or_else (or_else a b) c
or_else_assoc none b c = refl
or_else_assoc (some x) b c = refl

put_scenes-secret_of :
    (ss : List Text) (f : Text → Option Text) (k : Text)
    → put_scenes ss f k ≡ or_else (secret_of ss k) (f k)
unfolding put_scenes
put_scenes-secret_of [] f k = refl
put_scenes-secret_of (s ∷ ss) f k =
    put_scenes-secret_of ss (put_scene (split b':' s) f) k
    ∙ ap (or_else (secret_of ss k)) (put_scene-secret_in (split b':' s) f k)
    ∙ or_else_assoc (secret_of ss k) (secret_in (split b':' s) k) (f k)

-- The host is all that `with_host` changes of these.
with_host_keeps :
    (ip : Text) (app : App)
    → ((with_host ip app).config.peers ≡ app.config.peers)
      × ((with_host ip app).config.scenes ≡ app.config.scenes)
      × ((with_host ip app).secrets ≡ app.secrets)
unfolding with_host
with_host_keeps ip app = elim (Bool-cases (text_eq app.config.host [])) [
  | inl e ↦ elim (Option-cases (port_of (split b':' app.config.addr))) [
    | inl f ↦ rw (e, f) (refl, refl, refl)
    | inr (port, f) ↦ rw (e, f) (refl, refl, refl)
  ]
  | inr e ↦ rw e (refl, refl, refl)
]

peers-init_component :
    (ip : Text) (cpus : ℕ) (app : App)
    → (init_component ip cpus app).config.peers ≡ clean_peers ip app.config.peers
unfolding init_component with_defaults
peers-init_component ip cpus app = ap (clean_peers ip) (with_host_keeps ip app).0

secrets-init_component :
    (ip : Text) (cpus : ℕ) (app : App) (k : Text)
    → (init_component ip cpus app).secrets k
      ≡ or_else (secret_of app.config.scenes k) (app.secrets k)
unfolding init_component
secrets-init_component ip cpus app k =
    let a = with_host ip app in
    put_scenes-secret_of a.config.scenes a.secrets k
    ∙ ap (λ ss. or_else (secret_of ss k) (a.secrets k)) (with_host_keeps ip app).1
    ∙ ap (λ f. or_else (secret_of app.config.scenes k) (f k)) (with_host_keeps ip app).2

abbrev is_refusal : Answer → Bool
is_refusal not_permitted = true
is_refusal key_required = true
is_refusal key_wrong = true
is_refusal _ = false

module _ (parse : Text → Option Config) (print : Config → Text) (ip : Text) (cpus : ℕ) (app : App)
    (key : Text) where
  -- A request that is no peer's, or has not the key of the configuration, or has an empty one, is
  -- refused, so that it is not shown the configuration, and changes nothing.
  pub reload_guarded :
      (is_peer : Bool) (cfgjson action : Text)
      → let (t, answer) = reload parse print ip cpus is_peer cfgjson action key app in
        ((is_refusal answer ≡ true) × (t ≡ app))
        ⊎ ((is_peer ≡ true) × (key ≡ app.config.admin_key) × (text_eq key [] ≡ false))
  unfolding reload
  reload_guarded false cfgjson action = inl (refl, refl)
  reload_guarded true cfgjson action = elim (Bool-cases (text_eq key [])) [
    | inl e ↦ inl (rw e (refl, refl))
    | inr e ↦ elim (Bool-cases (text_eq key app.config.admin_key)) [
      | inl f ↦ inr (refl, text_eq_sound key app.config.admin_key f, e)
      | inr f ↦ inl (rw (e, f) (refl, refl))
    ]
  ]

  module _ (cfgjson : Text) (cfg : Config) (given : text_eq cfgjson [] ≡ false)
      (read : parse cfgjson ≡ some cfg) (printed : parse (print cfg) ≡ some cfg)
      (has_key : text_eq key [] ≡ false) (right : text_eq key app.config.admin_key ≡ true) where
    abbrev with_file : App
    with_file = record app { file = some (print cfg) }

    reload_set : reload parse print ip cpus true cfgjson (lit "set") key app ≡ (with_file, done)
    unfolding reload act set_config text_eq
    reload_set = rw (has_key, right) (rw (given, read) refl)

    reload_again :
        (other : Text)
        → reload parse print ip cpus true other (lit "reload") key with_file
          ≡ (init_component ip cpus (parse_config cfg with_file), done)
    unfolding reload act reload_file text_eq
    reload_again other = rw (has_key, right) (rw printed refl)

    -- What is set with the right key does not change the running server, and is applied by the next
    -- reload: each peer then is a configured one with its scheme and not this server, each configured
    -- peer is kept or is this server, and a
    -- scene has the secret that the configuration gives it last, or else the one that it had.
    pub reload-init_component :
        (other : Text)
        → let (set, a) = reload parse print ip cpus true cfgjson (lit "set") key app in
          let (t, b) = reload parse print ip cpus true other (lit "reload") key set in
          (a ≡ done)
          × (b ≡ done)
          × (set.config ≡ app.config)
          × ArePeers ip cfg.peers t.config.peers
          × ((p : Text) → is_kept ip cfg.peers t.config.peers p ≡ true)
          × ((k : Text) → t.secrets k ≡ or_else (secret_of cfg.scenes k) (app.secrets k))
    unfolding parse_config
    reload-init_component other =
        let e = peers-init_component ip cpus (parse_config cfg with_file) in
        rw (reload_set, reload_again other)
          (
            refl,
            refl,
            refl,
            rw e (clean_peers-ArePeers ip cfg.peers),
            (λ p. rw e (clean_peers-is_kept ip cfg.peers p)),
            (λ k. secrets-init_component ip cpus (parse_config cfg with_file) k),
          )
