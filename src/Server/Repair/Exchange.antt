-- ===== src/Server/Repair/Exchange.antt =====
-- What two servers exchange in a repair (server/http_repair.go, server/http_info.go).
use go_fastdfs.Prelude.{
  ◌≡◌, ◌≢◌, refl, ◌∙◌, sym, ap, inl, inr, Option-cases, Bool-cases, Bool, true, false, not, ◌&&◌,
  ◌||◌, Option, none, some, List, [], ◌∷◌, arith,
}
use go_fastdfs.Prelude.Text.{Text, text_eq, text_eq_refl, text_eq_sound, text_eq-false}
use go_fastdfs.Prelude.TextSet.{contains}
use go_fastdfs.Prelude.Split.{split}
use go_fastdfs.Server.Database.{is_some}
use go_fastdfs.Server.Types.{FileInfo, file_log}
use go_fastdfs.Server.Repair.{
  get_md5s_by_date, get_md5s_for_web, not_empty, union, difference, differences, Queued, to_peers,
  from_peers, queue_found, receive_md5s,
}
use go_fastdfs.Server.Repair.Sets.{
  contains-union, contains-difference, contains-not_empty, AllLack, contains-split-join,
  AllLack-not_empty, AllLack-union, AllLack-difference,
}

-- What goutil documents of a set as text with commas
pub record IsSetText (str_to_set : Text → List Text) (set_to_str : List Text → Text) : Type 0 where
  pub contains-str_to_set : (m s : Text) → contains m (str_to_set s) ≡ contains m (split b',' s)
  pub AllLack-str_to_set : (s : Text) → AllLack b',' (str_to_set s)
  pub contains-set_to_str :
      (m : Text) (set : List Text)
      → AllLack b',' set
      → m ≢ []
      → contains m (split b',' (set_to_str set)) ≡ contains m set

-- The hashes of the records that are queued
abbrev pub hashes : List Queued → List Text
hashes [] = []
hashes (to_peers info ∷ qs) = info.md5 ∷ hashes qs
hashes (from_peers info ∷ qs) = info.md5 ∷ hashes qs

-- A record that is found under one of the hashes has this hash.
abbrev pub IsKeyed : (Text → Option FileInfo) → List Text → Type 0
IsKeyed find set =
    (k : Text) (info : FileInfo) → contains k set ≡ true → find k ≡ some info → info.md5 ≡ k

found_none :
    (find : Text → Option FileInfo) (x : Text) (set : List Text)
    → find x ≡ none
    → queue_found find (x ∷ set) ≡ queue_found find set
unfolding queue_found
found_none find x set h = rw (queue_found, h) refl

found_some :
    (find : Text → Option FileInfo) (x : Text) (set : List Text) (info : FileInfo)
    → find x ≡ some info
    → queue_found find (x ∷ set) ≡ to_peers info ∷ queue_found find set
unfolding queue_found
found_some find x set info h = rw (queue_found, h) refl

and_false : (a : Bool) → (a && false) ≡ false
and_false true = refl
and_false false = refl

contains-queue_found :
    (find : Text → Option FileInfo) (m : Text) (set : List Text)
    → IsKeyed find set
    → contains m (hashes (queue_found find set)) ≡ (contains m set && is_some (find m))
contains-queue_found find m [] k = unfold queue_found in refl
contains-queue_found find m (x ∷ set) k =
    let ih = contains-queue_found find m set (λ y info c h. k y info (ground (arith, c)) h) in
    let here : contains x (x ∷ set) ≡ true = ap (λ b. b || contains x set) (text_eq_refl x) in
    elim (Option-cases (find x)) [
      | inl h ↦ elim (Bool-cases (text_eq m x)) [
        | inl e ↦
            let none_m : find m ≡ none = ap find (text_eq_sound m x e) ∙ h in
            rw (found_none find x set h, ih, none_m) (and_false _ ∙ sym (and_false _))
        | inr e ↦ rw (found_none find x set h, e) ih
      ]
      | inr (info, h) ↦ elim (Bool-cases (text_eq m x)) [
        | inl e ↦
            let some_m : find m ≡ some info = ap find (text_eq_sound m x e) ∙ h in
            rw (found_some find x set info h, k x info here h, e, some_m) refl
        | inr e ↦ rw (found_some find x set info h, k x info here h, e) ih
      ]
    ]

only_left : (l r : Bool) → ((l || r) && not l) ≡ (r && not l)
only_left true r = ground arith
only_left false r = refl

only_right : (l r : Bool) → ((l || r) && not r) ≡ (l && not r)
only_right true r = refl
only_right false true = refl
only_right false false = refl

left_true : (a b : Bool) → (a && b) ≡ true → a ≡ true
left_true a b h = ground arith

has_byte : (k : Text) (set : List Text) → contains k (not_empty set) ≡ true → k ≢ []
has_byte k [] h e = absurd (ground arith)
has_byte k ([] ∷ set) h e = has_byte k set h e
has_byte k ((b ∷ x) ∷ set) h e =
    has_byte k set
      (sym (ap (λ c. c || contains k (not_empty set)) (text_eq-false k (b ∷ x) (differ e))) ∙ h) e
  where
    differ : k ≡ [] → k ≢ b ∷ x
    differ e f = absurd (ground (arith, sym e ∙ f))

module _ (str_to_set : Text → List Text) (set_to_str : List Text → Text)
    (sets : IsSetText str_to_set set_to_str) (keys peer_keys : List Text) (date : Text) where
  -- The hashes of the day here, and at the peer
  abbrev pub local : List Text
  local = get_md5s_by_date keys date file_log

  abbrev pub remote : List Text
  remote = get_md5s_by_date peer_keys date file_log

  abbrev received : List Text
  received = str_to_set (get_md5s_for_web peer_keys date)

  contains-received :
      (m : Text) → m ≢ [] → AllLack b',' remote → contains m received ≡ contains m remote
  unfolding get_md5s_for_web
  contains-received m n l =
      sets.contains-str_to_set m (get_md5s_for_web peer_keys date)
      ∙ contains-split-join b',' m (not_empty remote) (AllLack-not_empty b',' remote l) n
      ∙ contains-not_empty m remote n

  differences-contains :
      (m : Text)
      → m ≢ []
      → AllLack b',' local
      → AllLack b',' remote
      → let d = differences str_to_set set_to_str local (get_md5s_for_web peer_keys date) in
        (contains m (not_empty (split b',' d.asked))
          ≡ (contains m remote && not (contains m local)))
        × (contains m d.offered ≡ (contains m local && not (contains m remote)))
  unfolding differences
  differences-contains m n l r =
      let all = union local received in
      let c = contains-received m n r in
      let lacks = AllLack-union b',' local received l (sets.AllLack-str_to_set _) in
      (
        contains-not_empty m _ n
            ∙ sets.contains-set_to_str m (difference all local)
                (AllLack-difference b',' all local lacks) n
            ∙ contains-difference m all local
            ∙ ap (λ b. b && not (contains m local)) (contains-union m local received)
            ∙ ap (λ b. (contains m local || b) && not (contains m local)) c
            ∙ only_left (contains m local) (contains m remote),
        contains-difference m all received
            ∙ ap (λ b. b && not (contains m received)) (contains-union m local received)
            ∙ ap (λ b. (contains m local || b) && not b) c
            ∙ only_right (contains m local) (contains m remote),
      )

  -- What this server offers is of its day, and what it asks for of the peer's.
  offered_local :
      (k : Text)
      → contains k
          (differences str_to_set set_to_str local (get_md5s_for_web peer_keys date)).offered
        ≡ true
      → contains k local ≡ true
  unfolding differences
  offered_local k h =
      let all = union local received in
      let e =
        contains-difference k all received
        ∙ ap (λ b. b && not (contains k received)) (contains-union k local received)
        ∙ only_right (contains k local) (contains k received) in
      left_true (contains k local) (not (contains k received)) (sym e ∙ h)

  asked_remote :
      (k : Text)
      → AllLack b',' local
      → AllLack b',' remote
      → contains k (
          not_empty (
            split b','
              (differences str_to_set set_to_str local (get_md5s_for_web peer_keys date)).asked))
        ≡ true
      → contains k remote ≡ true
  asked_remote k l r h =
      let set =
        split b','
          (differences str_to_set set_to_str local (get_md5s_for_web peer_keys date)).asked in
      let e = (differences-contains k (has_byte k set h) l r).0 in
      left_true (contains k remote) (not (contains k local)) (sym e ∙ h)

  -- In a repair of a day, for each hash that is not empty: the peer queues a record with it exactly
  -- where its logs of the day have the hash, those of this server have not, and it finds a record
  -- under it; this server queues a record with it exactly where its logs have the hash, those of the
  -- peer have not, and it finds a record under it. The hashes of both days have no comma, and a record
  -- that a server finds under a hash of its day has this hash.
  pub differences-hashes :
      (find find_peer : Text → Option FileInfo) (m : Text)
      → m ≢ []
      → AllLack b',' local
      → AllLack b',' remote
      → IsKeyed find local
      → IsKeyed find_peer remote
      → let d = differences str_to_set set_to_str local (get_md5s_for_web peer_keys date) in
        (contains m (hashes (receive_md5s find_peer d.asked))
          ≡ (contains m remote && not (contains m local) && is_some (find_peer m)))
        × (contains m (hashes (queue_found find d.offered))
            ≡ (contains m local && not (contains m remote) && is_some (find m)))
  unfolding receive_md5s
  differences-hashes find find_peer m n l r k k' =
      let (a, b) = differences-contains m n l r in
      (
        contains-queue_found find_peer m _ (λ x info c h. k' x info (asked_remote x l r c) h)
            ∙ ap (λ x. x && is_some (find_peer m)) a,
        contains-queue_found find m _ (λ x info c h. k x info (offered_local x c) h)
            ∙ ap (λ x. x && is_some (find m)) b,
      )
