-- ===== src/Server/Sync/Drain.antt =====
-- The queue of the files that are posted to the peers (server/fileserver.go) comes to an end.
use go_fastdfs.Prelude.{
  ℕ, zero, suc, ◌+◌, ◌-◌, ◌≤◌, ◌<◌, ◌≡◌, refl, inl, inr, Bool, true, false, not, ◌&&◌, ◌||◌, some,
  List, [], ◌∷◌, ◌++◌, if◌then◌else◌, length, arith, Bool-cases, Option-cases,
}
use go_fastdfs.Prelude.Int.{pos, pos_part, leb_ℤ}
use go_fastdfs.Prelude.Text.{Text}
use go_fastdfs.Prelude.TextSet.{contains}
use go_fastdfs.Server.Types.{FileInfo, Config}
use go_fastdfs.Server.Sync.{
  World, Reply, Effect, saved, queued, error_logged, accepted, retried, on_reply, post_to,
  peer_step, post_loop, post_file_to_peer, sent_path, sized, is_migrated,
}
use go_fastdfs.Server.Sync.Queue.{is_full, append_to_queue, append_queued, consume}

-- 2 to the power k
unfoldable pub doubled : ℕ → ℕ
doubled zero = 1
doubled (suc k) = doubled k + doubled k

doubled_pos : (k : ℕ) → 1 ≤ doubled k
unfolding doubled
doubled_pos zero = omega arith
doubled_pos (suc k) = omega (arith, doubled_pos k)

-- How often a file can be taken from the queue, its copies and their copies included: twice as often
-- with each retry that is left
abbrev pub most_posts : Config → ℕ → ℕ
most_posts c retry = doubled (suc (pos_part c.retry_count) - retry)

-- The same for the files of a queue, and for those that are queued
abbrev pub total : Config → List FileInfo → ℕ
total c [] = 0
total c (info ∷ q) = most_posts c info.retry + total c q

abbrev pub total_queued : Config → List Effect → ℕ
total_queued c [] = 0
total_queued c (saved i ∷ es) = total_queued c es
total_queued c (queued i ∷ es) = most_posts c i.retry + total_queued c es
total_queued c (error_logged i ∷ es) = total_queued c es

total_queued-append :
    (c : Config) (es fs : List Effect)
    → total_queued c (es ++ fs) ≡ total_queued c es + total_queued c fs
total_queued-append c [] fs = omega arith
total_queued-append c (saved i ∷ es) fs = total_queued-append c es fs
total_queued-append c (queued i ∷ es) fs = omega (arith, total_queued-append c es fs)
total_queued-append c (error_logged i ∷ es) fs = total_queued-append c es fs

-- A part of `postFileToPeer` pays for the copies that it queues with the retries of the file.
abbrev Spends : Config → FileInfo → FileInfo × List Effect → Type 0
Spends c info (i, es) = total_queued c es + most_posts c i.retry ≤ most_posts c info.retry

most_posts-suc :
    (c : Config) (r : ℕ)
    → r ≤ pos_part c.retry_count
    → most_posts c r ≡ most_posts c (suc r) + most_posts c (suc r)
most_posts-suc c r h =
    let e : suc (pos_part c.retry_count) - r ≡ suc (suc (pos_part c.retry_count) - suc r) =
      omega arith in
    rw e (unfold doubled in refl)

retried-Spends : (c : Config) (info : FileInfo) (r : Reply) → Spends c info (retried c info r)
unfolding retried
retried-Spends c info r = elim (Bool-cases (r.failed && leb_ℤ (pos info.retry) c.retry_count)) [
  | inl e ↦ rw e (omega (arith, most_posts-suc c info.retry (ground arith)))
  | inr e ↦ rw e (omega arith)
]

total_queued-logs :
    (c : Config) (b : Bool) (i : FileInfo)
    → total_queued c (if b then error_logged i ∷ [] else []) ≡ 0
total_queued-logs c true i = refl
total_queued-logs c false i = refl

on_reply-Spends :
    (c : Config) (peer : Text) (info : FileInfo) (r : Reply)
    → Spends c info (on_reply c peer info r)
unfolding on_reply
on_reply-Spends c peer info r =
    let s = retried-Spends c info r in
    let (i, es) = retried c info r in
    let logs = if not (accepted r) || r.failed then error_logged i ∷ [] else [] in
    let z = total_queued-logs c (not (accepted r) || r.failed) i in
    elim (Bool-cases (accepted r && not (contains peer i.peers))) [
      | inl e ↦ rw e (
          omega (
            arith,
            s,
            z,
            total_queued-append c es (logs ++ _ ∷ []),
            total_queued-append c logs (_ ∷ []),
          ))
      | inr e ↦ rw e (omega (arith, s, z, total_queued-append c es logs))
    ]

post_to-Spends :
    (c : Config) (w : World) (peer : Text) (info : FileInfo) → Spends c info (post_to c w peer info)
unfolding post_to
post_to-Spends c w peer info =
    elim (Bool-cases
      (not (is_migrated info.offset) && c.enable_distinct_file && w.has_file peer info.md5)) [
        | inl e ↦ rw e (omega arith)
        | inr e ↦ rw e (on_reply-Spends c peer info (w.post peer info))
      ]

peer_step-Spends :
    (c : Config) (w : World) (peer : Text) (info : FileInfo)
    → Spends c info (peer_step c w peer info)
unfolding peer_step
peer_step-Spends c w peer info = elim (Bool-cases (contains peer info.peers)) [
  | inl e ↦ rw e (omega arith)
  | inr e ↦ elim (Option-cases (w.stat (sent_path c info))) [
    | inl f ↦ rw (e, f) (omega arith)
    | inr (size, f) ↦
        rw (e, f) (post_to-Spends c w peer (record info { size = sized size info.size }))
  ]
]

post_loop-Spends :
    (c : Config) (w : World) (peers : List Text) (info : FileInfo)
    → Spends c info (post_loop c w peers info)
unfolding post_loop
post_loop-Spends c w [] info = omega arith
post_loop-Spends c w (peer ∷ peers) info =
    let (i, es) = peer_step c w peer info in
    omega (
      arith,
      peer_step-Spends c w peer info,
      post_loop-Spends c w peers i,
      total_queued-append c es (post_loop c w peers i).1,
    )

-- The copies of one round weigh less than the file.
pub total_queued-lt :
    (c : Config) (w : World) (info : FileInfo)
    → total_queued c (post_file_to_peer c w info).1 < most_posts c info.retry
unfolding post_file_to_peer
total_queued-lt c w info = omega (
  arith,
  post_loop-Spends c w c.peers info,
  doubled_pos (suc (pos_part c.retry_count) - (post_loop c w c.peers info).0.retry),
)

length-le-total : (c : Config) (q : List FileInfo) → length q ≤ total c q
length-le-total c [] = omega arith
length-le-total c (info ∷ q) =
    omega (arith, length-le-total c q, doubled_pos (suc (pos_part c.retry_count) - info.retry))

pub total-append :
    (c : Config) (q : List FileInfo) (info : FileInfo)
    → total c (q ++ info ∷ []) ≡ total c q + most_posts c info.retry
total-append c [] info = omega arith
total-append c (i ∷ q) info = omega (arith, total-append c q info)

-- The files that a queue holds before its appenders wait
abbrev pub room : ℕ
room = 9000

pub is_full-room : (q : List FileInfo) → length q ≤ room → is_full q ≡ false
unfolding is_full
is_full-room q h = ground arith

append_queued-total :
    (c : Config) (es : List Effect) (q : List FileInfo)
    → total c q + total_queued c es ≤ room
    → (q' : List FileInfo) × (append_queued es q ≡ some q')
      × (total c q' ≡ total c q + total_queued c es)
unfolding append_queued append_to_queue
append_queued-total c [] q h = (q, refl, omega arith)
append_queued-total c (saved i ∷ es) q h = append_queued-total c es q h
append_queued-total c (queued i ∷ es) q h =
    let t = total-append c q i in
    let (q', e, f) = append_queued-total c es (q ++ i ∷ []) (omega arith) in
    (q', rw (is_full-room q (omega (arith, length-le-total c q))) e, omega arith)
append_queued-total c (error_logged i ∷ es) q h = append_queued-total c es q h

-- The worker empties the queue, whatever the peers answer in each round: a file and its copies are
-- taken at most 2 ^ (RetryCount + 1 - retries) times, where a negative RetryCount counts as 0, and the
-- worker does not wait for itself where the sum of these numbers over the queue is at most 9000; as
-- many rounds are enough.
pub consume-total :
    (c : Config) (w : ℕ → World) (n : ℕ) (q : List FileInfo)
    → total c q ≤ n
    → total c q ≤ room
    → consume c w n q ≡ some []
unfolding consume
consume-total c w zero [] h k = refl
consume-total c w zero (info ∷ q) h k =
    absurd (omega (arith, doubled_pos (suc (pos_part c.retry_count) - info.retry)))
consume-total c w (suc n) [] h k = refl
consume-total c w (suc n) (info ∷ q) h k =
    let lt = total_queued-lt c (w n) info in
    let (q', e, f) = append_queued-total c (post_file_to_peer c (w n) info).1 q (omega arith) in
    rw e (consume-total c w n q' (omega arith) (omega arith))
