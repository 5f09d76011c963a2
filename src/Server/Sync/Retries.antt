-- ===== src/Server/Sync/Retries.antt =====
-- How often a file is tried again: the queue of `postFileToPeer`, and the guard of
-- `DownloadFromPeer`.
use go_fastdfs.Prelude.{
  ℕ, zero, suc, ◌-◌, ◌≤◌, ◌<◌, ◌≡◌, inl, inr, Bool, true, false, not, ◌&&◌, ◌||◌, none, some, List,
  [], ◌∷◌, ◌++◌, if◌then◌else◌, arith, Bool-cases, Option-cases,
}
use native.Mathlib.Decide.{dec_lt}
use go_fastdfs.Prelude.Int.{pos, pos_part, ltb_ℤ, leb_ℤ}
use go_fastdfs.Prelude.Text.{Text}
use go_fastdfs.Prelude.TextSet.{contains}
use go_fastdfs.Server.Types.{FileInfo, Config}
use go_fastdfs.Server.Sync.{
  World, Reply, Effect, saved, queued, error_logged, accepted, retried, on_reply, post_to,
  peer_step, post_loop, post_file_to_peer, sent_path, sized, is_migrated, begin_download,
}

-- The retries of the files that are queued are above one bound and at most the other.
abbrev pub QueuesBetween : ℕ → ℕ → List Effect → Type 0
QueuesBetween lo hi [] = Unit {0}
QueuesBetween lo hi (saved i ∷ es) = QueuesBetween lo hi es
QueuesBetween lo hi (queued i ∷ es) = (lo < i.retry) × (i.retry ≤ hi) × QueuesBetween lo hi es
QueuesBetween lo hi (error_logged i ∷ es) = QueuesBetween lo hi es

QueuesBetween-append :
    (lo hi : ℕ) (es fs : List Effect)
    → QueuesBetween lo hi es
    → QueuesBetween lo hi fs
    → QueuesBetween lo hi (es ++ fs)
QueuesBetween-append lo hi [] fs h k = k
QueuesBetween-append lo hi (saved i ∷ es) fs h k = QueuesBetween-append lo hi es fs h k
QueuesBetween-append lo hi (queued i ∷ es) fs (a, b, h) k =
    (a, b, QueuesBetween-append lo hi es fs h k)
QueuesBetween-append lo hi (error_logged i ∷ es) fs h k = QueuesBetween-append lo hi es fs h k

QueuesBetween-weaken :
    (lo lo' hi : ℕ) (es : List Effect) → lo ≤ lo' → QueuesBetween lo' hi es → QueuesBetween lo hi es
QueuesBetween-weaken lo lo' hi [] l h = tt
QueuesBetween-weaken lo lo' hi (saved i ∷ es) l h = QueuesBetween-weaken lo lo' hi es l h
QueuesBetween-weaken lo lo' hi (queued i ∷ es) l (a, b, h) =
    (omega arith, b, QueuesBetween-weaken lo lo' hi es l h)
QueuesBetween-weaken lo lo' hi (error_logged i ∷ es) l h = QueuesBetween-weaken lo lo' hi es l h

-- A part of `postFileToPeer`: the retries never fall, and what it queues is between the bounds.
abbrev Retries : Config → FileInfo → FileInfo × List Effect → Type 0
Retries c info (i, es) =
    (info.retry ≤ i.retry) × QueuesBetween info.retry (suc (pos_part c.retry_count)) es

retried-Retries : (c : Config) (info : FileInfo) (r : Reply) → Retries c info (retried c info r)
unfolding retried
retried-Retries c info r = elim (Bool-cases (r.failed && leb_ℤ (pos info.retry) c.retry_count)) [
  | inl e ↦ rw e (omega arith, (omega arith, ground arith, tt))
  | inr e ↦ rw e (omega arith, tt)
]

logs-QueuesBetween :
    (lo hi : ℕ) (b : Bool) (i : FileInfo)
    → QueuesBetween lo hi (if b then error_logged i ∷ [] else [])
logs-QueuesBetween lo hi true i = tt
logs-QueuesBetween lo hi false i = tt

on_reply-Retries :
    (c : Config) (peer : Text) (info : FileInfo) (r : Reply)
    → Retries c info (on_reply c peer info r)
unfolding on_reply
on_reply-Retries c peer info r =
    let (l, q) = retried-Retries c info r in
    let (i, es) = retried c info r in
    let logs = if not (accepted r) || r.failed then error_logged i ∷ [] else [] in
    let g =
      logs-QueuesBetween info.retry (suc (pos_part c.retry_count)) (not (accepted r) || r.failed)
        i in
    elim (Bool-cases (accepted r && not (contains peer i.peers))) [
      | inl e ↦ rw e (l, QueuesBetween-append _ _ es _ q (QueuesBetween-append _ _ logs _ g tt))
      | inr e ↦ rw e (l, QueuesBetween-append _ _ es logs q g)
    ]

post_to-Retries :
    (c : Config) (w : World) (peer : Text) (info : FileInfo)
    → Retries c info (post_to c w peer info)
unfolding post_to
post_to-Retries c w peer info =
    elim (Bool-cases
      (not (is_migrated info.offset) && c.enable_distinct_file && w.has_file peer info.md5)) [
        | inl e ↦ rw e (omega arith, tt)
        | inr e ↦ rw e (on_reply-Retries c peer info (w.post peer info))
      ]

peer_step-Retries :
    (c : Config) (w : World) (peer : Text) (info : FileInfo)
    → Retries c info (peer_step c w peer info)
unfolding peer_step
peer_step-Retries c w peer info = elim (Bool-cases (contains peer info.peers)) [
  | inl e ↦ rw e (omega arith, tt)
  | inr e ↦ elim (Option-cases (w.stat (sent_path c info))) [
    | inl f ↦ rw (e, f) (omega arith, tt)
    | inr (size, f) ↦
        rw (e, f) (post_to-Retries c w peer (record info { size = sized size info.size }))
  ]
]

post_loop-Retries :
    (c : Config) (w : World) (peers : List Text) (info : FileInfo)
    → Retries c info (post_loop c w peers info)
unfolding post_loop
post_loop-Retries c w [] info = (omega arith, tt)
post_loop-Retries c w (peer ∷ peers) info =
    let (i, es) = peer_step c w peer info in
    let (l, q) = peer_step-Retries c w peer info in
    let (m, r) = post_loop-Retries c w peers i in
    (
      omega arith,
      QueuesBetween-append _ _ es (post_loop c w peers i).1 q
          (QueuesBetween-weaken info.retry i.retry _ (post_loop c w peers i).1 l r),
    )

-- Each copy of a file that `postFileToPeer` queues again has been retried more often than the file,
-- and at most `RetryCount + 1` times, so the copies of copies come to an end.
post_file_to_peer-QueuesBetween :
    (c : Config) (w : World) (info : FileInfo)
    → QueuesBetween info.retry (suc (pos_part c.retry_count)) (post_file_to_peer c w info).1
unfolding post_file_to_peer
post_file_to_peer-QueuesBetween c w info = (post_loop-Retries c w c.peers info).1

-- How often `DownloadFromPeer` goes on with a file that it queues again each time
unfoldable pub attempts : ℕ → Config → FileInfo → ℕ
attempts zero c info = 0
attempts (suc f) c info = elim (begin_download c info) [ none ↦ 0 | some i ↦ suc (attempts f c i) ]

abbrev pub most_attempts : Config → ℕ
most_attempts c = if ltb_ℤ (pos 0) c.retry_count then pos_part c.retry_count else 1

pub begin_download_more :
    (c : Config) (info : FileInfo)
    → c.read_only ≡ false
    → info.retry < most_attempts c
    → begin_download c info ≡ some (record info { retry = suc info.retry })
unfolding begin_download
begin_download_more c info r h = ground arith

begin_download_end :
    (c : Config) (info : FileInfo) → most_attempts c ≤ info.retry → begin_download c info ≡ none
unfolding begin_download
begin_download_end c info h = ground arith

attempts_from :
    (f : ℕ) (c : Config) (info : FileInfo)
    → c.read_only ≡ false
    → info.retry ≤ most_attempts c
    → most_attempts c - info.retry < f
    → attempts f c info ≡ most_attempts c - info.retry
unfolding attempts
attempts_from zero c info r l h = absurd (omega arith)
attempts_from (suc f) c info r l h = elim (dec_lt info.retry (most_attempts c)) [
  | yes k ↦
      rw (attempts, begin_download_more c info r k)
        (omega (
          arith,
          attempts_from f c (record info { retry = suc info.retry }) r (omega arith) (omega arith),
        ))
  | no k ↦ rw (attempts, begin_download_end c info (omega arith)) (omega arith)
]

-- A new file that cannot be downloaded is tried `RetryCount` times, and once where no retries are
-- configured; one unit of fuel more than that is enough.
pub attempts_new :
    (f : ℕ) (c : Config) (info : FileInfo)
    → c.read_only ≡ false
    → info.retry ≡ 0
    → most_attempts c < f
    → attempts f c info ≡ most_attempts c
attempts_new f c info r z h = omega (arith, attempts_from f c info r (omega arith) (omega arith))
