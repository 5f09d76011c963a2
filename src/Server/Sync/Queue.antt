-- ===== src/Server/Sync/Queue.antt =====
-- The queue of the files that are posted to the peers: `AppendToQueue` and `ConsumerPostToPeer` of
-- server/fileserver.go, with one worker and no other source of files.
use go_fastdfs.Prelude.{
  ℕ, zero, suc, Bool, ◌+◌, Option, none, some, List, [], ◌∷◌, ◌++◌, if◌then◌else◌, ltb, length, ◌/◌,
}
use go_fastdfs.Server.Types.{FileInfo, Config, queue_size}
use go_fastdfs.Server.Sync.{World, Effect, saved, queued, error_logged, post_file_to_peer}

infixl 5 ◌>>=◌
abbrev pub ◌>>=◌ : {A B : Type 0} → Option A → (A → Option B) → Option B
none >>= f = none
some a >>= f = f a

-- The test of the loop of `AppendToQueue`: the queue is nine tenths full.
unfoldable pub is_full : List FileInfo → Bool
is_full q = ltb queue_size (length q + queue_size / 10)

-- `AppendToQueue`, where nobody takes from the queue: `none` is a loop that never ends.
unfoldable pub append_to_queue : FileInfo → List FileInfo → Option (List FileInfo)
append_to_queue info q = if is_full q then none else some (q ++ info ∷ [])

-- The calls of `AppendToQueue` in the course of `postFileToPeer`
unfoldable pub append_queued : List Effect → List FileInfo → Option (List FileInfo)
append_queued [] q = some q
append_queued (saved i ∷ es) q = append_queued es q
append_queued (queued i ∷ es) q = do q' ← append_to_queue i q; append_queued es q'
append_queued (error_logged i ∷ es) q = append_queued es q

-- `ConsumerPostToPeer` for so many rounds: the peers may answer differently in each. The result is
-- the queue that is left, or `none` where the worker waits for itself.
unfoldable pub consume : Config → (ℕ → World) → ℕ → List FileInfo → Option (List FileInfo)
consume c w zero q = some q
consume c w (suc n) [] = some []
consume c w (suc n) (info ∷ q) = do
  q' ← append_queued (post_file_to_peer c (w n) info).1 q
  consume c w n q'
