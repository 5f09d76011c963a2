-- ===== src/Server/Sync/Workers.antt =====
-- The queue of the files that are posted to the peers with all who use it: the workers of
-- `ConsumerPostToPeer` and the calls of `AppendToQueue` by others (server/fileserver.go), in any
-- order. A call of `postFileToPeer` is the list of what it does, with the answers of the peers in it.
pub mod Takes
pub mod Room
pub mod Deadlock
use go_fastdfs.Prelude.{ℕ, zero, suc, ◌+◌, ◌<◌, ◌≡◌, false, List, [], ◌∷◌, ◌++◌, length}
use go_fastdfs.Server.Types.{FileInfo, Config, queue_size}
use go_fastdfs.Server.Sync.{World, Effect, saved, queued, error_logged, post_file_to_peer}
use go_fastdfs.Server.Sync.Queue.{is_full}

-- A goroutine that ends after its calls, or a worker of `ConsumerPostToPeer`
pub data Kind : Type 0 where
  worker caller : Kind

-- Where a goroutine is: a worker at the channel, with the rest of its work, in `AppendToQueue` behind
-- the loop that waits, or at its end
pub data Process : Type 0 where
  idle : Process
  busy : Kind → List Effect → Process
  sending : Kind → FileInfo → List Effect → Process
  ended : Process

-- What a goroutine can do at a queue, and what it leaves
pub data Move (c : Config) : List FileInfo → Process → List FileInfo → Process → Type 0 where
  take :
      {q : List FileInfo} (w : World) (info : FileInfo)
      → Move c (info ∷ q) idle q (busy worker (post_file_to_peer c w info).1)
  save :
      {q : List FileInfo} {k : Kind} {i : FileInfo} {es : List Effect}
      → Move c q (busy k (saved i ∷ es)) q (busy k es)
  log_error :
      {q : List FileInfo} {k : Kind} {i : FileInfo} {es : List Effect}
      → Move c q (busy k (error_logged i ∷ es)) q (busy k es)
  -- The loop of `AppendToQueue` ends.
  enter :
      {q : List FileInfo} {k : Kind} {i : FileInfo} {es : List Effect}
      → is_full q ≡ false
      → Move c q (busy k (queued i ∷ es)) q (sending k i es)
  -- The channel has room.
  send :
      {q : List FileInfo} {k : Kind} {i : FileInfo} {es : List Effect}
      → length q < queue_size
      → Move c q (sending k i es) (q ++ i ∷ []) (busy k es)
  rest : {q : List FileInfo} → Move c q (busy worker []) q idle
  over : {q : List FileInfo} → Move c q (busy caller []) q ended

-- One goroutine moves, or a new one begins.
pub data Step (c : Config)
    : List FileInfo → List Process → List FileInfo → List Process → Type 0 where
  now :
      {q r : List FileInfo} {p o : Process} {ps : List Process}
      → Move c q p r o
      → Step c q (p ∷ ps) r (o ∷ ps)
  later :
      {q r : List FileInfo} {p : Process} {ps os : List Process}
      → Step c q ps r os
      → Step c q (p ∷ ps) r (p ∷ os)
  begin : {q : List FileInfo} (es : List Effect) → Step c q [] q (busy caller es ∷ [])

pub data Run (c : Config) (q : List FileInfo) (ps : List Process)
    : List FileInfo → List Process → Type 0 where
  here : Run c q ps q ps
  next :
      {r t : List FileInfo} {os us : List Process}
      → Run c q ps r os
      → Step c r os t us
      → Run c q ps t us
