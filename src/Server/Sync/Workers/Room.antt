-- ===== src/Server/Sync/Workers/Room.antt =====
-- The room of the queue of the files that are posted to the peers: the loop of `AppendToQueue`
-- (server/fileserver.go) leaves a tenth of it free.
use go_fastdfs.Prelude.{
  ℕ, ◌+◌, ◌≤◌, ◌≡◌, refl, ◌⊎◌, inl, inr, false, List, [], ◌∷◌, arith, length, length-append,
}
use go_fastdfs.Server.Types.{FileInfo, Config, queue_size}
use go_fastdfs.Server.Sync.Queue.{is_full}
use go_fastdfs.Server.Sync.Drain.{room}
use go_fastdfs.Server.Sync.Workers.{
  Process, idle, busy, sending, ended, Move, take, save, log_error, enter, send, rest, over, Step,
  now, later, begin, Run, here, next,
}

-- The goroutines that are in `AppendToQueue` behind its loop
abbrev pub is_sending : Process → ℕ
is_sending idle = 0
is_sending (busy k es) = 0
is_sending (sending k i es) = 1
is_sending ended = 0

abbrev pub senders : List Process → ℕ
senders [] = 0
senders (p ∷ ps) = is_sending p + senders ps

senders-le-length : (ps : List Process) → senders ps ≤ length ps
senders-le-length [] = omega arith
senders-le-length (idle ∷ ps) = omega (arith, senders-le-length ps)
senders-le-length (busy k es ∷ ps) = omega (arith, senders-le-length ps)
senders-le-length (sending k i es ∷ ps) = omega (arith, senders-le-length ps)
senders-le-length (ended ∷ ps) = omega (arith, senders-le-length ps)

room_of_enter : (q : List FileInfo) → is_full q ≡ false → length q ≤ room
unfolding is_full
room_of_enter q h = ground arith

-- A move puts no more into the queue than it announced, unless there was room.
Move-room :
    {c : Config} {q r : List FileInfo} {p o : Process}
    → Move c q p r o
    → (length r + is_sending o ≤ length q + is_sending p) ⊎ ((r ≡ q) × (length q ≤ room))
Move-room (take w info) = inl (omega arith)
Move-room save = inl (omega arith)
Move-room log_error = inl (omega arith)
Move-room {q} (enter h) = inr (refl, room_of_enter q h)
Move-room {q} (send {i = i} h) = inl (omega (arith, length-append q (i ∷ [])))
Move-room rest = inl (omega arith)
Move-room over = inl (omega arith)

Step-room :
    {c : Config} {q r : List FileInfo} {ps os : List Process}
    → Step c q ps r os
    → (length r + senders os ≤ length q + senders ps) ⊎ (length r ≤ room)
Step-room (now m) = elim (Move-room m) [ inl h ↦ inl (omega arith) | inr (e, h) ↦ inr (rw e h) ]
Step-room (later s) = elim (Step-room s) [ inl h ↦ inl (omega arith) | inr h ↦ inr h ]
Step-room (begin es) = inl (omega arith)

Step-length :
    {c : Config} {q r : List FileInfo} {ps os : List Process}
    → Step c q ps r os
    → length ps ≤ length os
Step-length (now m) = omega arith
Step-length (later s) = omega (arith, Step-length s)
Step-length (begin es) = omega arith

-- The queue, and what is on its way into it, stay within nine tenths of the channel and one file for
-- each goroutine.
abbrev IsWithin : List FileInfo → List Process → Type 0
IsWithin q ps = length q + senders ps ≤ room + length ps

Step-IsWithin :
    {c : Config} {q r : List FileInfo} {ps os : List Process}
    → Step c q ps r os
    → IsWithin q ps
    → IsWithin r os
Step-IsWithin {os} s h = elim (Step-room s) [
  | inl k ↦ omega (arith, Step-length s)
  | inr k ↦ omega (arith, senders-le-length os)
]

Run-IsWithin :
    {c : Config} {q : List FileInfo} {ps : List Process} {r : List FileInfo} {os : List Process}
    → Run c q ps r os
    → IsWithin q ps
    → IsWithin r os
Run-IsWithin here h = h
Run-IsWithin (next run s) h = Step-IsWithin s (Run-IsWithin run h)

-- From a queue that is at most nine tenths full, with no goroutine behind the loop of AppendToQueue:
-- in any order of the steps, as long as there have been at most 1000 goroutines, the channel has room
-- for each goroutine that has passed the loop, so that only the loop makes it wait.
pub Run-has_room :
    {c : Config} {q : List FileInfo} {ps : List Process} {r : List FileInfo} {os : List Process}
    → Run c q ps r os
    → length q ≤ room
    → senders ps ≡ 0
    → length os ≤ 1000
    → length r + senders os ≤ queue_size
Run-has_room run h none few = omega (arith, Run-IsWithin run (omega arith))
