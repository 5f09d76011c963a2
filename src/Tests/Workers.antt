-- ===== src/Tests/Workers.antt =====
-- The workers of `ConsumerPostToPeer` (server/fileserver.go) at concrete data.
use go_fastdfs.Prelude.{◌+◌, ◌≤◌, ◌≡◌, refl, List, [], ◌∷◌, arith, length, replicate}
use go_fastdfs.Prelude.Text.{text_eq, has_prefix}
use go_fastdfs.Server.Types.{FileInfo, queue_size}
use go_fastdfs.Server.Sync.{Effect, queued, post_file_to_peer}
use go_fastdfs.Server.Sync.Drain.{total, is_full-room}
use go_fastdfs.Server.Sync.Workers.{
  Process, worker, idle, busy, ended, enter, send, over, take, now, later, begin, Run, here, next,
}
use go_fastdfs.Server.Sync.Workers.Takes.{load, takes, brings, takes-total}
use go_fastdfs.Server.Sync.Workers.Room.{senders, Run-has_room}
use go_fastdfs.Server.Sync.Workers.Deadlock.{deadlock_reached}
use go_fastdfs.Tests.Data.{hello}
use go_fastdfs.Tests.Sync.{one, world}

-- What `postFileToPeer` does with a file whose peer does not answer
abbrev effects : List Effect
effects = (post_file_to_peer one world hello).1

abbrev again : FileInfo
again = record hello { retry = 1 }

queued_again : (es : List Effect) × (effects ≡ queued again ∷ es)
unfolding post_file_to_peer text_eq has_prefix
queued_again = (_, refl)

-- A file is queued from outside, and one of two workers takes it.
abbrev two : List Process
two = idle ∷ idle ∷ []

run : Run one [] two [] (idle ∷ busy worker effects ∷ ended ∷ [])
run =
    next
      (next
        (next
          (next (next here (later (later (begin (queued hello ∷ [])))))
            (later (later (now (enter (is_full-room [] (omega arith)))))))
          (later (later (now (send (omega arith))))))
        (later (later (now over))))
      (later (now (take world hello)))

takes-total_example :
    takes run + (total one [] + load one (idle ∷ busy worker effects ∷ ended ∷ []))
    ≤ total one [] + load one two + brings run
takes-total_example = takes-total run

Run-has_room_example :
    length {A = FileInfo} [] + senders (idle ∷ busy worker effects ∷ ended ∷ []) ≤ queue_size
Run-has_room_example = Run-has_room run (omega arith) refl (omega arith)

deadlock_reached_example :
    (q : List FileInfo) × (ps : List Process) × Run one [] (replicate 200 idle) q ps
    × ((r : List FileInfo) (os : List Process) (run : Run one q ps r os)
        → (r ≡ q) × (takes run ≡ 0))
deadlock_reached_example =
    let (es, e) = queued_again in deadlock_reached one world hello again es e 200 (omega arith)
