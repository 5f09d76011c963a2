-- ===== src/Server/Sync/Workers/Takes.antt =====
-- How often the workers of `ConsumerPostToPeer` (server/fileserver.go) take a file from their queue.
use go_fastdfs.Prelude.{ℕ, ◌+◌, ◌≤◌, List, [], ◌∷◌, arith}
use go_fastdfs.Server.Types.{FileInfo, Config}
use go_fastdfs.Server.Sync.Drain.{most_posts, total, total_queued, total_queued-lt, total-append}
use go_fastdfs.Server.Sync.Workers.{
  Process, idle, busy, sending, ended, Move, take, save, log_error, enter, send, rest, over, Step,
  now, later, begin, Run, here, next,
}

-- What the goroutines have still to queue, with the copies and their copies
abbrev pub weight : Config → Process → ℕ
weight c idle = 0
weight c (busy k es) = total_queued c es
weight c (sending k i es) = most_posts c i.retry + total_queued c es
weight c ended = 0

abbrev pub load : Config → List Process → ℕ
load c [] = 0
load c (p ∷ ps) = weight c p + load c ps

abbrev pub takes_move : {c : Config} {q r : List FileInfo} {p o : Process} → Move c q p r o → ℕ
takes_move (take w info) = 1
takes_move save = 0
takes_move log_error = 0
takes_move (enter h) = 0
takes_move (send h) = 0
takes_move rest = 0
takes_move over = 0

-- The files that a step takes from the queue, and what it brings from outside
abbrev pub takes_step :
    {c : Config} {q r : List FileInfo} {ps os : List Process} → Step c q ps r os → ℕ
takes_step (now m) = takes_move m
takes_step (later s) = takes_step s
takes_step (begin es) = 0

abbrev pub brings_step :
    {c : Config} {q r : List FileInfo} {ps os : List Process} → Step c q ps r os → ℕ
brings_step (now m) = 0
brings_step (later s) = brings_step s
brings_step {c} (begin es) = total_queued c es

abbrev pub takes :
    {c : Config} {q : List FileInfo} {ps : List Process} {r : List FileInfo} {os : List Process}
    → Run c q ps r os
    → ℕ
takes here = 0
takes (next r s) = takes r + takes_step s

abbrev pub brings :
    {c : Config} {q : List FileInfo} {ps : List Process} {r : List FileInfo} {os : List Process}
    → Run c q ps r os
    → ℕ
brings here = 0
brings (next r s) = brings r + brings_step s

Move-spends :
    {c : Config} {q r : List FileInfo} {p o : Process} (m : Move c q p r o)
    → takes_move m + (total c r + weight c o) ≤ total c q + weight c p
Move-spends {c} (take w info) = omega (arith, total_queued-lt c w info)
Move-spends save = omega arith
Move-spends log_error = omega arith
Move-spends (enter h) = omega arith
Move-spends {c} {q} (send {i = i} h) = omega (arith, total-append c q i)
Move-spends rest = omega arith
Move-spends over = omega arith

Step-spends :
    {c : Config} {q r : List FileInfo} {ps os : List Process} (s : Step c q ps r os)
    → takes_step s + (total c r + load c os) ≤ total c q + (load c ps + brings_step s)
Step-spends (now m) = omega (arith, Move-spends m)
Step-spends (later s) = omega (arith, Step-spends s)
Step-spends (begin es) = omega arith

-- In any order of the steps of any number of workers, whatever the peers answer and whoever calls
-- AppendToQueue meanwhile: the files that are taken are at most the sum, over the files that are in
-- the queue, that goroutines have still to queue, or that are brought from outside, of
-- 2 ^ (RetryCount + 1 - retries), where a negative RetryCount counts as 0, less the same sum at the
-- end.
pub takes-total :
    {c : Config} {q : List FileInfo} {ps : List Process} {r : List FileInfo} {os : List Process}
    (run : Run c q ps r os)
    → takes run + (total c r + load c os) ≤ total c q + load c ps + brings run
takes-total here = omega arith
takes-total (next run s) = omega (arith, takes-total run, Step-spends s)
