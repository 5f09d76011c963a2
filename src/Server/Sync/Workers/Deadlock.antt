-- ===== src/Server/Sync/Workers/Deadlock.antt =====
-- Where the workers of `ConsumerPostToPeer` (server/fileserver.go) wait for themselves.
use go_fastdfs.Prelude.{
  ℕ, zero, suc, ◌+◌, ◌-◌, ◌≤◌, ◌≡◌, refl, ap, ◌∙◌, true, List, [], ◌∷◌, ◌++◌, arith, length,
  length-append, append_assoc, append-nil, replicate, length-replicate,
}
use go_fastdfs.Server.Types.{FileInfo, Config}
use go_fastdfs.Server.Sync.{World, Effect, saved, queued, error_logged, post_file_to_peer}
use go_fastdfs.Server.Sync.Queue.{is_full}
use go_fastdfs.Server.Sync.Drain.{room, is_full-room}
use go_fastdfs.Server.Sync.Workers.{
  worker, caller, Process, idle, busy, sending, ended, Move, take, save, log_error, enter, send,
  rest, over, Step, now, later, begin, Run, here, next,
}
use go_fastdfs.Server.Sync.Workers.Takes.{takes_move, takes_step, takes}

-- A worker that waits in the loop of `AppendToQueue`, or another goroutine that is not behind it
abbrev pub Waits : Process → Type 0
Waits idle = ⊥
Waits (busy worker []) = ⊥
Waits (busy worker (saved i ∷ es)) = ⊥
Waits (busy worker (queued i ∷ es)) = Unit
Waits (busy worker (error_logged i ∷ es)) = ⊥
Waits (busy caller es) = Unit
Waits (sending k i es) = ⊥
Waits ended = Unit

abbrev pub AllWait : List Process → Type 0
AllWait [] = Unit
AllWait (p ∷ ps) = Waits p × AllWait ps

Move-AllWait :
    {c : Config} {q r : List FileInfo} {p o : Process} (m : Move c q p r o)
    → is_full q ≡ true
    → Waits p
    → (r ≡ q) × Waits o × (takes_move m ≡ 0)
Move-AllWait (take w info) f h = elim h [ ]
Move-AllWait (save {k = worker}) f h = elim h [ ]
Move-AllWait (save {k = caller}) f h = (refl, tt, refl)
Move-AllWait (log_error {k = worker}) f h = elim h [ ]
Move-AllWait (log_error {k = caller}) f h = (refl, tt, refl)
Move-AllWait (enter n) f h = absurd (ground arith)
Move-AllWait (send n) f h = elim h [ ]
Move-AllWait rest f h = elim h [ ]
Move-AllWait over f h = (refl, tt, refl)

Step-AllWait :
    {c : Config} {q r : List FileInfo} {ps os : List Process} (s : Step c q ps r os)
    → is_full q ≡ true
    → AllWait ps
    → (r ≡ q) × AllWait os × (takes_step s ≡ 0)
Step-AllWait (now m) f (h, hs) = let (e, w, n) = Move-AllWait m f h in (e, (w, hs), n)
Step-AllWait (later s) f (h, hs) = let (e, w, n) = Step-AllWait s f hs in (e, (h, w), n)
Step-AllWait (begin es) f h = (refl, (tt, tt), refl)

Run-AllWait :
    {c : Config} {q : List FileInfo} {ps : List Process} {r : List FileInfo} {os : List Process}
    (run : Run c q ps r os)
    → is_full q ≡ true
    → AllWait ps
    → (r ≡ q) × AllWait os × (takes run ≡ 0)
Run-AllWait here f h = (refl, h, refl)
Run-AllWait (next run s) f h =
    let (e, w, n) = Run-AllWait run f h in
    let (e', w', n') = Step-AllWait s (ap is_full e ∙ f) w in (e' ∙ e, w', omega arith)

Run-trans :
    {c : Config} {q : List FileInfo} {ps : List Process} {r : List FileInfo} {os : List Process}
    {t : List FileInfo} {us : List Process}
    → Run c q ps r os
    → Run c r os t us
    → Run c q ps t us
Run-trans run here = run
Run-trans run (next more s) = next (Run-trans run more) s

Step-behind :
    {c : Config} {q r : List FileInfo} {ps os : List Process} (us : List Process)
    → Step c q ps r os
    → Step c q (us ++ ps) r (us ++ os)
Step-behind [] s = s
Step-behind (u ∷ us) s = later (Step-behind us s)

AllWait-append : (ps os : List Process) → AllWait ps → AllWait os → AllWait (ps ++ os)
AllWait-append [] os h g = g
AllWait-append (p ∷ ps) os h g = (h.0, AllWait-append ps os h.1 g)

AllWait-replicate : (n : ℕ) (p : Process) → Waits p → AllWait (replicate n p)
AllWait-replicate zero p h = tt
AllWait-replicate (suc n) p h = (h, AllWait-replicate n p h)

replicate-add {ℓ} :
    {A : Type ℓ} (a : A) (k m : ℕ) → replicate (k + m) a ≡ replicate k a ++ replicate m a
replicate-add a zero m = ap (λ n. replicate n a) (omega arith)
replicate-add a (suc k) m =
    let e : suc k + m ≡ suc (k + m) = omega arith in
    ap (λ n. replicate n a) e ∙ ap (◌∷◌ a) (replicate-add a k m)

is_full_above : (q : List FileInfo) → length q ≡ suc room → is_full q ≡ true
unfolding is_full
is_full_above q h = rw h refl

module _ (c : Config) (w : World) (info i : FileInfo) (es : List Effect)
    (again : (post_file_to_peer c w info).1 ≡ queued i ∷ es) where
  -- A call of `AppendToQueue` from outside
  append_one :
      (q : List FileInfo) (ps : List Process)
      → length q ≤ room
      → Run c q ps (q ++ info ∷ []) (ps ++ ended ∷ [])
  append_one q ps h =
      let s : Step c q (ps ++ []) q (ps ++ busy caller (queued info ∷ []) ∷ []) =
        Step-behind ps (begin (queued info ∷ [])) in
      let first : Step c q ps q (ps ++ busy caller (queued info ∷ []) ∷ []) = rw append-nil at s in
      next
        (next (next (next here first) (Step-behind ps (now (enter (is_full-room q h)))))
          (Step-behind ps (now (send (omega arith)))))
        (Step-behind ps (now over))

  abbrev waiting : Process
  waiting = busy worker (queued i ∷ es)

  append_many :
      (n : ℕ) (q : List FileInfo) (ps : List Process)
      → length q + n ≤ suc room
      → Run c q ps (q ++ replicate n info) (ps ++ replicate n ended)
  append_many zero q ps h = rw (append-nil, append-nil) here
  append_many (suc n) q ps h =
      let more =
        append_many n (q ++ info ∷ []) (ps ++ ended ∷ [])
          (omega (arith, length-append q (info ∷ []))) in
      Run-trans (append_one q ps (omega arith))
        (rw (append_assoc q (info ∷ []), append_assoc ps (ended ∷ [])) at more)

  Run-later :
      {q : List FileInfo} {p : Process} {ps : List Process} {r : List FileInfo} {os : List Process}
      → Run c q ps r os
      → Run c q (p ∷ ps) r (p ∷ os)
  Run-later here = here
  Run-later (next run s) = next (Run-later run) (later s)

  take_one :
      (q : List FileInfo) (ps : List Process) → Step c (info ∷ q) (idle ∷ ps) q (waiting ∷ ps)
  take_one q ps =
      let s : Step c (info ∷ q) (idle ∷ ps) q (busy worker (post_file_to_peer c w info).1 ∷ ps) =
        now (take w info) in
      rw again at s

  take_many :
      (k : ℕ) (q : List FileInfo) (ps : List Process)
      → Run c (replicate k info ++ q) (replicate k idle ++ ps) q (replicate k waiting ++ ps)
  take_many zero q ps = here
  take_many (suc k) q ps =
      Run-trans (next here (take_one (replicate k info ++ q) (replicate k idle ++ ps)))
        (Run-later (take_many k q ps))

  deadlock :
      (k m : ℕ)
      → k + m ≡ suc room
      → (q : List FileInfo) × (ps : List Process) × Run c [] (replicate k idle) q ps
        × (is_full q ≡ true)
        × AllWait ps
  deadlock k m e =
      let ends = replicate (k + m) ended in
      let filled = append_many (k + m) [] (replicate k idle) (omega arith) in
      let taken =
        Run-trans (rw (replicate-add info k m) at filled) (take_many k (replicate m info) ends) in
      let again_full =
        append_many k (replicate m info) (replicate k waiting ++ ends)
          (omega (arith, length-replicate m info)) in
      (
        replicate m info ++ replicate k info,
        (replicate k waiting ++ ends) ++ replicate k ended,
        Run-trans taken again_full,
        is_full_above (replicate m info ++ replicate k info) (
            length-append (replicate m info) (replicate k info)
            ∙ omega (arith, length-replicate m info, length-replicate k info)),
        AllWait-append (replicate k waiting ++ ends) (replicate k ended)
            (AllWait-append (replicate k waiting) ends (AllWait-replicate k waiting tt)
              (AllWait-replicate (k + m) ended tt))
            (AllWait-replicate k ended tt),
      )

  -- Where a peer does not answer, so that postFileToPeer queues a file again, and there are at most
  -- 9001 workers, which wait at the empty queue: there is a run of workers and of calls of
  -- AppendToQueue behind which, whatever else is called, no worker takes a file again, and no file
  -- comes into the queue.
  pub deadlock_reached :
      (k : ℕ)
      → k ≤ suc room
      → (q : List FileInfo) × (ps : List Process) × Run c [] (replicate k idle) q ps
        × ((r : List FileInfo) (os : List Process) (run : Run c q ps r os)
            → (r ≡ q) × (takes run ≡ 0))
  deadlock_reached k h =
      let (q, ps, run, full, wait) = deadlock k (suc room - k) (omega arith) in
      (q, ps, run, λ r os more. let (e, w, n) = Run-AllWait more full wait in (e, n))
