-- ===== src/Console/UploadQueue/Laws.antt =====
-- The table and the queue of files stay in step, and a failed reply is an error.
use go_fastdfs.Prelude.{
  ℕ, ◌≡◌, refl, ap, ◌≢◌, Bool, true, false, not, ◌&&◌, ◌||◌, List, [], ◌∷◌, ◌++◌, map, arith,
  if◌then◌else◌, ◌==◌, Bool-cases, inl, inr,
}
use go_fastdfs.Prelude.Text.{Text, text_eq}
use go_fastdfs.Console.UploadQueue.{
  Queue, Row, failed, Actions, buttons, link, choose, preview, new_row, on_delete, on_error,
  on_done, on_progress, at_row, delete_file, remove_row, mark_failed, mark_uploaded, show_reload,
  percent_text,
}

abbrev pub keys : List (ℕ × Text) → List ℕ
keys [] = []
keys ((i, name) ∷ files) = i ∷ keys files

abbrev has : ℕ → List ℕ → Bool
has k [] = false
has k (j ∷ js) = k == j || has k js

abbrev cons_open : Actions → ℕ → List ℕ → List ℕ
cons_open (buttons shown) i is = i ∷ is
cons_open (link url) i is = is

-- The rows that have no link yet
abbrev pub open_rows : List Row → List ℕ
open_rows [] = []
open_rows (r ∷ rows) = cons_open r.actions r.index (open_rows rows)

-- What layui and the user do.
pub data Event : Type 0 where
  choose_files : List (ℕ × Text) → Event
  read_file : ℕ → Text → Event
  delete_row error : ℕ → Event
  done : ℕ → Text → ℕ → Event
  progress : ℕ → ℕ → Text → Event

-- The files that the events choose, and those that they upload or delete
abbrev pub chosen : List Event → List ℕ
chosen [] = []
chosen (choose_files files ∷ es) = keys files ++ chosen es
chosen (_ ∷ es) = chosen es

abbrev pub finished : List Event → List ℕ
finished [] = []
finished (delete_row i ∷ es) = i ∷ finished es
finished (done state url i ∷ es) = let rest = finished es in if state == 200 then i ∷ rest else rest
finished (_ ∷ es) = finished es

has-append : (k : ℕ) (xs ys : List ℕ) → has k (xs ++ ys) ≡ (has k xs || has k ys)
has-append k [] ys = refl
has-append k (x ∷ xs) ys = ground (arith, has-append k xs ys)

keys-append : (xs ys : List (ℕ × Text)) → keys (xs ++ ys) ≡ keys xs ++ keys ys
keys-append [] ys = refl
keys-append ((i, n) ∷ xs) ys = ap (λ t. i ∷ t) (keys-append xs ys)

has-delete_file :
    (k i : ℕ) (files : List (ℕ × Text))
    → has k (keys (delete_file i files)) ≡ (not (k == i) && has k (keys files))
unfolding delete_file
has-delete_file k i [] = ground arith
has-delete_file k i ((j, name) ∷ files) = ground (arith, has-delete_file k i files)

abbrev is_open : Actions → Bool
is_open (buttons shown) = true
is_open (link url) = false

has-cons_open :
    (k : ℕ) (a : Actions) (j : ℕ) (is : List ℕ)
    → has k (cons_open a j is) ≡ (is_open a && k == j || has k is)
has-cons_open k (buttons shown) j is = refl
has-cons_open k (link url) j is = refl

has-remove_row :
    (k i : ℕ) (rows : List Row)
    → has k (open_rows (remove_row i rows)) ≡ (not (k == i) && has k (open_rows rows))
unfolding remove_row
has-remove_row k i [] = ground arith
has-remove_row k i (r ∷ rows) = ground (
  arith,
  has-remove_row k i rows,
  has-cons_open k r.actions r.index (open_rows rows),
  has-cons_open k r.actions r.index (open_rows (remove_row i rows)),
)

has-mark_uploaded :
    (k : ℕ) (url : Text) (i : ℕ) (rows : List Row)
    → (k == i) ≡ false
    → has k (open_rows (at_row i (mark_uploaded url) rows)) ≡ has k (open_rows rows)
unfolding at_row mark_uploaded
has-mark_uploaded k url i [] h = refl
has-mark_uploaded k url i (r ∷ rows) h = ground (
  arith,
  has-mark_uploaded k url i rows h,
  has-cons_open k r.actions r.index (open_rows rows),
  has-cons_open k r.actions r.index (open_rows (at_row i (mark_uploaded url) rows)),
)

has_open-append :
    (k : ℕ) (xs ys : List Row)
    → has k (open_rows (xs ++ ys)) ≡ (has k (open_rows xs) || has k (open_rows ys))
has_open-append k [] ys = refl
has_open-append k (r ∷ xs) ys = ground (
  arith,
  has_open-append k xs ys,
  has-cons_open k r.actions r.index (open_rows xs),
  has-cons_open k r.actions r.index (open_rows (xs ++ ys)),
)

open_rows-progress :
    (p name : Text) (rows : List Row)
    → open_rows (map (λ r. if text_eq r.name name then record r { percent = p } else r) rows)
      ≡ open_rows rows
open_rows-progress p name [] = refl
open_rows-progress p name (r ∷ rows) = ground (arith, open_rows-progress p name rows)

-- A file that is queued has a row with no link, or is still read.
abbrev pub in_step : ℕ → Queue → Bool
in_step k q = not (has k (keys q.files)) || (has k (open_rows q.rows) || has k (keys q.reading))

abbrev pub IsInStep : Queue → Type 0
IsInStep q = (k : ℕ) → in_step k q ≡ true

-- A file that was queued, or is chosen by the events, is queued, or is uploaded or deleted by them.
abbrev pub is_kept : ℕ → List Event → Queue → Queue → Bool
is_kept k events q t =
    not (has k (keys q.files) || has k (chosen events))
    || (has k (keys t.files) || has k (finished events))

open_rows-mark_failed :
    (i : ℕ) (rows : List Row) → open_rows (at_row i mark_failed rows) ≡ open_rows rows
unfolding at_row mark_failed
open_rows-mark_failed i [] = refl
open_rows-mark_failed i (r ∷ rows) = ground (arith, open_rows-mark_failed i rows)

mark_failed_idem : (r : Row) → mark_failed (mark_failed r) ≡ mark_failed r
unfolding mark_failed
mark_failed_idem r =
    ap (λ a. record r { status = failed; actions = a }) (show_reload_idem r.actions)
  where
    show_reload_idem : (a : Actions) → show_reload (show_reload a) ≡ show_reload a
    show_reload_idem (buttons shown) = refl
    show_reload_idem (link url) = refl

at_row-mark_failed_idem :
    (i : ℕ) (rows : List Row)
    → at_row i mark_failed (at_row i mark_failed rows) ≡ at_row i mark_failed rows
unfolding at_row
at_row-mark_failed_idem i [] = refl
at_row-mark_failed_idem i (r ∷ rows) =
    ground (arith, at_row-mark_failed_idem i rows, mark_failed_idem r)

-- A reply that reports no success does what an error does.
pub on_done-on_error :
    (state : ℕ) (url : Text) (i : ℕ) (q : Queue)
    → state ≢ 200
    → on_done state url i q ≡ on_error i q
unfolding on_done
on_done-on_error state url i q h = ground (arith, at_row-mark_failed_idem i q.rows)

in_step_more :
    (f c o r : Bool) → (not f || (o || r)) ≡ true → (not (f || c) || (o || (r || c))) ≡ true
in_step_more f c o r h = ground arith

in_step_read :
    (f o e r : Bool)
    → (not f || (o || r)) ≡ true
    → (not f || ((o || (e || false)) || (not e && r))) ≡ true
in_step_read f o e r h = ground arith

in_step_less :
    (f o e r : Bool) → (not f || (o || r)) ≡ true → (not (not e && f) || ((not e && o) || r)) ≡ true
in_step_less f o e r h = ground arith

kept_more : (f c d x : Bool) → (not ((f || c) || d) || x) ≡ true → (not (f || (c || d)) || x) ≡ true
kept_more f c d x h = ground arith

kept_less :
    (f e c t g : Bool)
    → (not ((not e && f) || c) || (t || g)) ≡ true
    → (not (f || c) || (t || (e || g))) ≡ true
kept_less f e c t g h = ground arith

kept_same : (a b : Bool) → (not (a || false) || (a || b)) ≡ true
kept_same a b = ground arith

module _ (to_fixed : ℕ → ℕ → ℕ) where
  pub handle : Event → Queue → Queue
  handle (choose_files files) q = choose files q
  handle (read_file i name) q = preview i name q
  handle (delete_row i) q = on_delete i q
  handle (error i) q = on_error i q
  handle (done state url i) q = on_done state url i q
  handle (progress loaded total name) q = on_progress to_fixed loaded total name q

  pub run : List Event → Queue → Queue
  run [] q = q
  run (e ∷ events) q = run events (handle e q)

  in_step-handle :
      (k : ℕ) (e : Event) (q : Queue) → in_step k q ≡ true → in_step k (handle e q) ≡ true
  unfolding handle
  in_step-handle k (choose_files files) q h =
      unfold choose in
      rw (keys-append, keys-append, has-append, has-append)
        (in_step_more (has k (keys q.files)) (has k (keys files)) (has k (open_rows q.rows))
          (has k (keys q.reading)) h)
  in_step-handle k (read_file i name) q h =
      unfold preview new_row in
      rw (has_open-append, has-delete_file)
        (in_step_read (has k (keys q.files)) (has k (open_rows q.rows)) (k == i)
          (has k (keys q.reading)) h)
  in_step-handle k (delete_row i) q h =
      unfold on_delete in
      rw (has-delete_file, has-remove_row)
        (in_step_less (has k (keys q.files)) (has k (open_rows q.rows)) (k == i)
          (has k (keys q.reading)) h)
  in_step-handle k (error i) q h = unfold on_error in rw open_rows-mark_failed h
  in_step-handle k (done state url i) q h = elim (Bool-cases (state == 200)) [
    | inl e ↦ elim (Bool-cases (k == i)) [
      | inl f ↦ unfold on_done in rw (e, has-delete_file, f) refl
      | inr f ↦ unfold on_done in rw (e, has-delete_file, f, has-mark_uploaded k url i q.rows f) h
    ]
    | inr e ↦ unfold on_done on_error in rw (e, open_rows-mark_failed, open_rows-mark_failed) h
  ]
  in_step-handle k (progress loaded total name) q h =
      unfold on_progress in
      rw (open_rows-progress (percent_text (to_fixed loaded total)) name q.rows) h

  has-handle :
      (k : ℕ) (e : Event) (events : List Event) (q t : Queue)
      → is_kept k events (handle e q) t ≡ true
      → is_kept k (e ∷ events) q t ≡ true
  unfolding handle choose preview on_delete on_done on_error on_progress
  has-handle k (choose_files files) events q t h = rw has-append (
      kept_more (has k (keys q.files)) (has k (keys files)) (has k (chosen events)) _
        (rw (keys-append, has-append) at h))
  has-handle k (read_file i name) events q t h = h
  has-handle k (delete_row i) events q t h =
      kept_less (has k (keys q.files)) (k == i) (has k (chosen events)) (has k (keys t.files))
        (has k (finished events)) (rw has-delete_file at h)
  has-handle k (error i) events q t h = h
  has-handle k (done state url i) events q t h = elim (Bool-cases (state == 200)) [
    | inl e ↦ rw e (
        kept_less (has k (keys q.files)) (k == i) (has k (chosen events)) (has k (keys t.files))
          (has k (finished events)) (rw (e, has-delete_file) at h))
    | inr e ↦ rw e (rw e at h)
  ]
  has-handle k (progress loaded total name) events q t h = h

  -- Whatever the order in which files are chosen, read, deleted and uploaded, with errors and reports
  -- of progress between, a file that is queued has a row with no link or is still read, and a file that
  -- was queued or is chosen is queued until it is uploaded or deleted.
  pub run-IsInStep :
      (events : List Event) (q : Queue)
      → IsInStep q
      → IsInStep (run events q) × ((k : ℕ) → is_kept k events q (run events q) ≡ true)
  unfolding run
  run-IsInStep [] q h = (h, λ k. kept_same (has k (keys q.files)) false)
  run-IsInStep (e ∷ events) q h =
      let (i, kept) = run-IsInStep events (handle e q) (λ k. in_step-handle k e q (h k)) in
      (i, λ k. has-handle k e events q (run events (handle e q)) (kept k))
