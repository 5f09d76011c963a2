-- ===== src/Console/Dashboard/Totals.antt =====
-- What the dashboard makes of the statistics that the server sends: a list of days with the entry
-- `all` at its end.
use go_fastdfs.Prelude.{
  ℕ, zero, suc, ◌+◌, ◌-◌, ◌≡◌, refl, sym, ◌∙◌, ap, lt→ltb, none, true, false, some, List, [], ◌∷◌,
  ◌++◌, map, arith, length, drop, length-append, append_assoc, append-nil, if◌then◌else◌, ltb,
}
use mathlib.Core.Path.{ap₂}
use native.Mathlib.Decide.{dec_lt}
use go_fastdfs.Prelude.Text.{lit, text_eq, text_eq_refl}
use go_fastdfs.Console.Dashboard.{
  Day, Sums, DiskInfo, panel, megabytes, stat_step, stat_loop, start, panel_of, on_status,
}

-- No entry is called `all`.
abbrev pub AreDays : List Day → Type 0
AreDays [] = Unit {0}
AreDays (r ∷ rows) = (text_eq r.date (lit "all") ≡ false) × AreDays rows

pub sum : (Day → ℕ) → List Day → ℕ
sum f [] = 0
sum f (r ∷ rows) = f r + sum f rows

-- The sums over some days, from the entries on which `i > j` holds.
abbrev added : ℕ → ℕ → List Day → Sums → Sums
added n i days a = record {
  day_file_count = a.day_file_count + sum (λ r. r.file_count) (drop (n - 29 - i) days);
  day_file_size = a.day_file_size + sum (λ r. r.total_size) (drop (n - 29 - i) days);
  day_num_list = a.day_num_list ++ map (λ r. r.date) days;
  day_file_count_list = a.day_file_count_list ++ map (λ r. r.file_count) days;
  day_file_size_list = a.day_file_size_list ++ map (λ r. megabytes r.total_size) days;
  all = a.all;
}

-- One more day in front: dropped, or counted with all that follow.
sum-drop_step :
    (f : Day → ℕ) (n i s : ℕ) (r : Day) (days : List Day)
    → (if ltb n (i + 30) then s + f r else s) + sum f (drop (n - 29 - suc i) days)
      ≡ s + sum f (drop (n - 29 - i) (r ∷ days))
unfolding sum
sum-drop_step f n i s r days = elim (dec_lt n (i + 30)) [
  | yes h ↦
      let e : n - 29 - i ≡ 0 = omega arith in
      let e' : n - 29 - suc i ≡ 0 = omega arith in rw (e, e', lt→ltb n (i + 30) h) (omega arith)
  | no h ↦
      let e : n - 29 - i ≡ suc (n - 29 - suc i) = omega arith in
      let t : ltb n (i + 30) ≡ false = ground arith in rw (e, t) refl
]

sums_path :
    (a b : Sums)
    → a.day_file_count ≡ b.day_file_count
    → a.day_file_size ≡ b.day_file_size
    → a.day_num_list ≡ b.day_num_list
    → a.day_file_count_list ≡ b.day_file_count_list
    → a.day_file_size_list ≡ b.day_file_size_list
    → a.all ≡ b.all
    → a ≡ b
sums_path a b p q r s t u = λ i. record {
  day_file_count = p i;
  day_file_size = q i;
  day_num_list = r i;
  day_file_count_list = s i;
  day_file_size_list = t i;
  all = u i;
}

added-step :
    (n i : ℕ) (r : Day) (days : List Day) (a : Sums)
    → text_eq r.date (lit "all") ≡ false
    → added n (suc i) days (stat_step n i r a) ≡ added n i (r ∷ days) a
unfolding stat_step
added-step n i r days a h = rw h (
    sums_path _ _ (sum-drop_step (λ d. d.file_count) n i _ r days)
      (sum-drop_step (λ d. d.total_size) n i _ r days) (append_assoc a.day_num_list (r.date ∷ []) _)
      (append_assoc a.day_file_count_list (r.file_count ∷ []) _)
      (append_assoc a.day_file_size_list (megabytes r.total_size ∷ []) _) refl)

drop-nil : (k : ℕ) → drop {A = Day} k [] ≡ []
drop-nil zero = refl
drop-nil (suc k) = refl

sum-drop_nil : (f : Day → ℕ) (k m : ℕ) → m ≡ m + sum f (drop k [])
unfolding sum
sum-drop_nil f k m = rw drop-nil (omega arith)

added-nil : (n i : ℕ) (a : Sums) → a ≡ added n i [] a
unfolding sum
added-nil n i a =
    sums_path _ _ (sum-drop_nil (λ d. d.file_count) _ _) (sum-drop_nil (λ d. d.total_size) _ _)
      (sym (append-nil _)) (sym (append-nil _)) (sym (append-nil _)) refl

stat_loop-days :
    (n i : ℕ) (days rows : List Day) (a : Sums)
    → AreDays days
    → stat_loop n i (days ++ rows) a ≡ stat_loop n (i + length days) rows (added n i days a)
unfolding stat_loop
stat_loop-days n i [] rows a h =
    ap₂ (λ (j : ℕ) b. stat_loop n j rows b) (omega arith) (added-nil n i a)
stat_loop-days n i (r ∷ days) rows a h =
    stat_loop-days n (suc i) days rows (stat_step n i r a) h.1
    ∙ ap₂ (λ (j : ℕ) b. stat_loop n j rows b) (omega arith) (added-step n i r days a h.0)

abbrev pub all_entry : List Day → Day
all_entry days = record {
  date = lit "all";
  file_count = sum (λ r. r.file_count) days;
  total_size = sum (λ r. r.total_size) days;
}

abbrev pub sums_of : List Day → Day → Sums
sums_of days total = record {
  day_file_count = sum (λ r. r.file_count) (drop (length days - 28) days);
  day_file_size = sum (λ r. r.total_size) (drop (length days - 28) days);
  day_num_list = map (λ r. r.date) days;
  day_file_count_list = map (λ r. r.file_count) days;
  day_file_size_list = map (λ r. megabytes r.total_size) days;
  all = some (total.file_count, megabytes total.total_size);
}

stat_loop-total :
    (n i : ℕ) (total : Day) (a : Sums)
    → text_eq total.date (lit "all") ≡ true
    → stat_loop n i (total ∷ []) a
      ≡ record a { all = some (total.file_count, megabytes total.total_size) }
unfolding stat_loop
stat_loop-total n i total a h = rw h refl

sum-last_days :
    (f : Day → ℕ) (days : List Day) (total : Day)
    → 0 + sum f (drop (length (days ++ total ∷ []) - 29 - 0) days)
      ≡ sum f (drop (length days - 28) days)
sum-last_days f days total =
    let e : length (days ++ total ∷ []) - 29 - 0 ≡ length days - 28 =
      omega (arith, length-append days (total ∷ [])) in
    rw e (omega arith)

stat_loop-sums_of :
    (days : List Day) (total : Day)
    → AreDays days
    → total.date ≡ lit "all"
    → stat_loop (length (days ++ total ∷ [])) 0 (days ++ total ∷ []) start ≡ sums_of days total
stat_loop-sums_of days total h e =
    stat_loop-days _ 0 days (total ∷ []) start h
    ∙ stat_loop-total _ _ total _ (rw e (text_eq_refl (lit "all")))
    ∙ sums_path _ _ (sum-last_days (λ d. d.file_count) days total)
        (sum-last_days (λ d. d.total_size) days total) refl refl refl refl

-- Of the days that the server sends, followed by the entry `all`, the dashboard charts every one.
-- Its totals are those of `all`. Its sums under the heading of 30 days are over the last 28 days.
pub on_status-days :
    (days : List Day) (total : Day) (disk : DiskInfo)
    → AreDays days
    → total.date ≡ lit "all"
    → on_status (record { status = lit "ok"; msg = none; stats = days ++ total ∷ []; disk = disk })
      ≡ panel (panel_of (sums_of days total) disk)
unfolding on_status text_eq
on_status-days days total disk h e =
    ap (λ a. panel (panel_of a disk)) (stat_loop-sums_of days total h e)
