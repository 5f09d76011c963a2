-- ===== src/Server/Meta/Clean/Kept.antt =====
-- What the daily cleaning (server/fileserver.go) leaves of the logs.
use go_fastdfs.Prelude.{
  ◌≡◌, refl, ◌∙◌, sym, ap, Bool, true, false, ◌==◌, ◌||◌, none, List, [], ◌∷◌, ◌++◌, if◌then◌else◌,
  arith, Bool-cases, Option-cases, inl, inr,
}
use go_fastdfs.Prelude.Int.{ℤ, pos}
use go_fastdfs.Prelude.Text.{Text, lit, text_eq, text_eq_sound, has_prefix}
use go_fastdfs.Prelude.TextSet.{insert, contains}
use go_fastdfs.Server.Types.{FileInfo, queue_log, error_log, remove_log, file_log}
use go_fastdfs.Server.Database.{Database, CountMap, IsLawful, is_some, or_same}
use go_fastdfs.Server.Meta.{
  Meta, FileLog, stored, remove_key, log_db, file_db, add_counts, save_stat, save_file_info,
  save_file, remove_file, save_file_md5_log, consume_logs, log_key, full_path,
}
use go_fastdfs.Server.Meta.Clean.{values_at, remove_keys, clean_log, clean_each, clean}

-- A text of an object of JSON opens with a brace.
abbrev pub opens : Text → Bool
opens [] = false
opens (b ∷ s) = b == b'{'

opens-append : (s t : Text) → opens s ≡ false → opens (s ++ (b'_' ∷ t)) ≡ false
opens-append [] t h = refl
opens-append (b ∷ s) t h = h

text_eq-opens : (s t : Text) → opens s ≡ true → opens t ≡ false → text_eq s t ≡ false
text_eq-opens s t h k = elim (Bool-cases (text_eq s t)) [
  | inl e ↦ let f = ap opens (text_eq_sound s t e) in cc
  | inr e ↦ e
]

abbrev pub AllOpen : List Text → Type 0
AllOpen [] = Unit {0}
AllOpen (t ∷ ts) = (opens t ≡ true) × AllOpen ts

insert-AllOpen : (t : Text) (ts : List Text) → opens t ≡ true → AllOpen ts → AllOpen (insert t ts)
insert-AllOpen t ts h k = elim (Bool-cases (contains t ts)) [ inl e ↦ rw e k | inr e ↦ rw e (h, k) ]

values_at-AllOpen :
    (json : FileInfo → Text) (prefix : Text) (entries : List (Text × FileInfo))
    → ((info : FileInfo) → opens (json info) ≡ true)
    → AllOpen (values_at json prefix entries)
unfolding values_at
values_at-AllOpen json prefix [] h = tt
values_at-AllOpen json prefix ((key, info) ∷ entries) h =
    let rest = values_at-AllOpen json prefix entries h in
    elim (Bool-cases (has_prefix key prefix)) [
      | inl e ↦ rw e (insert-AllOpen (json info) (values_at json prefix entries) (h info) rest)
      | inr e ↦ rw e rest
    ]

module _ (D : Database) (lawful : IsLawful D) where
  -- No key opens with a brace.
  abbrev pub NoneOpen : D.State → Type 0
  NoneOpen d = (key : Text) → opens key ≡ true → D.get d key ≡ none

  put-NoneOpen :
      (d : D.State) (k : Text) (v : FileInfo)
      → opens k ≡ false
      → NoneOpen d
      → NoneOpen (or_same d (D.put d k v))
  put-NoneOpen d k v h n key o = elim (Option-cases (D.put d k v)) [
    | inl e ↦ rw e (n key o)
    | inr (t, e) ↦ rw (e, lawful.get-put d t k key v e, text_eq-opens key k o h) (n key o)
  ]

  delete-NoneOpen : (d : D.State) (k : Text) → NoneOpen d → NoneOpen (or_same d (D.delete d k))
  delete-NoneOpen d k n key o = elim (Option-cases (D.delete d k)) [
    | inl e ↦ rw e (n key o)
    | inr (t, e) ↦
        rw (e, lawful.get-delete d t k key e)
          (elim (Bool-cases (text_eq key k)) [ inl f ↦ rw f refl | inr f ↦ rw f (n key o) ])
  ]

  -- The removal of a key that is not there changes nothing.
  delete_absent :
      (d : D.State) (k key : Text)
      → opens k ≡ true
      → NoneOpen d
      → D.get (or_same d (D.delete d k)) key ≡ D.get d key
  delete_absent d k key o n = elim (Option-cases (D.delete d k)) [
    | inl e ↦ rw e refl
    | inr (t, e) ↦
        rw (e, lawful.get-delete d t k key e)
          (elim (Bool-cases (text_eq key k)) [
            | inl f ↦ rw f (sym (ap (D.get d) (text_eq_sound key k f) ∙ n k o))
            | inr f ↦ rw f refl
          ])
  ]

module _ (D : Database) (M : CountMap) (hash : Text → Text) (day : ℤ → Text) (lawful : IsLawful D)
    (days : (n : ℤ) → opens (day n) ≡ false) where
  abbrev State : Type 0
  State = Meta D.State M.State

  opens-log_key : (info : FileInfo) (f : Text) → opens (log_key D M hash day info f) ≡ false
  opens-log_key info f = opens-append (day info.time_stamp) _ (days info.time_stamp)

  logs-add_counts :
      (b : Bool) (info : FileInfo) (n size : ℤ) (s : State)
      → ((if b then s else add_counts D M hash day info n size s).logs ≡ s.logs)
        × ((if b then add_counts D M hash day info n size s else s).logs ≡ s.logs)
  unfolding add_counts save_stat
  logs-add_counts b info n size s = ground arith

  log_NoneOpen :
      (key : Text) (info : FileInfo) (s : State)
      → opens key ≡ false
      → NoneOpen D lawful s.logs
      → NoneOpen D lawful (save_file_info D M hash day key info log_db s).0.logs
  unfolding save_file_info
  log_NoneOpen key info s h n = put-NoneOpen D lawful s.logs key (stored info) h n

  file_NoneOpen :
      (key : Text) (info : FileInfo) (s : State)
      → NoneOpen D lawful s.logs
      → NoneOpen D lawful (save_file_info D M hash day key info file_db s).0.logs
  unfolding save_file_info
  file_NoneOpen key info s n = elim (Bool-cases (is_some (D.put s.files key (stored info)))) [
    | inl e ↦ rw e (put-NoneOpen D lawful s.logs _ (stored info) (opens-log_key info file_log) n)
    | inr e ↦ rw e n
  ]

  save_file-NoneOpen :
      (info : FileInfo) (s : State)
      → NoneOpen D lawful s.logs
      → NoneOpen D lawful (save_file D M hash day info s).logs
  unfolding save_file
  save_file-NoneOpen info s n =
      let counted =
        if is_some (D.get s.files info.md5)
        then s
        else add_counts D M hash day info (pos 1) info.size s in
      let key = log_key D M hash day info file_log in
      let logged = (save_file_info D M hash day key info log_db counted).0 in
      let by_md5 = (save_file_info D M hash day info.md5 info file_db logged).0 in
      let kept : NoneOpen D lawful counted.logs =
        rw ((logs-add_counts (is_some (D.get s.files info.md5)) info (pos 1) info.size s).0) n in
      file_NoneOpen (hash (full_path info)) info by_md5 (
        file_NoneOpen info.md5 info logged
          (log_NoneOpen key info counted (opens-log_key info file_log) kept))

  remove_file-NoneOpen :
      (info : FileInfo) (s : State)
      → NoneOpen D lawful s.logs
      → NoneOpen D lawful (remove_file D M hash day info s).logs
  unfolding remove_file remove_key
  remove_file-NoneOpen info s n = delete-NoneOpen D lawful _ _ (
      delete-NoneOpen D lawful _ _
        (rw ((logs-add_counts (is_some (D.get s.files info.md5)) info _ _ s).1) n))

  save_file_md5_log-NoneOpen :
      (l : FileLog) (s : State)
      → NoneOpen D lawful s.logs
      → NoneOpen D lawful (save_file_md5_log D M hash day l s).logs
  unfolding save_file_md5_log
  save_file_md5_log-NoneOpen l s n =
      elim (Bool-cases (text_eq l.info.md5 [] || text_eq l.file_name [])) [
        | inl a ↦ rw a n
        | inr a ↦ elim (Bool-cases (text_eq l.file_name file_log)) [
          | inl f ↦ rw (a, f) (save_file-NoneOpen l.info s n)
          | inr f ↦ elim (Bool-cases (text_eq l.file_name remove_log)) [
            | inl r ↦ rw (a, f, r) (remove_file-NoneOpen l.info s n)
            | inr r ↦
                rw (a, f, r)
                  (log_NoneOpen (log_key D M hash day l.info l.file_name) l.info s
                    (opens-log_key l.info l.file_name) n)
          ]
        ]
      ]

  consume_logs-NoneOpen :
      (ls : List FileLog) (s : State)
      → NoneOpen D lawful s.logs
      → NoneOpen D lawful (consume_logs D M hash day ls s).logs
  unfolding consume_logs
  consume_logs-NoneOpen [] s n = n
  consume_logs-NoneOpen (l ∷ ls) s n =
      consume_logs-NoneOpen ls (save_file_md5_log D M hash day l s)
        (save_file_md5_log-NoneOpen l s n)

  module _ (json : FileInfo → Text) (objects : (info : FileInfo) → opens (json info) ≡ true)
      (entries : D.State → List (Text × FileInfo)) where
    -- The entries are as they were, and no key opens with a brace.
    abbrev IsKept : State → State → Type 0
    IsKept s t = ((key : Text) → D.get t.logs key ≡ D.get s.logs key) × NoneOpen D lawful t.logs

    remove_keys-IsKept :
        (keys : List Text) (s : State)
        → AllOpen keys
        → NoneOpen D lawful s.logs
        → IsKept s (remove_keys D M hash day json entries keys s)
    unfolding remove_keys remove_key
    remove_keys-IsKept [] s a n = (λ key. refl, n)
    remove_keys-IsKept (k ∷ keys) s (o, a) n =
        let (h, m) =
          remove_keys-IsKept keys (remove_key D M hash day k log_db s) a
            (delete-NoneOpen D lawful s.logs k n) in
        (λ key. h key ∙ delete_absent D lawful s.logs k key o n, m)

    clean_each-IsKept :
        (date : Text) (filenames : List Text) (s : State)
        → NoneOpen D lawful s.logs
        → IsKept s (clean_each D M hash day json entries date filenames s)
    unfolding clean_each clean_log
    clean_each-IsKept date [] s n = (λ key. refl, n)
    clean_each-IsKept date (f ∷ fs) s n =
        let keys = values_at json (date ++ (b'_' ∷ (f ++ lit "_"))) (entries s.logs) in
        let (h, m) =
          remove_keys-IsKept keys s (values_at-AllOpen json _ (entries s.logs) objects) n in
        let (i, o) = clean_each-IsKept date fs (remove_keys D M hash day json entries keys s) m in
        (λ key. i key ∙ h key, o)

    -- Behind any queue of logs, the cleaning of a new day leaves every entry of the database of the
    -- logs as it is, whatever entries its iterators give.
    pub clean-consume_logs :
        (today yesterday date : Text) (ls : List FileLog) (s : State)
        → NoneOpen D lawful s.logs
        → let t = consume_logs D M hash day ls s in
          (key : Text)
          → D.get (clean D M hash day json entries today yesterday (date, t)).1.logs key
            ≡ D.get t.logs key
    unfolding clean
    clean-consume_logs today yesterday date ls s n key = elim (Bool-cases (text_eq date today)) [
      | inl e ↦ rw e refl
      | inr e ↦ rw e (
          (clean_each-IsKept yesterday (queue_log ∷ error_log ∷ remove_log ∷ [])
              (consume_logs D M hash day ls s) (consume_logs-NoneOpen ls s n)).0
            key)
    ]
