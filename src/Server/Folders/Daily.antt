-- ===== src/Server/Folders/Daily.antt =====
-- The daily runs of `cleanEmptyFolders` (server/http_upload.go).
use go_fastdfs.Prelude.{
  ℕ, zero, suc, ◌+◌, ◌≤◌, ◌≡◌, refl, ◌∙◌, ap, Bool, true, false, not, ◌&&◌, Option, none, some,
  arith, Bool-cases, inl, inr,
}
use go_fastdfs.Prelude.Text.{Text}
use go_fastdfs.Server.Folders.{
  Entry, file, dir, Entries, nil, cons, name_of, join_path, is_empty_dir, is_exempt, is_nil,
  cons_left, clean_entry, clean_entries, clean_empty_folders, clean_daily, dirs, dirs_in, paths_of,
  paths_left, is_tidy, are_tidy, is_tidy_left,
}
use go_fastdfs.Server.Folders.Cleaned.{clean_entry-paths, clean_entry-tidy}

abbrev dirs_left : Option Entry → ℕ
dirs_left none = 0
dirs_left (some e) = dirs e

-- 1 where a walk has not come to its end
abbrev cut : Bool → ℕ
cut true = 0
cut false = 1

dirs_in-cons_left :
    (o : Option Entry) (es : Entries) → dirs_in (cons_left o es) ≡ dirs_left o + dirs_in es
unfolding dirs
dirs_in-cons_left none es = omega arith
dirs_in-cons_left (some e) es = refl

cut-le : (b : Bool) → cut b ≤ 1
cut-le true = omega arith
cut-le false = omega arith

-- A walk that ends too early has removed a directory.
mutual
  unfolding clean_entry dirs

  clean_entry-dirs :
      (path : Text) (e : Entry)
      → dirs_left (clean_entry path e).0 + cut (clean_entry path e).1 ≤ dirs e
  clean_entry-dirs path (file name size time) = omega arith
  clean_entry-dirs path (dir name es) =
      elim (Bool-cases (not (is_exempt path) && is_empty_dir es)) [
        | inl h ↦ rw h (omega (arith, cut-le (is_nil es)))
        | inr h ↦ rw h (omega (arith, clean_entries-dirs path es))
      ]

  clean_entries-dirs :
      (path : Text) (es : Entries)
      → dirs_in (clean_entries path es).0 + cut (clean_entries path es).1 ≤ dirs_in es
  clean_entries-dirs path nil = omega arith
  clean_entries-dirs path (cons e es) =
      let below = join_path path (name_of e) in
      let (left, goes_on) = clean_entry below e in
      let first : dirs_left left + cut goes_on ≤ dirs e = clean_entry-dirs below e in
      elim (Bool-cases goes_on) [
        | inl h ↦ rw h (
            omega (
              arith,
              dirs_in-cons_left left (clean_entries path es).0,
              clean_entries-dirs path es,
              first,
            ))
        | inr h ↦ rw h (omega (arith, dirs_in-cons_left left es, first, ap cut h))
      ]

-- A walk changes nothing where nothing is to be removed.
mutual
  unfolding clean_entry is_tidy

  clean_entry-fixed :
      (path : Text) (e : Entry) → is_tidy path e ≡ true → clean_entry path e ≡ (some e, true)
  clean_entry-fixed path (file name size time) h = refl
  clean_entry-fixed path (dir name es) h =
      let t = clean_entries-fixed path es (ground arith) in
      let n : not (is_exempt path) && is_empty_dir es ≡ false = ground arith in rw (n, t) refl

  clean_entries-fixed :
      (path : Text) (es : Entries) → are_tidy path es ≡ true → clean_entries path es ≡ (es, true)
  clean_entries-fixed path nil h = refl
  clean_entries-fixed path (cons e es) h =
      let t = clean_entry-fixed (join_path path (name_of e)) e (ground arith) in
      let u = clean_entries-fixed path es (ground arith) in rw (t, u) refl

clean_daily-fixed :
    (path : Text) (n : ℕ) (o : Option Entry) → is_tidy_left path o ≡ true → clean_daily path n o ≡ o
unfolding clean_daily clean_empty_folders
clean_daily-fixed path zero o h = refl
clean_daily-fixed path (suc n) none h = refl
clean_daily-fixed path (suc n) (some e) h =
    rw (clean_entry-fixed path e h) (clean_daily-fixed path n (some e) h)

clean_daily-paths :
    (path : Text) (n : ℕ) (o : Option Entry)
    → paths_left path (clean_daily path n o) ≡ paths_left path o
unfolding clean_daily clean_empty_folders
clean_daily-paths path zero o = refl
clean_daily-paths path (suc n) none = refl
clean_daily-paths path (suc n) (some e) =
    clean_daily-paths path n (clean_entry path e).0 ∙ clean_entry-paths path e

dirs-tidy : (path : Text) (e : Entry) → dirs e ≤ 0 → is_tidy path e ≡ true
unfolding dirs is_tidy
dirs-tidy path (file name size time) h = refl
dirs-tidy path (dir name es) h = absurd (omega arith)

clean_daily-tidy :
    (path : Text) (n : ℕ) (o : Option Entry)
    → dirs_left o ≤ n
    → is_tidy_left path (clean_daily path n o) ≡ true
unfolding clean_daily clean_empty_folders
clean_daily-tidy path zero none h = refl
clean_daily-tidy path zero (some e) h = dirs-tidy path e h
clean_daily-tidy path (suc n) none h = refl
clean_daily-tidy path (suc n) (some e) h = elim (Bool-cases (clean_entry path e).1) [
  | inl g ↦
      let t = clean_entry-tidy path e g in rw (clean_daily-fixed path n (clean_entry path e).0 t) t
  | inr g ↦
      clean_daily-tidy path n (clean_entry path e).0
        (omega (arith, clean_entry-dirs path e, ap cut g))
]

-- After as many daily runs of cleanEmptyFolders as there are directories every file is still there,
-- and every directory that is left has a file in it or below it, but for the exempt ones: the root, and
-- what lies under _big and _tmp.
pub clean_daily-paths-tidy :
    (path : Text) (n : ℕ) (e : Entry)
    → dirs e ≤ n
    → (paths_left path (clean_daily path n (some e)) ≡ paths_of path e)
      × (is_tidy_left path (clean_daily path n (some e)) ≡ true)
clean_daily-paths-tidy path n e h =
    (clean_daily-paths path n (some e), clean_daily-tidy path n (some e) h)
