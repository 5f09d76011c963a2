-- ===== src/Server/Folders/Cleaned.antt =====
-- What `cleanEmptyFolders` (server/http_upload.go) leaves.
use go_fastdfs.Prelude.{
  ◌≡◌, refl, ◌∙◌, sym, Bool, true, not, ◌&&◌, Option, none, some, [], ◌++◌, arith, Bool-cases, inl,
  inr,
}
use go_fastdfs.Prelude.Text.{Text}
use go_fastdfs.Server.Folders.{
  Entry, file, dir, Entries, nil, cons, name_of, join_path, is_empty_dir, is_empty_entry, is_exempt,
  cons_left, clean_entry, clean_entries, paths_of, paths_in, paths_left, is_tidy, are_tidy,
  is_tidy_left,
}

mutual
  unfolding is_empty_dir paths_of

  paths_in-empty : (path : Text) (es : Entries) → is_empty_dir es ≡ true → paths_in path es ≡ []
  paths_in-empty path nil h = refl
  paths_in-empty path (cons e es) h =
      let below = join_path path (name_of e) in
      let p : paths_of below e ≡ [] = paths_of-empty below e (ground arith) in
      let q : paths_in path es ≡ [] = paths_in-empty path es (ground arith) in rw (p, q) refl

  paths_of-empty : (path : Text) (e : Entry) → is_empty_entry e ≡ true → paths_of path e ≡ []
  paths_of-empty path (file name size time) h = absurd (ground arith)
  paths_of-empty path (dir name es) h = paths_in-empty path es h

paths_in-cons_left :
    (path : Text) (o : Option Entry) (es : Entries) (n : Text)
    → ((e : Entry) → o ≡ some e → name_of e ≡ n)
    → paths_in path (cons_left o es) ≡ paths_left (join_path path n) o ++ paths_in path es
unfolding paths_of
paths_in-cons_left path none es n h = refl
paths_in-cons_left path (some e) es n h = rw (h e refl) refl

clean_entry-name :
    (path : Text) (e x : Entry) → (clean_entry path e).0 ≡ some x → name_of x ≡ name_of e
unfolding clean_entry
clean_entry-name path (file name size time) x h = ground arith
clean_entry-name path (dir name es) x h = ground arith

mutual
  unfolding clean_entry paths_of

  pub clean_entry-paths :
      (path : Text) (e : Entry) → paths_left path (clean_entry path e).0 ≡ paths_of path e
  clean_entry-paths path (file name size time) = refl
  clean_entry-paths path (dir name es) =
      elim (Bool-cases (not (is_exempt path) && is_empty_dir es)) [
        | inl h ↦ rw h (sym (paths_in-empty path es (ground arith)))
        | inr h ↦ rw h (clean_entries-paths path es)
      ]

  clean_entries-paths :
      (path : Text) (es : Entries) → paths_in path (clean_entries path es).0 ≡ paths_in path es
  clean_entries-paths path nil = refl
  clean_entries-paths path (cons e es) =
      let below = join_path path (name_of e) in
      let (left, goes_on) = clean_entry below e in
      let first : paths_left below left ≡ paths_of below e = clean_entry-paths below e in
      let named = λ (x : Entry) (h : left ≡ some x). clean_entry-name below e x h in
      elim (Bool-cases goes_on) [
        | inl h ↦ rw h (
            paths_in-cons_left path left (clean_entries path es).0 (name_of e) named
            ∙ rw (first, clean_entries-paths path es) refl)
        | inr h ↦ rw h (paths_in-cons_left path left es (name_of e) named ∙ rw first refl)
      ]

abbrev is_empty_left : Option Entry → Bool
is_empty_left none = true
is_empty_left (some e) = is_empty_entry e

is_empty_dir-cons_left :
    (o : Option Entry) (es : Entries)
    → is_empty_dir (cons_left o es) ≡ (is_empty_left o && is_empty_dir es)
unfolding is_empty_dir
is_empty_dir-cons_left none es = refl
is_empty_dir-cons_left (some e) es = refl

mutual
  unfolding clean_entry is_empty_dir

  clean_entry-empty :
      (path : Text) (e : Entry) → is_empty_left (clean_entry path e).0 ≡ is_empty_entry e
  clean_entry-empty path (file name size time) = refl
  clean_entry-empty path (dir name es) =
      elim (Bool-cases (not (is_exempt path) && is_empty_dir es)) [
        | inl h ↦ rw h (ground arith)
        | inr h ↦ rw h (clean_entries-empty path es)
      ]

  clean_entries-empty :
      (path : Text) (es : Entries) → is_empty_dir (clean_entries path es).0 ≡ is_empty_dir es
  clean_entries-empty path nil = refl
  clean_entries-empty path (cons e es) =
      let below = join_path path (name_of e) in
      let (left, goes_on) = clean_entry below e in
      let first : is_empty_left left ≡ is_empty_entry e = clean_entry-empty below e in
      elim (Bool-cases goes_on) [
        | inl h ↦ rw h (
            is_empty_dir-cons_left left (clean_entries path es).0
            ∙ rw (first, clean_entries-empty path es) refl)
        | inr h ↦ rw h (is_empty_dir-cons_left left es ∙ rw first refl)
      ]

are_tidy-cons_left :
    (path : Text) (o : Option Entry) (es : Entries) (n : Text)
    → ((e : Entry) → o ≡ some e → name_of e ≡ n)
    → are_tidy path (cons_left o es) ≡ (is_tidy_left (join_path path n) o && are_tidy path es)
unfolding is_tidy
are_tidy-cons_left path none es n h = refl
are_tidy-cons_left path (some e) es n h = rw (h e refl) refl

mutual
  unfolding clean_entry is_tidy

  pub clean_entry-tidy :
      (path : Text) (e : Entry)
      → (clean_entry path e).1 ≡ true
      → is_tidy_left path (clean_entry path e).0 ≡ true
  clean_entry-tidy path (file name size time) g = refl
  clean_entry-tidy path (dir name es) g =
      elim (Bool-cases (not (is_exempt path) && is_empty_dir es)) [
        | inl h ↦ rw h refl
        | inr h ↦ rw h (
            let t = clean_entries-tidy path es (rw h at g) in
            let s = clean_entries-empty path es in ground (arith, t, s, h))
      ]

  clean_entries-tidy :
      (path : Text) (es : Entries)
      → (clean_entries path es).1 ≡ true
      → are_tidy path (clean_entries path es).0 ≡ true
  clean_entries-tidy path nil g = refl
  clean_entries-tidy path (cons e es) g =
      let below = join_path path (name_of e) in
      let (left, goes_on) = clean_entry below e in
      let named = λ (x : Entry) (h : left ≡ some x). clean_entry-name below e x h in
      elim (Bool-cases goes_on) [
        | inl h ↦
            let first : is_tidy_left below left ≡ true = clean_entry-tidy below e h in
            rw h (
              are_tidy-cons_left path left (clean_entries path es).0 (name_of e) named
              ∙ rw (first, clean_entries-tidy path es (rw h at g)) refl)
        | inr h ↦ absurd (ground (arith, rw h at g))
      ]
