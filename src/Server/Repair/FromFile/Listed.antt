-- ===== src/Server/Repair/FromFile/Listed.antt =====
-- Which files `RepairFileInfoFromFile` (server/http_repair.go) finds.
use go_fastdfs.Prelude.{
  ℕ, zero, suc, ◌≡◌, refl, ◌∙◌, Bool, false, not, ◌&&◌, ◌||◌, List, [], ◌∷◌, ◌++◌, arith,
  Bool-cases, Option-cases, inl, inr, ltb,
}
use go_fastdfs.Prelude.Int.{ℤ}
use go_fastdfs.Prelude.Text.{Text, text_eq, has_suffix}
use go_fastdfs.Prelude.Split.{Lacks, Lacks-append}
use go_fastdfs.Server.Types.{FileInfo, slash}
use go_fastdfs.Server.Database.{is_some}
use go_fastdfs.Server.Folders.{Entry, file, dir, Entries, nil, cons, join_path}
use go_fastdfs.Server.Repair.FromFile.{
  Source, to_slashes, stored_path, is_large_dir, file_info, repair_files, repair_entry,
  repair_entries, repair_file_info_from_file,
}

-- No name has a backslash.
unfoldable mutual
  pub IsPlain : Entry → Type 0
  IsPlain (file name size time) = Lacks 92 name
  IsPlain (dir name es) = Lacks 92 name × ArePlain es

  pub ArePlain : Entries → Type 0
  ArePlain nil = Unit {0}
  ArePlain (cons e es) = IsPlain e × ArePlain es

-- The paths of the files that have bytes and a hash and do not lie in a directory of large files
abbrev pub is_listed : Source → Text → Text → ℕ → Bool
is_listed s path name size =
    ltb 0 size && not (is_large_dir path) && is_some (s.hash (path ++ (slash ++ name)))

mutual
  pub listed : Source → Text → Entry → Text → Bool
  listed s path (file name size time) q = false
  listed s path (dir name es) q = listed_in s path es q

  pub listed_in : Source → Text → Entries → Text → Bool
  listed_in s path nil q = false
  listed_in s path (cons (file name size time) es) q =
      (is_listed s path name size && text_eq q (path ++ (slash ++ name))) || listed_in s path es q
  listed_in s path (cons (dir name ds) es) q =
      listed_in s (join_path path name) ds q || listed_in s path es q

abbrev pub recorded_path : FileInfo → Text
recorded_path info = info.path ++ (slash ++ info.name)

-- A record of a file at this path
abbrev pub is_recorded : List FileInfo → Text → Bool
is_recorded [] q = false
is_recorded (info ∷ infos) q = text_eq q (recorded_path info) || is_recorded infos q

is_recorded-append :
    (xs ys : List FileInfo) (q : Text)
    → is_recorded (xs ++ ys) q ≡ (is_recorded xs q || is_recorded ys q)
is_recorded-append [] ys q = refl
is_recorded-append (x ∷ xs) ys q = ground (arith, is_recorded-append xs ys q)

to_slashes_of_Lacks : (s : Text) → Lacks 92 s → to_slashes s ≡ s
to_slashes_of_Lacks [] h = refl
to_slashes_of_Lacks (b ∷ s) h = ground (arith, to_slashes_of_Lacks s h.1)

Lacks-join_path :
    (path name : Text) → Lacks 92 path → Lacks 92 name → Lacks 92 (join_path path name)
Lacks-join_path path name h k = elim (Bool-cases (has_suffix path slash)) [
  | inl e ↦ rw e (Lacks-append 92 path name h k)
  | inr e ↦ rw e (Lacks-append 92 path (slash ++ name) h (ground arith, k))
]

-- The files of a directory itself, and those below its directories
abbrev files_listed : Source → Text → Entries → Text → Bool
files_listed s path nil q = false
files_listed s path (cons (file name size time) es) q =
    (is_listed s path name size && text_eq q (path ++ (slash ++ name))) || files_listed s path es q
files_listed s path (cons (dir name ds) es) q = files_listed s path es q

abbrev below_listed : Source → Text → Entries → Text → Bool
below_listed s path nil q = false
below_listed s path (cons (file name size time) es) q = below_listed s path es q
below_listed s path (cons (dir name ds) es) q =
    listed_in s (join_path path name) ds q || below_listed s path es q

listed_in_parts :
    (s : Source) (path : Text) (es : Entries) (q : Text)
    → listed_in s path es q ≡ (files_listed s path es q || below_listed s path es q)
unfolding listed
listed_in_parts s path nil q = refl
listed_in_parts s path (cons (file name size time) es) q =
    ground (arith, listed_in_parts s path es q)
listed_in_parts s path (cons (dir name ds) es) q = ground (arith, listed_in_parts s path es q)

module _ (s : Source) (no_docker : s.docker_dir ≡ []) (no_link : s.path_prefix ≡ []) where
  stored_path_plain : (path : Text) → Lacks 92 path → stored_path s path ≡ path
  unfolding stored_path text_eq
  stored_path_plain path h = rw (no_docker, no_link) (to_slashes_of_Lacks path h)

  file_info-listed :
      (path name : Text) (n : ℕ) (time : ℤ) (q : Text)
      → is_recorded (file_info s path name (suc n) time) q
        ≡ (is_listed s path name (suc n) && text_eq q (path ++ (slash ++ name)))
  unfolding file_info
  file_info-listed path name n time q = elim (Bool-cases (is_large_dir path)) [
    | inl e ↦ rw e (ground arith)
    | inr e ↦ elim (Option-cases (s.hash (path ++ (slash ++ name)))) [
      | inl f ↦ rw (e, no_docker, f) (ground arith)
      | inr (sum, f) ↦ rw (e, no_docker, f) (ground arith)
    ]
  ]

  repair_files-listed :
      (path : Text) (es : Entries) (q : Text)
      → Lacks 92 path
      → is_recorded (repair_files s path es) q ≡ files_listed s path es q
  unfolding repair_files
  repair_files-listed path nil q h = refl
  repair_files-listed path (cons (dir name ds) es) q h = repair_files-listed path es q h
  repair_files-listed path (cons (file name zero time) es) q h =
      repair_files-listed path es q h ∙ ground arith
  repair_files-listed path (cons (file name (suc n) time) es) q h = rw (stored_path_plain path h) (
      is_recorded-append (file_info s path name (suc n) time) (repair_files s path es) q
      ∙ rw (file_info-listed path name n time q, repair_files-listed path es q h) refl)

  repair_entries-listed :
      (path : Text) (es : Entries) (q : Text)
      → Lacks 92 path
      → ArePlain es
      → is_recorded (repair_entries s path es) q ≡ below_listed s path es q
  unfolding repair_entry IsPlain
  repair_entries-listed path nil q h k = refl
  repair_entries-listed path (cons (file name size time) es) q h k =
      repair_entries-listed path es q h k.1
  repair_entries-listed path (cons (dir name ds) es) q h k =
      let below = join_path path name in
      let l = Lacks-join_path path name h k.0.0 in
      is_recorded-append (repair_files s below ds ++ repair_entries s below ds)
        (repair_entries s path es) q
      ∙ rw
          (
            is_recorded-append,
            repair_files-listed below ds q l,
            repair_entries-listed below ds q l k.0.1,
            repair_entries-listed path es q h k.1,
            listed_in_parts,
          )
          refl

  -- Where GO_FASTDFS_DIR is not set, the root is no link and no name has a backslash, a run of
  -- RepairFileInfoFromFile that is not locked records a file at a path exactly if a file at this path
  -- has bytes and a hash, and its directory is not one whose path begins with files/haystack.
  pub repair_file_info_from_file-listed :
      (path : Text) (e : Entry) (q : Text)
      → Lacks 92 path
      → IsPlain e
      → is_recorded (repair_file_info_from_file s false path e) q ≡ listed s path e q
  unfolding repair_file_info_from_file repair_entry listed IsPlain
  repair_file_info_from_file-listed path (file name size time) q h k = refl
  repair_file_info_from_file-listed path (dir name es) q h k =
      is_recorded-append (repair_files s path es) (repair_entries s path es) q
      ∙ rw (repair_files-listed path es q h, repair_entries-listed path es q h k.1, listed_in_parts)
          refl
