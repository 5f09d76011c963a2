-- ===== src/Server/Remove/Downloading.antt =====
-- `RemoveDownloading` of server/http_remove.go: one round over the marks that `DownloadFromPeer`
-- (server/http_download.go) leaves in the database while it takes a file.
use go_fastdfs.Prelude.{
  ℕ, ◌+◌, ◌≤◌, ◌≡◌, refl, ◌∙◌, ap, Bool, true, false, not, ◌&&◌, ◌||◌, Option, none, some, List, [],
  ◌∷◌, ◌++◌, if◌then◌else◌, arith, Bool-cases, inl, inr, ltb, ◌==◌,
}
use go_fastdfs.Prelude.Int.{ℤ, pos, ltb_ℤ, ◌-ℤ◌, ◌+ℤ◌, add_int64}
use go_fastdfs.Prelude.Text.{Text, lit, text_eq}
use go_fastdfs.Prelude.Decimal.{parse_int, show_nat, max_int64, parse_int-show_nat, show_nat-Lacks}
use go_fastdfs.Prelude.Split.{split, cons_head, Lacks, split-append, split_of_Lacks}
use go_fastdfs.Server.Disk.{Disk, erase}

-- The key of a mark, with the seconds since 1970
abbrev pub mark_key : ℕ → Text → Text
mark_key time path = lit "downloading" ++ (b'_' ∷ (show_nat time ++ (b'_' ∷ path)))

-- The time and the path in a key of three parts
abbrev pub mark_parts : List Text → Option (Text × Text)
mark_parts (a ∷ time ∷ path ∷ []) = some (time, path)
mark_parts _ = none

abbrev pub if_old : ℕ → Text → Option ℤ → Option Text
if_old now path none = none
if_old now path (some t) =
    if ltb_ℤ (pos 600) (add_int64 (pos now) (pos 0 -ℤ t)) then some path else none

abbrev pub old_path : ℕ → Option (Text × Text) → Option Text
old_path now none = none
old_path now (some (time, path)) = if_old now path (parse_int time)

-- The path of a mark that is older than ten minutes
unfoldable pub stale_path : ℕ → Text → Option Text
stale_path now key = old_path now (mark_parts (split b'_' key))

abbrev pub erase_stale : Text → Option Text → Disk → Disk
erase_stale docker none d = d
erase_stale docker (some path) d = erase (docker ++ path) d

-- One round of the loop of `RemoveDownloading`, over the keys with the prefix downloading_
unfoldable pub remove_downloading : Text → ℕ → List Text → Disk → Disk
remove_downloading docker now [] d = d
remove_downloading docker now (key ∷ keys) d =
    remove_downloading docker now keys (erase_stale docker (stale_path now key) d)

-- A byte of the text is `c`.
abbrev pub has_byte : ℕ → Text → Bool
has_byte c [] = false
has_byte c (d ∷ s) = d == c || has_byte c s

Lacks-has_byte : (c : ℕ) (s : Text) → has_byte c s ≡ false → Lacks c s
Lacks-has_byte c [] h = tt
Lacks-has_byte c (d ∷ s) h = (ground arith, Lacks-has_byte c s (ground arith))

-- A text with the byte has two parts or more.
abbrev IsCut : List Text → Type 0
IsCut [] = ⊥
IsCut (x ∷ []) = ⊥
IsCut (x ∷ y ∷ xs) = Unit {0}

abbrev IsSome : List Text → Type 0
IsSome [] = ⊥
IsSome (x ∷ xs) = Unit {0}

cons_head-IsCut : (d : ℕ) (xs : List Text) → IsCut xs → IsCut (cons_head d xs)
cons_head-IsCut d [] h = elim h [ ]
cons_head-IsCut d (x ∷ []) h = elim h [ ]
cons_head-IsCut d (x ∷ y ∷ xs) h = tt

cons_empty-IsCut : (xs : List Text) → IsSome xs → IsCut ([] ∷ xs)
cons_empty-IsCut [] h = elim h [ ]
cons_empty-IsCut (x ∷ xs) h = tt

cons_head-IsSome : (d : ℕ) (xs : List Text) → IsSome (cons_head d xs)
cons_head-IsSome d [] = tt
cons_head-IsSome d (x ∷ xs) = tt

split-IsSome : (c : ℕ) (s : Text) → IsSome (split c s)
unfolding split
split-IsSome c [] = tt
split-IsSome c (d ∷ s) = elim (Bool-cases (d == c)) [
  | inl e ↦ rw e tt
  | inr e ↦ rw e (cons_head-IsSome d (split c s))
]

split-IsCut : (c : ℕ) (s : Text) → has_byte c s ≡ true → IsCut (split c s)
unfolding split
split-IsCut c [] h = absurd (ground arith)
split-IsCut c (d ∷ s) h = elim (Bool-cases (d == c)) [
  | inl e ↦ rw e (cons_empty-IsCut (split c s) (split-IsSome c s))
  | inr e ↦ rw e (cons_head-IsCut d (split c s) (split-IsCut c s (ground arith)))
]

parts_of_cut : (a time : Text) (xs : List Text) → IsCut xs → mark_parts (a ∷ time ∷ xs) ≡ none
parts_of_cut a time [] h = elim h [ ]
parts_of_cut a time (x ∷ []) h = elim h [ ]
parts_of_cut a time (x ∷ y ∷ xs) h = refl

split-mark_key :
    (time : ℕ) (path : Text)
    → split b'_' (mark_key time path) ≡ lit "downloading" ∷ show_nat time ∷ split b'_' path
split-mark_key time path =
    split-append b'_' (lit "downloading") (show_nat time ++ (b'_' ∷ path)) (omega arith)
    ∙ ap (◌∷◌ (lit "downloading"))
        (split-append b'_' (show_nat time) path (show_nat-Lacks b'_' time (ground arith)))

is_late :
    (now time : ℕ)
    → now ≤ max_int64
    → time ≤ max_int64
    → ltb_ℤ (pos 600) (add_int64 (pos now) (pos 0 -ℤ pos time)) ≡ ltb (time + 600) now
unfolding add_int64 ◌+ℤ◌ ◌-ℤ◌
is_late now time h k = ground arith

-- The path that a mark gives, if it is old and no byte of its path is an underscore
abbrev pub given : ℕ → ℕ → Text → Option Text
given now time path = if not (has_byte b'_' path) && ltb (time + 600) now then some path else none

stale_path-mark_key :
    (now time : ℕ) (path : Text)
    → now ≤ max_int64
    → time ≤ max_int64
    → stale_path now (mark_key time path) ≡ given now time path
unfolding stale_path
stale_path-mark_key now time path h k =
    ap (λ parts. old_path now (mark_parts parts)) (split-mark_key time path)
    ∙ elim (Bool-cases (has_byte b'_' path)) [
      | inl e ↦
          ap (old_path now) (
            parts_of_cut (lit "downloading") (show_nat time) (split b'_' path)
              (split-IsCut b'_' path e))
          ∙ rw e refl
      | inr e ↦
          rw
            (
              split_of_Lacks b'_' path (Lacks-has_byte b'_' path e),
              parse_int-show_nat time k,
              is_late now time h k,
              e,
            )
            refl
    ]

-- The marks of files that are taken, each with the seconds at its begin
abbrev pub keys_of : List (ℕ × Text) → List Text
keys_of [] = []
keys_of ((time, path) ∷ marks) = mark_key time path ∷ keys_of marks

abbrev pub AreTimes : List (ℕ × Text) → Type 0
AreTimes [] = Unit {0}
AreTimes ((time, path) ∷ marks) = (time ≤ max_int64) × AreTimes marks

-- An old mark, with a path that has no underscore, leads to this path on the disk.
abbrev pub is_stale : Text → ℕ → List (ℕ × Text) → Text → Bool
is_stale docker now [] q = false
is_stale docker now ((time, path) ∷ marks) q =
    (not (has_byte b'_' path) && ltb (time + 600) now && text_eq q (docker ++ path))
    || is_stale docker now marks q

erase_given :
    (docker : Text) (now time : ℕ) (path : Text) (d : Disk) (q : Text)
    → erase_stale docker (given now time path) d q ≡ (
        if not (has_byte b'_' path) && ltb (time + 600) now && text_eq q (docker ++ path)
        then none
        else d q)
unfolding erase
erase_given docker now time path d q = ground arith

-- A round of RemoveDownloading over the marks that DownloadFromPeer makes removes the file at a path
-- exactly if a mark is older than ten minutes, has no underscore in its path, and its path with
-- GO_FASTDFS_DIR before it is this path: whatever the file is, and whenever it came there.
pub remove_downloading-keys_of :
    (docker : Text) (now : ℕ) (marks : List (ℕ × Text)) (d : Disk) (q : Text)
    → now ≤ max_int64
    → AreTimes marks
    → remove_downloading docker now (keys_of marks) d q
      ≡ (if is_stale docker now marks q then none else d q)
unfolding remove_downloading
remove_downloading-keys_of docker now [] d q h k = refl
remove_downloading-keys_of docker now ((time, path) ∷ marks) d q h k =
    ap (λ o. remove_downloading docker now (keys_of marks) (erase_stale docker o d) q)
      (stale_path-mark_key now time path h k.0)
    ∙ (remove_downloading-keys_of docker now marks (erase_stale docker (given now time path) d) q h
          k.1
        ∙ rw (erase_given docker now time path d q) (ground arith))
