-- ===== src/Server/Meta/Catalog.antt =====
-- The hashes of the files that the logs leave, as a list without repetitions: the count of
-- server/fileserver.go read off the logs.
use go_fastdfs.Prelude.{
  ℕ, suc, ◌+◌, ◌≤◌, ◌≡◌, ◌∙◌, ap, true, false, ◌||◌, List, [], ◌∷◌, if◌then◌else◌, arith, length,
  Bool-cases, inl, inr,
}
use go_fastdfs.Prelude.Text.{Text, text_eq, text_eq_sound}
use go_fastdfs.Prelude.TextSet.{
  contains, without, IsDistinct, insert, insert-IsDistinct, without-IsDistinct, without_absent,
  length-without,
}
use go_fastdfs.Server.Types.{file_log, remove_log}
use go_fastdfs.Server.Meta.{FileLog}

-- The files whose logs are in the order of the list
unfoldable pub present_after : FileLog → List Text → List Text
present_after l set =
    if text_eq l.info.md5 [] || text_eq l.file_name []
    then set
    else if text_eq l.file_name file_log
    then insert l.info.md5 set
    else if text_eq l.file_name remove_log
    then without l.info.md5 set
    else set

pub length-present_after :
    (l : FileLog) (set : List Text) → length (present_after l set) ≤ suc (length set)
unfolding present_after
length-present_after l set = ground (arith, length-without l.info.md5 set)

pub present_after-IsDistinct :
    (l : FileLog) (set : List Text) → IsDistinct set → IsDistinct (present_after l set)
unfolding present_after
present_after-IsDistinct l set h =
    elim (Bool-cases (text_eq l.info.md5 [] || text_eq l.file_name [])) [
      | inl a ↦ rw a h
      | inr a ↦ elim (Bool-cases (text_eq l.file_name file_log)) [
        | inl f ↦ rw (a, f) (insert-IsDistinct l.info.md5 set h)
        | inr f ↦ elim (Bool-cases (text_eq l.file_name remove_log)) [
          | inl r ↦ rw (a, f, r) (without-IsDistinct l.info.md5 set h)
          | inr r ↦ rw (a, f, r) h
        ]
      ]
    ]

unfoldable pub present : List FileLog → List Text → List Text
unfolding present_after
present [] set = set
present (l ∷ ls) set = present ls (present_after l set)

module _ (day_of : Text → Text) where
  -- How many of the files are of a day
  abbrev pub tally : Text → List Text → ℕ
  tally d [] = 0
  tally d (k ∷ set) = if text_eq d (day_of k) then suc (tally d set) else tally d set

  pub tally-length : (d : Text) (set : List Text) → tally d set ≤ length set
  tally-length d [] = omega arith
  tally-length d (k ∷ set) = ground (arith, tally-length d set)

  tally-without :
      (d k : Text) (set : List Text)
      → IsDistinct set
      → contains k set ≡ true
      → tally d set ≡ tally d (without k set) + (if text_eq d (day_of k) then 1 else 0)
  tally-without d k [] h m = cc
  tally-without d k (j ∷ set) h m = elim (Bool-cases (text_eq k j)) [
    | inl e ↦
        let z : without k set ≡ set =
          without_absent k set (ap (λ i. contains i set) (text_eq_sound k j e) ∙ h.0) in
        rw (e, z, ap day_of (text_eq_sound k j e)) (ground arith)
    | inr e ↦ ground (arith, tally-without d k set)
  ]

  pub tally-without_same :
      (d k : Text) (set : List Text)
      → IsDistinct set
      → contains k set ≡ true
      → text_eq d (day_of k) ≡ true
      → tally d set ≡ suc (tally d (without k set))
  tally-without_same d k set h m e = ground (arith, tally-without d k set h m)

  pub tally-without_other :
      (d k : Text) (set : List Text)
      → IsDistinct set
      → contains k set ≡ true
      → text_eq d (day_of k) ≡ false
      → tally d set ≡ tally d (without k set)
  tally-without_other d k set h m e = ground (arith, tally-without d k set h m)
