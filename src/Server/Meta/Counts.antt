-- ===== src/Server/Meta/Counts.antt =====
-- The counts of the files of each day (`statMap`) behind the logs, against the list of the files.
use go_fastdfs.Prelude.{
  ℕ, suc, ◌+◌, ◌≤◌, ◌<◌, ◌≡◌, refl, ◌∙◌, sym, ap, Bool, true, false, ◌||◌, Option, List, [], ◌∷◌,
  ◌++◌, if◌then◌else◌, arith, length, get_or, Bool-cases, inl, inr,
}
use go_fastdfs.Prelude.Int.{ℤ, pos, negsuc, add_int64, ◌+ℤ◌}
use go_fastdfs.Prelude.Text.{
  Text, lit, text_eq, text_eq_sound, text_eq-false, text_eq-append_right, after_last,
}
use go_fastdfs.Prelude.Split.{after_last-append}
use go_fastdfs.Prelude.Decimal.{max_int64}
use go_fastdfs.Prelude.TextSet.{
  contains, without, IsDistinct, insert, contains-insert, contains-without, without_absent,
}
use go_fastdfs.Server.Types.{FileInfo, file_log, remove_log}
use go_fastdfs.Server.Database.{
  Database, CountMap, IsLawful, IsWritable, IsCounting, is_some, added, or_zero,
}
use go_fastdfs.Server.Meta.{
  Meta, FileLog, full_path, add_counts, save_stat, save_file_info, remove_key, save_file,
  remove_file, save_file_md5_log, consume_logs, negated,
}
use go_fastdfs.Server.Meta.Lookup.{entry_after, find-save_file_md5_log}
use go_fastdfs.Server.Meta.Catalog.{
  present_after, present, tally, present_after-IsDistinct, length-present_after, tally-length,
  tally-without_same, tally-without_other,
}

pub keys_differ : (d e : Text) → text_eq (d ++ lit "_fileCount") (e ++ lit "_totalSize") ≡ false
keys_differ d e = text_eq-false _ _ (λ h.
    let f : lit "fileCount" ≡ lit "totalSize" =
      sym (after_last-append b'_' d (lit "fileCount") (omega arith))
      ∙ ap (after_last b'_') h
      ∙ after_last-append b'_' e (lit "totalSize") (omega arith) in
    omega (arith, ap (λ t. get_or t 0 0) f))

added_one :
    (o : Option ℤ) (n : ℕ) → or_zero o ≡ pos n → n < max_int64 → added o (pos 1) ≡ pos (suc n)
unfolding add_int64 ◌+ℤ◌
added_one o n e h = ground arith

added_minus_one :
    (o : Option ℤ) (n : ℕ)
    → or_zero o ≡ pos (suc n)
    → suc n ≤ max_int64
    → added o (negsuc 0) ≡ pos n
unfolding add_int64 ◌+ℤ◌
added_minus_one o n e h = ground arith

module _ (D : Database) (M : CountMap) (hash : Text → Text) (day : ℤ → Text)
    (counting : IsCounting M) where
  -- The count of a day, 0 where there is none
  abbrev pub count_at : Text → Meta D.State M.State → ℤ
  count_at d s = or_zero (M.value s.counts (d ++ lit "_fileCount"))

  pub counts-save_stat : (s : Meta D.State M.State) → (save_stat D M hash day s).counts ≡ s.counts
  unfolding save_stat
  counts-save_stat s = ground arith

  count_at-add_counts :
      (d : Text) (info : FileInfo) (n size : ℤ) (s : Meta D.State M.State)
      → count_at d (add_counts D M hash day info n size s) ≡ (
          if text_eq d (day info.time_stamp)
          then added (M.value s.counts (d ++ lit "_fileCount")) n
          else count_at d s)
  unfolding add_counts
  count_at-add_counts d info n size s = elim (Bool-cases (text_eq d (day info.time_stamp))) [
    | inl e ↦
        rw
          (
            counts-save_stat,
            counting.value-add_count,
            keys_differ,
            counting.value-add_count,
            text_eq-append_right,
            e,
            text_eq_sound d (day info.time_stamp) e,
          )
          refl
    | inr e ↦
        rw
          (
            counts-save_stat, counting.value-add_count, keys_differ, counting.value-add_count,
            text_eq-append_right, e,
          )
          refl
  ]

  abbrev count_change : Text → FileInfo → ℤ → Meta D.State M.State → ℤ
  count_change d info n s =
      if text_eq d (day info.time_stamp)
      then added (M.value s.counts (d ++ lit "_fileCount")) n
      else count_at d s

  count_at-save_file :
      (d : Text) (info : FileInfo) (s : Meta D.State M.State)
      → count_at d (save_file D M hash day info s)
        ≡ (if is_some (D.get s.files info.md5) then count_at d s else count_change d info (pos 1) s)
  unfolding save_file save_file_info
  count_at-save_file d info s = elim (Bool-cases (is_some (D.get s.files info.md5))) [
    | inl e ↦ rw e refl
    | inr e ↦ rw e (count_at-add_counts d info (pos 1) info.size s)
  ]

  count_at-remove_file :
      (d : Text) (info : FileInfo) (s : Meta D.State M.State)
      → count_at d (remove_file D M hash day info s) ≡ (
          if is_some (D.get s.files info.md5)
          then count_change d info (negsuc 0) s
          else count_at d s)
  unfolding remove_file remove_key
  count_at-remove_file d info s = elim (Bool-cases (is_some (D.get s.files info.md5))) [
    | inl e ↦ rw e (count_at-add_counts d info (negsuc 0) (negated info.size) s)
    | inr e ↦ rw e refl
  ]

  module _ (lawful : IsLawful D) (writable : IsWritable D) (day_of : Text → Text)
      (is_content : Text → Bool) where
    -- A log whose file has the day of its hash, a hash of a content, and a path whose hash is none.
    abbrev pub IsRegular : FileLog → Type 0
    IsRegular l =
        (day l.info.time_stamp ≡ day_of l.info.md5)
        × (is_content l.info.md5 ≡ true)
        × (is_content (hash (full_path l.info)) ≡ false)

    abbrev pub AreRegular : List FileLog → Type 0
    AreRegular [] = Unit {0}
    AreRegular (l ∷ ls) = IsRegular l × AreRegular ls

    abbrev pub Finds : Meta D.State M.State → List Text → Type 0
    Finds s set = (k : Text) → is_content k ≡ true → is_some (D.get s.files k) ≡ contains k set

    abbrev pub Counts : Meta D.State M.State → List Text → Type 0
    Counts s set = (d : Text) → count_at d s ≡ pos (tally day_of d set)

    other_path :
        (k : Text) (l : FileLog)
        → IsRegular l
        → is_content k ≡ true
        → text_eq k (hash (full_path l.info)) ≡ false
    other_path k l (_, _, n) c =
        text_eq-false _ _
          (λ e. let f : true ≡ false = sym c ∙ ap is_content e ∙ n in absurd (ground arith))

    Finds-save_file_md5_log :
        (l : FileLog) (s : Meta D.State M.State) (set : List Text)
        → IsRegular l
        → Finds s set
        → Finds (save_file_md5_log D M hash day l s) (present_after l set)
    unfolding entry_after present_after
    Finds-save_file_md5_log l s set r h k c =
        ap is_some (find-save_file_md5_log D M hash day lawful writable k l s)
        ∙ ground (
          arith,
          other_path k l r c,
          h k c,
          contains-insert k l.info.md5 set,
          contains-without k l.info.md5 set,
        )

    Counts-save_file :
        (info : FileInfo) (s : Meta D.State M.State) (set : List Text)
        → day info.time_stamp ≡ day_of info.md5
        → is_some (D.get s.files info.md5) ≡ contains info.md5 set
        → length set < max_int64
        → Counts s set
        → Counts (save_file D M hash day info s) (insert info.md5 set)
    Counts-save_file info s set t f b h d = elim (Bool-cases (contains info.md5 set)) [
      | inl e ↦ rw (count_at-save_file, f, e) (h d)
      | inr e ↦
          rw (count_at-save_file, f, e, t)
            (elim (Bool-cases (text_eq d (day_of info.md5))) [
              | inl g ↦ rw g (
                  added_one _ (tally day_of d set) (h d) (omega (arith, tally-length day_of d set)))
              | inr g ↦ rw g (h d)
            ])
    ]

    Counts-remove_file :
        (info : FileInfo) (s : Meta D.State M.State) (set : List Text)
        → day info.time_stamp ≡ day_of info.md5
        → is_some (D.get s.files info.md5) ≡ contains info.md5 set
        → IsDistinct set
        → length set < max_int64
        → Counts s set
        → Counts (remove_file D M hash day info s) (without info.md5 set)
    Counts-remove_file info s set t f i b h d = elim (Bool-cases (contains info.md5 set)) [
      | inl e ↦
          rw (count_at-remove_file, f, e, t)
            (elim (Bool-cases (text_eq d (day_of info.md5))) [
              | inl g ↦
                  let z = tally-without_same day_of d info.md5 set i e g in
                  rw g (
                    added_minus_one _ _ (h d ∙ ap pos z)
                      (omega (arith, z, tally-length day_of d set)))
              | inr g ↦ rw g (h d ∙ ap pos (tally-without_other day_of d info.md5 set i e g))
            ])
      | inr e ↦
          rw (count_at-remove_file, f, e)
            (h d ∙ ap (λ t. pos (tally day_of d t)) (sym (without_absent info.md5 set e)))
    ]

    Counts-save_file_md5_log :
        (l : FileLog) (s : Meta D.State M.State) (set : List Text)
        → IsRegular l
        → Finds s set
        → IsDistinct set
        → length set < max_int64
        → Counts s set
        → Counts (save_file_md5_log D M hash day l s) (present_after l set)
    unfolding save_file_md5_log present_after save_file_info
    Counts-save_file_md5_log l s set r f i b h =
        let e = f l.info.md5 r.1 in
        elim (Bool-cases (text_eq l.info.md5 [] || text_eq l.file_name [])) [
          | inl a ↦ rw a h
          | inr a ↦ elim (Bool-cases (text_eq l.file_name file_log)) [
            | inl g ↦ rw (a, g) (Counts-save_file l.info s set r.0 e b h)
            | inr g ↦ elim (Bool-cases (text_eq l.file_name remove_log)) [
              | inl q ↦ rw (a, g, q) (Counts-remove_file l.info s set r.0 e i b h)
              | inr q ↦ rw (a, g, q) h
            ]
          ]
        ]

    -- The counts of the days behind the logs: where every hash has one day, and no hash of a path is
    -- the hash of a content, and the counts and the database agree with a list of hashes before the
    -- logs, the count of each day is the number of the files of that day that the logs leave.
    pub count_at-consume_logs :
        (ls : List FileLog) (s : Meta D.State M.State) (set : List Text)
        → AreRegular ls
        → length ls + length set ≤ max_int64
        → Finds s set
        → IsDistinct set
        → Counts s set
        → (d : Text)
        → count_at d (consume_logs D M hash day ls s) ≡ pos (tally day_of d (present ls set))
    unfolding consume_logs present
    count_at-consume_logs [] s set r b f i h = h
    count_at-consume_logs (l ∷ ls) s set r b f i h =
        count_at-consume_logs ls (save_file_md5_log D M hash day l s) (present_after l set) r.1
          (omega (arith, length-present_after l set)) (Finds-save_file_md5_log l s set r.0 f)
          (present_after-IsDistinct l set i)
          (Counts-save_file_md5_log l s set r.0 f i (omega arith) h)
