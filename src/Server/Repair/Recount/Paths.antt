-- ===== src/Server/Repair/Recount/Paths.antt =====
-- What `RepairStatByDate` of server/http_repair.go counts.
use go_fastdfs.Prelude.{
  ℕ, ◌+◌, ◌≤◌, ◌≡◌, refl, ◌∙◌, sym, ap, Bool, true, false, ◌&&◌, ◌||◌, Option, none, some, List, [],
  ◌∷◌, ◌++◌, arith, length, suc, inl, inr, Bool-cases,
}
use go_fastdfs.Prelude.Int.{ℤ, pos, add_int64, ◌+ℤ◌}
use go_fastdfs.Prelude.Decimal.{max_int64}
use go_fastdfs.Prelude.Text.{Text, lit, text_eq, text_eq_sound, text_eq_refl}
use go_fastdfs.Prelude.TextSet.{contains, IsDistinct}
use go_fastdfs.Server.Types.{FileInfo, Config}
use go_fastdfs.Server.Database.{Database, CountMap, IsCounting}
use go_fastdfs.Server.Disk.{Disk, exists}
use go_fastdfs.Server.Meta.{Meta}
use go_fastdfs.Server.Meta.Counts.{keys_differ, counts-save_stat}
use go_fastdfs.Server.Repair.Recount.{
  Recount, disk_path, count_path, recount, fresh_recount, repair_stat_by_date,
}

-- A record of the log has this path.
abbrev pub is_logged : Config → List (Option FileInfo) → Text → Bool
is_logged c [] path = false
is_logged c (none ∷ entries) path = is_logged c entries path
is_logged c (some info ∷ entries) path = text_eq path (disk_path c info) || is_logged c entries path

-- The paths that were met, each counted once
abbrev IsCount : (Text → Bool) → Recount → Type 0
IsCount met r =
    IsDistinct r.paths
    × (r.count ≡ pos (length r.paths))
    × ((path : Text) → contains path r.paths ≡ met path)

add_one : (n : ℕ) → suc n ≤ max_int64 → add_int64 (pos n) (pos 1) ≡ pos (suc n)
unfolding add_int64 ◌+ℤ◌
add_one n h = ground arith

IsCount-same :
    (f g : Text → Bool) (r : Recount)
    → ((path : Text) → f path ≡ g path)
    → IsCount f r
    → IsCount g r
IsCount-same f g r same (distinct, count, met) = (distinct, count, λ path. met path ∙ same path)

count_path-IsCount :
    (met : Text → Bool) (path : Text) (size : ℤ) (r : Recount)
    → IsCount met r
    → suc (length r.paths) ≤ max_int64
    → IsCount (λ p. met p || text_eq p path) (count_path path size r)
      × (length (count_path path size r).paths ≤ suc (length r.paths))
unfolding count_path
count_path-IsCount met path size r (distinct, count, same) h =
    elim (Bool-cases (contains path r.paths)) [
      | inl e ↦ rw e (
        (
          distinct,
          count,
          λ p. elim (Bool-cases (text_eq p path)) [
            | inl f ↦
                rw f (ap (λ q. contains q r.paths) (text_eq_sound p path f) ∙ ground (arith, e))
            | inr f ↦ ground (arith, f, same p)
          ],
        ),
        omega arith,
      )
      | inr e ↦ rw e (
        (
          (e, distinct),
          rw count (add_one (length r.paths) h),
          λ p. rw (sym (same p)) (ground arith),
        ),
        omega arith,
      )
    ]

module _ (c : Config) (d : Disk) where
  abbrev met_after : (Text → Bool) → List (Option FileInfo) → Text → Bool
  met_after met entries path = met path || (exists d path && is_logged c entries path)

  met_there :
      (met : Text → Bool) (info : FileInfo) (entries : List (Option FileInfo)) (path : Text)
      → exists d (disk_path c info) ≡ true
      → met_after (λ p. met p || text_eq p (disk_path c info)) entries path
        ≡ met_after met (some info ∷ entries) path
  met_there met info entries path h = elim (Bool-cases (text_eq path (disk_path c info))) [
    | inl e ↦
        let f : exists d path ≡ true =
          ap (exists d) (text_eq_sound path (disk_path c info) e) ∙ h in
        rw (e, f) (ground arith)
    | inr e ↦ rw e (ground arith)
  ]

  met_absent :
      (met : Text → Bool) (info : FileInfo) (entries : List (Option FileInfo)) (path : Text)
      → exists d (disk_path c info) ≡ false
      → met_after met entries path ≡ met_after met (some info ∷ entries) path
  met_absent met info entries path h = elim (Bool-cases (text_eq path (disk_path c info))) [
    | inl e ↦
        let f : exists d path ≡ false =
          ap (exists d) (text_eq_sound path (disk_path c info) e) ∙ h in
        rw (e, f) (ground arith)
    | inr e ↦ rw e (ground arith)
  ]

  recount-IsCount :
      (met : Text → Bool) (entries : List (Option FileInfo)) (r : Recount)
      → IsCount met r
      → length r.paths + length entries ≤ max_int64
      → IsCount (met_after met entries) (recount c d entries r)
  unfolding recount
  recount-IsCount met [] r i h = IsCount-same met (met_after met []) r (λ path. ground arith) i
  recount-IsCount met (none ∷ entries) r i h = recount-IsCount met entries r i (omega (arith, h))
  recount-IsCount met (some info ∷ entries) r i h =
      elim (Bool-cases (exists d (disk_path c info))) [
        | inl e ↦
            let path = disk_path c info in
            let (j, n) = count_path-IsCount met path info.size r i (omega (arith, h)) in
            let seen : Text → Bool = λ p. met p || text_eq p path in
            let after = count_path path info.size r in
            rw (recount, e)
              (IsCount-same (met_after seen entries) (met_after met (some info ∷ entries))
                (recount c d entries after) (λ p. met_there met info entries p e)
                (recount-IsCount seen entries after j (omega (arith, n, h))))
        | inr e ↦
            rw (recount, e)
              (IsCount-same (met_after met entries) (met_after met (some info ∷ entries))
                (recount c d entries r) (λ p. met_absent met info entries p e)
                (recount-IsCount met entries r i (omega (arith, h))))
      ]

counts_differ :
    (date : Text) → text_eq (date ++ lit "_fileCount") (date ++ lit "_totalSize") ≡ false
counts_differ date = keys_differ date date

module _ (D : Database) (M : CountMap) (hash : Text → Text) (day : ℤ → Text)
    (counting : IsCounting M) (c : Config) (d : Disk) (entries : List (Option FileInfo))
    (date : Text) (s : Meta D.State M.State) where
  -- Where the log of a day has no more entries than an int64 can count, RepairStatByDate counts the
  -- distinct paths at which a record of the log names a file that is on the disk: the row that it
  -- returns and the count of the day that it leaves are the number of these paths.
  pub repair_stat_by_date-paths :
      length entries ≤ max_int64
      → let (t, row) = repair_stat_by_date D M hash day c d entries date s in
        (paths : List Text) × IsDistinct paths
        × ((path : Text) → contains path paths ≡ (exists d path && is_logged c entries path))
        × (row.file_count ≡ pos (length paths))
        × (M.value t.counts (date ++ lit "_fileCount") ≡ some (pos (length paths)))
  unfolding repair_stat_by_date
  repair_stat_by_date-paths h =
      let r = recount c d entries fresh_recount in
      let (distinct, count, met) =
        recount-IsCount c d (λ _. false) entries fresh_recount (tt, refl, λ path. refl)
          (omega (arith, h)) in
      (
        r.paths,
        distinct,
        met,
        count,
        rw
            (
              counts-save_stat, counting.value-put, counts_differ, counting.value-put, text_eq_refl,
              count,
            )
            refl,
      )
