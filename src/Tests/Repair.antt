-- ===== src/Tests/Repair.antt =====
-- A repair between two servers (server/http_repair.go) at concrete data.
use go_fastdfs.Prelude.{
  ℕ, ◌≡◌, refl, inl, inr, false, not, ◌&&◌, Option, List, [], ◌∷◌, ◌==◌, arith, Bool-cases,
}
use go_fastdfs.Prelude.Text.{Text, lit, text_eq, has_prefix}
use go_fastdfs.Prelude.TextSet.{contains}
use go_fastdfs.Prelude.Split.{split, join, cons_head}
use go_fastdfs.Server.Types.{FileInfo, file_log, out_name}
use go_fastdfs.Server.Database.{is_some}
use go_fastdfs.Server.Repair.{
  differences, get_md5s_by_date, get_md5s_for_web, receive_md5s, queue_found,
}
use go_fastdfs.Server.Repair.Sets.{AllLack, contains-split-join}
use go_fastdfs.Server.Repair.Keyed.{ArePathsOther, consume_logs-IsKeyed}
use go_fastdfs.Server.Meta.{FileLog, consume_logs}
use go_fastdfs.Tests.Data.{hello}
use go_fastdfs.Tests.Memory.{memory, tally_map, memory-IsLawful, memory-IsWritable}
use go_fastdfs.Tests.Meta.{hash, day, empty}
use go_fastdfs.Server.Repair.Exchange.{IsSetText, IsKeyed, hashes, differences-hashes}

AllLack-cons_head :
    (c d : ℕ) (xs : List Text) → (d == c) ≡ false → AllLack c xs → AllLack c (cons_head d xs)
AllLack-cons_head c d [] n h = (ground arith, tt)
AllLack-cons_head c d (x ∷ xs) n h = ((ground arith, h.0), h.1)

AllLack-split : (c : ℕ) (s : Text) → AllLack c (split c s)
unfolding split
AllLack-split c [] = (tt, tt)
AllLack-split c (d ∷ s) = elim (Bool-cases (d == c)) [
  | inl e ↦ rw e (tt, AllLack-split c s)
  | inr e ↦ rw e (AllLack-cons_head c d (split c s) e (AllLack-split c s))
]

sets : IsSetText (split b',') (join b',')
sets = record {
  contains-str_to_set = λ m s. refl;
  AllLack-str_to_set = AllLack-split b',';
  contains-set_to_str = λ m set l n. contains-split-join b',' m set l n;
}

-- A server that has logged files with these hashes; it has their records under the hashes of their
-- paths too.
abbrev logs_of : List Text → List FileLog
logs_of [] = []
logs_of (m ∷ set) =
    record { info = record hello { md5 = m; path = lit "files" }; file_name = file_log }
    ∷ logs_of set

abbrev find : List Text → Text → Option FileInfo
find set k = memory.get (consume_logs memory tally_map hash day (logs_of set) empty).files k

find-IsKeyed :
    (set days : List Text) → ArePathsOther hash days (logs_of set) → IsKeyed (find set) days
find-IsKeyed set days p =
    consume_logs-IsKeyed memory tally_map hash day memory-IsLawful memory-IsWritable days
      (logs_of set) empty (λ k. refl) p

abbrev date : Text
date = lit "20240102"

abbrev keys : List Text
keys = lit "20240102_files.md5_aa" ∷ lit "20240102_files.md5_bb" ∷ []

abbrev peer_keys : List Text
peer_keys = lit "20240102_files.md5_bb" ∷ lit "20240102_files.md5_cc" ∷ []

asked_by_run :
    receive_md5s
      (find (lit "bb" ∷ lit "cc" ∷ []))
      (differences
        (split b',')
        (join b',')
        (get_md5s_by_date keys date (lit "files.md5"))
        (get_md5s_for_web peer_keys date)).asked
    ≡ queue_found (find (lit "bb" ∷ lit "cc" ∷ [])) (lit "cc" ∷ [])
unfolding receive_md5s differences get_md5s_by_date get_md5s_for_web split join has_prefix text_eq
    queue_found consume_logs
asked_by_run = refl

differences-hashes_example :
    let d =
      differences
        (split b',')
        (join b',')
        (get_md5s_by_date keys date (lit "files.md5"))
        (get_md5s_for_web peer_keys date) in
    (contains (lit "cc") (hashes (receive_md5s (find (lit "cc" ∷ [])) d.asked)) ≡ (
      contains (lit "cc") (get_md5s_by_date peer_keys date (lit "files.md5"))
      && not (contains (lit "cc") (get_md5s_by_date keys date (lit "files.md5")))
      && is_some (find (lit "cc" ∷ []) (lit "cc"))))
    × (contains (lit "cc") (hashes (queue_found (find (lit "aa" ∷ [])) d.offered)) ≡ (
        contains (lit "cc") (get_md5s_by_date keys date (lit "files.md5"))
        && not (contains (lit "cc") (get_md5s_by_date peer_keys date (lit "files.md5")))
        && is_some (find (lit "aa" ∷ []) (lit "cc"))))
differences-hashes_example =
    differences-hashes (split b',') (join b',') sets keys peer_keys date (find (lit "aa" ∷ []))
      (find (lit "cc" ∷ [])) (lit "cc") (λ h. absurd (ground arith))
      (unfold get_md5s_by_date split has_prefix text_eq in omega arith)
      (unfold get_md5s_by_date split has_prefix text_eq in omega arith)
      (find-IsKeyed (lit "aa" ∷ []) _
        (unfold get_md5s_by_date split has_prefix text_eq out_name in (refl, tt)))
      (find-IsKeyed (lit "cc" ∷ []) _
        (unfold get_md5s_by_date split has_prefix text_eq out_name in (refl, tt)))
