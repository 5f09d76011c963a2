-- ===== src/Server/Repair/Keyed.antt =====
-- The records that a server finds under the hashes of its logs (server/fileserver.go), for a repair.
use go_fastdfs.Prelude.{
  ◌≡◌, sym, ◌∙◌, ap, true, false, ◌||◌, Option, none, some, List, [], ◌∷◌, arith, Bool-cases, inl,
  inr,
}
use go_fastdfs.Prelude.Int.{ℤ}
use go_fastdfs.Prelude.Text.{Text, text_eq, text_eq_sound}
use go_fastdfs.Prelude.TextSet.{contains}
use go_fastdfs.Server.Types.{FileInfo, file_log, remove_log}
use go_fastdfs.Server.Database.{Database, CountMap, IsLawful, IsWritable}
use go_fastdfs.Server.Meta.{Meta, FileLog, stored, full_path, consume_logs}
use go_fastdfs.Server.Meta.Lookup.{entry_after, entry_of, find-consume_logs}
use go_fastdfs.Server.Repair.Exchange.{IsKeyed}

-- No hash of the set is the hash of the path of a file of the logs.
abbrev pub ArePathsOther : (Text → Text) → List Text → List FileLog → Type 0
ArePathsOther hash set [] = Unit {0}
ArePathsOther hash set (l ∷ ls) =
    (contains (hash (full_path l.info)) set ≡ false) × ArePathsOther hash set ls

abbrev Keyed : Text → Option FileInfo → Type 0
Keyed k o = (info : FileInfo) → o ≡ some info → info.md5 ≡ k

some_injective : (a b : FileInfo) → some a ≡ some b → a ≡ b
some_injective a b h = cc

entry_after-Keyed :
    (hash : Text → Text) (k : Text) (l : FileLog) (old : Option FileInfo)
    → text_eq k (hash (full_path l.info)) ≡ false
    → Keyed k old
    → Keyed k (entry_after hash k l old)
unfolding entry_after
entry_after-Keyed hash k l old n h =
    elim (Bool-cases (text_eq l.info.md5 [] || text_eq l.file_name [])) [
      | inl a ↦ rw a h
      | inr a ↦ elim (Bool-cases (text_eq k l.info.md5)) [
        | inr m ↦ rw (a, m, n) h
        | inl m ↦ elim (Bool-cases (text_eq l.file_name file_log)) [
          | inl f ↦
              rw (a, m, f)
                (λ info e.
                  ap (λ (i : FileInfo). i.md5) (sym (some_injective (stored l.info) info e))
                  ∙ sym (text_eq_sound k l.info.md5 m))
          | inr f ↦ elim (Bool-cases (text_eq l.file_name remove_log)) [
            | inl r ↦ rw (a, m, f, r) (λ info e. absurd (ground arith))
            | inr r ↦ rw (a, m, f, r) h
          ]
        ]
      ]
    ]

entry_of-Keyed :
    (hash : Text → Text) (k : Text) (set : List Text) (ls : List FileLog) (old : Option FileInfo)
    → contains k set ≡ true
    → ArePathsOther hash set ls
    → Keyed k old
    → Keyed k (entry_of hash k ls old)
unfolding entry_of
entry_of-Keyed hash k set [] old c p h = h
entry_of-Keyed hash k set (l ∷ ls) old c (n, p) h =
    entry_of-Keyed hash k set ls (entry_after hash k l old) c p
      (entry_after-Keyed hash k l old (apart c n) h)
  where
    apart :
        contains k set ≡ true
        → contains (hash (full_path l.info)) set ≡ false
        → text_eq k (hash (full_path l.info)) ≡ false
    apart c n = elim (Bool-cases (text_eq k (hash (full_path l.info)))) [
      | inl e ↦
          let same = ap (λ x. contains x set) (text_eq_sound k (hash (full_path l.info)) e) in cc
      | inr e ↦ e
    ]

-- Behind a queue of logs a record that is found under a hash of a set has this hash, unless the hash is
-- that of the path of a logged file.
pub consume_logs-IsKeyed :
    (D : Database) (M : CountMap) (hash : Text → Text) (day : ℤ → Text) (lawful : IsLawful D)
    (writable : IsWritable D) (set : List Text) (ls : List FileLog) (s : Meta D.State M.State)
    → ((k : Text) → D.get s.files k ≡ none)
    → ArePathsOther hash set ls
    → IsKeyed (λ k. D.get (consume_logs D M hash day ls s).files k) set
consume_logs-IsKeyed D M hash day lawful writable set ls s empty p k info c h =
    entry_of-Keyed hash k set ls none c p (λ i e. absurd (ground arith)) info
      (ap (entry_of hash k ls) (sym (empty k))
        ∙ sym (find-consume_logs D M hash day lawful writable k ls s)
        ∙ h)
