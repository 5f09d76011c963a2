-- ===== src/Server/Remove/Effects.antt =====
-- What `RemoveFile` (server/http_remove.go) leaves: of the file, of its records and for its URL.
use go_fastdfs.Prelude.{
  ◌≡◌, refl, ◌∙◌, sym, ◌⊎◌, inl, inr, Bool, true, false, not, ◌&&◌, ◌||◌, Option, none, some, List,
  [], ◌∷◌, ◌++◌, arith, Bool-cases, Option-cases, ltb, length,
}
use mathlib.Core.Path.{subst}
use go_fastdfs.Prelude.Int.{ℤ}
use go_fastdfs.Prelude.Text.{Text, text_eq, text_eq_refl}
use go_fastdfs.Server.Types.{FileInfo, Config, remove_log}
use go_fastdfs.Server.Database.{Database, CountMap, IsLawful, IsWritable}
use go_fastdfs.Server.Meta.{Meta, FileLog, full_path, consume_logs}
use go_fastdfs.Server.Meta.Lookup.{entry_of, find-consume_logs}
use go_fastdfs.Server.Remove.{
  Removal, remove_key_of, remove_file_by, is_small, ask_peers, remove_found,
}

module _ (hash : Text → Text) (find : Text → Option FileInfo) (exists removes : Text → Bool) where
  -- Nothing is logged and nothing removed.
  abbrev pub IsIdle : Removal → Type 0
  IsIdle r = (r.log ≡ none) × (r.removed ≡ none)

  -- One file that is there and no small file is logged as removed and asked to be removed.
  abbrev pub IsRemoval : Config → Text → Removal → Type 0
  IsRemoval c key r =
      (info : FileInfo) × (find key ≡ some info)
      × (is_small info.offset ≡ false)
      × (exists (c.docker_dir ++ full_path info) ≡ true)
      × (r.log ≡ some (record { info = info; file_name = remove_log }))
      × (r.removed ≡ some (c.docker_dir ++ full_path info))

  remove_found-cases :
      (c : Config) (asked : List (Text × Text)) (key : Text) (info : FileInfo)
      → find key ≡ some info
      → IsIdle (remove_found hash find exists removes c asked info)
        ⊎ IsRemoval c key (remove_found hash find exists removes c asked info)
  unfolding remove_found
  remove_found-cases c asked key info e = elim (Bool-cases (is_small info.offset)) [
    | inl s ↦ rw s (inl (refl, refl))
    | inr s ↦ elim (Bool-cases (text_eq info.path [])) [
      | inl p ↦ rw (s, p) (inl (refl, refl))
      | inr p ↦ elim (Bool-cases (exists (c.docker_dir ++ full_path info))) [
        | inl x ↦ inr (info, e, s, x, rw (s, p, x) refl, rw (s, p, x) refl)
        | inr x ↦ rw (s, p, x) (inl (refl, refl))
      ]
    ]
  ]

  -- `RemoveFile` either leaves the log and the disk alone, or the request is a peer's, and it logs
  -- and removes the one file whose record it finds under the hash of the request.
  pub remove_file_by-cases :
      (c : Config) (peer auth : Bool) (md5 path inner : Text)
      → let r = remove_file_by hash find exists removes c peer auth md5 path inner in
        IsIdle r
        ⊎ ((peer ≡ true) × IsRemoval c (remove_key_of hash find exists removes c md5 path) r)
  unfolding remove_file_by
  remove_file_by-cases c false auth md5 path inner = inl (refl, refl)
  remove_file_by-cases c true auth md5 path inner =
      let key = remove_key_of hash find exists removes c md5 path in
      elim (Bool-cases (not (text_eq c.auth_url []) && not auth)) [
        | inl a ↦ rw a (inl (refl, refl))
        | inr a ↦ elim (Bool-cases (ltb (length key) 32)) [
          | inl l ↦ rw (a, l) (inl (refl, refl))
          | inr l ↦ elim (Option-cases (find key)) [
            | inl f ↦ rw (a, l, f) (inl (refl, refl))
            | inr (info, f) ↦
                let asked = ask_peers hash find exists removes c inner key in
                let q : remove_file_by hash find exists removes c true auth md5 path inner
                    ≡ remove_found hash find exists removes c asked info =
                  rw (a, l, f) refl in
                subst (λ r. IsIdle r ⊎ ((true ≡ true) × IsRemoval c key r)) (sym q)
                  (elim (remove_found-cases c asked key info f) [
                    | inl i ↦ inl i
                    | inr i ↦ inr (refl, i)
                  ])
          ]
        ]
      ]

or_true : (b : Bool) → (b || true) ≡ true
or_true b = ground arith

abbrev pub removal_of : FileInfo → FileLog
removal_of info = record { info = info; file_name = remove_log }

-- Behind the log of a removal the record of the file is found neither by its hash nor by the hash
-- of its path.
find-removal_of :
    (D : Database) (M : CountMap) (hash : Text → Text) (day : ℤ → Text) (lawful : IsLawful D)
    (writable : IsWritable D) (s : Meta D.State M.State) (info : FileInfo)
    → text_eq info.md5 [] ≡ false
    → let t = consume_logs D M hash day (removal_of info ∷ []) s in
      (D.get t.files info.md5 ≡ none) × (D.get t.files (hash (full_path info)) ≡ none)
unfolding entry_of
find-removal_of D M hash day lawful writable s info n = (
  find-consume_logs D M hash day lawful writable info.md5 (removal_of info ∷ []) s
      ∙ rw (n, text_eq_refl info.md5) (unfold text_eq in refl),
  find-consume_logs D M hash day lawful writable (hash (full_path info)) (removal_of info ∷ []) s
      ∙ rw (n, text_eq_refl (hash (full_path info)), or_true) (unfold text_eq in refl),
)
