-- ===== src/Server/SmallFile/Store.antt =====
-- Small files in a large file: what was saved is sent again, whatever is saved behind it.
use go_fastdfs.Prelude.{
  ℕ, ◌+◌, ◌≤◌, ◌<◌, ◌≡◌, refl, ◌∙◌, ap, sym, false, Option, none, some, List, [], ◌∷◌, ◌++◌, arith,
  append_assoc, length, length-append, take, drop, append-nil,
}
use go_fastdfs.Prelude.Int.{ℤ, pos, add_int64, ltb_ℤ, ◌+ℤ◌}
use go_fastdfs.Prelude.Text.{Text, drop-append}
use go_fastdfs.Prelude.Split.{Lacks}
use go_fastdfs.Prelude.Decimal.{max_int64}
use go_fastdfs.Server.Types.{FileInfo, Config, small_file_size}
use go_fastdfs.Server.SmallFile.{
  Fault, open_source, open_target, write_mark, seek_end, copy, read_parsed, save_small_file, Read,
  bytes, get_small_file, sent, content, small_name, path_ext,
}
use go_fastdfs.Server.SmallFile.Name.{parsed, parse_small_file-small_name}

-- The documented behaviour of `goutil.ReadFileByOffSet`: a part that lies in the file is read.
abbrev pub ReadsParts : (List ℕ → ℤ → ℤ → Read) → Type 0
ReadsParts read =
    (file : List ℕ) (offset size : ℕ)
    → offset + size ≤ length file
    → read file (pos offset) (pos size) ≡ bytes (take size (drop offset file))

take-append {ℓ} : {A : Type ℓ} (xs ys : List A) → take (length xs) (xs ++ ys) ≡ xs
take-append [] ys = refl
take-append (x ∷ xs) ys = ap (λ t. x ∷ t) (take-append xs ys)

-- A later call of `SaveSmallFile` on the same large file
pub record Later : Type 0 where
  pub source : Option (List ℕ)
  pub fault : Option Fault
  pub info : FileInfo

unfoldable pub save_all : Config → Text → List ℕ → List Later → List ℕ
save_all c re_name large [] = large
save_all c re_name large (l ∷ ls) =
    save_all c re_name (save_small_file c re_name l.fault large l.source l.info).large ls

-- Every branch leaves the large file as it was, with some bytes behind it.
large-save_small_file :
    (c : Config) (re_name : Text) (fault : Option Fault) (large : List ℕ) (source : Option (List ℕ))
    (info : FileInfo)
    → (t : List ℕ) × ((save_small_file c re_name fault large source info).large ≡ large ++ t)
unfolding save_small_file
large-save_small_file c re_name fault large none info = ([], sym (append-nil large))
large-save_small_file c re_name none large (some source) info =
    (49 ∷ source, append_assoc large (49 ∷ []) source)
large-save_small_file c re_name (some open_source) large (some source) info =
    ([], sym (append-nil large))
large-save_small_file c re_name (some open_target) large (some source) info =
    ([], sym (append-nil large))
large-save_small_file c re_name (some write_mark) large (some source) info =
    ([], sym (append-nil large))
large-save_small_file c re_name (some seek_end) large (some source) info = (49 ∷ [], refl)
large-save_small_file c re_name (some (copy n)) large (some source) info =
    (49 ∷ take n source, append_assoc large (49 ∷ []) (take n source))

save_all-append :
    (c : Config) (re_name : Text) (large : List ℕ) (ls : List Later)
    → (t : List ℕ) × (save_all c re_name large ls ≡ large ++ t)
unfolding save_all
save_all-append c re_name large [] = ([], sym (append-nil large))
save_all-append c re_name large (l ∷ ls) =
    let (u, d) = large-save_small_file c re_name l.fault large l.source l.info in
    let (t, e) =
      save_all-append c re_name (save_small_file c re_name l.fault large l.source l.info).large
        ls in
    (u ++ t, e ∙ ap (λ x. x ++ t) d ∙ append_assoc large u t)

pub re_name-save_small_file :
    (c : Config) (re_name : Text) (large source : List ℕ) (info : FileInfo)
    → info.size ≡ pos (length source)
    → (save_small_file c re_name none large (some source) info).info.re_name
      ≡ small_name re_name (pos (length large)) (pos (length (49 ∷ source))) (path_ext info.name)
unfolding save_small_file
re_name-save_small_file c re_name large source info z =
    let e : info.size +ℤ pos 1 ≡ pos (length (49 ∷ source)) = rw z (unfold ◌+ℤ◌ in ground arith) in
    ap (λ n. small_name re_name (pos (length large)) n (path_ext info.name)) e

save_all-save_small_file :
    (c : Config) (re_name : Text) (large source : List ℕ) (info : FileInfo) (later : List Later)
    → (t : List ℕ) × (save_all c re_name
          (save_small_file c re_name none large (some source) info).large
          later
        ≡ large ++ ((49 ∷ source) ++ t))
unfolding save_small_file
save_all-save_small_file c re_name large source info later =
    let (t, e) = save_all-append c re_name ((large ++ 49 ∷ []) ++ source) later in
    (
      t,
      e
          ∙ ap (λ x. x ++ t) (append_assoc large (49 ∷ []) source)
          ∙ append_assoc large (49 ∷ source) t,
    )

module _ (read : List ℕ → ℤ → ℤ → Read) (reads : ReadsParts read) where
  read_parsed_part :
      (name : Text) (before mid after : List ℕ)
      → length before + length mid ≤ max_int64
      → read_parsed read
          (parsed name (length before) (length mid))
          (some (before ++ (mid ++ after)))
        ≡ bytes mid
  unfolding read_parsed
  read_parsed_part name before mid after h =
      let n : length (before ++ (mid ++ after)) ≡ length before + (length mid + length after) =
        omega (arith, length-append before (mid ++ after), length-append mid after) in
      let fits : ltb_ℤ (pos (length (before ++ (mid ++ after))))
            (add_int64 (pos (length before)) (pos (length mid)))
          ≡ false =
        rw n (ground arith) in
      rw
        (
          fits,
          reads (before ++ (mid ++ after)) (length before) (length mid) (omega (arith, n)),
          drop-append,
          take-append,
        )
        refl

  -- A file that `SaveSmallFile` has put into the large file is sent, whatever is saved behind it,
  -- faults included, to a request for its new name, at any path and with any query that has no slash.
  pub sent-save_small_file :
      (c : Config) (re_name dir query : Text) (large source : List ℕ) (info : FileInfo)
      (later : List Later)
      → info.size ≡ pos (length source)
      → length source < small_file_size
      → length large + length source < max_int64
      → Lacks b',' re_name
      → Lacks b'/' re_name
      → Lacks b'/' (path_ext info.name ++ query)
      → let s = save_small_file c re_name none large (some source) info in
        sent (
          get_small_file read
            (dir ++ b'/' ∷ (s.info.re_name ++ query))
            (some (save_all c re_name s.large later)))
        ≡ content source
  unfolding get_small_file
  sent-save_small_file c re_name dir query large source info later z small fits lc ls le =
      let (t, e) = save_all-save_small_file c re_name large source info later in
      rw
        (
          re_name-save_small_file c re_name large source info z,
          e,
          parse_small_file-small_name dir re_name (path_ext info.name) query (length large)
              (length (49 ∷ source)) lc ls le (omega arith) (omega arith),
          read_parsed_part re_name large (49 ∷ source) t (omega arith),
        )
        (unfold sent in refl)
