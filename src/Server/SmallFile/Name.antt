-- ===== src/Server/SmallFile/Name.antt =====
-- The name that `SaveSmallFile` gives to a file, read back by `ParseSmallFile`.
use go_fastdfs.Prelude.{
  Option, ℕ, ◌≤◌, ◌<◌, ◌≡◌, ◌≢◌, refl, inl, ◌⊎◌, Bool, true, false, none, some, List, [], ◌∷◌, ◌++◌,
  arith, append_assoc, length, length-append, ltb, if◌then◌else◌,
}
use go_fastdfs.Prelude.Int.{ℤ, pos, ltb_ℤ}
use go_fastdfs.Prelude.Text.{Text, has_infix, has_prefix, after_last}
use go_fastdfs.Prelude.Split.{split, Lacks, Lacks-append, split-append, after_last-append}
use go_fastdfs.Prelude.Decimal.{
  show_nat, show_int, show_nat-Lacks, parse_int, parse_int-show_nat, max_int64,
}
use go_fastdfs.Server.Types.{slash, small_file_size}
use go_fastdfs.Server.SmallFile.{
  Parsed, parse_small_file, parse_pieces, parse_offset, parse_size, small_name,
}

has_infix-slash : (dir s : Text) → has_infix (dir ++ b'/' ∷ s) slash ≡ true
unfolding has_infix has_prefix
has_infix-slash [] s = refl
has_infix-slash (c ∷ dir) s = ground (arith, has_infix-slash dir s)

abbrev pub parsed : Text → ℕ → ℕ → Parsed
parsed name offset size = record {
  file_name = name;
  offset = pos offset;
  size = pos size;
  error = none;
}

parse_pieces_lem :
    (name first : Text) (offset size : ℕ) (more : List Text)
    → offset ≤ max_int64
    → size ≤ small_file_size
    → parse_pieces name (first ∷ show_nat offset ∷ show_nat size ∷ more) ≡ parsed first offset size
unfolding parse_pieces
parse_pieces_lem name first offset size more h k =
    rw (parse_int-show_nat offset h) (rw (parse_int-show_nat size (omega arith)) (ground arith))

split-small_name :
    (re_name t : Text) (offset size : ℕ)
    → Lacks b',' re_name
    → split b',' (small_name re_name (pos offset) (pos size) t)
      ≡ re_name ∷ show_nat offset ∷ show_nat size ∷ split b',' t
unfolding small_name
split-small_name re_name t offset size h =
    rw
      (
        split-append b',' re_name _ h,
        split-append b',' (show_nat offset) _ (show_nat-Lacks b',' offset (inl (omega arith))),
        split-append b',' (show_nat size) t (show_nat-Lacks b',' size (inl (omega arith))),
      )
      refl

pub small_name-Lacks :
    (c : ℕ) (re_name t : Text) (offset size : ℕ)
    → (c < 48) ⊎ (57 < c)
    → c ≢ b','
    → Lacks c re_name
    → Lacks c t
    → Lacks c (small_name re_name (pos offset) (pos size) t)
unfolding small_name
small_name-Lacks c re_name t offset size d n h k = Lacks-append c re_name _ h (
  omega arith,
  Lacks-append c (show_nat offset) _ (show_nat-Lacks c offset d)
      (omega arith, Lacks-append c (show_nat size) _ (show_nat-Lacks c size d) (omega arith, k)),
)

small_name-append :
    (re_name ext query : Text) (offset size : ℤ)
    → small_name re_name offset size ext ++ query ≡ small_name re_name offset size (ext ++ query)
unfolding small_name
small_name-append re_name ext query offset size = simp append_assoc

length-small_name :
    (re_name t : Text) (offset size : ℤ) → 3 ≤ length (small_name re_name offset size t)
unfolding small_name
length-small_name re_name t offset size = omega (
  arith,
  length-append re_name (b',' ∷ (show_int offset ++ (b',' ∷ (show_int size ++ (b',' ∷ t))))),
  length-append (show_int offset) (b',' ∷ (show_int size ++ (b',' ∷ t))),
  length-append (show_int size) (b',' ∷ t),
)

-- `ParseSmallFile` gives back the parts of the name that `SaveSmallFile` made, at the end of any
-- path and in front of any query that has no slash.
pub parse_small_file-small_name :
    (dir re_name ext query : Text) (offset size : ℕ)
    → Lacks b',' re_name
    → Lacks b'/' re_name
    → Lacks b'/' (ext ++ query)
    → offset ≤ max_int64
    → size ≤ small_file_size
    → parse_small_file (dir ++ b'/' ∷ (small_name re_name (pos offset) (pos size) ext ++ query))
      ≡ parsed re_name offset size
unfolding parse_small_file
parse_small_file-small_name dir re_name ext query offset size c l e h k =
    let n = small_name re_name (pos offset) (pos size) (ext ++ query) in
    let long : ltb (length (dir ++ b'/' ∷ n)) 3 ≡ false = ground (
      arith,
      length-append dir (b'/' ∷ n),
      length-small_name re_name (ext ++ query) (pos offset) (pos size),
    ) in
    rw
      (
        small_name-append,
        long,
        has_infix-slash,
        after_last-append b'/' dir n (
            small_name-Lacks b'/' re_name (ext ++ query) offset size (inl (omega arith))
              (omega arith) l e),
        split-small_name re_name (ext ++ query) offset size c,
      )
      (parse_pieces_lem n re_name offset size (split b',' (ext ++ query)) h k)

abbrev IsBounded : Parsed → Type 0
IsBounded p =
    p.error ≡ none → (ltb_ℤ p.offset (pos 0) ≡ false) × (ltb_ℤ (pos small_file_size) p.size ≡ false)

parse_size-IsBounded :
    (name first : Text) (offset : ℤ) (r : Option ℤ) → IsBounded (parse_size name first offset r)
unfolding parse_size
parse_size-IsBounded name first offset none h = cc
parse_size-IsBounded name first offset (some size) h = ground arith

parse_offset-IsBounded :
    (name first third : Text) (r : Option ℤ) → IsBounded (parse_offset name first third r)
parse_offset-IsBounded name first third none h = unfold parse_offset in cc
parse_offset-IsBounded name first third (some offset) h =
    unfold parse_offset in parse_size-IsBounded name first offset (parse_int third) h

parse_pieces-IsBounded : (name : Text) (ps : List Text) → IsBounded (parse_pieces name ps)
parse_pieces-IsBounded name (first ∷ second ∷ third ∷ more) =
    unfold parse_pieces in parse_offset-IsBounded name first third (parse_int second)
parse_pieces-IsBounded name _ = unfold parse_pieces in λ h. cc

IsBounded-if :
    (b : Bool) (p q : Parsed) → IsBounded p → IsBounded q → IsBounded (if b then p else q)
IsBounded-if true p q h k = h
IsBounded-if false p q h k = k

-- A name that is accepted has an offset that is not negative, and at most the size of a small file.
pub parse_small_file_bounds :
    (s : Text)
    → (parse_small_file s).error ≡ none
    → (ltb_ℤ (parse_small_file s).offset (pos 0) ≡ false)
      × (ltb_ℤ (pos small_file_size) (parse_small_file s).size ≡ false)
unfolding parse_small_file
parse_small_file_bounds s =
    IsBounded-if (ltb (length s) 3) _ _ (λ h. cc)
      (parse_pieces-IsBounded _ (split b',' (if has_infix s slash then after_last b'/' s else s)))
