-- ===== src/Server/Stat/Rows.antt =====
-- The rows of `GetStat` (server/fileserver.go).
use go_fastdfs.Prelude.{
  ℕ, zero, suc, ◌+◌, ◌≤◌, ◌≡◌, refl, ◌∙◌, sym, ap, inl, inr, true, Option, none, some, List, [],
  ◌∷◌, ◌++◌, arith, Bool-cases, Option-cases, append_assoc,
}
use native.Mathlib.Decide.{dec_lt}
use go_fastdfs.Prelude.Int.{ℤ, pos, neg_part, ◌+ℤ◌, ◌≤ℤ◌, pos_part, int_laws, eq_of_parts}
use go_fastdfs.Prelude.Text.{Text, lit, text_eq, text_eq_sound}
use go_fastdfs.Prelude.TextSet.{contains}
use go_fastdfs.Prelude.Split.{split, split-append, split_of_Lacks}
use go_fastdfs.Prelude.Decimal.{show_int, show_nat, show_nat-Lacks, parse_int-show_nat, max_int64}
use go_fastdfs.Server.Database.{CountMap, IsCounting, is_some, or_zero}
use go_fastdfs.Server.Stat.{
  StatRow, parts_day, widen, day_range, first_day, width, add_row, row_of, stat_rows, get_stat,
}

widen_grows : (lo hi : ℤ) (o : Option ℤ) → ((widen lo hi o).0 ≤ℤ lo) × (hi ≤ℤ (widen lo hi o).1)
widen_grows lo hi none = (omega arith, omega arith)
widen_grows lo hi (some i) = (ground arith, ground arith)

widen_covers :
    (lo hi i : ℤ) (o : Option ℤ) → o ≡ some i → ((widen lo hi o).0 ≤ℤ i) × (i ≤ℤ (widen lo hi o).1)
widen_covers lo hi i o e = rw e (ground arith, ground arith)

-- A range only grows.
day_range_grows :
    (lo hi : ℤ) (keys : List Text)
    → ((day_range lo hi keys).0 ≤ℤ lo) × (hi ≤ℤ (day_range lo hi keys).1)
unfolding day_range
day_range_grows lo hi [] = (omega arith, omega arith)
day_range_grows lo hi (key ∷ keys) =
    let o = parts_day (split b'_' key) in
    let (a, b) = day_range_grows (widen lo hi o).0 (widen lo hi o).1 keys in
    let (c, d) = widen_grows lo hi o in (omega arith, omega arith)

day_range_covers :
    (lo hi i : ℤ) (key : Text) (keys : List Text)
    → contains key keys ≡ true
    → parts_day (split b'_' key) ≡ some i
    → ((day_range lo hi keys).0 ≤ℤ i) × (i ≤ℤ (day_range lo hi keys).1)
unfolding day_range
day_range_covers lo hi i key [] c e = absurd (ground arith)
day_range_covers lo hi i key (k ∷ keys) c e =
    let o = parts_day (split b'_' k) in
    elim (Bool-cases (text_eq key k)) [
      | inl f ↦
          let (a, b) = day_range_grows (widen lo hi o).0 (widen lo hi o).1 keys in
          let g : o ≡ some i =
            ap (λ t. parts_day (split b'_' t)) (sym (text_eq_sound key k f)) ∙ e in
          let (x, y) = widen_covers lo hi i o g in (omega arith, omega arith)
      | inr f ↦
          day_range_covers (widen lo hi o).0 (widen lo hi o).1 i key keys (ground (arith, c, f)) e
    ]

parts_day-size_key :
    (n : ℕ) → n ≤ max_int64 → parts_day (split b'_' (show_nat n ++ lit "_totalSize")) ≡ some (pos n)
parts_day-size_key n h =
    rw
      (
        split-append b'_' (show_nat n) (lit "totalSize")
            (show_nat-Lacks b'_' n (inr (omega arith))),
        split_of_Lacks b'_' (lit "totalSize") (omega arith),
      )
      (parse_int-show_nat n h)

module _ (M : CountMap) where
  -- A row is among the rows.
  abbrev pub HasRow : StatRow → List StatRow → Type 0
  HasRow r rows = (before : List StatRow) × (after : List StatRow) × (rows ≡ before ++ r ∷ after)

  HasRow-cons : (r s : StatRow) (rows : List StatRow) → HasRow r rows → HasRow r (s ∷ rows)
  HasRow-cons r s rows (before, after, e) = (s ∷ before, after, ap (λ t. s ∷ t) e)

  HasRow-append : (r : StatRow) (rows more : List StatRow) → HasRow r rows → HasRow r (rows ++ more)
  HasRow-append r rows more (before, after, e) =
      (before, after ++ more, ap (λ t. t ++ more) e ∙ append_assoc before (r ∷ after) more)

  stat_rows-none :
      (m : M.State) (n : ℕ) (i : ℤ) (total : StatRow)
      → row_of M m i ≡ none
      → stat_rows M m (suc n) i total ≡ stat_rows M m n (i +ℤ pos 1) total
  unfolding stat_rows
  stat_rows-none m n i total e = rw (stat_rows, e) refl

  stat_rows-some :
      (m : M.State) (n : ℕ) (i : ℤ) (total r : StatRow)
      → row_of M m i ≡ some r
      → (stat_rows M m (suc n) i total).0 ≡ r ∷ (stat_rows M m n (i +ℤ pos 1) (add_row total r)).0
  unfolding stat_rows
  stat_rows-some m n i total r e = rw (stat_rows, e) refl

  stat_rows-HasRow :
      (m : M.State) (n : ℕ) (i j : ℤ) (total r : StatRow)
      → i ≤ℤ j
      → j +ℤ pos 1 ≤ℤ i +ℤ pos n
      → row_of M m j ≡ some r
      → HasRow r (stat_rows M m n i total).0
  stat_rows-HasRow m zero i j total r h k e = absurd (omega int_laws)
  stat_rows-HasRow m (suc n) i j total r h k e =
      elim (dec_lt (pos_part i + neg_part j) (pos_part j + neg_part i)) [
        | yes l ↦ elim (Option-cases (row_of M m i)) [
          | inl f ↦
              rw (stat_rows-none m n i total f)
                (stat_rows-HasRow m n (i +ℤ pos 1) j total r (omega int_laws) (omega int_laws) e)
          | inr (s, f) ↦ rw (stat_rows-some m n i total s f) (
              HasRow-cons r s _ (
                stat_rows-HasRow m n (i +ℤ pos 1) j (add_row total s) r (omega int_laws)
                  (omega int_laws) e))
        ]
        | no l ↦
            let f : row_of M m i ≡ some r = ap (row_of M m) (eq_of_parts i j (omega arith)) ∙ e in
            ([], (stat_rows M m n (i +ℤ pos 1) (add_row total r)).0, stat_rows-some m n i total r f)
      ]

  row_of-some :
      (m : M.State) (i v : ℤ)
      → M.value m (show_int i ++ lit "_totalSize") ≡ some v
      → row_of M m i
        ≡ some (record {
          date = show_int i;
          total_size = v;
          file_count = or_zero (M.value m (show_int i ++ lit "_fileCount"));
        })
  unfolding row_of
  row_of-some m i v e = rw (row_of, e) refl

  -- A day with a size has its row in `GetStat`, with this size and with its count.
  pub get_stat-HasRow :
      (counting : IsCounting M) (m : M.State) (n : ℕ) (v : ℤ)
      → n ≤ max_int64
      → M.value m (show_nat n ++ lit "_totalSize") ≡ some v
      → HasRow
          (record {
            date = show_nat n;
            total_size = v;
            file_count = or_zero (M.value m (show_nat n ++ lit "_fileCount"));
          })
          (get_stat M m)
  unfolding get_stat show_int
  get_stat-HasRow counting m n v h e =
      let c : contains (show_nat n ++ lit "_totalSize") (M.keys m) ≡ true =
        counting.contains-keys m _ ∙ ap is_some e in
      let (lo, hi) = day_range first_day first_day (M.keys m) in
      let (a, b) =
        day_range_covers first_day first_day (pos n) _ (M.keys m) c (parts_day-size_key n h) in
      HasRow-append _ _ _ (
        stat_rows-HasRow m (width lo hi) lo (pos n) _ _ a (omega int_laws)
          (row_of-some m (pos n) v e))
