-- ===== src/Prelude/Decimal.antt =====
-- Decimal numbers: `fmt.Sprintf("%d")`, `strconv.ParseInt(s, 10, 64)` and `strconv.Atoi`.
use mathlib.Core.List.{[], ◌∷◌, ◌++◌}
use mathlib.Core.Path.{◌≡◌, refl, ◌∙◌}
use mathlib.Core.Logic.{◌⊎◌}
use mathlib.Core.Bool.{◌&&◌}
use mathlib.Core.Option.{Option, none, some}
use Prim.Native.Nat.{ℕ, zero, suc, ◌+◌, ◌-◌, ◌*◌, ◌/◌, ◌%◌, ◌^◌, ◌≤◌, ◌<◌}
use native.Mathlib.Omega.{arith}
use native.Mathlib.Decide.{dec_lt}
use go_fastdfs.Prelude.Tests.{◌==◌, ltb, leb, if◌then◌else◌}
use go_fastdfs.Prelude.Int.{ℤ, pos, negsuc}
use go_fastdfs.Prelude.Text.{Text}
use go_fastdfs.Prelude.Split.{Lacks, Lacks-append}

-- The digits of `n`, with fuel for their number.
unfoldable pub digits_of : ℕ → ℕ → Text
digits_of zero n = []
digits_of (suc f) n =
    let more = digits_of f (n / 10) ++ (48 + n % 10) ∷ [] in
    if ltb n 10 then (48 + n) ∷ [] else more

digits_of_small : (f n : ℕ) → n < 10 → digits_of (suc f) n ≡ (48 + n) ∷ []
unfolding digits_of
digits_of_small f n h = ground arith

digits_of_large :
    (f n : ℕ) → 10 ≤ n → digits_of (suc f) n ≡ digits_of f (n / 10) ++ (48 + n % 10) ∷ []
unfolding digits_of
digits_of_large f n h = ground arith

-- `%d` of a number that is not negative. `n + 1` rounds are enough: see `read_digits-digits_of`.
unfoldable pub show_nat : ℕ → Text
unfolding digits_of
show_nat n = digits_of (suc n) n

-- `%d`
unfoldable pub show_int : ℤ → Text
unfolding show_nat
show_int (pos n) = show_nat n
show_int (negsuc n) = b'-' ∷ show_nat (suc n)

unfoldable pub read_digits : ℕ → Text → Option ℕ
read_digits acc [] = some acc
read_digits acc (c ∷ s) =
    let rest = read_digits (acc * 10 + (c - 48)) s in if leb 48 c && leb c 57 then rest else none

-- The digits of a number, at least one.
unfoldable pub read_nat : Text → Option ℕ
unfolding read_digits
read_nat [] = none
read_nat (c ∷ s) = read_digits 0 (c ∷ s)

abbrev pub max_int64 : ℕ
max_int64 = 2 ^ 63 - 1

abbrev pub int_if_small : Option ℕ → Option ℤ
int_if_small none = none
int_if_small (some n) = if leb n max_int64 then some (pos n) else none

-- -2^63 is in range.
abbrev pub negative_if_small : Option ℕ → Option ℤ
negative_if_small none = none
negative_if_small (some zero) = some (pos 0)
negative_if_small (some (suc n)) = if leb n max_int64 then some (negsuc n) else none

-- `strconv.ParseInt(s, 10, 64)`, and `strconv.Atoi(s)` where `int` has 64 bits; `none` is an error.
unfoldable pub parse_int : Text → Option ℤ
unfolding read_nat
parse_int [] = none
parse_int (c ∷ s) =
    if c == b'-'
    then negative_if_small (read_nat s)
    else if c == b'+'
    then int_if_small (read_nat s)
    else int_if_small (read_nat (c ∷ s))

read_digits-append :
    (acc : ℕ) (s t : Text) (n : ℕ)
    → read_digits acc s ≡ some n
    → read_digits acc (s ++ t) ≡ read_digits n t
unfolding read_digits
read_digits-append acc [] t n h = ground arith
read_digits-append acc (c ∷ s) t n h =
    ground (arith, read_digits-append (acc * 10 + (c - 48)) s t n)

-- Reading the digits of `n` gives `n` back, where the fuel is above `n`.
read_digits-digits_of : (f n : ℕ) → n < f → read_digits 0 (digits_of f n) ≡ some n
read_digits-digits_of zero n h = elim h [ ]
read_digits-digits_of (suc f) n h = elim (dec_lt n 10) [
  | yes e ↦ rw (digits_of_small f n e) (unfold read_digits in ground arith)
  | no e ↦ rw (digits_of_large f n (omega arith)) (
      read_digits-append 0 (digits_of f (n / 10)) ((48 + n % 10) ∷ []) (n / 10)
        (read_digits-digits_of f (n / 10) (omega arith))
      ∙ unfold read_digits in ground arith)
]

-- A byte that is no digit is not among the digits of a number.
digits_of-Lacks : (c f n : ℕ) → (c < 48) ⊎ (57 < c) → Lacks c (digits_of f n)
digits_of-Lacks c zero n h = unfold digits_of in tt
digits_of-Lacks c (suc f) n h = elim (dec_lt n 10) [
  | yes e ↦ rw (digits_of_small f n e) (ground arith)
  | no e ↦
      rw (digits_of_large f n (omega arith))
        (Lacks-append c (digits_of f (n / 10)) _ (digits_of-Lacks c f (n / 10) h) (ground arith))
]

pub show_nat-Lacks : (c n : ℕ) → (c < 48) ⊎ (57 < c) → Lacks c (show_nat n)
unfolding show_nat
show_nat-Lacks c n h = digits_of-Lacks c (suc n) n h

digits_of-cons : (f n : ℕ) → (d : ℕ) × (s : Text) × (digits_of (suc f) n ≡ d ∷ s) × (48 ≤ d)
digits_of-cons zero n = elim (dec_lt n 10) [
  | yes e ↦ (48 + n, [], digits_of_small 0 n e, omega arith)
  | no e ↦
      (48 + n % 10, [], digits_of_large 0 n (omega arith) ∙ unfold digits_of in refl, omega arith)
]
digits_of-cons (suc f) n = elim (dec_lt n 10) [
  | yes e ↦ (48 + n, [], digits_of_small (suc f) n e, omega arith)
  | no e ↦
      let (d, s, p, k) = digits_of-cons f (n / 10) in
      (d, s ++ (48 + n % 10) ∷ [], digits_of_large (suc f) n (omega arith) ∙ rw p refl, k)
]

-- `ParseInt` of what `%d` printed is the number again, up to the largest 64-bit one.
pub parse_int-show_nat : (n : ℕ) → n ≤ max_int64 → parse_int (show_nat n) ≡ some (pos n)
unfolding show_nat
parse_int-show_nat n h =
    let (d, s, p, k) = digits_of-cons n n in
    let e : read_digits 0 (d ∷ s) ≡ some n =
      rw (← p) (read_digits-digits_of (suc n) n (omega arith)) in
    rw p (unfold parse_int in ground arith)
