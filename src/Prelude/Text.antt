-- ===== src/Prelude/Text.antt =====
-- Texts as lists of bytes (Go) or UTF-16 units (JavaScript), and the functions of Go's `strings`
-- and of JavaScript's `String` that the program calls.
use Prim.Native.Char.{code}
use mathlib.Core.List.{reverse}
use go_fastdfs.Prelude.Tests.{leb, ◌==◌, if◌then◌else◌, Bool-cases}
use go_fastdfs.Prelude.Lists.{length, drop, length-append}
use Prim.Native.Nat.{zero, ◌-◌, ℕ, suc, ◌+◌}
use Prim.Native.String.{String}
use mathlib.Core.Path.{◌≡◌, refl, sym, ap, ◌∙◌}
use mathlib.Core.Logic.{◌≢◌, ◌↔◌, inl, inr}
use mathlib.Core.Bool.{Bool, true, false, ◌&&◌, ◌||◌}
use mathlib.Core.Option.{Option, none, some}
use mathlib.Core.List.{List, [], ◌∷◌, ◌++◌, map}
use native.Mathlib.Omega.{arith}

abbrev pub Text : Type 0
Text = List ℕ

-- The code points of a literal.
abbrev pub lit : String → Text
lit String.[] = []
lit (String.◌∷◌ c s) = code c ∷ lit s

-- `s == t`
unfoldable pub text_eq : Text → Text → Bool
text_eq [] [] = true
text_eq [] (d ∷ t) = false
text_eq (c ∷ s) [] = false
text_eq (c ∷ s) (d ∷ t) = (c == d) && text_eq s t

pub text_eq_refl : (s : Text) → text_eq s s ≡ true
unfolding text_eq
text_eq_refl [] = refl
text_eq_refl (c ∷ s) = ground (arith, text_eq_refl s)

pub text_eq_sound : (s t : Text) → text_eq s t ≡ true → s ≡ t
unfolding text_eq
text_eq_sound [] [] h = refl
text_eq_sound [] (d ∷ t) h = cc
text_eq_sound (c ∷ s) [] h = cc
text_eq_sound (c ∷ s) (d ∷ t) h = ground (arith, text_eq_sound s t)

pub text_eq_iff : (s t : Text) → (text_eq s t ≡ true) ↔ (s ≡ t)
text_eq_iff s t = (text_eq_sound s t, λ e. rw e (text_eq_refl t))

pub text_eq-false : (s t : Text) → s ≢ t → text_eq s t ≡ false
text_eq-false s t h = elim (Bool-cases (text_eq s t)) [
  | inl e ↦ absurd (h (text_eq_sound s t e))
  | inr e ↦ e
]

longer : (c : ℕ) (s t : Text) → s ≢ c ∷ (t ++ s)
longer c s t e = omega (arith, length-append t s, ap length e)

pub text_eq-append_right : (a b s : Text) → text_eq (a ++ s) (b ++ s) ≡ text_eq a b
unfolding text_eq
text_eq-append_right [] [] s = text_eq_refl s
text_eq-append_right [] (d ∷ b) s = text_eq-false s _ (longer d s b)
text_eq-append_right (c ∷ a) [] s = text_eq-false _ s (λ e. longer c s a (sym e))
text_eq-append_right (c ∷ a) (d ∷ b) s = ap (λ r. (c == d) && r) (text_eq-append_right a b s)

-- `strings.HasPrefix(s, prefix)`
unfoldable pub has_prefix : Text → Text → Bool
has_prefix s [] = true
has_prefix [] (d ∷ p) = false
has_prefix (c ∷ s) (d ∷ p) = (c == d) && has_prefix s p

-- `strings.HasSuffix(s, suffix)`
unfoldable pub has_suffix : Text → Text → Bool
unfolding has_prefix
has_suffix s p = has_prefix (reverse s) (reverse p)

-- `strings.Contains(s, sub)`
unfoldable pub has_infix : Text → Text → Bool
unfolding has_prefix
has_infix [] p = has_prefix [] p
has_infix (c ∷ s) p = has_prefix (c ∷ s) p || has_infix s p

pub has_prefix-append : (p s : Text) → has_prefix (p ++ s) p ≡ true
unfolding has_prefix
has_prefix-append [] s = refl
has_prefix-append (c ∷ p) s = ground (arith, has_prefix-append p s)

pub drop-append {ℓ} : {A : Type ℓ} (p s : List A) → drop (length p) (p ++ s) ≡ s
drop-append [] s = refl
drop-append (c ∷ p) s = drop-append p s

-- `strings.Replace(s, old, new, 1)` for a text `old` that is not empty
unfoldable pub replace_first : Text → Text → Text → Text
unfolding has_prefix
replace_first [] old new = []
replace_first (c ∷ s) old new =
    let rest = replace_first s old new in
    if has_prefix (c ∷ s) old then new ++ drop (length old) (c ∷ s) else c ∷ rest

-- `strings.Replace(s, old, new, -1)` for a text `old` that is not empty; the number counts the
-- bytes of `old` that are still to be skipped.
unfoldable pub replace_from : ℕ → Text → Text → Text → Text
unfolding has_prefix
replace_from k [] old new = []
replace_from (suc k) (c ∷ s) old new = replace_from k s old new
replace_from zero (c ∷ s) old new =
    let found = new ++ replace_from (length old - 1) s old new in
    let kept = c ∷ replace_from zero s old new in if has_prefix (c ∷ s) old then found else kept

unfoldable pub replace_all : Text → Text → Text → Text
unfolding replace_from
replace_all s old new = replace_from zero s old new

-- A text in front of both sides does not matter to `HasPrefix`.
pub has_prefix-append_left : (p s t : Text) → has_prefix (p ++ s) (p ++ t) ≡ has_prefix s t
unfolding has_prefix
has_prefix-append_left [] s t = refl
has_prefix-append_left (c ∷ p) s t = ground (arith, has_prefix-append_left p s t)

-- The first occurrence, at the start
pub replace_first-append :
    (c : ℕ) (old s new : Text) → replace_first ((c ∷ old) ++ s) (c ∷ old) new ≡ new ++ s
unfolding replace_first
replace_first-append c old s new = rw (has_prefix-append (c ∷ old) s, drop-append (c ∷ old) s)

pub replace_first-front : (d : Text) (c : ℕ) (s : Text) → replace_first (d ++ c ∷ s) d [] ≡ c ∷ s
replace_first-front [] c s = unfold replace_first in refl
replace_first-front (x ∷ d) c s = replace_first-append x d (c ∷ s) []

pub has_prefix_split : (s p : Text) → has_prefix s p ≡ true → (rest : Text) × (s ≡ p ++ rest)
unfolding has_prefix
has_prefix_split s [] h = (s, refl)
has_prefix_split [] (c ∷ p) h = absurd (ground arith)
has_prefix_split (d ∷ s) (c ∷ p) h =
    let (rest, e) = has_prefix_split s p (ground arith) in
    let z : d ≡ c = ground arith in (rest, ap (λ t. d ∷ t) e ∙ ap (λ x. x ∷ (p ++ rest)) z)

-- Dropping every occurrence of one byte: `strings.Replace(s, c, "", -1)`
unfoldable pub remove_byte : ℕ → Text → Text
remove_byte c [] = []
remove_byte c (d ∷ s) = let rest = remove_byte c s in if d == c then rest else d ∷ rest

-- Dropping leading bytes `c`, and `strings.Trim(s, c)`
unfoldable pub trim_left : ℕ → Text → Text
trim_left c [] = []
trim_left c (d ∷ s) = let rest = trim_left c s in if d == c then rest else d ∷ s

unfoldable pub trim : ℕ → Text → Text
unfolding trim_left
trim c s = reverse (trim_left c (reverse (trim_left c s)))

-- The position of the last `c`: `lastIndexOf`, `strings.LastIndex`. `none` stands for -1.
unfoldable pub last_index : Text → ℕ → Option ℕ
last_index [] c = none
last_index (d ∷ s) c = elim (last_index s c) [
  | some i ↦ some (suc i)
  | none ↦ if d == c then some 0 else none
]

-- `s[strings.LastIndex(s, c)+1:]`, and `s.substring(s.lastIndexOf(c) + 1, s.length)`
unfoldable pub after_last : ℕ → Text → Text
unfolding last_index
after_last c s = elim (last_index s c) [ some i ↦ drop (suc i) s | none ↦ s ]

-- `toLowerCase` on the letters of ASCII
unfoldable pub lower : ℕ → ℕ
lower c = if leb b'A' c && leb c b'Z' then c + 32 else c

unfoldable pub to_lower : Text → Text
unfolding lower
to_lower = map lower
