-- ===== src/Prelude/Url.antt =====
-- `url.PathUnescape` and `url.PathEscape` of Go's `net/url`.
use mathlib.Core.List.{[], ◌∷◌}
use mathlib.Core.Path.{◌≡◌, refl}
use mathlib.Core.Bool.{Bool, true, ◌&&◌, ◌||◌}
use mathlib.Core.Logic.{◌≢◌, inl, inr}
use mathlib.Core.Option.{Option, none, some}
use Prim.Native.Nat.{ℕ, ◌+◌, ◌-◌, ◌*◌, ◌/◌, ◌%◌, ◌<◌}
use native.Mathlib.Omega.{arith}
use go_fastdfs.Prelude.Tests.{◌==◌, ltb, leb, if◌then◌else◌, Bool-cases}
use go_fastdfs.Prelude.Text.{Text}
use go_fastdfs.Prelude.Split.{Lacks}

-- The value of a hexadecimal digit
unfoldable pub unhex : ℕ → Option ℕ
unhex c =
    if leb b'0' c && leb c b'9'
    then some (c - b'0')
    else if leb b'a' c && leb c b'f'
    then some (c - b'a' + 10)
    else if leb b'A' c && leb c b'F'
    then some (c - b'A' + 10)
    else none

abbrev pub cons_byte : Option ℕ → Option ℕ → Option Text → Option Text
cons_byte (some h) (some l) (some s) = some ((h * 16 + l) ∷ s)
cons_byte _ _ _ = none

abbrev pub cons_some : ℕ → Option Text → Option Text
cons_some c none = none
cons_some c (some s) = some (c ∷ s)

-- `url.PathUnescape(s)`; `none` is an error.
unfoldable pub path_unescape : Text → Option Text
unfolding unhex
path_unescape [] = some []
path_unescape (c ∷ []) = if c == b'%' then none else some (c ∷ [])
path_unescape (c ∷ h ∷ []) =
    let rest = path_unescape (h ∷ []) in if c == b'%' then none else cons_some c rest
path_unescape (c ∷ h ∷ l ∷ s) =
    let escaped = cons_byte (unhex h) (unhex l) (path_unescape s) in
    let plain = cons_some c (path_unescape (h ∷ l ∷ s)) in if c == b'%' then escaped else plain

unfoldable pub hex : ℕ → ℕ
hex d = if ltb d 10 then b'0' + d else b'A' + (d - 10)

-- A letter or a digit, or one of - _ . ~ $ & + : = @
unfoldable pub is_plain : ℕ → Bool
is_plain c =
    (leb b'a' c && leb c b'z')
    || (leb b'A' c && leb c b'Z')
    || (leb b'0' c && leb c b'9')
    || c == b'-'
    || c == b'_'
    || c == b'.'
    || c == b'~'
    || c == b'$'
    || c == b'&'
    || c == b'+'
    || c == b':'
    || c == b'='
    || c == b'@'

-- `url.PathEscape(s)`
unfoldable pub path_escape : Text → Text
unfolding is_plain hex
path_escape [] = []
path_escape (c ∷ s) =
    let rest = path_escape s in
    if is_plain c then c ∷ rest else b'%' ∷ hex (c / 16) ∷ hex (c % 16) ∷ rest

pub path_unescape_of_Lacks : (s : Text) → Lacks b'%' s → path_unescape s ≡ some s
unfolding path_unescape
path_unescape_of_Lacks [] h = refl
path_unescape_of_Lacks (c ∷ []) h = ground arith
path_unescape_of_Lacks (c ∷ d ∷ []) h = ground arith
path_unescape_of_Lacks (c ∷ d ∷ e ∷ s) h = ground (arith, path_unescape_of_Lacks (d ∷ e ∷ s) h.1)

abbrev pub AreBytes : Text → Type 0
AreBytes [] = Unit {0}
AreBytes (c ∷ s) = (c < 256) × AreBytes s

hex-ne-slash : (d : ℕ) → d < 16 → hex d ≢ b'/'
unfolding hex
hex-ne-slash d h = ground arith

plain-ne-slash : (c : ℕ) → is_plain c ≡ true → c ≢ b'/'
unfolding is_plain
plain-ne-slash c h = ground arith

-- No slash is left by escaping.
pub path_escape-Lacks_slash : (s : Text) → AreBytes s → Lacks b'/' (path_escape s)
unfolding path_escape
path_escape-Lacks_slash [] h = tt
path_escape-Lacks_slash (c ∷ s) h = elim (Bool-cases (is_plain c)) [
  | inl e ↦ rw e (plain-ne-slash c e, path_escape-Lacks_slash s h.1)
  | inr e ↦ rw e (
    omega arith,
    (
      hex-ne-slash (c / 16) (ground arith),
      (hex-ne-slash (c % 16) (omega arith), path_escape-Lacks_slash s h.1),
    ),
  )
]
