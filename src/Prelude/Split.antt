-- ===== src/Prelude/Split.antt =====
-- `strings.Split` by one byte, and what cutting a text at its last `c` gives.
use mathlib.Core.List.{List, [], ◌∷◌, ◌++◌}
use mathlib.Core.Path.{◌≡◌, refl}
use mathlib.Core.Logic.{◌≢◌, inl, inr}
use mathlib.Core.Option.{none, some}
use Prim.Native.Nat.{zero, ℕ, suc}
use native.Mathlib.Omega.{arith}
use go_fastdfs.Prelude.Tests.{◌==◌, if◌then◌else◌, Bool-cases, Option-cases}
use go_fastdfs.Prelude.Lists.{length, drop}
use go_fastdfs.Prelude.Text.{Text, last_index, after_last}

-- The first piece grows by one byte.
abbrev pub cons_head : ℕ → List Text → List Text
cons_head d [] = (d ∷ []) ∷ []
cons_head d (x ∷ xs) = (d ∷ x) ∷ xs

-- `strings.Split(s, c)`
unfoldable pub split : ℕ → Text → List Text
split c [] = [] ∷ []
split c (d ∷ s) = let rest = split c s in if d == c then [] ∷ rest else cons_head d rest

-- `strings.Split(s, c)[0]`
unfoldable pub before : ℕ → Text → Text
before c [] = []
before c (d ∷ s) = let rest = before c s in if d == c then [] else d ∷ rest

-- No byte of the text is `c`.
abbrev pub Lacks : ℕ → Text → Type 0
Lacks c [] = Unit {0}
Lacks c (d ∷ s) = (d ≢ c) × Lacks c s

pub Lacks-append : (c : ℕ) (s t : Text) → Lacks c s → Lacks c t → Lacks c (s ++ t)
Lacks-append c [] t h k = k
Lacks-append c (d ∷ s) t h k = (h.0, Lacks-append c s t h.1 k)

pub split-append : (c : ℕ) (a s : Text) → Lacks c a → split c (a ++ c ∷ s) ≡ a ∷ split c s
unfolding split
split-append c [] s h = ground arith
split-append c (d ∷ a) s h = rw (split-append c a s h.1) (ground arith)

pub split_of_Lacks : (c : ℕ) (a : Text) → Lacks c a → split c a ≡ a ∷ []
unfolding split
split_of_Lacks c [] h = refl
split_of_Lacks c (d ∷ a) h = rw (split_of_Lacks c a h.1) (ground arith)

pub before_of_Lacks : (c : ℕ) (a : Text) → Lacks c a → before c a ≡ a
unfolding before
before_of_Lacks c [] h = refl
before_of_Lacks c (d ∷ a) h = ground (arith, before_of_Lacks c a h.1)

pub before-append : (c : ℕ) (a s : Text) → Lacks c a → before c (a ++ c ∷ s) ≡ a
unfolding before
before-append c [] s h = ground arith
before-append c (d ∷ a) s h = ground (arith, before-append c a s h.1)

-- The piece before the first `c` is the head of the pieces.
pub split-before : (c : ℕ) (s : Text) → (r : List Text) × (split c s ≡ before c s ∷ r)
unfolding split before
split-before c [] = ([], refl)
split-before c (d ∷ s) =
    let (r, e) = split-before c s in
    elim (Bool-cases (d == c)) [ inl h ↦ (split c s, rw h refl) | inr h ↦ (r, rw (h, e) refl) ]

last_index_of_Lacks : (c : ℕ) (s : Text) → Lacks c s → last_index s c ≡ none
unfolding last_index
last_index_of_Lacks c [] h = refl
last_index_of_Lacks c (d ∷ s) h = rw (last_index_of_Lacks c s h.1) (ground arith)

last_index-append : (c : ℕ) (p s : Text) → Lacks c s → last_index (p ++ c ∷ s) c ≡ some (length p)
unfolding last_index
last_index-append c [] s h = rw (last_index_of_Lacks c s h) (ground arith)
last_index-append c (d ∷ p) s h = rw (last_index-append c p s h) refl

drop_past : (c : ℕ) (p s : Text) → drop (suc (length p)) (p ++ c ∷ s) ≡ s
drop_past c [] s = refl
drop_past c (d ∷ p) s = drop_past c p s

pub after_last-append : (c : ℕ) (p s : Text) → Lacks c s → after_last c (p ++ c ∷ s) ≡ s
unfolding after_last
after_last-append c p s h = rw (last_index-append c p s h, after_last) (drop_past c p s)

pub after_last_of_Lacks : (c : ℕ) (s : Text) → Lacks c s → after_last c s ≡ s
unfolding after_last
after_last_of_Lacks c s h = rw (last_index_of_Lacks c s h, after_last)

pub Lacks-drop : (c n : ℕ) (s : Text) → Lacks c s → Lacks c (drop n s)
Lacks-drop c zero s h = h
Lacks-drop c (suc n) [] h = h
Lacks-drop c (suc n) (d ∷ s) h = Lacks-drop c n s h.1

last_index-Lacks : (c : ℕ) (s : Text) → last_index s c ≡ none → Lacks c s
unfolding last_index
last_index-Lacks c [] h = tt
last_index-Lacks c (d ∷ s) h = elim (Option-cases (last_index s c)) [
  | inl e ↦ (ground arith, last_index-Lacks c s e)
  | inr (j, e) ↦ absurd (ground arith)
]

Lacks-drop-last_index : (c i : ℕ) (s : Text) → last_index s c ≡ some i → Lacks c (drop (suc i) s)
unfolding last_index
Lacks-drop-last_index c i [] h = tt
Lacks-drop-last_index c i (d ∷ s) h = elim (Option-cases (last_index s c)) [
  | inl e ↦ let z : i ≡ 0 = ground arith in rw z (last_index-Lacks c s e)
  | inr (j, e) ↦ let z : i ≡ suc j = ground arith in rw z (Lacks-drop-last_index c j s e)
]

after_last-none : (c : ℕ) (s : Text) → last_index s c ≡ none → after_last c s ≡ s
unfolding after_last
after_last-none c s e = rw (e, after_last)

after_last-some : (c i : ℕ) (s : Text) → last_index s c ≡ some i → after_last c s ≡ drop (suc i) s
unfolding after_last
after_last-some c i s e = rw (e, after_last)

-- Nothing behind the last `c` is `c`.
pub after_last-Lacks : (c : ℕ) (s : Text) → Lacks c (after_last c s)
after_last-Lacks c s = elim (Option-cases (last_index s c)) [
  | inl e ↦ rw (after_last-none c s e) (last_index-Lacks c s e)
  | inr (i, e) ↦ rw (after_last-some c i s e) (Lacks-drop-last_index c i s e)
]

-- `strings.Join` with one byte
unfoldable pub join : ℕ → List Text → Text
join c [] = []
join c (s ∷ []) = s
join c (s ∷ t ∷ ts) = s ++ c ∷ join c (t ∷ ts)
