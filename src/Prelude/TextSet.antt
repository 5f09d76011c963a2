-- ===== src/Prelude/TextSet.antt =====
-- Lists of texts as sets: Go's `Contains` of a slice, removal and addition.
use go_fastdfs.Prelude.{
  ◌≤◌, ◌≡◌, refl, ◌∙◌, ap, Bool, false, ◌||◌, List, [], ◌∷◌, ◌++◌, if◌then◌else◌, arith, length,
  Bool-cases, inl, inr,
}
use go_fastdfs.Prelude.Text.{Text, text_eq, text_eq_sound}

abbrev pub contains : Text → List Text → Bool
contains k [] = false
contains k (j ∷ set) = text_eq k j || contains k set

abbrev pub without : Text → List Text → List Text
without k [] = []
without k (j ∷ set) = if text_eq k j then without k set else j ∷ without k set

abbrev pub IsDistinct : List Text → Type 0
IsDistinct [] = Unit {0}
IsDistinct (k ∷ set) = (contains k set ≡ false) × IsDistinct set

pub without_absent : (k : Text) (set : List Text) → contains k set ≡ false → without k set ≡ set
without_absent k [] h = refl
without_absent k (j ∷ set) h = ground (arith, without_absent k set)

pub contains-without :
    (k j : Text) (set : List Text)
    → contains k (without j set) ≡ (if text_eq k j then false else contains k set)
contains-without k j [] = ground arith
contains-without k j (i ∷ set) = elim (Bool-cases (text_eq j i)) [
  | inl e ↦ rw (e, contains-without k j set, text_eq_sound j i e) (ground arith)
  | inr e ↦ elim (Bool-cases (text_eq k j)) [
    | inl f ↦ rw (e, contains-without k j set, f, text_eq_sound k j f, e) refl
    | inr f ↦ rw (e, contains-without k j set, f) refl
  ]
]

absent-without :
    (k j : Text) (set : List Text) → contains k set ≡ false → contains k (without j set) ≡ false
absent-without k j set h = ground (arith, contains-without k j set)

pub without-IsDistinct : (k : Text) (set : List Text) → IsDistinct set → IsDistinct (without k set)
without-IsDistinct k [] h = tt
without-IsDistinct k (j ∷ set) h = elim (Bool-cases (text_eq k j)) [
  | inl e ↦ rw e (without-IsDistinct k set h.1)
  | inr e ↦ rw e (absent-without j k set h.0, without-IsDistinct k set h.1)
]

abbrev pub insert : Text → List Text → List Text
insert k set = if contains k set then set else k ∷ set

pub contains-insert :
    (k j : Text) (set : List Text) → contains k (insert j set) ≡ (text_eq k j || contains k set)
contains-insert k j set = elim (Bool-cases (contains j set)) [
  | inl e ↦ elim (Bool-cases (text_eq k j)) [
    | inl f ↦ rw (e, f) (ap (λ i. contains i set) (text_eq_sound k j f) ∙ e)
    | inr f ↦ rw (e, f) refl
  ]
  | inr e ↦ rw e refl
]

pub insert-IsDistinct : (k : Text) (set : List Text) → IsDistinct set → IsDistinct (insert k set)
insert-IsDistinct k set h = elim (Bool-cases (contains k set)) [
  | inl e ↦ rw e h
  | inr e ↦ rw e (e, h)
]

pub length-without : (k : Text) (set : List Text) → length (without k set) ≤ length set
length-without k [] = omega arith
length-without k (j ∷ set) = ground (arith, length-without k set)

pub contains-append :
    (k : Text) (xs ys : List Text) → contains k (xs ++ ys) ≡ (contains k xs || contains k ys)
contains-append k [] ys = refl
contains-append k (x ∷ xs) ys = ground (arith, contains-append k xs ys)

text_eq_comm : (s t : Text) → text_eq s t ≡ text_eq t s
unfolding text_eq
text_eq_comm [] [] = refl
text_eq_comm [] (d ∷ t) = refl
text_eq_comm (c ∷ s) [] = refl
text_eq_comm (c ∷ s) (d ∷ t) = ground (arith, text_eq_comm s t)

pub append-IsDistinct :
    (xs : List Text) (k : Text) → IsDistinct xs → contains k xs ≡ false → IsDistinct (xs ++ k ∷ [])
append-IsDistinct [] k h n = (refl, tt)
append-IsDistinct (x ∷ xs) k h n = (
  contains-append x xs (k ∷ []) ∙ ground (arith, text_eq_comm x k, h.0),
  append-IsDistinct xs k h.1 (ground arith),
)
