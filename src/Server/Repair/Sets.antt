-- ===== src/Server/Repair/Sets.antt =====
-- Sets of hashes, and their texts (server/http_repair.go, server/http_info.go).
use go_fastdfs.Prelude.{
  ℕ, ◌≡◌, ◌≢◌, refl, ◌∙◌, sym, ap, inl, inr, not, ◌&&◌, ◌||◌, List, [], ◌∷◌, arith, Bool-cases,
}
use go_fastdfs.Prelude.Text.{Text, text_eq, text_eq_sound, text_eq-false}
use go_fastdfs.Prelude.TextSet.{contains, insert, contains-insert}
use go_fastdfs.Prelude.Split.{split, join, Lacks, split-append, split_of_Lacks}
use go_fastdfs.Server.Repair.{union, difference, not_empty}

pub contains-union :
    (m : Text) (xs ys : List Text) → contains m (union xs ys) ≡ (contains m xs || contains m ys)
contains-union m [] ys = refl
contains-union m (x ∷ xs) ys =
    contains-insert m x (union xs ys) ∙ ground (arith, contains-union m xs ys)

pub contains-difference :
    (m : Text) (xs ys : List Text)
    → contains m (difference xs ys) ≡ (contains m xs && not (contains m ys))
contains-difference m [] ys = refl
contains-difference m (x ∷ xs) ys = elim (Bool-cases (text_eq m x)) [
  | inl e ↦
      let same : contains x ys ≡ contains m ys =
        ap (λ t. contains t ys) (sym (text_eq_sound m x e)) in
      ground (arith, contains-difference m xs ys)
  | inr e ↦ ground (arith, contains-difference m xs ys)
]

pub contains-not_empty :
    (m : Text) (set : List Text) → m ≢ [] → contains m (not_empty set) ≡ contains m set
contains-not_empty m [] n = refl
contains-not_empty m ([] ∷ set) n = contains-not_empty m set n ∙ rw (text_eq-false m [] n) refl
contains-not_empty m ((b ∷ x) ∷ set) n =
    ap (λ t. text_eq m (b ∷ x) || t) (contains-not_empty m set n)

-- No hash of a set has a comma.
abbrev pub AllLack : ℕ → List Text → Type 0
AllLack c [] = Unit {0}
AllLack c (x ∷ xs) = Lacks c x × AllLack c xs

pub contains-split-join :
    (c : ℕ) (m : Text) (xs : List Text)
    → AllLack c xs
    → m ≢ []
    → contains m (split c (join c xs)) ≡ contains m xs
unfolding join
contains-split-join c m [] h n = unfold split in rw (text_eq-false m [] n) refl
contains-split-join c m (x ∷ []) h n = rw (split_of_Lacks c x h.0) refl
contains-split-join c m (x ∷ y ∷ ys) h n =
    rw (split-append c x (join c (y ∷ ys)) h.0)
      (ap (λ t. text_eq m x || t) (contains-split-join c m (y ∷ ys) h.1 n))

pub AllLack-not_empty : (c : ℕ) (xs : List Text) → AllLack c xs → AllLack c (not_empty xs)
AllLack-not_empty c [] h = tt
AllLack-not_empty c ([] ∷ xs) h = AllLack-not_empty c xs h.1
AllLack-not_empty c ((b ∷ x) ∷ xs) h = (h.0, AllLack-not_empty c xs h.1)

AllLack-insert :
    (c : ℕ) (x : Text) (xs : List Text) → Lacks c x → AllLack c xs → AllLack c (insert x xs)
AllLack-insert c x xs l h = elim (Bool-cases (contains x xs)) [
  | inl e ↦ rw e h
  | inr e ↦ rw e (l, h)
]

pub AllLack-union :
    (c : ℕ) (xs ys : List Text) → AllLack c xs → AllLack c ys → AllLack c (union xs ys)
AllLack-union c [] ys h k = k
AllLack-union c (x ∷ xs) ys h k = AllLack-insert c x (union xs ys) h.0 (AllLack-union c xs ys h.1 k)

pub AllLack-difference : (c : ℕ) (xs ys : List Text) → AllLack c xs → AllLack c (difference xs ys)
AllLack-difference c [] ys h = tt
AllLack-difference c (x ∷ xs) ys h = elim (Bool-cases (contains x ys)) [
  | inl e ↦ rw e (AllLack-difference c xs ys h.1)
  | inr e ↦ rw e (h.0, AllLack-difference c xs ys h.1)
]
