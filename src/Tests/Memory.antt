-- ===== src/Tests/Memory.antt =====
-- A database and a map of counts in memory, for the records of server/fileserver.go.
use go_fastdfs.Prelude.{
  ◌≡◌, refl, ◌∙◌, sym, ap, Option, none, some, List, [], ◌∷◌, if◌then◌else◌, arith, Bool-cases, inl,
  inr,
}
use go_fastdfs.Prelude.Int.{ℤ}
use go_fastdfs.Prelude.Text.{Text, text_eq, text_eq_sound}
use go_fastdfs.Prelude.TextSet.{contains}
use go_fastdfs.Server.Types.{FileInfo}
use go_fastdfs.Server.Database.{
  Database, CountMap, IsLawful, IsWritable, IsCounting, added, is_some,
}

module _ {A : Type 0} where
  abbrev find : List (Text × A) → Text → Option A
  find [] k = none
  find ((j, v) ∷ xs) k = if text_eq k j then some v else find xs k

  abbrev drop_key : List (Text × A) → Text → List (Text × A)
  drop_key [] k = []
  drop_key ((j, v) ∷ xs) k = let rest = drop_key xs k in if text_eq j k then rest else (j, v) ∷ rest

  find-drop_key :
      (xs : List (Text × A)) (k j : Text)
      → find (drop_key xs k) j ≡ (if text_eq j k then none else find xs j)
  find-drop_key [] k j = ground arith
  find-drop_key ((i, v) ∷ xs) k j = elim (Bool-cases (text_eq i k)) [
    | inl e ↦ rw (e, find-drop_key xs k j, text_eq_sound i k e) (ground arith)
    | inr e ↦ elim (Bool-cases (text_eq j i)) [
      | inl f ↦ rw (e, f, text_eq_sound j i f, e) refl
      | inr f ↦ rw (e, f, find-drop_key xs k j) refl
    ]
  ]

module _ {A : Type 0} where
  abbrev keys_of : List (Text × A) → List Text
  keys_of [] = []
  keys_of ((k, v) ∷ xs) = k ∷ keys_of xs

  contains-keys_of :
      (xs : List (Text × A)) (k : Text) → contains k (keys_of xs) ≡ is_some (find xs k)
  contains-keys_of [] k = refl
  contains-keys_of ((j, v) ∷ xs) k = ground (arith, contains-keys_of xs k)

abbrev pub memory : Database
memory = record {
  State = List (Text × FileInfo);
  get = find;
  put = λ s k v. some ((k, v) ∷ s);
  delete = λ s k. some (drop_key s k);
}

abbrev pub tally_map : CountMap
tally_map = record {
  State = List (Text × ℤ);
  value = find;
  add_count = λ s k n. (k, added (find s k) n) ∷ s;
  put = λ s k n. (k, n) ∷ s;
  keys = keys_of;
}

some_injective : {A : Type 0} (a b : A) → some a ≡ some b → a ≡ b
some_injective a b h = cc

pub memory-IsLawful : IsLawful memory
memory-IsLawful = record {
  get-put = λ s t k j v e. ap (λ u. find u j) (sym (some_injective ((k, v) ∷ s) t e));
  get-delete = λ s t k j e.
      ap (λ u. find u j) (sym (some_injective (drop_key s k) t e)) ∙ find-drop_key s k j;
}

pub memory-IsWritable : IsWritable memory
memory-IsWritable = record {
  puts = λ s k v. ((k, v) ∷ s, refl);
  deletes = λ s k. (drop_key s k, refl);
}

pub tally_map-IsCounting : IsCounting tally_map
tally_map-IsCounting = record {
  value-add_count = λ s k j n. refl;
  contains-keys = λ s k. contains-keys_of s k;
  value-put = λ s k j n. refl;
}
