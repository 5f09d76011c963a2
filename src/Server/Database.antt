-- ===== src/Server/Database.antt =====
-- What the server asks of leveldb (github.com/syndtr/goleveldb) and of goutil's `CommonMap`, as
-- records of operations over an unknown state, and what it relies on.
use go_fastdfs.Prelude.{◌≡◌, Bool, true, false, Option, none, some, List, if◌then◌else◌}
use go_fastdfs.Prelude.Int.{ℤ, pos, add_int64}
use go_fastdfs.Prelude.Text.{Text, text_eq}
use go_fastdfs.Prelude.TextSet.{contains}
use go_fastdfs.Server.Types.{FileInfo}

-- The values are the JSON texts of records; a write that fails gives no new state.
pub record Database : Type 1 where
  pub State : Type 0
  pub get : State → Text → Option FileInfo
  pub put : State → Text → FileInfo → Option State
  pub delete : State → Text → Option State

pub record IsLawful (D : Database) : Type 0 where
  pub get-put :
      (s t : D.State) (k j : Text) (v : FileInfo)
      → D.put s k v ≡ some t
      → D.get t j ≡ (if text_eq j k then some v else D.get s j)
  pub get-delete :
      (s t : D.State) (k j : Text)
      → D.delete s k ≡ some t
      → D.get t j ≡ (if text_eq j k then none else D.get s j)

-- A database on whose disk every write succeeds
pub record IsWritable (D : Database) : Type 0 where
  pub puts : (s : D.State) (k : Text) (v : FileInfo) → (t : D.State) × (D.put s k v ≡ some t)
  pub deletes : (s : D.State) (k : Text) → (t : D.State) × (D.delete s k ≡ some t)

-- `CommonMap` with `int64` values
pub record CountMap : Type 1 where
  pub State : Type 0
  pub value : State → Text → Option ℤ
  pub add_count : State → Text → ℤ → State
  pub put : State → Text → ℤ → State
  pub keys : State → List Text

-- The sum that `AddCountInt64` leaves
abbrev pub added : Option ℤ → ℤ → ℤ
added none n = n
added (some m) n = add_int64 m n

abbrev pub is_some {ℓ} : {A : Type ℓ} → Option A → Bool
is_some none = false
is_some (some a) = true

pub record IsCounting (M : CountMap) : Type 0 where
  pub value-add_count :
      (s : M.State) (k j : Text) (n : ℤ)
      → M.value (M.add_count s k n) j
        ≡ (if text_eq j k then some (added (M.value s k) n) else M.value s j)
  pub contains-keys : (s : M.State) (k : Text) → contains k (M.keys s) ≡ is_some (M.value s k)
  pub value-put :
      (s : M.State) (k j : Text) (n : ℤ)
      → M.value (M.put s k n) j ≡ (if text_eq j k then some n else M.value s j)

abbrev pub or_zero : Option ℤ → ℤ
or_zero none = pos 0
or_zero (some n) = n

-- The state behind a write: a failed one is logged and changes nothing.
abbrev pub or_same {ℓ} : {A : Type ℓ} → A → Option A → A
or_same a none = a
or_same a (some b) = b

module _ (D : Database) (lawful : IsLawful D) (writable : IsWritable D) where
  pub get-or_same-put :
      (s : D.State) (k j : Text) (v : FileInfo)
      → D.get (or_same s (D.put s k v)) j ≡ (if text_eq j k then some v else D.get s j)
  get-or_same-put s k j v = let (t, e) = writable.puts s k v in rw e (lawful.get-put s t k j v e)

  pub get-or_same-delete :
      (s : D.State) (k j : Text)
      → D.get (or_same s (D.delete s k)) j ≡ (if text_eq j k then none else D.get s j)
  get-or_same-delete s k j = let (t, e) = writable.deletes s k in rw e (lawful.get-delete s t k j e)
