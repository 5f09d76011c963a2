-- ===== src/Server/Disk.antt =====
-- The disk as server/*.go sees it: the bytes of the file at each path.
use go_fastdfs.Prelude.{
  ℕ, ◌≡◌, refl, Bool, false, Option, none, some, List, if◌then◌else◌, Bool-cases, inl, inr, ◌≢◌,
  sym, ◌∙◌, ap, arith,
}
use go_fastdfs.Prelude.Text.{Text, text_eq, text_eq_refl, text_eq_sound, text_eq-false}
use go_fastdfs.Server.Database.{is_some}

abbrev pub Disk : Type 0
Disk = Text → Option (List ℕ)

abbrev pub exists : Disk → Text → Bool
exists d path = is_some (d path)

-- `os.Create` and the copy of the bytes
unfoldable pub write : Text → List ℕ → Disk → Disk
write path bytes d q = if text_eq q path then some bytes else d q

-- `os.Remove`
unfoldable pub erase : Text → Disk → Disk
erase path d q = if text_eq q path then none else d q

pub write_same : (path : Text) (bytes : List ℕ) (d : Disk) → write path bytes d path ≡ some bytes
unfolding write
write_same path bytes d = rw (text_eq_refl path) refl

pub none_of_exists : (d : Disk) (path : Text) → exists d path ≡ false → d path ≡ none
none_of_exists d path h = ground arith

-- A file that is new, and is removed again, leaves the disk as it was.
pub erase-write :
    (path : Text) (bytes : List ℕ) (d : Disk) (q : Text)
    → exists d path ≡ false
    → erase path (write path bytes d) q ≡ d q
unfolding erase write
erase-write path bytes d q h = elim (Bool-cases (text_eq q path)) [
  | inl e ↦ rw e (sym (none_of_exists d path h) ∙ ap d (sym (text_eq_sound q path e)))
  | inr e ↦ rw e refl
]

pub write_ne :
    (path : Text) (bytes : List ℕ) (d : Disk) (q : Text) → q ≢ path → write path bytes d q ≡ d q
unfolding write
write_ne path bytes d q n = rw (text_eq-false q path n) refl

pub erase_ne : (path : Text) (d : Disk) (q : Text) → q ≢ path → erase path d q ≡ d q
unfolding erase
erase_ne path d q n = rw (text_eq-false q path n) refl
