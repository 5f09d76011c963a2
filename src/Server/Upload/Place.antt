-- ===== src/Server/Upload/Place.antt =====
-- Where `SaveUploadFile` of server/http_upload.go puts a file: its name, its directory, and the
-- search for a path that is free.
use go_fastdfs.Prelude.{
  ℕ, zero, suc, ◌≡◌, ◌≢◌, refl, ap, ◌⊎◌, inl, inr, Bool, true, false, ◌&&◌, ◌||◌, List, [], ◌∷◌,
  ◌++◌, if◌then◌else◌, ◌==◌, arith, length, length-append, Bool-cases,
}
use go_fastdfs.Prelude.Text.{Text, lit, text_eq, has_prefix, has_infix, replace_all}
use go_fastdfs.Prelude.Decimal.{show_nat}
use go_fastdfs.Server.Types.{Config, slash, store_dir_name}

abbrev is_in : ℕ → Text → Bool
is_in b [] = false
is_in b (c ∷ s) = (b == c) || is_in b s

-- The bytes that `TrimFileNameSpecialChar` drops: its character class
abbrev pub is_special : ℕ → Bool
is_special b = is_in b (lit "/:*?<>|()[]{},;'#@%&$^~=+-!" ++ (92 ∷ 34 ∷ 32 ∷ 9 ∷ 10 ∷ 12 ∷ 13 ∷ []))

unfoldable pub drop_special : Text → Text
drop_special [] = []
drop_special (b ∷ s) = let rest = drop_special s in if is_special b then rest else b ∷ rest

-- `TrimFileNameSpecialChar`
unfoldable pub trim_file_name : Text → Text
unfolding drop_special replace_all
trim_file_name s = replace_all (replace_all (drop_special s) (lit "...") []) (lit "..") []

-- `STORE_DIR`
abbrev pub store_dir : Config → Text
store_dir c = c.docker_dir ++ store_dir_name

-- The directory: `folder`, with the time as `20060102/15/04`
unfoldable pub folder_of : Config → Text → Text → Text → Text
unfolding has_prefix
folder_of c time scene path =
    let dated = if text_eq c.peer_id [] then time else time ++ (slash ++ c.peer_id) in
    let placed =
      if text_eq scene []
      then store_dir c ++ (slash ++ dated)
      else store_dir c ++ (slash ++ (scene ++ (slash ++ dated))) in
    if text_eq path []
    then placed
    else if has_prefix path (store_dir c)
    then path
    else store_dir c ++ (slash ++ path)

-- `filepath.Base` of a name without a slash
abbrev pub base_of : Text → Text
base_of [] = lit "."
base_of (b ∷ s) = b ∷ s

abbrev pub numbered : ℕ → Text → Text
numbered i name = show_nat i ++ (b'_' ∷ name)

-- The rounds of the search for a free path
abbrev pub rounds : ℕ
rounds = 10000

-- The paths that `SaveUploadFile` writes with `fmt.Sprintf`, whose format begins with the directory:
-- a directory with a percent sign is read as a format, and gives a text that is left open here.
module _ (sprintf : Text → List Text → Text) where
  unfoldable pub path_in : Text → Text → Text
  path_in folder name =
      if has_infix folder (lit "%") then sprintf folder (name ∷ []) else folder ++ (slash ++ name)

  unfoldable pub numbered_path : Text → ℕ → Text → Text
  numbered_path folder i name =
      if has_infix folder (lit "%")
      then sprintf folder (show_nat i ∷ base_of name ∷ [])
      else folder ++ (slash ++ numbered i (base_of name))

  module _ (taken : Text → Bool) where
    -- The loop from i, for so many rounds: the path and the name
    unfoldable pub rename_loop : Text → ℕ → ℕ → Text → Text → Text × Text
    rename_loop folder zero i path name = (path, name)
    rename_loop folder (suc f) i path name = elim (taken (numbered_path folder i name)) [
      | true ↦ rename_loop folder f (suc i) (numbered_path folder i name) (numbered i name)
      | false ↦ (numbered_path folder i name, numbered i name)
    ]

    -- The path of the new file, and its name, with a number of rounds
    unfoldable pub choose_within : ℕ → Config → Text → Text → Text → Text × Text
    choose_within f c folder name re_name =
        let wanted = path_in folder (if text_eq re_name [] then name else re_name) in
        if taken wanted && c.enable_distinct_file
        then rename_loop folder f 0 wanted name
        else (wanted, name)

    unfoldable pub choose_path : Config → Text → Text → Text → Text × Text
    choose_path = choose_within rounds

    -- So many numbered paths from i on are taken.
    abbrev pub AllTaken : Text → ℕ → ℕ → Text → Type 0
    AllTaken folder zero i name = Unit {0}
    AllTaken folder (suc f) i name =
        (taken (numbered_path folder i name) ≡ true) × AllTaken folder f (suc i) (numbered i name)

    rename_loop_taken :
        (folder : Text) (f i : ℕ) (path name : Text)
        → taken (numbered_path folder i name) ≡ true
        → rename_loop folder (suc f) i path name
          ≡ rename_loop folder f (suc i) (numbered_path folder i name) (numbered i name)
    unfolding rename_loop
    rename_loop_taken folder f i path name e = rw (rename_loop, e) refl

    rename_loop_free :
        (folder : Text) (f i : ℕ) (path name : Text)
        → taken (numbered_path folder i name) ≡ false
        → rename_loop folder (suc f) i path name ≡ (numbered_path folder i name, numbered i name)
    unfolding rename_loop
    rename_loop_free folder f i path name e = rw (rename_loop, e) refl

    rename_loop-AllTaken :
        (folder : Text) (f i : ℕ) (path name : Text)
        → (taken (rename_loop folder f i path name).0 ≡ false) ⊎ AllTaken folder f i name
    rename_loop-AllTaken folder zero i path name = inr tt
    rename_loop-AllTaken folder (suc f) i path name =
        elim (Bool-cases (taken (numbered_path folder i name))) [
          | inl e ↦
              rw (rename_loop_taken folder f i path name e)
                (elim (rename_loop-AllTaken folder f (suc i) (numbered_path folder i name)
                  (numbered i name)) [ inl h ↦ inl h | inr h ↦ inr (e, h) ])
          | inr e ↦ rw (rename_loop_free folder f i path name e) (inl e)
        ]

    choose_within-AllTaken :
        (f : ℕ) (c : Config) (folder name re_name : Text)
        → c.enable_distinct_file ≡ true
        → (taken (choose_within f c folder name re_name).0 ≡ false) ⊎ AllTaken folder f 0 name
    unfolding choose_within
    choose_within-AllTaken f c folder name re_name d =
        let wanted = path_in folder (if text_eq re_name [] then name else re_name) in
        elim (Bool-cases (taken wanted)) [
          | inl e ↦ rw (e, d) (rename_loop-AllTaken folder f 0 wanted name)
          | inr e ↦ rw e (inl e)
        ]

    -- Where files are distinct, the path that is chosen is free, or 10000 numbered paths are taken.
    pub choose_path-AllTaken :
        (c : Config) (folder name re_name : Text)
        → c.enable_distinct_file ≡ true
        → (taken (choose_path c folder name re_name).0 ≡ false) ⊎ AllTaken folder rounds 0 name
    unfolding choose_path
    choose_path-AllTaken = choose_within-AllTaken rounds

    -- Where no custom name is given, the path that is chosen is that of the name, in the directory.
    abbrev pub NamesPath : Text → Text × Text → Type 0
    NamesPath folder (path, name) = path ≡ folder ++ (slash ++ name)

    base_of_name : (name : Text) → name ≢ [] → base_of name ≡ name
    base_of_name [] n = absurd (n refl)
    base_of_name (b ∷ s) n = refl

    numbered_path_lem :
        (folder : Text) (i : ℕ) (name : Text)
        → has_infix folder (lit "%") ≡ false
        → name ≢ []
        → numbered_path folder i name ≡ folder ++ (slash ++ numbered i name)
    unfolding numbered_path
    numbered_path_lem folder i name h n = rw (h, base_of_name name n) refl

    numbered_more : (i : ℕ) (name : Text) → numbered i name ≢ []
    numbered_more i name e = omega (arith, length-append (show_nat i) (b'_' ∷ name), ap length e)

    rename_loop-NamesPath :
        (folder : Text) (f i : ℕ) (path name : Text)
        → has_infix folder (lit "%") ≡ false
        → name ≢ []
        → path ≡ folder ++ (slash ++ name)
        → NamesPath folder (rename_loop folder f i path name)
    rename_loop-NamesPath folder zero i path name h n e = unfold rename_loop in e
    rename_loop-NamesPath folder (suc f) i path name h n e =
        let p = numbered_path_lem folder i name h n in
        elim (Bool-cases (taken (numbered_path folder i name))) [
          | inl t ↦ rw (rename_loop_taken folder f i path name t) (
              rename_loop-NamesPath folder f (suc i) (numbered_path folder i name) (numbered i name)
                h (numbered_more i name) p)
          | inr t ↦ rw (rename_loop_free folder f i path name t) p
        ]

    either :
        (folder : Text) (b : Bool) (x y : Text × Text)
        → NamesPath folder x
        → NamesPath folder y
        → NamesPath folder (if b then x else y)
    either folder true x y h k = h
    either folder false x y h k = k

    choose_within-NamesPath :
        (f : ℕ) (c : Config) (folder name : Text)
        → has_infix folder (lit "%") ≡ false
        → name ≢ []
        → NamesPath folder (choose_within f c folder name [])
    unfolding choose_within path_in text_eq
    choose_within-NamesPath f c folder name h n =
        let wanted = path_in folder name in
        let e : wanted ≡ folder ++ (slash ++ name) = rw h refl in
        either folder (taken wanted && c.enable_distinct_file) (rename_loop folder f 0 wanted name)
          (wanted, name) (rename_loop-NamesPath folder f 0 wanted name h n e) e

    pub choose_path-NamesPath :
        (c : Config) (folder name : Text)
        → has_infix folder (lit "%") ≡ false
        → name ≢ []
        → NamesPath folder (choose_path c folder name [])
    unfolding choose_path
    choose_path-NamesPath = choose_within-NamesPath rounds
