-- ===== src/Console/Kit/Agreement.antt =====
-- The `switch` of `getIconName` and the tests of `getFileType` sort every suffix alike.
use go_fastdfs.Prelude.{
  String, false, List, [], ◌∷◌, map, ◌≡◌, refl, sym, ap, ◌∙◌, inl, inr, arith, Bool-cases,
}
use go_fastdfs.Prelude.Text.{Text, lit, text_eq, text_eq_sound}
use go_fastdfs.Console.Kit.{
  Icon, FileType, switch, is_one_of, icon_cases, get_icon_name, get_file_type,
}

-- Two functions that agree at each key, and at a text that is no key, agree at the text.
agree_by_keys {ℓ} :
    {A : Type ℓ} (f g : Text → A) (keys : List String) (s : Text)
    → map (λ k. f (lit k)) keys ≡ map (λ k. g (lit k)) keys
    → (is_one_of keys s ≡ false → f s ≡ g s)
    → f s ≡ g s
unfolding is_one_of
agree_by_keys f g [] s h miss = miss refl
agree_by_keys f g (k ∷ keys) s h miss = elim (Bool-cases (text_eq s (lit k))) [
  | inl e ↦ rw (text_eq_sound s (lit k) e) (cc)
  | inr e ↦ agree_by_keys f g keys s (cc) (λ n. miss (ground arith))
]

switch-missed {ℓ} :
    {A : Type ℓ} (cases : List (String × A)) (default : A) (s : Text)
    → is_one_of (map (λ (k, _). k) cases) s ≡ false
    → switch cases default s ≡ default
unfolding is_one_of switch
switch-missed [] default s h = refl
switch-missed ((k, v) ∷ cases) default s h = ground (arith, switch-missed cases default s)

-- The kind that an icon stands for.
abbrev pub type_of_icon : Icon → FileType
type_of_icon Icon.img = FileType.image
type_of_icon Icon.zip = FileType.zip
type_of_icon Icon.ppt = FileType.ppt
type_of_icon Icon.word = FileType.word
type_of_icon Icon.excel = FileType.excel
type_of_icon Icon.music = FileType.song
type_of_icon Icon.txt = FileType.txt
type_of_icon Icon.video = FileType.video
type_of_icon _ = FileType.other

abbrev keys : List String
keys = map (λ (k, _). k) icon_cases

get_file_type-missed : (s : Text) → is_one_of keys s ≡ false → get_file_type s ≡ FileType.other
unfolding get_file_type
get_file_type-missed s h = ground arith

-- For every suffix the kind of the file is the one that its icon stands for.
pub get_file_type-get_icon_name : (s : Text) → get_file_type s ≡ type_of_icon (get_icon_name s)
unfolding get_file_type get_icon_name text_eq
get_file_type-get_icon_name s =
    agree_by_keys get_file_type (λ t. type_of_icon (get_icon_name t)) keys s refl
      (λ h.
        get_file_type-missed s h ∙ ap type_of_icon (sym (switch-missed icon_cases Icon.other s h)))
