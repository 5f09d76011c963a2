-- ===== src/Console/Kit.antt =====
-- static/js/kit.js: the icon and the kind of a file, by the suffix of its name.
pub mod Agreement
use go_fastdfs.Prelude.{String, Bool, true, false, ◌||◌, List, [], ◌∷◌, if◌then◌else◌}
use go_fastdfs.Prelude.Text.{Text, lit, text_eq}

-- The values of `iconName`; `folder` is the `"file"` that file.js gives to a directory.
pub data Icon : Type 0 where
  img zip ppt pdf word excel music txt video exe shell java go css html js python other : Icon
  folder : Icon

-- The values of `fileType`
pub data FileType : Type 0 where
  image zip ppt word excel song txt video other : FileType

-- A `switch` on a text whose cases all end in `break`: the first case that is equal decides.
unfoldable pub switch {ℓ} : {A : Type ℓ} → List (String × A) → A → Text → A
switch [] default s = default
switch ((k, v) ∷ cases) default s =
    let rest = switch cases default s in if text_eq s (lit k) then v else rest

-- `s == k1 || s == k2 || …`
unfoldable pub is_one_of : List String → Text → Bool
is_one_of [] s = false
is_one_of (k ∷ keys) s = text_eq s (lit k) || is_one_of keys s

abbrev pub icon_cases : List (String × Icon)
icon_cases =
    ("jpg", Icon.img)
    ∷ ("png", Icon.img)
    ∷ ("jpeg", Icon.img)
    ∷ ("gif", Icon.img)
    ∷ ("psd", Icon.img)
    ∷ ("rar", Icon.zip)
    ∷ ("zip", Icon.zip)
    ∷ ("7z", Icon.zip)
    ∷ ("tar", Icon.zip)
    ∷ ("gz", Icon.zip)
    ∷ ("ppt", Icon.ppt)
    ∷ ("pptx", Icon.ppt)
    ∷ ("pdf", Icon.pdf)
    ∷ ("doc", Icon.word)
    ∷ ("docx", Icon.word)
    ∷ ("xls", Icon.excel)
    ∷ ("xlsx", Icon.excel)
    ∷ ("wave", Icon.music)
    ∷ ("mp3", Icon.music)
    ∷ ("mpeg-4", Icon.music)
    ∷ ("aac", Icon.music)
    ∷ ("mpeg", Icon.music)
    ∷ ("txt", Icon.txt)
    ∷ ("avi", Icon.video)
    ∷ ("mp4", Icon.video)
    ∷ ("3gp", Icon.video)
    ∷ ("rmvb", Icon.video)
    ∷ ("flv", Icon.video)
    ∷ ("exe", Icon.exe)
    ∷ ("sh", Icon.shell)
    ∷ ("bat", Icon.shell)
    ∷ ("java", Icon.java)
    ∷ ("go", Icon.go)
    ∷ ("css", Icon.css)
    ∷ ("html", Icon.html)
    ∷ ("js", Icon.js)
    ∷ ("py", Icon.python)
    ∷ []

-- `kit.getIconName(suffix)`
unfoldable pub get_icon_name : Text → Icon
unfolding switch
get_icon_name suffix = switch icon_cases Icon.other suffix

abbrev pub image_keys : List String
image_keys = "jpg" ∷ "png" ∷ "jpeg" ∷ "gif" ∷ "psd" ∷ []

abbrev pub zip_keys : List String
zip_keys = "rar" ∷ "zip" ∷ "7z" ∷ "tar" ∷ "gz" ∷ []

abbrev pub song_keys : List String
song_keys = "wave" ∷ "mp3" ∷ "mpeg-4" ∷ "aac" ∷ "mpeg" ∷ []

abbrev pub video_keys : List String
video_keys = "avi" ∷ "mp4" ∷ "3gp" ∷ "rmvb" ∷ "flv" ∷ []

-- `kit.getFileType(suffix)`
unfoldable pub get_file_type : Text → FileType
unfolding is_one_of
get_file_type suffix =
    if is_one_of image_keys suffix
    then FileType.image
    else if is_one_of zip_keys suffix
    then FileType.zip
    else if is_one_of ("ppt" ∷ "pptx" ∷ []) suffix
    then FileType.ppt
    else if is_one_of ("doc" ∷ "docx" ∷ []) suffix
    then FileType.word
    else if is_one_of ("xls" ∷ "xlsx" ∷ []) suffix
    then FileType.excel
    else if is_one_of song_keys suffix
    then FileType.song
    else if is_one_of ("txt" ∷ []) suffix
    then FileType.txt
    else if is_one_of video_keys suffix
    then FileType.video
    else FileType.other
