-- ===== src/Console/Browser.antt =====
-- static/js/file.js: the file browser of the administration pages. A handler is a function from its
-- inputs (data attributes of the clicked element, the reply of the server, the index that
-- `layer.load()` returned) to the calls that it makes, in order.
pub mod Crumbs
pub mod Layers
pub mod Preview
pub mod Zoom
use go_fastdfs.Prelude.{
  ℕ, suc, Bool, true, false, List, [], ◌∷◌, ◌++◌, map, if◌then◌else◌, ◌==◌, length,
}
use go_fastdfs.Prelude.Text.{Text, lit, after_last, to_lower}
use go_fastdfs.Prelude.Split.{split}
use go_fastdfs.Console.Kit.{Icon, FileType, get_icon_name, get_file_type}

-- A row of `result.data`
pub record Item : Type 0 where
  pub name : Text
  pub path : Text
  pub md5 : Text
  pub peer : Text
  pub is_dir : Bool

-- A reply of the server to `$.post`
pub record Reply : Type 0 where
  pub state : ℕ
  pub msg : Text
  pub items : List Item

-- The calls of jQuery, layer and the browser that the handlers make. `show_list` is the call of the
-- template `file-list` with the icon that `iconHandler` gives for each row.
pub data Call : Type 0 where
  load close : ℕ → Call
  post : Text → List (Text × Text) → Call
  message : Text → Call
  show_list : List (Item × Icon) → Call
  show_path : Text → Call
  no_file_tip : Call
  remove_row : Call
  photos open_audio open_video : Text → Text → Call
  open_window : Text → Call
  submit_form : Text → List (Text × Text) → Call
  open_dialog : Text → Text → Call
  reload_after : ℕ → Call
  confirm : Text → Text → Call
  click_parent : Text → Call

-- `name.substring(name.lastIndexOf(".") + 1, name.length).toLowerCase()`
unfoldable pub suffix : Text → Text
unfolding after_last to_lower
suffix name = to_lower (after_last b'.' name)

unfoldable pub icon_handler : Text → Bool → Icon
unfolding get_icon_name suffix
icon_handler name is_dir = if is_dir then Icon.folder else get_icon_name (suffix name)

unfoldable pub listing : List Item → List (Item × Icon)
unfolding icon_handler
listing = map (λ i. (i, icon_handler i.name i.is_dir))

-- `<a class="path-side-btn" data-path="…">…</a>`
abbrev pub anchor : Text → Text → Text
anchor path label =
    lit "<a class=\"path-side-btn\" data-path=\"" ++ (path ++ (lit "\">" ++ (label ++ lit "</a>")))

abbrev pub slash : Text
slash = b'/' ∷ []

-- The loop of `setPathSide`, with its variables `html` and `path`.
unfoldable pub path_loop : Text → Text → List Text → Text
path_loop html path [] = html
path_loop html path ([] ∷ arr) = path_loop html path arr
path_loop html path ((c ∷ s) ∷ arr) =
    path_loop (html ++ anchor (path ++ (slash ++ (c ∷ s))) (c ∷ s)) (path ++ (slash ++ (c ∷ s))) arr

unfoldable pub set_path_side : Text → Text
unfolding path_loop split
set_path_side dir = path_loop (anchor [] (lit "全部文件")) [] (split b'/' dir)

-- `if (dir.substring(0,1) == "/") dir = dir.substring(1)`
unfoldable pub strip_slash : Text → Text
strip_slash [] = []
strip_slash (c ∷ s) = if c == b'/' then s else c ∷ s

unfoldable pub get_parent_file : ℕ → List Call
get_parent_file index = load index ∷ post (lit "/file/getParentFile") [] ∷ []

abbrev pub root_path : Text
root_path = lit "<a class=\"path-side-btn\" data-path=\"\"><cite>全部文件</cite></a>"

unfoldable pub on_parent_file : ℕ → Reply → List Call
on_parent_file index result =
    if result.state == 200
    then show_list (listing result.items) ∷ show_path root_path ∷ close index ∷ []
    else close index ∷ message (lit "系统异常") ∷ []

unfoldable pub open_dir : ℕ → Text → List Call
open_dir index dir =
    load index ∷ post (lit "/file/getDirFile") ((lit "dir", strip_slash dir) ∷ []) ∷ []

unfoldable pub on_open_dir : ℕ → Text → Reply → List Call
on_open_dir index dir result =
    if result.state == 200
    then show_list (listing result.items)
      ∷ show_path (set_path_side (slash ++ strip_slash dir))
      ∷ close index
      ∷ []
    else close index ∷ message (lit "系统异常") ∷ []

-- A click on a directory, with its `data-name` and `data-path`
unfoldable pub on_result_dir : ℕ → Text → Text → List Call
on_result_dir index dir_name dir_path = open_dir index (dir_path ++ (slash ++ dir_name))

-- A click on the button for uploads: the page around this one is clicked.
unfoldable pub on_file_upload : List Call
on_file_upload = click_parent (lit "fileUpload") ∷ []

-- A click on an entry of the path bar, with its `data-path`
unfoldable pub on_path_side : ℕ → Text → List Call
unfolding open_dir
on_path_side index dir = open_dir index dir

unfoldable pub on_download : Text → Text → List Call
on_download name path =
    submit_form (lit "/file/downloadFile") ((lit "path", path) ∷ (lit "name", name) ∷ []) ∷ []

-- The details of a file, as the server sends them
pub record Details : Type 0 where
  pub name : Text
  pub path : Text
  pub md5 : Text
  pub scene : Text
  pub size : Text
  pub time_stamp : Text

abbrev pub details_line : Text → Text → Text
details_line label value =
    lit "<li><span>" ++ (label ++ (lit ":&nbsp;</span>" ++ (value ++ lit "</li>")))

-- The reply to a click on a details button
unfoldable pub on_details : Details → List Call
on_details d =
    open_dialog (lit "文件信息") (
      lit "<div class=\"file-details-box\"><ul>"
      ++ (details_line (lit "名称") d.name
          ++ (details_line (lit "路径") d.path
              ++ (details_line (lit "MD5") d.md5
                  ++ (details_line (lit "场景") d.scene
                      ++ (details_line (lit "大小") d.size
                          ++ (details_line (lit "日期") d.time_stamp ++ lit "</ul></div>")))))))
    ∷ []

-- A click on a deletion button
unfoldable pub on_delete_file : Text → List Call
on_delete_file name = confirm (lit "提示") (lit "确定要删除" ++ (name ++ lit "吗?")) ∷ []

-- The answer to the confirmation of a deletion, and the reply to its request. `rows` are the rows
-- that are left when the clicked one is gone.
unfoldable pub delete_confirmed : ℕ → Text → List Call
delete_confirmed index md5 =
    post (lit "/file/deleteFile") ((lit "md5", md5) ∷ []) ∷ close index ∷ []

unfoldable pub on_deleted : List Item → Reply → List Call
on_deleted rows result =
    if result.state == 200
    then remove_row
      ∷ (if length rows == 0
          then no_file_tip ∷ message (lit "删除成功") ∷ []
          else message (lit "删除成功") ∷ [])
    else message result.msg ∷ []

-- A click on a file
unfoldable pub on_result_file : Item → List Call
unfolding suffix get_file_type
on_result_file i =
    let source = i.peer ++ (slash ++ (i.path ++ (slash ++ i.name))) in
    elim (get_file_type (suffix i.name)) [
      | FileType.image ↦ photos i.name source ∷ []
      | FileType.song ↦
          open_audio i.name (
            lit "<audio src=\""
            ++ (source
                ++ lit
                    "\" autoplay controls style=\"width: 350px;display: block;margin: 10px auto auto;\">您的浏览器不支持 audio 标签。</audio>"))
          ∷ []
      | FileType.video ↦
          open_video i.name (
            lit "<video src=\""
            ++ (source
                ++ lit
                    "\" autoplay controls style=\"width: 400px;height: 226px\">您的浏览器不支持 video 标签。</video>"))
          ∷ []
      | FileType.txt ↦ open_window (source ++ lit "?download=0") ∷ []
      | _ ↦ message (lit "该文件格式暂不支持预览") ∷ []
    ]
