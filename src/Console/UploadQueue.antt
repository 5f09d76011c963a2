-- ===== src/Console/UploadQueue.antt =====
-- static/js/upload.js: the table of files to upload. layui pushes the chosen files, reads them, sends
-- them and calls the handlers below; its index of a file is new for each file that is pushed.
pub mod Laws
use go_fastdfs.Prelude.{
  ℕ, ◌+◌, ◌/◌, ◌%◌, Bool, true, false, Option, none, some, List, [], ◌∷◌, ◌++◌, map, if◌then◌else◌,
  ◌==◌,
}
use go_fastdfs.Prelude.Text.{Text, lit, text_eq}
use go_fastdfs.Prelude.Decimal.{show_nat}
use go_fastdfs.Console.Browser.{Call, confirm, close}

pub data Status : Type 0 where
  waiting uploaded failed : Status

-- The last cell: the buttons for another try (hidden or shown) and for deletion, or the link.
pub data Actions : Type 0 where
  buttons : Bool → Actions
  link : Text → Actions

pub record Row : Type 0 where
  pub index : ℕ
  pub name : Text
  pub bar : ℕ
  pub percent : Text
  pub status : Status
  pub actions : Actions

-- The table, `this.files` (index and name), the files that are still read, and `count`
pub record Queue : Type 0 where
  pub rows : List Row
  pub files : List (ℕ × Text)
  pub reading : List (ℕ × Text)
  pub count : ℕ

unfoldable pub new_row : ℕ → Text → ℕ → Row
new_row index name count = record {
  index = index;
  name = name;
  bar = count;
  percent = lit "0%";
  status = waiting;
  actions = buttons false;
}

-- `choose`: `pushFile` adds the chosen files, and `obj.preview` starts to read them.
unfoldable pub choose : List (ℕ × Text) → Queue → Queue
choose chosen q = record q { files = q.files ++ chosen; reading = q.reading ++ chosen }

-- `delete files[index]`
unfoldable pub delete_file : ℕ → List (ℕ × Text) → List (ℕ × Text)
delete_file i [] = []
delete_file i ((j, name) ∷ files) =
    let rest = delete_file i files in if j == i then rest else (j, name) ∷ rest

-- The function that `obj.preview` calls when a file has been read, in any order: its row is added.
unfoldable pub preview : ℕ → Text → Queue → Queue
unfolding new_row delete_file
preview index name q = record q {
  rows = q.rows ++ new_row index name (q.count + 1) ∷ [];
  reading = delete_file index q.reading;
  count = q.count + 1;
}

-- The row of an index leaves the table.
unfoldable pub remove_row : ℕ → List Row → List Row
remove_row i [] = []
remove_row i (r ∷ rows) = let rest = remove_row i rows in if r.index == i then rest else r ∷ rest

-- The handler of `.more-file-delete`
unfoldable pub on_delete : ℕ → Queue → Queue
unfolding delete_file remove_row
on_delete i q = record q { rows = remove_row i q.rows; files = delete_file i q.files }

-- `demoListView.find('tr#upload-' + index)` and a change of what it finds
unfoldable pub at_row : ℕ → (Row → Row) → List Row → List Row
at_row i change = map (λ r. if r.index == i then change r else r)

-- `.find('.more-file-reload').removeClass('layui-hide')`: a link has no such button.
unfoldable pub show_reload : Actions → Actions
show_reload (buttons shown) = buttons true
show_reload (link url) = link url

unfoldable pub mark_uploaded : Text → Row → Row
mark_uploaded url r = record r { status = uploaded; percent = lit "100%"; actions = link url }

unfoldable pub mark_failed : Row → Row
unfolding show_reload
mark_failed r = record r { status = failed; actions = show_reload r.actions }

-- `error(index, upload)`
unfoldable pub on_error : ℕ → Queue → Queue
unfolding at_row mark_failed
on_error i q = record q { rows = at_row i mark_failed q.rows }

-- `done(res, index, upload)`: state and url of the reply
unfoldable pub on_done : ℕ → Text → ℕ → Queue → Queue
unfolding at_row mark_uploaded mark_failed delete_file on_error
on_done state url i q =
    if state == 200
    then record q { rows = at_row i (mark_uploaded url) q.rows; files = delete_file i q.files }
    else on_error i (record q { rows = at_row i mark_failed q.rows })

-- `before`: the fields that are sent with each file
unfoldable pub request_fields : Text → Text → Text → List (Text × Text)
request_fields scene path show_url =
    (lit "scene", scene) ∷ (lit "path", path) ∷ (lit "showUrl", show_url) ∷ []

-- `((loaded / total) * 100).toFixed(2)`, without its zeros where it is 100, from the value in
-- hundredths that the floating-point division and `toFixed` give.
unfoldable pub percent_text : ℕ → Text
unfolding show_nat
percent_text hundredths =
    if hundredths == 10000
    then lit "100%"
    else show_nat (hundredths / 100)
      ++ (b'.' ∷ (48 + hundredths / 10 % 10) ∷ (48 + hundredths % 10) ∷ lit "%")

module _ (to_fixed : ℕ → ℕ → ℕ) where
  -- `progress(value, obj)`: the bar of each row whose file has the name of the file that is sent.
  unfoldable pub on_progress : ℕ → ℕ → Text → Queue → Queue
  unfolding percent_text
  on_progress loaded total name q = record q {
    rows =
        map
          (λ r.
            if text_eq r.name name
            then record r { percent = percent_text (to_fixed loaded total) }
            else r)
          q.rows;
  }

-- An `XMLHttpRequest`: whether it tells of uploads, and what it calls with their progress
pub record Xhr (F : Type 0) : Type 0 where
  pub has_upload : Bool
  pub onprogress : Option F

-- What `xhrOnProgress(fun)` makes of a new request; `none` is a `fun` that is no function.
unfoldable pub xhr_on_progress : {F : Type 0} → Option F → Xhr F → Xhr F
xhr_on_progress none xhr = xhr
xhr_on_progress (some f) xhr = if xhr.has_upload then record xhr { onprogress = some f } else xhr

-- `showUrl`, and the answer to it
unfoldable pub show_url : Text → List Call
show_url url =
    confirm (lit "查看链接") (
      lit "点击访问: <br><a href=\""
      ++ (url
          ++ (lit "\" target=\"_blank\" title=\"点击访问\" class=\"showUrl-href\">"
              ++ (url ++ lit "</a>"))))
    ∷ []

unfoldable pub on_show_url : ℕ → List Call
on_show_url index = close index ∷ []
