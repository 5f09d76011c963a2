-- ===== src/Console/Dashboard.antt =====
-- static/js/main.js: the statistics of the dashboard, and its tasks.
pub mod Totals
use go_fastdfs.Prelude.{
  ℕ, zero, suc, ◌+◌, ◌*◌, ◌/◌, ◌^◌, Bool, true, false, Option, none, some, List, [], ◌∷◌, ◌++◌, map,
  if◌then◌else◌, ◌==◌, ltb, length,
}
use go_fastdfs.Prelude.Text.{Text, lit, text_eq}
use go_fastdfs.Prelude.Decimal.{show_nat}
use go_fastdfs.Console.Browser.{
  Call, load, close, post, message, open_dialog, reload_after, click_parent,
}

-- An entry of `data.data["Fs.FileStats"]`. The numbers are not negative and below 2^53, so that
-- JavaScript adds them exactly.
pub record Day : Type 0 where
  pub date : Text
  pub file_count : ℕ
  pub total_size : ℕ

pub record DiskInfo : Type 0 where
  pub total : ℕ
  pub free : ℕ
  pub inodes_total : ℕ
  pub inodes_free : ℕ

-- The variables of `getStat`, and what it wrote for the entry `all`
pub record Sums : Type 0 where
  pub day_file_count : ℕ
  pub day_file_size : ℕ
  pub day_num_list : List Text
  pub day_file_count_list : List ℕ
  pub day_file_size_list : List ℕ
  pub all : Option (ℕ × ℕ)

-- `Math.round(x/1024/1024)`: the division by a power of two is exact, and a half is rounded up.
unfoldable pub megabytes : ℕ → ℕ
megabytes x = (x + 2 ^ 19) / 2 ^ 20

-- `Math.round(x/1024/1024/1024)`
unfoldable pub gigabytes : ℕ → ℕ
gigabytes x = (x + 2 ^ 29) / 2 ^ 30

-- One round of the loop at position i of n entries; `i > j` with `j = n - 30`
unfoldable pub stat_step : ℕ → ℕ → Day → Sums → Sums
unfolding megabytes
stat_step n i r a =
    if text_eq r.date (lit "all")
    then record a { all = some (r.file_count, megabytes r.total_size) }
    else record a {
      day_file_count = if ltb n (i + 30) then a.day_file_count + r.file_count else a.day_file_count;
      day_file_size = if ltb n (i + 30) then a.day_file_size + r.total_size else a.day_file_size;
      day_num_list = a.day_num_list ++ r.date ∷ [];
      day_file_count_list = a.day_file_count_list ++ r.file_count ∷ [];
      day_file_size_list = a.day_file_size_list ++ megabytes r.total_size ∷ [];
    }

unfoldable pub stat_loop : ℕ → ℕ → List Day → Sums → Sums
unfolding stat_step
stat_loop n i [] a = a
stat_loop n i (r ∷ rows) a = stat_loop n (suc i) rows (stat_step n i r a)

abbrev pub start : Sums
start = record {
  day_file_count = 0;
  day_file_size = 0;
  day_num_list = [];
  day_file_count_list = [];
  day_file_size_list = [];
  all = none;
}

-- The texts of the page and the data of the chart. The other options of the chart are constants.
pub record Panel : Type 0 where
  pub total_file_count : Option ℕ
  pub total_file_size : Option Text
  pub day_file_size : Text
  pub day_file_count : ℕ
  pub disk_total_size : Text
  pub disk_free_size : Text
  pub inodes_total : ℕ
  pub inodes_free : ℕ
  pub chart_days : List Text
  pub chart_sizes : List ℕ
  pub chart_counts : List ℕ

pub data Shown : Type 0 where
  panel : Panel → Shown
  error_message : Option Text → Shown

abbrev pub all_count : Option (ℕ × ℕ) → Option ℕ
all_count none = none
all_count (some (count, size)) = some count

abbrev pub all_size : Option (ℕ × ℕ) → Option Text
all_size none = none
all_size (some (count, size)) = some (show_nat size ++ lit "MB")

unfoldable pub panel_of : Sums → DiskInfo → Panel
unfolding megabytes gigabytes
panel_of a disk = record {
  total_file_count = all_count a.all;
  total_file_size = all_size a.all;
  day_file_size = show_nat (megabytes a.day_file_size) ++ lit "MB";
  day_file_count = a.day_file_count;
  disk_total_size = show_nat (gigabytes disk.total) ++ lit "GB";
  disk_free_size = show_nat (gigabytes disk.free) ++ lit "GB";
  inodes_total = disk.inodes_total;
  inodes_free = disk.inodes_free;
  chart_days = a.day_num_list;
  chart_sizes = a.day_file_size_list;
  chart_counts = a.day_file_count_list;
}

-- The reply of `../status`; `msg` is the member that the page reads, which may be absent.
pub record StatusReply : Type 0 where
  pub status : Text
  pub msg : Option Text
  pub stats : List Day
  pub disk : DiskInfo

unfoldable pub on_status : StatusReply → Shown
unfolding stat_loop panel_of
on_status r =
    if text_eq r.status (lit "ok")
    then panel (panel_of (stat_loop (length r.stats) 0 r.stats start) r.disk)
    else error_message r.msg

-- The links of the page, which click entries of the page around it
pub data Link : Type 0 where
  file_upload file_list : Link

unfoldable pub on_link : Link → List Call
on_link file_upload = click_parent (lit "fileUpload") ∷ []
on_link file_list = click_parent (lit "file") ∷ []

-- A task that the user confirms: `repair_stat`, `remove_empty_dir`, `backup` and `repair`.
pub data Task : Type 0 where
  repair_stat remove_empty_dir backup repair : Task

abbrev pub task_url : Task → Text
task_url repair_stat = lit "/main/repair_stat"
task_url remove_empty_dir = lit "/main/remove_empty_dir"
task_url backup = lit "/main/backup"
task_url repair = lit "/main/repair"

-- The confirmation's own layer, and the index of the layer that `layer.load()` opens next.
unfoldable pub on_confirm : Task → ℕ → ℕ → List Call
on_confirm task index loading = close index ∷ load loading ∷ post (task_url task) [] ∷ []

unfoldable pub on_task_reply : Task → ℕ → Text → List Call
on_task_reply repair_stat loading msg = close loading ∷ message msg ∷ reload_after 1000 ∷ []
on_task_reply task loading msg = close loading ∷ message msg ∷ []

pub record Peers : Type 0 where
  pub id : ℕ
  pub name : Text

abbrev pub peers_option : Peers → Text
peers_option p =
    lit "<option value=\"" ++ (show_nat p.id ++ (lit "\">" ++ (p.name ++ lit "</option>")))

-- The loop that builds the options of the dialog
unfoldable pub options_loop : Text → List Peers → Text
options_loop html [] = html
options_loop html (p ∷ peers) = options_loop (html ++ peers_option p) peers

unfoldable pub on_all_peers : List Peers → List Call
unfolding options_loop
on_all_peers peers =
    open_dialog (lit "选择集群") (
      options_loop
        (lit
          "<form class=\"layui-form\" action=\"\"><div class=\"layui-form-item\"><div class=\"layui-input-block\" style=\"margin: 0;padding: 15px;\"><select name=\"peers\" lay-filter=\"peers\"><option value=\"0\"></option>")
        peers
      ++ lit "</select></div></div></form>")
    ∷ []

-- `switchPeersId` at first, and behind a choice in the dialog
abbrev pub no_peers_id : ℕ
no_peers_id = 0

unfoldable pub on_select_peers : ℕ → ℕ → ℕ
on_select_peers value id = value

-- The button of the dialog, with the id that was chosen (0 if none was)
unfoldable pub on_switch_confirmed : ℕ → List Call
on_switch_confirmed id =
    if id == 0
    then message (lit "请选择要切换的集群") ∷ []
    else post (lit "/main/switchPeers") ((lit "id", show_nat id) ∷ []) ∷ []

unfoldable pub on_switched : ℕ → ℕ → Text → List Call
on_switched index state msg =
    if state == 200
    then close index ∷ message (lit "切换成功") ∷ reload_after 1000 ∷ []
    else message msg ∷ []
