-- ===== src/Tests/Console.antt =====
-- The administration pages (static/js/*.js) at concrete data.
use go_fastdfs.Prelude.{ℕ, ◌^◌, ◌≡◌, refl, false, true, none, List, [], ◌∷◌, ◌++◌, arith}
use go_fastdfs.Prelude.Text.{Text, lit, text_eq}
use go_fastdfs.Console.Kit.{Icon, get_icon_name, get_file_type}
use go_fastdfs.Console.Kit.Agreement.{type_of_icon, get_file_type-get_icon_name}
use go_fastdfs.Console.Browser.{
  Item, Reply, open_dir, on_open_dir, listing, show_list, show_path, close, set_path_side, suffix,
  anchor,
}
use go_fastdfs.Console.Browser.Crumbs.{
  entries, render, root, AreNames, data_path, on_open_dir_entry,
}
use go_fastdfs.Console.Browser.Layers.{
  Page, parent, dir, IsStuck, fail, fail-Wait-IsStuck, no_reply,
}
use go_fastdfs.Console.UploadQueue.{Queue}
use go_fastdfs.Console.UploadQueue.Laws.{
  Event, choose_files, read_file, done, error, delete_row, run, IsInStep, is_kept, run-IsInStep,
}
use go_fastdfs.Console.Dashboard.{Day, DiskInfo, panel, panel_of, on_status}
use go_fastdfs.Console.Dashboard.Totals.{sums_of, on_status-days}
use go_fastdfs.Console.Browser.Layers.{run_layers}

get_file_type-get_icon_name_example :
    get_file_type (lit "rmvb") ≡ type_of_icon (get_icon_name (lit "rmvb"))
get_file_type-get_icon_name_example = get_file_type-get_icon_name (lit "rmvb")

suffix_of_name : get_icon_name (suffix (lit "a.b.PNG")) ≡ Icon.img
unfolding get_icon_name suffix text_eq
suffix_of_name = refl

abbrev path : List Text
path = lit "default" ∷ lit "2024" ∷ lit "03" ∷ []

path-AreNames : AreNames path
path-AreNames = grind arith

abbrev answer : Reply
answer = record { state = 200; msg = []; items = [] }

first_bar :
    set_path_side (lit "/a")
    ≡ lit
        "<a class=\"path-side-btn\" data-path=\"\">全部文件</a><a class=\"path-side-btn\" data-path=\"/a\">a</a>"
unfolding set_path_side
first_bar = refl

on_open_dir_entry_example :
    on_open_dir 7 (data_path (anchor (lit "/default/2024") (lit "2024"))) answer
    ≡ show_list (listing [])
      ∷ show_path
          (render (root ∷ (lit "/default", lit "default") ∷ (lit "/default/2024", lit "2024") ∷ []))
      ∷ close 7
      ∷ []
unfolding entries
on_open_dir_entry_example =
    on_open_dir_entry path 1 7 (lit "/default/2024") (lit "2024") answer path-AreNames refl refl

abbrev archive : Item
archive = record {
  name = lit "a.zip";
  path = lit "files";
  md5 = [];
  peer = lit "http://10.0.0.1:8080";
  is_dir = false;
}

abbrev idle : Page
idle = record { layers = []; pending = []; last = 0 }

-- The second click closes the layer of the first.
abbrev two_clicks : Page
two_clicks = record { layers = 2 ∷ []; pending = dir 2 (lit "a") ∷ parent 1 ∷ []; last = 2 }

fail-Wait-IsStuck_example :
    IsStuck 2 (fail two_clicks [] (parent 1 ∷ []))
    × ((i : ℕ) (d : Text)
        → run_layers (open_dir i d) (fail two_clicks [] (parent 1 ∷ [])).layers ≡ i ∷ [])
fail-Wait-IsStuck_example =
    fail-Wait-IsStuck two_clicks [] (dir 2 (lit "a")) (parent 1 ∷ []) refl refl
      (record { shown = refl; distinct = omega arith }) no_reply

abbrev no_files : Queue
no_files = record { rows = []; files = []; reading = []; count = 0 }

-- The second file has been read before the first.
abbrev events : List Event
events =
    choose_files ((5, lit "a") ∷ (6, lit "b") ∷ [])
    ∷ read_file 6 (lit "b")
    ∷ read_file 5 (lit "a")
    ∷ error 5
    ∷ done 200 (lit "u") 6
    ∷ delete_row 5
    ∷ []

run-IsInStep_example :
    let t = run (λ loaded total. 0) events no_files in
    IsInStep t × ((k : ℕ) → is_kept k events no_files t ≡ true)
run-IsInStep_example = run-IsInStep (λ loaded total. 0) events no_files (λ k. refl)

abbrev days : List Day
days =
    record { date = lit "20240301"; file_count = 3; total_size = 4000000 }
    ∷ record { date = lit "20240302"; file_count = 2; total_size = 100 }
    ∷ []

abbrev all_days : Day
all_days = record { date = lit "all"; file_count = 5; total_size = 4000100 }

abbrev disk : DiskInfo
disk = record { total = 2 ^ 30; free = 2 ^ 29; inodes_total = 10; inodes_free = 5 }

on_status-days_example :
    on_status (record { status = lit "ok"; msg = none; stats = days ++ all_days ∷ []; disk = disk })
    ≡ panel (panel_of (sums_of days all_days) disk)
unfolding text_eq
on_status-days_example = on_status-days days all_days disk (refl, (refl, tt)) refl
