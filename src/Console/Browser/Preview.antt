-- ===== src/Console/Browser/Preview.antt =====
-- Which files a click previews.
use go_fastdfs.Prelude.{Bool, true, false, ◌≡◌, refl, ◌↔◌, [], ◌∷◌, arith}
use go_fastdfs.Prelude.Text.{lit}
use go_fastdfs.Console.Kit.{Icon, get_icon_name}
use go_fastdfs.Console.Kit.Agreement.{get_file_type-get_icon_name}
use go_fastdfs.Console.Browser.{Item, suffix, icon_handler, on_result_file, message}

abbrev pub previews : Icon → Bool
previews Icon.img = true
previews Icon.music = true
previews Icon.video = true
previews Icon.txt = true
previews _ = false

refused_by_icon :
    (i : Item) (icon : Icon)
    → get_icon_name (suffix i.name) ≡ icon
    → (on_result_file i ≡ message (lit "该文件格式暂不支持预览") ∷ []) ↔ (previews icon ≡ false)
unfolding on_result_file
refused_by_icon i Icon.img e = ground (arith, get_file_type-get_icon_name (suffix i.name))
refused_by_icon i _ e = ground (arith, get_file_type-get_icon_name (suffix i.name))

-- A click on a file refuses a preview exactly when the icon in its row is none of the image, music,
-- video and text icons.
pub on_result_file_refuses :
    (i : Item)
    → (on_result_file i ≡ message (lit "该文件格式暂不支持预览") ∷ [])
      ↔ (previews (icon_handler i.name false) ≡ false)
unfolding icon_handler
on_result_file_refuses i = refused_by_icon i (get_icon_name (suffix i.name)) refl
