-- ===== src/Tests/Router.antt =====
-- The handlers of requests (server/router.go) at concrete data.
use go_fastdfs.Prelude.{◌≡◌, refl, true, false, none}
use go_fastdfs.Prelude.Text.{lit, text_eq, has_prefix}
use go_fastdfs.Server.Types.{Config}
use go_fastdfs.Server.Router.{action, syncfile_info, static, routes, init_router, find}
use go_fastdfs.Server.Router.Group.{handler_of}
use go_fastdfs.Tests.Data.{cfg}

abbrev grouped : Config
grouped = record cfg { support_group_manage = true; group = lit "group1" }

named_by_run : handler_of (lit "syncfile_info") ≡ action syncfile_info
unfolding find text_eq
named_by_run = refl

-- A file that was uploaded with the path static is not downloaded.
static_by_run : handler_of (lit "static/a.txt") ≡ static
unfolding find text_eq has_prefix
static_by_run = refl

-- Without groups, a group named static has a pattern that is there already.
twice_by_run :
    init_router (record cfg { support_group_manage = false; group = lit "static" }) ≡ none
unfolding init_router routes text_eq
twice_by_run = refl
