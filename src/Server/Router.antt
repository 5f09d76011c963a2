-- ===== src/Server/Router.antt =====
-- Which handler answers a request: `initRouter` of server/router.go, and the choice of a pattern by
-- `http.ServeMux` of Go, for the path of a request as ServeMux has cleaned it.
pub mod Patterns
pub mod Group
use go_fastdfs.Prelude.{
  ℕ, Bool, true, false, not, ◌&&◌, Option, none, some, List, [], ◌∷◌, ◌++◌, map, if◌then◌else◌,
  ◌==◌, ltb, length,
}
use go_fastdfs.Prelude.Text.{Text, lit, text_eq, has_prefix}
use go_fastdfs.Prelude.TextSet.{contains}
use go_fastdfs.Server.Types.{Config, slash}

-- The handlers that have a path of their own
pub data Action : Type 0 where
  check_files_exist check_file_exist upload delete get_file_info sync stat repair_stat : Action
  status repair report backup search list_dir remove_empty_dir repair_fileinfo reload : Action
  syncfile_info get_md5s_by_date receive_md5s gen_google_secret gen_google_code : Action

-- `c.Download`, `c.Index`, the files of the directory static, a redirection to the path with a slash
-- behind it, or one of the actions
pub data Handler : Type 0 where
  download index static redirect : Handler
  action : Action → Handler

abbrev pub named_actions : List (Text × Handler)
named_actions =
    (lit "check_files_exist", action check_files_exist)
    ∷ (lit "check_file_exist", action check_file_exist)
    ∷ (lit "upload", action upload)
    ∷ (lit "delete", action delete)
    ∷ (lit "get_file_info", action get_file_info)
    ∷ (lit "sync", action sync)
    ∷ (lit "stat", action stat)
    ∷ (lit "repair_stat", action repair_stat)
    ∷ (lit "status", action status)
    ∷ (lit "repair", action repair)
    ∷ (lit "report", action report)
    ∷ (lit "backup", action backup)
    ∷ (lit "search", action search)
    ∷ (lit "list_dir", action list_dir)
    ∷ (lit "remove_empty_dir", action remove_empty_dir)
    ∷ (lit "repair_fileinfo", action repair_fileinfo)
    ∷ (lit "reload", action reload)
    ∷ (lit "syncfile_info", action syncfile_info)
    ∷ (lit "get_md5s_by_date", action get_md5s_by_date)
    ∷ (lit "receive_md5s", action receive_md5s)
    ∷ (lit "gen_google_secret", action gen_google_secret)
    ∷ (lit "gen_google_code", action gen_google_code)
    ∷ []

-- The names behind the route of the group: the page of uploads, and the actions
abbrev pub named : List (Text × Handler)
named = (lit "upload.html", index) ∷ named_actions

abbrev pub group_route : Config → Text
group_route c = if c.support_group_manage && not (text_eq c.group []) then slash ++ c.group else []

-- The patterns of rows, each behind the route of the group and a slash
abbrev pub behind : Text → List (Text × Handler) → List (Text × Handler)
behind route [] = []
behind route ((name, h) ∷ rows) = (route ++ (slash ++ name), h) ∷ behind route rows

-- The patterns in their order
unfoldable pub routes : Config → List (Text × Handler)
routes c =
    let route = group_route c in
    (slash, download)
    ∷ ((if text_eq route [] then [] else (route, download) ∷ [])
        ++ (behind route named
            ++ ((route ++ lit "/static/", static) ∷ (slash ++ (c.group ++ slash), download) ∷ [])))

abbrev pub keys_of : List (Text × Handler) → List Text
keys_of [] = []
keys_of ((k, h) ∷ rows) = k ∷ keys_of rows

abbrev pub has_twice : List Text → Bool
has_twice [] = false
has_twice (k ∷ ks) = if contains k ks then true else has_twice ks

-- `initRouter`: `none` is the panic of ServeMux at a pattern that it has.
unfoldable pub init_router : Config → Option (List (Text × Handler))
init_router c = if has_twice (keys_of (routes c)) then none else some (routes c)

unfoldable pub find : Text → List (Text × Handler) → Option Handler
find path [] = none
find path ((k, h) ∷ rows) = if text_eq path k then some h else find path rows

unfoldable pub ends_slash : Text → Bool
ends_slash [] = false
ends_slash (b ∷ []) = b == 47
ends_slash (b ∷ c ∷ s) = ends_slash (c ∷ s)

-- The longer pattern of the two
abbrev pub longer_row : Text × Handler → Option (Text × Handler) → Option (Text × Handler)
longer_row row none = some row
longer_row (k, h) (some (j, g)) = if ltb (length k) (length j) then some (j, g) else some (k, h)

-- The longest pattern with a slash at its end with which the path begins
unfoldable pub longest : Text → List (Text × Handler) → Option (Text × Handler)
longest path [] = none
longest path ((k, h) ∷ rows) =
    let rest = longest path rows in
    if ends_slash k && has_prefix path k then longer_row (k, h) rest else rest

abbrev pub handler_in : Option (Text × Handler) → Option Handler
handler_in none = none
handler_in (some (k, h)) = some h

abbrev pub has_row : Option Handler → Bool
has_row none = false
has_row (some h) = true

abbrev pub served : Option Handler → Bool → Option Handler → Option Handler
served none with_slash prefix = if with_slash then some redirect else prefix
served (some h) with_slash prefix = some h

-- `ServeMux.Handler`
unfoldable pub serve : List (Text × Handler) → Text → Option Handler
serve rows path =
    served (find path rows) (has_row (find (path ++ slash) rows) && not (ends_slash path))
      (handler_in (longest path rows))
