-- ===== src/Server/Router/Group.antt =====
-- The paths of a group (server/router.go): which handler answers each of them.
use go_fastdfs.Prelude.{
  ◌<◌, ◌≡◌, true, Option, none, some, List, [], ◌∷◌, ◌++◌, if◌then◌else◌, length,
}
use go_fastdfs.Prelude.Text.{Text, lit, text_eq, has_prefix}
use go_fastdfs.Prelude.Split.{Lacks}
use go_fastdfs.Server.Types.{Config, slash}
use go_fastdfs.Server.Router.{Handler, download, static, redirect, named, find}

-- What answers a path behind the group that is no name: the files of the directory static, or downloads
abbrev pub other : Text → Handler
other p =
    if text_eq p (lit "static")
    then redirect
    else if has_prefix p (lit "static/")
    then static
    else download

abbrev pub handler_or : Option Handler → Handler → Handler
handler_or none h = h
handler_or (some h) g = h

abbrev pub handler_of : Text → Handler
handler_of p = handler_or (find p named) (other p)

module _ (c : Config) (grouped : c.support_group_manage ≡ true) (named_group : 0 < length c.group)
    (plain : Lacks 47 c.group) where
  abbrev route : Text
  route = slash ++ c.group

  abbrev tail : List (Text × Handler)
  tail = (route ++ lit "/static/", static) ∷ (slash ++ (c.group ++ slash), download) ∷ []

  abbrev static_row : Text × Handler
  static_row = (route ++ lit "/static/", static)

  abbrev last_row : Text × Handler
  last_row = (slash ++ (c.group ++ slash), download)
