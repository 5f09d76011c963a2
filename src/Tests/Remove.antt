-- ===== src/Tests/Remove.antt =====
-- Removal (server/http_remove.go) at concrete data.
use go_fastdfs.Prelude.{◌≡◌, refl, ◌⊎◌, true, false, Option, some, []}
use go_fastdfs.Prelude.Int.{negsuc}
use go_fastdfs.Prelude.Text.{Text, lit, text_eq}
use go_fastdfs.Server.Types.{FileInfo}
use go_fastdfs.Server.Remove.{remove_success, remove_key_of, remove_file_by}
use go_fastdfs.Server.Remove.Effects.{IsIdle, IsRemoval, remove_file_by-cases}
use go_fastdfs.Tests.Data.{cfg}
use go_fastdfs.Tests.Meta.{hash}
use go_fastdfs.Tests.Paths.{doc}

abbrev stored_doc : FileInfo
stored_doc = record doc { md5 = lit "0123456789abcdef0123456789abcdef"; offset = negsuc 0 }

abbrev find : Text → Option FileInfo
find k = some stored_doc

remove_file_by-cases_example :
    let r = remove_file_by hash find (λ p. true) (λ p. true) cfg true false stored_doc.md5 [] [] in
    IsIdle hash find (λ p. true) (λ p. true) r
    ⊎ ((true ≡ true)
        × IsRemoval hash find
            (λ p. true)
            (λ p. true)
            cfg
            (remove_key_of hash find (λ p. true) (λ p. true) cfg stored_doc.md5 [])
            r)
remove_file_by-cases_example =
    remove_file_by-cases hash find (λ p. true) (λ p. true) cfg true false stored_doc.md5 [] []

removed_by_run :
    (remove_file_by hash find (λ p. true) (λ p. true) cfg true false stored_doc.md5 [] []).answer
    ≡ remove_success
unfolding remove_file_by text_eq
removed_by_run = refl
