-- ===== src/Server/Upload/Save/Stored.antt =====
-- What `SaveUploadFile` (server/http_upload.go) leaves on the disk.
use go_fastdfs.Prelude.{
  ◌≡◌, ◌≢◌, refl, ◌∙◌, sym, ap, inl, inr, true, false, none, some, [], ◌∷◌, ◌++◌, if◌then◌else◌,
  ◌==◌, length, arith, append_assoc, Bool-cases,
}
use go_fastdfs.Prelude.Int.{pos}
use go_fastdfs.Prelude.Text.{
  Text, lit, text_eq, has_infix, has_prefix, replace_first, replace_first-front, has_prefix_split,
}
use go_fastdfs.Server.Types.{FileInfo, Config, slash, store_dir_name, out_name}
use go_fastdfs.Server.Disk.{Disk, exists, write}
use go_fastdfs.Server.Paths.{get_file_path_by_info}
use go_fastdfs.Server.Upload.Place.{folder_of, choose_path, choose_path-NamesPath}
use go_fastdfs.Server.Upload.Save.{
  Env, FormFile, SaveError, extension_mismatch, uncomplete, Outcome, clean_name, allowed_extension,
  custom_name, store_file, save_upload_file,
}

-- Every directory is below the store.
abbrev dated : Config → Text → Text
dated c time = if text_eq c.peer_id [] then time else time ++ (slash ++ c.peer_id)

abbrev IsInStore : Config → Text → Type 0
IsInStore c folder = (rest : Text) × (folder ≡ c.docker_dir ++ (store_dir_name ++ rest))

folder_of-IsInStore :
    (c : Config) (time scene path : Text) → IsInStore c (folder_of c time scene path)
unfolding folder_of
folder_of-IsInStore c time scene path = elim (Bool-cases (text_eq path [])) [
  | inl e ↦ elim (Bool-cases (text_eq scene [])) [
    | inl f ↦ rw (e, f) (slash ++ dated c time, append_assoc c.docker_dir store_dir_name _)
    | inr f ↦
        rw (e, f)
          (slash ++ (scene ++ (slash ++ dated c time)), append_assoc c.docker_dir store_dir_name _)
  ]
  | inr e ↦ elim (Bool-cases (has_prefix path (c.docker_dir ++ store_dir_name))) [
    | inl f ↦
        let (rest, g) = has_prefix_split path (c.docker_dir ++ store_dir_name) f in
        rw (e, f) (rest, g ∙ append_assoc c.docker_dir store_dir_name rest)
    | inr f ↦ rw (e, f) (slash ++ path, append_assoc c.docker_dir store_dir_name _)
  ]
]

-- The directory as the record keeps it leads back to it.
folder_path :
    (c : Config) (folder : Text)
    → IsInStore c folder
    → c.docker_dir ++ replace_first folder c.docker_dir [] ≡ folder
folder_path c folder (rest, e) =
    rw e (ap (λ t. c.docker_dir ++ t) (replace_first-front c.docker_dir b'f' (lit "iles" ++ rest)))

no_error : (x : SaveError) → some x ≢ none
no_error x h = absurd (ground arith)

module _ (e : Env) (c : Config) (file : FormFile) (info : FileInfo) (d : Disk) where
  abbrev pub saved : Outcome
  saved = save_upload_file e c none file info d

  abbrev pub name : Text
  name = clean_name c file.file_name

  abbrev pub folder : Text
  folder = folder_of c e.time info.scene info.path

  abbrev pub re_name : Text
  re_name = custom_name e c info name

  abbrev pub chosen : Text × Text
  chosen = choose_path e.sprintf (exists d) c folder name re_name

  -- The outcome of a file that is saved
  abbrev pub success : Outcome
  success = record {
    error = none;
    info = record info {
      name = chosen.1;
      re_name = re_name;
      size = pos (length file.bytes);
      md5 = e.checksum file.bytes;
      path = replace_first folder c.docker_dir [];
      peers = info.peers ++ e.host ∷ [];
    };
    disk = write chosen.0 file.bytes d;
  }

  abbrev storing : Outcome
  storing =
      store_file e c none file folder chosen.0 (record info { name = chosen.1; re_name = re_name })
        d

  refused_error : (length file.bytes == file.header_size) ≡ false → storing.error ≡ some uncomplete
  unfolding store_file
  refused_error f = rw f refl

  storing-success : storing.error ≡ none → storing ≡ success
  unfolding store_file
  storing-success h = elim (Bool-cases (length file.bytes == file.header_size)) [
    | inl f ↦ rw f refl
    | inr f ↦ absurd (no_error uncomplete (sym (refused_error f) ∙ h))
  ]

  saved_allowed : allowed_extension c name ≡ true → saved ≡ storing
  unfolding save_upload_file
  saved_allowed a = rw a refl

  pub saved_refused : allowed_extension c name ≡ false → saved.error ≡ some extension_mismatch
  unfolding save_upload_file
  saved_refused a = rw a refl

  -- A file that is saved has an extension that is allowed, and its outcome is the success.
  pub save_upload_file-success :
      saved.error ≡ none → (allowed_extension c name ≡ true) × (saved ≡ success)
  save_upload_file-success h = elim (Bool-cases (allowed_extension c name)) [
    | inl a ↦ (
      a,
      saved_allowed a ∙ storing-success (ap (λ (o : Outcome). o.error) (sym (saved_allowed a)) ∙ h),
    )
    | inr a ↦ absurd (no_error extension_mismatch (sym (saved_refused a) ∙ h))
  ]

  pub re_name_none : c.rename_file ≡ false → info.re_name ≡ [] → re_name ≡ []
  unfolding custom_name
  re_name_none r n = rw r n

  -- Without a custom name the path of the record is the one that was chosen.
  pub info_path :
      re_name ≡ []
      → name ≢ []
      → has_infix folder (lit "%") ≡ false
      → get_file_path_by_info c success.info true ≡ chosen.0
  unfolding get_file_path_by_info out_name
  info_path r x p =
      let named = choose_path-NamesPath e.sprintf (exists d) c folder name p x in
      rw r (
        sym (append_assoc c.docker_dir (replace_first folder c.docker_dir []) _)
        ∙ ap (λ t. t ++ (slash ++ (choose_path e.sprintf (exists d) c folder name []).1))
            (folder_path c folder (folder_of-IsInStore c e.time info.scene info.path))
        ∙ sym named)
