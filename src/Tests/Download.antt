-- ===== src/Tests/Download.antt =====
-- Downloads from a peer (server/http_download.go) at concrete data.
use go_fastdfs.Prelude.{
  ℕ, ◌+◌, ◌≤◌, ◌≡◌, refl, sym, ◌∙◌, ap, Bool, true, false, Option, none, some, List, [], ◌∷◌, ◌++◌,
  if◌then◌else◌, length, take, drop, replicate, length-append, length-take, length-replicate, arith,
}
use go_fastdfs.Prelude.Int.{ℤ, pos, negsuc}
use go_fastdfs.Prelude.Text.{Text, lit, text_eq, has_infix, has_prefix, drop-append, replace_first}
use go_fastdfs.Server.Types.{FileInfo, Config, no_info, out_name}
use go_fastdfs.Server.Disk.{Disk}
use go_fastdfs.Server.Paths.{get_file_path_by_info}
use go_fastdfs.Server.Download.{
  Page, file, download, download_uri, Transfer, logged, download_from_peer,
}
use go_fastdfs.Server.Download.Replica.{IsServed}
use go_fastdfs.Prelude.Split.{Lacks}
use go_fastdfs.Server.SmallFile.{small_name, large_dir}
use go_fastdfs.Server.Download.Held.{WritesParts, IsPart, large_file}
use go_fastdfs.Server.Download.Part.{download_from_peer-Holds}
use go_fastdfs.Tests.Data.{cfg, read, reads}

-- The other server, with another root and another identity
abbrev pub here : Config
here = record cfg { docker_dir = lit "/b/"; peer_id = lit "2" }

abbrev pub no_dir : Text → Bool
no_dir path = false

abbrev pub nothing : Disk
nothing path = none

abbrev pub reply_of : Page → Option (List ℕ)
reply_of (file b) = some b
reply_of other = none

-- A write at a position, behind zeros where the file is too short
abbrev write_part : List ℕ → ℕ → List ℕ → List ℕ
write_part large n part = take n (large ++ replicate n 0) ++ (part ++ drop (n + length part) large)

abbrev write_at : List ℕ → ℤ → List ℕ → Option (List ℕ)
write_at large (pos n) part = some (write_part large n part)
write_at large (negsuc n) part = none

abbrev pub transfer : Config → FileInfo → Disk → Transfer
transfer peer info d = record {
  reply = reply_of (download read no_dir true peer (download_uri here info) d);
  found = true;
  rename_done = true;
  write_at = write_at;
  mod_time = λ path. pos 0;
}

abbrev pub doc : FileInfo
doc = record no_info {
  name = lit "a.txt";
  path = lit "files/default/1";
  md5 = lit "5d";
  size = pos 5;
  offset = negsuc 0;
}

abbrev pub of_peer : Disk
of_peer path = if text_eq path (lit "files/default/1/a.txt") then some (lit "hello") else none

pub IsServed-cfg : IsServed cfg doc (lit "default/1")
unfolding get_file_path_by_info out_name has_prefix has_infix download_uri replace_first
IsServed-cfg = record {
  group = refl;
  path = refl;
  no_query = omega arith;
  no_percent = omega arith;
  whole = refl;
  no_dots = refl;
}

pub IsServed-here : IsServed here doc (lit "default/1")
unfolding get_file_path_by_info out_name has_prefix has_infix download_uri replace_first
IsServed-here = record {
  group = refl;
  path = refl;
  no_query = omega arith;
  no_percent = omega arith;
  whole = refl;
  no_dots = refl;
}

length_front : (large : List ℕ) (n : ℕ) → length (take n (large ++ replicate n 0)) ≡ n
length_front large n = omega (
  arith,
  length-take n (large ++ replicate n 0),
  length-append large (replicate n 0),
  length-replicate {A = ℕ} n 0,
)

take_front : (xs ys : List ℕ) → take (length xs) (xs ++ ys) ≡ xs
take_front [] ys = refl
take_front (x ∷ xs) ys = ap (λ t. x ∷ t) (take_front xs ys)

drop_front : (n : ℕ) (xs ys : List ℕ) → length xs ≡ n → drop n (xs ++ ys) ≡ ys
drop_front n xs ys e = ap (λ m. drop m (xs ++ ys)) (sym e) ∙ drop-append xs ys

write_part-Holds :
    (large part : List ℕ) (n : ℕ)
    → (n + length part ≤ length (write_part large n part))
      × (take (length part) (drop n (write_part large n part)) ≡ part)
write_part-Holds large part n =
    let front = take n (large ++ replicate n 0) in
    let rest = drop (n + length part) large in
    (
      omega (
        arith,
        length_front large n,
        length-append front (part ++ rest),
        length-append part rest,
      ),
      ap (take (length part)) (drop_front n front (part ++ rest) (length_front large n))
          ∙ take_front part rest,
    )

some_injective : {A : Type 0} (a b : A) → some a ≡ some b → a ≡ b
some_injective a b h = cc

writes_parts : WritesParts write_at
writes_parts large part after n h =
    let e = some_injective (write_part large n part) after h in
    rw (← e) (write_part-Holds large part n)

-- The bytes of "hello" in a large file of the server with the identity 1
abbrev part : FileInfo
part = record no_info {
  name = lit "a.txt";
  re_name = small_name (lit "123") (pos 4) (pos 6) (lit ".txt");
  path = lit "files/haystack/1";
  md5 = lit "5d";
  size = pos 6;
  offset = pos 4;
}

abbrev large_of_peer : Disk
large_of_peer path =
    if text_eq path (lit "files/haystack/1/123") then some (lit "1old1hello") else none

is_part :
    (c : Config)
    → Lacks b',' (large_file c (lit "1") (lit "123"))
    → Lacks b'%' (large_file c (lit "1") (lit "123"))
    → c.support_group_manage ≡ true
    → has_infix (download_uri c part) (lit "..") ≡ false
    → IsPart c (lit "1") (lit "123") (lit ".txt") 4 (lit "hello") part
unfolding small_name
is_part c comma percent g dots = record {
  group = g;
  path = refl;
  name = refl;
  no_query = omega arith;
  no_comma = comma;
  no_percent = percent;
  no_dots = dots;
  plain_name = (omega arith, omega arith, omega arith);
  small = omega arith;
  bounded = omega arith;
}

IsPart-cfg : IsPart cfg (lit "1") (lit "123") (lit ".txt") 4 (lit "hello") part
unfolding download_uri has_infix has_prefix small_name out_name replace_first
IsPart-cfg =
    is_part cfg (unfold large_dir in omega arith) (unfold large_dir in omega arith) refl refl

IsPart-here : IsPart here (lit "1") (lit "123") (lit ".txt") 4 (lit "hello") part
unfolding download_uri has_infix has_prefix small_name out_name replace_first
IsPart-here =
    is_part here (unfold large_dir in omega arith) (unfold large_dir in omega arith) refl refl

download_from_peer-Holds_example :
    let (left, events) =
      download_from_peer (λ md5. none) here (transfer cfg part large_of_peer) part nothing in
    (events ≡ logged (record part { retry = 1 }) ∷ [])
    × (download read no_dir true here (download_uri here part) left
        ≡ download read no_dir true cfg (download_uri here part) large_of_peer)
    × (download read no_dir true here (download_uri here part) left ≡ file (lit "hello"))
download_from_peer-Holds_example =
    download_from_peer-Holds read reads no_dir no_dir (λ md5. none) cfg here
      (transfer cfg part large_of_peer) (lit "1") (lit "123") (lit ".txt") 4 (lit "hello") part
      large_of_peer nothing (lit "1old1hello") (write_part [] 4 (lit "1hello")) IsPart-cfg
      IsPart-here refl (unfold large_dir text_eq in refl) (omega arith, refl) (λ b h. ap reply_of h)
      writes_parts refl refl (omega arith) refl refl refl refl
