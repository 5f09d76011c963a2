-- ===== src/Console/Browser/Crumbs.antt =====
-- The path bar of the file browser: what `setPathSide` shows, and where its entries lead.
use go_fastdfs.Prelude.{
  ℕ, zero, suc, ◌≡◌, refl, ◌∙◌, ap, ◌≢◌, List, [], ◌∷◌, ◌++◌, arith, append_assoc, append-nil, take,
  get_elem?, some, length, drop,
}
use go_fastdfs.Prelude.Text.{Text, lit}
use go_fastdfs.Prelude.Split.{
  split, Lacks, Lacks-append, before, before-append, split-append, split_of_Lacks,
}
use go_fastdfs.Console.Browser.{
  anchor, slash, path_loop, set_path_side, strip_slash, on_open_dir, Reply, listing, show_list,
  show_path, close,
}

-- The parts of a path that are not empty
pub names : List Text → List Text
names [] = []
names ([] ∷ arr) = names arr
names ((c ∷ s) ∷ arr) = (c ∷ s) ∷ names arr

-- `/a/b/c` of the names a, b, c
pub path_of : List Text → Text
path_of [] = []
path_of (n ∷ ns) = slash ++ (n ++ path_of ns)

-- One entry for each name: the path that leads to it, and the name.
unfoldable pub entries : Text → List Text → List (Text × Text)
entries path [] = []
entries path (n ∷ ns) = (path ++ (slash ++ n), n) ∷ entries (path ++ (slash ++ n)) ns

pub render : List (Text × Text) → Text
render [] = []
render ((path, label) ∷ es) = anchor path label ++ render es

abbrev pub root : Text × Text
root = ([], lit "全部文件")

path_loop-eq-render :
    (html path : Text) (arr : List Text)
    → path_loop html path arr ≡ html ++ render (entries path (names arr))
unfolding path_loop names entries render
path_loop-eq-render html path [] = rw append-nil
path_loop-eq-render html path ([] ∷ arr) = path_loop-eq-render html path arr
path_loop-eq-render html path ((c ∷ s) ∷ arr) = path_loop-eq-render _ _ arr ∙ append_assoc html _ _

-- Every name is a part of a path, and is read in an attribute as it is written there: it has a byte,
-- no slash, no quotation mark and no ampersand.
abbrev pub AreNames : List Text → Type 0
AreNames [] = Unit {0}
AreNames (n ∷ ns) = (n ≢ []) × Lacks b'/' n × AreNames ns × (Lacks b'"' n × Lacks b'&' n)

names-cons : (n : Text) (arr : List Text) → n ≢ [] → names (n ∷ arr) ≡ n ∷ names arr
unfolding names
names-cons [] arr h = absurd (h refl)
names-cons (c ∷ s) arr h = refl

split-slash : (s : Text) → split b'/' (slash ++ s) ≡ [] ∷ split b'/' s
unfolding split
split-slash s = refl

names-split-append :
    (n : Text) (ns : List Text)
    → n ≢ []
    → Lacks b'/' n
    → names (split b'/' (n ++ path_of ns)) ≡ n ∷ names (split b'/' (path_of ns))
unfolding path_of
names-split-append n [] h k =
    rw (append-nil, split_of_Lacks b'/' n k, names-cons n [] h) (unfold names split in refl)
names-split-append n (m ∷ ns) h k =
    rw (split-append b'/' n (m ++ path_of ns) k, names-cons n _ h, split-slash)
      (unfold names in refl)

names-split-path_of_cons :
    (n : Text) (ns : List Text)
    → n ≢ []
    → Lacks b'/' n
    → names (split b'/' (path_of (n ∷ ns))) ≡ n ∷ names (split b'/' (path_of ns))
unfolding path_of names
names-split-path_of_cons n ns h k = rw split-slash (names-split-append n ns h k)

names-split-path_of : (ns : List Text) → AreNames ns → names (split b'/' (path_of ns)) ≡ ns
names-split-path_of [] h = unfold path_of split names in refl
names-split-path_of (n ∷ ns) h =
    names-split-path_of_cons n ns h.0 h.1 ∙ ap (λ t. n ∷ t) (names-split-path_of ns h.2)

-- The bar of a directory has the root and one entry for each name on the way to it.
pub set_path_side-path_of :
    (ns : List Text) → AreNames ns → set_path_side (path_of ns) ≡ render (root ∷ entries [] ns)
unfolding set_path_side
set_path_side-path_of ns h =
    path_loop-eq-render (anchor [] (lit "全部文件")) [] (split b'/' (path_of ns))
    ∙ unfold render in
      ap (λ t. anchor [] (lit "全部文件") ++ render (entries [] t)) (names-split-path_of ns h)

entry_path :
    (ns : List Text) (k : ℕ) (path p n : Text)
    → get_elem? (entries path ns) k ≡ some (p, n)
    → p ≡ path ++ path_of (take (suc k) ns)
unfolding entries path_of
entry_path [] k path p n h = cc
entry_path (m ∷ ns) zero path p n h = rw append-nil (cc)
entry_path (m ∷ ns) (suc k) path p n h =
    entry_path ns k _ p n h ∙ append_assoc path (slash ++ m) (path_of (take (suc k) ns))

take-entries :
    (ns : List Text) (k : ℕ) (path : Text) → take k (entries path ns) ≡ entries path (take k ns)
unfolding entries
take-entries ns zero path = refl
take-entries [] (suc k) path = refl
take-entries (n ∷ ns) (suc k) path = ap (λ t. (path ++ (slash ++ n), n) ∷ t) (take-entries ns k _)

take-AreNames : (ns : List Text) (k : ℕ) → AreNames ns → AreNames (take k ns)
take-AreNames ns zero h = tt
take-AreNames [] (suc k) h = tt
take-AreNames (n ∷ ns) (suc k) h = (h.0, h.1, take-AreNames ns k h.2, h.3)

strip_slash-path_of :
    (n : Text) (ns : List Text) → slash ++ strip_slash (path_of (n ∷ ns)) ≡ path_of (n ∷ ns)
unfolding path_of strip_slash
strip_slash-path_of n ns = refl

bar_of_entry :
    (ns : List Text) (k : ℕ) (p n : Text)
    → AreNames ns
    → get_elem? (entries [] ns) k ≡ some (p, n)
    → set_path_side (slash ++ strip_slash p) ≡ render (root ∷ take (suc k) (entries [] ns))
bar_of_entry [] k p n h e = unfold entries in cc
bar_of_entry (m ∷ ns) k p n h e =
    rw (entry_path (m ∷ ns) k [] p n e, strip_slash-path_of, take-entries)
      (set_path_side-path_of (take (suc k) (m ∷ ns)) (take-AreNames (m ∷ ns) (suc k) h))

-- `$(this).data("path")` of the anchor that a text begins with: the attribute ends at the first
-- quotation mark. A path with a slash in front is a text for jQuery.
abbrev pub data_path : Text → Text
data_path html = before b'"' (drop (length (lit "<a class=\"path-side-btn\" data-path=\"")) html)

Lacks-path_of : (ns : List Text) → AreNames ns → Lacks b'"' (path_of ns)
unfolding path_of
Lacks-path_of [] h = tt
Lacks-path_of (n ∷ ns) h =
    (omega arith, Lacks-append b'"' n (path_of ns) h.3.0 (Lacks-path_of ns h.2))

data_path-anchor : (path label : Text) → Lacks b'"' path → data_path (anchor path label) ≡ path
data_path-anchor path label h = before-append b'"' path _ h

-- A click on the entry at position k of the bar of a directory, whose names have no quotation mark and
-- no ampersand, lists, where the reply has the state 200, what the server sends, and cuts the bar
-- behind that entry.
pub on_open_dir_entry :
    (ns : List Text) (k index : ℕ) (p n : Text) (result : Reply)
    → AreNames ns
    → get_elem? (entries [] ns) k ≡ some (p, n)
    → result.state ≡ 200
    → on_open_dir index (data_path (anchor p n)) result
      ≡ show_list (listing result.items)
        ∷ show_path (render (root ∷ take (suc k) (entries [] ns)))
        ∷ close index
        ∷ []
unfolding on_open_dir
on_open_dir_entry ns k index p n result h e ok =
    let lacks : Lacks b'"' p =
      rw (entry_path ns k [] p n e)
        (Lacks-path_of (take (suc k) ns) (take-AreNames ns (suc k) h)) in
    rw (data_path-anchor p n lacks) (ground (arith, bar_of_entry ns k p n h e))
