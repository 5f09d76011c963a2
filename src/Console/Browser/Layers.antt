-- ===== src/Console/Browser/Layers.antt =====
-- The loading layers of the file browser under any order of clicks and replies.
use go_fastdfs.Prelude.{
  ℕ, ◌≡◌, refl, sym, ◌≢◌, List, [], ◌∷◌, ◌++◌, map, arith, if◌then◌else◌, ◌==◌, Bool, false, ◌||◌,
}
use mathlib.Core.List.{map-append}
use go_fastdfs.Prelude.Text.{Text}
use go_fastdfs.Prelude.Split.{Lacks}
use go_fastdfs.Console.Browser.{
  Call, load, close, Reply, get_parent_file, on_parent_file, open_dir, on_open_dir,
}

-- A request whose reply has not come yet, with the index of its layer.
pub data Request : Type 0 where
  parent : ℕ → Request
  dir : ℕ → Text → Request

abbrev pub index_of : Request → ℕ
index_of (parent i) = i
index_of (dir i d) = i

-- The loading layers that are shown, the requests that wait, and the index that layer gave last
pub record Page : Type 0 where
  pub layers : List ℕ
  pub pending : List Request
  pub last : ℕ

unfoldable pub without : ℕ → List ℕ → List ℕ
without i [] = []
without i (j ∷ l) = let rest = without i l in if j == i then rest else j ∷ rest

-- What the calls do to the loading layers that are shown: `layer.load` closes all of them before it
-- opens its own (layer.js, `closeAll("loading")`).
unfoldable pub run_layers : List Call → List ℕ → List ℕ
unfolding without
run_layers [] l = l
run_layers (load i ∷ calls) l = run_layers calls (i ∷ [])
run_layers (close i ∷ calls) l = run_layers calls (without i l)
run_layers (_ ∷ calls) l = run_layers calls l

abbrev pub calls_of : Request → Reply → List Call
calls_of (parent i) r = on_parent_file i r
calls_of (dir i d) r = on_open_dir i d r

-- A click sends a request, and layer gives it an index that no other layer has had. Any request may
-- get its reply next.
pub data Step (s : Page) : Page → Type 0 where
  ask_parent :
      (i : ℕ)
      → Lacks i (map index_of s.pending)
      → Step s (record {
        layers = run_layers (get_parent_file i) s.layers;
        pending = parent i ∷ s.pending;
        last = i;
      })
  ask_dir :
      (i : ℕ) (d : Text)
      → Lacks i (map index_of s.pending)
      → Step s (record {
        layers = run_layers (open_dir i d) s.layers;
        pending = dir i d ∷ s.pending;
        last = i;
      })
  reply :
      (before : List Request) (q : Request) (after : List Request) (r : Reply)
      → s.pending ≡ before ++ q ∷ after
      → Step s (record s { layers = run_layers (calls_of q r) s.layers; pending = before ++ after })

pub data Reach (s : Page) : Page → Type 0 where
  here : Reach s s
  next : {t u : Page} → Reach s t → Step t u → Reach s u

abbrev Distinct : List ℕ → Type 0
Distinct [] = Unit {0}
Distinct (i ∷ l) = Lacks i l × Distinct l

-- A request with the index waits.
abbrev pub waits : ℕ → List Request → Bool
waits k [] = false
waits k (q ∷ qs) = index_of q == k || waits k qs

-- The layer of the last click is shown exactly while its request waits, and no other one is.
pub record IsLoading (s : Page) : Type 0 where
  pub shown : s.layers ≡ (if waits s.last s.pending then s.last ∷ [] else [])
  pub distinct : Distinct (map index_of s.pending)

Lacks-mid : (i j : ℕ) (xs ys : List ℕ) → Lacks i (xs ++ j ∷ ys) → (j ≢ i) × Lacks i (xs ++ ys)
Lacks-mid i j [] ys h = h
Lacks-mid i j (x ∷ xs) ys h = let k = Lacks-mid i j xs ys h.1 in (k.0, (h.0, k.1))

Distinct-mid : (i : ℕ) (xs ys : List ℕ) → Distinct (xs ++ i ∷ ys) → Distinct (xs ++ ys)
Distinct-mid i [] ys h = h.1
Distinct-mid i (x ∷ xs) ys h = ((Lacks-mid x i xs ys h.0).1, Distinct-mid i xs ys h.1)

calls_of-close :
    (q : Request) (r : Reply) (l : List ℕ) → run_layers (calls_of q r) l ≡ without (index_of q) l
unfolding run_layers on_parent_file on_open_dir
calls_of-close (parent i) r l = ground arith
calls_of-close (dir i d) r l = ground arith

without_single : (i j : ℕ) → j ≢ i → without i (j ∷ []) ≡ j ∷ []
unfolding without
without_single i j h = ground arith

Distinct-Lacks : (i : ℕ) (xs ys : List ℕ) → Distinct (xs ++ i ∷ ys) → Lacks i (xs ++ ys)
Distinct-Lacks i [] ys h = h.0
Distinct-Lacks i (x ∷ xs) ys h =
    ((λ e. (Lacks-mid x i xs ys h.0).0 (sym e)), Distinct-Lacks i xs ys h.1)

reply-Lacks :
    (before : List Request) (q : Request) (after : List Request)
    → Distinct (map index_of (before ++ q ∷ after))
    → Lacks (index_of q) (map index_of (before ++ after))
reply-Lacks before q after d =
    let e : Distinct (map index_of before ++ index_of q ∷ map index_of after) =
      rw (map-append index_of before (q ∷ after)) at d in
    rw map-append (Distinct-Lacks (index_of q) (map index_of before) (map index_of after) e)

reply-Distinct :
    (before : List Request) (q : Request) (after : List Request)
    → Distinct (map index_of (before ++ q ∷ after))
    → Distinct (map index_of (before ++ after))
reply-Distinct before q after d =
    let e : Distinct (map index_of before ++ index_of q ∷ map index_of after) =
      rw map-append at d in
    rw map-append (Distinct-mid (index_of q) (map index_of before) (map index_of after) e)

-- The page while nothing is clicked: replies come, in any order.
pub data Wait (s : Page) : Page → Type 0 where
  no_reply : Wait s s
  replied :
      {t : Page} (before : List Request) (q : Request) (after : List Request) (r : Reply)
      → Wait s t
      → t.pending ≡ before ++ q ∷ after
      → Wait s (record t { layers = run_layers (calls_of q r) t.layers; pending = before ++ after })

-- The layer is the only one, and no waiting request has it.
pub record IsStuck (i : ℕ) (s : Page) : Type 0 where
  pub shown : s.layers ≡ i ∷ []
  pub unasked : Lacks i (map index_of s.pending)
  pub distinct : Distinct (map index_of s.pending)

Wait-IsStuck : (i : ℕ) {s t : Page} → IsStuck i s → Wait s t → IsStuck i t
Wait-IsStuck i h no_reply = h
Wait-IsStuck i {s} h (replied {t} before q after r w e) =
    let k = Wait-IsStuck i h w in
    let u : Lacks i (map index_of before ++ index_of q ∷ map index_of after) =
      rw (e, map-append) at k.unasked in
    let m = Lacks-mid i (index_of q) (map index_of before) (map index_of after) u in
    record {
      shown = rw (calls_of-close, k.shown) (without_single (index_of q) i (λ x. m.0 (sym x)));
      unasked = rw map-append m.1;
      distinct = reply-Distinct before q after (rw e at k.distinct);
    }

-- A request of the page that fails: `$.post` has a handler for success only, so nothing is called.
pub fail : Page → List Request → List Request → Page
fail s before after = record s { pending = before ++ after }

-- Where the request whose layer is shown fails, its layer stays, and no waiting request has it,
-- whatever replies come, until the next click, whose layer takes its place.
pub fail-Wait-IsStuck :
    (s : Page) (before : List Request) (q : Request) (after : List Request) {t : Page}
    → s.pending ≡ before ++ q ∷ after
    → s.layers ≡ index_of q ∷ []
    → IsLoading s
    → Wait (fail s before after) t
    → IsStuck (index_of q) t × ((i : ℕ) (d : Text) → run_layers (open_dir i d) t.layers ≡ i ∷ [])
unfolding fail open_dir run_layers
fail-Wait-IsStuck s before q after e shown h w =
    let d : Distinct (map index_of (before ++ q ∷ after)) = rw e at h.distinct in
    (
      Wait-IsStuck (index_of q)
          (record {
            shown = shown;
            unasked = reply-Lacks before q after d;
            distinct = reply-Distinct before q after d;
          })
          w,
      (λ i d. refl),
    )
