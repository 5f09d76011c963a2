-- ===== src/Server/Router/Patterns.antt =====
-- The patterns of server/router.go behind a route, one by one.
use go_fastdfs.Prelude.{
  ℕ, suc, ◌+◌, ◌<◌, ◌≡◌, refl, ◌∙◌, true, false, Option, none, some, List, [], ◌∷◌, ◌++◌, arith,
  ltb, length,
}
use go_fastdfs.Prelude.Text.{Text, text_eq}
use go_fastdfs.Prelude.Split.{Lacks}
use go_fastdfs.Server.Types.{slash}
use go_fastdfs.Server.Router.{Handler, named, behind, find, ends_slash, longest}

pub text_eq-append_left : (a s t : Text) → text_eq (a ++ s) (a ++ t) ≡ text_eq s t
unfolding text_eq
text_eq-append_left [] s t = refl
text_eq-append_left (c ∷ a) s t = ground (arith, text_eq-append_left a s t)

pub ends_slash-append : (a : Text) (b : ℕ) (s : Text) → ends_slash (a ++ b ∷ s) ≡ ends_slash (b ∷ s)
unfolding ends_slash
ends_slash-append [] b s = refl
ends_slash-append (c ∷ []) b s = refl
ends_slash-append (c ∷ d ∷ a) b s = ends_slash-append (d ∷ a) b s

pub ends_slash_cons : (b c : ℕ) (s : Text) → ends_slash (b ∷ c ∷ s) ≡ ends_slash (c ∷ s)
unfolding ends_slash
ends_slash_cons b c s = refl

pub text_eq-row :
    (route p name : Text)
    → text_eq (route ++ (slash ++ p)) (route ++ (slash ++ name)) ≡ text_eq p name
text_eq-row route p name =
    text_eq-append_left route (slash ++ p) (slash ++ name) ∙ text_eq-append_left slash p name

pub ends_slash_of_Lacks : (s : Text) → Lacks 47 s → ends_slash s ≡ false
unfolding ends_slash
ends_slash_of_Lacks [] h = refl
ends_slash_of_Lacks (b ∷ []) h = ground arith
ends_slash_of_Lacks (b ∷ c ∷ s) h = ends_slash_of_Lacks (c ∷ s) h.1

pub slash_not_in : (p name : Text) → Lacks 47 name → text_eq (p ++ slash) name ≡ false
unfolding text_eq
slash_not_in [] [] h = refl
slash_not_in [] (b ∷ name) h = ground arith
slash_not_in (c ∷ p) [] h = refl
slash_not_in (c ∷ p) (b ∷ name) h = ground (arith, slash_not_in p name h.1)

-- The names have a byte, and none is a slash.
abbrev pub AreNames : List (Text × Handler) → Type 0
AreNames [] = Unit {0}
AreNames ((name, h) ∷ rows) = (0 < length name) × Lacks 47 name × AreNames rows

pub named-AreNames : AreNames named
named-AreNames = omega arith

abbrev pub or_else : Option Handler → Option Handler → Option Handler
or_else none o = o
or_else (some h) o = some h

pub find-append :
    (p : Text) (rows more : List (Text × Handler))
    → find p (rows ++ more) ≡ or_else (find p rows) (find p more)
unfolding find
find-append p [] more = refl
find-append p ((k, h) ∷ rows) more = ground (arith, find-append p rows more)

pub find-slash :
    (p : Text) (rows : List (Text × Handler)) → AreNames rows → find (p ++ slash) rows ≡ none
unfolding find
find-slash p [] h = refl
find-slash p ((name, g) ∷ rows) h = rw (slash_not_in p name h.1) (find-slash p rows h.2)

module _ (route : Text) where
  pub find-behind :
      (p : Text) (rows : List (Text × Handler))
      → find (route ++ (slash ++ p)) (behind route rows) ≡ find p rows
  unfolding find
  find-behind p [] = refl
  find-behind p ((name, h) ∷ rows) = rw (text_eq-row route p name, find-behind p rows) refl

  pub longest-behind :
      (path : Text) (rows more : List (Text × Handler))
      → AreNames rows
      → longest path (behind route rows ++ more) ≡ longest path more
  unfolding longest
  longest-behind path [] more h = refl
  longest-behind path (([], g) ∷ rows) more h = absurd (omega arith)
  longest-behind path ((b ∷ name, g) ∷ rows) more h =
      let e : ends_slash (route ++ (slash ++ (b ∷ name))) ≡ false =
        ends_slash-append route 47 (b ∷ name)
        ∙ (ends_slash_cons 47 b name ∙ ends_slash_of_Lacks (b ∷ name) h.1) in
      rw e (longest-behind path rows more h.2)

pub ends_slash_of_route : (g : Text) → 0 < length g → Lacks 47 g → ends_slash (47 ∷ g) ≡ false
ends_slash_of_route [] h k = absurd (omega arith)
ends_slash_of_route (b ∷ g) h k = ends_slash_cons 47 b g ∙ ends_slash_of_Lacks (b ∷ g) k

pub is_longer : (n : ℕ) → 0 < n → ltb 1 (suc n) ≡ true
is_longer n h = ground arith

pub not_longer : (n a b : ℕ) → a ≡ suc n + 8 → b ≡ suc n + 1 → ltb a b ≡ false
not_longer n a b h k = ground arith
