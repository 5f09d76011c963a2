-- ===== src/Server/Sync/Choice.antt =====
-- The peer that `ConsumerDownLoad` takes a file from.
use go_fastdfs.Prelude.{
  ◌≡◌, refl, ap, inl, inr, Bool, true, false, ◌||◌, Option, none, some, List, [], ◌∷◌, ◌++◌,
  Bool-cases,
}
use go_fastdfs.Prelude.Text.{Text, lit, text_eq, has_infix}
use go_fastdfs.Server.Sync.{choose_peer}

-- The host itself, or a peer with the address of this machine
abbrev pub skipped : Text → Text → Bool
skipped host peer = has_infix peer (lit "127.0.0.1") || text_eq peer host

abbrev pub AllSkipped : Text → List Text → Type 0
AllSkipped host [] = Unit {0}
AllSkipped host (p ∷ ps) = (skipped host p ≡ true) × AllSkipped host ps

-- The first peer that may be asked, with all before it skipped, or none where all are skipped
abbrev pub IsFirst : Text → List Text → Option Text → Type 0
IsFirst host peers none = AllSkipped host peers
IsFirst host peers (some p) =
    (before : List Text) × (after : List Text) × (peers ≡ before ++ p ∷ after)
    × AllSkipped host before
    × (skipped host p ≡ false)

IsFirst-cons :
    (host peer : Text) (peers : List Text) (o : Option Text)
    → skipped host peer ≡ true
    → IsFirst host peers o
    → IsFirst host (peer ∷ peers) o
IsFirst-cons host peer peers none s h = (s, h)
IsFirst-cons host peer peers (some p) s (before, after, e, a, n) =
    (peer ∷ before, after, ap (λ ps. peer ∷ ps) e, (s, a), n)

-- `ConsumerDownLoad` asks the first peer of the file that is neither the server itself nor an
-- address of the same machine, and none only where all its peers are such.
pub choose_peer-IsFirst :
    (host : Text) (peers : List Text) → IsFirst host peers (choose_peer host peers)
unfolding choose_peer
choose_peer-IsFirst host [] = tt
choose_peer-IsFirst host (peer ∷ peers) = elim (Bool-cases (skipped host peer)) [
  | inl e ↦
      rw e
        (IsFirst-cons host peer peers (choose_peer host peers) e (choose_peer-IsFirst host peers))
  | inr e ↦ rw e ([], peers, refl, tt, e)
]
