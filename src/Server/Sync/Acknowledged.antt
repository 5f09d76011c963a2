-- ===== src/Server/Sync/Acknowledged.antt =====
-- The peers of a file after `postFileToPeer`.
use go_fastdfs.Prelude.{
  zero, suc, some, ◌≡◌, refl, ◌∙◌, sym, ap, ◌⊎◌, inl, inr, true, false, not, ◌&&◌, List, [], ◌∷◌,
  ◌++◌, arith, append_assoc, append-nil, Bool-cases, Option-cases,
}
use mathlib.Core.Path.{subst}
use go_fastdfs.Prelude.Int.{ℤ, pos, negsuc}
use go_fastdfs.Prelude.Text.{Text, text_eq_refl}
use go_fastdfs.Prelude.TextSet.{contains, IsDistinct, append-IsDistinct}
use go_fastdfs.Server.Types.{FileInfo, Config}
use go_fastdfs.Prelude.Int.{leb_ℤ}
use go_fastdfs.Server.Sync.{
  World, accepted, retried, on_reply, post_to, peer_step, post_loop, post_file_to_peer, sent_path,
  sized, is_migrated,
}

-- The same file, but for its peers, its retries, and a size that is the one on the disk where none
-- was known
abbrev pub IsCopy : Config → World → FileInfo → FileInfo → Type 0
IsCopy c w info i =
    (i ≡ record info { peers = i.peers; retry = i.retry; size = i.size })
    × ((i.size ≡ info.size)
        ⊎ ((s : ℤ) × (w.stat (sent_path c info) ≡ some s) × (i.size ≡ sized s info.size)))

-- A peer has acknowledged a file: it has a file with its hash, or has accepted a request with it.
abbrev pub Acknowledges : Config → World → FileInfo → Text → Type 0
Acknowledges c w info peer =
    (w.has_file peer info.md5 ≡ true)
    ⊎ ((i : FileInfo) × IsCopy c w info i × (accepted (w.post peer i) ≡ true))

sized_twice : (s z : ℤ) → sized s (sized s z) ≡ sized s z
sized_twice (pos zero) (pos zero) = refl
sized_twice (pos (suc n)) (pos zero) = refl
sized_twice (negsuc n) (pos zero) = refl
sized_twice s (pos (suc n)) = refl
sized_twice s (negsuc n) = refl

sent_path-IsCopy :
    (c : Config) (w : World) (info i : FileInfo)
    → IsCopy c w info i
    → sent_path c i ≡ sent_path c info
unfolding sent_path
sent_path-IsCopy c w info i (e, z) = ap (sent_path c) e

some_injective : (s t : ℤ) → some s ≡ some t → s ≡ t
some_injective s t h = cc

IsCopy-trans :
    (c : Config) (w : World) (a b d : FileInfo) → IsCopy c w a b → IsCopy c w b d → IsCopy c w a d
IsCopy-trans c w a b d (e, z) (f, y) = (
  f ∙ ap (λ (x : FileInfo). record x { peers = d.peers; retry = d.retry; size = d.size }) e,
  elim y [
    | inl p ↦ elim z [ inl q ↦ inl (p ∙ q) | inr (s, t, q) ↦ inr (s, t, p ∙ q) ]
    | inr (s, t, p) ↦
        let at : w.stat (sent_path c a) ≡ some s =
          ap w.stat (sym (sent_path-IsCopy c w a b (e, z))) ∙ t in
        elim z [
          | inl q ↦ inr (s, at, p ∙ ap (sized s) q)
          | inr (u, v, q) ↦ inr (
            s,
            at,
            p
                ∙ ap (sized s) (q ∙ ap (λ x. sized x a.size) (some_injective u s (sym v ∙ at)))
                ∙ sized_twice s a.size,
          )
        ]
  ],
)

Acknowledges-IsCopy :
    (c : Config) (w : World) (a b : FileInfo) (peer : Text)
    → IsCopy c w a b
    → Acknowledges c w b peer
    → Acknowledges c w a peer
Acknowledges-IsCopy c w a b peer k (inl h) = inl (ap (λ x. w.has_file peer x.md5) (sym k.0) ∙ h)
Acknowledges-IsCopy c w a b peer k (inr (i, l, h)) = inr (i, IsCopy-trans c w a b i k l, h)

-- A round leaves the peers, or adds the peer, which has acknowledged the file; the rest is a copy.
abbrev IsRound : Config → World → Text → FileInfo → FileInfo → Type 0
IsRound c w peer before after =
    IsCopy c w before after
    × ((after.peers ≡ before.peers)
        ⊎ ((after.peers ≡ before.peers ++ peer ∷ [])
            × (contains peer before.peers ≡ false)
            × Acknowledges c w before peer))

on_reply-IsRound :
    (c : Config) (w : World) (peer : Text) (info : FileInfo)
    → contains peer info.peers ≡ false
    → IsRound c w peer info (on_reply c peer info (w.post peer info)).0
unfolding on_reply retried
on_reply-IsRound c w peer info n =
    let r = w.post peer info in
    elim (Bool-cases (accepted r)) [
      | inl e ↦
          let posted : Acknowledges c w info peer = inr (info, (refl, inl refl), e) in
          elim (Bool-cases (r.failed && leb_ℤ (pos info.retry) c.retry_count)) [
            | inl g ↦ rw (e, g, n) ((refl, inl refl), inr (refl, refl, posted))
            | inr g ↦ rw (e, g, n) ((refl, inl refl), inr (refl, refl, posted))
          ]
      | inr e ↦ elim (Bool-cases (r.failed && leb_ℤ (pos info.retry) c.retry_count)) [
        | inl g ↦ rw (e, g) ((refl, inl refl), inl refl)
        | inr g ↦ rw (e, g) ((refl, inl refl), inl refl)
      ]
    ]

post_to-IsRound :
    (c : Config) (w : World) (peer : Text) (info : FileInfo)
    → contains peer info.peers ≡ false
    → IsRound c w peer info (post_to c w peer info).0
unfolding post_to
post_to-IsRound c w peer info n =
    elim (Bool-cases
      (not (is_migrated info.offset) && c.enable_distinct_file && w.has_file peer info.md5)) [
        | inl e ↦ rw e ((refl, inl refl), inr (refl, n, inl (ground arith)))
        | inr e ↦ rw e (on_reply-IsRound c w peer info n)
      ]

peer_step-post_to :
    (c : Config) (w : World) (peer : Text) (info : FileInfo) (size : ℤ)
    → contains peer info.peers ≡ false
    → w.stat (sent_path c info) ≡ some size
    → peer_step c w peer info ≡ post_to c w peer (record info { size = sized size info.size })
unfolding peer_step
peer_step-post_to c w peer info size e f = rw (e, f) refl

peer_step-IsRound :
    (c : Config) (w : World) (peer : Text) (info : FileInfo)
    → IsRound c w peer info (peer_step c w peer info).0
unfolding peer_step
peer_step-IsRound c w peer info = elim (Bool-cases (contains peer info.peers)) [
  | inl e ↦ rw e ((refl, inl refl), inl refl)
  | inr e ↦ elim (Option-cases (w.stat (sent_path c info))) [
    | inl f ↦ rw (e, f) ((refl, inl refl), inl refl)
    | inr (size, f) ↦
        let i : FileInfo = record info { size = sized size info.size } in
        let copy : IsCopy c w info i = (refl, inr (size, f, refl)) in
        let (m, r) = post_to-IsRound c w peer i e in
        let round : IsRound c w peer info (post_to c w peer i).0 = (
          IsCopy-trans c w info i (post_to c w peer i).0 copy m,
          elim r [
            | inl p ↦ inl p
            | inr (p, q, a) ↦ inr (p, e, Acknowledges-IsCopy c w info i peer copy a)
          ],
        ) in
        subst (λ x. IsRound c w peer info x)
          (sym (ap (λ x. x.0) (peer_step-post_to c w peer info size e f))) round
  ]
]

-- Each one is a configured peer that has acknowledged the file.
abbrev pub AllAcknowledge : Config → World → List Text → FileInfo → List Text → Type 0
AllAcknowledge c w peers info [] = Unit {0}
AllAcknowledge c w peers info (p ∷ ps) =
    (contains p peers ≡ true) × Acknowledges c w info p × AllAcknowledge c w peers info ps

AllAcknowledge-more :
    (c : Config) (w : World) (p : Text) (peers : List Text) (a b : FileInfo) (ps : List Text)
    → IsCopy c w a b
    → AllAcknowledge c w peers b ps
    → AllAcknowledge c w (p ∷ peers) a ps
AllAcknowledge-more c w p peers a b [] k h = tt
AllAcknowledge-more c w p peers a b (q ∷ ps) k (i, acknowledged, h) = (
  ground (arith, i),
  Acknowledges-IsCopy c w a b q k acknowledged,
  AllAcknowledge-more c w p peers a b ps k h,
)

-- What the loop adds
abbrev pub Adds : Config → World → List Text → FileInfo → FileInfo → Type 0
Adds c w peers before after =
    (added : List Text) × (after.peers ≡ before.peers ++ added)
    × AllAcknowledge c w peers before added
    × IsDistinct after.peers

Adds-cons :
    (c : Config) (w : World) (peer : Text) (peers : List Text) (before middle after : FileInfo)
    → IsRound c w peer before middle
    → Adds c w peers middle after
    → Adds c w (peer ∷ peers) before after
Adds-cons c w peer peers before middle after (m, inl e) (added, p, a, d) = (
  added,
  p ∙ ap (λ q. q ++ added) e,
  AllAcknowledge-more c w peer peers before middle added m a,
  d,
)
Adds-cons c w peer peers before middle after (m, inr (e, n, k)) (added, p, a, d) = (
  peer ∷ added,
  p ∙ ap (λ q. q ++ added) e ∙ append_assoc before.peers (peer ∷ []) added,
  (
    ground (arith, text_eq_refl peer),
    k,
    AllAcknowledge-more c w peer peers before middle added m a,
  ),
  d,
)

IsDistinct-round :
    (c : Config) (w : World) (peer : Text) (before after : FileInfo)
    → IsRound c w peer before after
    → IsDistinct before.peers
    → IsDistinct after.peers
IsDistinct-round c w peer before after (m, inl e) d = rw e d
IsDistinct-round c w peer before after (m, inr (e, n, k)) d =
    rw e (append-IsDistinct before.peers peer d n)

post_loop-Adds :
    (c : Config) (w : World) (peers : List Text) (info : FileInfo)
    → IsDistinct info.peers
    → Adds c w peers info (post_loop c w peers info).0
unfolding post_loop
post_loop-Adds c w [] info d = ([], sym (append-nil info.peers), tt, d)
post_loop-Adds c w (peer ∷ peers) info d =
    let i = (peer_step c w peer info).0 in
    let r = peer_step-IsRound c w peer info in
    Adds-cons c w peer peers info i (post_loop c w peers i).0 r
      (post_loop-Adds c w peers i (IsDistinct-round c w peer info i r d))

-- `postFileToPeer` adds to the peers of a file, which are distinct, only configured peers that have
-- acknowledged it: that have a file with its hash, or have answered with a URL to a request with the
-- record of the file, but for its peers, its retries, and its size where that was not known. They
-- stay distinct.
pub post_file_to_peer-Adds :
    (c : Config) (w : World) (info : FileInfo)
    → IsDistinct info.peers
    → Adds c w c.peers info (post_file_to_peer c w info).0
unfolding post_file_to_peer
post_file_to_peer-Adds c w info d = post_loop-Adds c w c.peers info d
