-- ===== src/Transport/Network/Accepted.antt =====
-- What a CONNECT does to the list of peers and to their lives.
use webtransportd.Common.{
  ℕ, ◌≡◌, ◌∙◌, refl, inl, inr, Bool, true, false, ◌&&◌, List, ◌∷◌, Option, none, some, ◌==◌,
  if◌then◌else◌, arith, Bool-cases,
}
use webtransportd.Common.Int.{ℤ}
use webtransportd.WorkQueue.{Ptr}
use webtransportd.Transport.Peers.{
  LifeCall, Server, Creation, peer_create, unlink, peer_remove, replace,
}
use webtransportd.Transport.Callback.{accept_peer, wt_session_connect}
use webtransportd.Transport.Network.Stages.{gone, stage, is_in, IsListed, IsSound, IsDistinct}

-- The addresses after a CONNECT.
abbrev pub after_connect : Creation → Bool → List Ptr → List Ptr
after_connect c declared live = elim c.memory [
  | none ↦ live
  | some a ↦ elim c.spawn [
    | none ↦ live
    | some fd ↦ if c.reader && declared then a ∷ live else live
  ]
]

abbrev pub Connects : Creation → Bool → ℕ → ℕ → Server → List Ptr → Type 0
Connects c declared cnx stream s live =
    let s' = (wt_session_connect c declared cnx stream s).1 in
    IsListed s'.peers (after_connect c declared live)
    × IsSound s'.life (after_connect c declared live)
    × IsDistinct (after_connect c declared live)

fresh_there :
    (a b : Ptr) (life : List LifeCall) (live : List Ptr)
    → (a == b) ≡ true
    → is_in a live ≡ false
    → IsSound life live
    → (stage b life ≡ gone) × (is_in b live ≡ false)
fresh_there a b life live hit fresh h =
    let is : a ≡ b = ground (arith, hit) in
    let out : is_in b live ≡ false = rw is at fresh in (h b ∙ rw out refl, out)

connect_cases :
    (memory : Option Ptr) (spawn : Option ℤ) (reader declared : Bool) (cnx stream : ℕ) (s : Server)
    (live : List Ptr)
    → ((a : Ptr) → memory ≡ some a → is_in a live ≡ false)
    → IsListed s.peers live
    → IsSound s.life live
    → IsDistinct live
    → Connects
        (record { memory = memory; spawn = spawn; reader = reader })
        declared
        cnx
        stream
        s
        live
unfolding wt_session_connect accept_peer peer_create peer_remove unlink replace
connect_cases none spawn reader declared cnx stream s live fresh l h d = (l, h, d)
connect_cases (some a) none reader declared cnx stream s live fresh l h d = (
  l,
  λ b. elim (Bool-cases (a == b)) [
    | inl hit ↦
        let (free, out) = fresh_there a b s.life live hit (fresh a refl) h in
        rw (hit, free, out) refl
    | inr miss ↦ rw miss (h b)
  ],
  d,
)
connect_cases (some a) (some fd) false declared cnx stream s live fresh l h d = (
  l,
  λ b. elim (Bool-cases (a == b)) [
    | inl hit ↦
        let (free, out) = fresh_there a b s.life live hit (fresh a refl) h in
        rw (hit, free, out) refl
    | inr miss ↦ rw miss (h b)
  ],
  d,
)
connect_cases (some a) (some fd) true false cnx stream s live fresh l h d =
    let same : (a == a) ≡ true = ground arith in
    (
      rw same l,
      λ b. elim (Bool-cases (a == b)) [
        | inl hit ↦
            let (free, out) = fresh_there a b s.life live hit (fresh a refl) h in
            rw (hit, free, out) refl
        | inr miss ↦ rw miss (h b)
      ],
      d,
    )
connect_cases (some a) (some fd) true true cnx stream s live fresh l h d =
    let same : (a == a) ≡ true = ground arith in
    (
      rw same (refl, refl, l),
      λ b. elim (Bool-cases (a == b)) [
        | inl hit ↦
            let (free, out) = fresh_there a b s.life live hit (fresh a refl) h in
            rw (hit, free) refl
        | inr miss ↦ rw miss (h b)
      ],
      (fresh a refl, d),
    )

-- A CONNECT adds its peer's address, if it makes one.
pub connect-IsListed :
    (c : Creation) (declared : Bool) (cnx stream : ℕ) (s : Server) (live : List Ptr)
    → ((a : Ptr) → c.memory ≡ some a → is_in a live ≡ false)
    → IsListed s.peers live
    → IsSound s.life live
    → IsDistinct live
    → Connects c declared cnx stream s live
connect-IsListed c declared cnx stream s live fresh l h d =
    connect_cases c.memory c.spawn c.reader declared cnx stream s live fresh l h d
