-- ===== src/Transport/Network/Removal.antt =====
-- What wtd_session_destroy finds when peer_remove calls it, after any history.
use webtransportd.Common.{
  ℕ, ◌≡◌, ◌≤◌, refl, ◌∙◌, inl, inr, List, [], ◌∷◌, none, some, length, arith, All, Bool-cases,
}
use webtransportd.WorkQueue.{Ptr, null}
use webtransportd.WorkQueue.Chain.{has, destroy-frees}
use webtransportd.Session.{Session, wtd_session_destroy}
use webtransportd.Transport.Peers.{Peer, Server}
use webtransportd.Transport.Network.{Weather, Action, act_all}
use webtransportd.Transport.Network.Served.{IsServed}
use webtransportd.Transport.Network.Standing.{IsOrderly}
use webtransportd.Transport.Network.Safety.{FairAction, act_all-total}

-- The destruction of the peer's session ends and leaves no node.
abbrev pub IsRemovable : ℕ → Peer → Type 0
IsRemovable fuel p =
    (s : Session) × (wtd_session_destroy fuel p.session ≡ some s)
    × (s.outbound.head ≡ null)
    × ((b : Ptr) → s.nodes b ≡ none)

IsServed-IsRemovable : (n fuel : ℕ) (p : Peer) → n ≤ fuel → IsServed n p → IsRemovable fuel p
unfolding wtd_session_destroy
IsServed-IsRemovable n fuel p le (cs, held, few) =
    let (q, h, e, empty, freed) =
      destroy-frees fuel p.session.nodes p.session.outbound cs held.queued (omega arith) in
    (
      record p.session { outbound = q; nodes = h },
      rw e refl,
      empty.starts,
      λ b. elim (Bool-cases (has b cs)) [
        | inl gone ↦ freed b ∙ rw gone refl
        | inr never ↦ freed b ∙ rw never (held.exact b never)
      ],
    )

All-IsRemovable :
    (n fuel : ℕ) (peers : List Peer)
    → n ≤ fuel
    → All (IsServed n) peers
    → All (IsRemovable fuel) peers
All-IsRemovable n fuel [] le h = tt
All-IsRemovable n fuel (p ∷ peers) le (one, others) =
    (IsServed-IsRemovable n fuel p le one, All-IsRemovable n fuel peers le others)

-- Whatever history of fair answers the daemon has behind it, from a server without peers on and with
-- as many rounds for a walk over a queue as there are actions, where malloc gives a new peer an
-- address no peer has, the context of an event is NULL or a peer accepted and not removed, and the
-- reader thread of a removed peer delivers nothing: wtd_session_destroy of any listed
-- peer ends, touches no freed node, and frees every node that the session has, also in the middle of a burst.
pub sessions-IsRemovable :
    (rounds : ℕ) (actions : List (Weather × Action))
    → All FairAction actions
    → IsOrderly [] actions
    → length actions ≤ rounds
    → (s : Server) × (act_all rounds actions (record { peers = []; life = [] }) ≡ some s)
      × All (IsRemovable rounds) s.peers
sessions-IsRemovable rounds actions fair ordered enough =
    let (s, e, well) = act_all-total rounds actions fair ordered enough in
    (s, e, All-IsRemovable (length actions) rounds s.peers enough well.served)
