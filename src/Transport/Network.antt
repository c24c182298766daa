-- ===== src/Transport/Network.antt =====
-- The whole of adapters/transport_picoquic.c at work: the events of picoquic and the deliveries of the
-- reader threads, in any order. Each comes with what the environment answers in it.
pub mod Stages
pub mod Accepted
pub mod Standing
pub mod Served
pub mod Events
pub mod Safety
pub mod Removal
use webtransportd.Common.{ℕ, Bool, List, [], ◌∷◌, Option, none, some}
use webtransportd.Common.Int.{ℤ}
use webtransportd.Common.Memory.{◌>>=◌}
use webtransportd.WorkQueue.{Ptr, Heap}
use webtransportd.Session.{Session, wtd_session_on_output, wtd_session_on_output_eof}
use webtransportd.Transport.{Environment}
use webtransportd.Transport.Peers.{Peer, Server, Creation, replace, find_peer}
use webtransportd.Transport.Callback.{
  Event, Surroundings, wt_session_cb, wt_session_connect, server_loop_cb,
}

-- A CONNECT; an event whose context is NULL or the peer at an address; a round of the packet loop; a
-- frame that the reader thread of a peer delivers, and the end of its output.
pub data Action : Type 0 where
  connect : Creation → Bool → ℕ → ℕ → Action
  callback : Event → Option Ptr → Action
  loop : ℤ → Bool → Bool → Action
  output : Ptr → ℕ → List ℕ → Action
  output_end : Ptr → Action

-- The answers that an action meets: malloc's for a frame and, by what is in use, for a queue node;
-- the ports' environment; h3zero's for a datagram.
pub record Weather : Type 0 where
  pub malloc : ℕ → Option (List ℕ)
  pub allocator : Heap → Ptr
  pub ports : Environment
  pub datagram_buffer : Bool

abbrev pub around : ℕ → Weather → Surroundings
around rounds w = record {
  malloc = w.malloc;
  ports = w.ports;
  rounds = rounds;
  datagram_buffer = w.datagram_buffer;
}

-- wtd_session_on_output of a peer.
unfoldable pub peer_output : Weather → ℕ → List ℕ → Peer → Option Peer
peer_output w flag bytes p = do
  s ← wtd_session_on_output (w.allocator p.session.nodes) flag bytes p.session
  some (record p { session = s })

-- A change of the peer at an address; `none` where no peer is there any more: the memory is freed.
unfoldable pub at_peer : (Peer → Option Peer) → Ptr → Server → Option Server
at_peer change a s = elim (find_peer a s.peers) [
  | none ↦ none
  | some p ↦ change p >>= λ p'. some (record s { peers = replace p' s.peers })
]

-- An event with its context; `none` also where the context points to a peer that was freed.
unfoldable pub deliver_event : Surroundings → Event → Option Ptr → Server → Option Server
deliver_event around event none s = wt_session_cb around event none s
deliver_event around event (some a) s = elim (find_peer a s.peers) [
  | none ↦ none
  | some p ↦ wt_session_cb around event (some p) s
]

-- One action, where a pump may take `rounds` rounds.
unfoldable pub act : ℕ → Weather → Action → Server → Option Server
unfolding peer_output at_peer deliver_event
act rounds w (connect c declared cnx stream) s = some (wt_session_connect c declared cnx stream s).1
act rounds w (callback event context) s = deliver_event (around rounds w) event context s
act rounds w (loop terminate ready should_exit) s =
    server_loop_cb (around rounds w) terminate ready should_exit s >>= λ r. some r.1
act rounds w (output a flag bytes) s = at_peer (peer_output w flag bytes) a s
act rounds w (output_end a) s =
    at_peer (λ p. some (record p { session = wtd_session_on_output_eof p.session })) a s

unfoldable pub act_all : ℕ → List (Weather × Action) → Server → Option Server
unfolding act
act_all rounds [] s = some s
act_all rounds ((w, action) ∷ actions) s = act rounds w action s >>= act_all rounds actions
