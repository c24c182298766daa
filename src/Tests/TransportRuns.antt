-- ===== src/Tests/TransportRuns.antt =====
-- Runs of the peers and callbacks of adapters/transport_picoquic.c.
use webtransportd.Common.{
  ℕ, ◌≡◌, refl, true, false, List, [], ◌∷◌, ◌++◌, none, some, arith, take, inr, Option, ◌==◌,
  if◌then◌else◌,
}
use webtransportd.Common.Int.{pos}
use webtransportd.Common.Memory.{◌>>=◌}
use webtransportd.Frame.Encode.{wire}
use webtransportd.Session.{Session, wtd_session_pump, wtd_session_deliver_stream}
use webtransportd.Session.Deliver.{IsMalloc}
use webtransportd.Session.Pump.{Queued}
use webtransportd.Transport.{
  Link, Environment, unbound, transport_port, child_port, set_datagram_ready, peer_send_datagram,
}
use webtransportd.Transport.Peers.{Peer, Server, Creation, new_peer, find_peer, peer_remove}
use webtransportd.Transport.Callback.{
  Surroundings, deregister, on_event, wt_session_cb, wt_session_connect, on_provide_datagram,
}
use webtransportd.Transport.Sending.{pump-unbound, short_write_cuts}
use webtransportd.Transport.Datagrams.{given, provides, provides-given, IsArmed, datagrams-IsArmed}
use webtransportd.Transport.Isolation.{callback-isolates, ConnectAnswer, connect_lem}
use webtransportd.Tests.QueueRuns.{queued, queue-Holds}
use webtransportd.Tests.SessionRuns.{busy, zeros}

abbrev pub wide : Environment
wide = record { memory = true; accepts = pos }

-- A pipe with room for two bytes.
abbrev narrow : Environment
narrow = record { memory = true; accepts = λ n. pos 2 }

abbrev link : Link
link = (new_peer 100 (pos 5) 1).link

pump-unbound_example :
    (s' : Session) × (wtd_session_pump (transport_port wide) 1 busy link ≡ some (s', link))
    × Queued s' []
    × (s'.output_eof ≡ false)
    × (s'.stream_fin_sent ≡ false)
pump-unbound_example =
    pump-unbound wide 1 busy queued link queue-Holds (omega arith) (refl, tt) refl

-- An allocator that has one block of 10 bytes at a time.
abbrev small_block : ℕ → Option (List ℕ)
small_block n = if n == 10 then some (zeros 10) else none

small_block-IsMalloc : IsMalloc small_block
small_block-IsMalloc n buf e = ground arith

short_write_cuts_example :
    (l' : Link) × ((wtd_session_deliver_stream (child_port narrow) small_block (7 ∷ []) busy link
        >>= λ k. wtd_session_deliver_stream (child_port wide) small_block (8 ∷ []) busy k)
      ≡ some l')
    × (l'.stdin_pipe ≡ take 2 (wire 0 (7 ∷ [])) ++ wire 0 (8 ∷ []))
unfolding wire webtransportd.Frame.Varint.shortest
short_write_cuts_example =
    short_write_cuts narrow wide small_block (7 ∷ []) (8 ∷ []) busy link 2 small_block-IsMalloc refl
      refl refl refl (omega arith) (omega arith) (omega arith) (omega arith) refl (omega arith) refl

abbrev surroundings : Surroundings
surroundings = record { malloc = small_block; ports = wide; rounds = 1; datagram_buffer = true }

-- A peer with two datagrams waiting.
abbrev loaded : Link
loaded = record link {
  dgrams = (1 ∷ []) ∷ (2 ∷ []) ∷ [];
  calls = set_datagram_ready 1 unbound ∷ [];
}

provides-given_example :
    ((provides surroundings 2 loaded).dgrams ≡ [])
    × (given (provides surroundings 2 loaded).calls ≡ (1 ∷ []) ∷ (2 ∷ []) ∷ [])
provides-given_example = provides-given surroundings ((1 ∷ []) ∷ (2 ∷ []) ∷ []) loaded refl refl

datagrams-IsArmed_example :
    IsArmed (peer_send_datagram wide (3 ∷ []) loaded).1
    × IsArmed (on_provide_datagram surroundings loaded)
datagrams-IsArmed_example = datagrams-IsArmed wide surroundings (3 ∷ []) loaded (inr refl)

abbrev creation : ℕ → Creation
creation a = record { memory = some a; spawn = some (pos 5); reader = true }

abbrev empty_server : Server
empty_server = record { peers = []; life = [] }

abbrev one_peer : Server
one_peer = (wt_session_connect (creation 100) true 1 0 empty_server).1

abbrev two_peers : Server
two_peers = (wt_session_connect (creation 200) true 2 0 one_peer).1

abbrev first_peer : Peer
first_peer = record (new_peer 100 (pos 5) 1) { link = record link { control_stream_id = 0 } }

closes_first :
    wt_session_cb surroundings deregister (some first_peer) two_peers
    ≡ some (peer_remove first_peer two_peers)
unfolding wt_session_cb on_event
closes_first = refl

callback-isolates_example :
    find_peer 200 (peer_remove first_peer two_peers).peers ≡ find_peer 200 two_peers.peers
callback-isolates_example =
    callback-isolates surroundings deregister first_peer two_peers
      (peer_remove first_peer two_peers) 200 closes_first refl

connect_lem_example :
    ConnectAnswer
      (creation 300)
      true
      3
      0
      two_peers
      (wt_session_connect (creation 300) true 3 0 two_peers)
connect_lem_example = connect_lem (creation 300) true 3 0 two_peers
