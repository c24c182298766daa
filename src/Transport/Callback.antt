-- ===== src/Transport/Callback.antt =====
-- wt_session_cb, which turns picohttp events into calls of the session, and server_loop_cb.
use webtransportd.Common.{
  ℕ, Bool, true, false, ltb, List, [], ◌∷◌, Option, none, some, ◌==◌, if◌then◌else◌, length,
}
use webtransportd.Common.Int.{ℤ, pos, minus_one}
use webtransportd.Common.Memory.{◌>>=◌}
use webtransportd.Session.{
  wtd_session_deliver_stream, wtd_session_deliver_datagram, wtd_session_deliver_fin,
  wtd_session_pump,
}
use webtransportd.Transport.{
  Environment, Link, set_datagram_ready, give_datagram, unbound, transport_port, child_port,
}
use webtransportd.Transport.Peers.{Peer, Server, Creation, peer_create, peer_remove, replace}

-- picohttp_call_back_event_t with the bytes and the stream that come with the event. `other` stands
-- for the events that the callback only logs.
pub data Event : Type 0 where
  post_data post_fin : ℕ → List ℕ → Event
  post_datagram : List ℕ → Event
  provide_data provide_datagram deregister other : Event

-- The answers that the callback meets: malloc's for a frame, the ports' environment, the rounds
-- that a pump may take, and whether h3zero gives a buffer for a datagram.
pub record Surroundings : Type 0 where
  pub malloc : ℕ → Option (List ℕ)
  pub ports : Environment
  pub rounds : ℕ
  pub datagram_buffer : Bool

-- What wt_session_cb does with the peer that peer_create made for a CONNECT on a stream; `declared`
-- says that h3zero_declare_stream_prefix succeeded.
unfoldable pub accept_peer : Bool → ℕ → Option Peer × Server → ℤ × Server
accept_peer declared stream (none, sctx) = (minus_one, sctx)
accept_peer declared stream (some p, sctx) =
    let p' = record p { link = record p.link { control_stream_id = stream } } in
    if declared
    then (pos 0, record sctx { peers = replace p' sctx.peers })
    else (minus_one, peer_remove p' sctx)

-- wt_session_cb for the CONNECT: the code that it returns and the server.
unfoldable pub wt_session_connect : Creation → Bool → ℕ → ℕ → Server → ℤ × Server
unfolding accept_peer
wt_session_connect creation declared cnx stream sctx =
    accept_peer declared stream (peer_create creation cnx sctx)

module _ (around : Surroundings) where
  -- The data stream is the first one, other than the control stream, that carries data.
  unfoldable pub bind_data_stream : ℕ → Link → Link
  bind_data_stream stream l =
      if l.data_stream_id == unbound then record l { data_stream_id = stream } else l

  -- post_data and post_fin of a peer.
  unfoldable pub on_post : Bool → ℕ → List ℕ → Peer → Option Peer
  unfolding bind_data_stream
  on_post is_fin stream bytes p = if stream == p.link.control_stream_id then some p else (do
    let bound = bind_data_stream stream p.link
    l ←
        if ltb 0 (length bytes)
        then wtd_session_deliver_stream (child_port around.ports) around.malloc bytes p.session
            bound
        else some bound
    let (s', l') =
        if is_fin
        then wtd_session_deliver_fin (child_port around.ports) p.session l
        else (p.session, l)
    some (record p { session = s'; link = l' }))

  unfoldable pub on_post_datagram : List ℕ → Peer → Option Peer
  on_post_datagram bytes p =
      if ltb 0 (length bytes)
      then (do
        l ←
            wtd_session_deliver_datagram (child_port around.ports) around.malloc bytes p.session
              p.link
        some (record p { link = l }))
      else some p

  unfoldable pub pump_peer : Peer → Option Peer
  pump_peer p = do
    (s, l) ← wtd_session_pump (transport_port around.ports) around.rounds p.session p.link
    some (record p { session = s; link = l })

  -- provide_datagram: one datagram goes out, and the peer is armed again if more wait.
  unfoldable pub on_provide_datagram : Link → Link
  on_provide_datagram l = elim l.dgrams [
    | [] ↦ l
    | d ∷ rest ↦
        let sent = if around.datagram_buffer then give_datagram d ∷ l.calls else l.calls in
        record l {
          dgrams = rest;
          calls = elim rest [
            | [] ↦ sent
            | e ∷ more ↦ set_datagram_ready l.cnx l.control_stream_id ∷ sent
          ];
        }
  ]

  -- One event of a peer that is connected: the changed peer, or none where it is removed.
  unfoldable pub on_event : Event → Peer → Option (Option Peer)
  unfolding on_post on_post_datagram pump_peer on_provide_datagram
  on_event (post_data stream bytes) p = on_post false stream bytes p >>= λ q. some (some q)
  on_event (post_fin stream bytes) p = on_post true stream bytes p >>= λ q. some (some q)
  on_event (post_datagram bytes) p = on_post_datagram bytes p >>= λ q. some (some q)
  on_event provide_data p = pump_peer p >>= λ q. some (some q)
  on_event provide_datagram p = some (some (record p { link = on_provide_datagram p.link }))
  on_event deregister p = some none
  on_event other p = some (some p)

  -- wt_session_cb for every event but the CONNECT, on the peer that path_app_ctx points to, or NULL.
  unfoldable pub wt_session_cb : Event → Option Peer → Server → Option Server
  unfolding on_event
  wt_session_cb event none sctx = some sctx
  wt_session_cb event (some p) sctx = do
    q ← on_event event p
    some (elim q [
      | none ↦ peer_remove p sctx
      | some p' ↦ record sctx { peers = replace p' sctx.peers }
    ])

  -- The loop of server_loop_cb.
  unfoldable pub pump_all : List Peer → Option (List Peer)
  unfolding pump_peer
  pump_all [] = some []
  pump_all (p ∷ rest) = do p' ← pump_peer p; rest' ← pump_all rest; some (p' ∷ rest')

  -- server_loop_cb: 0, or the code that ends the packet loop.
  unfoldable pub server_loop_cb : ℤ → Bool → Bool → Server → Option (ℤ × Server)
  unfolding pump_all
  server_loop_cb terminate ready should_exit sctx =
      if ready
      then some (pos 0, sctx)
      else if should_exit
      then some (terminate, sctx)
      else (do peers ← pump_all sctx.peers; some (pos 0, record sctx { peers = peers }))
