-- ===== src/Prototypes/Minimal.antt =====
-- prototypes/minimal_http3_client.c and prototypes/minimal_http3_server.c, and the main of
-- prototypes/http3_server_with_child.c. What the sockets, the clock and picoquic answer is an
-- argument; printing and the port are not in the model.
pub mod Rounds
pub mod Endings
use webtransportd.Common.{
  ℕ, ◌+◌, ◌%◌, ◌^◌, Bool, true, false, not, ◌&&◌, List, [], ◌∷◌, ◌++◌, Option, some, leb, ltb, ◌==◌,
  if◌then◌else◌, length,
}
use webtransportd.Common.Int.{ℤ, is_zero}
use webtransportd.Common.Memory.{◌>>=◌, store_all}
use webtransportd.ChildProcess.{
  Calls, Child, SpawnAnswers, Waited, wtd_child_spawn, wtd_child_terminate,
}
use webtransportd.Prototypes.Client.{
  Event, stream_data, stream_fin, datagram, other, append_chunk, receive, ClientCall, opens_socket,
  closes_socket, creates_quic, frees_quic, sends_packet, adds_to_stream, Round, SetUp,
}
use webtransportd.Prototypes.Handshake.{starts_with}

-- recv_buf_t
pub record RecvBuf : Type 0 where
  pub buf : List ℕ
  pub len : ℕ

-- The part of client_callback under the test of the event.
unfoldable pub take_bytes : List ℕ → RecvBuf → Option RecvBuf
unfolding append_chunk
take_bytes bytes b =
    let copied = append_chunk b.buf b.len bytes >>= λ r. some (record { buf = r.0; len = r.1 }) in
    if ltb 0 (length bytes) then copied else some b

-- client_callback of minimal_http3_client.c
unfoldable pub minimal_callback : Event → RecvBuf → Option RecvBuf
unfolding take_bytes
minimal_callback (stream_data bytes) b = take_bytes bytes b
minimal_callback (stream_fin bytes) b = take_bytes bytes b
minimal_callback (datagram bytes) b = some b
minimal_callback (other bytes) b = some b

-- PAYLOAD
abbrev pub hello : List ℕ
hello = b'h' ∷ b'e' ∷ b'l' ∷ b'l' ∷ b'o' ∷ []

-- The locals of the loop.
pub record MinimalLoop : Type 0 where
  pub received : RecvBuf
  pub sent : Bool
  pub calls : List ClientCall

-- The part under picoquic_state_ready.
unfoldable pub send_hello : Bool → MinimalLoop → MinimalLoop
send_hello false l = l
send_hello true l =
    if l.sent then l else record l { sent = true; calls = adds_to_stream true hello ∷ l.calls }

-- One round, without the nap at its end; `is_prepared` says that picoquic_prepare_next_packet gave 0.
unfoldable pub minimal_round : Bool → Round → MinimalLoop → Option MinimalLoop
unfolding receive minimal_callback send_hello
minimal_round is_prepared r l = do
  b ← receive minimal_callback 10 r.incoming l.received
  let calls = if is_prepared && ltb 0 r.packet then sends_packet r.packet ∷ l.calls else l.calls
  some (send_hello r.is_ready (record l { received = b; calls = calls }))

-- The rounds that the clock allows.
unfoldable pub minimal_rounds : List (Bool × Round) → MinimalLoop → Option MinimalLoop
unfolding minimal_round
minimal_rounds [] l = some l
minimal_rounds ((is_prepared, r) ∷ rounds) l = minimal_round is_prepared r l >>= λ l'.
    if l'.sent && leb (length hello) l'.received.len then some l' else minimal_rounds rounds l'

-- main of minimal_http3_client.c: the exit code, what was received, and the calls. `stack` is the
-- cleared buffer.
unfoldable pub minimal_main :
    ℕ → SetUp → List (Bool × Round) → List ℕ → Option (ℕ × RecvBuf × List ClientCall)
unfolding minimal_rounds
minimal_main argc k rounds stack =
    let empty : RecvBuf = record { buf = stack; len = 0 } in
    if ltb argc 2
    then some (1, empty, [])
    else if not k.has_socket
    then some (1, empty, [])
    else if not k.is_bound
    then some (1, empty, closes_socket ∷ opens_socket ∷ [])
    else if not k.has_quic
    then some (1, empty, closes_socket ∷ opens_socket ∷ [])
    else if not k.has_cnx
    then some (1, empty, closes_socket ∷ frees_quic ∷ creates_quic ∷ opens_socket ∷ [])
    else (do
      l ←
          minimal_rounds rounds
            (record { received = empty; sent = false; calls = creates_quic ∷ opens_socket ∷ [] })
      let success = leb (length hello) l.received.len && starts_with hello l.received.buf
      some (if success then 0 else 1, l.received, closes_socket ∷ frees_quic ∷ l.calls))

-- echo_callback of minimal_http3_server.c: what picoquic_add_to_stream gets, the oldest first.
unfoldable pub echo_callback : Event → List (List ℕ) → List (List ℕ)
echo_callback (stream_data bytes) t = if ltb 0 (length bytes) then t ++ (bytes ∷ []) else t
echo_callback (stream_fin bytes) t = if ltb 0 (length bytes) then t ++ (bytes ∷ []) else t
echo_callback (datagram bytes) t = t
echo_callback (other bytes) t = t

-- main of minimal_http3_server.c, where the packet loop hands over `events` until it ends: the exit code
-- and what goes back.
unfoldable pub echo_events : List Event → List (List ℕ) → List (List ℕ)
unfolding echo_callback
echo_events [] t = t
echo_events (e ∷ events) t = echo_events events (echo_callback e t)

-- What the two servers do with their QUIC context.
pub data ServerCall : Type 0 where
  creates runs frees : ServerCall

unfoldable pub minimal_server_main : ℕ → Bool → List Event → ℕ × List (List ℕ) × List ServerCall
unfolding echo_events
minimal_server_main argc has_quic events =
    if ltb argc 4
    then (1, [], [])
    else if not has_quic
    then (1, [], [])
    else (0, echo_events events [], frees ∷ runs ∷ creates ∷ [])

-- What follows wtd_child_spawn in main of http3_server_with_child.c: the exit code, the calls on QUIC
-- and the system calls.
unfoldable pub serve_child : Bool → (ℕ → Waited) → ℤ × Child × Calls → ℕ × List ServerCall × Calls
unfolding wtd_child_terminate
serve_child has_quic waited (rc, child, t) =
    let (child', t') = wtd_child_terminate waited child t in
    if not (is_zero rc)
    then (1, [], t)
    else if not has_quic
    then (1, [], t')
    else (0, frees ∷ runs ∷ creates ∷ [], t')

unfoldable pub child_server_main :
    ℕ → SpawnAnswers → Bool → (ℕ → Waited) → ℕ × List ServerCall × Calls
unfolding wtd_child_spawn serve_child
child_server_main argc k has_quic waited =
    if ltb argc 5 then (1, [], []) else serve_child has_quic waited (wtd_child_spawn k true [])
