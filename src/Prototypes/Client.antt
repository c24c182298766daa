-- ===== src/Prototypes/Client.antt =====
-- The client of prototypes/handshake_echo_http3.c: client_callback and run_client. What the sockets,
-- the clock and picoquic answer is an argument, and the calls are recorded, the newest first.
pub mod Received
pub mod Rounds
use webtransportd.Common.{
  ℕ, zero, suc, ◌+◌, ◌%◌, ◌^◌, Bool, true, false, not, ◌&&◌, List, [], ◌∷◌, Option, some, leb, ◌==◌,
  if◌then◌else◌, length,
}
use webtransportd.Common.Memory.{◌>>=◌, store_all}

-- client_ctx_t
pub record Client : Type 0 where
  pub stream_buf : List ℕ
  pub stream_len : ℕ
  pub dgram_buf : List ℕ
  pub dgram_len : ℕ

-- The events of picoquic with their bytes; `other` has none that count.
pub data Event : Type 0 where
  stream_data stream_fin datagram other : List ℕ → Event

-- sizeof(c->stream_buf), sizeof(c->dgram_buf)
abbrev pub recv_size : ℕ
recv_size = 256

-- The copy of a chunk behind what a buffer holds, if it fits: the buffer and its new length.
unfoldable pub append_chunk : List ℕ → ℕ → List ℕ → Option (List ℕ × ℕ)
append_chunk buf len bytes =
    let copied = store_all buf len bytes >>= λ buf'. some (buf', len + length bytes) in
    if leb ((len + length bytes) % 2 ^ 64) recv_size then copied else some (buf, len)

unfoldable pub on_stream_bytes : List ℕ → Client → Option Client
unfolding append_chunk
on_stream_bytes bytes c = do
  r ← append_chunk c.stream_buf c.stream_len bytes
  some (record c { stream_buf = r.0; stream_len = r.1 })

unfoldable pub on_dgram_bytes : List ℕ → Client → Option Client
unfolding append_chunk
on_dgram_bytes bytes c = do
  r ← append_chunk c.dgram_buf c.dgram_len bytes
  some (record c { dgram_buf = r.0; dgram_len = r.1 })

unfoldable pub client_callback : Event → Client → Option Client
unfolding on_stream_bytes on_dgram_bytes
client_callback (stream_data bytes) c =
    if length bytes == 0 then some c else on_stream_bytes bytes c
client_callback (stream_fin bytes) c = if length bytes == 0 then some c else on_stream_bytes bytes c
client_callback (datagram bytes) c = if length bytes == 0 then some c else on_dgram_bytes bytes c
client_callback (other bytes) c = some c

module _ {ℓ} {S : Type ℓ} (handle : Event → S → Option S) where
  -- picoquic_incoming_packet as it calls back.
  unfoldable pub call_back : List Event → S → Option S
  call_back [] c = some c
  call_back (e ∷ events) c = handle e c >>= call_back events

  -- The loop over recvfrom, on the packets that it may still take. A packet is the events that
  -- picoquic makes of it; behind the last one recvfrom answers 0 or less.
  unfoldable pub receive : ℕ → List (List Event) → S → Option S
  unfolding call_back
  receive zero packets c = some c
  receive (suc i) [] c = some c
  receive (suc i) (events ∷ packets) c = call_back events c >>= receive i packets

-- The calls; adds_to_stream with its set_fin.
pub data ClientCall : Type 0 where
  opens_socket closes_socket creates_quic frees_quic : ClientCall
  sends_packet : ℕ → ClientCall
  adds_to_stream : Bool → List ℕ → ClientCall
  queues_datagram : List ℕ → ClientCall

-- What one round of the loop meets: the length of the packet that picoquic prepares, the packets that
-- wait in the socket, and whether the connection is in picoquic_state_ready.
pub record Round : Type 0 where
  pub packet : ℕ
  pub incoming : List (List Event)
  pub is_ready : Bool

-- The locals of the loop.
pub record Loop : Type 0 where
  pub client : Client
  pub ready : Bool
  pub sent : Bool
  pub calls : List ClientCall

-- PAYLOAD and DGRAM_PAYLOAD
abbrev pub payload : List ℕ
payload = b'w' ∷ b'o' ∷ b'r' ∷ b'l' ∷ b'd' ∷ []

abbrev pub dgram_payload : List ℕ
dgram_payload = b'd' ∷ b'g' ∷ b'r' ∷ b'a' ∷ b'm' ∷ []

-- The part under picoquic_state_ready.
unfoldable pub send_payloads : Bool → Loop → Loop
send_payloads false l = l
send_payloads true l = if l.sent then record l { ready = true } else record l {
  ready = true;
  sent = true;
  calls = queues_datagram dgram_payload ∷ adds_to_stream false payload ∷ l.calls;
}

abbrev pub has_both : Client → Bool
has_both c = leb (length payload) c.stream_len && leb (length dgram_payload) c.dgram_len

-- One round, without the nap at its end.
unfoldable pub client_round : Round → Loop → Option Loop
unfolding receive client_callback send_payloads
client_round r l = do
  c ← receive client_callback 8 r.incoming l.client
  let calls = if r.packet == 0 then l.calls else sends_packet r.packet ∷ l.calls
  some (send_payloads r.is_ready (record l { client = c; calls = calls }))

-- The rounds that the clock allows.
unfoldable pub client_rounds : List Round → Loop → Option Loop
unfolding client_round
client_rounds [] l = some l
client_rounds (r ∷ rounds) l = client_round r l >>= λ l'.
    if l'.sent && has_both l'.client then some l' else client_rounds rounds l'

-- What the set-up meets: socket, bind, picoquic_create and picoquic_create_client_cnx.
pub record SetUp : Type 0 where
  pub has_socket : Bool
  pub is_bound : Bool
  pub has_quic : Bool
  pub has_cnx : Bool

-- run_client: whether it returns 0, the client's buffers, and the calls.
unfoldable pub run_client :
    SetUp → List Round → Client → List ClientCall → Option (Bool × Client × List ClientCall)
unfolding client_rounds
run_client k rounds c t =
    if not k.has_socket
    then some (false, c, t)
    else if not k.is_bound
    then some (false, c, closes_socket ∷ opens_socket ∷ t)
    else if not k.has_quic
    then some (false, c, closes_socket ∷ opens_socket ∷ t)
    else if not k.has_cnx
    then some (false, c, closes_socket ∷ frees_quic ∷ creates_quic ∷ opens_socket ∷ t)
    else (do
      l ← client_rounds rounds (record {
        client = c;
        ready = false;
        sent = false;
        calls = creates_quic ∷ opens_socket ∷ t;
      })
      some (
        l.ready && (l.sent && has_both l.client),
        l.client,
        closes_socket ∷ frees_quic ∷ l.calls,
      ))
