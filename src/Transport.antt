-- ===== src/Transport.antt =====
-- adapters/transport_picoquic.c: what one peer's ports touch, and the ports themselves.
-- picoquic and h3zero are third-party code: their calls are recorded in the order in which they are
-- made, and what they answer is a parameter. write(2) on the child's stdin, which is non-blocking,
-- is answered by `accepts`: how many bytes the pipe takes, or an error.
pub mod Peers
pub mod Callback
pub mod Sending
pub mod Datagrams
pub mod Lifecycle
pub mod Isolation
pub mod Bootstrap
pub mod Network
use webtransportd.Common.{
  ℕ, ◌+◌, ◌-◌, ◌^◌, Bool, true, false, List, [], ◌∷◌, ◌++◌, Option, none, some, ◌==◌, if◌then◌else◌,
  length, take,
}
use webtransportd.Common.Int.{ℤ, pos, negsuc, is_zero, is_negative, minus_one}
use webtransportd.Session.{TransportPort, ChildPort}

-- UINT64_MAX, the id of a stream that is not bound
abbrev pub unbound : ℕ
unbound = 2 ^ 64 - 1

-- The calls of picoquic and h3zero, with the connection and the stream; `give_datagram` is a datagram
-- copied into the buffer of h3zero_provide_datagram_buffer.
pub data LibCall : Type 0 where
  add_to_stream : ℕ → ℕ → List ℕ → Bool → LibCall
  set_datagram_ready : ℕ → ℕ → LibCall
  give_datagram : List ℕ → LibCall

-- The fields of wtd_peer_t that the ports read and write, the bytes that the pipe to the child's
-- stdin has taken, and the library calls so far, the newest first. `dgrams` is the list from
-- dgram_head to dgram_tail.
pub record Link : Type 0 where
  pub cnx : ℕ
  pub control_stream_id : ℕ
  pub data_stream_id : ℕ
  pub stdin_fd : ℤ
  pub dgrams : List (List ℕ)
  pub stdin_pipe : List ℕ
  pub calls : List LibCall

-- What the environment of a port call decides: whether malloc gives memory for a datagram, and what
-- write(2) answers for a number of bytes.
pub record Environment : Type 0 where
  pub memory : Bool
  pub accepts : ℕ → ℤ

unfoldable pub peer_send_stream : List ℕ → Link → ℤ × Link
peer_send_stream bytes p =
    if p.data_stream_id == unbound
    then (minus_one, p)
    else (pos 0, record p { calls = add_to_stream p.cnx p.data_stream_id bytes false ∷ p.calls })

unfoldable pub peer_send_datagram : Environment → List ℕ → Link → ℤ × Link
peer_send_datagram env bytes p =
    if env.memory
    then (
      pos 0,
      record p {
        dgrams = p.dgrams ++ bytes ∷ [];
        calls = set_datagram_ready p.cnx p.control_stream_id ∷ p.calls;
      },
    )
    else (minus_one, p)

unfoldable pub peer_send_fin : Link → ℤ × Link
peer_send_fin p =
    if p.data_stream_id == unbound
    then (minus_one, p)
    else (pos 0, record p { calls = add_to_stream p.cnx p.data_stream_id [] true ∷ p.calls })

-- The bytes of a write(2) that the pipe took.
abbrev pub taken : ℤ → List ℕ → List ℕ
taken (pos n) bytes = take n bytes
taken (negsuc n) bytes = []

unfoldable pub peer_child_write : Environment → List ℕ → Link → ℤ × Link
peer_child_write env bytes p = if is_negative p.stdin_fd then (minus_one, p) else (
  env.accepts (length bytes),
  record p { stdin_pipe = p.stdin_pipe ++ taken (env.accepts (length bytes)) bytes },
)

unfoldable pub peer_child_close : Link → ℤ × Link
peer_child_close p =
    (pos 0, if is_negative p.stdin_fd then p else record p { stdin_fd = minus_one })

-- The ports that peer_create wires the session to.
abbrev pub transport_port : Environment → TransportPort Link
transport_port env = record {
  send_stream = peer_send_stream;
  send_datagram = peer_send_datagram env;
  send_fin = peer_send_fin;
}

abbrev pub child_port : Environment → ChildPort Link
child_port env = record { write = peer_child_write env; close_input = peer_child_close }
