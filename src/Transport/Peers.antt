-- ===== src/Transport/Peers.antt =====
-- The peers of the server: peer_create and peer_remove.
-- A peer is named by its address. What malloc, wtd_child_spawn, wtd_child_output_start and
-- h3zero_declare_stream_prefix answer is an argument.
use webtransportd.Common.{ℕ, Bool, true, List, [], ◌∷◌, Option, none, some, ◌==◌, if◌then◌else◌}
use webtransportd.Common.Int.{ℤ}
use webtransportd.WorkQueue.{Ptr}
use webtransportd.Session.{Session, wtd_session_init}
use webtransportd.Transport.{Link, unbound}

-- The steps that a peer's life takes outside the daemon's own memory, and malloc and free of its memory.
pub data LifeCall : Type 0 where
  allocated spawned started_reader joined_reader destroyed_session terminated freed : Ptr → LifeCall

-- wtd_peer_t
pub record Peer : Type 0 where
  pub address : Ptr
  pub session : Session
  pub link : Link
  pub reader_started : Bool

-- server_ctx_t as far as the callbacks change it, with the life calls so far, the newest first.
pub record Server : Type 0 where
  pub peers : List Peer
  pub life : List LifeCall

-- The answers that peer_create meets: malloc's address or null, the child's stdin descriptor or a
-- failed spawn, and whether the reader thread starts.
pub record Creation : Type 0 where
  pub memory : Option Ptr
  pub spawn : Option ℤ
  pub reader : Bool

-- A peer with its child running.
abbrev pub new_peer : Ptr → ℤ → ℕ → Peer
new_peer p stdin_fd cnx = record {
  address = p;
  session = wtd_session_init (λ a. none);
  link = record {
    cnx = cnx;
    control_stream_id = unbound;
    data_stream_id = unbound;
    stdin_fd = stdin_fd;
    dgrams = [];
    stdin_pipe = [];
    calls = [];
  };
  reader_started = true;
}

unfoldable pub peer_create : Creation → ℕ → Server → Option Peer × Server
peer_create c cnx sctx = elim c.memory [
  | none ↦ (none, sctx)
  | some p ↦ elim c.spawn [
    | none ↦ (none, record sctx { life = freed p ∷ allocated p ∷ sctx.life })
    | some stdin_fd ↦
        if c.reader
        then (
          some (new_peer p stdin_fd cnx),
          record sctx {
            peers = new_peer p stdin_fd cnx ∷ sctx.peers;
            life = started_reader p ∷ spawned p ∷ allocated p ∷ sctx.life;
          },
        )
        else (
          none,
          record sctx {
            life =
                freed p ∷ destroyed_session p ∷ terminated p ∷ spawned p ∷ allocated p ∷ sctx.life;
          },
        )
  ]
]

-- The loop that takes `p` out of the list; a peer that is not in the list changes nothing.
unfoldable pub unlink : Ptr → List Peer → List Peer
unlink p [] = []
unlink p (q ∷ rest) = let rest' = unlink p rest in if q.address == p then rest else q ∷ rest'

-- The joins and frees of peer_remove, in its order; the session's and the datagrams' memory goes
-- with the peer.
unfoldable pub peer_remove : Peer → Server → Server
unfolding unlink
peer_remove p sctx =
    let joined = if p.reader_started then joined_reader p.address ∷ sctx.life else sctx.life in
    record sctx {
      peers = unlink p.address sctx.peers;
      life = freed p.address ∷ terminated p.address ∷ destroyed_session p.address ∷ joined;
    }

-- A change of one peer in place.
unfoldable pub replace : Peer → List Peer → List Peer
replace p [] = []
replace p (q ∷ rest) =
    let rest' = replace p rest in if q.address == p.address then p ∷ rest else q ∷ rest'

unfoldable pub find_peer : Ptr → List Peer → Option Peer
find_peer p [] = none
find_peer p (q ∷ rest) = let later = find_peer p rest in if q.address == p then some q else later
