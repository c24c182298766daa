-- ===== src/Prototypes.antt =====
-- prototypes/http3_server_with_child.c: the callback that frames what a client sends for one child,
-- behind a buffer with the frame that the child's stdin has not taken yet.
-- write(2) on stdin takes at most `k` bytes (`some k`) or fails (`none`). g_state is set.
pub mod Pending
pub mod Dropping
pub mod Client
pub mod Handshake
pub mod Minimal
use webtransportd.Common.{
  ℕ, zero, suc, ◌+◌, ◌-◌, ◌*◌, ◌%◌, ◌^◌, min, Bool, true, false, ◌||◌, List, [], ◌∷◌, ◌++◌, Option,
  none, some, ◌==◌, leb, ltb, if◌then◌else◌, length, take,
}
use webtransportd.Common.Int.{ℤ, is_negative}
use webtransportd.Common.Memory.{◌>>=◌, load_all, store_all}
use webtransportd.Frame.{Status, ok, fail, flag_reliable, wtd_frame_encode}

-- server_state_t; of `child` only stdin_fd.
pub record ServerState : Type 0 where
  pub stdin_fd : ℤ
  pub pending_buf : List ℕ
  pub pending_len : ℕ
  pub pending_off : ℕ

-- The state, what stdin has taken, and what picoquic_add_to_stream got for the client.
pub record Relay : Type 0 where
  pub state : ServerState
  pub pipe : List ℕ
  pub echoed : List ℕ

-- The part under `if (written > 0)`.
unfoldable pub advance : ℕ → ServerState → ServerState
advance written s =
    let pending_off = s.pending_off + written in
    if leb s.pending_len pending_off
    then record s { pending_len = 0; pending_off = 0 }
    else record s { pending_off = pending_off }

-- write(2) and what follows it.
unfoldable pub write_pending : Option ℕ → List ℕ → ServerState → List ℕ → ServerState × List ℕ
unfolding advance
write_pending none bytes s pipe = (s, pipe)
write_pending (some k) bytes s pipe =
    let written = min k (length bytes) in
    if written == 0 then (s, pipe) else (advance written s, pipe ++ take written bytes)

unfoldable pub flush_pending : Option ℕ → ServerState → List ℕ → Option (ServerState × List ℕ)
unfolding write_pending load_all
flush_pending answer s pipe =
    let go_on = (do
      bytes ←
          load_all s.pending_buf s.pending_off ((s.pending_len + 2 ^ 64 - s.pending_off) % 2 ^ 64)
      some (write_pending answer bytes s pipe)) in
    if s.pending_len == 0 || is_negative s.stdin_fd then some (s, pipe) else go_on

-- The frame goes into the buffer if that is empty.
unfoldable pub hold_frame : List ℕ → ℕ → ServerState → Option ServerState
unfolding load_all store_all
hold_frame frame_buf out_len s =
    let held = (do
      frame ← load_all frame_buf 0 out_len
      pending_buf ← store_all s.pending_buf 0 frame
      some (record s { pending_buf = pending_buf; pending_len = out_len; pending_off = 0 })) in
    if s.pending_len == 0 then held else some s

-- What follows wtd_frame_encode.
unfoldable pub pass_frame : Option ℕ → List ℕ → Relay → Status ℕ × List ℕ → Option Relay
unfolding hold_frame flush_pending
pass_frame answer bytes w (fail e, frame_buf) = some w
pass_frame answer bytes w (ok out_len, frame_buf) = do
  s ← hold_frame frame_buf out_len w.state
  r ← flush_pending answer s w.pipe
  some (record { state = r.0; pipe = r.1; echoed = w.echoed ++ bytes })

-- sizeof(frame_buf)
abbrev pub frame_buf_size : ℕ
frame_buf_size = 1 + 4 + 4096

-- stream_callback; `stack` is what frame_buf holds at first, `is_data` says that the event is
-- stream_data or stream_fin.
unfoldable pub stream_callback : List ℕ → Option ℕ → Bool → List ℕ → Relay → Option Relay
unfolding pass_frame
stream_callback stack answer is_data bytes w =
    let handled =
      wtd_frame_encode flag_reliable bytes (length bytes) stack frame_buf_size
      >>= pass_frame answer bytes w in
    if is_data
    then (if length bytes == 0 || is_negative w.state.stdin_fd
        then some w
        else if ltb (frame_buf_size - 1 - 4) (length bytes)
        then some w
        else handled)
    else some w
