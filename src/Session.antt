-- ===== src/Session.antt =====
-- core/session.h and core/session.c: the byte-routing policy of one WebTransport session, and
-- ports/transport_port.h and ports/child_port.h, through which it reaches everything else.
-- `W` is the state behind the ports; a port function takes the bytes and `W` and returns what the C
-- function returns with the new `W`. malloc is an argument of the functions that call it: for the
-- transient frame buffer a function from the size to the fresh buffer, for a queue node the address.
-- wtd_log writes to stderr only and has no place in the state.
pub mod Deliver
pub mod Pump
pub mod Run
pub mod Order
pub mod Interleaving
use webtransportd.Common.{
  ℕ, suc, zero, ◌+◌, ◌%◌, ◌^◌, ◌≡◌, Bool, true, false, ◌&&◌, ◌||◌, not, List, [], ◌∷◌, Option, none,
  some, ◌==◌, if◌then◌else◌, length, take,
}
use webtransportd.Common.Int.{ℤ, is_zero}
use webtransportd.Common.Memory.{◌>>=◌, load_all}
use webtransportd.Frame.{Status, ok, fail, wtd_frame_encode, flag_reliable, flag_unreliable}
use webtransportd.WorkQueue.{
  Ptr, null, OutboundFrame, Heap, update, WorkQueue, wtd_work_queue_init, wtd_work_queue_push,
  wtd_work_queue_drain, wtd_work_queue_destroy,
}

-- wtd_transport_port_t
pub record TransportPort (W : Type 0) : Type 0 where
  pub send_stream : List ℕ → W → ℤ × W
  pub send_datagram : List ℕ → W → ℤ × W
  pub send_fin : W → ℤ × W

-- wtd_child_port_t
pub record ChildPort (W : Type 0) : Type 0 where
  pub write : List ℕ → W → ℤ × W
  pub close_input : W → ℤ × W

-- wtd_session_t less its ports, which are parameters below; `nodes` holds the queue's nodes.
pub record Session : Type 0 where
  pub outbound : WorkQueue
  pub nodes : Heap
  pub output_eof : Bool
  pub child_input_closed : Bool
  pub stream_fin_sent : Bool

unfoldable pub wtd_session_init : Heap → Session
unfolding wtd_work_queue_init
wtd_session_init nodes = record {
  outbound = wtd_work_queue_init;
  nodes = nodes;
  output_eof = false;
  child_input_closed = false;
  stream_fin_sent = false;
}

-- The node that wtd_session_on_output fills.
abbrev pub new_frame : ℕ → List ℕ → OutboundFrame
new_frame flag bytes = record {
  next = null;
  flag = flag;
  payload_len = length bytes;
  payload = bytes;
}

-- wtd_session_on_output, with the address that malloc returned (null if it failed)
unfoldable pub wtd_session_on_output : Ptr → ℕ → List ℕ → Session → Option Session
wtd_session_on_output fresh flag bytes s = if fresh == null then some s else (do
  (q, h) ← wtd_work_queue_push s.outbound fresh (update s.nodes fresh (some (new_frame flag bytes)))
  some (record s { outbound = q; nodes = h }))

unfoldable pub wtd_session_on_output_eof : Session → Session
wtd_session_on_output_eof s = record s { output_eof = true }

unfoldable pub wtd_session_destroy : ℕ → Session → Option Session
wtd_session_destroy fuel s = do
  (q, h) ← wtd_work_queue_destroy fuel s.outbound s.nodes
  some (record s { outbound = q; nodes = h })

module _ {W : Type 0} (child : ChildPort W) where
  -- What deliver_to_child does with the status of wtd_frame_encode and the buffer behind it.
  write_encoded : Status ℕ × List ℕ → W → Option W
  write_encoded (ok frame_len, frame) w = do
    bytes ← load_all frame 0 frame_len
    some (child.write bytes w).1
  write_encoded (fail e, frame) w = some w

  unfoldable pub deliver_to_child : (ℕ → Option (List ℕ)) → ℕ → List ℕ → Session → W → Option W
  unfolding write_encoded
  deliver_to_child malloc flag bytes s w =
      let len = length bytes in
      let cap = (len + 9) % 2 ^ 64 in
      if s.child_input_closed || len == 0 then some w else elim (malloc cap) [
        | none ↦ some w
        | some frame ↦ (do
          result ← wtd_frame_encode flag bytes len frame cap
          write_encoded result w)
      ]

  unfoldable pub wtd_session_deliver_stream :
      (ℕ → Option (List ℕ)) → List ℕ → Session → W → Option W
  wtd_session_deliver_stream malloc = deliver_to_child malloc flag_reliable

  unfoldable pub wtd_session_deliver_datagram :
      (ℕ → Option (List ℕ)) → List ℕ → Session → W → Option W
  wtd_session_deliver_datagram malloc = deliver_to_child malloc flag_unreliable

  unfoldable pub wtd_session_deliver_fin : Session → W → Session × W
  wtd_session_deliver_fin s w =
      if s.child_input_closed
      then (s, w)
      else (record s { child_input_closed = true }, (child.close_input w).1)

module _ {W : Type 0} (transport : TransportPort W) where
  -- One round of the loop of wtd_session_pump; the port's answer is not looked at.
  unfoldable pub send_frame : OutboundFrame → W → W
  send_frame f w =
      if f.flag == flag_reliable
      then (transport.send_stream (take f.payload_len f.payload) w).1
      else (transport.send_datagram (take f.payload_len f.payload) w).1

  -- The loop of wtd_session_pump over the detached list, on fuel.
  unfoldable pub flush : ℕ → Ptr → Heap → W → Option (Heap × W)
  unfolding send_frame
  flush zero frame h w = if frame == null then some (h, w) else none
  flush (suc fuel) frame h w = if frame == null then some (h, w) else elim (h frame) [
    | none ↦ none
    | some f ↦ flush fuel f.next (update h frame none) (send_frame f w)
  ]

  -- The end of wtd_session_pump: the FIN.
  unfoldable pub emit_fin : Session → W → Session × W
  emit_fin s w =
      if s.output_eof && not s.stream_fin_sent
      then (let (rc, w') = transport.send_fin w in
          if is_zero rc then (record s { stream_fin_sent = true }, w') else (s, w'))
      else (s, w)

  unfoldable pub wtd_session_pump : ℕ → Session → W → Option (Session × W)
  unfolding flush emit_fin wtd_work_queue_drain
  wtd_session_pump fuel s w = do
    let (frame, q) = wtd_work_queue_drain s.outbound
    (h, w') ← flush fuel frame s.nodes w
    some (emit_fin (record s { outbound = q; nodes = h }) w')
