-- ===== src/Daemon/PeerEcho.antt =====
-- What a peer sends to an echo child comes back to it.
use webtransportd.Common.{
  ℕ, ◌+◌, ◌≡◌, ◌<◌, refl, sym, ap, ◌∙◌, true, false, List, [], ◌∷◌, ◌++◌, Option, some, length, inl,
  inr, Option-cases, Bool-cases, ◌==◌, arith, All, append_assoc, append-nil, le→ltb, lt→ltb, ◌%◌,
  ◌^◌,
}
use webtransportd.Common.Int.{is_zero}
use webtransportd.Frame.{max_payload, flag_reliable}
use webtransportd.Frame.Encode.{wire}
use webtransportd.WorkQueue.{Ptr}
use webtransportd.WorkQueue.Chain.{Message, Cells, messages}
use webtransportd.Session.{
  ChildPort, TransportPort, Session, deliver_to_child, wtd_session_deliver_stream,
  wtd_session_deliver_datagram, wtd_session_on_output, wtd_session_on_output_eof, wtd_session_pump,
}
use webtransportd.Session.Deliver.{IsMalloc, is_some, deliver_to_child_lem}
use webtransportd.Session.Pump.{Queued, send_messages}
use webtransportd.Session.Order.{output_all, Fresh, output_all-pump}
use webtransportd.ChildOutput.{Answer, ended, fire_wake, deliver, finish, reader_main}
use webtransportd.ChildOutput.Loop.{IsSendable, wires, deliver_all}
use webtransportd.ChildOutput.Delivery.{reads, NeverFails}
use webtransportd.Examples.{Output, exits, echo_main}
use webtransportd.Examples.Drain.{IsReady}
use webtransportd.Examples.Echo.{echo_main-reader_main}
use webtransportd.Daemon.{deliver_message, deliver_each, Hearing, hear, hear_eof, session_sink}

abbrev pub HasBytes : Message → Type 0
HasBytes m = 0 < length m.payload

module _ {W : Type 0} (child : ChildPort W) (stdin : W → List ℕ)
    (malloc : ℕ → Option (List ℕ)) where
  -- The child's stdin takes every write whole, and no request for memory is refused.
  pub record IsOpen : Type 0 where
    pub takes : (bytes : List ℕ) (w : W) → stdin (child.write bytes w).1 ≡ stdin w ++ bytes
    pub sized : IsMalloc malloc
    pub memory : (n : ℕ) → is_some (malloc n) ≡ true

  deliver_frame :
      (flag : ℕ) (m : Message) (s : Session) (w : W)
      → IsOpen
      → s.child_input_closed ≡ false
      → IsSendable m
      → HasBytes m
      → flag < 2
      → deliver_to_child child malloc flag m.payload s w
        ≡ some (child.write (wire flag m.payload) w).1
  deliver_frame flag m s w o unclosed good filled low =
      deliver_to_child_lem child malloc flag m.payload s w o.sized low
      ∙ rw
          (
            unclosed,
            lt→ltb 0 (length m.payload) filled,
            o.memory ((length m.payload + 9) % 2 ^ 64),
            le→ltb max_payload (length m.payload) good.within,
          )
          refl

  deliver_one :
      (m : Message) (s : Session) (w : W)
      → IsOpen
      → s.child_input_closed ≡ false
      → IsSendable m
      → HasBytes m
      → deliver_message child malloc m s w ≡ some (child.write (wire m.flag m.payload) w).1
  unfolding deliver_message wtd_session_deliver_stream wtd_session_deliver_datagram
  deliver_one m s w o unclosed good filled = elim (Bool-cases (m.flag == flag_reliable)) [
    | inl stream ↦
        let is : 0 ≡ m.flag = ground (arith, stream) in
        rw stream (
          deliver_frame 0 m s w o unclosed good filled (omega arith)
          ∙ ap (λ (f : ℕ). some (child.write (wire f m.payload) w).1) is)
    | inr datagram ↦
        let is : 1 ≡ m.flag = ground (arith, datagram, good.known_flag) in
        rw datagram (
          deliver_frame 1 m s w o unclosed good filled (omega arith)
          ∙ ap (λ (f : ℕ). some (child.write (wire f m.payload) w).1) is)
  ]

  deliver_each-wires :
      (ms : List Message) (s : Session) (w : W)
      → IsOpen
      → s.child_input_closed ≡ false
      → All IsSendable ms
      → All HasBytes ms
      → (w' : W) × (deliver_each child malloc ms s w ≡ some w') × (stdin w' ≡ stdin w ++ wires ms)
  unfolding deliver_each
  deliver_each-wires [] s w o unclosed good filled = (w, refl, sym (append-nil (stdin w)))
  deliver_each-wires (m ∷ ms) s w o unclosed good filled =
      let w1 = (child.write (wire m.flag m.payload) w).1 in
      let (w', e, all) = deliver_each-wires ms s w1 o unclosed good.1 filled.1 in
      (
        w',
        rw (deliver_one m s w o unclosed good.0 filled.0) e,
        all
            ∙ ap (◌++ wires ms) (o.takes (wire m.flag m.payload) w)
            ∙ append_assoc (stdin w) (wire m.flag m.payload) (wires ms),
      )

abbrev pub addresses : Cells → List Ptr
addresses [] = []
addresses ((a, m) ∷ new) = a ∷ addresses new

-- The reader thread's deliveries are the calls of wtd_session_on_output, one for each frame.
deliver_all-session :
    (new : Cells) (s s' : Session)
    → output_all new s ≡ some s'
    → deliver_all session_sink (messages new) (some s, addresses new) ≡ (some s', [])
unfolding output_all hear deliver fire_wake
deliver_all-session [] s s' e = ap (λ (r : Option Session). (r, [])) e
deliver_all-session ((a, m) ∷ new) s s' e =
    elim (Option-cases (wtd_session_on_output a m.flag m.payload s)) [
      | inl failed ↦ absurd (cc (rw failed at e))
      | inr (s1, one) ↦
          ap (λ (r : Option Session). deliver_all session_sink (messages new) (r, addresses new))
            one
          ∙ deliver_all-session new s1 s' (rw one at e)
    ]

-- The whole way of what a peer sends, where the child is echo.c. Let the messages be non-empty and
-- such that the encoder takes them, the child's input open, its stdin empty and taking every write,
-- no memory refused, no read(2) or write(2) failing and enough of them answered, echo.c's stdout and
-- the session's queue empty, the addresses that malloc gives for the queue fresh, and the FIN not sent
-- yet and accepted when it is. Then the frames that the session writes for the messages make echo.c
-- end with code 0, the reader thread hands what echo.c wrote to the session and ends, and one pump
-- sends the peer its own messages, each once, in order and on the channel it came on, and then the FIN.
pub peer_echo_lem :
    {W V : Type 0} (child : ChildPort W) (stdin : W → List ℕ) (malloc : ℕ → Option (List ℕ))
    (transport : TransportPort V) (new : Cells) (served pieces : List Answer) (o : Output)
    (s : Session) (w : W) (v : V)
    → IsOpen child stdin malloc
    → All IsSendable (messages new)
    → All HasBytes (messages new)
    → stdin w ≡ []
    → s.child_input_closed ≡ false
    → NeverFails served
    → length (wires (messages new)) < reads served
    → IsReady (length (wires (messages new))) o
    → o.written ≡ []
    → NeverFails pieces
    → length (wires (messages new)) < reads pieces
    → Queued s []
    → Fresh s.nodes [] new
    → s.stream_fin_sent ≡ false
    → is_zero (transport.send_fin (send_messages transport (messages new) v)).0 ≡ true
    → (w' : W) × (o' : Output) × (heard : Session) × (s' : Session) × (deliver_each child malloc
          (messages new)
          s
          w
        ≡ some w')
      × (echo_main true served (stdin w') o ≡ some (exits 0 o'))
      × (reader_main session_sink true pieces o'.written (some s, addresses new)
          ≡ some (ended (some heard, [])))
      × (wtd_session_pump transport (length new) heard v
          ≡ some (s', (transport.send_fin (send_messages transport (messages new) v)).1))
unfolding hear_eof finish fire_wake
peer_echo_lem child stdin malloc transport new served pieces o s w v up good filled empty unclosed
      nf more ready blank nf' more' held fresh unsent accepted =
    let (w', given, frames) =
      deliver_each-wires child stdin malloc (messages new) s w up unclosed good filled in
    let (o', echoed, read) =
      echo_main-reader_main session_sink served pieces (messages new) o (some s, addresses new) good
        nf more ready blank nf' more' in
    let (s1, s2, out, pumped, _, _) =
      output_all-pump transport new [] s v (length new) held fresh (omega arith) unsent accepted in
    (
      w',
      o',
      wtd_session_on_output_eof s1,
      s2,
      given,
      rw (frames ∙ ap (◌++ wires (messages new)) empty) echoed,
      read
          ∙ ap (λ (h : Hearing). some (ended (finish session_sink h)))
              (deliver_all-session new s s1 out),
      pumped,
    )
