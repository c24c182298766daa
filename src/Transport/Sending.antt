-- ===== src/Transport/Sending.antt =====
-- What becomes of the session's messages in the ports of a peer.
use webtransportd.Common.{
  ℕ, ◌+◌, ◌%◌, ◌^◌, ◌≡◌, ◌≤◌, ◌<◌, refl, ap, ◌∙◌, true, false, List, [], ◌∷◌, ◌++◌, Option, some,
  ◌==◌, length, take, arith, append_assoc, ltb, take_all, le→ltb,
}
use webtransportd.Common.Int.{pos, is_negative}
use webtransportd.Common.Memory.{◌>>=◌}
use webtransportd.Frame.{max_payload, flag_reliable}
use webtransportd.Frame.Encode.{wire}
use webtransportd.WorkQueue.Chain.{Message, Cells, messages}
use webtransportd.Session.{Session, emit_fin, wtd_session_pump, wtd_session_deliver_stream}
use webtransportd.Session.Deliver.{IsMalloc, is_some, deliver_to_child_lem}
use webtransportd.Session.Pump.{Queued, send_messages, pump_lem}
use webtransportd.Transport.{
  Link, Environment, unbound, peer_send_stream, peer_send_fin, peer_child_write, transport_port,
  child_port,
}

abbrev pub AllReliable : List Message → Type 0
AllReliable [] = Unit {0}
AllReliable (m ∷ ms) = (m.flag ≡ flag_reliable) × AllReliable ms

module _ (env : Environment) where
  send_messages-unbound :
      (ms : List Message) (l : Link)
      → AllReliable ms
      → l.data_stream_id ≡ unbound
      → send_messages (transport_port env) ms l ≡ l
  unfolding peer_send_stream
  send_messages-unbound [] l r u = refl
  send_messages-unbound (m ∷ ms) l (r, rs) u =
      let free : (l.data_stream_id == unbound) ≡ true = ground arith in
      let reliable : (m.flag == flag_reliable) ≡ true = ground arith in
      rw (reliable, free) (send_messages-unbound ms l rs u)

  emit_fin-unbound :
      (s : Session) (l : Link)
      → l.data_stream_id ≡ unbound
      → emit_fin (transport_port env) s l ≡ (s, l)
  unfolding emit_fin peer_send_fin
  emit_fin-unbound s l u = ground arith

  -- Reliable frames that the child writes before the peer has opened a data stream are lost: the
  -- pump takes them off the queue and frees them though the port refuses each, and makes no library
  -- call. The FIN is not lost, since it is only noted as sent when the port accepts it.
  pub pump-unbound :
      (fuel : ℕ) (s : Session) (cs : Cells) (l : Link)
      → Queued s cs
      → length cs ≤ fuel
      → AllReliable (messages cs)
      → l.data_stream_id ≡ unbound
      → (s' : Session) × (wtd_session_pump (transport_port env) fuel s l ≡ some (s', l))
        × Queued s' []
        × (s'.output_eof ≡ s.output_eof)
        × (s'.stream_fin_sent ≡ s.stream_fin_sent)
  pump-unbound fuel s cs l held f r u =
      let (s', e, empty, _, eof, _, fin) = pump_lem (transport_port env) fuel s cs l held f in
      (
        s',
        e ∙ ap some (rw (send_messages-unbound (messages cs) l r u) (emit_fin-unbound s' l u)),
        empty,
        eof,
        fin,
      )

  deliver_stream-writes :
      (malloc : ℕ → Option (List ℕ)) (bytes : List ℕ) (s : Session) (l : Link) (n : ℕ)
      → IsMalloc malloc
      → is_some (malloc ((length bytes + 9) % 2 ^ 64)) ≡ true
      → s.child_input_closed ≡ false
      → is_negative l.stdin_fd ≡ false
      → 0 < length bytes
      → length bytes ≤ max_payload
      → env.accepts (length (wire flag_reliable bytes)) ≡ pos n
      → wtd_session_deliver_stream (child_port env) malloc bytes s l
        ≡ some (record l { stdin_pipe = l.stdin_pipe ++ take n (wire flag_reliable bytes) })
  unfolding wtd_session_deliver_stream peer_child_write
  deliver_stream-writes malloc bytes s l n hm got live fd some_bytes within takes =
      let body : ltb 0 (length bytes) ≡ true = ground arith in
      deliver_to_child_lem (child_port env) malloc flag_reliable bytes s l hm (omega arith)
      ∙ rw (live, body, got, le→ltb max_payload (length bytes) within, fd, takes)

-- A full pipe breaks the framing: where the child's stdin takes only the first `n` bytes of a frame,
-- the rest of it is never written, and the next message's frame follows directly behind the cut.
pub short_write_cuts :
    (full free : Environment) (malloc : ℕ → Option (List ℕ)) (one two : List ℕ) (s : Session)
    (l : Link) (n : ℕ)
    → IsMalloc malloc
    → is_some (malloc ((length one + 9) % 2 ^ 64)) ≡ true
    → is_some (malloc ((length two + 9) % 2 ^ 64)) ≡ true
    → s.child_input_closed ≡ false
    → is_negative l.stdin_fd ≡ false
    → 0 < length one
    → 0 < length two
    → length one ≤ max_payload
    → length two ≤ max_payload
    → full.accepts (length (wire flag_reliable one)) ≡ pos n
    → n < length (wire flag_reliable one)
    → free.accepts (length (wire flag_reliable two)) ≡ pos (length (wire flag_reliable two))
    → (l' : Link) × ((wtd_session_deliver_stream (child_port full) malloc one s l >>= λ k.
          wtd_session_deliver_stream (child_port free) malloc two s k)
        ≡ some l')
      × (l'.stdin_pipe
          ≡ l.stdin_pipe ++ (take n (wire flag_reliable one) ++ wire flag_reliable two))
short_write_cuts full free malloc one two s l n hm g1 g2 live fd b1 b2 w1 w2 t1 cut t2 =
    let first = deliver_stream-writes full malloc one s l n hm g1 live fd b1 w1 t1 in
    let cut_pipe = l.stdin_pipe ++ take n (wire flag_reliable one) in
    let second =
      deliver_stream-writes free malloc two s (record l { stdin_pipe = cut_pipe })
        (length (wire flag_reliable two)) hm g2 live fd b2 w2 t2 in
    (
      record l {
        stdin_pipe = cut_pipe ++ take (length (wire flag_reliable two)) (wire flag_reliable two);
      },
      rw first second,
      rw (take_all (length (wire flag_reliable two)) (wire flag_reliable two) (omega arith))
          (append_assoc l.stdin_pipe (take n (wire flag_reliable one)) (wire flag_reliable two)),
    )
