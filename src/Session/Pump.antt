-- ===== src/Session/Pump.antt =====
-- child -> peer: what the pump sends, in which order, and when the FIN goes out.
use webtransportd.Common.{
  ℕ, suc, zero, ◌≤◌, ◌≡◌, ◌≢◌, refl, ◌∙◌, false, List, [], ◌∷◌, ◌++◌, none, some, ◌==◌,
  if◌then◌else◌, length, arith, take_all,
}
use webtransportd.Frame.{flag_reliable}
use webtransportd.WorkQueue.{Ptr, null, Heap, update}
use webtransportd.WorkQueue.Chain.{
  Message, Cells, Chain, Chain-tail, Chain-update, Holds, node, first, has, messages, push-Holds,
}
use webtransportd.Session.{
  TransportPort, Session, send_frame, flush, emit_fin, wtd_session_pump, wtd_session_on_output,
  new_frame,
}

-- The messages that a session has queued for the peer, oldest first.
abbrev pub Queued : Session → Cells → Type 0
Queued s cs = Holds s.nodes s.outbound cs

abbrev pub message : ℕ → List ℕ → Message
message flag bytes = record { flag = flag; payload = bytes }

-- A frame from the child, with the memory for it, is queued behind all others, whatever address
-- malloc chose; the flags of the session stay as they were.
pub on_output-Queued :
    (s : Session) (cs : Cells) (fresh flag : ℕ) (bytes : List ℕ)
    → Queued s cs
    → fresh ≢ null
    → s.nodes fresh ≡ none
    → has fresh cs ≡ false
    → (s' : Session) × (wtd_session_on_output fresh flag bytes s ≡ some s')
      × Queued s' (cs ++ ((fresh, message flag bytes) ∷ []))
      × (s'.output_eof ≡ s.output_eof)
      × (s'.child_input_closed ≡ s.child_input_closed)
      × (s'.stream_fin_sent ≡ s.stream_fin_sent)
      × ((b : Ptr) → (b == fresh) ≡ false → has b cs ≡ false → s'.nodes b ≡ s.nodes b)
unfolding wtd_session_on_output
on_output-Queued s cs fresh flag bytes held ne free out =
    let h = update s.nodes fresh (some (new_frame flag bytes)) in
    let held' : Holds h s.outbound cs = record {
      starts = held.starts;
      ends = held.ends;
      links = Chain-update s.nodes cs fresh (some (new_frame flag bytes)) held.links out;
    } in
    let (q, h', e, held'', same) =
      push-Holds h s.outbound cs fresh (message flag bytes) null held' ne out (ground arith) in
    let live : (fresh == null) ≡ false = ground arith in
    (
      record s { outbound = q; nodes = h' },
      rw (live, e),
      held'',
      refl,
      refl,
      refl,
      λ b apart out'. same b (ground arith) ∙ ground arith,
    )

module _ {W : Type 0} (transport : TransportPort W) where
  -- A message goes to the peer by the port that its reliability flag names.
  abbrev pub send_message : Message → W → W
  send_message m w =
      if m.flag == flag_reliable
      then (transport.send_stream m.payload w).1
      else (transport.send_datagram m.payload w).1

  abbrev pub send_messages : List Message → W → W
  send_messages [] w = w
  send_messages (m ∷ ms) w = send_messages ms (send_message m w)

  pub send_frame-node :
      (m : Message) (next : Ptr) (w : W) → send_frame transport (node m next) w ≡ send_message m w
  unfolding send_frame
  send_frame-node m next w = rw (take_all (length m.payload) m.payload (omega arith))

  flush-Chain :
      (fuel : ℕ) (h : Heap) (cs : Cells) (w : W)
      → Chain h cs
      → length cs ≤ fuel
      → (h' : Heap) × (flush transport fuel (first cs) h w
          ≡ some (h', send_messages (messages cs) w))
        × ((b : Ptr) → h' b ≡ (if has b cs then none else h b))
  unfolding flush
  flush-Chain zero h [] w k f = (h, refl, λ b. refl)
  flush-Chain (suc fuel) h [] w k f = (h, refl, λ b. refl)
  flush-Chain zero h ((p, m) ∷ cs) w k f = absurd (omega arith)
  flush-Chain (suc fuel) h ((p, m) ∷ cs) w (ne, at, apart, rest) f =
      let (h', e, same) =
        flush-Chain fuel (update h p none) cs (send_message m w)
          (Chain-tail h p m cs (ne, at, apart, rest)) (omega arith) in
      let live : (p == null) ≡ false = ground arith in
      (h', rw (live, at) (rw (send_frame-node m (first cs) w) e), λ b. same b ∙ ground arith)

  -- A pump sends every queued message once, oldest first, each by the port that its flag names,
  -- frees the nodes and leaves the queue empty; only then does it look at the FIN. It needs as many
  -- rounds as there are messages.
  pub pump_lem :
      (fuel : ℕ) (s : Session) (cs : Cells) (w : W)
      → Queued s cs
      → length cs ≤ fuel
      → (s' : Session) × (wtd_session_pump transport fuel s w
          ≡ some (emit_fin transport s' (send_messages (messages cs) w)))
        × Queued s' []
        × ((b : Ptr) → s'.nodes b ≡ (if has b cs then none else s.nodes b))
        × (s'.output_eof ≡ s.output_eof)
        × (s'.child_input_closed ≡ s.child_input_closed)
        × (s'.stream_fin_sent ≡ s.stream_fin_sent)
  unfolding wtd_session_pump
  pump_lem fuel s cs w held f =
      let (h', e, same) = flush-Chain fuel s.nodes cs w held.links f in
      (
        record s { outbound = record { head = null; tail = null }; nodes = h' },
        rw (held.starts, e),
        record { starts = refl; ends = refl; links = tt },
        same,
        refl,
        refl,
        refl,
      )
