-- ===== src/Session/Order.antt =====
-- The order in which the peer sees what the child wrote: bursts of frames, and the FIN.
use mathlib.Core.List.{append_assoc, append-nil}
use webtransportd.Common.{
  ℕ, ◌≤◌, ◌≡◌, ◌≢◌, refl, ap, ◌∙◌, true, false, List, [], ◌∷◌, ◌++◌, Option, none, some, ◌==◌,
  length, arith,
}
use webtransportd.Common.Int.{is_zero}
use webtransportd.Common.Memory.{◌>>=◌}
use webtransportd.WorkQueue.{Ptr, null, Heap}
use webtransportd.WorkQueue.Chain.{Message, Cells, has, has-snoc, messages}
use webtransportd.Session.{
  TransportPort, Session, emit_fin, wtd_session_pump, wtd_session_on_output,
  wtd_session_on_output_eof,
}
use webtransportd.Session.Pump.{
  Queued, message, send_message, send_messages, pump_lem, on_output-Queued,
}

-- The reader thread hands over one frame after another, at the addresses that malloc returned.
unfoldable pub output_all : Cells → Session → Option Session
output_all [] s = some s
output_all ((a, m) ∷ ms) s = do s' ← wtd_session_on_output a m.flag m.payload s; output_all ms s'

-- Each new address is a live allocation's: not null, not in use, and no two are the same.
abbrev pub Fresh : Heap → Cells → Cells → Type 0
Fresh h old [] = Unit {0}
Fresh h old ((a, m) ∷ new) =
    (a ≢ null) × (h a ≡ none) × (has a old ≡ false) × (has a new ≡ false) × Fresh h old new

Fresh-step :
    (h h' : Heap) (old new : Cells) (a : Ptr) (m : Message)
    → Fresh h old new
    → has a new ≡ false
    → ((b : Ptr) → (b == a) ≡ false → has b old ≡ false → h' b ≡ h b)
    → Fresh h' (old ++ ((a, m) ∷ [])) new
Fresh-step h h' old [] a m f out same = tt
Fresh-step h h' old ((b, n) ∷ new) a m (ne, free, apart, alone, rest) out same = (
  ne,
  same b (ground arith) apart ∙ free,
  ground (arith, has-snoc b m a old),
  alone,
  Fresh-step h h' old new a m rest (ground arith) same,
)

pub output_all-Queued :
    (new cs : Cells) (s : Session)
    → Queued s cs
    → Fresh s.nodes cs new
    → (s' : Session) × (output_all new s ≡ some s')
      × Queued s' (cs ++ new)
      × (s'.output_eof ≡ s.output_eof)
      × (s'.stream_fin_sent ≡ s.stream_fin_sent)
unfolding output_all
output_all-Queued [] cs s held f = (s, refl, rw append-nil held, refl, refl)
output_all-Queued ((a, m) ∷ new) cs s held (ne, free, apart, alone, rest) =
    let (s1, e, held1, eof, _, fin, same) =
      on_output-Queued s cs a m.flag m.payload held ne free apart in
    let (s2, e2, held2, eof2, fin2) =
      output_all-Queued new (cs ++ ((a, m) ∷ [])) s1 held1
        (Fresh-step s.nodes s1.nodes cs new a m rest alone same) in
    (s2, rw e e2, rw append_assoc at held2, eof2 ∙ eof, fin2 ∙ fin)

pub messages-append : (xs ys : Cells) → messages (xs ++ ys) ≡ messages xs ++ messages ys
messages-append [] ys = refl
messages-append ((a, m) ∷ xs) ys = ap (◌∷◌ m) (messages-append xs ys)

module _ {W : Type 0} (transport : TransportPort W) where
  emit_fin-accepted :
      (s : Session) (w : W)
      → s.output_eof ≡ true
      → s.stream_fin_sent ≡ false
      → is_zero (transport.send_fin w).0 ≡ true
      → emit_fin transport s w ≡ (record s { stream_fin_sent = true }, (transport.send_fin w).1)
  unfolding emit_fin
  emit_fin-accepted s w eof unsent ok = rw (eof, unsent, ok)

  emit_fin-done : (s : Session) (w : W) → s.stream_fin_sent ≡ true → emit_fin transport s w ≡ (s, w)
  unfolding emit_fin
  emit_fin-done s w sent = ground arith

  -- What the child wrote reaches the peer in the order in which it was written, each frame once:
  -- after a burst of frames and the child's EOF, one pump sends the frames that were queued before,
  -- then those of the burst, and then, if the transport accepts it, the FIN.
  pub output_all-pump :
      (new cs : Cells) (s : Session) (w : W) (fuel : ℕ)
      → Queued s cs
      → Fresh s.nodes cs new
      → length (cs ++ new) ≤ fuel
      → s.stream_fin_sent ≡ false
      → is_zero (transport.send_fin (send_messages transport (messages cs ++ messages new) w)).0
        ≡ true
      → (s1 : Session) × (s2 : Session) × (output_all new s ≡ some s1)
        × (wtd_session_pump transport fuel (wtd_session_on_output_eof s1) w
            ≡ some (
              s2,
              (transport.send_fin (send_messages transport (messages cs ++ messages new) w)).1,
            ))
        × Queued s2 []
        × (s2.stream_fin_sent ≡ true)
  unfolding wtd_session_on_output_eof
  output_all-pump new cs s w fuel held f fits unsent ok =
      let (s1, e, held1, eof, fin) = output_all-Queued new cs s held f in
      let (s2, e2, held2, _, eof2, _, fin2) =
        pump_lem transport fuel (record s1 { output_eof = true }) (cs ++ new) w held1 fits in
      (
        s1,
        record s2 { stream_fin_sent = true },
        e,
        e2
            ∙ ap some (
                rw (messages-append cs new) (emit_fin-accepted s2 _ eof2 (fin2 ∙ fin ∙ unsent) ok)),
        held2,
        refl,
      )

  -- The test for the FIN does not look at the queue. If the child's last frame and its EOF come in
  -- while a pump stands between its loop and that test, the pump sends the FIN first, and the next
  -- pump sends the frame behind the FIN.
  pub fin_overtakes :
      (s : Session) (w : W) (fresh flag : ℕ) (bytes : List ℕ)
      → Queued s []
      → fresh ≢ null
      → s.nodes fresh ≡ none
      → s.stream_fin_sent ≡ false
      → is_zero (transport.send_fin w).0 ≡ true
      → (s1 : Session) × (s2 : Session) × (s3 : Session) × (wtd_session_on_output fresh flag bytes s
          ≡ some s1)
        × (emit_fin transport (wtd_session_on_output_eof s1) w ≡ (s2, (transport.send_fin w).1))
        × (wtd_session_pump transport 1 s2 (transport.send_fin w).1
            ≡ some (s3, send_message transport (message flag bytes) (transport.send_fin w).1))
  unfolding wtd_session_on_output_eof
  fin_overtakes s w fresh flag bytes held ne free unsent ok =
      let (s1, e, held1, eof, _, fin, same) =
        on_output-Queued s [] fresh flag bytes held ne free refl in
      let s2 : Session = record s1 { output_eof = true; stream_fin_sent = true } in
      let (s3, e3, _, _, eof3, _, fin3) =
        pump_lem transport 1 s2 ((fresh, message flag bytes) ∷ []) (transport.send_fin w).1 held1
          (omega arith) in
      (
        s1,
        s2,
        s3,
        e,
        emit_fin-accepted (record s1 { output_eof = true }) w refl (fin ∙ unsent) ok,
        e3 ∙ ap some (emit_fin-done s3 _ fin3),
      )
