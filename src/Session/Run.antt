-- ===== src/Session/Run.antt =====
-- Whole histories of a session, against any environment: the ports record their calls and answer by
-- a function of the calls so far, and the session's entry points are called in any order.
use webtransportd.Common.{
  ℕ, suc, zero, ◌<◌, ◌≡◌, refl, Bool, true, false, List, [], ◌∷◌, Option, none, some, ◌==◌,
  if◌then◌else◌, arith, inl, inr, Bool-cases, Option-cases,
}
use webtransportd.Common.Int.{ℤ, is_zero}
use webtransportd.Frame.{flag_reliable, flag_unreliable}
use webtransportd.WorkQueue.{Ptr, null, Heap, update, OutboundFrame}
use webtransportd.Session.{
  TransportPort, ChildPort, Session, wtd_session_deliver_stream, wtd_session_deliver_datagram,
  wtd_session_deliver_fin, wtd_session_on_output, wtd_session_on_output_eof, emit_fin,
  wtd_session_pump, wtd_session_init, deliver_to_child, send_frame, flush,
}
use webtransportd.Session.Deliver.{IsMalloc, deliver_to_child_lem}

-- A call of a port, with what it answered.
pub data Call : Type 0 where
  stream datagram write : List ℕ → ℤ → Call
  fin close : ℤ → Call

-- The calls so far, the newest first.
abbrev pub Trace : Type 0
Trace = List Call

abbrev pub closes : Trace → ℕ
closes [] = 0
closes (close rc ∷ t) = suc (closes t)
closes (stream bytes rc ∷ t) = closes t
closes (datagram bytes rc ∷ t) = closes t
closes (write bytes rc ∷ t) = closes t
closes (fin rc ∷ t) = closes t

-- The FINs that the transport accepted.
abbrev pub fins : Trace → ℕ
fins [] = 0
fins (fin rc ∷ t) = if is_zero rc then suc (fins t) else fins t
fins (stream bytes rc ∷ t) = fins t
fins (datagram bytes rc ∷ t) = fins t
fins (write bytes rc ∷ t) = fins t
fins (close rc ∷ t) = fins t

-- No write to the child follows the close of its input.
abbrev pub IsOrderly : Trace → Type 0
IsOrderly [] = Unit {0}
IsOrderly (write bytes rc ∷ t) = (closes t ≡ 0) × IsOrderly t
IsOrderly (stream bytes rc ∷ t) = IsOrderly t
IsOrderly (datagram bytes rc ∷ t) = IsOrderly t
IsOrderly (fin rc ∷ t) = IsOrderly t
IsOrderly (close rc ∷ t) = IsOrderly t

module _ (answers : Trace → ℤ) where
  abbrev pub recording_transport : TransportPort Trace
  recording_transport = record {
    send_stream = λ bytes t. (answers t, stream bytes (answers t) ∷ t);
    send_datagram = λ bytes t. (answers t, datagram bytes (answers t) ∷ t);
    send_fin = λ t. (answers t, fin (answers t) ∷ t);
  }

  abbrev pub recording_child : ChildPort Trace
  recording_child = record {
    write = λ bytes t. (answers t, write bytes (answers t) ∷ t);
    close_input = λ t. (answers t, close (answers t) ∷ t);
  }

-- One call of a session function from outside.
pub data Step (answers : Trace → ℤ) (malloc : ℕ → Option (List ℕ)) (s : Session) (t : Trace)
    (s' : Session) (t' : Trace) : Type 0 where
  delivers_stream :
      (bytes : List ℕ)
      → wtd_session_deliver_stream (recording_child answers) malloc bytes s t ≡ some t'
      → s' ≡ s
      → Step answers malloc s t s' t'
  delivers_datagram :
      (bytes : List ℕ)
      → wtd_session_deliver_datagram (recording_child answers) malloc bytes s t ≡ some t'
      → s' ≡ s
      → Step answers malloc s t s' t'
  delivers_fin :
      wtd_session_deliver_fin (recording_child answers) s t ≡ (s', t')
      → Step answers malloc s t s' t'
  outputs :
      (fresh : Ptr) (flag : ℕ) (bytes : List ℕ)
      → wtd_session_on_output fresh flag bytes s ≡ some s'
      → t' ≡ t
      → Step answers malloc s t s' t'
  ends : s' ≡ wtd_session_on_output_eof s → t' ≡ t → Step answers malloc s t s' t'
  pumps :
      (fuel : ℕ)
      → wtd_session_pump (recording_transport answers) fuel s t ≡ some (s', t')
      → Step answers malloc s t s' t'

pub data Reach (answers : Trace → ℤ) (malloc : ℕ → Option (List ℕ)) (s : Session) (t : Trace)
    : Session → Trace → Type 0 where
  here : Reach answers malloc s t s t
  next :
      {s1 s2 : Session} {t1 t2 : Trace}
      → Reach answers malloc s t s1 t1
      → Step answers malloc s1 t1 s2 t2
      → Reach answers malloc s t s2 t2

abbrev pub count : Bool → ℕ
count true = 1
count false = 0

-- The flags of a session say what its trace holds.
pub record Agrees (s : Session) (t : Trace) : Type 0 where
  pub closed : closes t ≡ count s.child_input_closed
  pub finished : fins t ≡ count s.stream_fin_sent
  pub orderly : IsOrderly t

module _ (answers : Trace → ℤ) (malloc : ℕ → Option (List ℕ)) where
  send_frame-Agrees :
      (s : Session) (f : OutboundFrame) (t : Trace)
      → Agrees s t
      → Agrees s (send_frame (recording_transport answers) f t)
  unfolding send_frame
  send_frame-Agrees s f t a = ground arith

  flush-Agrees :
      (s : Session) (fuel : ℕ) (p : Ptr) (h h' : Heap) (t t' : Trace)
      → flush (recording_transport answers) fuel p h t ≡ some (h', t')
      → Agrees s t
      → Agrees s t'
  unfolding flush
  flush-Agrees s zero p h h' t t' e a = ground arith
  flush-Agrees s (suc fuel) p h h' t t' e a = elim (Bool-cases (p == null)) [
    | inl stop ↦ ground arith
    | inr more ↦ elim (Option-cases (h p)) [
      | inl gone ↦ absurd (cc (rw (more, gone) at e))
      | inr (f, at) ↦
          flush-Agrees s fuel f.next (update h p none) h'
            (send_frame (recording_transport answers) f t) t' (rw (more, at) at e)
            (send_frame-Agrees s f t a)
    ]
  ]

  emit_fin-Agrees :
      (s : Session) (t : Trace)
      → Agrees s t
      → Agrees
          (emit_fin (recording_transport answers) s t).0
          (emit_fin (recording_transport answers) s t).1
  unfolding emit_fin
  emit_fin-Agrees s t a = ground arith

  deliver-Agrees :
      (flag : ℕ) (bytes : List ℕ) (s : Session) (t t' : Trace)
      → IsMalloc malloc
      → flag < 2
      → deliver_to_child (recording_child answers) malloc flag bytes s t ≡ some t'
      → Agrees s t
      → Agrees s t'
  deliver-Agrees flag bytes s t t' hm hf e a =
      ground (arith, deliver_to_child_lem (recording_child answers) malloc flag bytes s t hm hf)

  pump-Agrees :
      (fuel : ℕ) (s s' : Session) (t t' : Trace)
      → wtd_session_pump (recording_transport answers) fuel s t ≡ some (s', t')
      → Agrees s t
      → Agrees s' t'
  unfolding wtd_session_pump
  pump-Agrees fuel s s' t t' e a =
      elim (Option-cases (flush (recording_transport answers) fuel s.outbound.head s.nodes t)) [
        | inl out ↦ absurd (cc (rw out at e))
        | inr ((h, t1), sent) ↦
            let drained = record s { outbound = record { head = null; tail = null }; nodes = h } in
            let a1 = flush-Agrees s fuel s.outbound.head s.nodes h t t1 sent a in
            let a2 =
              emit_fin-Agrees drained t1
                (record { closed = a1.closed; finished = a1.finished; orderly = a1.orderly }) in
            ground (arith, rw sent at e)
      ]

  Step-Agrees :
      (s s' : Session) (t t' : Trace)
      → IsMalloc malloc
      → Step answers malloc s t s' t'
      → Agrees s t
      → Agrees s' t'
  unfolding wtd_session_deliver_stream wtd_session_deliver_datagram wtd_session_deliver_fin
      wtd_session_on_output_eof wtd_session_on_output
  Step-Agrees s s' t t' hm (delivers_stream bytes e same) a =
      rw same (deliver-Agrees flag_reliable bytes s t t' hm (omega arith) e a)
  Step-Agrees s s' t t' hm (delivers_datagram bytes e same) a =
      rw same (deliver-Agrees flag_unreliable bytes s t t' hm (omega arith) e a)
  Step-Agrees s s' t t' hm (delivers_fin e) a = ground arith
  Step-Agrees s s' t t' hm (outputs fresh flag bytes e same) a = ground arith
  Step-Agrees s s' t t' hm (ends e same) a = ground arith
  Step-Agrees s s' t t' hm (pumps fuel e) a = pump-Agrees fuel s s' t t' e a

  -- However the peer, the child and the network thread call into a fresh session, and whatever the
  -- ports answer: the child's input is closed at most once and never written to afterwards, and the
  -- transport accepts at most one FIN; the flags of the session say whether each has happened.
  pub Reach-Agrees :
      (nodes : Heap) (s : Session) (t : Trace)
      → IsMalloc malloc
      → Reach answers malloc (wtd_session_init nodes) [] s t
      → Agrees s t
  unfolding wtd_session_init
  Reach-Agrees nodes s t hm here = record { closed = refl; finished = refl; orderly = tt }
  Reach-Agrees nodes s t hm (next {s1} {t1} r st) =
      Step-Agrees s1 s t1 t hm st (Reach-Agrees nodes s1 t1 hm r)
