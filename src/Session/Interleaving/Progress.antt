-- ===== src/Session/Interleaving/Progress.antt =====
-- The network thread while the reader thread is quiet: no step of it faults, and it sends all that is
-- pending.
use webtransportd.Common.{
  ℕ, zero, suc, ◌+◌, ◌≡◌, ◌≤◌, refl, sym, ap, ◌∙◌, List, [], ◌∷◌, ◌++◌, Option, none, some, arith,
  length, map, ◌==◌, if◌then◌else◌, false, length-append, append-nil, Option-cases, Bool-cases, inl,
  inr,
}
use webtransportd.Common.Int.{ℤ}
use webtransportd.Common.Memory.{◌>>=◌}
use webtransportd.WorkQueue.{Ptr, null, Heap, update, wtd_work_queue_drain}
use webtransportd.WorkQueue.Chain.{Message, Cells, node, first, messages, drain-Holds}
use webtransportd.Session.{send_frame, emit_fin}
use webtransportd.Session.Run.{Trace, recording_transport}
use webtransportd.Session.Interleaving.{
  Phase, idle, finishing, flushing, System, carried, sent, Reach, after, Step, drains, sends,
  flushed, finishes,
}
use webtransportd.Session.Interleaving.Lists.{InOrder, some-injective}
use webtransportd.Session.Interleaving.Order.{
  sends_first, drains-InOrder, keeps-InOrder, emit_fin-outbound, sent-emit_fin, Reach-InOrder,
  at_rest,
}

length-map {ℓ κ} :
    {A : Type ℓ} {B : Type κ} (f : A → B) (xs : List A) → length (map f xs) ≡ length xs
length-map f [] = refl
length-map f (x ∷ xs) = ap suc (length-map f xs)

length-messages : (cs : Cells) → length (messages cs) ≡ length cs
length-messages [] = refl
length-messages ((p, m) ∷ cs) = ap suc (length-messages cs)

module _ (answers : Trace → ℤ) where
  -- One round of the loop of wtd_session_pump; `none` is a node that is not there.
  unfoldable pub send_next : Ptr → System → Option System
  send_next p s = elim (s.session.nodes p) [
    | none ↦ none
    | some f ↦ some (record {
      session = record s.session { nodes = update s.session.nodes p none };
      phase = flushing f.next;
      trace = send_frame (recording_transport answers) f s.trace;
    })
  ]

  -- The next thing that the network thread does, by where it stands.
  unfoldable pub network_phase : Phase → System → Option System
  unfolding send_next
  network_phase idle s = some (record s {
    session = record s.session { outbound = (wtd_work_queue_drain s.session.outbound).1 };
    phase = flushing (wtd_work_queue_drain s.session.outbound).0;
  })
  network_phase (flushing p) s =
      if p == null then some (record s { phase = finishing }) else send_next p s
  network_phase finishing s = some (record {
    session = (emit_fin (recording_transport answers) s.session s.trace).0;
    phase = idle;
    trace = (emit_fin (recording_transport answers) s.session s.trace).1;
  })

  unfoldable pub network_run : ℕ → System → Option System
  unfolding network_phase
  network_run zero s = some s
  network_run (suc n) s = do s' ← network_phase s.phase s; network_run n s'

  run-suc :
      (n : ℕ) (phase : Phase) (s s1 : System)
      → s.phase ≡ phase
      → network_phase phase s ≡ some s1
      → network_run (suc n) s ≡ network_run n s1
  unfolding network_run
  run-suc n phase s s1 e step =
      ap (λ (q : Phase). network_phase q s >>= network_run n) e ∙ ap (◌>>= network_run n) step

  run-add :
      (m n : ℕ) (s s1 : System)
      → network_run m s ≡ some s1
      → network_run (m + n) s ≡ network_run n s1
  unfolding network_run
  run-add zero n s s1 e =
      let z : 0 + n ≡ n = omega arith in
      rw z (ap (λ (r : System). network_run n r) (some-injective e))
  run-add (suc m) n s s1 e = elim (Option-cases (network_phase s.phase s)) [
    | inl fault ↦ absurd (cc (rw fault at e))
    | inr (s2, step) ↦
        let z : suc m + n ≡ suc (m + n) = omega arith in
        rw z (rw step (run-add m n s2 s1 (rw step at e)))
  ]

  finish-InOrder :
      (s : System) (ms : List Message) (queued : Cells)
      → InOrder s ms [] queued
      → s.phase ≡ finishing
      → (s' : System) × (network_run 1 s ≡ some s') × (s'.phase ≡ idle) × InOrder s' ms [] queued
  unfolding network_run network_phase
  finish-InOrder s ms queued inv e =
      let (outbound, nodes) = emit_fin-outbound answers s.session s.trace in
      (
        _,
        run-suc 0 finishing s _ e refl,
        refl,
        keeps-InOrder answers s _ ms [] queued inv nodes outbound
            (sent-emit_fin answers s.session s.trace) refl,
      )

  -- From the loop to the end of the pump.
  flush-InOrder :
      (detached : Cells) (s : System) (ms : List Message) (queued : Cells)
      → InOrder s ms detached queued
      → s.phase ≡ flushing (first detached)
      → (s' : System) × (network_run (length detached + 2) s ≡ some s')
        × (s'.phase ≡ idle)
        × InOrder s' ms [] queued
  unfolding network_phase send_next
  flush-InOrder [] s ms queued inv e =
      let s1 : System = record s { phase = finishing } in
      let inv1 = keeps-InOrder answers s s1 ms [] queued inv refl refl refl refl in
      let (s', run, at, inv') = finish-InOrder s1 ms queued inv1 refl in
      (s', run-suc 1 (flushing null) s s1 e refl ∙ run, at, inv')
  flush-InOrder ((a, m) ∷ left) s ms queued inv e =
      let s1 : System = record {
        session = record s.session { nodes = update s.session.nodes a none };
        phase = flushing (first left);
        trace = send_frame (recording_transport answers) (node m (first left)) s.trace;
      } in
      let (s', run, at, inv') =
        flush-InOrder left s1 ms queued (sends_first answers s ms a m left queued inv) refl in
      let live : (a == null) ≡ false = ground (arith, inv.list.0) in
      let more : suc (length left) + 2 ≡ suc (length left + 2) = omega arith in
      (
        s',
        rw more (
            run-suc (length left + 2) (flushing a) s s1 e (rw (live, inv.list.1, send_next) refl)
            ∙ run),
        at,
        inv',
      )

  -- A whole pump.
  pump-InOrder :
      (s : System) (ms : List Message) (queued : Cells)
      → InOrder s ms [] queued
      → s.phase ≡ idle
      → (s' : System) × (network_run (length queued + 3) s ≡ some s')
        × (s'.phase ≡ idle)
        × InOrder s' ms [] []
  unfolding network_phase
  pump-InOrder s ms queued inv e =
      let (head, _) = drain-Holds s.session.nodes s.session.outbound queued inv.queue in
      let (s', run, at, inv') =
        flush-InOrder queued _ ms [] (drains-InOrder answers s ms [] queued inv e)
          (ap flushing head) in
      let more : length queued + 3 ≡ suc (length queued + 2) = omega arith in
      (s', rw more (run-suc (length queued + 2) idle s _ e refl ∙ run), at, inv')

  -- The rest of the pump that stands where `phase` says.
  rest-InOrder :
      (phase : Phase) (s : System) (ms : List Message) (detached queued : Cells)
      → InOrder s ms detached queued
      → s.phase ≡ phase
      → (n : ℕ) × (s' : System) × (network_run n s ≡ some s')
        × (n ≤ length detached + 2)
        × (s'.phase ≡ idle)
        × InOrder s' ms [] queued
  unfolding network_run
  rest-InOrder idle s ms detached queued inv e =
      let none' : detached ≡ [] = rw e at inv.at in (0, s, refl, omega arith, e, rw none' at inv)
  rest-InOrder finishing s ms detached queued inv e =
      let none' : detached ≡ [] = rw e at inv.at in
      let (s', run, at, inv') = finish-InOrder s ms queued (rw none' at inv) e in
      (1, s', run, omega arith, at, inv')
  rest-InOrder (flushing p) s ms detached queued inv e =
      let is : p ≡ first detached = rw e at inv.at in
      let (s', run, at, inv') = flush-InOrder detached s ms queued inv (e ∙ ap flushing is) in
      (length detached + 2, s', run, omega arith, at, inv')

  pending_bound :
      (s : System) (ms : List Message) (detached queued : Cells)
      → InOrder s ms detached queued
      → length detached + length queued ≤ length ms
  pending_bound s ms detached queued inv = omega (
    arith,
    ap length inv.order,
    length-append (sent s.trace) (map carried (messages detached ++ messages queued)),
    length-map carried (messages detached ++ messages queued),
    length-map carried ms,
    length-append (messages detached) (messages queued),
    length-messages detached,
    length-messages queued,
  )

  -- What the network thread does is a step of the relation.
  phase-Step :
      (phase : Phase) (s s' : System)
      → s.phase ≡ phase
      → network_phase phase s ≡ some s'
      → Step answers s s' []
  unfolding network_phase send_next
  phase-Step idle s s' e step = drains e (sym (some-injective step))
  phase-Step finishing s s' e step = finishes e (sym (some-injective step))
  phase-Step (flushing p) s s' e step = elim (Bool-cases (p == null)) [
    | inl end ↦
        let is : p ≡ null = ground arith in
        flushed (e ∙ ap flushing is) (sym (some-injective (rw end at step)))
    | inr more ↦ elim (Option-cases (s.session.nodes p)) [
      | inl fault ↦ absurd (cc (rw (more, fault, send_next) at step))
      | inr (f, live) ↦
          sends p f e (λ h. cc (ap (◌== null) h)) live
            (sym (some-injective (rw (more, live, send_next) at step)))
    ]
  ]

  run-Reach :
      (start : System) (n : ℕ) (s s' : System) (ms : List Message)
      → Reach answers start s ms
      → network_run n s ≡ some s'
      → Reach answers start s' ms
  unfolding network_run
  run-Reach start zero s s' ms r e = rw⁻¹ (some-injective e) r
  run-Reach start (suc n) s s' ms r e = elim (Option-cases (network_phase s.phase s)) [
    | inl fault ↦ absurd (cc (rw fault at e))
    | inr (s1, step) ↦
        let r1 : Reach answers start s1 ms =
          rw append-nil at (after r (phase-Step s.phase s s1 refl step)) in
        run-Reach start n s1 s' ms r1 (rw step at e)
  ]

  -- In every history of the two threads, wherever the network thread stands: none of its next steps
  -- touches a freed node, and if the reader thread is quiet, it hands all that is pending to the
  -- transport within as many steps as the child has written messages that got a node, and five, and is
  -- back outside of the pump with an empty queue; every such message has then been passed once, in order, to the send
  -- call that its flag names, whatever these calls answered.
  pub Reach-drains :
      (nodes : Heap) (s : System) (ms : List Message)
      → Reach answers (at_rest answers nodes) s ms
      → (n : ℕ) × (s' : System) × (network_run n s ≡ some s')
        × (n ≤ length ms + 5)
        × Reach answers (at_rest answers nodes) s' ms
        × (s'.phase ≡ idle)
        × (s'.session.outbound.head ≡ null)
        × (sent s'.trace ≡ map carried ms)
  Reach-drains nodes s ms r =
      let (detached, queued, inv) = Reach-InOrder answers nodes s ms r in
      let (k, s1, run, few, at, inv1) = rest-InOrder s.phase s ms detached queued inv refl in
      let (s', run', at', inv') = pump-InOrder s1 ms queued inv1 at in
      let whole = run-add k (length queued + 3) s s1 run ∙ run' in
      (
        k + (length queued + 3),
        s',
        whole,
        omega (arith, pending_bound s ms detached queued inv, few),
        run-Reach (at_rest answers nodes) (k + (length queued + 3)) s s' ms r whole,
        at',
        inv'.queue.starts,
        sym (append-nil (sent s'.trace)) ∙ inv'.order,
      )
