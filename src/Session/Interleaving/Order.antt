-- ===== src/Session/Interleaving/Order.antt =====
-- The order of messages is kept by every step of either thread.
use webtransportd.Common.{
  ℕ, ◌⊎◌, ◌≡◌, ◌≢◌, refl, sym, ap, ◌∙◌, List, [], ◌∷◌, ◌++◌, none, some, arith, inl, inr,
  append_assoc, append-nil, map,
}
use webtransportd.Common.Int.{ℤ}
use webtransportd.WorkQueue.{Ptr, null, Heap, update, OutboundFrame, wtd_work_queue_drain}
use webtransportd.WorkQueue.Chain.{
  Message, Cells, Chain, Chain-tail, Chain-update, node, first, has-snoc, messages, init-Holds,
  drain-Holds,
}
use webtransportd.Session.{
  Session, wtd_session_init, wtd_session_on_output, wtd_session_on_output_eof, send_frame, emit_fin,
}
use webtransportd.Session.Pump.{message, send_message, send_frame-node, on_output-Queued}
use webtransportd.Session.Order.{messages-append}
use webtransportd.Session.Run.{Trace, recording_transport}
use webtransportd.Session.Interleaving.{
  idle, flushing, System, carried, sent, Step, outputs, loses, ends, drains, sends, flushed,
  finishes, Reach, here, after,
}
use webtransportd.Session.Interleaving.Lists.{
  Detached, InOrder, Chain-cong, some-injective, or-false, not_live, apart_from, order-snoc,
}

module _ (answers : Trace → ℤ) where
  sent-send_message :
      (m : Message) (t : Trace)
      → sent (send_message (recording_transport answers) m t) ≡ sent t ++ (carried m ∷ [])
  sent-send_message m t = ground arith

  pub sent-emit_fin :
      (s : Session) (t : Trace) → sent (emit_fin (recording_transport answers) s t).1 ≡ sent t
  unfolding emit_fin
  sent-emit_fin s t = ground arith

  -- Under a fresh address the new node touches neither list.
  outputs-InOrder :
      (s : System) (ms : List Message) (detached queued : Cells) (fresh flag : ℕ) (bytes : List ℕ)
      (then' : Session)
      → InOrder s ms detached queued
      → fresh ≢ null
      → s.session.nodes fresh ≡ none
      → wtd_session_on_output fresh flag bytes s.session ≡ some then'
      → InOrder
          (record s { session = then' })
          (ms ++ (message flag bytes ∷ []))
          detached
          (queued ++ ((fresh, message flag bytes) ∷ []))
  outputs-InOrder s ms detached queued fresh flag bytes then' inv ne free e =
      let out = not_live s.session.nodes queued fresh inv.queue.links free in
      let (s1, e1, held, _, _, _, same) =
        on_output-Queued s.session queued fresh flag bytes inv.queue ne free out in
      let is : s1 ≡ then' = some-injective (sym e1 ∙ e) in
      rw⁻¹ is (record {
        list = Chain-cong s.session.nodes s1.nodes detached inv.list (λ b at.
            same b (apart_from s.session.nodes detached fresh b inv.list free at) (inv.apart b at));
        at = inv.at;
        queue = held;
        apart = λ b at.
            has-snoc b (message flag bytes) fresh queued
            ∙ or-false (inv.apart b at)
                (apart_from s.session.nodes detached fresh b inv.list free at);
        order = rw (messages-append queued ((fresh, message flag bytes) ∷ [])) (
            order-snoc (sent s.trace) (messages detached) (messages queued) ms (message flag bytes)
              inv.order);
      })

  -- The pump's list begins with the frame that it sends.
  pub sends_first :
      (s : System) (ms : List Message) (a : Ptr) (m : Message) (left queued : Cells)
      → InOrder s ms ((a, m) ∷ left) queued
      → InOrder
          (record {
            session = record s.session { nodes = update s.session.nodes a none };
            phase = flushing (first left);
            trace = send_frame (recording_transport answers) (node m (first left)) s.trace;
          })
          ms
          left
          queued
  sends_first s ms a m left queued inv =
      let spared = inv.apart a (ground arith) in
      record {
        list = Chain-tail s.session.nodes a m left inv.list;
        at = refl;
        queue = record {
          starts = inv.queue.starts;
          ends = inv.queue.ends;
          links = Chain-update s.session.nodes queued a none inv.queue.links spared;
        };
        apart = λ b has_b. inv.apart b (ground arith);
        order =
            rw
              (
                send_frame-node (recording_transport answers) m (first left) s.trace,
                sent-send_message m s.trace,
              )
              (append_assoc (sent s.trace) (carried m ∷ []) _ ∙ inv.order);
      }

  -- A round of the loop moves the oldest message of the list to the peer.
  sends-InOrder :
      (s : System) (ms : List Message) (detached queued : Cells) (p : Ptr) (f : OutboundFrame)
      → InOrder s ms detached queued
      → s.phase ≡ flushing p
      → p ≢ null
      → s.session.nodes p ≡ some f
      → (left : Cells) × InOrder
          (record {
            session = record s.session { nodes = update s.session.nodes p none };
            phase = flushing f.next;
            trace = send_frame (recording_transport answers) f s.trace;
          })
          ms
          left
          queued
  sends-InOrder s ms [] queued p f inv e ne live = absurd (ne (rw e at inv.at))
  sends-InOrder s ms ((a, m) ∷ left) queued p f inv e ne live =
      let at : p ≡ a = rw e at inv.at in
      let k = inv.list in
      let is : f ≡ node m (first left) = some-injective (sym live ∙ ap s.session.nodes at ∙ k.1) in
      (left, rw (at, is) (sends_first s ms a m left queued inv))

  pub drains-InOrder :
      (s : System) (ms : List Message) (detached queued : Cells)
      → InOrder s ms detached queued
      → s.phase ≡ idle
      → InOrder
          (record s {
            session = record s.session { outbound = (wtd_work_queue_drain s.session.outbound).1 };
            phase = flushing (wtd_work_queue_drain s.session.outbound).0;
          })
          ms
          queued
          []
  drains-InOrder s ms detached queued inv e =
      let none' : detached ≡ [] = rw e at inv.at in
      let (at, empty) = drain-Holds s.session.nodes s.session.outbound queued inv.queue in
      record {
        list = inv.queue.links;
        at = at;
        queue = empty;
        apart = λ b has_b. refl;
        order = rw append-nil (rw none' at inv.order);
      }

  -- A step that touches neither list and sends no message.
  pub keeps-InOrder :
      (s s' : System) (ms : List Message) (detached queued : Cells)
      → InOrder s ms detached queued
      → s'.session.nodes ≡ s.session.nodes
      → s'.session.outbound ≡ s.session.outbound
      → sent s'.trace ≡ sent s.trace
      → Detached s'.phase detached
      → InOrder s' ms detached queued
  keeps-InOrder s s' ms detached queued inv nodes outbound trace at = record {
    list = rw nodes inv.list;
    at = at;
    queue = rw (nodes, outbound) inv.queue;
    apart = inv.apart;
    order = rw trace inv.order;
  }

  first-null : (h : Heap) (cs : Cells) → Chain h cs → null ≡ first cs → cs ≡ []
  first-null h [] k e = refl
  first-null h ((p, m) ∷ cs) k e = absurd (k.0 (sym e))

  pub emit_fin-outbound :
      (s : Session) (t : Trace)
      → ((emit_fin (recording_transport answers) s t).0.outbound ≡ s.outbound)
        × ((emit_fin (recording_transport answers) s t).0.nodes ≡ s.nodes)
  unfolding emit_fin
  emit_fin-outbound s t = ground arith

  lost-same :
      (flag : ℕ) (bytes : List ℕ) (s next : Session)
      → wtd_session_on_output null flag bytes s ≡ some next
      → s ≡ next
  unfolding wtd_session_on_output
  lost-same flag bytes s next e = some-injective e

  Step-InOrder :
      (s s' : System) (ms new : List Message) (detached queued : Cells)
      → Step answers s s' new
      → InOrder s ms detached queued
      → (detached' : Cells) × (queued' : Cells) × InOrder s' (ms ++ new) detached' queued'
  unfolding wtd_session_on_output_eof
  Step-InOrder s s' ms new detached queued (outputs fresh flag bytes later ne free e same) inv = (
    detached,
    queued ++ ((fresh, message flag bytes) ∷ []),
    rw same (outputs-InOrder s ms detached queued fresh flag bytes later inv ne free e),
  )
  Step-InOrder s s' ms new detached queued (loses flag bytes later e same) inv = (
    detached,
    queued,
    let kept : s.session ≡ later = lost-same flag bytes s.session later e in
        rw (same, append-nil)
          (keeps-InOrder s _ ms detached queued inv (ap (λ x. x.nodes) (sym kept))
            (ap (λ x. x.outbound) (sym kept)) refl inv.at),
  )
  Step-InOrder s s' ms new detached queued (ends same) inv = (
    detached,
    queued,
    rw (same, append-nil) (keeps-InOrder s _ ms detached queued inv refl refl refl inv.at),
  )
  Step-InOrder s s' ms new detached queued (drains e same) inv =
      (queued, [], rw (same, append-nil) (drains-InOrder s ms detached queued inv e))
  Step-InOrder s s' ms new detached queued (sends p f e ne live same) inv =
      let (left, inv') = sends-InOrder s ms detached queued p f inv e ne live in
      (left, queued, rw (same, append-nil) inv')
  Step-InOrder s s' ms new detached queued (flushed e same) inv =
      let empty = first-null s.session.nodes detached inv.list (rw e at inv.at) in
      (
        detached,
        queued,
        rw (same, append-nil) (keeps-InOrder s _ ms detached queued inv refl refl refl empty),
      )
  Step-InOrder s s' ms new detached queued (finishes e same) inv =
      let empty : detached ≡ [] = rw e at inv.at in
      let (outbound, nodes) = emit_fin-outbound s.session s.trace in
      (
        detached,
        queued,
        rw (same, append-nil)
            (keeps-InOrder s _ ms detached queued inv nodes outbound
              (sent-emit_fin s.session s.trace) empty),
      )

  abbrev pub at_rest : Heap → System
  at_rest nodes = record { session = wtd_session_init nodes; phase = idle; trace = [] }

  pub Reach-InOrder :
      (nodes : Heap) (s : System) (ms : List Message)
      → Reach answers (at_rest nodes) s ms
      → (detached : Cells) × (queued : Cells) × InOrder s ms detached queued
  unfolding wtd_session_init
  Reach-InOrder nodes s ms here = (
    [],
    [],
    record {
      list = tt;
      at = refl;
      queue = init-Holds nodes;
      apart = λ b has_b. refl;
      order = refl;
    },
  )
  Reach-InOrder nodes s all (after {t} {ms} {new} r st) =
      let (detached, queued, inv) = Reach-InOrder nodes t ms r in
      Step-InOrder t s ms new detached queued st inv

  nothing_left :
      (s : System) (ms : List Message) (detached queued : Cells)
      → InOrder s ms detached queued
      → (messages detached ++ messages queued ≡ [])
        ⊎ ((s.phase ≢ idle) ⊎ (s.session.outbound.head ≢ null))
  nothing_left s ms [] [] inv = inl refl
  nothing_left s ms [] ((p, m) ∷ queued) inv =
      inr (inr (λ e. inv.queue.links.0 (sym inv.queue.starts ∙ e)))
  nothing_left s ms ((p, m) ∷ detached) queued inv = inr (inl (λ e. cc (rw e at inv.at)))

  -- However the reader thread and the network thread take turns, also between the rounds of a pump:
  -- what the transport was given is the messages of the child for which malloc gave a node, in the
  -- order in which it wrote them, each once, by the port that its flag names, up to a rest that is still pending; and nothing is
  -- pending when no pump runs and the queue is empty.
  pub Reach-sends :
      (nodes : Heap) (s : System) (ms : List Message)
      → Reach answers (at_rest nodes) s ms
      → (pending : List Message) × (sent s.trace ++ map carried pending ≡ map carried ms)
        × ((pending ≡ []) ⊎ ((s.phase ≢ idle) ⊎ (s.session.outbound.head ≢ null)))
  Reach-sends nodes s ms r =
      let (detached, queued, inv) = Reach-InOrder nodes s ms r in
      (messages detached ++ messages queued, inv.order, nothing_left s ms detached queued inv)
