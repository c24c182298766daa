-- ===== src/Transport/Network/Served.antt =====
-- What one action does to one peer whose session holds a queue.
use webtransportd.Common.{
  ℕ, true, false, ◌∙◌, suc, ◌≡◌, ◌≢◌, ◌≤◌, ◌<◌, not, ◌&&◌, ◌||◌, refl, ap, inl, inr, Bool, ltb,
  List, [], ◌∷◌, ◌++◌, none, some, ◌==◌, if◌then◌else◌, length, arith, All, Bool-cases,
  length-append,
}
use webtransportd.Common.Memory.{◌>>=◌}
use webtransportd.WorkQueue.{Ptr, Heap, null}
use webtransportd.WorkQueue.Chain.{has, has-snoc, Message, Cells, messages}
use webtransportd.Session.{
  Session, emit_fin, deliver_to_child, wtd_session_deliver_stream, wtd_session_deliver_datagram,
  wtd_session_deliver_fin, wtd_session_on_output, TransportPort,
}
use webtransportd.Session.Deliver.{IsMalloc, deliver_to_child_lem}
use webtransportd.Session.Pump.{Queued, message, pump_lem, on_output-Queued, send_messages}
use webtransportd.Common.Int.{is_zero}
use webtransportd.Session.Interleaving.Lists.{not_live}
use webtransportd.Transport.Network.{Weather, peer_output}
use webtransportd.Transport.{Link, transport_port, child_port}
use webtransportd.Transport.Peers.{Peer}
use webtransportd.Transport.Callback.{
  Surroundings, bind_data_stream, on_post, on_post_datagram, pump_peer, pump_all,
}

-- malloc gives no address that is in use.
abbrev pub IsAllocator : (Heap → Ptr) → Type 0
IsAllocator allocator = (h : Heap) → allocator h ≢ null → h (allocator h) ≡ none

-- The session holds the queue `cs` in memory, and no other node.
pub record Keeps (s : Session) (cs : Cells) : Type 0 where
  pub queued : Queued s cs
  pub exact : (b : Ptr) → has b cs ≡ false → s.nodes b ≡ none

-- The session's nodes are a list of `n` frames at most.
abbrev pub IsServed : ℕ → Peer → Type 0
IsServed n p = (cs : Cells) × Keeps p.session cs × (length cs ≤ n)

pub record-Keeps :
    (s s' : Session) (cs : Cells)
    → s'.nodes ≡ s.nodes
    → s'.outbound ≡ s.outbound
    → Keeps s cs
    → Keeps s' cs
record-Keeps s s' cs e e' k = record { queued = rw (e, e') k.queued; exact = rw e k.exact }

deliver_fin-Keeps :
    (around : Surroundings) (s : Session) (l : Link) (cs : Cells)
    → Keeps s cs
    → Keeps (wtd_session_deliver_fin (child_port around.ports) s l).0 cs
unfolding wtd_session_deliver_fin
deliver_fin-Keeps around s l cs k = elim (Bool-cases s.child_input_closed) [
  | inl closed ↦ rw closed (record-Keeps s _ cs refl refl k)
  | inr unclosed ↦ rw unclosed (record-Keeps s _ cs refl refl k)
]

emit_fin-Keeps :
    (transport : TransportPort Link) (s : Session) (l : Link) (cs : Cells)
    → Keeps s cs
    → Keeps (emit_fin transport s l).0 cs
unfolding emit_fin
emit_fin-Keeps transport s l cs k = elim (Bool-cases (s.output_eof && not s.stream_fin_sent)) [
  | inr quiet ↦ rw quiet k
  | inl due ↦ elim (Bool-cases (is_zero (transport.send_fin l).0)) [
    | inl sent ↦ rw (due, sent) (record-Keeps s _ cs refl refl k)
    | inr refused ↦ rw (due, refused) k
  ]
]

pumped-Keeps :
    (s s' : Session) (cs : Cells)
    → Queued s' []
    → ((b : Ptr) → s'.nodes b ≡ (if has b cs then none else s.nodes b))
    → Keeps s cs
    → Keeps s' []
pumped-Keeps s s' cs empty freed k = record {
  queued = empty;
  exact = λ b out. elim (Bool-cases (has b cs)) [
    | inl gone ↦ freed b ∙ rw gone refl
    | inr never ↦ freed b ∙ rw never (k.exact b never)
  ];
}

module _ (around : Surroundings) (n : ℕ) where
  -- A delivery to the child ends and faults in no case.
  delivered :
      (flag : ℕ) (bytes : List ℕ) (s : Session) (l : Link)
      → IsMalloc around.malloc
      → flag < 2
      → (l' : Link) × (deliver_to_child (child_port around.ports) around.malloc flag bytes s l
          ≡ some l')
  delivered flag bytes s l m low =
      (_, deliver_to_child_lem (child_port around.ports) around.malloc flag bytes s l m low)

  on_post_stream :
      (stream : ℕ) (bytes : List ℕ) (p : Peer)
      → IsMalloc around.malloc
      → (l : Link) × ((if ltb 0 (length bytes)
            then wtd_session_deliver_stream
                (child_port around.ports)
                around.malloc
                bytes
                p.session
                (bind_data_stream around stream p.link)
            else some (bind_data_stream around stream p.link))
          ≡ some l)
  unfolding wtd_session_deliver_stream
  on_post_stream stream bytes p m =
      let bound = bind_data_stream around stream p.link in
      let (l, e) = delivered 0 bytes p.session bound m (omega arith) in
      elim (Bool-cases (ltb 0 (length bytes))) [
        | inl filled ↦ (l, rw filled e)
        | inr empty ↦ (bound, rw empty refl)
      ]

  pub on_post-IsServed :
      (is_fin : Bool) (stream : ℕ) (bytes : List ℕ) (p : Peer)
      → IsMalloc around.malloc
      → IsServed n p
      → (p' : Peer) × (on_post around is_fin stream bytes p ≡ some p') × IsServed n p'
  unfolding on_post
  on_post-IsServed is_fin stream bytes p m (cs, held, few) =
      let (l, e) = on_post_stream stream bytes p m in
      elim (Bool-cases (stream == p.link.control_stream_id)) [
        | inl control ↦ (p, rw control refl, (cs, held, few))
        | inr other ↦ elim (Bool-cases is_fin) [
          | inl fin ↦
              let (s', l') = wtd_session_deliver_fin (child_port around.ports) p.session l in
              (
                record p { session = s'; link = l' },
                rw (other, e, fin) refl,
                (cs, deliver_fin-Keeps around p.session l cs held, few),
              )
          | inr more ↦ (record p { link = l }, rw (other, e, more) refl, (cs, held, few))
        ]
      ]

  pub on_post_datagram-IsServed :
      (bytes : List ℕ) (p : Peer)
      → IsMalloc around.malloc
      → IsServed n p
      → (p' : Peer) × (on_post_datagram around bytes p ≡ some p') × IsServed n p'
  unfolding on_post_datagram wtd_session_deliver_datagram
  on_post_datagram-IsServed bytes p m (cs, held, few) =
      let (l, e) = delivered 1 bytes p.session p.link m (omega arith) in
      elim (Bool-cases (ltb 0 (length bytes))) [
        | inl filled ↦ (record p { link = l }, rw (filled, e) refl, (cs, held, few))
        | inr empty ↦ (p, rw empty refl, (cs, held, few))
      ]

  pub pump_peer-IsServed :
      (p : Peer)
      → n ≤ around.rounds
      → IsServed n p
      → (p' : Peer) × (pump_peer around p ≡ some p') × IsServed 0 p'
  unfolding pump_peer
  pump_peer-IsServed p enough (cs, held, few) =
      let port = transport_port around.ports in
      let (s, e, empty, freed, _, _, _) =
        pump_lem port around.rounds p.session cs p.link held.queued (omega arith) in
      let pumped = pumped-Keeps p.session s cs empty freed held in
      let (s', l') = emit_fin port s (send_messages port (messages cs) p.link) in
      (
        record p { session = s'; link = l' },
        rw e refl,
        (
          [],
          emit_fin-Keeps port s (send_messages port (messages cs) p.link) [] pumped,
          omega arith,
        ),
      )

  pub pump_all-IsServed :
      (peers : List Peer)
      → n ≤ around.rounds
      → All (IsServed n) peers
      → (peers' : List Peer) × (pump_all around peers ≡ some peers') × All (IsServed 0) peers'
  unfolding pump_all
  pump_all-IsServed [] enough served = ([], refl, tt)
  pump_all-IsServed (p ∷ peers) enough (served, others) =
      let (p', e, served') = pump_peer-IsServed p enough served in
      let (peers', es, others') = pump_all-IsServed peers enough others in
      (p' ∷ peers', rw (e, es) refl, (served', others'))

neither : (x y : Bool) → (x || y) ≡ false → (y ≡ false) × (x ≡ false)
neither true y e = cc
neither false y e = (e, refl)

outside :
    (b : Ptr) (m : Message) (a : Ptr) (cs : Cells)
    → has b (cs ++ ((a, m) ∷ [])) ≡ false
    → ((b == a) ≡ false) × (has b cs ≡ false)
outside b m a cs out = neither (has b cs) (b == a) (rw (has-snoc b m a cs) at out)

-- A frame of the reader thread: one more is queued, or none where malloc fails.
pub peer_output-IsServed :
    (w : Weather) (n flag : ℕ) (bytes : List ℕ) (p : Peer)
    → IsAllocator w.allocator
    → IsServed n p
    → (p' : Peer) × (peer_output w flag bytes p ≡ some p') × IsServed (suc n) p'
unfolding peer_output wtd_session_on_output
peer_output-IsServed w n flag bytes p allocates (cs, held, few) =
    let a = w.allocator p.session.nodes in
    elim (Bool-cases (a == null)) [
      | inl refused ↦ (p, rw refused refl, (cs, held, omega arith))
      | inr given ↦
          let ne : a ≢ null = λ e. cc (ap (◌== null) e) in
          let free = allocates p.session.nodes ne in
          let (s', e, held', _, _, _, same) =
            on_output-Queued p.session cs a flag bytes held.queued ne free
              (not_live p.session.nodes cs a held.queued.links free) in
          (
            record p { session = s' },
            ap (◌>>= λ s. some (record p { session = s })) e,
            (
              cs ++ ((a, message flag bytes) ∷ []),
              record {
                queued = held';
                exact = λ b out.
                    let (apart, never) = outside b (message flag bytes) a cs out in
                    same b apart never ∙ held.exact b never;
              },
              omega (arith, length-append cs ((a, message flag bytes) ∷ [])),
            ),
          )
    ]
