-- ===== src/Prototypes/Minimal/Rounds.antt =====
-- The loop of prototypes/minimal_http3_client.c.
use webtransportd.Common.{
  ℕ, zero, suc, ◌^◌, ◌≡◌, ◌<◌, refl, ap, ◌∙◌, inl, inr, Bool, true, false, ◌&&◌, List, [], ◌∷◌,
  some, leb, ltb, if◌then◌else◌, length, All, Bool-cases,
}
use webtransportd.Prototypes.Client.{
  Event, stream_data, stream_fin, datagram, other, call_back, receive, ClientCall, sends_packet,
  Round,
}
use webtransportd.Prototypes.Client.Received.{IsFilled, IsChunk, keep, append_chunk-IsFilled}
use webtransportd.Prototypes.Client.Rounds.{open_sockets, open_quics, handed_over, IsRound}
use webtransportd.Prototypes.Minimal.{
  RecvBuf, take_bytes, minimal_callback, hello, MinimalLoop, send_hello, minimal_round,
  minimal_rounds,
}

abbrev pub IsHeld : RecvBuf → Type 0
IsHeld b = (content : List ℕ) × IsFilled b.buf b.len content

take_bytes-IsHeld :
    (bytes : List ℕ) (b : RecvBuf)
    → length bytes < 2 ^ 63
    → IsHeld b
    → (b' : RecvBuf) × (take_bytes bytes b ≡ some b') × IsHeld b'
unfolding take_bytes
take_bytes-IsHeld bytes b short (content, h) = elim (Bool-cases (ltb 0 (length bytes))) [
  | inr empty ↦ (b, rw empty refl, (content, h))
  | inl filled ↦
      let (buf, len, e, h') = append_chunk-IsFilled b.buf content bytes b.len short h in
      (record { buf = buf; len = len }, rw (filled, e) refl, (keep content bytes, h'))
]

minimal_callback-IsHeld :
    (e : Event) (b : RecvBuf)
    → IsChunk e
    → IsHeld b
    → (b' : RecvBuf) × (minimal_callback e b ≡ some b') × IsHeld b'
unfolding minimal_callback
minimal_callback-IsHeld (stream_data bytes) b short h = take_bytes-IsHeld bytes b short h
minimal_callback-IsHeld (stream_fin bytes) b short h = take_bytes-IsHeld bytes b short h
minimal_callback-IsHeld (datagram bytes) b short h = (b, refl, h)
minimal_callback-IsHeld (other bytes) b short h = (b, refl, h)

call_back-IsHeld :
    (events : List Event) (b : RecvBuf)
    → All IsChunk events
    → IsHeld b
    → (b' : RecvBuf) × (call_back minimal_callback events b ≡ some b') × IsHeld b'
unfolding call_back
call_back-IsHeld [] b short h = (b, refl, h)
call_back-IsHeld (e ∷ events) b (short, others) h =
    let (b1, one, h1) = minimal_callback-IsHeld e b short h in
    let (b2, two, h2) = call_back-IsHeld events b1 others h1 in (b2, rw one two, h2)

receive-IsHeld :
    (n : ℕ) (packets : List (List Event)) (b : RecvBuf)
    → All (All IsChunk) packets
    → IsHeld b
    → (b' : RecvBuf) × (receive minimal_callback n packets b ≡ some b') × IsHeld b'
unfolding receive
receive-IsHeld zero packets b short h = (b, refl, h)
receive-IsHeld (suc n) [] b short h = (b, refl, h)
receive-IsHeld (suc n) (events ∷ packets) b (short, others) h =
    let (b1, one, h1) = call_back-IsHeld events b short h in
    let (b2, two, h2) = receive-IsHeld n packets b1 others h1 in (b2, rw one two, h2)

-- The payload, handed over at most once, as `sent` says.
abbrev pub hellos : Bool → List (Bool × List ℕ)
hellos sent = if sent then (true, hello) ∷ [] else []

pub record IsGoing (l : MinimalLoop) : Type 0 where
  pub holds : IsHeld l.received
  pub one_socket : open_sockets l.calls ≡ 1
  pub one_quic : open_quics l.calls ≡ 1
  pub once : handed_over l.calls ≡ hellos l.sent

send_hello-IsGoing : (ready : Bool) (l : MinimalLoop) → IsGoing l → IsGoing (send_hello ready l)
unfolding send_hello
send_hello-IsGoing false l h = h
send_hello-IsGoing true l h = elim (Bool-cases l.sent) [
  | inl again ↦ rw again (record {
    holds = h.holds;
    one_socket = h.one_socket;
    one_quic = h.one_quic;
    once = rw again at h.once;
  })
  | inr first ↦ rw first (record {
    holds = h.holds;
    one_socket = h.one_socket;
    one_quic = h.one_quic;
    once = ap (λ (t : List (Bool × List ℕ)). (true, hello) ∷ t) (rw first at h.once);
  })
]

abbrev pub ShortRound : Bool × Round → Type 0
ShortRound (is_prepared, r) = IsRound r

packet_only :
    (sends : Bool) (n : ℕ) (t : List ClientCall)
    → let calls = if sends then sends_packet n ∷ t else t in
      (open_sockets calls ≡ open_sockets t)
      × (open_quics calls ≡ open_quics t)
      × (handed_over calls ≡ handed_over t)
packet_only true n t = (refl, refl, refl)
packet_only false n t = (refl, refl, refl)

minimal_round-IsGoing :
    (is_prepared : Bool) (r : Round) (l : MinimalLoop)
    → IsRound r
    → IsGoing l
    → (l' : MinimalLoop) × (minimal_round is_prepared r l ≡ some l') × IsGoing l'
unfolding minimal_round
minimal_round-IsGoing is_prepared r l short h =
    let (b, e, held) = receive-IsHeld 10 r.incoming l.received short h.holds in
    let calls =
      if is_prepared && ltb 0 r.packet then sends_packet r.packet ∷ l.calls else l.calls in
    let l1 : MinimalLoop = record l { received = b; calls = calls } in
    let (sockets, quics, given) = packet_only (is_prepared && ltb 0 r.packet) r.packet l.calls in
    (
      send_hello r.is_ready l1,
      rw e refl,
      send_hello-IsGoing r.is_ready l1 (record {
        holds = held;
        one_socket = sockets ∙ h.one_socket;
        one_quic = quics ∙ h.one_quic;
        once = given ∙ h.once;
      }),
    )

pub minimal_rounds-IsGoing :
    (rounds : List (Bool × Round)) (l : MinimalLoop)
    → All ShortRound rounds
    → IsGoing l
    → (l' : MinimalLoop) × (minimal_rounds rounds l ≡ some l') × IsGoing l'
unfolding minimal_rounds
minimal_rounds-IsGoing [] l short h = (l, refl, h)
minimal_rounds-IsGoing ((is_prepared, r) ∷ rounds) l (short, others) h =
    let (l1, e, h1) = minimal_round-IsGoing is_prepared r l short h in
    elim (Bool-cases (l1.sent && leb (length hello) l1.received.len)) [
      | inl over ↦ (l1, rw (e, over) refl, h1)
      | inr on ↦
          let (l2, later, h2) = minimal_rounds-IsGoing rounds l1 others h1 in
          (l2, rw (e, on) later, h2)
    ]
