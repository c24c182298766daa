-- ===== src/Prototypes/Client/Rounds.antt =====
-- A whole run of the client of prototypes/handshake_echo_http3.c.
use webtransportd.Common.{
  ℕ, zero, suc, ◌-◌, ◌≡◌, ◌≤◌, ◌⊎◌, refl, ap, ◌∙◌, inl, inr, Bool, true, false, ◌&&◌, List, [], ◌∷◌,
  some, ◌==◌, if◌then◌else◌, arith, All, Bool-cases,
}
use webtransportd.Prototypes.Client.{
  Client, Event, ClientCall, opens_socket, closes_socket, creates_quic, frees_quic, sends_packet,
  adds_to_stream, queues_datagram, Round, Loop, payload, dgram_payload, client_callback, receive,
  send_payloads, has_both, client_round, client_rounds, SetUp, run_client,
}
use webtransportd.Prototypes.Client.Received.{HoldsBoth, IsChunk, call_back-kept}

-- What is open after some calls, and what was sent.
abbrev pub open_sockets : List ClientCall → ℕ
open_sockets [] = 0
open_sockets (opens_socket ∷ t) = suc (open_sockets t)
open_sockets (closes_socket ∷ t) = open_sockets t - 1
open_sockets (creates_quic ∷ t) = open_sockets t
open_sockets (frees_quic ∷ t) = open_sockets t
open_sockets (sends_packet n ∷ t) = open_sockets t
open_sockets (adds_to_stream fin bytes ∷ t) = open_sockets t
open_sockets (queues_datagram bytes ∷ t) = open_sockets t

abbrev pub open_quics : List ClientCall → ℕ
open_quics [] = 0
open_quics (opens_socket ∷ t) = open_quics t
open_quics (closes_socket ∷ t) = open_quics t
open_quics (creates_quic ∷ t) = suc (open_quics t)
open_quics (frees_quic ∷ t) = open_quics t - 1
open_quics (sends_packet n ∷ t) = open_quics t
open_quics (adds_to_stream fin bytes ∷ t) = open_quics t
open_quics (queues_datagram bytes ∷ t) = open_quics t

-- What picoquic was given to send, the newest first: stream bytes and datagrams.
abbrev pub handed_over : List ClientCall → List (Bool × List ℕ)
handed_over [] = []
handed_over (opens_socket ∷ t) = handed_over t
handed_over (closes_socket ∷ t) = handed_over t
handed_over (creates_quic ∷ t) = handed_over t
handed_over (frees_quic ∷ t) = handed_over t
handed_over (sends_packet n ∷ t) = handed_over t
handed_over (adds_to_stream fin bytes ∷ t) = (true, bytes) ∷ handed_over t
handed_over (queues_datagram bytes ∷ t) = (false, bytes) ∷ handed_over t

-- The two payloads, once each.
abbrev pub both_payloads : List (Bool × List ℕ)
both_payloads = (false, dgram_payload) ∷ (true, payload) ∷ []

abbrev pub IsHolding : Client → Type 0
IsHolding c = (stream : List ℕ) × (dgrams : List ℕ) × HoldsBoth c stream dgrams

record IsRunning (l : Loop) : Type 0 where
  holds : IsHolding l.client
  one_socket : open_sockets l.calls ≡ 1
  one_quic : open_quics l.calls ≡ 1
  in_step : l.ready ≡ l.sent
  once : handed_over l.calls ≡ (if l.sent then both_payloads else [])

-- The chunks of a round's packets.
abbrev pub IsRound : Round → Type 0
IsRound r = All (All IsChunk) r.incoming

receive-IsHolding :
    (n : ℕ) (packets : List (List Event)) (c : Client)
    → All (All IsChunk) packets
    → IsHolding c
    → (c' : Client) × (receive client_callback n packets c ≡ some c') × IsHolding c'
unfolding receive
receive-IsHolding zero packets c short h = (c, refl, h)
receive-IsHolding (suc n) [] c short h = (c, refl, h)
receive-IsHolding (suc n) (events ∷ packets) c (short, others) (stream, dgrams, h) =
    let (c1, one, h1) = call_back-kept events c stream dgrams short h in
    let (c2, two, h2) = receive-IsHolding n packets c1 others (_, _, h1) in (c2, rw one two, h2)

send_payloads-IsRunning :
    (ready : Bool) (l : Loop) → IsRunning l → IsRunning (send_payloads ready l)
unfolding send_payloads
send_payloads-IsRunning false l h = h
send_payloads-IsRunning true l h = elim (Bool-cases l.sent) [
  | inl again ↦ rw again (record {
    holds = h.holds;
    one_socket = h.one_socket;
    one_quic = h.one_quic;
    in_step = refl;
    once = rw again at h.once;
  })
  | inr first ↦ rw first (record {
    holds = h.holds;
    one_socket = h.one_socket;
    one_quic = h.one_quic;
    in_step = refl;
    once =
        ap (λ (t : List (Bool × List ℕ)). (false, dgram_payload) ∷ (true, payload) ∷ t)
          (rw first at h.once);
  })
]

pub sends_nothing :
    (n : ℕ) (t : List ClientCall)
    → let calls = if n == 0 then t else sends_packet n ∷ t in
      (open_sockets calls ≡ open_sockets t)
      × (open_quics calls ≡ open_quics t)
      × (handed_over calls ≡ handed_over t)
sends_nothing n t = elim (Bool-cases (n == 0)) [
  | inl nothing ↦ rw nothing (refl, refl, refl)
  | inr something ↦ rw something (refl, refl, refl)
]

client_round-IsRunning :
    (r : Round) (l : Loop)
    → IsRound r
    → IsRunning l
    → (l' : Loop) × (client_round r l ≡ some l') × IsRunning l'
unfolding client_round
client_round-IsRunning r l short h =
    let (c, e, held) = receive-IsHolding 8 r.incoming l.client short h.holds in
    let calls = if r.packet == 0 then l.calls else sends_packet r.packet ∷ l.calls in
    let l1 = record l { client = c; calls = calls } in
    let same = sends_nothing r.packet l.calls in
    (
      send_payloads r.is_ready l1,
      rw e refl,
      send_payloads-IsRunning r.is_ready l1 (record {
        holds = held;
        one_socket = same.0 ∙ h.one_socket;
        one_quic = same.1 ∙ h.one_quic;
        in_step = h.in_step;
        once = same.2 ∙ h.once;
      }),
    )

client_rounds-IsRunning :
    (rounds : List Round) (l : Loop)
    → All IsRound rounds
    → IsRunning l
    → (l' : Loop) × (client_rounds rounds l ≡ some l') × IsRunning l'
unfolding client_rounds
client_rounds-IsRunning [] l short h = (l, refl, h)
client_rounds-IsRunning (r ∷ rounds) l (short, others) h =
    let (l1, e, h1) = client_round-IsRunning r l short h in
    elim (Bool-cases (l1.sent && has_both l1.client)) [
      | inl over ↦ (l1, rw (e, over) refl, h1)
      | inr on ↦
          let (l2, later, h2) = client_rounds-IsRunning rounds l1 others h1 in
          (l2, rw (e, on) later, h2)
    ]

-- How a run of the client ends.
pub record Ran (succeeds : Bool) (c : Client) (calls : List ClientCall) : Type 0 where
  pub holds : IsHolding c
  pub no_socket : open_sockets calls ≡ 0
  pub no_quic : open_quics calls ≡ 0
  pub at_most_once : (handed_over calls ≡ both_payloads) ⊎ (handed_over calls ≡ [])
  pub answered :
      succeeds ≡ true → (handed_over calls ≡ both_payloads) × (5 ≤ c.stream_len) × (5 ≤ c.dgram_len)

given_up :
    (c : Client) (calls : List ClientCall)
    → IsHolding c
    → open_sockets calls ≡ 0
    → open_quics calls ≡ 0
    → handed_over calls ≡ []
    → Ran false c calls
given_up c calls h sockets quics nothing = record {
  holds = h;
  no_socket = sockets;
  no_quic = quics;
  at_most_once = inr nothing;
  answered = λ e. cc;
}

client_loop-Ran :
    (l : Loop)
    → IsRunning l
    → Ran (l.ready && (l.sent && has_both l.client)) l.client (closes_socket ∷ frees_quic ∷ l.calls)
client_loop-Ran l r = record {
  holds = r.holds;
  no_socket = omega (arith, r.one_socket);
  no_quic = omega (arith, r.one_quic);
  at_most_once = elim (Bool-cases l.sent) [
    | inl sent ↦ inl (rw sent at r.once)
    | inr unsent ↦ inr (rw unsent at r.once)
  ];
  answered = λ e.
      let sent : l.sent ≡ true = ground (arith, e) in
      (rw sent at r.once, ground (arith, e), ground (arith, e));
}

abbrev Runs : SetUp → List Round → Client → Type 0
Runs k rounds c =
    (succeeds : Bool) × (c' : Client) × (calls : List ClientCall) × (run_client k rounds c []
      ≡ some (succeeds, c', calls))
    × Ran succeeds c' calls

run_cases :
    (has_socket is_bound has_quic has_cnx : Bool) (rounds : List Round) (c : Client)
    → All IsRound rounds
    → IsHolding c
    → let k : SetUp = record {
      has_socket = has_socket;
      is_bound = is_bound;
      has_quic = has_quic;
      has_cnx = has_cnx;
    } in
      Runs k rounds c
unfolding run_client
run_cases false is_bound has_quic has_cnx rounds c short h =
    (false, c, _, refl, given_up c _ h refl refl refl)
run_cases true false has_quic has_cnx rounds c short h =
    (false, c, _, refl, given_up c _ h refl refl refl)
run_cases true true false has_cnx rounds c short h =
    (false, c, _, refl, given_up c _ h refl refl refl)
run_cases true true true false rounds c short h = (false, c, _, refl, given_up c _ h refl refl refl)
run_cases true true true true rounds c short h =
    let start : Loop = record {
      client = c;
      ready = false;
      sent = false;
      calls = creates_quic ∷ opens_socket ∷ [];
    } in
    let (l, e, r) =
      client_rounds-IsRunning rounds start short
        (record { holds = h; one_socket = refl; one_quic = refl; in_step = refl; once = refl }) in
    (_, l.client, _, rw e refl, client_loop-Ran l r)

-- For every answer of the set-up and every sequence of rounds, with chunks of less than 2^63 bytes,
-- and a client that holds something: run_client ends without an access outside its buffers; the
-- socket and the QUIC context are closed once they were opened, on every exit; each payload is handed
-- to picoquic once or not at all; and where run_client returns 0, it was handed over and at
-- least 5 bytes have come in on the stream and 5 in datagrams.
pub run_client-Ran :
    (k : SetUp) (rounds : List Round) (c : Client)
    → All IsRound rounds
    → IsHolding c
    → (succeeds : Bool) × (c' : Client) × (calls : List ClientCall) × (run_client k rounds c []
        ≡ some (succeeds, c', calls))
      × Ran succeeds c' calls
run_client-Ran k rounds c short h =
    run_cases k.has_socket k.is_bound k.has_quic k.has_cnx rounds c short h
