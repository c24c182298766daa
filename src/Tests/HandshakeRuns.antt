-- ===== src/Tests/HandshakeRuns.antt =====
-- Runs of the clients of prototypes/.
use webtransportd.Common.{
  ℕ, ◌≡◌, refl, arith, Bool, Option, true, List, [], ◌∷◌, ◌++◌, some, none, map, ◌==◌,
  if◌then◌else◌,
}
use webtransportd.ChildProcess.{Calls, ends, parent_of}
use webtransportd.Prototypes.Client.{
  Client, ClientCall, Event, stream_data, datagram, client_callback, call_back, Round, SetUp,
  payload, dgram_payload,
}
use webtransportd.Prototypes.Client.Received.{HoldsBoth, call_back-kept}
use webtransportd.Prototypes.Handshake.{
  byte, quiet, newline, exited, announcement, line_cap, HandshakeAnswers, new_client,
  handshake_main,
}
use webtransportd.Prototypes.Handshake.Exits.{Ends, handshake_main-Ends}
use webtransportd.Prototypes.Minimal.{hello, minimal_main}
use webtransportd.Prototypes.Minimal.Endings.{ClientEnds, minimal_main-ends}
use webtransportd.Tests.BootRuns.{length-zeros}
use webtransportd.Tests.SessionRuns.{zeros}

-- The answer comes in two chunks, behind it one that finds no room.
abbrev events : List Event
events =
    stream_data (b'w' ∷ b'o' ∷ [])
    ∷ datagram dgram_payload
    ∷ stream_data (b'r' ∷ b'l' ∷ b'd' ∷ [])
    ∷ stream_data (zeros 252)
    ∷ []

call_back-kept_example :
    (c : Client) × (call_back client_callback events new_client ≡ some c)
    × HoldsBoth c payload dgram_payload
call_back-kept_example =
    call_back-kept events new_client [] []
      (omega arith, (omega arith, (omega arith, (omega arith, tt))))
      (record { of_stream = (_, refl, refl, refl); of_dgrams = (_, refl, refl, refl) })

abbrev reachable : SetUp
reachable = record { has_socket = true; is_bound = true; has_quic = true; has_cnx = true }

abbrev rounds : List Round
rounds =
    record { packet = 1200; incoming = []; is_ready = true }
    ∷ record { packet = 0; incoming = events ∷ []; is_ready = true }
    ∷ []

-- The daemon announces itself twice and exits with 0 at the second poll.
abbrev answers : HandshakeAnswers
answers = record {
  pipe = ends 4 5;
  fork = parent_of 77;
  output = map byte (announcement ++ (newline ∷ [])) ++ (quiet ∷ map byte announcement);
  line = zeros line_cap;
  set_up = reachable;
  rounds = rounds;
  waited = λ n. if n == 98 then some (exited 0) else none;
  last = exited 0;
}

handshake_main-Ends_example : Ends answers (handshake_main answers)
handshake_main-Ends_example =
    handshake_main-Ends answers (length-zeros line_cap)
      (tt, (((omega arith, (omega arith, (omega arith, (omega arith, tt)))), tt), tt))

abbrev hello_rounds : List (Bool × Round)
hello_rounds =
    (true, record { packet = 1200; incoming = []; is_ready = true })
    ∷ (true, record { packet = 0; incoming = (stream_data hello ∷ []) ∷ []; is_ready = true })
    ∷ []

minimal_main-ends_example : ClientEnds (minimal_main 2 reachable hello_rounds (zeros 256))
minimal_main-ends_example =
    minimal_main-ends 2 reachable hello_rounds (zeros 256) (length-zeros 256)
      (tt, (((omega arith, tt), tt), tt))

abbrev code_of : Option (ℕ × Calls × List ClientCall) → ℕ
code_of none = 9
code_of (some (code, t, u)) = code

announced_twice : code_of (handshake_main answers) ≡ 0
unfolding handshake_main webtransportd.Common.Memory.store webtransportd.Common.Memory.store_all
announced_twice = refl

-- A daemon that announces itself once, as webtransportd does, is killed.
announced_once :
    code_of (handshake_main (record answers { output = map byte (announcement ++ (newline ∷ [])) }))
    ≡ 1
unfolding handshake_main webtransportd.Common.Memory.store
announced_once = refl
