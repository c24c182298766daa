-- ===== src/Tests/PrototypeRuns.antt =====
-- Runs of prototypes/http3_server_with_child.c.
use webtransportd.Common.{◌≡◌, refl, arith, true, false, List, [], ◌∷◌, ◌++◌, none, some}
use webtransportd.Common.Int.{pos}
use webtransportd.Frame.Encode.{wire}
use webtransportd.Frame.Varint.{shortest}
use webtransportd.Prototypes.{Relay, frame_buf_size}
use webtransportd.Prototypes.Pending.{IsSound, waiting}
use webtransportd.Prototypes.Dropping.{Event, run_events, framed, kept, run_events-kept}
use webtransportd.Tests.BootRuns.{length-zeros}
use webtransportd.Tests.SessionRuns.{zeros}

abbrev relay : Relay
relay = record {
  state = record { stdin_fd = pos 4; pending_buf = zeros 8192; pending_len = 0; pending_off = 0 };
  pipe = [];
  echoed = [];
}

relay-IsSound : IsSound relay.state
relay-IsSound = record {
  open_stdin = refl;
  size = length-zeros 8192;
  within = omega arith;
  order = omega arith;
}

-- The second message comes in while two bytes of the first frame wait.
abbrev events : List Event
events =
    record { is_data = true; bytes = 7 ∷ 8 ∷ []; answer = some 2 }
    ∷ record { is_data = false; bytes = 9 ∷ []; answer = some 9 }
    ∷ record { is_data = true; bytes = 5 ∷ []; answer = some 9 }
    ∷ record { is_data = true; bytes = 6 ∷ []; answer = none }
    ∷ []

drops_second : kept 0 events ≡ (7 ∷ 8 ∷ []) ∷ (6 ∷ []) ∷ []
unfolding wire shortest
drops_second = refl

run_events-kept_example :
    (w' : Relay) × (run_events (zeros frame_buf_size) events relay ≡ some w')
    × (w'.pipe ++ waiting w'.state ≡ framed (kept 0 events))
    × (w'.echoed ≡ 7 ∷ 8 ∷ 5 ∷ 6 ∷ [])
    × IsSound w'.state
run_events-kept_example =
    run_events-kept (zeros frame_buf_size) events relay (length-zeros frame_buf_size) relay-IsSound
