-- ===== src/Tests/ChildRuns.antt =====
-- Runs of adapters/child_process.c and adapters/env.c.
use webtransportd.Common.{
  ℕ, ◌≡◌, Bool, true, false, [], ◌∷◌, Option, none, some, ◌==◌, if◌then◌else◌,
}
use webtransportd.Common.Int.{pos}
use webtransportd.ChildProcess.{
  SpawnAnswers, ends, no_pipe, no_fork, parent_of, wtd_child_spawn, wtd_child_terminate, Child,
  Waited, running,
}
use webtransportd.ChildProcess.Descriptors.{opened, spawn-terminate}
use webtransportd.Env.{CString, Memory, EnvKeys, EnvRequest}

-- The third pipe fails with EMFILE.
abbrev third_fails : SpawnAnswers
third_fails = record {
  in_pipe = ends 3 4;
  out_pipe = ends 5 6;
  err_pipe = no_pipe 24;
  fork = no_fork 11;
  flags = λ fd. true;
}

abbrev works : SpawnAnswers
works = record third_fails { err_pipe = ends 7 8; fork = parent_of 42 }

abbrev never_ends : ℕ → Waited
never_ends n = running

spawn-terminate_example :
    opened 4
      (wtd_child_terminate never_ends
        (wtd_child_spawn works true []).1
        (wtd_child_spawn works true []).2).1
    ≡ 0
spawn-terminate_example = spawn-terminate works never_ends true [] 4

abbrev child : Child
child = record { pid = pos 42; stdin_fd = pos 4; stdout_fd = pos 5; stderr_fd = pos 7 }

-- Requests for memory of which the seventh is refused.
abbrev seventh_refused : ℕ → Bool
seventh_refused n = if n == 6 then false else true

abbrev host : CString → Option CString
host name = some (65 ∷ [])

abbrev keys : EnvKeys
keys = record {
  remote_addr = 1 ∷ [];
  remote_port = 2 ∷ [];
  path = 3 ∷ [];
  authority = 4 ∷ [];
  version = 5 ∷ [];
}

abbrev request : EnvRequest
request = record {
  remote_addr = some (7 ∷ []);
  remote_port = none;
  path = some (8 ∷ []);
  authority = none;
  version = none;
}

-- "X, Y"
abbrev whitelist : CString
whitelist = 88 ∷ 44 ∷ 32 ∷ 89 ∷ []

abbrev fresh : Memory
fresh = record { asked = 0; live = 0 }
