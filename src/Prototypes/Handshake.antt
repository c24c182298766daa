-- ===== src/Prototypes/Handshake.antt =====
-- prototypes/handshake_echo_http3.c without its client: how it starts the daemon, waits for its
-- "server ready", and stops it. The kernel's answers are arguments, the calls are recorded as in
-- ChildProcess. Where the list of answers to select(2) and read(2) ends, the pipe is quiet.
pub mod Reading
pub mod Ready
pub mod Exits
use webtransportd.Common.{
  ℕ, zero, suc, ◌+◌, ◌-◌, Bool, true, false, not, ◌&&◌, ◌||◌, List, [], ◌∷◌, Option, none, some,
  ltb, bit_and, take, ◌==◌, if◌then◌else◌,
}
use webtransportd.Common.Int.{ℤ, pos, negsuc, minus_one}
use webtransportd.Common.Memory.{◌>>=◌, store}
use webtransportd.ChildProcess.{
  Calls, SysCall, opens_pipe, forks, dups, execs, terms, kills, polls, waits, naps, PipeAnswer,
  ends, no_pipe, ForkAnswer, parent_of, no_fork, close_pair, closes, close_fd,
}
use webtransportd.Prototypes.Client.{
  Client, ClientCall, Round, SetUp, payload, dgram_payload, run_client,
}

-- daemon_t
pub record DaemonHandle : Type 0 where
  pub pid : ℤ
  pub stdout_fd : ℤ

-- What select(2) and then read(2) answer: a byte, the end of the output, a failed read, a timeout or
-- another error of select, EINTR of select.
pub data Polled : Type 0 where
  byte : ℕ → Polled
  closed failed quiet interrupted : Polled

abbrev pub newline : ℕ
newline = 10

-- The loop of read_line: `got`, `out`, and the answers that are left. A timeout below 0 stands as 0.
unfoldable pub read_loop : ℕ → List Polled → ℕ → ℕ → List ℕ → Option (ℕ × List ℕ × List Polled)
read_loop room [] timeout_ms got out = some (got, out, [])
read_loop room (p ∷ ps) timeout_ms got out =
    let taken : Option (ℕ × List ℕ × List Polled) = elim p [
      | byte c ↦ store out got c >>= λ out'.
          if c == newline
          then some (got + 1, out', ps)
          else read_loop room ps (timeout_ms - 10) (got + 1) out'
      | closed ↦ some (got, out, ps)
      | failed ↦ read_loop room ps (timeout_ms - 10) got out
      | quiet ↦ read_loop room ps (timeout_ms - 10) got out
      | interrupted ↦ read_loop room ps timeout_ms got out
    ] in
    if ltb (got + 1) room && ltb 0 timeout_ms then taken else some (got, out, p ∷ ps)

unfoldable pub read_line : ℕ → List Polled → ℕ → List ℕ → Option (ℕ × List ℕ × List Polled)
unfolding read_loop
read_line room ps timeout_ms out = do
  r ← read_loop room ps timeout_ms 0 out
  out' ← store r.1 r.0 0
  some (r.0, out', r.2)

-- The C string in a buffer.
unfoldable pub c_text : List ℕ → Option (List ℕ)
c_text [] = none
c_text (c ∷ cs) =
    let rest = c_text cs >>= λ text. some (c ∷ text) in if c == 0 then some [] else rest

abbrev pub starts_with : List ℕ → List ℕ → Bool
starts_with [] xs = true
starts_with (n ∷ needle) [] = false
starts_with (n ∷ needle) (x ∷ xs) = n == x && starts_with needle xs

-- `strstr(xs, needle) != NULL`
abbrev pub contains : List ℕ → List ℕ → Bool
contains needle [] = starts_with needle []
contains needle (x ∷ xs) = starts_with needle (x ∷ xs) || contains needle xs

-- "server ready"
abbrev pub announcement : List ℕ
announcement =
    b's' ∷ b'e' ∷ b'r' ∷ b'v' ∷ b'e' ∷ b'r' ∷ b' ' ∷ b'r' ∷ b'e' ∷ b'a' ∷ b'd' ∷ b'y' ∷ []

-- sizeof(line)
abbrev pub line_cap : ℕ
line_cap = 128

-- wait_for_ready, where `line` is what the buffer holds: whether it returns 0, and the answers that
-- are left. Fuel: `none` also where it runs out; one round for each 500 ms is enough.
unfoldable pub wait_for_ready : ℕ → List Polled → ℕ → List ℕ → Option (Bool × List Polled)
unfolding read_line c_text
wait_for_ready zero ps timeout_ms line = if timeout_ms == 0 then some (false, ps) else none
wait_for_ready (suc fuel) ps timeout_ms line =
    let round = (do
      (n, line', ps') ← read_line line_cap ps 500 line
      text ← c_text line'
      let later = wait_for_ready fuel ps' (timeout_ms - 500) line'
      if ltb 0 n && contains announcement text then some (true, ps') else later) in
    if timeout_ms == 0 then some (false, ps) else round

-- The child's side of spawn_daemon up to execvp; `_exit(127)` follows where that fails.
unfoldable pub daemon_side : ℕ → ℕ → Calls → Calls
daemon_side r w t = execs ∷ closes w ∷ closes r ∷ dups w 2 ∷ dups w 1 ∷ t

-- spawn_daemon: whether it returns 0, *out and the calls.
unfoldable pub spawn_daemon :
    PipeAnswer → ForkAnswer → DaemonHandle → Calls → Bool × DaemonHandle × Calls
unfolding close_pair
spawn_daemon (no_pipe e) fork d t = (false, d, t)
spawn_daemon (ends r w) (no_fork e) d t = (false, d, closes w ∷ closes r ∷ opens_pipe r w ∷ t)
spawn_daemon (ends r w) (parent_of pid) d t =
    (true, record { pid = pos pid; stdout_fd = pos r }, closes w ∷ forks pid ∷ opens_pipe r w ∷ t)

-- The wait status of a process that is gone. `int st = 0` reads as an exit with 0.
pub data Ended : Type 0 where
  exited : ℕ → Ended
  signaled : Ended

-- One round of the loop of kill_and_reap after its waitpid; `later` is what the rounds that follow
-- the nap give.
unfoldable pub daemon_round : Option Ended → Option Ended × Calls → Calls → Option Ended × Calls
daemon_round none later t = later
daemon_round (some st) later t = (some st, t)

-- The loop of kill_and_reap on the rounds that are left, by which the answers of waitpid are
-- numbered: the status, where one of them gave the pid.
unfoldable pub poll_daemon : ℕ → (ℕ → Option Ended) → ℕ → Calls → Option Ended × Calls
unfolding daemon_round
poll_daemon zero answers pid t = (none, t)
poll_daemon (suc n) answers pid t =
    let later = poll_daemon n answers pid (naps ∷ polls pid ∷ t) in
    daemon_round (answers n) later (polls pid ∷ t)

-- SIGKILL and the blocking waitpid, where the loop left the pid in place.
unfoldable pub force_daemon : Ended → ℕ → Option Ended × Calls → Ended × Calls
force_daemon last pid (some st, t) = (st, t)
force_daemon last pid (none, t) = (last, waits pid ∷ kills pid ∷ t)

-- The part of kill_and_reap that is under `d->pid > 0`: the pid, *p_status and the calls.
unfoldable pub stop_daemon : (ℕ → Option Ended) → Ended → ℤ → Ended → Calls → ℤ × Ended × Calls
unfolding poll_daemon force_daemon
stop_daemon answers last (pos zero) status t = (pos zero, status, t)
stop_daemon answers last (pos (suc n)) status t =
    let (st, t') =
      force_daemon last (suc n) (poll_daemon 100 answers (suc n) (terms (suc n) ∷ t)) in
    (minus_one, st, t')
stop_daemon answers last (negsuc n) status t = (negsuc n, status, t)

-- kill_and_reap; `last` is what the blocking waitpid would give.
unfoldable pub kill_and_reap :
    (ℕ → Option Ended) → Ended → DaemonHandle → Ended → Calls → DaemonHandle × Ended × Calls
unfolding stop_daemon close_fd
kill_and_reap answers last d status t =
    let (pid, status', t1) = stop_daemon answers last d.pid status t in
    let (stdout_fd, t2) = close_fd d.stdout_fd t1 in
    (record { pid = pid; stdout_fd = stdout_fd }, status', t2)

-- SERVER_PORT
unfoldable pub server_port : ℕ → ℕ
server_port pid = 20000 + bit_and pid 8191

-- What main meets; `line` is what the buffer of wait_for_ready holds at first.
pub record HandshakeAnswers : Type 0 where
  pub pipe : PipeAnswer
  pub fork : ForkAnswer
  pub output : List Polled
  pub line : List ℕ
  pub set_up : SetUp
  pub rounds : List Round
  pub waited : ℕ → Option Ended
  pub last : Ended

-- `d = {-1, -1}`
abbrev pub no_daemon : DaemonHandle
no_daemon = record { pid = minus_one; stdout_fd = minus_one }

abbrev pub zero_bytes : ℕ → List ℕ
zero_bytes zero = []
zero_bytes (suc n) = 0 ∷ zero_bytes n

-- `cctx = {0}`
abbrev pub new_client : Client
new_client = record {
  stream_buf = zero_bytes 256;
  stream_len = 0;
  dgram_buf = zero_bytes 256;
  dgram_len = 0;
}

abbrev pub is_ok : Ended → Bool
is_ok (exited n) = n == 0
is_ok signaled = false

-- No EXPECT of main fails.
abbrev pub passes : Bool → Bool → Client → Ended → Bool
passes announced rc c status =
    let echoed = starts_with payload c.stream_buf && starts_with dgram_payload c.dgram_buf in
    let counted = not (ltb c.stream_len 5) && not (ltb c.dgram_len 5) in
    announced && (rc && (counted && (echoed && is_ok status)))

-- The client and what follows it in main: the exit code, the system calls and the client's calls.
-- `announced` is the first answer of wait_for_ready.
unfoldable pub check_echo :
    HandshakeAnswers → Bool → DaemonHandle → Calls → Option (ℕ × Calls × List ClientCall)
unfolding run_client kill_and_reap
check_echo k announced d t = do
  (rc, c, u) ← run_client k.set_up k.rounds new_client []
  let (d', status, t') = kill_and_reap k.waited k.last d (exited 0) t
  some (if passes announced rc c status then 0 else 1, t', u)

-- What follows spawn_daemon in main: 10 rounds of 500 ms for each wait.
unfoldable pub wait_and_check :
    HandshakeAnswers → DaemonHandle → Calls → Option (ℕ × Calls × List ClientCall)
unfolding wait_for_ready kill_and_reap check_echo
wait_and_check k d t = do
  (first, ps) ← wait_for_ready 10 k.output 5000 k.line
  (second, rest) ← wait_for_ready 10 ps 5000 k.line
  let stopped = kill_and_reap k.waited k.last d (exited 0) t
  if second then check_echo k first d t else some (1, stopped.2, [])

-- The test of `d.pid < 0` and what follows it.
unfoldable pub after_spawn :
    HandshakeAnswers → Bool × DaemonHandle × Calls → Option (ℕ × Calls × List ClientCall)
unfolding wait_and_check
after_spawn k (spawned, d, t) = elim d.pid [
  | negsuc n ↦ some (1, t, [])
  | pos n ↦ wait_and_check k d t
]

unfoldable pub handshake_main : HandshakeAnswers → Option (ℕ × Calls × List ClientCall)
unfolding spawn_daemon after_spawn
handshake_main k = after_spawn k (spawn_daemon k.pipe k.fork no_daemon [])
