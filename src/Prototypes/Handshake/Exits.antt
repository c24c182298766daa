-- ===== src/Prototypes/Handshake/Exits.antt =====
-- How prototypes/handshake_echo_http3.c ends.
use webtransportd.Common.{
  ℕ, zero, suc, ◌-◌, ◌≡◌, ◌≤◌, ◌⊎◌, refl, ap, ◌∙◌, inl, inr, Bool, true, false, ◌&&◌, List, [], ◌∷◌,
  Option, none, some, if◌then◌else◌, length, arith, All, Bool-cases,
}
use webtransportd.Common.Int.{ℤ, pos, negsuc}
use webtransportd.ChildProcess.{
  Calls, terms, polls, naps, PipeAnswer, ends, no_pipe, ForkAnswer, parent_of, no_fork,
}
use webtransportd.ChildProcess.Descriptors.{opened, held, close_fd-opened}
use webtransportd.Prototypes.Client.{ClientCall}
use webtransportd.Prototypes.Client.Rounds.{
  open_sockets, open_quics, handed_over, both_payloads, IsHolding, IsRound, run_client-Ran,
}
use webtransportd.Prototypes.Handshake.{
  DaemonHandle, Ended, exited, line_cap, spawn_daemon, daemon_round, poll_daemon, force_daemon,
  stop_daemon, kill_and_reap, HandshakeAnswers, no_daemon, new_client, passes, check_echo,
  wait_and_check, after_spawn, handshake_main,
}
use webtransportd.Prototypes.Handshake.Reading.{bytes_of}
use webtransportd.Prototypes.Handshake.Ready.{IsTwice, waits-IsTwice}

daemon_round-opened :
    (answer : Option Ended) (fd : ℕ) (later : Option Ended × Calls) (t : Calls)
    → opened fd later.1 ≡ opened fd t
    → opened fd (daemon_round answer later t).1 ≡ opened fd t
unfolding daemon_round
daemon_round-opened none fd later t e = e
daemon_round-opened (some st) fd later t e = refl

poll_daemon-opened :
    (n : ℕ) (answers : ℕ → Option Ended) (pid fd : ℕ) (t : Calls)
    → opened fd (poll_daemon n answers pid t).1 ≡ opened fd t
unfolding poll_daemon
poll_daemon-opened zero answers pid fd t = refl
poll_daemon-opened (suc n) answers pid fd t =
    daemon_round-opened (answers n) fd (poll_daemon n answers pid (naps ∷ polls pid ∷ t))
      (polls pid ∷ t) (poll_daemon-opened n answers pid fd (naps ∷ polls pid ∷ t))

force_daemon-opened :
    (last : Ended) (pid fd : ℕ) (st : Option Ended) (t : Calls)
    → opened fd (force_daemon last pid (st, t)).1 ≡ opened fd t
unfolding force_daemon
force_daemon-opened last pid fd none t = refl
force_daemon-opened last pid fd (some st) t = refl

stop_daemon-opened :
    (answers : ℕ → Option Ended) (last : Ended) (pid : ℤ) (status : Ended) (fd : ℕ) (t : Calls)
    → opened fd (stop_daemon answers last pid status t).2 ≡ opened fd t
unfolding stop_daemon
stop_daemon-opened answers last (pos zero) status fd t = refl
stop_daemon-opened answers last (pos (suc n)) status fd t =
    let (st, t') = poll_daemon 100 answers (suc n) (terms (suc n) ∷ t) in
    force_daemon-opened last (suc n) fd st t'
    ∙ poll_daemon-opened 100 answers (suc n) fd (terms (suc n) ∷ t)
stop_daemon-opened answers last (negsuc n) status fd t = refl

kill_and_reap-opened :
    (answers : ℕ → Option Ended) (last : Ended) (d : DaemonHandle) (status : Ended) (fd : ℕ)
    (t : Calls)
    → opened fd (kill_and_reap answers last d status t).2 ≡ opened fd t - held d.stdout_fd fd
unfolding kill_and_reap
kill_and_reap-opened answers last d status fd t =
    let (pid, status', t1) = stop_daemon answers last d.pid status t in
    close_fd-opened d.stdout_fd fd t1
    ∙ ap (λ n. n - held d.stdout_fd fd) (stop_daemon-opened answers last d.pid status fd t)

spawn_daemon-opened :
    (k : PipeAnswer) (fork : ForkAnswer) (fd : ℕ)
    → let (spawned, d, t) = spawn_daemon k fork no_daemon [] in opened fd t ≡ held d.stdout_fd fd
unfolding spawn_daemon
spawn_daemon-opened (no_pipe e) fork fd = refl
spawn_daemon-opened (ends r w) (no_fork e) fd = omega arith
spawn_daemon-opened (ends r w) (parent_of pid) fd = omega arith

-- The client's buffers, as main clears them, hold nothing.
new_client-IsHolding : IsHolding new_client
new_client-IsHolding =
    ([], [], record { of_stream = (_, refl, refl, refl); of_dgrams = (_, refl, refl, refl) })

-- How main ends: nothing stays open, and 0 is answered only if the daemon has announced itself twice
-- and both payloads were handed over.
abbrev pub Ends : HandshakeAnswers → Option (ℕ × Calls × List ClientCall) → Type 0
Ends k answer =
    (code : ℕ) × (t : Calls) × (u : List ClientCall) × (answer ≡ some (code, t, u))
    × (code ≤ 1)
    × ((fd : ℕ) → opened fd t ≡ 0)
    × (open_sockets u ≡ 0)
    × (open_quics u ≡ 0)
    × (code ≡ 0 → IsTwice (bytes_of k.output) × (handed_over u ≡ both_payloads))

closed_all :
    (answers : ℕ → Option Ended) (last : Ended) (d : DaemonHandle) (t : Calls)
    → ((fd : ℕ) → opened fd t ≡ held d.stdout_fd fd)
    → (fd : ℕ) → opened fd (kill_and_reap answers last d (exited 0) t).2 ≡ 0
closed_all answers last d t own fd =
    let left = kill_and_reap-opened answers last d (exited 0) fd t in omega (arith, own fd)

exit_code_le : (passed : Bool) → (if passed then 0 else 1) ≤ 1
exit_code_le true = omega arith
exit_code_le false = omega arith

exit_code_zero : (passed : Bool) → ◌≡◌ {A = ℕ} (if passed then 0 else 1) 0 → passed ≡ true
exit_code_zero true e = refl
exit_code_zero false e = absurd (omega arith)

left : (a b : Bool) → (a && b) ≡ true → a ≡ true
left true b e = refl
left false b e = e

right : (a b : Bool) → (a && b) ≡ true → b ≡ true
right true b e = e
right false b e = cc

check_echo-Ends :
    (k : HandshakeAnswers) (announced : Bool) (d : DaemonHandle) (t : Calls)
    → All IsRound k.rounds
    → ((fd : ℕ) → opened fd t ≡ held d.stdout_fd fd)
    → (announced ≡ true → IsTwice (bytes_of k.output))
    → Ends k (check_echo k announced d t)
unfolding check_echo
check_echo-Ends k announced d t short own told =
    let (rc, c, u, e, ran) =
      run_client-Ran k.set_up k.rounds new_client short new_client-IsHolding in
    let (d', status, t') = kill_and_reap k.waited k.last d (exited 0) t in
    let code = if passes announced rc c status then 0 else 1 in
    (
      code,
      t',
      u,
      rw e refl,
      exit_code_le (passes announced rc c status),
      closed_all k.waited k.last d t own,
      ran.no_socket,
      ran.no_quic,
      λ zero_code.
          let passed = exit_code_zero (passes announced rc c status) zero_code in
          let (echoed, _, _) = ran.answered (left rc _ (right announced _ passed)) in
          (told (left announced _ passed), echoed),
    )

wait_and_check-Ends :
    (k : HandshakeAnswers) (d : DaemonHandle) (t : Calls)
    → length k.line ≡ line_cap
    → All IsRound k.rounds
    → ((fd : ℕ) → opened fd t ≡ held d.stdout_fd fd)
    → Ends k (wait_and_check k d t)
unfolding wait_and_check
wait_and_check-Ends k d t size short own =
    let (first, second, ps1, ps2, wait1, wait2, told) = waits-IsTwice k.output k.line size in
    elim (Bool-cases second) [
      | inl ready ↦
          let twice : first ≡ true → IsTwice (bytes_of k.output) = λ e. told e ready in
          rw (wait1, wait2, ready) (check_echo-Ends k first d t short own twice)
      | inr late ↦
          rw (wait1, wait2, late)
            (
              1,
              _,
              [],
              refl,
              omega arith,
              closed_all k.waited k.last d t own,
              refl,
              refl,
              λ e. absurd (omega arith),
            )
    ]

spawn_daemon-cases :
    (pipe : PipeAnswer) (fork : ForkAnswer)
    → ((t : Calls) × (spawn_daemon pipe fork no_daemon [] ≡ (false, no_daemon, t)))
      ⊎ ((pid : ℕ) × (r : ℕ) × (t : Calls) × (spawn_daemon pipe fork no_daemon []
            ≡ (true, record { pid = pos pid; stdout_fd = pos r }, t)))
unfolding spawn_daemon
spawn_daemon-cases (no_pipe e) fork = inl (_, refl)
spawn_daemon-cases (ends r w) (no_fork e) = inl (_, refl)
spawn_daemon-cases (ends r w) (parent_of pid) = inr (pid, r, _, refl)

-- For all answers of pipe, fork, select, read, waitpid, the sockets and picoquic, with a line buffer of
-- its declared size and chunks of less than 2^63 bytes: main ends with 0 or 1 without an access outside a
-- buffer, and every pipe end, socket and QUIC context that it opened is closed. It ends with 0 only
-- if the daemon's output has "server ready" in two places, since main waits for it twice, and both
-- payloads were handed over.
pub handshake_main-Ends :
    (k : HandshakeAnswers)
    → length k.line ≡ line_cap
    → All IsRound k.rounds
    → Ends k (handshake_main k)
unfolding handshake_main after_spawn
handshake_main-Ends k size short =
    let own = spawn_daemon-opened k.pipe k.fork in
    elim (spawn_daemon-cases k.pipe k.fork) [
      | inl (t, e) ↦
          let closed = rw e at own in
          rw e (1, t, [], refl, omega arith, closed, refl, refl, λ z. absurd (omega arith))
      | inr (pid, r, t, e) ↦
          let d : DaemonHandle = record { pid = pos pid; stdout_fd = pos r } in
          rw e (wait_and_check-Ends k d t size short (rw e at own))
    ]
