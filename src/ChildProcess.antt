-- ===== src/ChildProcess.antt =====
-- adapters/child_process.h and the POSIX half of adapters/child_process.c: the life of a child.
-- The system calls are recorded, the newest first; what the kernel answers is an argument. A file
-- descriptor is a natural number for the kernel and an int in wtd_child_t, where -1 is none. The
-- side of the fork that becomes the child is `child_side`.
pub mod Descriptors
pub mod Windows
use webtransportd.Common.{
  ℕ, zero, suc, ◌+◌, ◌-◌, Bool, true, false, List, [], ◌∷◌, Option, none, some, ◌==◌, ltb,
  if◌then◌else◌,
}
use webtransportd.Common.Int.{ℤ, pos, negsuc, minus_one}

-- `reaps` stands behind a poll that gave the pid: the kernel's entry of the child is gone.
pub data SysCall : Type 0 where
  opens_pipe : ℕ → ℕ → SysCall
  forks : ℕ → SysCall
  closes sets_cloexec sets_nonblock : ℕ → SysCall
  dups : ℕ → ℕ → SysCall
  execs : SysCall
  terms kills polls reaps waits : ℕ → SysCall
  naps : SysCall

abbrev pub Calls : Type 0
Calls = List SysCall

-- wtd_child_t
pub record Child : Type 0 where
  pub pid : ℤ
  pub stdin_fd : ℤ
  pub stdout_fd : ℤ
  pub stderr_fd : ℤ

-- -e for an errno e
abbrev pub negative : ℕ → ℤ
negative zero = pos 0
negative (suc e) = negsuc e

-- What pipe(2) answers: the two ends, or the errno.
pub data PipeAnswer : Type 0 where
  ends : ℕ → ℕ → PipeAnswer
  no_pipe : ℕ → PipeAnswer

-- What fork(2) answers in the parent.
pub data ForkAnswer : Type 0 where
  parent_of : ℕ → ForkAnswer
  no_fork : ℕ → ForkAnswer

-- `flags` says whether fcntl(2) reads the flags of a descriptor.
pub record SpawnAnswers : Type 0 where
  pub in_pipe : PipeAnswer
  pub out_pipe : PipeAnswer
  pub err_pipe : PipeAnswer
  pub fork : ForkAnswer
  pub flags : ℕ → Bool

unfoldable pub set_cloexec : (ℕ → Bool) → ℕ → Calls → Calls
set_cloexec flags fd t = if flags fd then sets_cloexec fd ∷ t else t

abbrev pub set_nonblock : (ℕ → Bool) → ℕ → Calls → Calls
set_nonblock flags fd t = if flags fd then sets_nonblock fd ∷ t else t

unfoldable pub close_pair : ℕ → ℕ → Calls → Calls
close_pair r w t = closes w ∷ closes r ∷ t

abbrev pub no_child : Child
no_child = record {
  pid = minus_one;
  stdin_fd = minus_one;
  stdout_fd = minus_one;
  stderr_fd = minus_one;
}

-- The child's side of the fork, up to execvp; `_exit(127)` follows where that fails.
unfoldable pub child_side : ℕ → ℕ → ℕ → ℕ → ℕ → ℕ → Calls → Calls
child_side ir iw or ow er ew t =
    execs
    ∷ closes ew
    ∷ closes er
    ∷ closes ow
    ∷ closes or
    ∷ closes iw
    ∷ closes ir
    ∷ dups ew 2
    ∷ dups ow 1
    ∷ dups ir 0
    ∷ t

-- The parent's side, from the fork's answer on.
unfoldable pub spawn_forked : SpawnAnswers → ℕ → ℕ → ℕ → ℕ → ℕ → ℕ → Calls → ℤ × Child × Calls
unfolding close_pair set_cloexec
spawn_forked k ir iw or ow er ew t = elim k.fork [
  | no_fork e ↦ (negative e, no_child, close_pair er ew (close_pair or ow (close_pair ir iw t)))
  | parent_of pid ↦ (
    pos 0,
    record { pid = pos pid; stdin_fd = pos iw; stdout_fd = pos or; stderr_fd = pos er },
    set_nonblock k.flags iw (
        set_cloexec k.flags er (
          set_cloexec k.flags or
            (set_cloexec k.flags iw (closes ew ∷ closes ow ∷ closes ir ∷ forks pid ∷ t)))),
  )
]

-- EINVAL
abbrev pub einval : ℕ
einval = 22

-- wtd_child_spawn: the code, *out and the calls; `has_program` says that argv[0] is there.
unfoldable pub wtd_child_spawn : SpawnAnswers → Bool → Calls → ℤ × Child × Calls
unfolding spawn_forked close_pair
wtd_child_spawn k has_program t =
    if has_program
    then elim k.in_pipe [
      | no_pipe e ↦ (negative e, no_child, t)
      | ends ir iw ↦
          let t1 = opens_pipe ir iw ∷ t in
          elim k.out_pipe [
            | no_pipe e ↦ (negative e, no_child, close_pair ir iw t1)
            | ends or ow ↦
                let t2 = opens_pipe or ow ∷ t1 in
                elim k.err_pipe [
                  | no_pipe e ↦ (negative e, no_child, close_pair or ow (close_pair ir iw t2))
                  | ends er ew ↦ spawn_forked k ir iw or ow er ew (opens_pipe er ew ∷ t2)
                ]
          ]
    ]
    else (negative einval, no_child, t)

-- close_fd: the new value of the field, and the calls
unfoldable pub close_fd : ℤ → Calls → ℤ × Calls
close_fd (pos fd) t = (minus_one, closes fd ∷ t)
close_fd (negsuc n) t = (negsuc n, t)

-- What waitpid(pid, &status, WNOHANG) answers: the pid, 0, EINTR, or another error.
pub data Waited : Type 0 where
  reaped running interrupted lost : Waited

-- One round of the loop of wtd_child_terminate after its waitpid: the child is reaped, or the loop
-- is left with the pid in place, or the rounds that follow the nap decide.
unfoldable pub poll_round : Waited → ℕ → ℤ × Calls → Calls → ℤ × Calls
poll_round reaped pid later t = (minus_one, reaps pid ∷ t)
poll_round lost pid later t = (pos pid, t)
poll_round running pid later t = later
poll_round interrupted pid later t = later

-- The loop, on the rounds that are left: the pid that stands in the field afterwards. The answers of
-- waitpid are numbered by those rounds.
unfoldable pub poll : ℕ → (ℕ → Waited) → ℕ → Calls → ℤ × Calls
unfolding poll_round
poll zero answers pid t = (pos pid, t)
poll (suc n) answers pid t =
    let later = poll n answers pid (naps ∷ polls pid ∷ t) in
    poll_round (answers n) pid later (polls pid ∷ t)

-- SIGKILL and the blocking waitpid, where the loop left the pid in place.
unfoldable pub force : ℤ × Calls → ℤ × Calls
force (pos zero, t) = (pos zero, t)
force (pos (suc n), t) = (minus_one, waits (suc n) ∷ kills (suc n) ∷ t)
force (negsuc n, t) = (negsuc n, t)

-- The part of wtd_child_terminate that is under `child->pid > 0`.
unfoldable pub reap : (ℕ → Waited) → ℤ → Calls → ℤ × Calls
unfolding poll force
reap answers (pos zero) t = (pos zero, t)
reap answers (pos (suc n)) t = force (poll 50 answers (suc n) (terms (suc n) ∷ t))
reap answers (negsuc n) t = (negsuc n, t)

unfoldable pub wtd_child_terminate : (ℕ → Waited) → Child → Calls → Child × Calls
unfolding close_fd reap
wtd_child_terminate answers c t =
    let (stdin_fd, t1) = close_fd c.stdin_fd t in
    let (pid, t2) = reap answers c.pid t1 in
    let (stdout_fd, t3) = close_fd c.stdout_fd t2 in
    let (stderr_fd, t4) = close_fd c.stderr_fd t3 in
    (record { pid = pid; stdin_fd = stdin_fd; stdout_fd = stdout_fd; stderr_fd = stderr_fd }, t4)
