-- ===== src/ChildProcess/Descriptors.antt =====
-- File descriptors and processes over the life of a child: nothing is left open, nothing unreaped.
use webtransportd.Common.{
  ℕ, zero, suc, ◌+◌, ◌-◌, ◌≡◌, refl, ◌∙◌, Bool, true, false, ◌&&◌, [], ◌∷◌, ◌⊎◌, inl, inr, ◌==◌,
  if◌then◌else◌, arith, Bool-cases,
}
use webtransportd.Common.Int.{ℤ, pos, negsuc, minus_one}
use webtransportd.ChildProcess.{
  opens_pipe, forks, closes, sets_cloexec, sets_nonblock, dups, execs, terms, kills, polls, reaps,
  waits, naps, Calls, Child, PipeAnswer, ends, no_pipe, ForkAnswer, parent_of, no_fork,
  SpawnAnswers, no_child, negative, einval, set_cloexec, set_nonblock, close_pair, spawn_forked,
  wtd_child_spawn, close_fd, Waited, reaped, running, interrupted, lost, poll_round, poll, force,
  reap, wtd_child_terminate,
}

unfoldable pub same : ℕ → ℕ → ℕ
same a b = if a == b then 1 else 0

-- How often a descriptor was opened and not closed since.
abbrev pub opened : ℕ → Calls → ℕ
opened fd [] = 0
opened fd (opens_pipe r w ∷ t) = opened fd t + same r fd + same w fd
opened fd (closes a ∷ t) = opened fd t - same a fd
opened fd (forks p ∷ t) = opened fd t
opened fd (sets_cloexec a ∷ t) = opened fd t
opened fd (sets_nonblock a ∷ t) = opened fd t
opened fd (dups a b ∷ t) = opened fd t
opened fd (execs ∷ t) = opened fd t
opened fd (terms p ∷ t) = opened fd t
opened fd (kills p ∷ t) = opened fd t
opened fd (polls p ∷ t) = opened fd t
opened fd (reaps p ∷ t) = opened fd t
opened fd (waits p ∷ t) = opened fd t
opened fd (naps ∷ t) = opened fd t

-- The descriptor that a field holds, counted.
abbrev pub held : ℤ → ℕ → ℕ
held (pos a) fd = same a fd
held (negsuc n) fd = 0

abbrev pub holds : Child → ℕ → ℕ
holds c fd = held c.stdin_fd fd + held c.stdout_fd fd + held c.stderr_fd fd

set_cloexec-opened :
    (flags : ℕ → Bool) (fd a : ℕ) (t : Calls) → opened fd (set_cloexec flags a t) ≡ opened fd t
unfolding set_cloexec
set_cloexec-opened flags fd a t = elim (Bool-cases (flags a)) [
  | inl e ↦ rw e refl
  | inr e ↦ rw e refl
]

set_nonblock-opened :
    (flags : ℕ → Bool) (fd a : ℕ) (t : Calls) → opened fd (set_nonblock flags a t) ≡ opened fd t
set_nonblock-opened flags fd a t = elim (Bool-cases (flags a)) [
  | inl e ↦ rw e refl
  | inr e ↦ rw e refl
]

-- What a finished spawn has opened and what it answers.
abbrev pub Spawned : SpawnAnswers → ℤ × Child × Calls → Calls → Type 0
Spawned k (rc, c, t') t =
    ((fd : ℕ) → opened fd t' ≡ opened fd t + holds c fd)
    × (((rc ≡ pos 0) × (p : ℕ) × (c.pid ≡ pos p) × (k.fork ≡ parent_of p))
        ⊎ ((c ≡ no_child) × (e : ℕ) × (rc ≡ negative e)))

PipeAnswer-cases :
    (k : PipeAnswer) → ((r : ℕ) × (w : ℕ) × (k ≡ ends r w)) ⊎ ((e : ℕ) × (k ≡ no_pipe e))
PipeAnswer-cases (ends r w) = inl (r, w, refl)
PipeAnswer-cases (no_pipe e) = inr (e, refl)

ForkAnswer-cases : (k : ForkAnswer) → ((p : ℕ) × (k ≡ parent_of p)) ⊎ ((e : ℕ) × (k ≡ no_fork e))
ForkAnswer-cases (parent_of p) = inl (p, refl)
ForkAnswer-cases (no_fork e) = inr (e, refl)

set_flags-opened :
    (flags : ℕ → Bool) (fd iw or er : ℕ) (t : Calls)
    → opened fd (
        set_nonblock flags iw
          (set_cloexec flags er (set_cloexec flags or (set_cloexec flags iw t))))
      ≡ opened fd t
set_flags-opened flags fd iw or er t =
    set_nonblock-opened flags fd iw _
    ∙ set_cloexec-opened flags fd er _
    ∙ set_cloexec-opened flags fd or _
    ∙ set_cloexec-opened flags fd iw t

spawn_forked_lem :
    (k : SpawnAnswers) (ir iw or ow er ew : ℕ) (t : Calls)
    → Spawned k
        (spawn_forked k ir iw or ow er ew
          (opens_pipe er ew ∷ opens_pipe or ow ∷ opens_pipe ir iw ∷ t))
        t
unfolding spawn_forked close_pair
spawn_forked_lem k ir iw or ow er ew t = elim (ForkAnswer-cases k.fork) [
  | inl (p, e) ↦
      rw e (λ fd. set_flags-opened k.flags fd iw or er _ ∙ omega arith, inl (refl, p, refl, refl))
  | inr (e, failed) ↦ rw failed (λ fd. omega arith, inr (refl, e, refl))
]

-- Whatever pipe(2) and fork(2) answer, a spawn leaves open no descriptor but the three that it
-- stores in *out; where it fails it leaves *out without a child and without descriptors.
pub spawn-opened :
    (k : SpawnAnswers) (has_program : Bool) (t : Calls)
    → Spawned k (wtd_child_spawn k has_program t) t
unfolding wtd_child_spawn close_pair
spawn-opened k false t = (λ fd. omega arith, inr (refl, einval, refl))
spawn-opened k true t = elim (PipeAnswer-cases k.in_pipe) [
  | inr (e, failed) ↦ rw failed (λ fd. omega arith, inr (refl, e, refl))
  | inl (ir, iw, e1) ↦ elim (PipeAnswer-cases k.out_pipe) [
    | inr (e, failed) ↦ rw (e1, failed) (λ fd. omega arith, inr (refl, e, refl))
    | inl (or, ow, e2) ↦ elim (PipeAnswer-cases k.err_pipe) [
      | inr (e, failed) ↦ rw (e1, e2, failed) (λ fd. omega arith, inr (refl, e, refl))
      | inl (er, ew, e3) ↦ rw (e1, e2, e3) (spawn_forked_lem k ir iw or ow er ew t)
    ]
  ]
]

poll_round-opened :
    (w : Waited) (pid fd : ℕ) (later : ℤ × Calls) (t : Calls)
    → opened fd later.1 ≡ opened fd t
    → opened fd (poll_round w pid later t).1 ≡ opened fd t
unfolding poll_round
poll_round-opened reaped pid fd later t e = refl
poll_round-opened lost pid fd later t e = refl
poll_round-opened running pid fd later t e = e
poll_round-opened interrupted pid fd later t e = e

poll-opened :
    (n : ℕ) (answers : ℕ → Waited) (pid fd : ℕ) (t : Calls)
    → opened fd (poll n answers pid t).1 ≡ opened fd t
unfolding poll
poll-opened zero answers pid fd t = refl
poll-opened (suc n) answers pid fd t =
    poll_round-opened (answers n) pid fd (poll n answers pid (naps ∷ polls pid ∷ t)) (polls pid ∷ t)
      (poll-opened n answers pid fd (naps ∷ polls pid ∷ t))

force-opened : (fd : ℕ) (p : ℤ) (t : Calls) → opened fd (force (p, t)).1 ≡ opened fd t
unfolding force
force-opened fd (pos zero) t = refl
force-opened fd (pos (suc n)) t = refl
force-opened fd (negsuc n) t = refl

reap-opened :
    (answers : ℕ → Waited) (p : ℤ) (fd : ℕ) (t : Calls)
    → opened fd (reap answers p t).1 ≡ opened fd t
unfolding reap
reap-opened answers (pos zero) fd t = refl
reap-opened answers (pos (suc n)) fd t =
    let (p, t') = poll 50 answers (suc n) (terms (suc n) ∷ t) in
    force-opened fd p t' ∙ poll-opened 50 answers (suc n) fd (terms (suc n) ∷ t)
reap-opened answers (negsuc n) fd t = refl

pub close_fd-opened :
    (p : ℤ) (fd : ℕ) (t : Calls) → opened fd (close_fd p t).1 ≡ opened fd t - held p fd
unfolding close_fd
close_fd-opened (pos a) fd t = refl
close_fd-opened (negsuc n) fd t = omega arith

-- Whatever waitpid answers: terminate closes each descriptor of the child once and no other.
terminate-opened :
    (answers : ℕ → Waited) (c : Child) (t : Calls) (fd : ℕ)
    → opened fd (wtd_child_terminate answers c t).1 ≡ opened fd t - holds c fd
unfolding wtd_child_terminate
terminate-opened answers c t fd =
    let (f1, t1) = close_fd c.stdin_fd t in
    let (p, t2) = reap answers c.pid t1 in
    let (f2, t3) = close_fd c.stdout_fd t2 in
    omega (
      arith,
      close_fd-opened c.stdin_fd fd t,
      reap-opened answers c.pid fd t1,
      close_fd-opened c.stdout_fd fd t2,
      close_fd-opened c.stderr_fd fd t3,
    )

-- Whatever pipe(2), fork(2) and waitpid(2) answer: after a spawn, also a failed one, and a
-- terminate, every descriptor is open as often as it was before.
pub spawn-terminate :
    (k : SpawnAnswers) (answers : ℕ → Waited) (has_program : Bool) (t : Calls) (fd : ℕ)
    → let (rc, c, t') = wtd_child_spawn k has_program t in
      opened fd (wtd_child_terminate answers c t').1 ≡ opened fd t
spawn-terminate k answers has_program t fd =
    let (rc, c, t') = wtd_child_spawn k has_program t in
    let (more, _) = spawn-opened k has_program t in
    omega (arith, terminate-opened answers c t' fd, more fd)

-- Whether the last call sent SIGKILL to a process.
abbrev is_killed : ℕ → Calls → Bool
is_killed p [] = false
is_killed p (c ∷ t) = elim c [ kills q ↦ q == p | _ ↦ false ]

-- How often a process was collected: by a poll that gave its pid, or by the blocking waitpid right
-- behind SIGKILL.
abbrev pub reapings : ℕ → Calls → ℕ
reapings p [] = 0
reapings p (reaps q ∷ t) = if q == p then suc (reapings p t) else reapings p t
reapings p (waits q ∷ t) = if q == p && is_killed p t then suc (reapings p t) else reapings p t
reapings p (opens_pipe r w ∷ t) = reapings p t
reapings p (closes a ∷ t) = reapings p t
reapings p (forks q ∷ t) = reapings p t
reapings p (sets_cloexec a ∷ t) = reapings p t
reapings p (sets_nonblock a ∷ t) = reapings p t
reapings p (dups a b ∷ t) = reapings p t
reapings p (execs ∷ t) = reapings p t
reapings p (terms q ∷ t) = reapings p t
reapings p (kills q ∷ t) = reapings p t
reapings p (polls q ∷ t) = reapings p t
reapings p (naps ∷ t) = reapings p t

-- The loop of polls: the pid is gone from the field and the child collected once, or neither.
abbrev Polled : ℕ → ℕ → ℤ × Calls → Type 0
Polled n pid (p, t) =
    ((p ≡ minus_one) × (reapings pid t ≡ suc n)) ⊎ ((p ≡ pos pid) × (reapings pid t ≡ n))

-- The end of reap: no pid in the field, and the child collected once more than before.
abbrev Collected : ℕ → ℕ → ℤ × Calls → Type 0
Collected n pid (p, t) = (p ≡ minus_one) × (reapings pid t ≡ suc n)

-- A child that runs, as wtd_child_spawn leaves it, or none.
abbrev pub IsSpawned : Child → Type 0
IsSpawned c =
    ((p : ℕ) × (i : ℕ) × (o : ℕ) × (e : ℕ) × (c
        ≡ record { pid = pos (suc p); stdin_fd = pos i; stdout_fd = pos o; stderr_fd = pos e }))
    ⊎ (c ≡ no_child)
