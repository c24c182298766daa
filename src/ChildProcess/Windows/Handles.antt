-- ===== src/ChildProcess/Windows/Handles.antt =====
-- Handles and descriptors over the life of a child on Windows.
use webtransportd.Common.{
  ℕ, zero, suc, ◌+◌, ◌-◌, ◌≡◌, ◌<◌, refl, Bool, true, false, List, [], ◌∷◌, Option, none, some, inl,
  inr, Option-cases, arith,
}
use webtransportd.Common.Int.{ℤ, pos, negsuc}
use webtransportd.Cmdline.{wtd_build_cmdline}
use webtransportd.ChildProcess.Descriptors.{same, held}
use webtransportd.ChildProcess.Windows.{
  creates_pipe, closes_handle, keeps_private, creates_process, wraps, closes_fd, kills,
  waits_briefly, waits, WinCalls, WinChild, WinAnswers, close_pair, wrap, unwrap, finish_spawn,
  start_process, start_line, third_pipe, second_pipe, first_pipe, win_child_spawn, close_fd,
  win_reap, win_child_terminate,
}

-- How often a handle was made and neither closed nor handed to a descriptor since.
abbrev pub open_handles : ℕ → WinCalls → ℕ
open_handles h [] = 0
open_handles h (creates_pipe r w ∷ t) = open_handles h t + same r h + same w h
open_handles h (creates_process line p q ∷ t) = open_handles h t + same p h + same q h
open_handles h (closes_handle a ∷ t) = open_handles h t - same a h
open_handles h (wraps a fd ∷ t) = open_handles h t - same a h
open_handles h (keeps_private a ∷ t) = open_handles h t
open_handles h (closes_fd fd ∷ t) = open_handles h t
open_handles h (kills a ∷ t) = open_handles h t
open_handles h (waits_briefly a ∷ t) = open_handles h t
open_handles h (waits a ∷ t) = open_handles h t

abbrev pub open_fds : ℕ → WinCalls → ℕ
open_fds fd [] = 0
open_fds fd (wraps a b ∷ t) = open_fds fd t + same b fd
open_fds fd (closes_fd b ∷ t) = open_fds fd t - same b fd
open_fds fd (creates_pipe r w ∷ t) = open_fds fd t
open_fds fd (creates_process line p q ∷ t) = open_fds fd t
open_fds fd (closes_handle a ∷ t) = open_fds fd t
open_fds fd (keeps_private a ∷ t) = open_fds fd t
open_fds fd (kills a ∷ t) = open_fds fd t
open_fds fd (waits_briefly a ∷ t) = open_fds fd t
open_fds fd (waits a ∷ t) = open_fds fd t

abbrev pub process_handle : ℕ → ℕ → ℕ
process_handle zero h = 0
process_handle (suc p) h = same (suc p) h

-- What a finished spawn has opened beyond `t`: what the struct holds.
abbrev pub Accounts : WinChild → WinCalls → WinCalls → Type 0
Accounts c t' t =
    ((h : ℕ) → open_handles h t' ≡ open_handles h t + process_handle c.pid h)
    × ((fd : ℕ)
        → open_fds fd t'
          ≡ open_fds fd t + held c.stdin_fd fd + held c.stdout_fd fd + held c.stderr_fd fd)

finish_spawn-Accounts :
    (i o e : Option ℕ) (p iw or er : ℕ) (u t : WinCalls)
    → ((h : ℕ)
        → open_handles h u ≡ open_handles h t + same iw h + same or h + same er h + same (suc p) h)
    → ((fd : ℕ) → open_fds fd u ≡ open_fds fd t)
    → let r = finish_spawn i o e iw or er (suc p) (wrap e er (wrap o or (wrap i iw u))) in
      Accounts r.1 r.2 t
unfolding finish_spawn wrap unwrap
finish_spawn-Accounts (some i) (some o) (some e) p iw or er u t eh ef =
    (λ h. omega (arith, eh h), λ fd. omega (arith, ef fd))
finish_spawn-Accounts (some i) (some o) none p iw or er u t eh ef =
    (λ h. omega (arith, eh h), λ fd. omega (arith, ef fd))
finish_spawn-Accounts (some i) none (some e) p iw or er u t eh ef =
    (λ h. omega (arith, eh h), λ fd. omega (arith, ef fd))
finish_spawn-Accounts (some i) none none p iw or er u t eh ef =
    (λ h. omega (arith, eh h), λ fd. omega (arith, ef fd))
finish_spawn-Accounts none (some o) (some e) p iw or er u t eh ef =
    (λ h. omega (arith, eh h), λ fd. omega (arith, ef fd))
finish_spawn-Accounts none (some o) none p iw or er u t eh ef =
    (λ h. omega (arith, eh h), λ fd. omega (arith, ef fd))
finish_spawn-Accounts none none (some e) p iw or er u t eh ef =
    (λ h. omega (arith, eh h), λ fd. omega (arith, ef fd))
finish_spawn-Accounts none none none p iw or er u t eh ef =
    (λ h. omega (arith, eh h), λ fd. omega (arith, ef fd))

-- Windows gives a process a handle that is not NULL.
abbrev pub HasHandle : Option (ℕ × ℕ) → Type 0
HasHandle none = Unit {0}
HasHandle (some (hp, ht)) = 0 < hp

start_process-Accounts :
    (k : WinAnswers) (process : Option (ℕ × ℕ)) (line : List ℕ) (ir iw or ow er ew : ℕ)
    (t : WinCalls)
    → HasHandle process
    → let r = start_process k process line ir iw or ow er ew (
        keeps_private er
        ∷ keeps_private or
        ∷ keeps_private iw
        ∷ creates_pipe er ew
        ∷ creates_pipe or ow
        ∷ creates_pipe ir iw
        ∷ t) in
      Accounts r.1 r.2 t
unfolding start_process
start_process-Accounts k none line ir iw or ow er ew t has = (λ h. omega arith, λ fd. omega arith)
start_process-Accounts k (some (zero, ht)) line ir iw or ow er ew t has = absurd (omega arith)
start_process-Accounts k (some (suc p, ht)) line ir iw or ow er ew t has =
    finish_spawn-Accounts k.in_fd k.out_fd k.err_fd p iw or er _ t (λ h. omega arith)
      (λ fd. omega arith)

third_pipe-Accounts :
    (k : WinAnswers) (argv : List (List ℕ)) (pipe : Option (ℕ × ℕ)) (ir iw or ow : ℕ) (t : WinCalls)
    → HasHandle k.process
    → let r = third_pipe k argv pipe ir iw or ow (creates_pipe or ow ∷ creates_pipe ir iw ∷ t) in
      Accounts r.1 r.2 t
unfolding third_pipe start_line close_pair
third_pipe-Accounts k argv none ir iw or ow t has = (λ h. omega arith, λ fd. omega arith)
third_pipe-Accounts k argv (some (er, ew)) ir iw or ow t has =
    elim (Option-cases (wtd_build_cmdline argv 4096)) [
      | inl long ↦ rw long (λ h. omega arith, λ fd. omega arith)
      | inr (line, built) ↦
          rw built (start_process-Accounts k k.process line ir iw or ow er ew t has)
    ]

second_pipe-Accounts :
    (k : WinAnswers) (argv : List (List ℕ)) (pipe : Option (ℕ × ℕ)) (ir iw : ℕ) (t : WinCalls)
    → HasHandle k.process
    → let r = second_pipe k argv pipe ir iw (creates_pipe ir iw ∷ t) in Accounts r.1 r.2 t
unfolding second_pipe close_pair
second_pipe-Accounts k argv none ir iw t has = (λ h. omega arith, λ fd. omega arith)
second_pipe-Accounts k argv (some (or, ow)) ir iw t has =
    third_pipe-Accounts k argv k.err_pipe ir iw or ow t has

first_pipe-Accounts :
    (k : WinAnswers) (argv : List (List ℕ)) (pipe : Option (ℕ × ℕ)) (t : WinCalls)
    → HasHandle k.process
    → let r = first_pipe k argv pipe t in Accounts r.1 r.2 t
unfolding first_pipe
first_pipe-Accounts k argv none t has = (λ h. omega arith, λ fd. omega arith)
first_pipe-Accounts k argv (some (ir, iw)) t has =
    second_pipe-Accounts k argv k.out_pipe ir iw t has

win_spawn-Accounts :
    (k : WinAnswers) (argv : List (List ℕ)) (t : WinCalls)
    → HasHandle k.process
    → let r = win_child_spawn k argv t in Accounts r.1 r.2 t
unfolding win_child_spawn
win_spawn-Accounts k [] t has = (λ h. omega arith, λ fd. omega arith)
win_spawn-Accounts k (a ∷ argv) t has = first_pipe-Accounts k (a ∷ argv) k.in_pipe t has

close_fd-open :
    (p : ℤ) (h fd : ℕ) (t : WinCalls)
    → (open_handles h (close_fd p t).1 ≡ open_handles h t)
      × (open_fds fd (close_fd p t).1 ≡ open_fds fd t - held p fd)
unfolding close_fd
close_fd-open (pos a) h fd t = (refl, refl)
close_fd-open (negsuc n) h fd t = (refl, omega arith)

win_reap-open :
    (exits : Bool) (p h fd : ℕ) (t : WinCalls)
    → (open_handles h (win_reap exits p t) ≡ open_handles h t - process_handle p h)
      × (open_fds fd (win_reap exits p t) ≡ open_fds fd t)
unfolding win_reap
win_reap-open exits zero h fd t = (omega arith, refl)
win_reap-open true (suc p) h fd t = (refl, refl)
win_reap-open false (suc p) h fd t = (refl, refl)

terminate-open :
    (exits : Bool) (c : WinChild) (h fd : ℕ) (t : WinCalls)
    → (open_handles h (win_child_terminate exits c t).1 ≡ open_handles h t - process_handle c.pid h)
      × (open_fds fd (win_child_terminate exits c t).1
          ≡ open_fds fd t - (held c.stdin_fd fd + held c.stdout_fd fd + held c.stderr_fd fd))
unfolding win_child_terminate
terminate-open exits c h fd t =
    let (f1, t1) = close_fd c.stdin_fd t in
    let t2 = win_reap exits c.pid t1 in
    let (f2, t3) = close_fd c.stdout_fd t2 in
    omega (
      arith,
      close_fd-open c.stdin_fd h fd t,
      win_reap-open exits c.pid h fd t1,
      close_fd-open c.stdout_fd h fd t2,
      close_fd-open c.stderr_fd h fd t3,
    )

-- On Windows too a spawn, failed at any point, and a terminate leave every handle and every
-- descriptor open as often as before, also where _open_osfhandle wraps only some of the pipes; the
-- hypothesis is that a process comes with a handle that is not NULL.
pub win_spawn-terminate :
    (k : WinAnswers) (argv : List (List ℕ)) (exits : Bool) (t : WinCalls) (h fd : ℕ)
    → HasHandle k.process
    → let (rc, c, t1) = win_child_spawn k argv t in
      let t2 = (win_child_terminate exits c t1).1 in
      (open_handles h t2 ≡ open_handles h t) × (open_fds fd t2 ≡ open_fds fd t)
win_spawn-terminate k argv exits t h fd has =
    let (rc, c, t1) = win_child_spawn k argv t in
    let (handles, fds) = win_spawn-Accounts k argv t has in
    omega (arith, handles h, fds fd, terminate-open exits c h fd t1)
