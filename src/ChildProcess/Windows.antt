-- ===== src/ChildProcess/Windows.antt =====
-- The Win32 half of adapters/child_process.c. The calls of the Windows API and of the C runtime are
-- recorded, the newest first, and what they answer is an argument. A handle is a natural number that
-- is not 0 (NULL); _open_osfhandle makes a handle the property of a file descriptor.
pub mod Handles
use webtransportd.Common.{
  ℕ, zero, suc, ◌+◌, ◌-◌, Bool, true, false, List, [], ◌∷◌, ◌++◌, Option, none, some, ◌==◌,
  if◌then◌else◌,
}
use webtransportd.Common.Int.{ℤ, pos, negsuc, minus_one}
use webtransportd.Cmdline.{wtd_build_cmdline}
use webtransportd.ChildProcess.{negative, einval}

pub data WinCall : Type 0 where
  creates_pipe : ℕ → ℕ → WinCall
  closes_handle keeps_private : ℕ → WinCall
  creates_process : List ℕ → ℕ → ℕ → WinCall
  wraps : ℕ → ℕ → WinCall
  closes_fd : ℕ → WinCall
  kills waits_briefly waits : ℕ → WinCall

abbrev pub WinCalls : Type 0
WinCalls = List WinCall

-- wtd_child_t; a pid of 0 is NULL.
pub record WinChild : Type 0 where
  pub pid : ℕ
  pub stdin_fd : ℤ
  pub stdout_fd : ℤ
  pub stderr_fd : ℤ

-- What CreatePipe, CreateProcessA (the process and its thread) and _open_osfhandle answer.
pub record WinAnswers : Type 0 where
  pub in_pipe : Option (ℕ × ℕ)
  pub out_pipe : Option (ℕ × ℕ)
  pub err_pipe : Option (ℕ × ℕ)
  pub process : Option (ℕ × ℕ)
  pub in_fd : Option ℕ
  pub out_fd : Option ℕ
  pub err_fd : Option ℕ

abbrev pub no_child : WinChild
no_child = record { pid = 0; stdin_fd = minus_one; stdout_fd = minus_one; stderr_fd = minus_one }

-- EIO, E2BIG
abbrev pub eio : ℕ
eio = 5

abbrev pub e2big : ℕ
e2big = 7

unfoldable pub close_pair : ℕ → ℕ → WinCalls → WinCalls
close_pair r w t = closes_handle w ∷ closes_handle r ∷ t

-- _open_osfhandle
unfoldable pub wrap : Option ℕ → ℕ → WinCalls → WinCalls
wrap none h t = t
wrap (some fd) h t = wraps h fd ∷ t

-- `if (fd >= 0) _close(fd); else close_handle(&h);`
unfoldable pub unwrap : Option ℕ → ℕ → WinCalls → WinCalls
unwrap none h t = closes_handle h ∷ t
unwrap (some fd) h t = closes_fd fd ∷ t

-- The end of wtd_child_spawn, behind the three calls of _open_osfhandle.
unfoldable pub finish_spawn :
    Option ℕ → Option ℕ → Option ℕ → ℕ → ℕ → ℕ → ℕ → WinCalls → ℤ × WinChild × WinCalls
unfolding unwrap
finish_spawn (some i) (some o) (some e) iw or er hp t =
    (pos 0, record { pid = hp; stdin_fd = pos i; stdout_fd = pos o; stderr_fd = pos e }, t)
finish_spawn i o e iw or er hp t = (
  negative eio,
  no_child,
  closes_handle hp ∷ kills hp ∷ unwrap e er (unwrap o or (unwrap i iw t)),
)

-- From the answer of CreateProcessA on.
unfoldable pub start_process :
    WinAnswers
    → Option (ℕ × ℕ)
    → List ℕ
    → ℕ
    → ℕ
    → ℕ
    → ℕ
    → ℕ
    → ℕ
    → WinCalls
    → ℤ × WinChild × WinCalls
unfolding wrap finish_spawn
start_process k none line ir iw or ow er ew t = (
  negative eio,
  no_child,
  closes_handle er
      ∷ closes_handle or
      ∷ closes_handle iw
      ∷ closes_handle ew
      ∷ closes_handle ow
      ∷ closes_handle ir
      ∷ t,
)
start_process k (some (hp, ht)) line ir iw or ow er ew t =
    let t1 =
      closes_handle ht
      ∷ closes_handle ew
      ∷ closes_handle ow
      ∷ closes_handle ir
      ∷ creates_process line hp ht
      ∷ t in
    finish_spawn k.in_fd k.out_fd k.err_fd iw or er hp
      (wrap k.err_fd er (wrap k.out_fd or (wrap k.in_fd iw t1)))

-- From the command line on.
unfoldable pub start_line :
    WinAnswers → Option (List ℕ) → ℕ → ℕ → ℕ → ℕ → ℕ → ℕ → WinCalls → ℤ × WinChild × WinCalls
unfolding close_pair start_process
start_line k none ir iw or ow er ew t =
    (negative e2big, no_child, close_pair er ew (close_pair or ow (close_pair ir iw t)))
start_line k (some line) ir iw or ow er ew t = start_process k k.process line ir iw or ow er ew t

-- The third pipe and what follows it.
unfoldable pub third_pipe :
    WinAnswers → List (List ℕ) → Option (ℕ × ℕ) → ℕ → ℕ → ℕ → ℕ → WinCalls → ℤ × WinChild × WinCalls
unfolding start_line close_pair
third_pipe k argv none ir iw or ow t =
    (negative eio, no_child, close_pair or ow (close_pair ir iw t))
third_pipe k argv (some (er, ew)) ir iw or ow t =
    start_line k (wtd_build_cmdline argv 4096) ir iw or ow er ew
      (keeps_private er ∷ keeps_private or ∷ keeps_private iw ∷ creates_pipe er ew ∷ t)

unfoldable pub second_pipe :
    WinAnswers → List (List ℕ) → Option (ℕ × ℕ) → ℕ → ℕ → WinCalls → ℤ × WinChild × WinCalls
unfolding third_pipe close_pair
second_pipe k argv none ir iw t = (negative eio, no_child, close_pair ir iw t)
second_pipe k argv (some (or, ow)) ir iw t =
    third_pipe k argv k.err_pipe ir iw or ow (creates_pipe or ow ∷ t)

unfoldable pub first_pipe :
    WinAnswers → List (List ℕ) → Option (ℕ × ℕ) → WinCalls → ℤ × WinChild × WinCalls
unfolding second_pipe
first_pipe k argv none t = (negative eio, no_child, t)
first_pipe k argv (some (ir, iw)) t = second_pipe k argv k.out_pipe ir iw (creates_pipe ir iw ∷ t)

-- wtd_child_spawn: the code, *out and the calls
unfoldable pub win_child_spawn : WinAnswers → List (List ℕ) → WinCalls → ℤ × WinChild × WinCalls
unfolding first_pipe
win_child_spawn k [] t = (negative einval, no_child, t)
win_child_spawn k (a ∷ argv) t = first_pipe k (a ∷ argv) k.in_pipe t

-- close_fd
unfoldable pub close_fd : ℤ → WinCalls → ℤ × WinCalls
close_fd (pos fd) t = (minus_one, closes_fd fd ∷ t)
close_fd (negsuc n) t = (negsuc n, t)

-- The part of wtd_child_terminate under `h != NULL`; `exits` says that the first wait succeeds.
unfoldable pub win_reap : Bool → ℕ → WinCalls → WinCalls
win_reap exits zero t = t
win_reap exits (suc h) t =
    closes_handle (suc h)
    ∷ (if exits
        then waits_briefly (suc h) ∷ t
        else waits (suc h) ∷ kills (suc h) ∷ waits_briefly (suc h) ∷ t)

unfoldable pub win_child_terminate : Bool → WinChild → WinCalls → WinChild × WinCalls
unfolding close_fd win_reap
win_child_terminate exits c t =
    let (stdin_fd, t1) = close_fd c.stdin_fd t in
    let t2 = win_reap exits c.pid t1 in
    let (stdout_fd, t3) = close_fd c.stdout_fd t2 in
    let (stderr_fd, t4) = close_fd c.stderr_fd t3 in
    (record { pid = 0; stdin_fd = stdin_fd; stdout_fd = stdout_fd; stderr_fd = stderr_fd }, t4)
