-- ===== src/Tests/WindowsRuns.antt =====
-- Runs of the Win32 half of adapters/child_process.c.
use webtransportd.Common.{ℕ, ◌≡◌, arith, false, List, [], ◌∷◌, none, some}
use webtransportd.ChildProcess.Windows.{WinAnswers, win_child_spawn, win_child_terminate}
use webtransportd.ChildProcess.Windows.Handles.{open_handles, open_fds, win_spawn-terminate}

-- The second of the three handles gets no descriptor.
abbrev half_wrapped : WinAnswers
half_wrapped = record {
  in_pipe = some (10, 11);
  out_pipe = some (12, 13);
  err_pipe = some (14, 15);
  process = some (20, 21);
  in_fd = some 3;
  out_fd = none;
  err_fd = some 5;
}

abbrev arguments : List (List ℕ)
arguments = (112 ∷ 121 ∷ []) ∷ []

win_spawn-terminate_example :
    (open_handles 12
        (win_child_terminate false
          (win_child_spawn half_wrapped arguments []).1
          (win_child_spawn half_wrapped arguments []).2).1
      ≡ 0)
    × (open_fds 3
          (win_child_terminate false
            (win_child_spawn half_wrapped arguments []).1
            (win_child_spawn half_wrapped arguments []).2).1
        ≡ 0)
win_spawn-terminate_example = win_spawn-terminate half_wrapped arguments false [] 12 3 (omega arith)
