-- ===== src/ChildOutput/Control.antt =====
-- wtd_child_output_start and wtd_child_output_stop of adapters/child_output.c. Pointers are natural
-- numbers, NULL is `none`; a `fd` below 0 is a `negsuc`.
use webtransportd.Common.{
  sym, ap, ℕ, zero, suc, ◌≡◌, refl, Bool, true, false, List, [], ◌∷◌, Option, none, some,
  if◌then◌else◌, Bool-cases, inl, inr,
}
use webtransportd.Common.Int.{ℤ, pos, negsuc}
use webtransportd.ChildProcess.{negative, einval}

-- wtd_child_output_t
pub record ChildOutput : Type 0 where
  pub thread_started : Bool
  pub fd : ℤ
  pub session : Option ℕ
  pub wake : Option ℕ
  pub wake_ctx : Option ℕ

-- pthread_create with its answer (0, or an errno), and pthread_join; the newest first.
pub data ThreadCall : Type 0 where
  creates : ℕ → ThreadCall
  joins : ThreadCall

-- EALREADY
abbrev pub ealready : ℕ
ealready = 114

-- wtd_child_output_start from pthread_create's answer on
unfoldable pub thread_created :
    ℕ → ChildOutput → List ThreadCall → ℤ × Option ChildOutput × List ThreadCall
thread_created zero o t = (pos 0, some (record o { thread_started = true }), creates 0 ∷ t)
thread_created (suc rc) o t = (negative (suc rc), some o, creates (suc rc) ∷ t)

-- `rc` is what pthread_create answers.
unfoldable pub wtd_child_output_start :
    ℕ
    → Option ChildOutput
    → ℤ
    → Option ℕ
    → Option ℕ
    → Option ℕ
    → List ThreadCall
    → ℤ × Option ChildOutput × List ThreadCall
unfolding thread_created
wtd_child_output_start rc none fd session wake ctx t = (negative einval, none, t)
wtd_child_output_start rc (some o) (negsuc n) session wake ctx t = (negative einval, some o, t)
wtd_child_output_start rc (some o) (pos fd) none wake ctx t = (negative einval, some o, t)
wtd_child_output_start rc (some o) (pos fd) (some session) wake ctx t =
    let started =
      thread_created rc
        (record o { fd = pos fd; session = some session; wake = wake; wake_ctx = ctx }) t in
    if o.thread_started then (negative ealready, some o, t) else started

unfoldable pub wtd_child_output_stop :
    Option ChildOutput → List ThreadCall → Option ChildOutput × List ThreadCall
wtd_child_output_stop none t = (none, t)
wtd_child_output_stop (some o) t =
    if o.thread_started
    then (some (record o { thread_started = false }), joins ∷ t)
    else (some o, t)

-- A caller that starts and stops in any order, with any arguments.
pub data Step
    : Option ChildOutput → List ThreadCall → Option ChildOutput → List ThreadCall → Type 0 where
  starts :
      (o : Option ChildOutput) (t : List ThreadCall) (rc : ℕ) (fd : ℤ) (session wake ctx : Option ℕ)
      → Step o t
          (wtd_child_output_start rc o fd session wake ctx t).1
          (wtd_child_output_start rc o fd session wake ctx t).2
  stops :
      (o : Option ChildOutput) (t : List ThreadCall)
      → Step o t (wtd_child_output_stop o t).0 (wtd_child_output_stop o t).1

pub data Reach (o : Option ChildOutput) : Option ChildOutput → List ThreadCall → Type 0 where
  here : Reach o o []
  after :
      {o1 o2 : Option ChildOutput} {t1 t2 : List ThreadCall}
      → Reach o o1 t1
      → Step o1 t1 o2 t2
      → Reach o o2 t2

-- The threads that run, with a join that has no thread counted as a failure.
abbrev pub threads : List ThreadCall → Option ℕ
threads [] = some 0
threads (creates zero ∷ t) = elim (threads t) [ none ↦ none | some n ↦ some (suc n) ]
threads (creates (suc rc) ∷ t) = threads t
threads (joins ∷ t) = elim (threads t) [ none ↦ none | some zero ↦ none | some (suc n) ↦ some n ]

abbrev pub started : Option ChildOutput → ℕ
started none = 0
started (some o) = if o.thread_started then 1 else 0

thread_created-threads :
    (rc : ℕ) (o : ChildOutput) (t : List ThreadCall)
    → o.thread_started ≡ false
    → threads t ≡ some 0
    → threads (thread_created rc o t).2 ≡ some (started (thread_created rc o t).1)
unfolding thread_created
thread_created-threads zero o t idle h = rw h refl
thread_created-threads (suc rc) o t idle h = rw (h, idle) refl

Step-threads :
    (o1 o2 : Option ChildOutput) (t1 t2 : List ThreadCall)
    → Step o1 t1 o2 t2
    → threads t1 ≡ some (started o1)
    → threads t2 ≡ some (started o2)
unfolding wtd_child_output_start wtd_child_output_stop
Step-threads o1 o2 t1 t2 (starts none t rc fd session wake ctx) h = h
Step-threads o1 o2 t1 t2 (starts (some o) t rc (negsuc n) session wake ctx) h = h
Step-threads o1 o2 t1 t2 (starts (some o) t rc (pos fd) none wake ctx) h = h
Step-threads o1 o2 t1 t2 (starts (some o) t rc (pos fd) (some session) wake ctx) h =
    elim (Bool-cases o.thread_started) [
      | inl running ↦ rw running (rw running at h)
      | inr idle ↦ rw idle (
          thread_created-threads rc
            (record {
              thread_started = false;
              fd = pos fd;
              session = some session;
              wake = wake;
              wake_ctx = ctx;
            })
            t refl (rw idle at h))
    ]
Step-threads o1 o2 t1 t2 (stops none t) h = h
Step-threads o1 o2 t1 t2 (stops (some o) t) h = elim (Bool-cases o.thread_started) [
  | inl running ↦ rw (running, rw running at h) refl
  | inr idle ↦ rw idle (rw idle at h)
]

-- However a caller starts and stops the reader of one struct that begins with no thread, the threads
-- that run are one where thread_started is set and none where not, and no join is without its thread.
pub Reach-threads :
    (o o' : Option ChildOutput) (t : List ThreadCall)
    → started o ≡ 0
    → Reach o o' t
    → threads t ≡ some (started o')
Reach-threads o o' t h here = sym (ap some h)
Reach-threads o o' t h (after {o1 = o1} {t1 = t1} r s) =
    Step-threads o1 o' t1 t s (Reach-threads o o1 t1 h r)
