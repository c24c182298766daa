-- ===== src/Prototypes/Minimal/Endings.antt =====
-- How the minimal programs of prototypes/ end.
use webtransportd.Common.{
  ℕ, ◌≡◌, ◌⊎◌, refl, ap, ◌∙◌, inl, inr, Bool, true, false, ◌&&◌, List, [], ◌∷◌, ◌++◌, Option, some,
  leb, ltb, if◌then◌else◌, length, arith, All, Bool-cases,
}
use webtransportd.Common.Int.{ℤ, is_zero, pos}
use webtransportd.ChildProcess.{
  Calls, Child, SpawnAnswers, Waited, wtd_child_spawn, wtd_child_terminate,
}
use webtransportd.ChildProcess.Descriptors.{opened, spawn-opened, spawn-terminate}
use webtransportd.Prototypes.Client.{
  ClientCall, opens_socket, closes_socket, creates_quic, frees_quic, Round, SetUp,
}
use webtransportd.Prototypes.Client.Received.{IsFilled}
use webtransportd.Prototypes.Client.Rounds.{open_sockets, open_quics, handed_over}
use webtransportd.Prototypes.Handshake.{starts_with}
use webtransportd.Prototypes.Minimal.{
  RecvBuf, hello, MinimalLoop, minimal_main, serve_child, child_server_main,
}
use webtransportd.Prototypes.Minimal.Rounds.{IsGoing, ShortRound, minimal_rounds-IsGoing}

starts_with-append :
    (n c r : List ℕ) → leb (length n) (length c) && starts_with n (c ++ r) ≡ starts_with n c
starts_with-append [] c r = ground arith
starts_with-append (x ∷ n) [] r = ground arith
starts_with-append (x ∷ n) (y ∷ c) r = ground (arith, starts_with-append n c r)

-- How the client ends: it holds some bytes, nothing stays open, "hello" was handed over once or not at
-- all, and the exit code says whether the bytes begin with "hello".
abbrev pub ClientEnds : Option (ℕ × RecvBuf × List ClientCall) → Type 0
ClientEnds answer =
    (code : ℕ) × (b : RecvBuf) × (calls : List ClientCall) × (content : List ℕ) × (answer
      ≡ some (code, b, calls))
    × IsFilled b.buf b.len content
    × (open_sockets calls ≡ 0)
    × (open_quics calls ≡ 0)
    × ((handed_over calls ≡ (true, hello) ∷ []) ⊎ (handed_over calls ≡ []))
    × (code ≡ (if starts_with hello content then 0 else 1))

abbrev exit_code : Bool → ℕ
exit_code success = if success then 0 else 1

ran_through :
    (l : MinimalLoop)
    → IsGoing l
    → ClientEnds (
        some (
          if leb (length hello) l.received.len && starts_with hello l.received.buf then 0 else 1,
          l.received,
          closes_socket ∷ frees_quic ∷ l.calls,
        ))
ran_through l r =
    let (content, (rest, at, count, size)) = r.holds in
    (
      _,
      l.received,
      _,
      content,
      refl,
      (rest, at, count, size),
      omega (arith, r.one_socket),
      omega (arith, r.one_quic),
      elim (Bool-cases l.sent) [
        | inl sent ↦ inl (rw sent at r.once)
        | inr unsent ↦ inr (rw unsent at r.once)
      ],
      rw (count, at) (ap exit_code (starts_with-append hello content rest)),
    )

gave_up :
    (calls : List ClientCall) (stack : List ℕ)
    → length stack ≡ 256
    → open_sockets calls ≡ 0
    → open_quics calls ≡ 0
    → handed_over calls ≡ []
    → ClientEnds (some (1, record { buf = stack; len = 0 }, calls))
gave_up calls stack size sockets quics nothing =
    (1, _, calls, [], refl, (stack, refl, refl, size), sockets, quics, inr nothing, refl)

-- What follows the test of argc.
abbrev Connected : Bool → Bool → Bool → Bool → List (Bool × Round) → List ℕ → Type 0
Connected s b q n rounds stack = ClientEnds (
    minimal_main 2 (record { has_socket = s; is_bound = b; has_quic = q; has_cnx = n }) rounds
      stack)

set_up-Connected :
    (s b q n : Bool) (rounds : List (Bool × Round)) (stack : List ℕ)
    → length stack ≡ 256
    → All ShortRound rounds
    → Connected s b q n rounds stack
unfolding minimal_main
set_up-Connected false b q n rounds stack size short = gave_up [] stack size refl refl refl
set_up-Connected true false q n rounds stack size short =
    gave_up (closes_socket ∷ opens_socket ∷ []) stack size refl refl refl
set_up-Connected true true false n rounds stack size short =
    gave_up (closes_socket ∷ opens_socket ∷ []) stack size refl refl refl
set_up-Connected true true true false rounds stack size short =
    gave_up (closes_socket ∷ frees_quic ∷ creates_quic ∷ opens_socket ∷ []) stack size refl refl
      refl
set_up-Connected true true true true rounds stack size short =
    let start : MinimalLoop = record {
      received = record { buf = stack; len = 0 };
      sent = false;
      calls = creates_quic ∷ opens_socket ∷ [];
    } in
    let (l, e, r) = minimal_rounds-IsGoing rounds start short (record {
      holds = ([], (stack, refl, refl, size));
      one_socket = refl;
      one_quic = refl;
      once = refl;
    }) in
    rw e (ran_through l r)

minimal_cases :
    (argc : ℕ) (has_socket is_bound has_quic has_cnx : Bool) (rounds : List (Bool × Round))
    (stack : List ℕ)
    → length stack ≡ 256
    → All ShortRound rounds
    → let k : SetUp = record {
      has_socket = has_socket;
      is_bound = is_bound;
      has_quic = has_quic;
      has_cnx = has_cnx;
    } in
      ClientEnds (minimal_main argc k rounds stack)
unfolding minimal_main
minimal_cases argc s b q n rounds stack size short = elim (Bool-cases (ltb argc 2)) [
  | inl few ↦ rw few (gave_up [] stack size refl refl refl)
  | inr enough ↦ rw enough (set_up-Connected s b q n rounds stack size short)
]

-- With an argument on the command line or none, for all answers of the sockets, the clock and picoquic,
-- with a buffer of its declared 256 bytes and chunks of less than 2^63 bytes: the client ends without an
-- access outside its buffer, the socket and the QUIC context that it opened are closed, "hello" was
-- handed to picoquic once at most, and it exits with 0 if what it has kept of the stream begins with
-- "hello", with 1 if not.
pub minimal_main-ends :
    (argc : ℕ) (k : SetUp) (rounds : List (Bool × Round)) (stack : List ℕ)
    → length stack ≡ 256
    → All ShortRound rounds
    → ClientEnds (minimal_main argc k rounds stack)
minimal_main-ends argc k rounds stack size short =
    minimal_cases argc k.has_socket k.is_bound k.has_quic k.has_cnx rounds stack size short

serve_child-opened :
    (has_quic : Bool) (waited : ℕ → Waited) (rc : ℤ) (c : Child) (t : Calls) (fd : ℕ)
    → (rc ≡ pos 0) ⊎ (opened fd t ≡ 0)
    → opened fd (wtd_child_terminate waited c t).1 ≡ 0
    → opened fd (serve_child has_quic waited (rc, c, t)).2 ≡ 0
unfolding serve_child
serve_child-opened has_quic waited rc c t fd (inl done) closed =
    rw done (elim (Bool-cases has_quic) [ inl e ↦ rw e closed | inr e ↦ rw e closed ])
serve_child-opened has_quic waited rc c t fd (inr none_left) closed =
    elim (Bool-cases (is_zero rc)) [
      | inr failed ↦ rw failed none_left
      | inl done ↦
          rw done (elim (Bool-cases has_quic) [ inl e ↦ rw e closed | inr e ↦ rw e closed ])
    ]

-- Whatever pipe, fork and waitpid answer, and whether or not there is a QUIC context: main of the server
-- with a child leaves no descriptor open.
pub child_server-opened :
    (argc : ℕ) (k : SpawnAnswers) (has_quic : Bool) (waited : ℕ → Waited) (fd : ℕ)
    → opened fd (child_server_main argc k has_quic waited).2 ≡ 0
unfolding child_server_main
child_server-opened argc k has_quic waited fd =
    let (rc, c, t) = wtd_child_spawn k true [] in
    let (more, how) = spawn-opened k true [] in
    let failed : (rc ≡ pos 0) ⊎ (opened fd t ≡ 0) = elim how [
      | inl (done, _, _, _) ↦ inl done
      | inr (none_left, _, _) ↦ inr (more fd ∙ rw none_left (omega arith))
    ] in
    elim (Bool-cases (ltb argc 5)) [
      | inl few ↦ rw few refl
      | inr enough ↦ rw enough (
          serve_child-opened has_quic waited rc c t fd failed (spawn-terminate k waited true [] fd))
    ]
