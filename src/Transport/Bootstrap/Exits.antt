-- ===== src/Transport/Bootstrap/Exits.antt =====
-- What each exit of wtd_transport_run leaves behind, and its code.
use webtransportd.Common.{
  ℕ, zero, suc, ◌≡◌, Bool, List, true, ◌||◌, ◌&&◌, [], ◌∷◌, Option, none, some, ◌==◌, if◌then◌else◌,
  arith,
}
use webtransportd.Common.Int.{is_zero}
use webtransportd.Main.{Config, same_string, auto}
use webtransportd.Transport.Bootstrap.{
  Owned, cert_der, key_der, chain, quic, pipe_ends, acquires, frees, hands_over, loops, BootCalls,
  BootAnswers, exec_argv, free_auto, run_loop, install_cert, create_quic, wtd_transport_run,
}

abbrev number : Owned → ℕ
number cert_der = 0
number key_der = 1
number chain = 2
number quic = 3
number pipe_ends = 4

abbrev same_owned : Owned → Owned → Bool
same_owned o p = number o == number p

-- How often a resource was acquired and neither freed nor handed over since; `none` where it was
-- freed or handed over without being owned.
abbrev pub give_back : Option ℕ → Option ℕ
give_back none = none
give_back (some zero) = none
give_back (some (suc n)) = some n

abbrev pub take_over : Option ℕ → Option ℕ
take_over none = none
take_over (some n) = some (suc n)

abbrev pub owned : Owned → BootCalls → Option ℕ
owned o [] = some 0
owned o (acquires p ∷ t) = if same_owned p o then take_over (owned o t) else owned o t
owned o (frees p ∷ t) = if same_owned p o then give_back (owned o t) else owned o t
owned o (hands_over p ∷ t) = if same_owned p o then give_back (owned o t) else owned o t
owned o (loops port argv ∷ t) = owned o t

-- The port of the packet loop and the argv of its children, where it was run.
abbrev pub looped : BootCalls → Option (ℕ × List (List ℕ))
looped [] = none
looped (loops port argv ∷ t) = some (port, argv)
looped (acquires p ∷ t) = looped t
looped (frees p ∷ t) = looped t
looped (hands_over p ∷ t) = looped t

abbrev pub all_there : BootAnswers → Config → Bool
all_there a cfg =
    a.create
    && (if same_string cfg.cert auto
        then a.autocert && (a.chain_memory && a.key_installs)
        else true)

-- On every exit of wtd_transport_run each resource is given back as often as it was acquired, freed or
-- handed to picoquic, and never without being owned, so nothing leaks and nothing is freed twice. The
-- packet loop runs, on the configured port and for the configured command, exactly where certificate,
-- context, array and key are all there; the exit code is 0 exactly if it ran and ended by its stop
-- code, by 0, or after a signal.
pub transport_run_lem :
    (a : BootAnswers) (cfg : Config) (o : Owned)
    → let (code, t) = wtd_transport_run a cfg [] in
      (owned o t ≡ some 0)
      × (looped t ≡ (if all_there a cfg then some (cfg.port, exec_argv cfg.exec_path) else none))
      × (code ≡ (
          if all_there a cfg && (a.same_code || is_zero a.return_code || a.should_exit)
          then 0
          else 1))
unfolding wtd_transport_run create_quic install_cert free_auto run_loop
transport_run_lem a cfg cert_der = ground arith
transport_run_lem a cfg key_der = ground arith
transport_run_lem a cfg chain = ground arith
transport_run_lem a cfg quic = ground arith
transport_run_lem a cfg pipe_ends = ground arith
