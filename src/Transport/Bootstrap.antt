-- ===== src/Transport/Bootstrap.antt =====
-- wtd_transport_run of adapters/transport_picoquic.c: what it acquires, in which order, and what it
-- does with it on each exit. picoquic's answers, the packet loop's return code among them, are
-- arguments. The calls are recorded, the newest first.
pub mod Exits
use webtransportd.Common.{
  ℕ, zero, suc, ◌+◌, ◌-◌, Bool, true, false, ◌||◌, List, [], ◌∷◌, ◌++◌, Option, none, some, ◌==◌,
  if◌then◌else◌, take,
}
use webtransportd.Common.Int.{ℤ, is_zero}
use webtransportd.Cmdline.{wtd_split_cmdline}
use webtransportd.Main.{CString, Config, same_string, auto}

-- What the function owns: the two blocks of the certificate, the array around it, picoquic's context
-- and the two ends of the wake-up pipe.
pub data Owned : Type 0 where
  cert_der key_der chain quic pipe_ends : Owned

-- `hands_over` is a block that picoquic frees with its context from then on, `loops` the packet loop
-- on a port, for children with an argv.
pub data BootCall : Type 0 where
  acquires frees hands_over : Owned → BootCall
  loops : ℕ → List (List ℕ) → BootCall

abbrev pub BootCalls : Type 0
BootCalls = List BootCall

-- `same_code` says that the loop's return code is PICOQUIC_NO_ERROR_TERMINATE_PACKET_LOOP.
pub record BootAnswers : Type 0 where
  pub autocert : Bool
  pub create : Bool
  pub chain_memory : Bool
  pub key_installs : Bool
  pub pipe : Bool
  pub return_code : ℤ
  pub same_code : Bool
  pub should_exit : Bool

-- exec_argv: the command is cut to 1023 bytes, and at most 63 words are kept.
unfoldable pub exec_argv : Option CString → List (List ℕ)
exec_argv none = []
exec_argv (some path) = wtd_split_cmdline (take 1023 path) 64

-- `cert_der` and `key_der` are NULL without --cert=auto; free(NULL) does nothing.
unfoldable pub free_auto : Bool → Owned → BootCalls → BootCalls
free_auto use_autocert o t = if use_autocert then frees o ∷ t else t

-- From the packet loop on: the exit code.
unfoldable pub run_loop : BootAnswers → Config → BootCalls → ℕ × BootCalls
unfolding exec_argv
run_loop a cfg t =
    let t1 = if a.pipe then acquires pipe_ends ∷ t else t in
    let t2 = frees quic ∷ loops cfg.port (exec_argv cfg.exec_path) ∷ t1 in
    let t3 = if a.pipe then frees pipe_ends ∷ t2 else t2 in
    (if a.same_code || is_zero a.return_code || a.should_exit then 0 else 1, t3)

-- The part under `if (use_autocert)` behind picoquic_create, and what follows it.
unfoldable pub install_cert : BootAnswers → Config → BootCalls → ℕ × BootCalls
unfolding run_loop
install_cert a cfg t =
    let no_chain : ℕ × BootCalls = (1, frees key_der ∷ frees cert_der ∷ frees quic ∷ t) in
    let t1 = hands_over cert_der ∷ hands_over chain ∷ acquires chain ∷ t in
    let no_key : ℕ × BootCalls = (1, frees key_der ∷ frees quic ∷ t1) in
    if a.chain_memory
    then (if a.key_installs then run_loop a cfg (frees key_der ∷ t1) else no_key)
    else no_chain

-- From picoquic_create on.
unfoldable pub create_quic : BootAnswers → Bool → Config → BootCalls → ℕ × BootCalls
unfolding install_cert free_auto run_loop
create_quic a use_autocert cfg t =
    let t1 = acquires quic ∷ t in
    let failed : ℕ × BootCalls =
      (1, free_auto use_autocert key_der (free_auto use_autocert cert_der t)) in
    if a.create then (if use_autocert then install_cert a cfg t1 else run_loop a cfg t1) else failed

unfoldable pub wtd_transport_run : BootAnswers → Config → BootCalls → ℕ × BootCalls
unfolding create_quic
wtd_transport_run a cfg t =
    let refused : ℕ × BootCalls = (1, t) in
    if same_string cfg.cert auto
    then (if a.autocert
        then create_quic a true cfg (acquires key_der ∷ acquires cert_der ∷ t)
        else refused)
    else create_quic a false cfg t
