-- ===== src/Transport/Datagrams.antt =====
-- The FIFO of outbound datagrams between the session and picoquic.
use webtransportd.Common.{
  ℕ, zero, suc, ◌≡◌, ◌⊎◌, inl, inr, refl, sym, ap, ◌∙◌, Bool, true, false, List, [], ◌∷◌, ◌++◌,
  Bool-cases, length, arith, append_assoc, append-nil,
}
use webtransportd.Transport.{
  LibCall, add_to_stream, set_datagram_ready, give_datagram, Link, Environment, peer_send_datagram,
}
use webtransportd.Transport.Callback.{Surroundings, on_provide_datagram}

-- The datagrams that picoquic was given, oldest first.
abbrev pub given : List LibCall → List (List ℕ)
given [] = []
given (give_datagram d ∷ calls) = given calls ++ (d ∷ [])
given (add_to_stream c i bytes fin ∷ calls) = given calls
given (set_datagram_ready c i ∷ calls) = given calls

-- After the last datagram that it took, picoquic was told that more are ready.
abbrev pub is_armed : List LibCall → Bool
is_armed [] = false
is_armed (set_datagram_ready c i ∷ calls) = true
is_armed (give_datagram d ∷ calls) = false
is_armed (add_to_stream c i bytes fin ∷ calls) = is_armed calls

-- `n` provide_datagram events.
abbrev pub provides : Surroundings → ℕ → Link → Link
provides around zero l = l
provides around (suc n) l = provides around n (on_provide_datagram around l)

provide_step :
    (around : Surroundings) (l : Link) (d : List ℕ) (rest : List (List ℕ))
    → around.datagram_buffer ≡ true
    → l.dgrams ≡ d ∷ rest
    → ((on_provide_datagram around l).dgrams ≡ rest)
      × (given (on_provide_datagram around l).calls ≡ given l.calls ++ (d ∷ []))
unfolding on_provide_datagram
provide_step around l d [] b e = ground arith
provide_step around l d (x ∷ rest) b e = ground arith

-- As many provide_datagram events as datagrams wait hand all of them to picoquic, oldest first, none
-- lost and none twice, if h3zero gives a buffer each time.
pub provides-given :
    (around : Surroundings) (waiting : List (List ℕ)) (l : Link)
    → around.datagram_buffer ≡ true
    → l.dgrams ≡ waiting
    → ((provides around (length waiting) l).dgrams ≡ [])
      × (given (provides around (length waiting) l).calls ≡ given l.calls ++ waiting)
provides-given around [] l b e = (e, sym (append-nil (given l.calls)))
provides-given around (d ∷ rest) l b e =
    let (less, more) = provide_step around l d rest b e in
    let (empty, all) = provides-given around rest (on_provide_datagram around l) b less in
    (
      empty,
      all ∙ ap (λ (t : List (List ℕ)). t ++ rest) more ∙ append_assoc (given l.calls) (d ∷ []) rest,
    )

-- No datagram is left waiting without picoquic being told.
abbrev pub IsArmed : Link → Type 0
IsArmed l = (l.dgrams ≡ []) ⊎ (is_armed l.calls ≡ true)

send_datagram-IsArmed :
    (env : Environment) (bytes : List ℕ) (l : Link)
    → IsArmed l
    → IsArmed (peer_send_datagram env bytes l).1
unfolding peer_send_datagram
send_datagram-IsArmed env bytes l a = elim (Bool-cases env.memory) [
  | inl memory ↦ inr (rw memory refl)
  | inr full ↦ rw full a
]

provide_datagram-IsArmed :
    (around : Surroundings) (waiting : List (List ℕ)) (l : Link)
    → l.dgrams ≡ waiting
    → IsArmed l
    → IsArmed (on_provide_datagram around l)
unfolding on_provide_datagram
provide_datagram-IsArmed around [] l e a = inl (rw e refl)
provide_datagram-IsArmed around (d ∷ []) l e a = inl (rw e refl)
provide_datagram-IsArmed around (d ∷ x ∷ more) l e a = inr (rw e refl)

-- Sending a datagram and handing one over both keep this: while datagrams wait, picoquic has been
-- told since it last took one that more are ready, also where malloc fails or h3zero gives no
-- buffer.
pub datagrams-IsArmed :
    (env : Environment) (around : Surroundings) (bytes : List ℕ) (l : Link)
    → IsArmed l
    → IsArmed (peer_send_datagram env bytes l).1 × IsArmed (on_provide_datagram around l)
datagrams-IsArmed env around bytes l a =
    (send_datagram-IsArmed env bytes l a, provide_datagram-IsArmed around l.dgrams l refl a)
