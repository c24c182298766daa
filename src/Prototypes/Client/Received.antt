-- ===== src/Prototypes/Client/Received.antt =====
-- What the client of prototypes/handshake_echo_http3.c keeps of what it receives.
use webtransportd.Common.{
  ℕ, ◌+◌, ◌%◌, ◌^◌, ◌≡◌, ◌≤◌, ◌<◌, refl, sym, ap, ◌∙◌, inl, inr, true, List, [], ◌∷◌, ◌++◌, Option,
  some, leb, ◌==◌, if◌then◌else◌, length, arith, All, Bool-cases, append_assoc, append-nil,
  length-append, drop, length-drop,
}
use webtransportd.Common.Memory.{store_all-fits}
use webtransportd.Prototypes.Client.{
  Client, Event, stream_data, stream_fin, datagram, other, recv_size, append_chunk, on_stream_bytes,
  on_dgram_bytes, client_callback, call_back,
}

-- A buffer that holds `content`.
abbrev pub IsFilled : List ℕ → ℕ → List ℕ → Type 0
IsFilled buf len content =
    (rest : List ℕ) × (buf ≡ content ++ rest) × (len ≡ length content) × (length buf ≡ recv_size)

-- A chunk is kept whole if there is room for it, and else dropped.
abbrev pub keep : List ℕ → List ℕ → List ℕ
keep content bytes =
    content ++ (if leb (length content + length bytes) recv_size then bytes else [])

pub append_chunk-IsFilled :
    (buf content bytes : List ℕ) (len : ℕ)
    → length bytes < 2 ^ 63
    → IsFilled buf len content
    → (buf' : List ℕ) × (len' : ℕ) × (append_chunk buf len bytes ≡ some (buf', len'))
      × IsFilled buf' len' (keep content bytes)
unfolding append_chunk
append_chunk-IsFilled buf content bytes len short (rest, at, count, size) =
    let total = length-append content rest in
    let whole : length (content ++ rest) ≡ recv_size = rw⁻¹ at size in
    let sum : (length content + length bytes) % 2 ^ 64 ≡ length content + length bytes =
      omega arith in
    elim (Bool-cases (leb (length content + length bytes) recv_size)) [
      | inr full ↦ (
        buf,
        len,
        rw (count, sum, full) refl,
        rw full (
          rest,
          at ∙ sym (ap (λ (t : List ℕ). t ++ rest) (append-nil content)),
          count ∙ sym (ap length (append-nil content)),
          size,
        ),
      )
      | inl fits ↦
          let few : length content + length bytes ≤ recv_size = ground (arith, fits) in
          (
            content ++ (bytes ++ drop (length bytes) rest),
            length content + length bytes,
            rw (at, count, sum, fits, store_all-fits content rest bytes (ground arith)) refl,
            rw fits (
              drop (length bytes) rest,
              sym (append_assoc content bytes (drop (length bytes) rest)),
              sym (length-append content bytes),
              omega (
                arith,
                few,
                whole,
                total,
                length-append content (bytes ++ drop (length bytes) rest),
                length-append bytes (drop (length bytes) rest),
                length-drop (length bytes) rest,
              ),
            ),
          )
    ]

-- The client holds the stream's bytes and the datagrams'.
pub record HoldsBoth (c : Client) (stream dgrams : List ℕ) : Type 0 where
  pub of_stream : IsFilled c.stream_buf c.stream_len stream
  pub of_dgrams : IsFilled c.dgram_buf c.dgram_len dgrams

-- What the chunks of the events leave, one after another.
abbrev pub stream_kept : List ℕ → List Event → List ℕ
stream_kept got [] = got
stream_kept got (stream_data bytes ∷ events) = stream_kept (keep got bytes) events
stream_kept got (stream_fin bytes ∷ events) = stream_kept (keep got bytes) events
stream_kept got (datagram bytes ∷ events) = stream_kept got events
stream_kept got (other bytes ∷ events) = stream_kept got events

abbrev pub dgrams_kept : List ℕ → List Event → List ℕ
dgrams_kept got [] = got
dgrams_kept got (stream_data bytes ∷ events) = dgrams_kept got events
dgrams_kept got (stream_fin bytes ∷ events) = dgrams_kept got events
dgrams_kept got (datagram bytes ∷ events) = dgrams_kept (keep got bytes) events
dgrams_kept got (other bytes ∷ events) = dgrams_kept got events

-- A chunk is shorter than the half of the address space.
abbrev pub IsChunk : Event → Type 0
IsChunk (stream_data bytes) = length bytes < 2 ^ 63
IsChunk (stream_fin bytes) = length bytes < 2 ^ 63
IsChunk (datagram bytes) = length bytes < 2 ^ 63
IsChunk (other bytes) = Unit {0}

abbrev Next : Option Client → List ℕ → List ℕ → Type 0
Next answer stream dgrams = (c : Client) × (answer ≡ some c) × HoldsBoth c stream dgrams

pub keep-nil : (got bytes : List ℕ) → (length bytes == 0) ≡ true → keep got bytes ≡ got
keep-nil got [] e = elim (Bool-cases (leb (length got + 0) recv_size)) [
  | inl fits ↦ rw fits (append-nil got)
  | inr full ↦ rw full (append-nil got)
]
keep-nil got (b ∷ bytes) e = absurd (ground (arith, e))

on_stream-HoldsBoth :
    (bytes : List ℕ) (c : Client) (stream dgrams : List ℕ)
    → length bytes < 2 ^ 63
    → HoldsBoth c stream dgrams
    → Next
        (if length bytes == 0 then some c else on_stream_bytes bytes c)
        (keep stream bytes)
        dgrams
unfolding on_stream_bytes
on_stream-HoldsBoth bytes c stream dgrams short h = elim (Bool-cases (length bytes == 0)) [
  | inl empty ↦ rw (empty, keep-nil stream bytes empty) (c, refl, h)
  | inr filled ↦
      let (buf, len, e, f) =
        append_chunk-IsFilled c.stream_buf stream bytes c.stream_len short h.of_stream in
      (
        record c { stream_buf = buf; stream_len = len },
        rw (filled, e) refl,
        record { of_stream = f; of_dgrams = h.of_dgrams },
      )
]

on_dgram-HoldsBoth :
    (bytes : List ℕ) (c : Client) (stream dgrams : List ℕ)
    → length bytes < 2 ^ 63
    → HoldsBoth c stream dgrams
    → Next (if length bytes == 0 then some c else on_dgram_bytes bytes c) stream (keep dgrams bytes)
unfolding on_dgram_bytes
on_dgram-HoldsBoth bytes c stream dgrams short h = elim (Bool-cases (length bytes == 0)) [
  | inl empty ↦ rw (empty, keep-nil dgrams bytes empty) (c, refl, h)
  | inr filled ↦
      let (buf, len, e, f) =
        append_chunk-IsFilled c.dgram_buf dgrams bytes c.dgram_len short h.of_dgrams in
      (
        record c { dgram_buf = buf; dgram_len = len },
        rw (filled, e) refl,
        record { of_stream = h.of_stream; of_dgrams = f },
      )
]

call_back-Next :
    (e : Event) (events : List Event) (c : Client) (stream dgrams stream' dgrams' : List ℕ)
    → Next (client_callback e c) stream dgrams
    → ((c1 : Client)
        → HoldsBoth c1 stream dgrams
        → Next (call_back client_callback events c1) stream' dgrams')
    → Next (call_back client_callback (e ∷ events) c) stream' dgrams'
unfolding call_back
call_back-Next e events c stream dgrams stream' dgrams' (c1, one, h) later =
    let (c2, two, h') = later c1 h in (c2, rw one two, h')

-- The events that picoquic hands to client_callback in any order, with chunks of less than 2^63 bytes, to a
-- client that holds `stream` and `dgrams`: no byte is stored outside the two buffers of 256 bytes,
-- and they hold afterwards, in order, just the chunks that there was room for when they came in.
pub call_back-kept :
    (events : List Event) (c : Client) (stream dgrams : List ℕ)
    → All IsChunk events
    → HoldsBoth c stream dgrams
    → (c' : Client) × (call_back client_callback events c ≡ some c')
      × HoldsBoth c' (stream_kept stream events) (dgrams_kept dgrams events)
unfolding call_back client_callback
call_back-kept [] c stream dgrams short h = (c, refl, h)
call_back-kept (stream_data bytes ∷ events) c stream dgrams (short, others) h =
    call_back-Next (stream_data bytes) events c (keep stream bytes) dgrams _ _
      (on_stream-HoldsBoth bytes c stream dgrams short h)
      (λ c1. call_back-kept events c1 (keep stream bytes) dgrams others)
call_back-kept (stream_fin bytes ∷ events) c stream dgrams (short, others) h =
    call_back-Next (stream_fin bytes) events c (keep stream bytes) dgrams _ _
      (on_stream-HoldsBoth bytes c stream dgrams short h)
      (λ c1. call_back-kept events c1 (keep stream bytes) dgrams others)
call_back-kept (datagram bytes ∷ events) c stream dgrams (short, others) h =
    call_back-Next (datagram bytes) events c stream (keep dgrams bytes) _ _
      (on_dgram-HoldsBoth bytes c stream dgrams short h)
      (λ c1. call_back-kept events c1 stream (keep dgrams bytes) others)
call_back-kept (other bytes ∷ events) c stream dgrams (short, others) h =
    call_back-kept events c stream dgrams others h
