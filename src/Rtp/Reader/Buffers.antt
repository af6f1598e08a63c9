-- ===== src/Rtp/Reader/Buffers.antt =====
-- internal/rtp/rtp_handler.go: the buffers of the reader.
-- Buffers that are in use by nobody: back in the pool or with the jitter buffer.
use tele_portal.Common.{
  Bool-cases, List, [], arith, false, inl, inr, length, length-append, ltb, not, refl, suc, true, ℕ,
  ◌&&◌, ◌+◌, ◌==◌, ◌∷◌, ◌≡◌,
}
use tele_portal.Common.Result.{Result-cases}
use tele_portal.Rtp.Dtmf.{DtmfEvent, parse_dtmf_payload}
use tele_portal.Rtp.Reader.{
  ReadResult, Reader, RtpFrame, cancelled, failed, malformed, no_bytes, on_dtmf_event, on_packet,
  read_all, read_round, received, timeout,
}

abbrev pub placed : Reader → ℕ
placed r = r.returned + length r.pushed

on_dtmf_event-placed :
    (e : DtmfEvent) (s : ℕ) (r : Reader)
    → (placed (on_dtmf_event e s r) ≡ placed r) × ((on_dtmf_event e s r).taken ≡ r.taken)
unfolding on_dtmf_event
on_dtmf_event-placed e s r = elim (Bool-cases (not e.end)) [
  | inl a ↦ rw (a, on_dtmf_event) (refl, refl)
  | inr a ↦ elim (Bool-cases (s == r.last_dtmf_timestamp)) [
    | inl b ↦ rw (a, b, on_dtmf_event) (refl, refl)
    | inr b ↦ rw (a, b, on_dtmf_event) (refl, refl)
  ]
]

on_packet-placed :
    (dtmf : ℕ) (p : RtpFrame) (r : Reader)
    → (placed (on_packet dtmf p r) ≡ placed r) × ((on_packet dtmf p r).taken ≡ r.taken)
unfolding on_packet
on_packet-placed dtmf p r = elim (Bool-cases (not (dtmf == 0) && p.payload_type == dtmf)) [
  | inr a ↦ rw (a, on_packet) (refl, refl)
  | inl a ↦ elim (Result-cases (parse_dtmf_payload p.payload)) [
    | inr (n, e) ↦ rw (a, e, on_packet) (refl, refl)
    | inl (event, e) ↦ rw (a, e, on_packet) (on_dtmf_event-placed event p.timestamp r)
  ]
]

-- A round places one buffer, the one that it took.
read_round-placed :
    (dtmf : ℕ) (x : ReadResult) (r : Reader)
    → (placed (read_round dtmf x r) ≡ suc (placed r)) × ((read_round dtmf x r).taken ≡ r.taken)
unfolding read_round
read_round-placed dtmf cancelled r = (omega arith, refl)
read_round-placed dtmf failed r = (omega arith, refl)
read_round-placed dtmf no_bytes r = (omega arith, refl)
read_round-placed dtmf (malformed now) r = (omega arith, refl)
read_round-placed dtmf (timeout now) r =
    elim (Bool-cases (ltb (r.last_packet_time + 10000000000) now)) [
      | inl e ↦ rw (e, read_round) (omega arith, refl)
      | inr e ↦ rw (e, read_round) (omega arith, refl)
    ]
read_round-placed dtmf (received now p) r =
    let m = on_packet dtmf p (record r { last_packet_time = now }) in
    let kept = on_packet-placed dtmf p (record r { last_packet_time = now }) in
    (omega (arith, kept.0, length-append m.pushed (p ∷ [])), kept.1)

read_all-stopped :
    (dtmf : ℕ) (x : ReadResult) (xs : List ReadResult) (r : Reader)
    → r.stopped ≡ true
    → read_all dtmf (x ∷ xs) r ≡ r
unfolding read_all
read_all-stopped dtmf x xs r e = simp (e, read_all)

read_all-next :
    (dtmf : ℕ) (x : ReadResult) (xs : List ReadResult) (r : Reader)
    → r.stopped ≡ false
    → read_all dtmf (x ∷ xs) r
      ≡ read_all dtmf xs (read_round dtmf x (record r { taken = suc r.taken }))
unfolding read_all
read_all-next dtmf x xs r e = simp (e, read_all)

-- Whatever the socket gives, the reader leaves no buffer behind: each that it took is back in the
-- pool or with the jitter buffer, once.
pub read_all-placed :
    (dtmf : ℕ) (xs : List ReadResult) (r : Reader)
    → placed (read_all dtmf xs r) + r.taken ≡ placed r + (read_all dtmf xs r).taken
unfolding read_all
read_all-placed dtmf [] r = refl
read_all-placed dtmf (x ∷ xs) r = elim (Bool-cases r.stopped) [
  | inl e ↦ rw (read_all-stopped dtmf x xs r e) refl
  | inr e ↦
      let n = record r { taken = suc r.taken } in
      let round = read_round-placed dtmf x n in
      let rest = read_all-placed dtmf xs (read_round dtmf x n) in
      rw (read_all-next dtmf x xs r e) (omega (arith, round.0, round.1, rest))
]
