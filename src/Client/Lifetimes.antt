-- ===== src/Client/Lifetimes.antt =====
-- pkg/client/client.go: the whole life of a client.
use tele_portal.Client.Buffers.{
  Balanced, IsBalanced, close-Balanced, ends, on_frame-Balanced, read-Balanced,
  send_silence-Balanced, send_text-Balanced, write-Balanced, write_next-Balanced,
}
use tele_portal.Client.Session.{
  Session, Step, arriving, binaries_of, closing, muting, new_session, pumping, reading, requesting,
  run, silent, step, writing,
}
use tele_portal.Common.{List, [], ap, arith, inl, inr, length, refl, subst, true, ◌+◌, ◌∷◌, ◌≡◌}
use tele_portal.Common.Maps.{size}
use tele_portal.Common.Result.{Result-cases, ok}
use tele_portal.Rtp.Dtmf.{payload}

step-Balanced : (s : Step) (c : Session) → IsBalanced c → Balanced (step s c)
unfolding step
step-Balanced (writing samples select) c v = write-Balanced samples select c v
step-Balanced (requesting payload select) c v = send_text-Balanced payload select c v
step-Balanced reading c v = read-Balanced c v
step-Balanced pumping c v = write_next-Balanced c v
step-Balanced closing c v = close-Balanced c v
step-Balanced (arriving payload readable) c v = on_frame-Balanced payload readable c v
step-Balanced (silent size) c v = send_silence-Balanced size c v
step-Balanced (muting inbound outbound) c v = record {
  conserved = v.conserved;
  closed_send = v.closed_send;
  closed_receive = v.closed_receive;
}

run-Balanced : (ss : List Step) (c : Session) → IsBalanced c → Balanced (run ss c)
unfolding run
run-Balanced [] c v = v
run-Balanced (s ∷ ss) c v = elim (Result-cases (step s c)) [
  | inr (x, e) ↦ ends (run (s ∷ ss) c) x (simp (e, run))
  | inl (d, e) ↦ rw (e, run) (run-Balanced ss d (subst Balanced e (step-Balanced s c v)))
]

new_session-IsBalanced : IsBalanced new_session
new_session-IsBalanced = record {
  conserved = refl;
  closed_send = λ o. refl;
  closed_receive = λ o. refl;
}

-- After any history of a new client that goes through and in which the client is closed, both
-- channels are empty and every buffer that was taken went back to the pool or to the reader, once.
pub run-close :
    (ss : List Step) (d : Session)
    → run ss new_session ≡ ok d
    → d.is_closed ≡ true
    → (d.send ≡ []) × (d.receive ≡ []) × (d.taken ≡ d.returned + d.given)
run-close ss d e o =
    let v : IsBalanced d = subst Balanced e (run-Balanced ss new_session new_session-IsBalanced) in
    (
      v.closed_send o,
      v.closed_receive o,
      omega (arith, v.conserved, ap binaries_of (v.closed_send o), ap length (v.closed_receive o)),
    )
