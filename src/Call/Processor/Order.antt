-- ===== src/Call/Processor/Order.antt =====
-- internal/call/audio_bridge.go: the messages of the packets, in their order.
use mathlib.Core.List.{append-nil}
use tele_portal.Call.Processor.{
  Media, QueuedMessage, RtpPacket, bytes_of, deliver, get_buffer, push_left, put_buffer, send_audio,
  transcoding_required,
}
use tele_portal.Call.Processor.Buffers.{push_left-transcoding}
use tele_portal.Call.Processor.Delivery.{
  audio_message, broadcast-send, broadcast-setup, offer, push_left-send, push_left-setup, setup,
  take-roomy,
}
use tele_portal.Common.{
  Bool, Bool-cases, List, Option, [], ap, false, if◌then◌else◌, inl, inr, length, none, refl, some,
  subst, sym, take, true, ℕ, ◌∙◌, ◌≡◌, ◌≤◌,
}

-- A round of the loop that offers `ws` to the client.
pub record IsRound (ws : List QueuedMessage) (m n : Media) : Type 0 where
  pub same : setup n ≡ setup m
  pub sent : n.send ≡ offer m.send ws

pub quiet-IsRound :
    (m n : Media) → setup n ≡ setup m → n.send ≡ m.send → length m.send ≤ 200 → IsRound [] m n
quiet-IsRound m n e f h = record {
  same = e;
  sent = f ∙ sym (take-roomy 200 m.send h) ∙ ap (take 200) (sym (append-nil m.send));
}

send_audio-false :
    (decoded : Option (List ℕ)) (p : RtpPacket) (m : Media)
    → (setup (send_audio false decoded p m) ≡ setup m)
      × ((send_audio false decoded p m).send ≡ m.send)
unfolding send_audio
send_audio-false none p m = (refl, refl)
send_audio-false (some samples) p m = elim (Bool-cases (transcoding_required m)) [
  | inl e ↦ rw (e, send_audio) (refl, refl)
  | inr e ↦ rw (e, send_audio) (refl, refl)
]

abbrev pub sent_bytes : Option (List ℕ) → RtpPacket → Media → List ℕ
sent_bytes decoded p m = if transcoding_required m then bytes_of decoded else bytes_of p.payload

send_audio-true :
    (decoded : Option (List ℕ)) (p : RtpPacket) (m : Media)
    → m.has_client ≡ true
    → length m.send ≤ 200
    → IsRound (audio_message (sent_bytes decoded p m)) m (send_audio true decoded p m)
unfolding send_audio
send_audio-true decoded p m c h = elim (Bool-cases (transcoding_required m)) [
  | inl e ↦
      rw (e, send_audio)
        (record {
          same = broadcast-setup (bytes_of decoded) m;
          sent = broadcast-send (bytes_of decoded) m c h;
        })
  | inr e ↦
      rw (e, send_audio)
        (record {
          same = broadcast-setup (bytes_of p.payload) (get_buffer m);
          sent = broadcast-send (bytes_of p.payload) (get_buffer m) c h;
        })
]

-- The state in which the message is sent, and `deliver` as a whole.
abbrev pushed : Option (List ℕ) → Media → Media
pushed none m = m
pushed (some samples) m = push_left samples m

pushed-setup : (decoded : Option (List ℕ)) (m : Media) → setup (pushed decoded m) ≡ setup m
pushed-setup none m = refl
pushed-setup (some samples) m = push_left-setup samples m

pushed-send : (decoded : Option (List ℕ)) (m : Media) → (pushed decoded m).send ≡ m.send
pushed-send none m = refl
pushed-send (some samples) m = push_left-send samples m

pushed-bytes_of :
    (decoded : Option (List ℕ)) (p : RtpPacket) (m : Media)
    → sent_bytes decoded p (pushed decoded m) ≡ sent_bytes decoded p m
pushed-bytes_of none p m = refl
pushed-bytes_of (some samples) p m =
    ap (λ b. if b then samples else bytes_of p.payload) (push_left-transcoding samples m)

deliver-pushed :
    (listening : Bool) (decoded : Option (List ℕ)) (p : RtpPacket) (m : Media)
    → deliver listening decoded p m ≡ put_buffer (send_audio listening decoded p (pushed decoded m))
unfolding deliver
deliver-pushed listening none p m = refl
deliver-pushed listening (some samples) p m = refl

pub deliver-true :
    (decoded : Option (List ℕ)) (p : RtpPacket) (m : Media)
    → m.has_client ≡ true
    → length m.send ≤ 200
    → IsRound (audio_message (sent_bytes decoded p m)) m (deliver true decoded p m)
deliver-true decoded p m c h =
    let n = pushed decoded m in
    let r =
      send_audio-true decoded p n (ap (λ s. s.2) (pushed-setup decoded m) ∙ c)
        (subst (λ q. length q ≤ 200) (sym (pushed-send decoded m)) h) in
    rw (deliver-pushed true decoded p m) (record {
      same = r.same ∙ pushed-setup decoded m;
      sent =
          r.sent
          ∙ ap (λ q. offer q (audio_message (sent_bytes decoded p n))) (pushed-send decoded m)
          ∙ ap (λ b. offer m.send (audio_message b)) (pushed-bytes_of decoded p m);
    })

pub deliver-false :
    (decoded : Option (List ℕ)) (p : RtpPacket) (m : Media)
    → length m.send ≤ 200
    → IsRound [] m (deliver false decoded p m)
deliver-false decoded p m h =
    let r = send_audio-false decoded p (pushed decoded m) in
    quiet-IsRound m (deliver false decoded p m)
      (ap setup (deliver-pushed false decoded p m) ∙ r.0 ∙ pushed-setup decoded m)
      (ap (λ n. n.send) (deliver-pushed false decoded p m) ∙ r.1 ∙ pushed-send decoded m) h
