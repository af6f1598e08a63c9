-- ===== src/Rtp/Reader/Digits.antt =====
-- internal/rtp/rtp_handler.go: a digit that the generator sends is reported once by the reader.
use mathlib.Core.List.{append_assoc}
use tele_portal.Common.{
  Bool, List, [], ap, arith, false, map, refl, replicate, subst, suc, sym, true, zero, ℕ, ◌++◌,
  ◌==◌, ◌∙◌, ◌∷◌, ◌≡◌,
}
use tele_portal.Common.Text.{Text}
use tele_portal.Rtp.Dtmf.{parse_dtmf_payload, payload}
use tele_portal.Rtp.Dtmf.RoundTrip.{heard}
use tele_portal.Rtp.Reader.{
  DtmfReport, ReadResult, Reader, RtpFrame, on_dtmf_event, on_packet, push_frame, read_all,
  read_round, received, report,
}

abbrev pub digit_report : Text → Bool → ℕ → DtmfReport
digit_report digit end duration = record { digit = digit; duration = duration; end = end }

-- The packets of an event, at any times.
abbrev pub frame_of : ℕ → ℕ → List ℕ → RtpFrame
frame_of dtmf timestamp payload = record {
  payload_type = dtmf;
  timestamp = timestamp;
  payload = payload;
}

abbrev pub arrivals : ℕ → ℕ → ℕ → List (List ℕ) → List ReadResult
arrivals dtmf timestamp now payloads = map (λ p. received now (frame_of dtmf timestamp p)) payloads

-- Where the reader is between the packets of an event, but for the packets that it has pushed.
pub record IsAt (last : ℕ) (reports : List DtmfReport) (r : Reader) : Type 0 where
  pub last_end : r.last_dtmf_timestamp ≡ last
  pub same : r.reported ≡ reports
  pub running : r.stopped ≡ false

same_number : (n : ℕ) → (n == n) ≡ true
same_number n = ground arith

on_packet-update :
    (dtmf s last duration : ℕ) (digit : Text) (payload : List ℕ) (reports : List DtmfReport)
    (r : Reader)
    → (dtmf == 0) ≡ false
    → parse_dtmf_payload payload ≡ heard digit false duration
    → IsAt last reports r
    → IsAt last
        (reports ++ digit_report digit false duration ∷ [])
        (on_packet dtmf (frame_of dtmf s payload) r)
unfolding on_packet on_dtmf_event
on_packet-update dtmf s last duration digit payload reports r z e v =
    rw (z, same_number dtmf, e, on_packet)
      (record {
        last_end = v.last_end;
        same = ap (λ l. l ++ digit_report digit false duration ∷ []) v.same;
        running = v.running;
      })

on_packet-end :
    (dtmf s last duration : ℕ) (digit : Text) (payload : List ℕ) (reports : List DtmfReport)
    (r : Reader)
    → (dtmf == 0) ≡ false
    → parse_dtmf_payload payload ≡ heard digit true duration
    → (s == last) ≡ false
    → IsAt last reports r
    → IsAt s
        (reports ++ digit_report digit true duration ∷ [])
        (on_packet dtmf (frame_of dtmf s payload) r)
unfolding on_packet on_dtmf_event
on_packet-end dtmf s last duration digit payload reports r z e n v =
    let fresh : (s == r.last_dtmf_timestamp) ≡ false = ap (λ l. s == l) v.last_end ∙ n in
    subst (IsAt s (reports ++ digit_report digit true duration ∷ []))
      (simp (z, same_number dtmf, e, fresh, on_packet)) (ended_here fresh)
  where
    ended_here :
        (s == r.last_dtmf_timestamp) ≡ false
        → IsAt s (reports ++ digit_report digit true duration ∷ []) (
            report
              (record { digit = digit; duration = duration; end = true })
              (record r { last_dtmf_timestamp = s }))
    ended_here fresh = record {
      last_end = refl;
      same = ap (λ l. l ++ digit_report digit true duration ∷ []) v.same;
      running = v.running;
    }

on_packet-again :
    (dtmf s duration : ℕ) (digit : Text) (payload : List ℕ) (reports : List DtmfReport) (r : Reader)
    → (dtmf == 0) ≡ false
    → parse_dtmf_payload payload ≡ heard digit true duration
    → IsAt s reports r
    → IsAt s reports (on_packet dtmf (frame_of dtmf s payload) r)
unfolding on_packet on_dtmf_event
on_packet-again dtmf s duration digit payload reports r z e v =
    let seen : (s == r.last_dtmf_timestamp) ≡ true = ap (λ l. s == l) v.last_end ∙ same_number s in
    subst (IsAt s reports) (simp (z, same_number dtmf, e, seen, on_packet)) v

cons-inj : {A : Type 0} {x y : A} {xs ys : List A} → (x ∷ xs) ≡ (y ∷ ys) → (x ≡ y) × (xs ≡ ys)
cons-inj e = (cc, cc)

-- The reader when it has read the bytes of a packet.
abbrev started_round : ℕ → Reader → Reader
started_round now r = record r { taken = suc r.taken; last_packet_time = now }

abbrev after_packet : ℕ → ℕ → RtpFrame → Reader → Reader
after_packet dtmf now p r = push_frame p (on_packet dtmf p (started_round now r))

read_all-received :
    (dtmf now : ℕ) (p : RtpFrame) (xs : List ReadResult) (r : Reader)
    → r.stopped ≡ false
    → read_all dtmf (received now p ∷ xs) r ≡ read_all dtmf xs (after_packet dtmf now p r)
unfolding read_all read_round
read_all-received dtmf now p xs r o = simp (o, read_all)

started-IsAt :
    (now last : ℕ) (reports : List DtmfReport) (r : Reader)
    → IsAt last reports r
    → IsAt last reports (started_round now r)
started-IsAt now last reports r v = record {
  last_end = v.last_end;
  same = v.same;
  running = v.running;
}

pushed-IsAt :
    (last : ℕ) (reports : List DtmfReport) (p : RtpFrame) (r : Reader)
    → IsAt last reports r
    → IsAt last reports (push_frame p r)
pushed-IsAt last reports p r v = record {
  last_end = v.last_end;
  same = v.same;
  running = v.running;
}

-- The packets of a digit: updates, then three ends.
module _ (dtmf s now total : ℕ) (digit : Text) (z : (dtmf == 0) ≡ false) where
  abbrev Reads : List (List ℕ) → ℕ → List DtmfReport → Reader → Type 0
  Reads ps last reports r = IsAt last reports (read_all dtmf (arrivals dtmf s now ps) r)

  read_more :
      (p : List ℕ) (ps : List (List ℕ)) (last : ℕ) (reports : List DtmfReport) (r : Reader)
      → r.stopped ≡ false
      → Reads ps last reports (after_packet dtmf now (frame_of dtmf s p) r)
      → Reads (p ∷ ps) last reports r
  read_more p ps last reports r o v =
      subst (IsAt last reports)
        (sym (read_all-received dtmf now (frame_of dtmf s p) (arrivals dtmf s now ps) r o)) v

  read_again :
      (ps : List (List ℕ)) (n : ℕ) (reports : List DtmfReport) (r : Reader)
      → map parse_dtmf_payload ps ≡ replicate n (heard digit true total)
      → IsAt s reports r
      → Reads ps s reports r
  unfolding read_all
  read_again [] n reports r e v = v
  read_again (p ∷ ps) zero reports r e v = cc
  read_again (p ∷ ps) (suc n) reports r e v =
      let (e0, e1) = cons-inj e in
      read_more p ps s reports r v.running (
        read_again ps n reports (after_packet dtmf now (frame_of dtmf s p) r) e1 (
          pushed-IsAt s reports (frame_of dtmf s p) _ (
            on_packet-again dtmf s total digit p reports (started_round now r) z e0
              (started-IsAt now s reports r v))))

  pub read_digit :
      (ds : List ℕ) (ps : List (List ℕ)) (last : ℕ) (reports : List DtmfReport) (r : Reader)
      → map parse_dtmf_payload ps
        ≡ map (heard digit false) ds ++ replicate 3 (heard digit true total)
      → (s == last) ≡ false
      → IsAt last reports r
      → Reads ps s
          (reports ++ (map (digit_report digit false) ds ++ digit_report digit true total ∷ []))
          r
  read_digit [] [] last reports r e n v = cc
  read_digit [] (p ∷ ps) last reports r e n v =
      let (e0, e1) = cons-inj e in
      let after = reports ++ digit_report digit true total ∷ [] in
      read_more p ps s after r v.running (
        read_again ps 2 after (after_packet dtmf now (frame_of dtmf s p) r) e1 (
          pushed-IsAt s after (frame_of dtmf s p) _ (
            on_packet-end dtmf s last total digit p reports (started_round now r) z e0 n
              (started-IsAt now last reports r v))))
  read_digit (d ∷ ds) [] last reports r e n v = cc
  read_digit (d ∷ ds) (p ∷ ps) last reports r e n v =
      let (e0, e1) = cons-inj e in
      let after = reports ++ digit_report digit false d ∷ [] in
      let rest = map (digit_report digit false) ds ++ digit_report digit true total ∷ [] in
      subst (λ l. Reads (p ∷ ps) s l r)
        (append_assoc reports (digit_report digit false d ∷ []) rest)
        (read_more p ps s (after ++ rest) r v.running (
          read_digit ds ps last after (after_packet dtmf now (frame_of dtmf s p) r) e1 n (
            pushed-IsAt last after (frame_of dtmf s p) _ (
              on_packet-update dtmf s last d digit p reports (started_round now r) z e0
                (started-IsAt now last reports r v)))))
