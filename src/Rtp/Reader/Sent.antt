-- ===== src/Rtp/Reader/Sent.antt =====
-- pkg/client/client.go, internal/rtp/dtmf_generator.go and internal/rtp/rtp_handler.go: a digit from
-- the client that sends it to the callback of the reader that receives it.
use mathlib.Core.Option
use tele_portal.Client.{WsDtmfRequest, send_dtmf, sent}
use tele_portal.Common.{
  List, [], ap, false, map, refl, replicate, some, suc, sym, true, ℕ, ◌++◌, ◌+◌, ◌<◌, ◌==◌, ◌∙◌,
  ◌∷◌, ◌≡◌,
}
use tele_portal.Common.Int.{ℤ}
use tele_portal.Common.Maps.{some-inj}
use tele_portal.Common.Result.{ok}
use tele_portal.Common.Text.{upper}
use tele_portal.Rtp.Dtmf.{DtmfGenerator, generate, interval, parse_dtmf_payload, to_samples}
use tele_portal.Rtp.Dtmf.Ramp.{ramp}
use tele_portal.Rtp.Dtmf.RoundTrip.{heard, parse-generate-send_dtmf}
use tele_portal.Rtp.Reader.{Reader, read_all}
use tele_portal.Rtp.Reader.Digits.{arrivals, digit_report, read_digit}

-- The packets of a digit that the client library has sent, read one after the other, are reported
-- as the updates of the ramp and then as one end with the whole duration, if the reader runs and
-- knows the type of the event, the packet interval is not empty, duration and interval together fit
-- 16 bits and the timestamp is not that of the last end.
pub read_all-send_dtmf :
    (g : DtmfGenerator) (c : ℕ) (ms : ℤ) (request : WsDtmfRequest) (ps : List (List ℕ))
    (dtmf s now : ℕ) (r : Reader)
    → send_dtmf true (c ∷ []) ms sent ≡ ok request
    → 0 < to_samples g.sample_rate (interval ms g.ptime)
    → to_samples g.sample_rate ms + to_samples g.sample_rate (interval ms g.ptime) < 65536
    → generate (suc (to_samples g.sample_rate ms)) g request.digit request.duration ≡ some ps
    → (dtmf == 0) ≡ false
    → (s == r.last_dtmf_timestamp) ≡ false
    → r.stopped ≡ false
    → (read_all dtmf (arrivals dtmf s now ps) r).reported
      ≡ r.reported
        ++ (map
              (digit_report (upper c ∷ []) false)
              (ramp (to_samples g.sample_rate (interval ms g.ptime)) (to_samples g.sample_rate ms))
            ++ digit_report (upper c ∷ []) true (to_samples g.sample_rate ms) ∷ [])
read_all-send_dtmf g c ms request ps dtmf s now r e moves narrow made z n o =
    let step = to_samples g.sample_rate (interval ms g.ptime) in
    let total = to_samples g.sample_rate ms in
    let parsed : map parse_dtmf_payload ps
        ≡ map (heard (upper c ∷ []) false) (ramp step total)
          ++ replicate 3 (heard (upper c ∷ []) true total) =
      some-inj (
        sym (ap (Option.map (map parse_dtmf_payload)) made)
        ∙ parse-generate-send_dtmf g c ms request e moves narrow) in
    (read_digit dtmf s now total (upper c ∷ []) z (ramp step total) ps r.last_dtmf_timestamp
      r.reported r parsed n (record { last_end = refl; same = refl; running = o })).same
