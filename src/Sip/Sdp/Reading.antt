-- ===== src/Sip/Sdp/Reading.antt =====
-- internal/sdp/sdp.go: what the negotiation of a peer that runs this program reads in an answer.
use mathlib.Core.List.{append-nil}
use tele_portal.Audio.Codec.{Stream, new_codec_g711_a_law, new_codec_g711_mu_law, new_codec_l16}
use tele_portal.Common.{
  Bool-cases, List, [], ap, arith, false, if◌then◌else◌, inl, inr, ltb, none, refl, some, true, ℕ,
  ◌++◌, ◌<◌, ◌∙◌, ◌∷◌, ◌≡◌, ◌≤◌, ◌⊎◌,
}
use tele_portal.Common.Int.{pos}
use tele_portal.Common.Numerals.{
  Avoids, append-Avoids, atoi-itoa, itoa-Avoids, split-last, split-part,
}
use tele_portal.Common.Result.{ok}
use tele_portal.Common.Text.{Text, codes, equal_fold, itoa, same_text, split}
use tele_portal.Sip.Offer.{MediaDescription, SessionDescription, encoding_of, rtpmap_of}
use tele_portal.Sip.Sdp.{Answer, AnswerMedia}

-- The answer as the library reads it back: the fields that the negotiation looks at.
unfoldable pub read_media : List AnswerMedia → List MediaDescription
read_media [] = []
read_media (m ∷ ms) =
    record {
      media = m.media;
      port = m.port;
      formats = m.formats;
      connection = some (m.connection_information.address);
      attributes = m.attributes;
    }
    ∷ read_media ms

unfoldable pub read_answer : Answer → SessionDescription
unfolding read_media
read_answer a = record {
  connection = some (a.connection_information.address);
  media_descriptions = read_media a.media_descriptions;
}

-- The stream is what a negotiation in pass-through mode can end with.
pub record IsNegotiated (s : Stream) : Type 0 where
  pub codec_offered :
      (s.codec ≡ new_codec_g711_mu_law)
      ⊎ (s.codec ≡ new_codec_g711_a_law)
      ⊎ (new_codec_l16 s.codec.payload_type s.codec.sample_rate s.codec.channels true true
          ≡ ok s.codec)
  pub payload_bound : s.codec.payload_type < 256
  pub dtmf_bound : s.dtmf_payload_type < 256
  pub ptime_positive : 0 < s.ptime
  pub ptime_bound : s.ptime ≤ 9223372036854775807

pub rtpmap_of-value :
    (name value : Text) (pt : ℕ)
    → pt < 256
    → Avoids b' ' value
    → rtpmap_of name (record { key = codes "rtpmap"; value = itoa pt ++ (b' ' ∷ value) })
      ≡ encoding_of name pt (split b'/' value)
unfolding rtpmap_of same_text
rtpmap_of-value name value pt h k =
    rw
      (
        rtpmap_of,
        split-part b' ' (itoa pt) value (itoa-Avoids b' ' pt (omega arith)),
        split-last b' ' value k,
        atoi-itoa pt (omega arith),
      )
      (ap (λ (n : ℕ). encoding_of name n (split b'/' value)) (omega arith))

encoding_of-other :
    (name encoding : Text) (pt : ℕ) (parts : List Text)
    → equal_fold encoding name ≡ false
    → encoding_of name pt (encoding ∷ parts) ≡ none
unfolding encoding_of
encoding_of-other name encoding pt parts e = rw e refl

-- An attribute `rtpmap` with another encoding name is passed over.
pub rtpmap-other :
    (name encoding rest : Text) (pt : ℕ)
    → pt < 256
    → Avoids b' ' (encoding ++ b'/' ∷ rest)
    → Avoids b'/' encoding
    → equal_fold encoding name ≡ false
    → rtpmap_of name
        (record { key = codes "rtpmap"; value = itoa pt ++ (b' ' ∷ (encoding ++ (b'/' ∷ rest))) })
      ≡ none
rtpmap-other name encoding rest pt b h k e =
    rtpmap_of-value name (encoding ++ b'/' ∷ rest) pt b h
    ∙ ap (encoding_of name pt) (split-part b'/' encoding rest k)
    ∙ encoding_of-other name encoding pt (split b'/' rest) e

-- The part of a rtpmap value behind the encoding name.
abbrev pub rate_part : ℕ → ℕ → Text
rate_part rate channels = itoa rate ++ (if ltb 1 channels then b'/' ∷ itoa channels else [])

pub rate_part-Avoids : (rate channels : ℕ) → Avoids b' ' (rate_part rate channels)
unfolding Avoids
rate_part-Avoids rate channels =
    append-Avoids b' ' (itoa rate) (if ltb 1 channels then b'/' ∷ itoa channels else [])
      (itoa-Avoids b' ' rate (omega arith))
      (elim (Bool-cases (ltb 1 channels)) [
        | inl e ↦ rw e (refl, itoa-Avoids b' ' channels (omega arith))
        | inr e ↦ rw e record {}
      ])

one_channel : (rate : ℕ) → split b'/' (rate_part rate 1) ≡ itoa rate ∷ []
one_channel rate =
    rw (append-nil (itoa rate)) (split-last b'/' (itoa rate) (itoa-Avoids b'/' rate (omega arith)))

two_channels : (rate : ℕ) → split b'/' (rate_part rate 2) ≡ itoa rate ∷ itoa 2 ∷ []
two_channels rate =
    split-part b'/' (itoa rate) (itoa 2) (itoa-Avoids b'/' rate (omega arith))
    ∙ ap (◌∷◌ (itoa rate)) (split-last b'/' (itoa 2) (itoa-Avoids b'/' 2 (omega arith)))

-- The rate and the channels of an L16 encoding are read back.
pub encoding_of-l16 :
    (pt rate channels : ℕ)
    → rate < 65536
    → (channels ≡ 1) ⊎ (channels ≡ 2)
    → encoding_of (codes "L16") pt (codes "L16" ∷ split b'/' (rate_part rate channels))
      ≡ some (record { payload_type = pt; rate = pos rate; channels = pos channels })
unfolding encoding_of equal_fold same_text
encoding_of-l16 pt rate channels h (inl e) =
    rw (e, one_channel rate, atoi-itoa rate (omega arith)) refl
encoding_of-l16 pt rate channels h (inr e) =
    rw (e, two_channels rate, atoi-itoa rate (omega arith), atoi-itoa 2 (omega arith)) refl
