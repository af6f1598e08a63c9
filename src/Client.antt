-- ===== src/Client.antt =====
-- pkg/client/client.go: the requests of a WebSocket client.
pub mod Session
pub mod Buffers
pub mod Lifetimes
use tele_portal.Common.{
  Bool, [], false, if◌then◌else◌, leb, length, ltb, map, not, true, ℕ, ◌==◌, ◌||◌, ◌∷◌,
}
use tele_portal.Common.Int.{negsuc, pos, ℤ}
use tele_portal.Common.Result.{Result, err, ok}
use tele_portal.Common.Text.{Text, codes, upper}

abbrev pub valid_dtmf_digits : Text
valid_dtmf_digits = codes "0123456789*#ABCDabcd"

pub data SendError : Type 0 where
  dtmf_not_supported not_one_character invalid_digit invalid_duration context_done client_done :
      SendError

-- Which case of the final `select` runs: the send, or the end of one of the two contexts.
pub data Select : Type 0 where
  sent caller_done closed : Select

pub record WsDtmfRequest : Type 0 where
  pub digit : Text
  pub duration : ℤ

-- The loop over the valid digits.
unfoldable pub is_one_of : ℕ → Text → Bool
is_one_of c [] = false
is_one_of c (v ∷ vs) = c == v || is_one_of c vs

abbrev first_byte : Text → ℕ
first_byte [] = 0
first_byte (c ∷ cs) = c

abbrev pub bad_duration : ℤ → Bool
bad_duration (pos ms) = leb ms 0 || ltb 5000 ms
bad_duration (negsuc n) = true

-- The request that `SendDTMF` puts into the send queue, or its error.
unfoldable pub send_dtmf : Bool → Text → ℤ → Select → Result SendError WsDtmfRequest
send_dtmf dtmf_enabled digit duration select =
    if not dtmf_enabled
    then err dtmf_not_supported
    else if not (length digit == 1)
    then err not_one_character
    else if not (is_one_of (first_byte digit) valid_dtmf_digits)
    then err invalid_digit
    else if bad_duration duration
    then err invalid_duration
    else elim select [
      | sent ↦ ok (record { digit = map upper digit; duration = duration })
      | caller_done ↦ err context_done
      | closed ↦ err client_done
    ]
