-- ===== src/Sip/Offer.antt =====
-- internal/sip/sip_handler.go: what the handler reads of an SDP offer. The parser is the library
-- pion/sdp; these are the fields of its session description that the handler looks at.
use tele_portal.Common.{
  Bool, List, Option, [], false, get_elem?, if◌then◌else◌, ltb, none, some, suc, ℕ, ◌-◌, ◌||◌, ◌∷◌,
}
use tele_portal.Common.Int.{negsuc, pos, ℤ}
use tele_portal.Common.Result.{Result, err, ok}
use tele_portal.Common.Text.{Text, atoi, codes, equal_fold, itoa, same_text, split}
use tele_portal.Common.Words.{u8}
use tele_portal.Rtp.Ports.Allocate.{found}

pub record Attribute : Type 0 where
  pub key : Text
  pub value : Text

pub record MediaDescription : Type 0 where
  pub media : Text
  pub port : ℕ
  pub formats : List Text
  pub connection : Option Text
  pub attributes : List Attribute

pub record SessionDescription : Type 0 where
  pub connection : Option Text
  pub media_descriptions : List MediaDescription

-- The first audio media, a loop with a break.
unfoldable pub audio_media : List MediaDescription → Option MediaDescription
audio_media [] = none
audio_media (m ∷ ms) =
    let rest = audio_media ms in if same_text m.media (codes "audio") then some m else rest

-- The value of a `ptime` attribute: the default is 20.
abbrev pub ptime_value : Option ℤ → ℕ
ptime_value (some (pos (suc n))) = suc n
ptime_value _ = 20

-- The first `ptime` attribute decides, also if it is not understood.
unfoldable pub ptime_of : List Attribute → ℕ
ptime_of [] = 20
ptime_of (a ∷ as') =
    let rest = ptime_of as' in
    if same_text a.key (codes "ptime") then ptime_value (atoi a.value) else rest

pub record DynamicType : Type 0 where
  pub payload_type : ℕ
  pub rate : ℤ
  pub channels : ℤ

-- `uint8(pt)` of an int.
abbrev pub int_u8 : ℤ → ℕ
int_u8 (pos n) = u8 n
int_u8 (negsuc n) = u8 (256 - u8 (suc n))

abbrev or_default : Option ℤ → ℤ → ℤ
or_default (some n) d = n
or_default none d = d

-- The number in an optional part of `L16/8000/1`.
abbrev part_or : Option Text → ℤ → ℤ
part_or (some t) d = or_default (atoi t) d
part_or none d = d

-- The encoding `L16/8000/1`, if its name is the one that is looked for.
unfoldable pub encoding_of : Text → ℕ → List Text → Option DynamicType
encoding_of name pt parts = elim (get_elem? parts 0) [
  | none ↦ none
  | some encoding ↦
      if equal_fold encoding name
      then some (record {
        payload_type = pt;
        rate = part_or (get_elem? parts 1) (pos 8000);
        channels = part_or (get_elem? parts 2) (pos 1);
      })
      else none
]

-- One attribute of the loop in `getDynamicPT`; `none` goes on to the next.
unfoldable pub rtpmap_of : Text → Attribute → Option DynamicType
unfolding encoding_of
rtpmap_of name a =
    if same_text a.key (codes "rtpmap")
    then elim (split b' ' a.value) [
      | number ∷ rest ∷ more ↦ elim (atoi number) [
        | some pt ↦ encoding_of name (int_u8 pt) (split b'/' rest)
        | none ↦ none
      ]
      | _ ↦ none
    ]
    else none

unfoldable pub get_dynamic_pt : Text → List Attribute → Option DynamicType
get_dynamic_pt name [] = none
get_dynamic_pt name (a ∷ as') = elim (rtpmap_of name a) [
  | some found ↦ some found
  | none ↦ get_dynamic_pt name as'
]

-- Whether a payload type is among the formats of the media line.
unfoldable pub has_format : ℕ → List Text → Bool
has_format pt [] = false
has_format pt (f ∷ fs) = same_text f (itoa pt) || has_format pt fs

pub data AddressError : Type 0 where
  no_audio_address : AddressError

-- `getRemoteRTPAddr`, up to the resolution of the address by the net package: the host and the
-- port of the first audio media that has both. A connection line without an address, which the
-- source dereferences as nil, has no counterpart: a connection is its address.
unfoldable pub find_address : Option Text → List MediaDescription → Result AddressError (Text × ℕ)
find_address ip [] = err no_audio_address
find_address ip (m ∷ ms) =
    let ip' : Option Text = elim m.connection [ some c ↦ some c | none ↦ ip ] in
    let rest = find_address ip ms in
    let rest' = find_address ip' ms in
    if same_text m.media (codes "audio")
    then elim ip' [
      | some (c ∷ cs) ↦ if ltb 0 m.port then ok (c ∷ cs, m.port) else rest'
      | _ ↦ rest'
    ]
    else rest

unfoldable pub get_remote_rtp_addr : SessionDescription → Result AddressError (Text × ℕ)
unfolding find_address
get_remote_rtp_addr s = find_address s.connection s.media_descriptions
