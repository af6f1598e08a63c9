-- ===== src/Sip/Sdp/Widths.antt =====
-- internal/sip/sip_handler.go: the widths of the numbers that the negotiation reads out of an
-- offer.
use tele_portal.Common.{
  Bool-cases, List, Option, Option-cases, [], arith, inl, inr, none, refl, some, subst, suc, zero,
  ℕ, ◌<◌, ◌∷◌, ◌≡◌, ◌≤◌, ◌⊎◌,
}
use tele_portal.Common.Int.{negsuc, pos, ℤ}
use tele_portal.Common.Numerals.{atoi-le}
use tele_portal.Common.Text.{Text, atoi, codes, equal_fold, same_text, split}
use tele_portal.Sip.Negotiation.{dtmf_type}
use tele_portal.Sip.Offer.{
  Attribute, DynamicType, MediaDescription, encoding_of, get_dynamic_pt, has_format, int_u8,
  ptime_of, ptime_value, rtpmap_of,
}

int_u8-bound : (z : ℤ) → int_u8 z < 256
int_u8-bound (pos n) = omega arith
int_u8-bound (negsuc n) = omega arith

abbrev BoundedType : Option DynamicType → Type 0
BoundedType none = Unit {0}
BoundedType (some d) = d.payload_type < 256

bounded_none : (o : Option DynamicType) → o ≡ none → BoundedType o
bounded_none o e = rw e record {}

encoding_of-bound :
    (name : Text) (pt : ℕ) (parts : List Text) → pt < 256 → BoundedType (encoding_of name pt parts)
unfolding encoding_of
encoding_of-bound name pt [] h = record {}
encoding_of-bound name pt (encoding ∷ parts) h = elim (Bool-cases (equal_fold encoding name)) [
  | inl e ↦ rw (encoding_of, e) h
  | inr e ↦ rw (encoding_of, e) record {}
]

List-cases {ℓ} :
    {A : Type ℓ} → (xs : List A) → (xs ≡ []) ⊎ ((x : A) × (ys : List A) × (xs ≡ x ∷ ys))
List-cases [] = inl refl
List-cases (x ∷ ys) = inr (x, ys, refl)

rtpmap_of-bound : (name : Text) (a : Attribute) → BoundedType (rtpmap_of name a)
unfolding rtpmap_of
rtpmap_of-bound name a = elim (Bool-cases (same_text a.key (codes "rtpmap"))) [
  | inr e ↦ rw (rtpmap_of, e) record {}
  | inl e ↦ elim (List-cases (split b' ' a.value)) [
    | inl f ↦ rw (rtpmap_of, e, f) record {}
    | inr (number, more, f) ↦ elim (List-cases more) [
      | inl g ↦ rw (rtpmap_of, e, f, g) record {}
      | inr (value, left, g) ↦ elim (Option-cases (atoi number)) [
        | inl h ↦ rw (rtpmap_of, e, f, g, h) record {}
        | inr (pt, h) ↦
            rw (rtpmap_of, e, f, g, h)
              (encoding_of-bound name (int_u8 pt) (split b'/' value) (int_u8-bound pt))
      ]
    ]
  ]
]

get_dynamic_pt-bound : (name : Text) (as' : List Attribute) → BoundedType (get_dynamic_pt name as')
unfolding get_dynamic_pt
get_dynamic_pt-bound name [] = record {}
get_dynamic_pt-bound name (a ∷ as') = elim (Option-cases (rtpmap_of name a)) [
  | inl e ↦ rw (get_dynamic_pt, e) (get_dynamic_pt-bound name as')
  | inr (d, e) ↦ rw (get_dynamic_pt, e) (subst BoundedType e (rtpmap_of-bound name a))
]

pub found_bound :
    (name : Text) (as' : List Attribute) (d : DynamicType)
    → get_dynamic_pt name as' ≡ some d
    → d.payload_type < 256
found_bound name as' d e = subst BoundedType e (get_dynamic_pt-bound name as')

pub dtmf_type-bound : (m : MediaDescription) → dtmf_type m < 256
unfolding dtmf_type
dtmf_type-bound m = elim (Option-cases (get_dynamic_pt (codes "telephone-event") m.attributes)) [
  | inl e ↦ rw (dtmf_type, e) (omega arith)
  | inr (d, e) ↦
      let bound = found_bound (codes "telephone-event") m.attributes d e in
      elim (Bool-cases (has_format d.payload_type m.formats)) [
        | inl f ↦ rw (dtmf_type, e, f) bound
        | inr f ↦ rw (dtmf_type, e, f) (omega arith)
      ]
]

number_le :
    (o : Option ℤ)
    → ((n : ℕ) → o ≡ some (pos n) → n ≤ 9223372036854775807)
    → ptime_value o ≤ 9223372036854775807
number_le none h = omega arith
number_le (some (negsuc n)) h = omega arith
number_le (some (pos zero)) h = omega arith
number_le (some (pos (suc n))) h = h (suc n) refl

pub ptime_of-le : (as' : List Attribute) → ptime_of as' ≤ 9223372036854775807
unfolding ptime_of
ptime_of-le [] = omega arith
ptime_of-le (a ∷ as') = elim (Bool-cases (same_text a.key (codes "ptime"))) [
  | inl e ↦ rw e (number_le (atoi a.value) (atoi-le a.value))
  | inr e ↦ rw e (ptime_of-le as')
]
