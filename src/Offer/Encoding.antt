-- ===== src/Offer/Encoding.antt =====
-- offer.rs: the encoder of the offer against the encoder of fields.
use macvnc.Base.{
  ℕ, zero, suc, ◌+◌, ◌*◌, ◌/◌, ◌^◌, ◌<◌, ◌≡◌, refl, sym, ap, ap₂, ◌∙◌, List, [], ◌∷◌, ◌++◌,
  append-nil, append_assoc, arith, ok, ◌==◌, if◌then◌else◌, Bool-cases, inl, inr, length,
}
use mathlib.Core.List.{map}
use macvnc.Metadata.{fields}
use macvnc.Metadata as Metadata
use macvnc.Metadata.Varint.{put_groups, put_varint, varint-put_varint}
use macvnc.Metadata.Fields.{WireField, number, delimited, put_field, put_fields}
use macvnc.Offer.{
  varint_rounds, varint, number_field, bytes_field, bank, video_description, audio_description,
  description, Tier, tiers, tier_bytes, put_tiers, product, media,
}

varint_rounds_lem : (rounds value : ℕ) → varint_rounds rounds value ≡ put_groups rounds value
unfolding varint_rounds put_groups
varint_rounds_lem zero value = refl
varint_rounds_lem (suc rounds) value = ground (arith, varint_rounds_lem rounds (value / 128))

pub varint_lem : (value : ℕ) → varint value ≡ put_varint value
unfolding varint put_varint
varint_lem value = varint_rounds_lem 10 value

-- Every 64-bit number that the offer's encoder writes is read back by the parser of the answers, with
-- whatever stands behind it left.
pub varint-varint :
    (value : ℕ) (rest : List ℕ)
    → value < 2 ^ 64
    → Metadata.varint (varint value ++ rest) ≡ ok (value, rest)
varint-varint value rest h = rw (varint_lem value) (varint-put_varint value rest h)

number_field_lem : (n value : ℕ) → number_field n value ≡ put_field (number n value)
unfolding number_field put_field
number_field_lem n value = ap₂ (λ x y. x ++ y) (varint_lem (n * 8)) (varint_lem value)

bytes_field_lem : (n : ℕ) (value : List ℕ) → bytes_field n value ≡ put_field (delimited n value)
unfolding bytes_field put_field
bytes_field_lem n value =
    ap₂ (λ x y. x ++ y) (varint_lem (n * 8 + 2)) (ap (λ x. x ++ value) (varint_lem (length value)))

-- The fields of the offer, as a list.
abbrev pub description_field : ℕ → ℕ → WireField
description_field mode ssrc =
    if mode == 7 then delimited 5 (video_description ssrc) else delimited 3 (audio_description ssrc)

abbrev pub tier_field : Tier → WireField
tier_field tier = delimited 9 (tier_bytes tier)

abbrev pub last_fields : ℕ → List WireField
last_fields ns = number 13 ns ∷ number 14 2 ∷ number 16 0 ∷ number 18 1 ∷ []

abbrev pub media_fields : ℕ → ℕ → ℕ → List WireField
media_fields mode ssrc ns =
    number 1 1
    ∷ number 2 1
    ∷ description_field mode ssrc
    ∷ delimited 6 product
    ∷ number 8 0
    ∷ (map tier_field tiers ++ last_fields ns)

-- Bytes in front of others.
put_before :
    (w : WireField) (ws : List WireField) (x y : List ℕ)
    → x ≡ put_field w
    → y ≡ put_fields ws
    → x ++ y ≡ put_fields (w ∷ ws)
unfolding put_fields
put_before w ws x y e f = ap₂ (λ x y. x ++ y) e f

put_last : (w : WireField) (x : List ℕ) → x ≡ put_field w → x ≡ put_fields (w ∷ [])
unfolding put_fields
put_last w x e = e ∙ sym (append-nil (put_field w))

put_tiers_lem :
    (ts : List Tier) (ws : List WireField) (y : List ℕ)
    → y ≡ put_fields ws
    → put_tiers ts ++ y ≡ put_fields (map tier_field ts ++ ws)
unfolding put_tiers
put_tiers_lem [] ws y e = e
put_tiers_lem (tier ∷ ts) ws y e =
    append_assoc (bytes_field 9 (tier_bytes tier)) (put_tiers ts) y
    ∙ put_before (tier_field tier) (map tier_field ts ++ ws) (bytes_field 9 (tier_bytes tier))
        (put_tiers ts ++ y) (bytes_field_lem 9 (tier_bytes tier)) (put_tiers_lem ts ws y e)

description_lem : (mode ssrc : ℕ) → description mode ssrc ≡ put_field (description_field mode ssrc)
unfolding description
description_lem mode ssrc = elim (Bool-cases (mode == 7)) [
  | inl e ↦ rw e (bytes_field_lem 5 (video_description ssrc))
  | inr e ↦ rw e (bytes_field_lem 3 (audio_description ssrc))
]

pub media_lem : (mode ssrc ns : ℕ) → media mode ssrc ns ≡ put_fields (media_fields mode ssrc ns)
unfolding media
media_lem mode ssrc ns = put_before _ _ _ _ (number_field_lem 1 1) (
    put_before _ _ _ _ (number_field_lem 2 1) (
      put_before _ _ _ _ (description_lem mode ssrc) (
        put_before _ _ _ _ (bytes_field_lem 6 product) (
          put_before _ _ _ _ (number_field_lem 8 0) (
            put_tiers_lem tiers (last_fields ns) _ (
              put_before _ _ _ _ (number_field_lem 13 ns) (
                put_before _ _ _ _ (number_field_lem 14 2) (
                  put_before _ _ _ _ (number_field_lem 16 0)
                    (put_last (number 18 1) _ (number_field_lem 18 1))))))))))

-- The fields of the description of the video stream.
abbrev pub video_fields : ℕ → List WireField
video_fields ssrc =
    number 1 ssrc
    ∷ number 2 0
    ∷ delimited 3 bank
    ∷ number 6 1
    ∷ number 7 0
    ∷ number 8 63
    ∷ number 9 1
    ∷ number 12 1
    ∷ []

pub video_description_lem : (ssrc : ℕ) → video_description ssrc ≡ put_fields (video_fields ssrc)
unfolding video_description
video_description_lem ssrc = put_before _ _ _ _ (number_field_lem 1 ssrc) (
    put_before _ _ _ _ (number_field_lem 2 0) (
      put_before _ _ _ _ (bytes_field_lem 3 bank) (
        put_before _ _ _ _ (number_field_lem 6 1) (
          put_before _ _ _ _ (number_field_lem 7 0) (
            put_before _ _ _ _ (number_field_lem 8 63) (
              put_before _ _ _ _ (number_field_lem 9 1)
                (put_last (number 12 1) _ (number_field_lem 12 1))))))))

abbrev pub audio_fields : ℕ → List WireField
audio_fields ssrc =
    number 1 ssrc ∷ number 2 0 ∷ number 3 0 ∷ number 4 1000 ∷ number 5 0 ∷ number 6 0 ∷ []

pub audio_description_lem : (ssrc : ℕ) → audio_description ssrc ≡ put_fields (audio_fields ssrc)
unfolding audio_description
audio_description_lem ssrc = put_before _ _ _ _ (number_field_lem 1 ssrc) (
    put_before _ _ _ _ (number_field_lem 2 0) (
      put_before _ _ _ _ (number_field_lem 3 0) (
        put_before _ _ _ _ (number_field_lem 4 1000) (
          put_before _ _ _ _ (number_field_lem 5 0)
            (put_last (number 6 0) _ (number_field_lem 6 0))))))
