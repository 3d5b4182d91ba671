-- ===== src/Offer/Fields.antt =====
-- offer.rs: what the client offers, as the parser of metadata.rs reads it.
use macvnc.Base.{
  ℕ, ◌+◌, ◌*◌, ◌^◌, ◌<◌, ◌≤◌, ◌≡◌, List, [], ◌∷◌, ◌++◌, arith, none, some, ok, ◌==◌, Bool-cases,
  inl, inr, length, All, length-append,
}
use mathlib.Core.List.{map}
use macvnc.Metadata.{fields}
use macvnc.Metadata.Varint.{put_varint, length-put_varint}
use macvnc.Metadata.Fields.{
  WireField, number, delimited, fixed32, fixed64, put_field, put_fields, field_of, IsWireField,
  fields-put_fields,
}
use macvnc.Offer.{
  varint_rounds, varint, number_field, bytes_field, bank, video_description, audio_description,
  Tier, tiers, tier_bytes, media,
}
use macvnc.Offer.Encoding.{
  varint_lem, description_field, tier_field, last_fields, media_fields, media_lem, video_fields,
  video_description_lem, audio_fields, audio_description_lem,
}

length-number_field : (n value : ℕ) → length (number_field n value) ≤ 20
unfolding number_field
length-number_field n value =
    rw (varint_lem (n * 8), varint_lem value)
      (omega (
        arith,
        length-append (put_varint (n * 8)) (put_varint value),
        length-put_varint (n * 8),
        length-put_varint value,
      ))

-- The bytes that a field takes at most.
abbrev room : WireField → ℕ
room (number n v) = 20
room (fixed64 n bytes) = 10 + length bytes
room (delimited n bytes) = 20 + length bytes
room (fixed32 n bytes) = 10 + length bytes

length-put_field-le : (w : WireField) → length (put_field w) ≤ room w
unfolding put_field
length-put_field-le (number n v) = omega (
  arith,
  length-append (put_varint (n * 8)) (put_varint v),
  length-put_varint (n * 8),
  length-put_varint v,
)
length-put_field-le (fixed64 n bytes) =
    omega (arith, length-append (put_varint (n * 8 + 1)) bytes, length-put_varint (n * 8 + 1))
length-put_field-le (delimited n bytes) = omega (
  arith,
  length-append (put_varint (n * 8 + 2)) (put_varint (length bytes) ++ bytes),
  length-append (put_varint (length bytes)) bytes,
  length-put_varint (n * 8 + 2),
  length-put_varint (length bytes),
)
length-put_field-le (fixed32 n bytes) =
    omega (arith, length-append (put_varint (n * 8 + 5)) bytes, length-put_varint (n * 8 + 5))

abbrev total_room : List WireField → ℕ
total_room [] = 0
total_room (w ∷ ws) = room w + total_room ws

length-put_fields-le : (ws : List WireField) → length (put_fields ws) ≤ total_room ws
unfolding put_fields
length-put_fields-le [] = omega arith
length-put_fields-le (w ∷ ws) = omega (
  arith,
  length-append (put_field w) (put_fields ws),
  length-put_field-le w,
  length-put_fields-le ws,
)

length-bank : length bank ≤ 200
unfolding bank bytes_field number_field varint varint_rounds
length-bank = omega arith

length-video_description : (ssrc : ℕ) → length (video_description ssrc) ≤ 400
length-video_description ssrc =
    rw (video_description_lem ssrc)
      (omega (arith, length-put_fields-le (video_fields ssrc), length-bank))

length-audio_description : (ssrc : ℕ) → length (audio_description ssrc) ≤ 120
length-audio_description ssrc =
    rw (audio_description_lem ssrc) (length-put_fields-le (audio_fields ssrc))

description_field-room : (mode ssrc : ℕ) → room (description_field mode ssrc) ≤ 420
description_field-room mode ssrc = elim (Bool-cases (mode == 7)) [
  | inl e ↦ rw e (omega (arith, length-video_description ssrc))
  | inr e ↦ rw e (omega (arith, length-audio_description ssrc))
]

description_field-IsWireField : (mode ssrc : ℕ) → IsWireField (description_field mode ssrc)
description_field-IsWireField mode ssrc = elim (Bool-cases (mode == 7)) [
  | inl e ↦ rw e ((omega arith, omega arith), omega (arith, length-video_description ssrc))
  | inr e ↦ rw e ((omega arith, omega arith), omega (arith, length-audio_description ssrc))
]

small_tier : (tier : Tier) → length (tier_bytes tier) ≤ 60
unfolding tier_bytes
small_tier (a, c, none) = omega (
  arith,
  length-append (number_field 1 a) (number_field 2 c),
  length-number_field 1 a,
  length-number_field 2 c,
)
small_tier (a, c, some d) = omega (
  arith,
  length-append (number_field 1 a ++ number_field 2 c) (number_field 3 d),
  length-append (number_field 1 a) (number_field 2 c),
  length-number_field 1 a,
  length-number_field 2 c,
  length-number_field 3 d,
)

tier_fields-IsWireField :
    (ts : List Tier) (ws : List WireField)
    → All IsWireField ws
    → All IsWireField (map tier_field ts ++ ws)
tier_fields-IsWireField [] ws v = v
tier_fields-IsWireField (tier ∷ ts) ws v =
    (((omega arith, omega arith), omega (arith, small_tier tier)), tier_fields-IsWireField ts ws v)

tier_fields-room :
    (ts : List Tier) (ws : List WireField)
    → total_room (map tier_field ts ++ ws) ≤ 80 * length ts + total_room ws
tier_fields-room [] ws = omega arith
tier_fields-room (tier ∷ ts) ws = omega (arith, small_tier tier, tier_fields-room ts ws)

-- The offer is well formed: the parser of the answers finds in the message of either mode the fields of
-- the offer, in order, and in the description of the video stream the source and the format.
pub fields-media :
    (mode ssrc ns : ℕ)
    → ssrc < 2 ^ 64
    → ns < 2 ^ 64
    → (fields (media mode ssrc ns) ≡ ok (map field_of (media_fields mode ssrc ns)))
      × (fields (video_description ssrc) ≡ ok (map field_of (video_fields ssrc)))
fields-media mode ssrc ns h k =
    let size = length-put_fields-le (media_fields mode ssrc ns) in
    let others = tier_fields-room tiers (last_fields ns) in
    let description = description_field-room mode ssrc in
    (
      rw (media_lem mode ssrc ns) (
          fields-put_fields (media_fields mode ssrc ns)
            (
              ((omega arith, omega arith), omega arith),
              (
                ((omega arith, omega arith), omega arith),
                (
                  description_field-IsWireField mode ssrc,
                  (
                    ((omega arith, omega arith), omega arith),
                    (
                      ((omega arith, omega arith), omega arith),
                      tier_fields-IsWireField tiers (last_fields ns) (
                        ((omega arith, omega arith), omega arith),
                        (
                          ((omega arith, omega arith), omega arith),
                          (
                            ((omega arith, omega arith), omega arith),
                            (((omega arith, omega arith), omega arith), tt),
                          ),
                        ),
                      ),
                    ),
                  ),
                ),
              ),
            )
            (omega arith) (omega (arith, size, others, description))),
      rw (video_description_lem ssrc) (
          fields-put_fields (video_fields ssrc)
            (
              ((omega arith, omega arith), omega arith),
              (
                ((omega arith, omega arith), omega arith),
                (
                  ((omega arith, omega arith), omega (arith, length-bank)),
                  (
                    ((omega arith, omega arith), omega arith),
                    (
                      ((omega arith, omega arith), omega arith),
                      (
                        ((omega arith, omega arith), omega arith),
                        (
                          ((omega arith, omega arith), omega arith),
                          (((omega arith, omega arith), omega arith), tt),
                        ),
                      ),
                    ),
                  ),
                ),
              ),
            )
            (omega arith) (omega (arith, length-put_fields-le (video_fields ssrc), length-bank))),
    )
