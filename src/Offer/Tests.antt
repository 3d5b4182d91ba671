-- ===== src/Offer/Tests.antt =====
-- offer.rs: the offer of a concrete source.
use macvnc.Base.{◌≡◌, refl, [], ◌∷◌, arith, ok}
use mathlib.Core.List.{map}
use macvnc.Metadata.{fields}
use macvnc.Metadata.Fields.{field_of}
use macvnc.Offer.{varint, varint_rounds, video_description, media}
use macvnc.Offer.Encoding.{media_fields, video_fields}
use macvnc.Offer.Fields.{fields-media}

varint-bytes : varint 300 ≡ 172 ∷ 2 ∷ []
unfolding varint varint_rounds
varint-bytes = refl

fields-media_example :
    (fields (media 7 42 1700000000) ≡ ok (map field_of (media_fields 7 42 1700000000)))
    × (fields (video_description 42) ≡ ok (map field_of (video_fields 42)))
fields-media_example = fields-media 7 42 1700000000 (omega arith) (omega arith)
