-- ===== src/Offer.antt =====
-- rust/crates/hp-protocol/src/offer.rs: the encoding of the media offer. A string is the list of its bytes.
pub mod Encoding
pub mod Fields
mod Tests
use macvnc.Base.{
  ℕ, zero, suc, ◌+◌, ◌*◌, ◌/◌, ◌%◌, ◌^◌, List, [], ◌∷◌, ◌++◌, Option, none, some, ltb, ◌==◌,
  if◌then◌else◌, length, take, drop, replicate, be16, be32,
}

-- The loop of `varint`; a round takes seven bits, so that ten rounds are enough for 64 bits. The bits
-- `v as u8 | 128` are written as a sum.
unfoldable pub varint_rounds : ℕ → ℕ → List ℕ
varint_rounds zero value = []
varint_rounds (suc rounds) value =
    let others = varint_rounds rounds (value / 128) in
    if ltb 127 value then (value % 128 + 128) ∷ others else value ∷ []

unfoldable pub varint : ℕ → List ℕ
varint value = varint_rounds 10 value

-- `v`
unfoldable pub number_field : ℕ → ℕ → List ℕ
number_field n value = varint (n * 8) ++ varint value

-- `b`
unfoldable pub bytes_field : ℕ → List ℕ → List ℕ
bytes_field n value = varint (n * 8 + 2) ++ (varint (length value) ++ value)

abbrev pub features : List ℕ
features =
    70 ∷ 76 ∷ 83 ∷ 59 ∷ 76 ∷ 70 ∷ 58 ∷ 45 ∷ 49 ∷ 59 ∷ 80 ∷ 79 ∷ 83 ∷ 58 ∷ 53 ∷ 59 ∷ 69 ∷ 79 ∷ 68
    ∷ 58 ∷ 49 ∷ 59 ∷ 72 ∷ 84 ∷ 83 ∷ 58 ∷ 50 ∷ 59 ∷ 82 ∷ 82 ∷ 58 ∷ 51 ∷ 59 ∷ 80 ∷ 79 ∷ 83 ∷ 69 ∷ 58
    ∷ 52 ∷ 59 ∷ 65 ∷ 82 ∷ 58 ∷ 49 ∷ 54 ∷ 47 ∷ 57 ∷ 44 ∷ 53 ∷ 47 ∷ 56 ∷ 59 ∷ 88 ∷ 82 ∷ 58 ∷ 49 ∷ 54
    ∷ 47 ∷ 57 ∷ 44 ∷ 53 ∷ 47 ∷ 56 ∷ 59 ∷ []

-- `offer`: the formats that the client takes.
unfoldable pub bank : List ℕ
bank =
    number_field 1 100
    ++ (bytes_field 2
          (number_field 1 1 ++ (number_field 2 1 ++ (number_field 3 50115 ++ number_field 4 0)))
        ++ (bytes_field 2
              (number_field 1 1 ++ (number_field 2 2 ++ (number_field 3 50115 ++ number_field 4 0)))
            ++ (bytes_field 3 features ++ number_field 4 14)))

-- `offer`: the description of the stream; mode 7 is video, the other audio.
unfoldable pub video_description : ℕ → List ℕ
video_description ssrc =
    number_field 1 ssrc
    ++ (number_field 2 0
        ++ (bytes_field 3 bank
            ++ (number_field 6 1
                ++ (number_field 7 0
                    ++ (number_field 8 63 ++ (number_field 9 1 ++ number_field 12 1))))))

unfoldable pub audio_description : ℕ → List ℕ
audio_description ssrc =
    number_field 1 ssrc
    ++ (number_field 2 0
        ++ (number_field 3 0 ++ (number_field 4 1000 ++ (number_field 5 0 ++ number_field 6 0))))

unfoldable pub description : ℕ → ℕ → List ℕ
description mode ssrc =
    if mode == 7
    then bytes_field 5 (video_description ssrc)
    else bytes_field 3 (audio_description ssrc)

abbrev pub Tier : Type 0
Tier = ℕ × ℕ × Option ℕ

abbrev pub tiers : List Tier
tiers =
    (0, 40000000, some 12288)
    ∷ (0, 6000000, some 131072)
    ∷ (4074, 0, some 16384)
    ∷ (16, 4100, none)
    ∷ (0, 75000000, some 524288)
    ∷ (0, 20000000, some 98304)
    ∷ (4, 6500, none)
    ∷ (0, 60000000, some 262144)
    ∷ (1, 299, none)
    ∷ (0, 100000000, some 1048576)
    ∷ []

unfoldable pub tier_bytes : Tier → List ℕ
tier_bytes (a, c, none) = number_field 1 a ++ number_field 2 c
tier_bytes (a, c, some d) = (number_field 1 a ++ number_field 2 c) ++ number_field 3 d

-- The loop of `offer` over the tiers.
unfoldable pub put_tiers : List Tier → List ℕ
put_tiers [] = []
put_tiers (tier ∷ others) = bytes_field 9 (tier_bytes tier) ++ put_tiers others

abbrev pub product : List ℕ
product =
    105 ∷ 83 ∷ 104 ∷ 97 ∷ 114 ∷ 101 ∷ 83 ∷ 99 ∷ 114 ∷ 101 ∷ 101 ∷ 110 ∷ 32 ∷ 49 ∷ 46 ∷ 48 ∷ 46 ∷ 48
    ∷ []

-- `offer`: the message that is compressed, with the clock in nanoseconds.
unfoldable pub media : ℕ → ℕ → ℕ → List ℕ
media mode ssrc ns =
    number_field 1 1
    ++ (number_field 2 1
        ++ (description mode ssrc
            ++ (bytes_field 6 product
                ++ (number_field 8 0
                    ++ (put_tiers tiers
                        ++ (number_field 13 ns
                            ++ (number_field 14 2 ++ (number_field 16 0 ++ number_field 18 1))))))))

unfoldable pub endpoint : List ℕ
endpoint =
    number_field 1 0
    ++ (number_field 2 1
        ++ (bytes_field 3
              (77 ∷ 97 ∷ 99 ∷ 66 ∷ 111 ∷ 111 ∷ 107 ∷ 80 ∷ 114 ∷ 111 ∷ 49 ∷ 56 ∷ 44 ∷ 51 ∷ [])
            ++ (bytes_field 4 (49 ∷ 46 ∷ 48 ∷ 46 ∷ 48 ∷ [])
                ++ bytes_field 5 (50 ∷ 52 ∷ 65 ∷ 51 ∷ 51 ∷ 53 ∷ []))))
