-- ===== src/Srtp/Sender/RoundTrip.antt =====
-- srtp.rs: what the sender protects, a receiver with the same keys accepts.
use macvnc.Base.{
  ℕ, ◌+◌, ◌-◌, ◌/◌, ◌%◌, ◌^◌, ◌<◌, ◌≡◌, refl, ◌∙◌, List, ◌++◌, true, false, arith, some, ok, ◌==◌,
  length, take, drop, get_or, be32, u16, u32, u32_at, from_be32-be32, from_be16-be16, length-append,
  length-take, take_left, drop_left,
}
use macvnc.Base.Bits.{bit_or-shifted, test_bit}
use macvnc.Srtp.{
  Crypto, Keys, RtpPacket, ReceiveState, is_rtcp, is_media, ssrc_of, seq_of, index_of,
  payload_start, unpad, crypt, tag, opened, guess_roc, packet_of,
}
use macvnc.Srtp.Sender.{SrtpSender, rtp_header, is_payload, protected, protect}

-- What is relied on of the crates: the key stream is added without changing the length and removed by
-- adding it again, a tag has 20 bytes, and the comparison tests equality.
pub record CryptoLaws (c : Crypto) : Type 0 where
  pub length_keystream :
      (key iv bytes : List ℕ) → length (c.apply_keystream key iv bytes) ≡ length bytes
  pub keystream_again :
      (key iv bytes : List ℕ) → c.apply_keystream key iv (c.apply_keystream key iv bytes) ≡ bytes
  pub length_hmac : (key bytes : List ℕ) → length (c.hmac key bytes) ≡ 20
  pub ct_eq_same : (a : List ℕ) → c.ct_eq a a ≡ true
  pub ct_eq_sound : (a b : List ℕ) → c.ct_eq a b ≡ true → a ≡ b

-- A source whose highest index is less than 2^15 away from the index of a packet, on either side,
-- gives the packet the roll-over counter of its index, wherever the 16-bit sequence number wraps.
pub guess_roc-near :
    (s : ReceiveState) (index : ℕ)
    → index < s.highest + 32768
    → s.highest < index + 32768
    → guess_roc (some s) (u16 index) ≡ index / 2 ^ 16
unfolding guess_roc
guess_roc-near s index h k = ground arith

-- The values that a sender's fields and arguments can hold.
pub record IsSending (s : SrtpSender) (payload : List ℕ) (timestamp pt : ℕ) : Type 0 where
  pub ssrc_ok : s.ssrc < 2 ^ 32
  pub index_ok : s.index < 2 ^ 48
  pub timestamp_ok : timestamp < 2 ^ 32
  pub payload_ok : is_payload pt payload ≡ true

abbrev pub sent_packet : SrtpSender → List ℕ → ℕ → ℕ → RtpPacket
sent_packet s payload timestamp pt = record {
  ssrc = s.ssrc;
  seq = u16 s.index;
  timestamp = timestamp;
  marker = false;
  pt = pt;
  payload = payload;
}

module _ (c : Crypto) (laws : CryptoLaws c) where
  length-crypt :
      (k : Keys) (ssrc index : ℕ) (bytes : List ℕ)
      → length (crypt c k ssrc index bytes) ≡ length bytes
  unfolding crypt
  length-crypt k ssrc index bytes = laws.length_keystream _ _ bytes

  crypt-crypt :
      (k : Keys) (ssrc index : ℕ) (bytes : List ℕ)
      → crypt c k ssrc index (crypt c k ssrc index bytes) ≡ bytes
  unfolding crypt
  crypt-crypt k ssrc index bytes = laws.keystream_again _ _ bytes

  length-tag : (k : Keys) (bytes : List ℕ) (guess : ℕ) → length (tag c k bytes guess) ≡ 10
  unfolding tag
  length-tag k bytes guess = omega (
    arith,
    length-take 10 (c.hmac k.auth (bytes ++ be32 (u32 guess))),
    laws.length_hmac k.auth (bytes ++ be32 (u32 guess)),
  )

  module _ (s : SrtpSender) (payload : List ℕ) (timestamp pt : ℕ)
      (v : IsSending s payload timestamp pt) where
    abbrev pub out : List ℕ
    out = protected c s payload timestamp pt

    abbrev pub roc : ℕ
    roc = s.index / 2 ^ 16

    abbrev pub wire : List ℕ
    wire = out ++ tag c s.keys out roc

    pub protect-ok : protect c s payload timestamp pt ≡ (ok wire, record s { index = s.index + 1 })
    unfolding protect
    protect-ok = ground (arith, v.index_ok, v.payload_ok)

    length-out : length out ≡ 12 + length payload
    unfolding protected rtp_header
    length-out = omega (arith, length-crypt s.keys s.ssrc s.index payload)

    length-wire : length wire ≡ 22 + length payload
    length-wire =
        omega
          (arith, length-out, length-append out (tag c s.keys out roc), length-tag s.keys out roc)

    pub wire-fields :
        (get_or wire 0 0 ≡ 0x80)
        × (get_or wire 1 0 ≡ pt)
        × (seq_of wire ≡ u16 s.index)
        × (u32_at wire 4 ≡ timestamp)
        × (ssrc_of wire ≡ s.ssrc)
    unfolding protected rtp_header
    wire-fields = (
      refl,
      refl,
      from_be16-be16 (u16 s.index) (omega arith),
      from_be32-be32 timestamp v.timestamp_ok,
      from_be32-be32 s.ssrc v.ssrc_ok,
    )

    pub wire-is_media : is_media wire ≡ true
    unfolding is_media is_rtcp is_payload
    wire-is_media = ground (arith, length-wire, wire-fields, v.payload_ok)

    pub wire-index : index_of roc wire ≡ s.index
    wire-index =
        rw (wire-fields.2) (bit_or-shifted 16 roc (u16 s.index) (omega arith) ∙ omega arith)

    wire-signed :
        (take (length wire - 10) wire ≡ out) × (drop (length wire - 10) wire ≡ tag c s.keys out roc)
    wire-signed =
        let at : length wire - 10 ≡ length out = omega (arith, length-wire, length-out) in
        (take_left _ out (tag c s.keys out roc) at, drop_left _ out (tag c s.keys out roc) at)

    out-behind_header : drop 12 out ≡ crypt c s.keys s.ssrc s.index payload
    unfolding protected rtp_header
    out-behind_header = refl

    wire-payload_start : payload_start wire (length wire - 10) ≡ some 12
    unfolding payload_start
    wire-payload_start =
        let flag : test_bit 4 (get_or wire 0 0) ≡ 0 = rw (wire-fields.0) refl in
        ground (arith, wire-fields.0, flag, length-wire)

    wire-unpad : unpad (get_or wire 0 0) payload ≡ some payload
    unfolding unpad
    wire-unpad = rw (wire-fields.0) refl

    pub opened-wire : opened c s.keys wire roc ≡ some payload
    unfolding opened
    opened-wire =
        let same = laws.ct_eq_same (tag c s.keys out roc) in
        let (_, _, _, _, source) = wire-fields in
        rw
          (
            wire-signed.0,
            wire-signed.1,
            same,
            wire-payload_start,
            source,
            wire-index,
            wire-signed.0,
            out-behind_header,
            crypt-crypt s.keys s.ssrc s.index payload,
          )
          wire-unpad

    pub packet-wire : packet_of wire payload ≡ sent_packet s payload timestamp pt
    unfolding packet_of is_payload
    packet-wire =
        let (_, kind, seq, time, source) = wire-fields in
        let small : pt < 128 = ground (arith, v.payload_ok) in
        let plain : test_bit 7 pt ≡ 0 = omega arith in
        let mark_ok : (test_bit 7 (get_or wire 1 0) == 1) ≡ false = rw (kind, plain) refl in
        let pt_ok : get_or wire 1 0 % 128 ≡ pt = omega (arith, kind, small) in
        λ i. record {
          ssrc = source i;
          seq = seq i;
          timestamp = time i;
          marker = mark_ok i;
          pt = pt_ok i;
          payload = payload;
        }
