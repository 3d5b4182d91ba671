-- ===== src/Srtp/Sender.antt =====
-- srtp.rs: the senders of media packets and of RTCP packets.
pub mod RoundTrip
pub mod Stream
pub mod Transmit
use macvnc.Base.{
  ℕ, zero, suc, ◌+◌, ◌-◌, ◌*◌, ◌/◌, ◌%◌, ◌^◌, Bool, true, false, not, ◌&&◌, ◌||◌, List, [], ◌∷◌,
  ◌++◌, Option, none, some, Result, ok, err, ltb, leb, ◌==◌, if◌then◌else◌, length, take, drop,
  be16, be32, u16, u32, u32_at,
}
use Prim.Native.Nat.{bit_or}
use macvnc.Srtp.{Crypto, Keys, derive, crypt, tag}

pub record SrtpSender : Type 0 where
  pub keys : Keys
  pub ssrc : ℕ
  pub index : ℕ
  pub heartbeat_timestamp : ℕ

-- The fixed header, with the low 16 bits of the index as the sequence number.
unfoldable pub rtp_header : SrtpSender → ℕ → ℕ → List ℕ
rtp_header s timestamp pt = 0x80 ∷ pt ∷ be16 (u16 s.index) ++ (be32 timestamp ++ be32 s.ssrc)

unfoldable pub is_payload : ℕ → List ℕ → Bool
is_payload pt payload =
    not (ltb 127 pt || (leb 64 pt && leb pt 95) || ltb (65507 - 22) (length payload))

pub record SrtcpSender : Type 0 where
  pub keys : Keys
  pub index : ℕ

module _ (c : Crypto) where
  pub new : List ℕ → ℕ → Result SrtpSender
  new blob ssrc = elim (derive c blob 0) [
    | ok keys ↦ ok (record { keys = keys; ssrc = ssrc; index = 0; heartbeat_timestamp = 0 })
    | err e ↦ err e
  ]

  -- The header and the encrypted payload.
  unfoldable pub protected : SrtpSender → List ℕ → ℕ → ℕ → List ℕ
  protected s payload timestamp pt =
      rtp_header s timestamp pt ++ crypt c s.keys s.ssrc s.index payload

  unfoldable pub protect : SrtpSender → List ℕ → ℕ → ℕ → Result (List ℕ) × SrtpSender
  protect s payload timestamp pt =
      if not (ltb s.index (2 ^ 48))
      then (err "SRTP sending key exhausted", s)
      else if not (is_payload pt payload)
      then (err "Invalid RTP payload", s)
      else let out = protected s payload timestamp pt in
        (ok (out ++ tag c s.keys out (s.index / 2 ^ 16)), record s { index = s.index + 1 })

  pub audio_heartbeat : SrtpSender → Result (List ℕ) × SrtpSender
  audio_heartbeat s =
      let (result, s') = protect s (0 ∷ 0x68 ∷ 0x34 ∷ 0 ∷ []) s.heartbeat_timestamp 101 in
      elim result [
        | err e ↦ (err e, s')
        | ok packet ↦
            (ok packet, record s' { heartbeat_timestamp = u32 (s'.heartbeat_timestamp + 480) })
      ]

  pub new_rtcp : List ℕ → Result SrtcpSender
  new_rtcp blob = elim (derive c blob 3) [
    | ok keys ↦ ok (record { keys = keys; index = 0 })
    | err e ↦ err e
  ]

  pub protect_rtcp : SrtcpSender → List ℕ → Result (List ℕ) × SrtcpSender
  protect_rtcp s p =
      if ltb (length p) 8 || ltb (65535 - 14) (length p) || leb 0x7fffffff s.index
      then (err "Invalid RTCP packet or exhausted key", s)
      else let out =
          (take 8 p ++ crypt c s.keys (u32_at p 4) s.index (drop 8 p))
          ++ be32 (bit_or 0x80000000 s.index) in
        (ok (out ++ take 10 (c.hmac s.keys.auth out)), record s { index = s.index + 1 })
