-- ===== src/Srtp/Sender/Transmit.antt =====
-- srtp.rs: a stream of packets from a sender to a receiver, with losses.
use macvnc.Base.{
  ℕ, ◌+◌, ◌^◌, ◌<◌, ◌≤◌, ◌≡◌, refl, ap, subst, List, [], ◌∷◌, inl, inr, Bool, true, false, arith,
  none, some, ok, err, if◌then◌else◌, Bool-cases, length, All,
}
use macvnc.Srtp.{Crypto, RtpPacket, SrtpReceiver, unprotect}
use macvnc.Srtp.Sender.{SrtpSender, is_payload, protect}
use macvnc.Srtp.Sender.RoundTrip.{CryptoLaws, IsSending, sent_packet, protect-ok}
use macvnc.Srtp.Sender.Stream.{IsBehind, IsBehind-lost, next, unprotect-wire}

-- A payload for the sender, and whether the network delivers the packet.
pub record Frame : Type 0 where
  pub payload : List ℕ
  pub timestamp : ℕ
  pub pt : ℕ
  pub arrives : Bool

abbrev pub IsFrame : Frame → Type 0
IsFrame f = (f.timestamp < 2 ^ 32) × (is_payload f.pt f.payload ≡ true)

-- Fewer than 2^15 packets stand between two that arrive; `gap` is what the receiver is behind.
unfoldable pub IsClose : ℕ → List Frame → Type 0
IsClose gap [] = Unit
IsClose gap (f ∷ frames) = (gap < 32768) × IsClose (if f.arrives then 1 else gap + 1) frames

-- The packets of the frames that arrive.
pub arriving : SrtpSender → List Frame → List RtpPacket
arriving s [] = []
arriving s (f ∷ frames) =
    let later = arriving (next s) frames in
    if f.arrives then sent_packet s f.payload f.timestamp f.pt ∷ later else later

module _ (c : Crypto) where
  -- The sender protects the frames one after the other, and the receiver gets those that arrive. The
  -- result is what the receiver accepts.
  pub transmit : SrtpSender → SrtpReceiver → List Frame → List RtpPacket
  transmit s r [] = []
  transmit s r (f ∷ frames) =
      let (sent, s') = protect c s f.payload f.timestamp f.pt in
      elim sent [
        | err e ↦ transmit s' r frames
        | ok datagram ↦
            let (got, r') = unprotect c r datagram in
            elim f.arrives [
              | false ↦ transmit s' r frames
              | true ↦ elim got [
                | none ↦ transmit s' r' frames
                | some packet ↦ packet ∷ transmit s' r' frames
              ]
            ]
      ]

  transmit-lost :
      (s : SrtpSender) (r : SrtpReceiver) (f : Frame) (frames : List Frame) (datagram : List ℕ)
      → f.arrives ≡ false
      → protect c s f.payload f.timestamp f.pt ≡ (ok datagram, next s)
      → transmit s r (f ∷ frames) ≡ transmit (next s) r frames
  unfolding transmit
  transmit-lost s r f frames datagram lost e = ground (arith, e, lost)

  transmit-accepted :
      (s : SrtpSender) (r r' : SrtpReceiver) (f : Frame) (frames : List Frame) (datagram : List ℕ)
      (packet : RtpPacket)
      → f.arrives ≡ true
      → protect c s f.payload f.timestamp f.pt ≡ (ok datagram, next s)
      → unprotect c r datagram ≡ (some packet, r')
      → transmit s r (f ∷ frames) ≡ packet ∷ transmit (next s) r' frames
  unfolding transmit
  transmit-accepted s r r' f frames datagram packet arrived e g = ground (arith, e, g, arrived)

-- A receiver with the sender's keys accepts every packet that arrives, with its payload, in order, and
-- nothing else, across every wrap of the 16-bit sequence number. Before each frame a number `gap` says
-- how far the receiver may be behind: the highest index that it has of the source is below the next one
-- to be sent by at most `gap`, or it knows nothing of the source, has room for it, and the next index is
-- below `gap`. It starts as given, is 1 after a packet that arrives, and one more after a lost one. At
-- every frame it is below 2^15, so that at most 32766 packets are lost between two that arrive. The
-- source and the timestamps have 32 bits, the payloads are acceptable, and the sending key is not
-- exhausted.
pub transmit-arriving :
    (c : Crypto) (laws : CryptoLaws c) (frames : List Frame) (s : SrtpSender) (r : SrtpReceiver)
    (gap : ℕ)
    → s.ssrc < 2 ^ 32
    → s.index + length frames ≤ 2 ^ 48
    → All IsFrame frames
    → IsBehind s gap r
    → IsClose gap frames
    → transmit c s r frames ≡ arriving s frames
unfolding transmit arriving IsClose
transmit-arriving c laws [] s r gap h k v p q = refl
transmit-arriving c laws (f ∷ frames) s r gap h k (ok_f, v) p q =
    let sending : IsSending s f.payload f.timestamp f.pt = record {
      ssrc_ok = h;
      index_ok = omega (arith, k);
      timestamp_ok = ok_f.0;
      payload_ok = ok_f.1;
    } in
    let sent = protect-ok c laws s f.payload f.timestamp f.pt sending in
    let room : s.index + 1 + length frames ≤ 2 ^ 48 = omega (arith, k) in
    elim (Bool-cases f.arrives) [
      | inr lost ↦
          let close : IsClose (gap + 1) frames =
            subst (λ b. IsClose (if b then 1 else gap + 1) frames) lost q.1 in
          rw (transmit-lost c s r f frames _ lost sent, lost)
            (transmit-arriving c laws frames (next s) r (gap + 1) h room v (IsBehind-lost s gap r p)
              close)
      | inl arrived ↦
          let close : IsClose 1 frames =
            subst (λ b. IsClose (if b then 1 else gap + 1) frames) arrived q.1 in
          let (r', got, p') =
            unprotect-wire c laws s f.payload f.timestamp f.pt sending gap r p q.0 in
          rw (transmit-accepted c s r r' f frames _ _ arrived sent got, arrived)
            (ap (λ l. sent_packet s f.payload f.timestamp f.pt ∷ l)
              (transmit-arriving c laws frames (next s) r' 1 h room v p' close))
    ]
