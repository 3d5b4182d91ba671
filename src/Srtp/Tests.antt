-- ===== src/Srtp/Tests.antt =====
-- srtp.rs: runs under a small cipher, and the theorems at concrete inputs.
use macvnc.Base.{
  ◌%◌, ◌*◌, ◌/◌, ◌+◌, ◌^◌, ℕ, ◌+◌, ◌%◌, ◌≤◌, ◌≡◌, refl, List, [], ◌∷◌, ◌&&◌, Bool, true, false,
  arith, length, replicate, none, some, ok, ◌==◌, take, drop, length-replicate,
}
use macvnc.Base.Bits.{bit_xor-cancel}
use Prim.Native.Nat.{bit_xor}
use macvnc.Srtp.{
  Crypto, Keys, RtpPacket, ReceiveState, SrtpReceiver, get, replayed, mark, move, guess_roc,
  ssrc_of, unprotect, tag, crypt, is_media, is_rtcp, accept, opened, payload_start, unpad, track,
  packet_of,
}
use macvnc.Srtp.Window.{member, Tracks, refused, replayed-refused, mark-Tracks, first-Tracks}
use macvnc.Srtp.Replay.{of_source, Shows, Shows-nil}
use macvnc.Srtp.Once.{IsDistinct, run, unprotect_once, guess_of, received_index, unprotect_accepted}
use macvnc.Srtp.Sender.{SrtpSender, rtp_header, is_payload, protected, protect}
use macvnc.Srtp.Rtcp.{build_rr, build_empty_sr, build_fir_legacy, build_fir, build_pli}
use macvnc.Srtp.Rtcp.RoundTrip.{
  receiver_report, sender_report, legacy_intra_request, full_intra_request, picture_loss, read_rtcp,
  read_rtcp_back,
}
use macvnc.Srtp.Sender.RoundTrip.{CryptoLaws}
use macvnc.Srtp.Sender.Stream.{fresh-IsBehind}
use macvnc.Srtp.Sender.Transmit.{Frame, IsClose, transmit, arriving, transmit-arriving}

-- A stand-in for the packages: the key stream is one byte again and again, and the tag depends on the
-- sum of the message.
sum : List ℕ → ℕ
sum [] = 0
sum (x ∷ xs) = x + sum xs

masked : List ℕ → List ℕ
masked [] = []
masked (x ∷ xs) = bit_xor x 0x5a ∷ masked xs

same : List ℕ → List ℕ → Bool
same [] [] = true
same [] (y ∷ ys) = false
same (x ∷ xs) [] = false
same (x ∷ xs) (y ∷ ys) = x == y && same xs ys

abbrev toy : Crypto
toy = record {
  apply_keystream = λ key iv bytes. masked bytes;
  hmac = λ key bytes. replicate 20 (sum bytes % 256);
  ct_eq = same;
}

length-masked : (xs : List ℕ) → length (masked xs) ≡ length xs
unfolding masked
length-masked [] = refl
length-masked (x ∷ xs) = omega (arith, length-masked xs)

masked_again : (xs : List ℕ) → masked (masked xs) ≡ xs
unfolding masked
masked_again [] = refl
masked_again (x ∷ xs) = rw (bit_xor-cancel x 0x5a, masked_again xs) refl

same_self : (xs : List ℕ) → same xs xs ≡ true
unfolding same
same_self [] = refl
same_self (x ∷ xs) = ground (arith, same_self xs)

same-eq : (xs ys : List ℕ) → same xs ys ≡ true → xs ≡ ys
unfolding same
same-eq [] [] e = refl
same-eq [] (y ∷ ys) e = cc
same-eq (x ∷ xs) [] e = cc
same-eq (x ∷ xs) (y ∷ ys) e = ground (arith, same-eq xs ys)

toy_laws : CryptoLaws toy
toy_laws = record {
  length_keystream = λ key iv bytes. length-masked bytes;
  keystream_again = λ key iv bytes. masked_again bytes;
  length_hmac = λ key bytes. length-replicate 20 (sum bytes % 256);
  ct_eq_same = same_self;
  ct_eq_sound = same-eq;
}

abbrev toy_keys : Keys
toy_keys = record { cipher = replicate 32 1; auth = replicate 20 2; salt = replicate 14 3 }

abbrev receiver : SrtpReceiver
receiver = record { keys = toy_keys; states = [] }

abbrev sender : SrtpSender
sender = record { keys = toy_keys; ssrc = 7; index = 0; heartbeat_timestamp = 0 }

abbrev state : ReceiveState
state = mark (record { highest = 70000; seen = 0 }) 70000

replayed-refused_example : replayed (some state) 70000 ≡ refused state (70000 ∷ []) 70000
replayed-refused_example = replayed-refused state (70000 ∷ []) 70000 (first-Tracks 70000)

mark-Tracks_example : Tracks (mark state 70003) (70003 ∷ 70000 ∷ [])
mark-Tracks_example = mark-Tracks state (70000 ∷ []) 70003 (first-Tracks 70000)

-- The packet with the index 0 and the payload 1, 2 as it is sent.
abbrev wire : List ℕ
wire = 0x80 ∷ 101 ∷ 0 ∷ 0 ∷ 0 ∷ 0 ∷ 0 ∷ 9 ∷ 0 ∷ 0 ∷ 0 ∷ 7 ∷ 0x5b ∷ 0x58 ∷ replicate 10 0xa8

protect-wire : protect toy sender (1 ∷ 2 ∷ []) 9 101 ≡ (ok wire, record sender { index = 1 })
unfolding protect is_payload protected rtp_header crypt tag masked sum
protect-wire = refl

abbrev packet : RtpPacket
packet = record { ssrc = 7; seq = 0; timestamp = 9; marker = false; pt = 101; payload = 1 ∷ 2 ∷ [] }

abbrev receiver_after : SrtpReceiver
receiver_after = record { keys = toy_keys; states = (7, record { highest = 0; seen = 1 }) ∷ [] }

unprotect-wire : unprotect toy receiver wire ≡ (some packet, receiver_after)
unfolding unprotect is_media is_rtcp get guess_roc accept replayed opened tag sum same payload_start
    unpad crypt masked track mark move packet_of
unprotect-wire = refl

-- The same packet again.
unprotect-wire_again : unprotect toy receiver_after wire ≡ (none, receiver_after)
unfolding unprotect is_media is_rtcp get guess_roc accept replayed
unprotect-wire_again = refl

unprotect_accepted_example :
    (same (tag toy toy_keys (take 14 wire) (guess_of receiver wire)) (drop 14 wire) ≡ true)
    × (member (received_index receiver wire) (of_source (ssrc_of wire) []) ≡ false)
    × (receiver_after.keys ≡ receiver.keys)
    × Shows receiver_after.states ((ssrc_of wire, received_index receiver wire) ∷ [])
unprotect_accepted_example =
    unprotect_accepted toy receiver receiver_after wire [] packet Shows-nil unprotect-wire

unprotect_once_example :
    let (r', h') = run toy (record { keys = toy_keys; states = [] }) [] (wire ∷ wire ∷ []) in
    IsDistinct h' × Shows r'.states h' × (length r'.states ≤ 32)
unprotect_once_example = unprotect_once toy toy_keys (wire ∷ wire ∷ [])

-- The second packet of three is lost.
abbrev frames : List Frame
frames =
    record { payload = 1 ∷ 2 ∷ []; timestamp = 9; pt = 101; arrives = true }
    ∷ record { payload = 3 ∷ []; timestamp = 10; pt = 101; arrives = false }
    ∷ record { payload = []; timestamp = 11; pt = 96; arrives = true }
    ∷ []

transmit-arriving_example : transmit toy sender receiver frames ≡ arriving sender frames
transmit-arriving_example =
    transmit-arriving toy toy_laws frames sender receiver 1 (omega arith) (omega arith)
      (
        (omega arith, unfold is_payload in refl),
        ((omega arith, unfold is_payload in refl), ((omega arith, unfold is_payload in refl), tt)),
      )
      (fresh-IsBehind sender receiver 1 refl refl (omega arith))
      (unfold IsClose in (omega arith, (omega arith, (omega arith, tt))))

abbrev reported : List (ℕ × ℕ)
reported = (7, 100) ∷ (8, 200) ∷ []

read_rtcp_back_example :
    (read_rtcp (build_rr 1 reported) ≡ some (receiver_report 1 reported))
    × (read_rtcp (build_empty_sr 1 1700000000 500)
        ≡ some (
            sender_report 1
              ((1700000000 + 2208988800) % 2 ^ 32)
              (500 * 2 ^ 32 / 1000000000)
              ((1700000000 * 90000 + 500 * 90000 / 1000000000) % 2 ^ 32)))
    × (read_rtcp (build_fir_legacy 7) ≡ some (legacy_intra_request 7))
    × (read_rtcp (build_fir 1 7 3) ≡ some (full_intra_request 1 7 3))
    × (read_rtcp (build_pli 1 7) ≡ some (picture_loss 1 7))
read_rtcp_back_example =
    read_rtcp_back 1 7 3 1700000000 500 reported (omega arith) (omega arith) (omega arith)
      ((omega arith, omega arith), ((omega arith, omega arith), tt))
