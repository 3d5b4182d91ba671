-- ===== src/Srtp/Sender/Stream.antt =====
-- srtp.rs: a receiver that is behind a sender, and what one packet changes.
use macvnc.Base.{
  ℕ, ◌+◌, ◌-◌, ◌/◌, ◌^◌, ◌<◌, ◌≤◌, ◌≡◌, refl, List, [], ◌∷◌, false, arith, Option, none, some, ltb,
  length, u16,
}
use macvnc.Srtp.{
  Crypto, ReceiveState, SrtpReceiver, get, put, replayed, mark, move, track, opened, guess_roc,
  accept, unprotect,
}
use macvnc.Srtp.Replay.{get-put_self, get-first}
use macvnc.Srtp.Sender.{SrtpSender}
use macvnc.Srtp.Sender.RoundTrip.{
  CryptoLaws, IsSending, guess_roc-near, sent_packet, wire, roc, wire-fields, wire-is_media,
  wire-index, opened-wire, packet-wire,
}

-- What the receiver knows of the source: nothing, and then `gap` is above the sender's index, or a
-- highest index at most `gap` behind it.
data Position (index gap : ℕ) (states : List (ℕ × ReceiveState))
    : Option ReceiveState → Type 0 where
  unseen : index < gap → length states < 32 → Position index gap states none
  behind :
      (s : ReceiveState)
      → s.highest < index
      → index ≤ s.highest + gap
      → Position index gap states (some s)

pub IsBehind : SrtpSender → ℕ → SrtpReceiver → Type 0
IsBehind s gap r = (r.keys ≡ s.keys) × Position s.index gap r.states (get s.ssrc r.states)

pub fresh-IsBehind :
    (s : SrtpSender) (r : SrtpReceiver) (gap : ℕ)
    → r.keys ≡ s.keys
    → r.states ≡ []
    → s.index < gap
    → IsBehind s gap r
unfolding IsBehind get
fresh-IsBehind s r gap e none_yet h = (e, rw none_yet (unseen h (omega arith)))

-- A receiver that is behind guesses the roll-over counter, and its window is open.
guess-ok :
    (index gap : ℕ) (states : List (ℕ × ReceiveState)) (o : Option ReceiveState)
    → Position index gap states o
    → gap < 32768
    → guess_roc o (u16 index) ≡ index / 2 ^ 16
guess-ok index gap states _ (unseen h room) k = unfold guess_roc in omega arith
guess-ok index gap states _ (behind s h near) k = guess_roc-near s index (omega arith) (omega arith)

window-open :
    (index gap : ℕ) (states : List (ℕ × ReceiveState)) (o : Option ReceiveState)
    → Position index gap states o
    → replayed o index ≡ false
unfolding replayed
window-open index gap states _ (unseen h room) = refl
window-open index gap states _ (behind s h near) = ground arith

mark-newer : (s : ReceiveState) (index : ℕ) → s.highest < index → (mark s index).highest ≡ index
unfolding mark move
mark-newer s index h = ground arith

mark-first : (index : ℕ) → (mark (record { highest = index; seen = 0 }) index).highest ≡ index
unfolding mark move
mark-first index = ground arith

-- The entry of the source after the packet is accepted.
track-newer :
    (ssrc index gap : ℕ) (states : List (ℕ × ReceiveState)) (o : Option ReceiveState)
    → get ssrc states ≡ o
    → Position index gap states o
    → (states' : List (ℕ × ReceiveState)) × (track states ssrc index ≡ some states')
      × Position (index + 1) 1 states' (get ssrc states')
unfolding track
track-newer ssrc index gap states _ e (unseen h room) =
    let s' = mark (record { highest = index; seen = 0 }) index in
    (
      (ssrc, s') ∷ states,
      ground (arith, e),
      rw (get-first ssrc s' states)
          (behind s' (omega (arith, mark-first index)) (omega (arith, mark-first index))),
    )
track-newer ssrc index gap states _ e (behind s h near) =
    let s' = mark s index in
    (
      put ssrc s' states,
      ground (arith, e),
      rw (get-put_self ssrc s' s states e)
          (behind s' (omega (arith, mark-newer s index h)) (omega (arith, mark-newer s index h))),
    )

module _ (c : Crypto) (laws : CryptoLaws c) (s : SrtpSender) (payload : List ℕ) (timestamp pt : ℕ)
    (v : IsSending s payload timestamp pt) where
  abbrev datagram : List ℕ
  datagram = wire c laws s payload timestamp pt v

  abbrev counter : ℕ
  counter = roc c laws s payload timestamp pt v

  accept-wire :
      (r : SrtpReceiver) (states : List (ℕ × ReceiveState))
      → r.keys ≡ s.keys
      → replayed (get s.ssrc r.states) s.index ≡ false
      → track r.states s.ssrc s.index ≡ some states
      → accept c r datagram counter
        ≡ (some (sent_packet s payload timestamp pt), record r { states = states })
  unfolding accept
  accept-wire r states keys fresh room =
      let (_, _, _, _, source) = wire-fields c laws s payload timestamp pt v in
      let index = wire-index c laws s payload timestamp pt v in
      let near : ltb (2 ^ 32 - 1) counter ≡ false = ground (arith, v.index_ok) in
      let good : opened c r.keys datagram counter ≡ some payload =
        rw keys (opened-wire c laws s payload timestamp pt v) in
      rw
        (
          near,
          source,
          index,
          fresh,
          good,
          source,
          index,
          room,
          packet-wire c laws s payload timestamp pt v,
        )
        refl

  pub unprotect-wire :
      (gap : ℕ) (r : SrtpReceiver)
      → IsBehind s gap r
      → gap < 32768
      → (r' : SrtpReceiver) × (unprotect c r datagram
          ≡ (some (sent_packet s payload timestamp pt), r'))
        × IsBehind (record s { index = s.index + 1 }) 1 r'
  unfolding unprotect IsBehind
  unprotect-wire gap r (keys, p) h =
      let (_, _, seq, _, source) = wire-fields c laws s payload timestamp pt v in
      let (states, room, p') = track-newer s.ssrc s.index gap r.states _ refl p in
      let fresh = window-open s.index gap r.states _ p in
      let guess = guess-ok s.index gap r.states _ p h in
      (
        record r { states = states },
        rw (wire-is_media c laws s payload timestamp pt v, source, seq, guess)
            (accept-wire r states keys fresh room),
        (keys, p'),
      )

abbrev pub next : SrtpSender → SrtpSender
next s = record s { index = s.index + 1 }

pub IsBehind-lost :
    (s : SrtpSender) (gap : ℕ) (r : SrtpReceiver) → IsBehind s gap r → IsBehind (next s) (gap + 1) r
unfolding IsBehind
IsBehind-lost s gap r (keys, p) = (keys, later _ p)
  where
    later :
        (o : Option ReceiveState)
        → Position s.index gap r.states o
        → Position (s.index + 1) (gap + 1) r.states o
    later _ (unseen h room) = unseen (omega arith) room
    later _ (behind x h near) = behind x (omega arith) (omega arith)
