-- ===== src/Srtp.antt =====
-- rust/crates/hp-media/src/srtp.rs: the protection of media packets. AES-CTR, HMAC and the
-- comparison of tags are the parameter `Crypto`. Masks and shifts of bytes are written as remainders and
-- quotients, `x & (1 << k) != 0` as `test_bit k x == 1`.
pub mod Window
pub mod Replay
pub mod Once
pub mod Sender
pub mod Rtcp
mod Tests
use macvnc.Base.{
  ℕ, zero, suc, ◌+◌, ◌-◌, ◌*◌, ◌/◌, ◌%◌, ◌^◌, Bool, true, false, not, ◌&&◌, ◌||◌, List, [], ◌∷◌,
  ◌++◌, Option, none, some, Result, ok, err, ltb, leb, ◌==◌, if◌then◌else◌, length, take, drop,
  get_or, replicate, be16, be32, u16, u32, u16_at, u32_at,
}
use macvnc.Base.Bits.{test_bit}
use macvnc.Record.{xor_block}
use Prim.Native.Nat.{bit_and, bit_or}

-- What `srtp.rs` calls of the crates `aes` and `ctr`, `hmac` and `sha1`, and `subtle`: the key stream
-- of a key and an initial counter on bytes, the tag of a message under a key, and the comparison.
pub record Crypto : Type 0 where
  pub apply_keystream : List ℕ → List ℕ → List ℕ → List ℕ
  pub hmac : List ℕ → List ℕ → List ℕ
  pub ct_eq : List ℕ → List ℕ → Bool

pub record Keys : Type 0 where
  pub cipher : List ℕ
  pub auth : List ℕ
  pub salt : List ℕ

pub record RtpPacket : Type 0 where
  pub ssrc : ℕ
  pub seq : ℕ
  pub timestamp : ℕ
  pub marker : Bool
  pub pt : ℕ
  pub payload : List ℕ

pub record ReceiveState : Type 0 where
  pub highest : ℕ
  pub seen : ℕ

-- `states` has a source at most once.
pub record SrtpReceiver : Type 0 where
  pub keys : Keys
  pub states : List (ℕ × ReceiveState)

-- `for (a, b) in iv[i..].iter_mut().zip(v) { *a ^= b; }`
abbrev pub xor_at : ℕ → List ℕ → List ℕ → List ℕ
xor_at i iv v = take i iv ++ xor_block (drop i iv) v

-- `u64::to_be_bytes`
abbrev pub be64 : ℕ → List ℕ
be64 v = be32 (v / 2 ^ 32) ++ be32 v

pub is_rtcp : List ℕ → Bool
is_rtcp p = let kind = get_or p 1 0 % 128 in ltb 1 (length p) && leb 64 kind && leb kind 95

-- `self.states.get(&ssrc)`
pub get : ℕ → List (ℕ × ReceiveState) → Option ReceiveState
get ssrc [] = none
get ssrc ((key, s) ∷ states) = if key == ssrc then some s else get ssrc states

-- The replacement of the state of a source that is there.
pub put : ℕ → ReceiveState → List (ℕ × ReceiveState) → List (ℕ × ReceiveState)
put ssrc s [] = []
put ssrc s ((key, old) ∷ states) =
    if key == ssrc then (key, s) ∷ states else (key, old) ∷ put ssrc s states

-- The roll-over counter that `unprotect` guesses from the highest index of the source.
pub guess_roc : Option ReceiveState → ℕ → ℕ
guess_roc none seq = 0
guess_roc (some s) seq =
    let roc = s.highest / 2 ^ 16 in
    let low = s.highest % 2 ^ 16 in
    if ltb (seq + 32768) low then roc + 1 else if ltb (low + 32768) seq then roc - 1 else roc

-- Whether the window of the source refuses the index.
pub replayed : Option ReceiveState → ℕ → Bool
replayed none index = false
replayed (some s) index =
    let age = s.highest - index in
    leb index s.highest && (leb 128 age || not (bit_and s.seen (2 ^ age) == 0))

-- The part of `mark` that moves the window.
pub move : ReceiveState → ℕ → ReceiveState
move s index =
    let delta = index - s.highest in
    if ltb s.highest index
    then record {
      highest = index;
      seen = if leb 128 delta then 0 else s.seen * 2 ^ delta % 2 ^ 128;
    }
    else s

-- The index is entered into the window. The source shifts a 128-bit word by the age, which is below 128
-- where the test for replays, `replayed`, has let the index pass, as it has wherever this is called;
-- the shift here has no limit.
pub mark : ReceiveState → ℕ → ReceiveState
mark s index =
    let moved = move s index in
    record moved { seen = bit_or moved.seen (2 ^ (moved.highest - index)) }

-- The entry of the source, made where it is missing and the table has room, and its update.
pub track : List (ℕ × ReceiveState) → ℕ → ℕ → Option (List (ℕ × ReceiveState))
track states ssrc index = elim (get ssrc states) [
  | some s ↦ some (put ssrc (mark s index) states)
  | none ↦
      if leb 32 (length states)
      then none
      else some ((ssrc, mark (record { highest = index; seen = 0 }) index) ∷ states)
]

-- Where the payload begins: behind the sources and the extension, at most at `len`.
pub payload_start : List ℕ → ℕ → Option ℕ
payload_start p len =
    let fixed = 12 + get_or p 0 0 % 16 * 4 in
    let extended = fixed + (4 + u16_at p (fixed + 2) * 4) in
    if not (test_bit 4 (get_or p 0 0) == 1)
    then (if ltb len fixed then none else some fixed)
    else if ltb len (fixed + 4)
    then none
    else if ltb len extended
    then none
    else some extended

-- The removal of the padding, where the first byte announces it.
pub unpad : ℕ → List ℕ → Option (List ℕ)
unpad first payload =
    let count = get_or payload (length payload - 1) 0 in
    if not (test_bit 5 first == 1)
    then some payload
    else if count == 0 || ltb (length payload) count
    then none
    else some (take (length payload - count) payload)

-- The tests of `unprotect` on the datagram alone.
pub is_media : List ℕ → Bool
is_media p = leb 22 (length p) && leb (length p) 65535 && get_or p 0 0 / 64 == 2 && not (is_rtcp p)

abbrev pub ssrc_of : List ℕ → ℕ
ssrc_of p = u32_at p 8

abbrev pub seq_of : List ℕ → ℕ
seq_of p = u16_at p 2

pub packet_of : List ℕ → List ℕ → RtpPacket
packet_of p payload = record {
  ssrc = ssrc_of p;
  seq = seq_of p;
  timestamp = u32_at p 4;
  marker = test_bit 7 (get_or p 1 0) == 1;
  pt = get_or p 1 0 % 128;
  payload = payload;
}

-- The index of the packet, from the guess: `(guess << 16) | seq`.
abbrev pub index_of : ℕ → List ℕ → ℕ
index_of guess p = bit_or (guess * 2 ^ 16) (seq_of p)

module _ (c : Crypto) where
  -- The `kdf` of `derive`, for `n` bytes.
  pub kdf : List ℕ → ℕ → ℕ → List ℕ
  kdf blob label n =
      c.apply_keystream (take 32 blob) (xor_at 7 (drop 32 blob ++ (0 ∷ 0 ∷ [])) (label ∷ []))
        (replicate n 0)

  pub derive : List ℕ → ℕ → Result Keys
  derive blob label =
      if not (length blob == 46)
      then err "SRTP key must contain 46 bytes"
      else ok (record {
        cipher = kdf blob label 32;
        auth = kdf blob (label + 1) 20;
        salt = kdf blob (label + 2) 14;
      })

  pub new : List ℕ → Result SrtpReceiver
  new blob = elim (derive blob 0) [
    | ok keys ↦ ok (record { keys = keys; states = [] })
    | err e ↦ err e
  ]

  pub crypt : Keys → ℕ → ℕ → List ℕ → List ℕ
  crypt k ssrc index bytes =
      let iv = xor_at 4 (k.salt ++ (0 ∷ 0 ∷ [])) (be32 ssrc) in
      c.apply_keystream k.cipher (xor_at 6 iv (be64 index)) bytes

  -- The tag of a packet, its first ten bytes.
  pub tag : Keys → List ℕ → ℕ → List ℕ
  tag k bytes guess = take 10 (c.hmac k.auth (bytes ++ be32 (u32 guess)))

  -- The part of `unprotect` from the test of the tag to the payload.
  pub opened : Keys → List ℕ → ℕ → Option (List ℕ)
  opened k p guess =
      let len = length p - 10 in
      if not (c.ct_eq (tag k (take len p) guess) (drop len p))
      then none
      else elim (payload_start p len) [
        | none ↦ none
        | some off ↦
            unpad (get_or p 0 0) (crypt k (ssrc_of p) (index_of guess p) (drop off (take len p)))
      ]

  -- `unprotect` behind the tests of the datagram, with the guessed roll-over counter.
  pub accept : SrtpReceiver → List ℕ → ℕ → Option RtpPacket × SrtpReceiver
  accept r p guess =
      if ltb (2 ^ 32 - 1) guess
      then (none, r)
      else if replayed (get (ssrc_of p) r.states) (index_of guess p)
      then (none, r)
      else elim (opened r.keys p guess) [
        | none ↦ (none, r)
        | some payload ↦ elim (track r.states (ssrc_of p) (index_of guess p)) [
          | none ↦ (none, r)
          | some states ↦ (some (packet_of p payload), record r { states = states })
        ]
      ]

  pub unprotect : SrtpReceiver → List ℕ → Option RtpPacket × SrtpReceiver
  unprotect r p =
      if not (is_media p)
      then (none, r)
      else accept r p (guess_roc (get (ssrc_of p) r.states) (seq_of p))
