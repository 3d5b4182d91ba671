-- ===== src/Record.antt =====
-- rust/crates/hp-protocol/src/record.rs: the encrypted records of the control channel.
-- AES-128, SHA-1 and the constant-time comparison are other packages' code: the parameter
-- `Crypto`. A buffer is a list of bytes. The wiping of keys has no counterpart.
pub mod Cbc
pub mod RoundTrip
pub mod Drain
pub mod Segments
pub mod Failure
mod Tests
use macvnc.Base.{
  ℕ, zero, suc, ◌+◌, ◌-◌, ◌*◌, ◌/◌, ◌%◌, ◌^◌, Bool, true, false, not, ◌&&◌, List, [], ◌∷◌, ◌++◌,
  Option, none, some, Result, ok, err, ltb, leb, ◌==◌, if◌then◌else◌, length, take, drop, replicate,
  be16, be32, u16, u16_at,
}
use Prim.Native.Nat.{bit_xor}

-- What `record.rs` calls of the crates `aes`, `sha1` and `subtle`: the cipher on one block under a
-- key, the hash, and the comparison of two slices.
pub record Crypto : Type 0 where
  pub encrypt_block : List ℕ → List ℕ → List ℕ
  pub decrypt_block : List ℕ → List ℕ → List ℕ
  pub sha1 : List ℕ → List ℕ
  pub ct_eq : List ℕ → List ℕ → Bool

pub record RecordLayer : Type 0 where
  pub key : List ℕ
  pub enc_iv : List ℕ
  pub dec_iv : List ℕ
  pub enc_seq : ℕ
  pub dec_seq : ℕ
  pub failed : Bool

abbrev pub u32_max : ℕ
u32_max = 2 ^ 32 - 1

-- `u32::checked_add`
abbrev pub checked_add : ℕ → ℕ → Option ℕ
checked_add a b = if leb (a + b) u32_max then some (a + b) else none

pub new : List ℕ → List ℕ → RecordLayer
new key iv = record {
  key = key;
  enc_iv = iv;
  dec_iv = iv;
  enc_seq = 0;
  dec_seq = 0;
  failed = false;
}

-- `for (b, iv) in block.iter_mut().zip(iv) { *b ^= iv; }`
unfoldable pub xor_block : List ℕ → List ℕ → List ℕ
xor_block [] iv = []
xor_block (b ∷ block) [] = b ∷ block
xor_block (b ∷ block) (v ∷ iv) = bit_xor b v ∷ xor_block block iv

-- `(2 + body.len() + 20 + 15) & !15`
abbrev pub padded_size : ℕ → ℕ
padded_size n = (2 + n + 20 + 15) / 16 * 16

-- The plaintext of a record up to the hash: the length, the body, and zeros.
pub framed : List ℕ → List ℕ
framed body =
    be16 (u16 (length body))
    ++ (body ++ replicate (padded_size (length body) - 20 - 2 - length body) 0)

module _ (c : Crypto) where
  -- The loops over `p.as_chunks_mut::<16>().0`, with the number of whole chunks that are left. The
  -- result is the buffer and the chaining value after the loop.
  pub encrypt_blocks : List ℕ → ℕ → List ℕ → List ℕ → List ℕ × List ℕ
  encrypt_blocks key zero iv p = (p, iv)
  encrypt_blocks key (suc n) iv p =
      let block = c.encrypt_block key (xor_block (take 16 p) iv) in
      let (rest, last) = encrypt_blocks key n block (drop 16 p) in (block ++ rest, last)

  pub decrypt_blocks : List ℕ → ℕ → List ℕ → List ℕ → List ℕ × List ℕ
  decrypt_blocks key zero iv p = (p, iv)
  decrypt_blocks key (suc n) iv p =
      let next = take 16 p in
      let block = xor_block (c.decrypt_block key next) iv in
      let (rest, last) = decrypt_blocks key n next (drop 16 p) in (block ++ rest, last)

  -- The buffer `p` that `encrypt` hands to the cipher.
  pub sealed : ℕ → List ℕ → List ℕ
  sealed seq body = framed body ++ c.sha1 (be32 seq ++ framed body)

  -- What `encrypt` does behind its guards.
  pub encrypt_record : RecordLayer → List ℕ → Result (List ℕ) × RecordLayer
  encrypt_record r body =
      let size = padded_size (length body) in
      let p = sealed r.enc_seq body in
      let (out, iv) = encrypt_blocks r.key (length p / 16) r.enc_iv p in
      elim (checked_add r.enc_seq 1) [
        | none ↦ (err "record sequence exhausted", record r { enc_iv = iv })
        | some seq ↦ (ok (be16 (u16 size) ++ out), record r { enc_iv = iv; enc_seq = seq })
      ]

  pub encrypt : RecordLayer → List ℕ → Result (List ℕ) × RecordLayer
  encrypt r body =
      if r.failed
      then (err "control record layer is unusable after a verification failure", r)
      else if not (ltb r.enc_seq u32_max)
      then (err "record sequence exhausted", r)
      else if not (leb (length body) 65498)
      then (err "control message too large", r)
      else encrypt_record r body

  -- The checks of `decrypt` on the decrypted buffer `p`; `r` is the layer marked as failed, with the
  -- chaining value already replaced.
  pub verify : RecordLayer → List ℕ → Result (List ℕ) × RecordLayer
  verify r p =
      let end = length p - 20 in
      let len = u16_at p 0 in
      if not (c.ct_eq (c.sha1 (be32 r.dec_seq ++ take end p)) (drop end p))
      then (err "control record authentication failed", r)
      else if not (leb len (end - 2))
      then (err "invalid inner record length", r)
      else elim (checked_add r.dec_seq 1) [
        | none ↦ (err "record sequence exhausted", r)
        | some seq ↦ (ok (take len (drop 2 p)), record r { dec_seq = seq; failed = false })
      ]

  pub decrypt : RecordLayer → List ℕ → Result (List ℕ) × RecordLayer
  decrypt r ct =
      if r.failed
      then (err "control record layer is unusable after a verification failure", r)
      else if not (ltb r.dec_seq u32_max)
      then (err "record sequence exhausted", r)
      else if not ((leb 32 (length ct) && leb (length ct) 65520) && length ct % 16 == 0)
      then (err "invalid encrypted record length", r)
      else let (p, iv) = decrypt_blocks r.key (length ct / 16) r.dec_iv ct in
        verify (record r { failed = true; dec_iv = iv }) p

  pub unwrap : List ℕ → List ℕ → Result (List ℕ)
  unwrap key wrapped =
      if length wrapped == 16
      then ok (c.decrypt_block key wrapped)
      else err "invalid wrapped key block length"

  -- The loop of `drain_records`. The list is `pending[used..]`; the result has the bodies of the
  -- records that were taken and what is left of the buffer. A round takes 34 bytes at least, so
  -- `length pending` rounds are enough, and the loop stops where the fuel would end it.
  pub drain_loop :
      ℕ → RecordLayer → List ℕ → List (List ℕ) → Result (List (List ℕ) × List ℕ) × RecordLayer
  drain_loop zero r rest out = (ok (out, rest), r)
  drain_loop (suc fuel) r rest out =
      let n = u16_at rest 0 in
      if not (leb 2 (length rest))
      then (ok (out, rest), r)
      else if not (leb 32 n && n % 16 == 0)
      then (err "invalid control record length", r)
      else if ltb (length rest) (2 + n)
      then (ok (out, rest), r)
      else let (result, r') = decrypt r (take n (drop 2 rest)) in
        elim result [
          | ok body ↦ drain_loop fuel r' (drop (2 + n) rest) (out ++ (body ∷ []))
          | err e ↦ (err e, r')
        ]

  -- `drain_records`: the bodies, the layer after them, and `pending` after the call. An error
  -- leaves `pending` as it was.
  pub drain_records : RecordLayer → List ℕ → Result (List (List ℕ)) × RecordLayer × List ℕ
  drain_records r pending =
      let (result, r') = drain_loop (length pending) r pending [] in
      elim result [ ok (out, rest) ↦ (ok out, r', rest) | err e ↦ (err e, r', pending) ]
