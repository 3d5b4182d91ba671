-- ===== src/Record/Cbc.antt =====
-- The cipher chaining of record.rs, under the documented laws of the packages that it calls.
use macvnc.Base.{
  ℕ, zero, suc, ◌*◌, ◌≤◌, ◌≡◌, refl, sym, ap, ap₂, ◌∙◌, List, [], ◌∷◌, true, arith, length, take,
  drop, take-append-drop, take_left, drop_left, length-append, length-take, length-drop, All,
  All-append, All-take, All-drop, IsByte,
}
use macvnc.Base.Bits.{bit_xor-cancel, bit_xor-lt}
use macvnc.Record.{Crypto, xor_block, encrypt_blocks, decrypt_blocks}
use mathlib.Core.Logic.{◌↔◌}

-- A cipher block, a chaining value or a key: 16 bytes.
abbrev pub IsBlock : List ℕ → Type 0
IsBlock b = (length b ≡ 16) × All IsByte b

-- What AES-128, SHA-1 and the comparison promise: the cipher maps blocks to blocks and is undone
-- by the decryption, a hash has 20 bytes, and the comparison decides equality.
pub record CryptoLaws (c : Crypto) : Type 0 where
  pub encrypt_block-IsBlock :
      (key b : List ℕ) → IsBlock key → IsBlock b → IsBlock (c.encrypt_block key b)
  pub decrypt_block-encrypt_block :
      (key b : List ℕ) → IsBlock key → IsBlock b → c.decrypt_block key (c.encrypt_block key b) ≡ b
  pub length-sha1 : (m : List ℕ) → length (c.sha1 m) ≡ 20
  pub sha1-IsByte : (m : List ℕ) → All IsByte (c.sha1 m)
  pub ct_eq_iff : (a b : List ℕ) → (c.ct_eq a b ≡ true) ↔ (a ≡ b)

pub xor_block-cancel : (b iv : List ℕ) → xor_block (xor_block b iv) iv ≡ b
unfolding xor_block
xor_block-cancel [] iv = refl
xor_block-cancel (x ∷ b) [] = refl
xor_block-cancel (x ∷ b) (v ∷ iv) = ap₂ ◌∷◌ (bit_xor-cancel x v) (xor_block-cancel b iv)

pub length-xor_block : (b iv : List ℕ) → length (xor_block b iv) ≡ length b
unfolding xor_block
length-xor_block [] iv = refl
length-xor_block (x ∷ b) [] = refl
length-xor_block (x ∷ b) (v ∷ iv) = ap suc (length-xor_block b iv)

pub xor_block-IsByte : (b iv : List ℕ) → All IsByte b → All IsByte iv → All IsByte (xor_block b iv)
unfolding xor_block
xor_block-IsByte [] iv h k = tt
xor_block-IsByte (x ∷ b) [] h k = h
xor_block-IsByte (x ∷ b) (v ∷ iv) h k = (bit_xor-lt 8 x v h.0 k.0, xor_block-IsByte b iv h.1 k.1)

xor_block-IsBlock : (b iv : List ℕ) → IsBlock b → IsBlock iv → IsBlock (xor_block b iv)
xor_block-IsBlock b iv h k = (length-xor_block b iv ∙ h.0, xor_block-IsByte b iv h.1 k.1)

take-IsBlock : (p : List ℕ) → 16 ≤ length p → All IsByte p → IsBlock (take 16 p)
take-IsBlock p h k = (omega (arith, length-take 16 p), All-take IsByte 16 p k)

module _ (c : Crypto) (laws : CryptoLaws c) (key : List ℕ) (key_ok : IsBlock key) where
  -- What the loop of `encrypt` leaves: as many bytes as before, and a chaining value; the loop of
  -- `decrypt`, started at the same chaining value, gives back the buffer and ends at the same one.
  pub record Chained (n : ℕ) (iv p : List ℕ) (out : List ℕ × List ℕ) : Type 0 where
    pub same_length : length out.0 ≡ length p
    pub bytes : All IsByte out.0
    pub last : IsBlock out.1
    pub undone : decrypt_blocks c key n iv out.0 ≡ (p, out.1)

  pub encrypt_blocks-Chained :
      (n : ℕ) (iv p : List ℕ)
      → IsBlock iv
      → length p ≡ n * 16
      → All IsByte p
      → Chained n iv p (encrypt_blocks c key n iv p)
  unfolding encrypt_blocks decrypt_blocks
  encrypt_blocks-Chained zero iv p hiv hp hb = record {
    same_length = refl;
    bytes = hb;
    last = hiv;
    undone = refl;
  }
  encrypt_blocks-Chained (suc n) iv p hiv hp hb =
      let x = xor_block (take 16 p) iv in
      let block = c.encrypt_block key x in
      let hx = xor_block-IsBlock (take 16 p) iv (take-IsBlock p (omega arith) hb) hiv in
      let hblock = laws.encrypt_block-IsBlock key x key_ok hx in
      let ih =
        encrypt_blocks-Chained n block (drop 16 p) hblock (omega (arith, length-drop 16 p))
          (All-drop IsByte 16 p hb) in
      let rest = (encrypt_blocks c key n block (drop 16 p)).0 in
      record {
        same_length =
            omega (arith, length-append block rest, length-drop 16 p, ih.same_length, hblock.0);
        bytes = All-append IsByte block rest hblock.1 ih.bytes;
        last = ih.last;
        undone = rw (
          take_left 16 block rest (sym hblock.0),
          drop_left 16 block rest (sym hblock.0),
          ih.undone,
          laws.decrypt_block-encrypt_block key x key_ok hx,
          xor_block-cancel (take 16 p) iv,
          take-append-drop 16 p,
        );
      }
