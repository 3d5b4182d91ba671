-- ===== src/Record/RoundTrip.antt =====
-- record.rs: what one side encrypts the other side decrypts, record after record.
use macvnc.Base.{
  ℕ, ◌+◌, ◌-◌, ◌/◌, ◌%◌, ◌<◌, ◌≤◌, ◌≡◌, refl, ap, List, ◌++◌, append_assoc, true, false, arith,
  length, take, drop, replicate, take_left, drop_left, length-append, length-replicate, All,
  All-append, All-replicate, IsByte, be16, be32, u16, u16_at, ok,
}
use macvnc.Record.{
  Crypto, RecordLayer, u32_max, padded_size, framed, sealed, encrypt_blocks, encrypt_record,
  encrypt, verify, decrypt_blocks, decrypt,
}
use macvnc.Record.Cbc.{IsBlock, CryptoLaws, Chained, encrypt_blocks-Chained}

length-framed : (body : List ℕ) → length (framed body) ≡ padded_size (length body) - 20
unfolding framed
length-framed body =
    let zeros = replicate {A = ℕ} (padded_size (length body) - 20 - 2 - length body) 0 in
    omega (
      arith,
      length-append body zeros,
      length-replicate {A = ℕ} (padded_size (length body) - 20 - 2 - length body) 0,
    )

framed-IsByte : (body : List ℕ) → All IsByte body → All IsByte (framed body)
unfolding framed
framed-IsByte body h =
    let n = padded_size (length body) - 20 - 2 - length body in
    let rest = All-append IsByte body (replicate n 0) h (All-replicate IsByte n 0 (omega arith)) in
    (omega arith, (omega arith, rest))

-- Where the length field stands, and where the body stands.
framed_fields :
    (body tail : List ℕ)
    → length body ≤ 65498
    → (u16_at (framed body ++ tail) 0 ≡ length body)
      × (take (length body) (drop 2 (framed body ++ tail)) ≡ body)
unfolding framed
framed_fields body tail h =
    let zeros = replicate {A = ℕ} (padded_size (length body) - 20 - 2 - length body) 0 in
    (omega arith, rw (append_assoc body zeros tail) (take_left _ body (zeros ++ tail) refl))

module _ (c : Crypto) (laws : CryptoLaws c) where
  length-sealed : (seq : ℕ) (body : List ℕ) → length (sealed c seq body) ≡ padded_size (length body)
  unfolding sealed
  length-sealed seq body =
      let hash = c.sha1 (be32 seq ++ framed body) in
      omega (
        arith,
        length-append (framed body) hash,
        length-framed body,
        laws.length-sha1 (be32 seq ++ framed body),
      )

  sealed-IsByte : (seq : ℕ) (body : List ℕ) → All IsByte body → All IsByte (sealed c seq body)
  unfolding sealed
  sealed-IsByte seq body h =
      All-append IsByte (framed body) _ (framed-IsByte body h) (laws.sha1-IsByte _)

  -- The hash of a sealed buffer is found where `decrypt` looks for it.
  sealed_hash :
      (seq : ℕ) (body : List ℕ)
      → let p = sealed c seq body in
        let end = length p - 20 in c.ct_eq (c.sha1 (be32 seq ++ take end p)) (drop end p) ≡ true
  sealed_hash seq body =
      let end = length (sealed c seq body) - 20 in
      let hash = c.sha1 (be32 seq ++ framed body) in
      let e : end ≡ length (framed body) =
        omega (arith, length-sealed seq body, length-framed body) in
      unfold sealed in
      (laws.ct_eq_iff _ _).1
        (rw (take_left end (framed body) hash e, drop_left end (framed body) hash e))

  sealed_fields :
      (seq : ℕ) (body : List ℕ)
      → length body ≤ 65498
      → (u16_at (sealed c seq body) 0 ≡ length body)
        × (take (length body) (drop 2 (sealed c seq body)) ≡ body)
  unfolding sealed
  sealed_fields seq body h = framed_fields body (c.sha1 (be32 seq ++ framed body)) h

  -- `decrypt` accepts a buffer that was sealed under its own sequence number, and returns the body.
  verify-sealed :
      (r : RecordLayer) (body : List ℕ)
      → r.dec_seq < u32_max
      → length body ≤ 65498
      → verify c r (sealed c r.dec_seq body)
        ≡ (ok body, record r { dec_seq = r.dec_seq + 1; failed = false })
  unfolding verify
  verify-sealed r body h k = ground (
    arith,
    sealed_hash r.dec_seq body,
    length-sealed r.dec_seq body,
    sealed_fields r.dec_seq body k,
  )

  -- The two ends of one direction: `s` sends to `r`.
  pub record InSync (s r : RecordLayer) : Type 0 where
    pub key_ok : IsBlock s.key
    pub iv_ok : IsBlock s.enc_iv
    pub same_key : s.key ≡ r.key
    pub same_iv : s.enc_iv ≡ r.dec_iv
    pub same_seq : s.enc_seq ≡ r.dec_seq
    pub sender_usable : s.failed ≡ false
    pub receiver_usable : r.failed ≡ false

  -- What `encrypt` computes on an accepted body.
  abbrev cipher : RecordLayer → List ℕ → List ℕ × List ℕ
  cipher s body =
      encrypt_blocks c s.key (length (sealed c s.enc_seq body) / 16) s.enc_iv
        (sealed c s.enc_seq body)

  encrypt_accepted :
      (s : RecordLayer) (body : List ℕ)
      → s.failed ≡ false
      → s.enc_seq < u32_max
      → length body ≤ 65498
      → encrypt c s body ≡ (
        ok (be16 (u16 (padded_size (length body))) ++ (cipher s body).0),
        record s { enc_iv = (cipher s body).1; enc_seq = s.enc_seq + 1 },
      )
  unfolding encrypt encrypt_record
  encrypt_accepted s body f h k = ground arith

  cipher-Chained :
      (s : RecordLayer) (body : List ℕ)
      → IsBlock s.key
      → IsBlock s.enc_iv
      → All IsByte body
      → (hk : IsBlock s.key)
      → Chained c laws s.key hk
          (length (sealed c s.enc_seq body) / 16)
          s.enc_iv
          (sealed c s.enc_seq body)
          (cipher s body)
  cipher-Chained s body kok ivok h hk =
      encrypt_blocks-Chained c laws s.key hk _ s.enc_iv (sealed c s.enc_seq body) ivok
        (omega (arith, length-sealed s.enc_seq body)) (sealed-IsByte s.enc_seq body h)

  decrypt_accepted :
      (r : RecordLayer) (body ct last : List ℕ)
      → r.failed ≡ false
      → r.dec_seq < u32_max
      → length body ≤ 65498
      → length ct ≡ padded_size (length body)
      → decrypt_blocks c r.key (length ct / 16) r.dec_iv ct ≡ (sealed c r.dec_seq body, last)
      → decrypt c r ct
        ≡ (ok body, record r { dec_iv = last; dec_seq = r.dec_seq + 1; failed = false })
  unfolding decrypt
  decrypt_accepted r body ct last f h k size undone =
      ground (arith, verify-sealed (record r { failed = true; dec_iv = last }) body h k)

  -- What becomes of a body that `s` encrypts: the wire has the length of the ciphertext and the
  -- ciphertext, whose length the receiver accepts; `r` decrypts that to the body; and the two ends
  -- are in step again.
  pub record Delivered (s r : RecordLayer) (body : List ℕ) : Type 0 where
    pub ct : List ℕ
    pub wire : (encrypt c s body).0 ≡ ok (be16 (length ct) ++ ct)
    pub at_least : 32 ≤ length ct
    pub at_most : length ct ≤ 65520
    pub whole_blocks : length ct % 16 ≡ 0
    pub received : (decrypt c r ct).0 ≡ ok body
    pub synced : InSync (encrypt c s body).1 (decrypt c r ct).1
    pub sender_seq : (encrypt c s body).1.enc_seq ≡ s.enc_seq + 1

  -- Between two ends in step, with a sequence number left, every body of at most 65498 bytes is
  -- encrypted and delivered.
  pub decrypt-encrypt :
      (s r : RecordLayer) (body : List ℕ)
      → InSync s r
      → s.enc_seq < u32_max
      → length body ≤ 65498
      → All IsByte body
      → Delivered s r body
  decrypt-encrypt s r body sync h k hb =
      let chained = cipher-Chained s body sync.key_ok sync.iv_ok hb sync.key_ok in
      let (out, last) = cipher s body in
      let size : length out ≡ padded_size (length body) =
        omega (arith, chained.same_length, length-sealed s.enc_seq body) in
      let small : u16 (padded_size (length body)) ≡ padded_size (length body) = omega arith in
      let sent = encrypt_accepted s body sync.sender_usable h k in
      let undone : decrypt_blocks c r.key (length out / 16) r.dec_iv out
          ≡ (sealed c r.dec_seq body, last) =
        rw (← sync.same_key, ← sync.same_iv, ← sync.same_seq, chained.same_length) chained.undone in
      let got =
        decrypt_accepted r body out last sync.receiver_usable (rw (← sync.same_seq) h) k size
          undone in
      record {
        ct = out;
        wire = rw (sent, size, small);
        at_least = omega arith;
        at_most = omega arith;
        whole_blocks = omega arith;
        received = rw got;
        synced =
            rw (sent, got)
              (record {
                key_ok = sync.key_ok;
                iv_ok = chained.last;
                same_key = sync.same_key;
                same_iv = refl;
                same_seq = ap (λ n. n + 1) sync.same_seq;
                sender_usable = sync.sender_usable;
                receiver_usable = refl;
              });
        sender_seq = rw sent;
      }
