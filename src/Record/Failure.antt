-- ===== src/Record/Failure.antt =====
-- record.rs: the error paths. What a refused call leaves, and the layer that has failed.
use macvnc.Base.{
  ℕ, ◌+◌, ◌/◌, ◌%◌, ◌≤◌, ◌≡◌, refl, List, [], ◌∷◌, ◌⊎◌, Bool, true, false, ◌&&◌, arith, length,
  Result, ok, err, is_ok, leb, ◌==◌, ltb,
}
use macvnc.Record.{
  Crypto, RecordLayer, u32_max, encrypt, encrypt_record, decrypt, verify, decrypt_blocks,
}

module _ (c : Crypto) where
  -- The guards of `decrypt` that do not look at the contents.
  unfoldable pub acceptable : RecordLayer → List ℕ → Bool
  acceptable r ct =
      (ltb r.dec_seq u32_max && (leb 32 (length ct) && leb (length ct) 65520))
      && length ct % 16 == 0

  -- A layer that has failed refuses everything and stays as it is.
  pub data Call : Type 0 where
    send : List ℕ → Call
    receive : List ℕ → Call

  pub call : RecordLayer → Call → Result (List ℕ) × RecordLayer
  call r (send body) = encrypt c r body
  call r (receive ct) = decrypt c r ct

  -- The results of a sequence of calls in both directions, and the layer after them.
  pub run : RecordLayer → List Call → List (Result (List ℕ)) × RecordLayer
  run r [] = ([], r)
  run r (x ∷ calls) =
      let (result, r') = call r x in let (results, last) = run r' calls in (result ∷ results, last)

  pub none_ok : List (Result (List ℕ)) → Bool
  none_ok [] = true
  none_ok (ok body ∷ results) = false
  none_ok (err e ∷ results) = none_ok results

  call-failed :
      (r : RecordLayer) (x : Call)
      → r.failed ≡ true
      → call r x ≡ (err "control record layer is unusable after a verification failure", r)
  unfolding call encrypt decrypt
  call-failed r (send body) h = ground arith
  call-failed r (receive ct) h = ground arith

  run-failed :
      (r : RecordLayer) (calls : List Call)
      → r.failed ≡ true
      → (none_ok (run r calls).0 ≡ true) × ((run r calls).1 ≡ r)
  unfolding run none_ok
  run-failed r [] h = (refl, refl)
  run-failed r (x ∷ calls) h = ground (arith, call-failed r x h, run-failed r calls h)

  verify_failed :
      (r : RecordLayer) (p : List ℕ)
      → r.failed ≡ true
      → is_ok (verify c r p).0 ≡ false
      → (verify c r p).1.failed ≡ true
  unfolding verify
  verify_failed r p f e = ground arith

  decrypt_failed :
      (r : RecordLayer) (ct : List ℕ)
      → acceptable r ct ≡ true
      → is_ok (decrypt c r ct).0 ≡ false
      → (decrypt c r ct).1.failed ≡ true
  unfolding decrypt acceptable
  decrypt_failed r ct h e =
      let (p, iv) = decrypt_blocks c r.key (length ct / 16) r.dec_iv ct in
      ground (arith, verify_failed (record r { failed = true; dec_iv = iv }) p)

  -- A call of `decrypt` that passes the guards on the sequence number and the length, and returns an
  -- error, closes the layer: in every later sequence of calls, in either direction, no call
  -- succeeds and the layer does not change.
  pub decrypt_failure_closes :
      (r : RecordLayer) (ct : List ℕ) (calls : List Call)
      → acceptable r ct ≡ true
      → is_ok (decrypt c r ct).0 ≡ false
      → let after = (decrypt c r ct).1 in
        (after.failed ≡ true) × (none_ok (run after calls).0 ≡ true) × ((run after calls).1 ≡ after)
  decrypt_failure_closes r ct calls h e =
      let f = decrypt_failed r ct h e in
      let (none, same) = run-failed (decrypt c r ct).1 calls f in (f, none, same)

  -- Every call of `encrypt` either fails and leaves the layer as it was, or succeeds, and then the
  -- sequence number has gone up by one within 32 bits, and the receiving half is untouched.
  pub encrypt_outcome :
      (r : RecordLayer) (body : List ℕ)
      → let after = (encrypt c r body).1 in
        ((is_ok (encrypt c r body).0 ≡ false) × (after ≡ r))
        ⊎ ((is_ok (encrypt c r body).0 ≡ true)
            × (r.failed ≡ false)
            × (length body ≤ 65498)
            × (after.enc_seq ≡ r.enc_seq + 1)
            × (after.enc_seq ≤ u32_max)
            × (after.failed ≡ false)
            × (after.dec_seq ≡ r.dec_seq)
            × (after.dec_iv ≡ r.dec_iv))
  unfolding encrypt encrypt_record
  encrypt_outcome r body = ground arith
