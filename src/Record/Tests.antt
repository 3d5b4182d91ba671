-- ===== src/Record/Tests.antt =====
-- record.rs: runs under a small cipher, and the theorems at concrete inputs.
use macvnc.Base.{
  ℕ, ◌+◌, ◌%◌, ◌≤◌, ◌≡◌, refl, ◌∙◌, List, [], ◌∷◌, ◌++◌, ◌&&◌, Bool, true, false, arith, length,
  replicate, ok, ◌==◌, is_ok, inl, drop, ◌⊎◌,
}
use macvnc.Record.{
  Crypto, RecordLayer, new, xor_block, encrypt_blocks, decrypt_blocks, encrypt, encrypt_record,
  decrypt, framed, sealed, verify, drain_records, u32_max,
}
use macvnc.Record.Cbc.{CryptoLaws, xor_block-cancel, length-xor_block, xor_block-IsByte}
use macvnc.Record.RoundTrip.{InSync, Delivered, decrypt-encrypt}
use macvnc.Record.Segments.{drain_records-encrypt_all, encrypt_all}
use macvnc.Record.Failure.{
  acceptable, send, receive, run, none_ok, decrypt_failure_closes, encrypt_outcome,
}

-- A stand-in for the packages: the cipher is exclusive or with the key, and the hash depends on the
-- length and the sum of the message.
sum : List ℕ → ℕ
sum [] = 0
sum (x ∷ xs) = x + sum xs

same : List ℕ → List ℕ → Bool
same [] [] = true
same [] (y ∷ ys) = false
same (x ∷ xs) [] = false
same (x ∷ xs) (y ∷ ys) = x == y && same xs ys

toy_sha1 : List ℕ → List ℕ
toy_sha1 m = (length m % 256) ∷ (sum m % 256) ∷ replicate 18 7

abbrev toy : Crypto
toy = record {
  encrypt_block = λ key b. xor_block b key;
  decrypt_block = λ key b. xor_block b key;
  sha1 = toy_sha1;
  ct_eq = same;
}

same-eq : (xs ys : List ℕ) → same xs ys ≡ true → xs ≡ ys
unfolding same
same-eq [] [] e = refl
same-eq [] (y ∷ ys) e = cc
same-eq (x ∷ xs) [] e = cc
same-eq (x ∷ xs) (y ∷ ys) e = ground (arith, same-eq xs ys)

same_self : (xs : List ℕ) → same xs xs ≡ true
unfolding same
same_self [] = refl
same_self (x ∷ xs) = ground (arith, same_self xs)

toy_laws : CryptoLaws toy
unfolding toy_sha1
toy_laws = record {
  encrypt_block-IsBlock =
      λ key b hk hb. (length-xor_block b key ∙ hb.0, xor_block-IsByte b key hb.1 hk.1);
  decrypt_block-encrypt_block = λ key b hk hb. xor_block-cancel b key;
  length-sha1 = λ m. refl;
  sha1-IsByte = λ m. omega arith;
  ct_eq_iff = λ a b. (same-eq a b, λ e. rw e (same_self b));
}

abbrev key : List ℕ
key = replicate 16 9

abbrev iv : List ℕ
iv = replicate 16 2

abbrev layer : RecordLayer
layer = record { key = key; enc_iv = iv; dec_iv = iv; enc_seq = 0; dec_seq = 0; failed = false }

new-layer : new key iv ≡ layer
unfolding new
new-layer = refl

abbrev hello : List ℕ
hello = 104 ∷ 101 ∷ 108 ∷ 108 ∷ 111 ∷ []

layer-InSync : InSync toy toy_laws layer layer
layer-InSync = record {
  key_ok = (refl, omega arith);
  iv_ok = (refl, omega arith);
  same_key = refl;
  same_iv = refl;
  same_seq = refl;
  sender_usable = refl;
  receiver_usable = refl;
}

decrypt-encrypt_example : Delivered toy toy_laws layer layer hello
decrypt-encrypt_example =
    decrypt-encrypt toy toy_laws layer layer hello layer-InSync (omega arith) (omega arith)
      (omega arith)

-- The first five bytes of the record of `hello`, and the others.
abbrev first : List ℕ
first = 0 ∷ 32 ∷ 11 ∷ 14 ∷ 99 ∷ []

abbrev block_1 : List ℕ
block_1 = 11 ∷ 14 ∷ 99 ∷ 110 ∷ 103 ∷ 103 ∷ 100 ∷ 11 ∷ 11 ∷ 11 ∷ 11 ∷ 11 ∷ 27 ∷ 18 ∷ 12 ∷ 12 ∷ []

abbrev block_2 : List ℕ
block_2 = 5 ∷ 0 ∷ 109 ∷ 96 ∷ 105 ∷ 105 ∷ 106 ∷ 5 ∷ 5 ∷ 5 ∷ 5 ∷ 5 ∷ 21 ∷ 28 ∷ 2 ∷ 2 ∷ []

abbrev second : List ℕ
second = drop 3 block_1 ++ block_2

abbrev sender' : RecordLayer
sender' = record layer { enc_iv = block_2; enc_seq = 1 }

abbrev receiver' : RecordLayer
receiver' = record layer { dec_iv = block_2; dec_seq = 1 }

encrypt-hello : encrypt toy layer hello ≡ (ok (first ++ second), sender')
unfolding encrypt encrypt_record sealed framed encrypt_blocks xor_block toy_sha1 sum
encrypt-hello = refl

drain_records-encrypt_all_example :
    (wire : List ℕ) × (s' : RecordLayer) × (r' : RecordLayer) × (encrypt_all toy layer
        (hello ∷ [] ∷ [])
      ≡ (ok wire, s'))
    × (drain_records toy layer (wire ++ (0 ∷ [])) ≡ (ok (hello ∷ [] ∷ []), r', 0 ∷ []))
    × InSync toy toy_laws s' r'
drain_records-encrypt_all_example =
    drain_records-encrypt_all toy toy_laws (hello ∷ [] ∷ []) layer layer (0 ∷ []) layer-InSync
      (omega arith) (omega arith) (inl (omega arith))

-- A record with one byte changed.
abbrev corrupt : List ℕ
corrupt = 12 ∷ drop 1 block_1 ++ block_2

corrupt_refused : is_ok (decrypt toy layer corrupt).0 ≡ false
unfolding decrypt verify decrypt_blocks xor_block toy_sha1 sum same
corrupt_refused = refl

acceptable-corrupt : acceptable toy layer corrupt ≡ true
unfolding acceptable
acceptable-corrupt = refl

decrypt_failure_closes_example :
    let after = (decrypt toy layer corrupt).1 in
    let calls = receive block_1 ∷ send hello ∷ [] in
    (after.failed ≡ true)
    × (none_ok toy (run toy after calls).0 ≡ true)
    × ((run toy after calls).1 ≡ after)
decrypt_failure_closes_example =
    decrypt_failure_closes toy layer corrupt (receive block_1 ∷ send hello ∷ []) acceptable-corrupt
      corrupt_refused

decrypt-hello : (decrypt toy layer (block_1 ++ block_2)).0 ≡ ok hello
unfolding decrypt verify decrypt_blocks xor_block toy_sha1 sum same
decrypt-hello = refl

encrypt_outcome_example :
    let after = (encrypt toy layer hello).1 in
    ((is_ok (encrypt toy layer hello).0 ≡ false) × (after ≡ layer))
    ⊎ ((is_ok (encrypt toy layer hello).0 ≡ true)
        × (false ≡ false)
        × (5 ≤ 65498)
        × (after.enc_seq ≡ 1)
        × (after.enc_seq ≤ u32_max)
        × (after.failed ≡ false)
        × (after.dec_seq ≡ 0)
        × (after.dec_iv ≡ iv))
encrypt_outcome_example = encrypt_outcome toy layer hello
