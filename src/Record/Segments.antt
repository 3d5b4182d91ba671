-- ===== src/Record/Segments.antt =====
-- record.rs: the receiving side of a whole conversation, however its bytes are cut.
use macvnc.Base.{
  ℕ, suc, ◌+◌, ◌%◌, ◌≤◌, ◌≡◌, refl, ap, List, [], ◌∷◌, ◌++◌, append_assoc, arith, length, take,
  drop, length-drop, length-append, take-append_le, drop-append_le, take_left, drop_left,
  get_or-append_lt, u16_at, be16, All, IsByte, Result, ok, err,
}
use macvnc.Record.{Crypto, RecordLayer, u32_max, encrypt, decrypt, drain_records}
use macvnc.Record.Cbc.{CryptoLaws}
use macvnc.Record.RoundTrip.{InSync, decrypt-encrypt}
use macvnc.Record.Drain.{IsIncomplete, Drains, stop, next, drain_records_complete}

-- A result beside the state that comes with it.
with_state : {A B : Type 0} {p : A × B} {a : A} → p.0 ≡ a → p ≡ (a, p.1)
with_state {p = p} e = ap (λ x. (x, p.1)) e

module _ (c : Crypto) where
  -- Bytes that arrive later do not change the records that are already whole.
  u16_at-append : (rest more : List ℕ) → 2 ≤ length rest → u16_at (rest ++ more) 0 ≡ u16_at rest 0
  u16_at-append rest more h =
      rw (get_or-append_lt rest more 0 0 (omega arith), get_or-append_lt rest more 1 0 h)

  record-append :
      (rest more : List ℕ) (n : ℕ)
      → 2 + n ≤ length rest
      → (take n (drop 2 (rest ++ more)) ≡ take n (drop 2 rest))
        × (drop (2 + n) (rest ++ more) ≡ drop (2 + n) rest ++ more)
  record-append rest more n h = (
    rw (
      drop-append_le 2 rest more (omega arith),
      take-append_le n (drop 2 rest) more (omega (arith, length-drop 2 rest)),
    ),
    drop-append_le (2 + n) rest more h,
  )

  -- What is drained in two steps, with more bytes in between, is drained in one.
  pub Drains-append :
      {r r1 : RecordLayer} {a rest1 : List ℕ} {out1 : List (List ℕ)} (b : List ℕ) {r2 : RecordLayer}
      {rest2 : List ℕ} {out2 : List (List ℕ)}
      → Drains c r a out1 r1 rest1
      → Drains c r1 (rest1 ++ b) out2 r2 rest2
      → Drains c r (a ++ b) (out1 ++ out2) r2 rest2
  Drains-append b (stop i) e = e
  Drains-append {a = a} b (next {r' = r'} w d more) e =
      let same = u16_at-append a b (omega arith) in
      let cut = record-append a b (u16_at a 0) w.2 in
      next {r' = r'} (ground (arith, same, length-append a b)) (rw (same, cut.0) d)
        (rw (same, cut.1) (Drains-append b more e))

  -- The bodies of a conversation that the format admits.
  abbrev pub IsBody : List ℕ → Type 0
  IsBody body = (length body ≤ 65498) × All IsByte body

  -- The calls of `encrypt` on the bodies in order, and all that they return, end to end.
  pub encrypt_all : RecordLayer → List (List ℕ) → Result (List ℕ) × RecordLayer
  encrypt_all s [] = (ok [], s)
  encrypt_all s (body ∷ bodies) =
      let (first, s') = encrypt c s body in
      let (others, s'') = encrypt_all s' bodies in
      elim first [
        | err e ↦ (err e, s')
        | ok wire ↦ elim others [ err e ↦ (err e, s'') | ok wires ↦ (ok (wire ++ wires), s'') ]
      ]

  encrypt_all-cons :
      (s s' s'' : RecordLayer) (body : List ℕ) (bodies : List (List ℕ)) (wire wires : List ℕ)
      → encrypt c s body ≡ (ok wire, s')
      → encrypt_all s' bodies ≡ (ok wires, s'')
      → encrypt_all s (body ∷ bodies) ≡ (ok (wire ++ wires), s'')
  unfolding encrypt_all
  encrypt_all-cons s s' s'' body bodies wire wires e f = ground (arith, e, f)

  -- The record that stands at the front of a buffer is the first that is drained.
  Drains-front :
      (ct more : List ℕ) {r r' r'' : RecordLayer} {body rest : List ℕ} {out : List (List ℕ)}
      → 32 ≤ length ct
      → length ct ≤ 65520
      → length ct % 16 ≡ 0
      → decrypt c r ct ≡ (ok body, r')
      → Drains c r' more out r'' rest
      → Drains c r ((be16 (length ct) ++ ct) ++ more) (body ∷ out) r'' rest
  Drains-front ct more {r} {r'} {body = body} lo hi blocks d rest =
      let n = u16_at (be16 (length ct) ++ ct) 0 in
      let e : n ≡ length ct = omega arith in
      let two : 2 + n ≡ suc (suc n) = omega arith in
      next {r' = r'} {body = body} (omega arith, omega arith, omega (arith, length-append ct more))
        (rw (take_left n ct more e) d) (rw (two, drop_left n ct more e) rest)

  module _ (laws : CryptoLaws c) where
    -- What becomes of a conversation, with bytes of a later record behind it.
    pub record Conversed (s r : RecordLayer) (bodies : List (List ℕ)) (tail : List ℕ) : Type 0 where
      pub wire : List ℕ
      pub s' : RecordLayer
      pub r' : RecordLayer
      pub sent : encrypt_all s bodies ≡ (ok wire, s')
      pub drained : Drains c r (wire ++ tail) bodies r' tail
      pub synced : InSync c laws s' r'

    pub conversation :
        (bodies : List (List ℕ)) (s r : RecordLayer) (tail : List ℕ)
        → InSync c laws s r
        → s.enc_seq + length bodies ≤ u32_max
        → All IsBody bodies
        → IsIncomplete tail
        → Conversed s r bodies tail
    unfolding encrypt_all
    conversation [] s r tail sync h hb i = record {
      wire = [];
      s' = s;
      r' = r;
      sent = refl;
      drained = stop i;
      synced = sync;
    }
    conversation (body ∷ bodies) s r tail sync h hb i =
        let d = decrypt-encrypt c laws s r body sync (omega arith) hb.0.0 hb.0.1 in
        let s1 = (encrypt c s body).1 in
        let r1 = (decrypt c r d.ct).1 in
        let ih = conversation bodies s1 r1 tail d.synced (omega (arith, d.sender_seq)) hb.1 i in
        record {
          wire = (be16 (length d.ct) ++ d.ct) ++ ih.wire;
          s' = ih.s';
          r' = ih.r';
          sent =
              encrypt_all-cons s s1 ih.s' body bodies _ ih.wire
                (with_state {p = encrypt c s body} d.wire) ih.sent;
          drained = rw (append_assoc (be16 (length d.ct) ++ d.ct) ih.wire tail) (
              Drains-front d.ct (ih.wire ++ tail) d.at_least d.at_most d.whole_blocks
                (with_state {p = decrypt c r d.ct} d.received) ih.drained);
          synced = ih.synced;
        }

    -- Between two ends in step: a conversation of bodies of at most 65498 bytes, with sequence
    -- numbers left for it, is encrypted without an error; `drain_records` on all its bytes, with an
    -- incomplete record behind them, returns the bodies in order and leaves that record in the
    -- buffer; and the two ends are in step again.
    pub drain_records-encrypt_all :
        (bodies : List (List ℕ)) (s r : RecordLayer) (tail : List ℕ)
        → InSync c laws s r
        → s.enc_seq + length bodies ≤ u32_max
        → All IsBody bodies
        → IsIncomplete tail
        → (wire : List ℕ) × (s' : RecordLayer) × (r' : RecordLayer) × (encrypt_all s bodies
            ≡ (ok wire, s'))
          × (drain_records c r (wire ++ tail) ≡ (ok bodies, r', tail))
          × InSync c laws s' r'
    drain_records-encrypt_all bodies s r tail sync h hb i =
        let t = conversation bodies s r tail sync h hb i in
        (t.wire, t.s', t.r', t.sent, drain_records_complete c t.drained, t.synced)
