-- ===== src/Record/Drain.antt =====
-- record.rs: `drain_records` against a relation that says which records stand in a buffer.
use macvnc.Base.{
  ℕ, zero, suc, ◌+◌, ◌%◌, ◌<◌, ◌≤◌, ◌≡◌, refl, sym, ◌∙◌, List, [], ◌∷◌, ◌⊎◌, inl, inr, ◌++◌,
  append_assoc, append-nil, false, arith, length, take, drop, length-drop, u16_at, Result, ok, err,
  Bool-cases, ltb, leb, ◌==◌, ◌&&◌,
}
use Prim.Native.String.{String}
use macvnc.Record.{Crypto, RecordLayer, decrypt, drain_loop, drain_records}

-- A buffer that holds no whole record: no length field yet, or an acceptable one with too few
-- bytes behind it.
abbrev pub IsIncomplete : List ℕ → Type 0
IsIncomplete rest =
    (length rest < 2)
    ⊎ ((2 ≤ length rest)
        × (32 ≤ u16_at rest 0)
        × (u16_at rest 0 % 16 ≡ 0)
        × (length rest < 2 + u16_at rest 0))

-- A buffer that begins with a whole record of an acceptable length.
abbrev pub HasRecord : List ℕ → Type 0
HasRecord rest = (32 ≤ u16_at rest 0) × (u16_at rest 0 % 16 ≡ 0) × (2 + u16_at rest 0 ≤ length rest)

module _ (c : Crypto) where
  -- `Drains r rest out r' rest'`: from `rest` the layer `r` decrypts, one after the other, the
  -- records whose bodies are `out`; it is then `r'`, and `rest'` is left, without a whole record.
  pub data Drains : RecordLayer → List ℕ → List (List ℕ) → RecordLayer → List ℕ → Type 0 where
    stop : {r : RecordLayer} {rest : List ℕ} → IsIncomplete rest → Drains r rest [] r rest
    next :
        {r r' r'' : RecordLayer} {rest rest' body : List ℕ} {out : List (List ℕ)}
        → HasRecord rest
        → decrypt c r (take (u16_at rest 0) (drop 2 rest)) ≡ (ok body, r')
        → Drains r' (drop (2 + u16_at rest 0) rest) out r'' rest'
        → Drains r rest (body ∷ out) r'' rest'

  -- Enough fuel: the loop finds every record that the relation finds.
  drain_loop_complete :
      (fuel : ℕ) {r r' : RecordLayer} {rest rest' : List ℕ} {out : List (List ℕ)}
      → (acc : List (List ℕ)) → length rest ≤ fuel
      → Drains r rest out r' rest'
      → drain_loop c fuel r rest acc ≡ (ok (acc ++ out, rest'), r')
  unfolding drain_loop
  drain_loop_complete zero acc h (stop i) = rw append-nil
  drain_loop_complete zero acc h (next w d more) = absurd (omega arith)
  drain_loop_complete (suc fuel) acc h (stop i) = ground (arith, append-nil acc)
  drain_loop_complete (suc fuel) {rest = rest} acc h (next {body = body} {out = out} w d more) =
      ground (
        arith,
        d,
        append_assoc acc (body ∷ []) out,
        drain_loop_complete fuel (acc ++ (body ∷ []))
            (omega (arith, length-drop (2 + u16_at rest 0) rest)) more,
      )

  -- `drain_records` takes the records of the relation, and leaves the rest in the buffer.
  pub drain_records_complete :
      {r r' : RecordLayer} {pending rest : List ℕ} {out : List (List ℕ)}
      → Drains r pending out r' rest
      → drain_records c r pending ≡ (ok out, r', rest)
  unfolding drain_records
  drain_records_complete {pending = pending} d =
      ground (arith, drain_loop_complete (length pending) [] (omega arith) d)

  -- The three shapes of a buffer, and one round of the loop on each.
  abbrev IsBad : List ℕ → Type 0
  IsBad rest = (2 ≤ length rest) × ((leb 32 (u16_at rest 0) && u16_at rest 0 % 16 == 0) ≡ false)

  buffer_cases : (rest : List ℕ) → IsIncomplete rest ⊎ (HasRecord rest ⊎ IsBad rest)
  buffer_cases rest = elim (Bool-cases (leb 2 (length rest))) [
    | inr short ↦ inl (inl (ground arith))
    | inl long ↦ elim (Bool-cases (leb 32 (u16_at rest 0) && u16_at rest 0 % 16 == 0)) [
      | inr bad ↦ inr (inr (ground arith, bad))
      | inl good ↦ elim (Bool-cases (ltb (length rest) (2 + u16_at rest 0))) [
        | inl part ↦ inl (inr (ground arith, ground arith, ground arith, ground arith))
        | inr whole ↦ inr (inl (ground arith, ground arith, ground arith))
      ]
    ]
  ]

  module _ (fuel : ℕ) (r : RecordLayer) (rest : List ℕ) (acc : List (List ℕ)) where
    round-incomplete : IsIncomplete rest → drain_loop c (suc fuel) r rest acc ≡ (ok (acc, rest), r)
    unfolding drain_loop
    round-incomplete i = ground arith

    round-bad :
        IsBad rest → drain_loop c (suc fuel) r rest acc ≡ (err "invalid control record length", r)
    unfolding drain_loop
    round-bad b = ground arith

    round-ok :
        {body : List ℕ} {r' : RecordLayer}
        → HasRecord rest
        → decrypt c r (take (u16_at rest 0) (drop 2 rest)) ≡ (ok body, r')
        → drain_loop c (suc fuel) r rest acc
          ≡ drain_loop c fuel r' (drop (2 + u16_at rest 0) rest) (acc ++ (body ∷ []))
    unfolding drain_loop
    round-ok w d = ground (arith, d)

    round-err :
        {e : String} {r' : RecordLayer}
        → HasRecord rest
        → decrypt c r (take (u16_at rest 0) (drop 2 rest)) ≡ (err e, r')
        → drain_loop c (suc fuel) r rest acc ≡ (err e, r')
    unfolding drain_loop
    round-err w d = ground (arith, d)

  decrypt_cases :
      (r : RecordLayer) (ct : List ℕ)
      → ((p : List ℕ × RecordLayer) × (decrypt c r ct ≡ (ok p.0, p.1)))
        ⊎ ((p : String × RecordLayer) × (decrypt c r ct ≡ (err p.0, p.1)))
  decrypt_cases r ct = go (decrypt c r ct).0 (decrypt c r ct).1 refl
    where
      go :
          (x : Result (List ℕ)) (r' : RecordLayer)
          → decrypt c r ct ≡ (x, r')
          → ((p : List ℕ × RecordLayer) × (decrypt c r ct ≡ (ok p.0, p.1)))
            ⊎ ((p : String × RecordLayer) × (decrypt c r ct ≡ (err p.0, p.1)))
      go (ok body) r' e = inl ((body, r'), e)
      go (err m) r' e = inr ((m, r'), e)

  -- What a run that succeeds has found, from the accumulator `acc` on.
  abbrev Found :
      RecordLayer → List ℕ → List (List ℕ) → List (List ℕ) → List ℕ → RecordLayer → Type 0
  Found r rest acc all rest' r' =
      (out : List (List ℕ)) × (all ≡ acc ++ out) × Drains r rest out r' rest'

  Found-stop :
      {r r' : RecordLayer} {rest rest' : List ℕ} {acc all : List (List ℕ)}
      → IsIncomplete rest
      → acc ≡ all
      → rest ≡ rest'
      → r ≡ r'
      → Found r rest acc all rest' r'
  Found-stop {r} {r'} {rest} {rest'} {acc} {all} i ea er el =
      ([], rw append-nil (sym ea), rw (← er, ← el) (stop i))

  drain_loop_sound :
      (fuel : ℕ) (r r' : RecordLayer) (rest rest' : List ℕ) (acc all : List (List ℕ))
      → length rest ≤ fuel
      → drain_loop c fuel r rest acc ≡ (ok (all, rest'), r')
      → Found r rest acc all rest' r'
  drain_loop_sound zero r r' rest rest' acc all h e =
      unfold drain_loop in Found-stop (inl (omega arith)) (cc) (cc) (cc)
  drain_loop_sound (suc fuel) r r' rest rest' acc all h e = elim (buffer_cases rest) [
    | inl i ↦
        let s = round-incomplete fuel r rest acc i in
        Found-stop i (cc (s, e)) (cc (s, e)) (cc (s, e))
    | inr (inr b) ↦ cc (round-bad fuel r rest acc b, e)
    | inr (inl w) ↦ elim (decrypt_cases r (take (u16_at rest 0) (drop 2 rest))) [
      | inr ((m, r''), d) ↦ cc (round-err fuel r rest acc w d, e)
      | inl ((body, r''), d) ↦
          let (out, e', more) =
            drain_loop_sound fuel r'' r' (drop (2 + u16_at rest 0) rest) rest' (acc ++ (body ∷ []))
              all (omega (arith, length-drop (2 + u16_at rest 0) rest))
              (sym (round-ok fuel r rest acc w d) ∙ e) in
          (body ∷ out, e' ∙ append_assoc acc (body ∷ []) out, next w d more)
    ]
  ]

  drain_records-ok :
      (r : RecordLayer) {r' : RecordLayer} (pending : List ℕ) {rest : List ℕ} {out : List (List ℕ)}
      → drain_records c r pending ≡ (ok out, r', rest)
      → drain_loop c (length pending) r pending [] ≡ (ok (out, rest), r')
  unfolding drain_records
  drain_records-ok r pending e = ground arith

  -- A call of `drain_records` that succeeds took exactly the records of the relation, in order, and
  -- left what the relation leaves.
  pub drain_records_sound :
      (r r' : RecordLayer) (pending rest : List ℕ) (out : List (List ℕ))
      → drain_records c r pending ≡ (ok out, r', rest)
      → Drains r pending out r' rest
  drain_records_sound r r' pending rest out e =
      let (out', e', d) =
        drain_loop_sound (length pending) r r' pending rest [] out (omega arith)
          (drain_records-ok r pending e) in
      rw e' d
