-- ===== src/Outbound/Conserve.antt =====
-- control_io.rs: the queue loses, repeats and reorders no byte, whatever the writer does.
use macvnc.Base.{
  ℕ, ◌+◌, ◌-◌, ◌*◌, ◌<◌, ◌≤◌, ◌≡◌, refl, ap, ◌∙◌, List, [], ◌∷◌, ◌++◌, append_assoc, append-nil,
  arith, length, take, drop, All, Bool-cases, ◌==◌, inl, inr, length-append, length-take,
  length-drop, take-append-drop, drop-append_le, drop-drop, drop_of_length-le,
}
use macvnc.Outbound.{Outbound, advance}

unfoldable pub flat : List (List ℕ) → List ℕ
flat [] = []
flat (r ∷ rs) = r ++ flat rs

pub flat-append : (rs : List (List ℕ)) (wire : List ℕ) → flat (rs ++ (wire ∷ [])) ≡ flat rs ++ wire
unfolding flat
flat-append [] wire = append-nil wire
flat-append (r ∷ rs) wire = rw (flat-append rs wire, append_assoc)

-- The bytes that are still to be sent, in order.
unfoldable pub queued : Outbound → List ℕ
queued o = drop o.offset (flat o.records)

-- The record in front is not yet sent to its end, and no record is empty.
abbrev pub IsStarted : List (List ℕ) → ℕ → Type 0
IsStarted [] offset = offset ≡ 0
IsStarted (front ∷ rest) offset = (offset < length front) × All (λ (r : List ℕ). 0 < length r) rest

pub record IsValid (o : Outbound) : Type 0 where
  pub started : IsStarted o.records o.offset
  pub counted : o.bytes ≡ length (queued o)
  pub capped : o.bytes ≤ 512 * 1024

next-IsStarted : (rest : List (List ℕ)) → All (λ (r : List ℕ). 0 < length r) rest → IsStarted rest 0
next-IsStarted [] h = refl
next-IsStarted (r ∷ rest) h = h

-- A round that sends `n` bytes of the record in front.
module _ (o : Outbound) (front : List ℕ) (rest : List (List ℕ)) (n : ℕ)
    (e : o.records ≡ front ∷ rest) (v : IsValid o) (n_pos : 0 < n)
    (n_le : n ≤ length front - o.offset) where
  started : (o.offset < length front) × All (λ (r : List ℕ). 0 < length r) rest
  started = rw e at v.started

  queued_after : queued (advance o front rest n) ≡ drop n (drop o.offset front) ++ flat rest
  unfolding queued advance flat
  queued_after =
      let cut = drop-drop o.offset n front in
      let within = drop-append_le (o.offset + n) front (flat rest) (omega (arith, started)) in
      elim (Bool-cases (o.offset + n == length front)) [
        | inl done ↦ rw done (rw (cut, drop_of_length-le (o.offset + n) front (ground arith)) refl)
        | inr more ↦ rw more (within ∙ rw cut)
      ]

  queued_before : queued o ≡ drop o.offset front ++ flat rest
  unfolding queued flat
  queued_before = rw e (drop-append_le o.offset front (flat rest) (omega (arith, started)))

  -- What is queued begins with those bytes, and goes on with what is queued after the round.
  pub queued-advance : queued o ≡ take n (drop o.offset front) ++ queued (advance o front rest n)
  queued-advance = rw (
    queued_before,
    queued_after,
    ← append_assoc (take n (drop o.offset front)) (drop n (drop o.offset front)) (flat rest),
    take-append-drop n (drop o.offset front),
  )

  IsStarted-after : IsStarted (advance o front rest n).records (advance o front rest n).offset
  unfolding advance
  IsStarted-after = elim (Bool-cases (o.offset + n == length front)) [
    | inl done ↦ rw done (next-IsStarted rest started.1)
    | inr more ↦ rw more (ground (arith, started.0), started.1)
  ]

  fewer : (advance o front rest n).bytes ≡ o.bytes - n
  unfolding advance
  fewer = ground arith

  pub advance-IsValid : IsValid (advance o front rest n)
  advance-IsValid = record {
    started = IsStarted-after;
    counted = omega (
      arith,
      fewer,
      v.counted,
      ap length queued-advance,
      length-append (take n (drop o.offset front)) (queued (advance o front rest n)),
      length-take n (drop o.offset front),
      length-drop o.offset front,
    );
    capped = omega (arith, fewer, v.capped);
  }
