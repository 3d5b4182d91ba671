-- ===== src/Outbound/Flush.antt =====
-- control_io.rs: `flush` loses, repeats and reorders no byte, whatever the writer does.
use macvnc.Base.{
  ℕ, zero, suc, ◌+◌, ◌-◌, ◌*◌, ◌<◌, ◌≤◌, ◌≡◌, ◌⊎◌, refl, sym, ap, subst, ◌∙◌, true, false, List, [],
  ◌∷◌, ◌++◌, append_assoc, append-nil, Option, some, Result, ok, err, arith, length, take, drop,
  Bool-cases, ◌==◌, inl, inr, ltb, if◌then◌else◌, min, length-append, length-take, take-take_le,
}
use macvnc.Outbound.{
  Outbound, Outcome, wrote, would_block, interrupted, failed, advance, flush_loop, flush,
  stall_start,
}
use macvnc.Outbound.Conserve.{queued, IsValid, queued-advance, advance-IsValid}

-- How many bytes an outcome says were taken.
abbrev pub accepted : Outcome → ℕ
accepted (wrote n) = n
accepted _ = 0

-- What `Write::write` promises: it takes a front part of the buffer, as long as it says, and on an
-- error it takes nothing. `sent` is all that the writer has taken.
pub record WriterLaws {W : Type 0} (write : W → List ℕ → Outcome × W) (sent : W → List ℕ)
    : Type 0 where
  pub took_part : (w : W) (buf : List ℕ) → accepted (write w buf).0 ≤ length buf
  pub took_front :
      (w : W) (buf : List ℕ) → sent (write w buf).1 ≡ sent w ++ take (accepted (write w buf).0) buf

module _ {W : Type 0} (write : W → List ℕ → Outcome × W) (sent : W → List ℕ)
    (laws : WriterLaws write sent) where
  -- What a flush from `o` and `w` leaves: a valid queue; the bytes sent and the bytes queued are
  -- together what they were, in order; and no more than the budget was sent.
  pub record Flushed (budget : ℕ) (o : Outbound) (w : W) (out : Result (Unit {0}) × Outbound × W)
      : Type 0 where
    pub valid : IsValid out.1
    pub conserved : sent out.2 ++ queued out.1 ≡ sent w ++ queued o
    pub bounded : length (sent out.2) ≤ length (sent w) + budget

  -- The part of the record in front that a round offers to the writer.
  abbrev offer : ℕ → Outbound → List ℕ → List ℕ
  offer budget o front = take (min budget (length front - o.offset)) (drop o.offset front)

  -- A round on which the writer takes nothing and the queue stays.
  idle :
      (budget : ℕ) (o : Outbound) (w : W) (buf : List ℕ) (stalled : Option ℕ)
      (result : Result (Unit {0}))
      → accepted (write w buf).0 ≡ 0
      → IsValid o
      → Flushed budget o w (result, record o { stalled_since = stalled }, (write w buf).1)
  unfolding queued
  idle budget o w buf stalled result a v =
      let same : sent (write w buf).1 ≡ sent w = laws.took_front w buf ∙ rw (a, append-nil) in
      record {
        valid = record { started = v.started; counted = v.counted; capped = v.capped };
        conserved = rw same;
        bounded = rw same (omega arith);
      }

  idle_before :
      (budget : ℕ) (o : Outbound) (w w' : W) (out : Result (Unit {0}) × Outbound × W)
      → sent w' ≡ sent w
      → Flushed budget o w' out
      → Flushed budget o w out
  idle_before budget o w w' out e f = record {
    valid = f.valid;
    conserved = f.conserved ∙ ap (λ s. s ++ queued o) e;
    bounded = rw e at f.bounded;
  }

  -- A round on which the writer takes `n` bytes of the record in front, and what comes after it.
  module _ (budget n : ℕ) (o : Outbound) (w : W) (front : List ℕ) (rest : List (List ℕ))
      (e : o.records ≡ front ∷ rest) (v : IsValid o) (n_pos : 0 < n)
      (took : accepted (write w (offer budget o front)).0 ≡ n) where
    within : (n ≤ budget) × (n ≤ length front - o.offset)
    within =
        let part = laws.took_part w (offer budget o front) in
        let size = length-take (min budget (length front - o.offset)) (drop o.offset front) in
        omega (arith, part, took, size)

    after_sent : sent (write w (offer budget o front)).1 ≡ sent w ++ take n (drop o.offset front)
    after_sent =
        laws.took_front w (offer budget o front)
        ∙ rw (
          took,
          take-take_le n (min budget (length front - o.offset)) (drop o.offset front)
              (omega (arith, within)),
        )

    followed :
        (out : Result (Unit {0}) × Outbound × W)
        → Flushed (budget - n) (advance o front rest n) (write w (offer budget o front)).1 out
        → Flushed budget o w out
    followed out f =
        let (in_budget, in_front) = within in
        record {
          valid = f.valid;
          conserved =
              f.conserved
              ∙ rw (
                after_sent,
                queued-advance o front rest n e v n_pos in_front,
                append_assoc (sent w),
              );
          bounded = omega (
            arith,
            f.bounded,
            in_budget,
            ap length after_sent,
            length-append (sent w) (take n (drop o.offset front)),
            length-take n (drop o.offset front),
          );
        }

  stay :
      (budget : ℕ) (o : Outbound) (w : W) (result : Result (Unit {0}))
      → IsValid o
      → Flushed budget o w (result, o, w)
  stay budget o w result v = record { valid = v; conserved = refl; bounded = omega arith }

  -- The two shapes of the queue, with the equation.
  records_cases :
      (rs : List (List ℕ)) → (rs ≡ []) ⊎ ((p : List ℕ × List (List ℕ)) × (rs ≡ p.0 ∷ p.1))
  records_cases [] = inl refl
  records_cases (r ∷ rs) = inr ((r, rs), refl)

  reached :
      {budget : ℕ} {o : Outbound} {w : W} {out out' : Result (Unit {0}) × Outbound × W}
      → out ≡ out'
      → Flushed budget o w out'
      → Flushed budget o w out
  reached {budget} {o} {w} e f = subst (λ x. Flushed budget o w x) (sym e) f

  -- One round, by the outcome of the write; the argument `later` is the theorem for the rounds
  -- that follow.
  round :
      (attempts budget : ℕ) (o : Outbound) (w : W) (front : List ℕ) (rest : List (List ℕ))
      → o.records ≡ front ∷ rest
      → IsValid o
      → (x : Outcome) → (write w (offer budget o front)).0 ≡ x
      → ((b : ℕ) (o' : Outbound) (w' : W)
          → IsValid o'
          → Flushed b o' w' (flush_loop write attempts b o' w'))
      → Flushed budget o w (flush_loop write (suc attempts) budget o w)
  unfolding flush_loop
  round attempts budget o w front rest e v (wrote zero) x later = reached (ground (arith, e, x)) (
      idle budget o w buf o.stalled_since (err "Mac closed the HP control writer") (ap accepted x)
        v)
    where
      buf : List ℕ
      buf = offer budget o front
  round attempts budget o w front rest e v (wrote (suc k)) x later =
      reached (ground (arith, e, x))
        (followed budget (suc k) o w front rest e v (omega arith) (ap accepted x) out after)
    where
      o' : Outbound
      o' = advance o front rest (suc k)

      w' : W
      w' = (write w (offer budget o front)).1

      out : Result (Unit {0}) × Outbound × W
      out = elim (budget - suc k == 0) [
        | true ↦ (ok tt, o', w')
        | false ↦ flush_loop write attempts (budget - suc k) o' w'
      ]

      valid : IsValid o'
      valid =
          advance-IsValid o front rest (suc k) e v (omega arith)
            (within budget (suc k) o w front rest e v (omega arith) (ap accepted x)).1

      after : Flushed (budget - suc k) o' w' out
      after = elim (Bool-cases (budget - suc k == 0)) [
        | inl spent ↦ reached (rw spent) (stay (budget - suc k) o' w' (ok tt) valid)
        | inr more ↦ reached (rw more) (later (budget - suc k) o' w' valid)
      ]
  round attempts budget o w front rest e v (would_block first second) x later =
      let began = stall_start o.stalled_since first in
      let result : Result (Unit {0}) =
        if ltb (second - began) 3000 then ok tt else err "HP control writer stalled" in
      reached (ground (arith, e, x))
        (idle budget o w (offer budget o front) (some began) result (ap accepted x) v)
  round attempts budget o w front rest e v interrupted x later =
      let w' = (write w (offer budget o front)).1 in
      let same : sent w' ≡ sent w = laws.took_front w (offer budget o front) ∙ rw (x, append-nil) in
      reached (ground (arith, e, x)) (idle_before budget o w w' _ same (later budget o w' v))
  round attempts budget o w front rest e v (failed m) x later =
      reached (ground (arith, e, x))
        (idle budget o w (offer budget o front) o.stalled_since (err m) (ap accepted x) v)

  flush_loop-Flushed :
      (attempts budget : ℕ) (o : Outbound) (w : W)
      → IsValid o
      → Flushed budget o w (flush_loop write attempts budget o w)
  flush_loop-Flushed zero budget o w v = unfold flush_loop in stay budget o w (ok tt) v
  flush_loop-Flushed (suc attempts) budget o w v = elim (records_cases o.records) [
    | inl e ↦ unfold flush_loop in reached (ground (arith, e)) (stay budget o w (ok tt) v)
    | inr ((front, rest), e) ↦
        round attempts budget o w front rest e v (write w (offer budget o front)).0 refl
          (λ b o' w'. flush_loop-Flushed attempts b o' w')
  ]

  -- From a valid queue, whatever the writer answers, and whether or not `flush` ends with an error:
  -- the queue is valid again, the bytes sent followed by the bytes queued are what they were, and
  -- at most 64 KiB were sent.
  pub flush-Flushed : (o : Outbound) (w : W) → IsValid o → Flushed (64 * 1024) o w (flush write o w)
  flush-Flushed o w v = unfold flush in flush_loop-Flushed 128 (64 * 1024) o w v
