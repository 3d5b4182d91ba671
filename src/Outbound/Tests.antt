-- ===== src/Outbound/Tests.antt =====
-- control_io.rs: a writer that takes three bytes at a time, and the theorems at concrete inputs.
use macvnc.Base.{
  ℕ, ltb, ◌*◌, ◌≤◌, ◌≡◌, refl, sym, append-nil, List, [], ◌∷◌, ◌++◌, none, some, ok, arith, length,
  take, if◌then◌else◌,
}
use macvnc.Outbound.{Outbound, Outcome, wrote, would_block, advance, flush_loop, flush}
use macvnc.Outbound.Conserve.{IsValid, queued, flat}
use macvnc.Outbound.Flush.{WriterLaws, accepted, Flushed, flush-Flushed}
use macvnc.Outbound.History.{enqueue, drain, run, run_history}

-- The writer keeps what it has taken, a byte at a time; it blocks when it has two bytes.
slow : List ℕ → List ℕ → Outcome × List ℕ
slow w [] = (wrote 0, w)
slow w (b ∷ buf) = if ltb 1 (length w) then (would_block 5 6, w) else (wrote 1, w ++ (b ∷ []))

slow_laws : WriterLaws slow (λ w. w)
slow_laws = record { took_part = part; took_front = front }
  where
    part : (w buf : List ℕ) → accepted (slow w buf).0 ≤ length buf
    part w [] = unfold slow in omega arith
    part w (b ∷ buf) = unfold slow in ground arith

    front : (w buf : List ℕ) → (slow w buf).1 ≡ w ++ take (accepted (slow w buf).0) buf
    front w [] = unfold slow in sym (append-nil w)
    front w (b ∷ buf) = unfold slow in ground (arith, append-nil w)

abbrev two_records : Outbound
two_records = record {
  records = (1 ∷ 2 ∷ []) ∷ (3 ∷ []) ∷ [];
  offset = 1;
  bytes = 2;
  stalled_since = none;
}

two_records-IsValid : IsValid two_records
unfolding queued flat
two_records-IsValid = omega arith

flush-two_records : flush slow two_records (1 ∷ []) ≡ (
  ok tt,
  record { records = (3 ∷ []) ∷ []; offset = 0; bytes = 1; stalled_since = some 5 },
  1 ∷ 2 ∷ [],
)
unfolding flush flush_loop advance slow
flush-two_records = refl

flush-Flushed_example :
    Flushed slow
      (λ w. w)
      slow_laws
      (64 * 1024)
      two_records
      (1 ∷ [])
      (flush slow two_records (1 ∷ []))
flush-Flushed_example =
    flush-Flushed slow (λ w. w) slow_laws two_records (1 ∷ []) two_records-IsValid

run_history_example :
    let (o', w', taken) =
      run slow (λ w. w) slow_laws two_records (1 ∷ []) (enqueue (4 ∷ []) ∷ drain ∷ drain ∷ []) in
    IsValid o' × (w' ++ queued o' ≡ ((1 ∷ []) ++ queued two_records) ++ taken)
run_history_example =
    run_history slow (λ w. w) slow_laws (enqueue (4 ∷ []) ∷ drain ∷ drain ∷ []) two_records (1 ∷ [])
      two_records-IsValid (omega arith)
