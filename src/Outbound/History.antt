-- ===== src/Outbound/History.antt =====
-- control_io.rs: the records of a whole session go out in the order in which they were accepted.
use macvnc.Base.{
  ℕ, ◌+◌, ◌*◌, ◌<◌, ◌≤◌, ◌≡◌, refl, sym, ap, ◌∙◌, List, [], ◌∷◌, ◌++◌, append_assoc, append-nil,
  is_ok, arith, length, All, Bool-cases, inl, inr, leb, if◌then◌else◌, length-append,
  drop-append_le,
}
use macvnc.Outbound.{Outbound, Outcome, push, flush}
use macvnc.Outbound.Conserve.{queued, IsStarted, IsValid, flat, flat-append}
use macvnc.Outbound.Flush.{WriterLaws, flush-Flushed}

All-snoc :
    (rs : List (List ℕ)) (wire : List ℕ)
    → All (λ (r : List ℕ). 0 < length r) rs
    → 0 < length wire
    → All (λ (r : List ℕ). 0 < length r) (rs ++ (wire ∷ []))
All-snoc [] wire h k = (k, tt)
All-snoc (r ∷ rs) wire h k = (h.0, All-snoc rs wire h.1 k)

IsStarted-snoc :
    (rs : List (List ℕ)) (wire : List ℕ) (offset : ℕ)
    → IsStarted rs offset
    → 0 < length wire
    → IsStarted (rs ++ (wire ∷ [])) offset
IsStarted-snoc [] wire offset h k = (omega arith, tt)
IsStarted-snoc (r ∷ rs) wire offset h k = (h.0, All-snoc rs wire h.1 k)

offset-le : (rs : List (List ℕ)) (offset : ℕ) → IsStarted rs offset → offset ≤ length (flat rs)
unfolding flat
offset-le [] offset h = omega arith
offset-le (r ∷ rs) offset h = omega (arith, length-append r (flat rs), h.0)

-- A record that `push` accepts stands behind all that is queued, and the queue stays valid; one
-- that it refuses changes nothing.
pub push_lem :
    (o : Outbound) (wire : List ℕ)
    → IsValid o
    → 0 < length wire
    → let (result, o') = push o wire in
      IsValid o' × (queued o' ≡ (if is_ok result then queued o ++ wire else queued o))
unfolding push
push_lem o wire v h = elim (Bool-cases (leb (o.bytes + length wire) (512 * 1024))) [
  | inr full ↦ rw full (v, refl)
  | inl room ↦
      let o' = record o { bytes = o.bytes + length wire; records = o.records ++ (wire ∷ []) } in
      let grown : queued o' ≡ queued o ++ wire =
        unfold queued in
        rw (flat-append o.records wire) (
          drop-append_le o.offset (flat o.records) wire (offset-le o.records o.offset v.started)) in
      rw room (
        record {
          started = IsStarted-snoc o.records wire o.offset v.started h;
          counted = omega (arith, v.counted, ap length grown, length-append (queued o) wire);
          capped = ground arith;
        },
        grown,
      )
]

-- A call on the queue.
pub data Call : Type 0 where
  enqueue : List ℕ → Call
  drain : Call

abbrev pub IsCall : Call → Type 0
IsCall (enqueue wire) = 0 < length wire
IsCall drain = Unit {0}

module _ {W : Type 0} (write : W → List ℕ → Outcome × W) (sent : W → List ℕ)
    (laws : WriterLaws write sent) where
  -- The queue and the writer after the calls, whose errors are passed over, and the records that
  -- `push` accepted, end to end.
  pub run : Outbound → W → List Call → Outbound × W × List ℕ
  run o w [] = (o, w, [])
  run o w (enqueue wire ∷ calls) =
      let (result, o') = push o wire in
      let (last, w', taken) = run o' w calls in
      (last, w', if is_ok result then wire ++ taken else taken)
  run o w (drain ∷ calls) = let (result, o', w') = flush write o w in run o' w' calls

  -- From a valid queue, after any sequence of calls with records that are not empty, whatever the
  -- writer answers: the queue is valid, and what was sent, followed by what is queued, is what was
  -- sent and queued before, followed by the accepted records in the order of the calls.
  pub run_history :
      (calls : List Call) (o : Outbound) (w : W)
      → IsValid o
      → All IsCall calls
      → let (o', w', taken) = run o w calls in
        IsValid o' × (sent w' ++ queued o' ≡ (sent w ++ queued o) ++ taken)
  unfolding run
  run_history [] o w v h = (v, sym (append-nil (sent w ++ queued o)))
  run_history (enqueue wire ∷ calls) o w v h =
      let (v', q) = push_lem o wire v h.0 in
      let (v'', ih) = run_history calls (push o wire).1 w v' h.1 in
      (
        v'',
        ih ∙ elim (Bool-cases (is_ok (push o wire).0)) [
          | inl accepted ↦ rw (q, accepted) (simp append_assoc)
          | inr refused ↦ rw (q, refused)
        ],
      )
  run_history (drain ∷ calls) o w v h =
      let f = flush-Flushed write sent laws o w v in
      let (v', ih) = run_history calls (flush write o w).1 (flush write o w).2 f.valid h.1 in
      (v', ih ∙ rw f.conserved)
