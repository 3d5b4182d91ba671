-- ===== src/Outbound.antt =====
-- rust/crates/hp-protocol/src/control_io.rs: the queue of encrypted records on their way out.
-- The writer is the caller's: a parameter, with the clock readings that it costs in its outcomes.
pub mod Conserve
pub mod Flush
pub mod History
mod Tests
use macvnc.Base.{
  ℕ, zero, suc, ◌+◌, ◌-◌, ◌*◌, Bool, true, false, not, List, [], ◌∷◌, ◌++◌, Option, none, some,
  Result, ok, err, ltb, leb, ◌==◌, if◌then◌else◌, length, take, drop, min,
}
use Prim.Native.String.{String}

-- What `write` returns: a count of bytes, or an error. Where it would block, the outcome has the
-- two readings of the clock that `flush` makes then, in milliseconds.
pub data Outcome : Type 0 where
  wrote : ℕ → Outcome
  would_block : ℕ → ℕ → Outcome
  interrupted : Outcome
  failed : String → Outcome

pub record Outbound : Type 0 where
  pub records : List (List ℕ)
  pub offset : ℕ
  pub bytes : ℕ
  pub stalled_since : Option ℕ

-- `Outbound::default()`
pub empty : Outbound
empty = record { records = []; offset = 0; bytes = 0; stalled_since = none }

pub push : Outbound → List ℕ → Result (Unit {0}) × Outbound
push o wire =
    if not (leb (o.bytes + length wire) (512 * 1024))
    then (err "control output backlog exceeded limit", o)
    else (ok tt, record o { bytes = o.bytes + length wire; records = o.records ++ (wire ∷ []) })

-- `self.stalled_since.get_or_insert_with(Instant::now)`
abbrev pub stall_start : Option ℕ → ℕ → ℕ
stall_start since now = elim since [ none ↦ now | some began ↦ began ]

-- The part of the round behind a write of `n` bytes of the record in front.
pub advance : Outbound → List ℕ → List (List ℕ) → ℕ → Outbound
advance o front rest n =
    if o.offset + n == length front
    then record { records = rest; offset = 0; bytes = o.bytes - n; stalled_since = none }
    else record {
      records = front ∷ rest;
      offset = o.offset + n;
      bytes = o.bytes - n;
      stalled_since = none;
    }

module _ {W : Type 0} (write : W → List ℕ → Outcome × W) where
  -- The loop of `flush`, by the attempts that are left.
  pub flush_loop : ℕ → ℕ → Outbound → W → Result (Unit {0}) × Outbound × W
  flush_loop zero budget o w = (ok tt, o, w)
  flush_loop (suc attempts) budget o w = elim o.records [
    | [] ↦ (ok tt, o, w)
    | front ∷ rest ↦
        let (outcome, w') =
          write w (take (min budget (length front - o.offset)) (drop o.offset front)) in
        elim outcome [
          | wrote zero ↦ (err "Mac closed the HP control writer", o, w')
          | wrote (suc k) ↦
              let o' = advance o front rest (suc k) in
              elim (budget - suc k == 0) [
                | true ↦ (ok tt, o', w')
                | false ↦ flush_loop attempts (budget - suc k) o' w'
              ]
          | would_block first second ↦
              let began = stall_start o.stalled_since first in
              let o' = record o { stalled_since = some began } in
              if ltb (second - began) 3000
              then (ok tt, o', w')
              else (err "HP control writer stalled", o', w')
          | interrupted ↦ flush_loop attempts budget o w'
          | failed e ↦ (err e, o, w')
        ]
  ]

  pub flush : Outbound → W → Result (Unit {0}) × Outbound × W
  flush o w = flush_loop 128 (64 * 1024) o w
