-- ===== src/Transfer.antt =====
-- rust/crates/macvnc-app/src/transfer.rs: the worker that moves one file, beside the session. Other
-- threads, the clock, the channels and the disk answer each call of the worker: the answers stand in
-- a script in the worker's state (`World`), and the file system is a parameter.
pub mod Worker
mod Tests
pub mod Files
pub mod Effects
pub mod Upload
pub mod Download
pub mod RoundTrip
pub mod Session
use macvnc.Base.{ℕ, Bool, true, false, List, Option, none, ◌==◌, if◌then◌else◌}
use macvnc.FileTransfer.{Message}
use Prim.Native.String.{String}

-- The text of `status`; `stopped` is the message of an error and whether the transfer had started.
pub data Status : Type 0 where
  idle : Status
  text : String → Status
  stopped : String → Bool → Status

pub record Snapshot : Type 0 where
  pub busy : Bool
  pub bytes : ℕ
  pub total : Option ℕ
  pub status : Status

-- `Shared`, where `route` is the generation of the session whose worker the channel leads to, and
-- `cancel` the number of the token.
pub record Shared : Type 0 where
  pub generation : ℕ
  pub route : Option ℕ
  pub cancel : Option ℕ
  pub snapshot : Snapshot

unfoldable pub update : ℕ → (Snapshot → Snapshot) → Shared → Shared
update generation f shared =
    if shared.generation == generation
    then record shared { snapshot = f shared.snapshot }
    else shared

-- How `try_send` ends.
pub data Sending : Type 0 where
  taken : Sending
  full : Sending
  gone : Sending

-- One round of the loop of `send`: what `check` finds, how `try_send` ends, and whether 15 seconds
-- have passed.
pub record Attempt : Type 0 where
  pub stop : Bool
  pub answer : Sending
  pub late : Bool

-- How `recv_timeout` ends.
pub data Receiving : Type 0 where
  arrived : Message → Receiving
  nothing_yet : Receiving
  closed : Receiving

-- One round of the loop of `receive`.
pub record Round : Type 0 where
  pub stop : Bool
  pub late : Bool
  pub answer : Receiving

-- What the worker's calls read and change. `checks` are the results of the calls of `check` outside of
-- the loops, `sent` what the outgoing channel has taken, `staged` the temporary file, and `published`
-- the file at the destination.
pub record World : Type 0 where
  pub checks : List Bool
  pub attempts : List Attempt
  pub rounds : List Round
  pub sent : List (List ℕ)
  pub staged : List ℕ
  pub published : Option (List ℕ)
  pub shared : Shared
