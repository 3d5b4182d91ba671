-- ===== src/FileTransfer.antt =====
-- rust/crates/hp-protocol/src/file_transfer.rs: the file messages on the control channel.
pub mod Stream
pub mod Encode
pub mod Feed
pub mod Names
mod Tests
use macvnc.Base.{
  ℕ, zero, suc, ◌+◌, ◌-◌, ◌*◌, ◌/◌, ◌%◌, ◌^◌, Bool, true, false, not, ◌&&◌, ◌||◌, List, [], ◌∷◌,
  ◌++◌, Option, none, some, Result, ok, err, ensure, ◌>>=◌, ◌>>◌, ltb, leb, ◌==◌, if◌then◌else◌,
  length, take, drop, get_or, replicate, be16, be32, u16, u32, u16_at, u32_at,
}

abbrev pub chunk_bytes : ℕ
chunk_bytes = 32 * 1024

abbrev pub max_message_bytes : ℕ
max_message_bytes = 1024 * 1024

abbrev pub max_file_bytes : ℕ
max_file_bytes = 2 ^ 32 - 1

abbrev pub item_info : ℕ
item_info = 100

abbrev pub new_item : ℕ
new_item = 101

abbrev pub data_kind : ℕ
data_kind = 102

abbrev pub end_kind : ℕ
end_kind = 104

pub record Message : Type 0 where
  pub kind : ℕ
  pub session : ℕ
  pub argument : ℕ
  pub payload : List ℕ

unfoldable pub message : ℕ → ℕ → ℕ → ℕ → List ℕ → Result (List ℕ)
message subtype kind session argument bytes = do
  ensure (not (session == 0)) "invalid transfer ID"
  ensure (leb (length bytes) (65498 - 18)) "file message exceeds control record limit"
  ok (
      0x22 ∷ subtype ∷ be32 (12 + u32 (length bytes))
      ++ (be16 1 ++ (be16 kind ++ (be32 session ++ (be32 argument ++ bytes)))))

-- `data`
unfoldable pub chunk : ℕ → List ℕ → Result (List ℕ)
chunk session bytes = do
  ensure (leb (length bytes) chunk_bytes) "file chunk exceeds limit"
  message 0 data_kind session (u32 (length bytes)) bytes

-- `end`
unfoldable pub end : ℕ → Result (List ℕ)
end session = message 0 end_kind session 0 []

-- `Decoder`
pub record Decoder : Type 0 where
  pub pending : List ℕ

unfoldable pub is_empty {ℓ} : {A : Type ℓ} → List A → Bool
is_empty [] = true
is_empty (x ∷ xs) = false

pub is_pending : Decoder → Bool
is_pending d = not (is_empty d.pending)

-- The message whose 18 header bytes and `6 + len - 18` payload bytes stand at the front of `rest`.
unfoldable pub message_at : List ℕ → ℕ → Message
message_at rest len = record {
  kind = u16_at rest 8;
  session = u32_at rest 10;
  argument = u32_at rest 14;
  payload = drop 18 (take (6 + len) rest);
}

-- What the loop of `feed` returns: the messages, the other control data, and `pending` after it.
abbrev pub Fed : Type 0
Fed = List Message × Option (List ℕ) × List ℕ

-- The loop of `feed`; `rest` is `self.pending[used..]`. A round that goes on takes 18 bytes at
-- least, so `length rest` rounds are enough: the fuel is used up only when `rest` is empty.
unfoldable pub feed_loop : ℕ → List ℕ → List Message → Result Fed
feed_loop zero rest messages = ok (messages, none, rest)
feed_loop (suc fuel) rest messages =
    let len = u32_at rest 2 in
    let more = feed_loop fuel (drop (6 + len) rest) (messages ++ (message_at rest len ∷ [])) in
    if is_empty rest
    then ok (messages, none, [])
    else if not (get_or rest 0 0 == 0x22)
    then ok (messages, some rest, [])
    else if ltb (length rest) 6
    then ok (messages, none, rest)
    else if not (get_or rest 1 0 == 0 || get_or rest 1 0 == 2)
    then err "unsupported file message subtype"
    else if not (leb 12 len && leb len (max_message_bytes - 6))
    then err "invalid file message length"
    else if ltb (length rest) (6 + len)
    then ok (messages, none, rest)
    else if not (u16_at rest 6 == 1)
    then err "unsupported file message version"
    else more

-- An error inside the loop leaves `pending` with the new bytes behind the old.
unfoldable pub feed : Decoder → List ℕ → Result (List Message × Option (List ℕ)) × Decoder
feed d body =
    let all = d.pending ++ body in
    if is_empty d.pending && not (get_or body 0 0 == 0x22)
    then (ok ([], some body), d)
    else if not (leb (length d.pending + length body) (max_message_bytes + 65520))
    then (err "file message backlog too large", d)
    else elim (feed_loop (length all) all []) [
      | ok (messages, other, left) ↦ (ok (messages, other), record { pending = left })
      | err e ↦ (err e, record { pending = all })
    ]
