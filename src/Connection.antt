-- ===== src/Connection.antt =====
-- rust/crates/hp-protocol/src/lib.rs: the operations of `HpConnection` once it stands. The TCP socket
-- is a parameter with a state of its own; each call on it returns its outcome and the state after it.
pub mod Monad
pub mod Limits
mod Tests
use macvnc.Base.{
  ℕ, zero, suc, ◌+◌, ◌-◌, ◌*◌, ◌/◌, ◌%◌, ◌^◌, Bool, true, false, not, ◌&&◌, List, [], ◌∷◌, ◌++◌,
  Option, none, some, Result, ok, err, ltb, leb, ◌==◌, if◌then◌else◌, length, get_or, min, be16,
  be32, u32,
}
use macvnc.Base.Utf8.{encode_str}
use macvnc.Record.{RecordLayer}
use macvnc.Record as Record
use macvnc.Outbound as Outbound
use macvnc.Outbound.{Outcome}
use macvnc.FileTransfer.{Message, Decoder, feed, is_pending}
use macvnc.Metadata.{StreamConfig, Inflate, display_layout, parse_answer, complete_update}
use macvnc.Layout.{Dimensions, LayoutRecovery, observe, take_due, framebuffer_request}
use macvnc.Connection.Monad.{Action, ◌>>=◌, ◌>>◌, pure, raise, ensure}
use Prim.Native.String.{String}

pub record HpConnection : Type 0 where
  pub records : RecordLayer
  pub pending : List ℕ
  pub outbound : Outbound.Outbound
  pub file_decoder : Decoder
  pub file_messages : List Message
  pub width : ℕ
  pub height : ℕ
  pub stream_config : Option StreamConfig
  pub update_outstanding : Bool
  pub media_offer : List ℕ
  pub recovery : LayoutRecovery
  pub layout_events : ℕ
  pub media_reoffers : ℕ

-- What `read` returns; no bytes are the end of the stream.
pub data ReadOutcome : Type 0 where
  received : List ℕ → ReadOutcome
  would_block : ReadOutcome
  interrupted : ReadOutcome
  failed : String → ReadOutcome

module _ (c : Record.Crypto) (inflate : Inflate) {W : Type 0} (write : W → List ℕ → Outcome × W)
    (read : W → ReadOutcome × W) where
  abbrev pub Session : Type 0
  Session = HpConnection × W

  abbrev pub Call : Type 0 → Type 0
  Call A = Action Session A

  -- `self.records.encrypt`
  unfoldable pub encrypt_body : List ℕ → Call (List ℕ)
  encrypt_body body (conn, w) =
      let (wire, records) = Record.encrypt c conn.records body in
      (wire, (record conn { records = records }, w))

  unfoldable pub push_record : List ℕ → Call (Unit {0})
  push_record wire (conn, w) =
      let (result, outbound) = Outbound.push conn.outbound wire in
      (result, (record conn { outbound = outbound }, w))

  -- `self.outbound.flush(&mut self.tcp)`
  unfoldable pub flush_records : Call (Unit {0})
  flush_records (conn, w) =
      let (result, outbound, w') = Outbound.flush write conn.outbound w in
      (result, (record conn { outbound = outbound }, w'))

  unfoldable pub write_record : List ℕ → Call (Unit {0})
  write_record wire = do push_record wire; flush_records

  unfoldable pub send : List ℕ → Call (Unit {0})
  send body = do wire ← encrypt_body body; write_record wire

  unfoldable pub send_media_offer : Call (Unit {0})
  send_media_offer (conn, w) =
      (do wire ← encrypt_body conn.media_offer; write_record wire) (conn, w)

  pub send_key : Bool → ℕ → Call (Unit {0})
  send_key down keysym = send (4 ∷ (if down then 1 else 0) ∷ 0 ∷ 0 ∷ be32 keysym)

  pub send_pointer : ℕ → ℕ → ℕ → Call (Unit {0})
  send_pointer mask x y = send (5 ∷ mask ∷ be16 x ++ be16 y)

  -- The characters of Latin-1; the others become `?`.
  pub latin1 : List ℕ → List ℕ
  latin1 [] = []
  latin1 (ch ∷ text) = (if leb ch 255 then ch else b'?') ∷ latin1 text

  pub send_clipboard : List ℕ → Call (Unit {0})
  send_clipboard text = do
    ensure (leb (length (encode_str text)) 1048576) "clipboard too large"
    let bytes = latin1 text
    let msg = 6 ∷ 0 ∷ 0 ∷ 0 ∷ be32 (u32 (length bytes)) ++ bytes
    ensure (leb (length msg) 65498) "clipboard exceeds encrypted control record limit"
    send msg

  unfoldable pub is_busy : Call Bool
  is_busy (conn, w) = (ok (ltb (64 * 1024) conn.outbound.bytes), (conn, w))

  unfoldable pub send_unless : Bool → List ℕ → Call Bool
  send_unless true message = pure false
  send_unless false message = do send message; pure true

  -- False, and nothing is encrypted, where bulk output must wait.
  unfoldable pub try_send_file_message : List ℕ → Call Bool
  try_send_file_message message = do
    ensure (leb 1 (length message) && get_or message 0 0 == 0x22) "not a native file message"
    busy ← is_busy
    send_unless busy message

  pub take_file_messages : HpConnection → List Message × HpConnection
  take_file_messages conn = (conn.file_messages, record conn { file_messages = [] })

  pub file_message_pending : HpConnection → Bool
  file_message_pending conn = is_pending conn.file_decoder

  -- One read of `poll_control`: whether the loop goes on.
  unfoldable pub take_chunk : ReadOutcome → Call Bool
  take_chunk (received []) s = (err "Mac closed the HP control channel", s)
  take_chunk (received (b ∷ chunk)) (conn, w) =
      let pending = conn.pending ++ (b ∷ chunk) in
      (do
        ensure (leb (length pending) (4 * 1024 * 1024)) "control backlog exceeded limit"
        pure true)
        (record conn { pending = pending }, w)
  take_chunk would_block s = (ok false, s)
  take_chunk interrupted s = (ok true, s)
  take_chunk (failed e) s = (err e, s)

  unfoldable pub read_once : Call Bool
  read_once (conn, w) = let (outcome, w') = read w in take_chunk outcome (conn, w')

  unfoldable pub go_on : Bool → Call (Unit {0}) → Call (Unit {0})
  go_on true rest = rest
  go_on false rest = pure tt

  -- The loop of `poll_control` over the socket, by the reads that are left.
  unfoldable pub read_loop : ℕ → Call (Unit {0})
  read_loop zero = pure tt
  read_loop (suc reads) = do more ← read_once; go_on more (read_loop reads)

  unfoldable pub drain : Call (List (List ℕ))
  drain (conn, w) =
      let (bodies, records, pending) = Record.drain_records c conn.records conn.pending in
      (bodies, (record conn { records = records; pending = pending }, w))

  -- `inspect_control`: the layout.
  unfoldable pub note_layout : Option Dimensions → HpConnection → HpConnection
  note_layout none conn = conn
  note_layout (some dimensions) conn = record conn {
    layout_events = min (conn.layout_events + 1) (2 ^ 64 - 1);
    recovery = observe conn.recovery dimensions;
  }

  -- `inspect_control`: a configuration.
  unfoldable pub adopt_config : StreamConfig → HpConnection → HpConnection
  adopt_config config conn =
      let recovery : LayoutRecovery = elim conn.stream_config [
        | none ↦ record conn.recovery { current = some (config.width, config.height) }
        | some _ ↦ conn.recovery
      ] in
      record conn {
        recovery = recovery;
        width = config.width;
        height = config.height;
        stream_config = some config;
      }

  -- `inspect_control`: a configuration, by its `ltr_enabled`.
  unfoldable pub take_config : Bool → StreamConfig → Call (Unit {0})
  take_config true config s =
      (err "Mac selected unsupported long-term-reference acknowledgement mode", s)
  take_config false config s = (ok tt, (adopt_config config s.0, s.1))

  -- `inspect_control`: what `parse_answer` has found.
  unfoldable pub note_answer : Result (Option StreamConfig) → Call (Unit {0})
  note_answer (err e) = raise e
  note_answer (ok none) = pure tt
  note_answer (ok (some config)) = take_config config.ltr_enabled config

  unfoldable pub set_outstanding : Bool → HpConnection → HpConnection
  set_outstanding b conn = record conn { update_outstanding = b }

  -- `inspect_control`: the next request, once an update is complete and was asked for.
  unfoldable pub request_next : Bool → Bool → Call (Unit {0})
  request_next false incremental s = (ok tt, s)
  request_next true incremental (conn, w) =
      (do send (framebuffer_request incremental); λ s. (ok tt, (set_outstanding true s.0, s.1)))
        (set_outstanding false conn, w)

  unfoldable pub is_absent : Option Dimensions → Bool
  is_absent none = true
  is_absent (some _) = false

  unfoldable pub inspect_control : List ℕ → Call (Unit {0})
  inspect_control body (conn, w) =
      let layout = display_layout body in
      (do
        note_answer (parse_answer inflate body)
        λ s. request_next (complete_update body && s.0.update_outstanding) (is_absent layout) s)
        (note_layout layout conn, w)

  -- What the decoder of file messages has found, and the limit on the messages that wait.
  unfoldable pub keep_messages : Result (List Message × Option (List ℕ)) → Call (Option (List ℕ))
  keep_messages (err e) s = (err e, s)
  keep_messages (ok (messages, other)) (conn, w) =
      (do
        ensure (leb (length conn.file_messages + length messages) 256)
            "file event backlog exceeded limit"
        λ s. (ok other, (record s.0 { file_messages = s.0.file_messages ++ messages }, s.1)))
        (conn, w)

  unfoldable pub feed_body : List ℕ → Call (Option (List ℕ))
  feed_body body (conn, w) =
      let (result, decoder) = feed conn.file_decoder body in
      keep_messages result (record conn { file_decoder = decoder }, w)

  unfoldable pub inspect_other : Option (List ℕ) → Call (List (List ℕ))
  inspect_other none = pure []
  inspect_other (some other) = do inspect_control other; pure (other ∷ [])

  -- The loop of `poll_control` over the bodies.
  unfoldable pub handle_bodies : List (List ℕ) → List (List ℕ) → Call (List (List ℕ))
  handle_bodies [] result = pure result
  handle_bodies (body ∷ bodies) result = do
    other ← feed_body body
    found ← inspect_other other
    handle_bodies bodies (result ++ found)

  -- The recovery of the media stream.
  unfoldable pub resend : Bool → Call (Unit {0})
  resend false = pure tt
  resend true = do
    send_media_offer
    λ s. (ok tt, (record s.0 { media_reoffers = min (s.0.media_reoffers + 1) (2 ^ 64 - 1) }, s.1))

  unfoldable pub reoffer : ℕ → Call (Unit {0})
  reoffer now (conn, w) =
      let (due, recovery) = take_due conn.recovery now in
      resend due (record conn { recovery = recovery }, w)

  unfoldable pub poll_control : ℕ → Call (List (List ℕ))
  poll_control now = do
    flush_records
    read_loop 8
    bodies ← drain
    result ← handle_bodies bodies []
    reoffer now
    pure result
