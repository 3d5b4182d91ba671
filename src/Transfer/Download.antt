-- ===== src/Transfer/Download.antt =====
-- transfer.rs: the download of one file.
pub mod Messages
pub mod Rounds
pub mod Received
pub mod Script
pub mod Failed
pub mod Published
use macvnc.Base.{
  ℕ, zero, suc, ◌+◌, ◌^◌, Bool, true, false, not, ◌&&◌, ◌||◌, List, [], ◌∷◌, ◌++◌, Option, none,
  some, Result, ok, err, leb, ltb, ◌==◌, if◌then◌else◌, length,
}
use macvnc.Connection.Monad.{◌>>=◌, ◌>>◌, pure, raise, ensure}
use macvnc.FileTransfer.{
  Message, item_info, new_item, data_kind, end_kind, max_file_bytes, is_empty,
}
use macvnc.FileTransfer.Names.{request, announced_size}
use macvnc.Transfer.{Snapshot, text, World}
use macvnc.Transfer.Worker.{Work, check, send, receive, show, progress, lift}
use macvnc.Transfer.Files.{FileSystem, context, download_destination}

-- `bytes`, `total` and `saw_item`.
pub record Receipt : Type 0 where
  pub bytes : ℕ
  pub total : Option ℕ
  pub saw_item : Bool

abbrev pub nothing_received : Receipt
nothing_received = record { bytes = 0; total = none; saw_item = false }

-- `is_none_or`
abbrev pub none_or : (ℕ → Bool) → Option ℕ → Bool
none_or test none = true
none_or test (some a) = test a

-- `is_some_and`
abbrev pub some_and : (ℕ → Bool) → Option ℕ → Bool
some_and test none = false
some_and test (some a) = test a

-- The arms of the `match` on the kind of a message.
pub data Kind : Type 0 where
  info_kind : Kind
  item_kind : Kind
  content_kind : Kind
  last_kind : Kind
  other_kind : Kind

unfoldable pub kind_of : ℕ → Kind
kind_of k =
    if k == item_info
    then info_kind
    else if k == new_item
    then item_kind
    else if k == data_kind
    then content_kind
    else if k == end_kind
    then last_kind
    else other_kind

module _ (fs : FileSystem) (generation id : ℕ) where
  -- `total = Some(announced)`
  unfoldable pub announce : Message → Receipt → Bool → Work Receipt
  announce m p saw = do
    found ← lift (announced_size m)
    announced ← lift (context "missing file size" found)
    ensure (none_or (λ old. old == announced) p.total && leb p.bytes announced)
        "Mac changed the file size"
    pure (record { bytes = p.bytes; total = some announced; saw_item = saw })

  unfoldable pub take_item : Message → Receipt → Work Receipt
  take_item m p = do
    ensure (not p.saw_item && p.bytes == 0) "multiple files are unsupported"
    announce m p true

  -- What a failed write leaves in the temporary file is never read.
  abbrev pub written : List ℕ → World → Result (Unit {0}) → Result (Unit {0}) × World
  written payload w (err e) = (err e, w)
  written payload w (ok _) = (ok tt, record w { staged = w.staged ++ payload })

  abbrev pub write : List ℕ → Work (Unit {0})
  write payload w = written payload w (fs.write_all w.staged payload)

  unfoldable pub take_data : Message → Receipt → Work Receipt
  take_data m p = do
    ensure (m.argument == length m.payload) "file chunk length mismatch"
    ensure (ltb (p.bytes + length m.payload) (2 ^ 64)) "download size overflow"
    ensure
        (leb (p.bytes + length m.payload) max_file_bytes
          && none_or (λ size. leb (p.bytes + length m.payload) size) p.total)
        "download exceeds declared size or limit"
    write m.payload
    pure (record p { bytes = p.bytes + length m.payload })

  unfoldable pub take_end : Message → Receipt → Work (Unit {0})
  take_end m p = do
    ensure (m.argument == 0 && is_empty m.payload) "Mac rejected file completion"
    ensure (some_and (λ size. p.bytes == size) p.total && p.saw_item)
        "Mac did not provide complete regular-file metadata/data"

  -- A round that does not break shows the progress and goes on.
  abbrev pub go_on : Work Receipt → (Receipt → Work Receipt) → Work Receipt
  go_on round rest = do p ← round; progress generation p.bytes p.total; rest p

  unfoldable pub take_message : Kind → Message → Receipt → (Receipt → Work Receipt) → Work Receipt
  take_message info_kind m p rest = go_on (announce m p p.saw_item) rest
  take_message item_kind m p rest = go_on (take_item m p) rest
  take_message content_kind m p rest = go_on (take_data m p) rest
  take_message last_kind m p rest = take_end m p >> pure p
  take_message other_kind m p rest = raise "unsupported Mac file response"

  -- The loop. Each message takes one round of the script at least, so one more round than the script
  -- has is enough: the fuel is used up only behind the error of `receive`.
  unfoldable pub receive_file : ℕ → Receipt → Work Receipt
  receive_file zero p = raise "Mac did not confirm the transfer"
  receive_file (suc fuel) p = do m ← receive; take_message (kind_of m.kind) m p (receive_file fuel)

  abbrev pub persisted : World → Bool → Result (Unit {0}) × World
  persisted w true = (ok tt, record w { published = some w.staged })
  persisted w false = (err "cannot publish download; destination may already exist", w)

  abbrev pub publish : List ℕ → Work (Unit {0})
  publish destination w = persisted w (fs.persist_noclobber destination w.staged)

  -- From `started` on.
  unfoldable pub download_started : List ℕ → List ℕ → Work (Unit {0})
  download_started request_bytes destination = do
    send request_bytes
    p ← λ w. receive_file (suc (length w.rounds)) nothing_received w
    check
    λ w. lift (fs.sync w.staged) w
    check
    publish destination
    progress generation p.bytes p.total

  abbrev pub receiving_view : Snapshot → Snapshot
  receiving_view view = record view { status = text "Receiving file…" }

  -- The new temporary file is empty.
  unfoldable pub begin_download : List ℕ × List ℕ → Work (List ℕ × List ℕ)
  begin_download made w =
      (do check; show generation receiving_view; pure made) (record w { staged = [] })

  unfoldable pub prepare_download : List ℕ → List ℕ → Work (List ℕ × List ℕ)
  prepare_download remote local = do
    request_bytes ← lift (request id remote false)
    destination ← lift (download_destination fs local)
    lift (fs.new_temporary destination.0)
    begin_download (request_bytes, destination.1)

  abbrev pub go_download : Result (List ℕ × List ℕ) × World → Bool × Result (Unit {0}) × World
  go_download (err e, w) = (false, err e, w)
  go_download (ok (request_bytes, destination), w) =
      let done = download_started request_bytes destination w in (true, done.0, done.1)

  unfoldable pub download : List ℕ → List ℕ → World → Bool × Result (Unit {0}) × World
  download remote local w = go_download (prepare_download remote local w)
