-- ===== src/Transfer/Upload.antt =====
-- transfer.rs: the upload of one file.
pub mod Chunks
pub mod Sent
pub mod Decoded
use macvnc.Base.{
  ℕ, zero, suc, ◌+◌, ◌-◌, min, Bool, true, false, not, ◌&&◌, List, [], ◌∷◌, Option, none, some,
  Result, ok, err, leb, ltb, ◌==◌, if◌then◌else◌, length,
}
use macvnc.Connection.Monad.{◌>>=◌, ◌>>◌, pure, raise, ensure}
use macvnc.FileTransfer.{Message, chunk, end, end_kind, chunk_bytes, max_file_bytes, is_empty}
use macvnc.FileTransfer.Names.{request, upload_metadata}
use macvnc.Transfer.{Snapshot, text, update, World}
use macvnc.Transfer.Worker.{Work, check, send, receive, show, progress, lift}
use macvnc.Transfer.Files.{Metadata, FileSystem, context, open_regular}

unfoldable pub same_time : Option ℕ → Option ℕ → Bool
same_time none none = true
same_time none (some b) = false
same_time (some a) none = false
same_time (some a) (some b) = a == b

module _ (fs : FileSystem) (generation id : ℕ) where
  -- One round of the loop: the number of bytes that it reads and sends.
  unfoldable pub send_chunk : List ℕ → ℕ → ℕ → Work ℕ
  send_chunk path bytes size = do
    check
    buffer ← lift (fs.read path bytes (min chunk_bytes (size - bytes)))
    ensure (not (length buffer == 0)) "source file became shorter"
    body ← lift (chunk id buffer)
    send body
    progress generation (bytes + length buffer) (some size)
    pure (bytes + length buffer)

  -- The loop; each round reads one byte at least, so `size` rounds are enough.
  unfoldable pub send_chunks : ℕ → List ℕ → ℕ → ℕ → Work (Unit {0})
  send_chunks zero path bytes size = pure tt
  send_chunks (suc fuel) path bytes size =
      let more = send_chunk path bytes size >>= (λ sofar. send_chunks fuel path sofar size) in
      if ltb bytes size then more else pure tt

  -- From `started` on.
  unfoldable pub upload_started : List ℕ → Metadata → List ℕ → List ℕ → List ℕ → Work (Unit {0})
  upload_started path metadata request_bytes info item = do
    send request_bytes
    send info
    send item
    send_chunks metadata.len path 0 metadata.len
    after ← lift (fs.metadata_after path)
    ensure (after.len == metadata.len && same_time after.modified metadata.modified)
        "source file changed during transfer"
    last ← lift (end id)
    send last
    show generation
        (λ view. record view { status = text "File sent · waiting for the Mac to confirm…" })
    reply ← receive
    ensure (reply.kind == end_kind && (reply.argument == 0 && is_empty reply.payload))
        "unsupported or rejected Mac completion reply"

  abbrev pub sending_view : ℕ → Snapshot → Snapshot
  sending_view size view = record view { status = text "Sending file…"; total = some size }

  -- What is checked before anything is sent: the metadata, the request and the two messages.
  unfoldable pub prepare_upload :
      List ℕ → List ℕ → Bool → Work (Metadata × List ℕ × List ℕ × List ℕ)
  prepare_upload path remote allow_replace = do
    ensure allow_replace "confirm that replacement of the destination file is allowed"
    _ ← lift (open_regular fs path)
    metadata ← lift (fs.file_metadata path)
    ensure (leb metadata.len max_file_bytes) "files must be smaller than 4 GiB"
    name ← lift (context "file name is not valid UTF-8" (fs.file_name path))
    request_bytes ← lift (request id remote true)
    messages ← lift (upload_metadata id name metadata.len)
    check
    show generation (sending_view metadata.len)
    pure (metadata, request_bytes, messages.0, messages.1)

  -- Whether the transfer had started, and the result.
  abbrev pub go_upload :
      List ℕ
      → Result (Metadata × List ℕ × List ℕ × List ℕ) × World
      → Bool × Result (Unit {0}) × World
  go_upload path (err e, w) = (false, err e, w)
  go_upload path (ok (metadata, request_bytes, info, item), w) =
      let done = upload_started path metadata request_bytes info item w in (true, done.0, done.1)

  unfoldable pub upload : List ℕ → List ℕ → Bool → World → Bool × Result (Unit {0}) × World
  upload path remote allow_replace w = go_upload path (prepare_upload path remote allow_replace w)
