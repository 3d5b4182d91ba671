-- ===== src/Transfer/RoundTrip.antt =====
-- transfer.rs: a download that receives what an upload sends.
use macvnc.Base.{
  ℕ, suc, ◌^◌, ◌≤◌, ◌<◌, ◌≡◌, refl, sym, ap, subst, ◌∙◌, Bool, false, List, [], ◌∷◌, ◌++◌, Option,
  some, Result, ok, err, drop, arith, length, All,
}
use macvnc.Base.Utf8.{IsScalar}
use macvnc.FileTransfer.{Message, Decoder, feed, max_file_bytes}
use macvnc.FileTransfer.Names.{request, validate_name}
use macvnc.Transfer.{Attempt, taken, World, update}
use macvnc.Transfer.Worker.{check, send, send_loop, show, progress}
use macvnc.Transfer.Files.{FileSystem, download_destination}
use macvnc.Transfer.Upload.{upload}
use macvnc.Transfer.Upload.Chunks.{Holds, concat}
use macvnc.Transfer.Upload.Sent.{upload-IsUploaded}
use macvnc.Transfer.Upload.Decoded.{fresh, Decodes, Carries-Decodes, feed-upload_metadata}
use macvnc.Transfer.Download.Script.{Delivers, Serves, file_messages, receive_whole}
use macvnc.Transfer.Download.{
  prepare_download, begin_download, download_started, download, receiving_view,
}

-- What the worker finds when a download begins: the request is made, the destination is free, a
-- temporary file is there, nothing stops it, and the channel takes a message.
pub record IsReady (fs : FileSystem) (id : ℕ) (remote local : List ℕ) (w : World) : Type 0 where
  pub request_bytes : List ℕ
  pub directory : List ℕ
  pub destination : List ℕ
  pub attempts : List Attempt
  pub asks : request id remote false ≡ ok request_bytes
  pub goes : download_destination fs local ≡ ok (directory, destination)
  pub creates : fs.new_temporary directory ≡ ok tt
  pub quiet : w.checks ≡ []
  pub takes : w.attempts ≡ record { stop = false; answer = taken; late = false } ∷ attempts

module _ (fs : FileSystem) (generation id : ℕ) (s : Serves fs) where
  download_started-run :
      (request_bytes destination name : List ℕ) (pieces : List (List ℕ)) (attempts : List Attempt)
      (w : World)
      → Delivers w.rounds (file_messages fs generation id s name (length (concat pieces)) pieces)
      → length (concat pieces) ≤ max_file_bytes
      → All IsScalar name
      → validate_name name ≡ ok tt
      → w.checks ≡ []
      → w.staged ≡ []
      → w.attempts ≡ record { stop = false; answer = taken; late = false } ∷ attempts
      → ((download_started fs generation id request_bytes destination w).0 ≡ ok tt)
        × ((download_started fs generation id request_bytes destination w).1.published
            ≡ some (concat pieces))
  unfolding download_started send send_loop check progress show
  download_started-run request_bytes destination name pieces attempts w d small scalar valid quiet
        empty takes =
      let a = record w { attempts = attempts; sent = w.sent ++ (request_bytes ∷ []) } in
      let (b, ran, stored, kept) =
        receive_whole fs generation id s name pieces (suc (length w.rounds)) a d small scalar valid
          (omega arith) in
      let calm_b : b.checks ≡ [] = kept ∙ quiet in
      let content : b.staged ≡ concat pieces = stored ∙ ap (λ l. l ++ concat pieces) empty in
      (
        rw (takes, ran, calm_b, s.syncs b.staged, calm_b, s.persists destination b.staged) refl,
        rw (takes, ran, calm_b, s.syncs b.staged, calm_b, s.persists destination b.staged)
            (ap some content),
      )

  download-run :
      (remote local name : List ℕ) (pieces : List (List ℕ)) (w : World)
      → IsReady fs id remote local w
      → Delivers w.rounds (file_messages fs generation id s name (length (concat pieces)) pieces)
      → length (concat pieces) ≤ max_file_bytes
      → All IsScalar name
      → validate_name name ≡ ok tt
      → ((download fs generation id remote local w).1 ≡ ok tt)
        × ((download fs generation id remote local w).2.published ≡ some (concat pieces))
  unfolding download prepare_download begin_download check show
  download-run remote local name pieces w r d small scalar valid =
      let u = record w {
        checks = [];
        staged = [];
        shared = update generation (receiving_view fs generation id) w.shared;
      } in
      let (a, b) =
        download_started-run r.request_bytes r.destination name pieces r.attempts u d small scalar
          valid refl refl r.takes in
      (rw (r.asks, r.goes, r.creates, r.quiet) a, rw (r.asks, r.goes, r.creates, r.quiet) b)

-- What fresh decoders return for some bodies, one after the other.
messages_of : Result (List Message × Option (List ℕ)) × Decoder → List Message
messages_of (ok (ms, stopped), d) = ms
messages_of (err e, d) = []

pub decoded : List (List ℕ) → List Message
decoded [] = []
decoded (body ∷ bodies) = messages_of (feed fresh body) ++ decoded bodies

pub Decodes-decoded :
    (bodies : List (List ℕ)) (ms : List Message) → Decodes bodies ms → decoded bodies ≡ ms
unfolding decoded messages_of
Decodes-decoded [] [] d = refl
Decodes-decoded [] (m ∷ ms) d = absurd d
Decodes-decoded (body ∷ bodies) [] d = absurd d
Decodes-decoded (body ∷ bodies) (m ∷ ms) (e, d) =
    rw e (ap (λ l. m ∷ l) (Decodes-decoded bodies ms d))

-- The bodies that were sent from one state to a later one, without the first of them.
abbrev pub sent_behind : World → World → List (List ℕ)
sent_behind w w' = drop (suc (length w.sent)) w'.sent

drop_behind :
    (xs : List (List ℕ)) (y : List ℕ) (ys : List (List ℕ))
    → drop (suc (length xs)) (xs ++ (y ∷ ys)) ≡ ys
drop_behind [] y ys = refl
drop_behind (x ∷ xs) y ys = drop_behind xs y ys

-- A file goes across whole. Where the file at the path holds the content and an upload of it succeeds,
-- a fresh decoder finds exactly one message in each body that it has sent behind its first one, the
-- request. A download of the same transfer ID, by a worker that is ready and on a disk that takes all
-- bytes, to which these messages are delivered in order, in time and without a stop, succeeds and
-- publishes exactly the content.
pub download-upload :
    (up down : FileSystem) (generation generation' id : ℕ)
    (path content remote remote' local : List ℕ) (allow_replace started : Bool) (w w' v : World)
    → id < 2 ^ 32
    → Holds up path content
    → upload up generation id path remote allow_replace w ≡ (started, ok tt, w')
    → Serves down
    → IsReady down id remote' local v
    → Delivers v.rounds (decoded (sent_behind w w'))
    → Decodes (sent_behind w w') (decoded (sent_behind w w'))
      × ((download down generation' id remote' local v).1 ≡ ok tt)
      × ((download down generation' id remote' local v).2.published ≡ some content)
download-upload up down generation generation' id path content remote remote' local allow started w
      w' v small h e s r script =
    let (fits, c) = upload-IsUploaded up generation id path content h remote allow w w' started e in
    let bodies = sent_behind w w' in
    let same : bodies ≡ c.info ∷ c.item ∷ c.bodies ++ (c.last ∷ []) =
      ap (drop (suc (length w.sent))) c.sent ∙ drop_behind w.sent c.request_bytes _ in
    let (valid, first, second) =
      feed-upload_metadata id c.name (length content) c.info c.item small c.announced in
    let ms = file_messages down generation' id s c.name (length content) c.pieces in
    let found : Decodes bodies ms =
      subst (λ l. Decodes l ms) (sym same)
        (first, (second, Carries-Decodes id c.pieces c.bodies c.last small c.carries c.ended)) in
    let all : decoded bodies ≡ ms = Decodes-decoded bodies ms found in
    let run =
      download-run down generation' id s remote' local c.name c.pieces v r
        (subst (Delivers v.rounds)
          (all
            ∙ ap (λ l. file_messages down generation' id s c.name (length l) c.pieces)
                (sym c.whole))
          script)
        (subst (λ l. length l ≤ max_file_bytes) (sym c.whole) fits) (h.is_text c.name c.named)
        valid in
    (subst (Decodes bodies) (sym all) found, run.0, run.1 ∙ ap some c.whole)
