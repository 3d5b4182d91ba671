-- ===== src/Transfer/Tests.antt =====
-- transfer.rs: one file sent and received, at concrete inputs.
use macvnc.Base.{
  ℕ, zero, suc, ◌≡◌, ◌≤◌, refl, sym, ap, subst, List, [], ◌∷◌, ◌++◌, Bool, true, false, none, some,
  Result, ok, err, arith, length, take, drop, All,
}
use macvnc.Base.Utf8.{encode_str, encode_char, IsScalar}
use macvnc.FileTransfer.{Message, feed, feed_loop, message_at, message, chunk, end, is_empty}
use macvnc.FileTransfer.Names.{
  has, has_text, same_text, split, any_unsafe, ends_badly, uppercase, is_port, is_reserved,
  validate_name, request, upload_metadata,
}
use macvnc.FileTransfer.Names.Sizes.{info_message, item_message}
use macvnc.Transfer.{Attempt, taken, arrived, nothing_yet, Round, World}
use macvnc.Transfer.Worker.{check, send, send_loop, receive, receive_loop, show, progress}
use macvnc.Transfer.Files.{
  Metadata, found, not_found, FileSystem, open_regular, download_destination,
}
use macvnc.Transfer.Upload.{
  same_time, send_chunk, send_chunks, upload_started, prepare_upload, upload,
}
use macvnc.Transfer.Upload.Chunks.{Holds}
use macvnc.Transfer.Upload.Decoded.{Decodes, data_message, end_message}
use macvnc.Transfer.Download.{download}
use macvnc.Transfer.Download.Published.{Outcome, download-Outcome}
use macvnc.Transfer.Download.Script.{calm, done, wait, arrive, Delivers, Serves}
use macvnc.Transfer.RoundTrip.{IsReady, decoded, Decodes-decoded, sent_behind, download-upload}
use macvnc.Transfer.Session.{
  System, initial, new_session, submit, begins, goes, connects, download_of,
}
use macvnc.Transfer.Session.Single.{submit-accepted}

abbrev content : List ℕ
content = 10 ∷ 20 ∷ 30 ∷ []

abbrev details : Metadata
details = record { is_file = true; len = 3; modified = some 7; is_reparse_point = false }

-- `/a`, the name of the file, and the only directory.
abbrev path : List ℕ
path = b'/' ∷ b'a' ∷ []

abbrev name : List ℕ
name = b'a' ∷ []

-- A disk with one readable file, on which every other file can be made.
abbrev disk : FileSystem
disk = record {
  is_absolute = λ p. true;
  file_name = λ p. some name;
  parent = λ p. some (b'/' ∷ []);
  join = λ p q. p ++ q;
  symlink_metadata = λ p. found details;
  open_file = λ p. ok details;
  read = λ p offset limit. ok (take limit (drop offset content));
  file_metadata = λ p. ok details;
  metadata_after = λ p. ok details;
  canonicalize = λ p. ok p;
  is_dir = λ p. true;
  new_temporary = λ p. ok tt;
  write_all = λ staged bytes. ok tt;
  sync = λ staged. ok tt;
  persist_noclobber = λ p staged. true;
}

abbrev empty_disk : FileSystem
empty_disk = record disk { symlink_metadata = λ p. not_found }

abbrev attempt : Attempt
attempt = record { stop = false; answer = taken; late = false }

abbrev world : List Attempt → List Round → World
world attempts rounds = record {
  checks = [];
  attempts = attempts;
  rounds = rounds;
  sent = [];
  staged = [];
  published = none;
  shared = initial.shared;
}

-- The Mac confirms an upload by the same message that ends one.
abbrev uploading : World
uploading =
    world (attempt ∷ attempt ∷ attempt ∷ attempt ∷ attempt ∷ [])
      (calm (arrived (end_message 5)) ∷ [])

abbrev uploaded : Bool × Result (Unit {0}) × World
uploaded = upload disk 0 5 path path true uploading

uploaded-ok : uploaded ≡ (true, ok tt, uploaded.2)
unfolding upload prepare_upload upload_started send_chunks send_chunk same_time open_regular check
    send send_loop receive receive_loop show progress request upload_metadata message chunk end
    is_empty validate_name encode_str encode_char same_text any_unsafe has ends_badly is_reserved
    uppercase split has_text is_port
uploaded-ok = refl

abbrev bodies : List (List ℕ)
bodies = drop 1 uploaded.2.sent

abbrev received : List Message
received = info_message 5 3 ∷ item_message 5 name 3 ∷ data_message 5 content ∷ end_message 5 ∷ []

bodies-Decodes : Decodes bodies received
unfolding upload prepare_upload upload_started send_chunks send_chunk same_time open_regular check
    send send_loop receive receive_loop show progress request upload_metadata message chunk end
    is_empty validate_name encode_str encode_char same_text any_unsafe has ends_badly is_reserved
    uppercase split has_text is_port feed feed_loop message_at
bodies-Decodes = (refl, (refl, (refl, (refl, tt))))

abbrev downloading : World
downloading = world (attempt ∷ []) (
    calm (arrived (info_message 5 3))
    ∷ calm nothing_yet
    ∷ calm (arrived (item_message 5 name 3))
    ∷ calm (arrived (data_message 5 content))
    ∷ calm (arrived (end_message 5))
    ∷ [])

take_again : (n : ℕ) (xs : List ℕ) → take n xs ≡ take (length (take n xs)) xs
take_again zero xs = refl
take_again (suc n) [] = refl
take_again (suc n) (x ∷ xs) = ap (λ l. x ∷ l) (take_again n xs)

take_bound : (n : ℕ) (xs : List ℕ) → length (take n xs) ≤ n
take_bound zero xs = omega arith
take_bound (suc n) [] = omega arith
take_bound (suc n) (x ∷ xs) = omega (arith, take_bound n xs)

disk-Holds : Holds disk path content
disk-Holds = record {
  size = λ m e. ap (λ r. elim r [ ok x ↦ x.len | err x ↦ 3 ]) (sym e);
  reads = λ offset limit bytes e.
      let same : bytes ≡ take limit (drop offset content) = cc in
      rw same (take_again limit (drop offset content), take_bound limit (drop offset content));
  is_text = λ n e. let same : name ≡ n = cc in subst (All IsScalar) same (refl, tt);
}

empty_disk-Serves : Serves empty_disk
empty_disk-Serves = record {
  writes = λ staged bytes. refl;
  syncs = λ staged. refl;
  persists = λ p staged. refl;
}

downloading-IsReady : IsReady empty_disk 5 path path downloading
unfolding request message encode_str encode_char split has_text same_text has download_destination
    validate_name any_unsafe ends_badly is_reserved uppercase is_port
downloading-IsReady = record {
  request_bytes = _;
  directory = _;
  destination = _;
  attempts = [];
  asks = refl;
  goes = refl;
  creates = refl;
  quiet = refl;
  takes = refl;
}

sent_decoded : decoded (sent_behind uploading uploaded.2) ≡ received
sent_decoded = Decodes-decoded bodies received bodies-Decodes

download-upload_example :
    Decodes (sent_behind uploading uploaded.2) (decoded (sent_behind uploading uploaded.2))
    × ((download empty_disk 0 5 path path downloading).1 ≡ ok tt)
    × ((download empty_disk 0 5 path path downloading).2.published ≡ some content)
download-upload_example =
    download-upload disk empty_disk 0 0 5 path content path path path true true uploading uploaded.2
      downloading (omega arith) disk-Holds uploaded-ok empty_disk-Serves downloading-IsReady
      (subst (Delivers downloading.rounds) (sym sent_decoded)
        (arrive (wait (arrive (arrive (arrive done))))))

download-Outcome_example : Outcome downloading (download empty_disk 0 5 path path downloading)
download-Outcome_example = download-Outcome empty_disk 0 5 path path downloading

-- A session with a download that waits for its worker.
abbrev connected : System
connected = new_session initial

submit-accepted_example : (submit (download_of path path) connected).0 ≡ ok tt
unfolding new_session
submit-accepted_example =
    submit-accepted connected (download_of path path) 1 (goes begins (connects initial)) refl refl
      refl
