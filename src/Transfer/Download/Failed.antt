-- ===== src/Transfer/Download/Failed.antt =====
-- transfer.rs: a download that fails publishes nothing.
use macvnc.Base.{
  ℕ, zero, suc, ◌+◌, ◌^◌, ◌≡◌, Bool, true, false, not, ◌&&◌, List, [], ◌∷◌, Option, Result, ok, err,
  ◌==◌, ltb, leb, length,
}
use macvnc.Connection.Monad.{
  ◌>>=◌, ◌>>◌, pure, ensure, after, Preserves, bind-Preserves, ensure-Preserves,
}
use macvnc.FileTransfer.{Message, max_file_bytes, is_empty}
use macvnc.FileTransfer.Names.{request, announced_size}
use Prim.Native.String.{String}
use macvnc.Transfer.{Attempt, World}
use macvnc.Transfer.Worker.{
  Work, check, checked, send, send_loop, after_send, receive, show, progress, lift,
}
use macvnc.Transfer.Files.{FileSystem, context, download_destination}
use macvnc.Transfer.Download.{
  Receipt, none_or, some_and, announce, take_item, written, write, take_data, take_end, Kind,
  info_kind, item_kind, content_kind, last_kind, other_kind, kind_of, take_message, receive_file,
  persisted, publish, nothing_received, download_started, prepare_download, download, go_download,
  receiving_view, begin_download,
}

module _ (file : Option (List ℕ)) where
  abbrev Unpublished : World → Type 0
  Unpublished w = w.published ≡ file

  abbrev Keeps : {A : Type 0} → Work A → Type 0
  Keeps m = Preserves Unpublished m

  then :
      {A B : Type 0} (m : Work A) (f : A → Work B)
      → Keeps m
      → ((a : A) → Keeps (f a))
      → Keeps (m >>= f)
  then m f hm hf = bind-Preserves Unpublished m f hm hf

  ensure_then :
      {B : Type 0} (holds : Bool) (message : _) (k : Work B)
      → Keeps k
      → Keeps (ensure holds message >> k)
  ensure_then holds message k h =
      then (ensure holds message) (λ _. k) (ensure-Preserves Unpublished holds message) (λ _. h)

  lift_then :
      {A B : Type 0} (r : Result A) (f : A → Work B)
      → ((a : A) → Keeps (f a))
      → Keeps (lift r >>= f)
  lift_then r f h = then (lift r) f (λ w p. p) h

  check-Keeps : Keeps check
  unfolding check
  check-Keeps w p = after w.checks
    where
      after : (l : List Bool) → Unpublished (checked w l).1
      after [] = p
      after (stop ∷ more) = p

  send-Keeps : (bytes : List ℕ) → Keeps (send bytes)
  unfolding send
  send-Keeps bytes w p = after (send_loop w.attempts)
    where
      after : (r : Result (Unit {0}) × List Attempt) → Unpublished (after_send bytes w r).1
      after (ok x, more) = p
      after (err x, more) = p

  receive-Keeps : Keeps receive
  unfolding receive
  receive-Keeps w p = p

  progress-Keeps :
      (generation bytes : ℕ) (total : Option ℕ) → Keeps (progress generation bytes total)
  unfolding progress show
  progress-Keeps generation bytes total w p = p

  module _ (fs : FileSystem) (generation id : ℕ) where
    announce-Keeps :
        (m : Message) (p : Receipt) (saw : Bool) → Keeps (announce fs generation id m p saw)
    unfolding announce
    announce-Keeps m p saw = lift_then (announced_size m) _ λ found.
        lift_then (context "missing file size" found) _
          λ n. ensure_then (none_or (λ old. old == n) p.total && leb p.bytes n) _ _ λ w h. h

    write-Keeps : (payload : List ℕ) → Keeps (write fs generation id payload)
    write-Keeps payload w p = after (fs.write_all w.staged payload)
      where
        after : (r : Result (Unit {0})) → Unpublished (written fs generation id payload w r).1
        after (ok x) = p
        after (err x) = p

    take_message-Keeps :
        (k : Kind) (m : Message) (p : Receipt) (rest : Receipt → Work Receipt)
        → ((q : Receipt) → Keeps (rest q))
        → Keeps (take_message fs generation id k m p rest)
    unfolding take_message take_item take_data take_end
    take_message-Keeps info_kind m p rest h =
        then (announce fs generation id m p p.saw_item) _ (announce-Keeps m p p.saw_item) λ q.
          then (progress generation q.bytes q.total) _ (progress-Keeps generation q.bytes q.total)
            λ _. h q
    take_message-Keeps item_kind m p rest h =
        then (take_item fs generation id m p) _
          (ensure_then (not p.saw_item && p.bytes == 0) _ _ (announce-Keeps m p true))
          λ q.
            then (progress generation q.bytes q.total) _ (progress-Keeps generation q.bytes q.total)
              λ _. h q
    take_message-Keeps content_kind m p rest h =
        then (take_data fs generation id m p) _
          (ensure_then (m.argument == length m.payload) _ _ (
            ensure_then (ltb (p.bytes + length m.payload) (2 ^ 64)) _ _ (
              ensure_then
                (leb (p.bytes + length m.payload) max_file_bytes
                  && none_or (λ size. leb (p.bytes + length m.payload) size) p.total)
                _ _
                (then (write fs generation id m.payload) _ (write-Keeps m.payload) λ _ w q. q))))
          λ q.
            then (progress generation q.bytes q.total) _ (progress-Keeps generation q.bytes q.total)
              λ _. h q
    take_message-Keeps last_kind m p rest h =
        then (take_end fs generation id m p) _
          (ensure_then (m.argument == 0 && is_empty m.payload) _ _ (
            ensure-Preserves Unpublished (some_and (λ size. p.bytes == size) p.total && p.saw_item)
              _))
          λ _ w q. q
    take_message-Keeps other_kind m p rest h = λ w q. q

    receive_file-Keeps : (fuel : ℕ) (p : Receipt) → Keeps (receive_file fs generation id fuel p)
    unfolding receive_file
    receive_file-Keeps zero p = λ w h. h
    receive_file-Keeps (suc fuel) p = then receive _ receive-Keeps λ m.
        take_message-Keeps (kind_of m.kind) m p (receive_file fs generation id fuel)
          (receive_file-Keeps fuel)

    -- Where a call fails, nothing is published.
    abbrev FailKeeps : {A : Type 0} → Work A → Type 0
    FailKeeps m = (w : World) → Unpublished w → (e : String) → (m w).0 ≡ err e → Unpublished (m w).1

    then-FailKeeps :
        {A B : Type 0} (m : Work A) (f : A → Work B)
        → Keeps m
        → ((a : A) → FailKeeps (f a))
        → FailKeeps (m >>= f)
    then-FailKeeps {A} {B} m f hm hf w p = step (m w) (hm w p)
      where
        step :
            (r : Result A × World)
            → Unpublished r.1
            → (e : String) → (after f r).0 ≡ err e
            → Unpublished (after f r).1
        step (ok a, u) q e h = hf a u q e h
        step (err x, u) q e h = q

    publish-FailKeeps :
        (destination : List ℕ) (bytes : ℕ) (total : Option ℕ)
        → FailKeeps (publish fs generation id destination >> progress generation bytes total)
    unfolding progress show
    publish-FailKeeps destination bytes total w p = step (fs.persist_noclobber destination w.staged)
      where
        step :
            (b : Bool) (e : String)
            → (after (λ _. progress generation bytes total) (persisted fs generation id w b)).0
              ≡ err e
            → Unpublished
                (after (λ _. progress generation bytes total) (persisted fs generation id w b)).1
        step true e h = absurd (cc)
        step false e h = p

    download_started-FailKeeps :
        (bytes destination : List ℕ)
        → FailKeeps (download_started fs generation id bytes destination)
    unfolding download_started
    download_started-FailKeeps bytes destination =
        then-FailKeeps (send bytes) _ (send-Keeps bytes) λ _.
          then-FailKeeps
            (λ w. receive_file fs generation id (suc (length w.rounds)) nothing_received w) _
            (λ w. receive_file-Keeps (suc (length w.rounds)) nothing_received w)
            λ p. then-FailKeeps check _ check-Keeps λ _.
              then-FailKeeps (λ w. lift (fs.sync w.staged) w) _ (λ w q. q)
                λ _.
                  then-FailKeeps check _ check-Keeps
                    λ _. publish-FailKeeps destination p.bytes p.total

    begin_download-Keeps : (made : List ℕ × List ℕ) → Keeps (begin_download fs generation id made)
    unfolding begin_download show
    begin_download-Keeps made w p =
        then check (λ _. show generation (receiving_view fs generation id) >> pure made) check-Keeps
          (λ _ v q. q) (record w { staged = [] }) p

    prepare_download-Keeps :
        (remote local : List ℕ) → Keeps (prepare_download fs generation id remote local)
    unfolding prepare_download
    prepare_download-Keeps remote local = lift_then (request id remote false) _ λ bytes.
        lift_then (download_destination fs local) _ λ destination.
          lift_then (fs.new_temporary destination.0) _
            λ _. begin_download-Keeps (bytes, destination.1)

    pub download-failed :
        (remote local : List ℕ) (w : World)
        → w.published ≡ file
        → (e : String) → (download fs generation id remote local w).1 ≡ err e
        → (download fs generation id remote local w).2.published ≡ file
    unfolding download
    download-failed remote local w p =
        prepared (prepare_download fs generation id remote local w)
          (prepare_download-Keeps remote local w p)
      where
        prepared :
            (r : Result (List ℕ × List ℕ) × World)
            → Unpublished r.1
            → (e : String) → (go_download fs generation id r).1 ≡ err e
            → Unpublished (go_download fs generation id r).2
        prepared (err x, u) q e h = q
        prepared (ok (bytes, destination), u) q e h =
            download_started-FailKeeps bytes destination u q e h
