-- ===== src/Transfer/Download/Script.antt =====
-- transfer.rs: the loop of `download` on a script that delivers a whole file.
use macvnc.Base.{
  ℕ, zero, suc, ◌+◌, ◌^◌, ◌≤◌, ◌<◌, ◌≡◌, refl, sym, ◌∙◌, Bool, true, false, List, [], ◌∷◌, ◌++◌,
  append-nil, append_assoc, some, ok, arith, ==_self, ltb, leb, length, length-append, All,
}
use macvnc.Base.Utf8.{IsScalar}
use macvnc.FileTransfer.{Message, max_file_bytes, is_empty}
use macvnc.FileTransfer.Names.{validate_name}
use macvnc.FileTransfer.Names.Sizes.{
  info_message, item_message, announced_size-info, announced_size-item,
}
use macvnc.Transfer.{Receiving, arrived, nothing_yet, Round, World, update}
use macvnc.Transfer.Worker.{Work, receive, receive_loop, show, progress}
use macvnc.Transfer.Files.{FileSystem}
use macvnc.Transfer.Upload.Chunks.{concat}
use macvnc.Transfer.Upload.Decoded.{data_message, data_messages, end_message}
use macvnc.Transfer.Download.{
  Receipt, announce, take_item, take_data, take_end, kind_of, take_message, receive_file,
  nothing_received, content_kind, info_kind, item_kind, last_kind,
}

abbrev pub calm : Receiving → Round
calm answer = record { stop = false; late = false; answer = answer }

-- A script that delivers the messages in order, without a stop and in time.
pub data Delivers : List Round → List Message → Type 0 where
  done : Delivers [] []
  wait :
      {rs : List Round} {ms : List Message} → Delivers rs ms → Delivers (calm nothing_yet ∷ rs) ms
  arrive :
      {rs : List Round} {m : Message} {ms : List Message}
      → Delivers rs ms
      → Delivers (calm (arrived m) ∷ rs) (m ∷ ms)

receive_loop-Delivers :
    {rs : List Round} {m : Message} {ms : List Message}
    → Delivers rs (m ∷ ms)
    → (left : List Round) × (receive_loop rs ≡ (ok m, left))
      × Delivers left ms
      × (length left < length rs)
unfolding receive_loop
receive_loop-Delivers (wait d) =
    let (left, e, more, less) = receive_loop-Delivers d in (left, e, more, omega (arith, less))
receive_loop-Delivers (arrive {rs} d) = (rs, refl, d, omega arith)

-- A disk that takes all bytes, and a destination that is still free when the file is published.
pub record Serves (fs : FileSystem) : Type 0 where
  pub writes : (staged payload : List ℕ) → fs.write_all staged payload ≡ ok tt
  pub syncs : (staged : List ℕ) → fs.sync staged ≡ ok tt
  pub persists : (destination staged : List ℕ) → fs.persist_noclobber destination staged ≡ true

module _ (fs : FileSystem) (generation id : ℕ) (s : Serves fs) where
  -- The worker behind a round: the script left, the payload stored, and the progress shown.
  abbrev behind : List Round → List ℕ → Receipt → World → World
  behind left payload p w = record w {
    rounds = left;
    staged = w.staged ++ payload;
    shared = update generation (λ view. record view { bytes = p.bytes; total = p.total }) w.shared;
  }

  abbrev pub receipt : ℕ → ℕ → Bool → Receipt
  receipt bytes size saw = record { bytes = bytes; total = some size; saw_item = saw }

  receive_step :
      (fuel : ℕ) (p : Receipt) (w : World) (m : Message) (left : List Round)
      → receive_loop w.rounds ≡ (ok m, left)
      → receive_file fs generation id (suc fuel) p w
        ≡ take_message fs generation id
            (kind_of m.kind)
            m
            p
            (receive_file fs generation id fuel)
            (record w { rounds = left })
  unfolding receive_file receive
  receive_step fuel p w m left e = rw e refl

  take_data-step :
      (piece : List ℕ) (bytes size : ℕ) (w : World) (left : List Round)
      (rest : Receipt → Work Receipt)
      → size ≤ max_file_bytes
      → bytes + length piece ≤ size
      → take_message fs generation id content_kind
          (data_message id piece)
          (receipt bytes size true)
          rest
          (record w { rounds = left })
        ≡ rest
            (receipt (bytes + length piece) size true)
            (behind left piece (receipt (bytes + length piece) size true) w)
  unfolding take_message take_data progress show
  take_data-step piece bytes size w left rest small h =
      let a : ltb (bytes + length piece) (2 ^ 64) ≡ true = ground (arith, small, h) in
      let b : leb (bytes + length piece) max_file_bytes ≡ true = ground (arith, small, h) in
      let c : leb (bytes + length piece) size ≡ true = ground (arith, h) in
      rw (==_self (length piece), a, b, c, s.writes w.staged piece) refl

  take_end-step :
      (size : ℕ) (w : World) (rest : Receipt → Work Receipt)
      → take_message fs generation id last_kind (end_message id) (receipt size size true) rest w
        ≡ (ok (receipt size size true), w)
  unfolding take_message take_end is_empty
  take_end-step size w rest = rw (==_self size) refl

  abbrev shown : List Round → Receipt → World → World
  shown left p w = record w {
    rounds = left;
    shared = update generation (λ view. record view { bytes = p.bytes; total = p.total }) w.shared;
  }

  announce-step :
      (size : ℕ) (w : World) (left : List Round) (rest : Receipt → Work Receipt)
      → size ≤ max_file_bytes
      → take_message fs generation id info_kind
          (info_message id size)
          nothing_received
          rest
          (record w { rounds = left })
        ≡ rest (receipt 0 size false) (shown left (receipt 0 size false) w)
  unfolding take_message announce progress show
  announce-step size w left rest small =
      let a : leb 0 size ≡ true = ground arith in rw (announced_size-info id size small, a) refl

  take_item-step :
      (size : ℕ) (name : List ℕ) (w : World) (left : List Round) (rest : Receipt → Work Receipt)
      → size ≤ max_file_bytes
      → All IsScalar name
      → validate_name name ≡ ok tt
      → take_message fs generation id item_kind
          (item_message id name size)
          (receipt 0 size false)
          rest
          (record w { rounds = left })
        ≡ rest (receipt 0 size true) (shown left (receipt 0 size true) w)
  unfolding take_message take_item announce progress show
  take_item-step size name w left rest small scalar valid =
      let a : leb 0 size ≡ true = ground arith in
      rw (announced_size-item id name size scalar valid small, ==_self size, a) refl

  -- What the loop ends with.
  abbrev pub Receives : ℕ → Receipt → World → ℕ → List ℕ → Type 0
  Receives fuel p w size bytes =
      (w' : World) × (receive_file fs generation id fuel p w ≡ (ok (receipt size size true), w'))
      × (w'.staged ≡ w.staged ++ bytes)
      × (w'.checks ≡ w.checks)

  receive_pieces :
      (pieces : List (List ℕ)) (fuel bytes size : ℕ) (w : World)
      → Delivers w.rounds (data_messages id pieces ++ (end_message id ∷ []))
      → size ≤ max_file_bytes
      → bytes + length (concat pieces) ≡ size
      → length w.rounds < fuel
      → Receives fuel (receipt bytes size true) w size (concat pieces)
  unfolding concat kind_of
  receive_pieces pieces zero bytes size w d small sum less = absurd (omega (arith, less))
  receive_pieces [] (suc fuel) bytes size w d small sum less =
      let (left, e, _, _) = receive_loop-Delivers d in
      let all : bytes ≡ size = omega (arith, sum) in
      (
        record w { rounds = left },
        receive_step fuel (receipt bytes size true) w (end_message id) left e
            ∙ rw all (
                take_end-step size (record w { rounds = left })
                  (receive_file fs generation id fuel)),
        sym (append-nil w.staged),
        refl,
      )
  receive_pieces (piece ∷ pieces) (suc fuel) bytes size w d small sum less =
      let (left, e, more, fewer) = receive_loop-Delivers d in
      let total : bytes + length piece + length (concat pieces) ≡ size =
        omega (arith, sum, length-append piece (concat pieces)) in
      let p = receipt (bytes + length piece) size true in
      let (w', ran, stored, kept) =
        receive_pieces pieces fuel (bytes + length piece) size (behind left piece p w) more small
          total (omega (arith, fewer, less)) in
      (
        w',
        receive_step fuel (receipt bytes size true) w (data_message id piece) left e
            ∙ take_data-step piece bytes size w left (receive_file fs generation id fuel) small
                (omega (arith, total))
            ∙ ran,
        stored ∙ append_assoc w.staged piece (concat pieces),
        kept,
      )

  -- The messages of a whole file.
  abbrev pub file_messages : List ℕ → ℕ → List (List ℕ) → List Message
  file_messages name size pieces =
      info_message id size ∷ item_message id name size ∷ data_messages id pieces
      ++ (end_message id ∷ [])

  pub receive_whole :
      (name : List ℕ) (pieces : List (List ℕ)) (fuel : ℕ) (w : World)
      → Delivers w.rounds (file_messages name (length (concat pieces)) pieces)
      → length (concat pieces) ≤ max_file_bytes
      → All IsScalar name
      → validate_name name ≡ ok tt
      → length w.rounds < fuel
      → Receives fuel nothing_received w (length (concat pieces)) (concat pieces)
  unfolding kind_of
  receive_whole name pieces zero w d small scalar valid less = absurd (omega (arith, less))
  receive_whole name pieces (suc zero) w d small scalar valid less =
      let (_, _, _, h) = receive_loop-Delivers d in absurd (omega (arith, less, h))
  receive_whole name pieces (suc (suc fuel)) w d small scalar valid less =
      let size = length (concat pieces) in
      let (left, e, d₁, h) = receive_loop-Delivers d in
      let w₁ = shown left (receipt 0 size false) w in
      let (left', e', d₂, h') = receive_loop-Delivers d₁ in
      let w₂ = shown left' (receipt 0 size true) w₁ in
      let (w', ran, stored, kept) =
        receive_pieces pieces fuel 0 size w₂ d₂ small (omega arith) (omega (arith, less, h, h')) in
      (
        w',
        receive_step (suc fuel) nothing_received w (info_message id size) left e
            ∙ announce-step size w left (receive_file fs generation id (suc fuel)) small
            ∙ receive_step fuel (receipt 0 size false) w₁ (item_message id name size) left' e'
            ∙ take_item-step size name w₁ left' (receive_file fs generation id fuel) small scalar
                valid
            ∙ ran,
        stored,
        kept,
      )
