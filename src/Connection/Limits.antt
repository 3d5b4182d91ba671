-- ===== src/Connection/Limits.antt =====
-- rust/crates/hp-protocol/src/lib.rs: what holds of a connection after every call, however it ends.
use macvnc.Base.{
  ℕ, zero, suc, ◌+◌, ◌*◌, ◌≤◌, ◌≡◌, refl, inl, inr, Bool, true, false, ◌&&◌, List, [], ◌∷◌, ◌++◌,
  arith, Option, none, some, Result, ok, err, Bool-cases, leb, length, length-append,
}
use macvnc.Record as Record
use macvnc.Outbound.{Outcome}
use macvnc.FileTransfer.{Message, feed}
use macvnc.Metadata.{StreamConfig, Inflate, display_layout, parse_answer, complete_update}
use macvnc.Metadata.Answer.{IsConfig, parse_answer-IsConfig}
use macvnc.Layout.{Dimensions, take_due, framebuffer_request}
use macvnc.Connection.{
  HpConnection, ReadOutcome, received, would_block, interrupted, failed, encrypt_body, push_record,
  flush_records, write_record, send, send_media_offer, take_chunk, read_once, go_on, read_loop,
  drain, note_layout, adopt_config, take_config, note_answer, set_outstanding, request_next,
  is_absent, inspect_control, keep_messages, feed_body, inspect_other, resend, handle_bodies,
  reoffer, poll_control,
}
use macvnc.Connection.Monad.{
  Action, ◌>>=◌, pure, ensure, Preserves, bind-Preserves, ensure-Preserves,
}

-- A configuration that the connection has taken is within the limits, has no reference
-- acknowledgements, and gives the size.
abbrev pub Agreed : ℕ → ℕ → Option StreamConfig → Type 0
Agreed width height none = Unit
Agreed width height (some config) =
    IsConfig config
    × (config.ltr_enabled ≡ false)
    × (width ≡ config.width)
    × (height ≡ config.height)

pub record Limits (messages : List Message) (width height : ℕ) (config : Option StreamConfig)
    : Type 0 where
  pub messages_ok : length messages ≤ 256
  pub config_ok : Agreed width height config

abbrev pub IsConnection : HpConnection → Type 0
IsConnection conn = Limits conn.file_messages conn.width conn.height conn.stream_config

module _ (c : Record.Crypto) (inflate : Inflate) {W : Type 0} (write : W → List ℕ → Outcome × W)
    (read : W → ReadOutcome × W) where
  abbrev pub Safe : {A : Type 0} → Action (HpConnection × W) A → Type 0
  Safe m = Preserves (λ s. IsConnection s.0) m

  chain :
      {A B : Type 0} (m : Action (HpConnection × W) A) (f : A → Action (HpConnection × W) B)
      → Safe m
      → ((a : A) → Safe (f a))
      → Safe (m >>= f)
  chain m f = bind-Preserves (λ s. IsConnection s.0) m f

  encrypt_body-Safe : (body : List ℕ) → Safe (encrypt_body c inflate write read body)
  unfolding encrypt_body
  encrypt_body-Safe body (conn, w) v = v

  push_record-Safe : (wire : List ℕ) → Safe (push_record c inflate write read wire)
  unfolding push_record
  push_record-Safe wire (conn, w) v = v

  flush_records-Safe : Safe (flush_records c inflate write read)
  unfolding flush_records
  flush_records-Safe (conn, w) v = v

  write_record-Safe : (wire : List ℕ) → Safe (write_record c inflate write read wire)
  unfolding write_record
  write_record-Safe wire =
      chain (push_record c inflate write read wire) (λ _. flush_records c inflate write read)
        (push_record-Safe wire) (λ _. flush_records-Safe)

  send-Safe : (body : List ℕ) → Safe (send c inflate write read body)
  unfolding send
  send-Safe body =
      chain (encrypt_body c inflate write read body) (write_record c inflate write read)
        (encrypt_body-Safe body) write_record-Safe

  send_media_offer-Safe : Safe (send_media_offer c inflate write read)
  unfolding send_media_offer
  send_media_offer-Safe (conn, w) v =
      chain (encrypt_body c inflate write read conn.media_offer) (write_record c inflate write read)
        (encrypt_body-Safe conn.media_offer) write_record-Safe (conn, w) v

  take_chunk-Safe : (outcome : ReadOutcome) → Safe (take_chunk c inflate write read outcome)
  unfolding take_chunk
  take_chunk-Safe (received []) s v = v
  take_chunk-Safe (received (b ∷ chunk)) (conn, w) v =
      let small = leb (length (conn.pending ++ (b ∷ chunk))) (4 * 1024 * 1024) in
      chain (ensure small "control backlog exceeded limit") (λ _. pure true)
        (ensure-Preserves (λ (s : HpConnection × W). IsConnection s.0) small
          "control backlog exceeded limit")
        (λ _ s p. p) (record conn { pending = conn.pending ++ (b ∷ chunk) }, w) v
  take_chunk-Safe would_block s v = v
  take_chunk-Safe interrupted s v = v
  take_chunk-Safe (failed e) s v = v

  read_once-Safe : Safe (read_once c inflate write read)
  unfolding read_once
  read_once-Safe (conn, w) v = take_chunk-Safe (read w).0 (conn, (read w).1) v

  go_on-Safe :
      (more : Bool) (rest : Action (HpConnection × W) (Unit {0}))
      → Safe rest
      → Safe (go_on c inflate write read more rest)
  unfolding go_on
  go_on-Safe true rest h = h
  go_on-Safe false rest h = λ s v. v

  read_loop-Safe : (reads : ℕ) → Safe (read_loop c inflate write read reads)
  unfolding read_loop
  read_loop-Safe zero = λ s v. v
  read_loop-Safe (suc reads) =
      chain (read_once c inflate write read)
        (λ more. go_on c inflate write read more (read_loop c inflate write read reads))
        read_once-Safe
        (λ more. go_on-Safe more (read_loop c inflate write read reads) (read_loop-Safe reads))

  drain-Safe : Safe (drain c inflate write read)
  unfolding drain
  drain-Safe (conn, w) v = v

  note_layout-IsConnection :
      (d : Option Dimensions) (conn : HpConnection)
      → IsConnection conn
      → IsConnection (note_layout c inflate write read d conn)
  unfolding note_layout
  note_layout-IsConnection none conn v = v
  note_layout-IsConnection (some d) conn v = v

  take_config-Safe :
      (ltr : Bool) (config : StreamConfig)
      → config.ltr_enabled ≡ ltr
      → IsConfig config
      → Safe (take_config c inflate write read ltr config)
  unfolding take_config adopt_config
  take_config-Safe true config e h s v = v
  take_config-Safe false config e h s v = record {
    messages_ok = v.messages_ok;
    config_ok = (h, e, refl, refl);
  }

  note_answer-Safe :
      (r : Result (Option StreamConfig))
      → ((config : StreamConfig) → r ≡ ok (some config) → IsConfig config)
      → Safe (note_answer c inflate write read r)
  unfolding note_answer
  note_answer-Safe (err e) h s v = v
  note_answer-Safe (ok none) h s v = v
  note_answer-Safe (ok (some config)) h s v =
      take_config-Safe config.ltr_enabled config refl (h config refl) s v

  request_next-Safe :
      (due incremental : Bool) → Safe (request_next c inflate write read due incremental)
  unfolding request_next set_outstanding
  request_next-Safe false incremental = λ s v. v
  request_next-Safe true incremental = λ s v.
      chain (send c inflate write read (framebuffer_request incremental))
        (λ _ s. (ok tt, (set_outstanding c inflate write read true s.0, s.1)))
        (send-Safe (framebuffer_request incremental)) (λ _ s p. p)
        (set_outstanding c inflate write read false s.0, s.1) v

  inspect_control-Safe : (body : List ℕ) → Safe (inspect_control c inflate write read body)
  unfolding inspect_control
  inspect_control-Safe body (conn, w) v =
      let layout = display_layout body in
      chain (note_answer c inflate write read (parse_answer inflate body))
        (λ _ s.
          request_next c inflate write read (complete_update body && s.0.update_outstanding)
            (is_absent c inflate write read layout) s)
        (note_answer-Safe (parse_answer inflate body) (parse_answer-IsConfig inflate body))
        (λ _ s p.
          request_next-Safe (complete_update body && s.0.update_outstanding)
            (is_absent c inflate write read layout) s p)
        (note_layout c inflate write read layout conn, w) (note_layout-IsConnection layout conn v)

  keep_messages-Safe :
      (r : Result (List Message × Option (List ℕ))) → Safe (keep_messages c inflate write read r)
  unfolding keep_messages
  keep_messages-Safe (err e) = λ s v. v
  keep_messages-Safe (ok (messages, other)) = λ s v.
      elim (Bool-cases (leb (length s.0.file_messages + length messages) 256)) [
        | inr f ↦ rw f v
        | inl f ↦
            let sum : length (s.0.file_messages ++ messages) ≤ 256 =
              ground (arith, f, length-append s.0.file_messages messages) in
            rw f (record { messages_ok = sum; config_ok = v.config_ok })
      ]

  feed_body-Safe : (body : List ℕ) → Safe (feed_body c inflate write read body)
  unfolding feed_body
  feed_body-Safe body (conn, w) v =
      let fed = feed conn.file_decoder body in
      keep_messages-Safe fed.0 (record conn { file_decoder = fed.1 }, w) v

  inspect_other-Safe : (other : Option (List ℕ)) → Safe (inspect_other c inflate write read other)
  unfolding inspect_other
  inspect_other-Safe none = λ s v. v
  inspect_other-Safe (some other) =
      chain (inspect_control c inflate write read other) (λ _. pure (other ∷ []))
        (inspect_control-Safe other) (λ _ s v. v)

  handle_bodies-Safe :
      (bodies result : List (List ℕ)) → Safe (handle_bodies c inflate write read bodies result)
  unfolding handle_bodies
  handle_bodies-Safe [] result = λ s v. v
  handle_bodies-Safe (body ∷ bodies) result =
      chain (feed_body c inflate write read body) _ (feed_body-Safe body) (λ other.
        chain (inspect_other c inflate write read other)
          (λ found. handle_bodies c inflate write read bodies (result ++ found))
          (inspect_other-Safe other) (λ found. handle_bodies-Safe bodies (result ++ found)))

  resend-Safe : (due : Bool) → Safe (resend c inflate write read due)
  unfolding resend
  resend-Safe false = λ s v. v
  resend-Safe true =
      chain (send_media_offer c inflate write read) _ send_media_offer-Safe (λ _ s v. v)

  reoffer-Safe : (now : ℕ) → Safe (reoffer c inflate write read now)
  unfolding reoffer
  reoffer-Safe now (conn, w) v =
      let r = take_due conn.recovery now in resend-Safe r.0 (record conn { recovery = r.1 }, w) v

  -- Where it held before, it holds after `poll_control`, whatever the Mac sends, however the socket
  -- behaves, and whether the call ends with an error or not: at most 256 file messages wait, and the
  -- configuration of the stream, once there is one, is within the limits on the canvas and the tiles,
  -- without reference acknowledgements, and gives the connection its size.
  pub poll_control-IsConnection :
      (now : ℕ) (conn : HpConnection) (w : W)
      → IsConnection conn
      → IsConnection (poll_control c inflate write read now (conn, w)).1.0
  unfolding poll_control
  poll_control-IsConnection now conn w v =
      chain (flush_records c inflate write read) _ flush_records-Safe
        (λ _. chain (read_loop c inflate write read 8) _ (read_loop-Safe 8) (λ _.
          chain (drain c inflate write read) _ drain-Safe (λ bodies.
            chain (handle_bodies c inflate write read bodies []) _ (handle_bodies-Safe bodies [])
              (λ result.
                chain (reoffer c inflate write read now) _ (reoffer-Safe now) (λ _ s p. p)))))
        (conn, w) v
