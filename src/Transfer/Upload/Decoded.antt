-- ===== src/Transfer/Upload/Decoded.antt =====
-- transfer.rs: what a decoder finds in the bodies that an upload sends.
use macvnc.Base.{
  ℕ, ◌^◌, ◌≤◌, ◌<◌, ◌≡◌, ◌≢◌, inl, refl, ap, ◌∙◌, not, List, [], ◌∷◌, ◌++◌, none, ok, arith, ◌==◌,
  leb, length, u32, bind_ok, ensure_ok,
}
use macvnc.Base.Utf8.{encode_str}
use macvnc.FileTransfer.{
  Message, Decoder, message, feed, chunk, end, item_info, new_item, data_kind, end_kind,
  chunk_bytes, max_file_bytes,
}
use macvnc.FileTransfer.Encode.{feed_one}
use macvnc.FileTransfer.Names.{upload_metadata, validate_name, info_bytes, item_bytes}
use macvnc.FileTransfer.Names.Sizes.{info_message, item_message, validate_name-le}
use macvnc.Transfer.Upload.Chunks.{Carries}

abbrev pub fresh : Decoder
fresh = record { pending = [] }

-- A fresh decoder finds exactly one message in each body.
abbrev pub Decodes : List (List ℕ) → List Message → Type 0
Decodes [] [] = Unit {0}
Decodes [] (m ∷ ms) = ⊥
Decodes (body ∷ bodies) [] = ⊥
Decodes (body ∷ bodies) (m ∷ ms) =
    (feed fresh body ≡ (ok (m ∷ [], none), fresh)) × Decodes bodies ms

abbrev pub data_message : ℕ → List ℕ → Message
data_message id piece = record {
  kind = data_kind;
  session = id;
  argument = length piece;
  payload = piece;
}

abbrev pub end_message : ℕ → Message
end_message id = record { kind = end_kind; session = id; argument = 0; payload = [] }

abbrev pub data_messages : ℕ → List (List ℕ) → List Message
data_messages id [] = []
data_messages id (piece ∷ pieces) = data_message id piece ∷ data_messages id pieces

message_session :
    (subtype kind session argument : ℕ) (payload : List ℕ) {body : List ℕ}
    → message subtype kind session argument payload ≡ ok body
    → session ≢ 0
unfolding message
message_session subtype kind session argument payload e =
    let (h, _) = ensure_ok (not (session == 0)) _ _ e in ground (arith, h)

-- A message of subtype 0 whose fields are in range is read back.
feed-message :
    (m : Message) (body : List ℕ)
    → m.kind < 2 ^ 16
    → m.session < 2 ^ 32
    → m.argument < 2 ^ 32
    → length m.payload ≤ 65480
    → message 0 m.kind m.session m.argument m.payload ≡ ok body
    → feed fresh body ≡ (ok (m ∷ [], none), fresh)
feed-message m body k s a p e =
    feed_one (record { subtype = 0; content = m }) body
      (record {
        subtype_ok = inl refl;
        kind_ok = k;
        session_nonzero = message_session 0 m.kind m.session m.argument m.payload e;
        session_ok = s;
        argument_ok = a;
        payload_ok = p;
      })
      e (omega (arith, p))

feed-chunk :
    (id : ℕ) (piece body : List ℕ)
    → id < 2 ^ 32
    → length piece ≤ chunk_bytes
    → chunk id piece ≡ ok body
    → feed fresh body ≡ (ok (data_message id piece ∷ [], none), fresh)
unfolding chunk
feed-chunk id piece body small size e =
    let (_, e₁) = ensure_ok (leb (length piece) chunk_bytes) _ _ e in
    let same : u32 (length piece) ≡ length piece = omega (arith, size) in
    feed-message (data_message id piece) body (omega arith) small (omega (arith, size))
      (omega (arith, size)) (rw same at e₁)

feed-end :
    (id : ℕ) (body : List ℕ)
    → id < 2 ^ 32
    → end id ≡ ok body
    → feed fresh body ≡ (ok (end_message id ∷ [], none), fresh)
unfolding end
feed-end id body small e =
    feed-message (end_message id) body (omega arith) small (omega arith) (omega arith) e

-- The bodies of an upload hold the pieces and the end.
pub Carries-Decodes :
    (id : ℕ) (pieces bodies : List (List ℕ)) (last : List ℕ)
    → id < 2 ^ 32
    → Carries id pieces bodies
    → end id ≡ ok last
    → Decodes (bodies ++ (last ∷ [])) (data_messages id pieces ++ (end_message id ∷ []))
Carries-Decodes id [] [] last small c e = (feed-end id last small e, tt)
Carries-Decodes id [] (body ∷ bodies) last small c e = absurd c
Carries-Decodes id (piece ∷ pieces) [] last small c e = absurd c
Carries-Decodes id (piece ∷ pieces) (body ∷ bodies) last small (size, made, more) e =
    (feed-chunk id piece body small size made, Carries-Decodes id pieces bodies last small more e)

-- The two announcements.
pub feed-upload_metadata :
    (id : ℕ) (name : List ℕ) (size : ℕ) (info item : List ℕ)
    → id < 2 ^ 32
    → upload_metadata id name size ≡ ok (info, item)
    → (validate_name name ≡ ok tt)
      × (feed fresh info ≡ (ok (info_message id size ∷ [], none), fresh))
      × (feed fresh item ≡ (ok (item_message id name size ∷ [], none), fresh))
unfolding upload_metadata
feed-upload_metadata id name size info item small e =
    let (_, valid, e₁) = bind_ok (validate_name name) _ e in
    let (_, e₂) = ensure_ok (leb size max_file_bytes) _ _ e₁ in
    let (a, made, e₃) = bind_ok (message 0 item_info id 1 (info_bytes (u32 size))) _ e₂ in
    let (b, made', e₄) =
      bind_ok (message 0 new_item id 0x01000000 (item_bytes (u32 size) (encode_str name))) _ e₃ in
    let first : a ≡ info = cc in
    let second : b ≡ item = cc in
    let short = validate_name-le name valid in
    (
      valid,
      feed-message (info_message id size) info (omega arith) small (omega arith) (omega arith)
          (made ∙ ap ok first),
      feed-message (item_message id name size) item (omega arith) small (omega arith)
          (omega (arith, short)) (made' ∙ ap ok second),
    )
