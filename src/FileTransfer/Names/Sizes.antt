-- ===== src/FileTransfer/Names/Sizes.antt =====
-- file_transfer.rs: the size that `upload_metadata` announces, as `announced_size` reads it.
use macvnc.Base.{
  ℕ, ◌+◌, ◌^◌, ◌<◌, ◌≤◌, ◌≡◌, ◌≢◌, refl, sym, ap, inl, ◌∙◌, true, List, [], ◌∷◌, ◌++◌, append-nil,
  arith, none, some, ok, leb, ==_self, length, drop, All, be32, u32, u16_at, u32_at,
}
use macvnc.Base.Utf8.{encode_str, from_utf8, IsScalar, from_utf8-encode_str}
use macvnc.FileTransfer.{
  Message, message, feed, item_info, new_item, max_file_bytes, max_message_bytes,
}
use macvnc.FileTransfer.Encode.{
  Item, IsItem, encode, encode-ok, header, encode_all, encoded_size, nothing, feed-encode_all,
}
use macvnc.FileTransfer.Names.{
  same_text, validate_name, info_bytes, item_bytes, upload_metadata, announced_size,
}

pub same_text_self : (s : List ℕ) → same_text s s ≡ true
unfolding same_text
same_text_self [] = refl
same_text_self (c ∷ s) = rw (==_self c, same_text_self s) refl

abbrev pub info_message : ℕ → ℕ → Message
info_message session size = record {
  kind = item_info;
  session = session;
  argument = 1;
  payload = info_bytes (u32 size);
}

abbrev pub item_message : ℕ → List ℕ → ℕ → Message
item_message session name size = record {
  kind = new_item;
  session = session;
  argument = 0x01000000;
  payload = item_bytes (u32 size) (encode_str name);
}

pub announced_size-info :
    (session size : ℕ)
    → size ≤ max_file_bytes
    → announced_size (info_message session size) ≡ ok (some size)
unfolding announced_size
announced_size-info session size h =
    let value : u32_at (info_bytes (u32 size)) 8 ≡ size = omega arith in
    rw (same_text_self (be32 (u32 size)), value) refl

-- A valid name has at most 255 bytes.
pub validate_name-le : (name : List ℕ) → validate_name name ≡ ok tt → length (encode_str name) ≤ 255
unfolding validate_name
validate_name-le name e = ground (arith, e)

-- What `announced_size` makes of a new item whose payload is in order.
announced_size_item :
    (session argument : ℕ) (b name : List ℕ)
    → leb 100 (length b) ≡ true
    → u16_at b 90 ≡ 0o100644
    → 100 + u16_at b 96 ≡ length b
    → from_utf8 (drop 100 b) ≡ some name
    → validate_name name ≡ ok tt
    → announced_size
        (record { kind = new_item; session = session; argument = argument; payload = b })
      ≡ ok (some (u32_at b 42))
unfolding announced_size
announced_size_item session argument b name h mode size text e =
    rw (h, mode, size, ==_self (length b), text, e) refl

pub announced_size-item :
    (session : ℕ) (name : List ℕ) (size : ℕ)
    → All IsScalar name
    → validate_name name ≡ ok tt
    → size ≤ max_file_bytes
    → announced_size (item_message session name size) ≡ ok (some size)
announced_size-item session name size v e h =
    let bytes = item_bytes (u32 size) (encode_str name) in
    let small = validate_name-le name e in
    let value : u32_at bytes 42 ≡ size = omega arith in
    announced_size_item session 0x01000000 bytes name (ground arith) refl (omega (arith, small))
      (from_utf8-encode_str name v) e
    ∙ ap (λ n. ok (some n)) value

-- The bytes of two messages, one after the other.
feed_two :
    (a b : Item) (x y : List ℕ)
    → IsItem a
    → IsItem b
    → encode a ≡ ok x
    → encode b ≡ ok y
    → encoded_size (a ∷ b ∷ []) ≤ max_message_bytes + 65520
    → feed (record { pending = [] }) (x ++ y)
      ≡ (ok (a.content ∷ b.content ∷ [], none), record { pending = [] })
unfolding encode_all
feed_two a b x y v w e f h =
    let (wire, made, fed) =
      feed-encode_all a (b ∷ []) {tail = []} v (w, tt) nothing (omega (arith, h)) in
    let sum : encode_all (a ∷ b ∷ []) ≡ ok (x ++ (y ++ [])) = rw (e, f) refl in
    let same : wire ≡ x ++ (y ++ []) = cc in
    let bytes : wire ++ [] ≡ x ++ y = append-nil wire ∙ same ∙ ap (λ z. x ++ z) (append-nil y) in
    ap (λ z. feed (record { pending = [] }) z) (sym bytes) ∙ fed

upload_metadata-ok :
    (session : ℕ) (name : List ℕ) (size : ℕ) (info item : List ℕ)
    → validate_name name ≡ ok tt
    → size ≤ max_file_bytes
    → message 0 item_info session 1 (info_bytes (u32 size)) ≡ ok info
    → message 0 new_item session 0x01000000 (item_bytes (u32 size) (encode_str name)) ≡ ok item
    → upload_metadata session name size ≡ ok (info, item)
unfolding upload_metadata
upload_metadata-ok session name size info item e h f g =
    let small : leb size max_file_bytes ≡ true = ground arith in rw (e, small, f, g) refl

-- The messages that announce a file are well formed: for a name that is valid and a size below 4 GiB
-- they are made without an error, a fresh decoder finds exactly the two in their bytes, and each of
-- the two announces the size.
pub announced_size-upload_metadata :
    (session : ℕ) (name : List ℕ) (size : ℕ)
    → session ≢ 0
    → session < 2 ^ 32
    → All IsScalar name
    → validate_name name ≡ ok tt
    → size ≤ max_file_bytes
    → (info : List ℕ) × (item : List ℕ) × (first : Message) × (second : Message) × (upload_metadata
          session name size
        ≡ ok (info, item))
      × (feed (record { pending = [] }) (info ++ item)
          ≡ (ok (first ∷ second ∷ [], none), record { pending = [] }))
      × (announced_size first ≡ ok (some size))
      × (announced_size second ≡ ok (some size))
announced_size-upload_metadata session name size n k v e h =
    let small = validate_name-le name e in
    let a : Item = record { subtype = 0; content = info_message session size } in
    let b : Item = record { subtype = 0; content = item_message session name size } in
    let a_ok : IsItem a = record {
      subtype_ok = inl refl;
      kind_ok = omega arith;
      session_nonzero = n;
      session_ok = k;
      argument_ok = omega arith;
      payload_ok = omega arith;
    } in
    let b_ok : IsItem b = record {
      subtype_ok = inl refl;
      kind_ok = omega arith;
      session_nonzero = n;
      session_ok = k;
      argument_ok = omega arith;
      payload_ok = omega (arith, small);
    } in
    let info = header a ++ a.content.payload in
    let item = header b ++ b.content.payload in
    (
      info,
      item,
      a.content,
      b.content,
      upload_metadata-ok session name size info item e h (encode-ok a a_ok) (encode-ok b b_ok),
      feed_two a b info item a_ok b_ok (encode-ok a a_ok) (encode-ok b b_ok) (omega (arith, small)),
      announced_size-info session size h,
      announced_size-item session name size v e h,
    )
