-- ===== src/FileTransfer/Encode.antt =====
-- file_transfer.rs: what `message` writes, `feed` reads back.
use macvnc.Base.{
  ℕ, suc, ◌+◌, ◌^◌, ◌<◌, ◌≤◌, ◌≡◌, ◌≢◌, refl, subst, List, [], ◌∷◌, ◌⊎◌, inl, ◌++◌, append_assoc,
  append-nil, sym, ap, ◌∙◌, arith, length, take, drop, length-append, get_or, u16_at, u32_at,
  take_left, drop_left, be16, be32, u32, All, Option, none, some, Result, ok, ◌>>=◌,
}
use macvnc.FileTransfer.{Message, message, message_at, max_message_bytes, is_empty, feed}
use macvnc.FileTransfer.Stream.{HasMessage, Parsed, at_end, control, partial, next}
use macvnc.FileTransfer.Feed.{feed_complete}
use mathlib.Core.List.{map}

-- A message with the subtype that it is sent under, and the values that its fields can hold.
pub record Item : Type 0 where
  pub subtype : ℕ
  pub content : Message

pub record IsItem (m : Item) : Type 0 where
  pub subtype_ok : (m.subtype ≡ 0) ⊎ (m.subtype ≡ 2)
  pub kind_ok : m.content.kind < 2 ^ 16
  pub session_nonzero : m.content.session ≢ 0
  pub session_ok : m.content.session < 2 ^ 32
  pub argument_ok : m.content.argument < 2 ^ 32
  pub payload_ok : length m.content.payload ≤ 65480

abbrev pub encode : Item → Result (List ℕ)
encode m = message m.subtype m.content.kind m.content.session m.content.argument m.content.payload

-- The bytes before the payload.
abbrev pub header : Item → List ℕ
header m =
    0x22 ∷ m.subtype ∷ be32 (12 + u32 (length m.content.payload))
    ++ (be16 1 ++ (be16 m.content.kind ++ (be32 m.content.session ++ be32 m.content.argument)))

pub encode-ok : (m : Item) → IsItem m → encode m ≡ ok (header m ++ m.content.payload)
unfolding message
encode-ok m v = ground arith

abbrev nine : ℕ → ℕ
nine n = suc (suc (suc (suc (suc (suc (suc (suc (suc n))))))))

abbrev after_header : ℕ → ℕ
after_header n = suc (suc (suc (suc (suc (suc (suc (suc (suc (nine n)))))))))

module _ (m : Item) (v : IsItem m) (more : List ℕ) where
  abbrev buffer : List ℕ
  buffer = header m ++ (m.content.payload ++ more)

  buffer_size : u32_at buffer 2 ≡ 12 + length m.content.payload
  buffer_size = omega (arith, v.payload_ok)

  buffer-HasMessage : HasMessage buffer
  buffer-HasMessage = record {
    tag = refl;
    subtype = v.subtype_ok;
    at_least = omega (arith, v.payload_ok);
    at_most = omega (arith, v.payload_ok);
    whole = omega (arith, v.payload_ok, length-append m.content.payload more);
    version = refl;
  }

  -- `6 + len`, with the header's 18 bytes as successors.
  through_header : 6 + u32_at buffer 2 ≡ after_header (length m.content.payload)
  through_header = omega (arith, v.payload_ok)

  buffer_message : message_at buffer (u32_at buffer 2) ≡ m.content
  unfolding message_at
  buffer_message =
      let payload : drop 18 (take (6 + u32_at buffer 2) buffer) ≡ m.content.payload =
        rw through_header (take_left _ m.content.payload more refl) in
      let kind : u16_at buffer 8 ≡ m.content.kind = omega (arith, v.kind_ok) in
      let session : u32_at buffer 10 ≡ m.content.session = omega (arith, v.session_ok) in
      let argument : u32_at buffer 14 ≡ m.content.argument = omega (arith, v.argument_ok) in
      λ i. record { kind = kind i; session = session i; argument = argument i; payload = payload i }

  buffer_rest : drop (6 + u32_at buffer 2) buffer ≡ more
  buffer_rest = rw through_header (drop_left _ m.content.payload more refl)

-- The bytes of several messages, one after the other.
unfoldable pub encode_all : List Item → Result (List ℕ)
encode_all [] = ok []
encode_all (m ∷ items) = do first ← encode m; others ← encode_all items; ok (first ++ others)

abbrev pub contents : List Item → List Message
contents = map (λ m. m.content)

-- 18 bytes and the payload for each message.
abbrev pub encoded_size : List Item → ℕ
encoded_size [] = 0
encoded_size (m ∷ items) = 18 + length m.content.payload + encoded_size items

Parsed-encode_all :
    (items : List Item) {tail left : List ℕ} {other : Option (List ℕ)}
    → All IsItem items
    → Parsed tail [] other left
    → (wire : List ℕ) × (encode_all items ≡ ok wire)
      × (length wire ≡ encoded_size items)
      × Parsed (wire ++ tail) (contents items) other left
unfolding encode_all
Parsed-encode_all [] v p = ([], refl, refl, p)
Parsed-encode_all (m ∷ items) {tail} {left} {other} (v, vs) p =
    let (wire, e, size, parsed) = Parsed-encode_all items vs p in
    (
      (header m ++ m.content.payload) ++ wire,
      rw (encode-ok m v, e),
      omega (
        arith,
        size,
        length-append (header m ++ m.content.payload) wire,
        length-append (header m) m.content.payload,
      ),
      rw (append_assoc m.content.payload wire tail) (
          subst
            (λ x.
              Parsed (header m ++ (m.content.payload ++ (wire ++ tail))) (x ∷ contents items) other
                left)
            (buffer_message m v (wire ++ tail))
            (next (buffer-HasMessage m v (wire ++ tail))
              (rw (buffer_rest m v (wire ++ tail)) parsed))),
    )

-- What may follow the messages, and what `feed` makes of it: nothing, control data, which are
-- returned, or a part of a further message, which is kept.
pub data Follows : List ℕ → Option (List ℕ) → List ℕ → Type 0 where
  nothing : Follows [] none []
  control_data : (x : ℕ) (tail : List ℕ) → x ≢ 0x22 → Follows (x ∷ tail) (some (x ∷ tail)) []
  first_bytes : (tail : List ℕ) → length tail < 5 → Follows (0x22 ∷ tail) none (0x22 ∷ tail)

Follows-Parsed :
    {tail left : List ℕ} {other : Option (List ℕ)}
    → Follows tail other left
    → Parsed tail [] other left
unfolding is_empty
Follows-Parsed nothing = at_end
Follows-Parsed (control_data x tail h) = control refl h
Follows-Parsed (first_bytes tail h) = partial (record { tag = refl; part = inl (omega arith) })

Parsed-tag :
    {rest left : List ℕ} {m : Message} {messages : List Message} {other : Option (List ℕ)}
    → Parsed rest (m ∷ messages) other left
    → get_or rest 0 0 ≡ 0x22
Parsed-tag (next m more) = m.tag

-- One message or more, with fields in range, are encoded without an error, and where the limit on
-- the buffer admits all bytes, `feed` of a fresh decoder on them returns exactly the messages, in
-- order, with what follows them: other control data are handed back, and fewer than six first bytes
-- of a further message are kept.
pub feed-encode_all :
    (m : Item) (items : List Item) {tail left : List ℕ} {other : Option (List ℕ)}
    → IsItem m
    → All IsItem items
    → Follows tail other left
    → encoded_size (m ∷ items) + length tail ≤ max_message_bytes + 65520
    → (wire : List ℕ) × (encode_all (m ∷ items) ≡ ok wire)
      × (feed (record { pending = [] }) (wire ++ tail)
          ≡ (ok (contents (m ∷ items), other), record { pending = left }))
feed-encode_all m items {tail} v vs f h =
    let (wire, e, size, p) = Parsed-encode_all (m ∷ items) (v, vs) (Follows-Parsed f) in
    let tag = Parsed-tag p in
    (
      wire,
      e,
      feed_complete (record { pending = [] }) (wire ++ tail)
          (unfold is_empty in ground (arith, tag)) (omega (arith, size, length-append wire tail)) p,
    )

-- The bytes of one message.
pub feed_one :
    (a : Item) (x : List ℕ)
    → IsItem a
    → encode a ≡ ok x
    → encoded_size (a ∷ []) ≤ max_message_bytes + 65520
    → feed (record { pending = [] }) x ≡ (ok (a.content ∷ [], none), record { pending = [] })
unfolding encode_all
feed_one a x v e h =
    let (wire, made, fed) = feed-encode_all a [] {tail = []} v tt nothing (omega (arith, h)) in
    let sum : encode_all (a ∷ []) ≡ ok (x ++ []) = rw e refl in
    let same : wire ≡ x ++ [] = cc in
    let bytes : wire ++ [] ≡ x = append-nil wire ∙ same ∙ append-nil x in
    ap (λ z. feed (record { pending = [] }) z) (sym bytes) ∙ fed
