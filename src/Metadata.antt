-- ===== src/Metadata.antt =====
-- rust/crates/hp-protocol/src/metadata.rs: what the client reads of the Mac's answers and updates. A
-- cursor into a buffer is the rest of the buffer; `1 << shift` bits of a varint are written as products.
pub mod Rects
pub mod Varint
pub mod Fields
pub mod Update
pub mod Answer
mod Tests
use macvnc.Base.{
  ℕ, zero, suc, ◌+◌, ◌-◌, ◌*◌, ◌/◌, ◌%◌, ◌^◌, Bool, true, false, not, ◌&&◌, ◌||◌, List, [], ◌∷◌,
  ◌++◌, Option, none, some, Result, ok, err, ensure, ◌>>=◌, ◌>>◌, ltb, leb, ◌==◌, if◌then◌else◌,
  length, take, drop, get_or, u16_at, u32_at,
}
unfoldable pub use macvnc.Metadata.Rects.{
  last_rect, resize_rect, layout_rect, is_sized, rect_size, layout_of, scan_rects, scan_update,
  complete_update, display_layout,
}
use Prim.Native.Nat.{bit_or}

-- The loop of `varint`, by the rounds that are left and the shift: the value and the rest behind it.
pub varint_loop : ℕ → ℕ → ℕ → List ℕ → Result (ℕ × List ℕ)
varint_loop zero shift v b = err "invalid protobuf varint"
varint_loop (suc rounds) shift v [] = err "truncated protobuf varint"
varint_loop (suc rounds) shift v (c ∷ b) =
    let v' = bit_or (c % 128 * 2 ^ shift) v in
    let more = varint_loop rounds (shift + 7) v' b in
    if not (not (shift == 63) || leb c 1)
    then err "protobuf varint overflow"
    else if c / 128 % 2 == 0
    then ok (v', b)
    else more

pub varint : List ℕ → Result (ℕ × List ℕ)
varint b = varint_loop 10 0 0 b

-- `ProtoField`
pub record ProtoField : Type 0 where
  pub number : ℕ
  pub value : Option ℕ
  pub bytes : List ℕ

-- The value and the length by the wire type, with the rest behind them.
pub wire_value : ℕ → List ℕ → Result (Option ℕ × ℕ × List ℕ)
wire_value wire b =
    if wire == 0
    then varint b >>= (λ r. ok (some r.0, 0, r.1))
    else if wire == 1
    then ok (none, 8, b)
    else if wire == 2
    then varint b >>= (λ r. ok (none, r.0, r.1))
    else if wire == 5
    then ok (none, 4, b)
    else err "unsupported protobuf wire type"

-- One round of the loop of `fields`.
pub field_at : List ℕ → Result (ProtoField × List ℕ)
field_at b = do
  (tag, b1) ← varint b
  ensure (not (tag / 8 == 0)) "invalid protobuf field"
  (value, size, b2) ← wire_value (tag % 8) b1
  ensure (leb size (length b2)) "truncated protobuf field"
  ok (record { number = tag / 8; value = value; bytes = take size b2 }, drop size b2)

-- The loop of `fields`, with the number of fields before. A round takes a byte at least, so that
-- `length b` rounds are enough.
pub fields_loop : ℕ → ℕ → List ℕ → Result (List ProtoField)
fields_loop fuel count [] = ok []
fields_loop zero count (c ∷ b) = err "out of fuel"
fields_loop (suc fuel) count (c ∷ b) =
    if not (ltb count 4096)
    then err "protobuf field count exceeds limit"
    else elim (field_at (c ∷ b)) [
      | err e ↦ err e
      | ok (f, rest) ↦ elim (fields_loop fuel (suc count) rest) [
        | err e ↦ err e
        | ok fs ↦ ok (f ∷ fs)
      ]
    ]

pub fields : List ℕ → Result (List ProtoField)
fields b = do
  ensure (leb (length b) (1024 * 1024)) "protobuf exceeds input limit"
  fields_loop (length b) 0 b

pub record StreamConfig : Type 0 where
  pub width : ℕ
  pub height : ℕ
  pub tile_count : ℕ
  pub ltr_enabled : Bool

-- What `video_config` collects of one candidate.
pub record Geometry : Type 0 where
  pub w : ℕ
  pub h : ℕ
  pub tiles : ℕ
  pub ltr : Bool

pub set_field : Geometry → ProtoField → Geometry
set_field g f = elim f.value [
  | none ↦ g
  | some v ↦
      if f.number == 4
      then record g { w = v }
      else if f.number == 5
      then record g { h = v }
      else if f.number == 6
      then record g { tiles = v }
      else if f.number == 7
      then record g { ltr = not (v == 0) }
      else g
]

pub geometry : Geometry → List ProtoField → Geometry
geometry g [] = g
geometry g (f ∷ fs) = geometry (set_field g f) fs

-- The tests of `video_config` on what it has collected: `none` where the search goes on.
pub config_of : Geometry → Result (Option StreamConfig)
config_of g =
    if not (ltb 0 g.w && ltb 0 g.h)
    then ok none
    else if not (leb g.w 16384 && leb g.h 16384 && leb (g.w * g.h) 67108864)
    then err "HP canvas exceeds limits"
    else if not (leb 1 g.tiles && leb g.tiles 64)
    then err "invalid negotiated tile count"
    else ok (
        some (record {
          width = g.w % 2 ^ 16;
          height = g.h % 2 ^ 16;
          tile_count = g.tiles % 2 ^ 16;
          ltr_enabled = g.ltr;
        }))

-- The loop of `video_config`.
pub first_config : List ProtoField → Result (Option StreamConfig)
first_config [] = ok none
first_config (f ∷ fs) =
    let rest = first_config fs in
    if not (f.number == 5) then rest else elim (fields f.bytes) [
      | err e ↦ err e
      | ok sub ↦ elim (config_of (geometry (record { w = 0; h = 0; tiles = 1; ltr = false }) sub)) [
        | err e ↦ err e
        | ok (some config) ↦ ok (some config)
        | ok none ↦ rest
      ]
    ]

pub video_config : List ℕ → Result (Option StreamConfig)
video_config b = fields b >>= first_config

-- The test of `parse_answer` on two bytes: a zlib header.
pub is_zlib : ℕ → ℕ → Bool
is_zlib a b = a == 0x78 && (a * 2 ^ 8 + b) % 31 == 0

-- `windows(8).position(|w| w == b"bplist00")`, with the list from there on.
pub is_prefix : List ℕ → List ℕ → Bool
is_prefix [] b = true
is_prefix (c ∷ cs) [] = false
is_prefix (c ∷ cs) (x ∷ b) = c == x && is_prefix cs b

abbrev pub plist_anchor : List ℕ
plist_anchor = b'b' ∷ b'p' ∷ b'l' ∷ b'i' ∷ b's' ∷ b't' ∷ b'0' ∷ b'0' ∷ []

pub from_anchor : List ℕ → Option (List ℕ)
from_anchor [] = none
from_anchor (c ∷ b) =
    let rest = from_anchor b in if is_prefix plist_anchor (c ∷ b) then some (c ∷ b) else rest

-- What `ZlibDecoder` with `take` makes of a buffer and a limit: whether it ends without an error, and
-- the bytes that it has delivered.
abbrev pub Inflate : Type 0
Inflate = List ℕ → ℕ → Bool × List ℕ

module _ (inflate : Inflate) where
  -- The loop of `parse_answer`, over the suffixes of the body; `attempts` and `expanded` as there.
  pub scan_answer : ℕ → ℕ → List ℕ → Result (Option StreamConfig)
  scan_answer attempts expanded [] = ok none
  scan_answer attempts expanded (a ∷ []) = ok none
  scan_answer attempts expanded (a ∷ b ∷ rest) = elim (is_zlib a b) [
    | false ↦ scan_answer attempts expanded (b ∷ rest)
    | true ↦
        let (complete, out) = inflate (a ∷ b ∷ rest) (1024 * 1024 - expanded + 1) in
        elim (leb (attempts + 1) 32) [
          | false ↦ err "media answer zlib candidate limit exceeded"
          | true ↦ elim (leb (expanded + length out) (1024 * 1024)) [
            | false ↦ err "media answer expands beyond limit"
            | true ↦ elim complete [
              | false ↦ scan_answer (attempts + 1) (expanded + length out) (b ∷ rest)
              | true ↦ elim (video_config out) [
                | err e ↦ scan_answer (attempts + 1) (expanded + length out) (b ∷ rest)
                | ok none ↦ scan_answer (attempts + 1) (expanded + length out) (b ∷ rest)
                | ok (some config) ↦ ok (some config)
              ]
            ]
          ]
        ]
  ]

  pub parse_answer : List ℕ → Result (Option StreamConfig)
  parse_answer body =
      if not (leb (length body) 65498)
      then err "media answer exceeds control record limit"
      else if ltb (length body) 1 || not (get_or body 0 0 == 0)
      then ok none
      else elim (from_anchor body) [ none ↦ ok none | some start ↦ scan_answer 0 0 start ]
