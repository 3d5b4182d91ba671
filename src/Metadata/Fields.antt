-- ===== src/Metadata/Fields.antt =====
-- metadata.rs: `fields` against an encoder of fields, and what it can return.
pub mod Loop
use macvnc.Base.{
  ℕ, zero, suc, ◌+◌, ◌*◌, ◌/◌, ◌%◌, ◌^◌, ◌<◌, ◌≤◌, ◌≡◌, refl, inl, inr, List, [], ◌∷◌, ◌++◌,
  append_assoc, true, false, arith, Option, none, some, ok, Result-cases, le→leb, ltb, leb, ◌==◌,
  length, All, length-append, length-take, length-drop, take_left, drop_left,
}
use Prim.Native.Nat.{bit_or}
use macvnc.Metadata.{varint_loop, varint, ProtoField, wire_value, field_at, fields_loop, fields}
use macvnc.Metadata.Varint.{put_varint, varint-put_varint}
use mathlib.Core.List.{map}

-- A field as it is sent, by its wire type.
pub data WireField : Type 0 where
  number : ℕ → ℕ → WireField
  fixed64 : ℕ → List ℕ → WireField
  delimited : ℕ → List ℕ → WireField
  fixed32 : ℕ → List ℕ → WireField

unfoldable pub put_field : WireField → List ℕ
put_field (number n v) = put_varint (n * 8) ++ put_varint v
put_field (fixed64 n bytes) = put_varint (n * 8 + 1) ++ bytes
put_field (delimited n bytes) = put_varint (n * 8 + 2) ++ (put_varint (length bytes) ++ bytes)
put_field (fixed32 n bytes) = put_varint (n * 8 + 5) ++ bytes

unfoldable pub field_of : WireField → ProtoField
field_of (number n v) = record { number = n; value = some v; bytes = [] }
field_of (fixed64 n bytes) = record { number = n; value = none; bytes = bytes }
field_of (delimited n bytes) = record { number = n; value = none; bytes = bytes }
field_of (fixed32 n bytes) = record { number = n; value = none; bytes = bytes }

abbrev IsNumber : ℕ → Type 0
IsNumber n = (0 < n) × (n < 2 ^ 61)

abbrev pub IsWireField : WireField → Type 0
IsWireField (number n v) = IsNumber n × (v < 2 ^ 64)
IsWireField (fixed64 n bytes) = IsNumber n × (length bytes ≡ 8)
IsWireField (delimited n bytes) = IsNumber n × (length bytes < 2 ^ 64)
IsWireField (fixed32 n bytes) = IsNumber n × (length bytes ≡ 4)

-- What a field's tag and length give, and what is left behind its bytes.
field_lem :
    (n wire size : ℕ) (value : Option ℕ) (b bytes rest : List ℕ)
    → IsNumber n
    → wire < 8
    → wire_value wire b ≡ ok (value, size, bytes ++ rest)
    → size ≡ length bytes
    → field_at (put_varint (n * 8 + wire) ++ b)
      ≡ ok (record { number = n; value = value; bytes = bytes }, rest)
unfolding field_at
field_lem n wire size value b bytes rest h k e same =
    let tag = varint-put_varint (n * 8 + wire) b (omega (arith, h.1)) in
    let up : (n * 8 + wire) / 8 ≡ n = omega arith in
    let low : (n * 8 + wire) % 8 ≡ wire = omega arith in
    let valid : (n == 0) ≡ false = ground (arith, h.0) in
    let whole : leb (length bytes) (length (bytes ++ rest)) ≡ true =
      ground (arith, length-append bytes rest) in
    rw
      (
        tag,
        up,
        low,
        valid,
        e,
        same,
        whole,
        take_left _ bytes rest refl,
        drop_left _ bytes rest refl,
      )
      refl

field_at-put_field :
    (w : WireField) (rest : List ℕ)
    → IsWireField w
    → field_at (put_field w ++ rest) ≡ ok (field_of w, rest)
unfolding put_field field_of wire_value
field_at-put_field (number n v) rest (h, k) =
    let value = varint-put_varint v rest k in
    let e : n * 8 ≡ n * 8 + 0 = omega arith in
    rw (append_assoc (put_varint (n * 8)) (put_varint v) rest, e)
      (field_lem n 0 0 (some v) (put_varint v ++ rest) [] rest h (omega arith) (rw value refl) refl)
field_at-put_field (fixed64 n bytes) rest (h, k) =
    rw (append_assoc (put_varint (n * 8 + 1)) bytes rest)
      (field_lem n 1 8 none (bytes ++ rest) bytes rest h (omega arith) refl (omega (arith, k)))
field_at-put_field (delimited n bytes) rest (h, k) =
    let size = varint-put_varint (length bytes) (bytes ++ rest) k in
    rw
      (
        append_assoc (put_varint (n * 8 + 2)) (put_varint (length bytes) ++ bytes) rest,
        append_assoc (put_varint (length bytes)) bytes rest,
      )
      (field_lem n 2 (length bytes) none (put_varint (length bytes) ++ (bytes ++ rest)) bytes rest h
        (omega arith) (rw size refl) refl)
field_at-put_field (fixed32 n bytes) rest (h, k) =
    rw (append_assoc (put_varint (n * 8 + 5)) bytes rest)
      (field_lem n 5 4 none (bytes ++ rest) bytes rest h (omega arith) refl (omega (arith, k)))

unfoldable pub put_fields : List WireField → List ℕ
put_fields [] = []
put_fields (w ∷ ws) = put_field w ++ put_fields ws

-- A successful read takes a byte at least.
varint_loop-lt :
    (rounds shift acc : ℕ) (b : List ℕ) (v : ℕ) (rest : List ℕ)
    → varint_loop rounds shift acc b ≡ ok (v, rest)
    → length rest < length b
unfolding varint_loop
varint_loop-lt zero shift acc b v rest e = cc
varint_loop-lt (suc rounds) shift acc [] v rest e = cc
varint_loop-lt (suc rounds) shift acc (c ∷ b) v rest e =
    ground (arith, varint_loop-lt rounds (shift + 7) (bit_or (c % 128 * 2 ^ shift) acc) b v rest)

varint-lt : (b : List ℕ) {v : ℕ} {rest : List ℕ} → varint b ≡ ok (v, rest) → length rest < length b
unfolding varint
varint-lt b {v} {rest} e = varint_loop-lt 10 0 0 b v rest e

wire_value-le :
    (wire : ℕ) (b : List ℕ) {value : Option ℕ} {size : ℕ} {rest : List ℕ}
    → wire_value wire b ≡ ok (value, size, rest)
    → length rest ≤ length b
unfolding wire_value
wire_value-le wire b e = elim (Result-cases (varint b)) [
  | inl (m, bad) ↦ ground (arith, e, bad)
  | inr ((v, r), good) ↦ ground (arith, e, good, varint-lt b good)
]

pub field_at-lt :
    (b : List ℕ) {f : ProtoField} {rest : List ℕ}
    → field_at b ≡ ok (f, rest)
    → length rest + length f.bytes < length b
unfolding field_at
field_at-lt b {f} {rest} e = elim (Result-cases (varint b)) [
  | inl (m, bad) ↦ ground (arith, e, bad)
  | inr ((tag, b1), good) ↦ elim (Result-cases (wire_value (tag % 8) b1)) [
    | inl (m, bad) ↦ ground (arith, e, good, bad)
    | inr ((value, size, b2), found) ↦
        let cut = length-drop size b2 in
        let kept = length-take size b2 in
        ground
          (arith, e, good, found, cut, kept, varint-lt b good, wire_value-le (tag % 8) b1 found)
  ]
]

abbrev pub sizes : List ProtoField → ℕ
sizes [] = 0
sizes (f ∷ fs) = length f.bytes + sizes fs

fields_loop_bounds :
    (fuel count : ℕ) (b : List ℕ) (fs : List ProtoField)
    → count ≤ 4096
    → fields_loop fuel count b ≡ ok fs
    → (count + length fs ≤ 4096) × (length fs + sizes fs ≤ length b)
unfolding fields_loop
fields_loop_bounds fuel count [] fs k e = ground (arith, e)
fields_loop_bounds zero count (c ∷ b) fs k e = cc
fields_loop_bounds (suc fuel) count (c ∷ b) fs k e = elim (Result-cases (field_at (c ∷ b))) [
  | inl (m, bad) ↦ ground (arith, e, bad)
  | inr ((f, rest), good) ↦ elim (Result-cases (fields_loop fuel (suc count) rest)) [
    | inl (m, bad) ↦ ground (arith, e, good, bad)
    | inr (others, found) ↦
        let less = field_at-lt (c ∷ b) good in
        ground (arith, e, good, found, less, fields_loop_bounds fuel (suc count) rest others)
  ]
]

-- A successful run has at most 4096 fields, and their bytes, with one more for each field, do not
-- exceed the input, which has at most 1 MiB.
pub fields_bounds :
    (b : List ℕ) (fs : List ProtoField)
    → fields b ≡ ok fs
    → (length fs ≤ 4096) × (length fs + sizes fs ≤ length b) × (length b ≤ 1024 * 1024)
unfolding fields
fields_bounds b fs e = ground (arith, fields_loop_bounds (length b) 0 b fs)

fields_loop-step :
    (fuel count : ℕ) (b : List ℕ) {f : ProtoField} {rest : List ℕ} {fs : List ProtoField}
    → count < 4096
    → field_at b ≡ ok (f, rest)
    → fields_loop fuel (suc count) rest ≡ ok fs
    → fields_loop (suc fuel) count b ≡ ok (f ∷ fs)
unfolding fields_loop
fields_loop-step fuel count [] h e k = absurd (omega (arith, field_at-lt [] e))
fields_loop-step fuel count (c ∷ b) h e k =
    let room : ltb count 4096 ≡ true = ground arith in rw (room, e, k) refl

fields_loop-put_fields :
    (ws : List WireField) (fuel count : ℕ)
    → All IsWireField ws
    → length (put_fields ws) ≤ fuel
    → count + length ws ≤ 4096
    → fields_loop fuel count (put_fields ws) ≡ ok (map field_of ws)
unfolding put_fields
fields_loop-put_fields [] fuel count v h k = unfold fields_loop in refl
fields_loop-put_fields (w ∷ ws) zero count (v, vs) h k = absurd (
    omega
      (arith, field_at-lt (put_field w ++ put_fields ws) (field_at-put_field w (put_fields ws) v)))
fields_loop-put_fields (w ∷ ws) (suc fuel) count (v, vs) h k =
    let read = field_at-put_field w (put_fields ws) v in
    let less = field_at-lt (put_field w ++ put_fields ws) read in
    fields_loop-step fuel count (put_field w ++ put_fields ws) (omega (arith, k)) read
      (fields_loop-put_fields ws fuel (suc count) vs (omega (arith, less, h)) (omega (arith, k)))

-- At most 4096 fields, with numbers and values in range, that take at most 1 MiB together are read
-- back as they were written, in order.
pub fields-put_fields :
    (ws : List WireField)
    → All IsWireField ws
    → length ws ≤ 4096
    → length (put_fields ws) ≤ 1024 * 1024
    → fields (put_fields ws) ≡ ok (map field_of ws)
unfolding fields
fields-put_fields ws v h k =
    let within = le→leb (length (put_fields ws)) (1024 * 1024) k in
    rw within
      (fields_loop-put_fields ws (length (put_fields ws)) 0 v (omega arith) (omega (arith, h)))
