-- ===== src/Base/Utf8.antt =====
-- UTF-8, as the standard library's `str::as_bytes`, `str::len` and `str::from_utf8`. A string is the
-- list of its characters, each by its number.
use macvnc.Base.Tests.{ltb, leb, if◌then◌else◌, Bool-cases}
use macvnc.Base.Lists.{length, drop, get_or, All, length-append}
use Prim.Native.Nat.{ℕ, zero, suc, ◌+◌, ◌-◌, ◌*◌, ◌/◌, ◌%◌, ◌≤◌, ◌<◌}
use mathlib.Core.Path.{◌≡◌, refl, sym, ap, ◌∙◌}
use mathlib.Core.Logic.{inl, inr}
use mathlib.Core.Bool.{Bool, true, ◌&&◌, ◌||◌}
use mathlib.Core.Option.{Option, none, some}
use mathlib.Core.List.{List, [], ◌∷◌, ◌++◌}
use native.Mathlib.Omega.{arith}

-- A `char` is not a surrogate and is at most 0x10ffff.
abbrev pub is_scalar : ℕ → Bool
is_scalar c = ltb c 0xd800 || (leb 0xe000 c && ltb c 0x110000)

abbrev pub IsScalar : ℕ → Type 0
IsScalar c = is_scalar c ≡ true

unfoldable pub encode_char : ℕ → List ℕ
encode_char c =
    if ltb c 0x80
    then c ∷ []
    else if ltb c 0x800
    then (0xc0 + c / 64) ∷ (0x80 + c % 64) ∷ []
    else if ltb c 0x10000
    then (0xe0 + c / 4096) ∷ (0x80 + c / 64 % 64) ∷ (0x80 + c % 64) ∷ []
    else (0xf0 + c / 262144) ∷ (0x80 + c / 4096 % 64) ∷ (0x80 + c / 64 % 64) ∷ (0x80 + c % 64) ∷ []

unfoldable pub encode_str : List ℕ → List ℕ
encode_str [] = []
encode_str (c ∷ s) = encode_char c ++ encode_str s

abbrev is_cont : ℕ → Bool
is_cont b = leb 0x80 b && ltb b 0xc0

-- The character at the front of some bytes, and the bytes behind it. A form that is longer than it
-- need be is refused, as are surrogates.
unfoldable pub next_char : List ℕ → Option (ℕ × List ℕ)
next_char [] = none
next_char (a ∷ b) =
    let x = get_or b 0 0 in
    let y = get_or b 1 0 in
    let z = get_or b 2 0 in
    let two = (a - 0xc0) * 64 + (x - 0x80) in
    let three = (a - 0xe0) * 4096 + (x - 0x80) * 64 + (y - 0x80) in
    let four = (a - 0xf0) * 262144 + (x - 0x80) * 4096 + (y - 0x80) * 64 + (z - 0x80) in
    if ltb a 0x80
    then some (a, b)
    else if leb 0xc2 a && ltb a 0xe0 && leb 1 (length b) && is_cont x
    then some (two, drop 1 b)
    else if leb 0xe0 a
        && ltb a 0xf0
        && leb 2 (length b)
        && is_cont x
        && is_cont y
        && leb 0x800 three
        && is_scalar three
    then some (three, drop 2 b)
    else if leb 0xf0 a
        && ltb a 0xf5
        && leb 3 (length b)
        && is_cont x
        && is_cont y
        && is_cont z
        && leb 0x10000 four
        && is_scalar four
    then some (four, drop 3 b)
    else none

-- `str::from_utf8`; a round takes a byte at least.
unfoldable pub decode_loop : ℕ → List ℕ → Option (List ℕ)
decode_loop fuel [] = some []
decode_loop zero (a ∷ b) = none
decode_loop (suc fuel) (a ∷ b) = elim (next_char (a ∷ b)) [
  | none ↦ none
  | some (c, rest) ↦ elim (decode_loop fuel rest) [ none ↦ none | some s ↦ some (c ∷ s) ]
]

unfoldable pub from_utf8 : List ℕ → Option (List ℕ)
from_utf8 b = decode_loop (length b) b

-- The forms of two, three and four bytes, with the digits of the character to the base 64.
next_char_two :
    (q r : ℕ) (rest : List ℕ)
    → 2 ≤ q
    → q < 32
    → r < 64
    → next_char ((0xc0 + q) ∷ (0x80 + r) ∷ rest) ≡ some (q * 64 + r, rest)
unfolding next_char
next_char_two q r rest h k l = ground arith

next_char_three :
    (q r s : ℕ) (rest : List ℕ)
    → q < 16
    → r < 64
    → s < 64
    → 0x800 ≤ q * 4096 + r * 64 + s
    → IsScalar (q * 4096 + r * 64 + s)
    → next_char ((0xe0 + q) ∷ (0x80 + r) ∷ (0x80 + s) ∷ rest) ≡ some (q * 4096 + r * 64 + s, rest)
unfolding next_char
next_char_three q r s rest h k l m v = ground arith

next_char_four :
    (q r s t : ℕ) (rest : List ℕ)
    → r < 64
    → s < 64
    → t < 64
    → 0x10000 ≤ q * 262144 + r * 4096 + s * 64 + t
    → IsScalar (q * 262144 + r * 4096 + s * 64 + t)
    → next_char ((0xf0 + q) ∷ (0x80 + r) ∷ (0x80 + s) ∷ (0x80 + t) ∷ rest)
      ≡ some (q * 262144 + r * 4096 + s * 64 + t, rest)
unfolding next_char
next_char_four q r s t rest k l m n v = ground arith

next_char-encode_char :
    (c : ℕ) (rest : List ℕ) → IsScalar c → next_char (encode_char c ++ rest) ≡ some (c, rest)
unfolding encode_char
next_char-encode_char c rest v = elim (Bool-cases (ltb c 0x80)) [
  | inl e ↦ rw e (unfold next_char in rw e refl)
  | inr e ↦ elim (Bool-cases (ltb c 0x800)) [
    | inl f ↦
        let digits : c / 64 * 64 + c % 64 ≡ c = omega arith in
        rw (e, f)
          (next_char_two (c / 64) (c % 64) rest (ground arith) (ground arith) (omega arith)
            ∙ ap (λ n. some (n, rest)) digits)
    | inr f ↦ elim (Bool-cases (ltb c 0x10000)) [
      | inl g ↦
          let digits : c / 4096 * 4096 + c / 64 % 64 * 64 + c % 64 ≡ c = omega arith in
          rw (e, f, g)
            (next_char_three (c / 4096) (c / 64 % 64) (c % 64) rest (ground arith) (omega arith)
                (omega arith) (rw digits (ground arith)) (rw digits v)
              ∙ ap (λ n. some (n, rest)) digits)
      | inr g ↦
          let digits : c / 262144 * 262144 + c / 4096 % 64 * 4096 + c / 64 % 64 * 64 + c % 64 ≡ c =
            omega arith in
          rw (e, f, g)
            (next_char_four (c / 262144) (c / 4096 % 64) (c / 64 % 64) (c % 64) rest (omega arith)
                (omega arith) (omega arith) (rw digits (ground arith)) (rw digits v)
              ∙ ap (λ n. some (n, rest)) digits)
    ]
  ]
]

-- A character takes one to four bytes.
length-encode_char : (c : ℕ) → (1 ≤ length (encode_char c)) × (length (encode_char c) ≤ 4)
unfolding encode_char
length-encode_char c = (ground arith, ground arith)

encode_char-cons : (c : ℕ) → (a : ℕ) × (b : List ℕ) × (encode_char c ≡ a ∷ b)
unfolding encode_char
encode_char-cons c = elim (Bool-cases (ltb c 0x80)) [
  | inl e ↦ rw e (_, _, refl)
  | inr e ↦ elim (Bool-cases (ltb c 0x800)) [
    | inl f ↦ rw (e, f) (_, _, refl)
    | inr f ↦ elim (Bool-cases (ltb c 0x10000)) [
      | inl g ↦ rw (e, f, g) (_, _, refl)
      | inr g ↦ rw (e, f, g) (_, _, refl)
    ]
  ]
]

decode_loop-cons :
    (fuel a : ℕ) (b : List ℕ) (c : ℕ) (rest s : List ℕ)
    → next_char (a ∷ b) ≡ some (c, rest)
    → decode_loop fuel rest ≡ some s
    → decode_loop (suc fuel) (a ∷ b) ≡ some (c ∷ s)
unfolding decode_loop
decode_loop-cons fuel a b c rest s e f = ground (arith, e, f)

decode_loop-encode_str :
    (fuel : ℕ) (s : List ℕ)
    → All IsScalar s
    → length s ≤ fuel
    → decode_loop fuel (encode_str s) ≡ some s
unfolding decode_loop encode_str
decode_loop-encode_str fuel [] v h = refl
decode_loop-encode_str zero (c ∷ s) v h = absurd (omega arith)
decode_loop-encode_str (suc fuel) (c ∷ s) (v, vs) h =
    let (a, b, e) = encode_char-cons c in
    let first : next_char (a ∷ b ++ encode_str s) ≡ some (c, encode_str s) =
      ap (λ x. next_char (x ++ encode_str s)) (sym e) ∙ next_char-encode_char c (encode_str s) v in
    ap (λ x. decode_loop (suc fuel) (x ++ encode_str s)) e
    ∙ decode_loop-cons fuel a (b ++ encode_str s) c (encode_str s) s first
        (decode_loop-encode_str fuel s vs (omega arith))

length-encode_str : (s : List ℕ) → length s ≤ length (encode_str s)
unfolding encode_str
length-encode_str [] = omega arith
length-encode_str (c ∷ s) = omega (
  arith,
  length-encode_str s,
  (length-encode_char c).0,
  length-append (encode_char c) (encode_str s),
)

-- `from_utf8` reads the bytes of a string back.
pub from_utf8-encode_str : (s : List ℕ) → All IsScalar s → from_utf8 (encode_str s) ≡ some s
unfolding from_utf8
from_utf8-encode_str s v = decode_loop-encode_str (length (encode_str s)) s v (length-encode_str s)
