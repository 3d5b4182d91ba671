-- ===== src/Metadata/Varint.antt =====
-- metadata.rs: `varint` against the encoding of a number in groups of seven bits.
use macvnc.Base.{
  ℕ, zero, suc, ◌+◌, ◌*◌, ◌/◌, ◌%◌, ◌^◌, ◌<◌, ◌≤◌, ◌≡◌, refl, ap, subst, ◌∙◌, inl, inr, List, [],
  ◌∷◌, ◌++◌, arith, ok, Bool-cases, ltb, ◌==◌, if◌then◌else◌, length,
}
use macvnc.Base.Bits.{bit_or-shifted, two-pow-suc}
use native.Mathlib.Numerals.{towards_suc}
use macvnc.Metadata.{varint_loop, varint}

-- At most `rounds` bytes, the low seven bits first.
unfoldable pub put_groups : ℕ → ℕ → List ℕ
put_groups zero v = []
put_groups (suc rounds) v =
    if ltb v 128 then v ∷ [] else (v % 128 + 128) ∷ put_groups rounds (v / 128)

unfoldable pub put_varint : ℕ → List ℕ
put_varint v = put_groups 10 v

two-pow-seven : (s : ℕ) → 2 ^ (s + 7) ≡ 128 * 2 ^ s
two-pow-seven s = simp towards_suc (omega (arith, two-pow-suc s))

-- A round that reads the last group, and one that reads another.
last_group :
    (rounds shift v acc : ℕ) (rest : List ℕ)
    → v < 128
    → acc < 2 ^ shift
    → (shift ≡ 63 → v ≤ 1)
    → varint_loop (suc rounds) shift acc (v ∷ rest) ≡ ok (v * 2 ^ shift + acc, rest)
unfolding varint_loop
last_group rounds shift v acc rest h k top =
    let low : v % 128 ≡ v = omega arith in
    let sum = bit_or-shifted shift v acc k in ground (arith, low, sum, top)

next_group :
    (rounds shift v acc : ℕ) (rest : List ℕ)
    → acc < 2 ^ shift
    → shift < 63
    → varint_loop (suc rounds) shift acc ((v % 128 + 128) ∷ rest)
      ≡ varint_loop rounds (shift + 7) (v % 128 * 2 ^ shift + acc) rest
unfolding varint_loop
next_group rounds shift v acc rest k top =
    let low : (v % 128 + 128) % 128 ≡ v % 128 = omega arith in
    let sum = bit_or-shifted shift (v % 128) acc k in ground (arith, low, sum)

-- The value splits into the last seven bits and the others, at any shift.
split_groups : (v p : ℕ) → v / 128 * (128 * p) + v % 128 * p ≡ v * p
split_groups v p =
    let e : v ≡ v / 128 * 128 + v % 128 = omega arith in omega (arith, ap (λ (t : ℕ). t * p) e)

at_top : (shift v : ℕ) → v * 2 ^ shift < 2 ^ 64 → shift ≡ 63 → v ≤ 1
at_top shift v h e =
    let f : v * 2 ^ 63 < 2 ^ 64 = subst (λ s. v * 2 ^ s < 2 ^ 64) e h in omega arith

below_next : (v p acc : ℕ) → acc < p → v % 128 * p + acc < 128 * p
below_next v p acc h = let e : v % 128 < 128 = omega arith in grind arith

pub varint_loop-put_groups :
    (rounds shift v acc : ℕ) (rest : List ℕ)
    → shift + 7 * rounds ≡ 70
    → 0 < rounds
    → v * 2 ^ shift < 2 ^ 64
    → acc < 2 ^ shift
    → varint_loop rounds shift acc (put_groups rounds v ++ rest) ≡ ok (v * 2 ^ shift + acc, rest)
unfolding put_groups
varint_loop-put_groups zero shift v acc rest e r h k = absurd (omega arith)
varint_loop-put_groups (suc rounds) shift v acc rest e r h k = elim (Bool-cases (ltb v 128)) [
  | inl small ↦ rw small (last_group rounds shift v acc rest (ground arith) k (at_top shift v h))
  | inr large ↦
      let more : shift < 63 = elim (Bool-cases (shift == 63)) [
        | inl top ↦ ground (arith, at_top shift v h)
        | inr below ↦ ground arith
      ] in
      let p = 2 ^ shift in
      let whole = split_groups v p in
      let wide = two-pow-seven shift in
      let fits : v / 128 * 2 ^ (shift + 7) < 2 ^ 64 = rw wide (omega arith) in
      let room : v % 128 * p + acc < 2 ^ (shift + 7) = rw wide (below_next v p acc k) in
      let total : v / 128 * 2 ^ (shift + 7) + (v % 128 * p + acc) ≡ v * p + acc =
        rw wide (omega arith) in
      rw (large, next_group rounds shift v acc (put_groups rounds (v / 128) ++ rest) k more)
        (varint_loop-put_groups rounds (shift + 7) (v / 128) (v % 128 * p + acc) rest (omega arith)
            (omega arith) fits room
          ∙ ap (λ t. ok (t, rest)) total)
]

pub varint-put_varint :
    (v : ℕ) (rest : List ℕ) → v < 2 ^ 64 → varint (put_varint v ++ rest) ≡ ok (v, rest)
unfolding varint put_varint
varint-put_varint v rest h =
    varint_loop-put_groups 10 0 v 0 rest refl (omega arith) (omega arith) (omega arith)
    ∙ ap (λ t. ok (t, rest)) (omega arith)

length-put_groups : (n v : ℕ) → length (put_groups n v) ≤ n
unfolding put_groups
length-put_groups zero v = omega arith
length-put_groups (suc n) v = ground (arith, length-put_groups n (v / 128))

pub length-put_varint : (v : ℕ) → length (put_varint v) ≤ 10
unfolding put_varint
length-put_varint v = length-put_groups 10 v
