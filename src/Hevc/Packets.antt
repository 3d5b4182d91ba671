-- ===== src/Hevc/Packets.antt =====
-- depacketize.rs: `reassemble` on the payloads in which a sender puts NAL units.
use macvnc.Base.{
  ℕ, zero, suc, ◌+◌, ◌*◌, ◌/◌, ◌%◌, ◌^◌, ◌<◌, ◌≤◌, ◌≡◌, refl, ◌∙◌, List, [], ◌∷◌, ◌++◌, Bool, true,
  false, ◌||◌, ◌&&◌, arith, none, ok, ltb, ◌==◌, if◌then◌else◌, length, take, drop, All,
  length-append, take_left, drop_left, be16, u16_at, from_be16-be16,
}
use mathlib.Core.List.{map}
use macvnc.Hevc.{kind_of, Assembly, aggregated, take_kind, take_payload, noted}

-- A NAL unit: its two header bytes and what is behind them.
pub record Nal : Type 0 where
  pub h0 : ℕ
  pub h1 : ℕ
  pub body : List ℕ

abbrev pub bytes_of : Nal → List ℕ
bytes_of u = u.h0 ∷ u.h1 ∷ u.body

abbrev pub put_donl : Bool → ℕ → List ℕ
put_donl apple donl = if apple then be16 donl else []

-- The order number that the receiver sees.
abbrev pub seen_donl : Bool → ℕ → ℕ
seen_donl apple donl = if apple then donl else 0

-- The payload with one whole unit.
unfoldable pub single_payload : Bool → ℕ → Nal → List ℕ
single_payload apple donl u = u.h0 ∷ u.h1 ∷ put_donl apple donl ++ u.body

-- The payload with several units.
unfoldable pub put_units : List Nal → List ℕ
put_units [] = []
put_units (u ∷ us) = be16 (length (bytes_of u)) ++ (bytes_of u ++ put_units us)

unfoldable pub aggregate_payload : Bool → ℕ → List Nal → List ℕ
aggregate_payload apple donl us = 96 ∷ 1 ∷ put_donl apple donl ++ put_units us

-- The payload with a part of a unit, and the flags for the first and the last part.
unfoldable pub part_payload : Bool → ℕ → Nal → ℕ → ℕ → List ℕ → List ℕ
part_payload apple donl u first last part =
    (u.h0 / 128 * 128 + 98 + u.h0 % 2)
      ∷ u.h1
      ∷ (first * 128 + last * 64 + u.h0 / 2 % 64)
      ∷ put_donl apple donl
    ++ part

pub noted-fragment : (a : Assembly) (donl : ℕ) → (noted a donl).fragment ≡ a.fragment
unfolding noted
noted-fragment a donl = refl

pub noted-nals : (a : Assembly) (donl : ℕ) → (noted a donl).nals ≡ a.nals
unfolding noted
noted-nals a donl = refl

-- A unit that can stand alone.
pub record IsSingle (u : Nal) : Type 0 where
  pub not_aggregate : (kind_of (bytes_of u) == 48) ≡ false
  pub not_fragment : (kind_of (bytes_of u) == 49) ≡ false

-- A payload that is long enough, with its order number.
pub take_payload-long :
    (apple : Bool) (a : Assembly) (b : List ℕ) (donl : ℕ)
    → ltb (length b) 2 ≡ false
    → (apple && ltb (length b) ((if kind_of b == 49 then 3 else 2) + 2)) ≡ false
    → (if apple then u16_at b (if kind_of b == 49 then 3 else 2) else 0) ≡ donl
    → take_payload apple a b ≡ take_kind apple (noted a donl) b donl
unfolding take_payload
take_payload-long apple a b donl long whole e = rw (e, long, whole) refl

take_kind-single :
    (apple : Bool) (a : Assembly) (b unit : List ℕ) (donl : ℕ)
    → (kind_of b == 48) ≡ false
    → (kind_of b == 49) ≡ false
    → a.fragment ≡ none
    → take 2 b ++ drop (if apple then 4 else 2) b ≡ unit
    → take_kind apple a b donl ≡ ok (record a { nals = a.nals ++ (unit ∷ []) })
unfolding take_kind
take_kind-single apple a b unit donl h k e f = ground (arith, h, k, e, f)

pub take-single_payload :
    (apple : Bool) (donl : ℕ) (u : Nal) (a : Assembly)
    → donl < 2 ^ 16
    → IsSingle u
    → a.fragment ≡ none
    → take_payload apple a (single_payload apple donl u)
      ≡ ok (record (noted a (seen_donl apple donl)) {
        nals = (noted a (seen_donl apple donl)).nals ++ (bytes_of u ∷ []);
      })
unfolding single_payload
take-single_payload true donl u a h v e =
    take_payload-long true a (single_payload true donl u) donl (ground arith)
      (rw v.not_fragment (ground arith)) (rw v.not_fragment (from_be16-be16 donl h))
    ∙ take_kind-single true (noted a donl) (single_payload true donl u) (bytes_of u) donl
        v.not_aggregate v.not_fragment (noted-fragment a _ ∙ e) refl
take-single_payload false donl u a h v e =
    take_payload-long false a (single_payload false donl u) 0 (ground arith) refl refl
    ∙ take_kind-single false (noted a 0) (single_payload false donl u) (bytes_of u) 0
        v.not_aggregate v.not_fragment (noted-fragment a _ ∙ e) refl

-- The units of an aggregation packet.
abbrev pub IsSized : Nal → Type 0
IsSized u = length u.body < 65534

aggregated-put_units :
    (us : List Nal) (fuel : ℕ)
    → All IsSized us
    → length (put_units us) ≤ fuel
    → aggregated fuel (put_units us) ≡ ok (map bytes_of us)
unfolding aggregated put_units
aggregated-put_units [] fuel v h = refl
aggregated-put_units (u ∷ us) zero v h = absurd (omega arith)
aggregated-put_units (u ∷ us) (suc fuel) (v, vs) h =
    let n = length (bytes_of u) in
    let size : u16_at (put_units (u ∷ us)) 0 ≡ n = from_be16-be16 n (omega (arith, v)) in
    let rest = put_units us in
    let total = length-append u.body rest in
    let two : 2 + n ≡ suc (suc n) = omega arith in
    let ih = aggregated-put_units us fuel vs (omega (arith, h, total)) in
    let short : ltb (suc (suc (suc (suc (length (u.body ++ rest)))))) 2 ≡ false = ground arith in
    let fits : (ltb n 2 || ltb (suc (suc (suc (suc (length (u.body ++ rest)))))) (suc (suc n)))
        ≡ false =
      ground (arith, total) in
    rw
      (
        size,
        two,
        short,
        fits,
        take_left n (bytes_of u) rest refl,
        drop_left n (bytes_of u) rest refl,
        ih,
      )
      refl

take_kind-aggregate :
    (apple : Bool) (a : Assembly) (b : List ℕ) (donl : ℕ) (us : List Nal)
    → (kind_of b == 48) ≡ true
    → a.fragment ≡ none
    → drop (if apple then 4 else 2) b ≡ put_units us
    → length (put_units us) ≤ length b
    → All IsSized us
    → take_kind apple a b donl ≡ ok (record a { nals = a.nals ++ map bytes_of us })
unfolding take_kind
take_kind-aggregate apple a b donl us h e f size v =
    let read = aggregated-put_units us (length b) v size in ground (arith, h, e, f, read)

pub take-aggregate_payload :
    (apple : Bool) (donl : ℕ) (us : List Nal) (a : Assembly)
    → donl < 2 ^ 16
    → All IsSized us
    → a.fragment ≡ none
    → take_payload apple a (aggregate_payload apple donl us)
      ≡ ok (record (noted a (seen_donl apple donl)) {
        nals = (noted a (seen_donl apple donl)).nals ++ map bytes_of us;
      })
unfolding aggregate_payload
take-aggregate_payload true donl us a h v e =
    let b = aggregate_payload true donl us in
    take_payload-long true a b donl (ground arith) (ground arith) (from_be16-be16 donl h)
    ∙ take_kind-aggregate true (noted a donl) b donl us refl (noted-fragment a _ ∙ e) refl
        (omega arith) v
take-aggregate_payload false donl us a h v e =
    let b = aggregate_payload false donl us in
    take_payload-long false a b 0 (ground arith) refl refl
    ∙ take_kind-aggregate false (noted a 0) b 0 us refl (noted-fragment a _ ∙ e) refl (omega arith)
        v
