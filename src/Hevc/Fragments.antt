-- ===== src/Hevc/Fragments.antt =====
-- depacketize.rs: `reassemble` on a unit that is sent in parts.
use macvnc.Base.{
  ℕ, ◌+◌, ◌*◌, ◌/◌, ◌%◌, ◌^◌, ◌<◌, ◌≡◌, refl, ap, ap₂, ◌∙◌, List, [], ◌∷◌, ◌++◌, Bool, true, false,
  ◌&&◌, arith, none, some, ok, ltb, leb, ◌==◌, if◌then◌else◌, length, drop, get_or, u16_at,
  from_be16-be16,
}
use macvnc.Hevc.{
  kind_of, Assembly, start, unit_header, opened, closed, take_fragment, take_kind, take_payload,
  noted,
}
use macvnc.Hevc.Packets.{
  Nal, seen_donl, part_payload, take_payload-long, noted-fragment, noted-nals,
}

module _ (apple : Bool) (a : Assembly) (b : List ℕ) (donl : ℕ) where
  abbrev rest_of : List ℕ
  rest_of = drop (if apple then 5 else 3) b

  take_fragment-first :
      leb (length b) (if apple then 5 else 3) ≡ false
      → get_or b 2 0 / 128 % 2 ≡ 1
      → get_or b 2 0 / 64 % 2 ≡ 0
      → a.fragment ≡ none
      → take_fragment apple a b donl
        ≡ ok (record a { fragment = some (unit_header b ++ rest_of); fragment_donl = donl })
  unfolding take_fragment opened closed
  take_fragment-first long first last e = ground (arith, long, first, last, e)

  take_fragment-next :
      (unit : List ℕ)
      → leb (length b) (if apple then 5 else 3) ≡ false
      → get_or b 2 0 / 128 % 2 ≡ 0
      → get_or b 2 0 / 64 % 2 ≡ 0
      → a.fragment ≡ some unit
      → a.fragment_donl ≡ donl
      → take_fragment apple a b donl ≡ ok (record a { fragment = some (unit ++ rest_of) })
  unfolding take_fragment opened closed
  take_fragment-next unit long first last e f = ground (arith, long, first, last, e, f)

  take_fragment-last :
      (unit : List ℕ)
      → leb (length b) (if apple then 5 else 3) ≡ false
      → get_or b 2 0 / 128 % 2 ≡ 0
      → get_or b 2 0 / 64 % 2 ≡ 1
      → a.fragment ≡ some unit
      → a.fragment_donl ≡ donl
      → take_fragment apple a b donl
        ≡ ok (record a { nals = a.nals ++ ((unit ++ rest_of) ∷ []); fragment = none })
  unfolding take_fragment opened closed
  take_fragment-last unit long first last e f = ground (arith, long, first, last, e, f)

-- A unit whose first header byte is a byte, and an order number of 16 bits.
module _ (apple : Bool) (donl : ℕ) (u : Nal) (byte : u.h0 < 256) (h : donl < 2 ^ 16) where
  abbrev pub payload : ℕ → ℕ → List ℕ → List ℕ
  payload = part_payload apple donl u

  abbrev pub d : ℕ
  d = seen_donl apple donl

  part-kind : (first last : ℕ) (part : List ℕ) → kind_of (payload first last part) ≡ 49
  unfolding part_payload
  part-kind first last part = omega (arith, byte)

  part-flags :
      (first last : ℕ) (part : List ℕ)
      → first < 2
      → last < 2
      → (get_or (payload first last part) 2 0 / 128 % 2 ≡ first)
        × (get_or (payload first last part) 2 0 / 64 % 2 ≡ last)
  unfolding part_payload
  part-flags first last part f l = (omega (arith, byte, f, l), omega (arith, byte, f, l))

  part-header :
      (first last : ℕ) (part : List ℕ) → unit_header (payload first last part) ≡ u.h0 ∷ u.h1 ∷ []
  unfolding part_payload
  part-header first last part =
      let e : (u.h0 / 128 * 128 + 98 + u.h0 % 2) / 128 * 128
            + (u.h0 / 128 * 128 + 98 + u.h0 % 2) % 2
            + (first * 128 + last * 64 + u.h0 / 2 % 64) % 64 * 2
          ≡ u.h0 =
        omega (arith, byte) in
      ap (λ x. x ∷ u.h1 ∷ []) e

  part-long :
      (first last : ℕ) (part : List ℕ)
      → 0 < length part
      → (ltb (length (payload first last part)) 2 ≡ false)
        × ((apple && ltb (length (payload first last part)) 5) ≡ false)
        × (leb (length (payload first last part)) (if apple then 5 else 3) ≡ false)
  unfolding part_payload
  part-long first last part k = long apple
    where
      long :
          (b : Bool)
          → (ltb (length (part_payload b donl u first last part)) 2 ≡ false)
            × ((b && ltb (length (part_payload b donl u first last part)) 5) ≡ false)
            × (leb (length (part_payload b donl u first last part)) (if b then 5 else 3) ≡ false)
      long true = (ground arith, ground arith, ground arith)
      long false = (ground arith, refl, ground arith)

  part-rest :
      (first last : ℕ) (part : List ℕ) → rest_of apple start (payload first last part) donl ≡ part
  unfolding part_payload
  part-rest first last part = rest apple
    where
      rest : (b : Bool) → drop (if b then 5 else 3) (part_payload b donl u first last part) ≡ part
      rest true = refl
      rest false = refl

  part-read :
      (first last : ℕ) (part : List ℕ)
      → (if apple then u16_at (payload first last part) 3 else 0) ≡ d
  unfolding part_payload
  part-read first last part = read apple
    where
      read :
          (b : Bool)
          → (if b then u16_at (part_payload b donl u first last part) 3 else 0) ≡ seen_donl b donl
      read true = from_be16-be16 donl h
      read false = refl

  -- A payload with a part of the unit goes to `take_fragment`.
  take-part :
      (a : Assembly) (first last : ℕ) (part : List ℕ)
      → 0 < length part
      → take_payload apple a (payload first last part)
        ≡ take_fragment apple (noted a d) (payload first last part) d
  take-part a first last part k =
      let b = payload first last part in
      let kind = part-kind first last part in
      let (long, whole, _) = part-long first last part k in
      let three : (kind_of b == 49) ≡ true = rw kind refl in
      let read : (if apple then u16_at b (if kind_of b == 49 then 3 else 2) else 0) ≡ d =
        rw three (part-read first last part) in
      let room : (apple && ltb (length b) ((if kind_of b == 49 then 3 else 2) + 2)) ≡ false =
        rw three whole in
      take_payload-long apple a b d long room read ∙ to_fragment (noted a d) b kind
    where
      to_fragment :
          (a : Assembly) (b : List ℕ)
          → kind_of b ≡ 49
          → take_kind apple a b d ≡ take_fragment apple a b d
      to_fragment a b e =
          let other : (kind_of b == 48) ≡ false = rw e refl in
          let this : (kind_of b == 49) ≡ true = rw e refl in
          unfold take_kind in rw (other, this) refl

  -- What the assembly is after the first part, with `sofar` of the unit's body.
  pub record IsOpen (a a' : Assembly) (sofar : List ℕ) : Type 0 where
    pub nals_ok : a'.nals ≡ a.nals
    pub fragment_ok : a'.fragment ≡ some (u.h0 ∷ u.h1 ∷ sofar)
    pub donl_ok : a'.fragment_donl ≡ d
    pub first_ok : a'.first ≡ (noted a d).first

  noted-first : (a a' : Assembly) → a'.first ≡ (noted a d).first → (noted a' d).first ≡ a'.first
  unfolding noted
  noted-first a a' e = rw e refl

  pub take-first :
      (a : Assembly) (part : List ℕ)
      → 0 < length part
      → a.fragment ≡ none
      → (a' : Assembly) × (take_payload apple a (payload 1 0 part) ≡ ok a') × IsOpen a a' part
  take-first a part k e =
      let b = payload 1 0 part in
      let (_, _, long) = part-long 1 0 part k in
      let (f, l) = part-flags 1 0 part (omega arith) (omega arith) in
      let unit = unit_header b ++ rest_of apple a b donl in
      let is : unit ≡ u.h0 ∷ u.h1 ∷ part =
        ap₂ (λ x y. x ++ y) (part-header 1 0 part) (part-rest 1 0 part) in
      (
        record (noted a d) { fragment = some unit; fragment_donl = d },
        take-part a 1 0 part k
            ∙ take_fragment-first apple (noted a d) b d long f l (noted-fragment a d ∙ e),
        record {
          nals_ok = noted-nals a d;
          fragment_ok = ap some is;
          donl_ok = refl;
          first_ok = refl;
        },
      )

  pub take-middle :
      (a a' : Assembly) (sofar part : List ℕ)
      → 0 < length part
      → IsOpen a a' sofar
      → (a'' : Assembly) × (take_payload apple a' (payload 0 0 part) ≡ ok a'')
        × IsOpen a a'' (sofar ++ part)
  take-middle a a' sofar part k v =
      let b = payload 0 0 part in
      let (_, _, long) = part-long 0 0 part k in
      let (f, l) = part-flags 0 0 part (omega arith) (omega arith) in
      let unit = u.h0 ∷ u.h1 ∷ sofar in
      (
        record (noted a' d) { fragment = some (unit ++ rest_of apple a' b donl) },
        take-part a' 0 0 part k
            ∙ take_fragment-next apple (noted a' d) b d unit long f l
                (noted-fragment a' d ∙ v.fragment_ok) (unfold noted in v.donl_ok),
        record {
          nals_ok = noted-nals a' d ∙ v.nals_ok;
          fragment_ok = ap (λ x. some (unit ++ x)) (part-rest 0 0 part);
          donl_ok = unfold noted in v.donl_ok;
          first_ok = noted-first a a' v.first_ok ∙ v.first_ok;
        },
      )

  pub take-last :
      (a a' : Assembly) (sofar part : List ℕ)
      → 0 < length part
      → IsOpen a a' sofar
      → (a'' : Assembly) × (take_payload apple a' (payload 0 1 part) ≡ ok a'')
        × (a''.nals ≡ a.nals ++ ((u.h0 ∷ u.h1 ∷ (sofar ++ part)) ∷ []))
        × (a''.fragment ≡ none)
        × (a''.first ≡ (noted a d).first)
  take-last a a' sofar part k v =
      let b = payload 0 1 part in
      let (_, _, long) = part-long 0 1 part k in
      let (f, l) = part-flags 0 1 part (omega arith) (omega arith) in
      let unit = u.h0 ∷ u.h1 ∷ sofar in
      (
        record (noted a' d) {
          nals = (noted a' d).nals ++ ((unit ++ rest_of apple a' b donl) ∷ []);
          fragment = none;
        },
        take-part a' 0 1 part k
            ∙ take_fragment-last apple (noted a' d) b d unit long f l
                (noted-fragment a' d ∙ v.fragment_ok) (unfold noted in v.donl_ok),
        ap₂ (λ x y. x ++ ((unit ++ y) ∷ [])) (noted-nals a' d ∙ v.nals_ok) (part-rest 0 1 part),
        refl,
        noted-first a a' v.first_ok ∙ v.first_ok,
      )
