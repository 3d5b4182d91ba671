-- ===== src/Hevc/RoundTrip.antt =====
-- depacketize.rs: `reassemble` gives back the NAL units that a sender has put in packets.
use macvnc.Base.{
  ℕ, ◌^◌, ◌<◌, ◌≡◌, refl, sym, ap, ◌∙◌, List, [], ◌∷◌, ◌++◌, append_assoc, append-nil, Bool, arith,
  none, some, ok, length, All,
}
use mathlib.Core.List.{map}
use macvnc.Hevc.{Assembly, start, take_payload, noted, take_all, reassemble}
use macvnc.Hevc.Packets.{
  Nal, bytes_of, seen_donl, IsSingle, IsSized, single_payload, aggregate_payload, part_payload,
  take-single_payload, take-aggregate_payload,
}
use macvnc.Hevc.Fragments.{IsOpen, take-first, take-middle, take-last}

-- How a sender puts units in packets, with the order number of each: one unit alone, several in one
-- packet, or one in parts, of which there are two or more.
pub data Packaging : Type 0 where
  single : ℕ → Nal → Packaging
  aggregate : ℕ → List Nal → Packaging
  parts : ℕ → Nal → List ℕ → List (List ℕ) → List ℕ → Packaging

-- The bytes of all parts.
unfoldable pub joined : List (List ℕ) → List ℕ
joined [] = []
joined (part ∷ others) = part ++ joined others

abbrev IsPart : List ℕ → Type 0
IsPart part = 0 < length part

abbrev pub number : Packaging → ℕ
number (single donl u) = donl
number (aggregate donl us) = donl
number (parts donl u first middle last) = donl

abbrev pub IsPackaging : Packaging → Type 0
IsPackaging (single donl u) = (donl < 2 ^ 16) × IsSingle u
IsPackaging (aggregate donl us) = (donl < 2 ^ 16) × All IsSized us
IsPackaging (parts donl u first middle last) =
    (donl < 2 ^ 16)
    × (u.h0 < 256)
    × IsPart first
    × All IsPart middle
    × IsPart last
    × (u.body ≡ first ++ (joined middle ++ last))

abbrev pub payloads : Bool → Packaging → List (List ℕ)
payloads apple (single donl u) = single_payload apple donl u ∷ []
payloads apple (aggregate donl us) = aggregate_payload apple donl us ∷ []
payloads apple (parts donl u first middle last) =
    part_payload apple donl u 1 0 first ∷ map (part_payload apple donl u 0 0) middle
    ++ (part_payload apple donl u 0 1 last ∷ [])

abbrev pub units : Packaging → List (List ℕ)
units (single donl u) = bytes_of u ∷ []
units (aggregate donl us) = map bytes_of us
units (parts donl u first middle last) = bytes_of u ∷ []

-- What a run over some payloads adds to an assembly between two units.
record Taken (apple : Bool) (a : Assembly) (found : List (List ℕ)) (donl : ℕ) (a' : Assembly)
    : Type 0 where
  pub nals_ok : a'.nals ≡ a.nals ++ found
  pub fragment_ok : a'.fragment ≡ none
  pub first_ok : a'.first ≡ (noted a (seen_donl apple donl)).first

take_all-cons :
    (apple : Bool) (a a' : Assembly) (b : List ℕ) (rest : List (List ℕ))
    → take_payload apple a b ≡ ok a'
    → take_all apple a (b ∷ rest) ≡ take_all apple a' rest
unfolding take_all
take_all-cons apple a a' b rest e = ground (arith, e)

module _ (apple : Bool) (donl : ℕ) (u : Nal) (byte : u.h0 < 256) (h : donl < 2 ^ 16) where
  take-middles :
      (middle : List (List ℕ)) (a a' : Assembly) (sofar : List ℕ) (rest : List (List ℕ))
      → All IsPart middle
      → IsOpen apple donl u byte h a a' sofar
      → (a'' : Assembly) × (take_all apple a' (map (part_payload apple donl u 0 0) middle ++ rest)
          ≡ take_all apple a'' rest)
        × IsOpen apple donl u byte h a a'' (sofar ++ joined middle)
  unfolding joined
  take-middles [] a a' sofar rest v o = (a', refl, rw append-nil o)
  take-middles (part ∷ middle) a a' sofar rest (v, vs) o =
      let (b, e, o') = take-middle apple donl u byte h a a' sofar part v o in
      let (c, f, o'') = take-middles middle a b (sofar ++ part) rest vs o' in
      (
        c,
        take_all-cons apple a' b (part_payload apple donl u 0 0 part)
              (map (part_payload apple donl u 0 0) middle ++ rest) e
            ∙ f,
        rw (← append_assoc sofar part (joined middle)) o'',
      )

  take-parts :
      (first : List ℕ) (middle : List (List ℕ)) (last : List ℕ) (a : Assembly)
      (rest : List (List ℕ))
      → IsPart first
      → All IsPart middle
      → IsPart last
      → u.body ≡ first ++ (joined middle ++ last)
      → a.fragment ≡ none
      → (a' : Assembly) × (take_all apple a
            (payloads apple (parts donl u first middle last) ++ rest)
          ≡ take_all apple a' rest)
        × Taken apple a (bytes_of u ∷ []) donl a'
  take-parts first middle last a rest v vs w e q =
      let end = part_payload apple donl u 0 1 last in
      let (b, f, o) = take-first apple donl u byte h a first v q in
      let (c, g, o') = take-middles middle a b first (end ∷ rest) vs o in
      let (z, k, n, fr, fi) =
        take-last apple donl u byte h a c (first ++ joined middle) last w o' in
      let whole : (first ++ joined middle) ++ last ≡ u.body =
        append_assoc first (joined middle) last ∙ sym e in
      (
        z,
        rw (append_assoc (map (part_payload apple donl u 0 0) middle) (end ∷ []) rest) (
            take_all-cons apple a b (part_payload apple donl u 1 0 first)
              (map (part_payload apple donl u 0 0) middle ++ (end ∷ rest)) f
            ∙ (g ∙ take_all-cons apple c z end rest k)),
        record {
          nals_ok = n ∙ ap (λ x. a.nals ++ ((u.h0 ∷ u.h1 ∷ x) ∷ [])) whole;
          fragment_ok = fr;
          first_ok = fi;
        },
      )

take-packaging :
    (apple : Bool) (p : Packaging) (a : Assembly) (rest : List (List ℕ))
    → IsPackaging p
    → a.fragment ≡ none
    → (a' : Assembly) × (take_all apple a (payloads apple p ++ rest) ≡ take_all apple a' rest)
      × Taken apple a (units p) (number p) a'
take-packaging apple (single donl u) a rest (h, v) q =
    let a' : Assembly = record (noted a (seen_donl apple donl)) {
      nals = (noted a (seen_donl apple donl)).nals ++ (bytes_of u ∷ []);
    } in
    (
      a',
      take_all-cons apple a a' (single_payload apple donl u) rest
          (take-single_payload apple donl u a h v q),
      record { nals_ok = unfold noted in refl; fragment_ok = unfold noted in q; first_ok = refl },
    )
take-packaging apple (aggregate donl us) a rest (h, v) q =
    let a' : Assembly = record (noted a (seen_donl apple donl)) {
      nals = (noted a (seen_donl apple donl)).nals ++ map bytes_of us;
    } in
    (
      a',
      take_all-cons apple a a' (aggregate_payload apple donl us) rest
          (take-aggregate_payload apple donl us a h v q),
      record { nals_ok = unfold noted in refl; fragment_ok = unfold noted in q; first_ok = refl },
    )
take-packaging apple (parts donl u first middle last) a rest (h, byte, v, vs, w, e) q =
    take-parts apple donl u byte h first middle last a rest v vs w e q

abbrev pub all_payloads : Bool → List Packaging → List (List ℕ)
all_payloads apple [] = []
all_payloads apple (p ∷ ps) = payloads apple p ++ all_payloads apple ps

abbrev pub all_units : List Packaging → List (List ℕ)
all_units [] = []
all_units (p ∷ ps) = units p ++ all_units ps

take-packagings :
    (apple : Bool) (ps : List Packaging) (a : Assembly) (k : ℕ)
    → All IsPackaging ps
    → a.fragment ≡ none
    → a.first ≡ some k
    → (a' : Assembly) × (take_all apple a (all_payloads apple ps) ≡ ok a')
      × (a'.nals ≡ a.nals ++ all_units ps)
      × (a'.fragment ≡ none)
      × (a'.first ≡ some k)
take-packagings apple [] a k v q f = (a, unfold take_all in refl, sym (append-nil a.nals), q, f)
take-packagings apple (p ∷ ps) a k (v, vs) q f =
    let (b, e, t) = take-packaging apple p a (all_payloads apple ps) v q in
    let kept : b.first ≡ some k = t.first_ok ∙ (unfold noted in rw f refl) in
    let (c, g, n, fr, fi) = take-packagings apple ps b k vs t.fragment_ok kept in
    (
      c,
      e ∙ g,
      n ∙ ap (λ x. x ++ all_units ps) t.nals_ok ∙ append_assoc a.nals (units p) (all_units ps),
      fr,
      fi,
    )

-- However a sender puts NAL units in packets, alone, several together, or in parts, with the order
-- number or without, the receiver that expects the same finds all units, in order, and the order number
-- of the first packet, or zero where there is none.
pub reassemble-all_payloads :
    (apple : Bool) (p : Packaging) (ps : List Packaging)
    → All IsPackaging (p ∷ ps)
    → reassemble (all_payloads apple (p ∷ ps)) apple
      ≡ ok (all_units (p ∷ ps), seen_donl apple (number p))
unfolding reassemble
reassemble-all_payloads apple p ps (v, vs) =
    let (b, e, t) = take-packaging apple p start (all_payloads apple ps) v (unfold start in refl) in
    let first : b.first ≡ some (seen_donl apple (number p)) =
      t.first_ok ∙ (unfold noted start in refl) in
    let (c, g, n, fr, fi) =
      take-packagings apple ps b (seen_donl apple (number p)) vs t.fragment_ok first in
    let nals : c.nals ≡ all_units (p ∷ ps) =
      n ∙ ap (λ x. x ++ all_units ps) (t.nals_ok ∙ (unfold start in refl)) in
    rw (e ∙ g, fr, fi, nals) refl
