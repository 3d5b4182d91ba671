-- ===== src/Hevc.antt =====
-- rust/crates/hp-media/src/depacketize.rs: the NAL units in the payloads of a group of packets. Masks and
-- shifts of bytes are written as remainders and quotients.
pub mod Packets
pub mod Fragments
pub mod RoundTrip
mod Tests
use macvnc.Base.{
  ℕ, zero, suc, ◌+◌, ◌-◌, ◌*◌, ◌/◌, ◌%◌, ◌^◌, Bool, true, false, not, ◌&&◌, ◌||◌, List, [], ◌∷◌,
  ◌++◌, Option, none, some, Result, ok, err, ensure, ◌>>=◌, ◌>>◌, ltb, leb, ◌==◌, if◌then◌else◌,
  length, take, drop, get_or, u16_at,
}

-- `b[0] >> 1 & 63`
abbrev pub kind_of : List ℕ → ℕ
kind_of b = get_or b 0 0 / 2 % 64

abbrev pub is_parameter : ℕ → Bool
is_parameter kind = leb 32 kind && leb kind 34

abbrev pub is_none {ℓ} : {A : Type ℓ} → Option A → Bool
is_none o = elim o [ none ↦ true | some _ ↦ false ]

-- The loop of `parse_parameter_ap` on `b[offset..]`; a round takes two bytes at least.
pub parameter_loop : ℕ → List ℕ → List (List ℕ) → Option (List (List ℕ))
parameter_loop fuel [] params = some params
parameter_loop zero (c ∷ b) params = none
parameter_loop (suc fuel) (c ∷ b) params =
    let size = u16_at (c ∷ b) 0 in
    let nal = take size (drop 2 (c ∷ b)) in
    let rest = drop (2 + size) (c ∷ b) in
    let found = is_parameter (kind_of nal) in
    let more = parameter_loop fuel rest (if found then params ++ (nal ∷ []) else params) in
    if ltb (length (c ∷ b)) 2
    then none
    else if ltb size 2
    then none
    else if ltb (length (c ∷ b)) (2 + size)
    then none
    else if not (get_or nal 0 0 / 128 % 2 == 0) || get_or nal 1 0 % 8 == 0
    then none
    else if found && (ltb 65536 size || leb 64 (length params))
    then none
    else more

pub parse_parameter_ap : List ℕ → ℕ → Option (List (List ℕ))
parse_parameter_ap b offset = elim (parameter_loop (length b) (drop offset b) []) [
  | none ↦ none
  | some [] ↦ none
  | some (nal ∷ params) ↦ some (nal ∷ params)
]

-- The variables of the loop of `reassemble`.
pub record Assembly : Type 0 where
  pub nals : List (List ℕ)
  pub fragment : Option (List ℕ)
  pub fragment_donl : ℕ
  pub first : Option ℕ

unfoldable pub start : Assembly
start = record { nals = []; fragment = none; fragment_donl = 0; first = none }

-- The units of an aggregation packet; `b` is what is left of it. A round takes four bytes.
pub aggregated : ℕ → List ℕ → Result (List (List ℕ))
aggregated fuel [] = ok []
aggregated zero (c ∷ b) = err "ap_size_invalid"
aggregated (suc fuel) (c ∷ b) =
    let n = u16_at (c ∷ b) 0 in
    let more = aggregated fuel (drop (2 + n) (c ∷ b)) in
    if ltb (length (c ∷ b)) 2
    then err "ap_size_short"
    else if ltb n 2 || ltb (length (c ∷ b)) (2 + n)
    then err "ap_size_invalid"
    else more >>= (λ nals. ok (take n (drop 2 (c ∷ b)) ∷ nals))

-- The first bytes of a unit that is sent in fragments, from the header of its first fragment.
abbrev pub unit_header : List ℕ → List ℕ
unit_header b =
    (get_or b 0 0 / 128 * 128 + get_or b 0 0 % 2 + get_or b 2 0 % 64 * 2) ∷ get_or b 1 0 ∷ []

-- A fragment that is the first one opens a unit.
pub opened : Assembly → List ℕ → ℕ → Result Assembly
opened a b donl =
    if not (get_or b 2 0 / 128 % 2 == 1)
    then ok a
    else if not (is_none a.fragment)
    then err "fu_restarted"
    else ok (record a { fragment = some (unit_header b); fragment_donl = donl })

-- A fragment that is the last one closes the unit.
pub closed : Assembly → List ℕ → List ℕ → Assembly
closed a b unit =
    if get_or b 2 0 / 64 % 2 == 1
    then record a { nals = a.nals ++ (unit ∷ []); fragment = none }
    else record a { fragment = some unit }

pub take_fragment : Bool → Assembly → List ℕ → ℕ → Result Assembly
take_fragment apple a b donl = do
  let payload_start = if apple then 5 else 3
  ensure (not (leb (length b) payload_start)) "fu_short"
  a1 ← opened a b donl
  ensure (a1.fragment_donl == donl) "fu_donl_changed"
  elim a1.fragment [
    | none ↦ err "fu_missing_start"
    | some unit ↦ ok (closed a1 b (unit ++ drop payload_start b))
  ]

-- The part of the loop behind the decoding order number.
unfoldable pub take_kind : Bool → Assembly → List ℕ → ℕ → Result Assembly
take_kind apple a b donl =
    let offset = if apple then 4 else 2 in
    if kind_of b == 48
    then (do
      ensure (is_none a.fragment) "ap_during_fu"
      units ← aggregated (length b) (drop offset b)
      ok (record a { nals = a.nals ++ units }))
    else if kind_of b == 49
    then take_fragment apple a b donl
    else (do
      ensure (is_none a.fragment) "single_during_fu"
      ok (record a { nals = a.nals ++ ((take 2 b ++ drop offset b) ∷ []) }))

-- `first.get_or_insert(donl)`
unfoldable pub noted : Assembly → ℕ → Assembly
noted a donl = record a { first = some (elim a.first [ none ↦ donl | some d ↦ d ]) }

-- One round of the loop of `reassemble`.
unfoldable pub take_payload : Bool → Assembly → List ℕ → Result Assembly
take_payload apple a b =
    let o = if kind_of b == 49 then 3 else 2 in
    let donl = if apple then u16_at b o else 0 in
    if ltb (length b) 2
    then err "reassemble_short"
    else if apple && ltb (length b) (o + 2)
    then err "donl_short"
    else take_kind apple (noted a donl) b donl

unfoldable pub take_all : Bool → Assembly → List (List ℕ) → Result Assembly
take_all apple a [] = ok a
take_all apple a (b ∷ payloads) = elim (take_payload apple a b) [
  | err e ↦ err e
  | ok a' ↦ take_all apple a' payloads
]

-- `reassemble`, on the payloads of the packets.
unfoldable pub reassemble : List (List ℕ) → Bool → Result (List (List ℕ) × ℕ)
reassemble payloads apple = do
  a ← take_all apple start payloads
  ensure (is_none a.fragment) "fu_missing_end"
  elim a.first [ none ↦ err "empty_group" | some donl ↦ ok (a.nals, donl) ]
