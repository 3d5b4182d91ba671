-- ===== src/Hevc/Tests.antt =====
-- depacketize.rs: runs of the reassembly on small payloads, and its round trip at concrete units.
use macvnc.Base.{◌≡◌, refl, [], ◌∷◌, true, false, arith, ok, err}
use macvnc.Hevc.{
  start, opened, closed, take_fragment, take_kind, noted, take_payload, take_all, reassemble,
}
use macvnc.Hevc.Packets.{Nal}
use macvnc.Hevc.RoundTrip.{
  Packaging, single, aggregate, parts, joined, all_payloads, all_units, reassemble-all_payloads,
}

abbrev slice : Nal
slice = record { h0 = 38; h1 = 1; body = 1 ∷ 2 ∷ 3 ∷ 4 ∷ 5 ∷ [] }

abbrev set_unit : Nal
set_unit = record { h0 = 64; h1 = 1; body = 9 ∷ [] }

abbrev in_parts : Packaging
in_parts = parts 7 slice (1 ∷ []) ((2 ∷ 3 ∷ []) ∷ []) (4 ∷ 5 ∷ [])

abbrev together : Packaging
together = aggregate 8 (set_unit ∷ set_unit ∷ [])

abbrev alone : Packaging
alone = single 9 slice

reassemble-all_payloads_example :
    reassemble (all_payloads true (in_parts ∷ together ∷ alone ∷ [])) true
    ≡ ok (all_units (in_parts ∷ together ∷ alone ∷ []), 7)
reassemble-all_payloads_example = reassemble-all_payloads true in_parts (together ∷ alone ∷ []) (
  (omega arith, omega arith, omega arith, (omega arith, tt), omega arith, unfold joined in refl),
  (
    (omega arith, (omega arith, (omega arith, tt))),
    ((omega arith, record { not_aggregate = refl; not_fragment = refl }), tt),
  ),
)

-- The middle of a unit without its start.
reassemble_middle : reassemble ((98 ∷ 1 ∷ 19 ∷ 5 ∷ []) ∷ []) false ≡ err "fu_missing_start"
unfolding reassemble start take_all take_payload noted take_kind take_fragment opened closed
reassemble_middle = refl
