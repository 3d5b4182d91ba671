-- ===== src/Depacketizer/Select.antt =====
-- depacketize.rs: `push` up to the choice of the source.
use macvnc.Base.{
  ℕ, ◌+◌, ◌-◌, ◌/◌, ◌%◌, Bool, true, false, not, ◌&&◌, ◌||◌, List, [], ◌∷◌, ◌++◌, Option, none,
  some, ltb, leb, ◌==◌, if◌then◌else◌, length, get_or,
}
use macvnc.Base.Maps.{lookup, insert}
use macvnc.Srtp.{RtpPacket}
use macvnc.Hevc.{kind_of, is_none, parse_parameter_ap}
use macvnc.Depacketizer.{
  observation, max_candidate_packets, max_candidate_bytes, SourceObservation, Depacketizer,
  same_number, next_u64, count, count_if, insert_by, contains,
}

-- `push`: the counts of a packet.
unfoldable pub note_packet : Depacketizer → RtpPacket → Depacketizer
note_packet d p =
    let b = p.payload in
    let long = leb 2 (length b) in
    let fragment = leb 3 (length b) && kind_of b == 49 in
    let d1 = count_if p.marker "markers" (count d "packets") in
    let d2 = count_if (leb 1 (length b) && get_or b 0 0 == 0x92) "avc_config_marker" d1 in
    let d3 = count_if (leb 1 (length b) && get_or b 0 0 % 32 == 28) "avc_fu_a_header" d2 in
    let d4 = if long then record d3 { nal_types = kind_of b ∷ d3.nal_types } else d3 in
    let d5 = count_if (fragment && get_or b 2 0 / 128 % 2 == 1) "fu_start" d4 in
    count_if (fragment && get_or b 2 0 / 64 % 2 == 1) "fu_end" d5

-- What an aggregation packet of parameter sets tells about the source's framing: the sets that are
-- read with an order number, and those that are read without.
unfoldable pub infer_donl :
    SourceObservation → Option (List (List ℕ)) → Option (List (List ℕ)) → SourceObservation
infer_donl s (some params) none = record s { donl = some true; params = params }
infer_donl s none (some params) = record s { donl = some false; params = params }
infer_donl s none none = s
infer_donl s (some _) (some _) = s

unfoldable pub observe_source : Depacketizer → RtpPacket → ℕ → Depacketizer
observe_source d p now =
    let s = observation d p.ssrc in
    let noted = record s { packets = s.packets + 1; last = now } in
    let inferred =
      if kind_of p.payload == 48
      then infer_donl noted (parse_parameter_ap p.payload 4) (parse_parameter_ap p.payload 2)
      else noted in
    if not (is_none (lookup same_number p.ssrc d.observed)) || ltb (length d.observed) 32
    then record d { observed = insert same_number p.ssrc inferred d.observed }
    else d

-- Whether the source that is there gives way to a new one.
unfoldable pub gives_way : Depacketizer → RtpPacket → ℕ → Bool
gives_way d p now =
    let idle : Bool = elim (lookup same_number (get_or d.sources 0 0) d.observed) [
      | none ↦ false
      | some s ↦ leb 100 (now - s.last)
    ] in
    let proven : Bool = elim (lookup same_number p.ssrc d.observed) [
      | none ↦ false
      | some s ↦ leb 8 s.packets
    ] in
    d.tiles == 1 && idle && proven

unfoldable pub hand_off : Depacketizer → Depacketizer
hand_off d =
    count
      (record d {
        generation = next_u64 d.generation;
        sources = [];
        groups = [];
        params = [];
        have_key = false;
        last_ts = [];
        dropped = d.dropped + 1;
      })
      "source_handoff"

-- The loop that makes room in the packets that are kept of a candidate, for `size` bytes more. Where
-- nothing is left, the source's loop would not end; the invariant excludes it.
unfoldable pub make_room : List RtpPacket → ℕ → ℕ → List RtpPacket × ℕ
make_room [] bytes size = ([], bytes)
make_room (old ∷ prefix) bytes size =
    let rest = make_room prefix (bytes - length old.payload) size in
    if leb max_candidate_packets (length (old ∷ prefix)) || ltb max_candidate_bytes (bytes + size)
    then rest
    else (old ∷ prefix, bytes)

-- A packet of a source that is not known is kept as evidence.
unfoldable pub keep_candidate : Depacketizer → RtpPacket → Depacketizer
keep_candidate d p =
    let size = length p.payload in
    if not (d.tiles == 1 && leb size max_candidate_bytes)
    then d
    else elim (lookup same_number p.ssrc d.observed) [
      | none ↦ d
      | some s ↦
          let (prefix, bytes) = make_room s.prefix s.prefix_bytes size in
          let s' : SourceObservation = record s {
            prefix = prefix ++ (p ∷ []);
            prefix_bytes = bytes + size;
          } in
          record d { observed = insert same_number p.ssrc s' d.observed }
    ]

unfoldable pub adopt : Depacketizer → ℕ → Depacketizer
adopt d ssrc = record d { sources = insert_by (λ x. x) ssrc d.sources }

-- The choice of the source in `push`: whether the packet goes on, and the state.
unfoldable pub select_source : Depacketizer → RtpPacket → ℕ → Bool × Depacketizer
select_source d p now =
    if contains p.ssrc d.sources
    then (true, d)
    else if ltb (length d.sources) d.tiles
    then (true, adopt d p.ssrc)
    else if gives_way d p now
    then (true, adopt (hand_off d) p.ssrc)
    else (false, keep_candidate (count d "unknown_source") p)
