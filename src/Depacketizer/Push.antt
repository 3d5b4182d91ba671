-- ===== src/Depacketizer/Push.antt =====
-- depacketize.rs: `push_selected` and `push`.
use macvnc.Base.{
  ℕ, ◌+◌, Bool, false, not, ◌&&◌, ◌||◌, List, [], ◌∷◌, ◌++◌, Option, none, some, ltb, leb, ◌==◌,
  if◌then◌else◌, length,
}
use macvnc.Base.Maps.{lookup, insert, remove}
use macvnc.Srtp.{RtpPacket}
use macvnc.Hevc.{is_none}
use macvnc.Depacketizer.{
  observation, max_groups, max_group_bytes, max_pending_bytes, AccessUnit, Group, SourceObservation,
  GroupKey, Depacketizer, same_number, same_key, count, record_loss, insert_nal,
}
use macvnc.Depacketizer.Select.{note_packet, observe_source, select_source}
use macvnc.Depacketizer.Poll.{remove_group, poll}

-- The start of `push_selected`: the source's parameter sets become known, and the clock starts.
unfoldable pub learn_one : Depacketizer → List ℕ → Depacketizer
learn_one d nal =
    if ltb (length d.params) 64 then record d { params = insert_nal nal d.params } else d

unfoldable pub learn : Depacketizer → List (List ℕ) → Depacketizer
learn d [] = d
learn d (nal ∷ params) = learn (learn_one d nal) params

unfoldable pub begin : Depacketizer → RtpPacket → ℕ → Depacketizer
begin d p now =
    let d' = learn d (observation d p.ssrc).params in
    record d' { first = some (elim d'.first [ none ↦ now | some t ↦ t ]) }

abbrev pub key_of : RtpPacket → GroupKey
key_of p = (p.ssrc, p.timestamp)

unfoldable pub has_seq : ℕ → List RtpPacket → Bool
has_seq seq [] = false
has_seq seq (p ∷ packets) = p.seq == seq || has_seq seq packets

unfoldable pub pending_bytes : List (GroupKey × Group) → ℕ
pending_bytes [] = 0
pending_bytes ((key, g) ∷ groups) = g.bytes + pending_bytes groups

-- Whether the packet is in its group already.
unfoldable pub is_duplicate : Depacketizer → RtpPacket → Bool
is_duplicate d p = elim (lookup same_key (key_of p) d.groups) [
  | none ↦ false
  | some g ↦ has_seq p.seq g.packets
]

unfoldable pub is_over_limit : Depacketizer → RtpPacket → Bool
is_over_limit d p =
    not (is_duplicate d p)
    && (ltb max_group_bytes (length p.payload)
        || ltb max_pending_bytes (pending_bytes d.groups + length p.payload))

-- The key of a group with the least time of its first packet; the first in the list of several.
unfoldable pub older : GroupKey → ℕ → Option (GroupKey × ℕ) → GroupKey × ℕ
older key first none = (key, first)
older key first (some (other, at)) = if leb first at then (key, first) else (other, at)

unfoldable pub oldest : List (GroupKey × Group) → Option (GroupKey × ℕ)
oldest [] = none
oldest ((key, g) ∷ groups) = some (older key g.first (oldest groups))

unfoldable pub evict : Depacketizer → GroupKey → Depacketizer
evict d key =
    if not (is_none (lookup same_key key d.groups)) || ltb (length d.groups) max_groups
    then d
    else elim (oldest d.groups) [
      | none ↦ d
      | some (old, first) ↦ record_loss (remove_group d old) "group_limit"
    ]

unfoldable pub add_packet : Group → RtpPacket → ℕ → Group
add_packet g p now = if has_seq p.seq g.packets then g else record g {
  bytes = g.bytes + length p.payload;
  marker = if p.marker then some p.seq else g.marker;
  marker_at = if p.marker then some (elim g.marker_at [ none ↦ now | some t ↦ t ]) else g.marker_at;
  last_packet = now;
  packets = g.packets ++ (p ∷ []);
}

abbrev pub empty_group : ℕ → ℕ → Group
empty_group now order = record {
  packets = [];
  first = now;
  order = order;
  bytes = 0;
  marker = none;
  marker_at = none;
  last_packet = now;
}

unfoldable pub old_group : Depacketizer → RtpPacket → ℕ → Group
old_group d p now = elim (lookup same_key (key_of p) d.groups) [
  | none ↦ empty_group now d.next_group
  | some g ↦ g
]

unfoldable pub put_group : Depacketizer → GroupKey → Group → Depacketizer
put_group d key g =
    if ltb max_group_bytes g.bytes || ltb 8192 (length g.packets)
    then record_loss (record d { groups = remove same_key key d.groups }) "byte_limit"
    else record d { groups = insert same_key key g d.groups }

unfoldable pub store : Depacketizer → RtpPacket → ℕ → Depacketizer
store d p now =
    put_group (record d { next_group = d.next_group + 1 }) (key_of p)
      (add_packet (old_group d p now) p now)

unfoldable pub push_selected : Depacketizer → RtpPacket → ℕ → List AccessUnit × Depacketizer
push_selected d p now =
    let d1 = begin d p now in
    if is_over_limit d1 p
    then poll (record_loss d1 "pending_byte_limit") now
    else poll (store (evict d1 (key_of p)) p now) now

unfoldable pub push_prefix :
    Depacketizer → List RtpPacket → ℕ → List AccessUnit → List AccessUnit × Depacketizer
push_prefix d [] now out = (out, d)
push_prefix d (p ∷ prefix) now out =
    let (units, d') = push_selected d p now in push_prefix d' prefix now (out ++ units)

-- `mem::take` of the packets that are kept of the source.
unfoldable pub take_prefix : Depacketizer → ℕ → List RtpPacket × Depacketizer
take_prefix d ssrc = elim (lookup same_number ssrc d.observed) [
  | none ↦ ([], d)
  | some s ↦
      let s' : SourceObservation = record s { prefix = []; prefix_bytes = 0 } in
      (s.prefix, record d { observed = insert same_number ssrc s' d.observed })
]

unfoldable pub push : Depacketizer → RtpPacket → ℕ → List AccessUnit × Depacketizer
push d p now =
    let d1 = note_packet d p in
    if ltb (length p.payload) 2
    then poll (count d1 "short") now
    else let (known, d2) = select_source (observe_source d1 p now) p now in
      if not known
      then poll d2 now
      else let (prefix, d3) = take_prefix d2 p.ssrc in
        let (units, d4) = push_prefix d3 prefix now [] in
        let (last, d5) = push_selected d4 p now in (units ++ last, d5)
