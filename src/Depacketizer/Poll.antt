-- ===== src/Depacketizer/Poll.antt =====
-- depacketize.rs: `poll`, which turns groups that are due into access units.
use macvnc.Base.{
  ℕ, suc, ◌+◌, ◌-◌, ◌/◌, ◌%◌, ◌^◌, Bool, true, false, not, ◌&&◌, ◌||◌, List, [], ◌∷◌, ◌++◌, Option,
  none, some, ok, err, ltb, leb, ◌==◌, if◌then◌else◌, length, get_or,
}
use macvnc.Base.Maps.{lookup, insert, remove}
use macvnc.Srtp.{RtpPacket}
use macvnc.Hevc.{kind_of, is_parameter, reassemble}
use mathlib.Core.List.{map}
use macvnc.Depacketizer.{
  observation, hold_ms, incomplete_idle_ms, max_group_age_ms, AccessUnit, Group, GroupKey,
  Depacketizer, same_number, same_key, count, count_if, record_loss, sort_by, insert_nal,
}

-- The variables of the loop over the units of a group.
pub record Picture : Type 0 where
  pub bytes : List ℕ
  pub keyframe : Bool
  pub vcl : Bool
  pub first_slice : Bool

abbrev pub start_code : List ℕ
start_code = 0 ∷ 0 ∷ 0 ∷ 1 ∷ []

unfoldable pub take_nal : Depacketizer → Picture → List ℕ → Picture × Depacketizer
take_nal d pic nal =
    let kind = kind_of nal in
    let slice = get_or nal 2 0 / 128 % 2 == 1 in
    if is_parameter kind
    then (
      pic,
      if ltb (length d.params) 64 && leb (length nal) 65536
          then record d { params = insert_nal nal d.params }
          else d,
    )
    else if ltb 31 kind || ltb (length nal) 3
    then (pic, d)
    else (
      record {
        bytes = pic.bytes ++ (start_code ++ nal);
        keyframe = pic.keyframe || (leb 16 kind && leb kind 21);
        vcl = true;
        first_slice = pic.first_slice || slice;
      },
      count_if (not slice) "continuation_slices" d,
    )

unfoldable pub take_nals : Depacketizer → Picture → List (List ℕ) → Picture × Depacketizer
take_nals d pic [] = (pic, d)
take_nals d pic (nal ∷ nals) = let (pic', d') = take_nal d pic nal in take_nals d' pic' nals

-- The parameter sets of one kind, each behind a start code.
unfoldable pub sets_of_kind : ℕ → List (List ℕ) → List ℕ
sets_of_kind kind [] = []
sets_of_kind kind (nal ∷ params) =
    let rest = sets_of_kind kind params in
    if kind_of nal == kind then start_code ++ (nal ++ rest) else rest

unfoldable pub position : ℕ → List ℕ → ℕ
position x [] = 0
position x (y ∷ ys) = if x == y then 0 else suc (position x ys)

-- The part of a round of `poll` behind the tests of the picture.
unfoldable pub publish : Depacketizer → GroupKey → Picture → ℕ → Option AccessUnit × Depacketizer
publish d (ssrc, timestamp) pic donl =
    let d1 = if pic.keyframe then record (count d "keyframes") { have_key = true } else d in
    let prefix =
      sets_of_kind 32 d1.params ++ (sets_of_kind 33 d1.params ++ sets_of_kind 34 d1.params) in
    (
      some (record {
        generation = d1.generation;
        loss_epoch = d1.loss_epoch;
        bytes = if pic.keyframe then prefix ++ pic.bytes else pic.bytes;
        tile = position ssrc d1.sources;
        pts = d1.next_pts;
        rtp_timestamp = timestamp;
        donl = donl;
        key = pic.keyframe;
      }),
      record d1 {
        next_pts = d1.next_pts + 1;
        last_ts = insert same_number ssrc timestamp d1.last_ts;
      },
    )

unfoldable pub judge : Depacketizer → GroupKey → Picture → ℕ → Option AccessUnit × Depacketizer
judge d key pic donl =
    if not pic.vcl
    then (none, count d "no_vcl")
    else if not pic.first_slice
    then (none, record_loss d "missing_first_slice")
    else if not d.have_key && not pic.keyframe
    then (none, count d "pre_key")
    else publish d key pic donl

-- Whether each packet has the sequence number behind that of the packet before it.
unfoldable pub consecutive : List RtpPacket → Bool
consecutive [] = true
consecutive (p ∷ []) = true
consecutive (p ∷ q ∷ packets) = q.seq == (p.seq + 1) % 2 ^ 16 && consecutive (q ∷ packets)

-- `packets.sort_by_key(|p| Reverse(end.wrapping_sub(p.seq)))`
unfoldable pub in_sequence : ℕ → List RtpPacket → List RtpPacket
in_sequence end packets = sort_by (λ p. 2 ^ 16 - 1 - (end + 2 ^ 16 - p.seq) % 2 ^ 16) packets

-- Whether the packets of a source carry order numbers.
unfoldable pub apple_donl : Depacketizer → ℕ → Bool
apple_donl d ssrc = elim (observation d ssrc).donl [ none ↦ true | some b ↦ b ]

abbrev pub no_picture : Picture
no_picture = record { bytes = []; keyframe = false; vcl = false; first_slice = false }

-- A group that is due; it is removed before.
unfoldable pub finish : Depacketizer → GroupKey → Group → Option AccessUnit × Depacketizer
finish d key g = elim g.marker [
  | none ↦ (none, record_loss d "missing_marker")
  | some end ↦
      let packets = in_sequence end g.packets in
      if not (consecutive packets)
      then (none, record_loss d "sequence_gap")
      else elim (reassemble (map (λ p. p.payload) packets) (apple_donl d key.0)) [
        | err reason ↦ (none, record_loss d reason)
        | ok (nals, donl) ↦ let (pic, d1) = take_nals d no_picture nals in judge d1 key pic donl
      ]
]

-- Whether the group's timestamp is not behind the last one of its source.
unfoldable pub is_late : Depacketizer → GroupKey → Bool
is_late d (ssrc, timestamp) = elim (lookup same_number ssrc d.last_ts) [
  | none ↦ false
  | some last ↦ let delta = (timestamp + 2 ^ 32 - last) % 2 ^ 32 in delta == 0 || leb (2 ^ 31) delta
]

-- Whether the group may still change.
unfoldable pub is_waiting : Group → ℕ → Bool
is_waiting g now = elim g.marker_at [
  | some at ↦ ltb (now - at) hold_ms
  | none ↦ ltb (now - g.last_packet) incomplete_idle_ms && ltb (now - g.first) max_group_age_ms
]

unfoldable pub remove_group : Depacketizer → GroupKey → Depacketizer
remove_group d key = record d { groups = remove same_key key d.groups }

unfoldable pub drop_late : Depacketizer → Depacketizer
drop_late d = count (record d { dropped = d.dropped + 1 }) "late_timestamp"

unfoldable pub add_unit : List AccessUnit → Option AccessUnit → List AccessUnit
add_unit out none = out
add_unit out (some u) = out ++ (u ∷ [])

-- The loop of `poll`, over the keys in the order of arrival.
unfoldable pub poll_keys :
    Depacketizer → ℕ → List GroupKey → List AccessUnit → List AccessUnit × Depacketizer
poll_keys d now [] out = (out, d)
poll_keys d now (key ∷ keys) out = elim (lookup same_key key d.groups) [
  | none ↦ poll_keys d now keys out
  | some g ↦ elim (is_late d key) [
    | true ↦ poll_keys (drop_late (remove_group d key)) now keys out
    | false ↦ elim (is_waiting g now) [
      | true ↦ (out, d)
      | false ↦
          let (unit, d') = finish (remove_group d key) key g in
          poll_keys d' now keys (add_unit out unit)
    ]
  ]
]

unfoldable pub poll : Depacketizer → ℕ → List AccessUnit × Depacketizer
poll d now =
    if ltb (length d.sources) d.tiles && ltb (elim d.first [ none ↦ 0 | some t ↦ now - t ]) 750
    then ([], d)
    else poll_keys d now (map (λ e. e.0) (sort_by (λ e. e.1.order) d.groups)) []
