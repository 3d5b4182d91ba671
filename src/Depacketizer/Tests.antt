-- ===== src/Depacketizer/Tests.antt =====
-- depacketize.rs: the assembly of a small picture, and the theorems at concrete inputs.
use macvnc.Base.{ℕ, ◌≡◌, refl, List, [], ◌∷◌, true}
use mathlib.Core.List.{map}
use macvnc.Srtp.{RtpPacket}
use macvnc.Depacketizer.{
  Depacketizer, new, count, count_if, record_loss, insert_by, sort_by, contains, insert_nal,
}
use macvnc.Base.Maps.{lookup, insert, remove}
use macvnc.Depacketizer.Select.{note_packet, observe_source, select_source, adopt}
use macvnc.Hevc.{start, take_all, take_payload, noted, take_kind, reassemble}
use macvnc.Depacketizer.Poll.{
  poll, poll_keys, remove_group, add_unit, is_late, is_waiting, finish, apple_donl, in_sequence,
  consecutive, take_nals, take_nal, judge, publish, position, sets_of_kind,
}
use macvnc.Depacketizer.Push.{
  push, push_prefix, push_selected, take_prefix, begin, learn, is_over_limit, is_duplicate, has_seq,
  pending_bytes, evict, store, old_group, put_group, add_packet,
}
use macvnc.Depacketizer.Bounds.{IsBounded}
use macvnc.Depacketizer.Bounds.Reach.{created, pushed, polled, Reachable-IsBounded}

-- A key picture in one packet with an order number.
abbrev key_picture : RtpPacket
key_picture = record {
  ssrc = 5;
  seq = 10;
  timestamp = 100;
  marker = true;
  pt = 96;
  payload = 38 ∷ 1 ∷ 0 ∷ 7 ∷ 200 ∷ 1 ∷ [];
}

abbrev after_push : Depacketizer
after_push = (push (new 1) key_picture 1000).1

Reachable-IsBounded_example : IsBounded (poll after_push 1030).1
Reachable-IsBounded_example = Reachable-IsBounded 1 (polled (pushed created key_picture 1000) 1030)

abbrev picture : List (List ℕ)
picture = map (λ u. u.bytes) (poll after_push 1030).0

-- The picture comes out with a start code before it and without the order number.
picture-new : picture ≡ (0 ∷ 0 ∷ 0 ∷ 1 ∷ 38 ∷ 1 ∷ 200 ∷ 1 ∷ []) ∷ []
unfolding new count count_if record_loss insert_by sort_by contains insert_nal lookup insert remove
    note_packet observe_source select_source adopt start take_all take_payload noted take_kind
    reassemble poll poll_keys remove_group add_unit is_late is_waiting finish apple_donl in_sequence
    consecutive take_nals take_nal judge publish position sets_of_kind push push_prefix
    push_selected take_prefix begin learn is_over_limit is_duplicate has_seq pending_bytes evict
    store old_group put_group add_packet
picture-new = refl
