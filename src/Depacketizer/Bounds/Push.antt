-- ===== src/Depacketizer/Bounds/Push.antt =====
-- depacketize.rs: the limits through `push_selected` and `push`.
use macvnc.Base.{
  ℕ, refl, inl, inr, List, [], ◌∷◌, ◌++◌, arith, Option-cases, Bool-cases, ltb, length,
}
use macvnc.Base.Maps.{lookup}
use macvnc.Srtp.{RtpPacket}
use macvnc.Depacketizer.{Depacketizer, same_number, count, record_loss, observation}
use macvnc.Depacketizer.Select.{note_packet, observe_source, select_source}
use macvnc.Depacketizer.Push.{
  learn_one, learn, begin, key_of, is_over_limit, evict, store, push_selected, push_prefix,
  take_prefix, push,
}
use Prim.Native.String.{String}
use macvnc.Depacketizer.{AccessUnit}
use macvnc.Depacketizer.Bounds.{IsBounded, insert_nal-Bounded, insert-Bounded}
use macvnc.Depacketizer.Bounds.Select.{
  note_packet-IsBounded, observe_source-IsBounded, select_source-IsBounded,
}
use macvnc.Depacketizer.Bounds.Poll.{poll-IsBounded}
use macvnc.Depacketizer.Bounds.Groups.{evict-IsBounded, store-IsBounded}

learn_one-IsBounded : (d : Depacketizer) (nal : List ℕ) → IsBounded d → IsBounded (learn_one d nal)
unfolding learn_one
learn_one-IsBounded d nal v = elim (Bool-cases (ltb (length d.params) 64)) [
  | inl e ↦ rw e (insert_nal-Bounded nal d.params (ground arith) v)
  | inr e ↦ rw e v
]

learn-IsBounded :
    (d : Depacketizer) (params : List (List ℕ)) → IsBounded d → IsBounded (learn d params)
unfolding learn
learn-IsBounded d [] v = v
learn-IsBounded d (nal ∷ params) v =
    learn-IsBounded (learn_one d nal) params (learn_one-IsBounded d nal v)

begin-IsBounded :
    (d : Depacketizer) (p : RtpPacket) (now : ℕ) → IsBounded d → IsBounded (begin d p now)
unfolding begin
begin-IsBounded d p now v = learn-IsBounded d (observation d p.ssrc).params v

record_loss-IsBounded :
    (d : Depacketizer) (reason : String) → IsBounded d → IsBounded (record_loss d reason)
unfolding record_loss count
record_loss-IsBounded d reason v = v

push_selected-IsBounded :
    (d : Depacketizer) (p : RtpPacket) (now : ℕ) → IsBounded d → IsBounded (push_selected d p now).1
unfolding push_selected
push_selected-IsBounded d p now v =
    let d1 = begin d p now in
    let w = begin-IsBounded d p now v in
    elim (Bool-cases (is_over_limit d1 p)) [
      | inl e ↦ rw e (
          poll-IsBounded (record_loss d1 "pending_byte_limit") now
            (record_loss-IsBounded d1 "pending_byte_limit" w))
      | inr e ↦
          let (room, within, u) = evict-IsBounded d1 p e w in
          let d2 = evict d1 (key_of p) in
          rw e (poll-IsBounded (store d2 p now) now (store-IsBounded d2 p now room within u))
    ]

push_prefix-IsBounded :
    (d : Depacketizer) (prefix : List RtpPacket) (now : ℕ) (out : List AccessUnit)
    → IsBounded d
    → IsBounded (push_prefix d prefix now out).1
unfolding push_prefix
push_prefix-IsBounded d [] now out v = v
push_prefix-IsBounded d (p ∷ prefix) now out v =
    let r = push_selected d p now in
    push_prefix-IsBounded r.1 prefix now (out ++ r.0) (push_selected-IsBounded d p now v)

take_prefix-IsBounded :
    (d : Depacketizer) (ssrc : ℕ) → IsBounded d → IsBounded (take_prefix d ssrc).1
unfolding take_prefix
take_prefix-IsBounded d ssrc v = elim (Option-cases (lookup same_number ssrc d.observed)) [
  | inl e ↦ rw (take_prefix, e) v
  | inr (s, e) ↦
      rw (take_prefix, e)
        (insert-Bounded ssrc (record s { prefix = []; prefix_bytes = 0 }) d.observed
          (record { counted = refl; few = omega arith; small = omega arith }) (inl (rw e refl)) v)
]

pub push-IsBounded :
    (d : Depacketizer) (p : RtpPacket) (now : ℕ) → IsBounded d → IsBounded (push d p now).1
unfolding push
push-IsBounded d p now v =
    let d1 = note_packet d p in
    let v1 = note_packet-IsBounded d p v in
    elim (Bool-cases (ltb (length p.payload) 2)) [
      | inl e ↦ rw e (poll-IsBounded (count d1 "short") now (unfold count in v1))
      | inr e ↦
          let r = select_source (observe_source d1 p now) p now in
          let v2 =
            select_source-IsBounded (observe_source d1 p now) p now
              (observe_source-IsBounded d1 p now v1) in
          elim (Bool-cases r.0) [
            | inr f ↦ rw (e, f) (poll-IsBounded r.1 now v2)
            | inl f ↦
                let t = take_prefix r.1 p.ssrc in
                let u = push_prefix t.1 t.0 now [] in
                rw (e, f)
                  (push_selected-IsBounded u.1 p now
                    (push_prefix-IsBounded t.1 t.0 now [] (take_prefix-IsBounded r.1 p.ssrc v2)))
          ]
    ]
