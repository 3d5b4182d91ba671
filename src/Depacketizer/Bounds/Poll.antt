-- ===== src/Depacketizer/Bounds/Poll.antt =====
-- depacketize.rs: the limits through `poll`.
use macvnc.Base.{
  ℕ, ◌-◌, ◌/◌, ◌%◌, inl, inr, not, ◌&&◌, ◌||◌, List, [], ◌∷◌, get_or, arith, none, some,
  Option-cases, Bool-cases, ltb, leb, ◌==◌, length,
}
use macvnc.Base.Maps.{lookup}
use macvnc.Hevc.{kind_of}
use macvnc.Depacketizer.{Group, GroupKey, Depacketizer, same_key, count, count_if, record_loss}
use macvnc.Depacketizer.{AccessUnit}
use macvnc.Depacketizer.Poll.{
  Picture, take_nal, take_nals, publish, judge, finish, is_late, is_waiting, poll_keys, poll,
  remove_group, drop_late, add_unit, apple_donl, no_picture, consecutive, in_sequence,
}
use macvnc.Hevc.{reassemble, is_parameter}
use macvnc.Base.{Result-cases}
use mathlib.Core.List.{map}
use macvnc.Depacketizer.Bounds.{IsBounded, remove-Bounded, insert_nal-Bounded}

take_nal-IsBounded :
    (d : Depacketizer) (pic : Picture) (nal : List ℕ)
    → IsBounded d
    → IsBounded (take_nal d pic nal).1
unfolding take_nal count_if count
take_nal-IsBounded d pic nal v = elim (Bool-cases (is_parameter (kind_of nal))) [
  | inl e ↦ elim (Bool-cases (ltb (length d.params) 64 && leb (length nal) 65536)) [
    | inl f ↦ rw (e, f) (insert_nal-Bounded nal d.params (ground arith) v)
    | inr f ↦ rw (e, f) v
  ]
  | inr e ↦ elim (Bool-cases (ltb 31 (kind_of nal) || ltb (length nal) 3)) [
    | inl f ↦ rw (e, f) v
    | inr f ↦ elim (Bool-cases (get_or nal 2 0 / 128 % 2 == 1)) [
      | inl g ↦ rw (e, f, g) v
      | inr g ↦ rw (e, f, g) v
    ]
  ]
]

take_nals-IsBounded :
    (d : Depacketizer) (pic : Picture) (nals : List (List ℕ))
    → IsBounded d
    → IsBounded (take_nals d pic nals).1
unfolding take_nals
take_nals-IsBounded d pic [] v = v
take_nals-IsBounded d pic (nal ∷ nals) v =
    let r = take_nal d pic nal in take_nals-IsBounded r.1 r.0 nals (take_nal-IsBounded d pic nal v)

judge-IsBounded :
    (d : Depacketizer) (key : GroupKey) (pic : Picture) (donl : ℕ)
    → IsBounded d
    → IsBounded (judge d key pic donl).1
unfolding judge record_loss count publish
judge-IsBounded d key pic donl v = elim (Bool-cases pic.vcl) [
  | inr e ↦ rw e v
  | inl e ↦ elim (Bool-cases pic.first_slice) [
    | inr f ↦ rw (e, f) v
    | inl f ↦ elim (Bool-cases (not d.have_key && not pic.keyframe)) [
      | inl g ↦ rw (e, f, g) v
      | inr g ↦ rw (e, f, g) (published key)
    ]
  ]
]
  where
    published : (key : GroupKey) → IsBounded (publish d key pic donl).1
    published (ssrc, timestamp) = elim (Bool-cases pic.keyframe) [ inl k ↦ rw k v | inr k ↦ rw k v ]

finish-IsBounded :
    (d : Depacketizer) (key : GroupKey) (g : Group) → IsBounded d → IsBounded (finish d key g).1
unfolding finish record_loss count
finish-IsBounded d key g v = elim (Option-cases g.marker) [
  | inl e ↦ rw e v
  | inr (end, e) ↦ elim (Bool-cases (consecutive (in_sequence end g.packets))) [
    | inr f ↦ rw (e, f) v
    | inl f ↦
        elim (Result-cases
          (reassemble (map (λ p. p.payload) (in_sequence end g.packets)) (apple_donl d key.0))) [
            | inl (reason, k) ↦ rw (e, f, k) v
            | inr ((nals, donl), k) ↦
                let r = take_nals d no_picture nals in
                rw (e, f, k)
                  (judge-IsBounded r.1 key r.0 donl (take_nals-IsBounded d no_picture nals v))
          ]
  ]
]

remove_group-IsBounded :
    (d : Depacketizer) (key : GroupKey) → IsBounded d → IsBounded (remove_group d key)
unfolding remove_group
remove_group-IsBounded d key v = remove-Bounded key d.groups v

drop_late-IsBounded : (d : Depacketizer) → IsBounded d → IsBounded (drop_late d)
unfolding drop_late count
drop_late-IsBounded d v = v

poll_keys-IsBounded :
    (d : Depacketizer) (now : ℕ) (keys : List GroupKey) (out : List AccessUnit)
    → IsBounded d
    → IsBounded (poll_keys d now keys out).1
unfolding poll_keys
poll_keys-IsBounded d now [] out v = v
poll_keys-IsBounded d now (key ∷ keys) out v = elim (Option-cases (lookup same_key key d.groups)) [
  | inl e ↦ rw (poll_keys, e) (poll_keys-IsBounded d now keys out v)
  | inr (g, e) ↦
      let removed = remove_group d key in
      let w = remove_group-IsBounded d key v in
      elim (Bool-cases (is_late d key)) [
        | inl f ↦
            rw (poll_keys, e, f)
              (poll_keys-IsBounded (drop_late removed) now keys out (drop_late-IsBounded removed w))
        | inr f ↦ elim (Bool-cases (is_waiting g now)) [
          | inl k ↦ rw (poll_keys, e, f, k) v
          | inr k ↦
              let r = finish removed key g in
              rw (poll_keys, e, f, k)
                (poll_keys-IsBounded r.1 now keys (add_unit out r.0)
                  (finish-IsBounded removed key g w))
        ]
      ]
]

pub poll-IsBounded : (d : Depacketizer) (now : ℕ) → IsBounded d → IsBounded (poll d now).1
unfolding poll
poll-IsBounded d now v =
    let learning =
      ltb (length d.sources) d.tiles && ltb (elim d.first [ none ↦ 0 | some t ↦ now - t ]) 750 in
    elim (Bool-cases learning) [ inl e ↦ rw e v | inr e ↦ rw e (poll_keys-IsBounded d now _ [] v) ]
