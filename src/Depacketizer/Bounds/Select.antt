-- ===== src/Depacketizer/Bounds/Select.antt =====
-- depacketize.rs: the limits through `push` up to the choice of the source.
use macvnc.Base.{
  ℕ, suc, ◌+◌, ◌-◌, ◌<◌, ◌≤◌, ◌≡◌, refl, sym, subst, inl, inr, ◌⊎◌, Bool, true, false, not, ◌&&◌,
  ◌||◌, List, [], ◌∷◌, ◌++◌, arith, Option, none, some, Option-cases, Bool-cases, ltb, leb, ◌==◌,
  if◌then◌else◌, length, length-append,
}
use macvnc.Base.Maps.{lookup, AllValues-lookup}
use macvnc.Srtp.{RtpPacket}
use macvnc.Hevc.{kind_of, is_none, parse_parameter_ap}
use macvnc.Depacketizer.{
  max_candidate_packets, max_candidate_bytes, SourceObservation, Depacketizer, same_number,
  contains, count, count_if, insert_by, unobserved, observation,
}
use macvnc.Depacketizer.Select.{
  note_packet, infer_donl, observe_source, gives_way, hand_off, make_room, keep_candidate, adopt,
  select_source,
}
use macvnc.Depacketizer.Push.{pending_bytes}
use Prim.Native.String.{String}
use macvnc.Depacketizer.Bounds.{total_size, total_size-snoc, IsCandidate, IsBounded, insert-Bounded}

count_if-IsBounded :
    (test : Bool) (name : String) (d : Depacketizer)
    → IsBounded d
    → IsBounded (count_if test name d)
unfolding count_if count
count_if-IsBounded true name d v = v
count_if-IsBounded false name d v = v

pub note_packet-IsBounded :
    (d : Depacketizer) (p : RtpPacket) → IsBounded d → IsBounded (note_packet d p)
unfolding note_packet
note_packet-IsBounded d p v = count_if-IsBounded _ _ _ (
    count_if-IsBounded _ _ _ (
      kept (leb 2 (length p.payload)) (kind_of p.payload) _ (
        count_if-IsBounded _ _ _
          (count_if-IsBounded _ _ _ (count_if-IsBounded _ _ _ (counted v))))))
  where
    kept :
        (b : Bool) (k : ℕ) (d : Depacketizer)
        → IsBounded d
        → IsBounded (if b then record d { nal_types = k ∷ d.nal_types } else d)
    kept true k d v = v
    kept false k d v = v

    counted : IsBounded d → IsBounded (count d "packets")
    counted v = unfold count in v

infer_donl-IsCandidate :
    (s : SourceObservation) (a b : Option (List (List ℕ)))
    → IsCandidate s
    → IsCandidate (infer_donl s a b)
unfolding infer_donl
infer_donl-IsCandidate s (some params) none c = record {
  counted = c.counted;
  few = c.few;
  small = c.small;
}
infer_donl-IsCandidate s none (some params) c = record {
  counted = c.counted;
  few = c.few;
  small = c.small;
}
infer_donl-IsCandidate s none none c = c
infer_donl-IsCandidate s (some _) (some _) c = c

observation-some :
    (d : Depacketizer) (ssrc : ℕ) (s : SourceObservation)
    → lookup same_number ssrc d.observed ≡ some s
    → observation d ssrc ≡ s
observation-some d ssrc s e = ground (arith, e)

observation-none :
    (d : Depacketizer) (ssrc : ℕ)
    → lookup same_number ssrc d.observed ≡ none
    → observation d ssrc ≡ unobserved
observation-none d ssrc e = ground (arith, e)

observation-IsCandidate :
    (d : Depacketizer) (ssrc : ℕ) → IsBounded d → IsCandidate (observation d ssrc)
observation-IsCandidate d ssrc v = elim (Option-cases (lookup same_number ssrc d.observed)) [
  | inl e ↦
      subst IsCandidate (sym (observation-none d ssrc e))
        (record { counted = refl; few = omega arith; small = omega arith })
  | inr (s, e) ↦
      subst IsCandidate (sym (observation-some d ssrc s e))
        (AllValues-lookup IsCandidate same_number ssrc s d.observed v.candidates_ok e)
]

pub observe_source-IsBounded :
    (d : Depacketizer) (p : RtpPacket) (now : ℕ) → IsBounded d → IsBounded (observe_source d p now)
unfolding observe_source
observe_source-IsBounded d p now v =
    let s = observation d p.ssrc in
    let noted : SourceObservation = record s { packets = s.packets + 1; last = now } in
    let c = observation-IsCandidate d p.ssrc v in
    let n : IsCandidate noted = record { counted = c.counted; few = c.few; small = c.small } in
    let a = parse_parameter_ap p.payload 4 in
    let b = parse_parameter_ap p.payload 2 in
    let parameters = kind_of p.payload == 48 in
    let known =
      not (is_none (lookup same_number p.ssrc d.observed)) || ltb (length d.observed) 32 in
    elim (Bool-cases known) [
      | inr full ↦ rw full v
      | inl e ↦ rw e (
          insert-Bounded p.ssrc (if parameters then infer_donl noted a b else noted) d.observed
            (both parameters noted a b n) (room (is_none (lookup same_number p.ssrc d.observed)) e)
            v)
    ]
  where
    both :
        (t : Bool) (s : SourceObservation) (a b : Option (List (List ℕ)))
        → IsCandidate s
        → IsCandidate (if t then infer_donl s a b else s)
    both true s a b c = infer_donl-IsCandidate s a b c
    both false s a b c = c

    room :
        (t : Bool)
        → (not t || ltb (length d.observed) 32) ≡ true
        → (t ≡ false) ⊎ (length d.observed < 32)
    room true e = inr (ground arith)
    room false e = inl refl

pub hand_off-IsBounded : (d : Depacketizer) → IsBounded d → IsBounded (hand_off d)
unfolding hand_off count pending_bytes
hand_off-IsBounded d v = record {
  tiles_ok = v.tiles_ok;
  sources_ok = omega arith;
  groups_ok = omega arith;
  each_ok = tt;
  pending_ok = omega arith;
  observed_ok = v.observed_ok;
  candidates_ok = v.candidates_ok;
  params_ok = omega arith;
}

length-insert_by :
    (key : ℕ → ℕ) (x : ℕ) (xs : List ℕ) → length (insert_by key x xs) ≡ suc (length xs)
unfolding insert_by
length-insert_by key x [] = refl
length-insert_by key x (y ∷ ys) = ground (arith, length-insert_by key x ys)

adopt-IsBounded :
    (d : Depacketizer) (ssrc : ℕ)
    → length d.sources < d.tiles
    → IsBounded d
    → IsBounded (adopt d ssrc)
unfolding adopt
adopt-IsBounded d ssrc h v = record {
  tiles_ok = v.tiles_ok;
  sources_ok = omega (arith, length-insert_by (λ x. x) ssrc d.sources);
  groups_ok = v.groups_ok;
  each_ok = v.each_ok;
  pending_ok = v.pending_ok;
  observed_ok = v.observed_ok;
  candidates_ok = v.candidates_ok;
  params_ok = v.params_ok;
}

-- After the loop there is room for the packet, and the count of bytes is right; where the loop reaches
-- the end of the list, it stops by its test.
pub make_room_lem :
    (prefix : List RtpPacket) (bytes size : ℕ)
    → bytes ≡ total_size prefix
    → size ≤ max_candidate_bytes
    → length prefix ≤ max_candidate_packets
    → let (prefix', bytes') = make_room prefix bytes size in
      (bytes' ≡ total_size prefix')
      × (length prefix' < max_candidate_packets)
      × (bytes' + size ≤ max_candidate_bytes)
unfolding make_room
make_room_lem [] bytes size e h k = (e, omega arith, omega arith)
make_room_lem (p ∷ prefix) bytes size e h k =
    ground (arith, make_room_lem prefix (bytes - length p.payload) size)

pub keep_candidate-IsBounded :
    (d : Depacketizer) (p : RtpPacket) → IsBounded d → IsBounded (keep_candidate d p)
unfolding keep_candidate
keep_candidate-IsBounded d p v =
    let size = length p.payload in
    elim (Bool-cases (d.tiles == 1 && leb size max_candidate_bytes)) [
      | inr e ↦ rw e v
      | inl e ↦ rw e (elim (Option-cases (lookup same_number p.ssrc d.observed)) [
        | inl z ↦ rw z v
        | inr (s, q) ↦
            let c =
              AllValues-lookup IsCandidate same_number p.ssrc s d.observed v.candidates_ok q in
            let small : size ≤ max_candidate_bytes = ground arith in
            let (counted, few, room) =
              make_room_lem s.prefix s.prefix_bytes size c.counted small c.few in
            let kept = make_room s.prefix s.prefix_bytes size in
            rw q (
              insert-Bounded p.ssrc
                (record s { prefix = kept.0 ++ (p ∷ []); prefix_bytes = kept.1 + size }) d.observed
                (record {
                  counted = omega (arith, counted, total_size-snoc kept.0 p);
                  few = omega (arith, few, length-append kept.0 (p ∷ []));
                  small = room;
                })
                (inl (rw q refl)) v)
      ])
    ]

pub select_source-IsBounded :
    (d : Depacketizer) (p : RtpPacket) (now : ℕ) → IsBounded d → IsBounded (select_source d p now).1
unfolding select_source
select_source-IsBounded d p now v = elim (Bool-cases (contains p.ssrc d.sources)) [
  | inl e ↦ rw e v
  | inr e ↦ elim (Bool-cases (ltb (length d.sources) d.tiles)) [
    | inl f ↦ rw (e, f) (adopt-IsBounded d p.ssrc (ground arith) v)
    | inr f ↦ elim (Bool-cases (gives_way d p now)) [
      | inl g ↦
          rw (e, f, g)
            (adopt-IsBounded (hand_off d) p.ssrc
              (unfold hand_off count in omega (arith, v.tiles_ok)) (hand_off-IsBounded d v))
      | inr g ↦
          rw (e, f, g) (keep_candidate-IsBounded (count d "unknown_source") p (unfold count in v))
    ]
  ]
]
