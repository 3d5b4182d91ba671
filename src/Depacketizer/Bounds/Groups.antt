-- ===== src/Depacketizer/Bounds/Groups.antt =====
-- depacketize.rs: the limits under the changes of the table of groups.
use macvnc.Base.{
  ℕ, ◌+◌, ◌<◌, ◌≤◌, ◌≡◌, refl, sym, ap, inl, inr, ◌⊎◌, false, ◌||◌, List, [], ◌∷◌, arith, none,
  some, Option-cases, Bool-cases, ltb, leb, if◌then◌else◌, length,
}
use macvnc.Base.Maps.{
  lookup, insert, length-insert-le, length-insert_known, length-remove_known, AllValues-insert,
  AllValues-lookup,
}
use macvnc.Srtp.{RtpPacket}
use macvnc.Hevc.{is_none}
use macvnc.Depacketizer.{
  max_groups, max_group_bytes, max_pending_bytes, Group, SourceObservation, GroupKey, Depacketizer,
  same_key, count, record_loss,
}
use macvnc.Depacketizer.Push.{
  old_group, put_group, key_of, has_seq, pending_bytes, is_duplicate, is_over_limit, oldest, evict,
  older, add_packet, empty_group, store,
}
use macvnc.Depacketizer.Poll.{remove_group}
use macvnc.Depacketizer.Bounds.{
  total_size, total_size-snoc, IsGroup, Bounded, IsBounded, pending_bytes-insert_new,
  pending_bytes-insert, pending_bytes-remove-le, lookup-remove-none, remove-Bounded,
}

lookup-first :
    (key : GroupKey) (k : GroupKey) (g : Group) (groups : List (GroupKey × Group))
    → key ≡ k
    → is_none (lookup same_key key ((k, g) ∷ groups)) ≡ false
unfolding lookup
lookup-first (a, s) (b, t) g groups e =
    let same = ap (λ (k : GroupKey). k.0) e in
    let times = ap (λ (k : GroupKey). k.1) e in ground (arith, same, times)

lookup-later :
    (key : GroupKey) (k : GroupKey) (g : Group) (groups : List (GroupKey × Group))
    → is_none (lookup same_key key groups) ≡ false
    → is_none (lookup same_key key ((k, g) ∷ groups)) ≡ false
unfolding lookup
lookup-later key k g groups e = ground (arith, e)

-- The oldest group is one of the groups.
oldest-some :
    (key : GroupKey) (first : ℕ) (groups : List (GroupKey × Group))
    → oldest groups ≡ some (key, first)
    → is_none (lookup same_key key groups) ≡ false
unfolding oldest older
oldest-some key first [] e = cc
oldest-some key first ((k, g) ∷ groups) e = elim (Option-cases (oldest groups)) [
  | inl z ↦ lookup-first key k g groups (ground (arith, e, z))
  | inr ((o, at), z) ↦ elim (Bool-cases (leb g.first at)) [
    | inl f ↦ lookup-first key k g groups (ground (arith, e, z, f))
    | inr f ↦
        let other : o ≡ key = ground (arith, e, z, f) in
        lookup-later key k g groups (rw (sym other) (oldest-some o at groups z))
  ]
]

oldest-none : (groups : List (GroupKey × Group)) → oldest groups ≡ none → length groups ≡ 0
unfolding oldest
oldest-none [] e = refl
oldest-none ((k, g) ∷ groups) e = cc

-- A table with a group that is put in is within the limits where those on groups hold.
insert_group-Bounded :
    {tiles : ℕ} {sources : List ℕ} {observed : List (ℕ × SourceObservation)}
    {params : List (List ℕ)} (key : GroupKey) (g : Group) (groups : List (GroupKey × Group))
    → IsGroup g
    → length (insert same_key key g groups) ≤ max_groups
    → pending_bytes (insert same_key key g groups) ≤ max_pending_bytes
    → Bounded tiles sources groups observed params
    → Bounded tiles sources (insert same_key key g groups) observed params
insert_group-Bounded key g groups c h k v = record {
  tiles_ok = v.tiles_ok;
  sources_ok = v.sources_ok;
  groups_ok = h;
  each_ok = AllValues-insert IsGroup same_key key g groups c v.each_ok;
  pending_ok = k;
  observed_ok = v.observed_ok;
  candidates_ok = v.candidates_ok;
  params_ok = v.params_ok;
}

-- Whether the packet's group is there or has room in the table.
abbrev pub HasRoom : Depacketizer → RtpPacket → Type 0
HasRoom d p =
    (is_none (lookup same_key (key_of p) d.groups) ≡ false)
    ⊎ ((lookup same_key (key_of p) d.groups ≡ none) × (length d.groups < max_groups))

-- After the removal of another group the packet has no group still, there is room for it, and it is
-- within the limit on bytes still.
remove_group_lem :
    (d : Depacketizer) (p : RtpPacket) (old : GroupKey)
    → lookup same_key (key_of p) d.groups ≡ none
    → is_none (lookup same_key old d.groups) ≡ false
    → is_over_limit d p ≡ false
    → IsBounded d
    → let e = record_loss (remove_group d old) "group_limit" in
      HasRoom e p × (is_over_limit e p ≡ false) × IsBounded e
unfolding is_over_limit is_duplicate record_loss count remove_group
remove_group_lem d p old e there h v =
    let gone = lookup-remove-none (key_of p) old d.groups e in
    let less = pending_bytes-remove-le old d.groups in
    elim (Option-cases (lookup same_key old d.groups)) [
      | inl z ↦ absurd (ground (arith, there, z))
      | inr (g, z) ↦ (
        inr (gone, omega (arith, length-remove_known same_key old g d.groups z, v.groups_ok)),
        ground (arith, e, h, gone, less),
        remove-Bounded old d.groups v,
      )
    ]

-- What `evict` leaves: room for the packet, and the limits.
pub evict-IsBounded :
    (d : Depacketizer) (p : RtpPacket)
    → is_over_limit d p ≡ false
    → IsBounded d
    → let e = evict d (key_of p) in HasRoom e p × (is_over_limit e p ≡ false) × IsBounded e
unfolding evict
evict-IsBounded d p h v =
    let key = key_of p in
    elim (Option-cases (lookup same_key key d.groups)) [
      | inr (g, e) ↦ rw (evict, e) (inl (rw e refl), h, v)
      | inl e ↦ elim (Bool-cases (ltb (length d.groups) max_groups)) [
        | inl f ↦ rw (evict, e, f) (inr (e, ground arith), h, v)
        | inr f ↦ elim (Option-cases (oldest d.groups)) [
          | inl z ↦ absurd (ground (arith, f, oldest-none d.groups z))
          | inr ((old, at), z) ↦
              rw (evict, e, f, z) (remove_group_lem d p old e (oldest-some old at d.groups z) h v)
        ]
      ]
    ]

put_group-IsBounded :
    (d : Depacketizer) (key : GroupKey) (g : Group)
    → g.bytes ≡ total_size g.packets
    → length (insert same_key key g d.groups) ≤ max_groups
    → pending_bytes (insert same_key key g d.groups) ≤ max_pending_bytes
    → IsBounded d
    → IsBounded (put_group d key g)
unfolding put_group record_loss count
put_group-IsBounded d key g c h k v =
    elim (Bool-cases (ltb max_group_bytes g.bytes || ltb 8192 (length g.packets))) [
      | inl e ↦ rw e (remove-Bounded key d.groups v)
      | inr e ↦ rw e (
          insert_group-Bounded key g d.groups
            (record { counted = c; few = ground (arith, e); small = ground (arith, e) }) h k v)
    ]

-- What a packet adds to the bytes of its group.
bytes-add_packet :
    (g : Group) (p : RtpPacket) (now : ℕ)
    → (add_packet g p now).bytes
      ≡ g.bytes + (if has_seq p.seq g.packets then 0 else length p.payload)
unfolding add_packet
bytes-add_packet g p now = ground arith

-- The bytes of a group stay those of its packets.
add_packet-counted :
    (g : Group) (p : RtpPacket) (now : ℕ)
    → g.bytes ≡ total_size g.packets
    → (add_packet g p now).bytes ≡ total_size (add_packet g p now).packets
unfolding add_packet
add_packet-counted g p now h = elim (Bool-cases (has_seq p.seq g.packets)) [
  | inl e ↦ rw e h
  | inr e ↦ rw e (omega (arith, h, total_size-snoc g.packets p))
]

old_group-counted :
    (d : Depacketizer) (p : RtpPacket) (now : ℕ)
    → IsBounded d
    → (old_group d p now).bytes ≡ total_size (old_group d p now).packets
unfolding old_group
old_group-counted d p now v = elim (Option-cases (lookup same_key (key_of p) d.groups)) [
  | inl e ↦ rw (old_group, e) refl
  | inr (g, e) ↦
      rw (old_group, e)
        (AllValues-lookup IsGroup same_key (key_of p) g d.groups v.each_ok e).counted
]

pending_bytes-new :
    (d : Depacketizer) (p : RtpPacket) (now : ℕ)
    → lookup same_key (key_of p) d.groups ≡ none
    → is_over_limit d p ≡ false
    → pending_bytes (insert same_key (key_of p) (add_packet (old_group d p now) p now) d.groups)
      ≤ max_pending_bytes
unfolding is_over_limit is_duplicate old_group has_seq
pending_bytes-new d p now e h =
    rw (old_group, e)
      (let g = add_packet (empty_group now d.next_group) p now in
        let sum = pending_bytes-insert_new (key_of p) g d.groups e in
        let bytes = bytes-add_packet (empty_group now d.next_group) p now in
        ground (arith, e, h, sum, bytes))

pending_bytes-known :
    (d : Depacketizer) (p : RtpPacket) (now : ℕ) (g : Group)
    → lookup same_key (key_of p) d.groups ≡ some g
    → is_over_limit d p ≡ false
    → pending_bytes d.groups ≤ max_pending_bytes
    → pending_bytes (insert same_key (key_of p) (add_packet (old_group d p now) p now) d.groups)
      ≤ max_pending_bytes
unfolding is_over_limit is_duplicate old_group
pending_bytes-known d p now g e h k =
    rw (old_group, e)
      (let sum = pending_bytes-insert (key_of p) (add_packet g p now) g d.groups e in
        let bytes = bytes-add_packet g p now in ground (arith, e, h, k, sum, bytes))

pub store-IsBounded :
    (d : Depacketizer) (p : RtpPacket) (now : ℕ)
    → HasRoom d p
    → is_over_limit d p ≡ false
    → IsBounded d
    → IsBounded (store d p now)
unfolding store
store-IsBounded d p now room h v =
    let key = key_of p in
    let g = add_packet (old_group d p now) p now in
    let next : Depacketizer = record d { next_group = d.next_group + 1 } in
    let counted = add_packet-counted (old_group d p now) p now (old_group-counted d p now v) in
    elim (Option-cases (lookup same_key key d.groups)) [
      | inl e ↦
          let few : length d.groups < max_groups = ground (arith, e, room) in
          put_group-IsBounded next key g counted
            (omega (arith, length-insert-le same_key key g d.groups))
            (pending_bytes-new d p now e h) v
      | inr (old, e) ↦
          put_group-IsBounded next key g counted
            (rw (length-insert_known same_key key g old d.groups e) v.groups_ok)
            (pending_bytes-known d p now old e h v.pending_ok) v
    ]
