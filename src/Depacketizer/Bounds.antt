-- ===== src/Depacketizer/Bounds.antt =====
-- depacketize.rs: the limits on what a depacketizer keeps.
pub mod Select
pub mod Poll
pub mod Groups
pub mod Push
pub mod Reach
use macvnc.Base.{
  ℕ, zero, suc, ◌+◌, ◌-◌, ◌*◌, ◌/◌, ◌%◌, ◌^◌, ◌<◌, ◌≤◌, ◌≡◌, ◌≢◌, refl, sym, ap, subst, ◌∙◌, inl,
  inr, ◌⊎◌, Bool, true, false, not, ◌&&◌, ◌||◌, List, [], ◌∷◌, ◌++◌, arith, Option, none, some,
  Option-cases, Bool-cases, ltb, leb, ◌==◌, if◌then◌else◌, length, length-append, min,
}
use macvnc.Base.Maps.{
  lookup, insert, remove, length-insert-le, length-insert_known, length-remove-le,
  length-remove_known, AllValues, AllValues-insert, AllValues-lookup, AllValues-remove,
}
use macvnc.Srtp.{RtpPacket}
use macvnc.Hevc.{kind_of, is_none, parse_parameter_ap}
use macvnc.Depacketizer.{
  max_groups, max_group_bytes, max_pending_bytes, max_candidate_packets, max_candidate_bytes, Group,
  SourceObservation, GroupKey, Depacketizer, new, same_number, same_key, count, count_if,
  record_loss, insert_by, insert_nal, unobserved, observation,
}
use macvnc.Depacketizer.Select.{
  note_packet, infer_donl, observe_source, gives_way, hand_off, make_room, keep_candidate, adopt,
  select_source,
}
use macvnc.Depacketizer.Push.{
  learn, begin, key_of, has_seq, pending_bytes, is_duplicate, is_over_limit, oldest, evict,
  add_packet, empty_group, store, take_prefix,
}
use Prim.Native.String.{String}

abbrev pub total_size : List RtpPacket → ℕ
total_size [] = 0
total_size (p ∷ packets) = length p.payload + total_size packets

-- What is kept of a source that is not adopted: at most eight packets and 64 KiB, counted right.
pub record IsCandidate (s : SourceObservation) : Type 0 where
  pub counted : s.prefix_bytes ≡ total_size s.prefix
  pub few : length s.prefix ≤ max_candidate_packets
  pub small : s.prefix_bytes ≤ max_candidate_bytes

-- What is kept of a group: at most 8192 packets and 8 MiB, counted right.
pub record IsGroup (g : Group) : Type 0 where
  pub counted : g.bytes ≡ total_size g.packets
  pub few : length g.packets ≤ 8192
  pub small : g.bytes ≤ max_group_bytes

pub total_size-snoc :
    (prefix : List RtpPacket) (p : RtpPacket)
    → total_size (prefix ++ (p ∷ [])) ≡ total_size prefix + length p.payload
total_size-snoc [] p = omega arith
total_size-snoc (q ∷ prefix) p = omega (arith, total_size-snoc prefix p)

-- The limits on the sources, the groups, the observed sources and the parameter sets. The table
-- `last_ts` and the parameter sets of an observed source are not among them.
pub record Bounded (tiles : ℕ) (sources : List ℕ) (groups : List (GroupKey × Group))
    (observed : List (ℕ × SourceObservation)) (params : List (List ℕ)) : Type 0 where
  pub tiles_ok : (1 ≤ tiles) × (tiles ≤ 16)
  pub sources_ok : length sources ≤ tiles
  pub groups_ok : length groups ≤ max_groups
  pub each_ok : AllValues IsGroup groups
  pub pending_ok : pending_bytes groups ≤ max_pending_bytes
  pub observed_ok : length observed ≤ 32
  pub candidates_ok : AllValues IsCandidate observed
  pub params_ok : length params ≤ 64

abbrev pub IsBounded : Depacketizer → Type 0
IsBounded d = Bounded d.tiles d.sources d.groups d.observed d.params

pub new-IsBounded : (n : ℕ) → IsBounded (new n)
unfolding new pending_bytes
new-IsBounded n = record {
  tiles_ok = (ground arith, ground arith);
  sources_ok = omega arith;
  groups_ok = omega arith;
  each_ok = tt;
  pending_ok = omega arith;
  observed_ok = omega arith;
  candidates_ok = tt;
  params_ok = omega arith;
}

-- The bytes of the groups under changes of the table.
pub pending_bytes-insert_new :
    (k : GroupKey) (g : Group) (m : List (GroupKey × Group))
    → lookup same_key k m ≡ none
    → pending_bytes (insert same_key k g m) ≡ pending_bytes m + g.bytes
unfolding lookup insert pending_bytes
pending_bytes-insert_new k g [] e = omega arith
pending_bytes-insert_new k g ((j, w) ∷ m) e = ground (arith, pending_bytes-insert_new k g m)

pub pending_bytes-insert :
    (k : GroupKey) (g old : Group) (m : List (GroupKey × Group))
    → lookup same_key k m ≡ some old
    → pending_bytes (insert same_key k g m) + old.bytes ≡ pending_bytes m + g.bytes
unfolding lookup insert pending_bytes
pending_bytes-insert k g old [] e = cc
pending_bytes-insert k g old ((j, w) ∷ m) e = elim (Bool-cases (same_key k j)) [
  | inl f ↦
      let is : w ≡ old = ground (arith, e, f) in
      let same = ap (λ (x : Group). x.bytes) is in rw f (omega (arith, same))
  | inr f ↦ rw f (omega (arith, pending_bytes-insert k g old m (ground (arith, e, f))))
]

pub pending_bytes-remove-le :
    (k : GroupKey) (m : List (GroupKey × Group))
    → pending_bytes (remove same_key k m) ≤ pending_bytes m
unfolding remove pending_bytes
pending_bytes-remove-le k [] = omega arith
pending_bytes-remove-le k ((j, w) ∷ m) = ground (arith, pending_bytes-remove-le k m)

pub lookup-remove-none :
    (k j : GroupKey) (m : List (GroupKey × Group))
    → lookup same_key k m ≡ none
    → lookup same_key k (remove same_key j m) ≡ none
unfolding lookup remove
lookup-remove-none k j [] e = refl
lookup-remove-none k j ((i, w) ∷ m) e = ground (arith, e, lookup-remove-none k j m)

length-insert_nal-le :
    (nal : List ℕ) (params : List (List ℕ)) → length (insert_nal nal params) ≤ suc (length params)
unfolding insert_nal
length-insert_nal-le nal [] = omega arith
length-insert_nal-le nal (x ∷ xs) = ground (arith, length-insert_nal-le nal xs)

-- A table without a group is within the limits where the table was.
pub remove-Bounded :
    {tiles : ℕ} {sources : List ℕ} {observed : List (ℕ × SourceObservation)}
    {params : List (List ℕ)} (k : GroupKey) (groups : List (GroupKey × Group))
    → Bounded tiles sources groups observed params
    → Bounded tiles sources (remove same_key k groups) observed params
remove-Bounded k groups v = record {
  tiles_ok = v.tiles_ok;
  sources_ok = v.sources_ok;
  groups_ok = omega (arith, v.groups_ok, length-remove-le same_key k groups);
  each_ok = AllValues-remove IsGroup same_key k groups v.each_ok;
  pending_ok = omega (arith, v.pending_ok, pending_bytes-remove-le k groups);
  observed_ok = v.observed_ok;
  candidates_ok = v.candidates_ok;
  params_ok = v.params_ok;
}

-- So is one with a parameter set more, where there is room for it.
pub insert_nal-Bounded :
    {tiles : ℕ} {sources : List ℕ} {groups : List (GroupKey × Group)}
    {observed : List (ℕ × SourceObservation)} (nal : List ℕ) (params : List (List ℕ))
    → length params < 64
    → Bounded tiles sources groups observed params
    → Bounded tiles sources groups observed (insert_nal nal params)
insert_nal-Bounded nal params h v = record {
  tiles_ok = v.tiles_ok;
  sources_ok = v.sources_ok;
  groups_ok = v.groups_ok;
  each_ok = v.each_ok;
  pending_ok = v.pending_ok;
  observed_ok = v.observed_ok;
  candidates_ok = v.candidates_ok;
  params_ok = omega (arith, length-insert_nal-le nal params);
}

-- And one in which what is known of a source is replaced, or is new, where there is room for it.
pub insert-Bounded :
    {tiles : ℕ} {sources : List ℕ} {groups : List (GroupKey × Group)} {params : List (List ℕ)}
    (ssrc : ℕ) (s : SourceObservation) (observed : List (ℕ × SourceObservation))
    → IsCandidate s
    → (is_none (lookup same_number ssrc observed) ≡ false) ⊎ (length observed < 32)
    → Bounded tiles sources groups observed params
    → Bounded tiles sources groups (insert same_number ssrc s observed) params
insert-Bounded ssrc s observed c h v = record {
  tiles_ok = v.tiles_ok;
  sources_ok = v.sources_ok;
  groups_ok = v.groups_ok;
  each_ok = v.each_ok;
  pending_ok = v.pending_ok;
  observed_ok = room h;
  candidates_ok = AllValues-insert IsCandidate same_number ssrc s observed c v.candidates_ok;
  params_ok = v.params_ok;
}
  where
    room :
        (is_none (lookup same_number ssrc observed) ≡ false) ⊎ (length observed < 32)
        → length (insert same_number ssrc s observed) ≤ 32
    room (inr less) = omega (arith, length-insert-le same_number ssrc s observed)
    room (inl known) = elim (Option-cases (lookup same_number ssrc observed)) [
      | inl e ↦ ground (arith, known, e)
      | inr (w, e) ↦ rw (length-insert_known same_number ssrc s w observed e) v.observed_ok
    ]
