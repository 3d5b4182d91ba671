-- ===== src/Depacketizer.antt =====
-- rust/crates/hp-media/src/depacketize.rs: the assembly of access units from RTP packets. Times are in
-- milliseconds, a map is a list of its entries, and a count is kept as the list of what was counted.
pub mod Select
pub mod Poll
pub mod Push
pub mod Bounds
mod Tests
use macvnc.Base.{
  ℕ, zero, suc, ◌+◌, ◌-◌, ◌*◌, ◌/◌, ◌%◌, ◌^◌, Bool, true, false, not, ◌&&◌, ◌||◌, List, [], ◌∷◌,
  ◌++◌, Option, none, some, Result, ok, err, ltb, leb, ◌==◌, if◌then◌else◌, length, take, drop,
  get_or, min,
}
use macvnc.Base.Maps.{lookup, insert, remove}
use macvnc.Srtp.{RtpPacket}
use macvnc.Hevc.{kind_of, is_parameter, is_none, parse_parameter_ap, reassemble}
use mathlib.Core.List.{map, filter}
use Prim.Native.String.{String}

abbrev pub max_groups : ℕ
max_groups = 64

abbrev pub max_group_bytes : ℕ
max_group_bytes = 8 * 1024 * 1024

abbrev pub max_pending_bytes : ℕ
max_pending_bytes = 32 * 1024 * 1024

abbrev pub hold_ms : ℕ
hold_ms = 25

abbrev pub incomplete_idle_ms : ℕ
incomplete_idle_ms = 200

abbrev pub max_group_age_ms : ℕ
max_group_age_ms = 1000

abbrev pub max_candidate_packets : ℕ
max_candidate_packets = 8

abbrev pub max_candidate_bytes : ℕ
max_candidate_bytes = 64 * 1024

pub record AccessUnit : Type 0 where
  pub generation : ℕ
  pub loss_epoch : ℕ
  pub bytes : List ℕ
  pub tile : ℕ
  pub pts : ℕ
  pub rtp_timestamp : ℕ
  pub donl : ℕ
  pub key : Bool

pub record Group : Type 0 where
  pub packets : List RtpPacket
  pub first : ℕ
  pub order : ℕ
  pub bytes : ℕ
  pub marker : Option ℕ
  pub marker_at : Option ℕ
  pub last_packet : ℕ

pub record SourceObservation : Type 0 where
  pub packets : ℕ
  pub last : ℕ
  pub donl : Option Bool
  pub params : List (List ℕ)
  pub prefix : List RtpPacket
  pub prefix_bytes : ℕ

-- A source and a timestamp.
abbrev pub GroupKey : Type 0
GroupKey = ℕ × ℕ

pub record Depacketizer : Type 0 where
  pub tiles : ℕ
  pub sources : List ℕ
  pub groups : List (GroupKey × Group)
  pub first : Option ℕ
  pub next_pts : ℕ
  pub have_key : Bool
  pub params : List (List ℕ)
  pub dropped : ℕ
  pub last_ts : List (ℕ × ℕ)
  pub next_group : ℕ
  pub counters : List String
  pub nal_types : List ℕ
  pub observed : List (ℕ × SourceObservation)
  pub generation : ℕ
  pub loss_epoch : ℕ

pub new : ℕ → Depacketizer
new tile_count = record {
  tiles = if ltb tile_count 1 then 1 else min tile_count 16;
  sources = [];
  groups = [];
  first = none;
  next_pts = 0;
  have_key = false;
  params = [];
  dropped = 0;
  last_ts = [];
  next_group = 0;
  counters = [];
  nal_types = [];
  observed = [];
  generation = 0;
  loss_epoch = 0;
}

abbrev pub same_number : ℕ → ℕ → Bool
same_number a b = a == b

abbrev pub same_key : GroupKey → GroupKey → Bool
same_key (a, s) (b, t) = a == b && s == t

-- `saturating_add(1)` of 64 bits
abbrev pub next_u64 : ℕ → ℕ
next_u64 n = min (n + 1) (2 ^ 64 - 1)

unfoldable pub count : Depacketizer → String → Depacketizer
count d name = record d { counters = name ∷ d.counters }

unfoldable pub count_if : Bool → String → Depacketizer → Depacketizer
count_if test name d = if test then count d name else d

unfoldable pub record_loss : Depacketizer → String → Depacketizer
record_loss d reason =
    count (record d { dropped = d.dropped + 1; loss_epoch = next_u64 d.loss_epoch }) reason

-- `sort_by_key`, which is stable.
unfoldable pub insert_by {ℓ} : {A : Type ℓ} → (A → ℕ) → A → List A → List A
insert_by key x [] = x ∷ []
insert_by key x (y ∷ ys) = if leb (key x) (key y) then x ∷ y ∷ ys else y ∷ insert_by key x ys

pub sort_by {ℓ} : {A : Type ℓ} → (A → ℕ) → List A → List A
sort_by key [] = []
sort_by key (x ∷ xs) = insert_by key x (sort_by key xs)

pub contains : ℕ → List ℕ → Bool
contains x [] = false
contains x (y ∷ ys) = x == y || contains x ys

-- The order of byte strings, and the insertion into the ordered set of parameter sets.
pub bytes_lt : List ℕ → List ℕ → Bool
bytes_lt [] [] = false
bytes_lt [] (y ∷ ys) = true
bytes_lt (x ∷ xs) [] = false
bytes_lt (x ∷ xs) (y ∷ ys) = ltb x y || (x == y && bytes_lt xs ys)

unfoldable pub insert_nal : List ℕ → List (List ℕ) → List (List ℕ)
insert_nal nal [] = nal ∷ []
insert_nal nal (x ∷ xs) =
    let rest = insert_nal nal xs in
    if bytes_lt nal x then nal ∷ x ∷ xs else if bytes_lt x nal then x ∷ rest else x ∷ xs

abbrev pub unobserved : SourceObservation
unobserved = record {
  packets = 0;
  last = 0;
  donl = none;
  params = [];
  prefix = [];
  prefix_bytes = 0;
}

abbrev pub observation : Depacketizer → ℕ → SourceObservation
observation d ssrc = elim (lookup same_number ssrc d.observed) [ none ↦ unobserved | some s ↦ s ]
