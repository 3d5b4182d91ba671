-- ===== src/Srtp/Rtcp/RoundTrip.antt =====
-- srtp.rs: the RTCP packets against a reader of RTCP.
use macvnc.Base.{
  ℕ, zero, suc, ◌+◌, ◌*◌, ◌/◌, ◌%◌, ◌^◌, ◌<◌, ◌≤◌, ◌≡◌, refl, sym, ap, be16, be32, ◌∙◌, inl, inr,
  true, not, ◌&&◌, ◌||◌, ◌==◌, if◌then◌else◌, Option, some, none, List, [], ◌∷◌, ◌++◌, arith,
  length, replicate, take, drop, min, u16_at, u32_at, u32, get_or, length-take, take_of_length-le,
  from_be16-be16, from_be32-be32, All, Bool-cases, leb,
}
use macvnc.Base.Bits.{bit_or-shifted}
use Prim.Native.Nat.{bit_or}
use macvnc.Srtp.Rtcp.{blocks, build_rr, build_empty_sr, build_fir_legacy, build_fir, build_pli}

-- The packets that a receiver of media sends, as their standards tell them apart.
pub data Rtcp : Type 0 where
  receiver_report : ℕ → List (ℕ × ℕ) → Rtcp
  sender_report : ℕ → ℕ → ℕ → ℕ → Rtcp
  legacy_intra_request : ℕ → Rtcp
  full_intra_request : ℕ → ℕ → ℕ → Rtcp
  picture_loss : ℕ → ℕ → Rtcp

-- The source and the highest sequence number of each block of a report.
read_blocks : ℕ → List ℕ → List (ℕ × ℕ)
read_blocks zero p = []
read_blocks (suc n) p = (u32_at p 0, u32_at p 8) ∷ read_blocks n (drop 24 p)

-- A reader: version 2 without padding, and a length field that counts the words behind the first; then
-- the packet type, the count or the format in the first byte, and the length decide.
pub read_rtcp : List ℕ → Option Rtcp
read_rtcp p =
    let first = get_or p 0 0 in
    let kind = get_or p 1 0 in
    let count = first % 32 in
    if not (first / 32 == 4) || not (length p == 4 * (u16_at p 2 + 1))
    then none
    else if kind == 201 && length p == 8 + count * 24
    then some (receiver_report (u32_at p 4) (read_blocks count (drop 8 p)))
    else if kind == 200 && count == 0 && length p == 28
    then some (sender_report (u32_at p 4) (u32_at p 8) (u32_at p 12) (u32_at p 16))
    else if kind == 192 && count == 0 && length p == 8
    then some (legacy_intra_request (u32_at p 4))
    else if kind == 206 && count == 4 && length p == 20
    then some (full_intra_request (u32_at p 4) (u32_at p 12) (get_or p 16 0))
    else if kind == 206 && count == 1 && length p == 12
    then some (picture_loss (u32_at p 4) (u32_at p 8))
    else none

abbrev pub IsReport : ℕ × ℕ → Type 0
IsReport (ssrc, seq) = (ssrc < 2 ^ 32) × (seq < 2 ^ 32)

length-blocks : (sources : List (ℕ × ℕ)) → length (blocks sources) ≡ 24 * length sources
unfolding blocks
length-blocks [] = refl
length-blocks ((ssrc, seq) ∷ sources) = omega (arith, length-blocks sources)

read_blocks-blocks :
    (sources : List (ℕ × ℕ))
    → All IsReport sources
    → read_blocks (length sources) (blocks sources) ≡ sources
unfolding read_blocks blocks
read_blocks-blocks [] v = refl
read_blocks-blocks ((ssrc, seq) ∷ sources) ((h, k), v) =
    rw (from_be32-be32 ssrc h, from_be32-be32 seq k, read_blocks-blocks sources v) refl

All-take : (n : ℕ) (sources : List (ℕ × ℕ)) → All IsReport sources → All IsReport (take n sources)
All-take zero sources v = tt
All-take (suc n) [] v = tt
All-take (suc n) (x ∷ sources) (h, v) = (h, All-take n sources v)

take-min : (n : ℕ) (sources : List (ℕ × ℕ)) → take (min (length sources) n) sources ≡ take n sources
take-min n sources = elim (Bool-cases (leb (length sources) n)) [
  | inl e ↦
      let at : min (length sources) n ≡ length sources = ground arith in
      rw at (
        take_of_length-le (length sources) sources (omega arith)
        ∙ sym (take_of_length-le n sources (ground arith)))
  | inr e ↦ let at : min (length sources) n ≡ n = ground arith in rw at refl
]

-- The first byte of a report for `n` sources.
rr_first : (n : ℕ) → n ≤ 31 → bit_or 128 n ≡ 128 + n
rr_first n h = bit_or-shifted 7 1 n (omega arith)

report_lem :
    (sender n : ℕ) (body : List ℕ) (sources : List (ℕ × ℕ))
    → sender < 2 ^ 32
    → n ≤ 31
    → length body ≡ 24 * n
    → read_blocks n body ≡ sources
    → read_rtcp (bit_or 128 n ∷ 201 ∷ be16 (1 + n * 6) ++ (be32 sender ++ body))
      ≡ some (receiver_report sender sources)
unfolding read_rtcp
report_lem sender n body sources h k size found =
    let version : (128 + n) / 32 ≡ 4 = omega arith in
    let low : (128 + n) % 32 ≡ n = omega arith in
    let words = from_be16-be16 (1 + n * 6) (omega arith) in
    let all : (length body == 24 * n) ≡ true = ground (arith, size) in
    rw (rr_first n k, version, low, words, from_be32-be32 sender h, found) (ground (arith, size))

read_rtcp-build_rr :
    (sender : ℕ) (sources : List (ℕ × ℕ))
    → sender < 2 ^ 32
    → All IsReport sources
    → read_rtcp (build_rr sender sources) ≡ some (receiver_report sender (take 31 sources))
unfolding build_rr
read_rtcp-build_rr sender sources h v =
    let n = min (length sources) 31 in
    let kept = take n sources in
    let size : length kept ≡ n = length-take n sources ∙ omega arith in
    report_lem sender n (blocks kept) (take 31 sources) h (omega arith)
      (length-blocks kept ∙ ap (λ k. 24 * k) size)
      (ap (λ k. read_blocks k (blocks kept)) (sym size)
        ∙ read_blocks-blocks kept (All-take n sources v)
        ∙ take-min 31 sources)

report_sent :
    (sender seconds fraction clock a b c : ℕ)
    → sender < 2 ^ 32
    → seconds < 2 ^ 32
    → fraction < 2 ^ 32
    → clock < 2 ^ 32
    → seconds ≡ a
    → fraction ≡ b
    → clock ≡ c
    → read_rtcp (
        0x80 ∷ 200 ∷ be16 6
        ++ (be32 sender ++ (be32 seconds ++ (be32 fraction ++ (be32 clock ++ replicate 8 0)))))
      ≡ some (sender_report sender a b c)
unfolding read_rtcp
report_sent sender seconds fraction clock a b c h i j k e f g =
    rw
      (
        from_be32-be32 sender h,
        from_be32-be32 seconds i,
        from_be32-be32 fraction j,
        from_be32-be32 clock k,
        e,
        f,
        g,
      )
      refl

-- Each packet that is built is read back by the reader of RTCP as what it is meant to be: the report on
-- the first 31 sources, with their highest sequence numbers; the sender report with the wall clock since
-- 1900 modulo 2^32 s, its fraction in 2^-32 s, and the clock in 1/90000 s modulo 2^32; and the three
-- requests for a picture, with the target and what they have of a sender and a sequence number. The
-- identifiers, and the sequence numbers of the reports, have 32 bits, and there are fewer than 10^9
-- nanoseconds.
pub read_rtcp_back :
    (sender target sequence secs nanos : ℕ) (sources : List (ℕ × ℕ))
    → sender < 2 ^ 32
    → target < 2 ^ 32
    → nanos < 1000000000
    → All IsReport sources
    → (read_rtcp (build_rr sender sources) ≡ some (receiver_report sender (take 31 sources)))
      × (read_rtcp (build_empty_sr sender secs nanos)
          ≡ some (
              sender_report sender
                ((secs + 2208988800) % 2 ^ 32)
                (nanos * 2 ^ 32 / 1000000000)
                ((secs * 90000 + nanos * 90000 / 1000000000) % 2 ^ 32)))
      × (read_rtcp (build_fir_legacy target) ≡ some (legacy_intra_request target))
      × (read_rtcp (build_fir sender target sequence)
          ≡ some (full_intra_request sender target sequence))
      × (read_rtcp (build_pli sender target) ≡ some (picture_loss sender target))
unfolding build_empty_sr build_fir_legacy build_fir build_pli read_rtcp
read_rtcp_back sender target sequence secs nanos sources h k small v =
    let from = from_be32-be32 sender h in
    let to = from_be32-be32 target k in
    let since_1900 = u32 (u32 secs + 2208988800) in
    let ticks = u32 (u32 (u32 secs * 90000) + u32 (nanos * 90000 / 1000000000)) in
    let part = nanos * 2 ^ 32 / 1000000000 in
    let seconds : since_1900 ≡ (secs + 2208988800) % 2 ^ 32 = omega arith in
    let fraction : u32 part ≡ part = omega arith in
    let clock : ticks ≡ (secs * 90000 + nanos * 90000 / 1000000000) % 2 ^ 32 = omega arith in
    (
      read_rtcp-build_rr sender sources h v,
      report_sent sender since_1900 (u32 part) ticks _ _ _ h (omega arith) (omega arith)
          (omega arith) seconds fraction clock,
      rw to refl,
      rw (from, to) refl,
      rw (from, to) refl,
    )
