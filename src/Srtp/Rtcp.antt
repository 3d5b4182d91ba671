-- ===== src/Srtp/Rtcp.antt =====
-- srtp.rs: the RTCP packets that the client sends. A buffer of zeros that is filled by slices is
-- written as the slices one after the other.
pub mod RoundTrip
use macvnc.Base.{
  ℕ, ◌+◌, ◌*◌, ◌/◌, ◌%◌, ◌^◌, List, [], ◌∷◌, ◌++◌, length, take, replicate, min, be16, be32, u16,
  u32,
}
use Prim.Native.Nat.{bit_or}

-- The blocks of `build_rr`, 24 bytes for each source.
pub blocks : List (ℕ × ℕ) → List ℕ
blocks [] = []
blocks ((ssrc, seq) ∷ sources) =
    (be32 ssrc ++ (replicate 4 0 ++ (be32 seq ++ replicate 12 0))) ++ blocks sources

pub build_rr : ℕ → List (ℕ × ℕ) → List ℕ
build_rr sender sources =
    let n = min (length sources) 31 in
    bit_or 128 n ∷ 201 ∷ be16 (1 + n * 6) ++ (be32 sender ++ blocks (take n sources))

-- The wall clock is given by its seconds and the nanoseconds of the last one.
pub build_empty_sr : ℕ → ℕ → ℕ → List ℕ
build_empty_sr sender secs nanos =
    let seconds = u32 (u32 secs + 2208988800) in
    let fraction = u32 (nanos * 2 ^ 32 / 1000000000) in
    let rtp = u32 (u32 (u32 secs * 90000) + u32 (nanos * 90000 / 1000000000)) in
    0x80 ∷ 200 ∷ be16 6
    ++ (be32 sender ++ (be32 seconds ++ (be32 fraction ++ (be32 rtp ++ replicate 8 0))))

pub build_fir_legacy : ℕ → List ℕ
build_fir_legacy target = 128 ∷ 192 ∷ 0 ∷ 1 ∷ be32 target

pub build_fir : ℕ → ℕ → ℕ → List ℕ
build_fir sender target sequence =
    0x84 ∷ 206 ∷ 0 ∷ 4 ∷ be32 sender
    ++ (replicate 4 0 ++ (be32 target ++ (sequence ∷ replicate 3 0)))

pub build_pli : ℕ → ℕ → List ℕ
build_pli sender target = 129 ∷ 206 ∷ 0 ∷ 2 ∷ be32 sender ++ be32 target
