-- ===== src/Layout.antt =====
-- rust/crates/hp-protocol/src/lib.rs: the recovery of the media stream after the desktop's layout has
-- changed, and the limits on the desktop's dimensions. Times are in milliseconds.
pub mod Requests
mod Tests
use macvnc.Base.{
  ℕ, ◌+◌, ◌-◌, ◌*◌, Bool, true, false, not, ◌&&◌, ◌||◌, List, [], ◌∷◌, ◌++◌, Option, none, some,
  Result, ok, err, ltb, leb, ◌==◌, if◌then◌else◌, be16, ensure, ◌>>◌,
}

abbrev pub Dimensions : Type 0
Dimensions = ℕ × ℕ

pub record LayoutRecovery : Type 0 where
  pub current : Option Dimensions
  pub pending : Option Dimensions
  pub last_sent : Option ℕ

pub same_dimensions : Dimensions → Dimensions → Bool
same_dimensions (w, h) (w', h') = w == w' && h == h'

pub observe : LayoutRecovery → Dimensions → LayoutRecovery
observe l dimensions = elim l.current [
  | none ↦ l
  | some current ↦ record l {
    pending = if not (same_dimensions current dimensions) then some dimensions else none;
  }
]

-- `self.last_sent.is_some_and(|last| now.duration_since(last) < Duration::from_secs(2))`; a
-- difference of times stops at zero.
unfoldable pub too_soon : Option ℕ → ℕ → Bool
too_soon none now = false
too_soon (some last) now = ltb (now - last) 2000

pub take_due : LayoutRecovery → ℕ → Bool × LayoutRecovery
take_due l now = elim l.pending [
  | none ↦ (false, l)
  | some dimensions ↦
      if too_soon l.last_sent now
      then (false, l)
      else (true, record { current = some dimensions; pending = none; last_sent = some now })
]

pub framebuffer_request : Bool → List ℕ
framebuffer_request incremental =
    3 ∷ (if incremental then 1 else 0) ∷ 0 ∷ 0 ∷ 0 ∷ 0 ∷ be16 65535 ++ be16 65535

pub validate_dimensions : ℕ → ℕ → Result (Unit {0})
validate_dimensions width height =
    ensure
      (ltb 0 width
        && ltb 0 height
        && leb width 16384
        && leb height 16384
        && leb (width * height) 67108864)
      "desktop dimensions exceed supported limits"
