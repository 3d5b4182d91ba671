-- ===== src/Compositor.antt =====
-- rust/crates/hp-media/src/compositor.rs, and the frames of rust/crates/hp-media/src/lib.rs: the
-- composition of decoded bands into the frame of the desktop.
pub mod Pixels
pub mod Update
mod Tests
use macvnc.Base.{
  ℕ, zero, suc, ◌+◌, ◌-◌, ◌*◌, Bool, true, false, not, ◌&&◌, ◌||◌, List, [], ◌∷◌, ◌++◌, Option,
  none, some, Result, ok, err, ltb, leb, ◌==◌, if◌then◌else◌, length, take, drop, replicate, min,
}

pub record RgbaFrame : Type 0 where
  pub width : ℕ
  pub height : ℕ
  pub pixels : List ℕ

-- What `update` reads of a `DecodedTile`.
pub record DecodedTile : Type 0 where
  pub tile : ℕ
  pub frame : RgbaFrame

pub record Compositor : Type 0 where
  pub frame : RgbaFrame
  pub tiles : ℕ
  pub slot_height : Option ℕ
  pub seen : List Bool

-- The conversion to `usize` at the end cannot fail: the length is at most 2^27.
pub rgba_len : ℕ → ℕ → Result ℕ
rgba_len width height =
    if width == 0 || height == 0 || ltb 16384 width || ltb 16384 height
    then err "Invalid framebuffer dimensions"
    else if ltb (32 * 1024 * 1024) (width * height)
    then err "Framebuffer exceeds pixel limit"
    else ok (width * height * 4)

-- `reserve` says whether the memory is there.
pub allocate_rgba : (ℕ → Bool) → ℕ → ℕ → Result (List ℕ)
allocate_rgba reserve width height = elim (rgba_len width height) [
  | err e ↦ err e
  | ok size ↦ if reserve size then ok (replicate size 0) else err "Framebuffer allocation failed"
]

pub new : (ℕ → Bool) → ℕ → ℕ → ℕ → Result Compositor
new reserve width height tiles =
    if tiles == 0 || ltb 16 tiles
    then err "Invalid framebuffer dimensions"
    else elim (allocate_rgba reserve width height) [
      | err e ↦ err e
      | ok pixels ↦ ok (record {
        frame = record { width = width; height = height; pixels = pixels };
        tiles = tiles;
        slot_height = none;
        seen = replicate tiles false;
      })
    ]

-- `pixels[dst..dst + n].copy_from_slice(&source[src..src + n])`
pub copy_row : ℕ → ℕ → ℕ → List ℕ → List ℕ → List ℕ
copy_row dst src n source pixels =
    take dst pixels ++ (take n (drop src source) ++ drop (dst + n) pixels)

-- The loop over the rows, from `row` on, with the number of rows that are left.
pub copy_rows : ℕ → ℕ → ℕ → ℕ → ℕ → ℕ → List ℕ → List ℕ → List ℕ
copy_rows zero row y cols from_width to_width source pixels = pixels
copy_rows (suc n) row y cols from_width to_width source pixels =
    let copied =
      copy_row ((y + row) * to_width * 4) (row * from_width * 4) (cols * 4) source pixels in
    copy_rows n (suc row) y cols from_width to_width source copied

-- `seen[i] = true`
pub set_true : ℕ → List Bool → List Bool
set_true i [] = []
set_true zero (b ∷ bs) = true ∷ bs
set_true (suc i) (b ∷ bs) = b ∷ set_true i bs

pub all_true : List Bool → Bool
all_true [] = true
all_true (b ∷ bs) = b && all_true bs

-- The frame after the rows of a band that begins at row `y` are copied.
pub composed : RgbaFrame → RgbaFrame → ℕ → ℕ → List ℕ
composed to from y slot =
    copy_rows (min slot (to.height - y)) 0 y (min from.width to.width) from.width to.width
      from.pixels to.pixels

-- `update` behind the tests, with the height of a band.
pub place : Compositor → DecodedTile → ℕ → Result Bool × Compositor
place c t slot =
    let y = t.tile * slot in
    let c' = record c { slot_height = some slot } in
    if leb c.frame.height y
    then (ok false, c')
    else let seen = set_true t.tile c.seen in
      let frame : RgbaFrame = record {
        width = c.frame.width;
        height = c.frame.height;
        pixels = composed c.frame t.frame y slot;
      } in
      (ok (all_true seen), record c' { frame = frame; seen = seen })

pub slot_of : Option ℕ → ℕ → ℕ
slot_of none height = height
slot_of (some slot) height = slot

pub update : Compositor → DecodedTile → Result Bool × Compositor
update c t =
    let slot = slot_of c.slot_height t.frame.height in
    if leb c.tiles t.tile
    then (err "Invalid decoded tile", c)
    else elim (rgba_len t.frame.width t.frame.height) [
      | err e ↦ (err e, c)
      | ok size ↦
          if not (length t.frame.pixels == size)
          then (err "Invalid decoded tile", c)
          else if not (t.frame.height == slot)
          then (err "Tile geometry changed; renegotiate stream", c)
          else place c t slot
    ]

-- `push`: the snapshot, where `update` returns true.
pub push : Compositor → DecodedTile → Result (Option RgbaFrame) × Compositor
push c t =
    let (result, c') = update c t in
    elim result [
      | err e ↦ (err e, c')
      | ok complete ↦ (ok (if complete then some c'.frame else none), c')
    ]
