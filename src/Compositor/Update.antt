-- ===== src/Compositor/Update.antt =====
-- compositor.rs: what `update` makes of the frame, and which bands it has seen.
use macvnc.Base.{
  Result-cases, ℕ, ◌+◌, ◌-◌, ◌*◌, ◌<◌, ◌≡◌, refl, ◌∙◌, inl, inr, Bool, true, false, ◌&&◌, arith,
  ◌⊎◌, some, ok, err, Bool-cases, ltb, leb, ◌==◌, if◌then◌else◌, length, get_or, min,
}
use Prim.Native.String.{String}
use macvnc.Compositor.{
  RgbaFrame, DecodedTile, Compositor, rgba_len, set_true, all_true, composed, place, slot_of,
  update,
}
use macvnc.Compositor.Pixels.{place_of, copy_rows-get}

pub record IsFrame (f : RgbaFrame) : Type 0 where
  pub size : length f.pixels ≡ f.height * f.width * 4

-- Byte `b` of the pixel in column `x` of row `r`.
abbrev pub pixel : RgbaFrame → ℕ → ℕ → ℕ → ℕ
pixel f r x b = get_or f.pixels (place_of f.width r x b) 0

-- Whether a pixel lies in the band of the tile, which begins at row `tile * slot`: the band has
-- `slot` rows, and its width and the desktop's clip it.
abbrev pub in_band : Compositor → DecodedTile → ℕ → ℕ → Bool
in_band c t r x =
    leb (t.tile * t.frame.height) r
    && ltb r (t.tile * t.frame.height + t.frame.height)
    && ltb x t.frame.width

-- What a call of `update` that succeeds has found of the tile.
pub record IsTile (c : Compositor) (t : DecodedTile) : Type 0 where
  pub known : t.tile < c.tiles
  pub size : length t.frame.pixels ≡ t.frame.height * t.frame.width * 4
  pub height_ok : slot_of c.slot_height t.frame.height ≡ t.frame.height

-- The tiles that are placed: one of the bands, with dimensions within the limits, the length that
-- they ask for, and the height of the earlier bands.
abbrev pub is_size : ℕ → ℕ → Bool
is_size width height =
    leb 1 width
    && leb 1 height
    && leb width 16384
    && leb height 16384
    && leb (width * height) (32 * 1024 * 1024)

abbrev pub is_right : Compositor → DecodedTile → Bool
is_right c t =
    let f = t.frame in
    ltb t.tile c.tiles
    && is_size f.width f.height
    && length f.pixels == f.width * f.height * 4
    && f.height == slot_of c.slot_height f.height

rgba_len-err :
    (width height : ℕ) (e : String) → rgba_len width height ≡ err e → is_size width height ≡ false
unfolding rgba_len
rgba_len-err width height e q = ground (arith, q)

rgba_len-is_size :
    (width height size : ℕ)
    → rgba_len width height ≡ ok size
    → (is_size width height ≡ true) × (size ≡ width * height * 4)
unfolding rgba_len
rgba_len-is_size width height size e = (ground (arith, e), ground (arith, e))

rgba_len-ok : (width height size : ℕ) → rgba_len width height ≡ ok size → size ≡ height * width * 4
unfolding rgba_len
rgba_len-ok width height size e = ground (arith, e)

-- A call ends with an error and changes nothing, or the tile is right and is placed.
update-place :
    (c : Compositor) (t : DecodedTile)
    → ((e : String) × (update c t ≡ (err e, c)) × (is_right c t ≡ false))
      ⊎ (IsTile c t × (is_right c t ≡ true) × (update c t ≡ place c t t.frame.height))
unfolding update
update-place c t =
    let slot = slot_of c.slot_height t.frame.height in
    elim (Bool-cases (leb c.tiles t.tile)) [
      | inl k ↦ inl ("Invalid decoded tile", rw k refl, ground arith)
      | inr k ↦ elim (Result-cases (rgba_len t.frame.width t.frame.height)) [
        | inl (e, bad) ↦
            inl
              (e, rw (k, bad) refl, ground (arith, rgba_len-err t.frame.width t.frame.height e bad))
        | inr (size, good) ↦
            let within = rgba_len-is_size t.frame.width t.frame.height size good in
            elim (Bool-cases (length t.frame.pixels == size)) [
              | inr f ↦ inl ("Invalid decoded tile", rw (k, good, f) refl, ground (arith, within))
              | inl f ↦ elim (Bool-cases (t.frame.height == slot)) [
                | inr g ↦ inl (
                  "Tile geometry changed; renegotiate stream",
                  rw (k, good, f, g) refl,
                  ground arith,
                )
                | inl g ↦
                    let same : slot ≡ t.frame.height = ground arith in
                    let sizes = rgba_len-ok t.frame.width t.frame.height size good in
                    inr (
                      record {
                        known = ground arith;
                        size = ground (arith, sizes);
                        height_ok = same;
                      },
                      ground (arith, within),
                      rw (k, good, f, g, same) refl,
                    )
              ]
            ]
      ]
    ]

-- What a call leaves of the frame, and what it returns.
pub record Updated (c : Compositor) (t : DecodedTile) (c' : Compositor) (complete : Bool)
    (r x b : ℕ) : Type 0 where
  pub width_kept : c'.frame.width ≡ c.frame.width
  pub height_kept : c'.frame.height ≡ c.frame.height
  pub frame_ok : IsFrame c'.frame
  pub slot_ok : c'.slot_height ≡ some t.frame.height
  pub bytes : pixel c'.frame r x b ≡ (
      if in_band c t r x
      then pixel t.frame (r - t.tile * t.frame.height) x b
      else pixel c.frame r x b)
  pub seen_ok :
      (leb c.frame.height (t.tile * t.frame.height) ≡ true)
      ⊎ ((c'.seen ≡ set_true t.tile c.seen) × (complete ≡ all_true c'.seen))

place-Updated :
    (c : Compositor) (t : DecodedTile) (r x b : ℕ)
    → IsFrame c.frame
    → IsTile c t
    → r < c.frame.height
    → x < c.frame.width
    → b < 4
    → (complete : Bool) × (c' : Compositor) × (place c t t.frame.height ≡ (ok complete, c'))
      × Updated c t c' complete r x b
unfolding place composed
place-Updated c t r x b f v hr hx hb =
    let slot = t.frame.height in
    let y = t.tile * slot in
    elim (Bool-cases (leb c.frame.height y)) [
      | inl below ↦
          let outside : in_band c t r x ≡ false = ground arith in
          (
            false,
            record c { slot_height = some slot },
            rw below refl,
            record {
              width_kept = refl;
              height_kept = refl;
              frame_ok = f;
              slot_ok = refl;
              bytes = rw outside refl;
              seen_ok = inl below;
            },
          )
      | inr visible ↦
          let cols = min t.frame.width c.frame.width in
          let n = min slot (c.frame.height - y) in
          let (kept, byte) =
            copy_rows-get y cols t.frame.width c.frame.width t.frame.pixels n 0 r x b c.frame.height
              slot c.frame.pixels (omega arith) (omega arith) hx hb (ground arith) (omega arith)
              f.size v.size in
          let band : (leb (y + 0) r && ltb r (y + 0 + n) && ltb x cols) ≡ in_band c t r x =
            ground arith in
          let seen = set_true t.tile c.seen in
          let frame : RgbaFrame = record {
            width = c.frame.width;
            height = c.frame.height;
            pixels = composed c.frame t.frame y slot;
          } in
          (
            all_true seen,
            record c { frame = frame; slot_height = some slot; seen = seen },
            rw visible refl,
            record {
              width_kept = refl;
              height_kept = refl;
              frame_ok = record { size = kept ∙ f.size };
              slot_ok = refl;
              bytes = byte ∙ rw band refl;
              seen_ok = inr (refl, refl);
            },
          )
    ]

-- Where the frame has the length of its dimensions, a call of `update` ends with an error and changes
-- nothing where the tile is not right, and succeeds where it is, and then: the dimensions and the length are kept, every byte of the
-- desktop is the tile's inside its band, as far as the tile and the desktop reach, and what it was
-- outside, the height of the bands is that of the tile, and where the band is on the desktop, it is
-- marked as seen and the result says whether all are.
pub update-Updated :
    (c : Compositor) (t : DecodedTile) (r x b : ℕ)
    → IsFrame c.frame
    → r < c.frame.height
    → x < c.frame.width
    → b < 4
    → ((e : String) × (update c t ≡ (err e, c)) × (is_right c t ≡ false))
      ⊎ ((is_right c t ≡ true)
          × (complete : Bool) × (c' : Compositor) × (update c t ≡ (ok complete, c'))
          × Updated c t c' complete r x b)
update-Updated c t r x b f hr hx hb = elim (update-place c t) [
  | inl failed ↦ inl failed
  | inr (v, right, e) ↦
      let (complete, c', placed, u) = place-Updated c t r x b f v hr hx hb in
      inr (right, complete, c', e ∙ placed, u)
]
