-- ===== src/Metadata/Rects.antt =====
-- metadata.rs: the scan of framebuffer updates.
use macvnc.Base.{
  ℕ, zero, suc, ◌+◌, ◌-◌, ◌*◌, ◌^◌, Bool, true, false, not, ◌&&◌, ◌||◌, List, Option, none, some,
  ltb, leb, ◌==◌, if◌then◌else◌, length, take, drop, get_or, u16_at, u32_at,
}

-- The encodings of rectangles, as 32-bit patterns of the signed numbers.
abbrev pub last_rect : ℕ
last_rect = 2 ^ 32 - 224

abbrev pub resize_rect : ℕ
resize_rect = 2 ^ 32 - 223

abbrev pub layout_rect : ℕ
layout_rect = 0x451

abbrev pub is_sized : ℕ → Bool
is_sized enc =
    enc == 1002
    || enc == 1010
    || enc == 1011
    || enc == 0x451
    || enc == 0x453
    || enc == 0x455
    || enc == 0x456

-- The size of a rectangle's payload, by its encoding and the bytes behind its header.
unfoldable pub rect_size : ℕ → List ℕ → Option ℕ
rect_size enc rest =
    if enc == 1103
    then some 36
    else if enc == 0x450 && leb 8 (length rest)
    then some (8 + u32_at rest 4)
    else if is_sized enc && leb 2 (length rest)
    then some (2 + u16_at rest 0)
    else if enc == resize_rect
    then some 0
    else none

-- The layout in a payload: no result where the payload is too short, and the old layout where the
-- dimensions are out of range.
unfoldable pub layout_of : List ℕ → Option (ℕ × ℕ) → Option (Option (ℕ × ℕ))
layout_of payload old =
    let count = u16_at payload 18 in
    let w = u16_at payload 6 in
    let h = u16_at payload 8 in
    if ltb (length payload) 20
    then none
    else if ltb (length payload) (20 + count * 56)
    then none
    else if ltb 0 w && ltb 0 h && leb w 16384 && leb h 16384 && leb (w * h) 67108864
    then some (some (w, h))
    else some old

-- The loop of `scan_update`, by the rectangles that are left; `rest` is `body[p..]`.
unfoldable pub scan_rects : ℕ → List ℕ → Option (ℕ × ℕ) → Bool × Option (ℕ × ℕ)
scan_rects zero rest layout = (length rest == 0, layout)
scan_rects (suc n) rest layout = elim (ltb (length rest) 12) [
  | true ↦ (false, none)
  | false ↦
      let enc = u32_at rest 8 in
      let payload = drop 12 rest in
      elim (enc == last_rect) [
        | true ↦ (true, layout)
        | false ↦ elim (rect_size enc payload) [
          | none ↦ (false, none)
          | some size ↦ elim (ltb (length payload) size) [
            | true ↦ (false, none)
            | false ↦
                elim (if enc == layout_rect
                  then layout_of (drop 2 (take size payload)) layout
                  else some layout) [
                    | none ↦ (false, none)
                    | some layout' ↦ scan_rects n (drop size payload) layout'
                  ]
          ]
        ]
      ]
]

unfoldable pub scan_update : List ℕ → Bool × Option (ℕ × ℕ)
scan_update body =
    if ltb (length body) 4 || not (get_or body 0 0 == 0)
    then (false, none)
    else scan_rects (u16_at body 2) (drop 4 body) none

unfoldable pub complete_update : List ℕ → Bool
complete_update body = (scan_update body).0

unfoldable pub display_layout : List ℕ → Option (ℕ × ℕ)
display_layout body = let (complete, layout) = scan_update body in if complete then layout else none
