-- ===== src/Metadata/Update.antt =====
-- metadata.rs: `scan_update` on updates as the Mac sends them.
pub mod Cut
use macvnc.Base.{
  ℕ, zero, suc, ◌+◌, ◌-◌, ◌*◌, ◌/◌, ◌%◌, ◌^◌, ◌<◌, ◌≤◌, ◌≡◌, refl, sym, ap, subst, ◌∙◌, inl, inr,
  ◌⊎◌, List, [], ◌∷◌, ◌++◌, append_assoc, append-nil, Bool, true, false, not, ◌||◌, ◌&&◌, arith,
  Option, none, some, Bool-cases, ltb, leb, ◌==◌, if◌then◌else◌, length, take, drop, get_or, All,
  length-append, length-take, length-drop, take_left, drop_left, take-append_le, take-append_ge,
  be16, be32, u16_at, u32_at, from_be16-be16, from_be32-be32,
}
use macvnc.Metadata.{
  last_rect, resize_rect, layout_rect, is_sized, rect_size, layout_of, scan_rects, scan_update,
  complete_update, display_layout,
}

-- What stands behind the header of a rectangle: a payload with its 16-bit length, under an encoding
-- that has one; four bytes and a payload with its 32-bit length, under the encoding 0x450; 36 bytes; or
-- nothing.
pub data Content : Type 0 where
  sized : ℕ → List ℕ → Content
  tall : ℕ → List ℕ → Content
  cursor : List ℕ → Content
  resize : Content

pub record Rect : Type 0 where
  pub x : ℕ
  pub y : ℕ
  pub w : ℕ
  pub h : ℕ
  pub content : Content

abbrev pub encoding : Content → ℕ
encoding (sized enc payload) = enc
encoding (tall front payload) = 0x450
encoding (cursor bytes) = 1103
encoding resize = 2 ^ 32 - 223

abbrev pub body_of : Content → List ℕ
body_of (sized enc payload) = be16 (length payload) ++ payload
body_of (tall front payload) = be32 front ++ (be32 (length payload) ++ payload)
body_of (cursor bytes) = bytes
body_of resize = []

unfoldable pub put_rect : Rect → List ℕ
put_rect r =
    be16 r.x
    ++ (be16 r.y ++ (be16 r.w ++ (be16 r.h ++ (be32 (encoding r.content) ++ body_of r.content))))

-- The encodings whose payload has a 16-bit length.
abbrev pub IsSized : ℕ → Type 0
IsSized enc =
    (enc ≡ 1002)
    ⊎ (enc ≡ 1010)
    ⊎ (enc ≡ 1011)
    ⊎ (enc ≡ 0x451)
    ⊎ (enc ≡ 0x453)
    ⊎ (enc ≡ 0x455)
    ⊎ (enc ≡ 0x456)

pub sized_lem : (enc : ℕ) → IsSized enc → is_sized enc ≡ true
sized_lem enc h = ground (arith, h)

-- A layout payload is as long as its count of displays asks for.
abbrev pub IsContent : Content → Type 0
IsContent (sized enc payload) =
    IsSized enc
    × (length payload < 2 ^ 16)
    × ((enc == 0x451) ≡ true → 20 + u16_at payload 18 * 56 ≤ length payload)
IsContent (tall front payload) = length payload < 2 ^ 32
IsContent (cursor bytes) = length bytes ≡ 36
IsContent resize = Unit

abbrev is_canvas : ℕ → ℕ → Bool
is_canvas w h = ltb 0 w && ltb 0 h && leb w 16384 && leb h 16384 && leb (w * h) 67108864

-- The layout after a rectangle: that of a layout payload with dimensions in range, else the old one.
pub layout_after : Content → Option (ℕ × ℕ) → Option (ℕ × ℕ)
layout_after (sized enc payload) old =
    let w = u16_at payload 6 in
    let h = u16_at payload 8 in if enc == 0x451 && is_canvas w h then some (w, h) else old
layout_after (tall front payload) old = old
layout_after (cursor bytes) old = old
layout_after resize old = old

sized-lt : (enc : ℕ) → is_sized enc ≡ true → (enc < 2 ^ 32) × ((enc == last_rect) ≡ false)
sized-lt enc h = ground arith

content-header :
    (content : Content)
    → IsContent content
    → (encoding content < 2 ^ 32) × ((encoding content == last_rect) ≡ false)
content-header (sized enc payload) v = sized-lt enc (sized_lem enc v.0)
content-header (tall front payload) v = (omega arith, refl)
content-header (cursor bytes) v = (omega arith, refl)
content-header resize v = (omega arith, refl)

-- The size of a rectangle of encoding 0x450 stands in its second four bytes.
pub tall_size :
    (rest : List ℕ) (n : ℕ)
    → 8 ≤ length rest
    → u32_at rest 4 ≡ n
    → rect_size 0x450 rest ≡ some (8 + n)
unfolding rect_size
tall_size rest n h e = ground (arith, h, e)

-- The size that the scan finds in front of `rest`.
content-size :
    (content : Content) (rest : List ℕ)
    → IsContent content
    → rect_size (encoding content) (body_of content ++ rest) ≡ some (length (body_of content))
unfolding rect_size
content-size (sized enc payload) rest (known, l, k) =
    let s = sized_lem enc known in
    let size = from_be16-be16 (length payload) l in
    let not_cursor : (enc == 1103) ≡ false = ground (arith, s) in
    let not_tall : (enc == 0x450) ≡ false = ground (arith, s) in
    let room : leb 2 (suc (suc (length (payload ++ rest)))) ≡ true = ground arith in
    let sum : 2 + length payload ≡ suc (suc (length payload)) = omega arith in
    rw (not_cursor, not_tall, s, room, size, sum) refl
content-size (tall front payload) rest v =
    tall_size (body_of (tall front payload) ++ rest) (length payload) (omega arith)
      (from_be32-be32 (length payload) v)
    ∙ ap some (omega arith)
content-size (cursor bytes) rest v = ap some (omega (arith, v))
content-size resize rest v = refl

layout_lem :
    (payload : List ℕ) (old : Option (ℕ × ℕ))
    → 20 + u16_at payload 18 * 56 ≤ length payload
    → layout_of payload old
      ≡ some (
          if is_canvas (u16_at payload 6) (u16_at payload 8)
          then some (u16_at payload 6, u16_at payload 8)
          else old)
unfolding layout_of
layout_lem payload old h =
    let long : ltb (length payload) 20 ≡ false = ground (arith, h) in
    let whole : ltb (length payload) (20 + u16_at payload 18 * 56) ≡ false = ground (arith, h) in
    elim (Bool-cases (is_canvas (u16_at payload 6) (u16_at payload 8))) [
      | inl e ↦ rw (long, whole, e) refl
      | inr e ↦ rw (long, whole, e) refl
    ]

content-layout :
    (content : Content) (old : Option (ℕ × ℕ))
    → IsContent content
    → (if encoding content == layout_rect
        then layout_of (drop 2 (body_of content)) old
        else some old)
      ≡ some (layout_after content old)
unfolding layout_after
content-layout (sized enc payload) old (s, l, k) = elim (Bool-cases (enc == 0x451)) [
  | inl e ↦ rw e (layout_lem payload old (k e))
  | inr e ↦ rw e refl
]
content-layout (tall front payload) old v = refl
content-layout (cursor bytes) old v = refl
content-layout resize old v = refl

header-length : (r : Rect) (rest : List ℕ) → ltb (length (put_rect r ++ rest)) 12 ≡ false
unfolding put_rect
header-length r rest = ground arith

header-encoding :
    (r : Rect) (rest : List ℕ)
    → IsContent r.content
    → u32_at (put_rect r ++ rest) 8 ≡ encoding r.content
unfolding put_rect
header-encoding r rest v = from_be32-be32 (encoding r.content) (content-header r.content v).0

header-body : (r : Rect) (rest : List ℕ) → drop 12 (put_rect r ++ rest) ≡ body_of r.content ++ rest
unfolding put_rect
header-body r rest = refl

-- A round on a rectangle that is there.
scan-next :
    (n enc size : ℕ) (rest : List ℕ) (layout layout' : Option (ℕ × ℕ))
    → ltb (length rest) 12 ≡ false
    → u32_at rest 8 ≡ enc
    → (enc == last_rect) ≡ false
    → rect_size enc (drop 12 rest) ≡ some size
    → ltb (length (drop 12 rest)) size ≡ false
    → (if enc == layout_rect
        then layout_of (drop 2 (take size (drop 12 rest))) layout
        else some layout)
      ≡ some layout'
    → scan_rects (suc n) rest layout ≡ scan_rects n (drop size (drop 12 rest)) layout'
unfolding scan_rects
scan-next n enc size rest layout layout' a b c d e f = ground (arith, a, b, c, d, e, f)

scan-put_rect :
    (n : ℕ) (r : Rect) (rest : List ℕ) (layout : Option (ℕ × ℕ))
    → IsContent r.content
    → scan_rects (suc n) (put_rect r ++ rest) layout
      ≡ scan_rects n rest (layout_after r.content layout)
scan-put_rect n r rest layout v =
    let body = body_of r.content in
    let enc = encoding r.content in
    let whole = put_rect r ++ rest in
    let room : ltb (length (body ++ rest)) (length body) ≡ false =
      ground (arith, length-append body rest) in
    let at = header-body r rest in
    scan-next n enc (length body) whole layout (layout_after r.content layout)
      (header-length r rest) (header-encoding r rest v) (content-header r.content v).1
      (rw at (content-size r.content rest v)) (rw at room)
      (rw (at, take_left _ body rest refl) (content-layout r.content layout v))
    ∙ ap (λ x. scan_rects n x (layout_after r.content layout))
        (ap (drop (length body)) at ∙ drop_left _ body rest refl)

-- The bytes of an update, and the layout after it.
unfoldable pub put_rects : List Rect → List ℕ
put_rects [] = []
put_rects (r ∷ rs) = put_rect r ++ put_rects rs

-- The end of an update: with the last of the rectangles that the count announces, or by a LastRect
-- before them, where more are announced and any bytes may follow.
pub data End : Type 0 where
  by_count : End
  by_last : ℕ → ℕ → ℕ → ℕ → ℕ → List ℕ → End

abbrev pub more : End → ℕ
more by_count = 0
more (by_last skipped x y w h behind) = suc skipped

unfoldable pub put_end : End → List ℕ
put_end by_count = []
put_end (by_last skipped x y w h behind) =
    be16 x ++ (be16 y ++ (be16 w ++ (be16 h ++ (be32 (2 ^ 32 - 224) ++ behind))))

abbrev pub put_update : List Rect → End → List ℕ
put_update rs ending = 0 ∷ 0 ∷ be16 (length rs + more ending) ++ (put_rects rs ++ put_end ending)

abbrev pub IsRect : Rect → Type 0
IsRect r = IsContent r.content

pub final_layout : List Rect → Option (ℕ × ℕ) → Option (ℕ × ℕ)
final_layout [] layout = layout
final_layout (r ∷ rs) layout = final_layout rs (layout_after r.content layout)

pub scan-put_rects :
    (rs : List Rect) (n : ℕ) (rest : List ℕ) (layout : Option (ℕ × ℕ))
    → All IsRect rs
    → scan_rects (length rs + n) (put_rects rs ++ rest) layout
      ≡ scan_rects n rest (final_layout rs layout)
unfolding put_rects final_layout
scan-put_rects [] n rest layout v = ap (λ m. scan_rects m rest layout) (omega arith)
scan-put_rects (r ∷ rs) n rest layout (v, vs) =
    let at : suc (length rs) + n ≡ suc (length rs + n) = omega arith in
    rw (at, append_assoc (put_rect r) (put_rects rs) rest)
      (scan-put_rect (length rs + n) r (put_rects rs ++ rest) layout v
        ∙ scan-put_rects rs n rest (layout_after r.content layout) vs)

-- A round on LastRect.
scan-last :
    (n : ℕ) (rest : List ℕ) (layout : Option (ℕ × ℕ))
    → ltb (length rest) 12 ≡ false
    → u32_at rest 8 ≡ last_rect
    → scan_rects (suc n) rest layout ≡ (true, layout)
unfolding scan_rects
scan-last n rest layout a b = ground (arith, a, b)

scan-put_end :
    (ending : End) (layout : Option (ℕ × ℕ))
    → scan_rects (more ending) (put_end ending) layout ≡ (true, layout)
unfolding put_end
scan-put_end by_count layout = unfold scan_rects in refl
scan-put_end (by_last skipped x y w h behind) layout =
    scan-last skipped _ layout (ground arith) refl

-- A whole update that announces fewer than 2^16 rectangles is complete, and its layout is that of the
-- last layout rectangle with dimensions in range. Its rectangles have any of the encodings that
-- `scan_update` knows, and it ends by its count, or by a LastRect with anything behind it.
pub scan_update-put_update :
    (rs : List Rect) (ending : End)
    → All IsRect rs
    → length rs + more ending < 2 ^ 16
    → scan_update (put_update rs ending) ≡ (true, final_layout rs none)
unfolding scan_update
scan_update-put_update rs ending v h =
    let room : ltb (suc (suc (suc (suc (length (put_rects rs ++ put_end ending)))))) 4 ≡ false =
      ground arith in
    let count = from_be16-be16 (length rs + more ending) h in
    rw (room, count)
      (scan-put_rects rs (more ending) (put_end ending) none v
        ∙ scan-put_end ending (final_layout rs none))
