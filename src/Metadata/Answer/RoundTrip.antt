-- ===== src/Metadata/Answer/RoundTrip.antt =====
-- metadata.rs: `parse_answer` on an answer with an encoded configuration.
use macvnc.Base.{
  ℕ, suc, ◌+◌, ◌*◌, ◌^◌, ◌<◌, ◌≤◌, ◌≡◌, refl, ◌∙◌, List, [], ◌∷◌, ◌++◌, true, false, arith, some,
  ok, ltb, leb, length, length-append, Option, none, Bool, not, ◌==◌, sym, ap, append_assoc, All,
}
use macvnc.Metadata.{
  StreamConfig, set_field, geometry, config_of, first_config, video_config, Inflate, is_zlib,
  from_anchor, scan_answer, parse_answer,
}
use macvnc.Metadata.Varint.{put_varint, length-put_varint}
use macvnc.Metadata.Fields.{
  WireField, number, delimited, put_field, field_of, put_fields, fields-put_fields, IsWireField,
}
use mathlib.Core.List.{map}
use macvnc.Metadata.Answer.{IsConfig}

-- A field that may be left out, and its value with the default.
abbrev optional : ℕ → Option ℕ → List WireField
optional n none = []
optional n (some v) = number n v ∷ []

abbrev pub value_or : ℕ → Option ℕ → ℕ
value_or default none = default
value_or default (some v) = v

-- The video configuration as the Mac encodes it: the width and the height, the count of tiles and the
-- switch of long-term references where they are sent.
abbrev pub config_fields : ℕ → ℕ → Option ℕ → Option ℕ → List WireField
config_fields w h tiles ltr = number 4 w ∷ number 5 h ∷ optional 6 tiles ++ optional 7 ltr

abbrev pub put_config : ℕ → ℕ → Option ℕ → Option ℕ → List ℕ
put_config w h tiles ltr = put_fields (delimited 5 (put_fields (config_fields w h tiles ltr)) ∷ [])

length-number : (n v : ℕ) → length (put_field (number n v)) ≤ 20
unfolding put_field
length-number n v = omega (
  arith,
  length-put_varint (n * 8),
  length-put_varint v,
  length-append (put_varint (n * 8)) (put_varint v),
)

length-optional : (n : ℕ) (o : Option ℕ) → length (put_fields (optional n o)) ≤ 20
unfolding put_fields
length-optional n none = omega arith
length-optional n (some v) =
    omega (arith, length-number n v, length-append (put_field (number n v)) [])

put_fields-append :
    (ws vs : List WireField) → put_fields (ws ++ vs) ≡ put_fields ws ++ put_fields vs
unfolding put_fields
put_fields-append [] vs = refl
put_fields-append (w ∷ ws) vs =
    ap (λ l. put_field w ++ l) (put_fields-append ws vs)
    ∙ sym (append_assoc (put_field w) (put_fields ws) (put_fields vs))

length-config :
    (w h : ℕ) (tiles ltr : Option ℕ) → length (put_fields (config_fields w h tiles ltr)) ≤ 80
unfolding put_fields
length-config w h tiles ltr =
    let behind = put_fields (optional 6 tiles ++ optional 7 ltr) in
    let split : length behind ≤ 40 = rw (put_fields-append (optional 6 tiles) (optional 7 ltr)) (
      omega (
        arith,
        length-optional 6 tiles,
        length-optional 7 ltr,
        length-append (put_fields (optional 6 tiles)) (put_fields (optional 7 ltr)),
      )) in
    omega (
      arith,
      split,
      length-number 4 w,
      length-number 5 h,
      length-append (put_field (number 4 w)) (put_field (number 5 h) ++ behind),
      length-append (put_field (number 5 h)) behind,
    )

length-put_config : (w h : ℕ) (tiles ltr : Option ℕ) → length (put_config w h tiles ltr) ≤ 100
unfolding put_fields put_field
length-put_config w h tiles ltr =
    let inner = put_fields (config_fields w h tiles ltr) in
    omega (
      arith,
      length-config w h tiles ltr,
      length-put_varint (5 * 8 + 2),
      length-put_varint (length inner),
      length-append (put_varint (5 * 8 + 2) ++ (put_varint (length inner) ++ inner))
          (put_fields []),
      length-append (put_varint (5 * 8 + 2)) (put_varint (length inner) ++ inner),
      length-append (put_varint (length inner)) inner,
    )

-- The configuration that is meant: one tile where no count is sent, and long-term references only where
-- their switch is sent and not zero.
abbrev pub config : ℕ → ℕ → Option ℕ → Option ℕ → StreamConfig
config w h tiles ltr = record {
  width = w;
  height = h;
  tile_count = value_or 1 tiles;
  ltr_enabled = ltb 0 (value_or 0 ltr);
}

config_lem :
    (w h n : ℕ) (ltr : Bool)
    → IsConfig (record { width = w; height = h; tile_count = n; ltr_enabled = ltr })
    → config_of (record { w = w; h = h; tiles = n; ltr = ltr })
      ≡ ok (some (record { width = w; height = h; tile_count = n; ltr_enabled = ltr }))
unfolding config_of
config_lem w h n ltr v = ground arith

switch : (v : ℕ) → not (v == 0) ≡ ltb 0 v
switch v = ground arith

geometry-config :
    (w h : ℕ) (tiles ltr : Option ℕ)
    → geometry
        (record { w = 0; h = 0; tiles = 1; ltr = false })
        (map field_of (config_fields w h tiles ltr))
      ≡ record { w = w; h = h; tiles = value_or 1 tiles; ltr = ltb 0 (value_or 0 ltr) }
unfolding geometry set_field field_of
geometry-config w h none none = refl
geometry-config w h (some n) none = refl
geometry-config w h none (some v) = rw (switch v) refl
geometry-config w h (some n) (some v) = rw (switch v) refl

config_fields-IsWireField :
    (w h : ℕ) (tiles ltr : Option ℕ)
    → IsConfig (config w h tiles ltr)
    → value_or 0 ltr < 2 ^ 64
    → All IsWireField (config_fields w h tiles ltr)
config_fields-IsWireField w h tiles ltr v small = (
  ((omega arith, omega arith), omega (arith, v.width_ok)),
  (((omega arith, omega arith), omega (arith, v.height_ok)), behind tiles ltr v.tiles_ok small),
)
  where
    last : (ltr : Option ℕ) → value_or 0 ltr < 2 ^ 64 → All IsWireField (optional 7 ltr)
    last none k = tt
    last (some v) k = (((omega arith, omega arith), k), tt)

    behind :
        (tiles ltr : Option ℕ)
        → (1 ≤ value_or 1 tiles) × (value_or 1 tiles ≤ 64)
        → value_or 0 ltr < 2 ^ 64
        → All IsWireField (optional 6 tiles ++ optional 7 ltr)
    behind none ltr h k = last ltr k
    behind (some n) ltr h k = (((omega arith, omega arith), omega (arith, h)), last ltr k)

-- An encoded configuration that is in range is read back.
pub video_config-put_config :
    (w h : ℕ) (tiles ltr : Option ℕ)
    → IsConfig (config w h tiles ltr)
    → value_or 0 ltr < 2 ^ 64
    → video_config (put_config w h tiles ltr) ≡ ok (some (config w h tiles ltr))
unfolding video_config first_config field_of
video_config-put_config w h tiles ltr v k =
    let small = length-config w h tiles ltr in
    let inner =
      fields-put_fields (config_fields w h tiles ltr) (config_fields-IsWireField w h tiles ltr v k)
        (few tiles ltr) (omega (arith, small)) in
    let outer =
      fields-put_fields (delimited 5 (put_fields (config_fields w h tiles ltr)) ∷ [])
        (((omega arith, omega arith), omega (arith, small)), tt) (omega arith)
        (omega (arith, length-put_config w h tiles ltr)) in
    rw
      (
        outer,
        inner,
        geometry-config w h tiles ltr,
        config_lem w h (value_or 1 tiles) (ltb 0 (value_or 0 ltr)) v,
      )
      refl
  where
    few : (tiles ltr : Option ℕ) → length (config_fields w h tiles ltr) ≤ 4096
    few none none = omega arith
    few none (some v) = omega arith
    few (some n) none = omega arith
    few (some n) (some v) = omega arith

-- Bytes in which, with the byte `next` behind them, no zlib header begins.
unfoldable pub IsQuiet : List ℕ → ℕ → Type 0
IsQuiet [] next = Unit
IsQuiet (a ∷ []) next = is_zlib a next ≡ false
IsQuiet (a ∷ b ∷ skip) next = (is_zlib a b ≡ false) × IsQuiet (b ∷ skip) next

module _ (inflate : Inflate) where
  scan-quiet_pair :
      (a b : ℕ) (rest : List ℕ)
      → is_zlib a b ≡ false
      → scan_answer inflate 0 0 (a ∷ b ∷ rest) ≡ scan_answer inflate 0 0 (b ∷ rest)
  unfolding scan_answer
  scan-quiet_pair a b rest e = ground (arith, e)

  scan-found :
      (a b : ℕ) (rest out : List ℕ) (c : StreamConfig)
      → is_zlib a b ≡ true
      → inflate (a ∷ b ∷ rest) (1024 * 1024 + 1) ≡ (true, out)
      → length out ≤ 1024 * 1024
      → video_config out ≡ ok (some c)
      → scan_answer inflate 0 0 (a ∷ b ∷ rest) ≡ ok (some c)
  unfolding scan_answer
  scan-found a b rest out c zlib e h v = ground (arith, zlib, e, v)

  scan_quiet :
      (skip : List ℕ) (a b : ℕ) (z : List ℕ)
      → IsQuiet skip a
      → scan_answer inflate 0 0 (skip ++ (a ∷ b ∷ z)) ≡ scan_answer inflate 0 0 (a ∷ b ∷ z)
  unfolding IsQuiet
  scan_quiet [] a b z q = refl
  scan_quiet (x ∷ []) a b z q = scan-quiet_pair x a (b ∷ z) q
  scan_quiet (x ∷ y ∷ skip) a b z q =
      scan-quiet_pair x y (skip ++ (a ∷ b ∷ z)) q.0 ∙ scan_quiet (y ∷ skip) a b z q.1

  -- An answer of a control record's size, whose first byte is zero, in which only bytes without a zlib
  -- header stand between the property list's mark and the compressed configuration, gives that
  -- configuration, where it is in range and is what the decompression delivers. The configuration has
  -- its width and its height, with or without the count of tiles, and with or without the switch of
  -- long-term references: one tile without the count, and no references without the switch or where
  -- it is zero.
  pub parse_answer-put_config :
      (w h : ℕ) (tiles ltr : Option ℕ) (body skip : List ℕ) (a b : ℕ) (z : List ℕ)
      → IsConfig (config w h tiles ltr)
      → value_or 0 ltr < 2 ^ 64
      → length (0 ∷ body) ≤ 65498
      → from_anchor (0 ∷ body) ≡ some (skip ++ (a ∷ b ∷ z))
      → IsQuiet skip a
      → is_zlib a b ≡ true
      → inflate (a ∷ b ∷ z) (1024 * 1024 + 1) ≡ (true, put_config w h tiles ltr)
      → parse_answer inflate (0 ∷ body) ≡ ok (some (config w h tiles ltr))
  unfolding parse_answer
  parse_answer-put_config w h tiles ltr body skip a b z v k size start q zlib out =
      let fits : leb (suc (length body)) 65498 ≡ true = ground arith in
      let some_byte : ltb (suc (length body)) 1 ≡ false = ground arith in
      let small : length (put_config w h tiles ltr) ≤ 1024 * 1024 =
        omega (arith, length-put_config w h tiles ltr) in
      rw (fits, some_byte, start, scan_quiet skip a b z q)
        (scan-found a b z (put_config w h tiles ltr) (config w h tiles ltr) zlib out small
          (video_config-put_config w h tiles ltr v k))
