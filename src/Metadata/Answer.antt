-- ===== src/Metadata/Answer.antt =====
-- metadata.rs: the stream configuration in the Mac's answer.
pub mod RoundTrip
use macvnc.Base.{
  ℕ, zero, suc, ◌+◌, ◌-◌, ◌*◌, ◌/◌, ◌%◌, ◌^◌, ◌<◌, ◌≤◌, ◌≡◌, refl, sym, ap, subst, ◌∙◌, inl, inr,
  ◌⊎◌, List, [], ◌∷◌, ◌++◌, append_assoc, append-nil, Bool, true, false, not, ◌||◌, ◌&&◌, arith,
  Option, none, some, Result, ok, err, ◌>>=◌, Bool-cases, Result-cases, Option-cases, ltb, leb,
  le→leb, ◌==◌, if◌then◌else◌, length, take, drop, get_or, All, length-append,
}
use Prim.Native.String.{String}
use macvnc.Metadata.{
  ProtoField, fields, StreamConfig, Geometry, set_field, geometry, config_of, first_config,
  video_config, Inflate, is_zlib, is_prefix, plist_anchor, from_anchor, scan_answer, parse_answer,
}
use macvnc.Metadata.Varint.{put_groups, put_varint}
use macvnc.Metadata.Fields.{
  WireField, number, delimited, put_field, field_of, put_fields, fields-put_fields, IsWireField,
}

-- The configurations that the client accepts.
pub record IsConfig (c : StreamConfig) : Type 0 where
  pub width_ok : (0 < c.width) × (c.width ≤ 16384)
  pub height_ok : (0 < c.height) × (c.height ≤ 16384)
  pub area_ok : c.width * c.height ≤ 67108864
  pub tiles_ok : (1 ≤ c.tile_count) × (c.tile_count ≤ 64)

-- What is accepted is not changed by the casts to 16 bits.
config_of-IsConfig :
    (g : Geometry) (c : StreamConfig)
    → config_of g ≡ ok (some c)
    → IsConfig c × (c.width ≡ g.w) × (c.height ≡ g.h) × (c.tile_count ≡ g.tiles)
unfolding config_of
config_of-IsConfig g c e = elim (Bool-cases (ltb 0 g.w && ltb 0 g.h)) [
  | inr f ↦ cc (e, f)
  | inl f ↦ elim (Bool-cases (leb g.w 16384 && leb g.h 16384 && leb (g.w * g.h) 67108864)) [
    | inr k ↦ cc (e, f, k)
    | inl k ↦ elim (Bool-cases (leb 1 g.tiles && leb g.tiles 64)) [
      | inr t ↦ cc (e, f, k, t)
      | inl t ↦
          let w : g.w % 2 ^ 16 ≡ g.w = ground arith in
          let h : g.h % 2 ^ 16 ≡ g.h = ground arith in
          let n : g.tiles % 2 ^ 16 ≡ g.tiles = ground arith in
          let c' : StreamConfig = record {
            width = g.w;
            height = g.h;
            tile_count = g.tiles;
            ltr_enabled = g.ltr;
          } in
          let is : c ≡ c' = ground (arith, e, f, k, t, w, h, n) in
          rw is (
            record {
              width_ok = (ground arith, ground arith);
              height_ok = (ground arith, ground arith);
              area_ok = ground arith;
              tiles_ok = (ground arith, ground arith);
            },
            refl,
            refl,
            refl,
          )
    ]
  ]
]

first_config-IsConfig :
    (fs : List ProtoField) (c : StreamConfig) → first_config fs ≡ ok (some c) → IsConfig c
unfolding first_config
first_config-IsConfig [] c e = cc
first_config-IsConfig (f ∷ fs) c e = elim (Bool-cases (f.number == 5)) [
  | inr other ↦ first_config-IsConfig fs c (ground (arith, e, other))
  | inl five ↦ elim (Result-cases (fields f.bytes)) [
    | inl (m, bad) ↦ ground (arith, e, five, bad)
    | inr (sub, good) ↦
        found sub (ground (arith, e, five, good)) (λ k. first_config-IsConfig fs c k)
  ]
]
  where
    start : List ProtoField → Geometry
    start sub = geometry (record { w = 0; h = 0; tiles = 1; ltr = false }) sub

    found :
        (sub : List ProtoField)
        → (elim (config_of (start sub)) [
          | err e ↦ err e
          | ok (some config) ↦ ok (some config)
          | ok none ↦ first_config fs
        ])
          ≡ ok (some c)
        → (first_config fs ≡ ok (some c) → IsConfig c)
        → IsConfig c
    found sub k ih = elim (Result-cases (config_of (start sub))) [
      | inl (m, bad) ↦ cc (k, bad)
      | inr (o, good) ↦ elim (Option-cases o) [
        | inl z ↦ ih (ground (arith, k, good, z))
        | inr (c', z) ↦
            let same : c ≡ c' = ground (arith, k, good, z) in
            rw same (config_of-IsConfig (start sub) c' (good ∙ ap ok z)).0
      ]
    ]

video_config-IsConfig : (b : List ℕ) (c : StreamConfig) → video_config b ≡ ok (some c) → IsConfig c
unfolding video_config
video_config-IsConfig b c e = elim (Result-cases (fields b)) [
  | inl (m, bad) ↦ ground (arith, e, bad)
  | inr (fs, good) ↦ first_config-IsConfig fs c (ground (arith, e, good))
]

module _ (inflate : Inflate) where
  scan_answer-IsConfig :
      (attempts expanded : ℕ) (b : List ℕ) (c : StreamConfig)
      → scan_answer inflate attempts expanded b ≡ ok (some c)
      → IsConfig c
  unfolding scan_answer
  scan_answer-IsConfig attempts expanded [] c e = cc
  scan_answer-IsConfig attempts expanded (a ∷ []) c e = cc
  scan_answer-IsConfig attempts expanded (a ∷ b ∷ rest) c e = elim (Bool-cases (is_zlib a b)) [
    | inr other ↦ scan_answer-IsConfig attempts expanded (b ∷ rest) c (ground (arith, e, other))
    | inl zlib ↦
        let result = inflate (a ∷ b ∷ rest) (1024 * 1024 - expanded + 1) in
        let out = result.1 in
        let ih = scan_answer-IsConfig (attempts + 1) (expanded + length out) (b ∷ rest) c in
        elim (Bool-cases (leb (attempts + 1) 32)) [
          | inr f ↦ ground (arith, e, zlib, f)
          | inl f ↦ elim (Bool-cases (leb (expanded + length out) (1024 * 1024))) [
            | inr g ↦ ground (arith, e, zlib, f, g)
            | inl g ↦ elim (Bool-cases result.0) [
              | inr broken ↦ ih (ground (arith, e, zlib, f, g, broken))
              | inl whole ↦ elim (Result-cases (video_config out)) [
                | inl (m, bad) ↦ ih (ground (arith, e, zlib, f, g, whole, bad))
                | inr (o, good) ↦ elim (Option-cases o) [
                  | inl z ↦ ih (ground (arith, e, zlib, f, g, whole, good, z))
                  | inr (c', z) ↦
                      let same : c ≡ c' = ground (arith, e, zlib, f, g, whole, good, z) in
                      rw same (video_config-IsConfig out c' (good ∙ ap ok z))
                ]
              ]
            ]
          ]
        ]
  ]

  -- Whatever the Mac sends, and whatever comes out of the decompression, a configuration that is
  -- returned has dimensions from 1 to 16384, at most 2^26 pixels, and from 1 to 64 tiles.
  pub parse_answer-IsConfig :
      (body : List ℕ) (c : StreamConfig) → parse_answer inflate body ≡ ok (some c) → IsConfig c
  unfolding parse_answer
  parse_answer-IsConfig body c e = elim (Option-cases (from_anchor body)) [
    | inl z ↦ ground (arith, e, z)
    | inr (start, z) ↦ scan_answer-IsConfig 0 0 start c (ground (arith, e, z))
  ]
