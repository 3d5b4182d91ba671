-- ===== src/Metadata/Tests.antt =====
-- metadata.rs: runs on small inputs, and the theorems at concrete inputs.
use macvnc.Base.{
  inl, inr, ℕ, ◌≡◌, refl, List, [], ◌∷◌, ◌++◌, true, false, arith, take, replicate, none, some, ok,
  All, be16,
}
use mathlib.Core.List.{map}
use macvnc.Metadata.{
  Inflate, varint, varint_loop, fields, fields_loop, field_at, wire_value, is_zlib, is_prefix,
  from_anchor, scan_answer, parse_answer, video_config, first_config, geometry, set_field,
  config_of, complete_update, display_layout, scan_update,
}
use macvnc.Metadata.Varint.{put_varint, put_groups}
use macvnc.Metadata.Fields.{
  WireField, number, delimited, fixed32, field_of, put_field, put_fields, fields-put_fields,
}
use macvnc.Metadata.Fields.Loop.{Runs, fields-Runs}
use macvnc.Metadata.Update.{
  Rect, sized, tall, End, by_last, cursor, resize, put_rect, put_rects, put_update, final_layout,
  IsRect, scan_update-put_update,
}
use macvnc.Metadata.Update.Cut.{scan_update-cut}
use macvnc.Metadata.Answer.{IsConfig, parse_answer-IsConfig}
use macvnc.Metadata.Answer.RoundTrip.{config, put_config, IsQuiet, parse_answer-put_config}

abbrev sent : List WireField
sent = number 4 1920 ∷ delimited 9 (7 ∷ 8 ∷ []) ∷ fixed32 2 (1 ∷ 2 ∷ 3 ∷ 4 ∷ []) ∷ []

-- `varint` on the bytes of 1920, with more behind them.
varint-bytes : varint (128 ∷ 15 ∷ 40 ∷ []) ≡ ok (1920, 40 ∷ [])
unfolding varint varint_loop
varint-bytes = refl

fields-put_fields_example : fields (put_fields sent) ≡ ok (map field_of sent)
fields-put_fields_example =
    fields-put_fields sent
      (
        ((omega arith, omega arith), omega arith),
        (((omega arith, omega arith), omega arith), (((omega arith, omega arith), refl), tt)),
      )
      (omega arith) (unfold put_fields put_field put_varint put_groups in omega arith)

fields-Runs_example : Runs 0 (put_fields sent) (fields (put_fields sent))
fields-Runs_example =
    fields-Runs (put_fields sent) (unfold put_fields put_field put_varint put_groups in omega arith)

-- A layout of 1920 by 1080 for no displays, with a cursor before it, and two more behind it.
abbrev layout_payload : List ℕ
layout_payload = replicate 6 0 ++ (be16 1920 ++ (be16 1080 ++ replicate 10 0))

abbrev rects : List Rect
rects =
    record { x = 0; y = 0; w = 3; h = 3; content = cursor (replicate 36 1) }
    ∷ record { x = 0; y = 0; w = 1; h = 1; content = sized 0x451 layout_payload }
    ∷ record { x = 0; y = 0; w = 2; h = 2; content = tall 7 (1 ∷ 2 ∷ 3 ∷ []) }
    ∷ record { x = 0; y = 0; w = 1920; h = 1080; content = resize }
    ∷ []

-- A LastRect where one rectangle more is announced, with two bytes behind it.
abbrev last_of_all : End
last_of_all = by_last 1 0 0 0 0 (8 ∷ 9 ∷ [])

rects-IsRect : All IsRect rects
rects-IsRect =
    (refl, ((inr (inr (inr (inl refl))), omega arith, λ e. omega arith), (omega arith, (tt, tt))))

scan_update-put_update_example :
    scan_update (put_update rects last_of_all) ≡ (true, final_layout rects none)
scan_update-put_update_example = scan_update-put_update rects last_of_all rects-IsRect (omega arith)

scan_update-cut_example :
    (complete_update (take 90 (put_update rects last_of_all)) ≡ false)
    × (display_layout (take 90 (put_update rects last_of_all)) ≡ none)
scan_update-cut_example =
    scan_update-cut rects last_of_all 90 rects-IsRect (omega arith)
      (unfold put_rects put_rect in omega arith)

-- A stand-in for the decompression: two bytes of header in front of the data.
abbrev stored : Inflate
stored b limit = elim b [
  | [] ↦ (false, [])
  | a ∷ rest ↦ elim rest [ [] ↦ (false, []) | c ∷ out ↦ (true, out) ]
]

abbrev name_mark : List ℕ
name_mark = b'b' ∷ b'p' ∷ b'l' ∷ b'i' ∷ b's' ∷ b't' ∷ b'0' ∷ b'0' ∷ []

abbrev answer : List ℕ
answer = 3 ∷ name_mark ++ (0x78 ∷ 0x9c ∷ put_config 1920 1080 none (some 1))

small-IsConfig : IsConfig (config 1920 1080 none (some 1))
small-IsConfig = record {
  width_ok = (omega arith, omega arith);
  height_ok = (omega arith, omega arith);
  area_ok = omega arith;
  tiles_ok = (omega arith, omega arith);
}

answer-config : parse_answer stored (0 ∷ answer) ≡ ok (some (config 1920 1080 none (some 1)))
unfolding parse_answer from_anchor is_prefix scan_answer is_zlib video_config fields fields_loop
    field_at varint varint_loop wire_value first_config geometry set_field config_of put_fields
    put_field put_varint put_groups
answer-config = refl

name_mark-IsQuiet : IsQuiet name_mark 0x78
unfolding IsQuiet is_zlib
name_mark-IsQuiet = (refl, (refl, (refl, (refl, (refl, (refl, (refl, refl)))))))

parse_answer-put_config_example :
    parse_answer stored (0 ∷ answer) ≡ ok (some (config 1920 1080 none (some 1)))
parse_answer-put_config_example =
    parse_answer-put_config stored 1920 1080 none (some 1) answer name_mark 0x78 0x9c
      (put_config 1920 1080 none (some 1)) small-IsConfig (omega arith)
      (unfold put_fields put_field put_varint put_groups in omega arith)
      (unfold from_anchor is_prefix in refl) name_mark-IsQuiet (unfold is_zlib in refl) refl

parse_answer-IsConfig_example : IsConfig (config 1920 1080 none (some 1))
parse_answer-IsConfig_example =
    parse_answer-IsConfig stored (0 ∷ answer) (config 1920 1080 none (some 1)) answer-config
