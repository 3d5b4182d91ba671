-- ===== src/Compositor/Tests.antt =====
-- compositor.rs: a band of one row on a desktop of two, and the theorem at it.
use macvnc.Base.{◌≡◌, ◌⊎◌, refl, [], ◌∷◌, Bool, true, false, none, some, ok, err, arith}
use Prim.Native.String.{String}
use macvnc.Compositor.{
  RgbaFrame, DecodedTile, Compositor, update, push, place, composed, rgba_len, copy_row, copy_rows,
  set_true, all_true, slot_of,
}
use macvnc.Compositor.Update.{Updated, is_right, update-Updated}

abbrev desktop : Compositor
desktop = record {
  frame = record { width = 1; height = 2; pixels = 0 ∷ 0 ∷ 0 ∷ 0 ∷ 0 ∷ 0 ∷ 0 ∷ 0 ∷ [] };
  tiles = 2;
  slot_height = none;
  seen = true ∷ false ∷ [];
}

abbrev band : DecodedTile
band = record {
  tile = 1;
  frame = record { width = 2; height = 1; pixels = 1 ∷ 2 ∷ 3 ∷ 4 ∷ 5 ∷ 6 ∷ 7 ∷ 8 ∷ [] };
}

abbrev whole : RgbaFrame
whole = record { width = 1; height = 2; pixels = 0 ∷ 0 ∷ 0 ∷ 0 ∷ 1 ∷ 2 ∷ 3 ∷ 4 ∷ [] }

push-band : push desktop band ≡ (
  ok (some whole),
  record { frame = whole; tiles = 2; slot_height = some 1; seen = true ∷ true ∷ [] },
)
unfolding push update place composed rgba_len copy_row copy_rows set_true all_true slot_of
push-band = refl

update-Updated_example :
    ((e : String) × (update desktop band ≡ (err e, desktop)) × (is_right desktop band ≡ false))
    ⊎ ((is_right desktop band ≡ true)
        × (complete : Bool) × (c' : Compositor) × (update desktop band ≡ (ok complete, c'))
        × Updated desktop band c' complete 1 0 2)
update-Updated_example =
    update-Updated desktop band 1 0 2 (record { size = refl }) (omega arith) (omega arith)
      (omega arith)
