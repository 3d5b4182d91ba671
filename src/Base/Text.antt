-- ===== src/Base/Text.antt =====
-- The characters of a text in the program, as their numbers.
use mathlib.Core.List.{List, [] as []ᴸ, ◌∷◌ as ◌∷ᴸ◌}
use Prim.Native.Char.{code}
use Prim.Native.Nat.{ℕ}
use Prim.Native.String.{String, [], ◌∷◌}

unfoldable pub chars : String → List ℕ
chars [] = []ᴸ
chars (c ∷ s) = code c ∷ᴸ chars s
