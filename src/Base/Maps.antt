-- ===== src/Base/Maps.antt =====
-- Maps as lists of entries with different keys; a new entry stands last. `same` compares keys.
use macvnc.Base.Lists.{length}
use macvnc.Base.Tests.{if◌then◌else◌, Bool-cases}
use Prim.Native.Nat.{suc, ◌≤◌}
use mathlib.Core.Bool.{Bool}
use mathlib.Core.List.{List, [], ◌∷◌}
use mathlib.Core.Logic.{inl, inr}
use mathlib.Core.Path.{◌≡◌, subst}
use mathlib.Core.Option.{Option, none, some}
use native.Mathlib.Omega.{arith}

module _ {ℓ κ} {K : Type ℓ} {V : Type κ} (same : K → K → Bool) where
  unfoldable pub lookup : K → List (K × V) → Option V
  lookup k [] = none
  lookup k ((j, v) ∷ m) = if same k j then some v else lookup k m

  unfoldable pub insert : K → V → List (K × V) → List (K × V)
  insert k v [] = (k, v) ∷ []
  insert k v ((j, w) ∷ m) = if same k j then (j, v) ∷ m else (j, w) ∷ insert k v m

  unfoldable pub remove : K → List (K × V) → List (K × V)
  remove k [] = []
  remove k ((j, w) ∷ m) = if same k j then m else (j, w) ∷ remove k m

  pub length-insert-le : (k : K) (v : V) (m : List (K × V)) → length (insert k v m) ≤ suc (length m)
  unfolding insert
  length-insert-le k v [] = omega arith
  length-insert-le k v ((j, w) ∷ m) = ground (arith, length-insert-le k v m)

  pub length-insert_known :
      (k : K) (v w : V) (m : List (K × V)) → lookup k m ≡ some w → length (insert k v m) ≡ length m
  unfolding lookup insert
  length-insert_known k v w [] e = cc
  length-insert_known k v w ((j, x) ∷ m) e = ground (arith, length-insert_known k v w m)

  pub length-remove-le : (k : K) (m : List (K × V)) → length (remove k m) ≤ length m
  unfolding remove
  length-remove-le k [] = omega arith
  length-remove-le k ((j, w) ∷ m) = ground (arith, length-remove-le k m)

  pub length-remove_known :
      (k : K) (w : V) (m : List (K × V))
      → lookup k m ≡ some w
      → suc (length (remove k m)) ≡ length m
  unfolding lookup remove
  length-remove_known k w [] e = cc
  length-remove_known k w ((j, x) ∷ m) e = ground (arith, length-remove_known k w m)

-- A statement about all values of a map.
module _ {ℓ κ μ} {K : Type ℓ} {V : Type κ} (P : V → Type μ) where
  abbrev pub AllValues : List (K × V) → Type μ
  AllValues [] = Unit
  AllValues ((k, v) ∷ m) = P v × AllValues m

  pub AllValues-insert :
      (same : K → K → Bool) (k : K) (v : V) (m : List (K × V))
      → P v
      → AllValues m
      → AllValues (insert same k v m)
  unfolding insert
  AllValues-insert same k v [] p h = (p, tt)
  AllValues-insert same k v ((j, w) ∷ m) p (q, h) = elim (Bool-cases (same k j)) [
    | inl e ↦ rw e (p, h)
    | inr e ↦ rw e (q, AllValues-insert same k v m p h)
  ]

  pub AllValues-lookup :
      (same : K → K → Bool) (k : K) (v : V) (m : List (K × V))
      → AllValues m
      → lookup same k m ≡ some v
      → P v
  unfolding lookup
  AllValues-lookup same k v [] h e = cc
  AllValues-lookup same k v ((j, w) ∷ m) (q, h) e = elim (Bool-cases (same k j)) [
    | inl f ↦ let is : w ≡ v = ground (arith, e, f) in subst P is q
    | inr f ↦ AllValues-lookup same k v m h (ground (arith, e, f))
  ]

  pub AllValues-remove :
      (same : K → K → Bool) (k : K) (m : List (K × V)) → AllValues m → AllValues (remove same k m)
  unfolding remove
  AllValues-remove same k [] h = tt
  AllValues-remove same k ((j, w) ∷ m) (q, h) = elim (Bool-cases (same k j)) [
    | inl e ↦ rw e h
    | inr e ↦ rw e (q, AllValues-remove same k m h)
  ]
