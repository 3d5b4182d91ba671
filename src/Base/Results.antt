-- ===== src/Base/Results.antt =====
-- `anyhow::Result`: a value or the message of an error. A method that takes `&mut self` and may
-- fail returns its result beside the new state, since the state is kept when it fails.
use mathlib.Core.Bool.{Bool, true, false}
use mathlib.Core.Logic.{◌⊎◌, inl, inr}
use mathlib.Core.Path.{◌≡◌, refl}
use Prim.Native.String.{String}

pub data Result {ℓ} (A : Type ℓ) : Type ℓ where
  ok : A → Result A
  err : String → Result A

infixl 5 ◌>>=◌ ◌>>◌
abbrev pub ◌>>=◌ {ℓ κ} : {A : Type ℓ} {B : Type κ} → Result A → (A → Result B) → Result B
r >>= next = elim r [ ok value ↦ next value | err message ↦ err message ]

abbrev pub ◌>>◌ {ℓ} : {B : Type ℓ} → Result (Unit {0}) → Result B → Result B
r >> next = elim r [ ok _ ↦ next | err message ↦ err message ]

-- `ensure!`
abbrev pub ensure : Bool → String → Result (Unit {0})
ensure holds message = elim holds [ true ↦ ok tt | false ↦ err message ]

abbrev pub is_ok {ℓ} : {A : Type ℓ} → Result A → Bool
is_ok r = elim r [ ok _ ↦ true | err _ ↦ false ]

-- To split on a result and keep the equation.
pub Result-cases {ℓ} :
    {A : Type ℓ} (r : Result A) → ((e : String) × (r ≡ err e)) ⊎ ((a : A) × (r ≡ ok a))
Result-cases (err e) = inl (e, refl)
Result-cases (ok a) = inr (a, refl)

-- What stands before a call that has returned a value has returned one.
pub bind_ok {ℓ κ} :
    {A : Type ℓ} {B : Type κ} (r : Result A) (f : A → Result B) {b : B}
    → (r >>= f) ≡ ok b
    → (a : A) × (r ≡ ok a) × (f a ≡ ok b)
bind_ok (ok a) f e = (a, refl, e)
bind_ok (err x) f e = absurd (cc)

pub ensure_ok {ℓ} :
    {B : Type ℓ} (holds : Bool) (message : String) (next : Result B) {b : B}
    → (ensure holds message >> next) ≡ ok b
    → (holds ≡ true) × (next ≡ ok b)
ensure_ok true message next e = (refl, e)
ensure_ok false message next e = absurd (cc)
