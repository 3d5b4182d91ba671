-- ===== src/Connection/Monad.antt =====
-- rust/crates/hp-protocol/src/lib.rs: a call that may fail, with the state that it leaves in both cases.
use macvnc.Base.{Bool, true, false, Result, ok, err, ◌≡◌, refl, ap, ◌∙◌}
use Prim.Native.String.{String}

abbrev pub Action : Type 0 → Type 0 → Type 0
Action S A = S → Result A × S

module _ {S : Type 0} where
  abbrev pub pure : {A : Type 0} → A → Action S A
  pure a s = (ok a, s)

  abbrev pub raise : {A : Type 0} → String → Action S A
  raise e s = (err e, s)

  abbrev pub after : {A B : Type 0} → (A → Action S B) → Result A × S → Result B × S
  after f (ok a, s) = f a s
  after f (err e, s) = (err e, s)

  infixl 5 ◌>>=◌ ◌>>◌
  abbrev pub ◌>>=◌ : {A B : Type 0} → Action S A → (A → Action S B) → Action S B
  ◌>>=◌ m f s = after f (m s)

  abbrev pub ◌>>◌ : {A B : Type 0} → Action S A → Action S B → Action S B
  m >> k = m >>= λ _. k

  abbrev pub ensure : Bool → String → Action S (Unit {0})
  ensure true message s = (ok tt, s)
  ensure false message s = (err message, s)

  -- What holds of the state after a call, however it ends.
  module _ (P : S → Type 0) where
    abbrev pub Preserves : {A : Type 0} → Action S A → Type 0
    Preserves m = (s : S) → P s → P (m s).1

    pub bind-Preserves :
        {A B : Type 0} (m : Action S A) (f : A → Action S B)
        → Preserves m
        → ((a : A) → Preserves (f a))
        → Preserves (m >>= f)
    bind-Preserves {A} {B} m f hm hf s p = step (m s) (hm s p)
      where
        step : (r : Result A × S) → P r.1 → P (after f r).1
        step (ok a, s') q = hf a s' q
        step (err e, s') q = q

    pub ensure-Preserves : (holds : Bool) (message : String) → Preserves (ensure holds message)
    ensure-Preserves true message s p = p
    ensure-Preserves false message s p = p

  -- What a call that has returned a value has done before.
  pub bind-ok :
      {A B : Type 0} (m : Action S A) (f : A → Action S B) {s t : S} {b : B}
      → (m >>= f) s ≡ (ok b, t)
      → (a : A) × (u : S) × (m s ≡ (ok a, u)) × (f a u ≡ (ok b, t))
  bind-ok {A} {B} m f {s} {t} {b} e = step (m s) refl e
    where
      step :
          (r : Result A × S)
          → m s ≡ r
          → after f r ≡ (ok b, t)
          → (a : A) × (u : S) × (m s ≡ (ok a, u)) × (f a u ≡ (ok b, t))
      step (ok a, u) g h = (a, u, g, h)
      step (err x, u) g h = absurd (cc)

  pub ensure-ok :
      {B : Type 0} (holds : Bool) (message : String) (k : Action S B) {s t : S} {b : B}
      → (ensure holds message >> k) s ≡ (ok b, t)
      → (holds ≡ true) × (k s ≡ (ok b, t))
  ensure-ok true message k e = (refl, e)
  ensure-ok false message k e = absurd (cc)

  pub pure-ok : {A : Type 0} {a b : A} {s t : S} → pure a s ≡ (ok b, t) → (b ≡ a) × (t ≡ s)
  pure-ok e = (cc, cc)

  pub ensure_last :
      (holds : Bool) (message : String) {s t : S} {a : Unit {0}}
      → ensure holds message s ≡ (ok a, t)
      → (holds ≡ true) × (t ≡ s)
  ensure_last true message e = (refl, cc)
  ensure_last false message e = absurd (cc)

  pub bind_step :
      {A B : Type 0} (m : Action S A) (f : A → Action S B) {s u : S} {a : A} {r : Result B × S}
      → m s ≡ (ok a, u)
      → f a u ≡ r
      → (m >>= f) s ≡ r
  bind_step m f e h = ap (after f) e ∙ h
