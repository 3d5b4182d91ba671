-- ===== src/FileTransfer/Names/Paths.antt =====
-- file_transfer.rs: what the names and the paths that pass the tests have in common.
use macvnc.Base.{
  ℕ, ◌≡◌, ◌≢◌, ◌⊎◌, refl, sym, subst, inl, inr, true, false, List, [], ◌∷◌, ◌++◌, arith, ok,
  Bool-cases, ◌==◌, ==_self,
}
use macvnc.FileTransfer.Names.{
  has, same_text, split, dots, reserved_chars, any_unsafe, validate_name,
}

pub has-any_unsafe :
    (c : ℕ) (s : List ℕ) → has c reserved_chars ≡ true → any_unsafe s ≡ false → has c s ≡ false
unfolding has any_unsafe
has-any_unsafe c [] h e = refl
has-any_unsafe c (d ∷ s) h e = elim (Bool-cases (c == d)) [
  | inr f ↦ rw f (has-any_unsafe c s h (ground (arith, e)))
  | inl f ↦
      let same : c ≡ d = ground (arith, f) in
      absurd (ground (arith, e, subst (λ x. has x reserved_chars ≡ true) same h))
]

split-none : (sep : ℕ) (s : List ℕ) → has sep s ≡ false → split sep s ≡ (s, [])
unfolding has split
split-none sep [] e = refl
split-none sep (c ∷ s) e =
    let other : (c == sep) ≡ false = ground (arith, e) in
    rw (split-none sep s (ground (arith, e)), other) refl

split-append :
    (sep : ℕ) (dir s : List ℕ)
    → has sep s ≡ false
    → split sep (dir ++ (sep ∷ s)) ≡ ((split sep dir).0, (split sep dir).1 ++ (s ∷ []))
unfolding split
split-append sep [] s e = rw (split-none sep s e, ==_self sep) refl
split-append sep (c ∷ dir) s e =
    rw (split-append sep dir s e)
      (elim (Bool-cases (c == sep)) [ inl f ↦ rw f refl | inr f ↦ rw f refl ])

validate_name-any_unsafe : (name : List ℕ) → validate_name name ≡ ok tt → any_unsafe name ≡ false
unfolding validate_name
validate_name-any_unsafe name e = ground (arith, e)

-- A name that passes, behind any directory and either separator, is one component of the path, the
-- last: the components before are those of the directory. It is neither empty nor `.` nor `..`.
pub validate_name-split :
    (name dir : List ℕ) (sep : ℕ)
    → (sep ≡ b'/') ⊎ (sep ≡ b'\\')
    → validate_name name ≡ ok tt
    → (split sep (dir ++ (sep ∷ name)) ≡ ((split sep dir).0, (split sep dir).1 ++ (name ∷ [])))
      × (name ≢ [])
      × (name ≢ b'.' ∷ [])
      × (name ≢ dots)
unfolding validate_name
validate_name-split name dir sep h e =
    let safe = validate_name-any_unsafe name e in
    let reserved : has sep reserved_chars ≡ true = elim h [
      | inl s ↦ subst (λ c. has c reserved_chars ≡ true) (sym s) (unfold has in refl)
      | inr s ↦ subst (λ c. has c reserved_chars ≡ true) (sym s) (unfold has in refl)
    ] in
    let one : same_text name (b'.' ∷ []) ≡ false = ground (arith, e) in
    let two : same_text name dots ≡ false = ground (arith, e) in
    (
      split-append sep dir name (has-any_unsafe sep name reserved safe),
      λ q. let wrong = subst (λ n. validate_name n ≡ ok tt) q e in cc,
      λ q. let wrong = subst (λ n. same_text n (b'.' ∷ []) ≡ false) q one in unfold same_text in cc,
      λ q. let wrong = subst (λ n. same_text n dots ≡ false) q two in unfold same_text in cc,
    )
