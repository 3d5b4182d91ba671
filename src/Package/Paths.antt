-- ===== src/Package/Paths.antt =====
-- updater/package.rs: what the names and paths that pass the checks have in common.
use macvnc.Base.{ℕ, ◌≡◌, ◌≢◌, subst, true, false, List, [], ◌∷◌, ok, arith, All, bind_ok, ensure_ok}
use macvnc.Base.Text.{chars}
use macvnc.Base.Utf8.{encode_str, encode_char}
use macvnc.FileTransfer.{is_empty}
use macvnc.FileTransfer.Names.{has, same_text, reserved_chars}
use macvnc.FileTransfer.Names.Paths.{has-any_unsafe}
use macvnc.Package.{safe_component, Component, normal, other, safe_names}

-- A name that is one component on every system: not empty, not `.` or `..`, and without a separator,
-- a colon, or another reserved character.
pub record IsPlain (name : List ℕ) : Type 0 where
  pub nonempty : name ≢ []
  pub not_dot : name ≢ b'.' ∷ []
  pub not_dots : name ≢ b'.' ∷ b'.' ∷ []
  pub clean : (c : ℕ) → has c reserved_chars ≡ true → has c name ≡ false

not_true : {A : Type 0} → false ≡ true → A
not_true e = absurd (cc)

safe_component-IsPlain : (name : List ℕ) → safe_component name ≡ true → IsPlain name
unfolding safe_component is_empty same_text chars encode_str encode_char
safe_component-IsPlain name e = record {
  nonempty = λ f. not_true (subst (λ n. safe_component n ≡ true) f e);
  not_dot = λ f. not_true (subst (λ n. safe_component n ≡ true) f e);
  not_dots = λ f. not_true (subst (λ n. safe_component n ≡ true) f e);
  clean = λ c h. has-any_unsafe c name h (ground (arith, e));
}

-- The names are plain.
pub safe_names-IsPlain :
    (parts : List Component) (names : List (List ℕ))
    → safe_names parts ≡ ok names
    → All IsPlain names
unfolding safe_names
safe_names-IsPlain [] names e = subst (All IsPlain) (ok_lem e) tt
  where
    ok_lem : {x y : List (List ℕ)} → ok x ≡ ok y → x ≡ y
    ok_lem e = cc
safe_names-IsPlain (other ∷ parts) names e = absurd (cc)
safe_names-IsPlain (normal s ∷ parts) names e =
    let (safe, e₁) = ensure_ok (safe_component s) _ _ e in
    let (rest, made, e₂) = bind_ok (safe_names parts) _ e₁ in
    let same : s ∷ rest ≡ names = cc in
    subst (All IsPlain) same (safe_component-IsPlain s safe, safe_names-IsPlain parts rest made)
