-- ===== src/Profile/RoundTrip.antt =====
-- profile.rs: what is saved is loaded again, and a password is used for the destination that it was
-- saved for.
use macvnc.Base.{
  ℕ, ◌+◌, ◌*◌, ◌≡◌, ◌≤◌, refl, sym, ap, subst, ◌∙◌, Bool, true, false, not, ◌&&◌, List, [], ◌∷◌,
  ◌++◌, Option, none, some, Result, ok, err, arith, leb, leb→le, ◌==◌, ==_self, length, take,
  bind_ok, ensure_ok, take_of_length-le, if◌then◌else◌,
}
use macvnc.FileTransfer.{is_empty}
use macvnc.FileTransfer.Names.{same_text}
use macvnc.FileTransfer.Names.Sizes.{same_text_self}
use macvnc.Package.{strip_prefix}
use macvnc.Profile.{
  max_profile_bytes, bound_prefix, BoundSecret, Profile, Opened, content, missing, unreadable,
  Services, or_empty, read_bounded, decrypt_bound, with_legacy, with_secret, with_enc,
  with_password, settled, parsed, loaded, load_from, secret_text, enc_of, saved_profile, save_to,
  decrypt_saved, directory_of,
}

-- What the code relies on: `serde` skips the two marked fields.
pub record Skips (s : Services) : Type 0 where
  pub skipped :
      (bytes : List ℕ) (p : Profile)
      → s.from_json bytes ≡ ok p
      → (p.password ≡ []) × (p.legacy_password ≡ false)

-- A profile whose skipped fields are empty, and a secret, are read back as they were written; base64 is
-- decoded again and is not empty where the bytes are not, and what the system protects it gives back.
pub record Restores (s : Services) : Type 0 where
  pub json :
      (p : Profile) (bytes : List ℕ)
      → p.password ≡ []
      → p.legacy_password ≡ false
      → s.to_json p ≡ ok bytes
      → s.from_json bytes ≡ ok p
  pub secret_json :
      (secret : BoundSecret) (bytes : List ℕ)
      → s.secret_to_json secret ≡ ok bytes
      → s.secret_from_json bytes ≡ ok secret
  pub base64 : (bytes : List ℕ) → s.decode64 (s.encode64 bytes) ≡ ok bytes
  pub base64_filled : (b : ℕ) (bytes : List ℕ) → is_empty (s.encode64 (b ∷ bytes)) ≡ false
  pub protection :
      (plain encrypted : List ℕ)
      → s.protect_secret plain ≡ ok encrypted
      → s.unprotect_secret encrypted ≡ ok plain

strip_prefix-append : (p s : List ℕ) → strip_prefix p (p ++ s) ≡ some s
unfolding strip_prefix
strip_prefix-append [] s = refl
strip_prefix-append (c ∷ p) s = rw (==_self c) (strip_prefix-append p s)

-- The password that is found is the secret's, and the secret names the destination of the profile.
abbrev pub IsBound : Services → Profile → Type 0
IsBound s p =
    (encrypted : List ℕ) × (plain : List ℕ) × (secret : BoundSecret) × (s.unprotect_secret encrypted
      ≡ ok plain)
    × (s.secret_from_json plain ≡ ok secret)
    × (same_text secret.host p.host ≡ true)
    × (secret.port ≡ p.port)
    × (same_text secret.username p.username ≡ true)
    × (secret.password ≡ p.password)

module _ (s : Services) where
  read_back :
      (path bytes : List ℕ)
      → length bytes ≤ max_profile_bytes
      → s.open_file path ≡ content bytes
      → read_bounded s path max_profile_bytes ≡ content bytes
  unfolding read_bounded
  read_back path bytes h e =
      let all : take (max_profile_bytes + 1) bytes ≡ bytes =
        take_of_length-le (max_profile_bytes + 1) bytes (omega (arith, h)) in
      let fits : leb (length bytes) max_profile_bytes ≡ true = ground (arith, h) in
      rw (e, all, fits) refl

  -- Splitting the tests that let a client connect by itself.
  both : (a b : Bool) → (a && b) ≡ true → (a ≡ true) × (b ≡ true)
  both true b e = (refl, e)
  both false b e = absurd (cc)

  decrypt_bound-IsBound :
      (encrypted password : List ℕ) (p : Profile)
      → decrypt_bound s encrypted p ≡ ok password
      → IsBound s (record p { password = password })
  unfolding decrypt_bound
  decrypt_bound-IsBound encrypted password p e =
      let (plain, f, e₁) = bind_ok (s.unprotect_secret encrypted) _ e in
      let (secret, g, e₂) = bind_ok (s.secret_from_json plain) _ e₁ in
      let (h, e₃) =
        ensure_ok
          (same_text secret.host p.host
            && (secret.port == p.port && same_text secret.username p.username))
          _ _ e₂ in
      let (host, rest) = both (same_text secret.host p.host) _ h in
      let (port, user) = both (secret.port == p.port) _ rest in
      (encrypted, plain, secret, f, g, host, ground (arith, port), user, cc)

  module _ (path : List ℕ) where
    with_enc-IsBound :
        (p : Profile) (r : Result (List ℕ))
        → p.password ≡ []
        → (with_enc s path p r).auto_connect ≡ true
        → is_empty (with_enc s path p r).password ≡ false
        → IsBound s (with_enc s path p r)
    unfolding is_empty
    with_enc-IsBound p (err x) blank a f = absurd (cc)
    with_enc-IsBound p (ok bytes) blank a f = cases (strip_prefix bound_prefix bytes) a f
      where
        bound :
            (encrypted : List ℕ) (r : Result (List ℕ))
            → decrypt_bound s encrypted p ≡ r
            → is_empty (or_empty r) ≡ false
            → IsBound s (record p { password = or_empty r })
        bound encrypted (err x) e g = absurd (cc)
        bound encrypted (ok password) e g = decrypt_bound-IsBound encrypted password p e

        old :
            (r : Result (List ℕ))
            → (with_legacy s (record p { auto_connect = false }) r).auto_connect ≡ true
            → ⊥
        old (err x) e = absurd (cc)
        old (ok plain) e = absurd (cc)

        cases :
            (o : Option (List ℕ))
            → (with_secret s path p bytes o).auto_connect ≡ true
            → is_empty (with_secret s path p bytes o).password ≡ false
            → IsBound s (with_secret s path p bytes o)
        cases (some encrypted) b g = bound encrypted (decrypt_bound s encrypted p) refl g
        cases none b g = absurd (old (decrypt_saved s bytes (directory_of s (s.parent path))) b)

    with_password-IsBound :
        (p : Profile)
        → p.password ≡ []
        → (with_password s path p).auto_connect ≡ true
        → is_empty (with_password s path p).password ≡ false
        → IsBound s (with_password s path p)
    unfolding is_empty
    with_password-IsBound p blank = cases (is_empty p.enc)
      where
        cases :
            (b : Bool)
            → (if b then p else with_enc s path p (s.decode64 p.enc)).auto_connect ≡ true
            → is_empty (if b then p else with_enc s path p (s.decode64 p.enc)).password ≡ false
            → IsBound s (if b then p else with_enc s path p (s.decode64 p.enc))
        cases true a f = absurd (filled p.password blank f)
          where
            filled : (l : List ℕ) → l ≡ [] → is_empty l ≡ false → ⊥
            filled l e g = absurd (cc)
        cases false a f = with_enc-IsBound p (s.decode64 p.enc) blank a f

  settled-IsBound :
      (q : Profile)
      → ((q.auto_connect ≡ true) → is_empty q.password ≡ false → IsBound s q)
      → (settled s q).auto_connect ≡ true
      → IsBound s (settled s q)
  settled-IsBound q h e =
      let (auto, rest) = both q.auto_connect _ e in
      let (filled, _) = both (not (is_empty q.password)) _ rest in h auto (ground (arith, filled))

  -- Where reading JSON leaves the skipped fields empty: a loaded profile that lets the client connect by
  -- itself has a password that was saved for exactly this destination. It comes out of a protected
  -- secret that names the profile's host, port and user.
  pub load_from-IsBound :
      (paths : List (List ℕ)) (p : Profile)
      → Skips s
      → load_from s paths ≡ ok (some p)
      → p.auto_connect ≡ true
      → IsBound s p
  unfolding load_from
  load_from-IsBound [] p skips e auto = absurd (cc)
  load_from-IsBound (path ∷ paths) p skips e auto =
      opened (read_bounded s path max_profile_bytes) (λ g. load_from-IsBound paths p skips g auto) e
    where
      parsed_case :
          (bytes : List ℕ) (r : Result Profile)
          → s.from_json bytes ≡ r
          → parsed s path r ≡ ok (some p)
          → IsBound s p
      parsed_case bytes (err x) f g = absurd (cc)
      parsed_case bytes (ok p₀) f g =
          let same : settled s (with_password s path p₀) ≡ p = cc in
          let (blank, _) = skips.skipped bytes p₀ f in
          subst (IsBound s) same (
            settled-IsBound (with_password s path p₀) (with_password-IsBound path p₀ blank)
              (ap (λ x. x.auto_connect) same ∙ auto))

      opened :
          (o : Opened)
          → (load_from s paths ≡ ok (some p) → IsBound s p)
          → loaded s path o (load_from s paths) ≡ ok (some p)
          → IsBound s p
      opened (content bytes) ih g = parsed_case bytes (s.from_json bytes) refl g
      opened missing ih g = ih g
      opened unreadable ih g = absurd (cc)

  -- The loaded profile has what was saved; it connects by itself exactly where that was saved, with a
  -- password, a host and a user.
  abbrev pub IsLoaded : Profile → Profile → Type 0
  IsLoaded p q =
      (q.host ≡ p.host)
      × (q.port ≡ p.port)
      × (q.username ≡ p.username)
      × (q.profile ≡ p.profile)
      × (q.password ≡ p.password)
      × (q.legacy_password ≡ false)
      × (q.auto_connect
          ≡ p.auto_connect
            && (not (is_empty p.password) && (not (is_empty p.host) && not (is_empty p.username))))

  decrypt_bound-saved :
      (r : Restores s) (p : Profile) (enc plain encrypted : List ℕ)
      → s.secret_to_json
          (record { host = p.host; port = p.port; username = p.username; password = p.password })
        ≡ ok plain
      → s.protect_secret plain ≡ ok encrypted
      → decrypt_bound s encrypted (saved_profile s p enc) ≡ ok p.password
  unfolding decrypt_bound
  decrypt_bound-saved r p enc plain encrypted made kept =
      rw
        (
          r.protection plain encrypted kept,
          r.secret_json _ plain made,
          same_text_self p.host,
          ==_self p.port,
          same_text_self p.username,
        )
        refl

  again : (a e c : Bool) → ((a && not e) && (not e && c)) ≡ (a && (not e && c))
  again true true c = refl
  again true false c = refl
  again false e c = refl

  without : (a e c : Bool) → e ≡ true → ((a && not e) && false) ≡ (a && (not e && c))
  without true true c h = refl
  without true false c h = absurd (cc)
  without false e c h = refl

  with_password-saved :
      (r : Restores s) (path : List ℕ) (p : Profile) (enc : List ℕ)
      → enc_of s p ≡ ok enc
      → IsLoaded p (settled s (with_password s path (saved_profile s p enc)))
  unfolding secret_text is_empty
  with_password-saved r path p enc e = cases p.password refl e
    where
      cases :
          (l : List ℕ)
          → l ≡ p.password
          → (if is_empty l then ok [] else secret_text s p) ≡ ok enc
          → IsLoaded p (settled s (with_password s path (saved_profile s p enc)))
      cases [] f g =
          let none_saved : enc ≡ [] = cc in
          rw none_saved (
            refl,
            refl,
            refl,
            refl,
            f,
            refl,
            without p.auto_connect (is_empty p.password) _ (ap is_empty (sym f)),
          )
      cases (b ∷ l) f g =
          let (plain, made, g₁) =
            bind_ok
              (s.secret_to_json (record {
                host = p.host;
                port = p.port;
                username = p.username;
                password = p.password;
              }))
              _ g in
          let (_, g₂) = ensure_ok (leb (length plain) (32 * 1024)) _ _ g₁ in
          let (encrypted, kept, g₃) = bind_ok (s.protect_secret plain) _ g₂ in
          let same : s.encode64 (bound_prefix ++ encrypted) ≡ enc = cc in
          let filled : is_empty enc ≡ false =
            subst (λ x. is_empty x ≡ false) same (r.base64_filled b'M' _) in
          let decoded : s.decode64 enc ≡ ok (bound_prefix ++ encrypted) =
            subst (λ x. s.decode64 x ≡ ok (bound_prefix ++ encrypted)) same
              (r.base64 (bound_prefix ++ encrypted)) in
          let found : strip_prefix bound_prefix (bound_prefix ++ encrypted) ≡ some encrypted =
            strip_prefix-append bound_prefix encrypted in
          let opens : decrypt_bound s encrypted (saved_profile s p enc) ≡ ok p.password =
            decrypt_bound-saved r p enc plain encrypted made kept in
          rw (filled, decoded, found, opens)
            (refl, refl, refl, refl, refl, refl, again p.auto_connect (is_empty p.password) _)

  -- Where the formats and the protection give back what they were given: a profile whose saved bytes are
  -- the file at the first path is loaded again, whatever other files there are. The destination, the
  -- keyboard and the password are those of the profile that was saved, and the password does not count
  -- as one of an older format.
  pub load_from-save_to :
      (path : List ℕ) (paths : List (List ℕ)) (p : Profile) (bytes : List ℕ)
      → Restores s
      → save_to s p ≡ ok bytes
      → s.open_file path ≡ content bytes
      → (q : Profile) × (load_from s (path ∷ paths) ≡ ok (some q)) × IsLoaded p q
  unfolding load_from save_to
  load_from-save_to path paths p bytes r e opened =
      let (enc, made, e₁) = bind_ok (enc_of s p) _ e in
      let (text, wrote, e₂) = bind_ok (s.to_json (saved_profile s p enc)) _ e₁ in
      let (small, e₃) = ensure_ok (leb (length text) max_profile_bytes) _ _ e₂ in
      let same : text ≡ bytes = cc in
      let fits : length bytes ≤ max_profile_bytes =
        subst (λ l. length l ≤ max_profile_bytes) same (leb→le _ _ small) in
      let read = read_back path bytes fits opened in
      let found = r.json (saved_profile s p enc) bytes refl refl (wrote ∙ ap ok same) in
      (
        settled s (with_password s path (saved_profile s p enc)),
        rw (read, found) refl,
        with_password-saved r path p enc made,
      )
