-- ===== src/Profile/Tests.antt =====
-- profile.rs: one connection saved and loaded, with a plain format in place of JSON, and with base64 and
-- the protection that change nothing.
use macvnc.Base.{
  ℕ, ◌≡◌, refl, sym, ap, ◌∙◌, Bool, true, false, List, [], ◌∷◌, ◌++◌, none, some, Result, ok, err,
  ◌==◌, length, take, drop, get_or, take_left, drop_left, if◌then◌else◌,
}
use macvnc.Base.Text.{chars}
use macvnc.FileTransfer.{is_empty}
use macvnc.FileTransfer.Names.{same_text}
use macvnc.Package.{strip_prefix}
use macvnc.Profile.{
  BoundSecret, Profile, default_profile, content, missing, Services, load_from, save_to,
  secret_text, read_bounded, decrypt_bound,
}
use macvnc.Profile.RoundTrip.{
  Skips, Restores, IsBound, IsLoaded, load_from-IsBound, load_from-save_to,
}

abbrev put_text : List ℕ → List ℕ → List ℕ
put_text t rest = length t ∷ (t ++ rest)

abbrev text_of : List ℕ → List ℕ × List ℕ
text_of [] = ([], [])
text_of (n ∷ l) = (take n l, drop n l)

text_of-put_text : (t rest : List ℕ) → text_of (put_text t rest) ≡ (t, rest)
text_of-put_text t rest =
    λ i. (take_left (length t) t rest refl i, drop_left (length t) t rest refl i)

abbrev flag : Bool → ℕ
flag b = if b then 1 else 0

flag_back : (b : Bool) → (flag b == 1) ≡ b
flag_back true = refl
flag_back false = refl

abbrev put_profile : Profile → List ℕ
put_profile p =
    put_text p.host
      (p.port ∷ put_text p.username (put_text p.profile (flag p.auto_connect ∷ p.enc)))

abbrev rest_of : List ℕ → List ℕ
rest_of b = (text_of (drop 1 (text_of b).1)).1

abbrev profile_of : List ℕ → Profile
profile_of b = record {
  host = (text_of b).0;
  port = get_or (text_of b).1 0 0;
  username = (text_of (drop 1 (text_of b).1)).0;
  profile = (text_of (rest_of b)).0;
  auto_connect = get_or (text_of (rest_of b)).1 0 0 == 1;
  enc = drop 1 (text_of (rest_of b)).1;
  password = [];
  legacy_password = false;
}

profile_of-put_profile :
    (p : Profile) → p.password ≡ [] → p.legacy_password ≡ false → profile_of (put_profile p) ≡ p
profile_of-put_profile p blank old =
    let rest₃ = flag p.auto_connect ∷ p.enc in
    let rest₂ = put_text p.profile rest₃ in
    let rest₁ = p.port ∷ put_text p.username rest₂ in
    let e₁ : text_of (put_profile p) ≡ (p.host, rest₁) = text_of-put_text p.host rest₁ in
    let e₂ : text_of (drop 1 (text_of (put_profile p)).1) ≡ (p.username, rest₂) =
      ap (λ x. text_of (drop 1 x.1)) e₁ ∙ text_of-put_text p.username rest₂ in
    let e₃ : text_of (rest_of (put_profile p)) ≡ (p.profile, rest₃) =
      ap (λ x. text_of x.1) e₂ ∙ text_of-put_text p.profile rest₃ in
    let auto : (profile_of (put_profile p)).auto_connect ≡ p.auto_connect =
      ap (λ x. get_or x.1 0 0 == 1) e₃ ∙ flag_back p.auto_connect in
    λ i. record {
      host = (e₁ i).0;
      port = get_or (e₁ i).1 0 0;
      username = (e₂ i).0;
      profile = (e₃ i).0;
      auto_connect = auto i;
      enc = drop 1 (e₃ i).1;
      password = sym blank i;
      legacy_password = sym old i;
    }

abbrev put_secret : BoundSecret → List ℕ
put_secret s = put_text s.host (s.port ∷ put_text s.username s.password)

abbrev secret_of : List ℕ → BoundSecret
secret_of b = record {
  host = (text_of b).0;
  port = get_or (text_of b).1 0 0;
  username = (text_of (drop 1 (text_of b).1)).0;
  password = (text_of (drop 1 (text_of b).1)).1;
}

secret_of-put_secret : (s : BoundSecret) → secret_of (put_secret s) ≡ s
secret_of-put_secret s =
    rw
      (
        take_left (length s.host) s.host _ refl,
        drop_left (length s.host) s.host _ refl,
        take_left (length s.username) s.username _ refl,
        drop_left (length s.username) s.username _ refl,
      )
      refl

abbrev home : Profile
home = record default_profile {
  host = 5 ∷ [];
  username = 6 ∷ 7 ∷ [];
  auto_connect = true;
  password = 8 ∷ 9 ∷ [];
}

abbrev before : Services
before = record {
  open_file = λ path. missing;
  parent = λ path. none;
  join = λ a b. a ++ b;
  to_json = λ p. ok (put_profile p);
  from_json = λ b. ok (profile_of b);
  secret_to_json = λ s. ok (put_secret s);
  secret_from_json = λ b. ok (secret_of b);
  encode64 = λ b. b;
  decode64 = λ b. ok b;
  protect_secret = λ b. ok b;
  unprotect_secret = λ b. ok b;
  encrypted_key = λ b. err "no key";
  decrypt_gcm = λ k n b. err "no cipher";
  from_utf8 = λ b. ok b;
}

abbrev bytes_of : Result (List ℕ) → List ℕ
bytes_of (ok b) = b
bytes_of (err e) = []

-- The disk holds what is saved.
abbrev services : Services
services = record before { open_file = λ path. content (bytes_of (save_to before home)) }

services-Restores : Restores services
unfolding is_empty
services-Restores = record {
  json = λ p bytes blank old e.
      let same : put_profile p ≡ bytes = cc in
      ap (λ b. ok (profile_of b)) (sym same) ∙ ap ok (profile_of-put_profile p blank old);
  secret_json = λ s bytes e.
      let same : put_secret s ≡ bytes = cc in
      ap (λ b. ok (secret_of b)) (sym same) ∙ ap ok (secret_of-put_secret s);
  base64 = λ b. refl;
  base64_filled = λ b bytes. refl;
  protection = λ plain encrypted e. sym e;
}

home-saved : save_to services home ≡ ok (bytes_of (save_to before home))
unfolding save_to secret_text is_empty chars
home-saved = refl

load_from-save_to_example :
    (q : Profile) × (load_from services ((1 ∷ []) ∷ []) ≡ ok (some q)) × IsLoaded services home q
load_from-save_to_example =
    load_from-save_to services (1 ∷ []) [] home (bytes_of (save_to before home)) services-Restores
      home-saved refl

services-Skips : Skips services
services-Skips = record {
  skipped = λ bytes p e.
      let same : profile_of bytes ≡ p = cc in
      (ap (λ x. x.password) (sym same), ap (λ x. x.legacy_password) (sym same));
}

-- What is loaded.
abbrev back : Profile
back = record home {
  enc = b'M' ∷ b'A' ∷ b'C' ∷ b'V' ∷ b'N' ∷ b'C' ∷ b'1' ∷ 0 ∷ 1 ∷ 5 ∷ 5900 ∷ 2 ∷ 6 ∷ 7 ∷ 8 ∷ 9 ∷ [];
}

home-loaded : load_from services ((1 ∷ []) ∷ []) ≡ ok (some back)
unfolding load_from read_bounded save_to secret_text decrypt_bound strip_prefix same_text is_empty
    chars
home-loaded = refl

load_from-IsBound_example : IsBound services back
load_from-IsBound_example =
    load_from-IsBound services ((1 ∷ []) ∷ []) back services-Skips home-loaded refl
