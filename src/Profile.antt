-- ===== src/Profile.antt =====
-- rust/crates/macvnc-app/src/profile.rs: the saved connection. JSON, base64, the system's protection of
-- secrets, AES-GCM and the disk are parameters.
pub mod RoundTrip
mod Tests
use macvnc.Base.{
  ℕ, ◌+◌, ◌*◌, Bool, true, false, not, ◌&&◌, ◌||◌, List, [], ◌∷◌, ◌++◌, Option, none, some, Result,
  ok, err, ensure, ◌>>=◌, ◌>>◌, ltb, leb, ◌==◌, if◌then◌else◌, length, take, drop,
}
use macvnc.Base.Text.{chars}
use macvnc.FileTransfer.{is_empty}
use macvnc.FileTransfer.Names.{same_text}
use macvnc.Package.{strip_prefix}

abbrev pub max_profile_bytes : ℕ
max_profile_bytes = 64 * 1024

abbrev pub max_state_bytes : ℕ
max_state_bytes = 1024 * 1024

abbrev pub bound_prefix : List ℕ
bound_prefix = b'M' ∷ b'A' ∷ b'C' ∷ b'V' ∷ b'N' ∷ b'C' ∷ b'1' ∷ 0 ∷ []

pub record BoundSecret : Type 0 where
  pub host : List ℕ
  pub port : ℕ
  pub username : List ℕ
  pub password : List ℕ

pub record Profile : Type 0 where
  pub host : List ℕ
  pub port : ℕ
  pub username : List ℕ
  pub profile : List ℕ
  pub auto_connect : Bool
  pub enc : List ℕ
  pub password : List ℕ
  pub legacy_password : Bool

abbrev pub default_profile : Profile
default_profile = record {
  host = [];
  port = 5900;
  username = [];
  profile = chars "ctrl-as-cmd";
  auto_connect = false;
  enc = [];
  password = [];
  legacy_password = false;
}

-- How opening and reading a file ends; the content is what `take(limit + 1)` is applied to.
pub data Opened : Type 0 where
  content : List ℕ → Opened
  missing : Opened
  unreadable : Opened

-- The other libraries and the system. `to_json` and `from_json` leave out the fields that are marked
-- `serde(skip)`, which are empty after reading.
pub record Services : Type 0 where
  pub open_file : List ℕ → Opened
  pub parent : List ℕ → Option (List ℕ)
  pub join : List ℕ → List ℕ → List ℕ
  pub to_json : Profile → Result (List ℕ)
  pub from_json : List ℕ → Result Profile
  pub secret_to_json : BoundSecret → Result (List ℕ)
  pub secret_from_json : List ℕ → Result BoundSecret
  pub encode64 : List ℕ → List ℕ
  pub decode64 : List ℕ → Result (List ℕ)
  pub protect_secret : List ℕ → Result (List ℕ)
  pub unprotect_secret : List ℕ → Result (List ℕ)
  pub encrypted_key : List ℕ → Result (List ℕ)
  pub decrypt_gcm : List ℕ → List ℕ → List ℕ → Result (List ℕ)
  pub from_utf8 : List ℕ → Result (List ℕ)

-- `read_bounded`: a file over the limit is an error of another kind than a missing one.
abbrev pub within_limit : ℕ → Opened → Opened
within_limit limit (content bytes) =
    if leb (length (take (limit + 1) bytes)) limit then content bytes else unreadable
within_limit limit missing = missing
within_limit limit unreadable = unreadable

-- `unwrap_or_default`
abbrev pub or_empty : Result (List ℕ) → List ℕ
or_empty (ok s) = s
or_empty (err e) = []

module _ (services : Services) where
  unfoldable pub read_bounded : List ℕ → ℕ → Opened
  read_bounded path limit = within_limit limit (services.open_file path)

  unfoldable pub decrypt_bound : List ℕ → Profile → Result (List ℕ)
  decrypt_bound encrypted p = do
    plain ← services.unprotect_secret encrypted
    secret ← services.secret_from_json plain
    ensure
        (same_text secret.host p.host
          && (secret.port == p.port && same_text secret.username p.username))
        "Saved connection identity changed."
    ok secret.password

  abbrev pub stripped : Option (List ℕ) → Result (List ℕ)
  stripped none = err "Unknown saved encryption provider."
  stripped (some bytes) = ok bytes

  abbrev pub stripped_or : List ℕ → Option (List ℕ) → List ℕ
  stripped_or bytes none = bytes
  stripped_or bytes (some rest) = rest

  abbrev pub state_of : Opened → Result (List ℕ)
  state_of (content bytes) = ok bytes
  state_of missing = err "Saved encryption key is unavailable."
  state_of unreadable = err "Saved encryption key is unavailable."

  -- Chromium's format: `v10`, a nonce of 12 bytes, the ciphertext and a tag of 16 bytes.
  unfoldable pub decrypt_chromium : List ℕ → List ℕ → Result (List ℕ)
  decrypt_chromium bytes directory = do
    ensure (not (ltb (length bytes) 31)) "Invalid encrypted password."
    state ← state_of (read_bounded (services.join directory (chars "Local State")) max_state_bytes)
    text ← services.encrypted_key state
    encrypted ← services.decode64 text
    wrapped ← stripped (strip_prefix (chars "DPAPI") encrypted)
    key ← services.unprotect_secret wrapped
    services.decrypt_gcm key (take 12 (drop 3 bytes)) (drop 15 bytes)

  abbrev pub is_some_text : Option (List ℕ) → Bool
  is_some_text none = false
  is_some_text (some rest) = true

  unfoldable pub decrypt_saved : List ℕ → List ℕ → Result (List ℕ)
  decrypt_saved bytes directory =
      if is_some_text (strip_prefix (chars "v10") bytes)
      then decrypt_chromium bytes directory
      else services.unprotect_secret (stripped_or bytes (strip_prefix (chars "DPAPI") bytes))

  abbrev pub directory_of : Option (List ℕ) → List ℕ
  directory_of none = chars "."
  directory_of (some d) = d

  -- A password in an older format.
  abbrev pub with_legacy : Profile → Result (List ℕ) → Profile
  with_legacy p (err e) = p
  with_legacy p (ok plain) =
      let password = or_empty (services.from_utf8 plain) in
      record p { password = password; legacy_password = not (is_empty password) }

  abbrev pub with_secret : List ℕ → Profile → List ℕ → Option (List ℕ) → Profile
  with_secret path p bytes (some encrypted) = record p {
    password = or_empty (decrypt_bound encrypted p);
  }
  with_secret path p bytes none =
      with_legacy (record p { auto_connect = false })
        (decrypt_saved bytes (directory_of (services.parent path)))

  abbrev pub with_enc : List ℕ → Profile → Result (List ℕ) → Profile
  with_enc path p (err e) = p
  with_enc path p (ok bytes) = with_secret path p bytes (strip_prefix bound_prefix bytes)

  abbrev pub with_password : List ℕ → Profile → Profile
  with_password path p = if is_empty p.enc then p else with_enc path p (services.decode64 p.enc)

  -- `auto_connect &=`
  abbrev pub settled : Profile → Profile
  settled p = record p {
    auto_connect =
        p.auto_connect
        && (not (is_empty p.password) && (not (is_empty p.host) && not (is_empty p.username)));
  }

  abbrev pub parsed : List ℕ → Result Profile → Result (Option Profile)
  parsed path (err e) = err "Saved connection is invalid."
  parsed path (ok p) = ok (some (settled (with_password path p)))

  abbrev pub loaded : List ℕ → Opened → Result (Option Profile) → Result (Option Profile)
  loaded path (content bytes) rest = parsed path (services.from_json bytes)
  loaded path missing rest = rest
  loaded path unreadable rest = err "Saved connection cannot be read."

  unfoldable pub load_from : List (List ℕ) → Result (Option Profile)
  load_from [] = ok none
  load_from (path ∷ paths) = loaded path (read_bounded path max_profile_bytes) (load_from paths)

  unfoldable pub secret_text : Profile → Result (List ℕ)
  secret_text p = do
    plain ←
        services.secret_to_json
          (record { host = p.host; port = p.port; username = p.username; password = p.password })
    ensure (leb (length plain) (32 * 1024)) "Saved connection exceeds size limit."
    encrypted ← services.protect_secret plain
    ok (services.encode64 (bound_prefix ++ encrypted))

  abbrev pub enc_of : Profile → Result (List ℕ)
  enc_of p = if is_empty p.password then ok [] else secret_text p

  abbrev pub saved_profile : Profile → List ℕ → Profile
  saved_profile p enc = record p {
    auto_connect = p.auto_connect && not (is_empty p.password);
    enc = enc;
    password = [];
    legacy_password = false;
  }

  -- The bytes that `save_to` puts in the file at the path, whose directory is there and writable.
  unfoldable pub save_to : Profile → Result (List ℕ)
  save_to p = do
    enc ← enc_of p
    bytes ← services.to_json (saved_profile p enc)
    ensure (leb (length bytes) max_profile_bytes) "Saved connection exceeds size limit."
    ok bytes
