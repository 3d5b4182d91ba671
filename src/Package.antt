-- ===== src/Package.antt =====
-- rust/crates/macvnc-app/src/updater/package.rs: which names and paths an update package may have.
pub mod Paths
pub mod Contents
pub mod Extract
pub mod Confined
pub mod Bounded
mod Tests
use macvnc.Base.{
  ℕ, ◌+◌, ◌*◌, Bool, true, false, not, ◌&&◌, ◌||◌, List, [], ◌∷◌, ◌++◌, Option, none, some, Result,
  ok, err, ensure, ◌>>=◌, ◌>>◌, ltb, leb, ◌==◌, if◌then◌else◌, length, drop, get_or,
}
use macvnc.Base.Text.{chars}
use macvnc.Base.Utf8.{encode_str}
use macvnc.FileTransfer.{is_empty}
use macvnc.FileTransfer.Names.{has, same_text, has_text, split, uppercase, any_unsafe, ends_badly}

abbrev pub max_archive : ℕ
max_archive = 512 * 1024 * 1024

abbrev pub max_expanded : ℕ
max_expanded = 2 * 1024 * 1024 * 1024

-- `char::is_whitespace`
abbrev pub is_space : ℕ → Bool
is_space c =
    (leb 9 c && leb c 13)
    || c == 32
    || c == 0x85
    || c == 0xA0
    || c == 0x1680
    || (leb 0x2000 c && leb c 0x200A)
    || c == 0x2028
    || c == 0x2029
    || c == 0x202F
    || c == 0x205F
    || c == 0x3000

unfoldable pub trim_end : List ℕ → List ℕ
trim_end [] = []
trim_end (c ∷ s) = let rest = trim_end s in if is_empty rest && is_space c then [] else c ∷ rest

-- `to_ascii_lowercase`
unfoldable pub lowercase : List ℕ → List ℕ
lowercase [] = []
lowercase (c ∷ s) = (if leb b'A' c && leb c b'Z' then c + 32 else c) ∷ lowercase s

-- The text of `ends_with` against the end of a name.
unfoldable pub ends_with : List ℕ → List ℕ → Bool
ends_with [] suffix = is_empty suffix
ends_with (c ∷ s) suffix = same_text (c ∷ s) suffix || ends_with s suffix

unfoldable pub strip_prefix : List ℕ → List ℕ → Option (List ℕ)
strip_prefix [] s = some s
strip_prefix (p ∷ ps) [] = none
strip_prefix (p ∷ ps) (c ∷ s) = if c == p then strip_prefix ps s else none

abbrev pub device_names : List (List ℕ)
device_names =
    chars "CON" ∷ chars "PRN" ∷ chars "AUX" ∷ chars "NUL" ∷ chars "CONIN$" ∷ chars "CONOUT$" ∷ []

abbrev pub port_digits : List (List ℕ)
port_digits =
    chars "1"
    ∷ chars "2"
    ∷ chars "3"
    ∷ chars "4"
    ∷ chars "5"
    ∷ chars "6"
    ∷ chars "7"
    ∷ chars "8"
    ∷ chars "9"
    ∷ chars "¹"
    ∷ chars "²"
    ∷ chars "³"
    ∷ []

unfoldable pub is_port_of : List ℕ → List (List ℕ) → Bool
is_port_of stem [] = false
is_port_of stem (n ∷ ns) =
    same_text stem (chars "COM" ++ n) || same_text stem (chars "LPT" ++ n) || is_port_of stem ns

unfoldable pub stem_of : List ℕ → List ℕ
stem_of name = uppercase (trim_end (split b'.' name).0)

unfoldable pub safe_component : List ℕ → Bool
safe_component name =
    not (
      is_empty name
      || ltb 255 (length (encode_str name))
      || same_text name (chars ".")
      || same_text name (chars "..")
      || ends_badly name
      || any_unsafe name)
    && not (has_text (stem_of name) device_names)
    && not (is_port_of (stem_of name) port_digits)

abbrev pub managed_names : List (List ℕ)
managed_names =
    chars "UPDATE.json"
    ∷ chars "README.txt"
    ∷ chars "LICENSE.txt"
    ∷ chars "LICENSE-AGPL-3.0.txt"
    ∷ chars "FFMPEG-LICENSE.txt"
    ∷ chars "FFMPEG-GPL-3.0.txt"
    ∷ chars "THIRD_PARTY.md"
    ∷ []

unfoldable pub managed_entry : List ℕ → Bool
managed_entry name =
    safe_component name
    && (same_text name (chars "source")
        || same_text name (chars "macvnc-app.exe")
        || ends_with name (chars ".dll")
        || has_text name managed_names)

-- `std::path::Component`: a name, or one of the others (a root, a prefix, `.`, `..`). A name that is no
-- text in UTF-8 does not come out of an archive's names, which are texts.
pub data Component : Type 0 where
  normal : List ℕ → Component
  other : Component

-- The names of a path whose components are all safe.
unfoldable pub safe_names : List Component → Result (List (List ℕ))
safe_names [] = ok []
safe_names (other ∷ parts) = err "unsafe package path"
safe_names (normal s ∷ parts) = do
  ensure (safe_component s) "unsafe package path"
  names ← safe_names parts
  ok (s ∷ names)

abbrev pub first_of : List (List ℕ) → List ℕ
first_of [] = []
first_of (s ∷ names) = s

-- `components` and `is_absolute` of a path are the standard library's; the result are the names.
unfoldable pub validate_relative :
    (List ℕ → List Component) → (List ℕ → Bool) → List ℕ → Result (List (List ℕ))
validate_relative components is_absolute path = do
  ensure (not (is_empty path) && not (is_absolute path)) "invalid package path"
  let parts = components path
  ensure (leb (length parts) 32) "package path nesting exceeds limit"
  names ← safe_names parts
  ensure
      (managed_entry (first_of names)
        && (length names == 1 || same_text (first_of names) (chars "source")))
      "unsupported package entry"
  ok names

-- `join("/")`
unfoldable pub join_names : List (List ℕ) → List ℕ
join_names [] = []
join_names (s ∷ []) = s
join_names (s ∷ t ∷ names) = s ++ (b'/' ∷ join_names (t ∷ names))

unfoldable pub lower_all : List (List ℕ) → List (List ℕ)
lower_all [] = []
lower_all (s ∷ names) = lowercase s ∷ lower_all names

unfoldable pub path_key : List (List ℕ) → List ℕ
path_key names = join_names (lower_all names)
