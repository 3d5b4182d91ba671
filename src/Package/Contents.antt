-- ===== src/Package/Contents.antt =====
-- updater/package.rs: what an extracted package must hold.
use macvnc.Base.{
  ℕ, ◌+◌, ◌-◌, ◌*◌, ◌^◌, Bool, true, false, not, ◌&&◌, ◌||◌, List, [], ◌∷◌, Option, none, some,
  Result, ok, err, leb, if◌then◌else◌, length, take, drop, get_or,
}
use macvnc.Base.Text.{chars}
use macvnc.FileTransfer.Names.{same_text, has_text}
use macvnc.Package.{ends_with, strip_prefix, lowercase, safe_component}

-- `FileEntry`; a path is the list of its names.
pub record FileEntry : Type 0 where
  pub path : List (List ℕ)
  pub sha256 : List ℕ
  pub size : ℕ

pub record PackageIdentity : Type 0 where
  pub schema : ℕ
  pub version : List ℕ
  pub target : List ℕ
  pub runtime : List (List ℕ)

unfoldable pub same_path : List (List ℕ) → List (List ℕ) → Bool
same_path [] [] = true
same_path [] (t ∷ q) = false
same_path (s ∷ p) [] = false
same_path (s ∷ p) (t ∷ q) = same_text s t && same_path p q

unfoldable pub has_file : List (List ℕ) → List FileEntry → Bool
has_file path [] = false
has_file path (f ∷ files) = same_path f.path path || has_file path files

-- The content of a file that is complete.
unfoldable pub content_at : List (List ℕ) → List (List (List ℕ) × List ℕ) → Result (List ℕ)
content_at path [] = err "file not found"
content_at path ((p, bytes) ∷ contents) =
    if same_path p path then ok bytes else content_at path contents

abbrev pub required : List (List (List ℕ))
required =
    (chars "macvnc-app.exe" ∷ [])
    ∷ (chars "UPDATE.json" ∷ [])
    ∷ (chars "LICENSE-AGPL-3.0.txt" ∷ [])
    ∷ (chars "LICENSE.txt" ∷ [])
    ∷ (chars "FFMPEG-LICENSE.txt" ∷ [])
    ∷ (chars "THIRD_PARTY.md" ∷ [])
    ∷ (chars "source" ∷ chars "Cargo.toml" ∷ [])
    ∷ []

unfoldable pub has_all : List (List (List ℕ)) → List FileEntry → Bool
has_all [] files = true
has_all (path ∷ paths) files = has_file path files && has_all paths files

abbrev pub last_of : List (List ℕ) → List ℕ
last_of [] = []
last_of (s ∷ []) = s
last_of (s ∷ t ∷ names) = last_of (t ∷ names)

-- The extension is what follows the last dot, which is not the first character.
unfoldable pub has_dll : List FileEntry → Bool
has_dll [] = false
has_dll (f ∷ files) =
    (ends_with (last_of f.path) (chars ".dll") && not (same_text (last_of f.path) (chars ".dll")))
    || has_dll files

-- The loop over the runtime inventory.
unfoldable pub check_runtime : List (List ℕ) → List (List ℕ) → List FileEntry → Result (Unit {0})
check_runtime [] runtime files = ok tt
check_runtime (name ∷ names) runtime files =
    if not (
      safe_component name
      && (ends_with name (chars ".dll") && not (has_text (lowercase name) runtime)))
    then err "invalid runtime inventory"
    else if not (has_file (name ∷ []) files)
    then err "package is missing a declared runtime DLL"
    else check_runtime names (lowercase name ∷ runtime) files

abbrev pub ffmpeg : List (List ℕ)
ffmpeg = chars "avcodec-" ∷ chars "avutil-" ∷ chars "swresample-" ∷ chars "swscale-" ∷ []

abbrev pub is_found : Option (List ℕ) → Bool
is_found none = false
is_found (some s) = true

unfoldable pub any_starts : List ℕ → List (List ℕ) → Bool
any_starts prefix [] = false
any_starts prefix (name ∷ names) = is_found (strip_prefix prefix name) || any_starts prefix names

unfoldable pub has_prefixes : List (List ℕ) → List (List ℕ) → Bool
has_prefixes [] names = true
has_prefixes (prefix ∷ prefixes) names = any_starts prefix names && has_prefixes prefixes names

-- `u32::from_le_bytes`
abbrev pub u32_le_at : List ℕ → ℕ → ℕ
u32_le_at b i =
    get_or b i 0
    + get_or b (i + 1) 0 * 2 ^ 8
    + get_or b (i + 2) 0 * 2 ^ 16
    + get_or b (i + 3) 0 * 2 ^ 24

unfoldable pub check_header : List ℕ → Result (Unit {0})
check_header header =
    if not (is_found (strip_prefix (chars "MZ") header) && leb 64 (length header))
    then err "invalid Windows executable"
    else if not (
        leb (u32_le_at header 60) (length header - 6)
        && same_text (take 6 (drop (u32_le_at header 60) header))
            (b'P' ∷ b'E' ∷ 0 ∷ 0 ∷ 0x64 ∷ 0x86 ∷ []))
    then err "package executable is not Windows x64"
    else ok tt
