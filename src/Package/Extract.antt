-- ===== src/Package/Extract.antt =====
-- updater/package.rs: the extraction of a package. The archive's reader, the hash, and the disk are
-- parameters; what the user interface answers to `cancelled` stands in a script.
use macvnc.Base.{
  ℕ, ◌+◌, ◌*◌, ◌/◌, ◌%◌, ◌^◌, Bool, true, false, not, ◌&&◌, ◌||◌, List, [], ◌∷◌, ◌++◌, Option, none,
  some, Result, ok, err, ltb, leb, ◌==◌, if◌then◌else◌, length, take,
}
use macvnc.Base.Text.{chars}
use macvnc.Connection.Monad.{Action, ◌>>=◌, ◌>>◌, pure, raise, ensure}
use macvnc.FileTransfer.{is_empty}
use macvnc.FileTransfer.Names.{has, same_text, has_text}
use macvnc.Package.Contents.{
  FileEntry, PackageIdentity, content_at, required, has_all, has_dll, check_runtime, ffmpeg,
  has_prefixes, check_header,
}
use macvnc.Package.{max_archive, max_expanded, strip_prefix, Component, validate_relative, path_key}

-- An entry of the archive; `reads` are the results of its reads in turn, of which an empty one is the end.
pub record Entry : Type 0 where
  pub name : List ℕ
  pub is_dir : Bool
  pub unix_mode : Option ℕ
  pub size : ℕ
  pub reads : List (Result (List ℕ))

-- What is made on the disk, below the destination.
pub data Made : Type 0 where
  directory : List (List ℕ) → Made
  new_file : List (List ℕ) → Made

-- What is made so far, newest first, the content of the files that are complete, and what `cancelled`
-- answers in turn, where no answer means that nothing is cancelled.
pub record Disk : Type 0 where
  pub made : List Made
  pub contents : List (List (List ℕ) × List ℕ)
  pub cancels : List Bool

abbrev pub Extraction : Type 0 → Type 0
Extraction A = Action Disk A

-- `total`, `seen` and `files`.
pub record Progress : Type 0 where
  pub total : ℕ
  pub seen : List (List ℕ)
  pub files : List FileEntry

-- `trim_end_matches('/')`
unfoldable pub trim_slashes : List ℕ → List ℕ
trim_slashes [] = []
trim_slashes (c ∷ s) =
    let rest = trim_slashes s in if is_empty rest && c == b'/' then [] else c ∷ rest

abbrev pub cancelled_by : Disk → List Bool → Result (Unit {0}) × Disk
cancelled_by d [] = (ok tt, d)
cancelled_by d (true ∷ more) = (err "update cancelled", record d { cancels = more })
cancelled_by d (false ∷ more) = (ok tt, record d { cancels = more })

unfoldable pub cancelled : Extraction (Unit {0})
cancelled d = cancelled_by d d.cancels

abbrev pub lift : {A : Type 0} → Result A → Extraction A
lift r d = (r, d)

unfoldable pub make : Made → Extraction (Unit {0})
make m d = (ok tt, record d { made = m ∷ d.made })

unfoldable pub complete : List (List ℕ) → List ℕ → Extraction (Unit {0})
complete path bytes d = (ok tt, record d { contents = (path, bytes) ∷ d.contents })

abbrev pub kind_allowed : Bool → ℕ → Bool
kind_allowed is_dir kind =
    kind == 0 || (is_dir && kind == 0o040000) || (not is_dir && kind == 0o100000)

-- `mode & 0o170000`
abbrev pub file_kind : Option ℕ → ℕ
file_kind none = 0
file_kind (some mode) = mode / 2 ^ 12 % 2 ^ 4 * 2 ^ 12

unfoldable pub parent_of : List (List ℕ) → List (List ℕ)
parent_of [] = []
parent_of (s ∷ []) = []
parent_of (s ∷ t ∷ names) = s ∷ parent_of (t ∷ names)

-- What the extraction uses: the components of a path and whether it is absolute, the hash as text, the
-- calls on the disk, each with the path below the destination, and the reader of UPDATE.json.
pub record Tools : Type 0 where
  pub components : List ℕ → List Component
  pub is_absolute : List ℕ → Bool
  pub sha256 : List ℕ → List ℕ
  pub create_dir : List (List ℕ) → Result (Unit {0})
  pub create_new : List (List ℕ) → Result (Unit {0})
  pub write : List (List ℕ) → List ℕ → Result (Unit {0})
  pub sync : List (List ℕ) → Result (Unit {0})
  pub read_identity : List ℕ → Result PackageIdentity

abbrev pub no_progress : Progress
no_progress = record { total = 0; seen = []; files = [] }

module _ (tools : Tools) where
  -- The loop that copies an entry: the bytes copied so far, and the reads left. It ends where a read is
  -- empty, and a script of reads that is at its end counts as one.
  unfoldable pub copy : ℕ → List (List ℕ) → List ℕ → List (Result (List ℕ)) → Extraction (List ℕ)
  copy size path copied [] = do cancelled; pure copied
  copy size path copied (err e ∷ reads) = do cancelled; raise e
  copy size path copied (ok [] ∷ reads) = do cancelled; pure copied
  copy size path copied (ok (b ∷ bytes) ∷ reads) = do
    cancelled
    ensure (leb (length (copied ++ (b ∷ bytes))) size) "archive entry exceeds declared size"
    lift (tools.write path (b ∷ bytes))
    copy size path (copied ++ (b ∷ bytes)) reads

  abbrev pub file_entry : List (List ℕ) → List ℕ → FileEntry
  file_entry path bytes = record { path = path; sha256 = tools.sha256 bytes; size = length bytes }

  abbrev pub sync_top : List (List ℕ) → Result (Unit {0})
  sync_top path = if length path == 1 then tools.sync path else ok tt

  -- A file: the sizes, the directories above it, the new file, its bytes, and the entry.
  unfoldable pub extract_file : Entry → List (List ℕ) → Progress → Extraction Progress
  extract_file entry path p = do
    ensure (ltb (p.total + entry.size) (2 ^ 64)) "package size overflow"
    ensure (leb entry.size max_archive && leb (p.total + entry.size) max_expanded)
        "expanded package exceeds size limit"
    lift (tools.create_dir (parent_of path))
    make (directory (parent_of path))
    lift (tools.create_new path)
    make (new_file path)
    bytes ← copy entry.size path [] entry.reads
    ensure (length bytes == entry.size) "truncated package entry"
    lift (sync_top path)
    complete path bytes
    pure
        (record p { total = p.total + entry.size; files = p.files ++ (file_entry path bytes ∷ []) })

  unfoldable pub extract_directory : List (List ℕ) → Progress → Extraction Progress
  extract_directory path p = do lift (tools.create_dir path); make (directory path); pure p

  abbrev pub relative_of : Option (List ℕ) → Result (List ℕ)
  relative_of none = err "unexpected package root"
  relative_of (some s) = ok s

  -- An entry below the root of the package.
  unfoldable pub extract_below : Entry → Progress → Extraction Progress
  extract_below entry p = do
    relative ← lift (relative_of (strip_prefix (chars "macvnc-rust/") (trim_slashes entry.name)))
    ensure (not (has b'\\' relative)) "unsafe archive path"
    path ← lift (validate_relative tools.components tools.is_absolute relative)
    ensure (not (has_text (path_key path) p.seen)) "duplicate package path"
    ensure (kind_allowed entry.is_dir (file_kind entry.unix_mode))
        "links and special files are unsupported"
    (if entry.is_dir then extract_directory path else extract_file entry path)
        (record p { seen = path_key path ∷ p.seen })

  unfoldable pub extract_entry : Entry → Progress → Extraction Progress
  extract_entry entry p =
      if same_text (trim_slashes entry.name) (chars "macvnc-rust") && entry.is_dir
      then pure p
      else extract_below entry p

  unfoldable pub extract_entries : List (Result Entry) → Progress → Extraction Progress
  extract_entries [] p = pure p
  extract_entries (r ∷ entries) p = do
    cancelled
    entry ← lift r
    q ← extract_entry entry p
    extract_entries entries q

  -- The files of the package, before the checks of what it holds.
  unfoldable pub extract_all : ℕ → List (Result Entry) → Extraction Progress
  extract_all archive_size entries = do
    ensure (leb archive_size max_archive) "archive exceeds size limit"
    ensure (leb (length entries) 100000) "package has too many entries"
    lift (tools.create_dir [])
    make (directory [])
    extract_entries entries no_progress

  unfoldable pub extract : ℕ → List (Result Entry) → List ℕ → Extraction (List FileEntry)
  extract archive_size entries version = do
    p ← extract_all archive_size entries
    ensure (has_all required p.files) "package is missing required files"
    ensure (has_dll p.files) "package has no runtime DLLs"
    update ← λ d. lift (content_at (chars "UPDATE.json" ∷ []) d.contents) d
    identity ← lift (tools.read_identity (take 4097 update))
    ensure
        (identity.schema == 1
          && (same_text identity.version version
              && same_text identity.target (chars "windows-x64")))
        "package version or platform does not match the release"
    ensure (leb (length identity.runtime) 128) "runtime inventory exceeds limit"
    lift (check_runtime identity.runtime [] p.files)
    ensure (has_prefixes ffmpeg identity.runtime)
        "package is missing a required FFmpeg runtime library"
    exe ← λ d. lift (content_at (chars "macvnc-app.exe" ∷ []) d.contents) d
    lift (check_header (take 4096 exe))
    pure p.files
