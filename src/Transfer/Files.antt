-- ===== src/Transfer/Files.antt =====
-- transfer.rs: the checks of the local paths, over the file system.
use macvnc.Base.{
  ◌≡◌, ℕ, Bool, true, false, not, List, Option, none, some, Result, ok, err, ensure, ◌>>=◌, ◌>>◌,
}
use macvnc.FileTransfer.Names.{validate_name}
use Prim.Native.String.{String}

-- What the metadata of an entry say.
pub record Metadata : Type 0 where
  pub is_file : Bool
  pub len : ℕ
  pub modified : Option ℕ
  pub is_reparse_point : Bool

-- How `symlink_metadata` ends.
pub data Lookup : Type 0 where
  found : Metadata → Lookup
  not_found : Lookup
  failed : Lookup

-- `std::fs` and `std::path`, on paths as lists of characters. `read path offset limit` is the read of
-- the open file that stands at `offset`, into a buffer of `limit` bytes; `file_metadata` are the
-- metadata of the open file before its first byte is read, and `metadata_after` when the last byte is
-- read.
pub record FileSystem : Type 0 where
  pub is_absolute : List ℕ → Bool
  pub file_name : List ℕ → Option (List ℕ)
  pub parent : List ℕ → Option (List ℕ)
  pub join : List ℕ → List ℕ → List ℕ
  pub symlink_metadata : List ℕ → Lookup
  pub open_file : List ℕ → Result Metadata
  pub read : List ℕ → ℕ → ℕ → Result (List ℕ)
  pub file_metadata : List ℕ → Result Metadata
  pub metadata_after : List ℕ → Result Metadata
  pub canonicalize : List ℕ → Result (List ℕ)
  pub is_dir : List ℕ → Bool
  pub new_temporary : List ℕ → Result (Unit {0})
  pub write_all : List ℕ → List ℕ → Result (Unit {0})
  pub sync : List ℕ → Result (Unit {0})
  pub persist_noclobber : List ℕ → List ℕ → Bool

-- `context`
abbrev pub context {ℓ} : {A : Type ℓ} → String → Option A → Result A
context message none = err message
context message (some a) = ok a

module _ (fs : FileSystem) where
  abbrev pub inspected : Lookup → Result Metadata
  inspected (found m) = ok m
  inspected not_found = err "cannot inspect local file"
  inspected failed = err "cannot inspect local file"

  abbrev pub is_free : Lookup → Bool
  is_free (found m) = false
  is_free not_found = true
  is_free failed = false

  unfoldable pub open_regular : List ℕ → Result Metadata
  open_regular path = do
    ensure (fs.is_absolute path) "enter an absolute local file path"
    before ← inspected (fs.symlink_metadata path)
    ensure before.is_file "select a regular file, not a folder or link"
    metadata ← fs.open_file path
    ensure metadata.is_file "source is not a regular file"
    ensure (not metadata.is_reparse_point) "reparse points are unsupported"
    ok metadata

  -- The directory, and the path of the file in it.
  unfoldable pub download_destination : List ℕ → Result (List ℕ × List ℕ)
  download_destination path = do
    ensure (fs.is_absolute path) "enter an absolute local destination path"
    name ← context "invalid destination file name" (fs.file_name path)
    validate_name name
    directory ← context "missing destination folder" (fs.parent path)
    parent ← fs.canonicalize directory
    ensure (fs.is_dir parent) "destination parent is not a folder"
    let destination = fs.join parent name
    ensure (is_free (fs.symlink_metadata destination)) "destination already exists"
    ok (parent, destination)

pub context_ok {ℓ} :
    {A : Type ℓ} (message : String) (o : Option A) {a : A} → context message o ≡ ok a → o ≡ some a
context_ok message none e = absurd (cc)
context_ok message (some a) e = cc
