-- ===== src/Package/Tests.antt =====
-- updater/package.rs: a small package, and archives that are refused.
use macvnc.Base.{
  ℕ, ◌≡◌, ◌≤◌, refl, false, List, [], ◌∷◌, ◌++◌, none, Result, ok, err, length, replicate, All,
  if◌then◌else◌,
}
use macvnc.Base.Text.{chars}
use macvnc.Base.Utf8.{encode_str, encode_char}
use macvnc.FileTransfer.{is_empty}
use macvnc.FileTransfer.Names.{has, same_text, has_text, split, uppercase, any_unsafe, ends_badly}
use macvnc.Package.{
  max_archive, max_expanded, trim_end, lowercase, ends_with, strip_prefix, is_port_of, stem_of,
  safe_component, managed_entry, Component, normal, other, safe_names, validate_relative,
  join_names, lower_all, path_key,
}
use macvnc.Package.Contents.{
  FileEntry, same_path, has_file, content_at, has_all, has_dll, check_runtime, any_starts,
  has_prefixes, check_header,
}
use macvnc.Package.Extract.{
  Entry, Disk, directory, Tools, trim_slashes, cancelled, make, complete, parent_of, copy,
  extract_file, extract_below, extract_entry, extract_entries, extract_all, extract,
}
use macvnc.Package.Confined.{Confined, extract-Confined}
use macvnc.Package.Bounded.{Distinct, keys, sizes, extract-bounds}

-- The components of the paths below: no path here has a root, a prefix, or `.`.
abbrev component : List ℕ → Component
component s = if same_text s (chars "..") then other else normal s

abbrev component_list : List (List ℕ) → List Component
component_list [] = []
component_list (s ∷ parts) = component s ∷ component_list parts

abbrev tools : Tools
tools = record {
  components = λ path. component_list ((split b'/' path).0 ∷ (split b'/' path).1);
  is_absolute = λ path. false;
  sha256 = λ bytes. [];
  create_dir = λ path. ok tt;
  create_new = λ path. ok tt;
  write = λ path bytes. ok tt;
  sync = λ path. ok tt;
  read_identity = λ bytes. ok (record {
    schema = 1;
    version = chars "1";
    target = chars "windows-x64";
    runtime =
        chars "avcodec-1.dll"
        ∷ chars "avutil-1.dll"
        ∷ chars "swresample-1.dll"
        ∷ chars "swscale-1.dll"
        ∷ [];
  });
}

abbrev a_file : List ℕ → List ℕ → Result Entry
a_file name bytes = ok (record {
  name = chars "macvnc-rust/" ++ name;
  is_dir = false;
  unix_mode = none;
  size = length bytes;
  reads = ok bytes ∷ [];
})

abbrev no_disk : Disk
no_disk = record { made = []; contents = []; cancels = [] }

-- A path that leaves the destination.
climbing :
    extract tools 10 (a_file (chars "source/../x") (1 ∷ 2 ∷ []) ∷ []) (chars "1") no_disk
    ≡ (err "unsafe package path", record no_disk { made = directory [] ∷ [] })
unfolding extract extract_all extract_entries extract_entry extract_below make cancelled
    trim_slashes strip_prefix has same_text validate_relative safe_names safe_component stem_of
    is_port_of uppercase trim_end split has_text any_unsafe ends_badly is_empty chars encode_str
    encode_char
climbing = refl

extract-Confined_example :
    Confined (extract tools 10 (a_file (chars "a.dll") (1 ∷ 2 ∷ []) ∷ []) (chars "1") no_disk).1
extract-Confined_example =
    extract-Confined tools 10 (a_file (chars "a.dll") (1 ∷ 2 ∷ []) ∷ []) (chars "1") no_disk tt

abbrev exe : List ℕ
exe = (b'M' ∷ b'Z' ∷ replicate 58 0) ++ (64 ∷ 0 ∷ 0 ∷ 0 ∷ b'P' ∷ b'E' ∷ 0 ∷ 0 ∷ 0x64 ∷ 0x86 ∷ [])

abbrev small_files : List (List ℕ) → List (Result Entry)
small_files [] = []
small_files (name ∷ names) = a_file name (7 ∷ []) ∷ small_files names

abbrev archive : List (Result Entry)
archive =
    a_file (chars "macvnc-app.exe") exe
    ∷ small_files (
        chars "UPDATE.json"
        ∷ chars "LICENSE-AGPL-3.0.txt"
        ∷ chars "LICENSE.txt"
        ∷ chars "FFMPEG-LICENSE.txt"
        ∷ chars "THIRD_PARTY.md"
        ∷ chars "source/Cargo.toml"
        ∷ chars "avcodec-1.dll"
        ∷ chars "avutil-1.dll"
        ∷ chars "swresample-1.dll"
        ∷ chars "swscale-1.dll"
        ∷ [])

abbrev a_file_of : List (List ℕ) → FileEntry
a_file_of path = record { path = path; sha256 = []; size = 1 }

abbrev extracted_files : List FileEntry
extracted_files =
    record { path = chars "macvnc-app.exe" ∷ []; sha256 = []; size = 70 }
    ∷ a_file_of (chars "UPDATE.json" ∷ [])
    ∷ a_file_of (chars "LICENSE-AGPL-3.0.txt" ∷ [])
    ∷ a_file_of (chars "LICENSE.txt" ∷ [])
    ∷ a_file_of (chars "FFMPEG-LICENSE.txt" ∷ [])
    ∷ a_file_of (chars "THIRD_PARTY.md" ∷ [])
    ∷ a_file_of (chars "source" ∷ chars "Cargo.toml" ∷ [])
    ∷ a_file_of (chars "avcodec-1.dll" ∷ [])
    ∷ a_file_of (chars "avutil-1.dll" ∷ [])
    ∷ a_file_of (chars "swresample-1.dll" ∷ [])
    ∷ a_file_of (chars "swscale-1.dll" ∷ [])
    ∷ []

abbrev after_archive : Disk
after_archive = (extract tools 1000 archive (chars "1") no_disk).1

archive_extracted :
    extract tools 1000 archive (chars "1") no_disk ≡ (ok extracted_files, after_archive)
unfolding extract extract_all extract_entries extract_entry extract_below extract_file copy complete
    make parent_of cancelled trim_slashes strip_prefix has same_text validate_relative safe_names
    safe_component managed_entry ends_with stem_of is_port_of uppercase trim_end split has_text
    any_unsafe ends_badly is_empty chars encode_str encode_char path_key join_names lower_all
    lowercase same_path has_file content_at has_all has_dll check_runtime any_starts has_prefixes
    check_header
archive_extracted = refl

extract-bounds_example :
    Distinct (keys extracted_files)
    × All (λ f. f.size ≤ max_archive) extracted_files
    × (sizes extracted_files ≤ max_expanded)
extract-bounds_example =
    extract-bounds tools 1000 archive (chars "1") no_disk after_archive extracted_files
      archive_extracted
