-- ===== src/Package/Confined.antt =====
-- updater/package.rs: whatever an archive holds, and however the extraction ends, what is made lies
-- below the destination.
use macvnc.Base.{
  ℕ, ◌+◌, ◌^◌, ◌≡◌, refl, subst, Bool, true, false, not, ◌&&◌, ◌||◌, List, [], ◌∷◌, ◌++◌, Result,
  ok, err, leb, ltb, ◌==◌, if◌then◌else◌, length, take, All, bind_ok, ensure_ok,
}
use macvnc.Base.Text.{chars}
use macvnc.Connection.Monad.{◌>>=◌, ◌>>◌, pure, ensure, Preserves, bind-Preserves, ensure-Preserves}
use macvnc.FileTransfer.{is_empty}
use macvnc.FileTransfer.Names.{has, same_text, has_text}
use macvnc.Package.{
  max_archive, max_expanded, strip_prefix, Component, safe_names, first_of, managed_entry,
  validate_relative, path_key,
}
use macvnc.Package.Contents.{
  content_at, required, has_all, has_dll, check_runtime, ffmpeg, has_prefixes, check_header,
}
use macvnc.Package.Paths.{IsPlain, safe_names-IsPlain}
use macvnc.Package.Extract.{
  sync_top, Entry, Made, directory, new_file, Disk, Extraction, Progress, trim_slashes, cancelled,
  cancelled_by, lift, make, complete, kind_allowed, file_kind, parent_of, copy, extract_file,
  extract_directory, relative_of, extract_below, extract_entry, extract_entries, extract_all,
  extract, no_progress, Tools,
}
use Prim.Native.String.{String}

-- A directory or a file below the destination: its path is made of plain names, and the first name of a
-- file's path is one that the package may have.
abbrev pub IsConfined : Made → Type 0
IsConfined (directory names) = All IsPlain names
IsConfined (new_file names) = All IsPlain names × (managed_entry (first_of names) ≡ true)

abbrev pub Confined : Disk → Type 0
Confined d = All IsConfined d.made

abbrev Keeps : {A : Type 0} → Extraction A → Type 0
Keeps m = Preserves Confined m

chain :
    {A B : Type 0} (m : Extraction A) (f : A → Extraction B)
    → Keeps m
    → ((a : A) → Keeps (f a))
    → Keeps (m >>= f)
chain m f hm hf = bind-Preserves Confined m f hm hf

ensure_chain :
    {B : Type 0} (holds : Bool) (message : String) (k : Extraction B)
    → Keeps k
    → Keeps (ensure holds message >> k)
ensure_chain holds message k h =
    chain (ensure holds message) (λ _. k) (ensure-Preserves Confined holds message) (λ _. h)

-- A result of other code, and the equation that it gives where the call goes on.
lift_chain :
    {A B : Type 0} (r : Result A) (f : A → Extraction B)
    → ((a : A) → r ≡ ok a → Keeps (f a))
    → Keeps (lift r >>= f)
lift_chain (ok a) f h = h a refl
lift_chain (err e) f h = λ d p. p

cancelled-Keeps : Keeps cancelled
unfolding cancelled
cancelled-Keeps d p = after d.cancels
  where
    after : (l : List Bool) → Confined (cancelled_by d l).1
    after [] = p
    after (true ∷ more) = p
    after (false ∷ more) = p

make-Keeps : (m : Made) → IsConfined m → Keeps (make m)
unfolding make
make-Keeps m h d p = (h, p)

complete-Keeps : (path : List (List ℕ)) (bytes : List ℕ) → Keeps (complete path bytes)
unfolding complete
complete-Keeps path bytes d p = p

parent_of-IsPlain : (names : List (List ℕ)) → All IsPlain names → All IsPlain (parent_of names)
unfolding parent_of
parent_of-IsPlain [] h = tt
parent_of-IsPlain (s ∷ []) h = tt
parent_of-IsPlain (s ∷ t ∷ names) h = (h.0, parent_of-IsPlain (t ∷ names) h.1)

-- A path that is accepted.
abbrev Accepted : List (List ℕ) → Type 0
Accepted names = All IsPlain names × (managed_entry (first_of names) ≡ true)

and_left : (a b : Bool) → (a && b) ≡ true → a ≡ true
and_left true b e = refl
and_left false b e = absurd (cc)

validate_relative-Accepted :
    (components : List ℕ → List Component) (is_absolute : List ℕ → Bool) (path : List ℕ)
    (names : List (List ℕ))
    → validate_relative components is_absolute path ≡ ok names
    → Accepted names
unfolding validate_relative
validate_relative-Accepted components is_absolute path names e =
    let (_, e₁) = ensure_ok (not (is_empty path) && not (is_absolute path)) _ _ e in
    let (_, e₂) = ensure_ok (leb (length (components path)) 32) _ _ e₁ in
    let (found, made, e₃) = bind_ok (safe_names (components path)) _ e₂ in
    let (allowed, e₄) =
      ensure_ok
        (managed_entry (first_of found)
          && (length found == 1 || same_text (first_of found) (chars "source")))
        _ _ e₃ in
    same_ok found e₄ (safe_names-IsPlain (components path) found made, and_left _ _ allowed)
  where
    same_ok : (found : List (List ℕ)) → ok found ≡ ok names → Accepted found → Accepted names
    same_ok found f h = let same : found ≡ names = cc in subst Accepted same h

module _ (tools : Tools) where
  copy-Keeps :
      (size : ℕ) (path : List (List ℕ)) (copied : List ℕ) (reads : List (Result (List ℕ)))
      → Keeps (copy tools size path copied reads)
  unfolding copy
  copy-Keeps size path copied [] = chain cancelled _ cancelled-Keeps λ _ d p. p
  copy-Keeps size path copied (err e ∷ reads) = chain cancelled _ cancelled-Keeps λ _ d p. p
  copy-Keeps size path copied (ok [] ∷ reads) = chain cancelled _ cancelled-Keeps λ _ d p. p
  copy-Keeps size path copied (ok (b ∷ bytes) ∷ reads) = chain cancelled _ cancelled-Keeps λ _.
      ensure_chain (leb (length (copied ++ (b ∷ bytes))) size) _ _ (
        lift_chain (tools.write path (b ∷ bytes)) _
          λ _ _. copy-Keeps size path (copied ++ (b ∷ bytes)) reads)

  extract_file-Keeps :
      (entry : Entry) (path : List (List ℕ)) (p : Progress)
      → Accepted path
      → Keeps (extract_file tools entry path p)
  unfolding extract_file
  extract_file-Keeps entry path p h = ensure_chain (ltb (p.total + entry.size) (2 ^ 64)) _ _ (
      ensure_chain (leb entry.size max_archive && leb (p.total + entry.size) max_expanded) _ _ (
        lift_chain (tools.create_dir (parent_of path)) _ λ _ _.
          chain (make (directory (parent_of path))) _
            (make-Keeps (directory (parent_of path)) (parent_of-IsPlain path h.0))
            λ _. lift_chain (tools.create_new path) _ λ _ _.
              chain (make (new_file path)) _ (make-Keeps (new_file path) h) λ _.
                chain (copy tools entry.size path [] entry.reads) _
                  (copy-Keeps entry.size path [] entry.reads)
                  λ bytes. ensure_chain (length bytes == entry.size) _ _ (
                    lift_chain (sync_top tools path) _
                      λ _ _. chain (complete path bytes) _ (complete-Keeps path bytes) λ _ d c. c)))

  extract_directory-Keeps :
      (path : List (List ℕ)) (p : Progress) → Accepted path → Keeps (extract_directory tools path p)
  unfolding extract_directory
  extract_directory-Keeps path p h =
      lift_chain (tools.create_dir path) _
        λ _ _. chain (make (directory path)) _ (make-Keeps (directory path) h.0) λ _ d c. c

  extract_below-Keeps : (entry : Entry) (p : Progress) → Keeps (extract_below tools entry p)
  unfolding extract_below
  extract_below-Keeps entry p =
      lift_chain (relative_of tools (strip_prefix (chars "macvnc-rust/") (trim_slashes entry.name)))
        _
        λ relative _. ensure_chain (not (has b'\\' relative)) _ _ (
          lift_chain (validate_relative tools.components tools.is_absolute relative) _ λ path e.
            let h = validate_relative-Accepted tools.components tools.is_absolute relative path e in
            ensure_chain (not (has_text (path_key path) p.seen)) _ _ (
              ensure_chain (kind_allowed entry.is_dir (file_kind entry.unix_mode)) _ _
                (either path entry.is_dir (record p { seen = path_key path ∷ p.seen }) h)))
    where
      either :
          (path : List (List ℕ)) (b : Bool) (q : Progress)
          → Accepted path
          → Keeps ((if b then extract_directory tools path else extract_file tools entry path) q)
      either path true q h = extract_directory-Keeps path q h
      either path false q h = extract_file-Keeps entry path q h

  extract_entries-Keeps :
      (entries : List (Result Entry)) (p : Progress) → Keeps (extract_entries tools entries p)
  unfolding extract_entries extract_entry
  extract_entries-Keeps [] p = λ d c. c
  extract_entries-Keeps (r ∷ entries) p = chain cancelled _ cancelled-Keeps λ _.
      lift_chain r _ λ entry _.
        chain (extract_entry tools entry p) _
          (either entry (same_text (trim_slashes entry.name) (chars "macvnc-rust") && entry.is_dir))
          λ q. extract_entries-Keeps entries q
    where
      either :
          (entry : Entry) (b : Bool) → Keeps (if b then pure p else extract_below tools entry p)
      either entry true = λ d c. c
      either entry false = extract_below-Keeps entry p

  extract_all-Keeps :
      (size : ℕ) (entries : List (Result Entry)) → Keeps (extract_all tools size entries)
  unfolding extract_all
  extract_all-Keeps size entries = ensure_chain (leb size max_archive) _ _ (
      ensure_chain (leb (length entries) 100000) _ _ (
        lift_chain (tools.create_dir []) _ λ _ _.
          chain (make (directory [])) _ (make-Keeps (directory []) tt)
            λ _. extract_entries-Keeps entries no_progress))

  -- Whatever the archive holds and wherever the extraction stops, with an error or without one, all
  -- that it makes lies below the destination: the names of the paths are neither empty nor `.` nor
  -- `..` and hold no separator and no other reserved character, and each file's first name is one
  -- that a package may have.
  pub extract-Confined :
      (size : ℕ) (entries : List (Result Entry)) (version : List ℕ) (d : Disk)
      → Confined d
      → Confined (extract tools size entries version d).1
  unfolding extract
  extract-Confined size entries version =
      chain (extract_all tools size entries) _ (extract_all-Keeps size entries) λ p.
        ensure_chain (has_all required p.files) _ _ (
          ensure_chain (has_dll p.files) _ _ (
            chain (λ d. lift (content_at (chars "UPDATE.json" ∷ []) d.contents) d) _ (λ d c. c)
              λ update. lift_chain (tools.read_identity (take 4097 update)) _ λ identity _.
                ensure_chain
                  (identity.schema == 1
                    && (same_text identity.version version
                        && same_text identity.target (chars "windows-x64")))
                  _ _
                  (ensure_chain (leb (length identity.runtime) 128) _ _ (
                    lift_chain (check_runtime identity.runtime [] p.files) _ λ _ _.
                      ensure_chain (has_prefixes ffmpeg identity.runtime) _ _ (
                        chain (λ d. lift (content_at (chars "macvnc-app.exe" ∷ []) d.contents) d) _
                          (λ d c. c)
                          λ exe. lift_chain (check_header (take 4096 exe)) _ λ _ _ d c. c)))))
