-- ===== src/Package/Bounded.antt =====
-- updater/package.rs: the sizes and the paths of the files of a package that is extracted.
use macvnc.Base.{
  ℕ, ◌+◌, ◌≤◌, ◌^◌, ◌≡◌, ◌≢◌, refl, sym, ap, subst, ◌∙◌, Bool, true, false, not, ◌&&◌, List, [],
  ◌∷◌, ◌++◌, Result, ok, arith, leb, ltb, ◌==◌, if◌then◌else◌, length, take, All, All-append,
}
use macvnc.Base.Text.{chars}
use macvnc.Connection.Monad.{pure, bind-ok, ensure-ok, pure-ok}
use macvnc.FileTransfer.Names.{has, same_text, has_text}
use macvnc.FileTransfer.Names.Sizes.{same_text_self}
use macvnc.Package.{max_archive, max_expanded, strip_prefix, validate_relative, path_key}
use macvnc.Package.Contents.{
  FileEntry, content_at, required, has_all, has_dll, check_runtime, ffmpeg, has_prefixes,
  check_header,
}
use macvnc.Package.Extract.{
  sync_top, Entry, directory, new_file, Disk, Progress, Tools, trim_slashes, cancelled, lift, make,
  complete, kind_allowed, file_kind, parent_of, copy, file_entry, extract_file, extract_directory,
  relative_of, extract_below, extract_entry, extract_entries, extract_all, extract, no_progress,
}

unfoldable pub sizes : List FileEntry → ℕ
sizes [] = 0
sizes (f ∷ files) = f.size + sizes files

unfoldable pub keys : List FileEntry → List (List ℕ)
keys [] = []
keys (f ∷ files) = path_key f.path ∷ keys files

abbrev pub Distinct : List (List ℕ) → Type 0
Distinct [] = Unit {0}
Distinct (k ∷ ks) = All (λ x. x ≢ k) ks × Distinct ks

abbrev IsSeen : List (List ℕ) → List ℕ → Type 0
IsSeen seen k = has_text k seen ≡ true

record IsProgress (p : Progress) : Type 0 where
  counted : sizes p.files ≡ p.total
  bounded : p.total ≤ max_expanded
  small : All (λ f. f.size ≤ max_archive) p.files
  known : All (IsSeen p.seen) (keys p.files)
  distinct : Distinct (keys p.files)

sizes-append :
    (files : List FileEntry) (f : FileEntry) → sizes (files ++ (f ∷ [])) ≡ sizes files + f.size
unfolding sizes
sizes-append [] f = omega arith
sizes-append (g ∷ files) f = omega (arith, sizes-append files f)

keys-append :
    (files : List FileEntry) (f : FileEntry)
    → keys (files ++ (f ∷ [])) ≡ keys files ++ (path_key f.path ∷ [])
unfolding keys
keys-append [] f = refl
keys-append (g ∷ files) f = ap (λ l. path_key g.path ∷ l) (keys-append files f)

All_map :
    {A : Type 0} {P Q : A → Type 0} (xs : List A) → ((x : A) → P x → Q x) → All P xs → All Q xs
All_map [] f h = tt
All_map (x ∷ xs) f h = (f x h.0, All_map xs f h.1)

Distinct-append :
    (k : List ℕ) (ks : List (List ℕ))
    → All (λ x. x ≢ k) ks
    → Distinct ks
    → Distinct (ks ++ (k ∷ []))
Distinct-append k [] h d = (tt, tt)
Distinct-append k (x ∷ ks) h d =
    (All-append (λ y. y ≢ x) ks (k ∷ []) d.0 ((λ e. h.0 (sym e)), tt), Distinct-append k ks h.1 d.1)

-- A further key is seen, and the others stay so.
IsSeen-more : (k x : List ℕ) (seen : List (List ℕ)) → IsSeen seen x → IsSeen (k ∷ seen) x
unfolding has_text
IsSeen-more k x seen h = ground (arith, h)

==→≡ : (a b : ℕ) → (a == b) ≡ true → a ≡ b
==→≡ a b h = ground (arith, h)

both_le : (a b c d : ℕ) → (leb a c && leb b d) ≡ true → (a ≤ c) × (b ≤ d)
both_le a b c d h = ground (arith, h)

module _ (tools : Tools) where
  extract_file-IsProgress :
      (entry : Entry) (path : List (List ℕ)) (p q : Progress) (d e : Disk)
      → IsProgress p
      → All (λ x. x ≢ path_key path) (keys p.files)
      → IsSeen p.seen (path_key path)
      → extract_file tools entry path p d ≡ (ok q, e)
      → IsProgress q
  unfolding extract_file
  extract_file-IsProgress entry path p q d e v fresh seen h =
      let (_, h₁) = ensure-ok (ltb (p.total + entry.size) (2 ^ 64)) _ _ h in
      let (limits, h₂) =
        ensure-ok (leb entry.size max_archive && leb (p.total + entry.size) max_expanded) _ _ h₁ in
      let (_, d₃, _, h₃) = bind-ok (lift (tools.create_dir (parent_of path))) _ h₂ in
      let (_, d₄, _, h₄) = bind-ok (make (directory (parent_of path))) _ h₃ in
      let (_, d₅, _, h₅) = bind-ok (lift (tools.create_new path)) _ h₄ in
      let (_, d₆, _, h₆) = bind-ok (make (new_file path)) _ h₅ in
      let (bytes, d₇, _, h₇) = bind-ok (copy tools entry.size path [] entry.reads) _ h₆ in
      let (all, h₈) = ensure-ok (length bytes == entry.size) _ _ h₇ in
      let (_, d₉, _, h₉) = bind-ok (lift (sync_top tools path)) _ h₈ in
      let (_, d₀, _, h₀) = bind-ok (complete path bytes) _ h₉ in
      let (made, _) = pure-ok h₀ in
      let (one, together) =
        both_le entry.size (p.total + entry.size) max_archive max_expanded limits in
      let f = file_entry tools path bytes in
      let size : length bytes ≡ entry.size = ==→≡ _ _ all in
      subst IsProgress (sym made) (record {
        counted = sizes-append p.files f ∙ omega (arith, v.counted, size);
        bounded = together;
        small =
            All-append _ p.files (f ∷ []) v.small (subst (λ n. n ≤ max_archive) (sym size) one, tt);
        known =
            subst (All (IsSeen p.seen)) (sym (keys-append p.files f))
              (All-append (IsSeen p.seen) (keys p.files) _ v.known (seen, tt));
        distinct =
            subst Distinct (sym (keys-append p.files f))
              (Distinct-append (path_key path) (keys p.files) fresh v.distinct);
      })

  -- A new key differs from all that are seen.
  fresh_key :
      (k : List ℕ) (seen ks : List (List ℕ))
      → has_text k seen ≡ false
      → All (IsSeen seen) ks
      → All (λ x. x ≢ k) ks
  fresh_key k seen ks e h = All_map ks (λ x s f. absurd (differs (subst (IsSeen seen) f s))) h
    where
      differs : has_text k seen ≡ true → ⊥
      differs t = absurd (cc)

  IsSeen-now : (k : List ℕ) (seen : List (List ℕ)) → IsSeen (k ∷ seen) k
  unfolding has_text
  IsSeen-now k seen = rw (same_text_self k) refl

  directory-IsProgress :
      (path : List (List ℕ)) (p q : Progress) (d e : Disk)
      → IsProgress p
      → extract_directory tools path p d ≡ (ok q, e)
      → IsProgress q
  unfolding extract_directory
  directory-IsProgress path p q d e v h =
      let (_, d₁, _, h₁) = bind-ok (lift (tools.create_dir path)) _ h in
      let (_, d₂, _, h₂) = bind-ok (make (directory path)) _ h₁ in
      subst IsProgress (sym (pure-ok h₂).0) v

  extract_below-IsProgress :
      (entry : Entry) (p q : Progress) (d e : Disk)
      → IsProgress p
      → extract_below tools entry p d ≡ (ok q, e)
      → IsProgress q
  unfolding extract_below
  extract_below-IsProgress entry p q d e v h =
      let (relative, d₁, _, h₁) =
        bind-ok
          (lift (relative_of tools (strip_prefix (chars "macvnc-rust/") (trim_slashes entry.name))))
          _ h in
      let (_, h₂) = ensure-ok (not (has b'\\' relative)) _ _ h₁ in
      let (path, d₃, _, h₃) =
        bind-ok (lift (validate_relative tools.components tools.is_absolute relative)) _ h₂ in
      let (free, h₄) = ensure-ok (not (has_text (path_key path) p.seen)) _ _ h₃ in
      let (_, h₅) = ensure-ok (kind_allowed entry.is_dir (file_kind entry.unix_mode)) _ _ h₄ in
      let fresh = fresh_key (path_key path) p.seen (keys p.files) (ground (arith, free)) v.known in
      let now = record p { seen = path_key path ∷ p.seen } in
      let w : IsProgress now = record {
        counted = v.counted;
        bounded = v.bounded;
        small = v.small;
        known = All_map (keys p.files) (λ x s. IsSeen-more (path_key path) x p.seen s) v.known;
        distinct = v.distinct;
      } in
      either path entry.is_dir now d₃ w fresh (IsSeen-now (path_key path) p.seen) h₅
    where
      either :
          (path : List (List ℕ)) (b : Bool) (now : Progress) (d : Disk)
          → IsProgress now
          → All (λ x. x ≢ path_key path) (keys now.files)
          → IsSeen now.seen (path_key path)
          → (if b then extract_directory tools path else extract_file tools entry path) now d
            ≡ (ok q, e)
          → IsProgress q
      either path true now d w fresh seen g = directory-IsProgress path now q d e w g
      either path false now d w fresh seen g =
          extract_file-IsProgress entry path now q d e w fresh seen g

  extract_entries-IsProgress :
      (entries : List (Result Entry)) (p q : Progress) (d e : Disk)
      → IsProgress p
      → extract_entries tools entries p d ≡ (ok q, e)
      → IsProgress q
  unfolding extract_entries extract_entry
  extract_entries-IsProgress [] p q d e v h = subst IsProgress (sym (pure-ok h).0) v
  extract_entries-IsProgress (r ∷ entries) p q d e v h =
      let (_, d₁, _, h₁) = bind-ok cancelled _ h in
      let (entry, d₂, _, h₂) = bind-ok (lift r) _ h₁ in
      let (now, d₃, g, h₃) = bind-ok (extract_entry tools entry p) _ h₂ in
      extract_entries-IsProgress entries now q d₃ e
        (either entry (same_text (trim_slashes entry.name) (chars "macvnc-rust") && entry.is_dir)
          now d₂ d₃ g)
        h₃
    where
      either :
          (entry : Entry) (b : Bool) (now : Progress) (d e : Disk)
          → (if b then pure p else extract_below tools entry p) d ≡ (ok now, e)
          → IsProgress now
      either entry true now d e g = subst IsProgress (sym (pure-ok g).0) v
      either entry false now d e g = extract_below-IsProgress entry p now d e v g

  -- An extraction that succeeds has files with different paths, also where the case of ASCII letters
  -- does not count, each of at most 512 MiB, and of at most 2 GiB together.
  pub extract-bounds :
      (size : ℕ) (entries : List (Result Entry)) (version : List ℕ) (d e : Disk)
      (files : List FileEntry)
      → extract tools size entries version d ≡ (ok files, e)
      → Distinct (keys files) × All (λ f. f.size ≤ max_archive) files × (sizes files ≤ max_expanded)
  unfolding extract extract_all sizes keys
  extract-bounds size entries version d e files h =
      let (p, d₁, g, h₁) = bind-ok (extract_all tools size entries) _ h in
      let (_, g₁) = ensure-ok (leb size max_archive) _ _ g in
      let (_, g₂) = ensure-ok (leb (length entries) 100000) _ _ g₁ in
      let (_, d₃, _, g₃) = bind-ok (lift (tools.create_dir [])) _ g₂ in
      let (_, d₄, _, g₄) = bind-ok (make (directory [])) _ g₃ in
      let v =
        extract_entries-IsProgress entries no_progress p d₄ d₁
          (record { counted = refl; bounded = omega arith; small = tt; known = tt; distinct = tt })
          g₄ in
      let (_, h₂) = ensure-ok (has_all required p.files) _ _ h₁ in
      let (_, h₃) = ensure-ok (has_dll p.files) _ _ h₂ in
      let (update, d₅, _, h₄) =
        bind-ok (λ x. lift (content_at (chars "UPDATE.json" ∷ []) x.contents) x) _ h₃ in
      let (identity, d₆, _, h₅) = bind-ok (lift (tools.read_identity (take 4097 update))) _ h₄ in
      let (_, h₆) =
        ensure-ok
          (identity.schema == 1
            && (same_text identity.version version
                && same_text identity.target (chars "windows-x64")))
          _ _ h₅ in
      let (_, h₇) = ensure-ok (leb (length identity.runtime) 128) _ _ h₆ in
      let (_, d₈, _, h₈) = bind-ok (lift (check_runtime identity.runtime [] p.files)) _ h₇ in
      let (_, h₉) = ensure-ok (has_prefixes ffmpeg identity.runtime) _ _ h₈ in
      let (exe, d₀, _, h₀) =
        bind-ok (λ x. lift (content_at (chars "macvnc-app.exe" ∷ []) x.contents) x) _ h₉ in
      let (_, dₙ, _, hₙ) = bind-ok (lift (check_header (take 4096 exe))) _ h₀ in
      let (same, _) = pure-ok hₙ in
      (
        subst (λ l. Distinct (keys l)) (sym same) v.distinct,
        subst (All (λ f. f.size ≤ max_archive)) (sym same) v.small,
        subst (λ l. sizes l ≤ max_expanded) (sym same) (omega (arith, v.counted, v.bounded)),
      )
