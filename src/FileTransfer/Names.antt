-- ===== src/FileTransfer/Names.antt =====
-- file_transfer.rs: file names and paths, the messages that carry them, and the announced size.
pub mod Sizes
pub mod Paths
mod Tests
use macvnc.Base.{
  ℕ, zero, suc, ◌+◌, ◌-◌, ◌*◌, ◌/◌, ◌%◌, ◌^◌, Bool, true, false, not, ◌&&◌, ◌||◌, List, [], ◌∷◌,
  ◌++◌, Option, none, some, Result, ok, err, ensure, ◌>>=◌, ◌>>◌, ltb, leb, ◌==◌, if◌then◌else◌,
  length, take, drop, get_or, replicate, be16, be32, u16, u32, u16_at, u32_at,
}
use macvnc.Base.Utf8.{encode_str, from_utf8}
use macvnc.FileTransfer.{Message, message, item_info, new_item, max_file_bytes}

unfoldable pub has : ℕ → List ℕ → Bool
has x [] = false
has x (y ∷ ys) = x == y || has x ys

unfoldable pub same_text : List ℕ → List ℕ → Bool
same_text [] [] = true
same_text [] (y ∷ ys) = false
same_text (x ∷ xs) [] = false
same_text (x ∷ xs) (y ∷ ys) = x == y && same_text xs ys

unfoldable pub has_text : List ℕ → List (List ℕ) → Bool
has_text s [] = false
has_text s (t ∷ ts) = same_text s t || has_text s ts

-- The first part and the others of `split`, which has one part at least.
unfoldable pub split : ℕ → List ℕ → List ℕ × List (List ℕ)
split sep [] = ([], [])
split sep (c ∷ s) =
    let (part, parts) = split sep s in if c == sep then ([], part ∷ parts) else (c ∷ part, parts)

abbrev pub dots : List ℕ
dots = b'.' ∷ b'.' ∷ []

-- `char::is_control`
abbrev pub is_control : ℕ → Bool
is_control c = ltb c 32 || (leb 127 c && ltb c 160)

abbrev pub reserved_chars : List ℕ
reserved_chars = b'/' ∷ b'\\' ∷ b':' ∷ b'<' ∷ b'>' ∷ b'"' ∷ b'|' ∷ b'?' ∷ b'*' ∷ []

unfoldable pub any_unsafe : List ℕ → Bool
any_unsafe [] = false
any_unsafe (c ∷ s) = is_control c || has c reserved_chars || any_unsafe s

-- `ends_with([' ', '.'])`
unfoldable pub ends_badly : List ℕ → Bool
ends_badly [] = false
ends_badly (c ∷ []) = c == b' ' || c == b'.'
ends_badly (c ∷ d ∷ s) = ends_badly (d ∷ s)

-- `to_ascii_uppercase`
unfoldable pub uppercase : List ℕ → List ℕ
uppercase [] = []
uppercase (c ∷ s) = (if leb b'a' c && leb c b'z' then c - 32 else c) ∷ uppercase s

abbrev pub devices : List (List ℕ)
devices =
    (b'C' ∷ b'O' ∷ b'N' ∷ [])
    ∷ (b'P' ∷ b'R' ∷ b'N' ∷ [])
    ∷ (b'A' ∷ b'U' ∷ b'X' ∷ [])
    ∷ (b'N' ∷ b'U' ∷ b'L' ∷ [])
    ∷ []

-- `COM1` to `COM9` and `LPT1` to `LPT9`.
unfoldable pub is_port : List ℕ → Bool
is_port s =
    leb b'1' (get_or s 3 0)
    && leb (get_or s 3 0) b'9'
    && length s == 4
    && (same_text (take 3 s) (b'C' ∷ b'O' ∷ b'M' ∷ [])
        || same_text (take 3 s) (b'L' ∷ b'P' ∷ b'T' ∷ []))

unfoldable pub is_reserved : List ℕ → Bool
is_reserved name = let stem = uppercase (split b'.' name).0 in has_text stem devices || is_port stem

unfoldable pub validate_name : List ℕ → Result (Unit {0})
validate_name name = do
  ensure (leb 1 (length name) && leb (length (encode_str name)) 255) "file name exceeds size limit"
  ensure (not (same_text name (b'.' ∷ [])) && not (same_text name dots)) "invalid file name"
  ensure (not (any_unsafe name)) "unsafe file name"
  ensure (not (ends_badly name)) "unsafe file name suffix"
  ensure (not (is_reserved name)) "reserved file name"

unfoldable pub request : ℕ → List ℕ → Bool → Result (List ℕ)
request session path upload = do
  ensure (leb 1 (length path) && get_or path 0 0 == b'/') "enter an absolute Mac path"
  ensure (not (has 0 (encode_str path))) "Mac path contains NUL"
  ensure (leb (length (encode_str path)) 4096) "Mac path exceeds size limit"
  let parts = split b'/' path
  ensure (not (has_text dots (parts.0 ∷ parts.1))) "Mac path contains parent traversal"
  message 2 (if upload then 2 else 1) session 1
      (be32 4 ++ (be16 (u16 (length (encode_str path))) ++ encode_str path))

-- `copy_from_slice` into a buffer from an index on.
abbrev pub copy_at : ℕ → List ℕ → List ℕ → List ℕ
copy_at i bytes buffer = take i buffer ++ (bytes ++ drop (i + length bytes) buffer)

abbrev pub info_bytes : ℕ → List ℕ
info_bytes size =
    copy_at 24 (be32 1) (copy_at 16 (be32 size) (copy_at 8 (be32 size) (replicate 48 0)))

abbrev pub item_bytes : ℕ → List ℕ → List ℕ
item_bytes size name =
    copy_at 96 (be16 (u16 (length name)))
      (copy_at 90 (be16 0o100644) (copy_at 42 (be32 size) (replicate 100 0)))
    ++ name

unfoldable pub upload_metadata : ℕ → List ℕ → ℕ → Result (List ℕ × List ℕ)
upload_metadata session name size = do
  validate_name name
  ensure (leb size max_file_bytes) "native file format is limited to files below 4 GiB"
  info ← message 0 item_info session 1 (info_bytes (u32 size))
  item ← message 0 new_item session 0x01000000 (item_bytes (u32 size) (encode_str name))
  ok (info, item)

pub announced_size : Message → Result (Option ℕ)
announced_size m =
    let b = m.payload in
    if m.kind == item_info
    then (do
      ensure (length b == 48) "unsupported file-info layout"
      ensure (u32_at b 24 == 1) "only one regular file can be received"
      ensure (same_text (take 4 (drop 8 b)) (take 4 (drop 16 b))) "file sizes disagree"
      ok (some (u32_at b 8)))
    else if m.kind == new_item
    then (do
      ensure (leb 100 (length b)) "truncated file metadata"
      ensure (u16_at b 90 / 2 ^ 12 % 2 ^ 4 == 8) "only regular files can be received"
      ensure (100 + u16_at b 96 == length b) "invalid file-name length"
      elim (from_utf8 (drop 100 b)) [
        | none ↦ err "invalid utf-8"
        | some name ↦ validate_name name >> ok (some (u32_at b 42))
      ])
    else ok none
