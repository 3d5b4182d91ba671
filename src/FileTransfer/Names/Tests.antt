-- ===== src/FileTransfer/Names/Tests.antt =====
-- file_transfer.rs: names and paths at concrete inputs.
use macvnc.Base.{ℕ, ◌≡◌, ◌≢◌, refl, inl, List, [], ◌∷◌, ◌++◌, ok, err}
use macvnc.Base.Utf8.{encode_str, encode_char}
use macvnc.FileTransfer.Names.{
  has, has_text, same_text, split, dots, any_unsafe, ends_badly, uppercase, is_port, is_reserved,
  validate_name,
}
use macvnc.FileTransfer.Names.Paths.{validate_name-split}

-- `é.txt`
abbrev file_name : List ℕ
file_name = 233 ∷ b'.' ∷ b't' ∷ b'x' ∷ b't' ∷ []

file_name-valid : validate_name file_name ≡ ok tt
unfolding validate_name encode_str encode_char same_text any_unsafe has ends_badly is_reserved
    uppercase split has_text is_port
file_name-valid = refl

-- `com1.txt`
device_refused :
    validate_name (b'c' ∷ b'o' ∷ b'm' ∷ b'1' ∷ b'.' ∷ b't' ∷ []) ≡ err "reserved file name"
unfolding validate_name encode_str encode_char same_text any_unsafe has ends_badly is_reserved
    uppercase split has_text is_port
device_refused = refl

abbrev home : List ℕ
home = b'/' ∷ b'h' ∷ []

validate_name-split_example :
    (split b'/' (home ++ (b'/' ∷ file_name))
      ≡ ((split b'/' home).0, (split b'/' home).1 ++ (file_name ∷ [])))
    × (file_name ≢ [])
    × (file_name ≢ b'.' ∷ [])
    × (file_name ≢ dots)
validate_name-split_example = validate_name-split file_name home b'/' (inl refl) file_name-valid
