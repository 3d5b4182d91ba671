-- ===== src/Transfer/Download/Messages.antt =====
-- transfer.rs: the messages of a download as the parts of one file.
use macvnc.Base.{
  ℕ, ◌+◌, ◌≡◌, Bool, true, false, List, [], ◌∷◌, ◌++◌, Option, none, some, ok, length,
}
use macvnc.FileTransfer.{Message}
use macvnc.FileTransfer.Names.{announced_size}
use macvnc.Transfer.Download.{
  Kind, info_kind, item_kind, content_kind, last_kind, other_kind, kind_of,
}

abbrev pub content_of : Kind → Message → List ℕ
content_of info_kind m = []
content_of item_kind m = []
content_of content_kind m = m.payload
content_of last_kind m = []
content_of other_kind m = []

-- The payloads of the data messages, one after the other.
unfoldable pub joined : List Message → List ℕ
joined [] = []
joined (m ∷ ms) = content_of (kind_of m.kind) m ++ joined ms

abbrev pub item_count : Kind → ℕ
item_count info_kind = 0
item_count item_kind = 1
item_count content_kind = 0
item_count last_kind = 0
item_count other_kind = 0

unfoldable pub items : List Message → ℕ
items [] = 0
items (m ∷ ms) = item_count (kind_of m.kind) + items ms

-- A message of a download of `size` bytes: what it announces is the size, and a chunk has the length
-- that it names.
abbrev pub Fits : ℕ → Kind → Message → Type 0
Fits size info_kind m = announced_size m ≡ ok (some size)
Fits size item_kind m = announced_size m ≡ ok (some size)
Fits size content_kind m = m.argument ≡ length m.payload
Fits size last_kind m = ⊥
Fits size other_kind m = ⊥

abbrev pub IsPart : ℕ → Message → Type 0
IsPart size m = Fits size (kind_of m.kind) m

abbrev pub flag : Bool → ℕ
flag true = 1
flag false = 0

abbrev pub Agrees : Option ℕ → ℕ → Type 0
Agrees none n = Unit {0}
Agrees (some a) n = a ≡ n
