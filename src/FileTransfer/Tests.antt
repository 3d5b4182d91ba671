-- ===== src/FileTransfer/Tests.antt =====
-- file_transfer.rs: the theorems at concrete inputs.
use macvnc.Base.{
  ℕ, ◌<◌, ◌≡◌, ◌≢◌, refl, List, [], ◌∷◌, ◌++◌, true, Option, none, some, Result, ok, err, is_ok,
  arith, length, inl,
}
use macvnc.FileTransfer.{
  Message, Decoder, chunk, end, max_message_bytes, data_kind, end_kind, message, is_empty,
  feed_loop, feed,
}
use macvnc.FileTransfer.Feed.{feed_bounded}
use macvnc.FileTransfer.Encode.{Item, IsItem, encode_all, contents, control_data, feed-encode_all}

-- A chunk of two bytes for the session 7, and the end of the file.
abbrev chunk_wire : List ℕ
chunk_wire =
    0x22 ∷ 0 ∷ 0 ∷ 0 ∷ 0 ∷ 14 ∷ 0 ∷ 1 ∷ 0 ∷ 102 ∷ 0 ∷ 0 ∷ 0 ∷ 7 ∷ 0 ∷ 0 ∷ 0 ∷ 2 ∷ 8 ∷ 9 ∷ []

abbrev end_wire : List ℕ
end_wire = 0x22 ∷ 0 ∷ 0 ∷ 0 ∷ 0 ∷ 12 ∷ 0 ∷ 1 ∷ 0 ∷ 104 ∷ 0 ∷ 0 ∷ 0 ∷ 7 ∷ 0 ∷ 0 ∷ 0 ∷ 0 ∷ []

chunk-bytes : chunk 7 (8 ∷ 9 ∷ []) ≡ ok chunk_wire
unfolding chunk message
chunk-bytes = refl

end-bytes : end 7 ≡ ok end_wire
unfolding end message
end-bytes = refl

abbrev chunk_message : Message
chunk_message = record { kind = data_kind; session = 7; argument = 2; payload = 8 ∷ 9 ∷ [] }

abbrev end_message : Message
end_message = record { kind = end_kind; session = 7; argument = 0; payload = [] }

abbrev fresh : Decoder
fresh = record { pending = [] }

abbrev begun : Decoder
begun = record { pending = 0x22 ∷ 0 ∷ 0 ∷ [] }

feed-first_part : feed fresh (0x22 ∷ 0 ∷ 0 ∷ []) ≡ (ok ([], none), begun)
unfolding feed feed_loop is_empty
feed-first_part = refl

abbrev end_tail : List ℕ
end_tail = 0 ∷ 0 ∷ 12 ∷ 0 ∷ 1 ∷ 0 ∷ 104 ∷ 0 ∷ 0 ∷ 0 ∷ 7 ∷ 0 ∷ 0 ∷ 0 ∷ 0 ∷ 0x14 ∷ []

abbrev nothing_yet : Result (List Message × Option (List ℕ))
nothing_yet = ok ([], none)

feed_bounded_example :
    (nothing_yet ≢ err "file message backlog too large")
    × (is_ok nothing_yet ≡ true → length begun.pending < max_message_bytes)
feed_bounded_example =
    feed_bounded fresh begun (0x22 ∷ 0 ∷ 0 ∷ []) nothing_yet (omega arith) (omega arith)
      feed-first_part

abbrev chunk_item : Item
chunk_item = record { subtype = 0; content = chunk_message }

abbrev end_item : Item
end_item = record { subtype = 0; content = end_message }

chunk-IsItem : IsItem chunk_item
chunk-IsItem = record {
  subtype_ok = inl refl;
  kind_ok = omega arith;
  session_nonzero = λ e. omega (arith, e);
  session_ok = omega arith;
  argument_ok = omega arith;
  payload_ok = omega arith;
}

end-IsItem : IsItem end_item
end-IsItem = record {
  subtype_ok = inl refl;
  kind_ok = omega arith;
  session_nonzero = λ e. omega (arith, e);
  session_ok = omega arith;
  argument_ok = omega arith;
  payload_ok = omega arith;
}

feed-encode_all_example :
    (wire : List ℕ) × (encode_all (chunk_item ∷ end_item ∷ []) ≡ ok wire)
    × (feed (record { pending = [] }) (wire ++ (0x14 ∷ []))
        ≡ (ok (contents (chunk_item ∷ end_item ∷ []), some (0x14 ∷ [])), record { pending = [] }))
feed-encode_all_example =
    feed-encode_all chunk_item (end_item ∷ []) chunk-IsItem (end-IsItem, tt)
      (control_data 0x14 [] (λ e. omega (arith, e))) (omega arith)
