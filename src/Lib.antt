-- ===== src/Lib.antt =====
-- macvnc: verification of the core of the remote desktop client.
--
-- The client logs in to a Mac over TCP, and then speaks with it over a control channel of
-- encrypted records; file transfers travel on the same channel, video and audio on UDP.
--
-- Record (rust/crates/hp-protocol/src/record.rs): the encrypted record layer. `RecordLayer` has the
--   struct's fields, `encrypt`, `decrypt`, `unwrap` and `drain_records` are its operations, each
--   with the layer after the call. AES-128, SHA-1 and the constant-time comparison are the
--   parameter `Crypto`; `CryptoLaws` says that the block cipher is inverted by its inverse, keeps
--   the size of a block, that the hash has 20 bytes, and that the comparison tests equality.
-- FileTransfer (rust/crates/hp-protocol/src/file_transfer.rs): the file messages that `drain_records`
--   delivers or that go to `push`. `message` and `feed` are the encoder and the streaming decoder;
--   `FileTransfer.Names` has the requests, the metadata of an upload and the checks of names. A string is
--   the list of its characters, and `Base.Utf8` has the standard library's encoding.
-- Outbound (rust/crates/hp-protocol/src/control_io.rs): the queue of encrypted records that waits for
--   the socket. The writer is a parameter, with the clock readings in its outcomes.
-- Srtp (rust/crates/hp-media/src/srtp.rs): the protection of media packets. `unprotect` is the receiver
--   with its replay window and its table of sources, `Srtp.Sender` has the senders of media and of RTCP
--   packets, `Srtp.Rtcp` the builders of RTCP packets. AES-CTR, HMAC-SHA1 and the comparison of tags are the parameter `Srtp.Crypto`; its
--   `CryptoLaws` say that the key stream is removed by adding it again, that a tag has 20 bytes, and
--   that the comparison tests equality. The sorted list of sources and `highest_sequence` are left out.
-- Compositor (rust/crates/hp-media/src/compositor.rs, and the frames of rust/crates/hp-media/src/lib.rs):
--   the composition of decoded bands into the frame of the desktop, `update` and `push`. Pixels are a
--   list of bytes; whether memory can be reserved is a parameter of `new`.
-- Layout (rust/crates/hp-protocol/src/lib.rs): `LayoutRecovery`, which decides when the client asks for a
--   new media stream, the framebuffer request and the limits on the dimensions. Times are milliseconds.
-- Metadata (rust/crates/hp-protocol/src/metadata.rs): the parser of protobuf fields, the search for the media
--   configuration in an answer, and the scan of framebuffer updates. zlib is the parameter `Inflate`;
--   `diagnose_answer` is left out.
-- Hevc (rust/crates/hp-media/src/depacketize.rs): `reassemble`, which makes NAL units from payloads, and
--   `parse_parameter_ap`.
-- Depacketizer (rust/crates/hp-media/src/depacketize.rs): `Depacketizer.Push.push` and `Depacketizer.Poll.poll`
--   with the state of the struct; a hash map is a list of entries, the counters are the list of what was
--   counted, and times are milliseconds. `Bounds` has the limits. `diagnostics` is left out.
-- Offer (rust/crates/hp-protocol/src/offer.rs): the encoder of numbers and fields, and the messages of the
--   media offer up to their compression; the clock is an argument.
-- Connection (rust/crates/hp-protocol/src/lib.rs): `HpConnection` once it stands: the operations that send,
--   `poll_control` and `inspect_control`, as calls that return a result and the state after it in both
--   cases. They are composed of Record, Outbound, FileTransfer, Metadata and Layout; the socket is a
--   parameter with a state of its own.
-- Transfer (rust/crates/macvnc-app/src/transfer.rs): the worker that moves one file. `Transfer.Upload` and
--   `Transfer.Download` are the two transfers with their loops, `Transfer.Worker` the calls they are made of,
--   and `Transfer.Session` has the client, the sessions and the loop over the jobs as steps on the state
--   that they share. The file system is the parameter `FileSystem`; what other threads, the clock and
--   the channels answer stands in a script in `World`.
-- Package (rust/crates/macvnc-app/src/updater/package.rs): the checks of an update package: names and paths,
--   and `extract`, whose state is the disk below the destination. The reader of the archive, the hash, the
--   calls on the disk, the components of a path and the reader of UPDATE.json are the record `Tools`, and
--   what the user answers to `cancelled` stands in the state. `parse_release`, `checksum` and `hash_file` are left out.
-- Profile (rust/crates/macvnc-app/src/profile.rs): the saved connection: `load_from`, `save_to`, and the formats
--   of the password. JSON, base64, the protection of secrets by the system, AES-GCM and the disk are
--   the record `Services`; `save_to` returns the bytes that it writes.
-- Base: shared helpers: lists over the native numbers, results, big-endian integers, bit operations.
--
-- Integers are natural numbers; casts are written out as a remainder, checked additions as a test.
-- The loops of `drain_records` and `feed` run on fuel, the size of the buffer: each round takes 34
-- bytes or 18, and the theorems on them are about the loops with this fuel. The loop of `fields` runs on
-- the size of the buffer too, a byte or more a round; `Metadata.Fields.Loop` has it without fuel. Those of
-- `parse_parameter_ap` and of an aggregation packet take two bytes or more a round. The loop of the
-- upload runs on the size of the file, a byte or more a round, that of the download on the length of
-- the script, an answer or more a round. `flush` has its own count of 128 attempts in the source.
--
-- Not modelled: the wiping of keys, the handshake in `HpConnection::connect`, the property list around
-- the media offer and the other messages of the handshake, the decoding of video, and of the
-- application its windows, its session backend, `Session::pump` of the file transfers, the places of
-- its profiles and the rest of its updater.
pub mod Base
pub mod Compositor
pub mod Connection
pub mod Depacketizer
pub mod FileTransfer
pub mod Hevc
pub mod Layout
pub mod Metadata
pub mod Offer
pub mod Outbound
pub mod Package
pub mod Profile
pub mod Record
pub mod Srtp
pub mod Transfer
