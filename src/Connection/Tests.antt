-- ===== src/Connection/Tests.antt =====
-- rust/crates/hp-protocol/src/lib.rs: a connection over a socket that takes all bytes and has one read.
use macvnc.Base.{ℕ, zero, suc, true, false, List, [], ◌∷◌, none, arith, length, replicate}
use macvnc.Record as Record
use macvnc.Outbound as Outbound
use macvnc.Outbound.{Outcome, wrote}
use macvnc.Metadata.{Inflate}
use macvnc.Connection.{HpConnection, ReadOutcome, received, would_block, poll_control}
use macvnc.Connection.Limits.{IsConnection, poll_control-IsConnection}

abbrev plain : Record.Crypto
plain = record {
  encrypt_block = λ key block. block;
  decrypt_block = λ key block. block;
  sha1 = λ bytes. replicate 20 7;
  ct_eq = λ a b. true;
}

abbrev no_zlib : Inflate
no_zlib bytes limit = (false, [])

abbrev write_all : ℕ → List ℕ → Outcome × ℕ
write_all w bytes = (wrote (length bytes), w)

abbrev two_bytes : ℕ → ReadOutcome × ℕ
two_bytes zero = (received (0 ∷ 32 ∷ []), 1)
two_bytes (suc w) = (would_block, suc w)

abbrev at_start : HpConnection
at_start = record {
  records = record {
    key = replicate 16 0;
    enc_iv = replicate 16 0;
    dec_iv = replicate 16 0;
    enc_seq = 0;
    dec_seq = 0;
    failed = false;
  };
  pending = [];
  outbound = Outbound.empty;
  file_decoder = record { pending = [] };
  file_messages = [];
  width = 1920;
  height = 1080;
  stream_config = none;
  update_outstanding = true;
  media_offer = 1 ∷ 2 ∷ [];
  recovery = record { current = none; pending = none; last_sent = none };
  layout_events = 0;
  media_reoffers = 0;
}

poll_control-IsConnection_example :
    IsConnection (poll_control plain no_zlib write_all two_bytes 5000 (at_start, 0)).1.0
poll_control-IsConnection_example =
    poll_control-IsConnection plain no_zlib write_all two_bytes 5000 at_start 0
      (record { messages_ok = omega arith; config_ok = tt })
