-- ===== src/Depacketizer/Bounds/Reach.antt =====
-- depacketize.rs: the limits in every state that a receiver can reach.
use macvnc.Base.{ℕ}
use macvnc.Srtp.{RtpPacket}
use macvnc.Depacketizer.{Depacketizer, new}
use macvnc.Depacketizer.Poll.{poll}
use macvnc.Depacketizer.Push.{push}
use macvnc.Depacketizer.Bounds.{IsBounded, new-IsBounded}
use macvnc.Depacketizer.Bounds.Poll.{poll-IsBounded}
use macvnc.Depacketizer.Bounds.Push.{push-IsBounded}

-- The states that a depacketizer for `n` tiles reaches by the packets and the polls at any times.
pub data Reachable (n : ℕ) : Depacketizer → Type 0 where
  created : Reachable n (new n)
  pushed :
      {d : Depacketizer} → Reachable n d → (p : RtpPacket) (now : ℕ) → Reachable n (push d p now).1
  polled : {d : Depacketizer} → Reachable n d → (now : ℕ) → Reachable n (poll d now).1

-- In every reachable state there are at most 64 groups, each of at most 8192 packets and 8 MiB, with
-- payloads of 32 MiB together; as many sources as tiles, 32 sources observed and 64 parameter sets; and
-- for each source that is observed at most eight packets and 64 KiB are kept. The counts of bytes are
-- those of the payloads that are kept. Nothing is said of `last_ts` and of the parameter sets that are
-- found for an observed source.
pub Reachable-IsBounded : (n : ℕ) {d : Depacketizer} → Reachable n d → IsBounded d
Reachable-IsBounded n created = new-IsBounded n
Reachable-IsBounded n (pushed {d} r p now) = push-IsBounded d p now (Reachable-IsBounded n r)
Reachable-IsBounded n (polled {d} r now) = poll-IsBounded d now (Reachable-IsBounded n r)
