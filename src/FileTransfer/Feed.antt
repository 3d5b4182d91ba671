-- ===== src/FileTransfer/Feed.antt =====
-- file_transfer.rs: `Decoder::feed` on a stream that is cut anywhere, and the size of its buffer.
use macvnc.Base.{
  ℕ, zero, suc, ◌+◌, ◌<◌, ◌≤◌, ◌≡◌, ◌≢◌, refl, ap, subst, ◌∙◌, List, [], ◌∷◌, inl, inr, ◌++◌, Bool,
  true, false, not, arith, length, drop, length-append, get_or, u16_at, u32_at, take-append_le,
  drop-append_le, get_or-append_lt, Option, none, some, Result, ok, err, is_ok, Bool-cases, ◌==◌,
  ◌&&◌,
}
use Prim.Native.String.{String}
use macvnc.FileTransfer.{Message, message_at, max_message_bytes, is_empty, Decoder, feed_loop, feed}
use macvnc.FileTransfer.Stream.{
  HasMessage, Parsed, at_end, control, partial, next, feed_loop_complete, feed_loop_sound,
}

-- The first bytes of a buffer do not change when more arrive.
header-append :
    (a b : List ℕ) (i : ℕ)
    → i + 4 ≤ length a
    → (get_or (a ++ b) i 0 ≡ get_or a i 0)
      × (u16_at (a ++ b) i ≡ u16_at a i)
      × (u32_at (a ++ b) i ≡ u32_at a i)
header-append a b i h = (
  get_or-append_lt a b i 0 (omega arith),
  rw (get_or-append_lt a b i 0 (omega arith), get_or-append_lt a b (i + 1) 0 (omega arith)),
  rw (
    get_or-append_lt a b i 0 (omega arith),
    get_or-append_lt a b (i + 1) 0 (omega arith),
    get_or-append_lt a b (i + 2) 0 (omega arith),
    get_or-append_lt a b (i + 3) 0 (omega arith),
  ),
)

HasMessage-append : (a b : List ℕ) → HasMessage a → HasMessage (a ++ b)
HasMessage-append a b m =
    let h0 = (header-append a b 0 (omega (arith, m.whole, m.at_least))).0 in
    let h1 = (header-append a b 1 (omega (arith, m.whole, m.at_least))).0 in
    let h2 = (header-append a b 2 (omega (arith, m.whole, m.at_least))).2 in
    let h6 = (header-append a b 6 (omega (arith, m.whole, m.at_least))).1 in
    record {
      tag = h0 ∙ m.tag;
      subtype = rw h1 m.subtype;
      at_least = rw h2 m.at_least;
      at_most = rw h2 m.at_most;
      whole = omega (arith, h2, m.whole, length-append a b);
      version = h6 ∙ m.version;
    }

message_at-append :
    (a b : List ℕ) (n : ℕ) → 12 ≤ n → 6 + n ≤ length a → message_at (a ++ b) n ≡ message_at a n
unfolding message_at
message_at-append a b n lo h = rw (
  (header-append a b 8 (omega arith)).1,
  (header-append a b 10 (omega arith)).2,
  (header-append a b 14 (omega arith)).2,
  take-append_le (6 + n) a b h,
)

pub Parsed-append :
    {a left : List ℕ} (b : List ℕ) {left' : List ℕ} {first second : List Message}
    {other : Option (List ℕ)}
    → Parsed a first none left
    → Parsed (left ++ b) second other left'
    → Parsed (a ++ b) (first ++ second) other left'
Parsed-append b at_end p = p
Parsed-append b (partial _) p = p
Parsed-append {a = a} b {left'} {second = second} {other = other}
      (next {messages = messages} m more) p =
    let size = (header-append a b 2 (omega (arith, m.whole, m.at_least))).2 in
    let same = message_at-append a b (u32_at a 2) m.at_least m.whole in
    let rest = drop-append_le (6 + u32_at a 2) a b m.whole in
    subst (λ x. Parsed (a ++ b) (x ∷ (messages ++ second)) other left')
      (ap (message_at (a ++ b)) size ∙ same)
      (next (HasMessage-append a b m) (rw (size, rest) (Parsed-append b more p)))

-- What is left in the buffer is a part of a message, or nothing.
Parsed-bounded :
    {rest left : List ℕ} {messages : List Message} {other : Option (List ℕ)}
    → Parsed rest messages other left
    → length left < max_message_bytes
Parsed-bounded at_end = omega arith
Parsed-bounded (control n t) = omega arith
Parsed-bounded (partial p) = grind (arith, p.part)
Parsed-bounded (next m more) = Parsed-bounded more

-- Other control data that `feed` passes on without looking at them.
abbrev pub is_other : Decoder → List ℕ → Bool
is_other d body = is_empty d.pending && not (get_or body 0 0 == 0x22)

feed_other :
    (d : Decoder) (body : List ℕ) → is_other d body ≡ true → feed d body ≡ (ok ([], some body), d)
unfolding feed
feed_other d body e = rw e

pub feed_complete :
    (d : Decoder) (body : List ℕ) {messages : List Message} {other : Option (List ℕ)}
    {left : List ℕ}
    → is_other d body ≡ false
    → length d.pending + length body ≤ max_message_bytes + 65520
    → Parsed (d.pending ++ body) messages other left
    → feed d body ≡ (ok (messages, other), record { pending = left })
unfolding feed
feed_complete d body e h p =
    let all = d.pending ++ body in
    ground (arith, e, feed_loop_complete (length all) [] (omega arith) p)

feed_sound :
    (d : Decoder) (body : List ℕ) {messages : List Message} {other : Option (List ℕ)} {d' : Decoder}
    → is_other d body ≡ false
    → feed d body ≡ (ok (messages, other), d')
    → Parsed (d.pending ++ body) messages other d'.pending
feed_sound d body {messages} {other} {d'} e f =
    let all = d.pending ++ body in
    let run : feed_loop (length all) all [] ≡ ok (messages, other, d'.pending) =
      unfold feed in ground (arith, e, f) in
    let (found, same, p) =
      feed_loop_sound (length all) all [] (messages, other, d'.pending) (omega arith) run in
    rw same p

abbrev backlog : String
backlog = "file message backlog too large"

other_errors :
    ("unsupported file message subtype" ≢ backlog)
    × ("invalid file message length" ≢ backlog)
    × ("unsupported file message version" ≢ backlog)
other_errors = (λ e. cc, λ e. cc, λ e. cc)

no_backlog_error :
    (fuel : ℕ) (rest : List ℕ) (acc : List Message)
    → feed_loop fuel rest acc ≢ err "file message backlog too large"
unfolding feed_loop
no_backlog_error zero rest acc e = cc
no_backlog_error (suc fuel) rest acc e =
    let len = u32_at rest 2 in
    ground (
      arith,
      other_errors,
      no_backlog_error fuel (drop (6 + len) rest) (acc ++ (message_at rest len ∷ [])),
    )

-- The buffer of a decoder stays below the largest message: a call that succeeds leaves less than
-- that, and from such a state a call on a body of at most 65520 bytes is never refused for the
-- size of the backlog.
pub feed_bounded :
    (d d' : Decoder) (body : List ℕ) (result : Result (List Message × Option (List ℕ)))
    → length d.pending < max_message_bytes
    → length body ≤ 65520
    → feed d body ≡ (result, d')
    → (result ≢ err "file message backlog too large")
      × (is_ok result ≡ true → length d'.pending < max_message_bytes)
feed_bounded d d' body result h k f = (
  (λ e. unfold feed in ground (arith, no_backlog_error (length all) all [])),
  (λ e. kept result refl e),
)
  where
    all : List ℕ
    all = d.pending ++ body

    kept :
        (r : Result (List Message × Option (List ℕ)))
        → result ≡ r
        → is_ok r ≡ true
        → length d'.pending < max_message_bytes
    kept (err m) e t = cc
    kept (ok (messages, other)) e t = elim (Bool-cases (is_other d body)) [
      | inl o ↦ let same : d' ≡ d = cc (feed_other d body o, f) in rw same h
      | inr o ↦ Parsed-bounded (feed_sound d body o (f ∙ ap (λ r. (r, d')) e))
    ]
