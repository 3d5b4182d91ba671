-- ===== src/Transfer/Effects.antt =====
-- transfer.rs: what the calls of the worker leave as it is in its state.
use macvnc.Base.{
  ℕ, ◌≡◌, ◌⊎◌, inl, inr, refl, sym, ap, ◌∙◌, Bool, true, false, List, [], ◌∷◌, ◌++◌, Option, Result,
  ok, err,
}
use macvnc.FileTransfer.{Message}
use macvnc.Transfer.{Snapshot, Attempt, Receiving, arrived, nothing_yet, closed, Round, World}
use macvnc.Transfer.Worker.{
  check, checked, send, send_loop, after_send, receive, receive_loop, after_round, after_receive,
  show, progress,
}

-- The messages that a script holds, in order.
abbrev pub message_of : Receiving → List Message
message_of (arrived m) = m ∷ []
message_of nothing_yet = []
message_of closed = []

unfoldable pub delivered : List Round → List Message
delivered [] = []
delivered (r ∷ more) = message_of r.answer ++ delivered more

after_round-ok :
    (stop late : Bool) (answer : Receiving) (more left : List Round) {m : Message}
    {rest : Result Message × List Round}
    → after_round stop late answer more rest ≡ (ok m, left)
    → ((answer ≡ arrived m) × (left ≡ more)) ⊎ ((answer ≡ nothing_yet) × (rest ≡ (ok m, left)))
after_round-ok true late answer more left e = absurd (cc)
after_round-ok false true answer more left e = absurd (cc)
after_round-ok false false (arrived x) more left e = inl (cc, cc)
after_round-ok false false nothing_yet more left e = inr (refl, e)
after_round-ok false false closed more left e = absurd (cc)

receive_loop-delivered :
    (rounds : List Round) (m : Message) (left : List Round)
    → receive_loop rounds ≡ (ok m, left)
    → delivered rounds ≡ m ∷ delivered left
unfolding receive_loop delivered
receive_loop-delivered [] m left e = absurd (cc)
receive_loop-delivered (r ∷ rs) m left e = elim (after_round-ok r.stop r.late r.answer rs left e) [
  | inl (f, g) ↦ rw (f, g) refl
  | inr (f, g) ↦ rw f (receive_loop-delivered rs m left g)
]

-- What `receive` takes off the script.
abbrev pub Takes : Message → World → World → Type 0
Takes m w u =
    (delivered w.rounds ≡ m ∷ delivered u.rounds)
    × (u.staged ≡ w.staged)
    × (u.published ≡ w.published)

-- The script and the files are as before.
abbrev pub Keeps : World → World → Type 0
Keeps w v = (v.rounds ≡ w.rounds) × (v.staged ≡ w.staged) × (v.published ≡ w.published)

after_receive-ok :
    (w u : World) (m : Message) (r : Result Message × List Round)
    → after_receive w r ≡ (ok m, u)
    → (r ≡ (ok m, u.rounds)) × (u ≡ record w { rounds = u.rounds })
after_receive-ok w u m (x, more) e =
    let same : u ≡ record w { rounds = more } = ap (λ r. r.1) (sym e) in
    let left : u.rounds ≡ more = ap (λ v. v.rounds) same in
    (rw left (ap (λ r. (r.0, more)) e), same ∙ ap (λ l. record w { rounds = l }) (sym left))

pub receive-Takes : (w u : World) (m : Message) → receive w ≡ (ok m, u) → Takes m w u
unfolding receive
receive-Takes w u m e =
    let (f, g) = after_receive-ok w u m (receive_loop w.rounds) e in
    (receive_loop-delivered w.rounds m u.rounds f, ap (λ v. v.staged) g, ap (λ v. v.published) g)

module _ (generation : ℕ) where
  pub progress-Keeps :
      (bytes : ℕ) (total : Option ℕ) (v v' : World) {a : Unit {0}}
      → progress generation bytes total v ≡ (ok a, v')
      → Keeps v v'
  unfolding progress show
  progress-Keeps bytes total v v' e =
      let same : (progress generation bytes total v).1 ≡ v' = ap (λ r. r.1) e in
      (
        ap (λ x. x.rounds) (sym same),
        ap (λ x. x.staged) (sym same),
        ap (λ x. x.published) (sym same),
      )

pub send-Keeps :
    (bytes : List ℕ) (w u : World) {a : Unit {0}} → send bytes w ≡ (ok a, u) → Keeps w u
unfolding send
send-Keeps bytes w u e = after_sending (send_loop w.attempts) e
  where
    after_sending :
        (r : Result (Unit {0}) × List Attempt) {a : Unit {0}}
        → after_send bytes w r ≡ (ok a, u)
        → Keeps w u
    after_sending (ok x, more) h =
        let same : (after_send bytes w (ok x, more)).1 ≡ u = ap (λ r. r.1) h in
        (
          ap (λ v. v.rounds) (sym same),
          ap (λ v. v.staged) (sym same),
          ap (λ v. v.published) (sym same),
        )
    after_sending (err x, more) h = absurd (cc)

pub check-Keeps : (w u : World) {a : Unit {0}} → check w ≡ (ok a, u) → Keeps w u
unfolding check
check-Keeps w u e = after_check w.checks e
  where
    after_check : (l : List Bool) {a : Unit {0}} → checked w l ≡ (ok a, u) → Keeps w u
    after_check [] h =
        let same : w ≡ u = ap (λ r. r.1) h in
        (
          ap (λ v. v.rounds) (sym same),
          ap (λ v. v.staged) (sym same),
          ap (λ v. v.published) (sym same),
        )
    after_check (stop ∷ more) h =
        let same : record w { checks = more } ≡ u = ap (λ r. r.1) h in
        (
          ap (λ v. v.rounds) (sym same),
          ap (λ v. v.staged) (sym same),
          ap (λ v. v.published) (sym same),
        )

-- What the channel has taken after each call.
pub send_sent :
    (bytes : List ℕ) (w u : World) {a : Unit {0}}
    → send bytes w ≡ (ok a, u)
    → u.sent ≡ w.sent ++ (bytes ∷ [])
unfolding send
send_sent bytes w u e = after (send_loop w.attempts) e
  where
    after :
        (r : Result (Unit {0}) × List Attempt) {a : Unit {0}}
        → after_send bytes w r ≡ (ok a, u)
        → u.sent ≡ w.sent ++ (bytes ∷ [])
    after (ok x, more) h = ap (λ r. (r.1).sent) (sym h)
    after (err x, more) h = absurd (cc)

pub check_sent : (w u : World) {a : Unit {0}} → check w ≡ (ok a, u) → u.sent ≡ w.sent
unfolding check
check_sent w u e = after w.checks e
  where
    after : (l : List Bool) {a : Unit {0}} → checked w l ≡ (ok a, u) → u.sent ≡ w.sent
    after [] h = ap (λ r. (r.1).sent) (sym h)
    after (stop ∷ more) h = ap (λ r. (r.1).sent) (sym h)

pub show_sent :
    (generation : ℕ) (f : Snapshot → Snapshot) (w u : World) {a : Unit {0}}
    → show generation f w ≡ (ok a, u)
    → u.sent ≡ w.sent
unfolding show
show_sent generation f w u e = ap (λ r. (r.1).sent) (sym e)

pub progress_sent :
    (generation bytes : ℕ) (total : Option ℕ) (w u : World) {a : Unit {0}}
    → progress generation bytes total w ≡ (ok a, u)
    → u.sent ≡ w.sent
unfolding progress show
progress_sent generation bytes total w u e = ap (λ r. (r.1).sent) (sym e)

pub receive_sent : (w u : World) {m : Message} → receive w ≡ (ok m, u) → u.sent ≡ w.sent
unfolding receive
receive_sent w u {m} e = ap (λ v. v.sent) (after_receive-ok w u m (receive_loop w.rounds) e).1
