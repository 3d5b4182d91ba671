-- ===== src/Transfer/Worker.antt =====
-- transfer.rs: check, send, receive and progress of the worker.
use macvnc.Base.{ℕ, Bool, true, false, List, [], ◌∷◌, ◌++◌, Option, Result, ok, err, ◌≡◌, refl}
use macvnc.Connection.Monad.{Action, ◌>>=◌}
use macvnc.FileTransfer.{Message}
use macvnc.Transfer.{
  Snapshot, update, Sending, taken, full, gone, Attempt, Receiving, arrived, nothing_yet, closed,
  Round, World,
}

abbrev pub Work : Type 0 → Type 0
Work A = Action World A

-- `fail` says that the token or `closed` is set.
abbrev check_result : Bool → Result (Unit {0})
check_result true = err "transfer cancelled"
check_result false = ok tt

abbrev pub checked : World → List Bool → Result (Unit {0}) × World
checked w [] = (ok tt, w)
checked w (stop ∷ more) = (check_result stop, record w { checks = more })

unfoldable pub check : Work (Unit {0})
check w = checked w w.checks

abbrev after_attempt :
    Bool
    → Sending
    → Bool
    → List Attempt
    → Result (Unit {0}) × List Attempt
    → Result (Unit {0}) × List Attempt
after_attempt true answer late more rest = (err "transfer cancelled", more)
after_attempt false taken late more rest = (ok tt, more)
after_attempt false gone late more rest = (err "screen-sharing session closed", more)
after_attempt false full true more rest = (err "file sender timed out", more)
after_attempt false full false more rest = rest

-- The loop of `send`. It ends after 15 seconds at most, which is how a script that ends counts.
unfoldable pub send_loop : List Attempt → Result (Unit {0}) × List Attempt
send_loop [] = (err "file sender timed out", [])
send_loop (a ∷ more) = after_attempt a.stop a.answer a.late more (send_loop more)

abbrev pub after_send :
    List ℕ → World → Result (Unit {0}) × List Attempt → Result (Unit {0}) × World
after_send bytes w (ok _, more) =
    (ok tt, record w { attempts = more; sent = w.sent ++ (bytes ∷ []) })
after_send bytes w (err e, more) = (err e, record w { attempts = more })

unfoldable pub send : List ℕ → Work (Unit {0})
send bytes w = after_send bytes w (send_loop w.attempts)

abbrev pub after_round :
    Bool → Bool → Receiving → List Round → Result Message × List Round → Result Message × List Round
after_round true late answer more rest = (err "transfer cancelled", more)
after_round false true answer more rest = (err "Mac did not confirm the transfer", more)
after_round false false (arrived m) more rest = (ok m, more)
after_round false false nothing_yet more rest = rest
after_round false false closed more rest = (err "screen-sharing session closed", more)

-- The loop of `receive`, which ends after 15 seconds too.
unfoldable pub receive_loop : List Round → Result Message × List Round
receive_loop [] = (err "Mac did not confirm the transfer", [])
receive_loop (r ∷ more) = after_round r.stop r.late r.answer more (receive_loop more)

abbrev pub after_receive : World → Result Message × List Round → Result Message × World
after_receive w (r, more) = (r, record w { rounds = more })

unfoldable pub receive : Work Message
receive w = after_receive w (receive_loop w.rounds)

-- `self.client.update`
unfoldable pub show : ℕ → (Snapshot → Snapshot) → Work (Unit {0})
show generation f w = (ok tt, record w { shared = update generation f w.shared })

unfoldable pub progress : ℕ → ℕ → Option ℕ → Work (Unit {0})
progress generation bytes total =
    show generation (λ view. record view { bytes = bytes; total = total })

-- A result of other code, with its error passed on.
abbrev pub lift : {A : Type 0} → Result A → Work A
lift r w = (r, w)

pub lift-ok :
    {A B : Type 0} (r : Result A) (f : A → Work B) {w t : World} {b : B}
    → (lift r >>= f) w ≡ (ok b, t)
    → (a : A) × (r ≡ ok a) × (f a w ≡ (ok b, t))
lift-ok (ok a) f e = (a, refl, e)
lift-ok (err x) f e = absurd (cc)
