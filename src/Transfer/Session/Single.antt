-- ===== src/Transfer/Session/Single.antt =====
-- transfer.rs: one transfer at a time, and what `busy` and the token mean.
use macvnc.Base.{
  ℕ, suc, ◌≡◌, refl, sym, ap, subst, ◌∙◌, Bool, true, false, not, ◌||◌, [], ◌∷◌, ◌++◌, Option, none,
  some, Result, ok, err, ltb, ◌==◌, if◌then◌else◌, length,
}
use macvnc.FileTransfer.{Message}
use macvnc.Transfer.{text, update}
use macvnc.Transfer.Session.{
  Request, Job, Link, System, put, new_link, accepts, submitted, submit_to, submit, set_token,
  cancel, new_session, reply, stop_view, drop_session, Step, submits, cancels, connects, drops,
  replies, takes, starts, shows, ends, leaves, exits, Reachable, begins, goes,
}
use macvnc.Transfer.Session.Links.{
  waits, Works, rests, holds, IsSingle, put_hit, same_jobs, link_step, update_step, shows_lem,
  taking_lem, starting_lem, ending_lem, leaving_lem,
}

abbrev After : Result (Unit {0}) × System → Type 0
After r = IsSingle r.1

idle_running : (b : Bool) {c : Option ℕ} {l : Link} → b ≡ false → Works b c l → l.running ≡ none
idle_running b e (rests q r) = r
idle_running b e (holds h) = absurd (cc)

idle_queue : (b : Bool) {c : Option ℕ} {l : Link} → b ≡ false → Works b c l → l.queue ≡ none
idle_queue b e (rests q r) = q
idle_queue b e (holds h) = absurd (cc)

submit-IsSingle : (s : System) (request : Request) → IsSingle s → After (submit request s)
unfolding submit
submit-IsSingle s request v = cases s.shared.snapshot.busy refl
  where
    place :
        (g : ℕ)
        → s.shared.route ≡ some g
        → s.shared.snapshot.busy ≡ false
        → (b : Bool)
        → After (
            if b
            then (ok tt, submitted request s g)
            else (err "file worker is busy or unavailable", s))
    place g f e false = v
    place g f e true =
        let here : g ≡ s.shared.generation = v.owner g f in
        let none_runs : (s.links g).running ≡ none =
          rw here (idle_running s.shared.snapshot.busy e (v.works (f ∙ ap some here))) in
        let job : Job = record { request = request; token = s.next_token } in
        let l : Link = record (s.links g) { queue = some job } in
        record {
          owner = v.owner;
          works = λ k.
              subst (Works true (some s.next_token))
                (sym (ap (put g l s.links) (sym here) ∙ put_hit g l s.links))
                (holds {l = l} (rw none_runs (waits {job = job})));
        }

    to :
        (r : Option ℕ)
        → s.shared.route ≡ r
        → s.shared.snapshot.busy ≡ false
        → After (submit_to request s r)
    to none f e = v
    to (some g) f e = place g f e (accepts (s.links g))

    cases :
        (b : Bool)
        → s.shared.snapshot.busy ≡ b
        → After (
            if b
            then (err "a file transfer is already active", s)
            else submit_to request s s.shared.route)
    cases true e = v
    cases false e = to s.shared.route refl e

reply-IsSingle : (s : System) (g : ℕ) (m : Message) → IsSingle s → IsSingle (reply g m s)
unfolding reply
reply-IsSingle s g m v =
    cases (not (m.session == (s.links g).active_id) || m.session == 0)
      (ltb (length (s.links g).incoming) 8)
  where
    cases :
        (a b : Bool)
        → IsSingle (
            if a
            then s
            else if b
            then record s {
              links =
                  put g
                    (record (s.links g) { incoming = (s.links g).incoming ++ (m ∷ []) })
                    s.links;
            }
            else record s {
              shared =
                  update g
                    (λ view. record view {
                      status = text "File receiver could not keep up; disconnecting.";
                    })
                    s.shared;
              links = put g (record (s.links g) { disconnect = true; closed = true }) s.links;
            })
    cases true b = v
    cases false true = link_step s g _ v (λ b c w. same_jobs _ refl refl w)
    cases false false = update_step s g _ _ v (λ c w. same_jobs _ refl refl w)

drop_session-IsSingle : (s : System) (g : ℕ) → IsSingle s → IsSingle (drop_session g s)
unfolding drop_session
drop_session-IsSingle s g v = cases (s.shared.generation == g)
  where
    closed : Link
    closed = record (s.links g) { closed = true }

    cases :
        (b : Bool)
        → IsSingle (
            if b
            then record s {
              shared = record (s.shared) {
                route = none;
                cancel = none;
                snapshot = stop_view s.shared.snapshot;
              };
              links = put g closed s.links;
              tokens = set_token s.shared.cancel s.tokens;
            }
            else record s { links = put g closed s.links })
    cases true = record { owner = λ h e. absurd (cc); works = λ e. absurd (cc) }
    cases false = link_step s g closed v (λ b c w. same_jobs closed refl refl w)

-- Whatever happens, a step keeps the session single.
Step-IsSingle : {s s' : System} → Step s s' → IsSingle s → IsSingle s'
unfolding cancel new_session
Step-IsSingle (submits s request) v = submit-IsSingle s request v
Step-IsSingle (cancels s) v = record { owner = v.owner; works = v.works }
Step-IsSingle (connects s) v = record {
  owner = λ g e. cc;
  works = λ e.
      subst (Works false none) (sym (put_hit (suc s.shared.generation) new_link s.links))
        (rests refl refl);
}
Step-IsSingle (drops s g) v = drop_session-IsSingle s g v
Step-IsSingle (replies s g m) v = reply-IsSingle s g m v
Step-IsSingle (takes s g job e r d q) v =
    link_step s g _ v (λ b c w. taking_lem job (s.links g) q w)
Step-IsSingle (starts s g r e) v = link_step s g _ v (λ b c w. starting_lem r (s.links g) e w)
Step-IsSingle (shows s g f h) v = shows_lem s g f h v
Step-IsSingle (ends s g r result e) v =
    update_step s g _ _ v (λ c w. ending_lem r result (s.links g) s.shared.snapshot e w)
Step-IsSingle (leaves s g r result e) v =
    link_step s g _ v (λ b c w. leaving_lem r result (s.links g) w)
Step-IsSingle (exits s g e d) v = link_step s g _ v (λ b c w. same_jobs _ refl refl w)

pub Reachable-IsSingle : (s : System) → Reachable s → IsSingle s
Reachable-IsSingle s begins = record { owner = λ g e. absurd (cc); works = λ e. absurd (cc) }
Reachable-IsSingle s (goes {s = before} r step) = Step-IsSingle step (Reachable-IsSingle before r)

-- A client that is connected to a worker which is still there, and that is not busy, can submit: the
-- channel of jobs is never found full.
pub submit-accepted :
    (s : System) (request : Request) (g : ℕ)
    → Reachable s
    → s.shared.route ≡ some g
    → (s.links g).ended ≡ false
    → s.shared.snapshot.busy ≡ false
    → (submit request s).0 ≡ ok tt
unfolding submit
submit-accepted s request g r f alive e =
    let v = Reachable-IsSingle s r in
    let here : g ≡ s.shared.generation = v.owner g f in
    let free : (s.links g).queue ≡ none =
      rw here (idle_queue s.shared.snapshot.busy e (v.works (f ∙ ap some here))) in
    simp (e, f, alive, free) refl
