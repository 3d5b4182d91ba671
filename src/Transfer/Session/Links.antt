-- ===== src/Transfer/Session/Links.antt =====
-- transfer.rs: the jobs of a session, and what one step makes of them.
use macvnc.Base.{
  ℕ, ◌≡◌, inl, inr, refl, sym, ap, subst, ◌∙◌, Bool, true, false, Option, none, some, Result, ok,
  err, ◌==◌, ==_self, Bool-cases, if◌then◌else◌, arith,
}
use macvnc.Transfer.{Snapshot, update}
use macvnc.Transfer.Session.{
  Job, Running, Link, System, put, taking, starting, ending, leaving, after_error, job_view,
}

-- The session has exactly one job, with the token: it waits for the worker, or the worker is at it.
pub data Holds : Option Job → Option Running → ℕ → Type 0 where
  waits : {job : Job} → Holds (some job) none job.token
  runs : {r : Running} → Holds none (some r) (r.job).token

-- The jobs of the session that the channel leads to: none, or where the client is busy exactly one, and
-- the client's token is the job's.
pub data Works : Bool → Option ℕ → Link → Type 0 where
  rests : {cancel : Option ℕ} {l : Link} → l.queue ≡ none → l.running ≡ none → Works false cancel l
  holds : {token : ℕ} {l : Link} → Holds l.queue l.running token → Works true (some token) l

pub record IsSingle (s : System) : Type 0 where
  pub owner : (g : ℕ) → s.shared.route ≡ some g → g ≡ s.shared.generation
  pub works :
      s.shared.route ≡ some s.shared.generation
      → Works s.shared.snapshot.busy s.shared.cancel (s.links s.shared.generation)

pub put_hit : {A : Type 0} (k : ℕ) (a : A) (f : ℕ → A) → put k a f k ≡ a
put_hit k a f = rw (==_self k) refl

pub put_other : {A : Type 0} (k n : ℕ) (a : A) (f : ℕ → A) → (n == k) ≡ false → put k a f n ≡ f n
put_other k n a f e = rw e refl

pub same_jobs :
    {b : Bool} {c : Option ℕ} {l : Link} (l' : Link)
    → l'.queue ≡ l.queue
    → l'.running ≡ l.running
    → Works b c l
    → Works b c l'
same_jobs l' q r (rests a b) = rests (q ∙ a) (r ∙ b)
same_jobs l' q r (holds h) = holds (rw (q, r) h)

abbrev Now : System → Type 0
Now s = Works s.shared.snapshot.busy s.shared.cancel (s.links s.shared.generation)

-- A step that concerns the session `g`.
module _ (s : System) (g : ℕ) where
  -- The link changes, and what it shows of the client's state where the session is the latest.
  pub link_step :
      (l : Link)
      → IsSingle s
      → ((b : Bool) (c : Option ℕ) → Works b c (s.links g) → Works b c l)
      → IsSingle (record s { links = put g l s.links })
  link_step l v h = record {
    owner = v.owner;
    works = λ r. elim (Bool-cases (s.shared.generation == g)) [
      | inl e ↦
          let same : s.shared.generation ≡ g = ground (arith, e) in
          rw e (
            h _ _ (
              subst (λ n. Works s.shared.snapshot.busy s.shared.cancel (s.links n)) same
                (v.works r)))
      | inr e ↦ rw e (v.works r)
    ];
  }

  pub update_step :
      (f : Snapshot → Snapshot) (l : Link)
      → IsSingle s
      → ((c : Option ℕ)
          → Works s.shared.snapshot.busy c (s.links g)
          → Works (f s.shared.snapshot).busy c l)
      → IsSingle (record s { shared = update g f s.shared; links = put g l s.links })
  unfolding update
  update_step f l v h = cases (s.shared.generation == g) refl
    where
      cases :
          (b : Bool)
          → (s.shared.generation == g) ≡ b
          → IsSingle (record s {
            shared = if b then record (s.shared) { snapshot = f s.shared.snapshot } else s.shared;
            links = put g l s.links;
          })
      cases true e =
          let same : s.shared.generation ≡ g = ground (arith, e) in
          record {
            owner = v.owner;
            works = λ r. rw e (
                h _ (
                  subst (λ n. Works s.shared.snapshot.busy s.shared.cancel (s.links n)) same
                    (v.works r)));
          }
      cases false e = record { owner = v.owner; works = λ r. rw e (v.works r) }

pub shows_lem :
    (s : System) (g : ℕ) (f : Snapshot → Snapshot)
    → ((view : Snapshot) → (f view).busy ≡ view.busy)
    → IsSingle s
    → IsSingle (record s { shared = update g f s.shared })
unfolding update
shows_lem s g f h v = cases (s.shared.generation == g)
  where
    cases :
        (b : Bool)
        → IsSingle (record s {
          shared = if b then record (s.shared) { snapshot = f s.shared.snapshot } else s.shared;
        })
    cases true = record { owner = v.owner; works = λ r. rw (h s.shared.snapshot) (v.works r) }
    cases false = record { owner = v.owner; works = v.works }

pub waits_token :
    {q : Option Job} {r : Option Running} {t : ℕ} (job : Job)
    → Holds q r t
    → q ≡ some job
    → t ≡ job.token
waits_token job (waits {job = other}) e = let same : other ≡ job = cc in ap (λ j. j.token) same
waits_token job runs e = absurd (cc)

pub runs_token :
    {q : Option Job} {r : Option Running} {t : ℕ} (x : Running)
    → Holds q r t
    → r ≡ some x
    → (q ≡ none) × (t ≡ (x.job).token)
runs_token x waits e = absurd (cc)
runs_token x (runs {r = other}) e =
    let same : other ≡ x = cc in (refl, ap (λ y. (y.job).token) same)

pub taking_lem :
    {b : Bool} {c : Option ℕ} (job : Job) (l : Link)
    → l.queue ≡ some job
    → Works b c l
    → Works b c (taking job l)
taking_lem job l q (rests a r) = absurd (cc)
taking_lem job l q (holds {token} h) =
    holds (subst (Holds none (taking job l).running) (sym (waits_token job h q)) runs)

pub starting_lem :
    {b : Bool} {c : Option ℕ} (r : Running) (l : Link)
    → l.running ≡ some r
    → Works b c l
    → Works b c (starting r l)
starting_lem r l e (rests q a) = absurd (cc)
starting_lem r l e (holds h) =
    let (q, t) = runs_token r h e in holds (rw (q, t) (runs {r = record r { started = true }}))

pub ending_lem :
    {b : Bool} {c : Option ℕ} (r : Running) (result : Result (Unit {0})) (l : Link)
    (view : Snapshot)
    → l.running ≡ some r
    → Works b c l
    → Works (job_view r.started result view).busy c (ending r result l)
ending_lem r result l view e (rests q a) = absurd (cc)
ending_lem r (ok x) l view e (holds h) = rests (runs_token r h e).0 refl
ending_lem r (err x) l view e (holds h) = rests (runs_token r h e).0 refl

-- What comes behind a job leaves the jobs as they are.
pub leaving_lem :
    {b : Bool} {c : Option ℕ} (r : Running) (result : Result (Unit {0})) (l : Link)
    → Works b c l
    → Works b c (leaving r result l)
leaving_lem r (ok x) l w = same_jobs _ refl refl w
leaving_lem {b} {c} r (err x) l w = failed r.started
  where
    failed : (started : Bool) → Works b c (after_error started r (record l { left = none }))
    failed true = same_jobs _ refl refl w
    failed false = same_jobs _ refl refl w
