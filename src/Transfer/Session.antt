-- ===== src/Transfer/Session.antt =====
-- transfer.rs: the client of the user interface, the sessions, and the worker's loop over the jobs, on
-- the state that they share. A session is named by its generation, a token by a number.
pub mod Links
pub mod Single
use macvnc.Base.{
  ℕ, zero, suc, ◌+◌, ◌-◌, ◌^◌, Bool, true, false, not, ◌&&◌, ◌||◌, ◌≡◌, List, [], ◌∷◌, ◌++◌, Option,
  none, some, Result, ok, err, ltb, ◌==◌, if◌then◌else◌, length,
}
use macvnc.FileTransfer.{Message}
use macvnc.Transfer.{Status, idle, text, stopped, Snapshot, Shared, update}
use Prim.Native.String.{String}

pub data Request : Type 0 where
  upload_of : List ℕ → List ℕ → Bool → Request
  download_of : List ℕ → List ℕ → Request

-- `Job`, where `token` is the number of its token.
pub record Job : Type 0 where
  pub request : Request
  pub token : ℕ

-- The job that the worker is at, with its transfer ID and `started`.
pub record Running : Type 0 where
  pub job : Job
  pub id : ℕ
  pub started : Bool

-- What a session and its worker share: the channel of jobs, which holds one, the job that the worker
-- is at, the last job with its result from when the result is shown until the loop goes on or ends, the
-- next ID and whether the loop has ended, the flags, and the channel of replies.
pub record Link : Type 0 where
  pub queue : Option Job
  pub running : Option Running
  pub left : Option (Running × Result (Unit {0}))
  pub next_id : ℕ
  pub ended : Bool
  pub closed : Bool
  pub disconnect : Bool
  pub active_id : ℕ
  pub incoming : List Message

pub record System : Type 0 where
  pub shared : Shared
  pub links : ℕ → Link
  pub tokens : ℕ → Bool
  pub next_token : ℕ

abbrev pub put {ℓ} : {A : Type ℓ} → ℕ → A → (ℕ → A) → ℕ → A
put k a f n = if n == k then a else f n

abbrev pub new_link : Link
new_link = record {
  queue = none;
  running = none;
  left = none;
  next_id = 2;
  ended = false;
  closed = false;
  disconnect = false;
  active_id = 0;
  incoming = [];
}

abbrev pub preparing : Snapshot
preparing = record { busy = true; bytes = 0; total = none; status = text "Preparing file…" }

-- `try_send` on the channel of jobs.
abbrev pub is_free : Option Job → Bool
is_free none = true
is_free (some job) = false

abbrev pub accepts : Link → Bool
accepts l = not l.ended && is_free l.queue

abbrev pub submitted : Request → System → ℕ → System
submitted request s g = record s {
  shared = record (s.shared) { cancel = some s.next_token; snapshot = preparing };
  links =
      put g
        (record (s.links g) { queue = some (record { request = request; token = s.next_token }) })
        s.links;
  next_token = suc s.next_token;
}

abbrev pub submit_to : Request → System → Option ℕ → Result (Unit {0}) × System
submit_to request s none = (err "connect to the Mac first", s)
submit_to request s (some g) =
    if accepts (s.links g)
    then (ok tt, submitted request s g)
    else (err "file worker is busy or unavailable", s)

unfoldable pub submit : Request → System → Result (Unit {0}) × System
submit request s =
    if s.shared.snapshot.busy
    then (err "a file transfer is already active", s)
    else submit_to request s s.shared.route

abbrev pub set_token : Option ℕ → (ℕ → Bool) → ℕ → Bool
set_token none tokens = tokens
set_token (some t) tokens = put t true tokens

-- `Client::cancel`
unfoldable pub cancel : System → System
cancel s = record s { tokens = set_token s.shared.cancel s.tokens }

-- `Session::new`
unfoldable pub new_session : System → System
new_session s =
    let g = suc s.shared.generation in
    record s {
      shared = record {
        generation = g;
        route = some g;
        cancel = none;
        snapshot = record { busy = false; bytes = 0; total = none; status = idle };
      };
      links = put g new_link s.links;
    }

-- `try_send` on the channel of replies, which holds eight.
unfoldable pub reply : ℕ → Message → System → System
reply g m s =
    let l = s.links g in
    if not (m.session == l.active_id) || m.session == 0
    then s
    else if ltb (length l.incoming) 8
    then record s { links = put g (record l { incoming = l.incoming ++ (m ∷ []) }) s.links }
    else record s {
      shared =
          update g
            (λ view. record view {
              status = text "File receiver could not keep up; disconnecting.";
            })
            s.shared;
      links = put g (record l { disconnect = true; closed = true }) s.links;
    }

abbrev pub stop_view : Snapshot → Snapshot
stop_view view =
    if view.busy
    then record view {
      busy = false;
      status =
          text "Transfer stopped with the screen-sharing session. Partial Mac files may remain.";
    }
    else view

-- `Session::drop`
unfoldable pub drop_session : ℕ → System → System
drop_session g s =
    let links = put g (record (s.links g) { closed = true }) s.links in
    if s.shared.generation == g
    then record s {
      shared = record (s.shared) {
        route = none;
        cancel = none;
        snapshot = stop_view s.shared.snapshot;
      };
      links = links;
      tokens = set_token s.shared.cancel s.tokens;
    }
    else record s { links = links }

-- `run`: the worker takes a job.
abbrev pub taking : Job → Link → Link
taking job l = record l {
  queue = none;
  incoming = [];
  active_id = l.next_id;
  running = some (record { job = job; id = l.next_id; started = false });
}

abbrev pub begin_job : ℕ → Job → System → System
begin_job g job s = record s { links = put g (taking job (s.links g)) s.links }

-- `*started = true`
abbrev pub starting : Running → Link → Link
starting r l = record l { running = some (record r { started = true }) }

abbrev pub start_job : ℕ → Running → System → System
start_job g r s = record s { links = put g (starting r (s.links g)) s.links }

abbrev pub job_view : Bool → Result (Unit {0}) → Snapshot → Snapshot
job_view started (ok _) view = record view {
  busy = false;
  status = text "Transfer complete · Mac confirmed completion.";
}
job_view started (err e) view = record view { busy = false; status = stopped e started }

-- `run`: the worker shows the result of its job; what comes behind that is a step of its own.
abbrev pub ending : Running → Result (Unit {0}) → Link → Link
ending r result l = record l { active_id = 0; running = none; left = some (r, result) }

abbrev pub end_job : ℕ → Running → Result (Unit {0}) → System → System
end_job g r result s = record s {
  shared = update g (job_view r.started result) s.shared;
  links = put g (ending r result (s.links g)) s.links;
}

-- `id.checked_add(1)`: behind the last ID the loop ends.
abbrev pub next_id_of : Running → Link → Link
next_id_of r l = record l { next_id = suc r.id; ended = not (ltb (suc r.id) (2 ^ 32)) }

-- After an error in a transfer that had started the loop ends too.
abbrev pub after_error : Bool → Running → Link → Link
after_error true r l = record l { disconnect = true; ended = true }
after_error false r l = next_id_of r l

abbrev pub next_job : Running → Result (Unit {0}) → Link → Link
next_job r (ok _) l = next_id_of r l
next_job r (err e) l = after_error r.started r l

abbrev pub leaving : Running → Result (Unit {0}) → Link → Link
leaving r result l = next_job r result (record l { left = none })

-- `run`: the worker goes on behind a job, or its loop ends.
abbrev pub leave_job : ℕ → Running → Result (Unit {0}) → System → System
leave_job g r result s = record s { links = put g (leaving r result (s.links g)) s.links }

-- `run`: the loop ends, since the session is closed or gone.
abbrev pub end_worker : ℕ → System → System
end_worker g s = record s { links = put g (record (s.links g) { ended = true }) s.links }

-- What may happen next. The worker of a session takes a job when it is at none and done with the one
-- before, shows its progress, ends it with any result, and then leaves it.
pub data Step : System → System → Type 0 where
  submits : (s : System) (request : Request) → Step s (submit request s).1
  cancels : (s : System) → Step s (cancel s)
  connects : (s : System) → Step s (new_session s)
  drops : (s : System) (g : ℕ) → Step s (drop_session g s)
  replies : (s : System) (g : ℕ) (m : Message) → Step s (reply g m s)
  takes :
      (s : System) (g : ℕ) (job : Job)
      → (s.links g).ended ≡ false
      → (s.links g).running ≡ none
      → (s.links g).left ≡ none
      → (s.links g).queue ≡ some job
      → Step s (begin_job g job s)
  starts :
      (s : System) (g : ℕ) (r : Running) → (s.links g).running ≡ some r → Step s (start_job g r s)
  shows :
      (s : System) (g : ℕ) (f : Snapshot → Snapshot)
      → ((view : Snapshot) → (f view).busy ≡ view.busy)
      → Step s (record s { shared = update g f s.shared })
  ends :
      (s : System) (g : ℕ) (r : Running) (result : Result (Unit {0}))
      → (s.links g).running ≡ some r
      → Step s (end_job g r result s)
  leaves :
      (s : System) (g : ℕ) (r : Running) (result : Result (Unit {0}))
      → (s.links g).left ≡ some (r, result)
      → Step s (leave_job g r result s)
  exits :
      (s : System) (g : ℕ)
      → (s.links g).running ≡ none
      → (s.links g).left ≡ none
      → Step s (end_worker g s)

abbrev pub initial : System
initial = record {
  shared = record {
    generation = 0;
    route = none;
    cancel = none;
    snapshot = record { busy = false; bytes = 0; total = none; status = text "" };
  };
  links = λ g. new_link;
  tokens = λ t. false;
  next_token = 0;
}

pub data Reachable : System → Type 0 where
  begins : Reachable initial
  goes : {s s' : System} → Reachable s → Step s s' → Reachable s'
