-- ===== src/Service/Steps.antt =====
-- The services under any sequence of calls. SubmitBuild is two steps, since others may come in between.
use buildkit_multipartable.Base.{
  ℕ, ◌≡◌, refl, [], true, Bool, Option, some, Bytes, Result, Float64, ℤ,
}
use buildkit_multipartable.Domain.{Build, Worker, Status}
use buildkit_multipartable.Queue
use buildkit_multipartable.Queue.Insert.{new-IsValid}
use buildkit_multipartable.Repo
use buildkit_multipartable.Repo.{Db}
use buildkit_multipartable.Repo.Steps as Calls
use buildkit_multipartable.Repo.Steps.{is_report}
use buildkit_multipartable.Repo.Shape.{empty_db}
use buildkit_multipartable.Scheduler
use buildkit_multipartable.Scheduler.Shape.{new-IsShaped}
use buildkit_multipartable.Service.{
  State, Failure, Submission, submit_begin, submit_finish, assign_build, complete_build,
  cancel_build, warm_queue, append_log, heartbeat, prune_stale, reassign_stale_builds, gc_completed,
}
use buildkit_multipartable.Service.Sound.{
  IsSound, leaves, with_db, submit_begin-IsSound, submit_finish-Leaves, assign_build-Leaves,
  completed-IsSound, cancel_build-Leaves, warm_with-Leaves, heartbeat-IsSound,
}

-- The calls of a server, with any arguments, at any times and with any failures of the database.
pub data Step (s : State) : State → Type 1 where
  begins :
      (sha256 : Bytes → Bytes) (uuid : Bytes) (up : Bool) (now : ℕ) (sub : Submission)
      → Step s (submit_begin sha256 uuid up now sub s).0
  finishes :
      (up : Bool) (now : ℕ) (b : Build) {t : State} (r : Result Failure Build)
      → submit_finish up now b s ≡ some (t, r)
      → Step s t
  assigns :
      (fl : Float64) (up up2 : Bool) (now : ℕ) (worker_id : Bytes) {t : State}
      (r : Result Failure (Option Build))
      → assign_build fl up up2 now worker_id s ≡ some (t, r)
      → Step s t
  completes :
      (up up2 : Bool) (now : ℕ) (id : Bytes) (status : Status) (msg : Bytes)
      → Step s (complete_build up up2 now id status msg s).0
  cancels :
      (up up2 : Bool) (now : ℕ) (id : Bytes) {t : State} (r : Result Failure (Unit {0}))
      → cancel_build up up2 now id s ≡ some (t, r)
      → Step s t
  warms : (up : Bool) {t : State} (r : Result Failure ℕ) → warm_queue up s ≡ some (t, r) → Step s t
  logs : (up : Bool) (now : ℕ) (id line : Bytes) → Step s (append_log up now id line s).0
  heartbeats : (up : Bool) (now : ℕ) (w : Worker) → Step s (heartbeat up now w s).0
  prunes : (up : Bool) (now max_age : ℕ) → Step s (prune_stale up now max_age s).0
  reassigns :
      (up up2 : Bool) (now worker_timeout build_timeout : ℕ)
      → Step s (reassign_stale_builds up up2 now worker_timeout build_timeout s).0
  collects : (up : Bool) (before : ℕ) → Step s (gc_completed up before s).0

pub data Reach (s : State) : State → Type 1 where
  here : Reach s s
  next : {t u : State} → Reach s t → Step t u → Reach s u

-- A completion reports a terminal status, building or none.
abbrev pub Reported : {s t : State} → Step s t → Type 0
Reported (completes up up2 now id status msg) = is_report status ≡ true
Reported _ = Unit {0}

abbrev pub AllReported : {s t : State} → Reach s t → Type 0
AllReported here = Unit {0}
AllReported (next r step) = AllReported r × Reported step

pub Step-IsSound : {s t : State} (step : Step s t) → Reported step → IsSound s → IsSound t
unfolding complete_build warm_queue append_log prune_stale reassign_stale_builds gc_completed
Step-IsSound {s} (begins sha256 uuid up now sub) h v =
    submit_begin-IsSound s v sha256 uuid up now sub
Step-IsSound {s} (finishes up now b r e) h v = leaves (submit_finish-Leaves s v up now b) e
Step-IsSound {s} (assigns fl up up2 now worker_id r e) h v =
    leaves (assign_build-Leaves fl up up2 now worker_id s v) e
Step-IsSound {s} (completes up up2 now id status msg) h v =
    completed-IsSound s v up2 id _ (with_db s v (Calls.updates up now id status [] [] msg) h)
Step-IsSound {s} (cancels up up2 now id r e) h v = leaves (cancel_build-Leaves s v up up2 now id) e
Step-IsSound {s} (warms up r e) h v = leaves (warm_with-Leaves s v (Repo.list_pending up s.db)) e
Step-IsSound {s} (logs up now id line) h v = with_db s v (Calls.updates up now id _ [] line []) refl
Step-IsSound {s} (heartbeats up now w) h v = heartbeat-IsSound s v up now w
Step-IsSound {s} (prunes up now max_age) h v = with_db s v (Calls.prunes up now max_age) tt
Step-IsSound {s} (reassigns up up2 now worker_timeout build_timeout) h v =
    with_db s v (Calls.reassigns up up2 now worker_timeout build_timeout) tt
Step-IsSound {s} (collects up before) h v = with_db s v (Calls.expires up before) tt

-- The state of a server that starts on empty tables.
abbrev pub start : ℤ → State
start max_len = record { db = empty_db; queue = Queue.new max_len; scheduler = Scheduler.new }

pub Reach-IsSound : {s t : State} → IsSound s → (r : Reach s t) → AllReported r → IsSound t
Reach-IsSound v here h = v
Reach-IsSound v (next r step) h = Step-IsSound step h.1 (Reach-IsSound v r h.0)

-- Whatever calls a server that starts on empty tables serves, in any order, with SubmitBuild as two steps
-- between which others may come, the queue is a heap within its bound, the ids of the rows are distinct
-- and each row has a known status, a completion time exactly if that is terminal and no worker while it
-- is pending, and the scheduler's ring is sorted and has the nodes of all idle workers and of no worker
-- that is offline, if every completion reports a terminal status, building or none.
pub Reach-start-IsSound :
    (max_len : ℤ) {s : State} (r : Reach (start max_len) s) → AllReported r → IsSound s
Reach-start-IsSound max_len = Reach-IsSound (record {
  queue = new-IsValid max_len;
  db = record { keys = tt; rows = tt };
  scheduler = new-IsShaped;
})
