-- ===== src/Service.antt =====
-- server/internal/service/service.go. A method takes, for each statement that it runs, whether the
-- database answers (`up`) and the time (`now`), and returns the new state with its result; `none` stands
-- for a panic, as in the queue. The digest of crypto/sha256 and the next UUID are parameters.
pub mod Tasks
pub mod Submit
pub mod Assign
pub mod Finish
pub mod Sound
pub mod Steps
pub mod Taken
pub mod Once
mod Examples
mod Handouts
use buildkit_multipartable.Base.{
  ℕ, suc, ◌+◌, ℤ, pos, negsuc, Bool, true, false, not, List, [], ◌∷◌, Option, none, some, Bytes,
  codes, eqb, if◌then◌else◌, ◌>>=◌, Result, ok, err, Float64,
}
use buildkit_multipartable.Domain.{Build, Worker, Status, pending, building, cancelled, other}
use buildkit_multipartable.Validate.{Errors, valid, single}
use buildkit_multipartable.Fingerprint.{from_dockerfile}
use buildkit_multipartable.Queue
use buildkit_multipartable.Queue.{Queue}
use buildkit_multipartable.Scheduler.{
  Scheduler, register_worker, mark_worker_idle, score_build_for_worker,
}
use buildkit_multipartable.Repo
use buildkit_multipartable.Repo.{Db, update_status, list_pending, is_pending, is_building}

pub record State : Type 0 where
  pub db : Db
  pub queue : Queue
  pub scheduler : Scheduler

-- The errors of BuildService. `from_repo` is an error of the repository, as it is or wrapped.
pub data Failure : Type 0 where
  invalid : Errors → Failure
  queue_full not_cancellable : Failure
  from_repo : Repo.Error → Failure

-- the arguments of SubmitBuild
pub record Submission : Type 0 where
  pub build_id : Bytes
  pub ctx_key : Bytes
  pub dockerfile : Bytes
  pub image_tag : Bytes
  pub user_id : Bytes
  pub timeout_sec : ℤ
  pub args : List (Bytes × Bytes)

-- the build that SubmitBuild makes
unfoldable pub new_build : (Bytes → Bytes) → Bytes → Submission → Build
new_build sha256 uuid sub =
    let fp = from_dockerfile sha256 sub.dockerfile in
    record {
      id = if eqb sub.build_id [] then uuid else sub.build_id;
      status = pending;
      fingerprint = fp.hash;
      worker_id = [];
      context_key = sub.ctx_key;
      dockerfile = sub.dockerfile;
      image_tag = sub.image_tag;
      args = sub.args;
      instructions = fp.instructions;
      logs = [];
      error = [];
      retry_count = pos 0;
      max_retries = pos 0;
      timeout_seconds = sub.timeout_sec;
      user_id = sub.user_id;
      priority = pos 0;
      cache_hit_rate = record { num = negsuc 0; den = 1 };
      created_at = 0;
      updated_at = 0;
      completed_at = none;
    }

-- what SubmitBuild makes of the result of Create
unfoldable pub created :
    State → Db × Build × Result Repo.Error (Unit {0}) → State × Result Failure Build
created s (db', b, err e) = (record s { db = db' }, err (from_repo e))
created s (db', b, ok _) = (record s { db = db' }, ok b)

-- SubmitBuild up to Create
unfoldable pub submit_begin :
    (Bytes → Bytes) → Bytes → Bool → ℕ → Submission → State → State × Result Failure Build
submit_begin sha256 uuid up now sub s =
    let v = single (record { dockerfile = sub.dockerfile; image_tag = sub.image_tag }) in
    if not (valid v)
    then (s, err (invalid v))
    else if Queue.full s.queue
    then (s, err queue_full)
    else created s (Repo.create up now (new_build sha256 uuid sub) s.db)

-- and from Push on
unfoldable pub submit_finish : Bool → ℕ → Build → State → Option (State × Result Failure Build)
submit_finish up now b s = do
  (q, pushed) ← Queue.push s.queue b
  if pushed
      then some (record s { queue = q }, ok b)
      else some (
        record s {
          queue = q;
          db =
              (update_status up now b.id cancelled [] [] (codes "queue full at submit time")
                s.db).0;
        },
        err queue_full,
      )

-- SubmitBuild, with what other goroutines do between Create and Push
unfoldable pub submit_build :
    (Bytes → Bytes)
    → Bytes
    → Bool
    → Bool
    → ℕ
    → (State → State)
    → Submission
    → State
    → Option (State × Result Failure Build)
submit_build sha256 uuid up up2 now meanwhile sub s =
    let (s', r) = submit_begin sha256 uuid up now sub s in
    elim r [ err e ↦ some (s', err e) | ok b ↦ submit_finish up2 now b (meanwhile s') ]

-- the loop that pushes builds until the queue is full, with the number pushed
unfoldable pub push_all : Queue → ℕ → List Build → Option (Queue × ℕ)
push_all q pushed [] = some (q, pushed)
push_all q pushed (b ∷ bs) = elim (Queue.push q b) [
  | none ↦ none
  | some r ↦ elim r.1 [ true ↦ push_all r.0 (suc pushed) bs | false ↦ some (r.0, pushed) ]
]

-- what AssignBuild makes of the result of UpdateStatus
unfoldable pub claimed :
    Bytes
    → Build
    → State
    → Db × Result Repo.Error (Unit {0})
    → State × Result Failure (Option Build)
claimed worker_id build s (db', err e) = (record s { db = db' }, err (from_repo e))
claimed worker_id build s (db', ok _) =
    (record s { db = db' }, ok (some (record build { status = building; worker_id = worker_id })))

-- the end of AssignBuild
unfoldable pub claim : Bool → ℕ → Bytes → Build → State → State × Result Failure (Option Build)
claim up now worker_id build s =
    claimed worker_id build s (update_status up now build.id building worker_id [] [] s.db)

module _ (fl : Float64) (up up2 : Bool) (now : ℕ) (worker_id : Bytes) where
  unfoldable pub peek : Scheduler → Queue → Option (Queue × Option Build)
  peek sched q =
      Queue.peek_by_score fl (λ b. score_build_for_worker fl b.instructions worker_id sched) q

  -- AssignBuild's second try, with the pending builds of the database in an empty queue
  unfoldable pub refill :
      Build → List Build → State → Option (State × Result Failure (Option Build))
  refill first rest s = do
    (q, pushed) ← push_all s.queue 0 (first ∷ rest)
    (q', found) ← peek s.scheduler q
    let build : Build = elim found [ some b ↦ b | none ↦ first ]
    some (claim up2 now worker_id build (record s { queue = q' }))

  unfoldable pub assign_build : State → Option (State × Result Failure (Option Build))
  assign_build s = do
    (q, found) ← peek s.scheduler s.queue
    let s' = record s { queue = q }
    elim found [
      | some build ↦ some (claim up2 now worker_id build s')
      | none ↦ elim (list_pending up s.db) [
        | err e ↦ some (s', ok none)
        | ok builds ↦ elim builds [ [] ↦ some (s', ok none) | first ∷ rest ↦ refill first rest s' ]
      ]
    ]

-- what CompleteBuild does with the result of Get
unfoldable pub free_worker : Result Repo.Error Build → Scheduler → Scheduler
free_worker (err e) sched = sched
free_worker (ok b) sched =
    if eqb b.worker_id [] then sched else mark_worker_idle b.worker_id (b.fingerprint ∷ []) sched

-- what CompleteBuild does with the result of UpdateStatus
unfoldable pub completed :
    Bool → Bytes → State → Db × Result Repo.Error (Unit {0}) → State × Result Failure (Unit {0})
unfolding free_worker
completed up2 id s (db', err e) = (record s { db = db' }, err (from_repo e))
completed up2 id s (db', ok _) =
    (record s { db = db'; scheduler = free_worker (Repo.get up2 id db') s.scheduler }, ok tt)

unfoldable pub complete_build :
    Bool → Bool → ℕ → Bytes → Status → Bytes → State → State × Result Failure (Unit {0})
unfolding completed
complete_build up up2 now id status err_msg s =
    completed up2 id s (update_status up now id status [] [] err_msg s.db)

abbrev pub is_cancellable : Status → Bool
is_cancellable pending = true
is_cancellable building = true
is_cancellable _ = false

-- the state and the result after CancelBuild's UpdateStatus
unfoldable pub cancelled_in :
    State → Db × Result Repo.Error (Unit {0}) → State × Result Failure (Unit {0})
cancelled_in s (db', err e) = (record s { db = db' }, err (from_repo e))
cancelled_in s (db', ok _) = (record s { db = db' }, ok tt)

-- CancelBuild for the row that Get finds
unfoldable pub cancel_row :
    Bool → ℕ → Bytes → State → Build → Option (State × Result Failure (Unit {0}))
unfolding cancelled_in
cancel_row up2 now id s b =
    if not (is_cancellable b.status) then some (s, err not_cancellable) else do
      (q, removed) ← Queue.remove s.queue id
      let s' = record s { queue = q }
      some (
          cancelled_in s'
            (update_status up2 now id cancelled [] [] (codes "cancelled by user") s'.db))

unfoldable pub cancel_build :
    Bool → Bool → ℕ → Bytes → State → Option (State × Result Failure (Unit {0}))
unfolding cancel_row
cancel_build up up2 now id s = elim (Repo.get up id s.db) [
  | err e ↦ some (s, err (from_repo e))
  | ok b ↦ cancel_row up2 now id s b
]

unfoldable pub queue_len : State → ℕ
queue_len s = Queue.len s.queue

-- what WarmQueue does with the result of ListPending
unfoldable pub warm_with :
    State → Result Repo.Error (List Build) → Option (State × Result Failure ℕ)
warm_with s (err e) = some (s, err (from_repo e))
warm_with s (ok builds) = do
  (q, pushed) ← push_all s.queue 0 builds
  some (record s { queue = q }, ok pushed)

unfoldable pub warm_queue : Bool → State → Option (State × Result Failure ℕ)
unfolding warm_with
warm_queue up s = warm_with s (list_pending up s.db)

unfoldable pub append_log : Bool → ℕ → Bytes → Bytes → State → State × Result Repo.Error (Unit {0})
append_log up now id line s =
    let (db', r) = update_status up now id (other []) [] line [] s.db in (record s { db = db' }, r)

-- WorkerService.Heartbeat
unfoldable pub heartbeat : Bool → ℕ → Worker → State → State × Result Repo.Error (Unit {0})
heartbeat up now w s =
    let (db', w', r) = Repo.upsert up now w s.db in
    elim r [
      | err e ↦ (record s { db = db' }, err e)
      | ok _ ↦ (
        record s {
          db = db';
          scheduler = register_worker w'.id w'.status w'.cache_keys s.scheduler;
        },
        ok tt,
      )
    ]

unfoldable pub prune_stale : Bool → ℕ → ℕ → State → State × Result Repo.Error (Unit {0})
prune_stale up now max_age s =
    let (db', r) = Repo.mark_offline up now max_age s.db in (record s { db = db' }, r)

unfoldable pub reassign_stale_builds :
    Bool → Bool → ℕ → ℕ → ℕ → State → State × Result Repo.Error (Unit {0})
reassign_stale_builds up up2 now worker_timeout build_timeout s =
    let (db', r) = Repo.reassign_stale up up2 now worker_timeout build_timeout s.db in
    (record s { db = db' }, r)

-- Maintenance.GCCompleted
unfoldable pub gc_completed : Bool → ℕ → State → State × Result Repo.Error ℕ
gc_completed up before s = let (db', r) = Repo.gc up before s.db in (record s { db = db' }, r)
