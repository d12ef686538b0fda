-- ===== src/Repo/Steps.antt =====
-- The calls that the services make on the tables, as a step relation. Which call comes next, with
-- which arguments, at what time, and whether the database answers, is left open.
use buildkit_multipartable.Base.{ℕ, ◌≡◌, Bool, true, ◌||◌, [], Bytes}
use buildkit_multipartable.Domain.{Build, Worker, Rate, Status, pending, is_terminal}
use buildkit_multipartable.Repo.{
  Db, is_building, is_unset, create, update_status, reassign_stale, gc, set_cache_rate, upsert,
  mark_offline,
}

-- The statuses that the services themselves pass to UpdateStatus: a terminal one, `building`, or "" for a
-- log line. CompleteBuild passes on what its caller gives.
abbrev pub is_report : Status → Bool
is_report s = is_terminal s || is_building s || is_unset s

pub data Step (db : Db) : Db → Type 0 where
  -- a new build is pending and has no worker
  creates :
      (up : Bool) (now : ℕ) (b : Build)
      → b.status ≡ pending
      → b.worker_id ≡ []
      → Step db (create up now b db).0
  -- any status
  updates :
      (up : Bool) (now : ℕ) (id : Bytes) (status : Status) (worker_id log_line err_msg : Bytes)
      → Step db (update_status up now id status worker_id log_line err_msg db).0
  reassigns :
      (up up2 : Bool) (now worker_timeout build_timeout : ℕ)
      → Step db (reassign_stale up up2 now worker_timeout build_timeout db).0
  expires : (up : Bool) (before : ℕ) → Step db (gc up before db).0
  rates : (up : Bool) (id : Bytes) (rate : Rate) → Step db (set_cache_rate up id rate db).0
  heartbeats : (up : Bool) (now : ℕ) (w : Worker) → Step db (upsert up now w db).0
  prunes : (up : Bool) (now max_age : ℕ) → Step db (mark_offline up now max_age db).0

pub data Reach (db : Db) : Db → Type 0 where
  here : Reach db db
  next : {d e : Db} → Reach db d → Step d e → Reach db e

-- An UpdateStatus of the step has one of these statuses.
abbrev pub Reported : {db e : Db} → Step db e → Type 0
Reported (updates up now id status worker_id log_line err_msg) = is_report status ≡ true
Reported _ = Unit {0}

abbrev pub AllReported : {db e : Db} → Reach db e → Type 0
AllReported here = Unit {0}
AllReported (next r step) = AllReported r × Reported step
