-- ===== src/Repo/Shape.antt =====
-- What every row looks like, whatever calls were made.
use buildkit_multipartable.Base.{
  ℕ, ◌≡◌, refl, Bool, true, false, Option, none, some, List, [], arith, Bytes, All, All-append, not,
}
use buildkit_multipartable.Domain.{Build, Worker, Rate, Status, pending, is_terminal, other}
use buildkit_multipartable.Repo.{
  Db, is_pending, update_where, is_overdue, is_stranded, is_expired, has_id, time_out_row,
  requeue_row, rate_row, inserted_row, find_row, create, update_status, reassign_stale, gc,
  set_cache_rate, upsert, mark_offline,
}
use buildkit_multipartable.Repo.Rows.{
  HasKeys, HasKeys-append, HasKeys-select, HasKeys-update_where, All-select, All-update_where,
  find_row-none,
}
use buildkit_multipartable.Repo.Update.{touch, updated_rows-HasKeys, All-updated_rows}
use buildkit_multipartable.Repo.Steps.{
  Step, creates, updates, reassigns, expires, rates, heartbeats, prunes, Reach, here, next,
  is_report, Reported, AllReported,
}

abbrev pub is_some {ℓ} : {A : Type ℓ} → Option A → Bool
is_some none = false
is_some (some a) = true

-- the status is one of the six constants
abbrev pub is_known : Status → Bool
is_known (other s) = false
is_known _ = true

-- A row has a known status, a completion time exactly if the status is terminal, and no worker while
-- it is pending.
pub record IsShaped (r : Build) : Type 0 where
  pub known : is_known r.status ≡ true
  pub completed : is_terminal r.status ≡ is_some r.completed_at
  pub unassigned : is_pending r.status ≡ true → r.worker_id ≡ []

pub record IsWellFormed (db : Db) : Type 0 where
  pub keys : HasKeys db.builds
  pub rows : All IsShaped db.builds

touch-IsShaped :
    (now : ℕ) (id : Bytes) (status : Status) (worker_id log_line err_msg : Bytes) (r : Build)
    → is_report status ≡ true
    → IsShaped r
    → IsShaped (touch now id status worker_id log_line err_msg r)
unfolding touch
touch-IsShaped now id status worker_id log_line err_msg r h v = record {
  known = ground (arith, v.known);
  completed = ground (arith, v.completed);
  unassigned = ground (arith, v.unassigned);
}

time_out_row-IsShaped : (now : ℕ) (r : Build) → IsShaped r → IsShaped (time_out_row now r)
unfolding time_out_row
time_out_row-IsShaped now r v = record { known = refl; completed = refl; unassigned = λ e. cc }

pub time_out_row-id : (now : ℕ) (r : Build) → (time_out_row now r).id ≡ r.id
unfolding time_out_row
time_out_row-id now r = refl

pub requeue_row-id : (now : ℕ) (r : Build) → (requeue_row now r).id ≡ r.id
unfolding requeue_row
requeue_row-id now r = refl

pub rate_row-id : (rate : Rate) (r : Build) → (rate_row rate r).id ≡ r.id
unfolding rate_row
rate_row-id rate r = refl

requeue_row-IsShaped :
    (now : ℕ) (r : Build) → IsShaped r → is_terminal r.status ≡ false → IsShaped (requeue_row now r)
unfolding requeue_row
requeue_row-IsShaped now r v h = record {
  known = refl;
  completed = ground (arith, v.completed);
  unassigned = λ _. refl;
}

inserted_row-IsShaped :
    (now : ℕ) (b : Build) → b.status ≡ pending → b.worker_id ≡ [] → IsShaped (inserted_row now b)
unfolding inserted_row
inserted_row-IsShaped now b s w = ground arith

rate_row-IsShaped : (rate : Rate) (r : Build) → IsShaped r → IsShaped (rate_row rate r)
unfolding rate_row
rate_row-IsShaped rate r v = record {
  known = v.known;
  completed = v.completed;
  unassigned = v.unassigned;
}

module _ (db : Db) (v : IsWellFormed db) where
  create-IsWellFormed :
      (up : Bool) (now : ℕ) (b : Build)
      → b.status ≡ pending
      → b.worker_id ≡ []
      → IsWellFormed (create up now b db).0
  unfolding create
  create-IsWellFormed false now b s w = v
  create-IsWellFormed true now b s w = by_row (find_row b.id db.builds) refl
    where
      by_row :
          (o : Option Build) → find_row b.id db.builds ≡ o → IsWellFormed (create true now b db).0
      by_row (some r) e = rw (e, create) v
      by_row none e =
          rw (e, create)
            (record {
              keys =
                  HasKeys-append db.builds (inserted_row now b) v.keys
                    (find_row-none b.id db.builds e);
              rows = All-append IsShaped db.builds _ v.rows (inserted_row-IsShaped now b s w, tt);
            })

  update_status-IsWellFormed :
      (up : Bool) (now : ℕ) (id : Bytes) (status : Status) (worker_id log_line err_msg : Bytes)
      → is_report status ≡ true
      → IsWellFormed (update_status up now id status worker_id log_line err_msg db).0
  unfolding update_status
  update_status-IsWellFormed false now id status worker_id log_line err_msg h = v
  update_status-IsWellFormed true now id status worker_id log_line err_msg h = ground (
    arith,
    updated_rows-HasKeys now id status worker_id log_line err_msg db.builds v.keys,
    All-updated_rows now id status worker_id log_line err_msg IsShaped db.builds
        (λ r. touch-IsShaped now id status worker_id log_line err_msg r h) v.rows,
  )

  time_outs-IsWellFormed :
      (now : ℕ)
      → IsWellFormed
          (record db { builds = update_where (is_overdue now) (time_out_row now) db.builds })
  time_outs-IsWellFormed now = record {
    keys =
        HasKeys-update_where (is_overdue now) (time_out_row now) (time_out_row-id now) db.builds
          v.keys;
    rows =
        All-update_where IsShaped (is_overdue now) (time_out_row now) db.builds
          (λ r s _. time_out_row-IsShaped now r s) v.rows;
  }

  requeues-IsWellFormed :
      (now t : ℕ) (workers : List Worker)
      → IsWellFormed (record db {
        builds = update_where (is_stranded now t workers) (requeue_row now) db.builds;
      })
  requeues-IsWellFormed now t workers = record {
    keys =
        HasKeys-update_where (is_stranded now t workers) (requeue_row now) (requeue_row-id now)
          db.builds v.keys;
    rows =
        All-update_where IsShaped (is_stranded now t workers) (requeue_row now) db.builds
          (λ r s h. requeue_row-IsShaped now r s (ground arith)) v.rows;
  }

  gc-IsWellFormed : (up : Bool) (before : ℕ) → IsWellFormed (gc up before db).0
  unfolding gc
  gc-IsWellFormed false before = v
  gc-IsWellFormed true before = record {
    keys = HasKeys-select (λ r. not (is_expired before r)) db.builds v.keys;
    rows = All-select IsShaped (λ r. not (is_expired before r)) db.builds v.rows;
  }

  set_cache_rate-IsWellFormed :
      (up : Bool) (id : Bytes) (rate : Rate) → IsWellFormed (set_cache_rate up id rate db).0
  unfolding set_cache_rate
  set_cache_rate-IsWellFormed false id rate = v
  set_cache_rate-IsWellFormed true id rate = record {
    keys = HasKeys-update_where (has_id id) (rate_row rate) (rate_row-id rate) db.builds v.keys;
    rows =
        All-update_where IsShaped (has_id id) (rate_row rate) db.builds
          (λ r s _. rate_row-IsShaped rate r s) v.rows;
  }

reassign_stale-IsWellFormed :
    (db : Db) (up up2 : Bool) (now t b : ℕ)
    → IsWellFormed db
    → IsWellFormed (reassign_stale up up2 now t b db).0
unfolding reassign_stale
reassign_stale-IsWellFormed db false up2 now t b v = v
reassign_stale-IsWellFormed db true false now t b v = time_outs-IsWellFormed db v now
reassign_stale-IsWellFormed db true true now t b v =
    requeues-IsWellFormed _ (time_outs-IsWellFormed db v now) now t db.workers

pub Step-IsWellFormed :
    {db e : Db} (step : Step db e) → Reported step → IsWellFormed db → IsWellFormed e
unfolding upsert mark_offline
Step-IsWellFormed {db} (creates up now b s w) h v = create-IsWellFormed db v up now b s w
Step-IsWellFormed {db} (updates up now id status worker_id log_line err_msg) h v =
    update_status-IsWellFormed db v up now id status worker_id log_line err_msg h
Step-IsWellFormed {db} (reassigns up up2 now t b) h v =
    reassign_stale-IsWellFormed db up up2 now t b v
Step-IsWellFormed {db} (expires up before) h v = gc-IsWellFormed db v up before
Step-IsWellFormed {db} (rates up id rate) h v = set_cache_rate-IsWellFormed db v up id rate
Step-IsWellFormed (heartbeats true now w) h v = record { keys = v.keys; rows = v.rows }
Step-IsWellFormed (heartbeats false now w) h v = v
Step-IsWellFormed (prunes true now t) h v = record { keys = v.keys; rows = v.rows }
Step-IsWellFormed (prunes false now t) h v = v

Reach-IsWellFormed :
    {db e : Db} → IsWellFormed db → (r : Reach db e) → AllReported r → IsWellFormed e
Reach-IsWellFormed v here h = v
Reach-IsWellFormed v (next r s) h = Step-IsWellFormed s h.1 (Reach-IsWellFormed v r h.0)

abbrev pub empty_db : Db
empty_db = record { builds = []; workers = [] }

-- Whatever calls the services make from empty tables on, in any order, at any times and with any
-- failures of the database, if each UpdateStatus has a terminal status, building or none, the ids are
-- distinct, and every row has a known status, a completion time
-- exactly if the status is terminal, and no worker while it is pending.
pub Reach-empty-IsWellFormed : {db : Db} (r : Reach empty_db db) → AllReported r → IsWellFormed db
Reach-empty-IsWellFormed = Reach-IsWellFormed (record { keys = tt; rows = tt })
