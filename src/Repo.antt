-- ===== src/Repo.antt =====
-- server/internal/repo/repo.go: the tables `builds` and `workers`, and the methods of BuildRepo and
-- WorkerRepo. A method takes whether the database answers (`up`) and the time of the call (`now`),
-- and returns the new state with its result. JSON columns hold the value that they encode.
pub mod Rows
pub mod Update
pub mod Claims
pub mod Taken
pub mod Shape
pub mod Steps
pub mod Paths
pub mod Examples
use buildkit_multipartable.Base.{
  ℕ, ◌+◌, ◌-◌, ◌%◌, ℤ, pos, pos_part, neg_part, Bool, true, false, not, ◌&&◌, ◌||◌, List, [], ◌∷◌,
  ◌++◌, Option, none, some, Bytes, codes, eqb, length, take, select, any, ltb, leb, ltb_ℤ, ◌==◌,
  if◌then◌else◌, Result, ok, err,
}
use buildkit_multipartable.Base.Sort.{sort}
use buildkit_multipartable.Domain.{
  Build, Worker, Rate, Status, pending, building, timed_out, other, is_terminal,
}

pub record Db : Type 0 where
  pub builds : List Build
  pub workers : List Worker

-- What a method reports: the driver fails, no row fits, the primary key exists already, or "build
-- already claimed or not pending".
pub data Error : Type 0 where
  unavailable no_rows duplicate_key already_claimed : Error

abbrev pub is_pending : Status → Bool
is_pending pending = true
is_pending _ = false

abbrev pub is_building : Status → Bool
is_building building = true
is_building _ = false

-- `status == ""`
abbrev pub is_unset : Status → Bool
is_unset (other []) = true
is_unset _ = false

-- UPDATE … SET `change` WHERE `test`
unfoldable pub update_where {ℓ} : {A : Type ℓ} → (A → Bool) → (A → A) → List A → List A
update_where test change [] = []
update_where test change (r ∷ rs) = (if test r then change r else r) ∷ update_where test change rs

-- the row with the key `id`
unfoldable pub find_row : Bytes → List Build → Option Build
find_row id [] = none
find_row id (r ∷ rs) = if eqb r.id id then some r else find_row id rs

-- the row that insertBuild writes; columns that it does not name take their defaults
unfoldable pub inserted_row : ℕ → Build → Build
inserted_row now b = record b {
  logs = [];
  error = [];
  created_at = now;
  updated_at = now;
  completed_at = none;
}

-- Create, with insertBuild. The caller's build gets its times in any case.
unfoldable pub create : Bool → ℕ → Build → Db → Db × Build × Result Error (Unit {0})
unfolding find_row inserted_row
create up now b db =
    let b' = record b { created_at = now; updated_at = now } in
    if not up then (db, b', err unavailable) else elim (find_row b.id db.builds) [
      | some r ↦ (db, b', err duplicate_key)
      | none ↦ (record db { builds = db.builds ++ inserted_row now b ∷ [] }, b', ok tt)
    ]

-- Get
unfoldable pub get : Bool → Bytes → Db → Result Error Build
unfolding find_row
get up id db =
    if not up
    then err unavailable
    else elim (find_row id db.builds) [ some r ↦ ok r | none ↦ err no_rows ]

-- ORDER BY created_at DESC
abbrev pub newest_first : Build → Build → Bool
newest_first a b = leb b.created_at a.created_at

-- List
unfoldable pub list : Bool → ℕ → Db → Result Error (List Build)
list up limit db = if not up then err unavailable else ok (take limit (sort newest_first db.builds))

-- ORDER BY priority DESC, created_at ASC
abbrev pub most_urgent_first : Build → Build → Bool
most_urgent_first a b =
    ltb_ℤ b.priority a.priority
    || (not (ltb_ℤ a.priority b.priority) && leb a.created_at b.created_at)

-- ListPending
unfoldable pub list_pending : Bool → Db → Result Error (List Build)
list_pending up db =
    if not up
    then err unavailable
    else ok (take 100 (sort most_urgent_first (select (λ r. is_pending r.status) db.builds)))

-- the two UPDATE statements for a terminal status
unfoldable pub finish_row : ℕ → Status → Bytes → Bytes → Bytes → Build → Build
finish_row now status worker_id log_line err_msg r = record r {
  status = status;
  worker_id = if eqb worker_id [] then r.worker_id else worker_id;
  logs = r.logs ++ log_line;
  error = err_msg;
  updated_at = now;
  completed_at = some now;
}

-- the UPDATE statement for `building`, and for a status that no other branch takes
unfoldable pub assign_row : ℕ → Status → Bytes → Bytes → Bytes → Build → Build
assign_row now status worker_id log_line err_msg r = record r {
  status = status;
  worker_id = worker_id;
  logs = r.logs ++ log_line;
  error = err_msg;
  updated_at = now;
}

-- the UPDATE statement that appends to the log
unfoldable pub log_row : ℕ → Bytes → Build → Build
log_row now log_line r = record r { logs = r.logs ++ log_line; updated_at = now }

-- the WHERE clauses
abbrev pub has_id : Bytes → Build → Bool
has_id id r = eqb r.id id

abbrev pub is_open : Bytes → Build → Bool
is_open id r = eqb r.id id && not (is_terminal r.status)

abbrev pub is_claimable : Bytes → Build → Bool
is_claimable id r = eqb r.id id && is_pending r.status

-- the table that UpdateStatus leaves if the database answers
unfoldable pub updated_rows : ℕ → Bytes → Status → Bytes → Bytes → Bytes → List Build → List Build
unfolding update_where finish_row assign_row log_row
updated_rows now id status worker_id log_line err_msg rows =
    if is_terminal status
    then update_where (is_open id) (finish_row now status worker_id log_line err_msg) rows
    else if is_building status
    then update_where (is_claimable id) (assign_row now status worker_id log_line err_msg) rows
    else if is_unset status
    then update_where (has_id id) (log_row now log_line) rows
    else update_where (has_id id) (assign_row now status worker_id log_line err_msg) rows

-- UpdateStatus. RowsAffected counts the rows that the WHERE clause picks.
unfoldable pub update_status :
    Bool → ℕ → Bytes → Status → Bytes → Bytes → Bytes → Db → Db × Result Error (Unit {0})
update_status up now id status worker_id log_line err_msg db =
    if not up
    then (db, err unavailable)
    else let db' = record db {
      builds = updated_rows now id status worker_id log_line err_msg db.builds;
    } in
      let affected = length (select (is_claimable id) db.builds) in
      if is_building status && (affected == 0) then (db', err already_claimed) else (db', ok tt)

-- CountPending, CountAll, CountUserBuilding
unfoldable pub count_pending : Bool → Db → Result Error ℕ
count_pending up db =
    if up then ok (length (select (λ r. is_pending r.status) db.builds)) else err unavailable

unfoldable pub count_all : Bool → Db → Result Error ℕ
count_all up db = if up then ok (length db.builds) else err unavailable

unfoldable pub count_user_building : Bool → Bytes → Db → Result Error ℕ
count_user_building up user_id db =
    if up
    then ok (length (select (λ r. is_building r.status && eqb r.user_id user_id) db.builds))
    else err unavailable

-- CountUserDaily counts from midnight UTC.
unfoldable pub count_user_daily : Bool → ℕ → Bytes → Db → Result Error ℕ
count_user_daily up now user_id db =
    let today = now - now % 86400 in
    if up
    then ok (length (select (λ r. eqb r.user_id user_id && leb today r.created_at) db.builds))
    else err unavailable

-- status='building' and now - updated_at > timeout_seconds
abbrev pub is_overdue : ℕ → Build → Bool
is_overdue now r =
    is_building r.status
    && ltb (r.updated_at + pos_part r.timeout_seconds) (now + neg_part r.timeout_seconds)

unfoldable pub time_out_row : ℕ → Build → Build
time_out_row now r = record r {
  status = timed_out;
  error = codes "build timed out";
  updated_at = now;
  completed_at = some now;
}

-- last_heartbeat < now - timeout
abbrev pub is_stale : ℕ → ℕ → Worker → Bool
is_stale now timeout w = ltb (w.last_heartbeat + timeout) now

-- status='building' and the worker's last heartbeat is older than the timeout
abbrev pub is_stranded : ℕ → ℕ → List Worker → Build → Bool
is_stranded now worker_timeout workers r =
    is_building r.status && any (λ w. eqb r.worker_id w.id && is_stale now worker_timeout w) workers

unfoldable pub requeue_row : ℕ → Build → Build
requeue_row now r = record r { status = pending; worker_id = []; updated_at = now }

-- ReassignStale runs two statements; the parameter `buildTimeout` is not used. `up2` says whether the
-- database answers the second.
unfoldable pub reassign_stale : Bool → Bool → ℕ → ℕ → ℕ → Db → Db × Result Error (Unit {0})
unfolding update_where time_out_row requeue_row
reassign_stale up up2 now worker_timeout build_timeout db =
    if not up
    then (db, err unavailable)
    else let db1 = record db {
      builds = update_where (is_overdue now) (time_out_row now) db.builds;
    } in
      if not up2 then (db1, err unavailable) else (
        record db1 {
          builds =
              update_where (is_stranded now worker_timeout db1.workers) (requeue_row now)
                db1.builds;
        },
        ok tt,
      )

-- a terminal row that completed before the given time
abbrev pub is_expired : ℕ → Build → Bool
is_expired before r =
    is_terminal r.status && elim r.completed_at [ none ↦ false | some t ↦ ltb t before ]

-- GC deletes, and reports how many rows went. The given time is what the text of the cutoff shows.
unfoldable pub gc : Bool → ℕ → Db → Db × Result Error ℕ
gc up before db = if not up then (db, err unavailable) else (
  record db { builds = select (λ r. not (is_expired before r)) db.builds },
  ok (length (select (is_expired before) db.builds)),
)

unfoldable pub rate_row : Rate → Build → Build
rate_row rate r = record r { cache_hit_rate = rate }

-- SetCacheRate
unfoldable pub set_cache_rate : Bool → Bytes → Rate → Db → Db × Result Error (Unit {0})
unfolding update_where rate_row
set_cache_rate up id rate db =
    if not up
    then (db, err unavailable)
    else (record db { builds = update_where (has_id id) (rate_row rate) db.builds }, ok tt)

-- INSERT … ON CONFLICT(id) DO UPDATE
unfoldable pub put_worker : Worker → List Worker → List Worker
put_worker w [] = w ∷ []
put_worker w (v ∷ vs) = if eqb v.id w.id then w ∷ vs else v ∷ put_worker w vs

-- Upsert sets the heartbeat of the caller's worker, and stores it.
unfoldable pub upsert : Bool → ℕ → Worker → Db → Db × Worker × Result Error (Unit {0})
unfolding put_worker
upsert up now w db =
    let w' = record w { last_heartbeat = now } in
    if not up
    then (db, w', err unavailable)
    else (record db { workers = put_worker w' db.workers }, w', ok tt)

abbrev pub is_offline : Worker → Bool
is_offline w = eqb w.status (codes "offline")

-- CountActive: last_heartbeat > now - maxAge
unfoldable pub count_active : Bool → ℕ → ℕ → Db → Result Error ℕ
count_active up now max_age db =
    if up
    then ok (
        length
          (select (λ w. ltb now (w.last_heartbeat + max_age) && not (is_offline w)) db.workers))
    else err unavailable

unfoldable pub offline_worker : Worker → Worker
offline_worker w = record w { status = codes "offline" }

-- MarkOffline
unfoldable pub mark_offline : Bool → ℕ → ℕ → Db → Db × Result Error (Unit {0})
unfolding update_where offline_worker
mark_offline up now max_age db = if not up then (db, err unavailable) else (
  record db {
    workers =
        update_where (λ w. is_stale now max_age w && not (is_offline w)) offline_worker db.workers;
  },
  ok tt,
)
